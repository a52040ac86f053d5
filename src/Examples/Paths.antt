-- ===== src/Examples/Paths.antt =====
-- Paths, options and names.
use kubetail.Prelude.{
  ◌≤◌, ◌≡◌, refl, ◌≢◌, ◌⊎◌, true, false, ◌&&◌, Option, none, List, [], ◌∷◌, arith, nat_comparable,
  All, here, Str, str, str_comparable, ok, err,
}
use kubetail.Collections.SetOf.{SetOf, list_set}
use kubetail.Strings.{trim, trim_left, split, cut_at, to_lower}
use kubetail.Logs.WorkloadType.{WorkloadType, to_string, parse_workload_type}
use kubetail.Logs.Path.{ParsedPath, parse_path, parse_parts, finish, namespace_parts}
use kubetail.Logs.Path.Parse.{path_of, parse_path_ok}
use kubetail.Logs.Path.Accept.{parse_path-path_of}
use kubetail.Logs.Sources.{LogSource, source_comparable}
use kubetail.Logs.Select.{passes}
use kubetail.Logs.Options.{
  LogOption, StreamConfig, with_follow, with_allowed_namespaces, apply_stream_options, apply_stream,
  apply_watcher, apply_watcher_options,
}
use kubetail.Logs.Index
use kubetail.Logs.Watcher.{SourceWatcher}
use kubetail.Logs.Watcher.New.{
  IsKept, new_source_watcher, new_source_watcher-IsKept, IsCovered, fetch_tuples,
  fetch_tuples_cover, parse_paths, zero_config,
}
use kubetail.Logs.Stream.{new_stream, validate, is_head, zero_stream_config}
use kubetail.Logs.Stream.New.{new_stream_ok}

abbrev uids : SetOf Str
uids = list_set

abbrev log_sources : SetOf LogSource
log_sources = list_set

abbrev web_path : ParsedPath
web_path = record {
  namespace = str "default";
  workload_type = WorkloadType.deployment;
  workload_name = str "web";
  container_name = str "app";
}

parse_path-path_of_example :
    parse_path (path_of (str "default") (str "Deployment" ∷ str "web" ∷ str "app" ∷ [])) [] false
    ≡ ok web_path
unfolding to_string
parse_path-path_of_example =
    parse_path-path_of (str "default") [] false WorkloadType.deployment (str "web") (str "app")
      (ground arith) (ground arith) (λ e. cc) (ground arith) (ground arith) (λ e. cc)

parsed : parse_path (str "default:deployments/web/app") [] true ≡ ok web_path
unfolding parse_path parse_parts finish namespace_parts trim trim_left split cut_at
    parse_workload_type to_lower
parsed = refl

parse_path_ok_example :
    (WorkloadType.deployment ≢ WorkloadType.unknown) × ((true ≡ false) ⊎ (str "app" ≢ []))
parse_path_ok_example = parse_path_ok (str "default:deployments/web/app") [] true web_path parsed

abbrev new_watcher : SourceWatcher uids log_sources
new_watcher = record {
  config = record zero_config { allowed_namespaces = str "default" ∷ [] };
  parsed_paths = web_path ∷ [];
  sources = log_sources.empty;
  index = Index.new;
  node_map = [];
  is_ready = false;
}

abbrev paths : List Str
paths = str "default:deployments/web/app" ∷ str "kube-system:pods/x" ∷ []

abbrev opts : List LogOption
opts = with_allowed_namespaces (str "default" ∷ []) ∷ with_follow true ∷ []

made_watcher : new_source_watcher (λ c. []) paths opts ≡ ok new_watcher
unfolding new_source_watcher parse_paths passes apply_watcher apply_watcher_options parse_path
    parse_parts finish namespace_parts trim trim_left split cut_at parse_workload_type to_lower
made_watcher = refl

new_source_watcher-IsKept_example : All (IsKept new_watcher.config) new_watcher.parsed_paths
new_source_watcher-IsKept_example =
    new_source_watcher-IsKept (λ c. []) paths opts new_watcher made_watcher

fetch_tuples_cover_example :
    IsCovered (str "default") WorkloadType.deployment (fetch_tuples (web_path ∷ []))
fetch_tuples_cover_example = fetch_tuples_cover web_path (web_path ∷ []) here

abbrev new_config : StreamConfig
new_config = record zero_stream_config { follow = true }

made_stream :
    new_stream (λ s. err s) (λ c. []) (λ c. ok tt) 1 paths opts
    ≡ ok (
      record { config = new_config; sources = log_sources.empty; is_started = false; error = none },
      new_watcher,
    )
unfolding new_stream validate apply_stream apply_stream_options new_source_watcher parse_paths
    passes apply_watcher apply_watcher_options parse_path parse_parts finish namespace_parts trim
    trim_left split cut_at parse_workload_type to_lower
made_stream = refl

new_stream_ok_example :
    ((new_config.follow && is_head new_config.mode) ≡ false)
    × ((new_config.follow ≡ false) ⊎ (new_config.until_time ≡ 0) ⊎ (1 ≤ new_config.until_time))
    × (false ≡ false)
    × (log_sources.empty ≡ log_sources.empty)
    × (◌≡◌ {A = Option Str} none none)
    × All (IsKept new_watcher.config) new_watcher.parsed_paths
new_stream_ok_example =
    new_stream_ok (λ s. err s) (λ c. []) (λ c. ok tt) 1 paths opts
      (record {
        config = new_config;
        sources = log_sources.empty;
        is_started = false;
        error = none;
      })
      new_watcher made_stream
