-- ===== src/Logs/Options.antt =====
-- modules/shared/logs/options.go: the options of a stream and of its source watcher. An option is a
-- function of a target in the source, and a value here; `apply_stream` and `apply_watcher` are what
-- it does to the two kinds of target. `regexp.Compile` is the argument `compile`.
use kubetail.Prelude.{
  ℕ, Bool, true, Option, some, List, [], ◌∷◌, ◌++◌, if◌then◌else◌, ◌==◌, nat_comparable, Str, str,
  str_comparable, Result, ok, err,
}
use kubetail.Prelude.Int.{ℤ, pos, negsuc}
use kubetail.Strings.{trim_space, replace_all}
use kubetail.Logs.Records.{Time}
use kubetail.Logs.Select.{WatcherConfig}

pub data StreamMode : Type 0 where
  unknown head tail all : StreamMode

-- The fields of Stream that options set. `has_fetcher` says whether a log fetcher is set.
pub record StreamConfig : Type 0 where
  pub kube_context : Str
  pub since_time : Time
  pub until_time : Time
  pub follow : Bool
  pub grep : Str
  pub grep_regex : Option (Str → Bool)
  pub mode : StreamMode
  pub max_num : ℕ
  pub max_chunk_size : ℕ
  pub has_fetcher : Bool

pub data LogOption : Type 0 where
  with_kube_context with_bearer_token : Str → LogOption
  with_since with_until : Time → LogOption
  with_follow : Bool → LogOption
  with_head with_tail : ℤ → LogOption
  with_all : LogOption
  with_grep : Str → LogOption
  with_regions with_zones with_oses with_arches with_nodes with_containers : List Str → LogOption
  with_log_fetcher : LogOption
  with_allowed_namespaces : List Str → LogOption
  with_all_containers : Bool → LogOption
  with_max_chunk_size : ℕ → LogOption

-- What stands for a space in a pattern: white space with colour codes around it.
abbrev pub ansi_space : Str
ansi_space = str "(?:(?:\\x1B\\[[0-9;]*[mK])?)*\\s(?:(?:\\x1B\\[[0-9;]*[mK])?)*"

pub grep_pattern : Str → Str
grep_pattern pattern = str "(?i)" ++ replace_all b' ' ansi_space pattern

module _ (compile : Str → Result (Str → Bool)) where
  unfoldable pub apply_grep : StreamConfig → Str → Result StreamConfig
  apply_grep t pattern = if pattern == [] then ok t else elim (compile (grep_pattern pattern)) [
    | err e ↦ err (str "invalid grep pattern: " ++ e)
    | ok regex ↦ ok (record t { grep = grep_pattern pattern; grep_regex = some regex })
  ]

  unfoldable pub apply_stream : StreamConfig → LogOption → Result StreamConfig
  unfolding apply_grep grep_pattern
  apply_stream t (with_kube_context c) = ok (record t { kube_context = c })
  apply_stream t (with_since ts) = ok (record t { since_time = ts })
  apply_stream t (with_until ts) = ok (record t { until_time = ts })
  apply_stream t (with_follow f) = ok (record t { follow = f })
  apply_stream t (with_head (pos n)) = ok (record t { mode = head; max_num = n })
  apply_stream t (with_head (negsuc n)) = err (str "head must be >= 0")
  apply_stream t (with_tail (pos n)) = ok (record t { mode = tail; max_num = n })
  apply_stream t (with_tail (negsuc n)) = err (str "tail must be >= 0")
  apply_stream t with_all = ok (record t { mode = all })
  apply_stream t (with_grep pattern) = apply_grep t (trim_space pattern)
  apply_stream t with_log_fetcher = ok (record t { has_fetcher = true })
  apply_stream t (with_max_chunk_size n) = ok (record t { max_chunk_size = n })
  apply_stream t _ = ok t

  -- `for _, opt := range opts { if err := opt(stream); err != nil { return nil, err } }`
  unfoldable pub apply_stream_options : StreamConfig → List LogOption → Result StreamConfig
  unfolding apply_stream
  apply_stream_options t [] = ok t
  apply_stream_options t (o ∷ os) = elim (apply_stream t o) [
    | err e ↦ err e
    | ok t' ↦ apply_stream_options t' os
  ]

-- No option fails on a source watcher.
unfoldable pub apply_watcher : WatcherConfig → LogOption → WatcherConfig
apply_watcher t (with_kube_context c) = record t { kube_context = c }
apply_watcher t (with_bearer_token token) = record t { bearer_token = token }
apply_watcher t (with_regions l) = record t { regions = l }
apply_watcher t (with_zones l) = record t { zones = l }
apply_watcher t (with_oses l) = record t { oses = l }
apply_watcher t (with_arches l) = record t { arches = l }
apply_watcher t (with_nodes l) = record t { nodes = l }
apply_watcher t (with_containers l) = record t { containers = l }
apply_watcher t (with_allowed_namespaces l) = record t { allowed_namespaces = l }
apply_watcher t (with_all_containers b) = record t { all_containers = b }
apply_watcher t _ = t

unfoldable pub apply_watcher_options : WatcherConfig → List LogOption → WatcherConfig
unfolding apply_watcher
apply_watcher_options t [] = t
apply_watcher_options t (o ∷ os) = apply_watcher_options (apply_watcher t o) os
