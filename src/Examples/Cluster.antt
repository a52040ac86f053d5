-- ===== src/Examples/Cluster.antt =====
-- Runs of the source watcher on a cluster of one node, one deployment and one pod.
use kubetail.Prelude.{
  ℕ, ◌<◌, ◌≡◌, refl, subst, ◌↔◌, true, false, none, some, List, [], ◌∷◌, arith, if◌then◌else◌, ◌==◌,
  nat_comparable, All, Str, str, same_str_iff, str_comparable, ok,
}
use kubetail.Prelude.{lookup, insert, delete}
use kubetail.Collections.SetOf.{SetOf, list_set}
use kubetail.Collections.MapSet
use kubetail.Logs.Objects.{ObjectMeta, ContainerStatus, Pod, Node, Object}
use kubetail.Logs.WorkloadType.{WorkloadType, to_string}
use kubetail.Logs.Sources.{LogSource, source_comparable, Event, added, deleted, same_source}
use kubetail.Logs.Index
use kubetail.Logs.Select.{
  passes, label, container_key, node_passes, wants, select, scan_statuses, scan_pods,
  events_between,
}
use kubetail.Logs.Watcher.Calls.{
  Call, workload_added, node_added, node_deleted, started, handle, run,
}
use kubetail.Logs.Watcher.New.{zero_config}
use kubetail.Logs.Watcher.Events.{replay}
use kubetail.Logs.Watcher.Mirror.{run-Follows}
use kubetail.Logs.Watcher.InSync.{run-InSync, run_wanted}
use kubetail.Logs.Watcher.Wanted.{IsWanted, want_sources_exact}
use kubetail.Logs.Watcher.RunsTotal.{HasRank, Descends, run_total}
use kubetail.Logs.Select.Filters.{IsSelected, select_iff}
use kubetail.Logs.Stream.{
  Stream, handle_source_add, handle_source_delete, LogFetcher, zero_stream_config,
}
use kubetail.Logs.Stream.Follows.{handle_event, handle_events, stream-Follows}
use kubetail.Collections.MapSet.{MapSet}
use kubetail.Logs.Watcher.{
  SourceWatcher, scan_workloads, scan_paths, want_sources, update_sources, update_if_ready,
  handle_workload_add, handle_workload_delete, handle_node_add, handle_node_delete, finish_start,
}

abbrev uids : SetOf Str
uids = list_set

abbrev log_sources : SetOf LogSource
log_sources = list_set

abbrev pub Watcher : Type 0
Watcher = SourceWatcher uids log_sources

abbrev pub node_a : Node
node_a = record {
  meta = record { uid = str "n"; namespace = []; name = str "node-a"; owners = [] };
  labels = [];
  operating_system = str "linux";
  architecture = str "amd64";
}

abbrev pub web : ObjectMeta
web = record { uid = str "d"; namespace = str "default"; name = str "web"; owners = [] }

abbrev pub app_status : ContainerStatus
app_status = record { name = str "app"; container_id = str "c" }

abbrev pub web_pod : Pod
web_pod = record {
  meta = record {
    uid = str "p";
    namespace = str "default";
    name = str "web-1";
    owners = str "d" ∷ [];
  };
  node_name = str "node-a";
  container_statuses = app_status ∷ [];
  init_container_statuses = [];
}

abbrev pub app_source : LogSource
app_source = record {
  metadata = record {
    region = [];
    zone = [];
    os = str "linux";
    arch = str "amd64";
    node = str "node-a";
  };
  namespace = str "default";
  pod_name = str "web-1";
  container_name = str "app";
  container_id = str "c";
}

abbrev pub new_watcher : Watcher
new_watcher = record {
  config = zero_config;
  parsed_paths =
      record {
        namespace = str "default";
        workload_type = WorkloadType.deployment;
        workload_name = str "web";
        container_name = [];
      }
      ∷ [];
  sources = log_sources.empty;
  index = Index.new;
  node_map = [];
  is_ready = false;
}

abbrev pub calls : List Call
calls =
    workload_added (Object.deployment web)
    ∷ workload_added (Object.pod web_pod)
    ∷ node_added (Object.node node_a)
    ∷ started
    ∷ node_deleted (Object.node node_a)
    ∷ node_added (Object.node node_a)
    ∷ []

abbrev pub events : List Event
events = added app_source ∷ deleted app_source ∷ added app_source ∷ []

-- The watcher after these calls.
abbrev pub last_watcher : Watcher
last_watcher = elim (run 3 new_watcher calls) [ none ↦ new_watcher | some (w, es) ↦ w ]

run-calls :
    (run 3 new_watcher calls ≡ some (last_watcher, events))
    × (last_watcher.is_ready ≡ true)
    × (last_watcher.index.ownership_map ≡ MapSet.add MapSet.new (str "d") (str "p"))
unfolding run handle handle_workload_add handle_workload_delete handle_node_add handle_node_delete
    finish_start update_if_ready update_sources want_sources scan_paths scan_workloads scan_pods
    scan_statuses select node_passes wants passes label container_key events_between same_source
    lookup insert delete MapSet.add MapSet.get Index.add Index.get_workloads Index.pick_workloads
    Index.get_leaf_ids Index.collect Index.pick_pods Index.get_pods_owned_by_workload
    Index.workload_of Index.as_workload Index.as_pod Index.add_owners Index.generate_data_key
    to_string
run-calls = (refl, refl, refl)

run-Follows_example :
    log_sources.contains (replay log_sources new_watcher.sources events) app_source
    ≡ log_sources.contains last_watcher.sources app_source
run-Follows_example = run-Follows 3 new_watcher last_watcher calls events app_source run-calls.0

run_wanted_example : want_sources 3 last_watcher ≡ some last_watcher.sources
run_wanted_example = run_wanted 3 new_watcher last_watcher calls events refl run-calls.0 run-calls.1

last_wanted : want_sources 3 last_watcher ≡ some last_watcher.sources
last_wanted = run_InSync_last
  where
    run_InSync_last : want_sources 3 last_watcher ≡ some last_watcher.sources
    run_InSync_last =
        run-InSync 3 new_watcher last_watcher calls events (λ r. absurd (cc)) run-calls.0
          run-calls.1

want_sources_exact_example :
    (log_sources.contains last_watcher.sources app_source ≡ true)
    ↔ IsWanted 3 last_watcher app_source
want_sources_exact_example =
    want_sources_exact 3 last_watcher last_watcher.sources app_source last_wanted

-- The deployment owns the pod.
abbrev owned : MapSet Str uids
owned = MapSet.add MapSet.new (str "d") (str "p")

abbrev rank : Str → ℕ
rank s = if s == str "d" then 1 else 0

owned-rank : (a b : Str) → MapSet.contains_one owned a b ≡ true → rank b < rank a
unfolding lookup insert delete MapSet.add MapSet.contains_one
owned-rank a b h = ground (
  arith,
  MapSet.contains_one-add (MapSet.new {S = uids}) (str "d") a (str "p") b,
  same_str_iff (str "d") a,
  same_str_iff (str "p") b,
)

abbrev fetcher : LogFetcher
fetcher = record { stream_forward = λ x o. ok []; stream_backward = λ x o. ok [] }

abbrev started_stream : Stream log_sources
started_stream = record {
  config = zero_stream_config;
  sources = new_watcher.sources;
  is_started = true;
  error = none;
}

stream-Follows_example :
    log_sources.contains (handle_events fetcher started_stream events).sources app_source
    ≡ log_sources.contains last_watcher.sources app_source
stream-Follows_example =
    stream-Follows fetcher 3 new_watcher last_watcher calls events events started_stream app_source
      run-calls.0 refl (λ x. ([], refl)) refl refl

-- A DELETED event that overtakes the ADDED event of its source.
overtaken :
    log_sources.contains
      (handle_events fetcher started_stream (deleted app_source ∷ added app_source ∷ [])).sources
      app_source
    ≡ true
unfolding handle_events handle_event handle_source_add handle_source_delete same_source
overtaken = refl

select_iff_example :
    (select zero_config ((str "node-a", node_a) ∷ []) (str "*") web_pod 0 app_status
      ≡ some app_source)
    ↔ IsSelected zero_config ((str "node-a", node_a) ∷ []) (str "*") web_pod 0 app_status app_source
select_iff_example =
    select_iff zero_config ((str "node-a", node_a) ∷ []) (str "*") web_pod 0 app_status app_source

web-HasRank : HasRank rank (Object.deployment web)
unfolding Index.workload_of
web-HasRank t m e =
    subst (λ x. All (λ o. rank x.uid < rank o) x.owners) {x = web} {y = m} (ground arith) tt

web_pod-HasRank : HasRank rank (Object.pod web_pod)
unfolding Index.workload_of
web_pod-HasRank t m e =
    subst (λ x. All (λ o. rank x.uid < rank o) x.owners) {x = web_pod.meta} {y = m} (ground arith)
      (ground arith)

new-Descends : Descends rank new_watcher.index.ownership_map
unfolding MapSet.contains_one lookup
new-Descends a b h = absurd (cc)

run_total_example : (w' : Watcher) × (es : List Event) × (run 3 new_watcher calls ≡ some (w', es))
run_total_example =
    run_total 3 rank (λ a. ground arith) new_watcher calls
      (web-HasRank, (web_pod-HasRank, (tt, (tt, (tt, (tt, tt)))))) new-Descends
