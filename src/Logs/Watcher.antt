-- ===== src/Logs/Watcher.antt =====
-- `sourceWatcher` of modules/shared/logs/source-watcher.go: its state, the sources that the state
-- asks for, and the handlers. The handlers and the tail of `Start` run under the watcher's lock, so
-- a concurrent run is a sequence of these calls. The event bus is not part of the repository: what
-- is published is returned, in order.
pub mod Wanted
pub mod New
pub mod Calls
pub mod InSync
pub mod Mirror
pub mod Total
pub mod RunsTotal
pub mod Events
use kubetail.Prelude.{
  ℕ, Bool, true, Option, none, some, List, [], ◌∷◌, if◌then◌else◌, nat_comparable, Str,
  str_comparable, Map,
}
use kubetail.Prelude.{insert, delete}
use kubetail.Collections.SetOf.{SetOf}
use kubetail.Logs.Objects.{ObjectMeta, Node, Object}
use kubetail.Logs.Path.{ParsedPath}
use kubetail.Logs.Index
use kubetail.Logs.Index.{WorkloadIndex}
use kubetail.Logs.Sources.{LogSource, Event, source_comparable}
use kubetail.Logs.Select.{WatcherConfig, scan_pods, events_between}

pub record SourceWatcher (U : SetOf Str) (L : SetOf LogSource) : Type 0 where
  pub config : WatcherConfig
  pub parsed_paths : List ParsedPath
  pub sources : L.Set
  pub index : WorkloadIndex U
  pub node_map : Map Str Node
  pub is_ready : Bool

module _ {U : SetOf Str} {L : SetOf LogSource} (depth : ℕ) where
  unfoldable pub scan_workloads : SourceWatcher U L → Str → List ObjectMeta → L.Set → Option L.Set
  scan_workloads w want_name [] want = some want
  scan_workloads w want_name (m ∷ ms) want =
      elim (Index.get_pods_owned_by_workload depth w.index m.uid) [
        | none ↦ none
        | some pods ↦
            scan_workloads w want_name ms (scan_pods L w.config w.node_map want_name pods want)
      ]

  unfoldable pub scan_paths : SourceWatcher U L → List ParsedPath → L.Set → Option L.Set
  scan_paths w [] want = some want
  scan_paths w (pp ∷ pps) want =
      elim (scan_workloads w pp.container_name
        (Index.get_workloads w.index pp.namespace pp.workload_type pp.workload_name) want) [
          | none ↦ none
          | some want' ↦ scan_paths w pps want'
        ]

  -- The set `wantSources`. The descent from owners to pods is bounded by `depth`; `none` is a run
  -- in which it goes deeper.
  unfoldable pub want_sources : SourceWatcher U L → Option L.Set
  want_sources w = scan_paths w w.parsed_paths L.empty

  unfoldable pub update_sources : SourceWatcher U L → Option (SourceWatcher U L × List Event)
  update_sources w = elim (want_sources w) [
    | none ↦ none
    | some want ↦ some (record w { sources = want }, events_between L w.sources want)
  ]

  -- `if w.isReady { w.updateSources_UNSAFE() }`
  unfoldable pub update_if_ready : SourceWatcher U L → Option (SourceWatcher U L × List Event)
  update_if_ready w = if w.is_ready then update_sources w else some (w, [])

  unfoldable pub handle_workload_add :
      SourceWatcher U L → Object → Option (SourceWatcher U L × List Event)
  handle_workload_add w obj = update_if_ready (record w { index = (Index.add w.index obj).0 })

  -- Only pods are updated.
  unfoldable pub handle_workload_update :
      SourceWatcher U L → Object → Option (SourceWatcher U L × List Event)
  handle_workload_update w (Object.pod p) =
      update_if_ready (record w { index = (Index.update w.index (Object.pod p)).0 })
  handle_workload_update w _ = some (w, [])

  unfoldable pub handle_workload_delete :
      SourceWatcher U L → Object → Option (SourceWatcher U L × List Event)
  handle_workload_delete w obj = update_if_ready (record w { index = (Index.remove w.index obj).0 })

  unfoldable pub handle_node_add :
      SourceWatcher U L → Object → Option (SourceWatcher U L × List Event)
  handle_node_add w (Object.node n) =
      update_if_ready (record w { node_map = insert n.meta.name n w.node_map })
  handle_node_add w _ = some (w, [])

  unfoldable pub handle_node_update :
      SourceWatcher U L → Object → Option (SourceWatcher U L × List Event)
  handle_node_update w (Object.node n) =
      update_if_ready (record w { node_map = insert n.meta.name n w.node_map })
  handle_node_update w _ = some (w, [])

  unfoldable pub handle_node_delete :
      SourceWatcher U L → Object → Option (SourceWatcher U L × List Event)
  handle_node_delete w (Object.node n) =
      update_if_ready (record w { node_map = delete n.meta.name w.node_map })
  handle_node_delete w _ = some (w, [])

  -- The tail of `Start`, after the informers have synced.
  unfoldable pub finish_start : SourceWatcher U L → Option (SourceWatcher U L × List Event)
  finish_start w = elim (update_sources w) [
    | none ↦ none
    | some (w', events) ↦ some (record w' { is_ready = true }, events)
  ]
