-- ===== src/Logs/Watcher/Total.antt =====
-- The descent from owners where ownership has a rank: the depth that it needs.
use kubetail.Prelude.{
  ℕ, ◌<◌, ◌≡◌, refl, true, some, List, [], ◌∷◌, nat_comparable, Str, str_comparable,
}
use kubetail.Collections.SetOf.{SetOf}
use kubetail.Collections.MapSet.{contains_one}
use kubetail.Logs.Objects.{ObjectMeta, Pod}
use kubetail.Logs.Path.{ParsedPath}
use kubetail.Logs.Sources.{LogSource, source_comparable}
use kubetail.Logs.Select.{scan_pods}
use kubetail.Logs.Index
use kubetail.Logs.Index.Ownership.{get_leaf_ids_total}
use kubetail.Logs.Watcher.{SourceWatcher, scan_workloads, scan_paths, want_sources}

module _ {U : SetOf Str} {L : SetOf LogSource} (depth : ℕ) (w : SourceWatcher U L) (rank : Str → ℕ)
    (down : (a b : Str) → contains_one w.index.ownership_map a b ≡ true → rank b < rank a)
    (deep : (a : Str) → rank a < depth) where
  get_pods_total :
      (id : Str)
      → (pods : List Pod) × (Index.get_pods_owned_by_workload depth w.index id ≡ some pods)
  unfolding Index.get_pods_owned_by_workload
  get_pods_total id =
      let (l, e) = get_leaf_ids_total w.index.ownership_map rank down depth id (deep id) in
      (Index.pick_pods w.index.data_map l, rw (e, Index.get_pods_owned_by_workload))

  scan_workloads_total :
      (want_name : Str) (ms : List ObjectMeta) (want : L.Set)
      → (want' : L.Set) × (scan_workloads depth w want_name ms want ≡ some want')
  unfolding scan_workloads
  scan_workloads_total want_name [] want = (want, refl)
  scan_workloads_total want_name (m ∷ ms) want =
      let (pods, e) = get_pods_total m.uid in
      rw (e, scan_workloads)
        (scan_workloads_total want_name ms (scan_pods L w.config w.node_map want_name pods want))

  scan_paths_total :
      (pps : List ParsedPath) (want : L.Set)
      → (want' : L.Set) × (scan_paths depth w pps want ≡ some want')
  unfolding scan_paths
  scan_paths_total [] want = (want, refl)
  scan_paths_total (pp ∷ pps) want =
      let (mid, e) =
        scan_workloads_total pp.container_name
          (Index.get_workloads w.index pp.namespace pp.workload_type pp.workload_name) want in
      rw (e, scan_paths) (scan_paths_total pps mid)

  -- Where ownership leads down a rank below the depth, the wanted sources are computed.
  pub want_sources_total : (want : L.Set) × (want_sources depth w ≡ some want)
  unfolding want_sources
  want_sources_total = scan_paths_total w.parsed_paths L.empty
