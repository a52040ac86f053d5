-- ===== src/Logs/Watcher/Wanted.antt =====
-- The set that `want_sources` computes, described by what is in the index and the node map.
use kubetail.Prelude.{
  ℕ, ◌≡◌, sym, ◌∙◌, subst, ◌↔◌, ◌⊎◌, inl, inr, true, some, List, [], ◌∷◌, ◌++◌, arith, Option-cases,
  nat_comparable, In, here, there, In-nil, In-cases, Str, str_comparable,
}
use kubetail.Prelude.{iff_add}
use mathlib.Core.Option.{some-injective}
use kubetail.Collections.SetOf.{SetOf}
use kubetail.Logs.Objects.{ObjectMeta, ContainerStatus, Pod}
use kubetail.Logs.Path.{ParsedPath}
use kubetail.Logs.Sources.{LogSource, source_comparable}
use kubetail.Logs.Select.{scan_pods}
use kubetail.Logs.Select.Filters.{IsSelected, select_iff}
use kubetail.Logs.Select.Scan.{At, FromPods, scan_pods_exact}
use kubetail.Logs.Index
use kubetail.Logs.Watcher.{SourceWatcher, scan_workloads, scan_paths, want_sources}

module _ {U : SetOf Str} {L : SetOf LogSource} (depth : ℕ) (w : SourceWatcher U L) where
  -- A source of a container of a pod that a workload owns.
  abbrev FromWorkload : Str → ObjectMeta → LogSource → Type 0
  FromWorkload want_name m s =
      (pods : List Pod) × (Index.get_pods_owned_by_workload depth w.index m.uid ≡ some pods)
      × FromPods L w.config w.node_map want_name pods s

  abbrev FromWorkloads : Str → List ObjectMeta → LogSource → Type 0
  FromWorkloads want_name ms s = (m : ObjectMeta) × In m ms × FromWorkload want_name m s

  abbrev FromPaths : List ParsedPath → LogSource → Type 0
  FromPaths pps s =
      (pp : ParsedPath) × In pp pps
      × FromWorkloads pp.container_name
          (Index.get_workloads w.index pp.namespace pp.workload_type pp.workload_name) s

  own_pods :
      (want_name : Str) (m : ObjectMeta) (pods : List Pod) (s : LogSource)
      → Index.get_pods_owned_by_workload depth w.index m.uid ≡ some pods
      → FromWorkload want_name m s
      → FromPods L w.config w.node_map want_name pods s
  own_pods want_name m pods s e (pods', e', f) =
      subst (λ l. FromPods L w.config w.node_map want_name l s) (some-injective _ _ (sym e' ∙ e)) f

  FromWorkloads-cons :
      (want_name : Str) (m : ObjectMeta) (ms : List ObjectMeta) (pods : List Pod) (s : LogSource)
      → Index.get_pods_owned_by_workload depth w.index m.uid ≡ some pods
      → FromWorkloads want_name (m ∷ ms) s
        ↔ (FromPods L w.config w.node_map want_name pods s ⊎ FromWorkloads want_name ms s)
  FromWorkloads-cons want_name m ms pods s e = (
    (λ (m', i, f). elim (In-cases i) [
      | inl same ↦
          inl (own_pods want_name m pods s e (subst (λ x. FromWorkload want_name x s) (sym same) f))
      | inr j ↦ inr (m', j, f)
    ]),
    (λ h. elim h [ inl f ↦ (m, here, (pods, e, f)) | inr (m', i, f) ↦ (m', there i, f) ]),
  )

  scan_workloads_exact :
      (want_name : Str) (ms : List ObjectMeta) (want want' : L.Set) (s : LogSource)
      → scan_workloads depth w want_name ms want ≡ some want'
      → (L.contains want' s ≡ true) ↔ ((L.contains want s ≡ true) ⊎ FromWorkloads want_name ms s)
  unfolding scan_workloads
  scan_workloads_exact want_name [] want want' s h =
      let e : want ≡ want' = ground arith in
      (
        (λ c. inl (rw e c)),
        (λ c. elim c [ inl d ↦ rw (← e) d | inr (m, i, f) ↦ absurd (In-nil i) ]),
      )
  scan_workloads_exact want_name (m ∷ ms) want want' s h =
      elim (Option-cases (Index.get_pods_owned_by_workload depth w.index m.uid)) [
        | inl e ↦ absurd (ground arith)
        | inr (pods, e) ↦
            iff_add
              (scan_workloads_exact want_name ms
                (scan_pods L w.config w.node_map want_name pods want) want' s (ground arith))
              (scan_pods_exact L w.config w.node_map want_name pods want s)
              (FromWorkloads-cons want_name m ms pods s e)
      ]

  FromPaths-cons :
      (pp : ParsedPath) (pps : List ParsedPath) (s : LogSource)
      → FromPaths (pp ∷ pps) s ↔ (
          FromWorkloads pp.container_name
            (Index.get_workloads w.index pp.namespace pp.workload_type pp.workload_name)
            s
          ⊎ FromPaths pps s)
  FromPaths-cons pp pps s = (
    (λ (p, i, f). elim (In-cases i) [
      | inl same ↦ inl (
          subst
            (λ x.
              FromWorkloads x.container_name
                (Index.get_workloads w.index x.namespace x.workload_type x.workload_name) s)
            (sym same) f)
      | inr j ↦ inr (p, j, f)
    ]),
    (λ h. elim h [ inl f ↦ (pp, here, f) | inr (p, i, f) ↦ (p, there i, f) ]),
  )

  scan_paths_exact :
      (pps : List ParsedPath) (want want' : L.Set) (s : LogSource)
      → scan_paths depth w pps want ≡ some want'
      → (L.contains want' s ≡ true) ↔ ((L.contains want s ≡ true) ⊎ FromPaths pps s)
  unfolding scan_paths
  scan_paths_exact [] want want' s h =
      let e : want ≡ want' = ground arith in
      (
        (λ c. inl (rw e c)),
        (λ c. elim c [ inl d ↦ rw (← e) d | inr (m, i, f) ↦ absurd (In-nil i) ]),
      )
  scan_paths_exact (pp ∷ pps) want want' s h =
      elim (Option-cases (
        scan_workloads depth w pp.container_name
          (Index.get_workloads w.index pp.namespace pp.workload_type pp.workload_name) want)) [
            | inl e ↦ absurd (ground arith)
            | inr (mid, e) ↦
                iff_add (scan_paths_exact pps mid want' s (ground arith))
                  (scan_workloads_exact pp.container_name _ want mid s e) (FromPaths-cons pp pps s)
          ]

  -- Why a source is wanted: the path, the workload, the pod and the container that it comes from.
  pub record IsWanted (s : LogSource) : Type 0 where
    pub path : ParsedPath
    pub has_path : In path w.parsed_paths
    pub workload : ObjectMeta
    pub has_workload :
        In workload
          (Index.get_workloads w.index path.namespace path.workload_type path.workload_name)
    pub pods : List Pod
    pub owns : Index.get_pods_owned_by_workload depth w.index workload.uid ≡ some pods
    pub pod : Pod
    pub has_pod : In pod pods
    pub position : ℕ
    pub status : ContainerStatus
    pub has_status : At status position 0 (pod.container_statuses ++ pod.init_container_statuses)
    pub selected : IsSelected w.config w.node_map path.container_name pod position status s

  -- A source is in the computed set exactly if some container of a pod of a workload of a path of
  -- the watcher passes all the filters and has that source.
  pub want_sources_exact :
      (want : L.Set) (s : LogSource)
      → want_sources depth w ≡ some want
      → (L.contains want s ≡ true) ↔ IsWanted s
  unfolding want_sources
  want_sources_exact want s h = (
    (λ c. elim ((scan_paths_exact w.parsed_paths L.empty want s h).0 c) [
      | inl e ↦ absurd (ground (arith, L.contains-empty s))
      | inr (pp, i, (m, j, (pods, own, (pod, k, (n, st, at, sel))))) ↦ record {
        path = pp;
        has_path = i;
        workload = m;
        has_workload = j;
        pods = pods;
        owns = own;
        pod = pod;
        has_pod = k;
        position = n;
        status = st;
        has_status = at;
        selected = (select_iff w.config w.node_map pp.container_name pod n st s).0 sel;
      }
    ]),
    (λ r. (scan_paths_exact w.parsed_paths L.empty want s h).1 (
        inr (
          r.path,
          r.has_path,
          (
            r.workload,
            r.has_workload,
            (
              r.pods,
              r.owns,
              (
                r.pod,
                r.has_pod,
                (
                  r.position,
                  r.status,
                  r.has_status,
                  (select_iff w.config w.node_map r.path.container_name r.pod r.position r.status
                        s).1
                      r.selected,
                ),
              ),
            ),
          ),
        ))),
  )
