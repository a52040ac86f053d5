-- ===== src/Logs/Watcher/InSync.antt =====
-- The sources of a watcher against what its index and its nodes ask for, over runs of its calls.
use kubetail.Prelude.{
  ℕ, ◌≡◌, refl, ◌∙◌, subst, inl, inr, Bool, true, false, Option, some, List, [], ◌∷◌, arith,
  Bool-cases, Option-cases, nat_comparable, Str, str_comparable,
}
use kubetail.Collections.SetOf.{SetOf}
use kubetail.Logs.Objects.{ObjectMeta, Object}
use kubetail.Logs.Path.{ParsedPath}
use kubetail.Logs.Sources.{LogSource, source_comparable, Event}
use kubetail.Logs.Select.{scan_pods}
use kubetail.Logs.Index
use kubetail.Logs.Index.{WorkloadIndex}
use kubetail.Logs.Watcher.Calls.{
  Call, workload_added, workload_updated, workload_deleted, node_added, node_updated, node_deleted,
  started, handle, run, run_cons, pair_left,
}
use kubetail.Logs.Watcher.{
  SourceWatcher, scan_workloads, scan_paths, want_sources, update_sources, update_if_ready,
  handle_workload_add, handle_workload_update, handle_workload_delete, handle_node_add,
  handle_node_update, handle_node_delete, finish_start,
}

module _ {U : SetOf Str} {L : SetOf LogSource} (depth : ℕ) where
  -- The wanted sources do not hang on the sources at hand nor on the ready flag.
  scan_workloads-record :
      (w : SourceWatcher U L) (x : L.Set) (r : Bool) (want_name : Str) (ms : List ObjectMeta)
      (want : L.Set)
      → scan_workloads depth (record w { sources = x; is_ready = r }) want_name ms want
        ≡ scan_workloads depth w want_name ms want
  unfolding scan_workloads
  scan_workloads-record w x r want_name [] want = refl
  scan_workloads-record w x r want_name (m ∷ ms) want =
      elim (Option-cases (Index.get_pods_owned_by_workload depth w.index m.uid)) [
        | inl e ↦ rw (e, scan_workloads) refl
        | inr (pods, e) ↦
            rw (e, scan_workloads)
              (scan_workloads-record w x r want_name ms
                (scan_pods L w.config w.node_map want_name pods want))
      ]

  scan_paths-record :
      (w : SourceWatcher U L) (x : L.Set) (r : Bool) (pps : List ParsedPath) (want : L.Set)
      → scan_paths depth (record w { sources = x; is_ready = r }) pps want
        ≡ scan_paths depth w pps want
  unfolding scan_paths
  scan_paths-record w x r [] want = refl
  scan_paths-record w x r (pp ∷ pps) want =
      let ms = Index.get_workloads w.index pp.namespace pp.workload_type pp.workload_name in
      rw (scan_workloads-record w x r pp.container_name ms want, scan_paths)
        (elim (Option-cases (scan_workloads depth w pp.container_name ms want)) [
          | inl e ↦ rw (e, scan_paths) refl
          | inr (want', e) ↦ rw (e, scan_paths) (scan_paths-record w x r pps want')
        ])

  want_sources-record :
      (w : SourceWatcher U L) (x : L.Set) (r : Bool)
      → want_sources depth (record w { sources = x; is_ready = r }) ≡ want_sources depth w
  unfolding want_sources
  want_sources-record w x r = scan_paths-record w x r w.parsed_paths L.empty

  -- A ready watcher has exactly the sources that its index and node map ask for.
  abbrev pub InSync : SourceWatcher U L → Type 0
  InSync w = w.is_ready ≡ true → want_sources depth w ≡ some w.sources

  update_sources-InSync :
      (w w' : SourceWatcher U L) (es : List Event)
      → update_sources depth w ≡ some (w', es)
      → want_sources depth w' ≡ some w'.sources
  unfolding update_sources
  update_sources-InSync w w' es h = elim (Option-cases (want_sources depth w)) [
    | inl e ↦ absurd (ground arith)
    | inr (want, e) ↦
        let same : record w { sources = want } ≡ w' = ground arith in
        subst (λ v. want_sources depth v ≡ some v.sources) same
          (want_sources-record w want w.is_ready ∙ e)
  ]

  update_if_ready-InSync :
      (w w' : SourceWatcher U L) (es : List Event)
      → update_if_ready depth w ≡ some (w', es)
      → InSync w'
  unfolding update_if_ready
  update_if_ready-InSync w w' es h r = elim (Bool-cases w.is_ready) [
    | inl e ↦ update_sources-InSync w w' es (ground arith)
    | inr e ↦ absurd (ground arith)
  ]

  same-InSync :
      (w w' : SourceWatcher U L) (es : List Event)
      → InSync w
      → ◌≡◌ {A = Option (SourceWatcher U L × List Event)} (some (w, [])) (some (w', es))
      → InSync w'
  same-InSync w w' es s h = subst InSync (pair_left h) s

  finish_start-InSync :
      (w w' : SourceWatcher U L) (es : List Event)
      → finish_start depth w ≡ some (w', es)
      → InSync w'
  unfolding finish_start
  finish_start-InSync w w' es h = elim (Option-cases (update_sources depth w)) [
    | inl e ↦ absurd (ground arith)
    | inr ((v, fs), e) ↦
        let same : record v { is_ready = true } ≡ w' = ground arith in
        subst InSync same
          (λ _. want_sources-record v v.sources true ∙ update_sources-InSync w v fs e)
  ]

  -- One call leaves the watcher in step with its index and node map if it was in step before. The
  -- first call that does is the end of `Start`.
  pub handle-InSync :
      (w w' : SourceWatcher U L) (c : Call) (es : List Event)
      → InSync w
      → handle depth w c ≡ some (w', es)
      → InSync w'
  unfolding handle handle_workload_add handle_workload_update handle_workload_delete handle_node_add
      handle_node_update handle_node_delete
  handle-InSync w w' (workload_added obj) es s h = update_if_ready-InSync _ w' es h
  handle-InSync w w' (workload_deleted obj) es s h = update_if_ready-InSync _ w' es h
  handle-InSync w w' (workload_updated old (Object.pod p)) es s h = update_if_ready-InSync _ w' es h
  handle-InSync w w' (workload_updated old obj) es s h = same-InSync w w' es s h
  handle-InSync w w' (node_added (Object.node n)) es s h = update_if_ready-InSync _ w' es h
  handle-InSync w w' (node_added obj) es s h = same-InSync w w' es s h
  handle-InSync w w' (node_updated old (Object.node n)) es s h = update_if_ready-InSync _ w' es h
  handle-InSync w w' (node_updated old obj) es s h = same-InSync w w' es s h
  handle-InSync w w' (node_deleted (Object.node n)) es s h = update_if_ready-InSync _ w' es h
  handle-InSync w w' (node_deleted obj) es s h = same-InSync w w' es s h
  handle-InSync w w' started es s h = finish_start-InSync w w' es h

  pub run-InSync :
      (w w' : SourceWatcher U L) (cs : List Call) (es : List Event)
      → InSync w
      → run depth w cs ≡ some (w', es)
      → InSync w'
  unfolding run
  run-InSync w w' [] es s h = same-InSync w w' es s h
  run-InSync w w' (c ∷ cs) es s h =
      let (v, fs, gs, p, q, _) = run_cons depth w w' c cs es h in
      run-InSync v w' cs gs (handle-InSync w v c fs s p) q

  -- A watcher that was not ready, and is ready after some run, has exactly the sources that its index
  -- and its nodes ask for at that time.
  pub run_wanted :
      (w w' : SourceWatcher U L) (cs : List Call) (es : List Event)
      → w.is_ready ≡ false
      → run depth w cs ≡ some (w', es)
      → w'.is_ready ≡ true
      → want_sources depth w' ≡ some w'.sources
  run_wanted w w' cs es r h = run-InSync w w' cs es (λ r'. absurd (ground arith)) h
