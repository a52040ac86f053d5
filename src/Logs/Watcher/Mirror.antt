-- ===== src/Logs/Watcher/Mirror.antt =====
-- What the watcher publishes over a run, replayed in its order.
use kubetail.Prelude.{
  ℕ, ◌≡◌, refl, ◌∙◌, subst, inl, inr, true, Option, some, List, [], ◌∷◌, arith, Bool-cases,
  Option-cases, nat_comparable, Str, str_comparable,
}
use kubetail.Collections.SetOf.{SetOf}
use kubetail.Logs.Objects.{Object}
use kubetail.Logs.Sources.{LogSource, source_comparable, Event}
use kubetail.Logs.Select.{events_between}
use kubetail.Logs.Watcher.Events.{replay, replay-append, replay-ext, replay-events_between}
use kubetail.Logs.Watcher.Calls.{
  Call, workload_added, workload_updated, workload_deleted, node_added, node_updated, node_deleted,
  started, handle, run, run_cons,
}
use kubetail.Logs.Watcher.{
  SourceWatcher, want_sources, update_sources, update_if_ready, handle_workload_add,
  handle_workload_update, handle_workload_delete, handle_node_add, handle_node_update,
  handle_node_delete, finish_start,
}

module _ {U : SetOf Str} {L : SetOf LogSource} (depth : ℕ) where
  -- The sources after a call are those from before, changed as the events say.
  abbrev Follows : L.Set → Option (SourceWatcher U L × List Event) → Type 0
  Follows have r =
      (w' : SourceWatcher U L) (es : List Event) (s : LogSource)
      → r ≡ some (w', es)
      → L.contains (replay L have es) s ≡ L.contains w'.sources s

  update_sources-Follows : (w : SourceWatcher U L) → Follows w.sources (update_sources depth w)
  unfolding update_sources
  update_sources-Follows w w' es s h = elim (Option-cases (want_sources depth w)) [
    | inl e ↦ absurd (ground arith)
    | inr (want, e) ↦
        let left : record w { sources = want } ≡ w' = ground arith in
        let right : events_between L w.sources want ≡ es = ground arith in
        subst (λ v. L.contains (replay L w.sources es) s ≡ L.contains v.sources s) left
          (subst (λ fs. L.contains (replay L w.sources fs) s ≡ L.contains want s) right
            (replay-events_between L w.sources want s))
  ]

  same-Follows : (w : SourceWatcher U L) → Follows w.sources (some (w, []))
  same-Follows w w' es s h =
      let left : w ≡ w' = ground arith in
      let right : [] ≡ es = ground arith in
      subst (λ v. L.contains (replay L w.sources es) s ≡ L.contains v.sources s) left
        (subst (λ fs. L.contains (replay L w.sources fs) s ≡ L.contains w.sources s) right refl)

  update_if_ready-Follows : (w : SourceWatcher U L) → Follows w.sources (update_if_ready depth w)
  unfolding update_if_ready
  update_if_ready-Follows w w' es s h = elim (Bool-cases w.is_ready) [
    | inl e ↦ update_sources-Follows w w' es s (ground arith)
    | inr e ↦ same-Follows w w' es s (ground arith)
  ]

  finish_start-Follows : (w : SourceWatcher U L) → Follows w.sources (finish_start depth w)
  unfolding finish_start
  finish_start-Follows w w' es s h = elim (Option-cases (update_sources depth w)) [
    | inl e ↦ absurd (ground arith)
    | inr ((v, fs), e) ↦
        let left : record v { is_ready = true } ≡ w' = ground arith in
        let right : fs ≡ es = ground arith in
        subst (λ u. L.contains (replay L w.sources es) s ≡ L.contains u.sources s) left
          (subst (λ gs. L.contains (replay L w.sources gs) s ≡ L.contains v.sources s) right
            (update_sources-Follows w v fs s e))
  ]

  handle-Follows : (w : SourceWatcher U L) (c : Call) → Follows w.sources (handle depth w c)
  unfolding handle handle_workload_add handle_workload_update handle_workload_delete handle_node_add
      handle_node_update handle_node_delete
  handle-Follows w (workload_added obj) = update_if_ready-Follows _
  handle-Follows w (workload_deleted obj) = update_if_ready-Follows _
  handle-Follows w (workload_updated old (Object.pod p)) = update_if_ready-Follows _
  handle-Follows w (workload_updated old obj) = same-Follows w
  handle-Follows w (node_added (Object.node n)) = update_if_ready-Follows _
  handle-Follows w (node_added obj) = same-Follows w
  handle-Follows w (node_updated old (Object.node n)) = update_if_ready-Follows _
  handle-Follows w (node_updated old obj) = same-Follows w
  handle-Follows w (node_deleted (Object.node n)) = update_if_ready-Follows _
  handle-Follows w (node_deleted obj) = same-Follows w
  handle-Follows w started = finish_start-Follows w

  -- Over a whole run that ends, a subscriber that began with the watcher's sources and replays every event
  -- has exactly the sources that the watcher ends with.
  pub run-Follows :
      (w w' : SourceWatcher U L) (cs : List Call) (es : List Event) (s : LogSource)
      → run depth w cs ≡ some (w', es)
      → L.contains (replay L w.sources es) s ≡ L.contains w'.sources s
  unfolding run
  run-Follows w w' [] es s h = same-Follows w w' es s h
  run-Follows w w' (c ∷ cs) es s h =
      let (v, fs, gs, p, q, r) = run_cons depth w w' c cs es h in
      subst (λ l. L.contains (replay L w.sources l) s ≡ L.contains w'.sources s) r
        (rw (replay-append L w.sources fs gs) (
          replay-ext L (replay L w.sources fs) v.sources gs (λ t. handle-Follows w c v fs t p) s
          ∙ run-Follows v w' cs gs s q))
