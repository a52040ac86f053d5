-- ===== src/Logs/Watcher/RunsTotal.antt =====
-- Runs of the watcher where ownership has a rank.
use kubetail.Prelude.{
  ℕ, ◌<◌, ◌≡◌, refl, subst, inl, inr, true, ◌&&◌, Option, some, List, [], ◌∷◌, ◌++◌, arith,
  Bool-cases, Option-cases, ◌==◌, nat_comparable, All, Str, same_str_iff, str_comparable,
}
use kubetail.Collections.SetOf.{SetOf}
use kubetail.Collections.MapSet.{MapSet, contains_one, contains_one-add, contains_one-remove}
use kubetail.Collections.MapSet
use kubetail.Logs.Objects.{ObjectMeta, Object}
use kubetail.Logs.WorkloadType.{WorkloadType}
use kubetail.Logs.Sources.{LogSource, source_comparable, Event}
use kubetail.Logs.Index
use kubetail.Logs.Index.{WorkloadIndex, workload_of, add_owners, remove_owners}
use kubetail.Logs.Watcher.Calls.{
  Call, workload_added, workload_updated, workload_deleted, node_added, node_updated, node_deleted,
  started, handle, run,
}
use kubetail.Logs.Select.{events_between}
use kubetail.Logs.Watcher.Total.{want_sources_total}
use kubetail.Logs.Watcher.{
  SourceWatcher, update_sources, update_if_ready, handle_workload_add, handle_workload_update,
  handle_workload_delete, handle_node_add, handle_node_update, handle_node_delete, finish_start,
}

-- The object ranks below its owners.
abbrev pub HasRank : (Str → ℕ) → Object → Type 0
HasRank rank obj =
    (t : WorkloadType) (m : ObjectMeta)
    → workload_of obj ≡ some (t, m)
    → All (λ o. rank m.uid < rank o) m.owners

module _ {U : SetOf Str} (rank : Str → ℕ) where
  -- Owners rank above what they own.
  abbrev pub Descends : MapSet Str U → Type 0
  Descends om = (a b : Str) → contains_one om a b ≡ true → rank b < rank a

  add-Descends :
      (om : MapSet Str U) (o uid : Str)
      → rank uid < rank o
      → Descends om
      → Descends (MapSet.add om o uid)
  add-Descends om o uid h d a b c = elim (Bool-cases ((o == a) && (uid == b))) [
    | inl e ↦
        let left : o ≡ a = ground (arith, same_str_iff o a) in
        let right : uid ≡ b = ground (arith, same_str_iff uid b) in
        subst (λ x. rank b < rank x) left (subst (λ x. rank x < rank o) right h)
    | inr e ↦ d a b (ground (arith, contains_one-add om o a uid b))
  ]

  remove-Descends :
      (om : MapSet Str U) (o uid : Str) → Descends om → Descends (MapSet.remove om o uid)
  remove-Descends om o uid d a b c = d a b (ground (arith, contains_one-remove om o a uid b))

  add_owners-Descends :
      (om : MapSet Str U) (os : List Str) (uid : Str)
      → All (λ o. rank uid < rank o) os
      → Descends om
      → Descends (add_owners om os uid)
  unfolding add_owners
  add_owners-Descends om [] uid h d = d
  add_owners-Descends om (o ∷ os) uid h d =
      add_owners-Descends (MapSet.add om o uid) os uid h.1 (add-Descends om o uid h.0 d)

  remove_owners-Descends :
      (om : MapSet Str U) (os : List Str) (uid : Str)
      → Descends om
      → Descends (remove_owners om os uid)
  unfolding remove_owners
  remove_owners-Descends om [] uid d = d
  remove_owners-Descends om (o ∷ os) uid d =
      remove_owners-Descends (MapSet.remove om o uid) os uid (remove-Descends om o uid d)

  added-Descends :
      (wi : WorkloadIndex U) (obj : Object)
      → HasRank rank obj
      → Descends wi.ownership_map
      → Descends (Index.add wi obj).0.ownership_map
  unfolding Index.add
  added-Descends wi obj h d = elim (Option-cases (workload_of obj)) [
    | inl e ↦ rw (e, Index.add) d
    | inr ((t, m), e) ↦
        rw (e, Index.add) (add_owners-Descends wi.ownership_map m.owners m.uid (h t m e) d)
  ]

  removed-Descends :
      (wi : WorkloadIndex U) (obj : Object)
      → Descends wi.ownership_map
      → Descends (Index.remove wi obj).0.ownership_map
  unfolding Index.remove
  removed-Descends wi obj d = elim (Option-cases (workload_of obj)) [
    | inl e ↦ rw (e, Index.remove) d
    | inr ((t, m), e) ↦
        rw (e, Index.remove) (remove_owners-Descends wi.ownership_map m.owners m.uid d)
  ]

  updated-Descends :
      (wi : WorkloadIndex U) (obj : Object)
      → Descends wi.ownership_map
      → Descends (Index.update wi obj).0.ownership_map
  unfolding Index.update
  updated-Descends wi obj d = elim (Option-cases (workload_of obj)) [
    | inl e ↦ rw (e, Index.update) d
    | inr ((t, m), e) ↦ rw (e, Index.update) d
  ]

-- An object that the call adds ranks below its owners.
abbrev pub KeepsRank : (Str → ℕ) → Call → Type 0
KeepsRank rank (workload_added obj) = HasRank rank obj
KeepsRank rank _ = Unit

module _ {U : SetOf Str} {L : SetOf LogSource} (depth : ℕ) (rank : Str → ℕ)
    (deep : (a : Str) → rank a < depth) where
  -- A result, of which the map of ownership still descends.
  abbrev Returns : Option (SourceWatcher U L × List Event) → Type 0
  Returns r =
      (w' : SourceWatcher U L) × (es : List Event) × (r ≡ some (w', es))
      × Descends rank w'.index.ownership_map

  update_sources-Returns :
      (w : SourceWatcher U L)
      → Descends rank w.index.ownership_map
      → Returns (update_sources depth w)
  unfolding update_sources
  update_sources-Returns w d =
      let (want, e) = want_sources_total depth w rank d deep in
      (record w { sources = want }, events_between L w.sources want, rw (e, update_sources) refl, d)

  update_if_ready-Returns :
      (w : SourceWatcher U L)
      → Descends rank w.index.ownership_map
      → Returns (update_if_ready depth w)
  unfolding update_if_ready
  update_if_ready-Returns w d = elim (Bool-cases w.is_ready) [
    | inl e ↦ let (w', es, q, d') = update_sources-Returns w d in (w', es, ground arith, d')
    | inr e ↦ (w, [], ground arith, d)
  ]

  handle-Returns :
      (w : SourceWatcher U L) (c : Call)
      → KeepsRank rank c
      → Descends rank w.index.ownership_map
      → Returns (handle depth w c)
  unfolding handle handle_workload_add handle_workload_update handle_workload_delete handle_node_add
      handle_node_update handle_node_delete finish_start
  handle-Returns w (workload_added obj) k d =
      update_if_ready-Returns _ (added-Descends rank w.index obj k d)
  handle-Returns w (workload_deleted obj) k d =
      update_if_ready-Returns _ (removed-Descends rank w.index obj d)
  handle-Returns w (workload_updated old (Object.pod p)) k d =
      update_if_ready-Returns _ (updated-Descends rank w.index (Object.pod p) d)
  handle-Returns w (workload_updated old obj) k d = (w, [], refl, d)
  handle-Returns w (node_added (Object.node n)) k d = update_if_ready-Returns _ d
  handle-Returns w (node_added obj) k d = (w, [], refl, d)
  handle-Returns w (node_updated old (Object.node n)) k d = update_if_ready-Returns _ d
  handle-Returns w (node_updated old obj) k d = (w, [], refl, d)
  handle-Returns w (node_deleted (Object.node n)) k d = update_if_ready-Returns _ d
  handle-Returns w (node_deleted obj) k d = (w, [], refl, d)
  handle-Returns w started k d =
      let (w', es, q, d') = update_sources-Returns w d in
      (record w' { is_ready = true }, es, rw (q, finish_start) refl, d')

  -- Every run of calls ends with a watcher and its events, if owners rank above what they own, at
  -- first and among the objects that are added, and no rank reaches the depth.
  pub run_total :
      (w : SourceWatcher U L) (cs : List Call)
      → All (KeepsRank rank) cs
      → Descends rank w.index.ownership_map
      → (w' : SourceWatcher U L) × (es : List Event) × (run depth w cs ≡ some (w', es))
  unfolding run
  run_total w [] k d = (w, [], refl)
  run_total w (c ∷ cs) k d =
      let (v, es, q, d') = handle-Returns w c k.0 d in
      let (w', fs, q') = run_total v cs k.1 d' in (w', es ++ fs, rw (q, run) (rw (q', run) refl))
