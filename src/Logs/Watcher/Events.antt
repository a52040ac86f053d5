-- ===== src/Logs/Watcher/Events.antt =====
-- What is published about a change of the sources, and what a subscriber makes of it.
use kubetail.Prelude.{
  ℕ, suc, ◌≡◌, refl, ap, subst, inl, inr, true, false, not, ◌&&◌, ◌||◌, List, [], ◌∷◌, ◌++◌, map,
  arith, if◌then◌else◌, Bool-cases, ◌==◌, nat_comparable, same→eq, elem, distinct, str_comparable,
}
use kubetail.Collections.SetOf.{SetOf}
use kubetail.Logs.Sources.{LogSource, source_comparable, Event, added, deleted}
use kubetail.Logs.Select.{events_between}

module _ (L : SetOf LogSource) where
  -- What a subscriber that keeps its own set does with an event.
  abbrev pub apply : L.Set → Event → L.Set
  apply have (added s) = L.add have s
  apply have (deleted s) = L.remove have s

  abbrev pub replay : L.Set → List Event → L.Set
  replay have [] = have
  replay have (e ∷ es) = replay (apply have e) es

  pub replay-append :
      (have : L.Set) (es fs : List Event) → replay have (es ++ fs) ≡ replay (replay have es) fs
  replay-append have [] fs = refl
  replay-append have (e ∷ es) fs = replay-append (apply have e) es fs

  -- Sets with the same elements still have the same elements after the same events.
  pub replay-ext :
      (a b : L.Set) (es : List Event)
      → ((s : LogSource) → L.contains a s ≡ L.contains b s)
      → (s : LogSource) → L.contains (replay a es) s ≡ L.contains (replay b es) s
  replay-ext a b [] h s = h s
  replay-ext a b (added x ∷ es) h s =
      replay-ext (L.add a x) (L.add b x) es
        (λ t. rw (L.contains-add a x t, L.contains-add b x t, h t) refl) s
  replay-ext a b (deleted x ∷ es) h s =
      replay-ext (L.remove a x) (L.remove b x) es
        (λ t. rw (L.contains-remove a x t, L.contains-remove b x t, h t) refl) s

  replay-added :
      (have : L.Set) (l : List LogSource) (s : LogSource)
      → L.contains (replay have (map (λ x. added x) l)) s ≡ L.contains have s || elem s l
  replay-added have [] s = ground arith
  replay-added have (x ∷ l) s =
      ground (arith, replay-added (L.add have x) l s, L.contains-add have x s)

  replay-deleted :
      (have : L.Set) (l : List LogSource) (s : LogSource)
      → L.contains (replay have (map (λ x. deleted x) l)) s ≡ L.contains have s && not (elem s l)
  replay-deleted have [] s = ground arith
  replay-deleted have (x ∷ l) s =
      ground (arith, replay-deleted (L.remove have x) l s, L.contains-remove have x s)

  -- A subscriber that had the old sources has the new ones after the published events, in the
  -- order in which they are published.
  pub replay-events_between :
      (have want : L.Set) (s : LogSource)
      → L.contains (replay have (events_between L have want)) s ≡ L.contains want s
  unfolding events_between
  replay-events_between have want s =
      let new = L.to_slice (L.difference want have) in
      let gone = L.to_slice (L.difference have want) in
      rw (replay-append have (map (λ x. added x) new) (map (λ x. deleted x) gone)) (
        ground (
          arith,
          replay-deleted (replay have (map (λ x. added x) new)) gone s,
          replay-added have new s,
          L.elem-to_slice (L.difference want have) s,
          L.elem-to_slice (L.difference have want) s,
          L.contains-difference want have s,
          L.contains-difference have want s,
        ))

-- How often a source stands in a list, and how often it is announced.
times : LogSource → List LogSource → ℕ
times s [] = 0
times s (x ∷ l) = let rest = times s l in if x == s then suc rest else rest

pub count_added : LogSource → List Event → ℕ
count_added s [] = 0
count_added s (added x ∷ es) = let rest = count_added s es in if x == s then suc rest else rest
count_added s (deleted x ∷ es) = count_added s es

pub count_deleted : LogSource → List Event → ℕ
count_deleted s [] = 0
count_deleted s (added x ∷ es) = count_deleted s es
count_deleted s (deleted x ∷ es) =
    let rest = count_deleted s es in if x == s then suc rest else rest

times-absent : (s : LogSource) (l : List LogSource) → elem s l ≡ false → times s l ≡ 0
unfolding times
times-absent s [] h = refl
times-absent s (x ∷ l) h = ground (arith, times-absent s l)

times-distinct :
    (s : LogSource) (l : List LogSource)
    → distinct l ≡ true
    → times s l ≡ (if elem s l then 1 else 0)
unfolding times
times-distinct s [] h = refl
times-distinct s (x ∷ l) h = elim (Bool-cases (x == s)) [
  | inl e ↦
      let same : x ≡ s = same→eq x s e in
      let absent : elem s l ≡ false = subst (λ y. elem y l ≡ false) same (ground arith) in
      rw e (ap suc (times-absent s l absent))
  | inr n ↦ rw n (times-distinct s l (ground arith))
]

count_added-map :
    (s : LogSource) (l m : List LogSource)
    → count_added s (map (λ x. added x) l ++ map (λ x. deleted x) m) ≡ times s l
unfolding count_added times
count_added-map s [] [] = refl
count_added-map s [] (y ∷ m) = count_added-map s [] m
count_added-map s (x ∷ l) m = rw (count_added-map s l m) refl

count_deleted-map :
    (s : LogSource) (l m : List LogSource)
    → count_deleted s (map (λ x. added x) l ++ map (λ x. deleted x) m) ≡ times s m
unfolding count_deleted times
count_deleted-map s [] [] = refl
count_deleted-map s [] (y ∷ m) = rw (count_deleted-map s [] m) refl
count_deleted-map s (x ∷ l) m = count_deleted-map s l m

module _ (L : SetOf LogSource) where
  -- A source is announced as added once if it is new and never otherwise, and as deleted once if it
  -- is gone and never otherwise.
  pub events_between_counts :
      (have want : L.Set) (s : LogSource)
      → (count_added s (events_between L have want)
          ≡ (if L.contains want s && not (L.contains have s) then 1 else 0))
        × (count_deleted s (events_between L have want)
            ≡ (if L.contains have s && not (L.contains want s) then 1 else 0))
  unfolding events_between
  events_between_counts have want s =
      let new = L.difference want have in
      let gone = L.difference have want in
      (
        rw (
          count_added-map s (L.to_slice new) (L.to_slice gone),
          times-distinct s (L.to_slice new) (L.distinct-to_slice new),
          L.elem-to_slice new s,
          L.contains-difference want have s,
        ),
        rw (
          count_deleted-map s (L.to_slice new) (L.to_slice gone),
          times-distinct s (L.to_slice gone) (L.distinct-to_slice gone),
          L.elem-to_slice gone s,
          L.contains-difference have want s,
        ),
      )
