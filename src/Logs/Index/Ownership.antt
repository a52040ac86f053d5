-- ===== src/Logs/Index/Ownership.antt =====
-- The recursion of `getLeafIDs` of modules/shared/logs/source-watcher.go over the ownership map.
use kubetail.Prelude.{
  ℕ, zero, suc, ◌<◌, ◌≡◌, refl, sym, ◌∙◌, subst, ◌↔◌, inl, inr, true, Option, none, some, List, [],
  ◌∷◌, ◌++◌, arith, Option-cases, nat_comparable, In, here, there, elem, elem→In, In→elem, In-nil,
  In-append, In-append_left, In-append_right, In-singleton, Str, str_comparable,
}
use kubetail.Collections.SetOf.{SetOf}
use kubetail.Collections.MapSet.{MapSet, get, contains_one, contains_one-get, contains_one-get-none}
use kubetail.Logs.Index.{suc, ℕ, get_leaf_ids, collect}

module _ {S : SetOf Str} (om : MapSet Str S) where
  -- `b` is reached from `a` by going from owners to what they own.
  pub data Reaches : Str → Str → Type 0 where
    self : (a : Str) → Reaches a a
    child : {a b c : Str} → contains_one om a b ≡ true → Reaches b c → Reaches a c

  -- There is no entry for the id, not even an empty one.
  abbrev pub HasNoEntry : Str → Type 0
  HasNoEntry a = get om a ≡ none

-- The parts of a collected list.
collect_cons :
    (f : Str → Option (List Str)) (x : Str) (xs : List Str) (l : List Str)
    → collect f (x ∷ xs) ≡ some l
    → (a : List Str) × (b : List Str) × (f x ≡ some a) × (collect f xs ≡ some b) × (l ≡ a ++ b)
unfolding collect
collect_cons f x xs l h = elim (Option-cases (f x)) [
  | inl e ↦ absurd (ground arith)
  | inr (a, e) ↦ elim (Option-cases (collect f xs)) [
    | inl e' ↦ absurd (ground arith)
    | inr (b, e') ↦ (a, b, e, e', ground arith)
  ]
]

-- What a collected list holds comes from some call, and what a call gives is in the list.
collect_sound :
    (f : Str → Option (List Str)) (xs l : List Str) (y : Str)
    → collect f xs ≡ some l
    → In y l
    → (x : Str) × (a : List Str) × In x xs × (f x ≡ some a) × In y a
unfolding collect
collect_sound f [] l y h i = absurd (In-nil (subst (In y) (ground arith) i))
collect_sound f (x ∷ xs) l y h i =
    let (a, b, e, e', p) = collect_cons f x xs l h in
    elim (In-append a b (subst (In y) p i)) [
      | inl j ↦ (x, a, here, e, j)
      | inr j ↦ let (x', a', k, q, r) = collect_sound f xs b y e' j in (x', a', there k, q, r)
    ]

collect_each :
    (f : Str → Option (List Str)) (x : Str) (xs l : List Str)
    → collect f xs ≡ some l
    → In x xs
    → (a : List Str) × (f x ≡ some a)
collect_each f x _ l h (here {xs = xs}) = let (a, b, p, q, r) = collect_cons f x xs l h in (a, p)
collect_each f x _ l h (there {x = z} {xs = xs} i) =
    let (a, b, p, q, r) = collect_cons f z xs l h in collect_each f x xs b q i

collect_complete :
    (f : Str → Option (List Str)) (x y : Str) (a xs l : List Str)
    → collect f xs ≡ some l
    → In x xs
    → f x ≡ some a
    → In y a
    → In y l
collect_complete f x y a _ l h (here {xs = xs}) e i =
    let (a', b, p, q, r) = collect_cons f x xs l h in
    subst (In y) (sym r) (In-append_left a' b (subst (In y) (ground arith) i))
collect_complete f x y a _ l h (there {x = z} {xs = xs} k) e i =
    let (a', b, p, q, r) = collect_cons f z xs l h in
    subst (In y) (sym r) (In-append_right a' b (collect_complete f x y a xs b q k e i))

collect_total :
    (f : Str → Option (List Str)) (xs : List Str)
    → ((x : Str) → In x xs → (a : List Str) × (f x ≡ some a))
    → (l : List Str) × (collect f xs ≡ some l)
unfolding collect
collect_total f [] h = ([], refl)
collect_total f (x ∷ xs) h =
    let (a, e) = h x here in
    let (b, e') = collect_total f xs (λ y i. h y (there i)) in (a ++ b, ground arith)

collect-none :
    (f : Str → Option (List Str)) (x : Str) (xs : List Str)
    → In x xs
    → f x ≡ none
    → collect f xs ≡ none
unfolding collect
collect-none f x _ (here {xs = xs}) e = rw (e, collect)
collect-none f x _ (there {x = z} {xs = xs} i) e = ground (arith, collect-none f x xs i e)

module _ {S : SetOf Str} (om : MapSet Str S) where
  leaf_Reaches : (id x : Str) → get om id ≡ none → Reaches om id x → id ≡ x
  leaf_Reaches id _ e (self a) = refl
  leaf_Reaches id x e (child {b = b} owns r) =
      absurd (ground (arith, contains_one-get-none om id b e))

  -- The children of an id that is in the map are the values there.
  children_In :
      (id x : Str) (s : S.Set) → get om id ≡ some s → (elem x (S.to_slice s) ≡ contains_one om id x)
  children_In id x s h = S.elem-to_slice s x ∙ sym (contains_one-get om id x s h)

  own-HasNoEntry : (id x : Str) → HasNoEntry om id → id ≡ x → Reaches om id x × HasNoEntry om x
  own-HasNoEntry id x e p = subst (λ y. Reaches om id y × HasNoEntry om y) p (self id, e)

  -- One step of the descent finds what is reached through a child.
  below :
      (id x : Str) (l : List Str) (s : S.Set) (descend : Str → Option (List Str))
      → get om id ≡ some s
      → collect descend (S.to_slice s) ≡ some l
      → Reaches om id x
      → HasNoEntry om x
      → ((b : Str) (a : List Str) (y : Str)
          → descend b ≡ some a
          → In y a ↔ (Reaches om b y × HasNoEntry om y))
      → In x l
  below id _ l s descend e h (self a) leaf ih = absurd (ground arith)
  below id x l s descend e h (child {b = b} owns r) leaf ih =
      let i : In b (S.to_slice s) = elem→In b (S.to_slice s) (children_In id b s e ∙ owns) in
      let (a, q) = collect_each descend b (S.to_slice s) l h i in
      collect_complete descend b x a (S.to_slice s) l h i q ((ih b a x q).1 (r, leaf))

  -- A finished descent collects exactly the ids that are reached from the first one and have no entry
  -- in the ownership map, not even an empty one.
  pub get_leaf_ids_exact :
      (depth : ℕ) (id : Str) (l : List Str) (x : Str)
      → get_leaf_ids depth om id ≡ some l
      → In x l ↔ (Reaches om id x × HasNoEntry om x)
  unfolding get_leaf_ids
  get_leaf_ids_exact zero id l x h = absurd (ground arith)
  get_leaf_ids_exact (suc depth) id l x h = elim (Option-cases (get om id)) [
    | inl e ↦
        let one : id ∷ [] ≡ l = ground arith in
        (
          (λ i. own-HasNoEntry id x e (In-singleton (subst (In x) (sym one) i))),
          (λ (r, leaf). subst (In x) one (rw (leaf_Reaches id x e r) here)),
        )
    | inr (s, e) ↦
        let h' : collect (get_leaf_ids depth om) (S.to_slice s) ≡ some l = ground arith in
        (
          (λ i.
              let (b, a, k, q, j) = collect_sound (get_leaf_ids depth om) (S.to_slice s) l x h' i in
              let (r, leaf) = (get_leaf_ids_exact depth b a x q).0 j in
              (child (sym (children_In id b s e) ∙ In→elem k) r, leaf)),
          (λ (r, leaf).
              below id x l s (get_leaf_ids depth om) e h' r leaf (get_leaf_ids_exact depth)),
        )
  ]

  -- Where ownership leads down a rank, a depth above the rank of an id is enough for it.
  pub get_leaf_ids_total :
      (rank : Str → ℕ)
      → ((a b : Str) → contains_one om a b ≡ true → rank b < rank a)
      → (depth : ℕ) (id : Str) → rank id < depth
      → (l : List Str) × (get_leaf_ids depth om id ≡ some l)
  unfolding get_leaf_ids
  get_leaf_ids_total rank down zero id h = absurd (omega arith)
  get_leaf_ids_total rank down (suc depth) id h = elim (Option-cases (get om id)) [
    | inl e ↦ (id ∷ [], rw (e, get_leaf_ids))
    | inr (s, e) ↦
        rw (e, get_leaf_ids)
          (collect_total (get_leaf_ids depth om) (S.to_slice s) (λ x i.
            get_leaf_ids_total rank down depth x
              (let r = down id x (sym (children_In id x s e) ∙ In→elem i) in omega arith)))
  ]

  -- Where each of some ids owns another of them, as on a cycle, no depth is enough for any of them.
  pub get_leaf_ids_cycle :
      (Cyclic : Str → Type 0)
      → ((a : Str) → Cyclic a → (b : Str) × (contains_one om a b ≡ true) × Cyclic b)
      → (depth : ℕ) (id : Str) → Cyclic id
      → get_leaf_ids depth om id ≡ none
  unfolding get_leaf_ids
  get_leaf_ids_cycle Cyclic next zero id c = refl
  get_leaf_ids_cycle Cyclic next (suc depth) id c =
      let (b, owns, c') = next id c in
      elim (Option-cases (get om id)) [
        | inl e ↦ absurd (ground (arith, contains_one-get-none om id b e))
        | inr (s, e) ↦
            rw (e, get_leaf_ids)
              (collect-none (get_leaf_ids depth om) b (S.to_slice s)
                (elem→In b (S.to_slice s) (children_In id b s e ∙ owns))
                (get_leaf_ids_cycle Cyclic next depth b c'))
      ]
