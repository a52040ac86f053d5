-- ===== src/Logs/Heap/ListHeap.antt =====
-- A list from which the least item is searched: it meets the laws of a heap, for a `Less` that
-- orders the items by a number.
use kubetail.Prelude.{
  ℕ, ◌+◌, ◌≡◌, refl, subst, ◌↔◌, ◌⊎◌, inl, inr, Bool, false, Option, none, some, List, [], ◌∷◌,
  arith, ltb, if◌then◌else◌, Bool-cases, nat_comparable, In, here, there, In-nil, In-cases,
  str_comparable,
}
use kubetail.Logs.Heap.{HeapOf, weigh}

module _ {A : Type 0} (key : A → ℕ) where
  -- The first least item, and the others.
  abbrev pub take_least : A → List A → A × List A
  take_least a [] = (a, [])
  take_least a (b ∷ l) =
      let (m, rest) = take_least b l in if ltb (key m) (key a) then (m, a ∷ rest) else (a, m ∷ rest)

  abbrev pub list_pop : List A → Option (A × List A)
  list_pop [] = none
  list_pop (a ∷ l) = some (take_least a l)

  abbrev pub less_key : A → A → Bool
  less_key a b = ltb (key a) (key b)

  pub In-cons : (b x : A) (xs : List A) → In b (x ∷ xs) ↔ ((x ≡ b) ⊎ In b xs)
  In-cons b x xs =
      (In-cases, λ h. elim h [ inl e ↦ subst (λ y. In y (x ∷ xs)) e here | inr i ↦ there i ])

  pub take_least-In :
      (a : A) (l : List A) (b : A)
      → ((a ≡ b) ⊎ In b l) ↔ (((take_least a l).0 ≡ b) ⊎ In b (take_least a l).1)
  take_least-In a [] b = (λ h. h, λ h. h)
  take_least-In a (c ∷ l) b =
      let h = take_least-In c l b in
      let f = In-cons b c l in
      let g = In-cons b a (take_least c l).1 in
      let k = In-cons b (take_least c l).0 (take_least c l).1 in
      elim (Bool-cases (ltb (key (take_least c l).0) (key a))) [
        | inl e ↦ rw e (ground (arith, f, g, h))
        | inr e ↦ rw e (ground (arith, f, k, h))
      ]

  -- The first of the two is not above the second, and nothing behind it is below it.
  abbrev pub IsLeast : A × List A → Type 0
  IsLeast p = (b : A) → In b p.1 → less_key b p.0 ≡ false

  pub take_least-IsLeast : (a : A) (l : List A) → IsLeast (take_least a l)
  take_least-IsLeast a [] = λ b i. absurd (In-nil i)
  take_least-IsLeast a (c ∷ l) =
      let m = (take_least c l).0 in
      let rest = (take_least c l).1 in
      let h = take_least-IsLeast c l in
      elim (Bool-cases (ltb (key m) (key a))) [
        | inl e ↦ rw e (λ b i. elim (In-cases i) [
          | inl q ↦ subst (λ x. less_key x m ≡ false) q (ground arith)
          | inr j ↦ h b j
        ])
        | inr e ↦ rw e (λ b i. elim (In-cases i) [
          | inl q ↦ subst (λ x. less_key x a ≡ false) q e
          | inr j ↦ ground (arith, h b j)
        ])
      ]

  pub take_least-weigh :
      (f : A → ℕ) (a : A) (l : List A)
      → f a + weigh f l ≡ f (take_least a l).0 + weigh f (take_least a l).1
  take_least-weigh f a [] = refl
  take_least-weigh f a (c ∷ l) =
      let h = take_least-weigh f c l in
      elim (Bool-cases (ltb (key (take_least c l).0) (key a))) [
        | inl e ↦ rw e (ground (arith, h))
        | inr e ↦ rw e (ground (arith, h))
      ]

  pub list_pop-some :
      (h h' : List A) (a : A)
      → list_pop h ≡ some (a, h')
      → (c : A) × (l : List A) × (h ≡ c ∷ l) × (take_least c l ≡ (a, h'))
  list_pop-some [] h' a e = absurd (ground arith)
  list_pop-some (c ∷ l) h' a e = (c, l, refl, ground arith)

  pub list_pop-none : (h : List A) → list_pop h ≡ none → h ≡ []
  list_pop-none [] e = refl
  list_pop-none (c ∷ l) e = absurd (ground arith)

  pub iff_trans : {P Q R : Type 0} → P ↔ Q → Q ↔ R → P ↔ R
  iff_trans f g = (λ p. g.0 (f.0 p), λ r. f.1 (g.1 r))

  unfoldable pub list_heap : HeapOf A less_key
  list_heap = record {
    Heap = List A;
    empty = [];
    push = λ h a. a ∷ h;
    pop = list_pop;
    items = λ h. h;
    items-empty = refl;
    In-push = λ h a b. In-cons b a h;
    weigh-push = λ f h a. refl;
    pop_none = list_pop-none;
    In-pop = λ h h' a b e.
        let (c, l, p, q) = list_pop-some h h' a e in
        rw p (
          subst (λ z. In b (c ∷ l) ↔ ((z.0 ≡ b) ⊎ In b z.1)) q
            (iff_trans (In-cons b c l) (take_least-In c l b)));
    weigh-pop = λ f h h' a e.
        let (c, l, p, q) = list_pop-some h h' a e in
        rw p (subst (λ z. f c + weigh f l ≡ f z.0 + weigh f z.1) q (take_least-weigh f c l));
    least = λ h h' a b e.
        let (c, l, p, q) = list_pop-some h h' a e in subst IsLeast q (take_least-IsLeast c l) b;
  }
