-- ===== src/Collections/SyncGroup/Progress.antt =====
-- How a call of `LoadOrCompute` of modules/shared/util/syncgroup.go can go on to its return.
use kubetail.Prelude.{
  ℕ, ◌≡◌, refl, sym, ap, ◌∙◌, subst, ◌≢◌, ◌⊎◌, inl, inr, Bool, true, false, none, some, List, [],
  ◌∷◌, arith, Option-cases, Comparable, nat_comparable, All, str_comparable, Result, ok, err,
}
use kubetail.Prelude.{lookup}
use mathlib.Core.Option.{some-injective}
use kubetail.Collections.SyncMap.{load, store, load_or_store}
use kubetail.Collections.SyncGroup.{
  Phase, start, waiting, locked, computing, returned, Group, new_group, enter, lock, check_value,
  keep_value, act_in, act, run,
}
use kubetail.Collections.SyncGroup.Memo.{
  held_by, IsValid, run-IsValid, new_group-IsValid, act-IsValid,
}

abbrev pub has_returned : {V : Type 0} → Phase V → Bool
has_returned start = false
has_returned (waiting _) = false
has_returned (locked _) = false
has_returned (computing _) = false
has_returned (returned _ _) = true

module _ {V : Type 0} where
  holder_not_returned : (p : Phase V) (mu : ℕ) → held_by p ≡ some mu → has_returned p ≡ true → ⊥
  holder_not_returned p mu h d = ground (arith, h, d)

  holder_phase : (p : Phase V) (mu : ℕ) → held_by p ≡ some mu → (p ≡ locked mu) ⊎ (p ≡ computing mu)
  holder_phase p mu h = ground (arith, h)

module _ {K V : Type 0} ⦃c : Comparable K⦄ (key : ℕ → K) where
  -- A goroutine's access leaves the others where they are.
  act_in-other :
      (p : Phase V) (u t : ℕ) (r : Result V) (s : Group K V)
      → u ≢ t
      → (act_in key p u r s).phase t ≡ s.phase t
  unfolding act_in enter lock check_value keep_value load_or_store load store
  act_in-other start u t r s n = ground (arith, n)
  act_in-other (waiting mu) u t r s n = ground (arith, n)
  act_in-other (locked mu) u t r s n = ground (arith, n)
  act_in-other (computing mu) u t r s n = ground (arith, n)
  act_in-other (returned _ _) u t r s n = refl

  computing-returns :
      (t mu : ℕ) (r : Result V) (s : Group K V)
      → s.phase t ≡ computing mu
      → has_returned ((act key t r s).phase t) ≡ true
  unfolding act_in keep_value
  computing-returns t mu (ok v) s p = ground (arith, p)
  computing-returns t mu (err e) s p = ground (arith, p)

  returned-stays :
      (p : Phase V) (t : ℕ) (r : Result V) (s : Group K V)
      → has_returned p ≡ true
      → act_in key p t r s ≡ s
  unfolding act_in
  returned-stays (returned _ _) t r s h = refl
  returned-stays start t r s h = absurd (cc)
  returned-stays (waiting _) t r s h = absurd (cc)
  returned-stays (locked _) t r s h = absurd (cc)
  returned-stays (computing _) t r s h = absurd (cc)

  locked-next :
      (t mu : ℕ) (r : Result V) (s : Group K V)
      → s.phase t ≡ locked mu
      → (has_returned ((act key t r s).phase t) ≡ true) ⊎ ((act key t r s).phase t ≡ computing mu)
  unfolding act_in check_value load
  locked-next t mu r s p = ground (arith, p)

  waiting-next :
      (t mu : ℕ) (r : Result V) (s : Group K V)
      → s.phase t ≡ waiting mu
      → lookup mu s.holder ≡ none
      → (act key t r s).phase t ≡ locked mu
  unfolding act_in lock
  waiting-next t mu r s p h = ground (arith, p, h)

  start-next :
      (t : ℕ) (r : Result V) (s : Group K V)
      → s.phase t ≡ start
      → (mu : ℕ) × ((act key t r s).phase t ≡ waiting mu)
  unfolding act_in enter load_or_store load store
  start-next t r s p = elim (Option-cases (lookup (key t) s.mu_map)) [
    | inl h ↦ (s.next, ground (arith, p, h))
    | inr (mu, h) ↦ (mu, ground (arith, p, h))
  ]

  -- Entering takes no mutex.
  start-holder :
      (t : ℕ) (r : Result V) (s : Group K V) → s.phase t ≡ start → (act key t r s).holder ≡ s.holder
  unfolding act_in enter load_or_store load store
  start-holder t r s p = elim (Option-cases (lookup (key t) s.mu_map)) [
    | inl h ↦ ground (arith, p, h)
    | inr (mu, h) ↦ ground (arith, p, h)
  ]

  -- Accesses of the goroutines t and u, with this result of `compute`, after which t has returned.
  abbrev pub CanReturn : ℕ → ℕ → Result V → Group K V → Type 0
  CanReturn u t r s =
      (xs : List (ℕ × Result V)) × All (λ x. (x.1 ≡ r) × ((x.0 ≡ t) ⊎ (x.0 ≡ u))) xs
      × (has_returned ((run key xs s).phase t) ≡ true)

  after_act :
      (v u t : ℕ) (r : Result V) (s : Group K V)
      → (v ≡ t) ⊎ (v ≡ u)
      → CanReturn u t r (act key v r s)
      → CanReturn u t r s
  unfolding run
  after_act v u t r s who (xs, same, h) = ((v, r) ∷ xs, ((refl, who), same), h)

  now :
      (u t : ℕ) (r : Result V) (s : Group K V) → has_returned (s.phase t) ≡ true → CanReturn u t r s
  unfolding run
  now u t r s h = ([], tt, h)

  computing-CanReturn :
      (u t mu : ℕ) (r : Result V) (s : Group K V) → s.phase t ≡ computing mu → CanReturn u t r s
  computing-CanReturn u t mu r s p =
      after_act t u t r s (inl refl) (now u t r _ (computing-returns t mu r s p))

  locked-CanReturn :
      (u t mu : ℕ) (r : Result V) (s : Group K V) → s.phase t ≡ locked mu → CanReturn u t r s
  locked-CanReturn u t mu r s p = after_act t u t r s (inl refl) (elim (locked-next t mu r s p) [
    | inl h ↦ now u t r _ h
    | inr q ↦ computing-CanReturn u t mu r _ q
  ])

  free-CanReturn :
      (u t mu : ℕ) (r : Result V) (s : Group K V)
      → s.phase t ≡ waiting mu
      → lookup mu s.holder ≡ none
      → CanReturn u t r s
  free-CanReturn u t mu r s p h =
      after_act t u t r s (inl refl) (locked-CanReturn u t mu r _ (waiting-next t mu r s p h))

  -- A holder that returns has freed the mutex.
  freed :
      (u mu : ℕ) (r : Result V) (s : Group K V)
      → IsValid key s
      → lookup mu s.holder ≡ some u
      → has_returned ((act key u r s).phase u) ≡ true
      → lookup mu (act key u r s).holder ≡ none
  freed u mu r s b h d = elim (Option-cases (lookup mu (act key u r s).holder)) [
    | inl e ↦ e
    | inr (w, e) ↦
        let b' = act-IsValid key u r s b in
        let holds : held_by ((act key u r s).phase w) ≡ some mu = (b'.held w mu).1 e in
        let other : u ≢ w = λ q. absurd (
          holder_not_returned _ mu holds
            (subst (λ x. has_returned ((act key u r s).phase x) ≡ true) q d)) in
        let before_it : held_by (s.phase w) ≡ some mu =
          ap held_by (sym (act_in-other (s.phase u) u w r s other)) ∙ holds in
        absurd (other (some-injective _ _ (sym h ∙ (b.held w mu).0 before_it)))
  ]

  holder_returns :
      (t u mu : ℕ) (r : Result V) (s : Group K V)
      → IsValid key s
      → s.phase t ≡ waiting mu
      → lookup mu s.holder ≡ some u
      → u ≢ t
      → has_returned ((act key u r s).phase u) ≡ true
      → CanReturn u t r s
  holder_returns t u mu r s b p h n d =
      after_act u u t r s (inr refl)
        (free-CanReturn u t mu r _ (act_in-other (s.phase u) u t r s n ∙ p) (freed u mu r s b h d))

  -- The holder is in `compute`.
  waiting_computing :
      (t u mu : ℕ) (r : Result V) (s : Group K V)
      → IsValid key s
      → s.phase t ≡ waiting mu
      → s.phase u ≡ computing mu
      → CanReturn u t r s
  waiting_computing t u mu r s b p q =
      holder_returns t u mu r s b p ((b.held u mu).0 (rw q refl))
        (λ e. let x : waiting mu ≡ computing mu = sym p ∙ ap s.phase (sym e) ∙ q in absurd (cc))
        (computing-returns u mu r s q)

  -- The holder is anywhere in the critical section.
  waiting_held :
      (t u mu : ℕ) (r : Result V) (s : Group K V)
      → IsValid key s
      → s.phase t ≡ waiting mu
      → (s.phase u ≡ locked mu) ⊎ (s.phase u ≡ computing mu)
      → CanReturn u t r s
  waiting_held t u mu r s b p (inr q) = waiting_computing t u mu r s b p q
  waiting_held t u mu r s b p (inl q) =
      let n : u ≢ t =
        λ e. let x : waiting mu ≡ locked mu = sym p ∙ ap s.phase (sym e) ∙ q in absurd (cc) in
      elim (locked-next u mu r s q) [
        | inl d ↦ holder_returns t u mu r s b p ((b.held u mu).0 (rw q refl)) n d
        | inr q' ↦ after_act u u t r s (inr refl) (
            waiting_computing t u mu r _ (act-IsValid key u r s b)
              (act_in-other (s.phase u) u t r s n ∙ p) q')
      ]

  -- The goroutine itself, or the holder of the mutex for which it waits or, before it enters, will.
  abbrev pub IsHolder : ℕ → ℕ → Group K V → Type 0
  IsHolder u t s =
      (u ≡ t)
      ⊎ ((mu : ℕ) × ((s.phase t ≡ start) ⊎ (s.phase t ≡ waiting mu))
          × (lookup mu s.holder ≡ some u))

  waiting-CanReturn :
      (t mu : ℕ) (r : Result V) (s : Group K V)
      → IsValid key s
      → s.phase t ≡ waiting mu
      → (u : ℕ) × ((u ≡ t) ⊎ (lookup mu s.holder ≡ some u)) × CanReturn u t r s
  waiting-CanReturn t mu r s b p = elim (Option-cases (lookup mu s.holder)) [
    | inl h ↦ (t, inl refl, free-CanReturn t t mu r s p h)
    | inr (u, h) ↦ (u, inr h, waiting_held t u mu r s b p (holder_phase _ mu ((b.held u mu).1 h)))
  ]

  waiting-IsHolder :
      (u t mu : ℕ) (s : Group K V)
      → s.phase t ≡ waiting mu
      → (u ≡ t) ⊎ (lookup mu s.holder ≡ some u)
      → IsHolder u t s
  waiting-IsHolder u t mu s p (inl e) = inl e
  waiting-IsHolder u t mu s p (inr h) = inr (mu, inr p, h)

  start-IsHolder :
      (u t mu : ℕ) (r : Result V) (s : Group K V)
      → s.phase t ≡ start
      → (u ≡ t) ⊎ (lookup mu (act key t r s).holder ≡ some u)
      → IsHolder u t s
  start-IsHolder u t mu r s p (inl e) = inl e
  start-IsHolder u t mu r s p (inr h) =
      inr (mu, inl p, ap (lookup mu) (sym (start-holder t r s p)) ∙ h)

  -- Whatever has happened in a group, each call can still return: there are accesses, all of them of
  -- its goroutine and of one goroutine u, after which it has, and every `compute` among them may have
  -- the given result, an error or a value. This u is the call's goroutine itself, or the call waits for
  -- a mutex that u holds, or has not begun and u holds a mutex.
  pub run-can_return :
      (xs : List (ℕ × Result V)) (t : ℕ) (r : Result V)
      → (u : ℕ) × IsHolder u t (run key xs new_group) × CanReturn u t r (run key xs new_group)
  run-can_return xs t r =
      let s = run key xs new_group in
      by_phase s (run-IsValid key xs new_group (new_group-IsValid key)) (s.phase t) refl
    where
      by_phase :
          (s : Group K V)
          → IsValid key s
          → (p : Phase V) → s.phase t ≡ p
          → (u : ℕ) × IsHolder u t s × CanReturn u t r s
      by_phase s b start e =
          let (mu, q) = start-next t r s e in
          let (u, who, c) = waiting-CanReturn t mu r _ (act-IsValid key t r s b) q in
          (u, start-IsHolder u t mu r s e who, after_act t u t r s (inl refl) c)
      by_phase s b (waiting mu) e =
          let (u, who, c) = waiting-CanReturn t mu r s b e in
          (u, waiting-IsHolder u t mu s e who, c)
      by_phase s b (locked mu) e = (t, inl refl, locked-CanReturn t t mu r s e)
      by_phase s b (computing mu) e = (t, inl refl, computing-CanReturn t t mu r s e)
      by_phase s b (returned _ _) e = (t, inl refl, now t t r s (rw e refl))
