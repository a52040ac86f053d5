-- ===== src/Collections/SyncGroup/Memo.antt =====
-- The values of a key in modules/shared/util/syncgroup.go, over interleaved calls.
use kubetail.Prelude.{
  ℕ, ◌≡◌, refl, sym, ap, ◌∙◌, subst, ◌↔◌, ◌⊎◌, inl, inr, Bool, true, false, Option, none, some,
  List, [], ◌∷◌, arith, Bool-cases, Option-cases, Comparable, ◌==◌, nat_comparable, same→eq,
  str_comparable, lookup-delete, lookup-insert, Result, ok, err,
}
use kubetail.Prelude.{lookup, lookup-insert, lookup-delete}
use mathlib.Core.Option.{some-injective}
use kubetail.Collections.SyncMap.{load, store, load_or_store}
use kubetail.Collections.SyncGroup.{
  Phase, start, waiting, locked, computing, returned, Group, new_group, enter, lock, finish,
  check_value, keep_value, act_in, act, run,
}

module _ {V : Type 0} where
  -- The mutex of the call, once it has one.
  abbrev pub mutex_of : Phase V → Option ℕ
  mutex_of start = none
  mutex_of (waiting mu) = some mu
  mutex_of (locked mu) = some mu
  mutex_of (computing mu) = some mu
  mutex_of (returned _ _) = none

  abbrev pub held_by : Phase V → Option ℕ
  held_by start = none
  held_by (waiting mu) = none
  held_by (locked mu) = some mu
  held_by (computing mu) = some mu
  held_by (returned _ _) = none

  abbrev pub computes : Phase V → Bool
  computes start = false
  computes (waiting mu) = false
  computes (locked mu) = false
  computes (computing mu) = true
  computes (returned _ _) = false

  abbrev pub value_of : Phase V → Option V
  value_of start = none
  value_of (waiting mu) = none
  value_of (locked mu) = none
  value_of (computing mu) = none
  value_of (returned (ok v) _) = some v
  value_of (returned (err e) _) = none

  computes-held : (p : Phase V) → computes p ≡ true → (mu : ℕ) × (held_by p ≡ some mu)
  computes-held start h = absurd (cc)
  computes-held (waiting mu) h = absurd (cc)
  computes-held (locked mu) h = absurd (cc)
  computes-held (computing mu) h = (mu, refl)
  computes-held (returned _ _) h = absurd (cc)

module _ {K V : Type 0} ⦃c : Comparable K⦄ (key : ℕ → K) where
  pub record IsValid (s : Group K V) : Type 0 where
    pub named : (t mu : ℕ) → mutex_of (s.phase t) ≡ some mu → lookup (key t) s.mu_map ≡ some mu
    pub held : (t mu : ℕ) → (held_by (s.phase t) ≡ some mu) ↔ (lookup mu s.holder ≡ some t)
    pub kept : (t : ℕ) (v : V) → value_of (s.phase t) ≡ some v → lookup (key t) s.m ≡ some v
    pub absent : (t : ℕ) → computes (s.phase t) ≡ true → lookup (key t) s.m ≡ none

  pub new_group-IsValid : IsValid new_group
  unfolding new_group lookup
  new_group-IsValid = record {
    named = λ t mu h. absurd (cc);
    held = λ t mu. (λ h. absurd (cc), λ h. absurd (cc));
    kept = λ t v h. absurd (cc);
    absent = λ t h. absurd (cc);
  }

  enter-IsValid : (t : ℕ) (s : Group K V) → s.phase t ≡ start → IsValid s → IsValid (enter key t s)
  unfolding enter load_or_store load store
  enter-IsValid t s p b = record {
    named = λ u mu h. ground (
      arith,
      b.named u mu,
      c.same_iff (key t) (key u),
      lookup-insert (key t) (key u) s.next s.mu_map,
    );
    held = λ u mu. ground (arith, b.held u mu, p);
    kept = λ u v h. ground (arith, b.kept u v, p);
    absent = λ u h. ground (arith, b.absent u, p);
  }

  lock-IsValid :
      (t mu : ℕ) (s : Group K V) → s.phase t ≡ waiting mu → IsValid s → IsValid (lock key t mu s)
  unfolding lock
  lock-IsValid t mu s p b = record {
    named = λ u mu' h. ground (arith, b.named u mu', p);
    held = λ u mu'. ground (arith, b.held u mu', p, lookup-insert mu mu' t s.holder);
    kept = λ u v h. ground (arith, b.kept u v, p);
    absent = λ u h. ground (arith, b.absent u, p);
  }

  finish-IsValid :
      (t mu : ℕ) (r : Result V) (l : Bool) (s : Group K V)
      → held_by (s.phase t) ≡ some mu
      → ((v : V) → r ≡ ok v → lookup (key t) s.m ≡ some v)
      → IsValid s
      → IsValid (finish key t mu r l s)
  finish-IsValid t mu r l s p q b = record {
    named = λ u mu' h. ground (arith, b.named u mu');
    held = λ u mu'. ground (arith, b.held u mu', b.held t mu, p, lookup-delete mu mu' s.holder);
    kept = λ u v h. ground (arith, b.kept u v, q v);
    absent = λ u h. ground (arith, b.absent u);
  }

  check_value-IsValid :
      (t mu : ℕ) (s : Group K V)
      → s.phase t ≡ locked mu
      → IsValid s
      → IsValid (check_value key t mu s)
  unfolding check_value load
  check_value-IsValid t mu s p b = elim (Option-cases (lookup (key t) s.m)) [
    | inl h ↦ record {
      named = λ u mu' h'. ground (arith, b.named u mu', p, h);
      held = λ u mu'. ground (arith, b.held u mu', p, h);
      kept = λ u v h'. ground (arith, b.kept u v, p, h);
      absent = λ u h'. ground (arith, b.absent u, p, h);
    }
    | inr (v, h) ↦
        subst IsValid (rw (check_value, load, h) refl)
          (finish-IsValid t mu (ok v) true s (rw p refl) (λ w e. ground (arith, h, e)) b)
  ]

  -- No two goroutines are in the critical section of a key.
  pub exclusive :
      (s : Group K V) (t u mu mu' : ℕ)
      → IsValid s
      → held_by (s.phase t) ≡ some mu
      → held_by (s.phase u) ≡ some mu'
      → key t ≡ key u
      → t ≡ u
  exclusive s t u mu mu' b p q e =
      let tn : lookup (key t) s.mu_map ≡ some mu = ground (arith, b.named t mu, p) in
      let un : lookup (key u) s.mu_map ≡ some mu' = ground (arith, b.named u mu', q) in
      let same : mu ≡ mu' = some-injective _ _ (sym tn ∙ ap (λ k. lookup k s.mu_map) e ∙ un) in
      some-injective _ _
        (sym ((b.held t mu).0 p) ∙ ap (λ n. lookup n s.holder) same ∙ (b.held u mu').0 q)

  alone :
      (s : Group K V) (t u : ℕ)
      → IsValid s
      → key t ≡ key u
      → computes (s.phase t) ≡ true
      → computes (s.phase u) ≡ true
      → t ≡ u
  alone s t u b e h h' =
      let (mu, p) = computes-held (s.phase t) h in
      let (mu', q) = computes-held (s.phase u) h' in exclusive s t u mu mu' b p q e

  store-IsValid :
      (t mu : ℕ) (v : V) (s : Group K V)
      → s.phase t ≡ computing mu
      → IsValid s
      → IsValid (keep_value key t mu (ok v) s)
  unfolding keep_value store
  store-IsValid t mu v s p b = record {
    named = λ u mu' h'. ground (arith, b.named u mu', p);
    held = λ u mu'. ground (arith, b.held u mu', b.held t mu, p, lookup-delete mu mu' s.holder);
    kept = λ u w h'. ground (
      arith,
      b.kept u w,
      b.absent t,
      p,
      c.same_iff (key t) (key u),
      lookup-insert (key t) (key u) v s.m,
    );
    absent = λ u h'. elim (Bool-cases (key t == key u)) [
      | inl same ↦ ground (arith, alone s t u b (same→eq _ _ same) (rw p refl), p)
      | inr other ↦ ground (arith, b.absent u, other, lookup-insert (key t) (key u) v s.m)
    ];
  }

  pub act-IsValid : (t : ℕ) (r : Result V) (s : Group K V) → IsValid s → IsValid (act key t r s)
  unfolding act_in keep_value
  act-IsValid t r s b = step (s.phase t) refl r
    where
      step : (p : Phase V) → s.phase t ≡ p → (r : Result V) → IsValid (act_in key p t r s)
      step start e r = enter-IsValid t s e b
      step (waiting mu) e r = lock-IsValid t mu s e b
      step (locked mu) e r = check_value-IsValid t mu s e b
      step (computing mu) e (ok v) = store-IsValid t mu v s e b
      step (computing mu) e (err m) =
          finish-IsValid t mu (err m) false s (rw e refl) (λ w q. absurd (cc)) b
      step (returned _ _) e r = b

  pub run-IsValid : (xs : List (ℕ × Result V)) (s : Group K V) → IsValid s → IsValid (run key xs s)
  unfolding run
  run-IsValid [] s b = b
  run-IsValid ((t, r) ∷ xs) s b = run-IsValid xs (act key t r s) (act-IsValid t r s b)

  -- However the goroutines' accesses are interleaved, two calls for one key that have both returned a
  -- value have returned the same one.
  pub run-memoizes :
      (xs : List (ℕ × Result V)) (t u : ℕ) (v w : V)
      → key t ≡ key u
      → value_of ((run key xs new_group).phase t) ≡ some v
      → value_of ((run key xs new_group).phase u) ≡ some w
      → v ≡ w
  run-memoizes xs t u v w e p q =
      let b = run-IsValid xs new_group new_group-IsValid in
      some-injective _ _
        (sym (b.kept t v p) ∙ ap (λ k. lookup k (run key xs new_group).m) e ∙ b.kept u w q)

  -- However the accesses are interleaved, while a goroutine computes for a key no other goroutine
  -- computes for it, and no call for it has returned a value.
  pub run-computes_once :
      (xs : List (ℕ × Result V)) (t u : ℕ)
      → key t ≡ key u
      → computes ((run key xs new_group).phase t) ≡ true
      → (t ≡ u)
        ⊎ ((computes ((run key xs new_group).phase u) ≡ false)
            × (value_of ((run key xs new_group).phase u) ≡ none))
  run-computes_once xs t u e h =
      let s = run key xs new_group in
      let b = run-IsValid xs new_group new_group-IsValid in
      elim (Bool-cases (computes (s.phase u))) [
        | inl h' ↦ inl (alone s t u b e h h')
        | inr h' ↦ inr (
          h',
          elim (Option-cases (value_of (s.phase u))) [
            | inl none_h ↦ none_h
            | inr (v, some_h) ↦
                let x : none ≡ some v =
                  sym (b.absent t h) ∙ ap (λ k. lookup k s.m) e ∙ b.kept u v some_h in
                absurd (cc)
          ],
        )
      ]
