-- ===== src/K8sHelpers/Authorizer/Granted.antt =====
-- Allowed checks, over the cache of the authorizer and the answers of the API.
use kubetail.Prelude.{
  ◌+◌, ◌<◌, ◌≡◌, refl, sym, ap, ◌∙◌, subst, ◌≢◌, ◌⊎◌, inl, inr, Bool, true, false, not, some, List,
  [], ◌∷◌, ◌++◌, arith, if◌then◌else◌, Bool-cases, Option-cases, Comparable, ◌==◌, nat_comparable,
  same→eq, In, here, In-append_left, In-append_right, Str, str_comparable, Map, lookup-delete,
  lookup-insert, Result, ok, err, Result-cases,
}
use kubetail.Prelude.{lookup, insert, delete, lookup-insert, lookup-delete}
use mathlib.Core.Option.{some-injective}
use mathlib.Core.List.{append_assoc, append-nil}
use kubetail.Logs.Records.{Time, before}
use kubetail.K8sHelpers.Authorizer.{
  cache_ttl, CacheKey, CacheValue, Clock, permission_denied, ask, do_sar,
}

-- One check of a key, with the answer that the API has for it.
pub record Check (K : Type 0) : Type 0 where
  pub key : K
  pub attrs : CacheKey
  pub clock : Clock
  pub answer : Result Bool

abbrev granted_value : Clock → CacheValue
granted_value t = record { allowed = true; expiration = t.stored_at + cache_ttl }

module _ {K : Type 0} ⦃c : Comparable K⦄ where
  abbrev pub check : Map K CacheValue → Check K → Map K CacheValue × Result (Unit {0})
  check cache d = do_sar cache d.key d.attrs d.clock d.answer

  -- The cache after some checks.
  unfoldable pub run_checks : Map K CacheValue → List (Check K) → Map K CacheValue
  unfolding do_sar
  run_checks cache [] = cache
  run_checks cache (d ∷ ds) = run_checks (check cache d).0 ds

  -- Among the checks is one of this key at which the API allowed it, with an answer that lives until
  -- this time.
  abbrev Backs : List (Check K) → K → Time → Type 0
  Backs ds k expiration =
      (d : Check K) × In d ds
      × (d.key ≡ k)
      × (d.answer ≡ ok true)
      × (expiration ≡ d.clock.stored_at + cache_ttl)

  record IsBacked (ds : List (Check K)) (cache : Map K CacheValue) : Type 0 where
    entry :
        (k : K) (v : CacheValue)
        → lookup k cache ≡ some v
        → (v.allowed ≡ true) × Backs ds k v.expiration

  Backs-append :
      (ds : List (Check K)) (d : Check K) (k : K) (t : Time)
      → Backs ds k t
      → Backs (ds ++ d ∷ []) k t
  Backs-append ds d k t (e, i, r0, r1, r2) = (e, In-append_left ds (d ∷ []) i, r0, r1, r2)

  delete-IsBacked :
      (ds : List (Check K)) (cache : Map K CacheValue) (k : K)
      → IsBacked ds cache
      → IsBacked ds (delete k cache)
  delete-IsBacked ds cache k b = record {
    entry = λ j v h. b.entry j v (ground (arith, lookup-delete k j cache));
  }

  weaken-IsBacked :
      (ds : List (Check K)) (cache : Map K CacheValue) (d : Check K)
      → IsBacked ds cache
      → IsBacked (ds ++ d ∷ []) cache
  weaken-IsBacked ds cache d b = record {
    entry = λ k v h. let r = b.entry k v h in (r.0, Backs-append ds d k v.expiration r.1);
  }

  -- A granted answer is stored.
  store-IsBacked :
      (ds : List (Check K)) (cache : Map K CacheValue) (d : Check K)
      → d.answer ≡ ok true
      → IsBacked ds cache
      → IsBacked (ds ++ d ∷ []) (insert d.key (granted_value d.clock) cache)
  store-IsBacked ds cache d granted_h b = record {
    entry = λ k v h. elim (Bool-cases (d.key == k)) [
      | inl same ↦
          let v_is : some (granted_value d.clock) ≡ some v =
            ground (arith, lookup-insert d.key k (granted_value d.clock) cache) in
          let w = some-injective _ _ v_is in
          subst (λ u. (u.allowed ≡ true) × Backs (ds ++ d ∷ []) k u.expiration) w
            (refl, (d, In-append_right ds (d ∷ []) here, same→eq _ _ same, granted_h, refl))
      | inr other ↦
          let old : lookup k cache ≡ some v =
            ground (arith, lookup-insert d.key k (granted_value d.clock) cache) in
          let r = b.entry k v old in (r.0, Backs-append ds d k v.expiration r.1)
    ];
  }

  ask-IsBacked :
      (ds : List (Check K)) (cache : Map K CacheValue) (d : Check K)
      → IsBacked ds cache
      → IsBacked (ds ++ d ∷ []) (ask cache d.key d.attrs d.clock d.answer).0
  unfolding ask
  ask-IsBacked ds cache d b =
      let after : (Result Bool) → Map K CacheValue = λ r. (ask cache d.key d.attrs d.clock r).0 in
      elim (Result-cases d.answer) [
        | inl (e, h) ↦
            subst (IsBacked (ds ++ d ∷ [])) (sym (ap after h)) (weaken-IsBacked ds cache d b)
        | inr (true, h) ↦
            subst (IsBacked (ds ++ d ∷ [])) (sym (ap after h)) (store-IsBacked ds cache d h b)
        | inr (false, h) ↦
            subst (IsBacked (ds ++ d ∷ [])) (sym (ap after h)) (weaken-IsBacked ds cache d b)
      ]

  -- A check asks the API, or answers from an entry that is not stale.
  check-cases :
      (cache : Map K CacheValue) (d : Check K)
      → ((base : Map K CacheValue) × ((base ≡ cache) ⊎ (base ≡ delete d.key cache))
          × (check cache d ≡ ask base d.key d.attrs d.clock d.answer))
        ⊎ ((v : CacheValue) × (lookup d.key cache ≡ some v)
            × (before d.clock.now v.expiration ≡ true)
            × (check cache d
                ≡ (cache, if not v.allowed then err (permission_denied d.attrs) else ok tt)))
  unfolding do_sar
  check-cases cache d = elim (Option-cases (lookup d.key cache)) [
    | inl h ↦ inl (cache, inl refl, rw (h, check, do_sar) refl)
    | inr (v, h) ↦ elim (Bool-cases (before d.clock.now v.expiration)) [
      | inl fresh ↦ inr (v, h, fresh, rw (h, fresh, check, do_sar) refl)
      | inr stale ↦ inl (delete d.key cache, inr refl, rw (h, stale, check, do_sar) refl)
    ]
  ]

  check-IsBacked :
      (ds : List (Check K)) (cache : Map K CacheValue) (d : Check K)
      → IsBacked ds cache
      → IsBacked (ds ++ d ∷ []) (check cache d).0
  check-IsBacked ds cache d b = elim (check-cases cache d) [
    | inl (base, inl e, s) ↦
        subst (λ r. IsBacked (ds ++ d ∷ []) r.0) (sym s)
          (ask-IsBacked ds base d (subst (IsBacked ds) (sym e) b))
    | inl (base, inr e, s) ↦
        subst (λ r. IsBacked (ds ++ d ∷ []) r.0) (sym s)
          (ask-IsBacked ds base d (subst (IsBacked ds) (sym e) (delete-IsBacked ds cache d.key b)))
    | inr (v, h, fresh, s) ↦
        subst (λ r. IsBacked (ds ++ d ∷ []) r.0) (sym s) (weaken-IsBacked ds cache d b)
  ]

  run-IsBacked :
      (es ds : List (Check K)) (cache : Map K CacheValue)
      → IsBacked es cache
      → IsBacked (es ++ ds) (run_checks cache ds)
  unfolding run_checks
  run-IsBacked es [] cache b = subst (λ l. IsBacked l cache) (sym (append-nil es)) b
  run-IsBacked es (d ∷ ds) cache b =
      subst (λ l. IsBacked l (run_checks (check cache d).0 ds)) (append_assoc es (d ∷ []) ds)
        (run-IsBacked (es ++ d ∷ []) ds (check cache d).0 (check-IsBacked es cache d b))

  ask-result :
      (base : Map K CacheValue) (d : Check K)
      → (((ask base d.key d.attrs d.clock d.answer).1 ≡ ok tt) × (d.answer ≡ ok true))
        ⊎ ((e : Str) × ((ask base d.key d.attrs d.clock d.answer).1 ≡ err e) × (d.answer ≢ ok true))
  unfolding ask
  ask-result base d = elim (Result-cases d.answer) [
    | inl (e, h) ↦ inr (e, rw h refl, λ q. absurd (cc))
    | inr (true, h) ↦ inl (rw h refl, h)
    | inr (false, h) ↦ inr (permission_denied d.attrs, rw h refl, λ q. absurd (cc))
  ]

  nil_lookup : {v : CacheValue} (k : K) → lookup {V = CacheValue} k [] ≡ some v → ⊥
  unfolding lookup
  nil_lookup k h = absurd (cc)

  -- Whatever checks a new authorizer has made, a check that passes has the API's permission for its
  -- key, from itself or from one of them that was stored less than the time to live ago. A check
  -- fails only if the API does not allow it at that moment: no refusal comes from the cache.
  pub granted :
      (ds : List (Check K)) (d : Check K)
      → (((check (run_checks [] ds) d).1 ≡ ok tt)
          × ((d.answer ≡ ok true)
              ⊎ ((e : Check K) × In e ds
                  × (e.key ≡ d.key)
                  × (e.answer ≡ ok true)
                  × (d.clock.now < e.clock.stored_at + cache_ttl))))
        ⊎ ((message : Str) × ((check (run_checks [] ds) d).1 ≡ err message) × (d.answer ≢ ok true))
  granted ds d =
      let b : IsBacked ds (run_checks [] ds) =
        run-IsBacked [] ds [] (record { entry = λ k v h. absurd (nil_lookup k h) }) in
      elim (check-cases (run_checks [] ds) d) [
        | inl (base, _, s) ↦ elim (ask-result base d) [
          | inl (r, yes_h) ↦ inl (ap (λ x. x.1) s ∙ r, inl yes_h)
          | inr (e, r, no_h) ↦ inr (e, ap (λ x. x.1) s ∙ r, no_h)
        ]
        | inr (v, h, fresh, s) ↦
            let (allowed_h, (e, i, k, a, t)) = b.entry d.key v h in
            inl (ap (λ x. x.1) s ∙ rw allowed_h refl, inr (e, i, k, a, ground arith))
      ]
