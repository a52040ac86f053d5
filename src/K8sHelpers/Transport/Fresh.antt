-- ===== src/K8sHelpers/Transport/Fresh.antt =====
-- Lemmas on `get_token` of modules/shared/k8shelpers/transport.go: the cache and the file.
use kubetail.Prelude.{
  ◌+◌, ◌<◌, ◌≡◌, refl, sym, ap, ◌∙◌, subst, ◌≢◌, ◌⊎◌, inl, inr, true, not, ◌&&◌, List, [], ◌∷◌,
  ◌++◌, arith, Bool-cases, ◌==◌, nat_comparable, In, here, In-append_left, In-append_right, Str,
  same_str_iff, str_comparable, Result, ok, err, Result-cases,
}
use kubetail.Prelude.{ok-injective}
use mathlib.Core.List.{append_assoc, append-nil}
use kubetail.Logs.Records.{Time}
use kubetail.K8sHelpers.Transport.{
  Expiration, InClusterSatRoundTripper, Moment, read_token_from_file, is_fresh, get_token,
  empty_round_tripper, run,
}

module _ {Claims : Type 0} (parse_unverified : Str → Result Claims)
    (expiration_time : Claims → Expiration) where
  -- What the file of the service account is read as.
  abbrev pub read_at : Moment → Result (Str × Time)
  read_at m = read_token_from_file parse_unverified expiration_time empty_round_tripper.path m.file

  -- The round tripper with a token of its file.
  abbrev holding : Str → Time → InClusterSatRoundTripper
  holding token t = record empty_round_tripper { cached_token = token; expires_at = t }

  -- Nothing is cached, or a token that has been read in one of the calls.
  abbrev IsRead : List Moment → InClusterSatRoundTripper → Type 0
  IsRead ms rt =
      (token : Str) × (t : Time) × (rt ≡ holding token t)
      × ((token ≡ []) ⊎ ((m : Moment) × In m ms × (read_at m ≡ ok (token, t))))

  -- What a call on such a round tripper does.
  Outcome : Str → Time → Moment → Type 0
  Outcome token t m =
      ((get_token parse_unverified expiration_time (holding token t) m
          ≡ (holding token t, ok token))
        × (token ≢ [])
        × ((t ≡ 0) ⊎ (m.now + empty_round_tripper.refresh_skew < t)))
      ⊎ (((new_token : Str) × (u : Time) × (read_at m ≡ ok (new_token, u))
            × (get_token parse_unverified expiration_time (holding token t) m
                ≡ (holding new_token u, ok new_token)))
          ⊎ ((e : Str) × (get_token parse_unverified expiration_time (holding token t) m
                ≡ (holding token t, err e))))

  fresh_iff :
      (token : Str) (t : Time) (m : Moment)
      → (not (token == []) && is_fresh (holding token t) m.now) ≡ true
      → (token ≢ []) × ((t ≡ 0) ⊎ (m.now + empty_round_tripper.refresh_skew < t))
  fresh_iff token t m h = ground (arith, same_str_iff token [])

  get_token-Outcome : (token : Str) (t : Time) (m : Moment) → Outcome token t m
  unfolding Outcome get_token
  get_token-Outcome token t m =
      elim (Bool-cases (not (token == []) && is_fresh (holding token t) m.now)) [
        | inl h ↦ let (n, f) = fresh_iff token t m h in inl (rw (h, get_token) refl, n, f)
        | inr h ↦ elim (Result-cases (read_at m)) [
          | inl (e, q) ↦ inr (inr (e, rw (h, q, get_token) refl))
          | inr ((new_token, u), q) ↦ inr (inl (new_token, u, q, rw (h, q, get_token) refl))
        ]
      ]

  IsRead-append :
      (ms : List Moment) (m : Moment) (rt : InClusterSatRoundTripper)
      → IsRead ms rt
      → IsRead (ms ++ m ∷ []) rt
  IsRead-append ms m rt (token, t, e, inl q) = (token, t, e, inl q)
  IsRead-append ms m rt (token, t, e, inr (u, i, q)) =
      (token, t, e, inr (u, In-append_left ms (m ∷ []) i, q))

  get_token-IsRead :
      (ms : List Moment) (m : Moment) (rt : InClusterSatRoundTripper)
      → IsRead ms rt
      → IsRead (ms ++ m ∷ []) (get_token parse_unverified expiration_time rt m).0
  unfolding Outcome
  get_token-IsRead ms m rt (token, t, e, r) =
      let old = IsRead-append ms m rt (token, t, e, r) in
      elim (get_token-Outcome token t m) [
        | inl (q, _, _) ↦
            subst (IsRead (ms ++ m ∷ []))
              (e
                ∙ sym (ap (λ x. x.0) q)
                ∙ ap (λ x. (get_token parse_unverified expiration_time x m).0) (sym e))
              old
        | inr (inl (new_token, u, q, s)) ↦ (
          new_token,
          u,
          ap (λ x. (get_token parse_unverified expiration_time x m).0) e ∙ ap (λ x. x.0) s,
          inr (m, In-append_right ms (m ∷ []) here, q),
        )
        | inr (inr (_, q)) ↦
            subst (IsRead (ms ++ m ∷ []))
              (e
                ∙ sym (ap (λ x. x.0) q)
                ∙ ap (λ x. (get_token parse_unverified expiration_time x m).0) (sym e))
              old
      ]

  run-IsRead :
      (ls ms : List Moment) (rt : InClusterSatRoundTripper)
      → IsRead ls rt
      → IsRead (ls ++ ms) (run parse_unverified expiration_time ms rt)
  unfolding run
  run-IsRead ls [] rt r = subst (λ l. IsRead l rt) (sym (append-nil ls)) r
  run-IsRead ls (m ∷ ms) rt r =
      subst
        (λ l. IsRead l (
          run parse_unverified expiration_time ms
            (get_token parse_unverified expiration_time rt m).0))
        (append_assoc ls (m ∷ []) ms) (run-IsRead (ls ++ m ∷ []) ms _ (get_token-IsRead ls m rt r))

  -- A token that a call returns, after any calls, has been read from the file: in this call, or in one
  -- before it, and then it has no end or more than the skew is left until its end.
  pub get_token-fresh :
      (ms : List Moment) (m : Moment) (token : Str)
      → (get_token parse_unverified expiration_time
          (run parse_unverified expiration_time ms empty_round_tripper)
          m).1
        ≡ ok token
      → ((t : Time) × (read_at m ≡ ok (token, t)))
        ⊎ ((u : Moment) × (t : Time) × In u ms
            × (read_at u ≡ ok (token, t))
            × ((t ≡ 0) ⊎ (m.now + empty_round_tripper.refresh_skew < t)))
  unfolding Outcome
  get_token-fresh ms m token h =
      let (old, t, e, r) = run-IsRead [] ms empty_round_tripper ([], 0, refl, inl refl) in
      let moved = ap (λ x. (get_token parse_unverified expiration_time x m).1) (sym e) ∙ h in
      elim (get_token-Outcome old t m) [
        | inl (q, n, f) ↦
            let same : old ≡ token = ok-injective old token (sym (ap (λ x. x.1) q) ∙ moved) in
            elim r [
              | inl none_h ↦ absurd (n none_h)
              | inr (u, i, a) ↦ inr (u, t, i, a ∙ ap (λ x. ok (x, t)) same, f)
            ]
        | inr (inl (new_token, u, q, s)) ↦
            let same : new_token ≡ token =
              ok-injective new_token token (sym (ap (λ x. x.1) s) ∙ moved) in
            inl (u, q ∙ ap (λ x. ok (x, u)) same)
        | inr (inr (er, q)) ↦
            let bad : err er ≡ ok token = sym (ap (λ x. x.1) q) ∙ moved in absurd (cc)
      ]
