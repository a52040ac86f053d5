-- ===== src/K8sHelpers/ServiceAccountToken.antt =====
-- modules/shared/k8shelpers/service-account-token.go. The answer of the API to a request for a token is
-- an argument, and so is the time that a call reads. A call holds a lock.
use kubetail.Prelude.{
  ℕ, ◌+◌, ◌-◌, ◌≤◌, ◌≡◌, refl, sym, ◌∙◌, ◌⊎◌, inl, inr, arith, ltb, if◌then◌else◌, Bool-cases,
  nat_comparable, Str, str_comparable, Result, ok, err, ◌>>=◌,
}
use Prim.Native.Nat.{◌/◌}
use kubetail.Prelude.{ok-injective}
use kubetail.Logs.Records.{Time, before}

pub record TokenRequest : Type 0 where
  pub token : Str
  pub expiration_timestamp : Time

-- The latest token request.
unfoldable pub refresh_token_unsafe :
    TokenRequest → Result TokenRequest → TokenRequest × Result (Unit {0})
refresh_token_unsafe latest (err e) = (latest, err e)
refresh_token_unsafe latest (ok val) = (val, ok tt)

unfoldable pub token : Time → Result TokenRequest → TokenRequest → TokenRequest × Result Str
unfolding refresh_token_unsafe
token now answer latest =
    if before latest.expiration_timestamp now
    then (let (latest', r) = refresh_token_unsafe latest answer in
        (latest', r >>= λ _. ok latest'.token))
    else (latest, ok latest.token)

-- `NewServiceAccountToken`
unfoldable pub new_service_account_token : Result TokenRequest → Result TokenRequest
new_service_account_token answer = answer

abbrev pub half_a_minute : ℕ
half_a_minute = 30_000_000_000

-- The wait before the next refresh in the background: half the time that is left, and half a minute
-- at least.
unfoldable pub sleep_time : Time → TokenRequest → ℕ
sleep_time now latest =
    let t = (latest.expiration_timestamp - now) / 2 in
    if ltb half_a_minute t then t else half_a_minute

-- One turn of the loop in the background.
unfoldable pub background_refresh : Time → Result TokenRequest → TokenRequest → TokenRequest × ℕ
unfolding refresh_token_unsafe sleep_time
background_refresh now answer latest =
    let (latest', _) = refresh_token_unsafe latest answer in (latest', sleep_time now latest')

-- A token that is returned has not expired, or has just been requested.
pub token_valid :
    (now : Time) (answer : Result TokenRequest) (latest : TokenRequest) (t : Str)
    → (token now answer latest).1 ≡ ok t
    → ((now ≤ latest.expiration_timestamp) × (t ≡ latest.token))
      ⊎ ((val : TokenRequest) × (answer ≡ ok val) × (t ≡ val.token))
unfolding token refresh_token_unsafe
token_valid now (err e) latest t h = elim (Bool-cases (before latest.expiration_timestamp now)) [
  | inl late ↦
      let bad : err e ≡ ok t = sym (rw (token, refresh_token_unsafe, late) refl) ∙ h in absurd (cc)
  | inr in_time ↦
      let kept : ok latest.token ≡ ok t = sym (rw (token, in_time) refl) ∙ h in
      inl (ground (arith, in_time), sym (ok-injective _ _ kept))
]
token_valid now (ok val) latest t h = elim (Bool-cases (before latest.expiration_timestamp now)) [
  | inl late ↦
      let made : ok val.token ≡ ok t = sym (rw (token, refresh_token_unsafe, late) refl) ∙ h in
      inr (val, refl, sym (ok-injective _ _ made))
  | inr in_time ↦
      let kept : ok latest.token ≡ ok t = sym (rw (token, in_time) refl) ∙ h in
      inl (ground (arith, in_time), sym (ok-injective _ _ kept))
]

sleep_time-short :
    (now : Time) (latest : TokenRequest)
    → now + (half_a_minute + half_a_minute) ≤ latest.expiration_timestamp
    → now + sleep_time now latest ≤ latest.expiration_timestamp
unfolding sleep_time
sleep_time-short now latest h = ground arith

-- A turn of the background loop that leaves a token with a minute or more to live comes again before
-- the token expires.
pub background_refresh-in_time :
    (now : Time) (answer : Result TokenRequest) (latest : TokenRequest)
    → now + (half_a_minute + half_a_minute)
      ≤ (background_refresh now answer latest).0.expiration_timestamp
    → now + (background_refresh now answer latest).1
      ≤ (background_refresh now answer latest).0.expiration_timestamp
unfolding background_refresh sleep_time
background_refresh-in_time now answer latest h =
    sleep_time-short now (refresh_token_unsafe latest answer).0 h
