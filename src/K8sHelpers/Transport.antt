-- ===== src/K8sHelpers/Transport.antt =====
-- modules/shared/k8shelpers/transport.go: the tokens that requests carry. The JWT library is the
-- arguments `parse_unverified` and `expiration_time`. A call of `getToken` holds a lock, reads the
-- clock once, and finds the token's file as it is then.
pub mod Fresh
use kubetail.Prelude.{
  ℕ, zero, suc, ◌+◌, ◌-◌, ◌*◌, ◌≤◌, ◌<◌, min, max, String, ◌≡◌, refl, sym, ap, ◌∙◌, subst, ◌≢◌, ◌↔◌,
  ◌⊎◌, inl, inr, Bool, true, false, not, ◌&&◌, ◌||◌, Option, none, some, List, [], ◌∷◌, ◌++◌, map,
  reverse, arith, ltb, leb, eqb, if◌then◌else◌, eqb_iff, Bool-cases, Option-cases, bool_ext,
  Comparable, ◌==◌, nat_comparable, same_refl, same→eq, length, take, drop, keep, keep-append,
  All-append, All-reverse, In, All, All-In, here, there, length-append, elem, distinct, elem-append,
  elem→In, In→elem, In-nil, In-append, In-append_left, In-append_right, In-singleton, In-cases, Str,
  str, same_str, same_str_iff, str_comparable, Map, lookup, delete, insert, lookup-delete,
  lookup-insert, Result, ok, err, ◌>>=◌, >>=-eq-ok, Result-cases,
}
use kubetail.Strings.{trim_space}
use kubetail.Logs.Records.{Time, is_zero}

-- The `Authorization` header of `BearerTokenRoundTripper`, and of `InClusterSATRoundTripper`.
unfoldable pub authorization : Str → Str
authorization token = str "Bearer " ++ token

-- What the claims of a token say of its end. `missing` is the error for a required claim that is
-- missing, and `absent` is no time and no error.
pub data Expiration : Type 0 where
  missing : Expiration
  failed : Str → Expiration
  absent : Expiration
  at_time : Time → Expiration

pub record InClusterSatRoundTripper : Type 0 where
  pub path : Str
  pub refresh_skew : ℕ
  pub cached_token : Str
  pub expires_at : Time

-- What a call finds: the time, and the token's file.
pub record Moment : Type 0 where
  pub now : Time
  pub file : Result Str

-- The cached token has more than the skew left.
abbrev pub is_fresh : InClusterSatRoundTripper → Time → Bool
is_fresh rt now = is_zero rt.expires_at || ltb (now + rt.refresh_skew) rt.expires_at

abbrev pub empty_round_tripper : InClusterSatRoundTripper
empty_round_tripper = record {
  path = str "/var/run/secrets/kubernetes.io/serviceaccount/token";
  refresh_skew = 60_000_000_000;
  cached_token = [];
  expires_at = 0;
}

module _ {Claims : Type 0} (parse_unverified : Str → Result Claims)
    (expiration_time : Claims → Expiration) where
  abbrev with_expiration : Str → Expiration → Result (Str × Time)
  with_expiration token missing = ok (token, 0)
  with_expiration token (failed e) = err e
  with_expiration token absent = ok (token, 0)
  with_expiration token (at_time t) = ok (token, t)

  -- The token and its end, which is the zero time if it has none.
  unfoldable pub read_token_from_file : Str → Result Str → Result (Str × Time)
  read_token_from_file path file = file >>= λ bytes.
      let token_string = trim_space bytes in
      if token_string == []
      then err (str "service account token file " ++ (path ++ str " is empty"))
      else parse_unverified token_string >>= λ claims.
          with_expiration token_string (expiration_time claims)

  unfoldable pub get_token :
      InClusterSatRoundTripper → Moment → InClusterSatRoundTripper × Result Str
  unfolding read_token_from_file
  get_token rt m =
      if not (rt.cached_token == []) && is_fresh rt m.now
      then (rt, ok rt.cached_token)
      else elim (read_token_from_file rt.path m.file) [
        | err e ↦ (rt, err e)
        | ok (token, expires_at) ↦
            (record rt { cached_token = token; expires_at = expires_at }, ok token)
      ]

  -- The header that the transport gets, or no request at all.
  unfoldable pub round_trip :
      InClusterSatRoundTripper → Moment → InClusterSatRoundTripper × Result Str
  unfolding get_token authorization
  round_trip rt m = let (rt', token) = get_token rt m in (rt', token >>= λ t. ok (authorization t))

  -- A round tripper, once a first token has been read.
  unfoldable pub new_in_cluster_sat_round_tripper : Moment → Result InClusterSatRoundTripper
  unfolding get_token
  new_in_cluster_sat_round_tripper m =
      let (rt, token) = get_token empty_round_tripper m in token >>= λ _. ok rt

  -- Calls, one after the other.
  unfoldable pub run : List Moment → InClusterSatRoundTripper → InClusterSatRoundTripper
  unfolding get_token
  run [] rt = rt
  run (m ∷ ms) rt = run ms (get_token rt m).0
