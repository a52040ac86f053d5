-- ===== src/K8sHelpers/Authorizer/Informers.antt =====
-- `IsAllowedInformer` of the in-cluster authorizer, over its cache.
use kubetail.Prelude.{
  ◌+◌, ◌<◌, ◌≡◌, refl, sym, ap, ◌∙◌, ◌≢◌, ◌⊎◌, inl, inr, Bool, true, false, List, [], ◌∷◌, ◌++◌,
  map, arith, nat_comparable, All-append, In, All, In-append, In-singleton, Str, str,
  str_comparable, Map, Result, ok, err, >>=-eq-ok, Result-cases,
}
use kubetail.Strings.{trim_space}
use kubetail.Logs.WorkloadType.{GroupVersionResource}
use kubetail.K8sHelpers.Authorizer.{
  cache_ttl, CacheValue, Clock, key_of, both, in_cluster_is_allowed,
}
use kubetail.K8sHelpers.Authorizer.Granted.{check, run_checks}
use kubetail.K8sHelpers.Authorizer.Tokens.{TokenCheck, to_check, IsName, IsPlain, granted_token}

run_checks-append :
    (ts : List TokenCheck) (t : TokenCheck) (cache : Map Str CacheValue)
    → run_checks cache (map to_check (ts ++ t ∷ []))
      ≡ (check (run_checks cache (map to_check ts)) (to_check t)).0
unfolding run_checks
run_checks-append [] t cache = refl
run_checks-append (u ∷ ts) t cache = run_checks-append ts t (check cache (to_check u)).0

-- The checks that the cache has been filled by.
abbrev pub cache_after : List TokenCheck → Map Str CacheValue
cache_after ts = run_checks [] (map to_check ts)

-- The API allows it now, or has allowed it in one of the checks, less than the time to live ago.
abbrev pub HasGrant : List TokenCheck → TokenCheck → Type 0
HasGrant ts t =
    (t.answer ≡ ok true)
    ⊎ ((u : TokenCheck) × In u ts
        × (u.token ≡ t.token)
        × (u.attrs ≡ t.attrs)
        × (u.answer ≡ ok true)
        × (t.clock.now < u.clock.stored_at + cache_ttl))

-- A check of another verb is no grant.
HasGrant-other :
    (ts : List TokenCheck) (first t : TokenCheck)
    → first.attrs.verb ≢ t.attrs.verb
    → HasGrant (ts ++ first ∷ []) t
    → HasGrant ts t
HasGrant-other ts first t n (inl a) = inl a
HasGrant-other ts first t n (inr (u, i, k, a, r, l)) = elim (In-append ts (first ∷ []) i) [
  | inl j ↦ inr (u, j, k, a, r, l)
  | inr j ↦ absurd (n (ap (λ x. x.attrs.verb) (In-singleton j) ∙ ap (λ x. x.verb) a))
]

-- Two checks, one after the other.
two_granted :
    (ts : List TokenCheck) (first second : TokenCheck)
    → All (λ u. IsPlain u.attrs) ts
    → IsPlain first.attrs
    → IsPlain second.attrs
    → first.attrs.verb ≢ second.attrs.verb
    → (check (cache_after ts) (to_check first)).1 ≡ ok tt
    → (check (check (cache_after ts) (to_check first)).0 (to_check second)).1 ≡ ok tt
    → HasGrant ts first × HasGrant ts second
two_granted ts first second ps p q n h h' = (
  granted_token ts first ps p h,
  HasGrant-other ts first second n (
      granted_token (ts ++ first ∷ []) second (All-append _ ts (first ∷ []) ps (p, tt)) q
        (ap (λ c. (check c (to_check second)).1) (run_checks-append ts first []) ∙ h')),
)

abbrev pub check_of :
    Str → Str → GroupVersionResource → (Str → Clock) → (Str → Result Bool) → Str → TokenCheck
check_of token namespace gvr clock answer verb = record {
  token = token;
  attrs = key_of namespace gvr verb;
  clock = clock verb;
  answer = answer verb;
}

IsPlain-key_of :
    (namespace : Str) (gvr : GroupVersionResource) (verb : Str)
    → IsName namespace
    → IsName gvr.group
    → IsName gvr.resource
    → IsName verb
    → IsPlain (key_of namespace gvr verb)
unfolding IsPlain
IsPlain-key_of namespace gvr verb n g r v = (n, g, r, v)

both-ok :
    {S : Type 0} (swapped : Bool) (f g : S → S × Result (Unit {0})) (s : S)
    → (both swapped f g s).1 ≡ ok tt
    → (((f s).1 ≡ ok tt) × ((g (f s).0).1 ≡ ok tt)) ⊎ (((g s).1 ≡ ok tt) × ((f (g s).0).1 ≡ ok tt))
unfolding both
both-ok true f g s h = let (v, p, q) = >>=-eq-ok (g s).1 (λ _. (f (g s).0).1) h in inr (p, q)
both-ok false f g s h = let (v, p, q) = >>=-eq-ok (f s).1 (λ _. (g (f s).0).1) h in inl (p, q)

no_clientset :
    (new_clientset : Str → Result (Str → Result Bool)) (cache : Map Str CacheValue)
    (token namespace : Str) (gvr : GroupVersionResource) (clock : Str → Clock) (swapped : Bool)
    (e : Str)
    → new_clientset (trim_space token) ≡ err e
    → (in_cluster_is_allowed new_clientset cache token namespace gvr clock swapped).1 ≡ err e
unfolding in_cluster_is_allowed
no_clientset new_clientset cache token namespace gvr clock swapped e q =
    rw (q, in_cluster_is_allowed) refl

two_checks :
    (new_clientset : Str → Result (Str → Result Bool)) (cache : Map Str CacheValue)
    (token namespace : Str) (gvr : GroupVersionResource) (clock : Str → Clock) (swapped : Bool)
    (answer : Str → Result Bool)
    → new_clientset (trim_space token) ≡ ok answer
    → in_cluster_is_allowed new_clientset cache token namespace gvr clock swapped
      ≡ both swapped
          (λ c.
            check c
              (to_check (check_of (trim_space token) namespace gvr clock answer (str "list"))))
          (λ c.
            check c
              (to_check (check_of (trim_space token) namespace gvr clock answer (str "watch"))))
          cache
unfolding in_cluster_is_allowed to_check
two_checks new_clientset cache token namespace gvr clock swapped answer q =
    rw (q, in_cluster_is_allowed, to_check) refl

-- The cache has been filled by any checks. An informer that the authorizer allows has a clientset for
-- its token, without the spaces around it, and, both for `list` and for `watch`, the API's permission
-- for this token, this namespace and this resource, given now or less than the time to live ago,
-- whichever of its two checks comes first. Namespaces and resources are names without colons and
-- spaces.
pub in_cluster_is_allowed-granted :
    (new_clientset : Str → Result (Str → Result Bool)) (ts : List TokenCheck)
    (token namespace : Str) (gvr : GroupVersionResource) (clock : Str → Clock) (swapped : Bool)
    → All (λ u. IsPlain u.attrs) ts
    → IsName namespace
    → IsName gvr.group
    → IsName gvr.resource
    → (in_cluster_is_allowed new_clientset (cache_after ts) token namespace gvr clock swapped).1
      ≡ ok tt
    → (answer : Str → Result Bool) × (new_clientset (trim_space token) ≡ ok answer)
      × HasGrant ts (check_of (trim_space token) namespace gvr clock answer (str "list"))
      × HasGrant ts (check_of (trim_space token) namespace gvr clock answer (str "watch"))
in_cluster_is_allowed-granted new_clientset ts token namespace gvr clock swapped ps n g r h =
    elim (Result-cases (new_clientset (trim_space token))) [
      | inl (e, q) ↦
          let bad : err e ≡ ok tt =
            sym (no_clientset new_clientset (cache_after ts) token namespace gvr clock swapped e q)
            ∙ h in
          absurd (cc)
      | inr (answer, q) ↦
          let first = check_of (trim_space token) namespace gvr clock answer (str "list") in
          let second = check_of (trim_space token) namespace gvr clock answer (str "watch") in
          let p1 = IsPlain-key_of namespace gvr (str "list") n g r (ground arith) in
          let p2 = IsPlain-key_of namespace gvr (str "watch") n g r (ground arith) in
          let passed =
            ap (λ x. x.1)
              (sym (
                two_checks new_clientset (cache_after ts) token namespace gvr clock swapped answer
                  q))
            ∙ h in
          let (list_granted, watch_granted) : HasGrant ts first × HasGrant ts second =
            elim (both-ok swapped _ _ (cache_after ts) passed) [
              | inl (a, b) ↦ two_granted ts first second ps p1 p2 (λ e. absurd (cc)) a b
              | inr (a, b) ↦
                  let (x, y) = two_granted ts second first ps p2 p1 (λ e. absurd (cc)) a b in (y, x)
            ] in
          (answer, q, list_granted, watch_granted)
    ]
