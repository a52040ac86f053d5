-- ===== src/K8sHelpers/Authorizer.antt =====
-- modules/shared/k8shelpers/authorizer.go. The answer of the SelfSubjectAccessReview API to a check
-- is an argument of it, and so are the times at which it reads the clock.
pub mod Granted
pub mod Tokens
pub mod Informers
use kubetail.Prelude.{
  ℕ, zero, suc, ◌+◌, ◌-◌, ◌*◌, ◌≤◌, ◌<◌, min, max, String, ◌≡◌, refl, sym, ap, ◌∙◌, subst, ◌≢◌, ◌↔◌,
  ◌⊎◌, inl, inr, Bool, true, false, not, ◌&&◌, ◌||◌, Option, none, some, List, [], ◌∷◌, ◌++◌, map,
  reverse, arith, ltb, leb, eqb, if◌then◌else◌, eqb_iff, Bool-cases, Option-cases, bool_ext,
  Comparable, ◌==◌, nat_comparable, same_refl, same→eq, length, take, drop, keep, keep-append,
  All-append, All-reverse, In, All, All-In, here, there, length-append, elem, distinct, elem-append,
  elem→In, In→elem, In-nil, In-append, In-append_left, In-append_right, In-singleton, In-cases, Str,
  str, same_str, same_str_iff, str_comparable, Map, lookup, delete, insert, Result, ok, err, ◌>>=◌,
  >>=-eq-ok, Result-cases,
}
use kubetail.Logs.Records.{Time, before}
use kubetail.Logs.WorkloadType.{GroupVersionResource}
use kubetail.Strings.{trim_space}

-- Five minutes in nanoseconds.
abbrev pub cache_ttl : Time
cache_ttl = 300_000_000_000

pub record CacheKey : Type 0 where
  pub namespace : Str
  pub group : Str
  pub resource : Str
  pub verb : Str

abbrev pub same_key : CacheKey → CacheKey → Bool
same_key a b =
    (a.namespace == b.namespace)
    && ((a.group == b.group) && ((a.resource == b.resource) && (a.verb == b.verb)))

pub same_key_iff : (a b : CacheKey) → (same_key a b ≡ true) ↔ (a ≡ b)
same_key_iff a b = ground (
  arith,
  same_str_iff a.namespace b.namespace,
  same_str_iff a.group b.group,
  same_str_iff a.resource b.resource,
  same_str_iff a.verb b.verb,
)

instance abbrev pub key_comparable : Comparable CacheKey
key_comparable = record { same = same_key; same_iff = same_key_iff }

pub record CacheValue : Type 0 where
  pub allowed : Bool
  pub expiration : Time

-- "permission denied: `verb "group"/"resource"` in namespace `namespace`"
abbrev pub permission_denied : CacheKey → Str
permission_denied k =
    str "permission denied: `"
    ++ (k.verb
        ++ (str " \""
            ++ (k.group
                ++ (str "\"/\""
                    ++ (k.resource ++ (str "\"` in namespace `" ++ (k.namespace ++ str "`")))))))

-- The times of a check: when the cache is read and the API asked, and when its answer is stored.
pub record Clock : Type 0 where
  pub now : Time
  pub stored_at : Time

-- `doSAR`, for the cache key of either authorizer.
module _ {K : Type 0} ⦃c : Comparable K⦄ where
  -- The request to the API, with a cache from which a stale entry has been removed.
  unfoldable pub ask :
      Map K CacheValue → K → CacheKey → Clock → Result Bool → Map K CacheValue × Result (Unit {0})
  ask cache k attrs t (err e) = (cache, err e)
  ask cache k attrs t (ok true) =
      (insert k (record { allowed = true; expiration = t.stored_at + cache_ttl }) cache, ok tt)
  ask cache k attrs t (ok false) = (cache, err (permission_denied attrs))

  unfoldable pub do_sar :
      Map K CacheValue → K → CacheKey → Clock → Result Bool → Map K CacheValue × Result (Unit {0})
  unfolding ask
  do_sar cache k attrs t answer = elim (lookup k cache) [
    | none ↦ ask cache k attrs t answer
    | some v ↦
        if before t.now v.expiration
        then (cache, if not v.allowed then err (permission_denied attrs) else ok tt)
        else ask (delete k cache) k attrs t answer
  ]

abbrev pub key_of : Str → GroupVersionResource → Str → CacheKey
key_of namespace gvr verb = record {
  namespace = namespace;
  group = gvr.group;
  resource = gvr.resource;
  verb = verb;
}

-- The key of the in-cluster authorizer, `fmt.Sprintf("%s:%v", token, key)`.
unfoldable pub token_key : Str → CacheKey → Str
token_key token k =
    token
    ++ (b':'
        ∷ (b'{'
            ∷ (k.namespace
                ++ (b' '
                    ∷ (k.group ++ (b' ' ∷ (k.resource ++ (b' ' ∷ (k.verb ++ (b'}' ∷ []))))))))))

-- The two checks of an error group, in either order. `Wait` returns the first error.
unfoldable pub both :
    {S : Type 0}
    → Bool
    → (S → S × Result (Unit {0}))
    → (S → S × Result (Unit {0}))
    → S
    → S × Result (Unit {0})
both swapped f g s =
    if swapped
    then (let (s', r) = g s in let (s'', r') = f s' in (s'', r >>= λ _. r'))
    else (let (s', r) = f s in let (s'', r') = g s' in (s'', r >>= λ _. r'))

-- `DefaultDesktopAuthorizer.IsAllowedInformer`. The API is asked for what it says on a verb.
unfoldable pub desktop_is_allowed :
    Map CacheKey CacheValue
    → Str
    → GroupVersionResource
    → (Str → Clock)
    → (Str → Result Bool)
    → Bool
    → Map CacheKey CacheValue × Result (Unit {0})
unfolding do_sar both
desktop_is_allowed cache namespace gvr clock answer swapped =
    both swapped
      (λ s.
        let k = key_of namespace gvr (str "list") in do_sar s k k (clock k.verb) (answer k.verb))
      (λ s.
        let k = key_of namespace gvr (str "watch") in do_sar s k k (clock k.verb) (answer k.verb))
      cache

-- `DefaultInClusterAuthorizer.IsAllowedInformer`. The clientset is made for the token first.
unfoldable pub in_cluster_is_allowed :
    (Str → Result (Str → Result Bool))
    → Map Str CacheValue
    → Str
    → Str
    → GroupVersionResource
    → (Str → Clock)
    → Bool
    → Map Str CacheValue × Result (Unit {0})
unfolding do_sar both token_key
in_cluster_is_allowed new_clientset cache token namespace gvr clock swapped =
    let trimmed = trim_space token in
    elim (new_clientset trimmed) [
      | err e ↦ (cache, err e)
      | ok answer ↦
          both swapped
            (λ s.
              let k = key_of namespace gvr (str "list") in
              do_sar s (token_key trimmed k) k (clock k.verb) (answer k.verb))
            (λ s.
              let k = key_of namespace gvr (str "watch") in
              do_sar s (token_key trimmed k) k (clock k.verb) (answer k.verb))
            cache
    ]
