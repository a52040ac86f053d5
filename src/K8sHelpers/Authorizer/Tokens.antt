-- ===== src/K8sHelpers/Authorizer/Tokens.antt =====
-- The keys of the in-cluster authorizer's cache.
use kubetail.Prelude.{
  ℕ, ◌+◌, ◌<◌, ◌≡◌, refl, sym, ap, ◌∙◌, subst, ◌⊎◌, inl, inr, Bool, true, some, List, [], ◌∷◌, ◌++◌,
  map, reverse, nat_comparable, drop, In, All, All-In, here, there, In-nil, In-cases, Str,
  str_comparable, Result, ok,
}
use mathlib.Core.List.{append_assoc, reverse-reverse, reverse-append, reverse-cons}
use mathlib.Core.Option.{some-injective}
use kubetail.Strings.{cut_at}
use kubetail.Strings.Laws.{Without, Without-append, Without-reverse, cut_at-append}
use kubetail.K8sHelpers.Authorizer.{cache_ttl, CacheKey, Clock, token_key}
use kubetail.K8sHelpers.Authorizer.Granted.{Check, check, run_checks, granted}

-- Two texts that are each split at the first of a character are split alike.
split_first :
    (c : ℕ) (a a' b b' : Str)
    → Without c a
    → Without c a'
    → a ++ (c ∷ b) ≡ a' ++ (c ∷ b')
    → (a ≡ a') × (b ≡ b')
split_first c a a' b b' h h' e =
    let same : some (a, b) ≡ some (a', b') =
      sym (cut_at-append c a b h) ∙ ap (cut_at c) e ∙ cut_at-append c a' b' h' in
    let pair = some-injective _ _ same in (ap (λ x. x.0) pair, ap (λ x. x.1) pair)

reverse_split : (c : ℕ) (a b : Str) → reverse (a ++ (c ∷ b)) ≡ reverse b ++ (c ∷ reverse a)
reverse_split c a b = simp (reverse-append, reverse-cons, append_assoc)

-- And so are two that are split at the last one.
split_last :
    (c : ℕ) (a a' b b' : Str)
    → Without c b
    → Without c b'
    → a ++ (c ∷ b) ≡ a' ++ (c ∷ b')
    → (a ≡ a') × (b ≡ b')
split_last c a a' b b' h h' e =
    let turned : reverse b ++ (c ∷ reverse a) ≡ reverse b' ++ (c ∷ reverse a') =
      sym (reverse_split c a b) ∙ ap reverse e ∙ reverse_split c a' b' in
    let (p, q) = split_first c _ _ _ _ (Without-reverse c b h) (Without-reverse c b' h') turned in
    (
      sym (reverse-reverse a) ∙ ap reverse q ∙ reverse-reverse a',
      sym (reverse-reverse b) ∙ ap reverse p ∙ reverse-reverse b',
    )

-- Names as Kubernetes has them: without colons and spaces.
abbrev pub IsName : Str → Type 0
IsName s = Without b':' s × Without b' ' s

unfoldable pub IsPlain : CacheKey → Type 0
IsPlain k = IsName k.namespace × IsName k.group × IsName k.resource × IsName k.verb

-- The key as %v prints it.
abbrev printed : CacheKey → Str
printed k =
    b'{'
    ∷ (k.namespace
        ++ (b' ' ∷ (k.group ++ (b' ' ∷ (k.resource ++ (b' ' ∷ (k.verb ++ (b'}' ∷ []))))))))

printed-Without : (k : CacheKey) → IsPlain k → Without b':' (printed k)
unfolding IsPlain
printed-Without k (n, g, r, v) =
    let last = Without-append b':' k.verb (b'}' ∷ []) v.0 (refl, tt) in
    let two = Without-append b':' k.resource (b' ' ∷ (k.verb ++ (b'}' ∷ []))) r.0 (refl, last) in
    let three = Without-append b':' k.group _ g.0 (refl, two) in
    (refl, Without-append b':' k.namespace _ n.0 (refl, three))

key_ext :
    (j k : CacheKey)
    → j.namespace ≡ k.namespace
    → j.group ≡ k.group
    → j.resource ≡ k.resource
    → j.verb ≡ k.verb
    → j ≡ k
key_ext j k n g r v i = record { namespace = n i; group = g i; resource = r i; verb = v i }

printed-injective : (j k : CacheKey) → IsPlain j → IsPlain k → printed j ≡ printed k → j ≡ k
unfolding IsPlain
printed-injective j k (jn, jg, jr, jv) (kn, kg, kr, kv) e =
    let (n, e1) = split_first b' ' _ _ _ _ jn.1 kn.1 (ap (drop 1) e) in
    let (g, e2) = split_first b' ' _ _ _ _ jg.1 kg.1 e1 in
    let (r, e3) = split_first b' ' _ _ _ _ jr.1 kr.1 e2 in
    let (v, _) = split_last b'}' _ _ _ _ tt tt e3 in key_ext j k n g r v

-- The tokens are any texts.
token_key-injective :
    (s t : Str) (j k : CacheKey)
    → IsPlain j
    → IsPlain k
    → token_key s j ≡ token_key t k
    → (s ≡ t) × (j ≡ k)
unfolding token_key
token_key-injective s t j k p q e =
    let (same, e') =
      split_last b':' s t (printed j) (printed k) (printed-Without j p) (printed-Without k q) e in
    (same, printed-injective j k p q e')

-- One check for a token.
pub record TokenCheck : Type 0 where
  pub token : Str
  pub attrs : CacheKey
  pub clock : Clock
  pub answer : Result Bool

unfoldable pub to_check : TokenCheck → Check Str
unfolding token_key
to_check t = record {
  key = token_key t.token t.attrs;
  attrs = t.attrs;
  clock = t.clock;
  answer = t.answer;
}

In-map :
    (e : Check Str) (ts : List TokenCheck)
    → In e (map to_check ts)
    → (t : TokenCheck) × In t ts × (to_check t ≡ e)
In-map e [] i = absurd (In-nil i)
In-map e (t ∷ ts) i = elim (In-cases i) [
  | inl q ↦ (t, here, q)
  | inr j ↦ let (u, k, q) = In-map e ts j in (u, there k, q)
]

-- Whatever checks a new in-cluster authorizer has made, a check that passes has the API's permission
-- for its own token and its own key, from itself or from one of them that was stored less than the
-- time to live ago. The keys are made of names without colons and spaces, the tokens are any texts.
pub granted_token :
    (ts : List TokenCheck) (t : TokenCheck)
    → All (λ u. IsPlain u.attrs) ts
    → IsPlain t.attrs
    → (check (run_checks [] (map to_check ts)) (to_check t)).1 ≡ ok tt
    → (t.answer ≡ ok true)
      ⊎ ((u : TokenCheck) × In u ts
          × (u.token ≡ t.token)
          × (u.attrs ≡ t.attrs)
          × (u.answer ≡ ok true)
          × (t.clock.now < u.clock.stored_at + cache_ttl))
unfolding to_check
granted_token ts t ps p r = elim (granted (map to_check ts) (to_check t)) [
  | inl (_, inl a) ↦ inl a
  | inl (_, inr (e, i, k, a, l)) ↦
      let (u, j, q) = In-map e ts i in
      let (same, attrs) =
        token_key-injective u.token t.token u.attrs t.attrs (All-In (λ u. IsPlain u.attrs) ps j) p
          (ap (λ x. x.key) q ∙ k) in
      inr (
        u,
        j,
        same,
        attrs,
        ap (λ x. x.answer) q ∙ a,
        subst (λ x. t.clock.now < x.clock.stored_at + cache_ttl) (sym q) l,
      )
  | inr (_, r', _) ↦ absurd (cc)
]
