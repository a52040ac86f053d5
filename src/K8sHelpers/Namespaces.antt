-- ===== src/K8sHelpers/Namespaces.antt =====
-- modules/shared/k8shelpers/namespaces.go. `BypassNamespaceCheck` is a pointer to the empty string
-- that is told apart by its address.
use kubetail.Prelude.{
  ◌≡◌, refl, subst, ◌≢◌, ◌⊎◌, inl, inr, Bool, true, false, not, ◌&&◌, List, [], ◌∷◌, arith,
  if◌then◌else◌, Bool-cases, ◌==◌, nat_comparable, In, All, here, there, elem, elem→In, In→elem,
  Str, str, str_comparable, Result, ok, err,
}

-- A *string.
pub data StringPtr : Type 0 where
  null bypass_namespace_check : StringPtr
  to : Str → StringPtr

-- ptr.Deref
abbrev pub deref : StringPtr → Str → Str
deref null d = d
deref bypass_namespace_check d = []
deref (to s) d = s

abbrev pub err_forbidden : Str
err_forbidden = str "Forbidden"

abbrev pub is_bypass : StringPtr → Bool
is_bypass bypass_namespace_check = true
is_bypass _ = false

-- len(allowed) > 0
abbrev pub is_limited : List Str → Bool
is_limited [] = false
is_limited (x ∷ xs) = true

unfoldable pub deref_namespace : List Str → StringPtr → Str → Result Str
deref_namespace allowed p default_namespace =
    let ns = deref p default_namespace in
    if is_bypass p
    then ok ns
    else if is_limited allowed && not (elem ns allowed)
    then err err_forbidden
    else ok ns

unfoldable pub deref_namespace_to_list : List Str → StringPtr → Str → Result (List Str)
deref_namespace_to_list allowed p default_namespace =
    let ns = deref p default_namespace in
    if is_bypass p
    then ok ([] ∷ [])
    else if not (ns == []) && (is_limited allowed && not (elem ns allowed))
    then err err_forbidden
    else if (ns == []) && is_limited allowed
    then ok allowed
    else ok (ns ∷ [])

-- Namespaces that a limit lets through.
abbrev pub Permitted : List Str → Str → Type 0
Permitted allowed ns = (allowed ≡ []) ⊎ In ns allowed

All-self :
    (all allowed : List Str)
    → ((ns : Str) → In ns allowed → In ns all)
    → All (Permitted all) allowed
All-self all [] h = tt
All-self all (x ∷ xs) h = (inr (h x here), All-self all xs (λ ns i. h ns (there i)))

Permitted-test :
    (allowed : List Str) (ns : Str)
    → (is_limited allowed && not (elem ns allowed)) ≡ false
    → Permitted allowed ns
Permitted-test [] ns h = inl refl
Permitted-test (x ∷ xs) ns h = inr (elem→In ns (x ∷ xs) (ground arith))

refused_test :
    (allowed : List Str) (ns : Str)
    → (is_limited allowed && not (elem ns allowed)) ≡ true
    → ¬ Permitted allowed ns
refused_test allowed ns h (inl e) = cc (subst (λ l. (is_limited l && not (elem ns l)) ≡ true) e h)
refused_test allowed ns h (inr i) = ground (arith, In→elem i)

not_bypass : (p : StringPtr) → p ≢ bypass_namespace_check → is_bypass p ≡ false
not_bypass null n = refl
not_bypass bypass_namespace_check n = absurd (n refl)
not_bypass (to s) n = refl

-- A pointer that does not bypass the check gives its namespace, or the default one, exactly if the
-- limit lets it through, and is an error otherwise; as a list, it gives namespaces that the limit
-- lets through only.
pub deref_namespace_checks :
    (allowed : List Str) (p : StringPtr) (default_namespace : Str)
    → p ≢ bypass_namespace_check
    → (((deref_namespace allowed p default_namespace ≡ ok (deref p default_namespace))
          × Permitted allowed (deref p default_namespace))
        ⊎ ((deref_namespace allowed p default_namespace ≡ err err_forbidden)
            × ¬ Permitted allowed (deref p default_namespace)))
      × ((deref_namespace_to_list allowed p default_namespace ≡ err err_forbidden)
          ⊎ ((l : List Str) × (deref_namespace_to_list allowed p default_namespace ≡ ok l)
              × All (Permitted allowed) l))
unfolding deref_namespace deref_namespace_to_list
deref_namespace_checks allowed p d n =
    let ns = deref p d in
    let open_ : is_bypass p ≡ false = not_bypass p n in
    (
      elim (Bool-cases (is_limited allowed && not (elem ns allowed))) [
        | inl bad ↦ inr (rw (open_, bad) refl, refused_test allowed ns bad)
        | inr good ↦ inl (rw (open_, good) refl, Permitted-test allowed ns good)
      ],
      elim (Bool-cases (is_limited allowed && not (elem ns allowed))) [
        | inl bad ↦ elim (Bool-cases (ns == [])) [
          | inl empty ↦ inr (allowed, ground arith, All-self allowed allowed (λ x i. i))
          | inr named ↦ inl (ground arith)
        ]
        | inr good ↦ elim (Bool-cases ((ns == []) && is_limited allowed)) [
          | inl empty ↦ inr (allowed, ground arith, All-self allowed allowed (λ x i. i))
          | inr named ↦ inr (ns ∷ [], ground arith, (Permitted-test allowed ns good, tt))
        ]
      ],
    )
