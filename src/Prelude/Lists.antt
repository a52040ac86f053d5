-- ===== src/Prelude/Lists.antt =====
-- Lists measured by native numbers, Boolean membership, and predicates over all elements.
use Prim.Native.Nat.{ℕ, zero, suc, ◌+◌}
use mathlib.Core.Path.{◌≡◌, refl}
use mathlib.Core.Logic.{◌⊎◌, inl, inr}
use mathlib.Core.Bool.{Bool, true, false, not, ◌&&◌, ◌||◌}
use mathlib.Core.List.{List, [], ◌∷◌, ◌++◌, reverse, reverse-cons}
use native.Mathlib.Omega.{arith}
use kubetail.Prelude.Tests.{Comparable, ◌==◌, if◌then◌else◌, same→eq, same_refl}

module _ {ℓ} {A : Type ℓ} where
  abbrev pub length : List A → ℕ
  length [] = 0
  length (x ∷ xs) = suc (length xs)

  abbrev pub take : ℕ → List A → List A
  take zero xs = []
  take (suc n) [] = []
  take (suc n) (x ∷ xs) = x ∷ take n xs

  abbrev pub drop : ℕ → List A → List A
  drop zero xs = xs
  drop (suc n) [] = []
  drop (suc n) (x ∷ xs) = drop n xs

  abbrev pub is_nil : List A → Bool
  is_nil [] = true
  is_nil (_ ∷ _) = false

  -- Keep the elements that pass a test.
  abbrev pub keep : (A → Bool) → List A → List A
  keep p [] = []
  keep p (x ∷ xs) = let rest = keep p xs in if p x then x ∷ rest else rest

  -- The place of an element in a list.
  pub data In (a : A) : List A → Type ℓ where
    here : {xs : List A} → In a (a ∷ xs)
    there : {x : A} {xs : List A} → In a xs → In a (x ∷ xs)

  abbrev pub All {κ} : (A → Type κ) → List A → Type κ
  All P [] = Unit
  All P (x ∷ xs) = P x × All P xs

  pub All-In {κ} : (P : A → Type κ) {a : A} {xs : List A} → All P xs → In a xs → P a
  All-In P h here = h.0
  All-In P h (there i) = All-In P h.1 i

  pub length-append : (xs ys : List A) → length (xs ++ ys) ≡ length xs + length ys
  length-append [] ys = omega arith
  length-append (x ∷ xs) ys = omega (arith, length-append xs ys)

module _ {ℓ} {A : Type ℓ} ⦃c : Comparable A⦄ where
  -- slices.Contains
  abbrev pub elem : A → List A → Bool
  elem a [] = false
  elem a (x ∷ xs) = (x == a) || elem a xs

  -- No element stands twice.
  abbrev pub distinct : List A → Bool
  distinct [] = true
  distinct (x ∷ xs) = not (elem x xs) && distinct xs

  pub elem-append : (a : A) (xs ys : List A) → elem a (xs ++ ys) ≡ elem a xs || elem a ys
  elem-append a [] ys = refl
  elem-append a (x ∷ xs) ys = ground (arith, elem-append a xs ys)

  pub elem→In : (a : A) (xs : List A) → elem a xs ≡ true → In a xs
  elem→In a [] h = absurd (ground arith)
  elem→In a (x ∷ xs) h = elim (cases (x == a)) [
    | inl e ↦ head_In (same→eq x a e)
    | inr e ↦ there (elem→In a xs (ground arith))
  ]
    where
      cases : (b : Bool) → (b ≡ true) ⊎ (b ≡ false)
      cases true = inl refl
      cases false = inr refl

      head_In : x ≡ a → In a (x ∷ xs)
      head_In e = rw e here

  pub In→elem : {a : A} {xs : List A} → In a xs → elem a xs ≡ true
  In→elem {a} here = ground (arith, same_refl a)
  In→elem (there i) = ground (arith, In→elem i)

pub In-append_left {ℓ} : {A : Type ℓ} {a : A} (xs ys : List A) → In a xs → In a (xs ++ ys)
In-append_left _ ys here = here
In-append_left _ ys (there {xs = xs} i) = there (In-append_left xs ys i)

pub In-append_right {ℓ} : {A : Type ℓ} {a : A} (xs ys : List A) → In a ys → In a (xs ++ ys)
In-append_right [] ys i = i
In-append_right (x ∷ xs) ys i = there (In-append_right xs ys i)

pub In-append {ℓ} : {A : Type ℓ} {a : A} (xs ys : List A) → In a (xs ++ ys) → In a xs ⊎ In a ys
In-append [] ys i = inr i
In-append (x ∷ xs) ys here = inl here
In-append (x ∷ xs) ys (there i) = elim (In-append xs ys i) [ inl j ↦ inl (there j) | inr j ↦ inr j ]

pub In-nil {ℓ} : {A : Type ℓ} {a : A} → In a [] → ⊥
In-nil i = elim i [ ]

pub In-singleton {ℓ} : {A : Type ℓ} {x y : A} → In x (y ∷ []) → y ≡ x
In-singleton here = refl
In-singleton (there i) = absurd (In-nil i)

pub In-cases {ℓ} : {A : Type ℓ} {a x : A} {xs : List A} → In a (x ∷ xs) → (x ≡ a) ⊎ In a xs
In-cases here = inl refl
In-cases (there i) = inr i

pub keep-append {ℓ} :
    {A : Type ℓ} (p : A → Bool) (xs ys : List A) → keep p (xs ++ ys) ≡ keep p xs ++ keep p ys
keep-append p [] ys = refl
keep-append p (x ∷ xs) ys = ground (arith, keep-append p xs ys)

pub All-append {ℓ κ} :
    {A : Type ℓ} (P : A → Type κ) (xs ys : List A) → All P xs → All P ys → All P (xs ++ ys)
All-append P [] ys h k = k
All-append P (x ∷ xs) ys h k = (h.0, All-append P xs ys h.1 k)

pub All-reverse {ℓ κ} : {A : Type ℓ} (P : A → Type κ) (xs : List A) → All P xs → All P (reverse xs)
All-reverse P [] h = tt
All-reverse P (x ∷ xs) h =
    rw (reverse-cons x xs) (All-append P (reverse xs) (x ∷ []) (All-reverse P xs h.1) (h.0, tt))
