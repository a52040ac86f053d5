-- ===== src/Prelude/Tests.antt =====
-- Boolean tests, the conditional, and Go's `comparable` types.
use Prim.Native.Nat.{ℕ, compare, Ordering}
use mathlib.Core.Path.{◌≡◌, refl}
use mathlib.Core.Logic.{◌↔◌, ◌⊎◌, inl, inr}
use mathlib.Core.Bool.{Bool, true, false}
use mathlib.Core.Option.{Option, none, some}
use native.Mathlib.Omega.{arith}

abbrev pub ltb : ℕ → ℕ → Bool
ltb a b = elim (compare a b) [ Ordering.lt ↦ true | _ ↦ false ]

abbrev pub leb : ℕ → ℕ → Bool
leb a b = elim (compare a b) [ Ordering.gt ↦ false | _ ↦ true ]

abbrev pub eqb : ℕ → ℕ → Bool
eqb a b = elim (compare a b) [ Ordering.eq ↦ true | _ ↦ false ]

infix 1 if◌then◌else◌
abbrev pub if◌then◌else◌ {ℓ} : {A : Type ℓ} → Bool → A → A → A
if true then x else y = x
if false then x else y = y

pub eqb_iff : (a b : ℕ) → (eqb a b ≡ true) ↔ (a ≡ b)
eqb_iff a b = ground arith

-- To split on a computed value and keep the equation.
pub Bool-cases : (b : Bool) → (b ≡ true) ⊎ (b ≡ false)
Bool-cases true = inl refl
Bool-cases false = inr refl

pub Option-cases {ℓ} : {A : Type ℓ} (o : Option A) → (o ≡ none) ⊎ ((a : A) × (o ≡ some a))
Option-cases none = inl refl
Option-cases (some a) = inr (a, refl)

-- Two tests that hold at the same time are equal.
pub bool_ext : (a b : Bool) → (a ≡ true → b ≡ true) → (b ≡ true → a ≡ true) → a ≡ b
bool_ext true b f g = ground (arith, f refl)
bool_ext false true f g = g refl
bool_ext false false f g = refl

-- Adding to a set in two steps: first what the second step starts from, then the rest.
pub iff_add {ℓ κ μ ν ξ ρ} :
    {A : Type ℓ} {B : Type κ} {W : Type μ} {H : Type ν} {C' : Type ξ} {C : Type ρ}
    → A ↔ (B ⊎ C')
    → B ↔ (W ⊎ H)
    → C ↔ (H ⊎ C')
    → A ↔ (W ⊎ C)
iff_add f g h = (
  (λ a. elim (f.0 a) [
    | inl b ↦ elim (g.0 b) [ inl w ↦ inl w | inr x ↦ inr (h.1 (inl x)) ]
    | inr c ↦ inr (h.1 (inr c))
  ]),
  (λ x. elim x [
    | inl w ↦ f.1 (inl (g.1 (inl w)))
    | inr c ↦ elim (h.0 c) [ inl y ↦ f.1 (inl (g.1 (inr y))) | inr z ↦ f.1 (inr z) ]
  ]),
)

-- A type whose values `==` compares.
pub record Comparable {ℓ} (A : Type ℓ) : Type ℓ where
  pub same : A → A → Bool
  pub same_iff : (a b : A) → (same a b ≡ true) ↔ (a ≡ b)

infix 50 ◌==◌
abbrev pub ◌==◌ {ℓ} : {A : Type ℓ} ⦃c : Comparable A⦄ → A → A → Bool
◌==◌ ⦃c⦄ = c.same

instance abbrev pub nat_comparable : Comparable ℕ
nat_comparable = record { same = eqb; same_iff = eqb_iff }

module _ {ℓ} {A : Type ℓ} ⦃c : Comparable A⦄ where
  pub same_refl : (a : A) → (a == a) ≡ true
  same_refl a = (c.same_iff a a).1 refl

  pub same→eq : (a b : A) → (a == b) ≡ true → a ≡ b
  same→eq a b = (c.same_iff a b).0
