-- ===== src/Prelude/Text.antt =====
-- Go strings are sequences of bytes: `Str` is a list of byte values.
use Prim.Native.Char.{code}
use Prim.Native.Nat.{ℕ}
use Prim.Native.String.{String}
use mathlib.Core.Path.{◌≡◌, refl}
use mathlib.Core.Logic.{◌↔◌}
use mathlib.Core.Bool.{Bool, true, false, ◌&&◌}
use mathlib.Core.List.{List, [], ◌∷◌}
use native.Mathlib.Omega.{arith}
use kubetail.Prelude.Tests.{eqb, eqb_iff, Comparable}

abbrev pub Str : Type 0
Str = List ℕ

-- The bytes of an ASCII literal.
abbrev pub str : String → Str
str String.[] = []
str (String.◌∷◌ c s) = code c ∷ str s

abbrev pub same_str : Str → Str → Bool
same_str [] [] = true
same_str [] (y ∷ ys) = false
same_str (x ∷ xs) [] = false
same_str (x ∷ xs) (y ∷ ys) = eqb x y && same_str xs ys

pub same_str_iff : (a b : Str) → (same_str a b ≡ true) ↔ (a ≡ b)
same_str_iff [] [] = ((λ h. refl), (λ h. refl))
same_str_iff [] (y ∷ ys) = ground arith
same_str_iff (x ∷ xs) [] = ground arith
same_str_iff (x ∷ xs) (y ∷ ys) = ground (arith, same_str_iff xs ys, eqb_iff x y)

instance abbrev pub str_comparable : Comparable Str
str_comparable = record { same = same_str; same_iff = same_str_iff }
