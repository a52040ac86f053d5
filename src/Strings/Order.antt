-- ===== src/Strings/Order.antt =====
-- Go's `<` on strings, byte by byte.
use kubetail.Prelude.{
  ◌≡◌, refl, Bool, true, false, ◌&&◌, [], ◌∷◌, arith, ltb, eqb, if◌then◌else◌, nat_comparable, Str,
  str_comparable,
}

unfoldable pub str_less : Str → Str → Bool
str_less s [] = false
str_less [] (y ∷ t) = true
str_less (x ∷ s) (y ∷ t) = let rest = str_less s t in if ltb x y then true else eqb x y && rest

pub str_less_refl : (s : Str) → str_less s s ≡ false
unfolding str_less
str_less_refl [] = refl
str_less_refl (x ∷ s) = ground (arith, str_less_refl s)

-- Of two strings neither of which is less, each is the other.
pub str_less-total : (s t : Str) → str_less s t ≡ false → str_less t s ≡ false → s ≡ t
unfolding str_less
str_less-total [] [] h h' = refl
str_less-total [] (y ∷ t) h h' = absurd (cc)
str_less-total (x ∷ s) [] h h' = absurd (cc)
str_less-total (x ∷ s) (y ∷ t) h h' = ground (arith, str_less-total s t)

pub str_less-asym : (s t : Str) → str_less s t ≡ true → str_less t s ≡ false
unfolding str_less
str_less-asym [] [] h = refl
str_less-asym [] (y ∷ t) h = refl
str_less-asym (x ∷ s) [] h = absurd (cc)
str_less-asym (x ∷ s) (y ∷ t) h = ground (arith, str_less-asym s t)

-- The order of "not greater than".
pub str_less_trans :
    (s t u : Str) → str_less t s ≡ false → str_less u t ≡ false → str_less u s ≡ false
unfolding str_less
str_less_trans [] t u h h' = refl
str_less_trans (x ∷ s) [] u h h' = absurd (cc)
str_less_trans (x ∷ s) (y ∷ t) [] h h' = absurd (cc)
str_less_trans (x ∷ s) (y ∷ t) (z ∷ u) h h' = ground (arith, str_less_trans s t u)
