-- ===== src/Strings/Laws.antt =====
-- Laws of the text functions: case folding, and splitting what was put together.
use mathlib.Core.List.{reverse-reverse, reverse-append, append_assoc, reverse-cons}
use kubetail.Prelude.{
  ℕ, ◌≡◌, ◌≢◌, refl, sym, ap, ◌∙◌, false, [], ◌∷◌, ◌++◌, reverse, none, some, Str, eqb, eqb_iff,
  All, arith,
}
use kubetail.Strings.{lower_byte, to_lower, trim_left, trim, cut_at, split}

lower_byte_idem : (c : ℕ) → lower_byte (lower_byte c) ≡ lower_byte c
unfolding lower_byte
lower_byte_idem c = ground arith

pub to_lower_idem : (s : Str) → to_lower (to_lower s) ≡ to_lower s
unfolding to_lower
to_lower_idem [] = refl
to_lower_idem (c ∷ s) = cc (lower_byte_idem c, to_lower_idem s)

-- No byte of a text is `c`.
abbrev pub Without : ℕ → Str → Type 0
Without c = All (λ x. eqb c x ≡ false)

pub Without-append : (c : ℕ) (s t : Str) → Without c s → Without c t → Without c (s ++ t)
Without-append c [] t p q = q
Without-append c (x ∷ s) t p q = (p.0, Without-append c s t p.1 q)

-- Cutting finds the first separator.
pub cut_at-append : (c : ℕ) (s t : Str) → Without c s → cut_at c (s ++ (c ∷ t)) ≡ some (s, t)
unfolding cut_at
cut_at-append c [] t p = ground (arith, eqb_iff c c)
cut_at-append c (x ∷ s) t p = ground (arith, cut_at-append c s t p.1)

pub cut_at-none : (c : ℕ) (s : Str) → Without c s → cut_at c s ≡ none
unfolding cut_at
cut_at-none c [] p = refl
cut_at-none c (x ∷ s) p = ground (arith, cut_at-none c s p.1)

pub split_none : (c : ℕ) (s : Str) → Without c s → split c s ≡ s ∷ []
unfolding split
split_none c [] p = refl
split_none c (x ∷ s) p = ground (arith, split_none c s p.1)

-- Splitting takes a part off the front.
pub split-append : (c : ℕ) (s t : Str) → Without c s → split c (s ++ (c ∷ t)) ≡ s ∷ split c t
unfolding split
split-append c [] t p = ground (arith, eqb_iff c c)
split-append c (x ∷ s) t p = ground (arith, split-append c s t p.1)

pub Without-reverse : (c : ℕ) (s : Str) → Without c s → Without c (reverse s)
Without-reverse c [] p = tt
Without-reverse c (x ∷ s) p =
    rw (reverse-cons x s)
      (Without-append c (reverse s) (x ∷ []) (Without-reverse c s p.1) (p.0, tt))

trim_left_kept : (c : ℕ) (s t : Str) → s ≢ [] → Without c s → trim_left (eqb c) (s ++ t) ≡ s ++ t
unfolding trim_left
trim_left_kept c [] t n p = absurd (n refl)
trim_left_kept c (x ∷ s) t n p = ground (arith, p.0)

reverse-ne-nil : (s : Str) → s ≢ [] → reverse s ≢ []
reverse-ne-nil s n e = n (sym (reverse-reverse s) ∙ ap reverse e)

-- Trimming leaves a text alone that neither begins nor ends with the character.
pub trim_kept :
    (c : ℕ) (s m t : Str)
    → s ≢ []
    → Without c s
    → t ≢ []
    → Without c t
    → trim c (s ++ (m ++ t)) ≡ s ++ (m ++ t)
unfolding trim
trim_kept c s m t ns ps nt pt =
    rw (trim_left_kept c s (m ++ t) ns ps, back) (reverse-reverse (s ++ (m ++ t)))
  where
    turned : reverse (s ++ (m ++ t)) ≡ reverse t ++ (reverse m ++ reverse s)
    turned = simp (reverse-append, append_assoc)

    back : trim_left (eqb c) (reverse (s ++ (m ++ t))) ≡ reverse (s ++ (m ++ t))
    back = rw turned (
        trim_left_kept c (reverse t) (reverse m ++ reverse s) (reverse-ne-nil t nt)
          (Without-reverse c t pt))
