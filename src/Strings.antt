-- ===== src/Strings.antt =====
-- What the program uses of Go's package strings, over bytes. `to_lower` and `trim_space` treat
-- ASCII characters and leave the bytes of others alone.
pub mod Laws
pub mod Order
use kubetail.Prelude.{
  ℕ, ◌+◌, Bool, true, false, ◌||◌, ◌&&◌, if◌then◌else◌, List, [], ◌∷◌, ◌++◌, reverse, Option, none,
  some, Str, eqb, leb,
}

-- strings.ToLower
lower_byte : ℕ → ℕ
lower_byte c = if leb b'A' c && leb c b'Z' then c + 32 else c

unfoldable pub to_lower : Str → Str
unfolding lower_byte
to_lower [] = []
to_lower (c ∷ s) = lower_byte c ∷ to_lower s

-- strings.Trim(s, "c") for a cutset of one character, and strings.TrimSpace
unfoldable pub trim_left : (ℕ → Bool) → Str → Str
trim_left cut [] = []
trim_left cut (c ∷ s) = if cut c then trim_left cut s else c ∷ s

unfoldable pub trim : ℕ → Str → Str
unfolding trim_left
trim c s = reverse (trim_left (eqb c) (reverse (trim_left (eqb c) s)))

abbrev pub is_space : ℕ → Bool
is_space c = (leb 9 c && leb c 13) || eqb c 32

unfoldable pub trim_space : Str → Str
unfolding trim_left
trim_space s = reverse (trim_left is_space (reverse (trim_left is_space s)))

-- strings.SplitN(s, "c", 2): the parts before and after the first `c`, or nothing if there is none.
unfoldable pub cut_at : ℕ → Str → Option (Str × Str)
cut_at c [] = none
cut_at c (x ∷ s) =
    let rest = cut_at c s in
    if eqb c x then some ([], s) else elim rest [ none ↦ none | some (a, b) ↦ some (x ∷ a, b) ]

-- strings.Split(s, "c")
abbrev push_head : ℕ → List Str → List Str
push_head x [] = (x ∷ []) ∷ []
push_head x (p ∷ ps) = (x ∷ p) ∷ ps

unfoldable pub split : ℕ → Str → List Str
split c [] = [] ∷ []
split c (x ∷ s) = let rest = split c s in if eqb c x then [] ∷ rest else push_head x rest

-- strings.Join(parts, "c")
unfoldable pub join : ℕ → List Str → Str
join c [] = []
join c (p ∷ []) = p
join c (p ∷ q ∷ ps) = p ++ (c ∷ join c (q ∷ ps))

-- strings.ReplaceAll(s, "c", new) for a text of one character
unfoldable pub replace_all : ℕ → Str → Str → Str
replace_all c new [] = []
replace_all c new (x ∷ s) =
    let rest = replace_all c new s in if eqb c x then new ++ rest else x ∷ rest

-- strings.HasPrefix, strings.Contains and strings.Index as a test
unfoldable pub has_prefix : Str → Str → Bool
has_prefix s [] = true
has_prefix [] (p ∷ ps) = false
has_prefix (x ∷ s) (p ∷ ps) = eqb x p && has_prefix s ps

unfoldable pub contains : Str → Str → Bool
unfolding has_prefix
contains [] sub = has_prefix [] sub
contains (x ∷ s) sub = has_prefix (x ∷ s) sub || contains s sub
