-- ===== src/Cli/TableWriter/Columns.antt =====
-- The columns of the lines of a table.
use kubetail.Prelude.{
  ℕ, zero, suc, ◌+◌, ◌≤◌, ◌<◌, ◌≡◌, refl, ap, List, [], ◌∷◌, ◌++◌, arith, nat_comparable, length,
  All, Str, str_comparable,
}
use kubetail.Cli.TableWriter.{Alignment, align_left, TableWriter, nth, copies, widen}

-- There is a width for each column, and all columns are aligned to the left.
unfoldable pub IsLeft : TableWriter → Type 0
IsLeft tw = (tw.num_cols ≡ length tw.col_widths) × All (λ a. a ≡ align_left) tw.alignments

-- The place in a line at which a column starts, counted from the column `k`.
unfoldable pub offset : TableWriter → ℕ → ℕ → ℕ
offset tw k zero = 0
offset tw k (suc i) =
    nth 0 k tw.col_widths + tw.column_buffer + length tw.separator_str + offset tw (suc k) i

module _ {ℓ} {A : Type ℓ} where
  pub length-copies : (n : ℕ) (a : A) → length (copies n a) ≡ n
  unfolding copies
  length-copies zero a = refl
  length-copies (suc n) a = ap suc (length-copies n a)

  nth-copies : (d : A) (i n : ℕ) → nth d i (copies n d) ≡ d
  unfolding nth copies
  nth-copies d i zero = refl
  nth-copies d zero (suc n) = refl
  nth-copies d (suc i) (suc n) = nth-copies d i n

  -- Defaults after the end change nothing.
  pub nth_padded : (d : A) (i : ℕ) (xs : List A) (n : ℕ) → nth d i (xs ++ copies n d) ≡ nth d i xs
  unfolding nth
  nth_padded d i [] n = nth-copies d i n
  nth_padded d zero (x ∷ xs) n = refl
  nth_padded d (suc i) (x ∷ xs) n = nth_padded d i xs n

pub nth_left :
    (i : ℕ) (xs : List Alignment) → All (λ a. a ≡ align_left) xs → nth align_left i xs ≡ align_left
unfolding nth
nth_left i [] h = refl
nth_left zero (x ∷ xs) h = h.0
nth_left (suc i) (x ∷ xs) h = nth_left i xs h.1

pub All-copies : (n : ℕ) → All (λ a. a ≡ align_left) (copies n align_left)
unfolding copies
All-copies zero = tt
All-copies (suc n) = (refl, All-copies n)

pub length-widen : (cs : List Str) (ws : List ℕ) → length (widen cs ws) ≡ length ws
unfolding widen
length-widen [] ws = refl
length-widen (c ∷ []) ws = refl
length-widen (c ∷ (d ∷ cs)) [] = refl
length-widen (c ∷ (d ∷ cs)) (w ∷ ws) = ap suc (length-widen (d ∷ cs) ws)

-- Every cell but the last fits the width of its column.
unfoldable pub Fits : List Str → List ℕ → Type 0
Fits cs ws = (j : ℕ) → suc j < length cs → length (nth [] j cs) ≤ nth 0 j ws

pub widen-Fits : (cs : List Str) (ws : List ℕ) → length cs ≤ length ws → Fits cs (widen cs ws)
unfolding widen nth Fits
widen-Fits [] ws h j l = absurd (omega arith)
widen-Fits (c ∷ []) ws h j l = absurd (omega arith)
widen-Fits (c ∷ (d ∷ cs)) [] h j l = absurd (omega arith)
widen-Fits (c ∷ (d ∷ cs)) (w ∷ ws) h zero l = ground arith
widen-Fits (c ∷ (d ∷ cs)) (w ∷ ws) h (suc j) l =
    widen-Fits (d ∷ cs) ws (omega arith) j (omega arith)

-- Widths never shrink.
pub widen-grows : (cs : List Str) (ws : List ℕ) (j : ℕ) → nth 0 j ws ≤ nth 0 j (widen cs ws)
unfolding widen nth
widen-grows [] ws j = omega arith
widen-grows (c ∷ []) ws j = omega arith
widen-grows (c ∷ (d ∷ cs)) [] j = omega arith
widen-grows (c ∷ (d ∷ cs)) (w ∷ ws) zero = ground arith
widen-grows (c ∷ (d ∷ cs)) (w ∷ ws) (suc j) = widen-grows (d ∷ cs) ws j

-- A row that fits leaves the widths as they are.
pub widen-fitting : (cs : List Str) (ws : List ℕ) → Fits cs ws → widen cs ws ≡ ws
unfolding widen nth Fits
widen-fitting [] ws f = refl
widen-fitting (c ∷ []) ws f = refl
widen-fitting (c ∷ (d ∷ cs)) [] f = refl
widen-fitting (c ∷ (d ∷ cs)) (w ∷ ws) f =
    let rest = widen-fitting (d ∷ cs) ws (λ j l. f (suc j) (omega arith)) in
    let first = f 0 (omega arith) in ground (arith, rest, first)
