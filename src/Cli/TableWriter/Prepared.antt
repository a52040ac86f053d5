-- ===== src/Cli/TableWriter/Prepared.antt =====
-- What the preparation for a row makes of the columns.
use kubetail.Prelude.{
  ℕ, ◌+◌, ◌-◌, ◌≤◌, ◌≡◌, refl, sym, ap, ◌∙◌, subst, inl, inr, List, [], ◌∷◌, arith, ltb, eqb,
  Bool-cases, nat_comparable, length, All-append, length-append, Str, str_comparable,
}
use kubetail.Cli.TableWriter.{
  is_nil, align_left, TableWriter, nth, copies, init_columns, pad_row, expand_columns,
  ensure_column_capacity,
}
use kubetail.Cli.TableWriter.Columns.{
  IsLeft, length-copies, nth_padded, All-copies, length-widen, Fits, widen-Fits,
}

pub init_columns-IsLeft :
    (tw : TableWriter) (row : List Str) → IsLeft tw → IsLeft (init_columns tw row)
unfolding init_columns IsLeft
init_columns-IsLeft tw row (n, a) = elim (Bool-cases (eqb tw.num_cols 0)) [
  | inl h ↦ rw h (
    sym (length-copies (length row) 0),
    elim (Bool-cases (is_nil tw.alignments)) [
      | inl e ↦ rw e (All-copies (length row))
      | inr e ↦ rw e a
    ],
  )
  | inr h ↦ rw h (n, a)
]

pub expand_columns-IsLeft :
    (tw : TableWriter) (row : List Str) → IsLeft tw → IsLeft (expand_columns tw row)
unfolding expand_columns IsLeft
expand_columns-IsLeft tw row (n, a) =
    let more = length row - tw.num_cols in
    elim (Bool-cases (ltb tw.num_cols (length row))) [
      | inl h ↦
          let total = length-append tw.col_widths (copies more 0) in
          let zeros = length-copies {A = ℕ} more 0 in
          rw h (
            ground (arith, h, n, total, zeros),
            elim (Bool-cases (is_nil tw.alignments)) [
              | inl e ↦ rw e a
              | inr e ↦
                  rw e (All-append _ tw.alignments (copies more align_left) a (All-copies more))
            ],
          )
      | inr h ↦ rw h (n, a)
    ]

pub length-pad_row :
    (n : ℕ) (row : List Str) → length (pad_row n row) ≡ length row + (n - length row)
unfolding pad_row
length-pad_row n row =
    length-append row (copies (n - length row) [])
    ∙ ap (λ m. length row + m) (length-copies (n - length row) [])

pub expand_columns-num_cols :
    (tw : TableWriter) (row : List Str)
    → tw.num_cols ≤ length row
    → (expand_columns tw row).num_cols ≡ length row
unfolding expand_columns
expand_columns-num_cols tw row h = ground arith

-- After the preparation there is a column for each cell, and a cell for each column.
pub ensure-columns :
    (tw : TableWriter) (row : List Str)
    → IsLeft tw
    → let (tw', row') = ensure_column_capacity tw row in
      IsLeft tw' × (length row' ≡ tw'.num_cols) × Fits row' tw'.col_widths
unfolding ensure_column_capacity IsLeft
ensure-columns tw row v =
    let tw1 = init_columns tw row in
    let row1 = pad_row tw1.num_cols row in
    let tw2 = expand_columns tw1 row1 in
    let v1 = init_columns-IsLeft tw row v in
    let v2 = expand_columns-IsLeft tw1 row1 v1 in
    let cells : length row1 ≡ tw2.num_cols = sym (
      expand_columns-num_cols tw1 row1
        (subst (λ n. tw1.num_cols ≤ n) (sym (length-pad_row tw1.num_cols row)) (omega arith))) in
    let enough : length row1 ≡ length tw2.col_widths = cells ∙ v2.0 in
    (
      (v2.0 ∙ sym (length-widen row1 tw2.col_widths), v2.1),
      cells,
      widen-Fits row1 tw2.col_widths (omega arith),
    )

pub ensure-cells :
    (tw : TableWriter) (row : List Str) (i : ℕ)
    → nth [] i (ensure_column_capacity tw row).1 ≡ nth [] i row
unfolding ensure_column_capacity pad_row
ensure-cells tw row i = nth_padded [] i row _

pub init_columns-grows :
    (tw : TableWriter) (row : List Str) (j : ℕ)
    → IsLeft tw
    → nth 0 j tw.col_widths ≤ nth 0 j (init_columns tw row).col_widths
unfolding init_columns IsLeft nth
init_columns-grows tw row j v = elim (Bool-cases (eqb tw.num_cols 0)) [
  | inl h ↦ rw h (
      subst (λ n. n ≤ nth 0 j (copies (length row) 0))
        (sym (empty tw.col_widths (sym v.0 ∙ ground (arith, h)))) (omega arith))
  | inr h ↦ rw h (omega arith)
]
  where
    empty : (ws : List ℕ) → length ws ≡ 0 → nth 0 j ws ≡ 0
    empty [] e = refl
    empty (w ∷ ws) e = absurd (omega arith)

pub init_columns-num_cols :
    (tw : TableWriter) (row : List Str)
    → tw.num_cols ≤ length row
    → (init_columns tw row).num_cols ≤ length row
unfolding init_columns
init_columns-num_cols tw row h = ground arith

pub expand_columns-widths :
    (tw : TableWriter) (row : List Str) (j : ℕ)
    → nth 0 j (expand_columns tw row).col_widths ≡ nth 0 j tw.col_widths
unfolding expand_columns
expand_columns-widths tw row j = elim (Bool-cases (ltb tw.num_cols (length row))) [
  | inl h ↦ rw h (nth_padded 0 j tw.col_widths (length row - tw.num_cols))
  | inr h ↦ rw h refl
]
