-- ===== src/Cli/TableWriter/Aligned.antt =====
-- Where the cells of the lines of a table start.
use kubetail.Prelude.{
  ℕ, zero, suc, ◌-◌, ◌≤◌, ◌<◌, ◌≡◌, refl, sym, ap, ◌∙◌, subst, ◌≢◌, List, [], ◌∷◌, ◌++◌, arith,
  nat_comparable, length, All, Str, str_comparable,
}
use mathlib.Core.List.{append_assoc}
use kubetail.Cli.TableWriter.{
  TableWriter, nth, copies, init_columns, pad_row, expand_columns, widen, ensure_column_capacity,
  write_row, write_rows,
}
use kubetail.Cli.TableWriter.Columns.{widen-grows, IsLeft, offset, nth_padded, Fits, widen-fitting}
use kubetail.Cli.TableWriter.Lines.{line_at}
use kubetail.Cli.TableWriter.Prepared.{
  length-pad_row, expand_columns-num_cols, ensure-columns, ensure-cells, init_columns-grows,
  init_columns-num_cols, expand_columns-widths,
}

-- Each cell of a row stands in its line at the offset of its column, which the widths, the space
-- between the columns and the separator determine. The columns are aligned to the left.
pub write_row-cell :
    (tw : TableWriter) (row : List Str) (i : ℕ)
    → IsLeft tw
    → i < (write_row tw row).0.num_cols
    → (front rest : Str) × ((write_row tw row).1 ≡ front ++ (nth [] i row ++ rest))
      × (length front ≡ offset (write_row tw row).0 0 i)
unfolding write_row Fits
write_row-cell tw row i v l =
    let (v', n, f) = ensure-columns tw row v in
    let tw' = (ensure_column_capacity tw row).0 in
    let row' = (ensure_column_capacity tw row).1 in
    let same : nth [] i row' ≡ nth [] i row = ensure-cells tw row i in
    let (front, rest, e, o) =
      line_at tw' 0 i row' v' (omega arith)
        (λ j h. subst (λ x. length (nth [] j row') ≤ nth 0 x tw'.col_widths) (omega arith) (f j h))
        (omega arith) in
    (
      front,
      rest ++ (b'\n' ∷ []),
      ap (λ s. s ++ (b'\n' ∷ [])) e
          ∙ ap (λ c. (front ++ (c ++ rest)) ++ (b'\n' ∷ [])) same
          ∙ simp append_assoc,
      o,
    )

-- A row that fits the columns as they are: it has no more cells than there are columns, and none but
-- the last one is longer than its column is wide.
unfoldable pub RowFits : TableWriter → List Str → Type 0
RowFits tw row =
    (length row ≤ tw.num_cols)
    × ((j : ℕ) → suc j < tw.num_cols → length (nth [] j row) ≤ nth 0 j tw.col_widths)

write_row-fitting :
    (tw : TableWriter) (row : List Str)
    → tw.num_cols ≢ 0
    → RowFits tw row
    → (write_row tw row).0 ≡ tw
unfolding write_row ensure_column_capacity init_columns expand_columns pad_row Fits RowFits
write_row-fitting tw row some_cols (short, fits) =
    let row' = row ++ copies (tw.num_cols - length row) [] in
    let cells : length row' ≡ tw.num_cols = length-pad_row tw.num_cols row ∙ omega arith in
    let made : init_columns tw row ≡ tw = ground (arith, some_cols) in
    let kept : expand_columns tw row' ≡ tw = ground (arith, cells) in
    let same : widen row' tw.col_widths ≡ tw.col_widths = widen-fitting row' tw.col_widths (λ j h.
      subst (λ c. length c ≤ nth 0 j tw.col_widths) (sym (nth_padded [] j row _))
        (fits j (omega arith))) in
    ap prepared made ∙ ap widened kept ∙ ap with_widths same
  where
    widened : TableWriter → TableWriter
    widened e = record e {
      col_widths = widen (row ++ copies (tw.num_cols - length row) []) e.col_widths;
    }

    with_widths : List ℕ → TableWriter
    with_widths w = record tw { col_widths = w }

    prepared : TableWriter → TableWriter
    prepared t =
        let r = pad_row t.num_cols row in
        let e = expand_columns t r in record e { col_widths = widen r e.col_widths }

rows_fitting :
    (tw : TableWriter) (rows : List (List Str)) (k : ℕ)
    → tw.num_cols ≢ 0
    → All (RowFits tw) rows
    → k < length rows
    → nth [] k (write_rows tw rows).1 ≡ (write_row tw (nth [] k rows)).1
unfolding write_rows nth
rows_fitting tw [] k n f l = absurd (omega arith)
rows_fitting tw (row ∷ rows) zero n f l = refl
rows_fitting tw (row ∷ rows) (suc k) n f l =
    ap (λ t. nth [] k (write_rows t rows).1) (write_row-fitting tw row n f.0)
    ∙ rows_fitting tw rows k n f.1 (omega arith)

All-nth :
    (tw : TableWriter) (rows : List (List Str)) (k : ℕ)
    → All (RowFits tw) rows
    → k < length rows
    → RowFits tw (nth [] k rows)
unfolding nth
All-nth tw [] k f l = absurd (omega arith)
All-nth tw (row ∷ rows) zero f l = f.0
All-nth tw (row ∷ rows) (suc k) f l = All-nth tw rows k f.1 (omega arith)

-- Where all rows fit the columns of the table, each column starts at the same place of all lines.
pub write_rows-aligned :
    (tw : TableWriter) (rows : List (List Str)) (k i : ℕ)
    → IsLeft tw
    → All (RowFits tw) rows
    → k < length rows
    → i < tw.num_cols
    → (front rest : Str) × (nth [] k (write_rows tw rows).1
        ≡ front ++ (nth [] i (nth [] k rows) ++ rest))
      × (length front ≡ offset tw 0 i)
write_rows-aligned tw rows k i v f l h =
    let some_cols : tw.num_cols ≢ 0 = λ e. absurd (omega arith) in
    let same = write_row-fitting tw (nth [] k rows) some_cols (All-nth tw rows k f l) in
    let (front, rest, e, o) =
      write_row-cell tw (nth [] k rows) i v (subst (λ t. i < t.num_cols) (sym same) h) in
    (front, rest, rows_fitting tw rows k some_cols f l ∙ e, o ∙ ap (λ t. offset t 0 i) same)

write_row-IsLeft : (tw : TableWriter) (row : List Str) → IsLeft tw → IsLeft (write_row tw row).0
unfolding write_row
write_row-IsLeft tw row v = (ensure-columns tw row v).0

-- A row with no fewer cells than there are columns leaves a column for each of its cells, and no
-- column narrower than it was.
pub first_row :
    (tw : TableWriter) (row : List Str) (j : ℕ)
    → IsLeft tw
    → tw.num_cols ≤ length row
    → ((write_row tw row).0.num_cols ≡ length row)
      × (nth 0 j tw.col_widths ≤ nth 0 j (write_row tw row).0.col_widths)
unfolding write_row ensure_column_capacity
first_row tw row j v l =
    let tw1 = init_columns tw row in
    let row1 = pad_row tw1.num_cols row in
    let small = init_columns-num_cols tw row l in
    let long : length row1 ≡ length row = length-pad_row tw1.num_cols row ∙ omega arith in
    let a = init_columns-grows tw row j v in
    let b = expand_columns-widths tw1 row1 j in
    let c = widen-grows row1 (expand_columns tw1 row1).col_widths j in
    (
      expand_columns-num_cols tw1 row1 (subst (λ n. tw1.num_cols ≤ n) (sym long) small) ∙ long,
      grows a b c,
    )
  where
    grows : {k m n p : ℕ} → k ≤ m → n ≡ m → n ≤ p → k ≤ p
    grows a b c = omega arith

-- If the rows fit the columns as the first one leaves them, each column starts at the same place of
-- all lines, the first one included.
pub write_rows-aligned_after :
    (tw : TableWriter) (first : List Str) (rows : List (List Str)) (k i : ℕ)
    → IsLeft tw
    → All (RowFits (write_row tw first).0) rows
    → k < suc (length rows)
    → i < (write_row tw first).0.num_cols
    → (front rest : Str) × (nth [] k (write_rows tw (first ∷ rows)).1
        ≡ front ++ (nth [] i (nth [] k (first ∷ rows)) ++ rest))
      × (length front ≡ offset (write_row tw first).0 0 i)
unfolding write_rows nth
write_rows-aligned_after tw first rows zero i v f l h = write_row-cell tw first i v h
write_rows-aligned_after tw first rows (suc k) i v f l h =
    write_rows-aligned (write_row tw first).0 rows k i (write_row-IsLeft tw first v) f (omega arith)
      h
