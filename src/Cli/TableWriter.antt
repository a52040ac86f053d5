-- ===== src/Cli/TableWriter.antt =====
-- modules/cli/internal/tablewriter/tablewriter.go. Texts are bytes, as `len` counts them. A write
-- returns the line that the underlying writer receives. A column that is missing has width 0 here,
-- where the source would panic; the theorems are about writers that have a width for each column.
pub mod Columns
pub mod Lines
pub mod Prepared
pub mod Aligned
use Prim.Native.Nat.{◌/◌}
use kubetail.Prelude.{
  is_nil, ℕ, zero, suc, ◌+◌, ◌-◌, ◌*◌, ◌≤◌, ◌<◌, min, max, String, ◌≡◌, refl, sym, ap, ◌∙◌, subst,
  ◌≢◌, ◌↔◌, ◌⊎◌, inl, inr, Bool, true, false, not, ◌&&◌, ◌||◌, Option, none, some, List, [], ◌∷◌,
  ◌++◌, map, reverse, arith, ltb, leb, eqb, if◌then◌else◌, eqb_iff, Bool-cases, Option-cases,
  bool_ext, Comparable, ◌==◌, nat_comparable, same_refl, same→eq, length, take, drop, keep,
  keep-append, All-append, All-reverse, In, All, All-In, here, there, length-append, elem, distinct,
  elem-append, elem→In, In→elem, In-nil, In-append, In-append_left, In-append_right, In-singleton,
  In-cases, Str, str, same_str, same_str_iff, str_comparable, Map, lookup-delete, lookup-insert,
  Result, ok, err, ◌>>=◌, >>=-eq-ok, Result-cases,
}

pub data Alignment : Type 0 where
  align_left align_center align_right : Alignment

pub record TableWriter : Type 0 where
  pub col_widths : List ℕ
  pub num_cols : ℕ
  pub alignments : List Alignment
  pub separator_str : Str
  pub column_buffer : ℕ

-- xs[i], or a default out of range.
unfoldable pub nth {ℓ} : {A : Type ℓ} → A → ℕ → List A → A
nth default i [] = default
nth default zero (x ∷ xs) = x
nth default (suc i) (x ∷ xs) = nth default i xs

unfoldable pub copies {ℓ} : {A : Type ℓ} → ℕ → A → List A
copies zero a = []
copies (suc n) a = a ∷ copies n a

pub data TableOption : Type 0 where
  with_separator : Str → TableOption
  with_column_buffer : ℕ → TableOption
  with_alignments : List Alignment → TableOption

abbrev apply_option : TableWriter → TableOption → TableWriter
apply_option tw (with_separator sep) = record tw { separator_str = sep }
apply_option tw (with_column_buffer spaces) = record tw { column_buffer = spaces }
apply_option tw (with_alignments as_given) = record tw { alignments = as_given }

abbrev apply_options : TableWriter → List TableOption → TableWriter
apply_options tw [] = tw
apply_options tw (o ∷ os) = apply_options (apply_option tw o) os

unfoldable pub new_table_writer : List ℕ → List TableOption → TableWriter
new_table_writer default_widths options =
    apply_options
      (record {
        col_widths = default_widths;
        num_cols = length default_widths;
        alignments = [];
        separator_str = [];
        column_buffer = 3;
      })
      options

-- Columns for the first row, where there are none yet.
unfoldable pub init_columns : TableWriter → List Str → TableWriter
unfolding copies
init_columns tw row =
    if eqb tw.num_cols 0
    then record tw {
      num_cols = length row;
      col_widths = copies (length row) 0;
      alignments = if is_nil tw.alignments then copies (length row) align_left else tw.alignments;
    }
    else tw

unfoldable pub pad_row : ℕ → List Str → List Str
unfolding copies
pad_row num_cols row = row ++ copies (num_cols - length row) []

-- Columns for a row that has more cells than there are columns.
unfoldable pub expand_columns : TableWriter → List Str → TableWriter
unfolding copies
expand_columns tw row =
    let additional = length row - tw.num_cols in
    if ltb tw.num_cols (length row)
    then record tw {
      col_widths = tw.col_widths ++ copies additional 0;
      alignments =
          if is_nil tw.alignments
          then tw.alignments
          else tw.alignments ++ copies additional align_left;
      num_cols = length row;
    }
    else tw

-- The widths for the cells of a row, its last one excepted.
unfoldable pub widen : List Str → List ℕ → List ℕ
widen [] ws = ws
widen (c ∷ []) ws = ws
widen (c ∷ (d ∷ cs)) [] = []
widen (c ∷ (d ∷ cs)) (w ∷ ws) =
    let rest = widen (d ∷ cs) ws in (if ltb w (length c) then length c else w) ∷ rest

unfoldable pub ensure_column_capacity : TableWriter → List Str → TableWriter × List Str
unfolding init_columns pad_row expand_columns widen
ensure_column_capacity tw row =
    let tw1 = init_columns tw row in
    let row1 = pad_row tw1.num_cols row in
    let tw2 = expand_columns tw1 row1 in
    (record tw2 { col_widths = widen row1 tw2.col_widths }, row1)

abbrev pub pad_cell : Alignment → ℕ → Str → Str
pad_cell align_right padding content = copies padding b' ' ++ content
pad_cell align_center padding content =
    let left_pad = padding / 2 in
    copies left_pad b' ' ++ (content ++ copies (padding - left_pad) b' ')
pad_cell align_left padding content = content ++ copies padding b' '

unfoldable pub format_cell : TableWriter → Str → ℕ → Bool → Str
unfolding nth copies
format_cell tw content col_index is_last_column =
    let width = nth 0 col_index tw.col_widths in
    if is_last_column
    then content
    else if leb width (length content)
    then content
    else pad_cell (nth align_left col_index tw.alignments) (width - length content) content

-- The parts of a line, from this column on.
unfoldable pub row_parts : TableWriter → ℕ → List Str → List Str
unfolding format_cell copies
row_parts tw i [] = []
row_parts tw i (c ∷ cs) =
    let cell = format_cell tw c i (eqb (suc i) tw.num_cols) in
    (if ltb (suc i) tw.num_cols && ltb 0 tw.column_buffer
      then cell ++ copies tw.column_buffer b' '
      else cell)
    ∷ row_parts tw (suc i) cs

-- strings.Join(parts, sep)
unfoldable pub join_with : Str → List Str → Str
join_with sep [] = []
join_with sep (p ∷ []) = p
join_with sep (p ∷ (q ∷ ps)) = p ++ (sep ++ join_with sep (q ∷ ps))

-- `WriteRow`, and `PrintHeader`, which does the same.
unfoldable pub write_row : TableWriter → List Str → TableWriter × Str
unfolding ensure_column_capacity row_parts join_with
write_row tw row =
    let (tw', row') = ensure_column_capacity tw row in
    (tw', join_with tw'.separator_str (row_parts tw' 0 row') ++ (b'\n' ∷ []))

unfoldable pub write_rows : TableWriter → List (List Str) → TableWriter × List Str
unfolding write_row
write_rows tw [] = (tw, [])
write_rows tw (row ∷ rows) =
    let (tw', line) = write_row tw row in
    let (tw'', lines) = write_rows tw' rows in (tw'', line ∷ lines)

-- The parts of the separator line, from this column on: this many are left.
unfoldable pub separator_parts : TableWriter → ℕ → ℕ → List Str
unfolding nth copies
separator_parts tw i zero = []
separator_parts tw i (suc left) =
    let width = nth 0 i tw.col_widths in
    (if eqb (suc i) tw.num_cols then b'-' ∷ [] else copies (width + tw.column_buffer) b'-')
    ∷ separator_parts tw (suc i) left

unfoldable pub print_separator : TableWriter → Str
unfolding separator_parts copies join_with
print_separator tw =
    join_with (copies (length tw.separator_str) b'-') (separator_parts tw 0 tw.num_cols)
    ++ (b'\n' ∷ [])
