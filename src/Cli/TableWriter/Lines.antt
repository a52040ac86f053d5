-- ===== src/Cli/TableWriter/Lines.antt =====
-- Where the cells of a row stand in its line.
use kubetail.Prelude.{
  ℕ, zero, suc, ◌+◌, ◌-◌, ◌≤◌, ◌<◌, ◌≡◌, refl, sym, ap, ◌∙◌, subst, inl, inr, Bool, true, false,
  ◌&&◌, List, [], ◌∷◌, ◌++◌, arith, ltb, leb, eqb, if◌then◌else◌, Bool-cases, nat_comparable,
  length, length-append, Str, str_comparable,
}
use mathlib.Core.List.{append_assoc, append-nil}
use kubetail.Cli.TableWriter.{TableWriter, nth, copies, format_cell, row_parts, join_with}
use kubetail.Cli.TableWriter.Columns.{IsLeft, offset, length-copies, nth_left}

-- A cell that is not the last one is filled up to the width of its column.
length-format_cell :
    (tw : TableWriter) (c : Str) (i : ℕ)
    → IsLeft tw
    → length c ≤ nth 0 i tw.col_widths
    → length (format_cell tw c i false) ≡ nth 0 i tw.col_widths
unfolding format_cell IsLeft
length-format_cell tw c i v h = elim (Bool-cases (leb (nth 0 i tw.col_widths) (length c))) [
  | inl e ↦ rw e (ground (arith, e, h))
  | inr e ↦
      rw (e, nth_left i tw.alignments v.1)
        (length-append c (copies (nth 0 i tw.col_widths - length c) b' ')
          ∙ ap (λ n. length c + n) (length-copies (nth 0 i tw.col_widths - length c) b' ')
          ∙ omega arith)
]

format_cell-starts :
    (tw : TableWriter) (c : Str) (i : ℕ) (last : Bool)
    → IsLeft tw
    → (rest : Str) × (format_cell tw c i last ≡ c ++ rest)
unfolding format_cell IsLeft
format_cell-starts tw c i true v = ([], sym (append-nil c))
format_cell-starts tw c i false v = elim (Bool-cases (leb (nth 0 i tw.col_widths) (length c))) [
  | inl e ↦ ([], rw e (sym (append-nil c)))
  | inr e ↦
      (copies (nth 0 i tw.col_widths - length c) b' ', rw (e, nth_left i tw.alignments v.1) refl)
]

-- A column's part: the cell and the space after it.
abbrev part : TableWriter → ℕ → Str → Str
part tw i c =
    let cell = format_cell tw c i (eqb (suc i) tw.num_cols) in
    if ltb (suc i) tw.num_cols && ltb 0 tw.column_buffer
    then cell ++ copies tw.column_buffer b' '
    else cell

length-part :
    (tw : TableWriter) (c : Str) (i : ℕ)
    → IsLeft tw
    → suc i < tw.num_cols
    → length c ≤ nth 0 i tw.col_widths
    → length (part tw i c) ≡ nth 0 i tw.col_widths + tw.column_buffer
length-part tw c i v l h =
    let cell = length-format_cell tw c i v h in
    let all_of_it = length-append (format_cell tw c i false) (copies tw.column_buffer b' ') in
    let spaces = length-copies {A = ℕ} tw.column_buffer b' ' in
    ground (arith, cell, all_of_it, spaces, l)

part-starts :
    (tw : TableWriter) (c : Str) (i : ℕ) → IsLeft tw → (rest : Str) × (part tw i c ≡ c ++ rest)
part-starts tw c i v =
    let (rest, e) = format_cell-starts tw c i (eqb (suc i) tw.num_cols) v in
    elim (Bool-cases (ltb (suc i) tw.num_cols && ltb 0 tw.column_buffer)) [
      | inl h ↦ (
        rest ++ copies tw.column_buffer b' ',
        rw h (ap (λ s. s ++ copies tw.column_buffer b' ') e ∙ append_assoc c rest _),
      )
      | inr h ↦ (rest, rw h e)
    ]

-- The line from the column `k` on has its `i`-th cell at the offset of the column.
pub line_at :
    (tw : TableWriter) (k i : ℕ) (cs : List Str)
    → IsLeft tw
    → k + length cs ≡ tw.num_cols
    → ((j : ℕ) → suc j < length cs → length (nth [] j cs) ≤ nth 0 (k + j) tw.col_widths)
    → i < length cs
    → (front rest : Str) × (join_with tw.separator_str (row_parts tw k cs)
        ≡ front ++ (nth [] i cs ++ rest))
      × (length front ≡ offset tw k i)
unfolding join_with row_parts nth offset
line_at tw k i [] v n f l = absurd (omega arith)
line_at tw k zero (c ∷ []) v n f l = let (rest, e) = part-starts tw c k v in ([], rest, e, refl)
line_at tw k zero (c ∷ (d ∷ cs)) v n f l =
    let (rest, e) = part-starts tw c k v in
    let others = tw.separator_str ++ join_with tw.separator_str (row_parts tw (suc k) (d ∷ cs)) in
    ([], rest ++ others, ap (λ s. s ++ others) e ∙ append_assoc c rest others, refl)
line_at tw k (suc i) (c ∷ []) v n f l = absurd (omega arith)
line_at tw k (suc i) (c ∷ (d ∷ cs)) v n f l =
    let (front, rest, e, m) =
      line_at tw (suc k) i (d ∷ cs) v (omega arith)
        (λ j h.
          subst (λ x. length (nth [] j (d ∷ cs)) ≤ nth 0 x tw.col_widths) (omega arith)
            (f (suc j) (omega arith)))
        (omega arith) in
    let p = part tw k c in
    let lp =
      length-part tw c k v (omega arith)
        (subst (λ x. length c ≤ nth 0 x tw.col_widths) (omega arith) (f 0 (omega arith))) in
    (
      p ++ (tw.separator_str ++ front),
      rest,
      ap (λ s. p ++ (tw.separator_str ++ s)) e ∙ simp append_assoc,
      length-append p (tw.separator_str ++ front)
          ∙ ap (λ x. length p + x) (length-append tw.separator_str front)
          ∙ omega arith,
    )
