-- ===== src/Cli/Logs/Table/Lines.antt =====
-- The lines of the printed table.
use kubetail.Prelude.{
  ℕ, suc, ◌≤◌, ◌<◌, ◌≡◌, refl, sym, ap, ◌∙◌, subst, true, false, not, ◌&&◌, List, [], ◌∷◌, ◌++◌,
  map, arith, if◌then◌else◌, nat_comparable, length, In, All, Str, str_comparable,
}
use kubetail.Logs.Records.{Time, LogRecord}
use kubetail.Logs.Sources.{LogSource}
use kubetail.Cli.Logs.Flag.{Flags, shown, shown_by_flags}
use kubetail.Cli.Logs.Table.{
  row_cells, of_headers, max_lengths, headers_of, widths_of, show_header, table_writer, print_table,
  get_table_writer_headers,
}
use kubetail.Cli.Logs.Table.Widths.{
  IsMeasured, FitsAll, FitsAll-length, FitsAll-nth, max_lengths-AtLeast, max_lengths-Covers,
  headers_of-fit, row_cells-fit,
}
use kubetail.Cli.TableWriter.{nth, new_table_writer, write_row, write_rows}
use kubetail.Cli.TableWriter.Columns.{IsLeft, offset}
use kubetail.Cli.TableWriter.Aligned.{RowFits, first_row, write_rows-aligned_after}

table_writer-IsLeft :
    (flags : Flags) (sources : List LogSource) → IsLeft (table_writer flags sources)
unfolding table_writer get_table_writer_headers new_table_writer IsLeft
table_writer-IsLeft flags sources = (refl, tt)

-- A record of one of the sources, with a timestamp of at most 30 bytes.
abbrev pub IsListed : (Time → Str) → List LogSource → LogRecord → Type 0
IsListed format_time sources r = In r.source sources × (length (format_time r.timestamp) ≤ 30)

module _ (format_time : Time → Str) (flags : Flags) (sources : List LogSource)
    (measured : IsMeasured (shown_by_flags flags)) where
  abbrev headers : List Str
  headers = headers_of (shown_by_flags flags)

  abbrev widths : List ℕ
  widths = widths_of (shown_by_flags flags) (max_lengths of_headers sources)

  headers-fit : FitsAll headers widths
  headers-fit =
      headers_of-fit (shown_by_flags flags) _ measured (max_lengths-AtLeast of_headers sources)

  row-fits :
      (r : LogRecord)
      → IsListed format_time sources r
      → FitsAll (row_cells format_time (shown_by_flags flags) r) widths
  row-fits r (i, t) =
      row_cells-fit format_time (shown_by_flags flags) _ r measured
        (max_lengths-AtLeast of_headers sources) (max_lengths-Covers of_headers sources r.source i)
        t

  row-RowFits :
      (cells : List Str)
      → FitsAll cells widths
      → RowFits (write_row (table_writer flags sources) headers).0 cells
  unfolding RowFits table_writer get_table_writer_headers new_table_writer
  row-RowFits cells f =
      let h = FitsAll-length headers widths headers-fit in
      let n = FitsAll-length cells widths f in
      let cols = λ (j : ℕ).
        first_row (table_writer flags sources) headers j (table_writer-IsLeft flags sources)
          (omega arith) in
      let num = (cols 0).0 in
      (
        omega arith,
        λ j l.
            let fits = FitsAll-nth cells widths j f (omega arith) in
            let wide = (cols j).1 in omega arith,
      )

  rows_RowFits :
      (records : List LogRecord)
      → All (IsListed format_time sources) records
      → All
          (RowFits (write_row (table_writer flags sources) headers).0)
          (map (row_cells format_time (shown_by_flags flags)) records)
  rows_RowFits [] a = tt
  rows_RowFits (r ∷ rs) a = (row-RowFits _ (row-fits r a.0), rows_RowFits rs a.1)

  header-columns : (write_row (table_writer flags sources) headers).0.num_cols ≡ length headers
  unfolding table_writer get_table_writer_headers new_table_writer
  header-columns =
      let h = FitsAll-length headers widths headers-fit in
      (first_row (table_writer flags sources) headers 0 (table_writer-IsLeft flags sources)
        (omega arith)).0

shown-not_raw : (flags : Flags) → flags.raw ≡ false → shown flags ≡ shown_by_flags flags
unfolding shown
shown-not_raw flags h =
    ap
      (λ b.
        if b
        then record {
          ts = false;
          dot = false;
          node = false;
          region = false;
          zone = false;
          os = false;
          arch = false;
          namespace = false;
          pod = false;
          container = false;
          hide_header = true;
          all_containers = false;
        }
        else shown_by_flags flags)
      h

print_table-with_header :
    (format_time : Time → Str) (flags : Flags) (sources : List LogSource) (records : List LogRecord)
    → show_header (shown flags) && not (shown flags).hide_header ≡ true
    → print_table format_time flags sources records
      ≡ (write_rows
          (table_writer flags sources)
          (headers_of (shown_by_flags flags) ∷ map (row_cells format_time (shown flags)) records)).1
unfolding print_table get_table_writer_headers
print_table-with_header format_time flags sources records h =
    ap
      (λ b.
        (write_rows (table_writer flags sources) (
          if b
          then headers_of (shown_by_flags flags) ∷ map (row_cells format_time (shown flags)) records
          else map (row_cells format_time (shown flags)) records)).1)
      h

length-rows :
    (f : LogRecord → List Str) (records : List LogRecord) → length (map f records) ≡ length records
length-rows f [] = refl
length-rows f (r ∷ rs) = ap suc (length-rows f rs)

-- The header is printed, neither --raw nor the dots nor the columns of namespaces, pods and containers
-- are shown, and the records are of the sources that the table was set up for, with timestamps of at
-- most 30 bytes. Then the line of the header and those of the records have each column at the same
-- place.
pub print_table-aligned :
    (format_time : Time → Str) (flags : Flags) (sources : List LogSource) (records : List LogRecord)
    (k i : ℕ)
    → flags.raw ≡ false
    → flags.hide_header ≡ false
    → show_header (shown_by_flags flags) ≡ true
    → IsMeasured (shown_by_flags flags)
    → All (IsListed format_time sources) records
    → k < suc (length records)
    → i < length (headers_of (shown_by_flags flags))
    → (front rest : Str) × (nth [] k (print_table format_time flags sources records)
        ≡ front
          ++ (nth [] i (
                nth [] k (
                  headers_of (shown_by_flags flags)
                  ∷ map (row_cells format_time (shown flags)) records))
              ++ rest))
      × (length front
          ≡ offset
              (write_row (table_writer flags sources) (headers_of (shown_by_flags flags))).0
              0
              i)
print_table-aligned format_time flags sources records k i raw header some_column measured a l h =
    let tw = table_writer flags sources in
    let hs = headers_of (shown_by_flags flags) in
    let same = shown-not_raw flags raw in
    let rows = map (row_cells format_time (shown_by_flags flags)) records in
    let (front, rest, e, o) =
      write_rows-aligned_after tw hs rows k i (table_writer-IsLeft flags sources)
        (rows_RowFits format_time flags sources measured records a)
        (subst (λ n. k < suc n) (sym (length-rows _ records)) l)
        (subst (λ n. i < n) (sym (header-columns format_time flags sources measured)) h) in
    let printed =
      print_table-with_header format_time flags sources records
        (ap (λ s. show_header s && not s.hide_header) same ∙ ground (arith, header, some_column)) in
    (
      front,
      rest,
      ap (nth [] k) (
            printed ∙ ap (λ s. (write_rows tw (hs ∷ map (row_cells format_time s) records)).1) same)
          ∙ e
          ∙ ap
              (λ s.
                front ++ (nth [] i (nth [] k (hs ∷ map (row_cells format_time s) records)) ++ rest))
              (sym same),
      o,
    )
