-- ===== src/Logs/Reader.antt =====
-- `podLogsReader` and `extractTimestampFromBytes` of modules/shared/logs/helpers.go. `time.Parse`
-- with the layout RFC3339Nano is the argument `parse_time`.
use kubetail.Prelude.{
  ℕ, ◌+◌, ◌-◌, Option, none, some, List, [], ◌∷◌, leb, eqb, if◌then◌else◌, nat_comparable, length,
  take, drop, Str, str, str_comparable, Result, ok, err, ◌>>=◌,
}
use kubetail.Strings.{cut_at}
use kubetail.Logs.Records.{Time, LogRecord, zero_source}

abbrev pub timestamp_max_search_len : ℕ
timestamp_max_search_len = 36

-- The lines that `ReadBytes('\n')` returns without an error, each with its newline. Bytes behind
-- the last newline come with io.EOF and are dropped.
unfoldable pub lines : Str → List Str
lines [] = []
lines (c ∷ s) =
    let rest = lines s in
    if eqb c b'\n' then (c ∷ []) ∷ rest else elim rest [ [] ↦ [] | l ∷ ls ↦ (c ∷ l) ∷ ls ]

module _ (parse_time : Str → Result Time) where
  unfoldable pub extract_timestamp_from_bytes : Str → Result (ℕ × Time)
  extract_timestamp_from_bytes line = elim (cut_at b' ' (take timestamp_max_search_len line)) [
    | none ↦ err (str "delimiter not found")
    | some (text, _) ↦ do ts ← parse_time text; ok (length text, ts)
  ]

  -- `line[start:end]` with start = pos+1 and end = len(line)-1, or nothing.
  unfoldable pub message_of : ℕ → Str → Str
  message_of pos line =
      if leb (length line - 1) (pos + 1)
      then []
      else take (length line - 1 - (pos + 1)) (drop (pos + 1) line)

  -- The record of a line; `none` where the loop goes on to the next line.
  unfoldable pub record_of : Str → Option LogRecord
  unfolding message_of
  record_of line = elim (extract_timestamp_from_bytes line) [
    | err e ↦ none
    | ok (pos, ts) ↦ some (record {
      timestamp = ts;
      message = message_of pos line;
      source = zero_source;
      error = none;
    })
  ]

  -- One call of the generator on the lines that are left.
  unfoldable pub next : List Str → Option (LogRecord × List Str)
  next [] = none
  next (l ∷ ls) = elim (record_of l) [ none ↦ next ls | some r ↦ some (r, ls) ]

  -- All records that the generator returns.
  unfoldable pub records : List Str → List LogRecord
  records [] = []
  records (l ∷ ls) = let rest = records ls in elim (record_of l) [ none ↦ rest | some r ↦ r ∷ rest ]
