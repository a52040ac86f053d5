-- ===== src/Logs/Past.antt =====
-- The loops of `startHead_UNSAFE` and `startTail_UNSAFE` of modules/shared/logs/stream.go over the
-- merged records: what they write to the past channel, and the error that they set.
pub mod Exact
use kubetail.Prelude.{
  ℕ, ◌+◌, Bool, not, ◌&&◌, Option, none, some, List, [], ◌∷◌, reverse, leb, if◌then◌else◌,
  nat_comparable, Str, str_comparable, Result, ok, err,
}
use kubetail.Logs.Records.{LogRecord}

-- `for record := range mergeLogStreams(…)`: a record is written before it is counted.
pub head_loop : Bool → ℕ → ℕ → List LogRecord → List LogRecord × Option Str
head_loop is_all n count [] = ([], none)
head_loop is_all n count (r ∷ rs) =
    let (sent, e) = head_loop is_all n (count + 1) rs in
    elim r.error [
      | some e ↦ ([], some e)
      | none ↦ if not is_all && leb n (count + 1) then (r ∷ [], none) else (r ∷ sent, e)
    ]

unfoldable pub start_head : Bool → ℕ → List LogRecord → List LogRecord × Option Str
unfolding head_loop
start_head is_all max_num merged = head_loop is_all max_num 0 merged

-- The records that are gathered, or the error at which the goroutine returns and sends nothing.
pub tail_loop : ℕ → ℕ → List LogRecord → Result (List LogRecord)
tail_loop n count [] = ok []
tail_loop n count (r ∷ rs) =
    let rest = tail_loop n (count + 1) rs in
    elim r.error [
      | some e ↦ err e
      | none ↦
          if leb n (count + 1) then ok (r ∷ []) else elim rest [ err e ↦ err e | ok l ↦ ok (r ∷ l) ]
    ]

-- They are sent in reverse order.
unfoldable pub start_tail : ℕ → List LogRecord → List LogRecord × Option Str
unfolding tail_loop
start_tail max_num merged = elim (tail_loop max_num 0 merged) [
  | err e ↦ ([], some e)
  | ok l ↦ (reverse l, none)
]
