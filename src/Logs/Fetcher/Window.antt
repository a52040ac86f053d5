-- ===== src/Logs/Fetcher/Window.antt =====
-- The loop of `StreamForward` of modules/shared/logs/log-fetcher.go against the window of times.
use kubetail.Prelude.{
  ◌≤◌, ◌≡◌, refl, ap, subst, inl, inr, Bool, true, false, not, ◌&&◌, ◌||◌, Option, none, some, List,
  [], ◌∷◌, ◌++◌, map, arith, if◌then◌else◌, Bool-cases, Option-cases, nat_comparable, keep, All,
  Str, str_comparable, Result,
}
use kubetail.Logs.Sources.{LogSource}
use kubetail.Logs.Records.{Time, LogRecord, error_record}
use kubetail.Logs.Records.Order.{IsAscending}
use kubetail.Logs.Reader.{record_of, records}
use kubetail.Logs.Fetcher.{FetcherOptions, too_early, too_late, unmatched, forward_loop}

-- A record of the window that matches the expression.
abbrev pub wanted : FetcherOptions → LogRecord → Bool
wanted opts r = not (too_early opts r) && (not (too_late opts r) && not (unmatched opts r))

abbrev pub from : LogSource → LogRecord → LogRecord
from source r = record r { source = source }

-- Whether some record ends the loop.
abbrev pub stopped : FetcherOptions → List LogRecord → Bool
stopped opts [] = false
stopped opts (r ∷ rs) = (not (too_early opts r) && too_late opts r) || stopped opts rs

abbrev pub ending : Option Str → List LogRecord
ending none = []
ending (some e) = error_record e ∷ []

-- Nothing behind a record that is too late is wanted.
none_wanted :
    (opts : FetcherOptions) (r : LogRecord) (rs : List LogRecord)
    → too_late opts r ≡ true
    → All (λ x. r.timestamp ≤ x.timestamp) rs
    → keep (wanted opts) rs ≡ []
none_wanted opts r [] h a = refl
none_wanted opts r (x ∷ rs) h a =
    let late : too_late opts x ≡ true = ground (arith, a.0) in
    ground (arith, none_wanted opts r rs h a.1)

-- What is written, as a function of the records.
abbrev written : FetcherOptions → LogSource → Option Str → List LogRecord → List LogRecord
written opts source end rs =
    map (from source) (keep (wanted opts) rs) ++ (if stopped opts rs then [] else ending end)

one_record :
    (opts : FetcherOptions) (source : LogSource) (end : Option Str) (r : LogRecord)
    (rs rest : List LogRecord)
    → All (λ x. r.timestamp ≤ x.timestamp) rs
    → rest ≡ written opts source end rs
    → (if too_early opts r
        then rest
        else if too_late opts r
        then []
        else if unmatched opts r
        then rest
        else record r { source = source } ∷ rest)
      ≡ written opts source end (r ∷ rs)
one_record opts source end r rs rest a e = elim (Bool-cases (too_early opts r)) [
  | inl early ↦ rw early e
  | inr in_time ↦ elim (Bool-cases (too_late opts r)) [
    | inl late ↦ rw (in_time, late, none_wanted opts r rs late a) refl
    | inr open' ↦ elim (Bool-cases (unmatched opts r)) [
      | inl missed ↦ rw (in_time, open', missed) e
      | inr fits ↦ rw (in_time, open', fits) (ap (◌∷◌ (from source r)) e)
    ]
  ]
]

-- On a log whose times do not fall, the fetcher writes exactly the records between the start and
-- the stop time that the expression matches, in their order and with the source set; behind them
-- comes the error that ended the log, if any, unless the stop time was passed before.
pub forward_loop_exact :
    (parse_time : Str → Result Time) (opts : FetcherOptions) (source : LogSource) (ls : List Str)
    (end : Option Str)
    → IsAscending (records parse_time ls)
    → forward_loop parse_time opts source ls end
      ≡ map (from source) (keep (wanted opts) (records parse_time ls))
        ++ (if stopped opts (records parse_time ls) then [] else ending end)
unfolding forward_loop records
forward_loop_exact parse_time opts source [] none a = refl
forward_loop_exact parse_time opts source [] (some e) a = refl
forward_loop_exact parse_time opts source (l ∷ ls) end a =
    elim (Option-cases (record_of parse_time l)) [
      | inl e ↦
          rw (e, records, forward_loop)
            (forward_loop_exact parse_time opts source ls end
              (subst IsAscending {y = records parse_time ls} (rw (e, records)) a))
      | inr (r, e) ↦
          let (first, later) =
            subst IsAscending {y = r ∷ records parse_time ls} (rw (e, records)) a in
          rw (e, records, forward_loop)
            (one_record opts source end r (records parse_time ls) _ first
              (forward_loop_exact parse_time opts source ls end later))
    ]
