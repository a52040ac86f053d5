-- ===== src/Logs/Forwarder/Overlap.antt =====
-- Runs of the forwarder of modules/shared/logs/stream.go with a buffer that has been sorted, seen from
-- one source.
use kubetail.Prelude.{
  ◌≤◌, ◌<◌, ◌≡◌, refl, ap, ◌∙◌, subst, inl, inr, Bool, true, false, none, some, List, [], ◌∷◌, ◌++◌,
  arith, ltb, eqb, Bool-cases, ◌==◌, nat_comparable, drop, keep, keep-append, All, str_comparable,
}
use kubetail.Prelude.{lookup}
use kubetail.Logs.Sources.{LogSource, source_comparable}
use kubetail.Logs.Records.{Time, LogRecord}
use kubetail.Logs.Records.Order.{IsAscending}
use kubetail.Logs.Forwarder.{Input, initial, flush, run}
use kubetail.Logs.Forwarder.Handover.{of_source, fresh, fresh_old, fresh_new, flush-of_source}
use kubetail.Logs.Forwarder.Runs.{
  pasts, futures, note_times, IsReceive, IsFuture, last_time, lookup-note_times,
}
use kubetail.Logs.Forwarder.Complete.{whole_run, run_exact}

abbrev pub is_at : Time → LogRecord → Bool
is_at t r = eqb r.timestamp t

abbrev pub is_later : Time → LogRecord → Bool
is_later t r = ltb t r.timestamp

All-later :
    (t u : Time) (rs : List LogRecord)
    → t < u
    → All (λ r. u ≤ r.timestamp) rs
    → All (λ r. t < r.timestamp) rs
All-later t u [] h a = tt
All-later t u (r ∷ rs) h a = (omega (arith, h, a.0), All-later t u rs h a.1)

later_only :
    (t : Time) (rs : List LogRecord)
    → All (λ r. t < r.timestamp) rs
    → (keep (is_at t) rs ≡ []) × (keep (is_later t) rs ≡ rs)
later_only t [] a = (refl, refl)
later_only t (r ∷ rs) a =
    let (p, q) = later_only t rs a.1 in (ground (arith, a.0, p), ground (arith, a.0, q))

-- Ascending records from a time on are those at the time and then the later ones.
at_then_later :
    (t : Time) (rs : List LogRecord)
    → IsAscending rs
    → All (λ r. t ≤ r.timestamp) rs
    → keep (is_at t) rs ++ keep (is_later t) rs ≡ rs
at_then_later t [] s a = refl
at_then_later t (r ∷ rs) s a = elim (Bool-cases (eqb r.timestamp t)) [
  | inl h ↦ ground (arith, at_then_later t rs s.1 a.1)
  | inr h ↦
      let after_t : t < r.timestamp = ground (arith, a.0) in
      let (p, q) = later_only t rs (All-later t r.timestamp rs after_t s.0) in ground (arith, p, q)
]

fresh_ascending :
    (t : Time) (rs : List LogRecord)
    → IsAscending rs
    → fresh (some t) rs ≡ drop 1 (keep (is_at t) rs) ++ keep (is_later t) rs
fresh_ascending t [] s = refl
fresh_ascending t (r ∷ rs) s = elim (Bool-cases (ltb r.timestamp t)) [
  | inl old ↦
      let before_t : r.timestamp < t = ground (arith, old) in
      let not_at : eqb r.timestamp t ≡ false = ground (arith, before_t) in
      let not_later : ltb t r.timestamp ≡ false = ground (arith, before_t) in
      fresh_old t (r ∷ []) rs (before_t, tt)
      ∙ fresh_ascending t rs s.1
      ∙ rw (not_at, not_later) refl
  | inr not_old ↦ elim (Bool-cases (eqb r.timestamp t)) [
    | inl same ↦
        let from_t : All (λ x. t ≤ x.timestamp) rs =
          subst (λ u. All (λ x. u ≤ x.timestamp) rs) (ground (arith, same)) s.0 in
        ground (arith, at_then_later t rs s.1 from_t)
    | inr other ↦
        let after_t : t < r.timestamp = ground arith in
        let later = All-later t r.timestamp rs after_t s.0 in
        let (p, q) = later_only t rs later in ground (arith, fresh_new t rs later, p, q)
  ]
]

-- A stream that follows receives from the past and the future, finds the end of the past, drains the
-- future, and receives from the future. For a source with a last past record, whose buffered records
-- come out of the sorting by their times: its output is its past, then of the buffered records those
-- at the time of the last past record but for one, and those after that time, and then what comes
-- later. So nothing of the buffer that is newer than its past is lost, and nothing of it that is older
-- is written.
pub run_overlap :
    (sort_slice : List LogRecord → List LogRecord) (is js ks : List Input) (x : LogSource)
    (t : Time)
    → All IsReceive is
    → All IsFuture js
    → All IsFuture ks
    → last_time none (of_source x (pasts is)) ≡ some t
    → IsAscending (of_source x (sort_slice (futures is ++ futures js)))
    → let buffered = of_source x (sort_slice (futures is ++ futures js)) in
      of_source x (run true sort_slice initial (whole_run is js ks)).outs
      ≡ (of_source x (pasts is) ++ (drop 1 (keep (is_at t) buffered) ++ keep (is_later t) buffered))
        ++ of_source x (futures ks)
unfolding lookup
run_overlap sort_slice is js ks x t receives drains follows l s =
    let m = note_times [] (pasts is) in
    let rs = sort_slice (futures is ++ futures js) in
    let skipped : of_source x (flush m rs)
        ≡ drop 1 (keep (is_at t) (of_source x rs)) ++ keep (is_later t) (of_source x rs) =
      flush-of_source m rs x
      ∙ ap (λ o. fresh o (of_source x rs)) (lookup-note_times [] (pasts is) x ∙ l)
      ∙ fresh_ascending t (of_source x rs) s in
    ap (λ s. of_source x s.outs) (run_exact sort_slice is js ks receives drains follows).0
    ∙ keep-append (λ r. r.source == x) (pasts is ++ flush m rs) (futures ks)
    ∙ ap (λ l'. l' ++ of_source x (futures ks))
        (keep-append (λ r. r.source == x) (pasts is) (flush m rs)
          ∙ ap (λ l'. of_source x (pasts is) ++ l') skipped)
