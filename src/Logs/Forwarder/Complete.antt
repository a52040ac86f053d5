-- ===== src/Logs/Forwarder/Complete.antt =====
-- Whole runs of the forwarder of modules/shared/logs/stream.go, seen from one source.
use kubetail.Prelude.{
  ◌<◌, ◌≡◌, refl, ap, ◌∙◌, true, false, none, some, List, [], ◌∷◌, ◌++◌, ◌==◌, nat_comparable,
  keep-append, All, str_comparable,
}
use kubetail.Prelude.{lookup}
use kubetail.Logs.Sources.{LogSource, source_comparable}
use kubetail.Logs.Records.{Time, LogRecord}
use kubetail.Logs.Forwarder.{
  Input, past_closed, drained, live, closed, initial, flush, after_drain, run,
}
use kubetail.Logs.Forwarder.Handover.{of_source, flush_handover}
use kubetail.Logs.Forwarder.Runs.{
  pasts, futures, note_times, IsReceive, IsFuture, run-append, run_live, run_closed, run_drained,
  last_time, lookup-note_times,
}

-- The inputs of a run: receives while the past is open, its end, what the drain finds, its end, and
-- what comes after.
abbrev pub whole_run : List Input → List Input → List Input → List Input
whole_run is js ks = (is ++ (past_closed ∷ (js ++ drained ∷ []))) ++ ks

module _ (sort_slice : List LogRecord → List LogRecord) (is js ks : List Input)
    (receives : All IsReceive is) (drains : All IsFuture js) (follows : All IsFuture ks) where
  -- The state after a run that receives from the past and the future, finds the end of the past,
  -- drains the future, and receives from the future; and the output of one that does not follow.
  pub run_exact :
      (run true sort_slice initial (whole_run is js ks) ≡ record {
        phase = live;
        buffer = [];
        last_ts = note_times [] (pasts is);
        outs =
            (pasts is ++ flush (note_times [] (pasts is)) (sort_slice (futures is ++ futures js)))
            ++ futures ks;
      })
      × ((run false sort_slice initial (whole_run is js ks)).outs ≡ pasts is)
      × ((run false sort_slice initial (whole_run is js ks)).phase ≡ closed)
  unfolding after_drain
  run_exact = (
    run-append true sort_slice initial _ ks
        ∙ ap (λ s. run true sort_slice s ks) (run_drained true sort_slice is js receives drains)
        ∙ run_live true sort_slice _ _ _ ks follows,
    ap (λ s. s.outs) ended,
    ap (λ s. s.phase) ended,
  )
    where
      ended : run false sort_slice initial (whole_run is js ks) ≡ record {
        phase = closed;
        buffer = futures is ++ futures js;
        last_ts = note_times [] (pasts is);
        outs = pasts is;
      }
      ended =
          run-append false sort_slice initial _ ks
          ∙ ap (λ s. run false sort_slice s ks) (run_drained false sort_slice is js receives drains)
          ∙ run_closed false sort_slice _ ks refl

  -- A stream that follows receives from the past and the future, finds the end of the past, drains
  -- the future, and receives from the future. For one source: if its sorted buffer overlaps its past,
  -- in that its first records are older than the last past record and the next one has its time,
  -- then its output is the past, what stands behind that one record in the buffer, and what comes
  -- later.
  pub run_handover :
      (x : LogSource) (t : Time) (old new : List LogRecord) (last : LogRecord)
      → last_time none (of_source x (pasts is)) ≡ some t
      → of_source x (sort_slice (futures is ++ futures js)) ≡ old ++ (last ∷ new)
      → All (λ r. r.timestamp < t) old
      → last.timestamp ≡ t
      → of_source x (run true sort_slice initial (whole_run is js ks)).outs
        ≡ (of_source x (pasts is) ++ new) ++ of_source x (futures ks)
  unfolding lookup
  run_handover x t old new last l b a e =
      let m = note_times [] (pasts is) in
      let rs = sort_slice (futures is ++ futures js) in
      ap (λ s. of_source x s.outs) run_exact.0
      ∙ keep-append (λ r. r.source == x) (pasts is ++ flush m rs) (futures ks)
      ∙ ap (λ l'. l' ++ of_source x (futures ks))
          (keep-append (λ r. r.source == x) (pasts is) (flush m rs)
            ∙ ap (λ l'. of_source x (pasts is) ++ l')
                ((flush_handover m rs x t old new last (lookup-note_times [] (pasts is) x ∙ l) a
                    e).0
                  b))
