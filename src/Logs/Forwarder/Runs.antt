-- ===== src/Logs/Forwarder/Runs.antt =====
-- Whole runs of the forwarder: what has been written after the past has ended and the buffer has been
-- written out.
use mathlib.Core.List.{append_assoc, append-nil}
use kubetail.Prelude.{
  ◌≡◌, refl, ap, ◌∙◌, Bool, Option, some, List, [], ◌∷◌, ◌++◌, arith, nat_comparable, All,
  str_comparable, Map,
}
use kubetail.Prelude.{lookup, insert, lookup-insert}
use kubetail.Logs.Sources.{LogSource, source_comparable}
use kubetail.Logs.Forwarder.Handover.{of_source}
use kubetail.Logs.Records.{Time, LogRecord}
use kubetail.Logs.Forwarder.{
  Input, past, future, past_closed, future_closed, done, drained, gathering, draining, live, closed,
  Forwarder, initial, flush, after_drain, gather, drain, forward_live, step, run,
}

-- The records that inputs deliver from the past and from the future.
abbrev pub pasts : List Input → List LogRecord
pasts [] = []
pasts (past r ∷ is) = r ∷ pasts is
pasts (_ ∷ is) = pasts is

abbrev pub futures : List Input → List LogRecord
futures [] = []
futures (future r ∷ is) = r ∷ futures is
futures (_ ∷ is) = futures is

-- The map of the last past times after some past records.
abbrev pub note_times : Map LogSource Time → List LogRecord → Map LogSource Time
note_times m [] = m
note_times m (r ∷ rs) = note_times (insert r.source r.timestamp m) rs

-- Receives from the past and the future, and receives from the future only.
abbrev pub IsReceive : Input → Type 0
IsReceive (past r) = Unit
IsReceive (future r) = Unit
IsReceive _ = ⊥

abbrev pub IsFuture : Input → Type 0
IsFuture (future r) = Unit
IsFuture _ = ⊥

module _ (follow : Bool) (sort_slice : List LogRecord → List LogRecord) where
  pub run-append :
      (s : Forwarder) (is js : List Input)
      → run follow sort_slice s (is ++ js) ≡ run follow sort_slice (run follow sort_slice s is) js
  unfolding run
  run-append s [] js = refl
  run-append s (i ∷ is) js = run-append (step follow sort_slice s i) is js

  run_gathering :
      (b o : List LogRecord) (m : Map LogSource Time) (is : List Input)
      → All IsReceive is
      → run follow sort_slice (record { phase = gathering; buffer = b; last_ts = m; outs = o }) is
        ≡ record {
          phase = gathering;
          buffer = b ++ futures is;
          last_ts = note_times m (pasts is);
          outs = o ++ pasts is;
        }
  unfolding run step gather
  run_gathering b o m [] h = simp append-nil
  run_gathering b o m (past r ∷ is) h =
      run_gathering b (o ++ r ∷ []) (insert r.source r.timestamp m) is h.1 ∙ simp append_assoc
  run_gathering b o m (future r ∷ is) h = run_gathering (b ++ r ∷ []) o m is h.1 ∙ simp append_assoc
  run_gathering b o m (past_closed ∷ is) h = absurd h.0
  run_gathering b o m (future_closed ∷ is) h = absurd h.0
  run_gathering b o m (done ∷ is) h = absurd h.0
  run_gathering b o m (drained ∷ is) h = absurd h.0

  run_draining :
      (b o : List LogRecord) (m : Map LogSource Time) (is : List Input)
      → All IsFuture is
      → run follow sort_slice (record { phase = draining; buffer = b; last_ts = m; outs = o }) is
        ≡ record { phase = draining; buffer = b ++ futures is; last_ts = m; outs = o }
  unfolding run step drain
  run_draining b o m [] h = simp append-nil
  run_draining b o m (future r ∷ is) h = run_draining (b ++ r ∷ []) o m is h.1 ∙ simp append_assoc
  run_draining b o m (past r ∷ is) h = absurd h.0
  run_draining b o m (past_closed ∷ is) h = absurd h.0
  run_draining b o m (future_closed ∷ is) h = absurd h.0
  run_draining b o m (done ∷ is) h = absurd h.0
  run_draining b o m (drained ∷ is) h = absurd h.0

  pub run_live :
      (b o : List LogRecord) (m : Map LogSource Time) (is : List Input)
      → All IsFuture is
      → run follow sort_slice (record { phase = live; buffer = b; last_ts = m; outs = o }) is
        ≡ record { phase = live; buffer = b; last_ts = m; outs = o ++ futures is }
  unfolding run step forward_live
  run_live b o m [] h = simp append-nil
  run_live b o m (future r ∷ is) h = run_live b (o ++ r ∷ []) m is h.1 ∙ simp append_assoc
  run_live b o m (past r ∷ is) h = absurd h.0
  run_live b o m (past_closed ∷ is) h = absurd h.0
  run_live b o m (future_closed ∷ is) h = absurd h.0
  run_live b o m (done ∷ is) h = absurd h.0
  run_live b o m (drained ∷ is) h = absurd h.0

  step_closed : (s : Forwarder) (i : Input) → s.phase ≡ closed → step follow sort_slice s i ≡ s
  unfolding step
  step_closed s i h = ground arith

  pub run_closed :
      (s : Forwarder) (is : List Input) → s.phase ≡ closed → run follow sort_slice s is ≡ s
  unfolding run
  run_closed s [] h = refl
  run_closed s (i ∷ is) h =
      ap (λ v. run follow sort_slice v is) (step_closed s i h) ∙ run_closed s is h

-- The last past time of a source is the time of its last record of the past.
abbrev pub last_time : Option Time → List LogRecord → Option Time
last_time t [] = t
last_time t (r ∷ rs) = last_time (some r.timestamp) rs

pub lookup-note_times :
    (m : Map LogSource Time) (rs : List LogRecord) (x : LogSource)
    → lookup x (note_times m rs) ≡ last_time (lookup x m) (of_source x rs)
lookup-note_times m [] x = refl
lookup-note_times m (r ∷ rs) x = ground (
  arith,
  lookup-note_times (insert r.source r.timestamp m) rs x,
  lookup-insert r.source x r.timestamp m,
)

-- The state in which a run that follows the log goes live.
abbrev went_live : (List LogRecord → List LogRecord) → List Input → List Input → Forwarder
went_live sort_slice is js = record {
  phase = live;
  buffer = [];
  last_ts = note_times [] (pasts is);
  outs = pasts is ++ flush (note_times [] (pasts is)) (sort_slice (futures is ++ futures js));
}

module _ (follow : Bool) (sort_slice : List LogRecord → List LogRecord) where
  -- Up to the end of the drain.
  pub run_drained :
      (is js : List Input)
      → All IsReceive is
      → All IsFuture js
      → run follow sort_slice initial (is ++ (past_closed ∷ (js ++ drained ∷ [])))
        ≡ after_drain follow sort_slice (record {
          phase = draining;
          buffer = futures is ++ futures js;
          last_ts = note_times [] (pasts is);
          outs = pasts is;
        })
  run_drained is js h k =
      run-append follow sort_slice initial is (past_closed ∷ (js ++ drained ∷ []))
      ∙ ap (λ s. run follow sort_slice s (past_closed ∷ (js ++ drained ∷ [])))
          (run_gathering follow sort_slice [] [] [] is h)
      ∙ unfold run step gather in
        (run-append follow sort_slice _ js (drained ∷ [])
          ∙ ap (λ s. run follow sort_slice s (drained ∷ []))
              (run_draining follow sort_slice (futures is) (pasts is) (note_times [] (pasts is)) js
                k)
          ∙ unfold drain in refl)
