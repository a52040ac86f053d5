-- ===== src/Logs/Forwarder.antt =====
-- `runForwarder` of modules/shared/logs/stream.go. What its `select` statements receive is a
-- sequence of inputs, in the order in which the runtime picks them; `outs` is what it has written to
-- the output channel. `sort.Slice` is the argument `sort_slice`.
pub mod Handover
pub mod Complete
pub mod Overlap
pub mod Runs
use kubetail.Prelude.{
  ℕ, zero, suc, ◌+◌, ◌-◌, ◌*◌, ◌≤◌, ◌<◌, min, max, String, ◌≡◌, refl, sym, ap, ◌∙◌, subst, ◌≢◌, ◌↔◌,
  ◌⊎◌, inl, inr, Bool, true, false, not, ◌&&◌, ◌||◌, Option, none, some, List, [], ◌∷◌, ◌++◌, map,
  reverse, arith, ltb, leb, eqb, if◌then◌else◌, eqb_iff, Bool-cases, Option-cases, bool_ext,
  Comparable, ◌==◌, nat_comparable, same_refl, same→eq, length, take, drop, keep, In, All, All-In,
  here, there, length-append, elem, distinct, elem-append, elem→In, In→elem, In-nil, In-append,
  In-append_left, In-append_right, In-singleton, In-cases, Str, str, same_str, same_str_iff,
  str_comparable, Map, lookup-delete, lookup-insert, Result, ok, err, ◌>>=◌, >>=-eq-ok,
  Result-cases,
}
use kubetail.Prelude.{lookup, insert, delete}
use kubetail.Logs.Sources.{LogSource, source_comparable}
use kubetail.Logs.Records.{Time, LogRecord}

-- A receive, the close of a channel, the end of the context, or the end of the drain: its time limit,
-- or nothing ready.
pub data Input : Type 0 where
  past future : LogRecord → Input
  past_closed future_closed done drained : Input

-- Where the goroutine stands: in the first loop, in the drain loop, in the last loop, or returned.
pub data Phase : Type 0 where
  gathering draining live closed : Phase

pub record Forwarder : Type 0 where
  pub phase : Phase
  pub buffer : List LogRecord
  pub last_ts : Map LogSource Time
  pub outs : List LogRecord

abbrev pub initial : Forwarder
initial = record { phase = gathering; buffer = []; last_ts = []; outs = [] }

-- The loop over the sorted buffer: a record from before the last past record of its source is
-- skipped, and so is the first one of the same time.
unfoldable pub flush : Map LogSource Time → List LogRecord → List LogRecord
flush last_ts [] = []
flush last_ts (r ∷ rs) = elim (lookup r.source last_ts) [
  | none ↦ r ∷ flush last_ts rs
  | some t ↦ elim (ltb r.timestamp t) [
    | true ↦ flush last_ts rs
    | false ↦ elim (eqb r.timestamp t) [
      | true ↦ flush (delete r.source last_ts) rs
      | false ↦ r ∷ flush last_ts rs
    ]
  ]
]

module _ (follow : Bool) (sort_slice : List LogRecord → List LogRecord) where
  -- After the drain: return where the stream does not follow, else write the buffer and go live.
  unfoldable pub after_drain : Forwarder → Forwarder
  after_drain s = if not follow then record s { phase = closed } else record s {
    phase = live;
    buffer = [];
    outs = s.outs ++ flush s.last_ts (sort_slice s.buffer);
  }

  unfoldable pub gather : Forwarder → Input → Forwarder
  gather s (past r) = record s {
    last_ts = insert r.source r.timestamp s.last_ts;
    outs = s.outs ++ r ∷ [];
  }
  gather s (future r) = record s { buffer = s.buffer ++ r ∷ [] }
  gather s past_closed = record s { phase = draining }
  gather s future_closed = record s { phase = closed }
  gather s done = record s { phase = closed }
  gather s drained = s

  unfoldable pub drain : Forwarder → Input → Forwarder
  drain s (future r) = record s { buffer = s.buffer ++ r ∷ [] }
  drain s future_closed = after_drain s
  drain s drained = after_drain s
  drain s done = record s { phase = closed }
  drain s _ = s

  unfoldable pub forward_live : Forwarder → Input → Forwarder
  forward_live s (future r) = record s { outs = s.outs ++ r ∷ [] }
  forward_live s future_closed = record s { phase = closed }
  forward_live s done = record s { phase = closed }
  forward_live s _ = s

  unfoldable pub step : Forwarder → Input → Forwarder
  step s i = elim s.phase [
    | gathering ↦ gather s i
    | draining ↦ drain s i
    | live ↦ forward_live s i
    | closed ↦ s
  ]

  unfoldable pub run : Forwarder → List Input → Forwarder
  run s [] = s
  run s (i ∷ is) = run (step s i) is
