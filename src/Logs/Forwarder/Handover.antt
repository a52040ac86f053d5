-- ===== src/Logs/Forwarder/Handover.antt =====
-- The handover from the past to the followed records.
use kubetail.Prelude.{
  ◌<◌, ◌≡◌, refl, true, false, Option, none, some, List, [], ◌∷◌, ◌++◌, arith, ltb, eqb, ◌==◌,
  nat_comparable, keep, All, str_comparable, Map,
}
use kubetail.Prelude.{lookup-delete, lookup, delete}
use kubetail.Logs.Sources.{LogSource, source_comparable, same_source_iff}
use kubetail.Logs.Records.{Time, LogRecord}
use kubetail.Logs.Forwarder.{flush}

-- The records of one source.
abbrev pub of_source : LogSource → List LogRecord → List LogRecord
of_source x = keep (λ r. r.source == x)

-- What a source's buffered records come down to, after a last past record at this time.
abbrev pub fresh : Option Time → List LogRecord → List LogRecord
fresh none rs = rs
fresh (some t) [] = []
fresh (some t) (r ∷ rs) = elim (ltb r.timestamp t) [
  | true ↦ fresh (some t) rs
  | false ↦ elim (eqb r.timestamp t) [ true ↦ rs | false ↦ r ∷ fresh (some t) rs ]
]

-- What the loop over the buffer writes for one source hangs on that source alone.
pub flush-of_source :
    (last_ts : Map LogSource Time) (rs : List LogRecord) (x : LogSource)
    → of_source x (flush last_ts rs) ≡ fresh (lookup x last_ts) (of_source x rs)
unfolding flush
flush-of_source last_ts [] x = ground arith
flush-of_source last_ts (r ∷ rs) x = ground (
  arith,
  flush-of_source last_ts rs x,
  flush-of_source (delete r.source last_ts) rs x,
  lookup-delete r.source x last_ts,
  same_source_iff r.source x,
)

pub fresh_old :
    (t : Time) (old rest : List LogRecord)
    → All (λ r. r.timestamp < t) old
    → fresh (some t) (old ++ rest) ≡ fresh (some t) rest
fresh_old t [] rest a = refl
fresh_old t (r ∷ old) rest a = ground (arith, a.0, fresh_old t old rest a.1)

pub fresh_new :
    (t : Time) (new : List LogRecord) → All (λ r. t < r.timestamp) new → fresh (some t) new ≡ new
fresh_new t [] a = refl
fresh_new t (r ∷ new) a = ground (arith, a.0, fresh_new t new a.1)

-- If the followed records of a source overlap its past, in that some of them are older than its last
-- past record and one has its time, then exactly those behind that one are written. If they begin
-- behind the past, all of those are.
pub flush_handover :
    (last_ts : Map LogSource Time) (rs : List LogRecord) (x : LogSource) (t : Time)
    (old new : List LogRecord) (last : LogRecord)
    → lookup x last_ts ≡ some t
    → All (λ r. r.timestamp < t) old
    → last.timestamp ≡ t
    → (of_source x rs ≡ old ++ (last ∷ new) → of_source x (flush last_ts rs) ≡ new)
      × (of_source x rs ≡ old ++ new
          → All (λ r. t < r.timestamp) new
          → of_source x (flush last_ts rs) ≡ new)
flush_handover last_ts rs x t old new last l a e = (
  (λ h. rw (flush-of_source last_ts rs x, l, h, fresh_old t old (last ∷ new) a) (ground arith)),
  (λ h b. rw (flush-of_source last_ts rs x, l, h, fresh_old t old new a) (fresh_new t new b)),
)
