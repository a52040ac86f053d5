-- ===== src/Logs/Records.antt =====
-- `LogRecord` of modules/shared/logs/stream.go. A time.Time is a number of nanoseconds since the
-- zero time, which is 0; times before it do not occur in logs.
pub mod Order
use kubetail.Prelude.{ℕ, Bool, Option, some, [], ltb, eqb, nat_comparable, Str, str_comparable}
use kubetail.Logs.Sources.{LogSource}

abbrev pub Time : Type 0
Time = ℕ

abbrev pub is_zero : Time → Bool
is_zero t = eqb t 0

-- t.Before(u); t.After(u) is u.Before(t), and t.Equal(u) is a test by `eqb`.
abbrev pub before : Time → Time → Bool
before t u = ltb t u

pub record LogRecord : Type 0 where
  pub timestamp : Time
  pub message : Str
  pub source : LogSource
  pub error : Option Str

abbrev pub zero_source : LogSource
zero_source = record {
  metadata = record { region = []; zone = []; os = []; arch = []; node = [] };
  namespace = [];
  pod_name = [];
  container_name = [];
  container_id = [];
}

-- LogRecord{err: err}
abbrev pub error_record : Str → LogRecord
error_record e = record { timestamp = 0; message = []; source = zero_source; error = some e }
