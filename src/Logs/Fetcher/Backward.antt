-- ===== src/Logs/Fetcher/Backward.antt =====
-- `KubeLogFetcher.StreamBackward` of modules/shared/logs/log-fetcher.go and `getFirstTimestamp` of
-- helpers.go. The log may change from one call of the API to the next, so `request` has the number of
-- the call. The model is the run whose context is not done.
use kubetail.Prelude.{
  ℕ, zero, suc, ◌+◌, ◌*◌, max, Bool, true, false, not, ◌&&◌, ◌||◌, Option, none, some, List, [],
  ◌∷◌, ◌++◌, reverse, leb, eqb, if◌then◌else◌, nat_comparable, take, Str, str, str_comparable,
  Result, ok, err,
}
use kubetail.Strings.{trim_left, is_space}
use kubetail.Logs.Sources.{LogSource}
use kubetail.Logs.Records.{Time, is_zero, LogRecord, error_record}
use kubetail.Logs.Reader.{lines, record_of, next}
use kubetail.Logs.Fetcher.{FetcherOptions, PodLogOptions, too_early, too_late, unmatched}

abbrev pub first_options : LogSource → Time → PodLogOptions
first_options source since_time = record {
  timestamps = true;
  container = source.container_name;
  follow = false;
  tail_lines = none;
  since_time = if not (is_zero since_time) then some since_time else none;
  limit_bytes = some 100;
}

abbrev pub batch_options : LogSource → ℕ → PodLogOptions
batch_options source tail_lines = record {
  timestamps = true;
  container = source.container_name;
  follow = false;
  tail_lines = some tail_lines;
  since_time = none;
  limit_bytes = none;
}

-- The bytes up to the first white space.
unfoldable pub until_space : Str → Str
until_space [] = []
until_space (c ∷ s) = let rest = until_space s in if is_space c then [] else c ∷ rest

-- What a batch comes to: it begins at or behind the last one, a read has failed, it has no records,
-- or it has these, from the first on.
pub data Batch : Type 0 where
  ahead : Batch
  failed : Str → Batch
  nothing : Batch
  found : LogRecord → List LogRecord → Batch

-- What one batch sends, in the order in which it is sent, and whether the whole loop ends there.
unfoldable pub send : FetcherOptions → List LogRecord → List LogRecord × Bool
send opts [] = ([], false)
send opts (r ∷ rs) =
    let (sent, stop) = send opts rs in
    if too_late opts r
    then (sent, stop)
    else if too_early opts r
    then ([], true)
    else if unmatched opts r
    then (sent, stop)
    else (r ∷ sent, stop)

-- What is written from a batch on. The rounds that follow are those with a larger batch, and those
-- with the next one, which have the beginning of this batch.
unfoldable pub after_batch :
    FetcherOptions → Time → List LogRecord → (Time → List LogRecord) → Batch → List LogRecord
unfolding send
after_batch opts first_ts enlarged go_on ahead = enlarged
after_batch opts first_ts enlarged go_on (failed e) = error_record e ∷ []
after_batch opts first_ts enlarged go_on nothing = []
after_batch opts first_ts enlarged go_on (found r rs) =
    let (sent, stop) = send opts (reverse (r ∷ rs)) in
    if stop || leb r.timestamp first_ts then sent else sent ++ go_on r.timestamp

module _ (parse_time : Str → Result Time) where
  -- One Read into the buffer of 40 bytes. `strings.Fields(…)[0]` of white space only is a panic,
  -- which is an error here.
  unfoldable pub first_timestamp : Result (Str × Option Str) → Result Time
  unfolding until_space
  first_timestamp (err e) = err e
  first_timestamp (ok ([], none)) = ok 0
  first_timestamp (ok ([], some e)) = err e
  first_timestamp (ok (c ∷ bytes, end)) =
      elim (until_space (trim_left is_space (take 40 (c ∷ bytes)))) [
        | [] ↦ err (str "index out of range")
        | d ∷ text ↦ parse_time (d ∷ text)
      ]

  -- The records behind the first one of a batch, up to the beginning of the last batch.
  unfoldable pub batch_rest : Time → LogSource → List Str → Option Str → Result (List LogRecord)
  batch_rest last source [] none = ok []
  batch_rest last source [] (some e) = err e
  batch_rest last source (l ∷ ls) end =
      let rest = batch_rest last source ls end in
      elim (record_of parse_time l) [
        | none ↦ rest
        | some r ↦
            if not (is_zero last) && eqb r.timestamp last
            then ok []
            else elim rest [ err e ↦ err e | ok rs ↦ ok (record r { source = source } ∷ rs) ]
      ]

  unfoldable pub read_batch : Time → LogSource → List Str → Option Str → Batch
  unfolding batch_rest
  read_batch last source ls end = elim (next parse_time ls) [
    | none ↦ elim end [ none ↦ nothing | some e ↦ failed e ]
    | some (r, ls') ↦
        if not (is_zero last) && leb last r.timestamp
        then ahead
        else elim (batch_rest last source ls' end) [
          | err e ↦ failed e
          | ok rs ↦ found (record r { source = source }) rs
        ]
  ]

  module _ (request : ℕ → Str → Str → PodLogOptions → Result (Str × Option Str)) where
    -- What is written in the rounds to come, at most this many. A failed request, of which at most a
    -- line is printed, ends the loop.
    unfoldable pub backward_loop :
        FetcherOptions → LogSource → Time → ℕ → ℕ → ℕ → ℕ → Time → List LogRecord
    unfolding read_batch after_batch
    backward_loop opts source first_ts zero call batch_size tail_lines last = []
    backward_loop opts source first_ts (suc rounds) call batch_size tail_lines last =
        elim (request call source.namespace source.pod_name (batch_options source tail_lines)) [
          | err e ↦ []
          | ok (bytes, end) ↦
              after_batch opts first_ts
                (backward_loop opts source first_ts rounds (call + 1) (batch_size * 2)
                  (tail_lines + batch_size * 2) last)
                (λ start.
                  backward_loop opts source first_ts rounds (call + 1) batch_size
                    (tail_lines + batch_size) start)
                (read_batch last source (lines bytes) end)
        ]

    -- The error of the first request, or what is written in at most this many rounds.
    unfoldable pub stream_backward : ℕ → LogSource → FetcherOptions → Result (List LogRecord)
    unfolding first_timestamp backward_loop
    stream_backward rounds source opts =
        elim (first_timestamp
          (request 0 source.namespace source.pod_name (first_options source opts.start_time))) [
            | err e ↦ err e
            | ok first_ts ↦
                if is_zero first_ts
                then ok []
                else let batch_size = max opts.batch_size_hint 10 in
                  ok (backward_loop opts source first_ts rounds 1 batch_size batch_size 0)
          ]
