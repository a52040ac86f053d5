-- ===== src/Examples/Records.antt =====
-- Runs of the readers, the merge and the forwarder on a few records.
use kubetail.Prelude.{
  ℕ, ◌-◌, ◌≡◌, refl, true, false, Option, none, some, List, [], ◌∷◌, ◌++◌, map, arith,
  nat_comparable, length, drop, Str, str, str_comparable, Result, ok, err,
}
use kubetail.Prelude.{lookup, insert, delete}
use kubetail.Logs.Sources.{LogSource, source_comparable, same_source}
use kubetail.Logs.Records.{Time, LogRecord, zero_source}
use kubetail.Logs.Heap.ListHeap.{list_heap}
use kubetail.Logs.Heap.{HeapOf}
use kubetail.Logs.Merge.{
  RecordWithSource, less, push_next, init_heap, merge_loop, merge_log_streams,
}
use kubetail.Logs.Merge.Complete.{count, merge_log_streams_total, merge_log_streams-count}
use kubetail.Logs.Merge.Order.{IsOrdered, merge_log_streams_order}
use kubetail.Logs.Past.{start_head, start_tail}
use kubetail.Logs.Past.Exact.{start_past_exact, start_past_error, start_tail-order}
use kubetail.Logs.Fetcher.{FetcherOptions, forward_loop, from_default}
use kubetail.Logs.Fetcher.Window.{forward_loop_exact}
use kubetail.Logs.Reader.{records, record_of, extract_timestamp_from_bytes, message_of}
use kubetail.Strings.{cut_at}
use kubetail.Logs.Forwarder.{Forwarder, Input, past, future, initial, live, closed, flush}
use kubetail.Logs.Forwarder
use kubetail.Logs.Fetcher.{PodLogOptions}
use kubetail.Logs.Fetcher.Backward.{
  stream_backward, backward_loop, after_batch, send, read_batch, batch_rest, first_timestamp,
  until_space,
}
use kubetail.Logs.Fetcher.Sent.{AllSent, stream_backward-AllSent}
use kubetail.Logs.Reader.{lines, next}
use kubetail.Strings.{trim_left}
use kubetail.Logs.Forwarder.Handover.{of_source}
use kubetail.Logs.Forwarder.Overlap.{run_overlap}
use kubetail.Logs.Forwarder.Complete.{whole_run, run_handover}

abbrev app : LogSource
app = record zero_source { container_name = str "app" }

abbrev at : Time → LogRecord
at t = record { timestamp = t; message = str "m"; source = app; error = none }

abbrev failed : LogRecord
failed = record { timestamp = 0; message = []; source = zero_source; error = some (str "gone") }

-- Two streams in order.
abbrev streams : List (List LogRecord)
streams = (at 1 ∷ at 4 ∷ []) ∷ (at 2 ∷ at 3 ∷ []) ∷ []

abbrev merged : List LogRecord
merged = at 1 ∷ at 2 ∷ at 3 ∷ at 4 ∷ []

abbrev heap : HeapOf RecordWithSource (less false)
heap = list_heap (λ e. e.head.timestamp)

merge_streams : merge_log_streams false heap 5 streams ≡ some merged
unfolding merge_log_streams merge_loop init_heap push_next list_heap
merge_streams = refl

merge_log_streams_order_example : IsOrdered false merged
merge_log_streams_order_example =
    merge_log_streams_order false heap 5 streams merged ground arith merge_streams

merge_log_streams-count_example : count (λ r. true) merged ≡ 4
merge_log_streams-count_example =
    merge_log_streams-count false heap (λ r. true) 5 streams merged merge_streams

merge_log_streams_total_example :
    (out : List LogRecord) × (merge_log_streams false heap 5 streams ≡ some out)
merge_log_streams_total_example = merge_log_streams_total false heap 5 streams (ground arith)

start_past_exact_example :
    (start_head false 2 merged ≡ (at 1 ∷ at 2 ∷ [], none))
    × (start_head true 2 merged ≡ (merged, none))
    × (start_tail 2 merged ≡ (at 2 ∷ at 1 ∷ [], none))
start_past_exact_example = start_past_exact 2 merged (refl, (refl, (refl, (refl, tt))))

start_past_error_example :
    (start_head false 3 (at 1 ∷ failed ∷ at 2 ∷ []) ≡ (at 1 ∷ [], some (str "gone")))
    × (start_tail 3 (at 1 ∷ failed ∷ at 2 ∷ []) ≡ ([], some (str "gone")))
start_past_error_example =
    start_past_error false 3 failed (str "gone") (at 1 ∷ []) (at 2 ∷ []) (refl, tt) refl
      (ground arith)

start_tail-order_example : IsOrdered false (start_tail 2 (at 4 ∷ at 3 ∷ at 1 ∷ [])).0
start_tail-order_example =
    start_tail-order 2 (at 4 ∷ at 3 ∷ at 1 ∷ []) (refl, (refl, (refl, tt))) (ground arith)

-- Times of one digit.
abbrev parse_digit : Str → Result Time
parse_digit (c ∷ []) = ok (c - b'0')
parse_digit s = err (str "parse")

abbrev log_lines : List Str
log_lines = str "1 a\n" ∷ str "3 b\n" ∷ str "bad\n" ∷ str "5 c\n" ∷ []

-- The records from time 2 to time 4.
abbrev options : FetcherOptions
options = record {
  start_time = 2;
  stop_time = 4;
  grep = [];
  grep_regex = none;
  follow_from = from_default;
  batch_size_hint = 0;
  max_chunk_size = 0;
}

forward_loop_exact_example :
    forward_loop parse_digit options app log_lines none
    ≡ record { timestamp = 3; message = str "b"; source = app; error = none } ∷ []
unfolding records record_of extract_timestamp_from_bytes message_of cut_at
forward_loop_exact_example =
    forward_loop_exact parse_digit options app log_lines none (ground arith)

-- Two past records, of which the second is followed too, and one more that is followed.
abbrev receives : List Input
receives = past (at 1) ∷ future (at 2) ∷ past (at 2) ∷ []

abbrev drains : List Input
drains = future (at 3) ∷ []

abbrev follows : List Input
follows = future (at 4) ∷ []

-- Two past records of one time that are followed too: the second one is written again.
abbrev twin : Str → LogRecord
twin message = record { timestamp = 5; message = message; source = app; error = none }

written_twice :
    (Forwarder.run true
      (λ l. l)
      initial
      (whole_run
        (past (twin (str "a")) ∷ future (twin (str "a")) ∷ past (twin (str "b")) ∷ [])
        (future (twin (str "b")) ∷ [])
        [])).outs
    ≡ twin (str "a") ∷ twin (str "b") ∷ twin (str "b") ∷ []
unfolding Forwarder.run Forwarder.step Forwarder.gather Forwarder.drain Forwarder.after_drain flush
    lookup insert delete same_source
written_twice = refl

run_handover_example :
    of_source app (Forwarder.run true (λ l. l) initial (whole_run receives drains follows)).outs
    ≡ at 1 ∷ at 2 ∷ at 3 ∷ at 4 ∷ []
unfolding same_source
run_handover_example =
    run_handover (λ l. l) receives drains follows (tt, (tt, (tt, tt))) (tt, tt) (tt, tt) app 2 []
      (at 3 ∷ []) (at 2) refl refl tt refl

run_overlap_example :
    of_source app
      (Forwarder.run true
        (λ l. l)
        initial
        (whole_run
          (past (twin (str "a")) ∷ future (twin (str "a")) ∷ past (twin (str "b")) ∷ [])
          (future (twin (str "b")) ∷ [])
          (future (at 6) ∷ []))).outs
    ≡ twin (str "a") ∷ twin (str "b") ∷ twin (str "b") ∷ at 6 ∷ []
unfolding same_source
run_overlap_example =
    run_overlap (λ l. l)
      (past (twin (str "a")) ∷ future (twin (str "a")) ∷ past (twin (str "b")) ∷ [])
      (future (twin (str "b")) ∷ []) (future (at 6) ∷ []) app 5 (tt, (tt, (tt, tt))) (tt, tt)
      (tt, tt) refl ((ground arith, tt), (tt, tt))

abbrev concat : List Str → Str
concat [] = []
concat (l ∷ rest) = l ++ concat rest

-- The API on a log that does not change: the last lines of it where those are asked for.
abbrev answer : List Str → ℕ → Str → Str → PodLogOptions → Result (Str × Option Str)
answer ls call namespace pod_name o =
    ok (concat (elim o.tail_lines [ none ↦ ls | some n ↦ drop (length ls - n) ls ]), none)

backward_output :
    stream_backward parse_digit (answer log_lines) 3 app options
    ≡ ok (record { timestamp = 3; message = str "b"; source = app; error = none } ∷ [])
unfolding stream_backward backward_loop after_batch send read_batch batch_rest first_timestamp
    until_space trim_left lines next record_of extract_timestamp_from_bytes message_of cut_at
backward_output = refl

stream_backward-AllSent_example :
    AllSent options app
      (record { timestamp = 3; message = str "b"; source = app; error = none } ∷ [])
stream_backward-AllSent_example =
    stream_backward-AllSent parse_digit (answer log_lines) 3 app options _ backward_output

-- A log whose first two records have the same time, and nine more.
abbrev same_times : List Str
same_times =
    str "1 a\n"
    ∷ str "1 b\n"
    ∷ str "2 c\n"
    ∷ str "3 d\n"
    ∷ str "4 e\n"
    ∷ str "5 f\n"
    ∷ str "6 g\n"
    ∷ str "7 h\n"
    ∷ str "8 i\n"
    ∷ str "9 j\n"
    ∷ str "9 k\n"
    ∷ []

abbrev messages_of : Result (List LogRecord) → List Str
messages_of (err e) = []
messages_of (ok rs) = map (λ r. r.message) rs

-- The first of them is never written.
same_times_output :
    messages_of (
      stream_backward parse_digit
        (answer same_times)
        9
        app
        (record options { start_time = 0; stop_time = 0 }))
    ≡ str "k"
      ∷ str "j"
      ∷ str "i"
      ∷ str "h"
      ∷ str "g"
      ∷ str "f"
      ∷ str "e"
      ∷ str "d"
      ∷ str "c"
      ∷ str "b"
      ∷ []
unfolding stream_backward backward_loop after_batch send read_batch batch_rest first_timestamp
    until_space trim_left lines next record_of extract_timestamp_from_bytes message_of cut_at
same_times_output = refl
