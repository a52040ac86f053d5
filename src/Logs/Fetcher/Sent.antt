-- ===== src/Logs/Fetcher/Sent.antt =====
-- What the backward fetcher may write, whatever the API answers.
use kubetail.Prelude.{
  ℕ, zero, suc, ◌+◌, ◌*◌, max, ◌≡◌, refl, sym, subst, inl, inr, false, not, ◌&&◌, ◌||◌, Option,
  none, some, List, [], ◌∷◌, ◌++◌, reverse, arith, leb, eqb, Bool-cases, Option-cases,
  nat_comparable, All-append, All-reverse, All, Str, str_comparable, Result, ok, Result-cases,
}
use mathlib.Core.List.{append_assoc, append-nil}
use kubetail.Logs.Sources.{LogSource}
use kubetail.Logs.Records.{Time, is_zero, LogRecord}
use kubetail.Logs.Reader.{lines, record_of, next, extract_timestamp_from_bytes}
use kubetail.Logs.Fetcher.{FetcherOptions, PodLogOptions, too_early, too_late, unmatched}
use kubetail.Logs.Fetcher.Window.{ending}
use kubetail.Logs.Fetcher.Backward.{
  Batch, ahead, failed, nothing, found, batch_options, first_options, send, first_timestamp,
  batch_rest, read_batch, after_batch, backward_loop, stream_backward,
}

-- A record of a log of this source.
abbrev IsRead : LogSource → LogRecord → Type 0
IsRead source r = (r.error ≡ none) × (r.source ≡ source)

-- A record of this source between the start and the stop time that the expression matches.
pub record IsSent (opts : FetcherOptions) (source : LogSource) (r : LogRecord) : Type 0 where
  pub no_error : r.error ≡ none
  pub has_source : r.source ≡ source
  pub in_time : too_early opts r ≡ false
  pub in_window : too_late opts r ≡ false
  pub is_matched : unmatched opts r ≡ false

send-IsSent :
    (opts : FetcherOptions) (source : LogSource) (rs : List LogRecord)
    → All (IsRead source) rs
    → All (IsSent opts source) (send opts rs).0
unfolding send
send-IsSent opts source [] h = tt
send-IsSent opts source (r ∷ rs) h = elim (Bool-cases (too_late opts r)) [
  | inl e ↦ rw e (send-IsSent opts source rs h.1)
  | inr late ↦ elim (Bool-cases (too_early opts r)) [
    | inl e ↦ rw (late, e) tt
    | inr early ↦ elim (Bool-cases (unmatched opts r)) [
      | inl e ↦ rw (late, early, e) (send-IsSent opts source rs h.1)
      | inr match ↦
          rw (late, early, match)
            (
              record {
                no_error = h.0.0;
                has_source = h.0.1;
                in_time = early;
                in_window = late;
                is_matched = match;
              },
              send-IsSent opts source rs h.1,
            )
    ]
  ]
]

module _ (parse_time : Str → Result Time) where
  record_of-error : (l : Str) (r : LogRecord) → record_of parse_time l ≡ some r → r.error ≡ none
  unfolding record_of
  record_of-error l r h = elim (Result-cases (extract_timestamp_from_bytes parse_time l)) [
    | inl (e, q) ↦ absurd (ground arith)
    | inr ((pos, ts), q) ↦ ground arith
  ]

  next-error :
      (ls ls' : List Str) (r : LogRecord) → next parse_time ls ≡ some (r, ls') → r.error ≡ none
  unfolding next
  next-error [] ls' r h = absurd (ground arith)
  next-error (l ∷ ls) ls' r h = elim (Option-cases (record_of parse_time l)) [
    | inl e ↦ next-error ls ls' r (ground arith)
    | inr (r', e) ↦ record_of-error l r (ground arith)
  ]

  batch_rest-IsRead :
      (last : Time) (source : LogSource) (ls : List Str) (end : Option Str) (rs : List LogRecord)
      → batch_rest parse_time last source ls end ≡ ok rs
      → All (IsRead source) rs
  unfolding batch_rest
  batch_rest-IsRead last source [] none rs h =
      subst (All (IsRead source)) {x = []} (ground arith) tt
  batch_rest-IsRead last source [] (some e) rs h = absurd (ground arith)
  batch_rest-IsRead last source (l ∷ ls) end rs h = elim (Option-cases (record_of parse_time l)) [
    | inl e ↦ batch_rest-IsRead last source ls end rs (ground arith)
    | inr (r, e) ↦ elim (Bool-cases (not (is_zero last) && eqb r.timestamp last)) [
      | inl b ↦ subst (All (IsRead source)) {x = []} (ground arith) tt
      | inr b ↦ elim (Result-cases (batch_rest parse_time last source ls end)) [
        | inl (f, q) ↦ absurd (ground arith)
        | inr (rest, q) ↦
            subst (All (IsRead source)) {x = record r { source = source } ∷ rest} (ground arith)
              ((record_of-error l r e, refl), batch_rest-IsRead last source ls end rest q)
      ]
    ]
  ]

  read_batch-IsRead :
      (last : Time) (source : LogSource) (ls : List Str) (end : Option Str) (r : LogRecord)
      (rs : List LogRecord)
      → read_batch parse_time last source ls end ≡ found r rs
      → All (IsRead source) (r ∷ rs)
  unfolding read_batch
  read_batch-IsRead last source ls end r rs h = elim (Option-cases (next parse_time ls)) [
    | inl e ↦ elim (Option-cases end) [
      | inl n ↦ absurd (ground arith)
      | inr (f, n) ↦ absurd (ground arith)
    ]
    | inr ((s, ls'), e) ↦ elim (Bool-cases (not (is_zero last) && leb last s.timestamp)) [
      | inl b ↦ absurd (ground arith)
      | inr b ↦ elim (Result-cases (batch_rest parse_time last source ls' end)) [
        | inl (f, q) ↦ absurd (ground arith)
        | inr (rest, q) ↦
            subst (All (IsRead source)) {x = record s { source = source } ∷ rest} {y = r ∷ rs}
              (ground arith)
              ((next-error ls ls' s e, refl), batch_rest-IsRead last source ls' end rest q)
      ]
    ]
  ]

-- Sent records, and behind them one error at most.
abbrev pub AllSent : FetcherOptions → LogSource → List LogRecord → Type 0
AllSent opts source out =
    (sent : List LogRecord) × (e : Option Str) × (out ≡ sent ++ ending e)
    × All (IsSent opts source) sent

AllSent-append :
    (opts : FetcherOptions) (source : LogSource) (rs out : List LogRecord)
    → All (IsSent opts source) rs
    → AllSent opts source out
    → AllSent opts source (rs ++ out)
AllSent-append opts source rs out h (sent, e, q, k) = (
  rs ++ sent,
  e,
  rw q (sym (append_assoc rs sent (ending e))),
  All-append (IsSent opts source) rs sent h k,
)

sent_only :
    (opts : FetcherOptions) (source : LogSource) (rs : List LogRecord)
    → All (IsSent opts source) rs
    → AllSent opts source rs
sent_only opts source rs h = (rs, none, sym (append-nil rs), h)

after_batch-AllSent :
    (opts : FetcherOptions) (source : LogSource) (first_ts : Time) (enlarged : List LogRecord)
    (go_on : Time → List LogRecord) (b : Batch)
    → ((r : LogRecord) → (rs : List LogRecord) → b ≡ found r rs → All (IsRead source) (r ∷ rs))
    → AllSent opts source enlarged
    → ((start : Time) → AllSent opts source (go_on start))
    → AllSent opts source (after_batch opts first_ts enlarged go_on b)
unfolding after_batch
after_batch-AllSent opts source first_ts enlarged go_on ahead h l g = l
after_batch-AllSent opts source first_ts enlarged go_on (failed e) h l g = ([], some e, refl, tt)
after_batch-AllSent opts source first_ts enlarged go_on nothing h l g = sent_only opts source [] tt
after_batch-AllSent opts source first_ts enlarged go_on (found r rs) h l g =
    let all =
      send-IsSent opts source (reverse (r ∷ rs))
        (All-reverse (IsRead source) (r ∷ rs) (h r rs refl)) in
    elim (Bool-cases ((send opts (reverse (r ∷ rs))).1 || leb r.timestamp first_ts)) [
      | inl e ↦ rw e (sent_only opts source _ all)
      | inr e ↦ rw e (AllSent-append opts source _ _ all (g r.timestamp))
    ]

module _ (parse_time : Str → Result Time)
    (request : ℕ → Str → Str → PodLogOptions → Result (Str × Option Str)) where
  backward_loop-AllSent :
      (opts : FetcherOptions) (source : LogSource) (first_ts : Time)
      (rounds call batch_size tail_lines : ℕ) (last : Time)
      → AllSent opts source (
          backward_loop parse_time request opts source first_ts rounds call batch_size tail_lines
            last)
  unfolding backward_loop
  backward_loop-AllSent opts source first_ts zero call batch_size tail_lines last =
      sent_only opts source [] tt
  backward_loop-AllSent opts source first_ts (suc rounds) call batch_size tail_lines last =
      elim (Result-cases
        (request call source.namespace source.pod_name (batch_options source tail_lines))) [
          | inl (e, q) ↦ rw (q, backward_loop) (sent_only opts source [] tt)
          | inr ((bytes, end), q) ↦
              rw (q, backward_loop)
                (after_batch-AllSent opts source first_ts _ _
                  (read_batch parse_time last source (lines bytes) end)
                  (read_batch-IsRead parse_time last source (lines bytes) end)
                  (backward_loop-AllSent opts source first_ts rounds (call + 1) (batch_size * 2)
                    (tail_lines + batch_size * 2) last)
                  (backward_loop-AllSent opts source first_ts rounds (call + 1) batch_size
                    (tail_lines + batch_size)))
        ]

  -- However often the API is asked, and whatever it answers, what the backward fetcher has written is
  -- records of its source between the start and the stop time that the expression matches, and
  -- behind them one error at most.
  pub stream_backward-AllSent :
      (rounds : ℕ) (source : LogSource) (opts : FetcherOptions) (out : List LogRecord)
      → stream_backward parse_time request rounds source opts ≡ ok out
      → AllSent opts source out
  unfolding stream_backward
  stream_backward-AllSent rounds source opts out h =
      elim (Result-cases (
        first_timestamp parse_time
          (request 0 source.namespace source.pod_name (first_options source opts.start_time)))) [
            | inl (e, q) ↦ absurd (ground arith)
            | inr (ts, q) ↦ elim (Bool-cases (is_zero ts)) [
              | inl z ↦
                  subst (AllSent opts source) {x = []} (ground arith) (sent_only opts source [] tt)
              | inr z ↦
                  let batch_size = max opts.batch_size_hint 10 in
                  subst (AllSent opts source)
                    {x = backward_loop parse_time request opts source ts rounds 1 batch_size
                      batch_size 0}
                    (ground arith)
                    (backward_loop-AllSent opts source ts rounds 1 batch_size batch_size 0)
            ]
          ]
