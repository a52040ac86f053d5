-- ===== src/Logs/Fetcher.antt =====
-- `KubeLogFetcher.StreamForward` of modules/shared/logs/log-fetcher.go. The Kubernetes client is
-- the argument `request`: what the pod log API answers, an error or the bytes of the log with the
-- error that ended them (none for io.EOF). A run ends early only when its context is done; the
-- model is the run whose context is not.
pub mod Backward
pub mod Window
pub mod Sent
use kubetail.Prelude.{
  ℕ, Bool, true, false, not, ◌&&◌, Option, none, some, List, [], ◌∷◌, ◌++◌, if◌then◌else◌,
  nat_comparable, Str, str, str_comparable, Result, ok, err,
}
use kubetail.Strings.{contains}
use kubetail.Logs.Sources.{LogSource}
use kubetail.Logs.Records.{Time, is_zero, before, LogRecord, error_record}
use kubetail.Logs.Reader.{lines, record_of}

pub data FollowFrom : Type 0 where
  noop from_default from_end : FollowFrom

-- `grep_regex` is the compiled expression, as the test that it makes.
pub record FetcherOptions : Type 0 where
  pub start_time : Time
  pub stop_time : Time
  pub grep : Str
  pub grep_regex : Option (Str → Bool)
  pub follow_from : FollowFrom
  pub batch_size_hint : ℕ
  pub max_chunk_size : ℕ

-- corev1.PodLogOptions
pub record PodLogOptions : Type 0 where
  pub timestamps : Bool
  pub container : Str
  pub follow : Bool
  pub tail_lines : Option ℕ
  pub since_time : Option Time
  pub limit_bytes : Option ℕ

abbrev pub is_noop : FollowFrom → Bool
is_noop noop = true
is_noop _ = false

abbrev pub is_from_end : FollowFrom → Bool
is_from_end from_end = true
is_from_end _ = false

unfoldable pub forward_options : LogSource → FetcherOptions → PodLogOptions
forward_options source opts = record {
  timestamps = true;
  container = source.container_name;
  follow = not (is_noop opts.follow_from);
  tail_lines = if is_from_end opts.follow_from then some 0 else none;
  since_time =
      if is_from_end opts.follow_from
      then none
      else if not (is_zero opts.start_time)
      then some opts.start_time
      else none;
  limit_bytes = none;
}

-- The tests of the loop: before the start time, after the stop time, not matched.
abbrev pub too_early : FetcherOptions → LogRecord → Bool
too_early opts r = not (is_zero opts.start_time) && before r.timestamp opts.start_time

abbrev pub too_late : FetcherOptions → LogRecord → Bool
too_late opts r = not (is_zero opts.stop_time) && before opts.stop_time r.timestamp

abbrev pub unmatched : FetcherOptions → LogRecord → Bool
unmatched opts r = elim opts.grep_regex [ none ↦ false | some matches ↦ not (matches r.message) ]

module _ (parse_time : Str → Result Time) where
  -- The goroutine's loop over the log: what it writes to the channel.
  unfoldable pub forward_loop : FetcherOptions → LogSource → List Str → Option Str → List LogRecord
  forward_loop opts source [] none = []
  forward_loop opts source [] (some e) = error_record e ∷ []
  forward_loop opts source (l ∷ ls) end =
      let rest = forward_loop opts source ls end in
      elim (record_of parse_time l) [
        | none ↦ rest
        | some r ↦
            if too_early opts r
            then rest
            else if too_late opts r
            then []
            else if unmatched opts r
            then rest
            else record r { source = source } ∷ rest
      ]

  abbrev pub not_found : Str → Str
  not_found pod_name = str "pods \"" ++ (pod_name ++ str "\" not found")

  module _ (request : Str → Str → PodLogOptions → Result (Str × Option Str)) where
    -- A pod that is gone gives a closed channel, not an error.
    unfoldable pub stream_forward : LogSource → FetcherOptions → Result (List LogRecord)
    stream_forward source opts =
        elim (request source.namespace source.pod_name (forward_options source opts)) [
          | err e ↦ if contains e (not_found source.pod_name) then ok [] else err e
          | ok (bytes, end) ↦ ok (forward_loop opts source (lines bytes) end)
        ]
