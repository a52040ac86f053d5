-- ===== src/Logs/Stream.antt =====
-- `Stream` of modules/shared/logs/stream.go: its creation, its start, and the handlers of the source
-- watcher's events. These run under the stream's lock. A channel is the list of the records that it
-- will give; the log fetcher is the argument `fetcher`.
pub mod Follows
pub mod New
use kubetail.Prelude.{
  ℕ, ◌*◌, Bool, true, false, not, ◌&&◌, Option, none, some, List, [], ◌∷◌, if◌then◌else◌,
  nat_comparable, Str, str, str_comparable, Result, ok, err, ◌>>=◌,
}
use kubetail.Collections.SetOf.{SetOf}
use kubetail.Logs.Sources.{LogSource, source_comparable}
use kubetail.Logs.Records.{Time, is_zero, before, LogRecord}
use kubetail.Logs.Fetcher.{FetcherOptions, noop, from_default, from_end}
use kubetail.Logs.Options.{LogOption, StreamConfig, StreamMode, apply_stream_options}
use kubetail.Logs.Watcher.{SourceWatcher}
use kubetail.Logs.Watcher.New.{new_source_watcher}

abbrev pub default_max_chunk_size : ℕ
default_max_chunk_size = 16 * 1024

abbrev pub zero_stream_config : StreamConfig
zero_stream_config = record {
  kube_context = [];
  since_time = 0;
  until_time = 0;
  follow = false;
  grep = [];
  grep_regex = none;
  mode = StreamMode.unknown;
  max_num = 0;
  max_chunk_size = default_max_chunk_size;
  has_fetcher = false;
}

abbrev pub is_head : StreamMode → Bool
is_head StreamMode.head = true
is_head _ = false

abbrev pub is_all : StreamMode → Bool
is_all StreamMode.all = true
is_all _ = false

-- The validation of the options: an error, or the options with `follow` taken back where the stop
-- time has passed at the time `now`.
unfoldable pub validate : Time → StreamConfig → Result StreamConfig
validate now c =
    if c.follow && is_head c.mode
    then err (str "head and follow not allowed")
    else if c.follow && (not (is_zero c.until_time) && before c.until_time now)
    then ok (record c { follow = false })
    else ok c

pub record Stream (L : SetOf LogSource) : Type 0 where
  pub config : StreamConfig
  pub sources : L.Set
  pub is_started : Bool
  -- `err`; `setErrorOnce` has run exactly if it is set.
  pub error : Option Str

-- `NewStream`. The clientset of a context, where no fetcher is set, is made by the connection manager.
unfoldable pub new_stream :
    {U : SetOf Str} {L : SetOf LogSource}
    → (Str → Result (Str → Bool))
    → (Str → Str)
    → (Str → Result (Unit {0}))
    → Time
    → List Str
    → List LogOption
    → Result (Stream L × SourceWatcher U L)
unfolding validate
new_stream {L = L} compile get_default_namespace get_clientset now source_paths opts = do
  c ← apply_stream_options compile zero_stream_config opts
  c' ← validate now c
  sw ← new_source_watcher get_default_namespace source_paths opts
  fetcher ← (if c'.has_fetcher then ok tt else get_clientset c'.kube_context)
  ok (record { config = c'; sources = L.empty; is_started = false; error = none }, sw)

-- LogFetcher
pub record LogFetcher : Type 0 where
  pub stream_forward : LogSource → FetcherOptions → Result (List LogRecord)
  pub stream_backward : LogSource → FetcherOptions → Result (List LogRecord)

-- One channel for each source, or the first error.
unfoldable pub fetch_all :
    (LogSource → Result (List LogRecord)) → List LogSource → Result (List (List LogRecord))
fetch_all fetch [] = ok []
fetch_all fetch (s ∷ ss) = elim (fetch s) [
  | err e ↦ err e
  | ok ch ↦ elim (fetch_all fetch ss) [ err e ↦ err e | ok chs ↦ ok (ch ∷ chs) ]
]

abbrev pub add_options : StreamConfig → FetcherOptions
add_options c = record {
  start_time = 0;
  stop_time = 0;
  grep = c.grep;
  grep_regex = c.grep_regex;
  follow_from = from_default;
  batch_size_hint = 0;
  max_chunk_size = c.max_chunk_size;
}

abbrev pub head_options : StreamConfig → FetcherOptions
head_options c = record {
  start_time = c.since_time;
  stop_time = c.until_time;
  grep = c.grep;
  grep_regex = c.grep_regex;
  follow_from = noop;
  batch_size_hint = 0;
  max_chunk_size = c.max_chunk_size;
}

abbrev pub tail_options : StreamConfig → FetcherOptions
tail_options c = record {
  start_time = c.since_time;
  stop_time = c.until_time;
  grep = c.grep;
  grep_regex = c.grep_regex;
  follow_from = noop;
  batch_size_hint = if is_zero c.since_time then 300 else c.max_num;
  max_chunk_size = c.max_chunk_size;
}

abbrev pub follow_options : StreamConfig → FetcherOptions
follow_options c = record {
  start_time = 0;
  stop_time = c.until_time;
  grep = c.grep;
  grep_regex = c.grep_regex;
  follow_from = from_end;
  batch_size_hint = 0;
  max_chunk_size = c.max_chunk_size;
}

-- The channels that are opened for the past and for the future.
pub record Opened : Type 0 where
  pub past : List (List LogRecord)
  pub future : Option (List (List LogRecord))

module _ {L : SetOf LogSource} where
  -- setError_UNSAFE: only the first error is kept.
  unfoldable pub set_error : Stream L → Str → Stream L
  set_error s e = elim s.error [ none ↦ record s { error = some e } | some _ ↦ s ]

  unfoldable pub handle_source_delete : Stream L → LogSource → Stream L
  handle_source_delete s source =
      if not s.is_started then s else record s { sources = L.remove s.sources source }

  module _ (fetcher : LogFetcher) where
    -- The new state, and the channel that a new goroutine forwards.
    unfoldable pub handle_source_add : Stream L → LogSource → Stream L × Option (List LogRecord)
    unfolding set_error
    handle_source_add s source =
        if not s.is_started
        then (s, none)
        else if L.contains s.sources source
        then (s, none)
        else elim (fetcher.stream_forward source (add_options s.config)) [
          | err e ↦ (set_error s e, none)
          | ok ch ↦ (record s { sources = L.add s.sources source }, some ch)
        ]

    abbrev past_channels : Stream L → Result (List (List LogRecord))
    past_channels s = elim s.config.mode [
      | StreamMode.head ↦
          fetch_all (λ x. fetcher.stream_forward x (head_options s.config)) (L.to_slice s.sources)
      | StreamMode.all ↦
          fetch_all (λ x. fetcher.stream_forward x (head_options s.config)) (L.to_slice s.sources)
      | _ ↦
          fetch_all (λ x. fetcher.stream_backward x (tail_options s.config)) (L.to_slice s.sources)
    ]

    -- `Start` after the source watcher has started with these sources: the past channels, then the
    -- future ones where the stream follows. An error leaves the stream not started.
    unfoldable pub start : Stream L → L.Set → Stream L × Result Opened
    unfolding fetch_all
    start s sources =
        let s' = record s { sources = sources } in
        elim (past_channels s') [
          | err e ↦ (s', err e)
          | ok past ↦
              if s'.config.follow
              then elim (fetch_all (λ x. fetcher.stream_forward x (follow_options s'.config))
                  (L.to_slice sources)) [
                    | err e ↦ (s', err e)
                    | ok future ↦ (
                      record s' { is_started = true },
                      ok (record { past = past; future = some future }),
                    )
                  ]
              else (record s' { is_started = true }, ok (record { past = past; future = none }))
        ]

-- The goroutines that forward a channel: the records before the first error, and that error.
unfoldable pub forward_channel : List LogRecord → List LogRecord × Option Str
forward_channel [] = ([], none)
forward_channel (r ∷ rs) =
    let (sent, e) = forward_channel rs in
    elim r.error [ some e ↦ ([], some e) | none ↦ (r ∷ sent, e) ]
