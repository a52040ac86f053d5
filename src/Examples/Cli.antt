-- ===== src/Examples/Cli.antt =====
-- The command that shows logs.
use kubetail.Prelude.{
  ◌+◌, ℕ, ◌<◌, ◌≡◌, refl, ◌↔◌, Bool, true, false, Option, none, some, List, [], ◌∷◌, ◌++◌, map,
  arith, if◌then◌else◌, ◌==◌, nat_comparable, length, here, Str, str, str_comparable, Result, ok,
  err,
}
use kubetail.Prelude.Int.{ℤ, pos, negsuc}
use kubetail.Logs.Records.{Time, LogRecord, zero_source}
use kubetail.Logs.Sources.{LogSource}
use kubetail.Logs.Options.{LogOption, StreamConfig, apply_stream_options, apply_stream, apply_grep}
use kubetail.Logs.Stream.{zero_stream_config}
use kubetail.Strings.{trim_space, trim_left}
use kubetail.Cli.TableWriter.{nth, write_row}
use kubetail.Cli.Logs.Table.Widths.{IsMeasured}
use kubetail.Cli.TableWriter.Columns.{offset}
use kubetail.Cli.Logs.Flag.{
  Flags, parse_time_arg, time_window, stream_options, stream_mode, tail_num, shown, shown_by_flags,
}
use kubetail.Cli.Logs.Window.{time_window-strict, stream_options-configure, Asks, Limits}
use kubetail.Logs.Fetcher.{FetcherOptions, FollowFrom, too_early, too_late}
use kubetail.Logs.Options as Options
use kubetail.Cli.Logs.Table.{print_table, headers_of, table_writer, row_cells}
use kubetail.Cli.Logs.Table.Lines.{print_table-aligned}

-- kubetail logs web --after t5 --before t9 --hide-dot --with-node
abbrev flags : Flags
flags = record {
  head = false;
  tail = false;
  head_val = pos 10;
  tail_val = pos 10;
  all = false;
  follow = false;
  since = [];
  until = [];
  after = str "t5";
  before = str "t9";
  grep = [];
  kube_context = [];
  force = false;
  regions = [];
  zones = [];
  oses = [];
  arches = [];
  nodes = [];
  hide_header = false;
  hide_ts = false;
  hide_dot = true;
  with_node = true;
  with_region = false;
  with_zone = false;
  with_os = false;
  with_arch = false;
  with_namespace = false;
  with_pod = false;
  with_container = false;
  with_cursors = false;
  raw = false;
  all_containers = false;
}

abbrev no_duration : Str → Option ℤ
no_duration s = none

abbrev read_time : Str → Option Time
read_time s = if s == str "t5" then some 5 else some 9

abbrev clock : ℕ → Time
clock n = 100 + n

after_read : parse_time_arg no_duration read_time (clock 2) flags.after ≡ ok 5
unfolding parse_time_arg trim_space trim_left
after_read = refl

before_read : parse_time_arg no_duration read_time (clock 3) flags.before ≡ ok 9
unfolding parse_time_arg trim_space trim_left
before_read = refl

window_read : time_window no_duration read_time clock flags ≡ ok (6, 8)
unfolding time_window parse_time_arg trim_space trim_left
window_read = refl

-- Ten nanoseconds ago, and a duration that is one nanosecond below zero.
abbrev two_durations : Str → Option ℤ
two_durations s = if s == str "t5" then some (pos 10) else some (negsuc 0)

durations_read : time_window two_durations (λ s. none) clock flags ≡ ok (93, 103)
unfolding time_window parse_time_arg trim_space trim_left
durations_read = refl

abbrev opts : FetcherOptions
opts = record {
  start_time = 6;
  stop_time = 8;
  grep = [];
  grep_regex = none;
  follow_from = FollowFrom.noop;
  batch_size_hint = 0;
  max_chunk_size = 0;
}

abbrev seventh : LogRecord
seventh = record { timestamp = 7; message = str "GET /"; source = zero_source; error = none }

time_window-strict_example :
    ((too_early opts seventh ≡ false) × (too_late opts seventh ≡ false)) ↔ ((5 < 7) × (7 < 9))
time_window-strict_example =
    time_window-strict no_duration read_time clock flags 5 9 (6, 8) opts seventh after_read
      before_read (ground arith) (ground arith) window_read refl refl

abbrev no_regex : Str → Result (Str → Bool)
no_regex pattern = err (str "no pattern")

-- kubetail logs web --since t5 --follow
abbrev since_flags : Flags
since_flags = record flags { since = str "t5"; after = []; before = []; follow = true }

abbrev options : List LogOption
options =
    LogOption.with_kube_context []
    ∷ LogOption.with_since 5
    ∷ LogOption.with_until 0
    ∷ LogOption.with_follow true
    ∷ LogOption.with_grep []
    ∷ LogOption.with_regions []
    ∷ LogOption.with_zones []
    ∷ LogOption.with_oses []
    ∷ LogOption.with_arches []
    ∷ LogOption.with_nodes []
    ∷ LogOption.with_all_containers false
    ∷ LogOption.with_head (pos 10)
    ∷ []

abbrev config : StreamConfig
config = record zero_stream_config {
  since_time = 5;
  until_time = 0;
  mode = Options.head;
  max_num = 10;
  follow = true;
}

options_made : stream_options no_duration read_time clock since_flags false ≡ ok options
unfolding stream_options time_window parse_time_arg trim_space trim_left stream_mode tail_num
options_made = refl

options_applied : apply_stream_options no_regex zero_stream_config options ≡ ok config
unfolding apply_stream_options apply_stream apply_grep trim_space trim_left
options_applied = refl

stream_options-configure_example :
    (time_window no_duration read_time clock since_flags ≡ ok (5, 0))
    × (config.follow ≡ true)
    × ((n : Option ℤ) × Asks since_flags config.mode n × Limits n 10)
stream_options-configure_example =
    stream_options-configure no_duration read_time clock no_regex since_flags false options
      zero_stream_config config options_made options_applied

abbrev source : LogSource
source = zero_source

abbrev records : List LogRecord
records = record { timestamp = 6; message = str "GET /"; source = source; error = none } ∷ []

abbrev print_time : Time → Str
print_time t = str "2025-01-01T00:00:00Z"

flags-IsMeasured : IsMeasured (shown_by_flags flags)
unfolding IsMeasured
flags-IsMeasured = (refl, refl, refl, refl)

three_headers : 2 < length (headers_of (shown_by_flags flags))
unfolding headers_of
three_headers = ground arith

print_table-aligned_example :
    (front rest : Str) × (nth [] 1 (print_table print_time flags (source ∷ []) records)
      ≡ front
        ++ (nth [] 2 (
              nth [] 1 (
                headers_of (shown_by_flags flags)
                ∷ map (row_cells print_time (shown flags)) records))
            ++ rest))
    × (length front
        ≡ offset
            (write_row (table_writer flags (source ∷ [])) (headers_of (shown_by_flags flags))).0
            0
            2)
print_table-aligned_example =
    print_table-aligned print_time flags (source ∷ []) records 1 2 refl refl refl flags-IsMeasured
      ((here, ground arith), tt) (ground arith) three_headers
