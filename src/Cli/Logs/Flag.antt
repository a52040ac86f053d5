-- ===== src/Cli/Logs/Flag.antt =====
-- The flags of the command, the stream options that they stand for, and the columns that they show.
use kubetail.Prelude.{
  ℕ, ◌+◌, ◌-◌, Bool, true, false, not, ◌&&◌, Option, none, some, List, [], ◌∷◌, ◌++◌, if◌then◌else◌,
  ◌==◌, nat_comparable, Str, str, str_comparable, Result, ok, err, ◌>>=◌,
}
use kubetail.Prelude.Int.{ℤ, pos, negsuc}
use kubetail.Strings.{trim_space}
use kubetail.Logs.Records.{Time, LogRecord, is_zero}
use kubetail.Logs.Options.{
  LogOption, with_kube_context, with_since, with_until, with_follow, with_grep, with_regions,
  with_zones, with_oses, with_arches, with_nodes, with_all_containers, with_head, with_tail,
  with_all,
}

pub record Flags : Type 0 where
  -- Whether --head and --tail were given, and their values.
  pub head : Bool
  pub tail : Bool
  pub head_val : ℤ
  pub tail_val : ℤ
  pub all : Bool
  pub follow : Bool
  pub since : Str
  pub until : Str
  pub after : Str
  pub before : Str
  pub grep : Str
  pub kube_context : Str
  pub force : Bool
  pub regions : List Str
  pub zones : List Str
  pub oses : List Str
  pub arches : List Str
  pub nodes : List Str
  pub hide_header : Bool
  pub hide_ts : Bool
  pub hide_dot : Bool
  pub with_node : Bool
  pub with_region : Bool
  pub with_zone : Bool
  pub with_os : Bool
  pub with_arch : Bool
  pub with_namespace : Bool
  pub with_pod : Bool
  pub with_container : Bool
  pub with_cursors : Bool
  pub raw : Bool
  pub all_containers : Bool

-- `PreRunE`
unfoldable pub pre_run : Flags → Result (Unit {0})
pre_run flags =
    if not (flags.grep == []) && not flags.force
    then err (str "--force is required when using --grep")
    else ok tt

pub data LogsStreamMode : Type 0 where
  head_mode tail_mode all_mode : LogsStreamMode

unfoldable pub stream_mode : Flags → LogsStreamMode
stream_mode flags =
    if flags.head
    then head_mode
    else if flags.tail
    then tail_mode
    else if flags.all
    then all_mode
    else if not (flags.since == [])
    then head_mode
    else tail_mode

-- `tailVal`, which is 0 if records are followed.
unfoldable pub tail_num : Flags → ℤ
tail_num flags = if flags.follow && not flags.tail then pos 0 else flags.tail_val

abbrev pub mode_option : Flags → LogsStreamMode → LogOption
mode_option flags head_mode = with_head flags.head_val
mode_option flags tail_mode = with_tail (tail_num flags)
mode_option flags all_mode = with_all

-- `time.Now().Add(-1 * timeAgo)`. A duration is an int64 of nanoseconds, less than 293 years, so
-- no time before the zero time is met.
abbrev time_ago : Time → ℤ → Time
time_ago now (pos n) = now - n
time_ago now (negsuc n) = now + (n + 1)

module _ (parse_duration : Str → Option ℤ) (parse_time : Str → Option Time) where
  -- An absent argument is the zero time. `now` is the clock when this argument is parsed.
  unfoldable pub parse_time_arg : Time → Str → Result Time
  parse_time_arg now arg =
      let trimmed = trim_space arg in
      if trimmed == [] then ok 0 else elim (parse_duration trimmed) [
        | some ago ↦ ok (time_ago now ago)
        | none ↦ elim (parse_time trimmed) [
          | some ts ↦ ok ts
          | none ↦ err (str "unable to parse arg " ++ trimmed)
        ]
      ]

  -- The times of --since and --until, after those of --after and --before. `clock n` is the time at
  -- which the n-th of the four is parsed.
  unfoldable pub time_window : (ℕ → Time) → Flags → Result (Time × Time)
  unfolding parse_time_arg
  time_window clock flags = parse_time_arg (clock 0) flags.since >>= λ since_time.
      parse_time_arg (clock 1) flags.until >>= λ until_time.
      parse_time_arg (clock 2) flags.after >>= λ after_time.
      parse_time_arg (clock 3) flags.before >>= λ before_time. ok (
        (if is_zero after_time then since_time else after_time + 1),
        (if is_zero before_time then until_time else before_time - 1),
      )

  unfoldable pub stream_options : (ℕ → Time) → Flags → Bool → Result (List LogOption)
  unfolding time_window tail_num stream_mode
  stream_options clock flags all_containers = time_window clock flags >>= λ window. ok (
      with_kube_context flags.kube_context
      ∷ with_since window.0
      ∷ with_until window.1
      ∷ with_follow flags.follow
      ∷ with_grep flags.grep
      ∷ with_regions flags.regions
      ∷ with_zones flags.zones
      ∷ with_oses flags.oses
      ∷ with_arches flags.arches
      ∷ with_nodes flags.nodes
      ∷ with_all_containers all_containers
      ∷ mode_option flags (stream_mode flags)
      ∷ [])

-- The parts of a record that are shown.
pub record Shown : Type 0 where
  pub ts : Bool
  pub dot : Bool
  pub node : Bool
  pub region : Bool
  pub zone : Bool
  pub os : Bool
  pub arch : Bool
  pub namespace : Bool
  pub pod : Bool
  pub container : Bool
  pub hide_header : Bool
  pub all_containers : Bool

-- The flags of the columns, as `getTableWriterHeaders` reads them.
abbrev pub shown_by_flags : Flags → Shown
shown_by_flags flags = record {
  ts = not flags.hide_ts;
  dot = not flags.hide_dot;
  node = flags.with_node;
  region = flags.with_region;
  zone = flags.with_zone;
  os = flags.with_os;
  arch = flags.with_arch;
  namespace = flags.with_namespace;
  pod = flags.with_pod;
  container = flags.with_container;
  hide_header = flags.hide_header;
  all_containers = flags.all_containers;
}

-- With --raw nothing is shown but the message.
unfoldable pub shown : Flags → Shown
shown flags =
    if flags.raw
    then record {
      ts = false;
      dot = false;
      node = false;
      region = false;
      zone = false;
      os = false;
      arch = false;
      namespace = false;
      pod = false;
      container = false;
      hide_header = true;
      all_containers = false;
    }
    else shown_by_flags flags

pub data Cursor : Type 0 where
  -- The page after, or before, this time.
  next_page prev_page : Time → Cursor

-- The paging cursor that is printed, for the first and the last record.
unfoldable pub paging_cursor : Flags → Option LogRecord → Option LogRecord → Option Cursor
paging_cursor flags first last =
    if not (flags.with_cursors && (not flags.follow && not flags.all))
    then none
    else elim (if flags.head then last else none) [
      | some r ↦ some (next_page r.timestamp)
      | none ↦ elim first [ none ↦ none | some r ↦ some (prev_page r.timestamp) ]
    ]
