-- ===== src/Cli/Logs/Table.antt =====
-- The table of the records: its headers, the widths of its columns, and the cells of a record.
pub mod Widths
pub mod Lines
use kubetail.Prelude.{
  ℕ, zero, suc, ◌+◌, ◌-◌, ◌*◌, ◌≤◌, ◌<◌, min, max, String, ◌≡◌, refl, sym, ap, ◌∙◌, subst, ◌≢◌, ◌↔◌,
  ◌⊎◌, inl, inr, Bool, true, false, not, ◌&&◌, ◌||◌, Option, none, some, List, [], ◌∷◌, ◌++◌, map,
  reverse, arith, ltb, leb, eqb, if◌then◌else◌, eqb_iff, Bool-cases, Option-cases, bool_ext,
  Comparable, ◌==◌, nat_comparable, same_refl, same→eq, length, take, drop, keep, keep-append,
  All-append, All-reverse, In, All, All-In, here, there, length-append, elem, distinct, elem-append,
  elem→In, In→elem, In-nil, In-append, In-append_left, In-append_right, In-singleton, In-cases, Str,
  str, same_str, same_str_iff, str_comparable, Map, lookup-delete, lookup-insert, Result, ok, err,
  ◌>>=◌, >>=-eq-ok, Result-cases,
}
use kubetail.Prelude.{lookup, insert, delete, lookup-insert, lookup-delete}
use kubetail.Logs.Records.{Time, LogRecord}
use kubetail.Logs.Sources.{LogSource}
use kubetail.Cli.Logs.Flag.{Flags, Shown, shown, shown_by_flags}
use kubetail.Cli.TableWriter.{new_table_writer, write_rows, TableWriter, nth}
use Prim.Native.Nat.{◌%◌}

-- The colours of the dot.
abbrev pub colors : List Str
colors =
    str "31m"
    ∷ str "32m"
    ∷ str "33m"
    ∷ str "34m"
    ∷ str "35m"
    ∷ str "36m"
    ∷ str "91m"
    ∷ str "92m"
    ∷ str "93m"
    ∷ str "94m"
    ∷ str "95m"
    ∷ str "96m"
    ∷ str "37m"
    ∷ str "90m"
    ∷ str "97m"
    ∷ []

abbrev pub two_64 : ℕ
two_64 = 18_446_744_073_709_551_616

-- The hash of a container id of ASCII characters, a 64-bit integer as its remainder.
unfoldable pub djb2 : ℕ → Str → ℕ
djb2 hash [] = hash
djb2 hash (c ∷ cs) = djb2 ((c + (hash * 32 + hash)) % two_64) cs

-- `hash % len(colors)` without its sign.
unfoldable pub color_index : ℕ → ℕ
color_index hash = if ltb (hash * 2) two_64 then hash % 15 else (two_64 - hash) % 15

unfoldable pub get_dot_indicator : Str → Str
unfolding djb2 color_index nth
get_dot_indicator container_id =
    (27 ∷ str "[")
    ++ (nth [] (color_index (djb2 5381 container_id)) colors
        ++ ((226 ∷ 151 ∷ 143 ∷ []) ++ (27 ∷ str "[0m")))

abbrev pub or_default : Str → Str → Str
or_default val default = if val == [] then default else val

-- A part of a list, if it is shown.
infixr 5 ◌when◌
abbrev pub ◌when◌ {ℓ} : {A : Type ℓ} → A → Bool → List A
a when true = a ∷ []
a when false = []

unfoldable pub row_cells : (Time → Str) → Shown → LogRecord → List Str
unfolding get_dot_indicator
row_cells format_time s r =
    (format_time r.timestamp when s.ts)
    ++ ((get_dot_indicator r.source.container_id when s.dot)
        ++ ((r.source.metadata.node when s.node)
            ++ ((or_default r.source.metadata.region (str "-") when s.region)
                ++ ((or_default r.source.metadata.zone (str "-") when s.zone)
                    ++ ((or_default r.source.metadata.os (str "-") when s.os)
                        ++ ((or_default r.source.metadata.arch (str "-") when s.arch)
                            ++ ((or_default r.source.namespace (str "-") when s.namespace)
                                ++ ((or_default r.source.pod_name (str "-") when s.pod)
                                    ++ ((or_default r.source.container_name (str "-")
                                          when s.container)
                                        ++ (r.message ∷ []))))))))))

-- The greatest lengths so far.
pub record Lengths : Type 0 where
  pub node : ℕ
  pub region : ℕ
  pub zone : ℕ
  pub os : ℕ
  pub arch : ℕ
  pub namespace : ℕ
  pub pod : ℕ
  pub container : ℕ

abbrev pub of_headers : Lengths
of_headers = record {
  node = 4;
  region = 6;
  zone = 4;
  os = 2;
  arch = 4;
  namespace = 9;
  pod = 3;
  container = 9;
}

-- The last three are compared with the length for the architectures and not with their own.
unfoldable pub add_source : Lengths → LogSource → Lengths
add_source l s =
    let arch_len = max l.arch (length s.metadata.arch) in
    record {
      node = max l.node (length s.metadata.node);
      region = max l.region (length s.metadata.region);
      zone = max l.zone (length s.metadata.zone);
      os = max l.os (length s.metadata.os);
      arch = arch_len;
      namespace = max arch_len (length s.namespace);
      pod = max arch_len (length s.pod_name);
      container = max arch_len (length s.container_name);
    }

unfoldable pub max_lengths : Lengths → List LogSource → Lengths
unfolding add_source
max_lengths l [] = l
max_lengths l (s ∷ ss) = max_lengths (add_source l s) ss

unfoldable pub headers_of : Shown → List Str
headers_of s =
    (str "TIMESTAMP" when s.ts)
    ++ (((226 ∷ 151 ∷ 139 ∷ []) when s.dot)
        ++ ((str "NODE" when s.node)
            ++ ((str "REGION" when s.region)
                ++ ((str "ZONE" when s.zone)
                    ++ ((str "OS" when s.os)
                        ++ ((str "ARCH" when s.arch)
                            ++ ((str "NAMESPACE" when s.namespace)
                                ++ ((str "POD" when s.pod)
                                    ++ ((str "CONTAINER" when s.container)
                                        ++ (str "MESSAGE" ∷ []))))))))))

unfoldable pub widths_of : Shown → Lengths → List ℕ
widths_of s l =
    (30 when s.ts)
    ++ ((1 when s.dot)
        ++ ((l.node when s.node)
            ++ ((l.region when s.region)
                ++ ((l.zone when s.zone)
                    ++ ((l.os when s.os)
                        ++ ((l.arch when s.arch)
                            ++ ((l.namespace when s.namespace)
                                ++ ((l.pod when s.pod) ++ (l.container when s.container)))))))))

unfoldable pub get_table_writer_headers : Flags → List LogSource → List Str × List ℕ
unfolding max_lengths headers_of widths_of
get_table_writer_headers flags sources = (
  headers_of (shown_by_flags flags),
  widths_of (shown_by_flags flags) (max_lengths of_headers sources),
)

abbrev pub show_header : Shown → Bool
show_header s =
    s.ts
    || (s.node
        || (s.region || (s.zone || (s.os || (s.arch || (s.namespace || (s.pod || s.container)))))))

-- The writer of the table, and the lines that are printed.
unfoldable pub table_writer : Flags → List LogSource → TableWriter
unfolding get_table_writer_headers new_table_writer
table_writer flags sources = new_table_writer (get_table_writer_headers flags sources).1 []

unfoldable pub print_table : (Time → Str) → Flags → List LogSource → List LogRecord → List Str
unfolding table_writer get_table_writer_headers shown row_cells write_rows
print_table format_time flags sources records =
    let s = shown flags in
    let rows = map (row_cells format_time s) records in
    let headers = (get_table_writer_headers flags sources).0 in
    (write_rows (table_writer flags sources)
      (if show_header s && not s.hide_header then headers ∷ rows else rows)).1
