-- ===== src/Logs/Path.antt =====
-- `parsedPath` and `parsePath` of modules/shared/logs/source-watcher.go.
pub mod Parse
pub mod Accept
use kubetail.Prelude.{
  Bool, true, false, ◌&&◌, if◌then◌else◌, ◌==◌, List, [], ◌∷◌, ◌++◌, Option, none, some, Str, str,
  Result, ok, err, str_comparable,
}
use kubetail.Strings.{trim, cut_at, split}
use kubetail.Logs.WorkloadType.{WorkloadType, unknown, pod, parse_workload_type}

pub record ParsedPath : Type 0 where
  pub namespace : Str
  pub workload_type : WorkloadType
  pub workload_name : Str
  pub container_name : Str

abbrev pub is_unknown : WorkloadType → Bool
is_unknown unknown = true
is_unknown _ = false

-- The `switch` on the number of parts, over the fields that it sets.
unfoldable pub parse_parts : Str → List Str → ParsedPath
unfolding parse_workload_type
parse_parts ns (name ∷ []) = record {
  namespace = ns;
  workload_type = pod;
  workload_name = name;
  container_name = [];
}
parse_parts ns (a ∷ b ∷ []) =
    if is_unknown (parse_workload_type a)
    then record { namespace = ns; workload_type = pod; workload_name = a; container_name = b }
    else record {
      namespace = ns;
      workload_type = parse_workload_type a;
      workload_name = b;
      container_name = [];
    }
parse_parts ns (a ∷ b ∷ c ∷ []) = record {
  namespace = ns;
  workload_type = parse_workload_type a;
  workload_name = b;
  container_name = c;
}
parse_parts ns _ = record {
  namespace = ns;
  workload_type = unknown;
  workload_name = [];
  container_name = [];
}

-- The namespace in front of the first colon, or the default one, and the path behind it.
unfoldable pub namespace_parts : Str → Str → Str × Str
unfolding cut_at
namespace_parts default_namespace trimmed_path = elim (cut_at b':' trimmed_path) [
  | some (ns, rest) ↦ (ns, rest)
  | none ↦ (if default_namespace == [] then str "default" else default_namespace, trimmed_path)
]

unfoldable pub finish : Str → Bool → ParsedPath → Result ParsedPath
finish path all_containers out =
    if is_unknown out.workload_type
    then err (str "unable to parse " ++ path)
    else if all_containers && (out.container_name == [])
    then ok (record out { container_name = str "*" })
    else ok out

unfoldable pub parse_path : Str → Str → Bool → Result ParsedPath
unfolding parse_parts namespace_parts finish trim split
parse_path path default_namespace all_containers =
    let (ns, rest) = namespace_parts default_namespace (trim b'/' path) in
    finish path all_containers (parse_parts ns (split b'/' rest))
