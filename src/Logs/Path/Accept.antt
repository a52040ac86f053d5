-- ===== src/Logs/Path/Accept.antt =====
-- `parse_path` of modules/shared/logs/source-watcher.go on paths that are written in full.
use kubetail.Prelude.{
  ◌≡◌, refl, ◌≢◌, inl, inr, Bool, true, ◌&&◌, List, [], ◌∷◌, ◌++◌, arith, Bool-cases,
  nat_comparable, All, Str, str, same_str, same_str_iff, str_comparable, ok, err,
}
use kubetail.Logs.Path.Parse.{parse-path_of, path_of, is_unknown_iff}
use kubetail.Logs.Path.{
  ◌∷◌, Bool, List, Str, ParsedPath, parse_path, parse_parts, finish, is_unknown,
}
use kubetail.Logs.WorkloadType.Names.{parse_workload_type-to_string}
use kubetail.Prelude.{same_str_iff}
use kubetail.Strings.Laws.{Without}
use kubetail.Logs.WorkloadType.{WorkloadType, unknown, cron_job, to_string, parse_workload_type}

-- The numbers of parts that a path may have; in three parts the first is a workload type.
abbrev pub IsSourcePath : List Str → Type 0
IsSourcePath [] = ⊥
IsSourcePath (a ∷ []) = Unit
IsSourcePath (a ∷ b ∷ []) = Unit
IsSourcePath (a ∷ b ∷ c ∷ []) = parse_workload_type a ≢ unknown
IsSourcePath _ = ⊥

finish_known :
    (path : Str) (all : Bool) (out : ParsedPath)
    → out.workload_type ≢ unknown
    → (pp : ParsedPath) × (finish path all out ≡ ok pp)
unfolding finish
finish_known path all out h = elim (Bool-cases (all && same_str out.container_name [])) [
  | inl e ↦
      (record out { container_name = str "*" }, ground (arith, is_unknown_iff out.workload_type))
  | inr e ↦ (out, ground (arith, is_unknown_iff out.workload_type))
]

parts_known :
    (ns : Str) (l : List Str) → IsSourcePath l → (parse_parts ns l).workload_type ≢ unknown
unfolding parse_parts
parts_known ns [] h = absurd h
parts_known ns (a ∷ []) h = λ e. cc
parts_known ns (a ∷ b ∷ []) h = λ e. ground (arith, is_unknown_iff (parse_workload_type a))
parts_known ns (a ∷ b ∷ c ∷ []) h = h
parts_known ns (a ∷ b ∷ c ∷ d ∷ l) h = absurd h

unknown_test : (w : WorkloadType) → ¬ (w ≢ unknown) → is_unknown w ≡ true
unknown_test unknown h = refl
unknown_test cron_job h = absurd (h (λ e. cc))
unknown_test _ h = absurd (h (λ e. cc))

parts_unknown :
    (ns : Str) (l : List Str)
    → ¬ IsSourcePath l
    → is_unknown (parse_parts ns l).workload_type ≡ true
unfolding parse_parts
parts_unknown ns [] h = refl
parts_unknown ns (a ∷ []) h = absurd (h tt)
parts_unknown ns (a ∷ b ∷ []) h = absurd (h tt)
parts_unknown ns (a ∷ b ∷ c ∷ []) h = unknown_test (parse_workload_type a) h
parts_unknown ns (a ∷ b ∷ c ∷ d ∷ l) h = refl

-- A path of parts without separators is accepted exactly if it has one part, two parts, or three
-- of which the first is a workload type; otherwise the error names the whole path.
pub parse_path_accepts :
    (ns d : Str) (all : Bool) (ps : List Str) (last : Str)
    → Without b'/' ns
    → Without b':' ns
    → All (Without b'/') (ps ++ last ∷ [])
    → last ≢ []
    → (IsSourcePath (ps ++ last ∷ [])
        → (pp : ParsedPath) × (parse_path (path_of ns (ps ++ last ∷ [])) d all ≡ ok pp))
      × (¬ IsSourcePath (ps ++ last ∷ [])
          → parse_path (path_of ns (ps ++ last ∷ [])) d all
            ≡ err (str "unable to parse " ++ path_of ns (ps ++ last ∷ [])))
parse_path_accepts ns d all ps last pn cn h nl = rw (parse-path_of ns d all ps last pn cn h nl) (
  (λ good. finish_known _ all _ (parts_known ns (ps ++ last ∷ []) good)),
  (λ bad. unfold finish in rw (parts_unknown ns (ps ++ last ∷ []) bad) refl),
)

to_string-Without : (w : WorkloadType) → Without b'/' (to_string w)
unfolding to_string
to_string-Without cron_job = ground arith
to_string-Without _ = ground arith

-- A path that is written in full is read back, whatever the default namespace: a namespace without
-- separators, the printed name of a known type, and a workload and a container without slashes, of
-- which the container is not empty.
pub parse_path-path_of :
    (ns d : Str) (all : Bool) (w : WorkloadType) (name container : Str)
    → Without b'/' ns
    → Without b':' ns
    → w ≢ unknown
    → Without b'/' name
    → Without b'/' container
    → container ≢ []
    → parse_path (path_of ns (to_string w ∷ name ∷ container ∷ [])) d all
      ≡ ok (record {
        namespace = ns;
        workload_type = w;
        workload_name = name;
        container_name = container;
      })
parse_path-path_of ns d all w name container pn cn known pname pcont n =
    rw
      (parse-path_of ns d all (to_string w ∷ name ∷ []) container pn cn
        (to_string-Without w, (pname, (pcont, tt))) n)
      (unfold finish parse_parts in
        rw ((parse_workload_type-to_string w).0)
          (ground (arith, is_unknown_iff w, same_str_iff container [])))
