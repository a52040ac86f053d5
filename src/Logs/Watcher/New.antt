-- ===== src/Logs/Watcher/New.antt =====
-- `NewSourceWatcher`, and the resources that `Start` watches.
use kubetail.Prelude.{
  ◌≡◌, ◌⊎◌, subst, ◌≢◌, inl, inr, false, List, [], ◌∷◌, ◌++◌, arith, if◌then◌else◌, Bool-cases,
  nat_comparable, In, All, here, there, In-append_left, In-append_right, Str, str_comparable,
  Result, ok, err, Result-cases,
}
use kubetail.Collections.SetOf.{SetOf}
use kubetail.Logs.WorkloadType.{WorkloadType}
use kubetail.Logs.Path.{ParsedPath, parse_path}
use kubetail.Logs.Sources.{LogSource, source_comparable}
use kubetail.Logs.Select.{WatcherConfig, passes}
use kubetail.Logs.Select.Filters.{Allowed, passes_iff}
use kubetail.Logs.Path.Parse.{parse_path_ok}
use kubetail.Logs.Options.{LogOption, apply_watcher_options}
use kubetail.Logs.Index
use kubetail.Logs.Watcher.{SourceWatcher}

abbrev pub zero_config : WatcherConfig
zero_config = record {
  kube_context = [];
  bearer_token = [];
  regions = [];
  zones = [];
  oses = [];
  arches = [];
  nodes = [];
  containers = [];
  all_containers = false;
  allowed_namespaces = [];
}

-- The loop over the source paths: a path that does not parse is an error, one whose namespace is
-- not allowed is passed over.
unfoldable pub parse_paths : WatcherConfig → Str → List Str → Result (List ParsedPath)
parse_paths c ns [] = ok []
parse_paths c ns (p ∷ ps) = elim (parse_path p ns c.all_containers) [
  | err e ↦ err e
  | ok pp ↦ elim (parse_paths c ns ps) [
    | err e ↦ err e
    | ok pps ↦ if passes c.allowed_namespaces pp.namespace then ok (pp ∷ pps) else ok pps
  ]
]

-- `get_default_namespace` is the connection manager's.
unfoldable pub new_source_watcher :
    {U : SetOf Str} {L : SetOf LogSource}
    → (Str → Str)
    → List Str
    → List LogOption
    → Result (SourceWatcher U L)
unfolding parse_paths
new_source_watcher {L = L} get_default_namespace source_paths opts =
    let c = apply_watcher_options zero_config opts in
    elim (parse_paths c (get_default_namespace c.kube_context) source_paths) [
      | err e ↦ err e
      | ok pps ↦ ok (record {
        config = c;
        parsed_paths = pps;
        sources = L.empty;
        index = Index.new;
        node_map = [];
        is_ready = false;
      })
    ]

-- A namespace and a type whose informer is started.
pub record FetchTuple : Type 0 where
  pub namespace : Str
  pub workload_type : WorkloadType

abbrev tuple : Str → WorkloadType → FetchTuple
tuple ns t = record { namespace = ns; workload_type = t }

-- The tuples that one path adds, in order.
pub tuples_of : Str → WorkloadType → List FetchTuple
tuples_of ns WorkloadType.deployment =
    tuple ns WorkloadType.deployment
    ∷ tuple ns WorkloadType.replica_set
    ∷ tuple ns WorkloadType.pod
    ∷ []
tuples_of ns WorkloadType.cron_job =
    tuple ns WorkloadType.cron_job ∷ tuple ns WorkloadType.job ∷ tuple ns WorkloadType.pod ∷ []
tuples_of ns t = tuple ns t ∷ tuple ns WorkloadType.pod ∷ []

-- What the set of tuples holds after the loop over the paths.
unfoldable pub fetch_tuples : List ParsedPath → List FetchTuple
unfolding tuples_of
fetch_tuples [] = []
fetch_tuples (pp ∷ pps) = tuples_of pp.namespace pp.workload_type ++ fetch_tuples pps

-- A path that a new watcher keeps.
pub record IsKept (c : WatcherConfig) (pp : ParsedPath) : Type 0 where
  pub allowed : Allowed c.allowed_namespaces pp.namespace
  pub known : pp.workload_type ≢ WorkloadType.unknown
  pub containers : (c.all_containers ≡ false) ⊎ (pp.container_name ≢ [])

parse_paths-IsKept :
    (c : WatcherConfig) (ns : Str) (paths : List Str) (pps : List ParsedPath)
    → parse_paths c ns paths ≡ ok pps
    → All (IsKept c) pps
unfolding parse_paths
parse_paths-IsKept c ns [] pps h = subst (All (IsKept c)) {x = []} (ground arith) tt
parse_paths-IsKept c ns (p ∷ ps) pps h = elim (Result-cases (parse_path p ns c.all_containers)) [
  | inl (e, q) ↦ absurd (ground arith)
  | inr (pp, q) ↦ elim (Result-cases (parse_paths c ns ps)) [
    | inl (e, r) ↦ absurd (ground arith)
    | inr (rest, r) ↦
        let ih = parse_paths-IsKept c ns ps rest r in
        elim (Bool-cases (passes c.allowed_namespaces pp.namespace)) [
          | inl good ↦
              let (known, containers) = parse_path_ok p ns c.all_containers pp q in
              subst (All (IsKept c)) {x = pp ∷ rest} (ground arith) (
                record {
                  allowed = (passes_iff c.allowed_namespaces pp.namespace).0 good;
                  known = known;
                  containers = containers;
                },
                ih,
              )
          | inr bad ↦ subst (All (IsKept c)) {x = rest} (ground arith) ih
        ]
  ]
]

-- Every path of a new watcher is in an allowed namespace, is of a known type, and names a container
-- where all containers are asked for.
pub new_source_watcher-IsKept :
    {U : SetOf Str} {L : SetOf LogSource} (get_default_namespace : Str → Str)
    (source_paths : List Str) (opts : List LogOption) (w : SourceWatcher U L)
    → new_source_watcher get_default_namespace source_paths opts ≡ ok w
    → All (IsKept w.config) w.parsed_paths
unfolding new_source_watcher
new_source_watcher-IsKept {L = L} get_default_namespace source_paths opts w h =
    let c = apply_watcher_options zero_config opts in
    elim (Result-cases (parse_paths c (get_default_namespace c.kube_context) source_paths)) [
      | inl (e, q) ↦ absurd (ground arith)
      | inr (pps, q) ↦
          let config : c ≡ w.config = ground arith in
          let paths : pps ≡ w.parsed_paths = ground arith in
          subst (All (IsKept w.config)) paths (
            subst (λ d. All (IsKept d) pps) config
              (parse_paths-IsKept c (get_default_namespace c.kube_context) source_paths pps q))
    ]

-- The tuples that a path needs are among some tuples.
abbrev pub IsCovered : Str → WorkloadType → List FetchTuple → Type 0
IsCovered ns t l =
    In (tuple ns t) l
    × In (tuple ns WorkloadType.pod) l
    × ((t ≢ WorkloadType.deployment) ⊎ In (tuple ns WorkloadType.replica_set) l)
    × ((t ≢ WorkloadType.cron_job) ⊎ In (tuple ns WorkloadType.job) l)

tuples_of-IsCovered : (ns : Str) (t : WorkloadType) → IsCovered ns t (tuples_of ns t)
unfolding tuples_of
tuples_of-IsCovered ns WorkloadType.deployment =
    (here, there (there here), inr (there here), inl (λ e. cc))
tuples_of-IsCovered ns WorkloadType.cron_job =
    (here, there (there here), inl (λ e. cc), inr (there here))
tuples_of-IsCovered ns _ = (here, there here, inl (λ e. cc), inl (λ e. cc))

-- The informers that `Start` starts cover every path of the watcher: its own type, the type between a deployment
-- or a cron job and its pods, and the pods.
pub fetch_tuples_cover :
    (pp : ParsedPath) (pps : List ParsedPath)
    → In pp pps
    → IsCovered pp.namespace pp.workload_type (fetch_tuples pps)
unfolding fetch_tuples
fetch_tuples_cover pp _ (here {xs = pps}) =
    let (a, b, c, d) = tuples_of-IsCovered pp.namespace pp.workload_type in
    let l = tuples_of pp.namespace pp.workload_type in
    let m = fetch_tuples pps in
    (
      In-append_left l m a,
      In-append_left l m b,
      elim c [ inl e ↦ inl e | inr i ↦ inr (In-append_left l m i) ],
      elim d [ inl e ↦ inl e | inr i ↦ inr (In-append_left l m i) ],
    )
fetch_tuples_cover pp _ (there {x = q} {xs = pps} i) =
    let (a, b, c, d) = fetch_tuples_cover pp pps i in
    let l = tuples_of q.namespace q.workload_type in
    let m = fetch_tuples pps in
    (
      In-append_right l m a,
      In-append_right l m b,
      elim c [ inl e ↦ inl e | inr j ↦ inr (In-append_right l m j) ],
      elim d [ inl e ↦ inl e | inr j ↦ inr (In-append_right l m j) ],
    )
