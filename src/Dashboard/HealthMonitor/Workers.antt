-- ===== src/Dashboard/HealthMonitor/Workers.antt =====
-- The workers of modules/dashboard/internal/cluster-api/health-monitor.go, and parseConnectUrl of
-- helpers.go beside it. `url.Parse` is the argument `parse_url`, which gives a host name and a port.
use kubetail.Prelude.{
  ◌≡◌, refl, sym, ap, ◌∙◌, ◌⊎◌, inl, inr, Bool, not, Option, none, some, List, [], ◌∷◌, ◌++◌, arith,
  if◌then◌else◌, Option-cases, ◌==◌, nat_comparable, Str, str, same_str_iff, str_comparable, Map,
  lookup-insert, Result, ok, err, ◌>>=◌, Result-cases,
}
use kubetail.Prelude.{lookup, insert, lookup-insert}
use kubetail.Prelude.{ok-injective}
use kubetail.Strings.{split}
use kubetail.Dashboard.HealthMonitor.{EndpointSlice, Worker, new_worker, start}

pub data HealthMonitorWorker : Type 0 where
  noop : HealthMonitorWorker
  endpoint_slices : Str → Str → Worker → HealthMonitorWorker

-- What the creation of a worker finds in a cluster: the error of the clientset, whether the API knows
-- EndpointSlices, the error of the registration, and what `Start` finds.
pub record Found : Type 0 where
  pub clientset_error : Option Str
  pub supported : Bool
  pub register_error : Option Str
  pub synced : Bool
  pub ctx_error : Option Str
  pub store : List EndpointSlice

unfoldable pub new_started_worker : Str → Str → Found → Result HealthMonitorWorker
unfolding start
new_started_worker namespace service_name f = elim f.clientset_error [
  | some e ↦ err e
  | none ↦ if not f.supported then ok noop else elim f.register_error [
    | some e ↦ err e
    | none ↦
        let (made, done) = start f.synced f.ctx_error f.store new_worker in
        done >>= λ _. ok (endpoint_slices namespace service_name made.0)
  ]
]

-- The key of a worker, and `getOrCreateWorker` of the desktop.
unfoldable pub worker_key : Str → Str → Str → Str
worker_key kube_context namespace service_name =
    kube_context ++ (str "::" ++ (namespace ++ (str "::" ++ service_name)))

abbrev pub default_namespace : Str
default_namespace = str "kubetail-system"

abbrev pub default_service_name : Str
default_service_name = str "kubetail-cluster-api"

abbrev pub deref : Option Str → Str → Str
deref none default = default
deref (some s) default = s

unfoldable pub get_or_create_worker :
    Map Str HealthMonitorWorker
    → Str
    → Option Str
    → Option Str
    → Found
    → Map Str HealthMonitorWorker × Result HealthMonitorWorker
unfolding worker_key new_started_worker
get_or_create_worker cache kube_context namespace_ptr service_name_ptr f =
    let namespace = deref namespace_ptr default_namespace in
    let service_name = deref service_name_ptr default_service_name in
    let k = worker_key kube_context namespace service_name in
    elim (lookup k cache) [
      | some w ↦ (cache, ok w)
      | none ↦ elim (new_started_worker namespace service_name f) [
        | err e ↦ (cache, err e)
        | ok w ↦ (insert k w cache, ok w)
      ]
    ]

pub record ConnectArgs : Type 0 where
  pub namespace : Str
  pub service_name : Str
  pub port : Str

module _ (parse_url : Str → Result (Str × Str)) (namespace_file : Result Str) where
  abbrev namespace_of : List Str → Result Str
  namespace_of (_ ∷ (namespace ∷ _)) = ok namespace
  namespace_of _ = elim namespace_file [
    | ok bytes ↦ ok bytes
    | err e ↦ err (
        str
          "unable to read current namespace from /var/run/secrets/kubernetes.io/serviceaccount/namespace: "
        ++ e)
  ]

  abbrev service_of : List Str → Str
  service_of [] = []
  service_of (service ∷ _) = service

  unfoldable pub parse_connect_url : Str → Result ConnectArgs
  unfolding split
  parse_connect_url connect_url = parse_url connect_url >>= λ u.
      let parts = split b'.' u.0 in
      namespace_of parts >>= λ namespace. ok (record {
        namespace = namespace;
        service_name = service_of parts;
        port = if u.1 == [] then str "50051" else u.1;
      })

  -- The monitor in a cluster has one worker.
  unfoldable pub in_cluster_get_or_create_worker :
      Option HealthMonitorWorker
      → Str
      → Found
      → Option HealthMonitorWorker × Result HealthMonitorWorker
  unfolding parse_connect_url new_started_worker
  in_cluster_get_or_create_worker (some w) endpoint f = (some w, ok w)
  in_cluster_get_or_create_worker none endpoint f =
      elim (parse_connect_url endpoint >>= λ a. new_started_worker a.namespace a.service_name f) [
        | err e ↦ (none, err e)
        | ok w ↦ (some w, ok w)
      ]

-- Without an endpoint the worker does nothing.
unfoldable pub new_in_cluster_health_monitor : Str → Option HealthMonitorWorker
new_in_cluster_health_monitor endpoint = if endpoint == [] then some noop else none

abbrev key_of : Str → Option Str → Option Str → Str
key_of c n s = worker_key c (deref n default_namespace) (deref s default_service_name)

cached_worker :
    (cache : Map Str HealthMonitorWorker) (c : Str) (n s : Option Str) (f : Found)
    (w : HealthMonitorWorker)
    → lookup (key_of c n s) cache ≡ some w
    → get_or_create_worker cache c n s f ≡ (cache, ok w)
unfolding get_or_create_worker
cached_worker cache c n s f w h = rw (h, get_or_create_worker) refl

made_worker :
    (cache : Map Str HealthMonitorWorker) (c : Str) (n s : Option Str) (f : Found)
    → lookup (key_of c n s) cache ≡ none
    → ((e : Str) × (get_or_create_worker cache c n s f ≡ (cache, err e)))
      ⊎ ((w : HealthMonitorWorker) × (get_or_create_worker cache c n s f
            ≡ (insert (key_of c n s) w cache, ok w)))
unfolding get_or_create_worker
made_worker cache c n s f h =
    elim (Result-cases
      (new_started_worker (deref n default_namespace) (deref s default_service_name) f)) [
        | inl (e, q) ↦ inl (e, rw (h, q, get_or_create_worker) refl)
        | inr (w, q) ↦ inr (w, rw (h, q, get_or_create_worker) refl)
      ]

-- A worker that is returned is the one that every later call for its cluster and service returns,
-- whatever the call finds.
pub get_or_create_worker-again :
    (cache : Map Str HealthMonitorWorker) (c : Str) (n s : Option Str) (f g : Found)
    (w : HealthMonitorWorker)
    → (get_or_create_worker cache c n s f).1 ≡ ok w
    → get_or_create_worker (get_or_create_worker cache c n s f).0 c n s g
      ≡ ((get_or_create_worker cache c n s f).0, ok w)
get_or_create_worker-again cache c n s f g w h =
    cached_worker (get_or_create_worker cache c n s f).0 c n s g w
      (elim (Option-cases (lookup (key_of c n s) cache)) [
        | inr (v, q) ↦
            let r = cached_worker cache c n s f v q in
            ap (λ x. lookup (key_of c n s) x.0) r
            ∙ q
            ∙ ap some (ok-injective v w (sym (ap (λ x. x.1) r) ∙ h))
        | inl q ↦ elim (made_worker cache c n s f q) [
          | inl (e, r) ↦ let bad : err e ≡ ok w = sym (ap (λ x. x.1) r) ∙ h in absurd (cc)
          | inr (v, r) ↦
              let same : v ≡ w = ok-injective v w (sym (ap (λ x. x.1) r) ∙ h) in
              ap (λ x. lookup (key_of c n s) x.0) r
              ∙ lookup-insert (key_of c n s) (key_of c n s) v cache
              ∙ ground (arith, same, same_str_iff (key_of c n s) (key_of c n s))
        ]
      ])
