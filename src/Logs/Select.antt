-- ===== src/Logs/Select.antt =====
-- The inner loops of `updateSources_UNSAFE` of modules/shared/logs/source-watcher.go: which
-- containers of the pods of a workload become sources, and what is published about a change.
pub mod Filters
pub mod Scan
use kubetail.Prelude.{
  ℕ, suc, Bool, true, not, ◌&&◌, ◌||◌, Option, none, some, List, [], ◌∷◌, ◌++◌, map, eqb,
  if◌then◌else◌, ◌==◌, nat_comparable, elem, Str, str, str_comparable, Map,
}
use kubetail.Prelude.{lookup}
use kubetail.Collections.SetOf.{SetOf}
use kubetail.Logs.Objects.{ContainerStatus, Pod, Node}
use kubetail.Logs.Sources.{LogSource, source_comparable, Event, added, deleted}

-- The fields that the options set.
pub record WatcherConfig : Type 0 where
  pub kube_context : Str
  pub bearer_token : Str
  pub regions : List Str
  pub zones : List Str
  pub oses : List Str
  pub arches : List Str
  pub nodes : List Str
  pub containers : List Str
  pub all_containers : Bool
  pub allowed_namespaces : List Str

-- `len(filter) > 0 && !slices.Contains(filter, value)` turned round: the filter lets it through.
unfoldable pub passes : List Str → Str → Bool
passes [] value = true
passes (f ∷ filter) value = elem value (f ∷ filter)

-- node.Labels[key], which is empty where there is no such label.
unfoldable pub label : Node → Str → Str
label node key = elim (lookup key node.labels) [ none ↦ [] | some v ↦ v ]

abbrev pub region_label : Str
region_label = str "topology.kubernetes.io/region"

abbrev pub zone_label : Str
zone_label = str "topology.kubernetes.io/zone"

-- The key of a container in the filter by containers.
unfoldable pub container_key : Pod → ContainerStatus → Str
container_key pod status = pod.meta.namespace ++ (b':' ∷ (pod.meta.name ++ (b'/' ∷ status.name)))

-- The filters on the node.
unfoldable pub node_passes : WatcherConfig → Node → Bool
node_passes c node =
    passes c.nodes node.meta.name
    && (passes c.regions (label node region_label)
        && (passes c.zones (label node zone_label)
            && (passes c.oses node.operating_system && passes c.arches node.architecture)))

-- `wantName == "*" || wantName == status.Name || (wantName == "" && n == 0)`
unfoldable pub wants : Str → ℕ → ContainerStatus → Bool
wants want_name n status =
    (want_name == str "*") || ((want_name == status.name) || ((want_name == []) && eqb n 0))

abbrev pub source_of : Pod → ContainerStatus → Node → LogSource
source_of pod status node = record {
  metadata = record {
    region = label node region_label;
    zone = label node zone_label;
    os = node.operating_system;
    arch = node.architecture;
    node = pod.node_name;
  };
  namespace = pod.meta.namespace;
  pod_name = pod.meta.name;
  container_name = status.name;
  container_id = status.container_id;
}

-- One round of the loop over the containers of a pod: the source that is added, if any.
unfoldable pub select :
    WatcherConfig → Map Str Node → Str → Pod → ℕ → ContainerStatus → Option LogSource
select c nodes want_name pod n status =
    if status.container_id == []
    then none
    else if not (passes c.containers (container_key pod status))
    then none
    else elim (lookup pod.node_name nodes) [
      | none ↦ none
      | some node ↦
          if node_passes c node && wants want_name n status
          then some (source_of pod status node)
          else none
    ]

module _ (L : SetOf LogSource) where
  unfoldable pub scan_statuses :
      WatcherConfig → Map Str Node → Str → Pod → ℕ → List ContainerStatus → L.Set → L.Set
  scan_statuses c nodes want_name pod n [] want = want
  scan_statuses c nodes want_name pod n (status ∷ rest) want =
      scan_statuses c nodes want_name pod (suc n) rest
        (elim (select c nodes want_name pod n status) [ none ↦ want | some s ↦ L.add want s ])

  unfoldable pub scan_pods : WatcherConfig → Map Str Node → Str → List Pod → L.Set → L.Set
  scan_pods c nodes want_name [] want = want
  scan_pods c nodes want_name (pod ∷ pods) want = scan_pods c nodes want_name pods (
      scan_statuses c nodes want_name pod 0 (pod.container_statuses ++ pod.init_container_statuses)
        want)

  -- The two loops that publish: sources that are new, then sources that are gone.
  unfoldable pub events_between : L.Set → L.Set → List Event
  events_between have want =
      map (λ s. added s) (L.to_slice (L.difference want have))
      ++ map (λ s. deleted s) (L.to_slice (L.difference have want))
