-- ===== src/Logs/Index.antt =====
-- `workloadIndex` of modules/shared/logs/source-watcher.go: objects by UID, the UIDs of a namespace
-- and type, and who owns whom. Each method holds the index's lock from start to end.
pub mod Ownership
pub mod Lookup
pub mod Results
pub mod Invariant
use kubetail.Prelude.{
  ℕ, zero, suc, ◌||◌, Option, none, some, List, [], ◌∷◌, ◌++◌, if◌then◌else◌, ◌==◌, nat_comparable,
  Str, str, str_comparable, Map,
}
use kubetail.Prelude.{lookup, insert, delete}
use kubetail.Collections.SetOf.{SetOf}
use kubetail.Collections.MapSet
use kubetail.Collections.MapSet.{MapSet}
use kubetail.Logs.WorkloadType.{WorkloadType, to_string}
use kubetail.Logs.Objects.{ObjectMeta, Pod, Object}

-- The two results of a type switch over the workloads: the type and the metadata. The cases of
-- `Add`, `Update` and `Remove` differ in nothing else.
unfoldable pub workload_of : Object → Option (WorkloadType × ObjectMeta)
workload_of (Object.cron_job m) = some (WorkloadType.cron_job, m)
workload_of (Object.daemon_set m) = some (WorkloadType.daemon_set, m)
workload_of (Object.deployment m) = some (WorkloadType.deployment, m)
workload_of (Object.job m) = some (WorkloadType.job, m)
workload_of (Object.pod p) = some (WorkloadType.pod, p.meta)
workload_of (Object.replica_set m) = some (WorkloadType.replica_set, m)
workload_of (Object.stateful_set m) = some (WorkloadType.stateful_set, m)
workload_of (Object.node n) = none
workload_of Object.other = none

-- `obj.(workload)`: every Kubernetes object has GetUID and GetName.
unfoldable pub as_workload : Object → Option ObjectMeta
unfolding workload_of
as_workload (Object.node n) = some n.meta
as_workload Object.other = none
as_workload obj = elim (workload_of obj) [ none ↦ none | some (t, m) ↦ some m ]

unfoldable pub as_pod : Object → Option Pod
as_pod (Object.pod p) = some p
as_pod _ = none

unfoldable pub generate_data_key : Str → WorkloadType → Str
unfolding to_string
generate_data_key namespace t = namespace ++ (b':' ∷ to_string t)

pub record WorkloadIndex (S : SetOf Str) : Type 0 where
  pub data_map : Map Str Object
  pub list_map : MapSet Str S
  pub ownership_map : MapSet Str S

-- An error leaves the index as it is.
abbrev not_implemented : Option Str
not_implemented = some (str "not implemented")

-- The loop of `GetWorkloads` over the UIDs of a namespace and type.
unfoldable pub pick_workloads : Map Str Object → Str → List Str → List ObjectMeta
unfolding as_workload
pick_workloads dm name_filter [] = []
pick_workloads dm name_filter (id ∷ ids) =
    let rest = pick_workloads dm name_filter ids in
    elim (lookup id dm) [
      | none ↦ rest
      | some obj ↦ elim (as_workload obj) [
        | none ↦ rest
        | some m ↦ if (name_filter == str "*") || (m.name == name_filter) then m ∷ rest else rest
      ]
    ]

-- Results of calls that may each fail, put one behind the other.
unfoldable pub collect : (Str → Option (List Str)) → List Str → Option (List Str)
collect f [] = some []
collect f (x ∷ xs) = elim (f x) [
  | none ↦ none
  | some l ↦ elim (collect f xs) [ none ↦ none | some ls ↦ some (l ++ ls) ]
]

unfoldable pub pick_pods : Map Str Object → List Str → List Pod
unfolding as_pod
pick_pods dm [] = []
pick_pods dm (id ∷ ids) =
    let rest = pick_pods dm ids in
    elim (lookup id dm) [
      | none ↦ rest
      | some obj ↦ elim (as_pod obj) [ none ↦ rest | some p ↦ p ∷ rest ]
    ]

module _ {S : SetOf Str} where
  abbrev pub new : WorkloadIndex S
  new = record { data_map = []; list_map = MapSet.new; ownership_map = MapSet.new }

  -- `for _, ownerRef := range v.OwnerReferences { ownershipMap.Add(ownerRef.UID, v.UID) }`
  unfoldable pub add_owners : MapSet Str S → List Str → Str → MapSet Str S
  add_owners om [] uid = om
  add_owners om (o ∷ os) uid = add_owners (MapSet.add om o uid) os uid

  unfoldable pub remove_owners : MapSet Str S → List Str → Str → MapSet Str S
  remove_owners om [] uid = om
  remove_owners om (o ∷ os) uid = remove_owners (MapSet.remove om o uid) os uid

  unfoldable pub add : WorkloadIndex S → Object → WorkloadIndex S × Option Str
  unfolding workload_of generate_data_key add_owners
  add wi obj = elim (workload_of obj) [
    | none ↦ (wi, not_implemented)
    | some (t, m) ↦ (
      record {
        data_map = insert m.uid obj wi.data_map;
        list_map = MapSet.add wi.list_map (generate_data_key m.namespace t) m.uid;
        ownership_map = add_owners wi.ownership_map m.owners m.uid;
      },
      none,
    )
  ]

  unfoldable pub update : WorkloadIndex S → Object → WorkloadIndex S × Option Str
  unfolding workload_of
  update wi obj = elim (workload_of obj) [
    | none ↦ (wi, not_implemented)
    | some (t, m) ↦ (record wi { data_map = insert m.uid obj wi.data_map }, none)
  ]

  unfoldable pub remove : WorkloadIndex S → Object → WorkloadIndex S × Option Str
  unfolding workload_of generate_data_key remove_owners
  remove wi obj = elim (workload_of obj) [
    | none ↦ (wi, not_implemented)
    | some (t, m) ↦ (
      record {
        data_map = delete m.uid wi.data_map;
        list_map = MapSet.remove wi.list_map (generate_data_key m.namespace t) m.uid;
        ownership_map = remove_owners wi.ownership_map m.owners m.uid;
      },
      none,
    )
  ]

  unfoldable pub get_workloads : WorkloadIndex S → Str → WorkloadType → Str → List ObjectMeta
  unfolding generate_data_key pick_workloads
  get_workloads wi namespace t name_filter =
      elim (MapSet.get wi.list_map (generate_data_key namespace t)) [
        | none ↦ []
        | some ids ↦ pick_workloads wi.data_map name_filter (S.to_slice ids)
      ]

  -- The recursion descends from owners to what they own. The first argument bounds its depth:
  -- `none` is a descent that is deeper.
  unfoldable pub get_leaf_ids : ℕ → MapSet Str S → Str → Option (List Str)
  unfolding collect
  get_leaf_ids zero om id = none
  get_leaf_ids (suc depth) om id = elim (MapSet.get om id) [
    | none ↦ some (id ∷ [])
    | some children ↦ collect (get_leaf_ids depth om) (S.to_slice children)
  ]

  unfoldable pub get_pods_owned_by_workload : ℕ → WorkloadIndex S → Str → Option (List Pod)
  unfolding get_leaf_ids pick_pods
  get_pods_owned_by_workload depth wi id = elim (get_leaf_ids depth wi.ownership_map id) [
    | none ↦ none
    | some ids ↦ some (pick_pods wi.data_map ids)
  ]
