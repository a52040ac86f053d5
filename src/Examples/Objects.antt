-- ===== src/Examples/Objects.antt =====
-- Runs of the index on a few objects.
use kubetail.Prelude.{
  ℕ, ◌<◌, String, ◌≡◌, refl, ◌↔◌, ◌⊎◌, inl, inr, true, none, some, [], ◌∷◌, arith, if◌then◌else◌,
  ◌==◌, nat_comparable, In, here, Str, str, same_str_iff, str_comparable,
}
use kubetail.Prelude.{lookup, insert, delete}
use kubetail.Collections.SetOf.{SetOf, list_set}
use kubetail.Collections.MapSet
use kubetail.Collections.MapSet.{
  MapSet, contains_one, contains_one-add, contains_one-remove, contains_one-append,
}
use kubetail.Logs.Objects.{ObjectMeta, Object}
use kubetail.Logs.WorkloadType.{WorkloadType, to_string}
use kubetail.Logs.Index
use kubetail.Logs.Index.{
  WorkloadIndex, workload_of, as_workload, generate_data_key, get_workloads, pick_workloads,
  get_leaf_ids, collect, add_owners, remove_owners, as_pod, pick_pods,
}
use kubetail.Logs.Index.Ownership.{Reaches, HasNoEntry, get_leaf_ids_exact, get_leaf_ids_cycle}
use kubetail.Logs.Index.Invariant.{
  IsIndexed, SameHome, new-IsIndexed, add-IsIndexed, stored-SameHome, new-SameHome,
}
use kubetail.Logs.Index.Results.{added, change, change-IsIndexed, get_workloads_sound}

abbrev uids : SetOf Str
uids = list_set

abbrev deployment_named : String → ObjectMeta
deployment_named name = record {
  uid = str name;
  namespace = str "default";
  name = str name;
  owners = [];
}

abbrev web : ObjectMeta
web = deployment_named "web"

abbrev api : ObjectMeta
api = deployment_named "api"

abbrev empty_index : WorkloadIndex uids
empty_index = Index.new

abbrev one_index : WorkloadIndex uids
one_index = (Index.add empty_index (Object.deployment web)).0

abbrev two_index : WorkloadIndex uids
two_index = (Index.add one_index (Object.deployment api)).0

empty-SameHome : SameHome empty_index (Object.deployment web)
unfolding workload_of lookup
empty-SameHome =
    new-SameHome empty_index (Object.deployment web) WorkloadType.deployment web refl refl

one-IsIndexed : IsIndexed one_index
one-IsIndexed = add-IsIndexed empty_index (Object.deployment web) empty-SameHome new-IsIndexed

one-SameHome : SameHome one_index (Object.deployment api)
unfolding workload_of lookup insert delete Index.add
one-SameHome = new-SameHome one_index (Object.deployment api) WorkloadType.deployment api refl refl

two-IsIndexed : IsIndexed two_index
two-IsIndexed = add-IsIndexed one_index (Object.deployment api) one-SameHome one-IsIndexed

two-SameHome : SameHome two_index (Object.deployment web)
unfolding workload_of lookup insert delete Index.add
two-SameHome =
    stored-SameHome two_index (Object.deployment web) WorkloadType.deployment web refl refl

change-IsIndexed_example : IsIndexed (change empty_index (added (Object.deployment web)))
change-IsIndexed_example =
    change-IsIndexed empty_index (added (Object.deployment web)) empty-SameHome new-IsIndexed

listed_web : In web (get_workloads two_index (str "default") WorkloadType.deployment (str "web"))
unfolding workload_of lookup insert delete Index.add MapSet.add MapSet.get get_workloads
    pick_workloads as_workload generate_data_key to_string add_owners
listed_web = here

get_workloads_sound_example :
    (web.namespace ≡ str "default")
    × ((obj : Object) × (lookup web.uid two_index.data_map ≡ some obj)
        × (workload_of obj ≡ some (WorkloadType.deployment, web)))
    × ((str "web" ≡ str "*") ⊎ (web.name ≡ str "web"))
get_workloads_sound_example =
    get_workloads_sound two_index (str "default") WorkloadType.deployment (str "web") web
      two-IsIndexed listed_web

listed_api : In api (
    get_workloads
      (Index.remove two_index (Object.deployment web)).0
      (str "default")
      WorkloadType.deployment
      (str "*"))
unfolding workload_of lookup insert delete Index.add Index.remove MapSet.add MapSet.remove
    MapSet.get get_workloads pick_workloads as_workload generate_data_key to_string add_owners
    remove_owners
listed_api = here

-- One object owns another.
abbrev owned : MapSet Str uids
owned = MapSet.add MapSet.new (str "d") (str "p")

leaves_of_d : get_leaf_ids 2 owned (str "d") ≡ some (str "p" ∷ [])
unfolding get_leaf_ids collect lookup insert delete MapSet.add MapSet.get
leaves_of_d = refl

get_leaf_ids_exact_example :
    In (str "p") (str "p" ∷ []) ↔ (Reaches owned (str "d") (str "p") × HasNoEntry owned (str "p"))
get_leaf_ids_exact_example =
    get_leaf_ids_exact owned 2 (str "d") (str "p" ∷ []) (str "p") leaves_of_d

abbrev rank : Str → ℕ
rank s = if s == str "d" then 1 else 0

owned-rank : (a b : Str) → contains_one owned a b ≡ true → rank b < rank a
unfolding lookup insert delete MapSet.add contains_one
owned-rank a b h = ground (
  arith,
  contains_one-add (MapSet.new {S = uids}) (str "d") a (str "p") b,
  same_str_iff (str "d") a,
  same_str_iff (str "p") b,
)

-- Two objects that own each other.
abbrev cyclic : MapSet Str uids
cyclic = MapSet.add (MapSet.add MapSet.new (str "a") (str "b")) (str "b") (str "a")

abbrev OnCycle : Str → Type 0
OnCycle s = (s ≡ str "a") ⊎ (s ≡ str "b")

next-OnCycle : (s : Str) → OnCycle s → (t : Str) × (contains_one cyclic s t ≡ true) × OnCycle t
unfolding lookup insert delete MapSet.add contains_one
next-OnCycle s (inl e) = (str "b", rw e refl, inr refl)
next-OnCycle s (inr e) = (str "a", rw e refl, inl refl)

get_leaf_ids_cycle_example : get_leaf_ids 9 cyclic (str "a") ≡ none
get_leaf_ids_cycle_example = get_leaf_ids_cycle cyclic OnCycle next-OnCycle 9 (str "a") (inl refl)
