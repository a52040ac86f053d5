-- ===== src/Logs/Index/Results.antt =====
-- What the callers of the index rely on.
use kubetail.Prelude.{
  ◌≡◌, ◌≢◌, some, arith, nat_comparable, same_refl, In, Str, same_str_iff, str_comparable,
}
use kubetail.Prelude.{lookup, lookup-insert, lookup-delete}
use kubetail.Collections.SetOf.{SetOf}
use kubetail.Collections.MapSet.{contains_one-add}
use kubetail.Logs.WorkloadType.{WorkloadType}
use kubetail.Logs.Objects.{ObjectMeta, Object}
use kubetail.Logs.Index.{
  WorkloadIndex, workload_of, as_workload, generate_data_key, get_workloads, add, remove, update,
}
use kubetail.Logs.Index.Lookup.{Matches, get_workloads_exact, generate_data_key-injective}
use kubetail.Logs.Index.Invariant.{
  IsIndexed, SameHome, add-IsIndexed, update-IsIndexed, remove-IsIndexed,
}

workload_of-as_workload :
    (obj : Object) (t : WorkloadType) (m : ObjectMeta)
    → workload_of obj ≡ some (t, m)
    → as_workload obj ≡ some m
unfolding workload_of as_workload
workload_of-as_workload (Object.node n) t m e = absurd (cc)
workload_of-as_workload Object.other t m e = absurd (cc)
workload_of-as_workload _ t m e = cc

-- A call of one of the three methods that change the index.
pub data Change : Type 0 where
  added updated removed : Object → Change

abbrev pub object_of : Change → Object
object_of (added obj) = obj
object_of (updated obj) = obj
object_of (removed obj) = obj

module _ {S : SetOf Str} where
  unfoldable pub change : WorkloadIndex S → Change → WorkloadIndex S
  change wi (added obj) = (add wi obj).0
  change wi (updated obj) = (update wi obj).0
  change wi (removed obj) = (remove wi obj).0

  -- Each change of the index, also one with an object of no known kind, keeps every listed UID
  -- stored under its own namespace and type, if no UID changes its kind.
  pub change-IsIndexed :
      (wi : WorkloadIndex S) (c : Change)
      → SameHome wi (object_of c)
      → IsIndexed wi
      → IsIndexed (change wi c)
  unfolding change
  change-IsIndexed wi (added obj) same inv = add-IsIndexed wi obj same inv
  change-IsIndexed wi (updated obj) same inv = update-IsIndexed wi obj same inv
  change-IsIndexed wi (removed obj) same inv = remove-IsIndexed wi obj same inv

  -- In an index in which what is listed is stored, every workload that a lookup returns is stored
  -- under its UID, and has the namespace, the type and the name that were asked for.
  pub get_workloads_sound :
      (wi : WorkloadIndex S) (ns : Str) (t : WorkloadType) (f : Str) (m : ObjectMeta)
      → IsIndexed wi
      → In m (get_workloads wi ns t f)
      → (m.namespace ≡ ns)
        × ((obj : Object) × (lookup m.uid wi.data_map ≡ some obj) × (workload_of obj ≡ some (t, m)))
        × Matches f m
  get_workloads_sound wi ns t f m inv i =
      let (id, obj, c, p, q, r) = (get_workloads_exact wi ns t f m).0 i in
      let (obj', p', home) = inv.listed (generate_data_key ns t) id c in
      let same : obj' ≡ obj = ground arith in
      let meta : home.meta ≡ m =
        ground (arith, workload_of-as_workload obj' home.type home.meta home.is_workload, same) in
      let keys = generate_data_key-injective home.meta.namespace ns home.type t home.has_key in
      (
        ground (arith, keys.0, meta),
        (
          obj,
          ground (arith, home.has_uid, meta),
          ground (arith, home.is_workload, keys.1, meta, same),
        ),
        r,
      )

  -- An added workload is found under its namespace, type and name, and under the wildcard.
  pub get_workloads-add :
      (wi : WorkloadIndex S) (obj : Object) (t : WorkloadType) (m : ObjectMeta) (f : Str)
      → workload_of obj ≡ some (t, m)
      → Matches f m
      → In m (get_workloads (add wi obj).0 m.namespace t f)
  get_workloads-add wi obj t m f e r = (get_workloads_exact (add wi obj).0 m.namespace t f m).1 (
    m.uid,
    obj,
    unfold add in
        rw (e, add)
          (ground (
            arith,
            contains_one-add wi.list_map (generate_data_key m.namespace t)
                (generate_data_key m.namespace t) m.uid m.uid,
            same_refl m.uid,
            same_refl (generate_data_key m.namespace t),
          )),
    unfold add in rw (e, add) (rw (lookup-insert m.uid m.uid obj wi.data_map, same_refl m.uid)),
    workload_of-as_workload obj t m e,
    r,
  )

  gone_from :
      (wi : WorkloadIndex S) (obj obj' : Object) (t : WorkloadType) (m : ObjectMeta) (id : Str)
      → workload_of obj ≡ some (t, m)
      → id ≡ m.uid
      → lookup id (remove wi obj).0.data_map ≡ some obj'
      → ⊥
  unfolding remove
  gone_from wi obj obj' t m id e uid p =
      ground (arith, e, lookup-delete m.uid id wi.data_map, same_str_iff m.uid id)

  -- From an index in which what is listed is stored, a removed workload that has the namespace and
  -- type of what is stored under its UID is found no more, under no namespace, type or name.
  pub get_workloads-remove :
      (wi : WorkloadIndex S) (obj : Object) (t : WorkloadType) (m : ObjectMeta) (ns : Str)
      (t' : WorkloadType) (f : Str) (m' : ObjectMeta)
      → IsIndexed wi
      → SameHome wi obj
      → workload_of obj ≡ some (t, m)
      → In m' (get_workloads (remove wi obj).0 ns t' f)
      → m'.uid ≢ m.uid
  get_workloads-remove wi obj t m ns t' f m' inv same e i uid =
      let (_, (obj', p, q), _) =
        get_workloads_sound (remove wi obj).0 ns t' f m' (remove-IsIndexed wi obj same inv) i in
      gone_from wi obj obj' t m m'.uid e uid p
