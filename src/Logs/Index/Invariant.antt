-- ===== src/Logs/Index/Invariant.antt =====
-- The invariant of the index: what is listed under a namespace and type is stored, with that
-- namespace and type; its premise is that a UID stands for one object.
use kubetail.Prelude.{
  ◌≡◌, refl, subst, none, inl, inr, true, ◌&&◌, some, arith, Bool-cases, Option-cases, ◌==◌,
  nat_comparable, same→eq, Str, same_str_iff, str_comparable,
}
use kubetail.Prelude.{lookup, insert, lookup-insert, lookup-delete}
use kubetail.Collections.SetOf.{SetOf}
use kubetail.Collections.MapSet.{contains_one, contains_one-add, contains_one-remove}
use kubetail.Logs.WorkloadType.{WorkloadType}
use kubetail.Logs.Objects.{ObjectMeta, Object}
use kubetail.Logs.Index.{WorkloadIndex, workload_of, generate_data_key, add, remove, update, new}

-- The object has this UID, and its namespace and type make this key.
pub record HasHome (obj : Object) (id key : Str) : Type 0 where
  pub type : WorkloadType
  pub meta : ObjectMeta
  pub is_workload : workload_of obj ≡ some (type, meta)
  pub has_uid : meta.uid ≡ id
  pub has_key : generate_data_key meta.namespace type ≡ key

HasHome-unique :
    (obj : Object) (id key id' key' : Str)
    → HasHome obj id key
    → HasHome obj id' key'
    → (id ≡ id') × (key ≡ key')
HasHome-unique obj id key id' key' h h' =
    ground (arith, h.is_workload, h'.is_workload, h.has_uid, h'.has_uid, h.has_key, h'.has_key)

module _ {S : SetOf Str} where
  pub record IsIndexed (wi : WorkloadIndex S) : Type 0 where
    pub listed :
        (key id : Str)
        → contains_one wi.list_map key id ≡ true
        → (obj : Object) × (lookup id wi.data_map ≡ some obj) × HasHome obj id key

  -- The index holds no other kind of object under this UID.
  abbrev pub SameHome : WorkloadIndex S → Object → Type 0
  SameHome wi obj =
      (old : Object) (id key : Str)
      → HasHome obj id key
      → lookup id wi.data_map ≡ some old
      → HasHome old id key

  pub new-IsIndexed : IsIndexed (new {S = S})
  unfolding contains_one lookup
  new-IsIndexed = record { listed = λ key id h. absurd (cc) }

  -- Storing an object under its UID keeps what is listed.
  stored :
      (wi : WorkloadIndex S) (obj : Object) (t : WorkloadType) (m : ObjectMeta)
      → workload_of obj ≡ some (t, m)
      → SameHome wi obj
      → (key id : Str) (old : Object) → lookup id wi.data_map ≡ some old
      → HasHome old id key
      → (new : Object) × (lookup id (insert m.uid obj wi.data_map) ≡ some new) × HasHome new id key
  stored wi obj t m e same key id old p home = elim (Bool-cases (m.uid == id)) [
    | inl hit ↦
        let uid : m.uid ≡ id = same→eq m.uid id hit in
        let at_home : HasHome obj id (generate_data_key m.namespace t) = record {
          type = t;
          meta = m;
          is_workload = e;
          has_uid = uid;
          has_key = refl;
        } in
        let key' =
          HasHome-unique old id (generate_data_key m.namespace t) id key
            (same old id (generate_data_key m.namespace t) at_home p) home in
        (
          obj,
          rw (lookup-insert m.uid id obj wi.data_map, hit) refl,
          record { type = t; meta = m; is_workload = e; has_uid = uid; has_key = key'.1 },
        )
    | inr miss ↦ (old, rw (lookup-insert m.uid id obj wi.data_map, miss) p, home)
  ]

  -- `Add`, `Update` and `Remove` keep the invariant, whether they take the object or refuse it.
  pub add-IsIndexed :
      (wi : WorkloadIndex S) (obj : Object)
      → SameHome wi obj
      → IsIndexed wi
      → IsIndexed (add wi obj).0
  unfolding add
  add-IsIndexed wi obj same inv = elim (Option-cases (workload_of obj)) [
    | inl e ↦ rw (e, add) inv
    | inr ((t, m), e) ↦
        rw (e, add)
          (record {
            listed = λ key id h.
                elim (Bool-cases ((generate_data_key m.namespace t == key) && (m.uid == id))) [
                  | inl new ↦
                      let uid : m.uid ≡ id = same→eq m.uid id (ground arith) in
                      let key' : generate_data_key m.namespace t ≡ key =
                        same→eq _ key (ground arith) in
                      (
                        obj,
                        rw (lookup-insert m.uid id obj wi.data_map, (same_str_iff m.uid id).1 uid)
                            refl,
                        record {
                          type = t;
                          meta = m;
                          is_workload = e;
                          has_uid = uid;
                          has_key = key';
                        },
                      )
                  | inr old ↦
                      let (o, p, home) = inv.listed key id (
                        ground (
                          arith,
                          contains_one-add wi.list_map (generate_data_key m.namespace t) key m.uid
                              id,
                        )) in
                      stored wi obj t m e same key id o p home
                ];
          })
  ]

  pub update-IsIndexed :
      (wi : WorkloadIndex S) (obj : Object)
      → SameHome wi obj
      → IsIndexed wi
      → IsIndexed (update wi obj).0
  unfolding update
  update-IsIndexed wi obj same inv = elim (Option-cases (workload_of obj)) [
    | inl e ↦ rw (e, update) inv
    | inr ((t, m), e) ↦
        rw (e, update)
          (record {
            listed = λ key id h.
                let (o, p, home) = inv.listed key id h in stored wi obj t m e same key id o p home;
          })
  ]

  pub remove-IsIndexed :
      (wi : WorkloadIndex S) (obj : Object)
      → SameHome wi obj
      → IsIndexed wi
      → IsIndexed (remove wi obj).0
  unfolding remove
  remove-IsIndexed wi obj same inv = elim (Option-cases (workload_of obj)) [
    | inl e ↦ rw (e, remove) inv
    | inr ((t, m), e) ↦
        rw (e, remove)
          (record {
            listed = λ key id h.
                let gone =
                  contains_one-remove wi.list_map (generate_data_key m.namespace t) key m.uid id in
                let (o, p, home) = inv.listed key id (ground (arith, gone)) in
                elim (Bool-cases (m.uid == id)) [
                  | inl hit ↦
                      let uid : m.uid ≡ id = same→eq m.uid id hit in
                      let at_home : HasHome obj id (generate_data_key m.namespace t) = record {
                        type = t;
                        meta = m;
                        is_workload = e;
                        has_uid = uid;
                        has_key = refl;
                      } in
                      let key' : generate_data_key m.namespace t ≡ key =
                        (HasHome-unique o id (generate_data_key m.namespace t) id key
                          (same o id (generate_data_key m.namespace t) at_home p) home).1 in
                      absurd
                        (ground (arith, gone, same_str_iff (generate_data_key m.namespace t) key))
                  | inr miss ↦ (o, rw (lookup-delete m.uid id wi.data_map, miss) p, home)
                ];
          })
  ]

  -- The object that is stored under its UID is of its own kind.
  pub stored-SameHome :
      (wi : WorkloadIndex S) (obj : Object) (t : WorkloadType) (m : ObjectMeta)
      → workload_of obj ≡ some (t, m)
      → lookup m.uid wi.data_map ≡ some obj
      → SameHome wi obj
  stored-SameHome wi obj t m e l old id key h k =
      let uid : m.uid ≡ id = ground (arith, h.is_workload, h.has_uid) in
      let same : obj ≡ old = ground arith in subst (λ o. HasHome o id key) same h

  -- Nothing is stored under a UID that is new.
  pub new-SameHome :
      (wi : WorkloadIndex S) (obj : Object) (t : WorkloadType) (m : ObjectMeta)
      → workload_of obj ≡ some (t, m)
      → lookup m.uid wi.data_map ≡ none
      → SameHome wi obj
  new-SameHome wi obj t m e l old id key h k =
      let uid : m.uid ≡ id = ground (arith, h.is_workload, h.has_uid) in absurd (ground arith)
