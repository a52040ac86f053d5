-- ===== src/Collections/SyncMap.antt =====
-- modules/shared/util/syncmap.go, with sync.Map as a map. A missing key is `none`.
use kubetail.Prelude.{
  Bool, true, false, Option, none, some, [], ◌∷◌, if◌then◌else◌, Comparable, ◌==◌, nat_comparable,
  str_comparable, Map,
}
use kubetail.Prelude.{lookup, insert, delete}

module _ {K V : Type 0} ⦃c : Comparable K⦄ where
  unfoldable pub load : Map K V → K → Option V
  load m key = lookup key m

  unfoldable pub store : Map K V → K → V → Map K V
  store m key value = insert key value m

  -- The value and whether it was there.
  unfoldable pub load_or_store : Map K V → K → V → Map K V × V × Bool
  unfolding load store
  load_or_store m key value = elim (load m key) [
    | some v ↦ (m, v, true)
    | none ↦ (store m key value, value, false)
  ]

  unfoldable pub load_and_delete : Map K V → K → Map K V × Option V
  unfolding load
  load_and_delete m key = (delete key m, load m key)

  unfoldable pub swap : Map K V → K → V → Map K V × Option V
  unfolding load store
  swap m key value = (store m key value, load m key)

  unfoldable pub compare_and_swap : ⦃d : Comparable V⦄ → Map K V → K → V → V → Map K V × Bool
  unfolding load store
  compare_and_swap m key old new = elim (load m key) [
    | none ↦ (m, false)
    | some v ↦ if v == old then (store m key new, true) else (m, false)
  ]

  -- `Range`, for a function that changes a state and says whether to go on.
  unfoldable pub range : {S : Type 0} → (K → V → S → S × Bool) → Map K V → S → S
  range f [] s = s
  range f ((k, v) ∷ m) s =
      let (s', more) = f k v s in let rest = range f m s' in if more then rest else s'
