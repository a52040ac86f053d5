-- ===== src/Collections/MapSet.antt =====
-- `MapSet` of modules/shared/logs/util.go: a map from keys to sets. A set that is in the map is
-- changed in place there; no caller keeps one across a change, so values stand for references.
use kubetail.Prelude.{
  ◌≡◌, ◌↔◌, inl, inr, Bool, false, not, ◌&&◌, ◌||◌, ◌==◌, if◌then◌else◌, List, [], ◌∷◌, Option,
  none, some, Comparable, Map, lookup, insert, lookup-insert, elem, arith, Option-cases,
}
use kubetail.Collections.SetOf.{SetOf, add_all, contains-add_all}

pub record MapSet (K : Type 0) {T : Type 0} ⦃c : Comparable T⦄ (S : SetOf T) : Type 0 where
  pub entries : Map K S.Set

-- `Each` of the set, for a function that changes a state and says whether to stop.
unfoldable pub each_of : {A T : Type 0} → (T → A → A × Bool) → List T → A → A
each_of fn [] a = a
each_of fn (x ∷ xs) a =
    let (a', stop) = fn x a in let rest = each_of fn xs a' in if stop then a' else rest

module _ {K T : Type 0} ⦃k : Comparable K⦄ ⦃c : Comparable T⦄ {S : SetOf T} where
  abbrev pub new : MapSet K S
  new = record { entries = [] }

  -- The set at a key, after `Add` and `Append` have made an empty one where there was none.
  abbrev set_at : MapSet K S → K → S.Set
  set_at ms key = elim (lookup key ms.entries) [ none ↦ S.empty | some s ↦ s ]

  unfoldable pub add : MapSet K S → K → T → MapSet K S
  add ms key value = record { entries = insert key (S.add (set_at ms key) value) ms.entries }

  unfoldable pub remove : MapSet K S → K → T → MapSet K S
  remove ms key value = elim (lookup key ms.entries) [
    | none ↦ ms
    | some s ↦ record { entries = insert key (S.remove s value) ms.entries }
  ]

  unfoldable pub append : MapSet K S → K → List T → MapSet K S
  append ms key values = record {
    entries = insert key (add_all S (set_at ms key) values) ms.entries;
  }

  unfoldable pub get : MapSet K S → K → Option S.Set
  get ms key = lookup key ms.entries

  unfoldable pub contains_one : MapSet K S → K → T → Bool
  contains_one ms key value = elim (lookup key ms.entries) [
    | none ↦ false
    | some s ↦ S.contains s value
  ]

  -- `Each`
  unfoldable pub each : {A : Type 0} → MapSet K S → K → (T → A → A × Bool) → A → A
  unfolding each_of
  each ms key fn a = elim (lookup key ms.entries) [
    | none ↦ a
    | some s ↦ each_of fn (S.to_slice s) a
  ]

  -- The values that a key has after one is added: those before, and the new one.
  pub contains_one-add :
      (ms : MapSet K S) (key key' : K) (value value' : T)
      → contains_one (add ms key value) key' value'
        ≡ ((key == key') && (value == value')) || contains_one ms key' value'
  unfolding contains_one add
  contains_one-add ms key key' value value' = ground (
    arith,
    lookup-insert key key' (S.add (set_at ms key) value) ms.entries,
    S.contains-add (set_at ms key) value value',
    S.contains-empty value',
    k.same_iff key key',
  )

  -- After a removal a key has the values from before, less the removed one.
  pub contains_one-remove :
      (ms : MapSet K S) (key key' : K) (value value' : T)
      → contains_one (remove ms key value) key' value'
        ≡ not ((key == key') && (value == value')) && contains_one ms key' value'
  unfolding contains_one remove
  contains_one-remove ms key key' value value' = elim (Option-cases (lookup key ms.entries)) [
    | inl e ↦ rw (e, remove) (ground (arith, k.same_iff key key'))
    | inr (s, e) ↦
        rw (e, remove)
          (ground (
            arith,
            lookup-insert key key' (S.remove s value) ms.entries,
            S.contains-remove s value value',
            k.same_iff key key',
          ))
  ]

  -- Appending a list is adding each of its values.
  pub contains_one-append :
      (ms : MapSet K S) (key key' : K) (values : List T) (value' : T)
      → contains_one (append ms key values) key' value'
        ≡ ((key == key') && elem value' values) || contains_one ms key' value'
  unfolding contains_one append
  contains_one-append ms key key' values value' = ground (
    arith,
    lookup-insert key key' (add_all S (set_at ms key) values) ms.entries,
    contains-add_all S (set_at ms key) values value',
    S.contains-empty value',
    k.same_iff key key',
  )

  -- A key that has a value is in the map.
  pub get-add :
      (ms : MapSet K S) (key key' : K) (value : T)
      → get (add ms key value) key'
        ≡ (if key == key' then some (S.add (set_at ms key) value) else get ms key')
  unfolding get add
  get-add ms key key' value = lookup-insert key key' (S.add (set_at ms key) value) ms.entries

  pub contains_one-get :
      (ms : MapSet K S) (key : K) (value : T) (s : S.Set)
      → get ms key ≡ some s
      → contains_one ms key value ≡ S.contains s value
  unfolding get contains_one
  contains_one-get ms key value s h = rw (h, contains_one)

  pub contains_one-get-none :
      (ms : MapSet K S) (key : K) (value : T)
      → get ms key ≡ none
      → contains_one ms key value ≡ false
  unfolding get contains_one
  contains_one-get-none ms key value h = rw (h, contains_one)

  -- No operation takes a key out of the map.
  pub get-remove_none :
      (ms : MapSet K S) (key key' : K) (value : T)
      → (get (remove ms key value) key' ≡ none) ↔ (get ms key' ≡ none)
  unfolding get remove
  get-remove_none ms key key' value = elim (Option-cases (lookup key ms.entries)) [
    | inl e ↦ rw (e, remove) ((λ h. h), (λ h. h))
    | inr (s, e) ↦
        rw (e, remove)
          (ground
            (arith, lookup-insert key key' (S.remove s value) ms.entries, k.same_iff key key'))
  ]
