-- ===== src/Collections/ThreadSafeSlice.antt =====
-- `ThreadSafeSlice` of modules/shared/logs/util.go: a slice behind a lock. Each method holds the
-- lock from start to end, so a concurrent run is a sequence of these calls.
use kubetail.Prelude.{
  ℕ, suc, ◌+◌, ◌≡◌, refl, Bool, if◌then◌else◌, List, [], ◌∷◌, ◌++◌, length, length-append, arith,
}

pub record ThreadSafeSlice (T : Type 0) : Type 0 where
  pub slice : List T

module _ {T : Type 0} where
  abbrev pub new : ThreadSafeSlice T
  new = record { slice = [] }

  unfoldable pub add : ThreadSafeSlice T → T → ThreadSafeSlice T
  add ts item = record { slice = ts.slice ++ item ∷ [] }

  unfoldable pub to_slice : ThreadSafeSlice T → List T
  to_slice ts = ts.slice

  unfoldable pub len : ThreadSafeSlice T → ℕ
  len ts = length ts.slice

  -- Adding makes the slice one longer and puts the item behind all others.
  pub to_slice-add :
      (ts : ThreadSafeSlice T) (item : T)
      → (to_slice (add ts item) ≡ to_slice ts ++ item ∷ []) × (len (add ts item) ≡ len ts + 1)
  unfolding to_slice add len
  to_slice-add ts item = (refl, omega (arith, length-append ts.slice (item ∷ [])))

module _ {T S : Type 0} where
  -- The loop of `Range`: `fn` sees the index and the element, and says whether to go on. What it
  -- does to the state around it is threaded.
  range_from : (ℕ → T → S → Bool × S) → ℕ → List T → S → S
  range_from fn i [] s = s
  range_from fn i (v ∷ vs) s =
      let (more, s') = fn i v s in
      let rest = range_from fn (suc i) vs s' in if more then rest else s'

  unfoldable pub range : ThreadSafeSlice T → (ℕ → T → S → Bool × S) → S → S
  unfolding range_from
  range ts fn s = range_from fn 0 ts.slice s
