-- ===== src/Collections/SyncGroup.antt =====
-- modules/shared/util/syncgroup.go under concurrent calls. Each goroutine that calls `LoadOrCompute`
-- goes from phase to phase, one access of the shared state at a time; `act` is its next access.
pub mod Memo
pub mod Progress
use kubetail.Prelude.{
  ℕ, zero, suc, ◌+◌, ◌-◌, ◌*◌, ◌≤◌, ◌<◌, min, max, String, ◌≡◌, refl, sym, ap, ◌∙◌, subst, ◌≢◌, ◌↔◌,
  ◌⊎◌, inl, inr, Bool, true, false, not, ◌&&◌, ◌||◌, Option, none, some, List, [], ◌∷◌, ◌++◌, map,
  reverse, arith, ltb, leb, eqb, if◌then◌else◌, eqb_iff, Bool-cases, Option-cases, bool_ext,
  Comparable, ◌==◌, nat_comparable, same_refl, same→eq, length, take, drop, keep, keep-append,
  All-append, All-reverse, In, All, All-In, here, there, length-append, elem, distinct, elem-append,
  elem→In, In→elem, In-nil, In-append, In-append_left, In-append_right, In-singleton, In-cases, Str,
  str, same_str, same_str_iff, str_comparable, Map, lookup-delete, lookup-insert, Result, ok, err,
  ◌>>=◌, >>=-eq-ok, Result-cases,
}
use kubetail.Prelude.{lookup, insert, delete}
use kubetail.Collections.SyncMap.{load, store, load_or_store}

-- Where a call stands. A mutex is known by its number.
pub data Phase (V : Type 0) : Type 0 where
  -- Before `muMap.LoadOrStore`.
  start : Phase V
  -- Before `mu.Lock`.
  waiting : ℕ → Phase V
  -- Before `m.Load`, with the mutex.
  locked : ℕ → Phase V
  -- In `compute`, with the mutex.
  computing : ℕ → Phase V
  -- The value or the error, and whether the value was there.
  returned : Result V → Bool → Phase V

-- The group, the goroutines that hold its mutexes, the number of the next mutex, and the calls.
pub record Group (K V : Type 0) : Type 0 where
  pub m : Map K V
  pub mu_map : Map K ℕ
  pub holder : Map ℕ ℕ
  pub next : ℕ
  pub phase : ℕ → Phase V

abbrev pub set_phase : {V : Type 0} → ℕ → Phase V → (ℕ → Phase V) → ℕ → Phase V
set_phase t p f u = if eqb t u then p else f u

unfoldable pub new_group : {K V : Type 0} → Group K V
new_group = record { m = []; mu_map = []; holder = []; next = 0; phase = λ t. start }

-- The key that each goroutine asks for.
module _ {K V : Type 0} ⦃c : Comparable K⦄ (key : ℕ → K) where
  unfoldable pub enter : ℕ → Group K V → Group K V
  unfolding load_or_store
  enter t s =
      let (mus, mu, loaded) = load_or_store s.mu_map (key t) s.next in
      record {
        m = s.m;
        mu_map = mus;
        holder = s.holder;
        next = if loaded then s.next else suc s.next;
        phase = set_phase t (waiting mu) s.phase;
      }

  -- A goroutine that finds the mutex taken stays where it is.
  unfoldable pub lock : ℕ → ℕ → Group K V → Group K V
  lock t mu s = elim (lookup mu s.holder) [
    | some _ ↦ s
    | none ↦ record s { holder = insert mu t s.holder; phase = set_phase t (locked mu) s.phase }
  ]

  abbrev pub finish : ℕ → ℕ → Result V → Bool → Group K V → Group K V
  finish t mu r loaded s = record s {
    holder = delete mu s.holder;
    phase = set_phase t (returned r loaded) s.phase;
  }

  unfoldable pub check_value : ℕ → ℕ → Group K V → Group K V
  unfolding load
  check_value t mu s = elim (load s.m (key t)) [
    | some v ↦ finish t mu (ok v) true s
    | none ↦ record s { phase = set_phase t (computing mu) s.phase }
  ]

  unfoldable pub keep_value : ℕ → ℕ → Result V → Group K V → Group K V
  unfolding store
  keep_value t mu (err e) s = finish t mu (err e) false s
  keep_value t mu (ok v) s = finish t mu (ok v) false (record s { m = store s.m (key t) v })

  -- The next access of a goroutine. The result is that of `compute`, where it is in it.
  unfoldable pub act_in : Phase V → ℕ → Result V → Group K V → Group K V
  unfolding enter lock check_value keep_value
  act_in start t r s = enter t s
  act_in (waiting mu) t r s = lock t mu s
  act_in (locked mu) t r s = check_value t mu s
  act_in (computing mu) t r s = keep_value t mu r s
  act_in (returned _ _) t r s = s

  abbrev pub act : ℕ → Result V → Group K V → Group K V
  act t r s = act_in (s.phase t) t r s

  -- The accesses in the order in which they happen.
  unfoldable pub run : List (ℕ × Result V) → Group K V → Group K V
  unfolding act_in
  run [] s = s
  run ((t, r) ∷ rest) s = run rest (act t r s)

-- `LoadOrComputeWithContext`: the error of the context at the call, and then what comes first, the end
-- of the context or the result of `LoadOrCompute`. The goroutine that computes goes on in any case.
unfoldable pub load_or_compute_with_context :
    {V : Type 0} → Option Str → Str ⊎ (Result V × Bool) → Result V × Bool
load_or_compute_with_context (some e) _ = (err e, false)
load_or_compute_with_context none (inl e) = (err e, false)
load_or_compute_with_context none (inr r) = r
