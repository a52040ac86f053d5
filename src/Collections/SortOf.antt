-- ===== src/Collections/SortOf.antt =====
-- Go's sort.Slice under a `less`, which is not part of the repository: what it gives has the same
-- elements, and none that is less than one before it. The order of elements that `less` does not
-- tell apart is left open.
pub mod ListSort
use kubetail.Prelude.{
  ℕ, zero, suc, ◌+◌, ◌-◌, ◌*◌, ◌≤◌, ◌<◌, min, max, String, ◌≡◌, refl, sym, ap, ◌∙◌, subst, ◌≢◌, ◌↔◌,
  ◌⊎◌, inl, inr, Bool, true, false, not, ◌&&◌, ◌||◌, Option, none, some, List, [], ◌∷◌, ◌++◌, map,
  reverse, arith, ltb, leb, eqb, if◌then◌else◌, eqb_iff, Bool-cases, Option-cases, bool_ext,
  Comparable, ◌==◌, nat_comparable, same_refl, same→eq, length, take, drop, keep, keep-append,
  All-append, All-reverse, In, All, All-In, here, there, length-append, elem, distinct, elem-append,
  elem→In, In→elem, In-nil, In-append, In-append_left, In-append_right, In-singleton, In-cases, Str,
  str, same_str, same_str_iff, str_comparable, Map, lookup-delete, lookup-insert, Result, ok, err,
  ◌>>=◌, >>=-eq-ok, Result-cases,
}
use mathlib.Core.List.{Perm}

unfoldable pub IsSortedBy : {A : Type 0} → (A → A → Bool) → List A → Type 0
IsSortedBy less [] = Unit
IsSortedBy less (x ∷ xs) = All (λ y. less y x ≡ false) xs × IsSortedBy less xs

pub record SortOf (A : Type 0) (less : A → A → Bool) : Type 0 where
  pub sort : List A → List A
  pub sort-Perm : (l : List A) → Perm (sort l) l
  pub sort-IsSortedBy : (l : List A) → IsSortedBy less (sort l)
