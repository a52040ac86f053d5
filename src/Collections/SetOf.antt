-- ===== src/Collections/SetOf.antt =====
-- The sets of github.com/deckarep/golang-set, which is not part of the repository: a type, the
-- operations that the program calls, and their documented behaviour. The order in which a set is
-- walked (`ToSlice`, `Each`) is the library's choice; the laws say only which elements are met.
use kubetail.Prelude.{
  ◌≡◌, refl, Bool, true, false, not, ◌&&◌, ◌||◌, ◌==◌, if◌then◌else◌, List, [], ◌∷◌, Comparable,
  elem, distinct, keep, arith,
}

pub record SetOf (A : Type 0) ⦃c : Comparable A⦄ : Type 1 where
  pub Set : Type 0
  -- NewSet, Add, Remove, ContainsOne, Difference, ToSlice
  pub empty : Set
  pub add : Set → A → Set
  pub remove : Set → A → Set
  pub contains : Set → A → Bool
  pub difference : Set → Set → Set
  pub to_slice : Set → List A
  pub contains-empty : (a : A) → contains empty a ≡ false
  pub contains-add : (s : Set) (a b : A) → contains (add s a) b ≡ (a == b) || contains s b
  pub contains-remove : (s : Set) (a b : A) → contains (remove s a) b ≡ not (a == b) && contains s b
  pub contains-difference :
      (s t : Set) (a : A) → contains (difference s t) a ≡ contains s a && not (contains t a)
  pub elem-to_slice : (s : Set) (a : A) → elem a (to_slice s) ≡ contains s a
  pub distinct-to_slice : (s : Set) → distinct (to_slice s) ≡ true

module _ {A : Type 0} ⦃c : Comparable A⦄ (S : SetOf A) where
  -- Append of the set library: add every value of a list.
  abbrev pub add_all : S.Set → List A → S.Set
  add_all s [] = s
  add_all s (a ∷ l) = add_all (S.add s a) l

  pub contains-add_all :
      (s : S.Set) (l : List A) (a : A) → S.contains (add_all s l) a ≡ S.contains s a || elem a l
  contains-add_all s [] a = ground arith
  contains-add_all s (b ∷ l) a =
      ground (arith, contains-add_all (S.add s b) l a, S.contains-add s b a)

-- A set kept as a list without repetitions shows that the laws can be met.
module _ {A : Type 0} ⦃c : Comparable A⦄ where
  abbrev pub list_add : List A → A → List A
  list_add s a = if elem a s then s else a ∷ s

  pub elem-keep : (p : A → Bool) (s : List A) (a : A) → elem a (keep p s) ≡ elem a s && p a
  elem-keep p [] a = refl
  elem-keep p (x ∷ s) a = grind (arith, elem-keep p s a, c.same_iff x a)

  pub distinct-keep : (p : A → Bool) (s : List A) → distinct s ≡ true → distinct (keep p s) ≡ true
  distinct-keep p [] h = refl
  distinct-keep p (x ∷ s) h = ground (arith, distinct-keep p s, elem-keep p s x)

  pub elem-list_add : (s : List A) (a b : A) → elem b (list_add s a) ≡ (a == b) || elem b s
  elem-list_add s a b = grind (arith, c.same_iff a b)

  pub distinct-list_add : (s : List A) (a : A) → distinct s ≡ true → distinct (list_add s a) ≡ true
  distinct-list_add s a h = ground arith

  pub elem-list_remove :
      (s : List A) (a b : A) → elem b (keep (λ x. not (a == x)) s) ≡ not (a == b) && elem b s
  elem-list_remove s a b = ground (arith, elem-keep (λ x. not (a == x)) s b)

  abbrev pub list_set : SetOf A
  list_set = record {
    Set = (s : List A) × (distinct s ≡ true);
    empty = ([], refl);
    add = λ s a. (list_add s.0 a, distinct-list_add s.0 a s.1);
    remove = λ s a. (keep (λ b. not (a == b)) s.0, distinct-keep _ s.0 s.1);
    contains = λ s a. elem a s.0;
    difference = λ s t. (keep (λ b. not (elem b t.0)) s.0, distinct-keep _ s.0 s.1);
    to_slice = λ s. s.0;
    contains-empty = λ a. refl;
    contains-add = λ s a b. elem-list_add s.0 a b;
    contains-remove = λ s a b. elem-list_remove s.0 a b;
    contains-difference = λ s t a. elem-keep _ s.0 a;
    elem-to_slice = λ s a. refl;
    distinct-to_slice = λ s. s.1;
  }
