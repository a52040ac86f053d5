-- ===== src/Collections/SortOf/ListSort.antt =====
-- Insertion into a list: it meets the laws of sort.Slice, for a `less` that orders the elements.
use kubetail.Prelude.{
  ◌≡◌, refl, subst, inl, inr, Bool, true, false, List, [], ◌∷◌, if◌then◌else◌, Bool-cases,
  nat_comparable, All, str_comparable,
}
use mathlib.Core.List.{Perm}
use mathlib.Core.List.Perm
use kubetail.Collections.SortOf.{SortOf, IsSortedBy}

module _ {A : Type 0} (less : A → A → Bool) where
  unfoldable pub insert_element : A → List A → List A
  insert_element x [] = x ∷ []
  insert_element x (y ∷ ys) =
      let rest = insert_element x ys in if less y x then y ∷ rest else x ∷ (y ∷ ys)

  unfoldable pub sort_list : List A → List A
  unfolding insert_element
  sort_list [] = []
  sort_list (x ∷ xs) = insert_element x (sort_list xs)

  insert_element-Perm : (x : A) (l : List A) → Perm (insert_element x l) (x ∷ l)
  unfolding insert_element
  insert_element-Perm x [] = Perm.refl _
  insert_element-Perm x (y ∷ ys) = elim (Bool-cases (less y x)) [
    | inl h ↦
        subst (λ z. Perm z (x ∷ y ∷ ys)) (rw h refl)
          (Perm.trans (Perm.cons y (insert_element-Perm x ys)) (Perm.swap _ _ _))
    | inr h ↦ rw h (Perm.refl _)
  ]

  pub sort_list-Perm : (l : List A) → Perm (sort_list l) l
  unfolding sort_list
  sort_list-Perm [] = Perm.refl _
  sort_list-Perm (x ∷ xs) =
      Perm.trans (insert_element-Perm x (sort_list xs)) (Perm.cons x (sort_list-Perm xs))

  insert_element-All :
      (P : A → Type 0) (x : A) (l : List A) → P x → All P l → All P (insert_element x l)
  unfolding insert_element
  insert_element-All P x [] p q = (p, tt)
  insert_element-All P x (y ∷ ys) p q = elim (Bool-cases (less y x)) [
    | inl h ↦ rw h (q.0, insert_element-All P x ys p q.1)
    | inr h ↦ rw h (p, q)
  ]

  module _ (less-asym : (x y : A) → less x y ≡ true → less y x ≡ false)
      (not_less_trans : (x y z : A) → less y x ≡ false → less z y ≡ false → less z x ≡ false) where
    not_less-All :
        (x y : A) (l : List A)
        → less y x ≡ false
        → All (λ z. less z y ≡ false) l
        → All (λ z. less z x ≡ false) l
    not_less-All x y [] h q = tt
    not_less-All x y (z ∷ l) h q = (not_less_trans x y z h q.0, not_less-All x y l h q.1)

    insert_element-IsSortedBy :
        (x : A) (l : List A) → IsSortedBy less l → IsSortedBy less (insert_element x l)
    unfolding insert_element IsSortedBy
    insert_element-IsSortedBy x [] s = (tt, tt)
    insert_element-IsSortedBy x (y ∷ ys) s = elim (Bool-cases (less y x)) [
      | inl h ↦ rw h (
        insert_element-All (λ z. less z y ≡ false) x ys (less-asym y x h) s.0,
        insert_element-IsSortedBy x ys s.1,
      )
      | inr h ↦ rw h ((h, not_less-All x y ys h s.0), s)
    ]

    pub sort_list-IsSortedBy : (l : List A) → IsSortedBy less (sort_list l)
    unfolding sort_list IsSortedBy
    sort_list-IsSortedBy [] = tt
    sort_list-IsSortedBy (x ∷ xs) =
        insert_element-IsSortedBy x (sort_list xs) (sort_list-IsSortedBy xs)

    unfoldable pub list_sort : SortOf A less
    unfolding sort_list
    list_sort = record {
      sort = sort_list;
      sort-Perm = sort_list-Perm;
      sort-IsSortedBy = sort_list-IsSortedBy;
    }
