-- ===== src/Dashboard/Paging/Continues.antt =====
-- Where a merged page ends, and what a request that continues it asks for.
use kubetail.Prelude.{
  ℕ, ◌<◌, ◌≡◌, refl, sym, ap, ◌∙◌, subst, ◌≢◌, ◌↔◌, inl, inr, Bool, true, false, ◌&&◌, ◌||◌, some,
  List, [], ◌∷◌, ◌++◌, arith, ltb, Comparable, ◌==◌, nat_comparable, In, All, All-In, here, there,
  elem, elem→In, In→elem, In-nil, In-append, In-append_left, In-append_right, In-cases, Str,
  same_str_iff, str_comparable, Map, Result, ok,
}
use kubetail.Collections.SortOf.{SortOf}
use mathlib.Core.List.{Perm, foldr}
use mathlib.Core.List.Perm
use mathlib.Core.Bool.{Bool-set}
use mathlib.Core.Option.{some-injective}
use kubetail.Strings.Order.{str_less, str_less-total, str_less_refl}
use kubetail.Dashboard.Paging.{
  Item, FetchResponse, Merged, less_name, sort_items, last_name, continue_token_of, merge_results,
}
use kubetail.Dashboard.Paging.Pages.{
  all_items, IsSorted, NotLess, sort_items-Perm, sort_items-IsSorted, merge_results-parts,
}

same_item : Item → Item → Bool
same_item a b = (a.namespace == b.namespace) && (a.name == b.name)

same_item_iff : (a b : Item) → (same_item a b ≡ true) ↔ (a ≡ b)
unfolding same_item
same_item_iff a b = ground (arith, same_str_iff a.namespace b.namespace, same_str_iff a.name b.name)

instance abbrev item_comparable : Comparable Item
item_comparable = record { same = same_item; same_iff = same_item_iff }

is_or_in : Item → Item → Bool → Bool
is_or_in x y b = (y == x) || b

elem-foldr : (x : Item) (l : List Item) → elem x l ≡ foldr (is_or_in x) false l
unfolding is_or_in
elem-foldr x [] = refl
elem-foldr x (y ∷ l) = ap (λ b. (y == x) || b) (elem-foldr x l)

is_or_in_comm :
    (x a b : Item) (c : Bool) → is_or_in x a (is_or_in x b c) ≡ is_or_in x b (is_or_in x a c)
unfolding is_or_in
is_or_in_comm x a b c = ground arith

In-Perm : (x : Item) (l m : List Item) → Perm l m → In x l → In x m
In-Perm x l m p i = elem→In x m (
    elem-foldr x m
    ∙ sym (Perm.foldr-eq Bool-set (is_or_in x) (is_or_in_comm x) p false)
    ∙ sym (elem-foldr x l)
    ∙ In→elem i)

-- In a sorted list no element of the front is greater than one of the back.
front_back :
    (xs ys : List Item) (x y : Item) → IsSorted (xs ++ ys) → In x xs → In y ys → NotLess x y
unfolding IsSorted
front_back [] ys x y s i j = absurd (In-nil i)
front_back (z ∷ xs) ys x y s i j = elim (In-cases i) [
  | inl e ↦ subst (λ w. NotLess w y) e (All-In (NotLess z) s.0 (In-append_right xs ys j))
  | inr k ↦ front_back xs ys x y s.1 k j
]

front_IsSorted : (xs ys : List Item) → IsSorted (xs ++ ys) → IsSorted xs
unfolding IsSorted
front_IsSorted [] ys s = tt
front_IsSorted (x ∷ xs) ys s = (front_All x xs ys s.0, front_IsSorted xs ys s.1)
  where
    front_All : (x : Item) (xs ys : List Item) → All (NotLess x) (xs ++ ys) → All (NotLess x) xs
    front_All x [] ys a = tt
    front_All x (y ∷ xs) ys a = (a.0, front_All x xs ys a.1)

-- The last one has the last name, and no name is greater.
last_name-greatest :
    (xs : List Item) (n : Str)
    → IsSorted xs
    → last_name xs ≡ some n
    → (l : Item) × In l xs × (l.name ≡ n) × All (λ x. str_less n x.name ≡ false) xs
unfolding IsSorted
last_name-greatest [] n s h = absurd (cc)
last_name-greatest (x ∷ []) n s h =
    let e : x.name ≡ n = some-injective _ _ h in
    (x, here, e, (subst (λ m. str_less m x.name ≡ false) e (str_less_refl x.name), tt))
last_name-greatest (x ∷ (y ∷ ys)) n s h =
    let (l, i, e, a) = last_name-greatest (y ∷ ys) n s.1 h in
    (l, there i, e, (subst (λ m. str_less m x.name ≡ false) e (All-In (NotLess x) s.0 i), a))

last_name-some : (l : List Item) → l ≢ [] → (n : Str) × (last_name l ≡ some n)
last_name-some [] h = absurd (h refl)
last_name-some (x ∷ []) h = (x.name, refl)
last_name-some (x ∷ (y ∷ l)) h = last_name-some (y ∷ l) (λ e. absurd (cc))

continue_token_of-last :
    (S : SortOf Item less_name) (ev : Map Str Str → Result Str)
    (ec : Map Str Str → Str → Result Str) (versions : Map Str Str) (l : List Item) (n : Str)
    (remaining : ℕ)
    → last_name l ≡ some n
    → 0 < remaining
    → continue_token_of S ev ec versions l remaining ≡ ec versions n
unfolding continue_token_of
continue_token_of-last S ev ec versions l n remaining last more =
    let test : ltb 0 remaining ≡ true = ground arith in rw (continue_token_of, last, test) refl

-- The items up to the name of the last one are those of the page.
splits :
    (S : SortOf Item less_name) (responses : List FetchResponse) (page dropped : List Item)
    (n : Str) (x : Item)
    → page ++ dropped ≡ sort_items S (all_items responses)
    → last_name page ≡ some n
    → ((a b : Item)
        → In a (all_items responses)
        → In b (all_items responses)
        → a.name ≡ b.name
        → a ≡ b)
    → In x (all_items responses)
    → In x page ↔ (str_less n x.name ≡ false)
splits S responses page dropped n x parts last one i =
    let all = all_items responses in
    let sorted = subst IsSorted (sym parts) (sort_items-IsSorted S all) in
    let (l, j, e, top) = last_name-greatest page n (front_IsSorted page dropped sorted) last in
    let i' = In-Perm x all (sort_items S all) (Perm.symm (sort_items-Perm S all)) i in
    (
      λ k. All-In (λ y. str_less n y.name ≡ false) top k,
      λ q. elim (In-append page dropped (subst (In x) (sym parts) i')) [
        | inl k ↦ k
        | inr k ↦
            let back : str_less x.name n ≡ false =
              subst (λ m. str_less x.name m ≡ false) e (front_back page dropped l x sorted j k) in
            let same : x.name ≡ l.name = str_less-total x.name n back q ∙ sym e in
            let l_in =
              In-Perm l (sort_items S all) all (sort_items-Perm S all)
                (subst (In l) parts (In-append_left page dropped j)) in
            subst (λ y. In y page) (sym (one x l i l_in same)) j
      ],
    )

-- Where a merged page has items and some remain, and no two items of the responses have one name, its
-- token encodes, with the resource versions that the page names, a name that splits the items: the
-- page has those whose names are not greater, so that a request for greater names continues it.
pub merge_results-continues :
    (S : SortOf Item less_name) (encode_versions : Map Str Str → Result Str)
    (encode_continue : Map Str Str → Str → Result Str) (responses : List FetchResponse) (limit : ℕ)
    (out : Merged) (x : Item)
    → merge_results S encode_versions encode_continue responses limit ≡ ok out
    → out.items ≢ []
    → 0 < out.remaining_item_count
    → ((a b : Item)
        → In a (all_items responses)
        → In b (all_items responses)
        → a.name ≡ b.name
        → a ≡ b)
    → In x (all_items responses)
    → (n : Str) × ((versions : Map Str Str) × (encode_versions versions ≡ ok out.resource_version)
        × (encode_continue versions n ≡ ok out.continue_token))
      × (In x out.items ↔ (str_less n x.name ≡ false))
merge_results-continues S ev ec responses limit out x h some_items more one i =
    let (dropped, parts, _, _, _, (versions, version, token)) =
      merge_results-parts S ev ec responses limit out h in
    let (n, last) = last_name-some out.items some_items in
    (
      n,
      (
        versions,
        version,
        sym (continue_token_of-last S ev ec versions out.items n _ last more) ∙ token,
      ),
      splits S responses out.items dropped n x parts last one i,
    )
