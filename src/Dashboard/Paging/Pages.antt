-- ===== src/Dashboard/Paging/Pages.antt =====
-- A merged page and what it leaves for the next ones.
use kubetail.Prelude.{
  ok-injective, ℕ, zero, suc, ◌+◌, ◌-◌, ◌≤◌, ◌≡◌, refl, sym, ap, ◌∙◌, subst, ◌⊎◌, inl, inr, false,
  List, [], ◌∷◌, ◌++◌, arith, ltb, if◌then◌else◌, Bool-cases, Option-cases, nat_comparable, length,
  take, drop, All, Str, str_comparable, Map, Result, ok, err, >>=-eq-ok,
}
use kubetail.Prelude.{insert}
use mathlib.Core.List.{Perm, append-nil, append_assoc}
use kubetail.Strings.Order.{str_less}
use kubetail.Collections.SortOf.{SortOf, IsSortedBy}
use kubetail.Dashboard.Paging.{
  Item, FetchResponse, Merged, Gathered, deref_count, gather, less_name, sort_items, slice_items,
  continue_token_of, merge_results,
}

abbrev pub NotLess : Item → Item → Type 0
NotLess x y = str_less y.name x.name ≡ false

unfoldable pub IsSorted : List Item → Type 0
IsSorted [] = Unit
IsSorted (x ∷ xs) = All (NotLess x) xs × IsSorted xs

-- All the items of the responses, and how many more there are on the servers.
unfoldable pub all_items : List FetchResponse → List Item
all_items [] = []
all_items (r ∷ rs) = r.items ++ all_items rs

unfoldable pub all_remaining : List FetchResponse → ℕ
all_remaining [] = 0
all_remaining (r ∷ rs) = deref_count r.remaining_item_count + all_remaining rs

IsSortedBy-IsSorted : (l : List Item) → IsSortedBy less_name l → IsSorted l
unfolding IsSortedBy IsSorted
IsSortedBy-IsSorted [] s = tt
IsSortedBy-IsSorted (x ∷ l) s = (s.0, IsSortedBy-IsSorted l s.1)

pub sort_items-Perm : (S : SortOf Item less_name) (l : List Item) → Perm (sort_items S l) l
unfolding sort_items
sort_items-Perm S l = S.sort-Perm l

pub sort_items-IsSorted : (S : SortOf Item less_name) (l : List Item) → IsSorted (sort_items S l)
unfolding sort_items
sort_items-IsSorted S l = IsSortedBy-IsSorted (S.sort l) (S.sort-IsSortedBy l)

take-drop : (n : ℕ) (l : List Item) → take n l ++ drop n l ≡ l
take-drop zero l = refl
take-drop (suc n) [] = refl
take-drop (suc n) (x ∷ l) = ap (λ m. x ∷ m) (take-drop n l)

length-take-drop :
    (n : ℕ) (l : List Item)
    → n ≤ length l
    → (length (take n l) ≡ n) × (length (drop n l) ≡ length l - n)
length-take-drop zero l h = (refl, ground arith)
length-take-drop (suc n) [] h = (omega arith, omega arith)
length-take-drop (suc n) (x ∷ l) h =
    let (a, b) = length-take-drop n l (omega arith) in (omega arith, omega arith)

gather-all :
    (rs : List FetchResponse) (g g' : Gathered)
    → gather rs g ≡ ok g'
    → (g'.items ≡ g.items ++ all_items rs) × (g'.remaining ≡ g.remaining + all_remaining rs)
unfolding gather all_items all_remaining
gather-all [] g g' h =
    let e = ok-injective _ _ h in
    (
      ap (λ x. x.items) (sym e) ∙ sym (append-nil g.items),
      ap (λ x. x.remaining) (sym e) ∙ omega arith,
    )
gather-all (r ∷ rs) g g' h = elim (Option-cases r.error) [
  | inr (e, q) ↦ let x : err e ≡ ok g' = sym (rw (q, gather) refl) ∙ h in absurd (cc)
  | inl q ↦
      let next : Gathered = record {
        items = g.items ++ r.items;
        remaining = g.remaining + deref_count r.remaining_item_count;
        versions = insert r.namespace r.resource_version g.versions;
      } in
      let goes_on : gather rs next ≡ gather (r ∷ rs) g = rw (q, gather) refl in
      let (a, b) = gather-all rs next g' (goes_on ∙ h) in
      (a ∙ append_assoc g.items r.items (all_items rs), b ∙ omega arith)
]

-- What the page leaves out.
abbrev dropped_of : ℕ → List Item → List Item
dropped_of limit items = if ltb limit (length items) then drop limit items else []

slice_items-dropped :
    (S : SortOf Item less_name) (limit : ℕ) (g : Gathered)
    → let items = sort_items S g.items in
      let dropped = dropped_of limit items in
      let page = slice_items S limit g in
      (page.0 ++ dropped ≡ items)
      × (length page.0 ≤ limit)
      × (page.1 ≡ g.remaining + length dropped)
      × ((dropped ≡ []) ⊎ (length page.0 ≡ limit))
unfolding slice_items
slice_items-dropped S limit g = elim (Bool-cases (ltb limit (length (sort_items S g.items)))) [
  | inl h ↦
      let (a, b) = length-take-drop limit (sort_items S g.items) (ground (arith, h)) in
      rw h (
        take-drop limit (sort_items S g.items),
        omega arith,
        ap (λ n. g.remaining + n) (sym b),
        inr a,
      )
  | inr h ↦ rw h (append-nil _, ground (arith, h), ground arith, inl refl)
]

-- The page and what it leaves out are the sorted items.
pub merge_results-parts :
    (S : SortOf Item less_name) (ev : Map Str Str → Result Str)
    (ec : Map Str Str → Str → Result Str) (responses : List FetchResponse) (limit : ℕ)
    (out : Merged)
    → merge_results S ev ec responses limit ≡ ok out
    → (dropped : List Item) × (out.items ++ dropped ≡ sort_items S (all_items responses))
      × (length out.items ≤ limit)
      × ((dropped ≡ []) ⊎ (length out.items ≡ limit))
      × (out.remaining_item_count ≡ all_remaining responses + length dropped)
      × ((versions : Map Str Str) × (ev versions ≡ ok out.resource_version)
          × (continue_token_of S ev ec versions out.items out.remaining_item_count
              ≡ ok out.continue_token))
unfolding merge_results
merge_results-parts S ev ec responses limit out h =
    let (g, got, h1) = >>=-eq-ok (gather responses _) _ h in
    let (version, got_version, h2) = >>=-eq-ok (ev g.versions) _ h1 in
    let (token, got_token, h3) =
      >>=-eq-ok
        (continue_token_of S ev ec g.versions (slice_items S limit g).0 (slice_items S limit g).1) _
        h2 in
    let e = ok-injective _ _ h3 in
    let (a, b) = gather-all responses _ g got in
    let (whole, short, count, full) = slice_items-dropped S limit g in
    let dropped = dropped_of limit (sort_items S g.items) in
    (
      dropped,
      ap (λ x. x.items ++ dropped) (sym e) ∙ whole ∙ ap (sort_items S) a,
      subst (λ o. length o.items ≤ limit) e short,
      subst (λ o. (dropped ≡ []) ⊎ (length o.items ≡ limit)) e full,
      ap (λ x. x.remaining_item_count) (sym e)
          ∙ count
          ∙ ap (λ n. n + length dropped) b
          ∙ omega arith,
      (
        g.versions,
        subst (λ o. ev g.versions ≡ ok o.resource_version) e got_version,
        subst
            (λ o.
              continue_token_of S ev ec g.versions o.items o.remaining_item_count
              ≡ ok o.continue_token)
            e got_token,
      ),
    )

-- Of the items of all the responses, a merged page has the first ones in the order of the names, as
-- many as the limit allows; what it leaves out comes after them in that order and is counted with
-- what remains on the servers.
pub merge_results-page :
    (S : SortOf Item less_name) (encode_versions : Map Str Str → Result Str)
    (encode_continue : Map Str Str → Str → Result Str) (responses : List FetchResponse) (limit : ℕ)
    (out : Merged)
    → merge_results S encode_versions encode_continue responses limit ≡ ok out
    → (dropped : List Item) × Perm (out.items ++ dropped) (all_items responses)
      × IsSorted (out.items ++ dropped)
      × (length out.items ≤ limit)
      × ((dropped ≡ []) ⊎ (length out.items ≡ limit))
      × (out.remaining_item_count ≡ all_remaining responses + length dropped)
merge_results-page S ev ec responses limit out h =
    let (dropped, parts, short, full, count, _) =
      merge_results-parts S ev ec responses limit out h in
    (
      dropped,
      subst (λ l. Perm l (all_items responses)) (sym parts)
          (sort_items-Perm S (all_items responses)),
      subst IsSorted (sym parts) (sort_items-IsSorted S (all_items responses)),
      short,
      full,
      count,
    )
