-- ===== src/Dashboard/Paging.antt =====
-- `mergeResults` of modules/dashboard/graph/schema.helpers.go: the page of a list over several
-- namespaces. `sort.Slice` is the argument `S`, JSON and
-- base64 are the arguments `encode_versions` and `encode_continue`. Of an object
-- only the name and the namespace count. `limit` is not negative.
pub mod Pages
pub mod Continues
use kubetail.Prelude.{
  ℕ, zero, suc, ◌+◌, ◌-◌, ◌*◌, ◌≤◌, ◌<◌, min, max, String, ◌≡◌, refl, sym, ap, ◌∙◌, subst, ◌≢◌, ◌↔◌,
  ◌⊎◌, inl, inr, Bool, true, false, not, ◌&&◌, ◌||◌, Option, none, some, List, [], ◌∷◌, ◌++◌, map,
  reverse, arith, ltb, leb, eqb, if◌then◌else◌, eqb_iff, Bool-cases, Option-cases, bool_ext,
  Comparable, ◌==◌, nat_comparable, same_refl, same→eq, length, take, drop, keep, keep-append,
  All-append, All-reverse, In, All, All-In, here, there, length-append, elem, distinct, elem-append,
  elem→In, In→elem, In-nil, In-append, In-append_left, In-append_right, In-singleton, In-cases, Str,
  str, same_str, same_str_iff, str_comparable, Map, lookup-delete, lookup-insert, Result, ok, err,
  ◌>>=◌, >>=-eq-ok, Result-cases,
}
use kubetail.Prelude.{insert}
use kubetail.Collections.SortOf.{SortOf}
use kubetail.Strings.Order.{str_less}

pub record Item : Type 0 where
  pub namespace : Str
  pub name : Str

pub record FetchResponse : Type 0 where
  pub namespace : Str
  pub error : Option Str
  pub items : List Item
  pub resource_version : Str
  pub remaining_item_count : Option ℕ

pub record Merged : Type 0 where
  pub items : List Item
  pub remaining_item_count : ℕ
  pub resource_version : Str
  pub continue_token : Str

-- What the loop has gathered.
pub record Gathered : Type 0 where
  pub items : List Item
  pub remaining : ℕ
  pub versions : Map Str Str

abbrev pub deref_count : Option ℕ → ℕ
deref_count none = 0
deref_count (some n) = n

unfoldable pub gather : List FetchResponse → Gathered → Result Gathered
gather [] g = ok g
gather (r ∷ rs) g = elim r.error [
  | some e ↦ err e
  | none ↦ gather rs (record {
    items = g.items ++ r.items;
    remaining = g.remaining + deref_count r.remaining_item_count;
    versions = insert r.namespace r.resource_version g.versions;
  })
]

-- The comparison that is given to `sort.Slice`.
abbrev pub less_name : Item → Item → Bool
less_name x y = str_less x.name y.name

unfoldable pub sort_items : SortOf Item less_name → List Item → List Item
sort_items S items = S.sort items

abbrev pub last_name : List Item → Option Str
last_name [] = none
last_name (x ∷ []) = some x.name
last_name (x ∷ (y ∷ ys)) = last_name (y ∷ ys)

-- The slice of the limit, and what is left out of it.
unfoldable pub slice_items : SortOf Item less_name → ℕ → Gathered → List Item × ℕ
unfolding sort_items
slice_items S limit g =
    let items = sort_items S g.items in
    if ltb limit (length items)
    then (take limit items, g.remaining + (length items - limit))
    else (items, g.remaining)

module _ (S : SortOf Item less_name) (encode_versions : Map Str Str → Result Str)
    (encode_continue : Map Str Str → Str → Result Str) where
  unfoldable pub continue_token_of : Map Str Str → List Item → ℕ → Result Str
  continue_token_of versions items remaining = elim (last_name items) [
    | none ↦ ok []
    | some name ↦ if ltb 0 remaining then encode_continue versions name else ok []
  ]

  unfoldable pub merge_results : List FetchResponse → ℕ → Result Merged
  unfolding gather slice_items continue_token_of
  merge_results responses limit =
      gather responses (record { items = []; remaining = 0; versions = [] }) >>= λ g.
      let (items, remaining) = slice_items S limit g in
      encode_versions g.versions >>= λ version.
      continue_token_of g.versions items remaining >>= λ token. ok (record {
        items = items;
        remaining_item_count = remaining;
        resource_version = version;
        continue_token = token;
      })
