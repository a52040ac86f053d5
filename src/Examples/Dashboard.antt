-- ===== src/Examples/Dashboard.antt =====
-- The health of a service, and a page over two namespaces.
use kubetail.Prelude.{
  ◌||◌, arith, ◌≢◌, ◌+◌, ◌≤◌, ◌≡◌, refl, sym, ap, ◌∙◌, ◌↔◌, ◌⊎◌, true, false, none, some, List, [],
  ◌∷◌, ◌++◌, if◌then◌else◌, ◌==◌, nat_comparable, length, In, All, All-In, here, there, Str, str,
  str_comparable, Map, Result, ok,
}
use kubetail.Prelude.{insert, delete}
use mathlib.Core.List.{Perm}
use kubetail.Strings.Order.{str_less, str_less-asym, str_less_trans}
use kubetail.Collections.SortOf.{SortOf}
use kubetail.Collections.SortOf.ListSort.{list_sort, sort_list, insert_element}
use kubetail.Dashboard.HealthMonitor.{
  EndpointSlice, Event, added, has_ready, run, watch_health_status, ready_wait, start, on_informer,
  update_health_status_unsafe, get_health_status_unsafe, success, pending,
}
use kubetail.Dashboard.HealthMonitor.History.{
  started, status_of, history, statuses, changes, run-status,
}
use kubetail.Dashboard.HealthMonitor.Ready.{
  received, after, ever_ready, turns_ready, ready_wait-ever_ready,
}
use kubetail.Dashboard.Paging.{
  Item, FetchResponse, Merged, less_name, merge_results, gather, slice_items, sort_items,
  continue_token_of,
}
use kubetail.Dashboard.Paging.Pages.{all_items, all_remaining, IsSorted, merge_results-page}
use kubetail.Dashboard.Paging.Continues.{merge_results-continues}

abbrev waiting_slice : EndpointSlice
waiting_slice = record { uid = str "a"; endpoints = some false ∷ [] }

abbrev ready_slice : EndpointSlice
ready_slice = record { uid = str "a"; endpoints = some true ∷ [] }

abbrev events : List Event
events = added waiting_slice ∷ added ready_slice ∷ []

-- A service without endpoints gets one that is not ready at first.
events_status :
    ((run events (started [])).0.last_status ≡ success)
    × ((run events (started [])).1 ≡ pending ∷ success ∷ [])
unfolding run start on_informer update_health_status_unsafe get_health_status_unsafe insert delete
events_status = (refl, refl)

run-status_example :
    ((run events (started [])).0.last_status ≡ status_of (history events [] []))
    × ((run events (started [])).1 ≡ changes (started []).last_status (statuses events [] []))
run-status_example = run-status [] events

-- The endpoint gets ready before the subscription, so the first status of the watcher tells it.
ready_wait-ever_ready_example :
    ready_wait
      (after [] [])
      (received (watch_health_status 1 [] (added waiting_slice ∷ []) (run events (after [] [])).0))
    ≡ (if has_ready (after [] []).es_cache
          || (turns_ready [] (run events (after [] [])).0.es_cache
              || ever_ready
                  (added waiting_slice ∷ [])
                  (run [] (run events (after [] [])).0).0.es_cache)
        then some (ok tt)
        else none)
ready_wait-ever_ready_example = ready_wait-ever_ready [] [] events [] (added waiting_slice ∷ []) 1

abbrev item : Str → Str → Item
item namespace name = record { namespace = namespace; name = name }

abbrev response : Str → List Item → FetchResponse
response namespace items = record {
  namespace = namespace;
  error = none;
  items = items;
  resource_version = str "7";
  remaining_item_count = some 1;
}

abbrev responses : List FetchResponse
responses =
    response (str "x") (item (str "x") (str "a") ∷ item (str "x") (str "c") ∷ [])
    ∷ response (str "y") (item (str "y") (str "b") ∷ [])
    ∷ []

abbrev encode : Map Str Str → Result Str
encode versions = ok (str "versions")

abbrev encode_from : Map Str Str → Str → Result Str
encode_from versions name = ok name

name_less-asym : (x y : Item) → less_name x y ≡ true → less_name y x ≡ false
name_less-asym x y h = str_less-asym x.name y.name h

name_less_trans :
    (x y z : Item) → less_name y x ≡ false → less_name z y ≡ false → less_name z x ≡ false
name_less_trans x y z h q = str_less_trans x.name y.name z.name h q

abbrev by_name : SortOf Item less_name
by_name = list_sort less_name name_less-asym name_less_trans

abbrev page : Merged
page = record {
  items = item (str "x") (str "a") ∷ item (str "y") (str "b") ∷ [];
  remaining_item_count = 3;
  resource_version = str "versions";
  continue_token = str "b";
}

merged : merge_results by_name encode encode_from responses 2 ≡ ok page
unfolding merge_results gather slice_items continue_token_of sort_items list_sort sort_list
    insert_element str_less insert delete
merged = refl

merge_results-page_example :
    (dropped : List Item) × Perm (page.items ++ dropped) (all_items responses)
    × IsSorted (page.items ++ dropped)
    × (length page.items ≤ 2)
    × ((dropped ≡ []) ⊎ (length page.items ≡ 2))
    × (page.remaining_item_count ≡ all_remaining responses + length dropped)
merge_results-page_example = merge_results-page by_name encode encode_from responses 2 page merged

last_c : In (item (str "x") (str "c")) (all_items responses)
unfolding all_items
last_c = there here

-- The item of a name.
abbrev named : Str → Item
named n = item (if n == str "b" then str "y" else str "x") n

items-named : All (λ x. x ≡ named x.name) (all_items responses)
unfolding all_items
items-named = (refl, (refl, (refl, tt)))

one_name :
    (a b : Item) → In a (all_items responses) → In b (all_items responses) → a.name ≡ b.name → a ≡ b
one_name a b i j e =
    All-In (λ x. x ≡ named x.name) items-named i
    ∙ ap named e
    ∙ sym (All-In (λ x. x ≡ named x.name) items-named j)

some_items : page.items ≢ []
some_items e = absurd (cc)

merge_results-continues_example :
    (n : Str) × ((versions : Map Str Str) × (encode versions ≡ ok (str "versions"))
      × (encode_from versions n ≡ ok (str "b")))
    × (In (item (str "x") (str "c")) page.items ↔ (str_less n (str "c") ≡ false))
merge_results-continues_example =
    merge_results-continues by_name encode encode_from responses 2 page (item (str "x") (str "c"))
      merged some_items (ground arith) one_name last_c
