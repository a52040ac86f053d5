-- ===== src/Logs/Merge.antt =====
-- `mergeLogStreams` of modules/shared/logs/helpers.go, with `recordWithSource` and the two priority
-- queues of util.go. A channel is the list of the records that it will give until it is closed.
pub mod Complete
pub mod Order
use kubetail.Prelude.{
  ℕ, zero, suc, ◌+◌, ◌-◌, ◌*◌, ◌≤◌, ◌<◌, min, max, String, ◌≡◌, refl, sym, ap, ◌∙◌, subst, ◌≢◌, ◌↔◌,
  ◌⊎◌, inl, inr, Bool, true, false, not, ◌&&◌, ◌||◌, Option, none, some, List, [], ◌∷◌, ◌++◌, map,
  reverse, arith, ltb, leb, eqb, if◌then◌else◌, eqb_iff, Bool-cases, Option-cases, bool_ext,
  Comparable, ◌==◌, nat_comparable, same_refl, same→eq, length, take, drop, keep, In, All, All-In,
  here, there, length-append, elem, distinct, elem-append, elem→In, In→elem, In-nil, In-append,
  In-append_left, In-append_right, In-singleton, In-cases, Str, str, same_str, same_str_iff,
  str_comparable, Map, lookup-delete, lookup-insert, Result, ok, err, ◌>>=◌, >>=-eq-ok,
}
use kubetail.Logs.Records.{LogRecord, before}
use kubetail.Logs.Heap.{HeapOf}

-- A record, and what its channel has left.
pub record RecordWithSource : Type 0 where
  pub head : LogRecord
  pub src_ch : List LogRecord

-- `Less` of priorityQueue, and of reversePriorityQueue.
abbrev pub less : Bool → RecordWithSource → RecordWithSource → Bool
less reversed a b =
    if reversed
    then before b.head.timestamp a.head.timestamp
    else before a.head.timestamp b.head.timestamp

module _ (reversed : Bool) (H : HeapOf RecordWithSource (less reversed)) where
  -- Read an entry from a channel and push it, if there is one.
  unfoldable pub push_next : H.Heap → List LogRecord → H.Heap
  push_next pq [] = pq
  push_next pq (entry ∷ ch) = H.push pq (record { head = entry; src_ch = ch })

  unfoldable pub init_heap : H.Heap → List (List LogRecord) → H.Heap
  init_heap pq [] = pq
  init_heap pq (ch ∷ chs) = init_heap (push_next pq ch) chs

  -- The loop while the heap has entries; `none` where the rounds run out.
  unfoldable pub merge_loop : ℕ → H.Heap → Option (List LogRecord)
  merge_loop zero pq = none
  merge_loop (suc rounds) pq = elim (H.pop pq) [
    | none ↦ some []
    | some (earliest, pq') ↦ elim (merge_loop rounds (push_next pq' earliest.src_ch)) [
      | none ↦ none
      | some out ↦ some (earliest.head ∷ out)
    ]
  ]

  unfoldable pub merge_log_streams : ℕ → List (List LogRecord) → Option (List LogRecord)
  merge_log_streams rounds streams = merge_loop rounds (init_heap H.empty streams)
