-- ===== src/Logs/Merge/Order.antt =====
-- The order of a merged stream; `mergeLogStreams` of modules/shared/logs/helpers.go.
use kubetail.Prelude.{
  ℕ, zero, suc, ◌≤◌, ◌≡◌, refl, ap, subst, ◌⊎◌, inl, inr, Bool, true, false, some, List, [], ◌∷◌,
  arith, nat_comparable, In, All, In-nil, str_comparable,
}
use kubetail.Logs.Records.{LogRecord}
use kubetail.Logs.Heap.{HeapOf}
use kubetail.Logs.Merge.Complete.{merge_round, merge_loop_zero}
use kubetail.Logs.Merge.{
  RecordWithSource, less, push_next, init_heap, merge_loop, merge_log_streams,
}

-- `a` may stand in front of `b`.
abbrev pub InOrder : Bool → LogRecord → LogRecord → Type 0
InOrder true a b = b.timestamp ≤ a.timestamp
InOrder false a b = a.timestamp ≤ b.timestamp

abbrev pub IsOrdered : Bool → List LogRecord → Type 0
IsOrdered reversed [] = Unit {0}
IsOrdered reversed (r ∷ rs) = All (InOrder reversed r) rs × IsOrdered reversed rs

InOrder-trans :
    (reversed : Bool) (a b c : LogRecord)
    → InOrder reversed a b
    → InOrder reversed b c
    → InOrder reversed a c
InOrder-trans true a b c h k = omega arith
InOrder-trans false a b c h k = omega arith

All-trans :
    (reversed : Bool) (a b : LogRecord) (rs : List LogRecord)
    → InOrder reversed a b
    → All (InOrder reversed b) rs
    → All (InOrder reversed a) rs
All-trans reversed a b [] h k = tt
All-trans reversed a b (r ∷ rs) h k =
    (InOrder-trans reversed a b r h k.0, All-trans reversed a b rs h k.1)

less_order :
    (reversed : Bool) (a b : RecordWithSource)
    → less reversed b a ≡ false
    → InOrder reversed a.head b.head
less_order true a b h = ground arith
less_order false a b h = ground arith

module _ (reversed : Bool) (H : HeapOf RecordWithSource (less reversed)) where
  In-push_next :
      (pq : H.Heap) (ch : List LogRecord) (a : RecordWithSource)
      → In a (H.items (push_next reversed H pq ch))
      → (ch ≡ a.head ∷ a.src_ch) ⊎ In a (H.items pq)
  unfolding push_next
  In-push_next pq [] a i = inr i
  In-push_next pq (r ∷ ch) a i = elim ((H.In-push pq _ a).0 i) [
    | inl e ↦ inl (ap (λ x. x.head ∷ x.src_ch) e)
    | inr j ↦ inr j
  ]

  -- Every channel in the heap gives its records in order.
  abbrev Streams : H.Heap → Type 0
  Streams pq = (a : RecordWithSource) → In a (H.items pq) → IsOrdered reversed (a.head ∷ a.src_ch)

  Streams-push_next :
      (pq : H.Heap) (ch : List LogRecord)
      → IsOrdered reversed ch
      → Streams pq
      → Streams (push_next reversed H pq ch)
  Streams-push_next pq ch o s a i = elim (In-push_next pq ch a i) [
    | inl e ↦ subst (IsOrdered reversed) e o
    | inr j ↦ s a j
  ]

  Streams-pop :
      (pq pq' : H.Heap) (e : RecordWithSource)
      → H.pop pq ≡ some (e, pq')
      → Streams pq
      → Streams (push_next reversed H pq' e.src_ch)
  Streams-pop pq pq' e q s =
      Streams-push_next pq' e.src_ch ((s e ((H.In-pop pq pq' e e q).1 (inl refl))).1)
        (λ a i. s a ((H.In-pop pq pq' e a q).1 (inr i)))

  Streams-init_heap :
      (pq : H.Heap) (chs : List (List LogRecord))
      → All (IsOrdered reversed) chs
      → Streams pq
      → Streams (init_heap reversed H pq chs)
  unfolding init_heap
  Streams-init_heap pq [] o s = s
  Streams-init_heap pq (ch ∷ chs) o s =
      Streams-init_heap (push_next reversed H pq ch) chs o.1 (Streams-push_next pq ch o.0 s)

  -- `b` may stand in front of all that the heap holds.
  abbrev Bounds : LogRecord → H.Heap → Type 0
  Bounds b pq = (a : RecordWithSource) → In a (H.items pq) → InOrder reversed b a.head

  Bounds-push_next :
      (b : LogRecord) (pq : H.Heap) (ch : List LogRecord)
      → All (InOrder reversed b) ch
      → Bounds b pq
      → Bounds b (push_next reversed H pq ch)
  Bounds-push_next b pq ch o s a i = elim (In-push_next pq ch a i) [
    | inl e ↦ (subst (All (InOrder reversed b)) e o).0
    | inr j ↦ s a j
  ]

  merge_loop_bound :
      (b : LogRecord) (rounds : ℕ) (pq : H.Heap) (out : List LogRecord)
      → Streams pq
      → Bounds b pq
      → merge_loop reversed H rounds pq ≡ some out
      → All (InOrder reversed b) out
  merge_loop_bound b zero pq out s m h = absurd (merge_loop_zero reversed H pq out h)
  merge_loop_bound b (suc rounds) pq out s m h = elim (merge_round reversed H rounds pq out h) [
    | inl (e, q) ↦ rw q tt
    | inr (e, pq', rest, q, r, eq) ↦
        let first = m e ((H.In-pop pq pq' e e q).1 (inl refl)) in
        let behind = (s e ((H.In-pop pq pq' e e q).1 (inl refl))).0 in
        rw eq (
          first,
          merge_loop_bound b rounds (push_next reversed H pq' e.src_ch) rest
              (Streams-pop pq pq' e q s)
              (Bounds-push_next b pq' e.src_ch (All-trans reversed b e.head e.src_ch first behind)
                (λ a i. m a ((H.In-pop pq pq' e a q).1 (inr i))))
              r,
        )
  ]

  merge_loop_order :
      (rounds : ℕ) (pq : H.Heap) (out : List LogRecord)
      → Streams pq
      → merge_loop reversed H rounds pq ≡ some out
      → IsOrdered reversed out
  merge_loop_order zero pq out s h = absurd (merge_loop_zero reversed H pq out h)
  merge_loop_order (suc rounds) pq out s h = elim (merge_round reversed H rounds pq out h) [
    | inl (e, q) ↦ rw q tt
    | inr (e, pq', rest, q, r, eq) ↦
        let behind = (s e ((H.In-pop pq pq' e e q).1 (inl refl))).0 in
        let s' = Streams-pop pq pq' e q s in
        rw eq (
          merge_loop_bound e.head rounds (push_next reversed H pq' e.src_ch) rest s'
              (Bounds-push_next e.head pq' e.src_ch behind
                (λ a i. less_order reversed e a (H.least pq pq' e a q i)))
              r,
          merge_loop_order rounds (push_next reversed H pq' e.src_ch) rest s' r,
        )
  ]

  -- If every stream is in order, forward or backward, so is the stream that a finished merge gives.
  pub merge_log_streams_order :
      (rounds : ℕ) (streams : List (List LogRecord)) (out : List LogRecord)
      → All (IsOrdered reversed) streams
      → merge_log_streams reversed H rounds streams ≡ some out
      → IsOrdered reversed out
  unfolding merge_log_streams
  merge_log_streams_order rounds streams out o h =
      merge_loop_order rounds (init_heap reversed H H.empty streams) out
        (Streams-init_heap H.empty streams o
          (λ a i. absurd (In-nil (subst (In a) H.items-empty i))))
        h
