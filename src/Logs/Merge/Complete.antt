-- ===== src/Logs/Merge/Complete.antt =====
-- The records of a merged stream, counted; `mergeLogStreams` of modules/shared/logs/helpers.go.
use kubetail.Prelude.{
  ℕ, zero, suc, ◌+◌, ◌<◌, ◌≡◌, refl, ◌⊎◌, inl, inr, Bool, true, none, some, List, [], ◌∷◌, arith,
  if◌then◌else◌, Option-cases, nat_comparable, str_comparable,
}
use kubetail.Logs.Records.{LogRecord}
use kubetail.Logs.Heap.{HeapOf, weigh}
use kubetail.Logs.Merge.{
  RecordWithSource, less, push_next, init_heap, merge_loop, merge_log_streams,
}

-- How many records pass a test.
abbrev pub count : (LogRecord → Bool) → List LogRecord → ℕ
count p [] = 0
count p (r ∷ rs) = let rest = count p rs in if p r then suc rest else rest

abbrev pub count_all : (LogRecord → Bool) → List (List LogRecord) → ℕ
count_all p [] = 0
count_all p (l ∷ ls) = count p l + count_all p ls

abbrev waiting : (LogRecord → Bool) → RecordWithSource → ℕ
waiting p e = count p (e.head ∷ e.src_ch)

module _ (reversed : Bool) (H : HeapOf RecordWithSource (less reversed)) where
  weigh-push_next :
      (p : LogRecord → Bool) (pq : H.Heap) (ch : List LogRecord)
      → weigh (waiting p) (H.items (push_next reversed H pq ch))
        ≡ count p ch + weigh (waiting p) (H.items pq)
  unfolding push_next
  weigh-push_next p pq [] = omega arith
  weigh-push_next p pq (r ∷ ch) = H.weigh-push (waiting p) pq (record { head = r; src_ch = ch })

  weigh-init_heap :
      (p : LogRecord → Bool) (pq : H.Heap) (chs : List (List LogRecord))
      → weigh (waiting p) (H.items (init_heap reversed H pq chs))
        ≡ count_all p chs + weigh (waiting p) (H.items pq)
  unfolding init_heap
  weigh-init_heap p pq [] = omega arith
  weigh-init_heap p pq (ch ∷ chs) =
      omega (arith, weigh-init_heap p (push_next reversed H pq ch) chs, weigh-push_next p pq ch)

  -- The parts of a round.
  pub merge_round :
      (rounds : ℕ) (pq : H.Heap) (out : List LogRecord)
      → merge_loop reversed H (suc rounds) pq ≡ some out
      → ((H.pop pq ≡ none) × (out ≡ []))
        ⊎ ((e : RecordWithSource) × (pq' : H.Heap) × (rest : List LogRecord) × (H.pop pq
              ≡ some (e, pq'))
            × (merge_loop reversed H rounds (push_next reversed H pq' e.src_ch) ≡ some rest)
            × (out ≡ e.head ∷ rest))
  unfolding merge_loop
  merge_round rounds pq out h = elim (Option-cases (H.pop pq)) [
    | inl e ↦ inl (e, ground arith)
    | inr ((e, pq'), p) ↦
        elim (Option-cases (merge_loop reversed H rounds (push_next reversed H pq' e.src_ch))) [
          | inl q ↦ absurd (ground arith)
          | inr (rest, q) ↦ inr (e, pq', rest, p, q, ground arith)
        ]
  ]

  pub merge_loop_zero :
      (pq : H.Heap) (out : List LogRecord) → merge_loop reversed H 0 pq ≡ some out → ⊥
  unfolding merge_loop
  merge_loop_zero pq out h = cc

  merge_loop-count :
      (p : LogRecord → Bool) (rounds : ℕ) (pq : H.Heap) (out : List LogRecord)
      → merge_loop reversed H rounds pq ≡ some out
      → count p out ≡ weigh (waiting p) (H.items pq)
  merge_loop-count p zero pq out h = absurd (merge_loop_zero pq out h)
  merge_loop-count p (suc rounds) pq out h = elim (merge_round rounds pq out h) [
    | inl (e, q) ↦ rw (q, H.pop_none pq e) refl
    | inr (e, pq', rest, q, r, s) ↦ rw s (
        ground (
          arith,
          merge_loop-count p rounds (push_next reversed H pq' e.src_ch) rest r,
          H.weigh-pop (waiting p) pq pq' e q,
          weigh-push_next p pq' e.src_ch,
        ))
  ]

  merge_loop_total :
      (rounds : ℕ) (pq : H.Heap)
      → weigh (waiting (λ _. true)) (H.items pq) < rounds
      → (out : List LogRecord) × (merge_loop reversed H rounds pq ≡ some out)
  unfolding merge_loop
  merge_loop_total zero pq h = absurd (omega arith)
  merge_loop_total (suc rounds) pq h = elim (Option-cases (H.pop pq)) [
    | inl e ↦ ([], rw (e, merge_loop) refl)
    | inr ((e, pq'), p) ↦
        let (out, q) = merge_loop_total rounds (push_next reversed H pq' e.src_ch) (
          omega (
            arith,
            H.weigh-pop (waiting (λ _. true)) pq pq' e p,
            weigh-push_next (λ _. true) pq' e.src_ch,
          )) in
        (e.head ∷ out, rw (p, merge_loop) (rw (q, merge_loop) refl))
  ]

  empty_weight : (p : LogRecord → Bool) → weigh (waiting p) (H.items H.empty) ≡ 0
  empty_weight p = rw H.items-empty refl

  -- With more rounds than there are records the merge comes to an end.
  pub merge_log_streams_total :
      (rounds : ℕ) (streams : List (List LogRecord))
      → count_all (λ _. true) streams < rounds
      → (out : List LogRecord) × (merge_log_streams reversed H rounds streams ≡ some out)
  unfolding merge_log_streams
  merge_log_streams_total rounds streams h =
      merge_loop_total rounds (init_heap reversed H H.empty streams)
        (omega (arith, weigh-init_heap (λ _. true) H.empty streams, empty_weight (λ _. true)))

  -- The stream that a finished merge gives has the records of the streams and no others, each as
  -- often: any test passes for as many of them.
  pub merge_log_streams-count :
      (p : LogRecord → Bool) (rounds : ℕ) (streams : List (List LogRecord)) (out : List LogRecord)
      → merge_log_streams reversed H rounds streams ≡ some out
      → count p out ≡ count_all p streams
  unfolding merge_log_streams
  merge_log_streams-count p rounds streams out h = omega (
    arith,
    merge_loop-count p rounds (init_heap reversed H H.empty streams) out h,
    weigh-init_heap p H.empty streams,
    empty_weight p,
  )
