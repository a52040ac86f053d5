-- ===== src/Logs/Heap.antt =====
-- Go's package container/heap as the program uses it: a heap under a `Less`, seen as the list of
-- its items. The order of items that `Less` does not tell apart is left open.
pub mod ListHeap
use kubetail.Prelude.{
  ℕ, ◌+◌, ◌≡◌, ◌↔◌, ◌⊎◌, Bool, false, Option, none, some, List, [], ◌∷◌, ltb, if◌then◌else◌,
  nat_comparable, In, str_comparable,
}

-- The sum of the weights of the items. A law for every weight says that the items are the same,
-- each as often.
abbrev pub weigh {ℓ} : {A : Type ℓ} → (A → ℕ) → List A → ℕ
weigh f [] = 0
weigh f (x ∷ xs) = f x + weigh f xs

pub record HeapOf (A : Type 0) (less : A → A → Bool) : Type 1 where
  pub Heap : Type 0
  -- heap.Init on an empty slice, heap.Push and heap.Pop; `pop` gives nothing where Len() is 0.
  pub empty : Heap
  pub push : Heap → A → Heap
  pub pop : Heap → Option (A × Heap)
  pub items : Heap → List A
  pub items-empty : items empty ≡ []
  pub In-push : (h : Heap) (a b : A) → In b (items (push h a)) ↔ ((a ≡ b) ⊎ In b (items h))
  pub weigh-push :
      (f : A → ℕ) (h : Heap) (a : A) → weigh f (items (push h a)) ≡ f a + weigh f (items h)
  pub pop_none : (h : Heap) → pop h ≡ none → items h ≡ []
  pub In-pop :
      (h h' : Heap) (a b : A) → pop h ≡ some (a, h') → In b (items h) ↔ ((a ≡ b) ⊎ In b (items h'))
  pub weigh-pop :
      (f : A → ℕ) (h h' : Heap) (a : A)
      → pop h ≡ some (a, h')
      → weigh f (items h) ≡ f a + weigh f (items h')
  -- Pop gives an item that no other is less than.
  pub least : (h h' : Heap) (a b : A) → pop h ≡ some (a, h') → In b (items h') → less b a ≡ false
