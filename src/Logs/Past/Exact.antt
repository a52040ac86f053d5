-- ===== src/Logs/Past/Exact.antt =====
-- How many records the past has, and in which order; what an error does.
use kubetail.Prelude.{
  All-append, All-reverse, ℕ, zero, suc, ◌+◌, ◌-◌, ◌<◌, ◌≡◌, refl, Bool, true, false, none, some,
  List, [], ◌∷◌, ◌++◌, reverse, arith, leb, if◌then◌else◌, nat_comparable, length, take, All, Str,
  str_comparable, ok, err,
}
use mathlib.Core.List.{reverse-cons}
use kubetail.Logs.Records.{LogRecord}
use kubetail.Logs.Merge.Order.{IsOrdered, InOrder}
use kubetail.Logs.Past.{head_loop, start_head, tail_loop, start_tail}

abbrev pub NoErrors : List LogRecord → Type 0
NoErrors = All (λ r. r.error ≡ none)

-- The limit that the loops keep: they count a record after they have taken it, so it is one at
-- least.
abbrev pub limit : ℕ → ℕ
limit n = if leb n 1 then 1 else n

-- One record to go, or more.
last_round : (n count : ℕ) → count + 1 ≡ limit n → leb n (count + 1) ≡ true
last_round n count h = ground arith

more_rounds : (n count k : ℕ) → count + suc (suc k) ≡ limit n → leb n (count + 1) ≡ false
more_rounds n count k h = ground arith

head_loop_exact :
    (n count k : ℕ) (l : List LogRecord)
    → NoErrors l
    → count + suc k ≡ limit n
    → head_loop false n count l ≡ (take (suc k) l, none)
unfolding head_loop
head_loop_exact n count k [] e h = refl
head_loop_exact n count zero (r ∷ rs) e h = ground (arith, last_round n count (omega arith))
head_loop_exact n count (suc k) (r ∷ rs) e h =
    ground (arith, more_rounds n count k h, head_loop_exact n (count + 1) k rs e.1 (omega arith))

tail_loop_exact :
    (n count k : ℕ) (l : List LogRecord)
    → NoErrors l
    → count + suc k ≡ limit n
    → tail_loop n count l ≡ ok (take (suc k) l)
unfolding tail_loop
tail_loop_exact n count k [] e h = refl
tail_loop_exact n count zero (r ∷ rs) e h = ground (arith, last_round n count (omega arith))
tail_loop_exact n count (suc k) (r ∷ rs) e h =
    ground (arith, more_rounds n count k h, tail_loop_exact n (count + 1) k rs e.1 (omega arith))

limit-suc : (n : ℕ) → limit n ≡ suc (limit n - 1)
limit-suc n = ground arith

head_loop_all :
    (n count : ℕ) (l : List LogRecord) → NoErrors l → head_loop true n count l ≡ (l, none)
unfolding head_loop
head_loop_all n count [] e = refl
head_loop_all n count (r ∷ rs) e = ground (arith, head_loop_all n (count + 1) rs)

-- Without errors, head mode writes the first records up to the limit, all mode writes all of them,
-- and tail mode writes the first ones of the backward merge turned round. A limit of no records
-- still lets one through.
pub start_past_exact :
    (n : ℕ) (merged : List LogRecord)
    → NoErrors merged
    → (start_head false n merged ≡ (take (limit n) merged, none))
      × (start_head true n merged ≡ (merged, none))
      × (start_tail n merged ≡ (reverse (take (limit n) merged), none))
unfolding start_head start_tail
start_past_exact n merged e =
    let count : 0 + suc (limit n - 1) ≡ limit n = ground arith in
    (
      rw (limit-suc n) (head_loop_exact n 0 (limit n - 1) merged e count),
      head_loop_all n 0 merged e,
      rw (limit-suc n) (rw (tail_loop_exact n 0 (limit n - 1) merged e count, start_tail) refl),
    )

more_before : (n count k : ℕ) → count + suc k < limit n → leb n (count + 1) ≡ false
more_before n count k h = ground arith

head_loop_error :
    (is_all : Bool) (n count : ℕ) (r : LogRecord) (e : Str) (pre post : List LogRecord)
    → NoErrors pre
    → r.error ≡ some e
    → count + length pre < limit n
    → head_loop is_all n count (pre ++ r ∷ post) ≡ (pre, some e)
unfolding head_loop
head_loop_error is_all n count r e [] post h q b = rw (q, head_loop) refl
head_loop_error is_all n count r e (x ∷ pre) post h q b = ground (
  arith,
  h.0,
  more_before n count (length pre) b,
  head_loop_error is_all n (count + 1) r e pre post h.1 q (omega arith),
)

tail_loop_error :
    (n count : ℕ) (r : LogRecord) (e : Str) (pre post : List LogRecord)
    → NoErrors pre
    → r.error ≡ some e
    → count + length pre < limit n
    → tail_loop n count (pre ++ r ∷ post) ≡ err e
unfolding tail_loop
tail_loop_error n count r e [] post h q b = rw (q, tail_loop) refl
tail_loop_error n count r e (x ∷ pre) post h q b = ground (
  arith,
  h.0,
  more_before n count (length pre) b,
  tail_loop_error n (count + 1) r e pre post h.1 q (omega arith),
)

-- The first error is reported if it comes before the limit is reached. Head and all mode have
-- written the records before it, tail mode writes none at all.
pub start_past_error :
    (is_all : Bool) (n : ℕ) (r : LogRecord) (e : Str) (pre post : List LogRecord)
    → NoErrors pre
    → r.error ≡ some e
    → length pre < limit n
    → (start_head is_all n (pre ++ r ∷ post) ≡ (pre, some e))
      × (start_tail n (pre ++ r ∷ post) ≡ ([], some e))
unfolding start_head start_tail
start_past_error is_all n r e pre post h q b = (
  head_loop_error is_all n 0 r e pre post h q (omega arith),
  rw (tail_loop_error n 0 r e pre post h q (omega arith), start_tail) refl,
)

All-take : (P : LogRecord → Type 0) (n : ℕ) (l : List LogRecord) → All P l → All P (take n l)
All-take P zero l h = tt
All-take P (suc n) [] h = tt
All-take P (suc n) (r ∷ l) h = (h.0, All-take P n l h.1)

IsOrdered-take : (b : Bool) (n : ℕ) (l : List LogRecord) → IsOrdered b l → IsOrdered b (take n l)
IsOrdered-take b zero l h = tt
IsOrdered-take b (suc n) [] h = tt
IsOrdered-take b (suc n) (r ∷ l) h = (All-take (InOrder b r) n l h.0, IsOrdered-take b n l h.1)

-- A list in order, and behind it a record that may stand behind all of it.
IsOrdered-snoc :
    (l : List LogRecord) (r : LogRecord)
    → IsOrdered false l
    → All (InOrder true r) l
    → IsOrdered false (l ++ r ∷ [])
IsOrdered-snoc [] r o a = (tt, tt)
IsOrdered-snoc (x ∷ l) r o a =
    (All-append (InOrder false x) l (r ∷ []) o.0 (a.0, tt), IsOrdered-snoc l r o.1 a.1)

IsOrdered-reverse : (l : List LogRecord) → IsOrdered true l → IsOrdered false (reverse l)
IsOrdered-reverse [] h = tt
IsOrdered-reverse (r ∷ l) h =
    rw (reverse-cons r l)
      (IsOrdered-snoc (reverse l) r (IsOrdered-reverse l h.1) (All-reverse (InOrder true r) l h.0))

-- From a backward merge without errors, with times that do not rise, tail mode writes its records
-- with times that do not fall.
pub start_tail-order :
    (n : ℕ) (merged : List LogRecord)
    → NoErrors merged
    → IsOrdered true merged
    → IsOrdered false (start_tail n merged).0
start_tail-order n merged e o =
    rw ((start_past_exact n merged e).2)
      (IsOrdered-reverse (take (limit n) merged) (IsOrdered-take true (limit n) merged o))
