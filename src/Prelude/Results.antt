-- ===== src/Prelude/Results.antt =====
-- Go's pair of a value and an error. An error is its message.
use mathlib.Core.Path.{◌≡◌, refl, ap}
use mathlib.Core.Logic.{◌⊎◌, inl, inr}
use kubetail.Prelude.Text.{Str}

pub data Result {κ} (V : Type κ) : Type κ where
  -- A message, and no value.
  err : Str → Result V
  ok : V → Result V

-- Either way out of a call.
pub Result-cases {κ} :
    {V : Type κ} (call : Result V) → ((e : Str) × (call ≡ err e)) ⊎ ((v : V) × (call ≡ ok v))
Result-cases (err message) = inl (message, refl)
Result-cases (ok value) = inr (value, refl)

-- `if err != nil { return err }`, and then the rest.
infixl 5 ◌>>=◌
abbrev pub ◌>>=◌ {κ μ} : {V : Type κ} {W : Type μ} → Result V → (V → Result W) → Result W
err message >>= rest = err message
ok value >>= rest = rest value

pub >>=-eq-ok {κ μ} :
    {V : Type κ} {W : Type μ} (call : Result V) (rest : V → Result W) {w : W}
    → (call >>= rest) ≡ ok w
    → (v : V) × (call ≡ ok v) × (rest v ≡ ok w)
>>=-eq-ok (err message) rest h = absurd (cc)
>>=-eq-ok (ok value) rest h = (value, refl, h)

abbrev value_or {κ} : {V : Type κ} → V → Result V → V
value_or default (err message) = default
value_or default (ok value) = value

pub ok-injective {κ} : {V : Type κ} (v w : V) → ok v ≡ ok w → v ≡ w
ok-injective v w e = ap (value_or v) e
