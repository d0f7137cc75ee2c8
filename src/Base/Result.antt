-- ===== src/Base/Result.antt =====
-- A value or an error, for Go functions that return `(T, error)`.
use mathlib.Core.Path.{◌≡◌, refl}

pub data Result {ℓ κ} (Reason : Type ℓ) (Value : Type κ) : Type (ℓ ⊔ κ) where
  err : Reason → Result Reason Value
  ok : Value → Result Reason Value

module _ {ℓ κ} {Reason : Type ℓ} {Value : Type κ} where
  infixl 5 ◌>>=◌
  -- `if err != nil { return err }`
  abbrev pub ◌>>=◌ {μ} :
      {Answer : Type μ}
      → Result Reason Value
      → (Value → Result Reason Answer)
      → Result Reason Answer
  result >>= continue = elim result [ err reason ↦ err reason | ok value ↦ continue value ]

  pub ok_injective : {v w : Value} → ◌≡◌ {A = Result Reason Value} (ok v) (ok w) → v ≡ w
  ok_injective same = cc

  pub ok_not_err :
      (v : Value) (reason : Reason) → ◌≡◌ {A = Result Reason Value} (ok v) (err reason) → ⊥
  ok_not_err v reason same = cc

  -- where an answer comes from
  pub >>=-eq-ok {μ} :
      {Answer : Type μ} (first : Result Reason Value) (continue : Value → Result Reason Answer)
      → {answer : Answer} → (first >>= continue) ≡ ok answer
      → (v : Value) × (first ≡ ok v) × (continue v ≡ ok answer)
  >>=-eq-ok (err reason) continue same = cc
  >>=-eq-ok (ok v) continue same = (v, refl, same)
