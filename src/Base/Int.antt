-- ===== src/Base/Int.antt =====
-- Go's signed integers: `negsuc n` is -(n + 1). Only what the program asks of them.
use Prim.Native.Nat.{ℕ, zero, suc, ◌+◌, ◌-◌, ◌/◌, ◌%◌, ◌^◌, min, ◌<◌, ◌≤◌}
use mathlib.Core.Path.{◌≡◌, ap}
use mathlib.Core.Logic.{◌↔◌}
use native.Mathlib.Omega.{arith}
use mathlib.Core.Bool.{Bool, true, false}
use mathlib.Core.List.{[], ◌∷◌}
use polka.Base.Bools.{ltb, leb, eqb, if◌then◌else◌}
use polka.Base.Strings.{Text}

pub data ℤ : Type 0 where
  pos : ℕ → ℤ
  negsuc : ℕ → ℤ

abbrev pub is_zero : ℤ → Bool
is_zero (pos zero) = true
is_zero (pos (suc n)) = false
is_zero (negsuc n) = false

-- `int(n)` of a `uint64`: the bit pattern read in two's complement
unfoldable pub to_int64 : ℕ → ℤ
to_int64 n = if ltb n (2 ^ 63) then pos n else negsuc (2 ^ 64 - n - 1)

-- a sum or product of an `int64` that Go has computed, of which `n` is the exact value
abbrev pub int64 : ℕ → ℤ
int64 n = to_int64 (n % 2 ^ 64)

abbrev pub negated : ℕ → ℤ
negated zero = pos 0
negated (suc n) = negsuc n

-- `z / n` of a positive `n`, cut off towards zero
abbrev pub quotient : ℤ → ℕ → ℤ
quotient (pos m) n = pos (m / n)
quotient (negsuc m) n = negated ((m + 1) / n)

-- `z - 1` of an `int64`
abbrev pub decrement : ℤ → ℤ
decrement (pos zero) = negsuc 0
decrement (pos (suc n)) = pos n
decrement (negsuc n) = if eqb (n + 1) (2 ^ 63) then pos n else negsuc (n + 1)

-- `min(z, n)`
abbrev pub least : ℤ → ℕ → ℤ
least (pos m) n = pos (min m n)
least (negsuc m) n = negsuc m

-- `n < z`
abbrev pub is_below : ℕ → ℤ → Bool
is_below n (pos m) = ltb n m
is_below n (negsuc m) = false

-- `z <= n`
abbrev pub at_most : ℤ → ℕ → Bool
at_most (pos m) n = leb m n
at_most (negsuc m) n = true

-- `n <= z`
abbrev pub at_least : ℤ → ℕ → Bool
at_least (pos m) n = leb n m
at_least (negsuc m) n = false

pub int64_small : (n : ℕ) → n < 2 ^ 63 → int64 n ≡ pos n
unfolding to_int64
int64_small n h = ground arith

pub int64_wrapped : (n : ℕ) → n < 2 ^ 63 → int64 (n + 2 ^ 64) ≡ pos n
unfolding to_int64
int64_wrapped n h = ground arith

pub decrement-pos : (n : ℕ) → 0 < n → decrement (pos n) ≡ pos (n - 1)
decrement-pos zero h = absurd (omega arith)
decrement-pos (suc n) h = ap pos (omega arith)

-- what a bound says of an integer that is a natural number
pub is_below-pos : (n m : ℕ) (z : ℤ) → z ≡ pos m → (is_below n z ≡ true) ↔ (n < m)
is_below-pos n m z e = ((λ h. ground arith), (λ h. ground arith))

pub at_most-pos : (n m : ℕ) (z : ℤ) → z ≡ pos m → (at_most z n ≡ true) ↔ (m ≤ n)
at_most-pos n m z e = ((λ h. ground arith), (λ h. ground arith))

pub at_least-pos : (n m : ℕ) (z : ℤ) → z ≡ pos m → (at_least z n ≡ true) ↔ (n ≤ m)
at_least-pos n m z e = ((λ h. ground arith), (λ h. ground arith))

-- the decimal digits of `n` in front of `out`; `n + 1` rounds are more than enough
digits : ℕ → ℕ → Text → Text
digits zero n out = out
digits (suc f) n out =
    let rest = digits f (n / 10) ((b'0' + n % 10) ∷ out) in if eqb n 0 then out else rest

unfoldable pub print_ℕ : ℕ → Text
unfolding digits
print_ℕ n = if eqb n 0 then b'0' ∷ [] else digits (suc n) n []

unfoldable pub print_ℤ : ℤ → Text
unfolding print_ℕ
print_ℤ (pos n) = print_ℕ n
print_ℤ (negsuc n) = b'-' ∷ print_ℕ (suc n)
