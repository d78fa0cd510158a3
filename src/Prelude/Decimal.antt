-- ===== src/Prelude/Decimal.antt =====
-- Go's `%d`: its digits read back as the number.
use wave_house.Prelude.Bytes.{Bytes, decimal, decimal_digits, IsByte}
use wave_house.Prelude.Lists.{All}
use wave_house.Prelude.Tests.{Bool-cases, ltb}
use Prim.Native.Nat.{ℕ, zero, suc, ◌+◌, ◌-◌, ◌*◌, ◌/◌, ◌%◌, ◌<◌}
use mathlib.Core.Path.{◌≡◌, sym, ap, ◌∙◌}
use mathlib.Core.Logic.{inl, inr}
use mathlib.Core.List.{[], ◌∷◌}
use native.Mathlib.Omega.{arith}

-- The number that digits spell after those that spell `n`.
unfoldable pub value_of : ℕ → Bytes → ℕ
value_of n [] = n
value_of n (c ∷ s) = value_of (n * 10 + (c - b'0')) s

value_of-decimal_digits :
    (fuel n : ℕ) (acc : Bytes) → n < fuel → value_of 0 (decimal_digits fuel n acc) ≡ value_of n acc
unfolding decimal_digits value_of
value_of-decimal_digits zero n acc h = absurd (omega arith)
value_of-decimal_digits (suc fuel) n acc h = elim (Bool-cases (ltb n 10)) [
  | inl one ↦ rw one (ap (λ m. value_of m acc) (omega arith))
  | inr more ↦ rw more (
      value_of-decimal_digits fuel (n / 10) ((b'0' + n % 10) ∷ acc) (ground arith)
      ∙ ap (λ m. value_of m acc) (omega arith))
]

pub value_of-decimal : (n : ℕ) → value_of 0 (decimal n) ≡ n
unfolding decimal value_of
value_of-decimal n = value_of-decimal_digits (n + 1) n [] (omega arith)

pub decimal-injective : (m n : ℕ) → decimal m ≡ decimal n → m ≡ n
decimal-injective m n e = sym (value_of-decimal m) ∙ ap (value_of 0) e ∙ value_of-decimal n

decimal_digits-IsByte :
    (fuel n : ℕ) (acc : Bytes) → All IsByte acc → All IsByte (decimal_digits fuel n acc)
unfolding decimal_digits
decimal_digits-IsByte zero n acc h = h
decimal_digits-IsByte (suc fuel) n acc h = elim (Bool-cases (ltb n 10)) [
  | inl one ↦ rw one (ground arith, h)
  | inr more ↦ rw more (decimal_digits-IsByte fuel (n / 10) _ (omega arith, h))
]

pub decimal-IsByte : (n : ℕ) → All IsByte (decimal n)
unfolding decimal
decimal-IsByte n = decimal_digits-IsByte (n + 1) n [] tt
