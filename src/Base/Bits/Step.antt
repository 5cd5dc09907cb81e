-- ===== src/Base/Bits/Step.antt =====
-- One equation for the lowest digit of each native bit operation. They mean `bitwise`, a recursion
-- on binary digits with a count of digits to go, which is dropped here.
use Prim.Native.Nat.{
  ℕ, zero, suc, ◌+◌, ◌*◌, ◌/◌, ◌%◌, ◌≤◌, ◌<◌, min, max, differ, digits, bitwise, bit_and, bit_or,
  bit_xor, bit_and-bitwise, bit_or-bitwise, bit_xor-bitwise,
}
use mathlib.Core.Path.{◌≡◌, refl, ap, sym, ◌∙◌}
use mathlib.Core.Logic.{inl, inr}
use fcfish.Base.Tests.{◌==◌, ==_iff, Bool-cases}
use native.Mathlib.Omega.{arith}

module _ (base : ℕ → ℕ) (join : ℕ → ℕ → ℕ) where
  -- One digit more to go changes nothing once all of `x` is covered.
  spare_digit : (n x y : ℕ) → x ≤ n → digits base join (suc n) x y ≡ digits base join n x y
  spare_digit zero zero y h = refl
  spare_digit (suc n) zero y h = refl
  spare_digit zero (suc x) y h = absurd (omega (arith, h))
  spare_digit (suc n) (suc x) y h = rw (spare_digit n (suc x / 2) (y / 2) (omega (arith, h))) refl

  fewer_digits : (n k x y : ℕ) → x ≤ k → k ≤ n → digits base join n x y ≡ digits base join k x y
  fewer_digits zero k x y h below =
      let same : k ≡ 0 = omega (arith, below) in ap (λ c. digits base join c x y) (sym same)
  fewer_digits (suc n) k x y h below = elim (Bool-cases (k == suc n)) [
    | inl e ↦ ap (λ c. digits base join c x y) (sym ((==_iff k (suc n)).0 e))
    | inr e ↦
        spare_digit n x y (ground (arith, h, below, e))
        ∙ fewer_digits n k x y h (ground (arith, below, e))
  ]

  lowest_digit :
      (x y : ℕ)
      → bitwise base join (suc x) y
        ≡ bitwise base join (suc x / 2) (y / 2) * 2 + join (suc x % 2) (y % 2)
  lowest_digit x y =
      let covered : suc x / 2 ≤ suc x / 2 = omega arith in
      let room : suc x / 2 ≤ x = omega arith in
      ap (λ d. d * 2 + join (suc x % 2) (y % 2))
        (fewer_digits x (suc x / 2) (suc x / 2) (y / 2) covered room)

pub bit_or_step : (x y : ℕ) → bit_or x y ≡ bit_or (x / 2) (y / 2) * 2 + max (x % 2) (y % 2)
bit_or_step zero y = simp bit_or-bitwise (omega arith)
bit_or_step (suc x) y = simp bit_or-bitwise (lowest_digit (λ d. d) max x y)

pub bit_and_step : (x y : ℕ) → bit_and x y ≡ bit_and (x / 2) (y / 2) * 2 + min (x % 2) (y % 2)
bit_and_step zero y = simp bit_and-bitwise (omega arith)
bit_and_step (suc x) y = simp bit_and-bitwise (lowest_digit (λ d. 0) min x y)

-- On digits, "differ" is the sum modulo 2.
differ_lem : (x y : ℕ) → x < 2 → y < 2 → differ x y ≡ (x + y) % 2
differ_lem zero y p q = omega arith
differ_lem (suc zero) zero p q = refl
differ_lem (suc zero) (suc zero) p q = refl
differ_lem (suc zero) (suc (suc y)) p q = absurd (omega arith)
differ_lem (suc (suc x)) y p q = absurd (omega arith)

bit_xor_digits : (a b : ℕ) → bit_xor a b ≡ bit_xor (a / 2) (b / 2) * 2 + differ (a % 2) (b % 2)
bit_xor_digits zero b = simp bit_xor-bitwise (omega arith)
bit_xor_digits (suc a) b = simp bit_xor-bitwise (lowest_digit (λ d. d) differ a b)

pub bit_xor_step : (a b : ℕ) → bit_xor a b ≡ bit_xor (a / 2) (b / 2) * 2 + (a % 2 + b % 2) % 2
bit_xor_step a b =
    omega (arith, bit_xor_digits a b, differ_lem (a % 2) (b % 2) (omega arith) (omega arith))
