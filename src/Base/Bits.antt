-- ===== src/Base/Bits.antt =====
-- The bits of a number, and the bit operations read bit by bit.
mod Step
use Step.{bit_or_step, bit_and_step, bit_xor_step}
use Prim.Native.Nat.{
  ℕ, zero, suc, ◌+◌, ◌-◌, ◌*◌, ◌/◌, ◌%◌, ◌^◌, ◌≤◌, ◌<◌, min, max, bit_and, bit_or, bit_xor,
}
use mathlib.Core.Path.{◌≡◌, refl, sym, ap, ap₂, ◌∙◌}
use mathlib.Core.Bool.{Bool, true, false, ◌&&◌, ◌||◌, xor}
use native.Mathlib.Omega.{arith}
use native.Mathlib.Nat.{pow-suc, one-le-pow}
use fcfish.Base.Tests.{◌==◌}

-- Bit `k` of `x`.
abbrev pub bit : ℕ → ℕ → Bool
bit x zero = x % 2 == 1
bit x (suc k) = bit (x / 2) k

half_sum : (q r : ℕ) → r < 2 → (q * 2 + r) / 2 ≡ q
half_sum q r h = omega arith

pub bit-bit_or : (k a b : ℕ) → bit (bit_or a b) k ≡ bit a k || bit b k
bit-bit_or zero a b = ground (arith, bit_or_step a b)
bit-bit_or (suc k) a b =
    ap (λ t. bit (t / 2) k) (bit_or_step a b)
    ∙ ap (λ t. bit t k) (half_sum (bit_or (a / 2) (b / 2)) (max (a % 2) (b % 2)) (omega arith))
    ∙ bit-bit_or k (a / 2) (b / 2)

pub bit-bit_and : (k a b : ℕ) → bit (bit_and a b) k ≡ bit a k && bit b k
bit-bit_and zero a b = ground (arith, bit_and_step a b)
bit-bit_and (suc k) a b =
    ap (λ t. bit (t / 2) k) (bit_and_step a b)
    ∙ ap (λ t. bit t k) (half_sum (bit_and (a / 2) (b / 2)) (min (a % 2) (b % 2)) (omega arith))
    ∙ bit-bit_and k (a / 2) (b / 2)

pub bit-bit_xor : (k a b : ℕ) → bit (bit_xor a b) k ≡ xor (bit a k) (bit b k)
unfolding xor
bit-bit_xor zero a b = ground (arith, bit_xor_step a b)
bit-bit_xor (suc k) a b =
    ap (λ t. bit (t / 2) k) (bit_xor_step a b)
    ∙ ap (λ t. bit t k) (half_sum (bit_xor (a / 2) (b / 2)) ((a % 2 + b % 2) % 2) (omega arith))
    ∙ bit-bit_xor k (a / 2) (b / 2)

-- The bits determine the number.
bits_ext_below : (n a b : ℕ) → a ≤ n → b ≤ n → ((k : ℕ) → bit a k ≡ bit b k) → a ≡ b
bits_ext_below zero a b p q h = omega arith
bits_ext_below (suc n) a b p q h =
    ground
      (arith, bits_ext_below n (a / 2) (b / 2) (omega arith) (omega arith) (λ k. h (suc k)), h 0)

pub bits_ext : (a b : ℕ) → ((k : ℕ) → bit a k ≡ bit b k) → a ≡ b
bits_ext a b h = bits_ext_below (a + b) a b (omega arith) (omega arith) h

bit-zero : (k : ℕ) → bit 0 k ≡ false
bit-zero zero = refl
bit-zero (suc k) = bit-zero k

pow_half : (s : ℕ) → 2 ^ suc s / 2 ≡ 2 ^ s
pow_half s = omega (arith, pow-suc 2 s)

-- `1ULL << s` is the set that holds bit `s` alone.
pub bit-pow : (s k : ℕ) → bit (2 ^ s) k ≡ (s == k)
bit-pow zero zero = refl
bit-pow zero (suc k) = bit-zero k ∙ ground arith
bit-pow (suc s) zero = ground (arith, pow-suc 2 s)
bit-pow (suc s) (suc k) = ap (λ t. bit t k) (pow_half s) ∙ bit-pow s k ∙ ground arith

bit_and-zero : (a : ℕ) → bit_and a 0 ≡ 0
bit_and-zero a = bits_ext _ _ (λ k. ground (arith, bit-bit_and k a 0, bit-zero k))

bit_or-zero : (a : ℕ) → bit_or a 0 ≡ a
bit_or-zero a = bits_ext _ _ (λ k. ground (arith, bit-bit_or k a 0, bit-zero k))

-- Shifting by one place more doubles.
double_shift : (x s : ℕ) → x * 2 ^ suc s ≡ 2 * (x * 2 ^ s)
double_shift x s = grind (arith, pow-suc 2 s)

-- `(x << s) | low` is a sum when `low` fits in `s` bits.
pub bit_or_fields : (s x low : ℕ) → low < 2 ^ s → bit_or (x * 2 ^ s) low ≡ x * 2 ^ s + low
bit_or_fields zero x low h =
    let none_low : low ≡ 0 = omega (arith, h) in rw none_low (bit_or-zero (x * 1) ∙ omega arith)
bit_or_fields (suc s) x low h =
    let half : low / 2 < 2 ^ s = omega (arith, h, pow-suc 2 s) in
    let rest = bit_or_fields s x (low / 2) half in
    ground (arith, double_shift x s, bit_or_step (x * 2 ^ suc s) low, rest)

low_field : (s x low : ℕ) → low < 2 ^ s → bit_and (x * 2 ^ s + low) (2 ^ s - 1) ≡ low
low_field zero x low h = bit_and-zero (x * 1 + low) ∙ omega (arith, h)
low_field (suc s) x low h =
    let half : low / 2 < 2 ^ s = omega (arith, h, pow-suc 2 s) in
    let rest = low_field s x (low / 2) half in
    ground (
      arith,
      double_shift x s,
      rest,
      one-le-pow s 2,
      pow-suc 2 s,
      bit_and_step (x * 2 ^ suc s + low) (2 ^ suc s - 1),
    )

-- Masking with `s` low ones takes the remainder by `2 ^ s`.
pub bit_and_mask : (s x : ℕ) → bit_and x (2 ^ s - 1) ≡ x % 2 ^ s
bit_and_mask s x =
    let small : x % 2 ^ s < 2 ^ s = ground (arith, one-le-pow s 2) in
    ground (arith, low_field s (x / 2 ^ s) (x % 2 ^ s) small)

bit_and-le_below : (n a b : ℕ) → b ≤ n → bit_and a b ≤ b
bit_and-le_below zero a b h = let e : b ≡ 0 = omega arith in rw (e, bit_and-zero a) (omega arith)
bit_and-le_below (suc n) a b h =
    omega (arith, bit_and_step a b, bit_and-le_below n (a / 2) (b / 2) (omega arith))

-- A mask bounds the value.
pub bit_and-le : (a b : ℕ) → bit_and a b ≤ b
bit_and-le a b = bit_and-le_below b a b (omega arith)
