-- ===== src/Base/Words.antt =====
-- Fixed-width casts, shifts, and the signed reading of a 16-bit word.
use Prim.Native.Nat.{ℕ, ◌-◌, ◌*◌, ◌/◌, ◌%◌, ◌^◌}
use mathlib.Core.Path.{◌≡◌}
use native.Mathlib.Omega.{arith}
use fcfish.Base.Tests.{ltb, if◌then◌else◌}
use fcfish.Base.Int.{ℤ, pos, negsuc, ◌≤ℤ◌}

abbrev pub u8 : ℕ → ℕ
u8 n = n % 2 ^ 8

abbrev pub u16 : ℕ → ℕ
u16 n = n % 2 ^ 16

abbrev pub u32 : ℕ → ℕ
u32 n = n % 2 ^ 32

abbrev pub u64 : ℕ → ℕ
u64 n = n % 2 ^ 64

infixl 75 ◌<<◌ ◌>>◌
abbrev pub ◌<<◌ : ℕ → ℕ → ℕ
x << k = x * 2 ^ k

abbrev pub ◌>>◌ : ℕ → ℕ → ℕ
x >> k = x / 2 ^ k

-- The residue modulo `m` of an integer: the conversion to an unsigned type of `m` values.
abbrev pub wrap : ℕ → ℤ → ℕ
wrap m (pos n) = n % m
wrap m (negsuc n) = m - 1 - n % m

-- The conversion to `int16_t`, which keeps the low sixteen bits.
unfoldable pub to_i16 : ℤ → ℤ
to_i16 v = let w = wrap (2 ^ 16) v in if ltb w (2 ^ 15) then pos w else negsuc (2 ^ 16 - 1 - w)

pub to_i16_exact : (v : ℤ) → negsuc (2 ^ 15 - 1) ≤ℤ v → v ≤ℤ pos (2 ^ 15 - 1) → to_i16 v ≡ v
unfolding to_i16
to_i16_exact (pos n) lo hi = ground arith
to_i16_exact (negsuc n) lo hi = ground arith
