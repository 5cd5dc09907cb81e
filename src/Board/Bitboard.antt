-- ===== src/Board/Bitboard.antt =====
-- src/engine/board/bitboard.h, and the directions of types.h. A set of squares is its 64-bit word.
pub mod Shifts
use fcfish.Base.{
  ℕ, ◌+◌, ◌-◌, ◌*◌, ◌^◌, Bool, true, false, not, ◌==◌, if◌then◌else◌, bit_and, bit_or,
}
use fcfish.Base.Int.{ℤ, pos, negsuc}
use fcfish.Base.Words.{u64, ◌<<◌, ◌>>◌}
use fcfish.Board.Types.{Color, white, black}
use fcfish.Board.Placement.{square_bb}

pub data Direction : Type 0 where
  north east south west north_east south_east south_west north_west : Direction

-- The enumerator's value.
abbrev pub direction_code : Direction → ℤ
direction_code north = pos 8
direction_code east = pos 1
direction_code south = negsuc 7
direction_code west = negsuc 0
direction_code north_east = pos 9
direction_code south_east = negsuc 6
direction_code south_west = negsuc 8
direction_code north_west = pos 7

-- A step from a square; one below square 0 is not asked for.
abbrev pub step : ℕ → ℤ → ℕ
step s (pos n) = s + n
step s (negsuc n) = s - (n + 1)

unfoldable pub sq_add : ℕ → Direction → ℕ
sq_add s d = step s (direction_code d)

unfoldable pub file_bb : ℕ → ℕ
file_bb f = u64 (72340172838076673 << f)

unfoldable pub rank_bb : ℕ → ℕ
rank_bb r = u64 (255 << (8 * r))

unfoldable pub bb_test : ℕ → ℕ → Bool
bb_test b s = not (bit_and b (square_bb s) == 0)

unfoldable pub bb_more_than_one : ℕ → Bool
bb_more_than_one b = not (bit_and b (u64 (b + 2 ^ 64 - 1)) == 0)

-- The complement of a 64-bit word.
abbrev pub complement : ℕ → ℕ
complement b = 2 ^ 64 - 1 - b

unfoldable pub shift_bb : Direction → ℕ → ℕ
unfolding file_bb
shift_bb north b = u64 (b << 8)
shift_bb south b = b >> 8
shift_bb east b = u64 (bit_and b (complement (file_bb 7)) << 1)
shift_bb west b = bit_and b (complement (file_bb 0)) >> 1
shift_bb north_east b = u64 (bit_and b (complement (file_bb 7)) << 9)
shift_bb north_west b = u64 (bit_and b (complement (file_bb 0)) << 7)
shift_bb south_east b = bit_and b (complement (file_bb 7)) >> 7
shift_bb south_west b = bit_and b (complement (file_bb 0)) >> 9

unfoldable pub pawn_attacks_bb : Color → ℕ → ℕ
unfolding shift_bb
pawn_attacks_bb white b = bit_or (shift_bb north_west b) (shift_bb north_east b)
pawn_attacks_bb black b = bit_or (shift_bb south_west b) (shift_bb south_east b)
