-- ===== src/Board/Types.antt =====
-- src/engine/board/types.h: colours, pieces, squares, packed moves, scores.
-- Enumerators are their numbers, as every table and every packed word uses them.
pub mod Encoding
use fcfish.Base.{
  ℕ, ◌+◌, ◌-◌, ◌*◌, Bool, not, ◌==◌, if◌then◌else◌, [], ◌∷◌, get_or, bit_and, bit_or, bit_xor,
}
use fcfish.Base.Int.{ℤ, pos, negsuc, ◌-ℤ◌}
use fcfish.Base.Words.{u16, u32, ◌<<◌, ◌>>◌}

abbrev pub max_ply : ℕ
max_ply = 246

pub data Color : Type 0 where
  white black : Color

abbrev pub color_code : Color → ℕ
color_code white = 0
color_code black = 1

-- The cast of 0 or 1.
abbrev pub color_of : ℕ → Color
color_of n = if n == 0 then white else black

unfoldable pub flip_color : Color → Color
flip_color c = color_of (bit_xor (color_code c) 1)

abbrev pub no_piece_type : ℕ
no_piece_type = 0

abbrev pub pawn : ℕ
pawn = 1

abbrev pub knight : ℕ
knight = 2

abbrev pub bishop : ℕ
bishop = 3

abbrev pub rook : ℕ
rook = 4

abbrev pub queen : ℕ
queen = 5

abbrev pub king : ℕ
king = 6

abbrev pub no_piece : ℕ
no_piece = 0

abbrev pub sq_none : ℕ
sq_none = 64

unfoldable pub color_of_piece : ℕ → Color
color_of_piece pc = color_of (pc >> 3)

unfoldable pub type_of_piece : ℕ → ℕ
type_of_piece pc = bit_and pc 7

unfoldable pub make_piece : Color → ℕ → ℕ
make_piece c pt = (color_code c << 3) + pt

unfoldable pub rank_of : ℕ → ℕ
rank_of s = s >> 3

unfoldable pub file_of : ℕ → ℕ
file_of s = bit_and s 7

unfoldable pub make_square : ℕ → ℕ → ℕ
make_square f r = (r << 3) + f

unfoldable pub flip_rank : ℕ → ℕ
flip_rank s = bit_xor s 56

unfoldable pub relative_rank : Color → ℕ → ℕ
unfolding rank_of
relative_rank c s = bit_xor (rank_of s) (color_code c * 7)

-- The two encodings with from == to.
abbrev pub move_none : ℕ
move_none = 0

abbrev pub move_null : ℕ
move_null = 65

pub data MoveType : Type 0 where
  normal promotion en_passant castling : MoveType

abbrev pub move_type_code : MoveType → ℕ
move_type_code normal = 0
move_type_code promotion = 1
move_type_code en_passant = 2
move_type_code castling = 3

abbrev pub move_type_of : ℕ → MoveType
move_type_of n =
    if n == 0 then normal else if n == 1 then promotion else if n == 2 then en_passant else castling

unfoldable pub move_from : ℕ → ℕ
move_from m = bit_and (m >> 6) 0x3F

unfoldable pub move_to : ℕ → ℕ
move_to m = bit_and m 0x3F

unfoldable pub move_type : ℕ → MoveType
move_type m = move_type_of (bit_and (m >> 14) 3)

unfoldable pub move_promotion : ℕ → ℕ
move_promotion m = bit_and (m >> 12) 3 + knight

unfoldable pub move_is_ok : ℕ → Bool
unfolding move_from move_to
move_is_ok m = not (move_from m == move_to m)

unfoldable pub make_move : ℕ → ℕ → ℕ
make_move from to = u16 ((from << 6) + to)

unfoldable pub make_move_typed : MoveType → ℕ → ℕ → ℕ → ℕ
make_move_typed t from to promo =
    u16 ((move_type_code t << 14) + ((promo - knight) << 12) + (from << 6) + to)

abbrev pub value_mate : ℤ
value_mate = pos 32000

abbrev pub value_none : ℤ
value_none = pos 32002

abbrev pub value_infinite : ℤ
value_infinite = pos 32001

-- VALUE_MATE - MAX_PLY, and its negation.
abbrev pub value_mate_in_max_ply : ℤ
value_mate_in_max_ply = pos 31754

abbrev pub value_mated_in_max_ply : ℤ
value_mated_in_max_ply = negsuc 31753

-- The table of `piece_value`, and that of `piece_value_of` with the colour bit.
unfoldable pub piece_value : ℕ → ℕ
piece_value pt = get_or (0 ∷ 208 ∷ 781 ∷ 825 ∷ 1276 ∷ 2538 ∷ 0 ∷ []) pt 0

unfoldable pub piece_value_of : ℕ → ℕ
piece_value_of pc =
    get_or
      (0 ∷ 208 ∷ 781 ∷ 825 ∷ 1276 ∷ 2538 ∷ 0 ∷ 0 ∷ 0 ∷ 208 ∷ 781 ∷ 825 ∷ 1276 ∷ 2538 ∷ 0 ∷ 0 ∷ [])
      pc 0

unfoldable pub mate_in : ℤ → ℤ
unfolding ◌-ℤ◌
mate_in ply = value_mate -ℤ ply

unfoldable pub mated_in : ℤ → ℤ
unfolding ◌-ℤ◌
mated_in ply = ply -ℤ value_mate

-- The `uint32_t` word of one threat delta.
unfoldable pub dirty_threat_make : Bool → ℕ → ℕ → ℕ → ℕ → ℕ
dirty_threat_make add pc threatened_pc pc_sq threatened_sq =
    bit_or
      (bit_or
        (bit_or (bit_or (u32 ((if add then 1 else 0) << 31)) (u32 (pc << 20)))
          (u32 (threatened_pc << 16)))
        (u32 (threatened_sq << 8)))
      (u32 (pc_sq << 0))

unfoldable pub dirty_threat_pc : ℕ → ℕ
dirty_threat_pc d = bit_and (d >> 20) 0xF

unfoldable pub dirty_threat_threatened_pc : ℕ → ℕ
dirty_threat_threatened_pc d = bit_and (d >> 16) 0xF

unfoldable pub dirty_threat_threatened_sq : ℕ → ℕ
dirty_threat_threatened_sq d = bit_and (d >> 8) 0xFF

unfoldable pub dirty_threat_pc_sq : ℕ → ℕ
dirty_threat_pc_sq d = bit_and (d >> 0) 0xFF

unfoldable pub dirty_threat_add : ℕ → Bool
dirty_threat_add d = not (d >> 31 == 0)
