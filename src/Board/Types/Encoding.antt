-- ===== src/Board/Types/Encoding.antt =====
-- src/engine/board/types.h: the packed words decode to what was packed into them.
use fcfish.Base.{
  ℕ, ◌+◌, ◌*◌, ◌^◌, ◌≤◌, ◌<◌, ◌≡◌, refl, Bool, true, ◌==◌, ◌&&◌, arith, if◌then◌else◌, passes,
  passes_lem,
}
use fcfish.Base.Words.{◌>>◌}
use fcfish.Base.Bits.{bit_and_mask, bit_or_fields}
use fcfish.Board.Types.{
  Color, white, black, flip_color, MoveType, move_from, move_to, move_type, move_promotion,
  make_move_typed, color_of_piece, type_of_piece, make_piece, rank_of, file_of, make_square,
  flip_rank, relative_rank, dirty_threat_make, dirty_threat_pc, dirty_threat_threatened_pc,
  dirty_threat_threatened_sq, dirty_threat_pc_sq, dirty_threat_add,
}

-- A typed move of two board squares and a promotion piece from knight to queen decodes to its
-- four parts.
make_move_typed_fields :
    (t : MoveType) (from to promo : ℕ)
    → from < 64
    → to < 64
    → 2 ≤ promo
    → promo ≤ 5
    → let m = make_move_typed t from to promo in
      (move_type m ≡ t) × (move_from m ≡ from) × (move_to m ≡ to) × (move_promotion m ≡ promo)
unfolding make_move_typed move_type move_from move_to move_promotion
make_move_typed_fields t from to promo hf ht lo hi =
    let m = make_move_typed t from to promo in
    ground (
      arith,
      bit_and_mask 2 (m >> 14),
      bit_and_mask 6 (m >> 6),
      bit_and_mask 6 m,
      bit_and_mask 2 (m >> 12),
    )

-- Every 16-bit word is the typed move of its decoded parts.
pub make_move_typed-decode :
    (m : ℕ)
    → m < 2 ^ 16
    → make_move_typed (move_type m) (move_from m) (move_to m) (move_promotion m) ≡ m
unfolding make_move_typed move_type move_from move_to move_promotion
make_move_typed-decode m h = ground (
  arith,
  bit_and_mask 2 (m >> 14),
  bit_and_mask 6 (m >> 6),
  bit_and_mask 6 m,
  bit_and_mask 2 (m >> 12),
)

abbrev flag : Bool → ℕ
flag add = if add then 1 else 0

-- The word as a sum of its fields.
dirty_threat_sum :
    (add : Bool) (pc tpc sq tsq : ℕ)
    → pc < 16
    → tpc < 16
    → sq < 256
    → tsq < 256
    → dirty_threat_make add pc tpc sq tsq
      ≡ flag add * 2 ^ 31 + pc * 2 ^ 20 + tpc * 2 ^ 16 + tsq * 2 ^ 8 + sq
unfolding dirty_threat_make
dirty_threat_sum add pc tpc sq tsq h1 h2 h3 h4 = ground (
  arith,
  bit_or_fields 24 (flag add * 128) (pc * 2 ^ 20),
  bit_or_fields 20 (flag add * 2048 + pc) (tpc * 2 ^ 16),
  bit_or_fields 16 (flag add * 32768 + pc * 16 + tpc) (tsq * 2 ^ 8),
  bit_or_fields 8 (flag add * 8388608 + pc * 4096 + tpc * 256 + tsq) sq,
)

-- A threat word of two piece codes below 16 and two square codes below 256 decodes to its five
-- parts.
dirty_threat_fields :
    (add : Bool) (pc tpc sq tsq : ℕ)
    → pc < 16
    → tpc < 16
    → sq < 256
    → tsq < 256
    → let d = dirty_threat_make add pc tpc sq tsq in
      (dirty_threat_add d ≡ add)
      × (dirty_threat_pc d ≡ pc)
      × (dirty_threat_threatened_pc d ≡ tpc)
      × (dirty_threat_pc_sq d ≡ sq)
      × (dirty_threat_threatened_sq d ≡ tsq)
unfolding dirty_threat_add dirty_threat_pc dirty_threat_threatened_pc dirty_threat_pc_sq
    dirty_threat_threatened_sq
dirty_threat_fields add pc tpc sq tsq h1 h2 h3 h4 =
    let d = dirty_threat_make add pc tpc sq tsq in
    ground (
      arith,
      dirty_threat_sum add pc tpc sq tsq,
      bit_and_mask 4 (d >> 20),
      bit_and_mask 4 (d >> 16),
      bit_and_mask 8 (d >> 8),
      bit_and_mask 8 d,
    )

-- A piece code splits into its colour and type, and the colour of the other side flips it.
pub make_piece_fields :
    (c : Color) (pt : ℕ)
    → pt < 8
    → (color_of_piece (make_piece c pt) ≡ c)
      × (type_of_piece (make_piece c pt) ≡ pt)
      × (flip_color (flip_color c) ≡ c)
unfolding make_piece color_of_piece type_of_piece flip_color
make_piece_fields white pt h = ground (arith, bit_and_mask 3 pt)
make_piece_fields black pt h = ground (arith, bit_and_mask 3 (8 + pt))

square_laws : ℕ → Bool
square_laws s =
    make_square (file_of s) (rank_of s) == s
    && flip_rank (flip_rank s) == s
    && file_of (flip_rank s) == file_of s
    && rank_of (flip_rank s) + rank_of s == 7
    && relative_rank black s == relative_rank white (flip_rank s)

square_laws_hold : passes square_laws 64 ≡ true
unfolding passes square_laws make_square file_of rank_of flip_rank relative_rank
square_laws_hold = refl

-- On the board, a square is that of its file and rank, mirroring keeps the file, reverses the rank
-- and undoes itself, and both sides agree on relative ranks.
pub flip_rank_lem :
    (s : ℕ)
    → s < 64
    → (make_square (file_of s) (rank_of s) ≡ s)
      × (flip_rank (flip_rank s) ≡ s)
      × (file_of (flip_rank s) ≡ file_of s)
      × (rank_of (flip_rank s) + rank_of s ≡ 7)
      × (relative_rank black s ≡ relative_rank white (flip_rank s))
unfolding square_laws
flip_rank_lem s h = ground (arith, passes_lem square_laws 64 s h square_laws_hold)
