-- ===== src/Examples/Placement.antt =====
-- src/engine/board/position.c: castling on a board of a king and a rook, done and undone.
use fcfish.Base.{ℕ, zero, suc, sym, ◌∙◌, ◌≡◌, refl, arith, false, inl}
use fcfish.Base.Int.{pos}
use fcfish.Base.Bits.{bit}
use fcfish.Board.Types.{
  white, type_of_piece, make_piece, make_square, rank_of, castling, make_move_typed, move_type,
  move_from, move_to,
}
use fcfish.Board.Placement.{
  Placement, put_piece, do_move_pieces, do_move_captured, undo_move_pieces,
}
use fcfish.Board.Placement.Agree.{Agrees, IsPiece, has_type, put_piece-Agrees}
use fcfish.Board.Placement.Moves.{Fits, undo_move_pieces-do_move_pieces}

abbrev empty_board : Placement
empty_board = record {
  board = λ s. 0;
  by_type = λ pt. 0;
  by_color = λ c. 0;
  piece_count = λ pc. pos 0;
}

abbrev with_king : Placement
with_king = put_piece empty_board 6 4

-- The white king on e1 and the white rook on h1.
abbrev castling_board : Placement
castling_board = put_piece with_king 4 7

abbrev short_castling : ℕ
short_castling = make_move_typed castling 4 7 2

no_bits : (k : ℕ) → bit 0 k ≡ false
no_bits zero = refl
no_bits (suc k) = no_bits k

no_type : (pt : ℕ) → has_type 0 pt ≡ false
unfolding type_of_piece
no_type zero = refl
no_type (suc pt) = ground arith

empty_board-Agrees : Agrees empty_board
empty_board-Agrees = record {
  types = λ pt k. no_bits k ∙ sym (no_type pt);
  colors = λ c k. no_bits k;
}

king-IsPiece : IsPiece 6
unfolding type_of_piece
king-IsPiece = omega arith

rook-IsPiece : IsPiece 4
unfolding type_of_piece
rook-IsPiece = omega arith

castling_board-Agrees : Agrees castling_board
unfolding put_piece
castling_board-Agrees =
    put_piece-Agrees with_king
      (put_piece-Agrees empty_board empty_board-Agrees 6 4 refl king-IsPiece) 4 7 refl rook-IsPiece

short_castling-Fits :
    Fits
      (move_type short_castling)
      castling_board
      white
      (move_from short_castling)
      (move_to short_castling)
unfolding put_piece make_move_typed move_type move_from move_to make_piece make_square rank_of
short_castling-Fits = (omega arith, refl, refl, inl refl, inl refl)

undo_move_pieces-do_move_pieces_example :
    undo_move_pieces
      (do_move_pieces castling_board white short_castling)
      white
      short_castling
      (do_move_captured castling_board white short_castling)
    ≡ castling_board
undo_move_pieces-do_move_pieces_example =
    undo_move_pieces-do_move_pieces castling_board white short_castling castling_board-Agrees
      short_castling-Fits
