-- ===== src/Board/Placement.antt =====
-- src/engine/board/position.h, position.c: the piece placement of a position and the operations that
-- change it. An array indexed by squares, piece types, colours or pieces is a function of the index.
-- A call with a `DirtyThreats` also records threats there, which touches nothing of the position
-- and is not modelled.
pub mod Agree
pub mod Steps
pub mod Undo
pub mod Special
pub mod Moves
use fcfish.Base.{
  ℕ, ◌+◌, ◌-◌, ◌*◌, ◌^◌, Bool, true, false, not, ◌&&◌, ◌==◌, ltb, if◌then◌else◌, bit_and, bit_or,
  bit_xor,
}
use fcfish.Base.Words.{u8}
use fcfish.Base.Int.{ℤ, pos, ◌+ℤ◌, ◌-ℤ◌}
use fcfish.Board.Types.{
  Color, color_code, flip_color, MoveType, normal, promotion, en_passant, castling, move_from,
  move_to, move_type, move_promotion, make_piece, color_of_piece, type_of_piece, make_square,
  rank_of, pawn, rook, king, no_piece, white, black,
}

pub record Placement : Type 0 where
  pub board : ℕ → ℕ
  pub by_type : ℕ → ℕ
  pub by_color : ℕ → ℕ
  pub piece_count : ℕ → ℤ

abbrev pub square_bb : ℕ → ℕ
square_bb s = 2 ^ s

-- The write of one array cell.
abbrev pub update {ℓ} : {A : Type ℓ} → (ℕ → A) → ℕ → A → ℕ → A
update f i v j = if j == i then v else f j

-- `a[i] |= m` and `a[i] ^= m`.
unfoldable pub or_at : (ℕ → ℕ) → ℕ → ℕ → (ℕ → ℕ)
or_at f i m = update f i (bit_or (f i) m)

unfoldable pub xor_at : (ℕ → ℕ) → ℕ → ℕ → (ℕ → ℕ)
xor_at f i m = update f i (bit_xor (f i) m)

unfoldable pub put_piece : Placement → ℕ → ℕ → Placement
put_piece p pc s = record {
  board = update p.board s pc;
  by_type = or_at (or_at p.by_type 0 (square_bb s)) (type_of_piece pc) (square_bb s);
  by_color = or_at p.by_color (color_code (color_of_piece pc)) (square_bb s);
  piece_count = update p.piece_count pc (p.piece_count pc +ℤ pos 1);
}

unfoldable pub remove_piece : Placement → ℕ → Placement
remove_piece p s =
    let pc = p.board s in
    record {
      board = update p.board s no_piece;
      by_type = xor_at (xor_at p.by_type 0 (square_bb s)) (type_of_piece pc) (square_bb s);
      by_color = xor_at p.by_color (color_code (color_of_piece pc)) (square_bb s);
      piece_count = update p.piece_count pc (p.piece_count pc -ℤ pos 1);
    }

unfoldable pub move_piece : Placement → ℕ → ℕ → Placement
move_piece p from to =
    let pc = p.board from in
    let fromto = bit_or (square_bb from) (square_bb to) in
    record p {
      board = update (update p.board from no_piece) to pc;
      by_type = xor_at (xor_at p.by_type 0 fromto) (type_of_piece pc) fromto;
      by_color = xor_at p.by_color (color_code (color_of_piece pc)) fromto;
    }

unfoldable pub swap_piece : Placement → ℕ → ℕ → Placement
swap_piece p s pc = put_piece (remove_piece p s) pc s

-- The squares that castling between `from` and the rook's square `to` involves.
abbrev pub castling_rto : ℕ → ℕ → ℕ
castling_rto from to = make_square (if ltb from to then 5 else 3) (rank_of from)

abbrev pub castling_kto : ℕ → ℕ → ℕ
castling_kto from to = make_square (if ltb from to then 6 else 2) (rank_of from)

-- The four moves of pieces in `do_castling`, with its `undo` argument.
unfoldable pub do_castling : Placement → Color → ℕ → ℕ → Bool → Placement
do_castling p us from to undo =
    let rfrom = to in
    let rto = castling_rto from to in
    let kto = castling_kto from to in
    let p1 = remove_piece p (if undo then rto else rfrom) in
    let p2 = remove_piece p1 (if undo then kto else from) in
    let p3 = put_piece p2 (make_piece us king) (if undo then from else kto) in
    put_piece p3 (make_piece us rook) (if undo then rfrom else rto)

-- `sq_sub` by the mover's forward direction, NORTH or SOUTH; a Square is one byte.
abbrev pub square_behind : Color → ℕ → ℕ
square_behind white to = u8 (to + 248)
square_behind black to = u8 (to + 8)

abbrev pub is_promotion : MoveType → Bool
is_promotion promotion = true
is_promotion _ = false

abbrev pub is_castling : MoveType → Bool
is_castling castling = true
is_castling _ = false

abbrev pub is_en_passant : MoveType → Bool
is_en_passant en_passant = true
is_en_passant _ = false

-- The pieces that `pos_do_move` moves, for the side `us`, and the captured piece that it records.
unfoldable pub do_move_captured : Placement → Color → ℕ → ℕ
do_move_captured p us m =
    if is_castling (move_type m)
    then no_piece
    else if is_en_passant (move_type m)
    then make_piece (flip_color us) pawn
    else p.board (move_to m)

unfoldable pub do_move_pieces : Placement → Color → ℕ → Placement
do_move_pieces p us m =
    let from = move_from m in
    let to = move_to m in
    let pc = p.board from in
    let mt = move_type m in
    let captured = do_move_captured p us m in
    let to_pc = if is_promotion mt then make_piece us (move_promotion m) else pc in
    let p1 = if is_en_passant mt then remove_piece p (square_behind us to) else p in
    if is_castling mt
    then do_castling p us from to false
    else if not (captured == no_piece) && not (is_en_passant mt)
    then swap_piece (remove_piece p1 from) to to_pc
    else if pc == to_pc
    then move_piece p1 from to
    else put_piece (remove_piece p1 from) to_pc to

-- The pieces that `pos_undo_move` moves, for the side `us` that made the move, with the captured
-- piece that the state recorded.
unfoldable pub undo_move_pieces : Placement → Color → ℕ → ℕ → Placement
undo_move_pieces p us m captured =
    let from = move_from m in
    let to = move_to m in
    let mt = move_type m in
    let p1 = if is_promotion mt then swap_piece p to (make_piece us pawn) else p in
    let cap_sq = if is_en_passant mt then square_behind us to else to in
    let p2 = move_piece p1 to from in
    if is_castling mt
    then do_castling p1 us from to true
    else if not (captured == no_piece)
    then put_piece p2 captured cap_sq
    else p2
