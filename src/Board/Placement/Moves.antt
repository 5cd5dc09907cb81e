-- ===== src/Board/Placement/Moves.antt =====
-- src/engine/board/position.c: `pos_undo_move` takes back what `pos_do_move` did, for each type of
-- move.
use fcfish.Base.{
  ℕ, ◌≡◌, refl, ◌≢◌, ◌∙◌, ap, sym, arith, true, false, ◌==◌, ==_iff, ==_refl, Bool-cases, inl, inr,
  ◌⊎◌, ◌<◌, ◌/◌, ◌^◌,
}
use fcfish.Base.Bits.{bit_and_mask}
use fcfish.Board.Types.{
  Color, MoveType, normal, promotion, en_passant, castling, move_from, move_to, move_type,
  move_promotion, make_piece, flip_color, type_of_piece, no_piece, pawn, rook, king, make_square,
}
use fcfish.Board.Types.Encoding.{make_piece_fields}
use fcfish.Board.Placement.{
  Placement, put_piece, remove_piece, move_piece, swap_piece, castling_rto, castling_kto,
  do_castling, square_behind, do_move_captured, do_move_pieces, undo_move_pieces,
}
use fcfish.Board.Placement.Agree.{Agrees, IsPiece}
use fcfish.Board.Placement.Undo.{
  Landed-back, Landed-recapture, quiet-Landed, capture-Landed, promotion-Landed,
  promotion_capture-Landed,
}
use fcfish.Board.Placement.Special.{en_passant_undo, castling_undo}

abbrev pub IsTarget : Placement → ℕ → Type 0
IsTarget p s = (p.board s ≡ no_piece) ⊎ IsPiece (p.board s)

abbrev IsFree : Placement → ℕ → ℕ → ℕ → Type 0
IsFree p from to s = (p.board s ≡ no_piece) ⊎ (s ≡ from) ⊎ (s ≡ to)

-- The pieces stand as a move of each type finds them.
abbrev pub Fits : MoveType → Placement → Color → ℕ → ℕ → Type 0
Fits normal p us from to = (from ≢ to) × IsPiece (p.board from) × IsTarget p to
Fits promotion p us from to = (from ≢ to) × (p.board from ≡ make_piece us pawn) × IsTarget p to
Fits en_passant p us from to =
    (from ≢ to)
    × IsPiece (p.board from)
    × (p.board to ≡ no_piece)
    × (p.board (square_behind us to) ≡ make_piece (flip_color us) pawn)
    × (square_behind us to ≢ from)
    × (square_behind us to ≢ to)
Fits castling p us from to =
    (from ≢ to)
    × (p.board from ≡ make_piece us king)
    × (p.board to ≡ make_piece us rook)
    × IsFree p from to (castling_kto from to)
    × IsFree p from to (castling_rto from to)

IsPiece-make_piece : (c : Color) (pt : ℕ) → 0 < pt → pt < 8 → IsPiece (make_piece c pt)
IsPiece-make_piece c pt h k = omega (arith, make_piece_fields c pt k)

IsPiece-ne : (pc : ℕ) → IsPiece pc → (pc == no_piece) ≡ false
unfolding type_of_piece
IsPiece-ne pc ok = elim (Bool-cases (pc == no_piece)) [
  | inl t ↦ absurd (ok (ap type_of_piece ((==_iff pc no_piece).0 t)))
  | inr t ↦ t
]

promoted-IsPiece : (us : Color) (m : ℕ) → IsPiece (make_piece us (move_promotion m))
unfolding move_promotion
promoted-IsPiece us m =
    IsPiece-make_piece us (move_promotion m) (omega (arith, bit_and_mask 2 (m / 2 ^ 12)))
      (omega (arith, bit_and_mask 2 (m / 2 ^ 12)))

promoted-ne_pawn :
    (us : Color) (m pc : ℕ)
    → pc ≡ make_piece us pawn
    → (pc == make_piece us (move_promotion m)) ≡ false
unfolding move_promotion
promoted-ne_pawn us m pc e = elim (Bool-cases (pc == make_piece us (move_promotion m))) [
  | inl t ↦ absurd (clash ((==_iff pc (make_piece us (move_promotion m))).0 t))
  | inr t ↦ t
]
  where
    clash : pc ≢ make_piece us (move_promotion m)
    clash t = omega (
      arith,
      ap type_of_piece (sym e ∙ t),
      (make_piece_fields us pawn (omega arith)),
      (make_piece_fields us (move_promotion m) (omega (arith, bit_and_mask 2 (m / 2 ^ 12)))),
      bit_and_mask 2 (m / 2 ^ 12),
    )

castling_apart : (from to : ℕ) → castling_kto from to ≢ castling_rto from to
unfolding make_square
castling_apart from to = ground arith

undo-do_castle :
    (p : Placement) (us : Color) (from to : ℕ)
    → Agrees p
    → Fits castling p us from to
    → do_castling (do_castling p us from to false) us from to true ≡ p
unfolding do_castling
undo-do_castle p us from to a (ne, is_king, is_rook, kfree, rfree) = rw (sym is_king) (
    rw (sym is_rook) (
      castling_undo p from to (castling_kto from to) (castling_rto from to) a ne
        (castling_apart from to)
        (rw is_king (IsPiece-make_piece us king (omega arith) (omega arith)))
        (rw is_rook (IsPiece-make_piece us rook (omega arith) (omega arith))) kfree rfree))

module _ (p : Placement) (a : Agrees p) (us : Color) (m : ℕ) where
  undo-do_normal :
      move_type m ≡ normal
      → Fits normal p us (move_from m) (move_to m)
      → undo_move_pieces (do_move_pieces p us m) us m (do_move_captured p us m) ≡ p
  unfolding undo_move_pieces do_move_pieces do_move_captured
  undo-do_normal t (ne, ok, inl e) = rw t (
      rw e (
        rw (==_refl (p.board (move_from m))) (
          Landed-back p a (move_from m) (move_to m) ne ok (move_piece p (move_from m) (move_to m)) e
            (quiet-Landed p a (move_from m) (move_to m) ne ok e))))
  undo-do_normal t (ne, ok, inr full) = rw t (
      rw (IsPiece-ne (p.board (move_to m)) full) (
        Landed-recapture p a (move_from m) (move_to m) ne ok
          (swap_piece (remove_piece p (move_from m)) (move_to m) (p.board (move_from m))) full
          (capture-Landed p a (move_from m) (move_to m) ne ok full)))

  undo-do_promotion :
      move_type m ≡ promotion
      → Fits promotion p us (move_from m) (move_to m)
      → undo_move_pieces (do_move_pieces p us m) us m (do_move_captured p us m) ≡ p
  unfolding undo_move_pieces do_move_pieces do_move_captured
  undo-do_promotion t (ne, is_pawn, inl e) = rw t (
      rw e (
        rw (promoted-ne_pawn us m (p.board (move_from m)) is_pawn) (
          ap
            (λ pc.
              move_piece (swap_piece (put_piece (remove_piece p from) promoted to) to pc) to from)
            (sym is_pawn)
          ∙ Landed-back p a from to ne ok
              (swap_piece (put_piece (remove_piece p from) promoted to) to (p.board from)) e
              (promotion-Landed p a from to ne ok promoted e (promoted-IsPiece us m)))))
    where
      from : ℕ
      from = move_from m

      to : ℕ
      to = move_to m

      promoted : ℕ
      promoted = make_piece us (move_promotion m)

      ok : IsPiece (p.board from)
      ok = rw is_pawn (IsPiece-make_piece us pawn (omega arith) (omega arith))
  undo-do_promotion t (ne, is_pawn, inr full) = rw t (
      rw (IsPiece-ne (p.board (move_to m)) full) (
        ap
          (λ pc.
            put_piece
              (move_piece (swap_piece (swap_piece (remove_piece p from) to promoted) to pc) to from)
              (p.board to) to)
          (sym is_pawn)
        ∙ Landed-recapture p a from to ne ok
            (swap_piece (swap_piece (remove_piece p from) to promoted) to (p.board from)) full
            (promotion_capture-Landed p a from to ne ok promoted full (promoted-IsPiece us m))))
    where
      from : ℕ
      from = move_from m

      to : ℕ
      to = move_to m

      promoted : ℕ
      promoted = make_piece us (move_promotion m)

      ok : IsPiece (p.board from)
      ok = rw is_pawn (IsPiece-make_piece us pawn (omega arith) (omega arith))

  undo-do_en_passant :
      move_type m ≡ en_passant
      → Fits en_passant p us (move_from m) (move_to m)
      → undo_move_pieces (do_move_pieces p us m) us m (do_move_captured p us m) ≡ p
  unfolding undo_move_pieces do_move_pieces do_move_captured
  undo-do_en_passant t (ne, ok, e, cap, nf, nt) = rw t (
      rw (==_refl (p.board (move_from m))) (
        rw (IsPiece-ne taken taken-IsPiece) (
          ap
            (λ pc.
              put_piece (move_piece (move_piece (remove_piece p behind) from to) to from) pc behind)
            (sym cap)
          ∙ en_passant_undo p from to behind a ne ok e (rw cap taken-IsPiece) nf nt)))
    where
      from : ℕ
      from = move_from m

      to : ℕ
      to = move_to m

      behind : ℕ
      behind = square_behind us (move_to m)

      taken : ℕ
      taken = make_piece (flip_color us) pawn

      taken-IsPiece : IsPiece taken
      taken-IsPiece = IsPiece-make_piece (flip_color us) pawn (omega arith) (omega arith)

  undo-do_castling :
      move_type m ≡ castling
      → Fits castling p us (move_from m) (move_to m)
      → undo_move_pieces (do_move_pieces p us m) us m (do_move_captured p us m) ≡ p
  unfolding undo_move_pieces do_move_pieces do_move_captured
  undo-do_castling t ok = rw t (undo-do_castle p us (move_from m) (move_to m) a ok)

  undo_cases :
      (mt : MoveType)
      → move_type m ≡ mt
      → Fits mt p us (move_from m) (move_to m)
      → undo_move_pieces (do_move_pieces p us m) us m (do_move_captured p us m) ≡ p
  undo_cases normal = undo-do_normal
  undo_cases promotion = undo-do_promotion
  undo_cases en_passant = undo-do_en_passant
  undo_cases castling = undo-do_castling

-- Where the bitboards agree with the board and the squares of a move hold what its type asks for,
-- the undoing of the move, with the captured piece that making it recorded, gives back the board,
-- the bitboards and the piece counts, for moves of every type.
pub undo_move_pieces-do_move_pieces :
    (p : Placement) (us : Color) (m : ℕ)
    → Agrees p
    → Fits (move_type m) p us (move_from m) (move_to m)
    → undo_move_pieces (do_move_pieces p us m) us m (do_move_captured p us m) ≡ p
undo_move_pieces-do_move_pieces p us m a ok = undo_cases p a us m (move_type m) refl ok
