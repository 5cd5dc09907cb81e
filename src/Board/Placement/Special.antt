-- ===== src/Board/Placement/Special.antt =====
-- src/engine/board/position.c: `pos_undo_move` takes back an en-passant capture and castling.
use fcfish.Base.{ℕ, ◌≡◌, ◌≢◌, ◌∙◌, ap, sym, arith, ◌⊎◌}
use fcfish.Board.Types.{no_piece}
use fcfish.Board.Placement.{Placement, put_piece, remove_piece, move_piece}
use fcfish.Board.Placement.Agree.{Agrees, IsPiece, put_piece-Agrees, remove_piece-Agrees}
use fcfish.Board.Placement.Steps.{
  put-board, remove-board, put-count, remove-count, less_more, more_less, restored,
}
use fcfish.Board.Placement.Undo.{Landed-back, quiet-Landed}

put-remove :
    (p : Placement) (s : ℕ)
    → Agrees p
    → IsPiece (p.board s)
    → put_piece (remove_piece p s) (p.board s) s ≡ p
put-remove p s a ok =
    restored p (put_piece p1 (p.board s) s) a
      (put_piece-Agrees p1 (remove_piece-Agrees p a s ok) (p.board s) s
        (ground (arith, remove-board p s s)) ok)
      (λ k. ground (arith, put-board p1 (p.board s) s k, remove-board p s k))
      (λ j.
        ground
          (arith, put-count p1 (p.board s) s j, remove-count p s j, less_more (p.piece_count j)))
  where
    p1 : Placement
    p1 = remove_piece p s

remove-put :
    (p : Placement) (pc s : ℕ)
    → Agrees p
    → IsPiece pc
    → p.board s ≡ no_piece
    → remove_piece (put_piece p pc s) s ≡ p
remove-put p pc s a ok e =
    restored p (remove_piece p1 s) a (remove_piece-Agrees p1 a1 s (rw here ok))
      (λ k. ground (arith, remove-board p1 s k, put-board p pc s k))
      (λ j.
        ground (arith, here, remove-count p1 s j, put-count p pc s j, more_less (p.piece_count j)))
  where
    p1 : Placement
    p1 = put_piece p pc s

    a1 : Agrees p1
    a1 = put_piece-Agrees p a pc s e ok

    here : p1.board s ≡ pc
    here = ground (arith, put-board p pc s s)

-- An en-passant capture of the pawn on `cap`, and its undoing.
pub en_passant_undo :
    (p : Placement) (from to cap : ℕ)
    → Agrees p
    → from ≢ to
    → IsPiece (p.board from)
    → p.board to ≡ no_piece
    → IsPiece (p.board cap)
    → cap ≢ from
    → cap ≢ to
    → put_piece (move_piece (move_piece (remove_piece p cap) from to) to from) (p.board cap) cap ≡ p
en_passant_undo p from to cap a ne ok e full nf nt =
    ap (λ q. put_piece q (p.board cap) cap)
      (Landed-back p1 a1 from to ne ok1 (move_piece p1 from to) e1
        (quiet-Landed p1 a1 from to ne ok1 e1))
    ∙ put-remove p cap a full
  where
    p1 : Placement
    p1 = remove_piece p cap

    a1 : Agrees p1
    a1 = remove_piece-Agrees p a cap full

    ok1 : IsPiece (p1.board from)
    ok1 = ground (arith, remove-board p cap from)

    e1 : p1.board to ≡ no_piece
    e1 = ground (arith, remove-board p cap to)

-- Castling and its undoing: the king on `from` goes to `kto`, the rook on `to` to `rto`.
pub castling_undo :
    (p : Placement) (from to kto rto : ℕ)
    → Agrees p
    → from ≢ to
    → kto ≢ rto
    → IsPiece (p.board from)
    → IsPiece (p.board to)
    → (p.board kto ≡ no_piece) ⊎ (kto ≡ from) ⊎ (kto ≡ to)
    → (p.board rto ≡ no_piece) ⊎ (rto ≡ from) ⊎ (rto ≡ to)
    → let done =
        put_piece
          (put_piece (remove_piece (remove_piece p to) from) (p.board from) kto)
          (p.board to)
          rto in
      put_piece
        (put_piece (remove_piece (remove_piece done rto) kto) (p.board from) from)
        (p.board to)
        to
      ≡ p
castling_undo p from to kto rto a ne nk king_ok rook_ok kfree rfree =
    ap (λ q. back (remove_piece q kto)) (remove-put p3 rk rto a3 rook_ok rto_empty)
    ∙ ap back (remove-put p2 kg kto a2 king_ok kto_empty)
    ∙ ap (λ q. put_piece q rk to)
        (ap (λ pc. put_piece p2 pc from) (sym from_kept)
          ∙ put-remove p1 from a1 (rw from_kept king_ok))
    ∙ put-remove p to a rook_ok
  where
    kg : ℕ
    kg = p.board from

    rk : ℕ
    rk = p.board to

    back : Placement → Placement
    back q = put_piece (put_piece q kg from) rk to

    p1 : Placement
    p1 = remove_piece p to

    a1 : Agrees p1
    a1 = remove_piece-Agrees p a to rook_ok

    from_kept : p1.board from ≡ kg
    from_kept = ground (arith, remove-board p to from)

    p2 : Placement
    p2 = remove_piece p1 from

    a2 : Agrees p2
    a2 = remove_piece-Agrees p1 a1 from (rw from_kept king_ok)

    kto_empty : p2.board kto ≡ no_piece
    kto_empty = ground (arith, remove-board p1 from kto, remove-board p to kto)

    p3 : Placement
    p3 = put_piece p2 kg kto

    a3 : Agrees p3
    a3 = put_piece-Agrees p2 a2 kg kto kto_empty king_ok

    rto_empty : p3.board rto ≡ no_piece
    rto_empty =
        ground (arith, put-board p2 kg kto rto, remove-board p1 from rto, remove-board p to rto)
