-- ===== src/Board/Placement/Undo.antt =====
-- src/engine/board/position.c: `pos_undo_move` takes back a piece that `pos_do_move` moved
-- to its square.
use fcfish.Base.{ℕ, ◌≡◌, ◌≢◌, ◌∙◌, arith, ◌==◌, if◌then◌else◌}
use fcfish.Base.Int.{ℤ, pos, ◌-ℤ◌}
use fcfish.Board.Types.{no_piece}
use fcfish.Board.Placement.{Placement, put_piece, remove_piece, move_piece, swap_piece}
use fcfish.Board.Placement.Agree.{
  Agrees, IsPiece, put_piece-Agrees, remove_piece-Agrees, move_piece-Agrees, swap_piece-Agrees,
}
use fcfish.Board.Placement.Steps.{
  put-board, remove-board, move-board, swap-board, put-count, remove-count, move-count, swap-count,
  less_more, more_less, lost, restored,
}

-- A piece of `p` has gone from `from` to `to`, and the counts are `count`.
pub record Landed (p : Placement) (from to : ℕ) (count : ℕ → ℤ) (q : Placement) : Type 0 where
  pub agrees : Agrees q
  pub board :
      (k : ℕ)
      → q.board k ≡ (if k == to then p.board from else if k == from then no_piece else p.board k)
  pub counts : (j : ℕ) → q.piece_count j ≡ count j

module _ (p : Placement) (a : Agrees p) (from to : ℕ) (ne : from ≢ to)
    (ok : IsPiece (p.board from)) where
  -- Moving the piece back.
  pub Landed-back :
      (q : Placement)
      → p.board to ≡ no_piece
      → Landed p from to p.piece_count q
      → move_piece q to from ≡ p
  Landed-back q e l =
      restored p (move_piece q to from) a
        (move_piece-Agrees q l.agrees to from (ground (arith, l.board to))
          (ground (arith, l.board from)))
        (λ k. ground (arith, move-board q to from k, l.board k, l.board to))
        (λ j. move-count q to from j ∙ l.counts j)

  -- Moving it back and putting the captured piece back.
  pub Landed-recapture :
      (q : Placement)
      → IsPiece (p.board to)
      → Landed p from to (lost p.piece_count (p.board to)) q
      → put_piece (move_piece q to from) (p.board to) to ≡ p
  Landed-recapture q full l =
      restored p (put_piece q' (p.board to) to) a
        (put_piece-Agrees q'
          (move_piece-Agrees q l.agrees to from (ground (arith, l.board to))
            (ground (arith, l.board from)))
          (p.board to) to (ground (arith, move-board q to from to)) full)
        (λ k.
          ground
            (arith, put-board q' (p.board to) to k, move-board q to from k, l.board k, l.board to))
        (λ j. ground (
          arith,
          put-count q' (p.board to) to j,
          move-count q to from j,
          l.counts j,
          less_more (p.piece_count j),
        ))
    where
      q' : Placement
      q' = move_piece q to from

  pub quiet-Landed : p.board to ≡ no_piece → Landed p from to p.piece_count (move_piece p from to)
  quiet-Landed e = record {
    agrees = move_piece-Agrees p a from to ok e;
    board = λ k. move-board p from to k;
    counts = λ j. move-count p from to j;
  }

  lifted-Agrees : Agrees (remove_piece p from)
  lifted-Agrees = remove_piece-Agrees p a from ok

  pub capture-Landed :
      IsPiece (p.board to)
      → Landed p from to
          (lost p.piece_count (p.board to))
          (swap_piece (remove_piece p from) to (p.board from))
  capture-Landed full = record {
    agrees =
        swap_piece-Agrees p1 to (p.board from) lifted-Agrees
          (ground (arith, remove-board p from to)) ok;
    board = λ k. ground (arith, swap-board p1 to (p.board from) k, remove-board p from k);
    counts = λ j. ground (
      arith,
      swap-count p1 to (p.board from) j,
      remove-board p from to,
      remove-count p from j,
      less_more (p.piece_count j),
      less_more (p.piece_count j -ℤ pos 1),
    );
  }
    where
      p1 : Placement
      p1 = remove_piece p from

  -- A promotion to `promoted`, and the pawn put back in its place.
  pub promotion-Landed :
      (promoted : ℕ)
      → p.board to ≡ no_piece
      → IsPiece promoted
      → Landed p from to p.piece_count
          (swap_piece (put_piece (remove_piece p from) promoted to) to (p.board from))
  promotion-Landed promoted e fine = record {
    agrees =
        swap_piece-Agrees p2 to (p.board from)
          (put_piece-Agrees p1 lifted-Agrees promoted to (ground (arith, remove-board p from to))
            fine)
          (ground (arith, put-board p1 promoted to to)) ok;
    board = λ k. ground (
      arith,
      swap-board p2 to (p.board from) k,
      put-board p1 promoted to k,
      remove-board p from k,
    );
    counts = λ j. ground (
      arith,
      swap-count p2 to (p.board from) j,
      put-board p1 promoted to to,
      put-count p1 promoted to j,
      remove-count p from j,
      less_more (p.piece_count j),
      more_less (p.piece_count j),
      more_less (p.piece_count j -ℤ pos 1),
    );
  }
    where
      p1 : Placement
      p1 = remove_piece p from

      p2 : Placement
      p2 = put_piece p1 promoted to

  pub promotion_capture-Landed :
      (promoted : ℕ)
      → IsPiece (p.board to)
      → IsPiece promoted
      → Landed p from to
          (lost p.piece_count (p.board to))
          (swap_piece (swap_piece (remove_piece p from) to promoted) to (p.board from))
  promotion_capture-Landed promoted full fine = record {
    agrees =
        swap_piece-Agrees p2 to (p.board from)
          (swap_piece-Agrees p1 to promoted lifted-Agrees (ground (arith, remove-board p from to))
            fine)
          (ground (arith, swap-board p1 to promoted to)) ok;
    board = λ k. ground (
      arith,
      swap-board p2 to (p.board from) k,
      swap-board p1 to promoted k,
      remove-board p from k,
    );
    counts = λ j. ground (
      arith,
      swap-count p2 to (p.board from) j,
      swap-board p1 to promoted to,
      swap-count p1 to promoted j,
      remove-board p from to,
      remove-count p from j,
      less_more (p.piece_count j),
      more_less (p.piece_count j),
      less_more (p.piece_count j -ℤ pos 1),
      more_less (p.piece_count j -ℤ pos 1),
      more_less (p.piece_count j -ℤ pos 1 -ℤ pos 1),
    );
  }
    where
      p1 : Placement
      p1 = remove_piece p from

      p2 : Placement
      p2 = swap_piece p1 to promoted
