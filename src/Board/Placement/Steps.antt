-- ===== src/Board/Placement/Steps.antt =====
-- src/engine/board/position.c: the board and the counts after each operation, and when two
-- placements are the same.
use fcfish.Base.{
  ℕ, ◌≡◌, refl, ◌∙◌, ap, sym, arith, ◌==◌, ==_iff, if◌then◌else◌, Bool-cases, inl, inr,
}
use mathlib.Core.Path.{fun_ext}
use fcfish.Base.Int.{ℤ, pos, ◌+ℤ◌, ◌-ℤ◌, int_laws}
use fcfish.Board.Types.{no_piece}
use fcfish.Board.Placement.{Placement, update, put_piece, remove_piece, move_piece, swap_piece}
use fcfish.Board.Placement.Agree.{Agrees, Agrees-unique}

pub put-board :
    (p : Placement) (pc s k : ℕ) → (put_piece p pc s).board k ≡ (if k == s then pc else p.board k)
unfolding put_piece
put-board p pc s k = refl

pub remove-board :
    (p : Placement) (s k : ℕ)
    → (remove_piece p s).board k ≡ (if k == s then no_piece else p.board k)
unfolding remove_piece
remove-board p s k = refl

pub move-board :
    (p : Placement) (from to k : ℕ)
    → (move_piece p from to).board k
      ≡ (if k == to then p.board from else if k == from then no_piece else p.board k)
unfolding move_piece
move-board p from to k = refl

pub swap-board :
    (p : Placement) (s pc k : ℕ) → (swap_piece p s pc).board k ≡ (if k == s then pc else p.board k)
unfolding swap_piece put_piece remove_piece
swap-board p s pc k = ground arith

-- One more, or one less, of the piece.
abbrev pub gained : (ℕ → ℤ) → ℕ → (ℕ → ℤ)
gained f pc j = if j == pc then f j +ℤ pos 1 else f j

abbrev pub lost : (ℕ → ℤ) → ℕ → (ℕ → ℤ)
lost f pc j = if j == pc then f j -ℤ pos 1 else f j

update-gained : (f : ℕ → ℤ) (pc j : ℕ) → update f pc (f pc +ℤ pos 1) j ≡ gained f pc j
update-gained f pc j = elim (Bool-cases (j == pc)) [
  | inl t ↦ rw t (ap (λ n. f n +ℤ pos 1) (sym ((==_iff j pc).0 t)))
  | inr t ↦ rw t refl
]

update-lost : (f : ℕ → ℤ) (pc j : ℕ) → update f pc (f pc -ℤ pos 1) j ≡ lost f pc j
update-lost f pc j = elim (Bool-cases (j == pc)) [
  | inl t ↦ rw t (ap (λ n. f n -ℤ pos 1) (sym ((==_iff j pc).0 t)))
  | inr t ↦ rw t refl
]

pub put-count :
    (p : Placement) (pc s j : ℕ) → (put_piece p pc s).piece_count j ≡ gained p.piece_count pc j
unfolding put_piece
put-count p pc s j = update-gained p.piece_count pc j

pub remove-count :
    (p : Placement) (s j : ℕ) → (remove_piece p s).piece_count j ≡ lost p.piece_count (p.board s) j
unfolding remove_piece
remove-count p s j = update-lost p.piece_count (p.board s) j

pub move-count :
    (p : Placement) (from to j : ℕ) → (move_piece p from to).piece_count j ≡ p.piece_count j
unfolding move_piece
move-count p from to j = refl

pub swap-count :
    (p : Placement) (s pc j : ℕ)
    → (swap_piece p s pc).piece_count j ≡ (
        if j == pc
        then lost p.piece_count (p.board s) j +ℤ pos 1
        else lost p.piece_count (p.board s) j)
unfolding swap_piece
swap-count p s pc j =
    put-count (remove_piece p s) pc s j
    ∙ ap (λ x. if j == pc then x +ℤ pos 1 else x) (remove-count p s j)

pub less_more : (x : ℤ) → x -ℤ pos 1 +ℤ pos 1 ≡ x
less_more x = omega int_laws

pub more_less : (x : ℤ) → x +ℤ pos 1 -ℤ pos 1 ≡ x
more_less x = omega int_laws

-- A placement that agrees with its board is restored once the board and the counts are.
pub restored :
    (p q : Placement)
    → Agrees p
    → Agrees q
    → ((k : ℕ) → q.board k ≡ p.board k)
    → ((j : ℕ) → q.piece_count j ≡ p.piece_count j)
    → q ≡ p
restored p q a b board count =
    let (types, colors) = Agrees-unique q p b a (fun_ext board) in
    λ i. record {
      board = λ k. board k i;
      by_type = types i;
      by_color = colors i;
      piece_count = λ j. count j i;
    }
