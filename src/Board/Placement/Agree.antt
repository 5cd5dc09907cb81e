-- ===== src/Board/Placement/Agree.antt =====
-- src/engine/board/position.c: the bitboards agree with the board, and every operation keeps that.
use fcfish.Base.{
  ℕ, ◌≡◌, refl, ◌≢◌, ◌∙◌, ap, sym, arith, Bool, not, ◌&&◌, ◌||◌, ◌==◌, ==_iff, if◌then◌else◌,
  Bool-cases, inl, inr, bit_or,
}
use mathlib.Core.Bool.{xor}
use mathlib.Core.Path.{fun_ext}
use fcfish.Base.Bits.{bit, bit-bit_or, bit-bit_xor, bit-pow, bits_ext}
use fcfish.Board.Types.{color_code, color_of_piece, type_of_piece, no_piece}
use fcfish.Board.Placement.{
  Placement, square_bb, or_at, xor_at, put_piece, remove_piece, move_piece, swap_piece,
}

-- Square `k` in the set of type `pt`, where type 0 stands for all pieces.
abbrev pub has_type : ℕ → ℕ → Bool
has_type pc pt = if pt == 0 then not (pc == no_piece) else type_of_piece pc == pt

abbrev pub has_color : ℕ → ℕ → Bool
has_color pc c = not (pc == no_piece) && c == color_code (color_of_piece pc)

pub record Agrees (p : Placement) : Type 0 where
  pub types : (pt k : ℕ) → bit (p.by_type pt) k ≡ has_type (p.board k) pt
  pub colors : (c k : ℕ) → bit (p.by_color c) k ≡ has_color (p.board k) c

bit-or_at : (f : ℕ → ℕ) (i m j k : ℕ) → bit (or_at f i m j) k ≡ bit (f j) k || (j == i && bit m k)
unfolding or_at
bit-or_at f i m j k = elim (Bool-cases (j == i)) [
  | inl t ↦ rw t (bit-bit_or k (f i) m ∙ ap (λ n. bit (f n) k || bit m k) (sym ((==_iff j i).0 t)))
  | inr t ↦ rw t (ground arith)
]

bit-xor_at :
    (f : ℕ → ℕ) (i m j k : ℕ) → bit (xor_at f i m j) k ≡ xor (bit (f j) k) (j == i && bit m k)
unfolding xor_at xor
bit-xor_at f i m j k = elim (Bool-cases (j == i)) [
  | inl t ↦
      rw t (bit-bit_xor k (f i) m ∙ ap (λ n. xor (bit (f n) k) (bit m k)) (sym ((==_iff j i).0 t)))
  | inr t ↦ rw t (ground arith)
]

-- The codes of pieces: the type is not 0.
abbrev pub IsPiece : ℕ → Type 0
IsPiece pc = type_of_piece pc ≢ 0

type_zero : type_of_piece no_piece ≡ 0
unfolding type_of_piece
type_zero = refl

module _ (p : Placement) (a : Agrees p) where
  put_types :
      (pc s pt k : ℕ)
      → p.board s ≡ no_piece
      → IsPiece pc
      → bit ((put_piece p pc s).by_type pt) k ≡ has_type ((put_piece p pc s).board k) pt
  unfolding put_piece
  put_types pc s pt k e ok = ground (
    arith,
    bit-or_at (or_at p.by_type 0 (square_bb s)) (type_of_piece pc) (square_bb s) pt k,
    bit-or_at p.by_type 0 (square_bb s) pt k,
    bit-pow s k,
    a.types pt k,
    type_zero,
  )

  put_colors :
      (pc s c k : ℕ)
      → p.board s ≡ no_piece
      → IsPiece pc
      → bit ((put_piece p pc s).by_color c) k ≡ has_color ((put_piece p pc s).board k) c
  unfolding put_piece
  put_colors pc s c k e ok = ground (
    arith,
    bit-or_at p.by_color (color_code (color_of_piece pc)) (square_bb s) c k,
    bit-pow s k,
    a.colors c k,
    type_zero,
  )

  -- Putting a piece on an empty square keeps the agreement.
  pub put_piece-Agrees : (pc s : ℕ) → p.board s ≡ no_piece → IsPiece pc → Agrees (put_piece p pc s)
  put_piece-Agrees pc s e ok = record {
    types = λ pt k. put_types pc s pt k e ok;
    colors = λ c k. put_colors pc s c k e ok;
  }

  remove_types :
      (s pt k : ℕ)
      → IsPiece (p.board s)
      → bit ((remove_piece p s).by_type pt) k ≡ has_type ((remove_piece p s).board k) pt
  unfolding remove_piece xor
  remove_types s pt k ok = ground (
    arith,
    bit-xor_at (xor_at p.by_type 0 (square_bb s)) (type_of_piece (p.board s)) (square_bb s) pt k,
    bit-xor_at p.by_type 0 (square_bb s) pt k,
    bit-pow s k,
    a.types pt k,
    type_zero,
  )

  remove_colors :
      (s c k : ℕ)
      → IsPiece (p.board s)
      → bit ((remove_piece p s).by_color c) k ≡ has_color ((remove_piece p s).board k) c
  unfolding remove_piece xor
  remove_colors s c k ok = ground (
    arith,
    bit-xor_at p.by_color (color_code (color_of_piece (p.board s))) (square_bb s) c k,
    bit-pow s k,
    a.colors c k,
    type_zero,
  )

  -- Removing the piece of an occupied square keeps it.
  pub remove_piece-Agrees : (s : ℕ) → IsPiece (p.board s) → Agrees (remove_piece p s)
  remove_piece-Agrees s ok = record {
    types = λ pt k. remove_types s pt k ok;
    colors = λ c k. remove_colors s c k ok;
  }

  move_types :
      (from to pt k : ℕ)
      → IsPiece (p.board from)
      → p.board to ≡ no_piece
      → bit ((move_piece p from to).by_type pt) k ≡ has_type ((move_piece p from to).board k) pt
  unfolding move_piece xor
  move_types from to pt k ok e = ground (
    arith,
    bit-xor_at (xor_at p.by_type 0 (bit_or (square_bb from) (square_bb to)))
        (type_of_piece (p.board from)) (bit_or (square_bb from) (square_bb to)) pt k,
    bit-xor_at p.by_type 0 (bit_or (square_bb from) (square_bb to)) pt k,
    bit-bit_or k (square_bb from) (square_bb to),
    bit-pow from k,
    bit-pow to k,
    a.types pt k,
    type_zero,
  )

  move_colors :
      (from to c k : ℕ)
      → IsPiece (p.board from)
      → p.board to ≡ no_piece
      → bit ((move_piece p from to).by_color c) k ≡ has_color ((move_piece p from to).board k) c
  unfolding move_piece xor
  move_colors from to c k ok e = ground (
    arith,
    bit-xor_at p.by_color (color_code (color_of_piece (p.board from)))
        (bit_or (square_bb from) (square_bb to)) c k,
    bit-bit_or k (square_bb from) (square_bb to),
    bit-pow from k,
    bit-pow to k,
    a.colors c k,
    type_zero,
  )

  -- Moving a piece to an empty square keeps it.
  pub move_piece-Agrees :
      (from to : ℕ) → IsPiece (p.board from) → p.board to ≡ no_piece → Agrees (move_piece p from to)
  move_piece-Agrees from to ok e = record {
    types = λ pt k. move_types from to pt k ok e;
    colors = λ c k. move_colors from to c k ok e;
  }

remove-board_self : (p : Placement) (s : ℕ) → (remove_piece p s).board s ≡ no_piece
unfolding remove_piece
remove-board_self p s = ground arith

-- Replacing the piece of an occupied square keeps it.
pub swap_piece-Agrees :
    (p : Placement) (s pc : ℕ)
    → Agrees p
    → IsPiece (p.board s)
    → IsPiece pc
    → Agrees (swap_piece p s pc)
unfolding swap_piece
swap_piece-Agrees p s pc a old new =
    put_piece-Agrees (remove_piece p s) (remove_piece-Agrees p a s old) pc s (remove-board_self p s)
      new

-- The board determines the bitboards.
pub Agrees-unique :
    (p q : Placement)
    → Agrees p
    → Agrees q
    → p.board ≡ q.board
    → (p.by_type ≡ q.by_type) × (p.by_color ≡ q.by_color)
Agrees-unique p q a b e = (
  fun_ext λ pt.
      bits_ext (p.by_type pt) (q.by_type pt)
        λ k. a.types pt k ∙ ap (λ f. has_type (f k) pt) e ∙ sym (b.types pt k),
  fun_ext λ c.
      bits_ext (p.by_color c) (q.by_color c)
        λ k. a.colors c k ∙ ap (λ f. has_color (f k) c) e ∙ sym (b.colors c k),
)
