-- ===== src/Board/Fen/Ranks.antt =====
-- src/engine/board/fen.c: the text of a rank says what stands on each of its squares.
use fcfish.Base.{
  ℕ, zero, suc, ◌+◌, ◌-◌, ◌≤◌, ◌≡◌, refl, ap, sym, ◌∙◌, arith, true, false, ◌&&◌, ◌==◌, ==_iff, leb,
  ltb, if◌then◌else◌, Bool-cases, inl, inr, List, [], ◌∷◌, ◌++◌, replicate,
}
use fcfish.Board.Types.{make_square, no_piece}
use fcfish.Board.Fen.{piece_to_char, run, rank_from}

-- The characters that a rank's text stands for: a digit from 1 to 8 for so many spaces.
abbrev pub expand : List ℕ → List ℕ
expand [] = []
expand (c ∷ t) = if leb 49 c && leb c 56 then replicate (c - 48) 32 ++ expand t else c ∷ expand t

-- The characters of the squares of rank `r` from file `f` on.
abbrev pub cells : (ℕ → ℕ) → ℕ → ℕ → ℕ → List ℕ
cells board r f zero = []
cells board r f (suc rest) = piece_to_char (board (make_square f r)) ∷ cells board r (f + 1) rest

run-le : (board : ℕ → ℕ) (r f rest : ℕ) → run board r f rest ≤ rest
unfolding run
run-le board r f zero = omega arith
run-le board r f (suc rest) = ground (arith, run-le board r (f + 1) rest)

cells-run :
    (board : ℕ → ℕ) (r f rest : ℕ)
    → cells board r f rest
      ≡ replicate (run board r f rest) 32
        ++ cells board r (f + run board r f rest) (rest - run board r f rest)
unfolding run
cells-run board r f zero = refl
cells-run board r f (suc rest) = elim (Bool-cases (board (make_square f r) == no_piece)) [
  | inl e ↦ rw e (
      ap (λ pc. piece_to_char pc ∷ cells board r (f + 1) rest)
        ((==_iff (board (make_square f r)) no_piece).0 e)
      ∙ ap (λ t. 32 ∷ t) (cells-run board r (f + 1) rest ∙ ap (λ t. replicate n 32 ++ t) shifted))
  | inr e ↦ rw e (ap (λ g. cells board r g (suc rest)) stay ∙ ap (cells board r (f + 0)) whole)
]
  where
    n : ℕ
    n = run board r (f + 1) rest

    from : f + 1 + n ≡ f + suc n
    from = omega arith

    left : rest - n ≡ suc rest - suc n
    left = omega arith

    shifted : cells board r (f + 1 + n) (rest - n) ≡ cells board r (f + suc n) (suc rest - suc n)
    shifted = ap (λ g. cells board r g (rest - n)) from ∙ ap (cells board r (f + suc n)) left

    stay : f ≡ f + 0
    stay = omega arith

    whole : suc rest ≡ suc rest - 0
    whole = omega arith

piece-no_digit : (pc : ℕ) → (leb 49 (piece_to_char pc) && leb (piece_to_char pc) 56) ≡ false
piece-no_digit pc = ground arith

expand-piece :
    (board : ℕ → ℕ) (r f rest : ℕ) (further : List ℕ)
    → expand further ≡ cells board r (f + 1) (rest - 1)
    → expand (if ltb 0 rest then piece_to_char (board (make_square f r)) ∷ further else [])
      ≡ cells board r f rest
expand-piece board r f zero further h = refl
expand-piece board r f (suc rest) further h =
    let less : suc rest - 1 ≡ rest = omega arith in
    let some_left : ltb 0 (suc rest) ≡ true = ground arith in
    rw some_left (
      rw (piece-no_digit (board (make_square f r))) (
        ap (λ t. piece_to_char (board (make_square f r)) ∷ t)
          (h ∙ ap (cells board r (f + 1)) less)))

expand-run :
    (n : ℕ) (tail rest : List ℕ)
    → n ≤ 8
    → expand tail ≡ rest
    → expand (if n == 0 then tail else (48 + n) ∷ tail) ≡ replicate n 32 ++ rest
expand-run n tail rest h e = elim (Bool-cases (n == 0)) [
  | inl z ↦ rw z (e ∙ ap (λ k. replicate k 32 ++ rest) (sym ((==_iff n 0).0 z)))
  | inr z ↦
      let digit : (leb 49 (48 + n) && leb (48 + n) 56) ≡ true = ground (arith, z, h) in
      let count : 48 + n - 48 ≡ n = omega arith in
      rw z (rw digit (rw count (ap (λ t. replicate n 32 ++ t) e)))
]

-- The text of a rank of eight squares or fewer expands to the characters of its squares.
pub expand-rank_from :
    (board : ℕ → ℕ) (r fuel f rest : ℕ)
    → rest ≤ fuel
    → rest ≤ 8
    → expand (rank_from board r fuel f rest) ≡ cells board r f rest
unfolding rank_from
expand-rank_from board r zero f zero h k = refl
expand-rank_from board r zero f (suc rest) h k = absurd (omega (arith, h))
expand-rank_from board r (suc fuel) f rest h k =
    let n = run board r f rest in
    let le = run-le board r f rest in
    let later : ltb n rest ≡ ltb 0 (rest - n) = ground arith in
    let tail =
      expand-piece board r (f + n) (rest - n) (rank_from board r fuel (f + n + 1) (rest - n - 1)) (
        expand-rank_from board r fuel (f + n + 1) (rest - n - 1) (omega (arith, h))
          (omega (arith, k))) in
    rw later (
      expand-run n
        (if ltb 0 (rest - n)
          then piece_to_char (board (make_square (f + n) r))
            ∷ rank_from board r fuel (f + n + 1) (rest - n - 1)
          else [])
        (cells board r (f + n) (rest - n)) (omega (arith, le, k)) tail)
    ∙ sym (cells-run board r f rest)
