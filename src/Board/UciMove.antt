-- ===== src/Board/UciMove.antt =====
-- src/engine/board/uci_move.c: the text of a move, and the legal move that a text names.
-- A string is the list of its character codes. The list that `generate_legal` fills is a parameter.
pub mod Naming
pub mod Typed
use fcfish.Base.{
  ℕ, ◌+◌, ◌-◌, Bool, true, false, not, ◌&&◌, ◌==◌, leb, ltb, if◌then◌else◌, List, [], ◌∷◌, ◌++◌,
  map,
}
use fcfish.Board.Types.{
  MoveType, promotion, castling, move_none, move_null, move_from, move_to, move_type,
  move_promotion, make_square, rank_of, file_of,
}
use fcfish.Board.Placement.{is_promotion, is_castling}

abbrev pub square_text : ℕ → List ℕ
square_text s = (97 + file_of s) ∷ (49 + rank_of s) ∷ []

-- " pnbrqk"[pt].
abbrev pub promotion_char : ℕ → ℕ
promotion_char pt =
    if pt == 1
    then 112
    else if pt == 2
    then 110
    else if pt == 3
    then 98
    else if pt == 4
    then 114
    else if pt == 5
    then 113
    else if pt == 6
    then 107
    else 32

-- The square that the text names as the target.
unfoldable pub target : Bool → ℕ → ℕ
target chess960 m =
    if is_castling (move_type m) && not chess960
    then make_square (if ltb (move_from m) (move_to m) then 6 else 2) (rank_of (move_from m))
    else move_to m

-- "(none)" and "0000" for the two moves that are none.
unfoldable pub move_to_uci : Bool → ℕ → List ℕ
move_to_uci chess960 m =
    if m == move_none
    then 40 ∷ 110 ∷ 111 ∷ 110 ∷ 101 ∷ 41 ∷ []
    else if m == move_null
    then 48 ∷ 48 ∷ 48 ∷ 48 ∷ []
    else square_text (move_from m)
      ++ (square_text (target chess960 m)
          ++ (if is_promotion (move_type m) then promotion_char (move_promotion m) ∷ [] else []))

unfoldable pub lower : ℕ → ℕ
lower c = if leb 65 c && leb c 90 then c + 32 else c

unfoldable pub same_text : List ℕ → List ℕ → Bool
same_text [] [] = true
same_text [] (c ∷ t) = false
same_text (c ∷ s) [] = false
same_text (c ∷ s) (d ∷ t) = lower c == lower d && same_text s t

unfoldable pub move_from_uci : Bool → List ℕ → List ℕ → ℕ
move_from_uci chess960 [] str = move_none
move_from_uci chess960 (m ∷ legal) str =
    let rest = move_from_uci chess960 legal str in
    if same_text (move_to_uci chess960 m) str then m else rest
