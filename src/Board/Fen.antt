-- ===== src/Board/Fen.antt =====
-- src/engine/board/fen.c: `pos_fen`, the FEN record of a position, as a list of character codes.
-- `sprintf` of a number is the parameter `decimal`.
pub mod Ranks
use fcfish.Base.{
  ℕ, zero, suc, ◌+◌, ◌-◌, ◌/◌, Bool, true, false, not, ◌&&◌, ◌==◌, leb, ltb, if◌then◌else◌, List,
  [], ◌∷◌, ◌++◌, bit_and,
}
use fcfish.Board.Types.{
  Color, white, black, color_code, make_square, rank_of, file_of, sq_none, no_piece,
}

-- The table " PNBRQK  pnbrqk".
abbrev pub piece_to_char : ℕ → ℕ
piece_to_char pc =
    if pc == 1
    then 80
    else if pc == 2
    then 78
    else if pc == 3
    then 66
    else if pc == 4
    then 82
    else if pc == 5
    then 81
    else if pc == 6
    then 75
    else if pc == 9
    then 112
    else if pc == 10
    then 110
    else if pc == 11
    then 98
    else if pc == 12
    then 114
    else if pc == 13
    then 113
    else if pc == 14
    then 107
    else 32

-- What the record says of a position.
pub record FenPosition : Type 0 where
  pub board : ℕ → ℕ
  pub side_to_move : Color
  pub castling_rights : ℕ
  pub castling_rook_square : ℕ → ℕ
  pub chess960 : Bool
  pub ep_square : ℕ
  pub rule50 : ℕ
  pub game_ply : ℕ

-- The empty squares of rank `r` from file `f` on, among `rest`.
unfoldable pub run : (ℕ → ℕ) → ℕ → ℕ → ℕ → ℕ
run board r f zero = 0
run board r f (suc rest) =
    let further = run board r (f + 1) rest in
    if board (make_square f r) == no_piece then suc further else 0

-- The loop over the files, with `rest` of them left from file `f` on.
unfoldable pub rank_from : (ℕ → ℕ) → ℕ → ℕ → ℕ → ℕ → List ℕ
rank_from board r zero f rest = []
rank_from board r (suc fuel) f rest =
    let e = run board r f rest in
    let further = rank_from board r fuel (f + e + 1) (rest - e - 1) in
    let tail = if ltb e rest then piece_to_char (board (make_square (f + e) r)) ∷ further else [] in
    if e == 0 then tail else (48 + e) ∷ tail

unfoldable pub ranks_from : (ℕ → ℕ) → ℕ → List ℕ
ranks_from board zero = rank_from board 0 8 0 8
ranks_from board (suc r) = rank_from board (suc r) 8 0 8 ++ (47 ∷ ranks_from board r)

-- The letter of one right, if it is there: the rook's file in Chess960.
unfoldable pub right_text : FenPosition → ℕ → ℕ → ℕ → List ℕ
right_text p right first letter =
    if bit_and p.castling_rights right == 0
    then []
    else (if p.chess960 then first + file_of (p.castling_rook_square right) else letter) ∷ []

unfoldable pub rights_text : FenPosition → List ℕ
rights_text p =
    if p.castling_rights == 0
    then 45 ∷ []
    else right_text p 1 65 75
      ++ (right_text p 2 65 81 ++ (right_text p 4 97 107 ++ right_text p 8 97 113))

unfoldable pub pos_fen : (ℕ → List ℕ) → FenPosition → List ℕ
pos_fen decimal p =
    ranks_from p.board 7
    ++ (32
        ∷ (if color_code p.side_to_move == 0 then 119 else 98)
        ∷ 32
        ∷ (rights_text p
            ++ (32
                ∷ ((if p.ep_square == sq_none
                      then 45 ∷ []
                      else (97 + file_of p.ep_square) ∷ (49 + rank_of p.ep_square) ∷ [])
                    ++ (32
                        ∷ (decimal p.rule50
                            ++ (32
                                ∷ decimal (1 + (p.game_ply - color_code p.side_to_move) / 2))))))))
