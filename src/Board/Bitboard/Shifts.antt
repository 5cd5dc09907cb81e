-- ===== src/Board/Bitboard/Shifts.antt =====
-- src/engine/board/bitboard.h: a shift moves each square one step, and drops it at the edge.
use fcfish.Base.{
  ℕ, ◌/◌, ◌%◌, ◌<◌, ◌≡◌, refl, Bool, true, false, not, ◌&&◌, ◌==◌, ==_iff, if◌then◌else◌, passes,
  passes_lem,
}
use fcfish.Board.Placement.{square_bb}
use fcfish.Board.Bitboard.{
  Direction, north, east, south, west, north_east, south_east, south_west, north_west, sq_add,
  shift_bb,
}

-- The steps that leave the last file, the first file, the last rank and the first rank.
abbrev pub goes_east : Direction → Bool
goes_east east = true
goes_east north_east = true
goes_east south_east = true
goes_east _ = false

abbrev pub goes_west : Direction → Bool
goes_west west = true
goes_west north_west = true
goes_west south_west = true
goes_west _ = false

abbrev pub goes_north : Direction → Bool
goes_north north = true
goes_north north_east = true
goes_north north_west = true
goes_north _ = false

abbrev pub goes_south : Direction → Bool
goes_south south = true
goes_south south_east = true
goes_south south_west = true
goes_south _ = false

-- The step from square `s` stays on the board.
abbrev pub stays : Direction → ℕ → Bool
stays d s =
    not (goes_east d && s % 8 == 7)
    && not (goes_west d && s % 8 == 0)
    && not (goes_north d && s / 8 == 7)
    && not (goes_south d && s / 8 == 0)

shifts_right : Direction → ℕ → Bool
shifts_right d s = shift_bb d (square_bb s) == (if stays d s then square_bb (sq_add s d) else 0)

all_shift_right : (d : Direction) → passes (shifts_right d) 64 ≡ true
unfolding passes shifts_right shift_bb sq_add
all_shift_right north = refl
all_shift_right east = refl
all_shift_right south = refl
all_shift_right west = refl
all_shift_right north_east = refl
all_shift_right south_east = refl
all_shift_right south_west = refl
all_shift_right north_west = refl

-- The shift of the set of one board square is the set of the square one step further, or empty where
-- the step leaves the board.
pub shift_bb-square_bb :
    (d : Direction) (s : ℕ)
    → s < 64
    → shift_bb d (square_bb s) ≡ (if stays d s then square_bb (sq_add s d) else 0)
unfolding shifts_right
shift_bb-square_bb d s h =
    (==_iff (shift_bb d (square_bb s)) (if stays d s then square_bb (sq_add s d) else 0)).0
      (passes_lem (shifts_right d) 64 s h (all_shift_right d))
