-- ===== src/Examples/Board.antt =====
-- src/engine/board: the board's theorems on concrete squares, moves and positions.
use fcfish.Base.{if◌then◌else◌, ◌≡◌, arith}
use fcfish.Board.Placement.{square_bb}
use fcfish.Board.Bitboard.{south_east, sq_add, shift_bb}
use fcfish.Board.Bitboard.Shifts.{stays, shift_bb-square_bb}
use fcfish.Board.Types.{make_move_typed, move_type, move_from, move_to, move_promotion}
use fcfish.Board.Types.Encoding.{make_move_typed-decode}

make_move_typed-decode_example :
    make_move_typed (move_type 65535) (move_from 65535) (move_to 65535) (move_promotion 65535)
    ≡ 65535
make_move_typed-decode_example = make_move_typed-decode 65535 (omega arith)

-- A step to the east from h4 leaves the board.
shift_bb-square_bb_example :
    shift_bb south_east (square_bb 31)
    ≡ (if stays south_east 31 then square_bb (sq_add 31 south_east) else 0)
shift_bb-square_bb_example = shift_bb-square_bb south_east 31 (omega arith)
