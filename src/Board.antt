-- ===== src/Board.antt =====
-- src/engine/board: the modules of the board that are modelled.
pub mod Types
pub mod Score
pub mod Placement
pub mod Flip
pub mod Repetition
pub mod StateList
pub mod UciMove
pub mod Fen
pub mod Bitboard
