-- ===== src/Lib.antt =====
-- A verification library for fcfish, a chess engine in C.
--
-- The engine's state is a `Position` (src/engine/board), which makes and takes back moves over a
-- chain of `StateInfo` records, and the tables that the searching threads share (src/engine/search):
-- the transposition table, the history tables of a NUMA node, and the root lines. The shell feeds
-- the engine FEN records and move texts. This library models these parts as functions:
--
-- Base: Boolean tests and list operations over the native numbers, signed integers, machine words
--   with the wrap-around written out, and bits of a number.
-- Board.Types, Board.Score: src/engine/board/types.h, score.h, score.c. A piece, a square and a
--   move are numbers as in the source; `make_move_typed`, `score_classify` and the others have the
--   source's names throughout.
-- Board.Placement: src/engine/board/position.c, the piece arrays of a `Position`, with `put_piece`,
--   `remove_piece`, `move_piece`, `swap_piece`, `do_castling`, and the part of `pos_do_move` and
--   `pos_undo_move` that moves pieces (`do_move_pieces`, `undo_move_pieces`). A board, a bitboard
--   array and the counts are functions of the index. Keys, rights and clocks are not in it.
-- Board.Flip, Board.Fen: `pos_flip_fen` of position.c and `pos_fen` of src/engine/board/fen.c, on
--   lists of character codes.
-- Board.Bitboard: src/engine/board/bitboard.h, sets of squares as words, and their shifts.
-- Board.Repetition: src/engine/board/repetition.c. The chain of states is a function of the plies
--   back, the cuckoo table two functions of the slot. The displacing loop runs on fuel, because its
--   end depends on the keys; the walks along the chain run on the window's length, which bounds them.
-- Board.StateList: src/engine/board/state_list.c, blocks as addresses with the set of live ones.
--   What stands in a block is not modelled.
-- Board.UciMove: src/engine/board/uci_move.c, both directions of the move text.
-- Search.Tt: src/engine/search/tt.h, tt.c. A `TTEntry *` is a `Slot`; the page allocator and the
--   order in which the pool's threads run are parameters. Each call is one step: unsynchronised
--   threads that interleave inside one save are not modelled.
-- Search.History: src/engine/search/history.h, history.c. Tables are functions of the flat index.
-- Search.RootPv: src/engine/search/root_pv.c, with `realloc` as a parameter. The doubling loop has
--   fuel 64, enough because a capacity of at least one passes every request in 62 doublings.
-- Search.Sort, Search.MovePick: src/engine/search/movepick.c. The sorts work on an array as a list
--   and a key; the picker is a record with the buffer of 256 entries, and each call of
--   `movepick_next` returns the move and the new picker. `drain` is the loop of the caller. The
--   `while` loops run on the number of entries that are left in the span, and `for (;;)` in
--   `generate_stage` goes round at most twice. `score_list` reads the board, the cached sets and the
--   tables of Search.History. Search.MovePick.Setup is how a node of src/engine/search/search_main.c
--   sets its picker up.
-- Platform.Numa: src/platform/numa.c, a topology as lists of processors and the map from a processor
--   to its node, and the reader of a topology text on character codes. An allocation is a question
--   to `grants`, by the number of bytes. The binary search has the number of processors as fuel,
--   which its span never passes. The doubling loops wrap at 64 bits as a size_t does and have fuel
--   64, enough for every request up to 2^63; beyond, the loops of the source need not end.
-- Platform.Thread: src/platform/thread.c. The idle loop and the caller of start, wait and join are
--   two sides that take turns in any order; a critical section, a broadcast and a job are one step
--   each, and a sleeping side goes on when it is woken, or spuriously.
-- Platform.WorkerPool: src/platform/worker_pool.c, the indices that the workers of a resize get on
--   their nodes, with which they clear the banks of Search.History (`worker_clear` of
--   src/engine/state/worker_construct.c), and the sums of their counters.
-- Examples: the theorems at concrete inputs.
--
-- Not modelled: attacks, move generation and legality, the search itself but for the set-up of its
-- picker, the network evaluation, the rest of the platform (the pool of threads, memory, clocks,
-- files), and the shell. Where the modelled code calls them they are parameters: the attack and
-- between tables, the list of legal moves, the generated lists, the exchange test and the test for a
-- legal move, the decimal printer, the distribution of threads to nodes, which is floating point,
-- and the outcome of an allocation.
pub mod Base
pub mod Board
pub mod Search
pub mod Platform
pub mod Examples
