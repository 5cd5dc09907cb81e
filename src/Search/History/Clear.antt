-- ===== src/Search/History/Clear.antt =====
-- src/engine/search/history.c: `history_clear` of one worker. A table is the function from its flat
-- index, the shared bank that of its three tables.
use fcfish.Base.{ℕ, ◌*◌, ◌&&◌, ◌==◌, leb, ltb, if◌then◌else◌, List, [], ◌∷◌}
use fcfish.Base.Int.{ℤ, pos, negsuc}
use fcfish.Search.History.{square_nb, hist_pieceto, continuation_pages, BankSizes, stripe}

-- The store of one value to the entries from `lo` to before `hi`.
abbrev pub fill : ℕ → ℕ → ℤ → (ℕ → ℤ) → (ℕ → ℤ)
fill lo hi v table i = if leb lo i && ltb i hi then v else table i

-- The tables of one worker.
pub record WorkerTables : Type 0 where
  pub main_history : ℕ → ℤ
  pub capture_history : ℕ → ℤ
  pub tt_move_history : ℤ
  pub continuation_correction_history : ℕ → ℤ
  pub low_ply_history : ℕ → ℤ

pub record SharedTables : Type 0 where
  pub correction : ℕ → ℤ
  pub pawn : ℕ → ℤ
  pub continuation : ℕ → ℤ

abbrev pub hist_uint16 : ℕ
hist_uint16 = 65536

abbrev pub corr_ints_per_page : ℕ
corr_ints_per_page = 2 * 4

unfoldable pub clear_worker : WorkerTables → WorkerTables
clear_worker h = record h {
  main_history = fill 0 (2 * hist_uint16) (negsuc 4) h.main_history;
  capture_history = fill 0 (16 * square_nb * 8) (negsuc 741) h.capture_history;
  tt_move_history = pos 0;
  continuation_correction_history =
      fill 0 (hist_pieceto * hist_pieceto) (pos 5) h.continuation_correction_history;
}

-- What worker `idx` of `total` writes to the bank of its node.
unfoldable pub clear_shared : BankSizes → ℕ → ℕ → SharedTables → SharedTables
unfolding stripe
clear_shared sizes idx total sh =
    let corr = stripe sizes.corr_size idx total in
    let pawn = stripe sizes.pawn_size idx total in
    record {
      correction =
          fill (corr.0 * corr_ints_per_page) (corr.1 * corr_ints_per_page) (negsuc 4) sh.correction;
      pawn = fill (pawn.0 * hist_pieceto) (pawn.1 * hist_pieceto) (negsuc 1337) sh.pawn;
      continuation =
          if idx == 0
          then fill 0 (continuation_pages * hist_pieceto) (negsuc 585) sh.continuation
          else sh.continuation;
    }

unfoldable pub history_clear :
    BankSizes → ℕ → ℕ → WorkerTables × SharedTables → WorkerTables × SharedTables
history_clear sizes idx total (h, sh) = (clear_worker h, clear_shared sizes idx total sh)

-- The bank after the workers in the list have cleared, one after the other.
unfoldable pub clear_in_order : BankSizes → ℕ → List ℕ → SharedTables → SharedTables
clear_in_order sizes total [] sh = sh
clear_in_order sizes total (idx ∷ order) sh =
    clear_in_order sizes total order (clear_shared sizes idx total sh)

unfoldable pub history_fill_low_ply : ℕ → WorkerTables → WorkerTables
history_fill_low_ply low_ply_size h = record h {
  low_ply_history = fill 0 (low_ply_size * hist_uint16) (pos 102) h.low_ply_history;
}
