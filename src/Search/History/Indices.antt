-- ===== src/Search/History/Indices.antt =====
-- src/engine/search/history.h: every index that the accessors form stays inside its table.
use fcfish.Base.{ℕ, ◌+◌, ◌*◌, ◌/◌, ◌%◌, ◌≤◌, ◌<◌, ◌≡◌, arith, Bool, some}
use fcfish.Base.Bits.{bit_and-le}
use fcfish.Search.History.{
  cont_hist_page, pawn_history_row, corr_row, capture_entry, hist_pieceto, continuation_pages,
  BankSizes, bank_sizes,
}

-- For a piece code below 16 and a board square, a continuation page lies inside the block of 4096
-- pages of 1024 entries.
pub cont_hist_page-le :
    (in_check capture : Bool) (pc to : ℕ)
    → pc < 16
    → to < 64
    → cont_hist_page in_check capture pc to + hist_pieceto ≤ continuation_pages * hist_pieceto
unfolding cont_hist_page
cont_hist_page-le in_check capture pc to hp ht = ground arith

-- For piece codes below 16 and board squares, two continuation pages that overlap are one page, of
-- the same four indices.
cont_hist_page-injective :
    (in_check capture in_check' capture' : Bool) (pc to pc' to' entry entry' : ℕ)
    → pc < 16
    → to < 64
    → pc' < 16
    → to' < 64
    → entry < hist_pieceto
    → entry' < hist_pieceto
    → cont_hist_page in_check capture pc to + entry
      ≡ cont_hist_page in_check' capture' pc' to' + entry'
    → (in_check ≡ in_check') × (capture ≡ capture') × (pc ≡ pc') × (to ≡ to') × (entry ≡ entry')
unfolding cont_hist_page
cont_hist_page-injective in_check capture in_check' capture' pc to pc' to' entry entry' h1 h2 h3 h4
      h5 h6 e =
    ground arith

-- For a piece code below 16, a board square and a captured type below 8, the capture entry lies
-- inside the table of 8192 entries, and the entry determines its three indices.
pub capture_entry_lem :
    (pc to captured : ℕ)
    → pc < 16
    → to < 64
    → captured < 8
    → (capture_entry pc to captured < 16 * 64 * 8)
      × (capture_entry pc to captured / 512 ≡ pc)
      × (capture_entry pc to captured / 8 % 64 ≡ to)
      × (capture_entry pc to captured % 8 ≡ captured)
unfolding capture_entry
capture_entry_lem pc to captured hp ht hc = omega arith

-- Where a bank is created for a thread count, every key masks to a row of its correction table and
-- to a page inside its pawn table.
pub bank_rows :
    (thread_count key : ℕ) (sizes : BankSizes)
    → bank_sizes thread_count ≡ some sizes
    → (corr_row key sizes.corr_size_minus1 < sizes.corr_size)
      × (pawn_history_row key sizes.pawn_size_minus1 + hist_pieceto
          ≤ sizes.pawn_size * hist_pieceto)
unfolding corr_row pawn_history_row bank_sizes
bank_rows thread_count key sizes e =
    ground (arith, bit_and-le key sizes.corr_size_minus1, bit_and-le key sizes.pawn_size_minus1)
