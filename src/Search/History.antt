-- ===== src/Search/History.antt =====
-- src/engine/search/history.h, history.c: the history tables' entries, indices, stripes and updates.
-- An `int16_t` entry is the integer that it holds. `Histories` and its shared bank are only the
-- bases of the tables; the updates below take the tables themselves.
pub mod Gravity
pub mod Stripes
pub mod Clear
pub mod Filled
pub mod Indices
pub mod Correction
use fcfish.Base.{
  ℕ, suc, ◌+◌, ◌-◌, ◌*◌, ◌/◌, Bool, true, false, not, ◌&&◌, ◌||◌, ◌==◌, leb, if◌then◌else◌, bit_and,
  Option, none, some,
}
use fcfish.Base.Int.{ℤ, pos, negsuc, ◌+ℤ◌, ◌-ℤ◌, ◌*ℤ◌, ◌/ℤ◌, ltb_ℤ, abs_ℕ}
use fcfish.Base.Words.{to_i16}
use fcfish.Board.Types.{Color, color_code, move_none, move_null, move_to}

abbrev pub hist_limit_correction : ℕ
hist_limit_correction = 1024

-- The limits of the other tables.
abbrev pub hist_limit_main : ℕ
hist_limit_main = 7183

abbrev pub hist_limit_low_ply : ℕ
hist_limit_low_ply = 7183

abbrev pub hist_limit_pawn : ℕ
hist_limit_pawn = 8192

abbrev pub hist_limit_tt_move : ℕ
hist_limit_tt_move = 8192

abbrev pub hist_limit_capture : ℕ
hist_limit_capture = 10692

abbrev pub hist_limit_continuation : ℕ
hist_limit_continuation = 30000

abbrev pub square_nb : ℕ
square_nb = 64

-- PIECE_NB * SQUARE_NB, and the pages of the continuation block.
abbrev pub hist_pieceto : ℕ
hist_pieceto = 1024

abbrev pub continuation_pages : ℕ
continuation_pages = 4096

-- The bonus clamped into [-lim, lim].
abbrev pub clamp : ℤ → ℕ → ℤ
clamp bonus lim =
    if ltb_ℤ bonus (pos 0 -ℤ pos lim)
    then pos 0 -ℤ pos lim
    else if ltb_ℤ (pos lim) bonus
    then pos lim
    else bonus

-- val + bonus - val * |bonus| / d, narrowed to the entry.
unfoldable pub shared_stats_update_bounded : ℤ → ℤ → ℕ → ℤ
shared_stats_update_bounded val bonus d = to_i16 (val +ℤ bonus -ℤ val *ℤ pos (abs_ℕ bonus) /ℤ d)

unfoldable pub shared_stats_update : ℤ → ℤ → ℕ → ℤ
shared_stats_update val bonus d = shared_stats_update_bounded val (clamp bonus d) d

unfoldable pub stats_update : ℤ → ℤ → ℕ → ℤ
stats_update val bonus d =
    let clamped = clamp bonus d in to_i16 (val +ℤ clamped -ℤ val *ℤ pos (abs_ℕ clamped) /ℤ d)

-- One entry of `history_age_main`.
unfoldable pub age_entry : ℤ → ℤ
age_entry v = to_i16 (v *ℤ pos 729 /ℤ 1024)

-- The half-open stripe of `n` entries that worker `idx` of `total` clears.
unfoldable pub stripe : ℕ → ℕ → ℕ → ℕ × ℕ
stripe n idx total =
    let total = if total == 0 then 1 else total in
    if leb total idx
    then (0, 0)
    else (n * idx / total, if idx + 1 == total then n else n * (idx + 1) / total)

abbrev pub bool_index : Bool → ℕ
bool_index true = 1
bool_index false = 0

-- The first entry of a continuation-history page, in entries from the base.
unfoldable pub cont_hist_page : Bool → Bool → ℕ → ℕ → ℕ
cont_hist_page in_check capture pc to =
    ((bool_index in_check * 2 + bool_index capture) * hist_pieceto + pc * square_nb + to)
    * hist_pieceto

unfoldable pub cont_corr_page : ℕ → ℕ → ℕ
cont_corr_page pc to = (pc * square_nb + to) * hist_pieceto

unfoldable pub pawn_history_row : ℕ → ℕ → ℕ
pawn_history_row pawn_key pawn_mask = bit_and pawn_key pawn_mask * hist_pieceto

unfoldable pub corr_row : ℕ → ℕ → ℕ
corr_row key corr_mask = bit_and key corr_mask

unfoldable pub capture_entry : ℕ → ℕ → ℕ → ℕ
capture_entry pc to captured = pc * (square_nb * 8) + to * 8 + captured

-- The sizes and masks of `shared_histories_create`; `none` where it refuses the thread count.
pub record BankSizes : Type 0 where
  pub corr_size : ℕ
  pub corr_size_minus1 : ℕ
  pub pawn_size : ℕ
  pub pawn_size_minus1 : ℕ

unfoldable pub bank_sizes : ℕ → Option BankSizes
bank_sizes thread_count =
    if thread_count == 0 || not (bit_and thread_count (thread_count - 1) == 0)
    then none
    else some (record {
      corr_size = thread_count * 65536;
      corr_size_minus1 = thread_count * 65536 - 1;
      pawn_size = thread_count * 8192;
      pawn_size_minus1 = thread_count * 8192 - 1;
    })

unfoldable pub is_ok : ℕ → Bool
is_ok m = not (m == move_none) && not (m == move_null)

pub record CorrectionBundle : Type 0 where
  pub pawn : ℤ
  pub minor : ℤ
  pub nonpawn_white : ℤ
  pub nonpawn_black : ℤ

-- The four keys of the state, and the tables that the update writes: the bank by row and colour,
-- and the continuation corrections by entry, where the three pages may be one.
pub record Keys : Type 0 where
  pub pawn_key : ℕ
  pub minor_piece_key : ℕ
  pub non_pawn_white : ℕ
  pub non_pawn_black : ℕ

abbrev pub CorrBank : Type 0
CorrBank = ℕ → Color → CorrectionBundle

abbrev pub same_color : Color → Color → Bool
same_color c d = color_code c == color_code d

-- The write to one row.
abbrev pub update_row : CorrBank → ℕ → Color → (CorrectionBundle → CorrectionBundle) → CorrBank
update_row bank row us f r c = if r == row && same_color c us then f (bank r c) else bank r c

-- The products are exact: an int holds them for every bonus within a history limit.
unfoldable pub update_bank : CorrBank → ℕ → Keys → Color → ℤ → CorrBank
update_bank bank mask st us bonus =
    let lim = hist_limit_correction in
    let b1 =
      update_row bank (corr_row st.pawn_key mask) us
        (λ b. record b { pawn = shared_stats_update b.pawn bonus lim }) in
    let b2 =
      update_row b1 (corr_row st.minor_piece_key mask) us
        (λ b. record b { minor = shared_stats_update b.minor (bonus *ℤ pos 150 /ℤ 128) lim }) in
    let b3 = update_row b2 (corr_row st.non_pawn_white mask) us (λ b. record b {
      nonpawn_white = shared_stats_update b.nonpawn_white (bonus *ℤ pos 186 /ℤ 128) lim;
    }) in
    update_row b3 (corr_row st.non_pawn_black mask) us (λ b. record b {
      nonpawn_black = shared_stats_update b.nonpawn_black (bonus *ℤ pos 186 /ℤ 128) lim;
    })

abbrev pub update_entry : (ℕ → ℤ) → ℕ → ℤ → (ℕ → ℤ)
update_entry cont at bonus i =
    if i == at then stats_update (cont i) bonus hist_limit_correction else cont i

-- The continuation part: the three pages by their first entry.
unfoldable pub update_cont : (ℕ → ℤ) → (ℕ → ℕ) → ℕ → ℕ → ℕ → ℕ → ℤ → (ℕ → ℤ)
update_cont cont piece_on prev_move corr2 corr4 corr6 bonus =
    let to = move_to prev_move in
    let idx = piece_on to * square_nb + to in
    if is_ok prev_move
    then update_entry
        (update_entry (update_entry cont (corr2 + idx) (bonus *ℤ pos 130 /ℤ 128)) (corr4 + idx)
          (bonus *ℤ pos 70 /ℤ 128))
        (corr6 + idx) (bonus *ℤ pos 35 /ℤ 128)
    else cont

unfoldable pub history_update_correction :
    CorrBank → (ℕ → ℤ) → ℕ → Keys → (ℕ → ℕ) → Color → ℕ → ℕ → ℕ → ℕ → ℤ → CorrBank × (ℕ → ℤ)
history_update_correction bank cont mask st piece_on us prev_move corr2 corr4 corr6 bonus =
    (update_bank bank mask st us bonus, update_cont cont piece_on prev_move corr2 corr4 corr6 bonus)
