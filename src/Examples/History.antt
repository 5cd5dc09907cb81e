-- ===== src/Examples/History.antt =====
-- src/engine/search/history.h, history.c: the history tables' theorems on concrete entries.
use fcfish.Base.{ℕ, zero, suc, [], ◌∷◌, ◌≡◌, refl, arith}
use fcfish.Base.Int.{pos, negsuc, ◌+ℤ◌, ◌-ℤ◌, ◌*ℤ◌, ◌/ℤ◌, abs_ℕ}
use mathlib.Core.List.{Memᴰ}
use fcfish.Search.Tt.Clear.Spans.{Covers}
use fcfish.Search.History.Clear.{SharedTables, clear_in_order}
use fcfish.Search.History.Filled.{clear_in_order_lem}
use fcfish.Board.Types.{Color, white}
use fcfish.Search.History.{
  clamp, stats_update, shared_stats_update, BankSizes, CorrectionBundle, Keys, CorrBank,
  history_update_correction,
}
use fcfish.Search.History.Gravity.{Within, stats_update-Within}
use fcfish.Search.History.Correction.{IsBundle, history_update_correction-Within}

stats_update-Within_example :
    let c = clamp (negsuc 20000) 7183 in
    Within 7183 (stats_update (pos 7000) (negsuc 20000) 7183)
    × (stats_update (pos 7000) (negsuc 20000) 7183
        ≡ pos 7000 +ℤ c -ℤ pos 7000 *ℤ pos (abs_ℕ c) /ℤ 7183)
    × (shared_stats_update (pos 7000) (negsuc 20000) 7183
        ≡ stats_update (pos 7000) (negsuc 20000) 7183)
stats_update-Within_example =
    stats_update-Within (pos 7000) (negsuc 20000) 7183 (omega arith) (omega arith) (omega arith)

abbrev last_worker : ℕ
last_worker = 2

abbrev queen_code : ℕ
queen_code = 13

abbrev level_bundle : CorrectionBundle
level_bundle = record {
  pawn = pos 0;
  minor = pos 5;
  nonpawn_white = negsuc 6;
  nonpawn_black = pos 9;
}

abbrev level_bank : CorrBank
level_bank r c = level_bundle

level_bundle-IsBundle : IsBundle level_bundle
level_bundle-IsBundle = record {
  pawn = omega arith;
  minor = omega arith;
  nonpawn_white = omega arith;
  nonpawn_black = omega arith;
}

abbrev some_keys : Keys
some_keys = record {
  pawn_key = 70000;
  minor_piece_key = 4464;
  non_pawn_white = 1;
  non_pawn_black = 2;
}

-- The move e2e4, two of its three pages the same.
history_update_correction-Within_example :
    let (bank', cont') =
      history_update_correction level_bank
        (λ i. pos 1024)
        65535
        some_keys
        (λ s. 1)
        white
        796
        2048
        2048
        0
        (negsuc 999999) in
    ((r : ℕ) (c : Color) → IsBundle (bank' r c)) × ((i : ℕ) → Within 1024 (cont' i))
history_update_correction-Within_example =
    history_update_correction-Within level_bank (λ i. pos 1024) 65535 some_keys (λ s. 1) white 796
      2048 2048 0 (negsuc 999999) (λ r c. level_bundle-IsBundle) (λ i. omega arith)

-- Two workers, the second first, on a bank of one thread's size.
abbrev one_thread : BankSizes
one_thread = record {
  corr_size = 65536;
  corr_size_minus1 = 65535;
  pawn_size = 8192;
  pawn_size_minus1 = 8191;
}

abbrev stale_tables : SharedTables
stale_tables = record { correction = λ i. pos 7; pawn = λ i. pos 7; continuation = λ i. pos 7 }

two_workers-Covers : Covers 2 (1 ∷ 0 ∷ [])
two_workers-Covers zero h = Memᴰ.tail (Memᴰ.head refl)
two_workers-Covers (suc zero) h = Memᴰ.head refl
two_workers-Covers (suc (suc i)) h = absurd (omega (arith, h))

clear_in_order_lem_example :
    let done = clear_in_order one_thread 2 (1 ∷ 0 ∷ []) stale_tables in
    (done.correction 524287 ≡ negsuc 4)
    × (done.pawn 100 ≡ negsuc 1337)
    × (done.continuation 4194303 ≡ negsuc 585)
clear_in_order_lem_example =
    clear_in_order_lem one_thread 2 (1 ∷ 0 ∷ []) stale_tables 524287 100 4194303 (omega arith)
      two_workers-Covers (omega arith) (omega arith) (omega arith)
