-- ===== src/Board/Score.antt =====
-- src/engine/board/score.h, score.c: the tablebase band and the classification of a score.
pub mod Bands
use fcfish.Base.{Bool, false, not, ◌||◌, if◌then◌else◌}
use fcfish.Base.Int.{ℤ, pos, negsuc, ◌-ℤ◌, ltb_ℤ, leb_ℤ}

-- VALUE_MATE_IN_MAX_PLY - 1; then MAX_PLY below it; then its negation.
abbrev pub value_tb : ℤ
value_tb = pos 31753

abbrev pub value_tb_win_in_max_ply : ℤ
value_tb_win_in_max_ply = pos 31507

abbrev pub value_tb_loss_in_max_ply : ℤ
value_tb_loss_in_max_ply = negsuc 31506

unfoldable pub value_is_win : ℤ → Bool
value_is_win v = leb_ℤ value_tb_win_in_max_ply v

unfoldable pub value_is_loss : ℤ → Bool
value_is_loss v = leb_ℤ v value_tb_loss_in_max_ply

unfoldable pub value_is_decisive : ℤ → Bool
unfolding value_is_win value_is_loss
value_is_decisive v = value_is_win v || value_is_loss v

pub data ScoreKind : Type 0 where
  non_decisive mate tablebase : ScoreKind

pub record ScoreClass : Type 0 where
  pub kind : ScoreKind
  pub plies : ℤ
  pub win : Bool

-- Unary minus.
abbrev pub neg : ℤ → ℤ
neg v = pos 0 -ℤ v

is_decisive_at : ℤ → ℤ → Bool
unfolding ◌-ℤ◌
is_decisive_at value win_in_max_ply = leb_ℤ win_in_max_ply value || leb_ℤ value (neg win_in_max_ply)

unfoldable pub score_classify : ℤ → ℤ → ℤ → ℤ → ScoreClass
unfolding ◌-ℤ◌ is_decisive_at
score_classify value win_in_max_ply tb mate_value =
    let abs_value = if ltb_ℤ value (pos 0) then neg value else value in
    let win = ltb_ℤ (pos 0) value in
    let signed = λ (distance : ℤ). if win then distance else neg distance in
    if not (is_decisive_at value win_in_max_ply)
    then record { kind = non_decisive; plies = pos 0; win = false }
    else if leb_ℤ abs_value tb
    then record { kind = tablebase; plies = signed (tb -ℤ abs_value); win = win }
    else record { kind = mate; plies = signed (mate_value -ℤ abs_value); win = win }
