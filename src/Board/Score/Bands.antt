-- ===== src/Board/Score/Bands.antt =====
-- src/engine/board/score.c: what the classification of a score tells.
use fcfish.Base.{ℕ, zero, suc, leb, if◌then◌else◌, ◌-◌, ◌≡◌, ◌≤◌, true, false, not, ◌↔◌, arith}
use fcfish.Base.Int.{ℤ, pos, negsuc, ◌-ℤ◌, abs_ℕ}
use fcfish.Board.Types.{mate_in, mated_in}
use fcfish.Board.Score.{
  ScoreKind, ScoreClass, non_decisive, mate, tablebase, score_classify, value_is_decisive, neg,
}

-- The classifier, at the thresholds of the engine.
abbrev pub classify : ℤ → ScoreClass
classify v = score_classify v (pos 31507) (pos 31753) (pos 32000)

-- At the engine's thresholds a score is classified non-decisive exactly when the header's
-- test says that it is not decisive.
classify-decisive_iff : (v : ℤ) → ((classify v).kind ≡ non_decisive) ↔ (value_is_decisive v ≡ false)
unfolding score_classify value_is_decisive ◌-ℤ◌
classify-decisive_iff (pos n) = ground arith
classify-decisive_iff (negsuc n) = ground arith

-- A mate found `ply` plies away is reported as a mate, won at that distance, and a loss as lost at
-- minus that distance.
classify-mate_in :
    (ply : ℕ)
    → ply ≤ 246
    → (classify (mate_in (pos ply)) ≡ record { kind = mate; plies = pos ply; win = true })
      × (classify (mated_in (pos ply)) ≡ record { kind = mate; plies = neg (pos ply); win = false })
unfolding score_classify mate_in mated_in ◌-ℤ◌
classify-mate_in ply h = ground arith

-- The distance to the outcome that a decisive score of absolute value `n` reports.
abbrev distance : ℕ → ℤ
distance n = if leb n 31753 then pos (31753 - n) else pos 32000 -ℤ pos n

abbrev kind_of : ℕ → ScoreKind
kind_of n = if leb n 31753 then tablebase else mate

classify-pos :
    (n : ℕ)
    → 31507 ≤ n
    → classify (pos n) ≡ record { kind = kind_of n; plies = distance n; win = true }
unfolding score_classify ◌-ℤ◌
classify-pos n h = ground arith

classify-negsuc :
    (n : ℕ)
    → 31507 ≤ suc n
    → classify (negsuc n)
      ≡ record { kind = kind_of (suc n); plies = neg (distance (suc n)); win = false }
unfolding score_classify ◌-ℤ◌
classify-negsuc n h = ground arith

neg-neg : (v : ℤ) → neg (neg v) ≡ v
unfolding ◌-ℤ◌
neg-neg v = ground arith

neg-pos : (n : ℕ) → neg (pos (suc n)) ≡ negsuc n
unfolding ◌-ℤ◌
neg-pos n = ground arith

neg-negsuc : (n : ℕ) → neg (negsuc n) ≡ pos (suc n)
unfolding ◌-ℤ◌
neg-negsuc n = ground arith

decisive-bound : (v : ℤ) → value_is_decisive v ≡ true → 31507 ≤ abs_ℕ v
unfolding value_is_decisive
decisive-bound v h = ground arith

-- Negating a decisive score keeps the kind, negates the distance and swaps the winner.
classify-neg :
    (v : ℤ)
    → value_is_decisive v ≡ true
    → ((classify (neg v)).kind ≡ (classify v).kind)
      × ((classify (neg v)).plies ≡ neg (classify v).plies)
      × ((classify (neg v)).win ≡ not (classify v).win)
classify-neg (pos zero) h = absurd (omega (arith, decisive-bound (pos 0) h))
classify-neg (pos (suc n)) h =
    ground
      (arith, decisive-bound (pos (suc n)) h, neg-pos n, classify-pos (suc n), classify-negsuc n)
classify-neg (negsuc n) h = ground (
  arith,
  decisive-bound (negsuc n) h,
  neg-negsuc n,
  classify-pos (suc n),
  classify-negsuc n,
  neg-neg (distance (suc n)),
)
