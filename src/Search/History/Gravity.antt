-- ===== src/Search/History/Gravity.antt =====
-- src/engine/search/history.h: an entry never leaves its limit.
use fcfish.Base.{
  ◌⊎◌, ℕ, zero, suc, ◌+◌, ◌-◌, ◌*◌, ◌/◌, ◌≤◌, ◌<◌, ◌≡◌, refl, ap, arith, ltb, Bool-cases, inl, inr,
}
use fcfish.Base.Int.{ℤ, pos, negsuc, ◌+ℤ◌, ◌-ℤ◌, ◌*ℤ◌, ◌/ℤ◌, abs_ℕ, sub_ℕ}
use fcfish.Base.Words.{to_i16, to_i16_exact}
use fcfish.Search.History.{
  clamp, shared_stats_update_bounded, shared_stats_update, stats_update, age_entry,
}

mul_le : (v a d : ℕ) → a ≤ d → v * a ≤ v * d
mul_le v a d h = grind arith

mul_le' : (v a d : ℕ) → v ≤ d → v * a ≤ a * d
mul_le' v a d h = grind arith

le_div : (d k n : ℕ) → 0 < d → d * k ≤ n → k ≤ n / d
le_div d k n h p = grind arith

div_le : (d k n : ℕ) → n ≤ k * d → n / d ≤ k
div_le d k n p = grind arith

mul_mono : (x k v : ℕ) → k ≤ v → x * k ≤ v * x
mul_mono x k v h = grind arith

excess : (v x k : ℕ) → k ≤ v → (v + x) * k ≤ v * (x + k)
excess v x k h = omega (arith, mul_mono x k v h)

excess' : (d v a : ℕ) → v ≤ d → a ≤ d → d ≤ v + a → d * (v + a - d) ≤ v * a
excess' d v a hv ha h =
    let x = d - v in
    let k = v + a - d in
    let ed : d ≡ v + x = omega arith in
    let ea : a ≡ x + k = omega arith in
    omega (arith, excess v x k (omega arith), ap (λ (t : ℕ). t * k) ed, ap (λ (t : ℕ). v * t) ea)

-- The gravity term on magnitudes.
gravity :
    (d v a : ℕ)
    → 0 < d
    → v ≤ d
    → a ≤ d
    → (v + a ≤ d + v * a / d) × (v * a / d ≤ v) × (v * a / d ≤ a)
gravity d v a h hv ha =
    (low, div_le d v (v * a) (mul_le v a d ha), div_le d a (v * a) (mul_le' v a d hv))
  where
    x : ℕ
    x = d - v

    k : ℕ
    k = v + a - d

    low : v + a ≤ d + v * a / d
    low = elim (Bool-cases (ltb d (v + a))) [
      | inl t ↦
          let over : d ≤ v + a = ground arith in
          omega (arith, le_div d k (v * a) h (excess' d v a hv ha over))
      | inr t ↦ ground arith
    ]

abbrev pub Within : ℕ → ℤ → Type 0
Within d v = abs_ℕ v ≤ d

quotient-pos : (n a d : ℕ) → pos n *ℤ pos a /ℤ d ≡ pos (n * a / d)
unfolding ◌*ℤ◌ ◌/ℤ◌
quotient-pos n a d = ground arith

quotient-negsuc : (n a d : ℕ) → negsuc n *ℤ pos a /ℤ d ≡ sub_ℕ 0 (suc n * a / d)
unfolding ◌*ℤ◌ ◌/ℤ◌
quotient-negsuc n a d = ground arith

-- val + c - val * |c| / d stays within d, before any narrowing.
gravity_sum :
    (val c : ℤ) (d : ℕ)
    → 0 < d
    → Within d val
    → Within d c
    → Within d (val +ℤ c -ℤ val *ℤ pos (abs_ℕ c) /ℤ d)
unfolding ◌+ℤ◌ ◌-ℤ◌
gravity_sum (pos n) c d h hv hc =
    rw (quotient-pos n (abs_ℕ c) d) (ground (arith, gravity d n (abs_ℕ c) h hv hc))
gravity_sum (negsuc n) c d h hv hc =
    rw (quotient-negsuc n (abs_ℕ c) d) (ground (arith, gravity d (suc n) (abs_ℕ c) h hv hc))

narrow : (v : ℤ) (d : ℕ) → d ≤ 32767 → Within d v → to_i16 v ≡ v
narrow v d h w = to_i16_exact v (ground arith) (ground arith)

clamp-Within : (bonus : ℤ) (d : ℕ) → Within d (clamp bonus d)
unfolding ◌-ℤ◌
clamp-Within bonus d = ground arith

-- For a limit from 1 to 32767 an entry within the limit is within it after an update by any bonus,
-- and the update is the exact sum: the narrowing to 16 bits loses nothing.
pub stats_update-Within :
    (val bonus : ℤ) (d : ℕ)
    → 0 < d
    → d ≤ 32767
    → Within d val
    → let c = clamp bonus d in
      Within d (stats_update val bonus d)
      × (stats_update val bonus d ≡ val +ℤ c -ℤ val *ℤ pos (abs_ℕ c) /ℤ d)
      × (shared_stats_update val bonus d ≡ stats_update val bonus d)
unfolding stats_update shared_stats_update shared_stats_update_bounded
stats_update-Within val bonus d h small w =
    let c = clamp bonus d in
    let sum = gravity_sum val c d h w (clamp-Within bonus d) in
    let exact = narrow (val +ℤ c -ℤ val *ℤ pos (abs_ℕ c) /ℤ d) d small sum in
    (rw exact sum, exact, refl)

-- Ageing keeps the sign and the limit, and strictly shrinks every entry that is not zero.
age_entry-Within :
    (v : ℤ) (d : ℕ)
    → d ≤ 32767
    → Within d v
    → Within d (age_entry v) × ((v ≡ pos 0) ⊎ (abs_ℕ (age_entry v) < abs_ℕ v))
unfolding age_entry to_i16 ◌/ℤ◌ ◌*ℤ◌
age_entry-Within (pos zero) d small w = (omega arith, inl refl)
age_entry-Within (pos (suc n)) d small w =
    let q = quotient-pos (suc n) 729 1024 in
    rw (q, narrow (pos (suc n * 729 / 1024)) d small (omega arith))
      (omega arith, inr (ground arith))
age_entry-Within (negsuc n) d small w =
    let q = quotient-negsuc n 729 1024 in
    rw (q, narrow (sub_ℕ 0 (suc n * 729 / 1024)) d small (ground arith))
      (ground arith, inr (ground arith))
