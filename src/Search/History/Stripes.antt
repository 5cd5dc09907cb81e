-- ===== src/Search/History/Stripes.antt =====
-- src/engine/search/history.c: the stripes of the workers partition a shared table.
use fcfish.Base.{ℕ, zero, suc, ◌+◌, ◌*◌, ◌/◌, ◌≤◌, ◌<◌, ◌≡◌, arith, ltb, Bool-cases, inl, inr}
use native.Mathlib.Numerals.{add-one}
use fcfish.Search.History.{stripe}

-- Entry `c` lies in the stripe of worker `idx`.
abbrev pub InStripe : ℕ → ℕ → ℕ → ℕ → Type 0
InStripe n total idx c = ((stripe n idx total).0 ≤ c) × (c < (stripe n idx total).1)

mul-div : (n t : ℕ) → 0 < t → n * t / t ≡ n
mul-div n t h = grind arith

mul_mono : (n a b : ℕ) → a ≤ b → n * a ≤ n * b
mul_mono n a b h = grind arith

div_mono : (t a b : ℕ) → a ≤ b → a / t ≤ b / t
div_mono t a b h = grind arith

-- The bounds of a stripe, without the case for the last one.
stripe_bounds :
    (n idx total : ℕ)
    → 0 < total
    → idx < total
    → ((stripe n idx total).0 ≡ n * idx / total) × ((stripe n idx total).1 ≡ n * (idx + 1) / total)
unfolding stripe
stripe_bounds n idx total h k = ground (arith, mul-div n total h)

between :
    (n total k c : ℕ)
    → c < n * k / total
    → (i : ℕ) × (i < k) × (n * i / total ≤ c) × (c < n * (i + 1) / total)
between n total zero c h = absurd (omega arith)
between n total (suc k) c h = elim (Bool-cases (ltb c (n * k / total))) [
  | inl t ↦
      let (i, below, low, high) = between n total k c (ground arith) in (i, omega arith, low, high)
  | inr t ↦ (k, omega arith, ground arith, rw add-one h)
]

-- Every entry of a table lies in the stripe of one of the workers.
pub stripe_covers :
    (n total c : ℕ) → 0 < total → c < n → (i : ℕ) × (i < total) × InStripe n total i c
stripe_covers n total c h k =
    let (i, below, low, high) = between n total total c (omega (arith, mul-div n total h)) in
    let (lo, hi) = stripe_bounds n i total h below in
    (i, below, (omega (arith, lo), omega (arith, hi)))

before :
    (n total i j c : ℕ)
    → 0 < total
    → i < j
    → j < total
    → InStripe n total i c
    → InStripe n total j c
    → ⊥
before n total i j c h p q a b = omega (
  arith,
  stripe_bounds n i total h (omega arith),
  stripe_bounds n j total h q,
  div_mono total (n * (i + 1)) (n * j) (mul_mono n (i + 1) j (omega arith)),
)

-- No entry lies in the stripes of two workers, so their plain writes do not race.
stripe_disjoint :
    (n total i j c : ℕ)
    → i < total
    → j < total
    → InStripe n total i c
    → InStripe n total j c
    → i ≡ j
stripe_disjoint n total i j c hi hj a b = elim (Bool-cases (ltb i j)) [
  | inl t ↦ absurd (before n total i j c (omega arith) (ground arith) hj a b)
  | inr t ↦ elim (Bool-cases (ltb j i)) [
    | inl u ↦ absurd (before n total j i c (omega arith) (ground arith) hi b a)
    | inr u ↦ ground arith
  ]
]
