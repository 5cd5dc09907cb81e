-- ===== src/Platform/Numa/Parse/Uint.antt =====
-- src/platform/numa.c: parse_uint reads a decimal number, and refuses one that does not fit.
use fcfish.Base.{
  ℕ, ◌+◌, ◌-◌, ◌*◌, ◌/◌, ◌≤◌, ◌<◌, ◌≡◌, refl, ap, ◌∙◌, arith, Bool, true, false, ltb, leb, ◌==◌,
  if◌then◌else◌, Bool-cases, inl, inr, List, [], ◌∷◌, ◌++◌, length, length-append, none, some,
}
use fcfish.Platform.Numa.Parse.{
  size_max, is_space, is_digit, skip_space, all_space, read_digits, accept_tail, parse_uint,
}

abbrev pub AreDigits : List ℕ → Type 0
AreDigits [] = Unit
AreDigits (d ∷ ds) = (is_digit d ≡ true) × AreDigits ds

-- The number that the digits write behind `acc`.
abbrev pub decimal_value : ℕ → List ℕ → ℕ
decimal_value acc [] = acc
decimal_value acc (d ∷ ds) = decimal_value (acc * 10 + (d - 48)) ds

decimal_value-le : (acc : ℕ) (ds : List ℕ) → acc ≤ decimal_value acc ds
decimal_value-le acc [] = omega arith
decimal_value-le acc (d ∷ ds) = omega (arith, decimal_value-le (acc * 10 + (d - 48)) ds)

digit_range : (d : ℕ) → is_digit d ≡ true → (48 ≤ d) × (d ≤ 57)
unfolding is_digit
digit_range d h = ground (arith, h)

space_no_digit : (c : ℕ) → is_space c ≡ true → is_digit c ≡ false
unfolding is_space is_digit
space_no_digit c h = ground (arith, h)

read_digits_lem :
    (acc : ℕ) (ds ws : List ℕ)
    → AreDigits ds
    → all_space ws ≡ true
    → acc ≤ size_max
    → read_digits acc (ds ++ ws)
      ≡ (if leb (decimal_value acc ds) size_max then some (decimal_value acc ds, ws) else none)
unfolding read_digits all_space
read_digits_lem acc [] [] digits spaces fits =
    let small : leb acc size_max ≡ true = ground (arith, fits) in rw small refl
read_digits_lem acc [] (w ∷ ws) digits spaces fits =
    let small : leb acc size_max ≡ true = ground (arith, fits) in
    elim (Bool-cases (is_space w)) [
      | inl s ↦ rw (small, space_no_digit w s) refl
      | inr s ↦ absurd (ground (arith, rw s at spaces))
    ]
read_digits_lem acc (d ∷ ds) ws digits spaces fits =
    let range = digit_range d digits.0 in
    elim (Bool-cases (ltb ((size_max - (d - 48)) / 10) acc)) [
      | inl over ↦
          let large : size_max < acc * 10 + (d - 48) = ground (arith, over, range) in
          let none_fits : leb (decimal_value (acc * 10 + (d - 48)) ds) size_max ≡ false =
            ground (arith, large, decimal_value-le (acc * 10 + (d - 48)) ds) in
          rw (digits.0, over, none_fits) refl
      | inr over ↦
          let small : acc * 10 + (d - 48) ≤ size_max = ground (arith, over, range) in
          rw (digits.0, over) (read_digits_lem (acc * 10 + (d - 48)) ds ws digits.1 spaces small)
    ]

skip_space-append : (pre s : List ℕ) → all_space pre ≡ true → skip_space (pre ++ s) ≡ skip_space s
unfolding skip_space all_space
skip_space-append [] s h = refl
skip_space-append (c ∷ pre) s h = elim (Bool-cases (is_space c)) [
  | inl e ↦ rw e (skip_space-append pre s (rw e at h))
  | inr e ↦ absurd (ground (arith, rw e at h))
]

digit_no_space : (c : ℕ) → is_digit c ≡ true → is_space c ≡ false
unfolding is_space is_digit
digit_no_space c h = ground (arith, h)

skip_space-digit : (d : ℕ) (s : List ℕ) → is_digit d ≡ true → skip_space (d ∷ s) ≡ d ∷ s
unfolding skip_space
skip_space-digit d s h = rw (digit_no_space d h) refl

accept_tail-shorter :
    (s t ws : List ℕ) (v : ℕ) (b : Bool)
    → length ws < length t
    → all_space ws ≡ true
    → accept_tail s t (if b then some (v, ws) else none) ≡ (if b then some v else none)
unfolding accept_tail
accept_tail-shorter s t ws v true shorter spaces =
    let differ : (length ws == length t) ≡ false = ground (arith, shorter) in
    rw (differ, spaces) refl
accept_tail-shorter s t ws v false shorter spaces = refl

-- A decimal number, with white space around it, is read as its value where that fits in 64 bits,
-- and refused where it does not.
pub parse_uint_lem :
    (pre : List ℕ) (d : ℕ) (ds ws : List ℕ)
    → all_space pre ≡ true
    → AreDigits (d ∷ ds)
    → all_space ws ≡ true
    → parse_uint (pre ++ ((d ∷ ds) ++ ws))
      ≡ (if leb (decimal_value 0 (d ∷ ds)) size_max then some (decimal_value 0 (d ∷ ds)) else none)
unfolding parse_uint
parse_uint_lem pre d ds ws before digits after =
    let t = (d ∷ ds) ++ ws in
    ap (λ u. accept_tail (pre ++ t) u (read_digits 0 u))
      (skip_space-append pre t before ∙ skip_space-digit d (ds ++ ws) digits.0)
    ∙ ap (accept_tail (pre ++ t) t) (read_digits_lem 0 (d ∷ ds) ws digits after (omega arith))
    ∙ accept_tail-shorter (pre ++ t) t ws (decimal_value 0 (d ∷ ds))
        (leb (decimal_value 0 (d ∷ ds)) size_max) (omega (arith, length-append (d ∷ ds) ws)) after
