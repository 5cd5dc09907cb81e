-- ===== src/Board/UciMove/Typed.antt =====
-- src/engine/board/uci_move.c: a move that is typed in as it is printed, in whatever case.
use fcfish.Base.{
  ℕ, ◌+◌, ◌≤◌, ◌<◌, ◌≡◌, refl, ◌≢◌, ap, sym, ◌∙◌, arith, true, ==_refl, if◌then◌else◌, Bool-cases,
  inl, inr, List, [], ◌∷◌, ◌++◌, get_or, map,
}
use mathlib.Core.Path.{ap₂}
use fcfish.Base.Bits.{bit_and_mask}
use fcfish.Base.Words.{◌>>◌}
use mathlib.Core.List.{Memᴰ}
use fcfish.Board.Types.{
  move_none, move_null, move_from, move_to, move_type, move_promotion, rank_of, file_of,
}
use fcfish.Board.Placement.{is_promotion}
use fcfish.Board.UciMove.{square_text, promotion_char, move_to_uci, lower, same_text, move_from_uci}
use fcfish.Board.UciMove.Naming.{
  suffix, move_to_uci_squares, square_text-injective, move_from_uci-finds,
}

-- A text that has the characters of another one, some of its small letters replaced by capitals.
pub data Spells : List ℕ → List ℕ → Type 0 where
  done : Spells [] []
  exact : {s t : List ℕ} (c : ℕ) → Spells s t → Spells (c ∷ s) (c ∷ t)
  capital : {s t : List ℕ} (c : ℕ) → 65 ≤ c → c ≤ 90 → Spells s t → Spells ((c + 32) ∷ s) (c ∷ t)

-- The piece of a promotion, 0 for every other move.
abbrev pub promoted : ℕ → ℕ
promoted m = if is_promotion (move_type m) then move_promotion m else 0

-- Legal moves are none of the two that are no moves, and two of them with the same origin, target
-- and promotion piece are one move.
pub record AreLegal (legal : List ℕ) : Type 0 where
  pub real : (m : ℕ) → Memᴰ m legal → m ≢ move_none
  pub moving : (m : ℕ) → Memᴰ m legal → m ≢ move_null
  pub distinct :
      (m m' : ℕ)
      → Memᴰ m legal
      → Memᴰ m' legal
      → move_from m ≡ move_from m'
      → move_to m ≡ move_to m'
      → promoted m ≡ promoted m'
      → m ≡ m'

Spells-same_text : {s t : List ℕ} → Spells s t → same_text s t ≡ true
unfolding same_text lower
Spells-same_text done = refl
Spells-same_text (exact c p) = rw (==_refl (lower c)) (Spells-same_text p)
Spells-same_text (capital c low high p) = ground (arith, low, high, Spells-same_text p)

same_text-lower :
    (s t str : List ℕ) → same_text s str ≡ true → same_text t str ≡ true → map lower s ≡ map lower t
unfolding same_text
same_text-lower [] [] str h k = refl
same_text-lower [] (d ∷ t) [] h k = absurd (ground (arith, k))
same_text-lower [] (d ∷ t) (e ∷ str) h k = absurd (ground (arith, h))
same_text-lower (c ∷ s) [] [] h k = absurd (ground (arith, h))
same_text-lower (c ∷ s) [] (e ∷ str) h k = absurd (ground (arith, k))
same_text-lower (c ∷ s) (d ∷ t) [] h k = absurd (ground (arith, h))
same_text-lower (c ∷ s) (d ∷ t) (e ∷ str) h k =
    let heads : lower c ≡ lower d = ground (arith, h, k) in
    ap₂ (λ x xs. x ∷ xs) heads (same_text-lower s t str (ground (arith, h)) (ground (arith, k)))

lower_file : (n : ℕ) → lower (97 + n) ≡ 97 + n
unfolding lower
lower_file n = ground arith

lower_rank : (n : ℕ) → n < 8 → lower (49 + n) ≡ 49 + n
unfolding lower
lower_rank n h = ground (arith, h)

from_rank : (m : ℕ) → rank_of (move_from m) < 8
unfolding rank_of move_from
from_rank m = omega (arith, bit_and_mask 6 (m >> 6))

to_rank : (m : ℕ) → rank_of (move_to m) < 8
unfolding rank_of move_to
to_rank m = omega (arith, bit_and_mask 6 m)

promotion_range : (m : ℕ) → (2 ≤ move_promotion m) × (move_promotion m ≤ 5)
unfolding move_promotion
promotion_range m = (omega arith, omega (arith, bit_and_mask 2 (m >> 12)))

-- The letter of a promotion, and that there is one.
letter-injective :
    (p q : ℕ)
    → 2 ≤ p
    → p ≤ 5
    → 2 ≤ q
    → q ≤ 5
    → lower (promotion_char p) ≡ lower (promotion_char q)
    → p ≡ q
unfolding lower
letter-injective p q a b c d e = ground (arith, a, b, c, d, e)

letter-positive : (p : ℕ) → 0 < lower (promotion_char p)
unfolding lower
letter-positive p = ground arith

suffix-injective :
    (m m' : ℕ)
    → get_or (map lower (suffix m)) 0 0 ≡ get_or (map lower (suffix m')) 0 0
    → promoted m ≡ promoted m'
suffix-injective m m' e =
    let (a, b) = promotion_range m in
    let (c, d) = promotion_range m' in
    elim (Bool-cases (is_promotion (move_type m))) [
      | inl p ↦ elim (Bool-cases (is_promotion (move_type m'))) [
        | inl q ↦
            rw (p, q)
              (letter-injective (move_promotion m) (move_promotion m') a b c d (rw (p, q) at e))
        | inr q ↦ absurd (omega (arith, rw (p, q) at e, letter-positive (move_promotion m)))
      ]
      | inr p ↦ elim (Bool-cases (is_promotion (move_type m'))) [
        | inl q ↦ absurd (omega (arith, rw (p, q) at e, letter-positive (move_promotion m')))
        | inr q ↦ rw (p, q) refl
      ]
    ]

lowered-injective :
    (m m' : ℕ)
    → m ≢ move_none
    → m ≢ move_null
    → m' ≢ move_none
    → m' ≢ move_null
    → map lower (move_to_uci true m) ≡ map lower (move_to_uci true m')
    → (move_from m ≡ move_from m') × (move_to m ≡ move_to m') × (promoted m ≡ promoted m')
lowered-injective m m' a b c d e = (
  square_text-injective (move_from m) (move_from m')
      (sym (lower_file (file_of (move_from m))) ∙ at 0 ∙ lower_file (file_of (move_from m')))
      (sym (lower_rank (rank_of (move_from m)) (from_rank m))
        ∙ at 1
        ∙ lower_rank (rank_of (move_from m')) (from_rank m')),
  square_text-injective (move_to m) (move_to m')
      (sym (lower_file (file_of (move_to m))) ∙ at 2 ∙ lower_file (file_of (move_to m')))
      (sym (lower_rank (rank_of (move_to m)) (to_rank m))
        ∙ at 3
        ∙ lower_rank (rank_of (move_to m')) (to_rank m')),
  suffix-injective m m' (at 4),
)
  where
    text : ℕ → List ℕ
    text n = square_text (move_from n) ++ (square_text (move_to n) ++ suffix n)

    at : (i : ℕ) → get_or (map lower (text m)) i 0 ≡ get_or (map lower (text m')) i 0
    at i =
        ap (λ t. get_or (map lower t) i 0) (sym (move_to_uci_squares m a b))
        ∙ ap (λ t. get_or t i 0) e
        ∙ ap (λ t. get_or (map lower t) i 0) (move_to_uci_squares m' c d)

-- In the notation of Chess960, the printed text of a legal move, with capitals in place of small
-- letters wherever the user likes, is read as that move.
pub move_from_uci-move_to_uci :
    (legal : List ℕ) (m : ℕ) (str : List ℕ)
    → AreLegal legal
    → Memᴰ m legal
    → Spells (move_to_uci true m) str
    → move_from_uci true legal str ≡ m
move_from_uci-move_to_uci legal m str ok member typed =
    let same = Spells-same_text typed in
    move_from_uci-finds true legal str m member same (λ m' member' same'.
      let fields =
        lowered-injective m' m (ok.real m' member') (ok.moving m' member') (ok.real m member)
          (ok.moving m member)
          (same_text-lower (move_to_uci true m') (move_to_uci true m) str same' same) in
      ok.distinct m' m member' member fields.0 fields.1 fields.2)
