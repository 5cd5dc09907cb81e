-- ===== src/Board/UciMove/Naming.antt =====
-- src/engine/board/uci_move.c: a text names at most one move, and the legal one is found.
use fcfish.Base.{
  ℕ, ◌+◌, ◌≡◌, refl, ◌≢◌, ap, sym, ◌∙◌, arith, Bool, true, false, ◌==◌, ==_refl, if◌then◌else◌,
  Bool-cases, inl, inr, ◌⊎◌, List, [], ◌∷◌, ◌++◌, get_or,
}
use fcfish.Base.Bits.{bit_and_mask}
use mathlib.Core.List.{Memᴰ}
use fcfish.Board.Types.{
  move_none, move_null, move_from, move_to, move_type, move_promotion, rank_of, file_of,
}
use fcfish.Board.Placement.{is_promotion, is_castling}
use fcfish.Board.UciMove.{
  square_text, promotion_char, target, move_to_uci, lower, same_text, move_from_uci,
}

same_text_refl : (s : List ℕ) → same_text s s ≡ true
unfolding same_text
same_text_refl [] = refl
same_text_refl (c ∷ s) = rw (==_refl (lower c)) (same_text_refl s)

-- A text finds the legal move that it spells, in whatever case, if no other legal move is spelled so.
pub move_from_uci-finds :
    (chess960 : Bool) (legal : List ℕ) (str : List ℕ) (m : ℕ)
    → Memᴰ m legal
    → same_text (move_to_uci chess960 m) str ≡ true
    → ((m' : ℕ) → Memᴰ m' legal → same_text (move_to_uci chess960 m') str ≡ true → m' ≡ m)
    → move_from_uci chess960 legal str ≡ m
unfolding move_from_uci
move_from_uci-finds chess960 [] str m member spelled only = elim member [ ]
move_from_uci-finds chess960 (m0 ∷ legal) str m (Memᴰ.head e) spelled only =
    rw (ap (λ k. same_text (move_to_uci chess960 k) str) (sym e) ∙ spelled) (sym e)
move_from_uci-finds chess960 (m0 ∷ legal) str m (Memᴰ.tail member) spelled only =
    elim (Bool-cases (same_text (move_to_uci chess960 m0) str)) [
      | inl t ↦ rw t (only m0 (Memᴰ.head refl) t)
      | inr t ↦ rw t (
          move_from_uci-finds chess960 legal str m member spelled
            (λ m' i s. only m' (Memᴰ.tail i) s))
    ]

-- What a text finds is no move, or a legal one that the text spells.
move_from_uci-legal :
    (chess960 : Bool) (legal : List ℕ) (str : List ℕ)
    → (move_from_uci chess960 legal str ≡ move_none)
      ⊎ (Memᴰ (move_from_uci chess960 legal str) legal
          × (same_text (move_to_uci chess960 (move_from_uci chess960 legal str)) str ≡ true))
unfolding move_from_uci
move_from_uci-legal chess960 [] str = inl refl
move_from_uci-legal chess960 (m0 ∷ legal) str =
    elim (Bool-cases (same_text (move_to_uci chess960 m0) str)) [
      | inl t ↦ rw t (inr (Memᴰ.head refl, t))
      | inr t ↦ rw t (elim (move_from_uci-legal chess960 legal str) [
        | inl e ↦ inl e
        | inr found ↦ inr (Memᴰ.tail found.0, found.1)
      ])
    ]

-- The last letter, of a promotion.
abbrev pub suffix : ℕ → List ℕ
suffix m = if is_promotion (move_type m) then promotion_char (move_promotion m) ∷ [] else []

pub move_to_uci_squares :
    (m : ℕ)
    → m ≢ move_none
    → m ≢ move_null
    → move_to_uci true m ≡ square_text (move_from m) ++ (square_text (move_to m) ++ suffix m)
unfolding move_to_uci target
move_to_uci_squares m a b =
    let first : (m == move_none) ≡ false = ground (arith, a) in
    let second : (m == move_null) ≡ false = ground (arith, b) in
    rw first (
      rw second
        (elim (Bool-cases (is_castling (move_type m))) [ inl c ↦ rw c refl | inr c ↦ rw c refl ]))

pub square_text-injective :
    (s s' : ℕ) → 97 + file_of s ≡ 97 + file_of s' → 49 + rank_of s ≡ 49 + rank_of s' → s ≡ s'
unfolding file_of rank_of
square_text-injective s s' e f = omega (arith, e, f, bit_and_mask 3 s, bit_and_mask 3 s')

-- In the notation of Chess960, two moves with one text, neither of them the null move or none, have
-- the same origin and the same target.
pub move_to_uci-injective :
    (m m' : ℕ)
    → m ≢ move_none
    → m ≢ move_null
    → m' ≢ move_none
    → m' ≢ move_null
    → move_to_uci true m ≡ move_to_uci true m'
    → (move_from m ≡ move_from m') × (move_to m ≡ move_to m')
move_to_uci-injective m m' a b c d e =
    let same = sym (move_to_uci_squares m a b) ∙ e ∙ move_to_uci_squares m' c d in
    (
      square_text-injective (move_from m) (move_from m') (ap (λ t. get_or t 0 0) same)
          (ap (λ t. get_or t 1 0) same),
      square_text-injective (move_to m) (move_to m') (ap (λ t. get_or t 2 0) same)
          (ap (λ t. get_or t 3 0) same),
    )
