-- ===== src/Search/MovePick/Kept.antt =====
-- src/engine/search/movepick.c: what sorting and setting aside keep of a list of moves.
use fcfish.Base.{
  append_assoc, ℕ, suc, ◌≤◌, ◌≡◌, refl, ap, sym, ◌∙◌, arith, inl, inr, Bool, false, ◌==◌,
  if◌then◌else◌, Bool-cases, List, [], ◌∷◌, ◌++◌, length,
}
use mathlib.Core.Path.{subst, ap₂}
use native.Mathlib.Nat.{ℕ_set}
use mathlib.Core.Logic.{∥∥₁_elim}
use mathlib.Core.Bool.{Bool-set}
use mathlib.Core.List.{Perm, Permᴰ, filter_map}
use mathlib.Core.List.Perm
use mathlib.Core.List.{perm_middle}
use mathlib.Core.Option.{Option, none, some, Option-elim}
use fcfish.Base.Int.{ℤ, negsuc, ltb_ℤ}
use fcfish.Board.Types.{move_none}
use fcfish.Search.Sort.{sort_all, partial_insertion_sort}
use fcfish.Search.Sort.Stable.{sort_all_lem}
use fcfish.Search.Sort.Partial.{partial_insertion_sort_lem, at_least, under}
use fcfish.Search.MovePick.{ExtMove}
use fcfish.Search.MovePick.Walk.{AreMoves, others, goods, bads}

abbrev pub value_of : ExtMove → ℤ
value_of e = e.value

length-Permᴰ : {xs ys : List ExtMove} → Permᴰ xs ys → length xs ≡ length ys
length-Permᴰ Permᴰ.nil = refl
length-Permᴰ (Permᴰ.cons e d) = ap suc (length-Permᴰ d)
length-Permᴰ (Permᴰ.swap e f) = refl
length-Permᴰ (Permᴰ.trans d₁ d₂) = length-Permᴰ d₁ ∙ length-Permᴰ d₂

pub length-perm : {xs ys : List ExtMove} → Perm xs ys → length xs ≡ length ys
length-perm {xs} {ys} p = ∥∥₁_elim p (ℕ_set (length xs) (length ys)) length-Permᴰ

AreMoves-prop : (es : List ExtMove) → IsProp (AreMoves es)
AreMoves-prop [] x y = refl
AreMoves-prop (e ∷ es) x y =
    ap₂ (λ a b. (a, b)) (Bool-set (e.move == move_none) false x.0 y.0) (AreMoves-prop es x.1 y.1)

AreMoves-Permᴰ : {xs ys : List ExtMove} → Permᴰ xs ys → AreMoves xs → AreMoves ys
AreMoves-Permᴰ Permᴰ.nil h = h
AreMoves-Permᴰ (Permᴰ.cons e d) h =
    (subst (λ x. (ExtMove.move x == move_none) ≡ false) e h.0, AreMoves-Permᴰ d h.1)
AreMoves-Permᴰ (Permᴰ.swap e f) h = (
  subst (λ x. (ExtMove.move x == move_none) ≡ false) f h.1.0,
  (subst (λ x. (ExtMove.move x == move_none) ≡ false) e h.0, h.1.1),
)
AreMoves-Permᴰ (Permᴰ.trans d₁ d₂) h = AreMoves-Permᴰ d₂ (AreMoves-Permᴰ d₁ h)

pub AreMoves-perm : {xs ys : List ExtMove} → Perm xs ys → AreMoves xs → AreMoves ys
AreMoves-perm {ys = ys} p h = ∥∥₁_elim p (AreMoves-prop ys) (λ d. AreMoves-Permᴰ d h)

pub length-sort_all : (es : List ExtMove) → length (sort_all value_of es) ≡ length es
length-sort_all es = length-perm (sort_all_lem value_of es (negsuc 0)).0

pub AreMoves-sort_all : (es : List ExtMove) → AreMoves es → AreMoves (sort_all value_of es)
AreMoves-sort_all es = AreMoves-perm (Perm.symm (sort_all_lem value_of es (negsuc 0)).0)

pub partial-perm :
    (es : List ExtMove) (limit : ℤ) → Perm (partial_insertion_sort value_of es limit) es
unfolding partial_insertion_sort
partial-perm [] limit = Perm.refl []
partial-perm (e ∷ es) limit =
    let r = partial_insertion_sort_lem value_of limit e es in
    subst (λ t. Perm t (e ∷ es)) (sym r.1)
      (Perm.trans
        (Perm.append (sort_all_lem value_of (e ∷ at_least value_of limit es) (negsuc 0)).0 r.2)
        (Perm.cons e (split_limit es)))
  where
    split_limit :
        (xs : List ExtMove) → Perm (at_least value_of limit xs ++ under value_of limit xs) xs
    split_limit [] = Perm.refl []
    split_limit (x ∷ xs) = elim (Bool-cases (ltb_ℤ x.value limit)) [
      | inl h ↦ rw h (
          Perm.trans (perm_middle (at_least value_of limit xs) (under value_of limit xs))
            (Perm.cons x (split_limit xs)))
      | inr h ↦ rw h (Perm.cons x (split_limit xs))
    ]

pub AreMoves-append : (xs ys : List ExtMove) → AreMoves xs → AreMoves ys → AreMoves (xs ++ ys)
AreMoves-append [] ys hx hy = hy
AreMoves-append (x ∷ xs) ys hx hy = (hx.0, AreMoves-append xs ys hx.1 hy)

module _ (tt_move : ℕ) (good : ExtMove → Bool) where
  pub AreMoves-bads : (es : List ExtMove) → AreMoves es → AreMoves (bads tt_move good es)
  AreMoves-bads [] h = h
  AreMoves-bads (e ∷ es) h = elim (Bool-cases (e.move == tt_move)) [
    | inl t ↦ rw t (AreMoves-bads es h.1)
    | inr t ↦ elim (Bool-cases (good e)) [
      | inl g ↦ rw (t, g) (AreMoves-bads es h.1)
      | inr g ↦ rw (t, g) ((h.0, AreMoves-bads es h.1))
    ]
  ]

  pub length-bads : (es : List ExtMove) → length (bads tt_move good es) ≤ length es
  length-bads [] = omega arith
  length-bads (e ∷ es) = elim (Bool-cases (e.move == tt_move)) [
    | inl t ↦ rw t (omega (arith, length-bads es))
    | inr t ↦ elim (Bool-cases (good e)) [
      | inl g ↦ rw (t, g) (omega (arith, length-bads es))
      | inr g ↦ rw (t, g) (omega (arith, length-bads es))
    ]
  ]

  -- The winners and the losers are the moves without the TT move.
  pub goods-bads-perm :
      (es : List ExtMove)
      → Perm (goods tt_move good es ++ others tt_move (bads tt_move good es)) (others tt_move es)
  goods-bads-perm [] = Perm.refl []
  goods-bads-perm (e ∷ es) = elim (Bool-cases (e.move == tt_move)) [
    | inl t ↦ rw t (goods-bads-perm es)
    | inr t ↦ elim (Bool-cases (good e)) [
      | inl g ↦ rw (t, g) (Perm.cons e.move (goods-bads-perm es))
      | inr g ↦
          rw (t, g)
            (rw t (
              Perm.trans
                (perm_middle (goods tt_move good es) (others tt_move (bads tt_move good es)))
                (Perm.cons e.move (goods-bads-perm es))))
    ]
  ]

other : ℕ → ExtMove → Option ℕ
other t e = if e.move == t then none else some e.move

others-filter_map : (t : ℕ) (es : List ExtMove) → others t es ≡ filter_map (other t) es
unfolding filter_map other Option-elim
others-filter_map t [] = refl
others-filter_map t (e ∷ es) = elim (Bool-cases (e.move == t)) [
  | inl h ↦ rw h (others-filter_map t es)
  | inr h ↦ rw h (ap (λ l. e.move ∷ l) (others-filter_map t es))
]

pub others-perm : (t : ℕ) (xs ys : List ExtMove) → Perm xs ys → Perm (others t xs) (others t ys)
others-perm t xs ys p =
    subst (λ l. Perm (others t xs) l) (sym (others-filter_map t ys))
      (subst (λ l. Perm l (filter_map (other t) ys)) (sym (others-filter_map t xs))
        (Perm.filter_map (other t) p))

pub append_swap-perm {ℓ} :
    {A : Type ℓ} (xs ys zs : List A) → Perm (xs ++ (ys ++ zs)) (ys ++ (xs ++ zs))
append_swap-perm [] ys zs = Perm.refl (ys ++ zs)
append_swap-perm (x ∷ xs) ys zs =
    Perm.trans (Perm.cons x (append_swap-perm xs ys zs)) (Perm.symm (perm_middle ys (xs ++ zs)))

pub others-append :
    (t : ℕ) (xs ys : List ExtMove) → others t (xs ++ ys) ≡ others t xs ++ others t ys
others-append t [] ys = refl
others-append t (x ∷ xs) ys = elim (Bool-cases (x.move == t)) [
  | inl h ↦ rw h (others-append t xs ys)
  | inr h ↦ rw h (ap (λ l. x.move ∷ l) (others-append t xs ys))
]

-- Two lists, given as the winners of both and then the losers of both.
pub two_lists-perm :
    (t : ℕ) (p q : ExtMove → Bool) (xs ys : List ExtMove)
    → Perm
        (goods t p xs ++ (goods t q ys ++ others t (bads t p xs ++ bads t q ys)))
        (others t (xs ++ ys))
two_lists-perm t p q xs ys =
    let px = others t (bads t p xs) in
    let qy = others t (bads t q ys) in
    let sorted : Perm (goods t p xs ++ (goods t q ys ++ (px ++ qy))) (others t xs ++ others t ys) =
      Perm.trans (Perm.append_left (goods t p xs) (append_swap-perm (goods t q ys) px qy)) (
        subst (λ l. Perm l (others t xs ++ others t ys))
          (append_assoc (goods t p xs) px (goods t q ys ++ qy))
          (Perm.append (goods-bads-perm t p xs) (goods-bads-perm t q ys))) in
    subst (λ l. Perm (goods t p xs ++ (goods t q ys ++ l)) (others t (xs ++ ys)))
      (sym (others-append t (bads t p xs) (bads t q ys)))
      (subst (λ l. Perm (goods t p xs ++ (goods t q ys ++ (px ++ qy))) l)
        (sym (others-append t xs ys)) sorted)
