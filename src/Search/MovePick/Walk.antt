-- ===== src/Search/MovePick/Walk.antt =====
-- src/engine/search/movepick.c: what the caller's loop takes from one list, entry by entry.
use fcfish.Base.{
  ℕ, suc, ◌+◌, ◌-◌, ◌≡◌, refl, ap, ◌∙◌, arith, inl, inr, Bool, false, ◌==◌, if◌then◌else◌,
  Bool-cases, List, [], ◌∷◌, length,
}
use mathlib.Core.Path.{subst}
use fcfish.Board.Types.{move_none}
use fcfish.Search.Sort.Stable.{All}
use fcfish.Search.MovePick.{
  ExtMove, MovePicker, no_entry, advanced, set_aside, any_loop, select_any, good_loop,
}
use fcfish.Search.MovePick.Segments.{Holds}

abbrev pub AreMoves : List ExtMove → Type 0
AreMoves = All (λ e. (ExtMove.move e == move_none) ≡ false)

-- The moves of a list without the TT move.
abbrev pub others : ℕ → List ExtMove → List ℕ
others tt_move [] = []
others tt_move (e ∷ es) =
    if e.move == tt_move then others tt_move es else e.move ∷ others tt_move es

-- Those of them that pass the filter of a stage, and the entries that it sets aside.
abbrev pub goods : ℕ → (ExtMove → Bool) → List ExtMove → List ℕ
goods tt_move good [] = []
goods tt_move good (e ∷ es) =
    let rest = goods tt_move good es in
    if e.move == tt_move then rest else (if good e then e.move ∷ rest else rest)

abbrev pub bads : ℕ → (ExtMove → Bool) → List ExtMove → List ExtMove
bads tt_move good [] = []
bads tt_move good (e ∷ es) =
    let rest = bads tt_move good es in
    if e.move == tt_move then rest else (if good e then rest else e ∷ rest)

-- The span from the cursor on holds `todo`.
pub record HasSpan (mp : MovePicker) (todo : List ExtMove) : Type 0 where
  pub holds : Holds no_entry mp.moves mp.cur todo
  pub ends : mp.end_cur ≡ mp.cur + length todo

pub HasSpan-tail :
    (mp : MovePicker) (e : ExtMove) (es : List ExtMove)
    → HasSpan mp (e ∷ es)
    → HasSpan (advanced mp) es
HasSpan-tail mp e es h = record {
  holds = subst (λ k. Holds no_entry mp.moves k es) one_more h.holds.1;
  ends = omega (arith, h.ends);
}
  where
    one_more : suc mp.cur ≡ mp.cur + 1
    one_more = omega arith

pub any_step :
    (mp : MovePicker) (e : ExtMove) (es : List ExtMove)
    → HasSpan mp (e ∷ es)
    → select_any mp
      ≡ (if e.move == mp.tt_move then select_any (advanced mp) else (e.move, advanced mp))
unfolding select_any any_loop
any_step mp e es h =
    let left : mp.end_cur - mp.cur ≡ suc (mp.end_cur - (mp.cur + 1)) = omega (arith, h.ends) in
    ap (λ k. any_loop k mp) left
    ∙ ap
        (λ x.
          if ExtMove.move x == mp.tt_move
          then select_any (advanced mp)
          else (ExtMove.move x, advanced mp))
        h.holds.0

pub any_end : (mp : MovePicker) → HasSpan mp [] → select_any mp ≡ (move_none, mp)
unfolding select_any any_loop
any_end mp h =
    let left : mp.end_cur - mp.cur ≡ 0 = omega (arith, h.ends) in ap (λ k. any_loop k mp) left

module _ (after : MovePicker → ℕ × MovePicker) (good : ExtMove → Bool) where
  -- A stage that sets losers aside, and what it does when its span is exhausted.
  abbrev pub staged : MovePicker → ℕ × MovePicker
  staged mp =
      let r = good_loop good (mp.end_cur - mp.cur) mp in if r.0 == move_none then after r.1 else r

  pub staged_step :
      (mp : MovePicker) (e : ExtMove) (es : List ExtMove)
      → HasSpan mp (e ∷ es)
      → (e.move == move_none) ≡ false
      → staged mp ≡ (
          if e.move == mp.tt_move
          then staged (advanced mp)
          else (if good e then (e.move, advanced mp) else staged (set_aside (advanced mp) e)))
  unfolding good_loop
  staged_step mp e es h is_move =
      let left : mp.end_cur - mp.cur ≡ suc (mp.end_cur - (mp.cur + 1)) = omega (arith, h.ends) in
      ap (λ k. finish (good_loop good k mp)) left
      ∙ ap (λ x. finish (one x)) h.holds.0
      ∙ elim (Bool-cases (e.move == mp.tt_move)) [
        | inl t ↦ rw t refl
        | inr t ↦ elim (Bool-cases (good e)) [
          | inl g ↦ rw (t, g, is_move) refl
          | inr g ↦ rw (t, g) refl
        ]
      ]
    where
      finish : ℕ × MovePicker → ℕ × MovePicker
      finish r = if r.0 == move_none then after r.1 else r

      one : ExtMove → ℕ × MovePicker
      one x =
          let is_tt = x.move == mp.tt_move in
          let rest =
            good_loop good (mp.end_cur - (mp.cur + 1))
              (if is_tt then advanced mp else set_aside (advanced mp) x) in
          if is_tt then rest else (if good x then (x.move, advanced mp) else rest)

  pub staged_end : (mp : MovePicker) → HasSpan mp [] → staged mp ≡ after mp
  unfolding good_loop
  staged_end mp h =
      let left : mp.end_cur - mp.cur ≡ 0 = omega (arith, h.ends) in
      ap (λ k. finish (good_loop good k mp)) left
    where
      finish : ℕ × MovePicker → ℕ × MovePicker
      finish r = if r.0 == move_none then after r.1 else r
