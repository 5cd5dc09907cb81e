-- ===== src/Search/MovePick/EachOnce.antt =====
-- src/engine/search/movepick.c: scoring and picking together, on the generated lists.
use fcfish.Base.{
  ℕ, suc, ◌+◌, ◌*◌, ◌≡◌, ◌≤◌, ◌<◌, refl, ap, sym, ◌∙◌, arith, Bool, false, ltb, ◌==◌, if◌then◌else◌,
  Bool-cases, inl, inr, List, [], ◌∷◌, ◌++◌, map, length,
}
use mathlib.Core.Path.{subst}
use mathlib.Core.List.{Perm}
use fcfish.Base.Int.{ℤ}
use fcfish.Board.Types.{move_none}
use fcfish.Search.Sort.Stable.{All}
use fcfish.Search.MovePick.{ExtMove, Kind, Stage, MovePicker, drain, max_moves}
use fcfish.Search.MovePick.Walk.{AreMoves, others}
use fcfish.Search.MovePick.Score.{
  ScoreView, scored, add_low_ply, score_list, quiet_value, capture_value, evasion_value,
  low_ply_history_size,
}
use fcfish.Search.MovePick.Emission.{IsFresh}
use fcfish.Search.MovePick.Main.{drain-perm}

abbrev pub moves_of : List ExtMove → List ℕ
moves_of = map (λ e. ExtMove.move e)

moves_of-scored : (value : ℕ → ℤ) (ms : List ℕ) → moves_of (scored value ms) ≡ ms
unfolding scored
moves_of-scored value [] = refl
moves_of-scored value (m ∷ ms) = ap (λ t. m ∷ t) (moves_of-scored value ms)

moves_of-add_low_ply :
    (v : ScoreView) (es : List ExtMove) → moves_of (add_low_ply v es) ≡ moves_of es
unfolding add_low_ply
moves_of-add_low_ply v [] = refl
moves_of-add_low_ply v (e ∷ es) = ap (λ t. e.move ∷ t) (moves_of-add_low_ply v es)

-- Moves that can be played, and a list of moves without one of them.
abbrev pub ArePlayable : List ℕ → Type 0
ArePlayable = All (λ m. (m == move_none) ≡ false)

abbrev pub without : ℕ → List ℕ → List ℕ
without t [] = []
without t (m ∷ ms) = if m == t then without t ms else m ∷ without t ms

others-without : (t : ℕ) (es : List ExtMove) → others t es ≡ without t (moves_of es)
others-without t [] = refl
others-without t (e ∷ es) = elim (Bool-cases (e.move == t)) [
  | inl h ↦ rw h (others-without t es)
  | inr h ↦ rw h (ap (λ l. e.move ∷ l) (others-without t es))
]

AreMoves-moves_of : (es : List ExtMove) → ArePlayable (moves_of es) → AreMoves es
AreMoves-moves_of [] h = h
AreMoves-moves_of (e ∷ es) h = (h.0, AreMoves-moves_of es h.1)

length-moves_of : (es : List ExtMove) → length es ≡ length (moves_of es)
length-moves_of [] = refl
length-moves_of (e ∷ es) = ap suc (length-moves_of es)

moves_of-append : (xs ys : List ExtMove) → moves_of (xs ++ ys) ≡ moves_of xs ++ moves_of ys
moves_of-append [] ys = refl
moves_of-append (x ∷ xs) ys = ap (λ t. x.move ∷ t) (moves_of-append xs ys)

module _ (generated : Kind → List ℕ) (see_ge : ℕ → ℤ → Bool) (v : ScoreView) where
  -- Scoring keeps the generated moves in their order.
  pub moves_of-score_list :
      (kind : Kind) → moves_of (score_list generated see_ge v kind) ≡ generated kind
  unfolding score_list
  moves_of-score_list Kind.kind_captures =
      moves_of-scored (capture_value v) (generated Kind.kind_captures)
  moves_of-score_list Kind.kind_evasions =
      moves_of-scored (evasion_value v) (generated Kind.kind_evasions)
  moves_of-score_list Kind.kind_quiets =
      let first = scored (quiet_value see_ge v) (generated Kind.kind_quiets) in
      elim (Bool-cases (ltb v.ply low_ply_history_size)) [
        | inl h ↦ rw h (
            moves_of-add_low_ply v first
            ∙ moves_of-scored (quiet_value see_ge v) (generated Kind.kind_quiets))
        | inr h ↦ rw h (moves_of-scored (quiet_value see_ge v) (generated Kind.kind_quiets))
      ]

  -- A main-search picker that does not start with its TT move gives every generated capture and
  -- quiet but the TT move, each exactly as often as it was generated, and then MOVE_NONE: when no
  -- generated move is MOVE_NONE, both lists fit the buffer of 256 moves together, the quiets are
  -- not skipped, and more than 512 calls are made.
  pub drain-score_list :
      (mp : MovePicker) (calls : ℕ)
      → ArePlayable (generated Kind.kind_captures)
      → ArePlayable (generated Kind.kind_quiets)
      → length (generated Kind.kind_captures) + length (generated Kind.kind_quiets) ≤ max_moves
      → IsFresh (score_list generated see_ge v) see_ge mp Stage.mp_good_capture
      → mp.skip_quiets ≡ false
      → 2 * max_moves < calls
      → Perm
          (drain (score_list generated see_ge v) see_ge calls mp)
          (without mp.tt_move (generated Kind.kind_captures ++ generated Kind.kind_quiets))
  drain-score_list mp calls captures quiets fit fresh unskipped enough =
      let score = score_list generated see_ge v in
      subst (λ l. Perm (drain score see_ge calls mp) l)
        (others-without mp.tt_move (score Kind.kind_captures ++ score Kind.kind_quiets)
          ∙ ap (without mp.tt_move) (
              moves_of-append (score Kind.kind_captures) (score Kind.kind_quiets)
              ∙ ap (λ l. l ++ moves_of (score Kind.kind_quiets))
                  (moves_of-score_list Kind.kind_captures)
              ∙ ap (λ l. generated Kind.kind_captures ++ l) (moves_of-score_list Kind.kind_quiets)))
        (drain-perm score see_ge mp calls
          record {
            captures =
                AreMoves-moves_of (score Kind.kind_captures)
                  (subst ArePlayable (sym (moves_of-score_list Kind.kind_captures)) captures);
            quiets =
                AreMoves-moves_of (score Kind.kind_quiets)
                  (subst ArePlayable (sym (moves_of-score_list Kind.kind_quiets)) quiets);
            fit = omega (arith, fit, sized Kind.kind_captures, sized Kind.kind_quiets);
          }
          fresh unskipped enough)
    where
      sized : (kind : Kind) → length (score_list generated see_ge v kind) ≡ length (generated kind)
      sized kind =
          length-moves_of (score_list generated see_ge v kind)
          ∙ ap length (moves_of-score_list kind)
