-- ===== src/Search/MovePick/Setup.antt =====
-- src/engine/search/movepick.c and src/engine/search/search_main.c: how a node of the main search
-- sets up its picker. Whether a move is legal comes from pos_legal, which is not modelled, and is a
-- parameter.
use fcfish.Base.{
  ℕ, zero, suc, ◌+◌, ◌*◌, ◌≤◌, ◌<◌, ◌≡◌, refl, sym, arith, Bool, true, false, ◌==◌, if◌then◌else◌,
  Bool-cases, inl, inr, List, [], ◌∷◌, ◌++◌, length,
}
use mathlib.Core.Path.{subst}
use mathlib.Core.List.{Perm}
use fcfish.Base.Int.{ℤ, pos, ltb_ℤ}
use fcfish.Board.Types.{move_none}
use fcfish.Search.MovePick.{ExtMove, MovePicker, Stage, Kind, drain, max_moves}
use fcfish.Search.MovePick.Score.{ScoreView, score_list}
use fcfish.Search.MovePick.Emission.{IsFresh}
use fcfish.Search.MovePick.Main.{drain-tt_first}
use fcfish.Search.MovePick.EachOnce.{ArePlayable, without, drain-score_list}

-- The cursors and the buffer keep what was in the memory.
unfoldable pub init_common : MovePicker → ℕ → MovePicker
init_common mp tt_move = record mp {
  tt_move = tt_move;
  threshold = pos 0;
  depth = pos 0;
  skip_quiets = false;
}

unfoldable pub movepick_init : MovePicker → ℕ → ℤ → MovePicker
movepick_init mp tt_move depth = record (init_common mp tt_move) { depth = depth }

unfoldable pub is_usable : (ℕ → Bool) → ℕ → Bool
is_usable pos_legal tt_move = if tt_move == move_none then false else pos_legal tt_move

unfoldable pub mp_set_main_stage : Bool → (ℕ → Bool) → MovePicker → ℕ → ℤ → MovePicker
mp_set_main_stage in_check pos_legal mp tt_move depth = record mp {
  first_stage =
      if in_check
      then Stage.mp_evasion
      else (if ltb_ℤ (pos 0) depth then Stage.mp_good_capture else Stage.mp_qsearch);
  stage = if is_usable pos_legal tt_move then Stage.mp_tt else Stage.mp_init_first_stage;
}

-- The two calls with which a node sets its picker up.
abbrev pub node_picker : Bool → (ℕ → Bool) → MovePicker → ℕ → ℤ → MovePicker
node_picker in_check pos_legal raw tt_move depth =
    mp_set_main_stage in_check pos_legal (movepick_init raw tt_move depth) tt_move depth

-- The TT move, where it is usable.
abbrev pub tried_first : (ℕ → Bool) → ℕ → List ℕ
tried_first pos_legal tt_move = if is_usable pos_legal tt_move then tt_move ∷ [] else []

-- A run that gives `first`, and behind it `moves` in some order.
abbrev pub IsFirstThen : List ℕ → List ℕ → List ℕ → Type 0
IsFirstThen first moves run = (rest : List ℕ) × (run ≡ first ++ rest) × Perm rest moves

is_usable-move :
    (pos_legal : ℕ → Bool) (tt_move : ℕ)
    → is_usable pos_legal tt_move ≡ true
    → (tt_move == move_none) ≡ false
unfolding is_usable
is_usable-move pos_legal tt_move h = elim (Bool-cases (tt_move == move_none)) [
  | inl e ↦ absurd (ground (arith, e, h))
  | inr e ↦ e
]

module _ (generated : Kind → List ℕ) (see_ge : ℕ → ℤ → Bool) (v : ScoreView) (pos_legal : ℕ → Bool)
    (raw : MovePicker) (tt_move : ℕ) (depth : ℤ) where
  fresh :
      length raw.moves ≡ max_moves
      → ltb_ℤ (pos 0) depth ≡ true
      → IsFresh
          (score_list generated see_ge v)
          see_ge
          (record (node_picker false pos_legal raw tt_move depth) {
            stage = Stage.mp_init_first_stage;
          })
          Stage.mp_good_capture
  unfolding movepick_init init_common mp_set_main_stage
  fresh sized deep = record { at_init = refl; first_stage = rw deep refl; sized = sized }

  -- The picker that a node of the main search sets up, out of check and with a positive depth,
  -- gives the TT move first, if it is legal and not MOVE_NONE, then every generated capture and
  -- quiet but the TT move, each exactly as often as it was generated, and then MOVE_NONE, whatever
  -- the memory of the picker held: when no generated move is MOVE_NONE, both lists fit the buffer
  -- of 256 moves together, and more than 513 calls are made.
  pub drain-movepick_init :
      (calls : ℕ)
      → length raw.moves ≡ max_moves
      → ltb_ℤ (pos 0) depth ≡ true
      → ArePlayable (generated Kind.kind_captures)
      → ArePlayable (generated Kind.kind_quiets)
      → length (generated Kind.kind_captures) + length (generated Kind.kind_quiets) ≤ max_moves
      → 2 * max_moves + 1 < calls
      → IsFirstThen
          (tried_first pos_legal tt_move)
          (without tt_move (generated Kind.kind_captures ++ generated Kind.kind_quiets))
          (drain
            (score_list generated see_ge v)
            see_ge
            calls
            (node_picker false pos_legal raw tt_move depth))
  unfolding movepick_init init_common mp_set_main_stage
  drain-movepick_init zero sized deep captures quiets fit enough = absurd (omega (arith, enough))
  drain-movepick_init (suc calls) sized deep captures quiets fit enough =
      elim (Bool-cases (is_usable pos_legal tt_move)) [
        | inl u ↦ subst Gives (sym u) (
          drain score see_ge calls behind,
          drain-tt_first score see_ge (record behind { stage = Stage.mp_tt }) calls refl
              (is_usable-move pos_legal tt_move u),
          drain-score_list generated see_ge v behind calls captures quiets fit (fresh sized deep)
              refl (omega (arith, enough)),
        )
        | inr u ↦ subst Gives (sym u) (
          drain score see_ge (suc calls) behind,
          refl,
          drain-score_list generated see_ge v behind (suc calls) captures quiets fit
              (fresh sized deep) refl (omega (arith, enough)),
        )
      ]
    where
      score : Kind → List ExtMove
      score = score_list generated see_ge v

      behind : MovePicker
      behind = record (movepick_init raw tt_move depth) {
        first_stage = if ltb_ℤ (pos 0) depth then Stage.mp_good_capture else Stage.mp_qsearch;
        stage = Stage.mp_init_first_stage;
      }

      -- The claim, by the answer to whether the TT move is usable.
      Gives : Bool → Type 0
      Gives usable =
          IsFirstThen (if usable then tt_move ∷ [] else [])
            (without tt_move (generated Kind.kind_captures ++ generated Kind.kind_quiets))
            (drain score see_ge (suc calls)
              (record behind { stage = if usable then Stage.mp_tt else Stage.mp_init_first_stage }))
