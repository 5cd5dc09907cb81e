-- ===== src/Search/MovePick/Drain.antt =====
-- src/engine/search/movepick.c: the moves that the caller's loop gets from each kind of stage.
use fcfish.Base.{
  append-nil, append_assoc, ℕ, zero, suc, ◌+◌, ◌-◌, ◌≤◌, ◌≡◌, refl, ap, sym, ◌∙◌, arith, inl, inr,
  Bool, false, ◌==◌, if◌then◌else◌, Bool-cases, List, [], ◌∷◌, ◌++◌, length, length-set,
  length-append, leb, ◌^◌,
}
use mathlib.Core.Path.{subst}
use fcfish.Base.Int.{ℤ}
use fcfish.Base.Words.{u32}
use fcfish.Board.Types.{move_none}
use fcfish.Search.MovePick.{
  ExtMove, Kind, Stage, MovePicker, no_entry, advanced, set_aside, select_any, drain, movepick_next,
  walk_lists, generate_stage, dispatch, stage_code, select_good_quiet, is_good_quiet, replay_bad,
  good_capture_stage, init_first_stage, select_probcut, probcut_loop,
}
use fcfish.Search.MovePick.Segments.{Holds, Holds-set_below, Holds-snoc}
use fcfish.Search.MovePick.Walk.{
  AreMoves, others, goods, bads, HasSpan, HasSpan-tail, any_step, any_end, staged, staged_step,
  staged_end,
}

module _ (score : Kind → List ExtMove) (see_ge : ℕ → ℤ → Bool) where
  -- What the caller's loop makes of one answer, with `calls` more.
  abbrev pub emit : ℕ → ℕ × MovePicker → List ℕ
  emit calls r = if r.0 == move_none then [] else r.0 ∷ drain score see_ge calls r.1

  pub drain-emit :
      (calls : ℕ) (mp : MovePicker)
      → drain score see_ge (suc calls) mp ≡ emit calls (movepick_next score see_ge mp)
  unfolding drain
  drain-emit calls mp = refl

  -- The call by the stage alone.
  abbrev after_quiets : MovePicker → ℕ × MovePicker
  after_quiets mp = select_any (replay_bad mp)

  abbrev next_by : Stage → MovePicker → ℕ × MovePicker
  next_by Stage.mp_good_quiet mp = staged after_quiets is_good_quiet mp
  next_by Stage.mp_bad_moves mp = select_any mp
  next_by Stage.mp_qsearch mp = select_any mp
  next_by Stage.mp_evasion mp = select_any mp
  next_by Stage.mp_probcut mp = select_probcut score see_ge mp
  next_by Stage.mp_good_capture mp = good_capture_stage score see_ge mp
  next_by Stage.mp_tt mp = (mp.tt_move, record mp { stage = Stage.mp_init_first_stage })
  next_by Stage.mp_init_first_stage mp =
      let m = init_first_stage score see_ge mp in
      dispatch score see_ge (λ n. (move_none, n)) m.stage m

  pub next_stage :
      (mp : MovePicker) (s : Stage) → mp.stage ≡ s → movepick_next score see_ge mp ≡ next_by s mp
  unfolding movepick_next walk_lists generate_stage dispatch select_good_quiet
  next_stage mp s e = ap by e ∙ same s
    where
      by : Stage → ℕ × MovePicker
      by t =
          if leb (u32 (stage_code t + 2 ^ 32 - 3)) 3
          then (if stage_code t == 3 then staged after_quiets is_good_quiet mp else select_any mp)
          else dispatch score see_ge (λ m. dispatch score see_ge (λ n. (move_none, n)) m.stage m) t
              mp

      same : (t : Stage) → by t ≡ next_by t mp
      same Stage.mp_tt = refl
      same Stage.mp_init_first_stage = refl
      same Stage.mp_good_capture = refl
      same Stage.mp_good_quiet = refl
      same Stage.mp_bad_moves = refl
      same Stage.mp_qsearch = refl
      same Stage.mp_evasion = refl
      same Stage.mp_probcut = refl

  emit_move :
      (calls : ℕ) (m : ℕ) (mp : MovePicker)
      → (m == move_none) ≡ false
      → emit (suc calls) (m, mp) ≡ m ∷ emit calls (movepick_next score see_ge mp)
  emit_move calls m mp is_move = rw is_move (ap (λ t. m ∷ t) (drain-emit calls mp))

  -- A stage that takes every move of its span.
  pub any_emit :
      (mp : MovePicker) (es : List ExtMove) (calls : ℕ)
      → ((m : MovePicker) → m.stage ≡ mp.stage → movepick_next score see_ge m ≡ select_any m)
      → HasSpan mp es
      → AreMoves es
      → length es ≤ calls
      → emit calls (select_any mp) ≡ others mp.tt_move es
  any_emit mp [] calls plain h moves enough = ap (emit calls) (any_end mp h)
  any_emit mp (e ∷ es) zero plain h moves enough = absurd (omega (arith, enough))
  any_emit mp (e ∷ es) (suc calls) plain h moves enough =
      ap (emit (suc calls)) (any_step mp e es h) ∙ elim (Bool-cases (e.move == mp.tt_move)) [
        | inl t ↦ rw t (
            any_emit (advanced mp) es (suc calls) plain (HasSpan-tail mp e es h) moves.1
              (omega (arith, enough)))
        | inr t ↦ rw t (
            emit_move calls e.move (advanced mp) moves.0
            ∙ ap (λ r. e.move ∷ emit calls r) (plain (advanced mp) refl)
            ∙ ap (λ l. e.move ∷ l)
                (any_emit (advanced mp) es calls plain (HasSpan-tail mp e es h) moves.1
                  (omega (arith, enough))))
      ]

  -- What the stages of one picker leave alone.
  pub record IsFrame (s : Stage) (tt_move : ℕ) (skip : Bool) (depth : ℤ) (size : ℕ)
      (mp : MovePicker) : Type 0 where
    pub at_stage : mp.stage ≡ s
    pub at_tt_move : mp.tt_move ≡ tt_move
    pub at_skip : mp.skip_quiets ≡ skip
    pub at_depth : mp.depth ≡ depth
    pub at_size : length mp.moves ≡ size

  -- The losers `aside` in front, the span `todo` at the cursor, which they have not reached.
  pub record IsAt (mp : MovePicker) (aside todo : List ExtMove) : Type 0 where
    pub span : HasSpan mp todo
    pub kept : Holds no_entry mp.moves 0 aside
    pub kept_end : mp.end_bad_moves ≡ length aside
    pub behind : length aside ≤ mp.cur
    pub fits : mp.end_cur ≤ length mp.moves

  IsAt-advanced :
      (mp : MovePicker) (aside : List ExtMove) (e : ExtMove) (es : List ExtMove)
      → IsAt mp aside (e ∷ es)
      → IsAt (advanced mp) aside es
  IsAt-advanced mp aside e es h = record {
    span = HasSpan-tail mp e es h.span;
    kept = h.kept;
    kept_end = h.kept_end;
    behind = omega (arith, h.behind);
    fits = h.fits;
  }

  IsAt-set_aside :
      (mp : MovePicker) (aside : List ExtMove) (e : ExtMove) (es : List ExtMove)
      → IsAt mp aside (e ∷ es)
      → IsAt (set_aside (advanced mp) e) (aside ++ (e ∷ [])) es
  IsAt-set_aside mp aside e es h =
      let tail = HasSpan-tail mp e es h.span in
      record {
        span = record {
          holds =
              Holds-set_below no_entry mp.moves mp.end_bad_moves (mp.cur + 1) e es
                (omega (arith, h.behind, h.kept_end)) tail.holds;
          ends = tail.ends;
        };
        kept =
            Holds-snoc no_entry mp.moves 0 e aside mp.end_bad_moves (omega (arith, h.kept_end))
              (omega (arith, h.behind, h.kept_end, h.fits, h.span.ends)) h.kept;
        kept_end = omega (arith, h.kept_end, length-append aside (e ∷ []));
        behind = omega (arith, h.behind, length-append aside (e ∷ []));
        fits = omega (arith, h.fits, length-set mp.moves mp.end_bad_moves e);
      }

  module _ (after : MovePicker → ℕ × MovePicker) (good : ExtMove → Bool) (s : Stage) (tt_move : ℕ)
      (skip : Bool) (depth : ℤ) (size : ℕ)
      (next : (m : MovePicker)
        → m.stage ≡ s
        → movepick_next score see_ge m ≡ staged after good m) where
    IsFrame-advanced :
        (mp : MovePicker)
        → IsFrame s tt_move skip depth size mp
        → IsFrame s tt_move skip depth size (advanced mp)
    IsFrame-advanced mp f = record {
      at_stage = f.at_stage;
      at_tt_move = f.at_tt_move;
      at_skip = f.at_skip;
      at_depth = f.at_depth;
      at_size = f.at_size;
    }

    IsFrame-set_aside :
        (mp : MovePicker) (e : ExtMove)
        → IsFrame s tt_move skip depth size mp
        → IsFrame s tt_move skip depth size (set_aside (advanced mp) e)
    IsFrame-set_aside mp e f = record {
      at_stage = f.at_stage;
      at_tt_move = f.at_tt_move;
      at_skip = f.at_skip;
      at_depth = f.at_depth;
      at_size = length-set mp.moves mp.end_bad_moves e ∙ f.at_size;
    }

    -- A stage that sets losers aside: its winners, and then what the stage after it emits.
    pub good_emit :
        (least : ℕ) (tail : List ℕ) (final : List ExtMove)
        → ((m : MovePicker)
            → IsAt m final []
            → IsFrame s tt_move skip depth size m
            → (calls : ℕ) → least ≤ calls
            → emit calls (after m) ≡ tail)
        → (mp : MovePicker) (aside es : List ExtMove) (calls : ℕ) → IsAt mp aside es
        → IsFrame s tt_move skip depth size mp
        → AreMoves es
        → aside ++ bads tt_move good es ≡ final
        → length es + least ≤ calls
        → emit calls (staged after good mp) ≡ goods tt_move good es ++ tail
    good_emit least tail final k mp aside [] calls at frame moves all enough =
        ap (emit calls) (staged_end after good mp at.span)
        ∙ k mp (subst (λ b. IsAt mp b []) (sym (append-nil aside) ∙ all) at) frame calls
            (omega (arith, enough))
    good_emit least tail final k mp aside (e ∷ es) zero at frame moves all enough =
        absurd (omega (arith, enough))
    good_emit least tail final k mp aside (e ∷ es) (suc calls) at frame moves all enough =
        ap (emit (suc calls)) (staged_step after good mp e es at.span moves.0)
        ∙ ap
            (λ t. emit (suc calls) (
              if e.move == t
              then staged after good (advanced mp)
              else (if good e
                  then (e.move, advanced mp)
                  else staged after good (set_aside (advanced mp) e))))
            frame.at_tt_move
        ∙ elim (Bool-cases (e.move == tt_move)) [
          | inl t ↦ rw t (
              good_emit least tail final k (advanced mp) aside es (suc calls)
                (IsAt-advanced mp aside e es at) (IsFrame-advanced mp frame) moves.1 (rw t at all)
                (omega (arith, enough)))
          | inr t ↦ elim (Bool-cases (good e)) [
            | inl g ↦
                rw (t, g)
                  (emit_move calls e.move (advanced mp) moves.0
                    ∙ ap (λ r. e.move ∷ emit calls r) (next (advanced mp) frame.at_stage)
                    ∙ ap (λ l. e.move ∷ l)
                        (good_emit least tail final k (advanced mp) aside es calls
                          (IsAt-advanced mp aside e es at) (IsFrame-advanced mp frame) moves.1
                          (rw (t, g) at all) (omega (arith, enough))))
            | inr g ↦
                rw (t, g)
                  (good_emit least tail final k (set_aside (advanced mp) e) (aside ++ (e ∷ [])) es
                    (suc calls) (IsAt-set_aside mp aside e es at) (IsFrame-set_aside mp e frame)
                    moves.1 (append_assoc aside (e ∷ []) (bads tt_move good es) ∙ rw (t, g) at all)
                    (omega (arith, enough)))
          ]
        ]

  -- The ProbCut stage takes those that pass its threshold.
  pub probcut_emit :
      (mp : MovePicker) (es : List ExtMove) (calls : ℕ)
      → mp.stage ≡ Stage.mp_probcut
      → HasSpan mp es
      → AreMoves es
      → length es ≤ calls
      → emit calls (select_probcut score see_ge mp)
        ≡ goods mp.tt_move (λ e. see_ge e.move mp.threshold) es
  unfolding select_probcut probcut_loop
  probcut_emit mp [] calls at h moves enough =
      let left : mp.end_cur - mp.cur ≡ 0 = omega (arith, h.ends) in
      ap (λ k. emit calls (probcut_loop score see_ge k mp)) left
  probcut_emit mp (e ∷ es) zero at h moves enough = absurd (omega (arith, enough))
  probcut_emit mp (e ∷ es) (suc calls) at h moves enough =
      let left : mp.end_cur - mp.cur ≡ suc (mp.end_cur - (mp.cur + 1)) = omega (arith, h.ends) in
      let skipped =
        probcut_emit (advanced mp) es (suc calls) at (HasSpan-tail mp e es h) moves.1
          (omega (arith, enough)) in
      ap (λ k. emit (suc calls) (probcut_loop score see_ge k mp)) left
      ∙ ap
          (λ x. emit (suc calls) (
            if ExtMove.move x == mp.tt_move
            then select_probcut score see_ge (advanced mp)
            else (if see_ge (ExtMove.move x) mp.threshold
                then (ExtMove.move x, advanced mp)
                else select_probcut score see_ge (advanced mp))))
          h.holds.0
      ∙ elim (Bool-cases (e.move == mp.tt_move)) [
        | inl t ↦ rw t skipped
        | inr t ↦ elim (Bool-cases (see_ge e.move mp.threshold)) [
          | inl g ↦
              rw (t, g)
                (emit_move calls e.move (advanced mp) moves.0
                  ∙ ap (λ r. e.move ∷ emit calls r) (next_stage (advanced mp) Stage.mp_probcut at)
                  ∙ ap (λ l. e.move ∷ l)
                      (probcut_emit (advanced mp) es calls at (HasSpan-tail mp e es h) moves.1
                        (omega (arith, enough))))
          | inr g ↦ rw (t, g) skipped
        ]
      ]
