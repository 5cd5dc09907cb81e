-- ===== src/Search/MovePick/Main.antt =====
-- src/engine/search/movepick.c: the run of a picker of the main search.
use fcfish.Base.{
  ℕ, zero, suc, ◌+◌, ◌*◌, ◌≤◌, ◌<◌, ◌≡◌, refl, ap, sym, ◌∙◌, arith, Bool, true, false, ◌==◌,
  if◌then◌else◌, List, [], ◌∷◌, ◌++◌, length,
}
use mathlib.Core.Path.{subst}
use mathlib.Core.List.{Perm}
use mathlib.Core.List.Perm
use fcfish.Base.Int.{ℤ, negsuc, ◌*ℤ◌}
use fcfish.Board.Types.{move_none}
use fcfish.Search.Sort.Stable.{sort_all_lem}
use fcfish.Search.MovePick.{
  ExtMove, Kind, Stage, MovePicker, select_any, drain, is_good_quiet, replay_bad, init_first_stage,
  init_quiets, max_moves, dispatch, walk_lists,
}
use fcfish.Search.MovePick.Walk.{others, goods}
use fcfish.Search.MovePick.Drain.{emit, drain-emit, next_stage, good_emit, IsFrame, IsAt}
use fcfish.Search.MovePick.Kept.{
  value_of, length-sort_all, AreMoves-sort_all, partial-perm, two_lists-perm, others-perm,
}
use fcfish.Search.MovePick.Emission.{
  sorted_list, sorted_quiets, good_capture, IsFresh, first_answer, after_captures, capture_next,
  replay_emit,
}
use fcfish.Search.MovePick.Scored.{
  bad_captures, bad_quiets, main_moves, capture_moves, AreScored, captures_staged, quiets_emit,
  captures-IsAt, captures-IsFrame, few_bad_captures, all_bad,
}

module _ (score : Kind → List ExtMove) (see_ge : ℕ → ℤ → Bool) where
  -- A picker of the main search that does not start with a TT move gives, the TT move left out, the
  -- winning captures, the good quiets, the losing captures and the bad quiets, the captures in the
  -- order of the full sort and the quiets in that of the partial sort, and then MOVE_NONE, when the
  -- lists hold no MOVE_NONE, fit the buffer together, and more than 512 calls are made.
  pub drain-main_moves :
      (mp : MovePicker) (calls : ℕ)
      → AreScored score see_ge
      → IsFresh score see_ge mp Stage.mp_good_capture
      → mp.skip_quiets ≡ false
      → 2 * max_moves < calls
      → drain score see_ge calls mp ≡ main_moves score see_ge mp.tt_move mp.depth
  unfolding dispatch
  drain-main_moves mp zero scored fresh unskipped enough = absurd (omega (arith, enough))
  drain-main_moves mp (suc calls) scored fresh unskipped enough =
      first_answer score see_ge mp Stage.mp_good_capture calls fresh
      ∙ ap (emit score see_ge calls)
          (captures_staged score see_ge (init_first_stage score see_ge mp))
      ∙ good_emit score see_ge (after_captures score see_ge) (good_capture score see_ge)
          Stage.mp_good_capture mp.tt_move false mp.depth max_moves (capture_next score see_ge)
          (2 * length (score Kind.kind_quiets) + length (score Kind.kind_captures))
          (goods mp.tt_move is_good_quiet (sorted_quiets score see_ge mp.depth)
            ++ others mp.tt_move (
                bad_captures score see_ge mp.tt_move
                ++ bad_quiets score see_ge mp.tt_move mp.depth))
          (bad_captures score see_ge mp.tt_move)
          (λ m at frame more enough_more.
            quiets_emit score see_ge scored mp.tt_move mp.depth m more at frame enough_more)
          (init_first_stage score see_ge mp) [] (sorted_list score see_ge Kind.kind_captures) calls
          (captures-IsAt score see_ge mp scored fresh)
          (captures-IsFrame score see_ge mp fresh false unskipped)
          (AreMoves-sort_all (score Kind.kind_captures) scored.captures) refl
          (omega (arith, enough, scored.fit, length-sort_all (score Kind.kind_captures)))

  -- With the quiets skipped from the start, such a picker gives the winning captures, then the
  -- losing ones, and then MOVE_NONE, under the same conditions.
  pub drain-skip_quiets :
      (mp : MovePicker) (calls : ℕ)
      → AreScored score see_ge
      → IsFresh score see_ge mp Stage.mp_good_capture
      → mp.skip_quiets ≡ true
      → 2 * max_moves < calls
      → drain score see_ge calls mp ≡ capture_moves score see_ge mp.tt_move
  unfolding dispatch
  drain-skip_quiets mp zero scored fresh skipped enough = absurd (omega (arith, enough))
  drain-skip_quiets mp (suc calls) scored fresh skipped enough =
      first_answer score see_ge mp Stage.mp_good_capture calls fresh
      ∙ ap (emit score see_ge calls)
          (captures_staged score see_ge (init_first_stage score see_ge mp))
      ∙ good_emit score see_ge (after_captures score see_ge) (good_capture score see_ge)
          Stage.mp_good_capture mp.tt_move true mp.depth max_moves (capture_next score see_ge)
          (length (score Kind.kind_captures))
          (others mp.tt_move (bad_captures score see_ge mp.tt_move))
          (bad_captures score see_ge mp.tt_move) replayed (init_first_stage score see_ge mp) []
          (sorted_list score see_ge Kind.kind_captures) calls
          (captures-IsAt score see_ge mp scored fresh)
          (captures-IsFrame score see_ge mp fresh true skipped)
          (AreMoves-sort_all (score Kind.kind_captures) scored.captures) refl
          (omega (arith, enough, scored.fit, length-sort_all (score Kind.kind_captures)))
    where
      replayed :
          (n : MovePicker)
          → IsAt score see_ge n (bad_captures score see_ge mp.tt_move) []
          → IsFrame score see_ge Stage.mp_good_capture mp.tt_move true mp.depth max_moves n
          → (more : ℕ) → length (score Kind.kind_captures) ≤ more
          → emit score see_ge more (after_captures score see_ge n)
            ≡ others mp.tt_move (bad_captures score see_ge mp.tt_move)
      replayed n at kept more enough_more =
          let ended = record n { end_bad_captures = n.end_bad_moves } in
          ap
            (λ b. emit score see_ge more (
              if b
              then select_any (replay_bad ended)
              else walk_lists (init_quiets score see_ge ended)))
            kept.at_skip
          ∙ replay_emit score see_ge ended (bad_captures score see_ge mp.tt_move) more at.kept
              at.kept_end (all_bad score see_ge scored mp.tt_move mp.depth)
              (omega (arith, enough_more, few_bad_captures score see_ge scored mp.tt_move mp.depth))
          ∙ ap (λ t. others t (bad_captures score see_ge mp.tt_move)) kept.at_tt_move

  -- The run of a main-search picker gives each scored move but the TT move exactly as often as the
  -- two lists have it.
  pub drain-perm :
      (mp : MovePicker) (calls : ℕ)
      → AreScored score see_ge
      → IsFresh score see_ge mp Stage.mp_good_capture
      → mp.skip_quiets ≡ false
      → 2 * max_moves < calls
      → Perm
          (drain score see_ge calls mp)
          (others mp.tt_move (score Kind.kind_captures ++ score Kind.kind_quiets))
  drain-perm mp calls scored fresh unskipped enough =
      let quiets = score Kind.kind_quiets in
      let captures = score Kind.kind_captures in
      let sorted = sorted_list score see_ge Kind.kind_captures in
      subst (λ t. Perm t (others mp.tt_move (captures ++ quiets)))
        (sym (drain-main_moves mp calls scored fresh unskipped enough))
        (Perm.trans
          (two_lists-perm mp.tt_move (good_capture score see_ge) is_good_quiet sorted
            (sorted_quiets score see_ge mp.depth))
          (others-perm mp.tt_move (sorted ++ sorted_quiets score see_ge mp.depth)
            (captures ++ quiets)
            (Perm.append (sort_all_lem value_of captures (negsuc 0)).0
              (partial-perm quiets (negsuc 3559 *ℤ mp.depth)))))

  -- A picker that starts with a TT move gives it first, and then what the same picker gives that
  -- starts behind it.
  pub drain-tt_first :
      (mp : MovePicker) (calls : ℕ)
      → mp.stage ≡ Stage.mp_tt
      → (mp.tt_move == move_none) ≡ false
      → drain score see_ge (suc calls) mp
        ≡ mp.tt_move ∷ drain score see_ge calls (record mp { stage = Stage.mp_init_first_stage })
  drain-tt_first mp calls at is_move =
      drain-emit score see_ge calls mp
      ∙ ap (emit score see_ge calls) (next_stage score see_ge mp Stage.mp_tt at)
      ∙ rw is_move refl
