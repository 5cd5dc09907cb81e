-- ===== src/Search/MovePick/Scored.antt =====
-- src/engine/search/movepick.c: the two lists of a main-search picker, and where each stands.
use fcfish.Base.{
  ℕ, ◌+◌, ◌*◌, ◌≤◌, ◌≡◌, refl, ap, ◌∙◌, arith, Bool, false, if◌then◌else◌, List, [], ◌++◌, length,
  length-append,
}
use mathlib.Core.Path.{subst}
use mathlib.Core.List.Perm
use fcfish.Base.Int.{ℤ, negsuc, ◌*ℤ◌}
use fcfish.Search.MovePick.{
  ExtMove, Kind, Stage, MovePicker, no_entry, select_any, is_good_quiet, replay_bad,
  good_capture_stage, init_first_stage, select_good_capture, init_quiets, max_moves, walk_lists,
  select_good_quiet,
}
use fcfish.Search.MovePick.Segments.{Holds-write_at, Holds-write_at_above, length-write_at}
use fcfish.Search.MovePick.Walk.{AreMoves, others, goods, bads, staged}
use fcfish.Search.MovePick.Drain.{emit, good_emit, IsFrame, IsAt}
use fcfish.Search.MovePick.Kept.{
  length-perm, AreMoves-perm, length-sort_all, AreMoves-sort_all, partial-perm, AreMoves-append,
  AreMoves-bads, length-bads,
}
use fcfish.Search.MovePick.Emission.{
  sorted_list, sorted_quiets, first_kind, good_capture, IsFresh, HasSpan-started, after_captures,
  after_quiets, quiet_next, replay_emit,
}

module _ (score : Kind → List ExtMove) (see_ge : ℕ → ℤ → Bool) where
  abbrev pub bad_captures : ℕ → List ExtMove
  bad_captures tt_move =
      bads tt_move (good_capture score see_ge) (sorted_list score see_ge Kind.kind_captures)

  abbrev pub bad_quiets : ℕ → ℤ → List ExtMove
  bad_quiets tt_move depth = bads tt_move is_good_quiet (sorted_quiets score see_ge depth)

  -- Winning captures, good quiets, losing captures, bad quiets.
  abbrev pub main_moves : ℕ → ℤ → List ℕ
  main_moves tt_move depth =
      goods tt_move (good_capture score see_ge) (sorted_list score see_ge Kind.kind_captures)
      ++ (goods tt_move is_good_quiet (sorted_quiets score see_ge depth)
          ++ others tt_move (bad_captures tt_move ++ bad_quiets tt_move depth))

  -- Winning captures, losing captures.
  abbrev pub capture_moves : ℕ → List ℕ
  capture_moves tt_move =
      goods tt_move (good_capture score see_ge) (sorted_list score see_ge Kind.kind_captures)
      ++ others tt_move (bad_captures tt_move)

  -- Both lists have moves only, and fit the buffer together.
  pub record AreScored : Type 0 where
    pub captures : AreMoves (score Kind.kind_captures)
    pub quiets : AreMoves (score Kind.kind_quiets)
    pub fit : length (score Kind.kind_captures) + length (score Kind.kind_quiets) ≤ max_moves

  walk_quiets :
      (m : MovePicker)
      → walk_lists (init_quiets score see_ge m)
        ≡ staged (after_quiets score see_ge) is_good_quiet (init_quiets score see_ge m)
  unfolding init_quiets walk_lists select_good_quiet
  walk_quiets m = refl

  pub captures_staged :
      (m : MovePicker)
      → good_capture_stage score see_ge m
        ≡ staged (after_captures score see_ge) (good_capture score see_ge) m
  unfolding good_capture_stage select_good_capture
  captures_staged m = refl

  module _ (scored : AreScored) (tt_move : ℕ) (depth : ℤ) where
    length-quiets : length (sorted_quiets score see_ge depth) ≡ length (score Kind.kind_quiets)
    length-quiets = length-perm (partial-perm (score Kind.kind_quiets) (negsuc 3559 *ℤ depth))

    pub few_bad_captures : length (bad_captures tt_move) ≤ length (score Kind.kind_captures)
    few_bad_captures = omega (
      arith,
      length-bads tt_move (good_capture score see_ge) (sorted_list score see_ge Kind.kind_captures),
      length-sort_all (score Kind.kind_captures),
    )

    few_bad_quiets : length (bad_quiets tt_move depth) ≤ length (score Kind.kind_quiets)
    few_bad_quiets =
        omega (
          arith,
          length-bads tt_move is_good_quiet (sorted_quiets score see_ge depth),
          length-quiets,
        )

    pub all_bad : AreMoves (bad_captures tt_move)
    all_bad =
        AreMoves-bads tt_move (good_capture score see_ge)
          (sorted_list score see_ge Kind.kind_captures)
          (AreMoves-sort_all (score Kind.kind_captures) scored.captures)

    all_quiets : AreMoves (sorted_quiets score see_ge depth)
    all_quiets =
        AreMoves-perm (Perm.symm (partial-perm (score Kind.kind_quiets) (negsuc 3559 *ℤ depth)))
          scored.quiets

    -- The quiets stand behind the bad captures.
    quiets-IsAt :
        (m : MovePicker)
        → IsAt score see_ge m (bad_captures tt_move) []
        → IsFrame score see_ge Stage.mp_good_capture tt_move false depth max_moves m
        → IsAt score see_ge
            (init_quiets score see_ge (record m { end_bad_captures = m.end_bad_moves }))
            (bad_captures tt_move)
            (sorted_quiets score see_ge depth)
    unfolding init_quiets
    quiets-IsAt m at frame =
        let sorted = sorted_quiets score see_ge m.depth in
        let sized : length sorted ≡ length (score Kind.kind_quiets) =
          length-perm (partial-perm (score Kind.kind_quiets) (negsuc 3559 *ℤ m.depth)) in
        subst
          (λ d.
            IsAt score see_ge
              (init_quiets score see_ge (record m { end_bad_captures = m.end_bad_moves }))
              (bad_captures tt_move) (sorted_quiets score see_ge d))
          frame.at_depth
          record {
            span = record {
              holds =
                  Holds-write_at no_entry m.moves m.end_bad_moves sorted (
                    omega (arith, sized, at.kept_end, few_bad_captures, scored.fit, frame.at_size));
              ends = omega (arith, sized);
            };
            kept =
                Holds-write_at_above no_entry m.moves 0 m.end_bad_moves (bad_captures tt_move)
                  sorted (omega (arith, at.kept_end)) at.kept;
            kept_end = at.kept_end;
            behind = omega (arith, at.kept_end);
            fits = omega (
              arith,
              length-write_at no_entry m.moves m.end_bad_moves sorted,
              at.kept_end,
              few_bad_captures,
              scored.fit,
              frame.at_size,
            );
          }

    quiets-IsFrame :
        (m : MovePicker)
        → IsFrame score see_ge Stage.mp_good_capture tt_move false depth max_moves m
        → IsFrame score see_ge Stage.mp_good_quiet tt_move false depth max_moves
            (init_quiets score see_ge (record m { end_bad_captures = m.end_bad_moves }))
    unfolding init_quiets
    quiets-IsFrame m frame = record {
      at_stage = refl;
      at_tt_move = frame.at_tt_move;
      at_skip = frame.at_skip;
      at_depth = frame.at_depth;
      at_size =
          length-write_at no_entry m.moves m.end_bad_moves (sorted_quiets score see_ge m.depth)
          ∙ frame.at_size;
    }

    pub quiets_emit :
        (m : MovePicker) (calls : ℕ)
        → IsAt score see_ge m (bad_captures tt_move) []
        → IsFrame score see_ge Stage.mp_good_capture tt_move false depth max_moves m
        → 2 * length (score Kind.kind_quiets) + length (score Kind.kind_captures) ≤ calls
        → emit score see_ge calls (after_captures score see_ge m)
          ≡ goods tt_move is_good_quiet (sorted_quiets score see_ge depth)
            ++ others tt_move (bad_captures tt_move ++ bad_quiets tt_move depth)
    quiets_emit m calls at frame enough =
        let ended = record m { end_bad_captures = m.end_bad_moves } in
        let q = init_quiets score see_ge ended in
        ap
          (λ b. emit score see_ge calls (
            if b
            then select_any (replay_bad ended)
            else walk_lists (init_quiets score see_ge ended)))
          frame.at_skip
        ∙ ap (emit score see_ge calls) (walk_quiets ended)
        ∙ good_emit score see_ge (after_quiets score see_ge) is_good_quiet Stage.mp_good_quiet
            tt_move false depth max_moves (quiet_next score see_ge)
            (length (score Kind.kind_captures) + length (score Kind.kind_quiets))
            (others tt_move (bad_captures tt_move ++ bad_quiets tt_move depth))
            (bad_captures tt_move ++ bad_quiets tt_move depth) replayed q (bad_captures tt_move)
            (sorted_quiets score see_ge depth) calls (quiets-IsAt m at frame)
            (quiets-IsFrame m frame) all_quiets refl (omega (arith, enough, length-quiets))
      where
        replayed :
            (n : MovePicker)
            → IsAt score see_ge n (bad_captures tt_move ++ bad_quiets tt_move depth) []
            → IsFrame score see_ge Stage.mp_good_quiet tt_move false depth max_moves n
            → (more : ℕ)
            → length (score Kind.kind_captures) + length (score Kind.kind_quiets) ≤ more
            → emit score see_ge more (select_any (replay_bad n))
              ≡ others tt_move (bad_captures tt_move ++ bad_quiets tt_move depth)
        replayed n at_end kept more enough_more =
            replay_emit score see_ge n (bad_captures tt_move ++ bad_quiets tt_move depth) more
              at_end.kept at_end.kept_end
              (AreMoves-append (bad_captures tt_move) (bad_quiets tt_move depth) all_bad
                (AreMoves-bads tt_move is_good_quiet (sorted_quiets score see_ge depth) all_quiets))
              (omega (
                arith,
                enough_more,
                few_bad_captures,
                few_bad_quiets,
                length-append (bad_captures tt_move) (bad_quiets tt_move depth),
              ))
            ∙ ap (λ t. others t (bad_captures tt_move ++ bad_quiets tt_move depth)) kept.at_tt_move

  pub captures-IsAt :
      (mp : MovePicker)
      → AreScored
      → IsFresh score see_ge mp Stage.mp_good_capture
      → IsAt score see_ge
          (init_first_stage score see_ge mp)
          []
          (sorted_list score see_ge Kind.kind_captures)
  unfolding init_first_stage
  captures-IsAt mp scored fresh =
      let span =
        HasSpan-started score see_ge mp Stage.mp_good_capture fresh (omega (arith, scored.fit)) in
      record {
        span = span;
        kept = tt;
        kept_end = refl;
        behind = omega arith;
        fits = omega (
          arith,
          span.ends,
          fresh.sized,
          scored.fit,
          length-sort_all (score Kind.kind_captures),
          length-write_at no_entry mp.moves 0
              (sorted_list score see_ge (first_kind score see_ge mp.first_stage)),
        );
      }

  pub captures-IsFrame :
      (mp : MovePicker)
      → IsFresh score see_ge mp Stage.mp_good_capture
      → (skip : Bool) → mp.skip_quiets ≡ skip
      → IsFrame score see_ge Stage.mp_good_capture mp.tt_move skip mp.depth max_moves
          (init_first_stage score see_ge mp)
  unfolding init_first_stage
  captures-IsFrame mp fresh skip e = record {
    at_stage = fresh.first_stage;
    at_tt_move = refl;
    at_skip = e;
    at_depth = refl;
    at_size =
        length-write_at no_entry mp.moves 0
          (sorted_list score see_ge (first_kind score see_ge mp.first_stage))
        ∙ fresh.sized;
  }
