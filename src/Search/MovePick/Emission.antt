-- ===== src/Search/MovePick/Emission.antt =====
-- src/engine/search/movepick.c: the whole run of a picker, from its first call to MOVE_NONE.
use fcfish.Base.{
  ℕ, zero, suc, ◌≤◌, ◌<◌, ◌≡◌, refl, ap, sym, ◌∙◌, arith, Bool, ◌==◌, if◌then◌else◌, List, length,
}
use mathlib.Core.Path.{subst}
use fcfish.Base.Int.{ℤ, negsuc, ◌*ℤ◌}
use fcfish.Board.Types.{move_none}
use fcfish.Search.Sort.{sort_all, partial_insertion_sort}
use fcfish.Search.MovePick.{
  ExtMove, Kind, Stage, MovePicker, no_entry, select_any, drain, movepick_next, is_good_quiet,
  replay_bad, good_capture_stage, init_first_stage, select_good_capture, is_good_capture,
  init_quiets, max_moves, dispatch, walk_lists, stage_code,
}
use fcfish.Search.MovePick.Segments.{Holds, Holds-write_at}
use fcfish.Search.MovePick.Walk.{AreMoves, others, goods, HasSpan, staged}
use fcfish.Search.MovePick.Drain.{emit, drain-emit, next_stage, any_emit, probcut_emit}
use fcfish.Search.MovePick.Kept.{value_of, length-sort_all, AreMoves-sort_all}

-- The first stages that take a whole list.
pub data HasOneList : Stage → Type 0 where
  qsearch : HasOneList Stage.mp_qsearch
  evasion : HasOneList Stage.mp_evasion

module _ (score : Kind → List ExtMove) (see_ge : ℕ → ℤ → Bool) where
  abbrev pub sorted_list : Kind → List ExtMove
  sorted_list kind = sort_all value_of (score kind)

  abbrev pub sorted_quiets : ℤ → List ExtMove
  sorted_quiets depth =
      partial_insertion_sort value_of (score Kind.kind_quiets) (negsuc 3559 *ℤ depth)

  abbrev pub good_capture : ExtMove → Bool
  good_capture = is_good_capture score see_ge

  -- A picker before its first list.
  pub record IsFresh (mp : MovePicker) (first : Stage) : Type 0 where
    pub at_init : mp.stage ≡ Stage.mp_init_first_stage
    pub first_stage : mp.first_stage ≡ first
    pub sized : length mp.moves ≡ max_moves

  abbrev pub first_kind : Stage → Kind
  first_kind s = if stage_code s == 6 then Kind.kind_evasions else Kind.kind_captures

  pub HasSpan-started :
      (mp : MovePicker) (s : Stage)
      → IsFresh mp s
      → length (score (first_kind s)) ≤ max_moves
      → HasSpan (init_first_stage score see_ge mp) (sorted_list (first_kind s))
  unfolding init_first_stage
  HasSpan-started mp s fresh room =
      subst (λ t. HasSpan (init_first_stage score see_ge mp) (sorted_list (first_kind t)))
        fresh.first_stage
        record {
          holds = Holds-write_at no_entry mp.moves 0 (sorted_list (first_kind mp.first_stage)) (
              omega
                (arith, length-sort_all (score (first_kind mp.first_stage)), fits, fresh.sized));
          ends = omega (arith, length-sort_all (score (first_kind mp.first_stage)));
        }
    where
      fits : length (score (first_kind mp.first_stage)) ≤ max_moves
      fits = subst (λ t. length (score (first_kind t)) ≤ max_moves) (sym fresh.first_stage) room

  pub first_answer :
      (mp : MovePicker) (s : Stage) (calls : ℕ)
      → IsFresh mp s
      → drain score see_ge (suc calls) mp
        ≡ emit score see_ge calls
            (dispatch score see_ge (λ n. (move_none, n)) s (init_first_stage score see_ge mp))
  unfolding init_first_stage
  first_answer mp s calls fresh =
      drain-emit score see_ge calls mp
      ∙ ap (emit score see_ge calls)
          (next_stage score see_ge mp Stage.mp_init_first_stage fresh.at_init)
      ∙ ap
          (λ t.
            emit score see_ge calls
              (dispatch score see_ge (λ n. (move_none, n)) t (init_first_stage score see_ge mp)))
          fresh.first_stage

  one_list :
      (mp : MovePicker) (s : Stage) (calls : ℕ)
      → ((m : MovePicker) → m.stage ≡ s → movepick_next score see_ge m ≡ select_any m)
      → (dispatch score see_ge (λ n. (move_none, n)) s (init_first_stage score see_ge mp)
          ≡ select_any (init_first_stage score see_ge mp))
      → IsFresh mp s
      → AreMoves (score (first_kind s))
      → length (score (first_kind s)) ≤ max_moves
      → max_moves ≤ calls
      → drain score see_ge (suc calls) mp ≡ others mp.tt_move (sorted_list (first_kind s))
  unfolding init_first_stage
  one_list mp s calls plain walks fresh moves room enough =
      first_answer mp s calls fresh
      ∙ ap (emit score see_ge calls) walks
      ∙ any_emit score see_ge (init_first_stage score see_ge mp) (sorted_list (first_kind s)) calls
          (λ m e. plain m (e ∙ fresh.first_stage)) (HasSpan-started mp s fresh room)
          (AreMoves-sort_all (score (first_kind s)) moves)
          (omega (arith, enough, room, length-sort_all (score (first_kind s))))

  -- A quiescence or evasion picker that does not start with a TT move gives the moves of its one
  -- list but the TT move, in the order of the full sort, and then MOVE_NONE, when the list fits the
  -- buffer, holds no MOVE_NONE, and more than 256 calls are made.
  pub drain-one_list :
      (mp : MovePicker) (s : Stage) (calls : ℕ)
      → IsFresh mp s
      → HasOneList s
      → AreMoves (score (first_kind s))
      → length (score (first_kind s)) ≤ max_moves
      → max_moves < calls
      → drain score see_ge calls mp ≡ others mp.tt_move (sorted_list (first_kind s))
  unfolding dispatch
  drain-one_list mp s zero fresh which moves room enough = absurd (omega (arith, enough))
  drain-one_list mp s (suc calls) fresh HasOneList.qsearch moves room enough =
      one_list mp s calls (λ m. next_stage score see_ge m s) refl fresh moves room
        (omega (arith, enough))
  drain-one_list mp s (suc calls) fresh HasOneList.evasion moves room enough =
      one_list mp s calls (λ m. next_stage score see_ge m s) refl fresh moves room
        (omega (arith, enough))

  -- A ProbCut picker that does not start with a TT move gives the captures, but the TT move, that
  -- pass the exchange test at its threshold, in the order of the full sort, and then MOVE_NONE,
  -- when they fit the buffer, hold no MOVE_NONE, and more than 256 calls are made.
  pub drain-probcut :
      (mp : MovePicker) (calls : ℕ)
      → IsFresh mp Stage.mp_probcut
      → AreMoves (score Kind.kind_captures)
      → length (score Kind.kind_captures) ≤ max_moves
      → max_moves < calls
      → drain score see_ge calls mp
        ≡ goods mp.tt_move (λ e. see_ge e.move mp.threshold) (sorted_list Kind.kind_captures)
  unfolding dispatch init_first_stage
  drain-probcut mp zero fresh moves room enough = absurd (omega (arith, enough))
  drain-probcut mp (suc calls) fresh moves room enough =
      first_answer mp Stage.mp_probcut calls fresh
      ∙ probcut_emit score see_ge (init_first_stage score see_ge mp)
          (sorted_list Kind.kind_captures) calls fresh.first_stage
          (HasSpan-started mp Stage.mp_probcut fresh room)
          (AreMoves-sort_all (score Kind.kind_captures) moves)
          (omega (arith, enough, room, length-sort_all (score Kind.kind_captures)))

  -- The stage of the good captures, in the form of a stage that sets losers aside.
  abbrev pub after_captures : MovePicker → ℕ × MovePicker
  after_captures m =
      let ended = record m { end_bad_captures = m.end_bad_moves } in
      if m.skip_quiets
      then select_any (replay_bad ended)
      else walk_lists (init_quiets score see_ge ended)

  abbrev pub after_quiets : MovePicker → ℕ × MovePicker
  after_quiets m = select_any (replay_bad m)

  pub capture_next :
      (m : MovePicker)
      → m.stage ≡ Stage.mp_good_capture
      → movepick_next score see_ge m ≡ staged after_captures good_capture m
  unfolding good_capture_stage select_good_capture
  capture_next m e = next_stage score see_ge m Stage.mp_good_capture e

  pub quiet_next :
      (m : MovePicker)
      → m.stage ≡ Stage.mp_good_quiet
      → movepick_next score see_ge m ≡ staged after_quiets is_good_quiet m
  quiet_next m e = next_stage score see_ge m Stage.mp_good_quiet e

  -- The replay of the losers.
  pub replay_emit :
      (m : MovePicker) (final : List ExtMove) (calls : ℕ)
      → Holds no_entry m.moves 0 final
      → m.end_bad_moves ≡ length final
      → AreMoves final
      → length final ≤ calls
      → emit score see_ge calls (select_any (replay_bad m)) ≡ others m.tt_move final
  replay_emit m final calls holds ends moves enough =
      any_emit score see_ge (replay_bad m) final calls
        (λ n e. next_stage score see_ge n Stage.mp_bad_moves e)
        record { holds = holds; ends = omega (arith, ends) } moves enough
