-- ===== src/Examples/Picker.antt =====
-- src/engine/search/movepick.c: sorts and pickers on a few moves.
use fcfish.Base.{ℕ, ◌≡◌, refl, arith, Bool, true, false, ◌==◌, List, [], ◌∷◌, ◌++◌, replicate, not}
use mathlib.Core.List.{Perm}
use fcfish.Base.Int.{ℤ, pos, negsuc, ◌*ℤ◌, ◌-ℤ◌, ◌/ℤ◌}
use fcfish.Board.Types.{Color}
use fcfish.Search.Sort.{sort_all, sort_from, ladder, partial_insertion_sort, partial_from}
use fcfish.Search.Sort.Stable.{IsDescending, with_key, sort_all_lem}
use fcfish.Search.Sort.Partial.{partial_insertion_sort_lem}
use fcfish.Search.MovePick.{
  ExtMove, Kind, Stage, MovePicker, no_entry, drain, is_good_quiet, is_good_capture,
}
use fcfish.Search.MovePick.Score.{ScoreView, score_list}
use fcfish.Search.MovePick.Emission.{HasOneList, IsFresh, drain-one_list, drain-probcut}
use fcfish.Search.MovePick.Scored.{AreScored}
use fcfish.Search.MovePick.Main.{drain-main_moves, drain-skip_quiets}
use fcfish.Search.MovePick.Setup.{IsFirstThen, node_picker, is_usable, drain-movepick_init}

abbrev entry : ℕ → ℤ → ExtMove
entry m v = record { move = m; value = v }

abbrev value_of : ExtMove → ℤ
value_of e = e.value

abbrev three_captures : List ExtMove
three_captures = entry 10 (pos 5) ∷ entry 11 (pos 9) ∷ entry 12 (negsuc 7) ∷ []

abbrev three_quiets : List ExtMove
three_quiets = entry 20 (pos 100) ∷ entry 21 (negsuc 19999) ∷ entry 22 (pos 300) ∷ []

abbrev few_moves : Kind → List ExtMove
few_moves Kind.kind_captures = three_captures
few_moves Kind.kind_quiets = three_quiets
few_moves Kind.kind_evasions = three_captures

-- Move 12 loses material.
abbrev loses_twelve : ℕ → ℤ → Bool
loses_twelve m threshold = not (m == 12)

abbrev picker : Stage → Bool → MovePicker
picker first skip = record {
  tt_move = 20;
  stage = Stage.mp_init_first_stage;
  first_stage = first;
  threshold = pos 0;
  depth = pos 3;
  skip_quiets = skip;
  cur = 0;
  end_cur = 0;
  end_bad_captures = 0;
  end_bad_moves = 0;
  moves = replicate 256 no_entry;
}

picker-IsFresh :
    (score : Kind → List ExtMove) (first : Stage) (skip : Bool)
    → IsFresh score loses_twelve (picker first skip) first
picker-IsFresh score first skip = record { at_init = refl; first_stage = refl; sized = refl }

few_moves-AreScored : AreScored few_moves loses_twelve
few_moves-AreScored = record {
  captures = (refl, (refl, (refl, tt)));
  quiets = (refl, (refl, (refl, tt)));
  fit = omega arith;
}

sort_all_lem_example :
    Perm (sort_all value_of three_quiets) three_quiets
    × IsDescending value_of (sort_all value_of three_quiets)
    × (with_key value_of (pos 100) (sort_all value_of three_quiets)
        ≡ with_key value_of (pos 100) three_quiets)
sort_all_lem_example = sort_all_lem value_of three_quiets (pos 100)

partial_insertion_sort_lem_example :
    (left : List ExtMove) × (partial_insertion_sort value_of three_quiets (negsuc 10679)
      ≡ sort_all value_of (entry 20 (pos 100) ∷ entry 22 (pos 300) ∷ []) ++ left)
    × Perm left (entry 21 (negsuc 19999) ∷ [])
partial_insertion_sort_lem_example =
    partial_insertion_sort_lem value_of (negsuc 10679) (entry 20 (pos 100))
      (entry 21 (negsuc 19999) ∷ entry 22 (pos 300) ∷ [])

drain-main_moves_example :
    drain few_moves loses_twelve 513 (picker Stage.mp_good_capture false)
    ≡ 11 ∷ 10 ∷ 22 ∷ 12 ∷ 21 ∷ []
unfolding sort_all sort_from ladder partial_insertion_sort partial_from is_good_capture
    is_good_quiet ◌*ℤ◌ ◌-ℤ◌ ◌/ℤ◌
drain-main_moves_example =
    drain-main_moves few_moves loses_twelve (picker Stage.mp_good_capture false) 513
      few_moves-AreScored (picker-IsFresh few_moves Stage.mp_good_capture false) refl (omega arith)

drain-skip_quiets_example :
    drain few_moves loses_twelve 513 (picker Stage.mp_good_capture true) ≡ 11 ∷ 10 ∷ 12 ∷ []
unfolding sort_all sort_from ladder is_good_capture
drain-skip_quiets_example =
    drain-skip_quiets few_moves loses_twelve (picker Stage.mp_good_capture true) 513
      few_moves-AreScored (picker-IsFresh few_moves Stage.mp_good_capture true) refl (omega arith)

drain-one_list_example :
    drain few_moves loses_twelve 257 (picker Stage.mp_qsearch false) ≡ 11 ∷ 10 ∷ 12 ∷ []
unfolding sort_all sort_from ladder
drain-one_list_example =
    drain-one_list few_moves loses_twelve (picker Stage.mp_qsearch false) Stage.mp_qsearch 257
      (picker-IsFresh few_moves Stage.mp_qsearch false) HasOneList.qsearch
      (refl, (refl, (refl, tt))) (omega arith) (omega arith)

drain-probcut_example :
    drain few_moves loses_twelve 257 (picker Stage.mp_probcut false) ≡ 11 ∷ 10 ∷ []
unfolding sort_all sort_from ladder
drain-probcut_example =
    drain-probcut few_moves loses_twelve (picker Stage.mp_probcut false) 257
      (picker-IsFresh few_moves Stage.mp_probcut false) (refl, (refl, (refl, tt))) (omega arith)
      (omega arith)

abbrev generated : Kind → List ℕ
generated Kind.kind_captures = 10 ∷ 12 ∷ []
generated Kind.kind_quiets = 20 ∷ 21 ∷ []
generated Kind.kind_evasions = []

-- A position with an empty board and empty tables.
abbrev empty_view : ScoreView
empty_view = record {
  board = [];
  side_to_move = Color.white;
  threats_by = λ pt. 0;
  check_squares = λ pt. 0;
  tables = record {
    main_history = λ i. pos 0;
    capture_history = λ i. pos 0;
    tt_move_history = pos 0;
    continuation_correction_history = λ i. pos 0;
    low_ply_history = λ i. pos 0;
  };
  shared = record { correction = λ i. pos 0; pawn = λ i. pos 0; continuation = λ i. pos 0 };
  pawn_key = 0;
  pawn_mask = 0;
  cont_hist = λ slot. 0;
  ply = 0;
}

drain-movepick_init_example : IsFirstThen (20 ∷ []) (10 ∷ 12 ∷ 21 ∷ []) (
    drain
      (score_list generated loses_twelve empty_view)
      loses_twelve
      514
      (node_picker false (λ m. true) (picker Stage.mp_evasion true) 20 (pos 3)))
unfolding is_usable
drain-movepick_init_example =
    drain-movepick_init generated loses_twelve empty_view (λ m. true) (picker Stage.mp_evasion true)
      20 (pos 3) 514 refl refl (refl, (refl, tt)) (refl, (refl, tt)) (omega arith) (omega arith)
