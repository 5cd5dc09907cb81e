-- ===== src/Search/MovePick.antt =====
-- src/engine/search/movepick.c, movepick.h: the staged move picker. The scored lists of the three
-- kinds are a parameter, `score`, which MovePick/Score models; `see_ge` of legality.c is another.
pub mod Score
pub mod Segments
pub mod Walk
pub mod Drain
pub mod Kept
pub mod Emission
pub mod Scored
pub mod Main
pub mod EachOnce
pub mod Setup
use fcfish.Base.{
  ℕ, zero, suc, ◌+◌, ◌-◌, ◌*◌, ◌^◌, ◌%◌, Bool, true, false, leb, ◌==◌, if◌then◌else◌, List, [], ◌∷◌,
  length, get_or, set,
}
use fcfish.Base.Int.{ℤ, pos, negsuc, ◌-ℤ◌, ◌*ℤ◌, ◌/ℤ◌, ltb_ℤ}
use fcfish.Base.Words.{u32}
use fcfish.Board.Types.{move_none}
use fcfish.Search.RootPv.{write_at}
use fcfish.Search.Sort.{sort_all, partial_insertion_sort}

pub record ExtMove : Type 0 where
  pub move : ℕ
  pub value : ℤ

pub data Kind : Type 0 where
  kind_captures : Kind
  kind_quiets : Kind
  kind_evasions : Kind

pub data Stage : Type 0 where
  mp_tt : Stage
  mp_init_first_stage : Stage
  mp_good_capture : Stage
  mp_good_quiet : Stage
  mp_bad_moves : Stage
  mp_qsearch : Stage
  mp_evasion : Stage
  mp_probcut : Stage

abbrev pub stage_code : Stage → ℕ
stage_code mp_tt = 0
stage_code mp_init_first_stage = 1
stage_code mp_good_capture = 2
stage_code mp_good_quiet = 3
stage_code mp_bad_moves = 4
stage_code mp_qsearch = 5
stage_code mp_evasion = 6
stage_code mp_probcut = 7

abbrev pub good_quiet_threshold : ℤ
good_quiet_threshold = negsuc 13999

abbrev pub max_moves : ℕ
max_moves = 256

-- The picker, without the pointers that only the scoring reads.
pub record MovePicker : Type 0 where
  pub tt_move : ℕ
  pub stage : Stage
  pub first_stage : Stage
  pub threshold : ℤ
  pub depth : ℤ
  pub skip_quiets : Bool
  pub cur : ℕ
  pub end_cur : ℕ
  pub end_bad_captures : ℕ
  pub end_bad_moves : ℕ
  pub moves : List ExtMove

-- What stands in no list: it is never read in bounds.
abbrev pub no_entry : ExtMove
no_entry = record { move = move_none; value = pos 0 }

-- `mp->moves[mp->cur]`, and the picker after `mp->cur++`.
abbrev pub cur_entry : MovePicker → ExtMove
cur_entry mp = get_or mp.moves mp.cur no_entry

abbrev pub advanced : MovePicker → MovePicker
advanced mp = record mp { cur = mp.cur + 1 }

-- `mp->moves[mp->end_bad_moves++] = entry`.
abbrev pub set_aside : MovePicker → ExtMove → MovePicker
set_aside mp entry = record mp {
  moves = set mp.moves mp.end_bad_moves entry;
  end_bad_moves = mp.end_bad_moves + 1;
}

-- The while loops run once for each of the `end_cur - cur` entries that are left.
unfoldable pub any_loop : ℕ → MovePicker → ℕ × MovePicker
any_loop zero mp = (move_none, mp)
any_loop (suc left) mp =
    let entry = cur_entry mp in
    let rest = any_loop left (advanced mp) in
    if entry.move == mp.tt_move then rest else (entry.move, advanced mp)

unfoldable pub select_any : MovePicker → ℕ × MovePicker
select_any mp = any_loop (mp.end_cur - mp.cur) mp

-- The loop of the stages that set losers aside.
unfoldable pub good_loop : (ExtMove → Bool) → ℕ → MovePicker → ℕ × MovePicker
good_loop good zero mp = (move_none, mp)
good_loop good (suc left) mp =
    let entry = cur_entry mp in
    let is_tt = entry.move == mp.tt_move in
    let rest = good_loop good left (if is_tt then advanced mp else set_aside (advanced mp) entry) in
    if is_tt then rest else (if good entry then (entry.move, advanced mp) else rest)

unfoldable pub is_good_quiet : ExtMove → Bool
is_good_quiet entry = ltb_ℤ good_quiet_threshold entry.value

unfoldable pub select_good_quiet : MovePicker → ℕ × MovePicker
select_good_quiet mp = good_loop is_good_quiet (mp.end_cur - mp.cur) mp

abbrev pub replay_bad : MovePicker → MovePicker
replay_bad mp = record mp { cur = 0; end_cur = mp.end_bad_moves; stage = mp_bad_moves }

unfoldable pub walk_lists : MovePicker → ℕ × MovePicker
walk_lists mp =
    let r = select_good_quiet mp in
    let replayed = if r.0 == move_none then select_any (replay_bad r.1) else r in
    if stage_code mp.stage == 3 then replayed else select_any mp

unfoldable pub movepick_skip_quiets : MovePicker → MovePicker
movepick_skip_quiets mp =
    let code = stage_code mp.stage in
    let cut = record mp {
      skip_quiets = true;
      end_cur = mp.end_bad_captures;
      end_bad_moves = mp.end_bad_captures;
    } in
    if code == 4 then cut else (if code == 3 then cut else record mp { skip_quiets = true })

module _ (score : Kind → List ExtMove) (see_ge : ℕ → ℤ → Bool) where
  unfoldable pub is_good_capture : ExtMove → Bool
  is_good_capture entry = see_ge entry.move ((pos 0 -ℤ entry.value) /ℤ 18)

  unfoldable pub select_good_capture : MovePicker → ℕ × MovePicker
  select_good_capture mp = good_loop is_good_capture (mp.end_cur - mp.cur) mp

  unfoldable pub probcut_loop : ℕ → MovePicker → ℕ × MovePicker
  probcut_loop zero mp = (move_none, mp)
  probcut_loop (suc left) mp =
      let entry = cur_entry mp in
      let rest = probcut_loop left (advanced mp) in
      if entry.move == mp.tt_move
      then rest
      else (if see_ge entry.move mp.threshold then (entry.move, advanced mp) else rest)

  unfoldable pub select_probcut : MovePicker → ℕ × MovePicker
  select_probcut mp = probcut_loop (mp.end_cur - mp.cur) mp

  -- The first list, generated, scored and sorted.
  unfoldable pub init_first_stage : MovePicker → MovePicker
  init_first_stage mp =
      let entries =
        score (if stage_code mp.first_stage == 6 then kind_evasions else kind_captures) in
      record mp {
        cur = 0;
        end_bad_moves = 0;
        end_cur = length entries;
        moves = write_at mp.moves 0 (sort_all (λ e. ExtMove.value e) entries);
        stage = mp.first_stage;
      }

  -- The quiets, scored behind the bad captures.
  unfoldable pub init_quiets : MovePicker → MovePicker
  init_quiets mp =
      let entries = score kind_quiets in
      record mp {
        cur = mp.end_bad_moves;
        end_cur = mp.end_bad_moves + length entries;
        moves =
            write_at mp.moves mp.end_bad_moves
              (partial_insertion_sort (λ e. ExtMove.value e) entries (negsuc 3559 *ℤ mp.depth));
        stage = mp_good_quiet;
      }

  unfoldable pub good_capture_stage : MovePicker → ℕ × MovePicker
  good_capture_stage mp =
      let r = select_good_capture mp in
      let ended = record r.1 { end_bad_captures = r.1.end_bad_moves } in
      let after =
        if r.1.skip_quiets then select_any (replay_bad ended) else walk_lists (init_quiets ended) in
      if r.0 == move_none then after else r

  -- A dispatch on a stage, and what the loop does at MP_INIT_FIRST_STAGE, given by `continue`.
  unfoldable pub dispatch : (MovePicker → ℕ × MovePicker) → Stage → MovePicker → ℕ × MovePicker
  dispatch again mp_tt mp = (mp.tt_move, record mp { stage = mp_init_first_stage })
  dispatch again mp_init_first_stage mp = again (init_first_stage mp)
  dispatch again mp_good_capture mp = good_capture_stage mp
  dispatch again mp_qsearch mp = select_any mp
  dispatch again mp_evasion mp = select_any mp
  dispatch again mp_probcut mp = select_probcut mp
  dispatch again mp_good_quiet mp = (move_none, mp)
  dispatch again mp_bad_moves mp = (move_none, mp)

  -- The loop goes round once more after the init, never twice: the first stage is none of the
  -- first two stages.
  unfoldable pub generate_stage : MovePicker → ℕ × MovePicker
  generate_stage mp = dispatch (λ m. dispatch (λ n. (move_none, n)) m.stage m) mp.stage mp

  unfoldable pub movepick_next : MovePicker → ℕ × MovePicker
  movepick_next mp =
      if leb (u32 (stage_code mp.stage + 2 ^ 32 - 3)) 3 then walk_lists mp else generate_stage mp

  -- The caller's loop: the moves up to MOVE_NONE, at most `calls` of them.
  unfoldable pub drain : ℕ → MovePicker → List ℕ
  drain zero mp = []
  drain (suc calls) mp =
      let r = movepick_next mp in
      let rest = drain calls r.1 in if r.0 == move_none then [] else r.0 ∷ rest
