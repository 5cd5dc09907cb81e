-- ===== src/Search/MovePick/Score.antt =====
-- src/engine/search/movepick.c: score_list, with its two passes. The position is its board, its
-- side and the sets that it caches; the generated lists and the exchange test are parameters, since
-- the generators are not modelled.
use fcfish.Base.{
  ℕ, ◌+◌, ◌*◌, ◌^◌, Bool, true, false, ltb, ◌==◌, if◌then◌else◌, List, [], ◌∷◌, get_or, bit_and,
  bit_or,
}
use fcfish.Base.Int.{ℤ, pos, negsuc, ◌+ℤ◌, ◌-ℤ◌, ◌*ℤ◌, ◌/ℤ◌}
use fcfish.Base.Words.{◌>>◌}
use fcfish.Board.Types.{
  Color, color_code, move_from, move_to, move_type, move_promotion, type_of_piece, piece_value_of,
  pawn, knight, bishop, rook, queen, no_piece, move_type_code,
}
use fcfish.Board.Bitboard.{bb_test}
use fcfish.Search.History.{square_nb, capture_entry, pawn_history_row}
use fcfish.Search.History.Clear.{WorkerTables, SharedTables, hist_uint16}
use fcfish.Search.MovePick.{ExtMove, Kind}

-- What score_list reads of the position and of the picker.
pub record ScoreView : Type 0 where
  pub board : List ℕ
  pub side_to_move : Color
  pub threats_by : ℕ → ℕ
  pub check_squares : ℕ → ℕ
  pub tables : WorkerTables
  pub shared : SharedTables
  pub pawn_key : ℕ
  pub pawn_mask : ℕ
  pub cont_hist : ℕ → ℕ
  pub ply : ℕ

abbrev pub low_ply_history_size : ℕ
low_ply_history_size = 5

abbrev piece_on : ScoreView → ℕ → ℕ
piece_on v s = get_or v.board s no_piece

unfoldable pub is_capture : ScoreView → ℕ → Bool
is_capture v m =
    let kind = move_type_code (move_type m) in
    if kind == 2
    then true
    else (if piece_on v (move_to m) == no_piece then false else (if kind == 3 then false else true))

unfoldable pub capture_stage : ScoreView → ℕ → Bool
capture_stage v m = if is_capture v m then true else move_promotion m == queen

-- The page of a slot starts at `cont_hist slot`.
unfoldable pub cont_hist_score : ScoreView → ℕ → ℕ → ℤ
cont_hist_score v slot hi = v.shared.continuation (v.cont_hist slot + hi)

unfoldable pub threat_by_lesser : ScoreView → ℕ → ℕ
threat_by_lesser v pt =
    let by_pawn = v.threats_by pawn in
    let by_minor = bit_or (bit_or (v.threats_by knight) (v.threats_by bishop)) by_pawn in
    if pt == knight
    then by_pawn
    else (if pt == bishop
        then by_pawn
        else (if pt == rook
            then by_minor
            else (if pt == queen then bit_or (v.threats_by rook) by_minor else 0)))

abbrev bit_at : ℕ → ℕ → ℤ
bit_at b s = pos (bit_and (b >> s) 1)

unfoldable pub capture_value : ScoreView → ℕ → ℤ
capture_value v m =
    let captured = piece_on v (move_to m) in
    v.tables.capture_history
      (capture_entry (piece_on v (move_from m)) (move_to m) (type_of_piece captured))
    +ℤ pos (7 * piece_value_of captured)

-- The first pass of the quiets.
unfoldable pub quiet_value : (ℕ → ℤ → Bool) → ScoreView → ℕ → ℤ
quiet_value see_ge v m =
    let pc = piece_on v (move_from m) in
    let pt = type_of_piece pc in
    let hi = pc * square_nb + move_to m in
    let main = v.tables.main_history (color_code v.side_to_move * hist_uint16 + m) in
    let pawn_history = v.shared.pawn (pawn_history_row v.pawn_key v.pawn_mask + hi) in
    let continuation_sum =
      cont_hist_score v 0 hi
      +ℤ cont_hist_score v 1 hi
      +ℤ cont_hist_score v 2 hi
      +ℤ cont_hist_score v 3 hi
      +ℤ cont_hist_score v 5 hi in
    let threat = threat_by_lesser v pt in
    let threat_term = bit_at threat (move_from m) -ℤ bit_at threat (move_to m) in
    let value =
      pos 2 *ℤ main
      +ℤ pos 2 *ℤ pawn_history
      +ℤ continuation_sum
      +ℤ pos (piece_value_of pt * 20) *ℤ threat_term in
    if bb_test (v.check_squares pt) (move_to m)
    then (if see_ge m (negsuc 74) then value +ℤ pos 16384 else value)
    else value

unfoldable pub evasion_value : ScoreView → ℕ → ℤ
evasion_value v m =
    let hi = piece_on v (move_from m) * square_nb + move_to m in
    if capture_stage v m
    then pos (piece_value_of (piece_on v (move_to m)) + 2 ^ 28)
    else v.tables.main_history (color_code v.side_to_move * hist_uint16 + m)
      +ℤ cont_hist_score v 0 hi

-- The second pass of the quiets, at the low plies.
unfoldable pub add_low_ply : ScoreView → List ExtMove → List ExtMove
add_low_ply v [] = []
add_low_ply v (e ∷ es) =
    let low = v.tables.low_ply_history (v.ply * hist_uint16 + e.move) in
    record e { value = e.value +ℤ (pos 8 *ℤ low) /ℤ (1 + v.ply) } ∷ add_low_ply v es

unfoldable pub scored : (ℕ → ℤ) → List ℕ → List ExtMove
scored value [] = []
scored value (m ∷ ms) = record { move = m; value = value m } ∷ scored value ms

module _ (generated : Kind → List ℕ) (see_ge : ℕ → ℤ → Bool) where
  unfoldable pub score_list : ScoreView → Kind → List ExtMove
  score_list v Kind.kind_captures = scored (capture_value v) (generated Kind.kind_captures)
  score_list v Kind.kind_evasions = scored (evasion_value v) (generated Kind.kind_evasions)
  score_list v Kind.kind_quiets =
      let first = scored (quiet_value see_ge v) (generated Kind.kind_quiets) in
      if ltb v.ply low_ply_history_size then add_low_ply v first else first
