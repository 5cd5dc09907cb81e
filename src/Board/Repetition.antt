-- ===== src/Board/Repetition.antt =====
-- src/engine/board/repetition.h, repetition.c: repetitions and the cuckoo table of reversible moves.
-- The chain of states is the function from the number of plies back to the state there, so
-- `st->previous` is the next index. The attack and between tables of attacks.c are parameters.
pub mod Insert
pub mod Cycles
pub mod Upcoming
use fcfish.Base.{
  ℕ, zero, suc, ◌+◌, ◌-◌, ◌*◌, ◌/◌, ◌^◌, Bool, true, false, not, ◌&&◌, ◌||◌, ltb, leb, ◌==◌,
  if◌then◌else◌, List, [], ◌∷◌, ◌++◌, Option, none, some, bit_and, bit_xor,
}
use fcfish.Base.Int.{ℤ, pos, ltb_ℤ}
use fcfish.Base.Words.{◌>>◌}
use fcfish.Board.Types.{move_none, make_move, move_from, move_to, type_of_piece, pawn}
use fcfish.Board.Placement.{update, square_bb}

-- What the queries read of a `StateInfo`.
pub record StateInfo : Type 0 where
  pub key : ℕ
  pub rule50 : ℕ
  pub plies_from_null : ℕ
  pub repetition : ℤ

abbrev pub Chain : Type 0
Chain = ℕ → StateInfo

abbrev pub is_zero : ℤ → Bool
is_zero (pos zero) = true
is_zero _ = false

-- `int end`, the smaller of the two counters.
abbrev pub end_of : Chain → ℕ
end_of st =
    if ltb (st 0).rule50 (st 0).plies_from_null then (st 0).rule50 else (st 0).plies_from_null

unfoldable pub pos_is_repetition : Chain → ℤ → Bool
pos_is_repetition st ply = not (is_zero (st 0).repetition) && ltb_ℤ (st 0).repetition ply

-- The loop of `pos_has_repeated` at the state `k` plies back.
unfoldable pub repeated_from : Chain → ℕ → ℕ → Bool
repeated_from st k zero = false
repeated_from st k (suc rest) =
    let further = repeated_from st (k + 1) rest in
    if leb 4 (suc rest) then (if not (is_zero (st k).repetition) then true else further) else false

unfoldable pub pos_has_repeated : Chain → Bool
pos_has_repeated st = repeated_from st 0 (end_of st)

-- The two arrays of the table.
pub record Cuckoo : Type 0 where
  pub keys : ℕ → ℕ
  pub moves : ℕ → ℕ

unfoldable pub cuckoo_h1 : ℕ → ℕ
cuckoo_h1 key = bit_and key 8191

unfoldable pub cuckoo_h2 : ℕ → ℕ
cuckoo_h2 key = bit_and (key >> 16) 8191

abbrev pub no_cuckoo : Cuckoo
no_cuckoo = record { keys = λ i. 0; moves = λ i. move_none }

abbrev pub put : Cuckoo → ℕ → ℕ → ℕ → Cuckoo
put t i key move = record { keys = update t.keys i key; moves = update t.moves i move }

-- The displacing loop, at most `fuel` rounds; none where these are too few.
unfoldable pub displace : ℕ → Cuckoo → ℕ → ℕ → ℕ → Option Cuckoo
displace zero t key move i = none
displace (suc fuel) t key move i =
    let tk = t.keys i in
    let tm = t.moves i in
    let t' = put t i key move in
    let rest = displace fuel t' tk tm (if i == cuckoo_h1 tk then cuckoo_h2 tk else cuckoo_h1 tk) in
    if tm == move_none then some t' else rest

abbrev pub and_then : Option Cuckoo → (Cuckoo → Option Cuckoo) → Option Cuckoo
and_then none f = none
and_then (some t) f = f t

-- The insertions, one after the other.
unfoldable pub insert_all : ℕ → Cuckoo → List (ℕ × ℕ) → Option Cuckoo
insert_all fuel t [] = some t
insert_all fuel t ((key, move) ∷ entries) =
    and_then (displace fuel t key move (cuckoo_h1 key)) (λ t'. insert_all fuel t' entries)

-- The squares after `s1`, `n` of them from `s2` on, that a piece reaches from it.
unfoldable pub entries_to : (ℕ → ℕ → ℕ) → (ℕ → ℕ → ℕ) → ℕ → ℕ → ℕ → ℕ → ℕ → List (ℕ × ℕ)
entries_to attacks psq side pc s1 zero s2 = []
entries_to attacks psq side pc s1 (suc n) s2 =
    let rest = entries_to attacks psq side pc s1 n (s2 + 1) in
    if bit_and (attacks (type_of_piece pc) s1) (square_bb s2) == 0
    then rest
    else (bit_xor (bit_xor (psq pc s1) (psq pc s2)) side, make_move s1 s2) ∷ rest

unfoldable pub entries_from : (ℕ → ℕ → ℕ) → (ℕ → ℕ → ℕ) → ℕ → ℕ → ℕ → ℕ → List (ℕ × ℕ)
entries_from attacks psq side pc zero s1 = []
entries_from attacks psq side pc (suc n) s1 =
    entries_to attacks psq side pc s1 (63 - s1) (s1 + 1)
    ++ entries_from attacks psq side pc n (s1 + 1)

unfoldable pub entries_of : (ℕ → ℕ → ℕ) → (ℕ → ℕ → ℕ) → ℕ → List ℕ → List (ℕ × ℕ)
entries_of attacks psq side [] = []
entries_of attacks psq side (pc ∷ pieces) =
    let rest = entries_of attacks psq side pieces in
    if type_of_piece pc == pawn then rest else entries_from attacks psq side pc 64 0 ++ rest

abbrev pub init_pieces : List ℕ
init_pieces = 1 ∷ 2 ∷ 3 ∷ 4 ∷ 5 ∷ 6 ∷ 9 ∷ 10 ∷ 11 ∷ 12 ∷ 13 ∷ 14 ∷ []

unfoldable pub repetition_init : ℕ → (ℕ → ℕ → ℕ) → (ℕ → ℕ → ℕ) → ℕ → Option Cuckoo
repetition_init fuel attacks psq side =
    insert_all fuel no_cuckoo (entries_of attacks psq side init_pieces)

-- The two probes of `pos_upcoming_repetition`.
unfoldable pub cuckoo_find : Cuckoo → ℕ → Option ℕ
cuckoo_find t key =
    if t.keys (cuckoo_h1 key) == key
    then some (t.moves (cuckoo_h1 key))
    else if t.keys (cuckoo_h2 key) == key
    then some (t.moves (cuckoo_h2 key))
    else none

-- Whether the squares between those of the move, its target excepted, are empty.
unfoldable pub is_clear : (ℕ → ℕ → ℕ) → ℕ → Option ℕ → Bool
is_clear between pieces none = false
is_clear between pieces (some mv) =
    bit_and (bit_xor (between (move_from mv) (move_to mv)) (square_bb (move_to mv))) pieces == 0

-- What one round finds at the state `i` plies back, with the accumulated `other`.
unfoldable pub closes : Cuckoo → (ℕ → ℕ → ℕ) → ℕ → Chain → ℕ → ℕ → ℕ → Bool
closes t between pieces st ply i other =
    other == 0
    && is_clear between pieces (cuckoo_find t (bit_xor (st 0).key (st i).key))
    && (ltb i ply || not (is_zero (st i).repetition))

abbrev pub fold_key : ℕ → Chain → ℕ → ℕ → ℕ
fold_key side st i other = bit_xor other (bit_xor (bit_xor (st (i - 1)).key (st i).key) side)

-- The loop from `i` on, where `rest` rounds may be left.
unfoldable pub cycle_from : Cuckoo → (ℕ → ℕ → ℕ) → ℕ → ℕ → Chain → ℕ → ℕ → ℕ → ℕ → ℕ → Bool
cycle_from t between pieces side st ply end zero i other = false
cycle_from t between pieces side st ply end (suc rest) i other =
    let other' = fold_key side st i other in
    let further = cycle_from t between pieces side st ply end rest (i + 2) other' in
    if leb i end then (if closes t between pieces st ply i other' then true else further) else false

-- `end` bounds the rounds.
unfoldable pub pos_upcoming_repetition : Cuckoo → (ℕ → ℕ → ℕ) → ℕ → ℕ → Chain → ℕ → Bool
pos_upcoming_repetition t between pieces side st ply =
    let end = end_of st in
    if ltb end 3
    then false
    else cycle_from t between pieces side st ply end end 3
        (bit_xor (bit_xor (st 0).key (st 1).key) side)
