-- ===== src/Examples/Strings.antt =====
-- src/engine/board: records, move texts, state lists and repetitions on concrete inputs.
use fcfish.Base.{
  ℕ, ◌≡◌, refl, ◌≢◌, ◌↔◌, arith, true, false, ◌==◌, sym, if◌then◌else◌, List, [], ◌∷◌, some,
}
use fcfish.Base.Int.{pos}
use mathlib.Core.List.{Memᴰ}
use mathlib.Core.Option.{some-injective}
use fcfish.Board.Types.{
  white, move_none, move_null, move_from, move_to, move_type, rank_of, file_of,
}
use fcfish.Board.Flip.{pos_flip_fen}
use fcfish.Board.Flip.Record.{FenRecord, IsRecord, write}
use fcfish.Board.Flip.Mirror.{mirror, pos_flip_fen-write}
use fcfish.Board.Fen.{rank_from}
use fcfish.Board.Fen.Ranks.{expand, cells, expand-rank_from}
use fcfish.Board.UciMove.{move_to_uci, move_from_uci, target}
use fcfish.Board.UciMove.Naming.{move_to_uci-injective}
use fcfish.Board.UciMove.Typed.{Spells, AreLegal, move_from_uci-move_to_uci}
use mathlib.Core.Path.{subst}
use fcfish.Board.StateList.{StateList, state_list_push}
use fcfish.Board.StateList.Ownership.{IsList, Pushed, state_list_push-Pushed}
use fcfish.Board.Repetition.{Chain, end_of, pos_has_repeated, no_cuckoo, pos_upcoming_repetition}
use fcfish.Board.Repetition.Cycles.{RepeatedAt, pos_has_repeated_lem}
use fcfish.Board.Repetition.Upcoming.{Closing, pos_upcoming_repetition_lem}

-- "k7/P1 w K a3 0 1", two ranks with a capture of the pawn in view.
abbrev small_record : FenRecord
small_record = record {
  rank8 = 107 ∷ 55 ∷ [];
  ranks = (80 ∷ 49 ∷ []) ∷ [];
  side = white;
  rights = 75 ∷ [];
  ep = some (97, true);
  counters = 48 ∷ 32 ∷ 49 ∷ [];
}

small_record-IsRecord : IsRecord small_record
small_record-IsRecord = record {
  rank8 = (omega arith, refl, refl);
  ranks = ((omega arith, refl, refl), omega arith);
  eight = omega arith;
  rights = (omega arith, refl);
  ep = refl;
  counters = refl;
}

pos_flip_fen-write_example : pos_flip_fen (write small_record) ≡ some (write (mirror small_record))
pos_flip_fen-write_example = pos_flip_fen-write small_record small_record-IsRecord

-- A rook on file c of an empty rank.
expand-rank_from_example :
    expand (rank_from (λ s. if s == 58 then 4 else 0) 7 8 0 8)
    ≡ cells (λ s. if s == 58 then 4 else 0) 7 0 8
expand-rank_from_example =
    expand-rank_from (λ s. if s == 58 then 4 else 0) 7 8 0 8 (omega arith) (omega arith)

-- e2e4 and g1f3, and the text "E2E4".
abbrev two_moves : List ℕ
two_moves = 796 ∷ 405 ∷ []

abbrev typed_text : List ℕ
typed_text = 69 ∷ 50 ∷ 69 ∷ 52 ∷ []

two_moves-AreLegal : AreLegal two_moves
unfolding move_from
two_moves-AreLegal = record {
  real = λ m i. both m i (λ k. k ≢ move_none) (omega arith) (omega arith);
  moving = λ m i. both m i (λ k. k ≢ move_null) (omega arith) (omega arith);
  distinct = λ m m' i j e f g.
      both m i (λ k. move_from k ≡ move_from m' → k ≡ m')
        (both m' j (λ k. move_from 796 ≡ move_from k → 796 ≡ k) (λ q. refl)
          (λ q. absurd (ground (arith, q))))
        (both m' j (λ k. move_from 405 ≡ move_from k → 405 ≡ k) (λ q. absurd (ground (arith, q)))
          (λ q. refl))
        e;
}
  where
    both : (m : ℕ) → Memᴰ m two_moves → (P : ℕ → Type 0) → P 796 → P 405 → P m
    both m (Memᴰ.head e) P p q = subst P (sym e) p
    both m (Memᴰ.tail (Memᴰ.head e)) P p q = subst P (sym e) q
    both m (Memᴰ.tail (Memᴰ.tail i)) P p q = elim i [ ]

typed_text-Spells : Spells (move_to_uci true 796) typed_text
unfolding move_to_uci target file_of rank_of move_from move_to move_type
typed_text-Spells =
    Spells.capital 69 (omega arith) (omega arith) (
      Spells.exact 50 (Spells.capital 69 (omega arith) (omega arith) (Spells.exact 52 Spells.done)))

move_from_uci-move_to_uci_example : move_from_uci true two_moves typed_text ≡ 796
move_from_uci-move_to_uci_example =
    move_from_uci-move_to_uci two_moves 796 typed_text two_moves-AreLegal (Memᴰ.head refl)
      typed_text-Spells

abbrev opening : ℕ
opening = 796

move_to_uci-injective_example :
    (move_from opening ≡ move_from opening) × (move_to opening ≡ move_to opening)
move_to_uci-injective_example =
    move_to_uci-injective opening opening (omega arith) (omega arith) (omega arith) (omega arith)
      refl

-- A list of two blocks in a vector of two.
abbrev game : StateList
game = record { blocks = 64 ∷ 96 ∷ []; capacity = 2; live = λ a. if a == 64 then true else a == 96 }

game-IsList : IsList game
game-IsList = record {
  nonempty = omega arith;
  fits = omega arith;
  owned = λ a h. ground (arith, h);
}

fresh_block : (b : ℕ) → some 128 ≡ some b → game.live b ≡ false
fresh_block b e = rw (sym (some-injective 128 b e)) refl

state_list_push-Pushed_example :
    Pushed game (some 128) false (state_list_push (some 128) false game)
state_list_push-Pushed_example =
    state_list_push-Pushed game (some 128) false game-IsList fresh_block

-- A game in which every second position repeats.
abbrev shuffle : Chain
shuffle k = record { key = 5; rule50 = 9; plies_from_null = 9; repetition = pos 2 }

pos_has_repeated_lem_example :
    (pos_has_repeated shuffle ≡ true) ↔ ((k : ℕ) × RepeatedAt shuffle (end_of shuffle) k)
pos_has_repeated_lem_example = pos_has_repeated_lem shuffle

pos_upcoming_repetition_lem_example :
    (pos_upcoming_repetition no_cuckoo (λ a b. 0) 0 1 shuffle 20 ≡ true)
    ↔ ((n : ℕ) × Closing no_cuckoo (λ a b. 0) 0 1 shuffle 20 n)
pos_upcoming_repetition_lem_example =
    pos_upcoming_repetition_lem no_cuckoo (λ a b. 0) 0 1 shuffle 20
