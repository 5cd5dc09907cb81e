-- ===== src/Board/Flip/Record.antt =====
-- src/engine/board/position.c: `pos_flip_fen` mirrors a well-formed record.
use fcfish.Base.{
  ℕ, ◌≤◌, ◌<◌, ◌≡◌, refl, arith, Bool, true, false, not, ◌&&◌, ◌==◌, if◌then◌else◌, List, [], ◌∷◌,
  ◌++◌, length, Option, none, some,
}
use fcfish.Board.Types.{Color, white, black}
use fcfish.Board.Flip.{space, slash, dash, skip_spaces, split_at, fen_field}

-- The parts of a record: the ranks from the eighth down, the side to move, the castling rights as
-- written, the file of the en-passant square with its rank, third or sixth, and the counters.
pub record FenRecord : Type 0 where
  pub rank8 : List ℕ
  pub ranks : List (List ℕ)
  pub side : Color
  pub rights : List ℕ
  pub ep : Option (ℕ × Bool)
  pub counters : List ℕ

abbrev pub write_side : Color → ℕ
write_side white = 119
write_side black = 98

abbrev pub write_ep : Option (ℕ × Bool) → List ℕ
write_ep none = dash ∷ []
write_ep (some (file, third)) = file ∷ (if third then 51 else 54) ∷ []

abbrev pub join : List ℕ → List (List ℕ) → List ℕ
join r [] = r
join r (r' ∷ ranks) = r ++ (slash ∷ join r' ranks)

abbrev pub write : FenRecord → List ℕ
write f =
    join f.rank8 f.ranks
    ++ (space
        ∷ write_side f.side
        ∷ space
        ∷ (f.rights ++ (space ∷ (write_ep f.ep ++ (space ∷ f.counters)))))

-- No character of the word is `c`.
abbrev pub lacks : ℕ → List ℕ → Bool
lacks c [] = true
lacks c (d ∷ s) = not (d == c) && lacks c s

abbrev pub IsWord : List ℕ → Type 0
IsWord s = (0 < length s) × (lacks space s ≡ true)

abbrev pub IsRank : List ℕ → Type 0
IsRank s = (0 < length s) × (lacks space s ≡ true) × (lacks slash s ≡ true)

abbrev pub AreRanks : List (List ℕ) → Type 0
AreRanks [] = 0 ≤ 0
AreRanks (r ∷ ranks) = IsRank r × AreRanks ranks

abbrev pub IsEp : Option (ℕ × Bool) → Type 0
IsEp none = 0 ≤ 0
IsEp (some (file, third)) = (file == space) ≡ false

abbrev pub starts : List ℕ → Bool
starts [] = false
starts (c ∷ s) = not (c == space)

pub record IsRecord (f : FenRecord) : Type 0 where
  pub rank8 : IsRank f.rank8
  pub ranks : AreRanks f.ranks
  pub eight : length f.ranks ≤ 7
  pub rights : IsWord f.rights
  pub ep : IsEp f.ep
  pub counters : starts f.counters ≡ true

pub split_at-word :
    (stop : ℕ) (w rest : List ℕ)
    → lacks stop w ≡ true
    → split_at stop (w ++ (stop ∷ rest)) ≡ (w, stop ∷ rest)
unfolding split_at
split_at-word stop [] rest h = ground arith
split_at-word stop (c ∷ w) rest h = ground (arith, split_at-word stop w rest (ground (arith, h)))

pub split_at-end : (stop : ℕ) (w : List ℕ) → lacks stop w ≡ true → split_at stop w ≡ (w, [])
unfolding split_at
split_at-end stop [] h = refl
split_at-end stop (c ∷ w) h = ground (arith, split_at-end stop w (ground (arith, h)))

skip_spaces-word : (w rest : List ℕ) → IsWord w → skip_spaces (w ++ rest) ≡ w ++ rest
unfolding skip_spaces
skip_spaces-word [] rest h = absurd (omega (arith, h.0))
skip_spaces-word (c ∷ w) rest h = ground (arith, h.1)

pub fen_field-word :
    (w rest : List ℕ) → IsWord w → fen_field (w ++ (space ∷ rest)) ≡ (w, space ∷ rest)
unfolding fen_field
fen_field-word w rest h = rw (skip_spaces-word w (space ∷ rest) h) (split_at-word space w rest h.1)

pub fen_field-spaced :
    (w rest : List ℕ) → IsWord w → fen_field (space ∷ (w ++ (space ∷ rest))) ≡ (w, space ∷ rest)
unfolding fen_field skip_spaces
fen_field-spaced w rest h = fen_field-word w rest h
