-- ===== src/Board/Flip.antt =====
-- src/engine/board/position.c: `pos_flip_fen`, which mirrors a FEN record between the two sides.
-- A string is the list of its character codes, without the terminator.
pub mod Record
pub mod Mirror
use fcfish.Base.{
  ℕ, zero, suc, ◌+◌, ◌-◌, Bool, true, false, not, ◌&&◌, ◌==◌, leb, if◌then◌else◌, List, [], ◌∷◌,
  ◌++◌, map, length, Option, none, some,
}

abbrev pub space : ℕ
space = 32

abbrev pub slash : ℕ
slash = 47

abbrev pub dash : ℕ
dash = 45

-- The ASCII letters are 65 to 90 and 97 to 122.
unfoldable pub flip_case : ℕ → ℕ
flip_case c =
    if leb 97 c && leb c 122 then c - 97 + 65 else if leb 65 c && leb c 90 then c - 65 + 97 else c

unfoldable pub skip_spaces : List ℕ → List ℕ
skip_spaces [] = []
skip_spaces (c ∷ s) = if c == space then skip_spaces s else c ∷ s

-- The characters before the first `stop`, and the rest from it on.
unfoldable pub split_at : ℕ → List ℕ → List ℕ × List ℕ
split_at stop [] = ([], [])
split_at stop (c ∷ s) =
    let (word, rest) = split_at stop s in if c == stop then ([], c ∷ s) else (c ∷ word, rest)

-- The field, and the string after it.
unfoldable pub fen_field : List ℕ → List ℕ × List ℕ
unfolding skip_spaces split_at
fen_field p = split_at space (skip_spaces p)

abbrev pub drop_one : List ℕ → List ℕ
drop_one [] = []
drop_one (c ∷ s) = s

-- The loop that splits the board into at most `n` ranks.
unfoldable pub split_ranks : ℕ → List ℕ → List (List ℕ)
unfolding split_at
split_ranks zero s = []
split_ranks (suc n) [] = []
split_ranks (suc n) (c ∷ s) =
    let (rank, rest) = split_at slash (c ∷ s) in rank ∷ split_ranks n (drop_one rest)

-- The loop that writes the ranks, the last first, with a slash after each but the first: what it
-- has written after the first ranks, of which `out` was written, and `ranks`.
unfoldable pub write_ranks : List ℕ → List (List ℕ) → List ℕ
write_ranks out [] = out
write_ranks out (r ∷ ranks) = write_ranks (map flip_case r ++ (slash ∷ out)) ranks

unfoldable pub write_board : List (List ℕ) → List ℕ
unfolding write_ranks
write_board [] = []
write_board (r ∷ ranks) = write_ranks (map flip_case r) ranks

unfoldable pub flip_side : List ℕ → ℕ
flip_side field = if length field == 1 && is_w field then 98 else 119
  where
    is_w : List ℕ → Bool
    is_w [] = false
    is_w (c ∷ s) = c == 119

unfoldable pub flip_rights : List ℕ → List ℕ
flip_rights [] = dash ∷ []
flip_rights (c ∷ field) = map flip_case (c ∷ field)

unfoldable pub flip_ep : List ℕ → List ℕ
flip_ep (file ∷ rank ∷ []) = file ∷ (if rank == 51 then 54 else 51) ∷ []
flip_ep _ = dash ∷ []

-- The counters, after one space.
unfoldable pub copy_tail : List ℕ → List ℕ
copy_tail [] = []
copy_tail (c ∷ s) = space ∷ c ∷ s

-- The four fields that the function reads, and the string after them.
pub record Fields : Type 0 where
  pub board : List ℕ
  pub side : List ℕ
  pub rights : List ℕ
  pub ep : List ℕ
  pub rest : List ℕ

unfoldable pub read_fields : List ℕ → Fields
read_fields fen =
    let f1 = fen_field fen in
    let f2 = fen_field f1.1 in
    let f3 = fen_field f2.1 in
    let f4 = fen_field f3.1 in
    record { board = f1.0; side = f2.0; rights = f3.0; ep = f4.0; rest = f4.1 }

-- What it writes, if the first field is there.
unfoldable pub write_flipped : Fields → Option (List ℕ)
write_flipped f =
    if length f.board == 0
    then none
    else some (
        write_board (split_ranks 8 f.board)
        ++ (space
            ∷ flip_side f.side
            ∷ space
            ∷ (flip_rights f.rights ++ (space ∷ (flip_ep f.ep ++ copy_tail (skip_spaces f.rest))))))

unfoldable pub pos_flip_fen : List ℕ → Option (List ℕ)
pos_flip_fen fen = write_flipped (read_fields fen)
