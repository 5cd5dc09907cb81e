-- ===== src/Search/RootPv.antt =====
-- src/engine/search/root_pv.h, root_pv.c: the growing move list of a root move's line.
-- The allocator is a parameter: `realloc buf n` is the block of `n` moves that it returns for the
-- block `buf`, or none. A NULL block is the empty list. The byte counts of `reserve` are in moves.
pub mod Reserve
pub mod Lines
use fcfish.Base.{
  ℕ, zero, suc, ◌+◌, ◌-◌, ◌*◌, ◌/◌, ◌^◌, Bool, true, false, ltb, leb, ◌==◌, if◌then◌else◌, List, [],
  ◌∷◌, ◌++◌, length, set, take, Option, none, some,
}
use fcfish.Board.Types.{max_ply}

abbrev pub root_pv_search_cap : ℕ
root_pv_search_cap = max_ply + 1

pub record RootPvMoves : Type 0 where
  pub moves : List ℕ
  pub length : ℕ
  pub capacity : ℕ

abbrev pub Realloc : Type 0
Realloc = List ℕ → ℕ → Option (List ℕ)

-- SIZE_MAX / 2 / sizeof(Move).
abbrev pub doubling_limit : ℕ
doubling_limit = (2 ^ 64 - 1) / 2 / 2

-- The loop of `reserve`, at most `fuel` doublings; none where it refuses the next one.
unfoldable pub double_cap : ℕ → ℕ → ℕ → Option ℕ
double_cap zero cap want = if ltb cap want then none else some cap
double_cap (suc fuel) cap want =
    let rest = double_cap fuel (cap * 2) want in
    if ltb cap want then (if ltb doubling_limit cap then none else rest) else some cap

-- What `reserve` does with the grown capacity and with the block that it got.
unfoldable pub grown : RootPvMoves → ℕ → Option (List ℕ) → RootPvMoves × Bool
grown pv cap none = (pv, false)
grown pv cap (some block) = (record pv { moves = block; capacity = cap }, true)

unfoldable pub grow_to : Realloc → RootPvMoves → Option ℕ → RootPvMoves × Bool
grow_to realloc pv none = (pv, false)
grow_to realloc pv (some cap) = grown pv cap (realloc pv.moves cap)

unfoldable pub reserve : Realloc → RootPvMoves → ℕ → RootPvMoves × Bool
reserve realloc pv want =
    let start = if pv.capacity == 0 then root_pv_search_cap else pv.capacity in
    if leb want pv.capacity then (pv, true) else grow_to realloc pv (double_cap 64 start want)

abbrev pub no_line : RootPvMoves
no_line = record { moves = []; length = 0; capacity = 0 }

unfoldable pub init_from : Option (List ℕ) → RootPvMoves × Bool
init_from none = (no_line, false)
init_from (some block) = (record { moves = block; length = 0; capacity = root_pv_search_cap }, true)

unfoldable pub root_pv_init : Realloc → RootPvMoves × Bool
root_pv_init realloc = init_from (realloc [] root_pv_search_cap)

unfoldable pub root_pv_release : RootPvMoves → RootPvMoves
root_pv_release pv = no_line

-- The writes of `xs` to a block from index `i` on.
unfoldable pub write_at {ℓ} : {A : Type ℓ} → List A → ℕ → List A → List A
write_at buf i [] = buf
write_at buf i (x ∷ xs) = write_at (set buf i x) (i + 1) xs

unfoldable pub root_pv_set_line : Realloc → RootPvMoves → ℕ → List ℕ → RootPvMoves
root_pv_set_line realloc pv first child =
    let r = reserve realloc pv (length child + 1) in
    if r.1
    then record r.0 { moves = write_at r.0.moves 0 (first ∷ child); length = 1 + length child }
    else record r.0 { length = 0 }

unfoldable pub root_pv_push : Realloc → RootPvMoves → ℕ → RootPvMoves × Bool
root_pv_push realloc pv m =
    let r = reserve realloc pv (pv.length + 1) in
    if r.1
    then (
      record r.0 { moves = write_at r.0.moves r.0.length (m ∷ []); length = r.0.length + 1 },
      true,
    )
    else (r.0, false)

unfoldable pub root_pv_truncate : RootPvMoves → ℕ → RootPvMoves
root_pv_truncate pv len = if ltb len pv.length then record pv { length = len } else pv

-- Of two different lists.
unfoldable pub root_pv_copy : Realloc → RootPvMoves → RootPvMoves → RootPvMoves
root_pv_copy realloc dst src =
    let r = reserve realloc dst src.length in
    let len = if r.1 then src.length else r.0.capacity in
    record r.0 { moves = write_at r.0.moves 0 (take len src.moves); length = len }
