-- ===== src/Board/StateList.antt =====
-- src/engine/board/state_list.c: the list that owns the `StateInfo` blocks of a game.
-- A block is its address, and the vector its used part. The allocator is a parameter: what `calloc`
-- returns for a block, and whether `realloc` of the vector succeeds. `live` says which blocks are
-- allocated. The list's own record and its vector are not counted; the wrapper is the list or none.
-- What stands in a block is not modelled, so the `memset` of the root block in a reset is left out.
pub mod Ownership
use fcfish.Base.{
  ℕ, zero, suc, ◌+◌, ◌-◌, ◌*◌, Bool, true, false, not, ◌==◌, if◌then◌else◌, List, [], ◌∷◌, ◌++◌,
  length, take, get_or, Option, none, some,
}
use fcfish.Board.Placement.{update}

pub record StateList : Type 0 where
  pub blocks : List ℕ
  pub capacity : ℕ
  pub live : ℕ → Bool

abbrev pub free : ℕ → (ℕ → Bool) → (ℕ → Bool)
free b live = update live b false

abbrev pub allocate : ℕ → (ℕ → Bool) → (ℕ → Bool)
allocate b live = update live b true

abbrev pub next_capacity : ℕ → ℕ
next_capacity capacity = if capacity == 0 then 8 else capacity * 2

-- `append_block`, with the new block's address or none.
unfoldable pub append_block : Option ℕ → Bool → StateList → StateList × Option ℕ
append_block none grows list = (list, none)
append_block (some b) grows list =
    let live = allocate b list.live in
    let full = length list.blocks == list.capacity in
    if full
    then (if grows
        then (
          record {
            blocks = list.blocks ++ (b ∷ []);
            capacity = next_capacity list.capacity;
            live = live;
          },
          some b,
        )
        else (record list { live = free b live }, none))
    else (record list { blocks = list.blocks ++ (b ∷ []); live = live }, some b)

unfoldable pub free_all : List ℕ → (ℕ → Bool) → (ℕ → Bool)
free_all [] live = live
free_all (b ∷ blocks) live = free_all blocks (free b live)

-- What stays allocated after `state_list_destroy`.
unfoldable pub state_list_destroy : StateList → (ℕ → Bool)
state_list_destroy list = free_all list.blocks list.live

-- `state_list_create`, by the live blocks before it.
unfoldable pub state_list_create : Option ℕ → Bool → (ℕ → Bool) → Option StateList × (ℕ → Bool)
state_list_create block grows live =
    let r = append_block block grows (record { blocks = []; capacity = 0; live = live }) in
    created r.0 r.1
  where
    created : StateList → Option ℕ → Option StateList × (ℕ → Bool)
    created list none = (none, state_list_destroy list)
    created list (some b) = (some list, list.live)

abbrev pub drop_one : List ℕ → List ℕ
drop_one [] = []
drop_one (b ∷ blocks) = blocks

-- The root block stays; the list is never empty here.
unfoldable pub state_list_reset : StateList → StateList
state_list_reset list = record list {
  blocks = take 1 list.blocks;
  live = free_all (drop_one list.blocks) list.live;
}

unfoldable pub state_list_push : Option ℕ → Bool → StateList → StateList × Option ℕ
state_list_push block grows list = append_block block grows list

-- The wrapper: the list that it still owns.
abbrev pub PendingStateStorage : Type 0
PendingStateStorage = Option StateList

-- The wrapper around a new list, by the live blocks before it.
unfoldable pub pending_states_create :
    Option ℕ → Bool → (ℕ → Bool) → Option PendingStateStorage × (ℕ → Bool)
pending_states_create block grows live =
    let r = state_list_create block grows live in (wrapped r.0, r.1)
  where
    wrapped : Option StateList → Option PendingStateStorage
    wrapped none = none
    wrapped (some list) = some (some list)

abbrev pub newest : Option StateList → Option ℕ
newest none = none
newest (some list) = some (get_or list.blocks (length list.blocks - 1) 0)

-- Back to one root block, in a new list if the old one was moved out: the wrapper, the live blocks
-- and the block returned.
unfoldable pub pending_states_reset :
    Option ℕ → Bool → (ℕ → Bool) → PendingStateStorage → PendingStateStorage × (ℕ → Bool) × Option ℕ
pending_states_reset block grows live none =
    let r = state_list_create block grows live in (r.0, r.1, newest r.0)
pending_states_reset block grows live (some list) =
    let l = state_list_reset list in (some l, l.live, some (get_or l.blocks 0 0))

unfoldable pub pending_states_destroy : (ℕ → Bool) → PendingStateStorage → (ℕ → Bool)
pending_states_destroy live none = live
pending_states_destroy live (some list) = state_list_destroy list

unfoldable pub pending_states_push :
    Option ℕ → Bool → PendingStateStorage → PendingStateStorage × Option ℕ
pending_states_push block grows none = (none, none)
pending_states_push block grows (some list) =
    let r = state_list_push block grows list in (some r.0, r.1)

unfoldable pub pending_states_has_states : PendingStateStorage → Bool
pending_states_has_states none = false
pending_states_has_states (some list) = not (length list.blocks == 0)

-- The wrapper after the move, and the list handed over.
unfoldable pub pending_states_move_out :
    PendingStateStorage → PendingStateStorage × Option StateList
pending_states_move_out storage = (none, storage)
