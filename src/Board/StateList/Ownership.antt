-- ===== src/Board/StateList/Ownership.antt =====
-- src/engine/board/state_list.c: the list keeps its blocks where they are, and frees each of them.
use fcfish.Base.{
  ℕ, zero, suc, ◌≤◌, ◌<◌, ◌≡◌, refl, ap, sym, ◌∙◌, arith, Bool, true, false, ◌==◌, ==_iff,
  if◌then◌else◌, Bool-cases, inl, inr, ◌⊎◌, List, [], ◌∷◌, ◌++◌, length, take, get_or, Option, none,
  some, length-append,
}
use mathlib.Core.Path.{fun_ext}
use fcfish.Board.StateList.{
  StateList, free, allocate, next_capacity, append_block, free_all, state_list_destroy,
  state_list_reset, state_list_push, drop_one,
}

abbrev pub is_block : ℕ → List ℕ → Bool
is_block a [] = false
is_block a (b ∷ blocks) = if a == b then true else is_block a blocks

pub record IsList (list : StateList) : Type 0 where
  pub nonempty : 0 < length list.blocks
  pub fits : length list.blocks ≤ list.capacity
  pub owned : (a : ℕ) → is_block a list.blocks ≡ true → list.live a ≡ true

free_all_lem :
    (blocks : List ℕ) (live : ℕ → Bool) (a : ℕ)
    → free_all blocks live a ≡ (if is_block a blocks then false else live a)
unfolding free_all
free_all_lem [] live a = refl
free_all_lem (b ∷ blocks) live a = ground (arith, free_all_lem blocks (free b live) a)

get_or-append : (xs ys : List ℕ) (i d : ℕ) → i < length xs → get_or (xs ++ ys) i d ≡ get_or xs i d
get_or-append [] ys i d h = absurd (omega (arith, h))
get_or-append (x ∷ xs) ys zero d h = refl
get_or-append (x ∷ xs) ys (suc i) d h = get_or-append xs ys i d (omega (arith, h))

is_block-append :
    (a b : ℕ) (blocks : List ℕ)
    → is_block a (blocks ++ (b ∷ [])) ≡ (if is_block a blocks then true else a == b)
is_block-append a b [] = ground arith
is_block-append a b (c ∷ blocks) = ground (arith, is_block-append a b blocks)

-- After the list is destroyed, exactly its blocks are no longer allocated.
state_list_destroy_lem :
    (list : StateList) (a : ℕ)
    → state_list_destroy list a ≡ (if is_block a list.blocks then false else list.live a)
unfolding state_list_destroy
state_list_destroy_lem list a = free_all_lem list.blocks list.live a

-- A push without a block or without room for its address, which changed nothing, and one that
-- appended the block: every earlier block is where it was, and the list is valid.
pub data Pushed (list : StateList) (block : Option ℕ) (grows : Bool) (r : StateList × Option ℕ)
    : Type 0 where
  no_block : block ≡ none → r.1 ≡ none → r.0 ≡ list → Pushed list block grows r
  no_room :
      list.capacity ≤ length list.blocks
      → grows ≡ false
      → r.1 ≡ none
      → r.0 ≡ list
      → Pushed list block grows r
  added :
      (b : ℕ)
      → block ≡ some b
      → (length list.blocks < list.capacity) ⊎ (grows ≡ true)
      → r.1 ≡ some b
      → IsList r.0
      → get_or r.0.blocks (length list.blocks) 0 ≡ b
      → ((i : ℕ) → i < length list.blocks → get_or r.0.blocks i 0 ≡ get_or list.blocks i 0)
      → Pushed list block grows r

free-allocate : (b : ℕ) (live : ℕ → Bool) → live b ≡ false → free b (allocate b live) ≡ live
free-allocate b live fresh = fun_ext λ a. elim (Bool-cases (a == b)) [
  | inl e ↦ rw e (sym fresh ∙ ap live (sym ((==_iff a b).0 e)))
  | inr e ↦ rw e refl
]

get_or-last : (xs : List ℕ) (b d : ℕ) → get_or (xs ++ (b ∷ [])) (length xs) d ≡ b
get_or-last [] b d = refl
get_or-last (x ∷ xs) b d = get_or-last xs b d

added_list :
    (list : StateList) (b capacity : ℕ) (grows : Bool)
    → IsList list
    → length list.blocks < capacity
    → (length list.blocks < list.capacity) ⊎ (grows ≡ true)
    → Pushed list (some b) grows (
      record { blocks = list.blocks ++ (b ∷ []); capacity = capacity; live = allocate b list.live },
      some b,
    )
added_list list b capacity grows ok room why =
    added b refl why refl
      (record {
        nonempty = omega (arith, length-append list.blocks (b ∷ []));
        fits = omega (arith, length-append list.blocks (b ∷ []), room);
        owned = λ a m. ground (arith, is_block-append a b list.blocks, m, ok.owned a);
      })
      (get_or-last list.blocks b 0) (λ i h. get_or-append list.blocks (b ∷ []) i 0 h)

-- A push fails exactly where calloc gives no block, or where the vector is full and cannot grow, and
-- leaves the list and the allocated blocks as they were. One that succeeds appends the block, which
-- was not allocated before, keeps every earlier block at its place, and keeps the list valid.
pub state_list_push-Pushed :
    (list : StateList) (block : Option ℕ) (grows : Bool)
    → IsList list
    → ((b : ℕ) → block ≡ some b → list.live b ≡ false)
    → Pushed list block grows (state_list_push block grows list)
unfolding state_list_push append_block
state_list_push-Pushed list none grows ok fresh = no_block refl refl refl
state_list_push-Pushed list (some b) grows ok fresh =
    elim (Bool-cases (length list.blocks == list.capacity)) [
      | inl e ↦ elim (Bool-cases grows) [
        | inl g ↦ rw e (
            rw g (
              added_list list b (next_capacity list.capacity) true ok
                (ground (arith, e, ok.nonempty)) (inr refl)))
        | inr g ↦ rw e (
            rw g (
              no_room (ground (arith, e)) refl refl
                (λ i. record list { live = free-allocate b list.live (fresh b refl) i })))
      ]
      | inr e ↦
          let room : length list.blocks < list.capacity = ground (arith, e, ok.fits) in
          rw e (added_list list b list.capacity grows ok room (inl room))
    ]

-- A reset keeps the root block alone: it stays allocated and at its place, the other blocks are
-- freed, and blocks of others are not touched.
state_list_reset_lem :
    (list : StateList)
    → IsList list
    → (length (state_list_reset list).blocks ≡ 1)
      × (get_or (state_list_reset list).blocks 0 0 ≡ get_or list.blocks 0 0)
      × ((a : ℕ)
          → (state_list_reset list).live a
            ≡ (if is_block a (drop_one list.blocks) then false else list.live a))
unfolding state_list_reset
state_list_reset_lem list ok = (
  one list.blocks ok.nonempty,
  root list.blocks ok.nonempty,
  λ a. free_all_lem (drop_one list.blocks) list.live a,
)
  where
    one : (blocks : List ℕ) → 0 < length blocks → length (take 1 blocks) ≡ 1
    one [] h = absurd (omega (arith, h))
    one (b ∷ blocks) h = refl

    root : (blocks : List ℕ) → 0 < length blocks → get_or (take 1 blocks) 0 0 ≡ get_or blocks 0 0
    root [] h = absurd (omega (arith, h))
    root (b ∷ blocks) h = refl
