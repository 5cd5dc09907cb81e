-- ===== src/Search/Sort.antt =====
-- src/engine/search/movepick.c, root_move_build.c: the insertion sorts, on an array as a list and
-- a key of each entry. The vector arm of movepick.c, for AVX-512 alone, has no model.
pub mod Ladder
pub mod Stable
pub mod Partial
use fcfish.Base.{ℕ, zero, suc, if◌then◌else◌, List, [], ◌∷◌, length, get_or, set}
use fcfish.Base.Int.{ℤ, ltb_ℤ}

module _ {ℓ} {A : Type ℓ} (key : A → ℤ) where
  -- The inner loop, from `insert_at` down, and the write after it.
  unfoldable pub ladder : List A → ℕ → A → List A
  ladder entries zero current = set entries zero current
  ladder entries (suc insert_at) current =
      let before = get_or entries insert_at current in
      let rest = ladder (set entries (suc insert_at) before) insert_at current in
      if ltb_ℤ (key before) (key current) then rest else set entries (suc insert_at) current

  -- The outer loop, for the `n` entries from `scan` on; `d` is never read in bounds.
  unfoldable pub sort_from : A → List A → ℕ → ℕ → List A
  sort_from d entries scan zero = entries
  sort_from d entries scan (suc n) =
      sort_from d (ladder entries scan (get_or entries scan d)) (suc scan) n

  unfoldable pub sort_all : List A → List A
  sort_all [] = []
  sort_all (e ∷ es) = sort_from e (e ∷ es) 1 (length es)

  -- The outer loop that sorts the entries of at least `limit` to the front.
  unfoldable pub partial_from : ℤ → A → List A → ℕ → ℕ → ℕ → List A
  partial_from limit d entries sorted_end scan zero = entries
  partial_from limit d entries sorted_end scan (suc n) =
      let current = get_or entries scan d in
      let moved = set entries scan (get_or entries (suc sorted_end) d) in
      let below = ltb_ℤ (key current) limit in
      partial_from limit d (if below then entries else ladder moved (suc sorted_end) current)
        (if below then sorted_end else suc sorted_end) (suc scan) n

  unfoldable pub partial_insertion_sort : List A → ℤ → List A
  partial_insertion_sort [] limit = []
  partial_insertion_sort (e ∷ es) limit = partial_from limit e (e ∷ es) 0 1 (length es)
