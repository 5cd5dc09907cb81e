-- ===== src/Examples/RootPv.antt =====
-- src/engine/search/root_pv.c: the operations on a full line of two moves.
use fcfish.Base.{
  ℕ, ◌+◌, ◌-◌, ◌≡◌, refl, ap, sym, ◌∙◌, arith, true, if◌then◌else◌, List, [], ◌∷◌, ◌++◌, length,
  take, replicate, length-replicate, length-append, some,
}
use mathlib.Core.Option.{some-injective}
use fcfish.Search.RootPv.{RootPvMoves, Realloc, reserve, root_pv_copy}
use fcfish.Search.RootPv.Reserve.{Reallocates, IsPv, reserve-granted}
use fcfish.Search.RootPv.Lines.{line, root_pv_copy_lem}

-- An allocator that never fails, and fills up with zeros.
abbrev growing : Realloc
growing buf n = some (buf ++ replicate (n - length buf) 0)

take-whole : (xs ys : List ℕ) → take (length xs) (xs ++ ys) ≡ xs
take-whole [] ys = refl
take-whole (x ∷ xs) ys = ap (λ t. x ∷ t) (take-whole xs ys)

growing-Reallocates : Reallocates growing
growing-Reallocates buf n block h e =
    let same = some-injective (buf ++ replicate (n - length buf) 0) block e in
    (
      ap length (sym same)
          ∙ length-append buf (replicate (n - length buf) 0)
          ∙ ap (λ k. length buf + k) (length-replicate (n - length buf) 0)
          ∙ total,
      ap (take (length buf)) (sym same) ∙ take-whole buf (replicate (n - length buf) 0),
    )
  where
    total : length buf + (n - length buf) ≡ n
    total = omega (arith, h)

-- Two moves that fill their block.
abbrev full_line : RootPvMoves
full_line = record { moves = 796 ∷ 3364 ∷ []; length = 2; capacity = 2 }

full_line-IsPv : IsPv full_line
full_line-IsPv = record { sized = refl; fits = omega arith }

abbrev short_line : RootPvMoves
short_line = record { moves = 405 ∷ []; length = 1; capacity = 1 }

short_line-IsPv : IsPv short_line
short_line-IsPv = record { sized = refl; fits = omega arith }

root_pv_copy_lem_example :
    IsPv (root_pv_copy growing short_line full_line)
    × (line (root_pv_copy growing short_line full_line)
        ≡ (if (reserve growing short_line 2).1 then line full_line else take 1 (line full_line)))
root_pv_copy_lem_example =
    root_pv_copy_lem growing short_line full_line growing-Reallocates short_line-IsPv full_line-IsPv

reserve-granted_example : (reserve growing full_line 1000000).1 ≡ true
reserve-granted_example =
    reserve-granted growing full_line 1000000 (λ buf n. (buf ++ replicate (n - length buf) 0, refl))
      (omega arith)
