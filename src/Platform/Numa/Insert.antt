-- ===== src/Platform/Numa/Insert.antt =====
-- src/platform/numa.c: the binary search and the insertion of a processor in its node.
use fcfish.Base.{
  ℕ, zero, suc, ◌+◌, ◌-◌, ◌*◌, ◌/◌, ◌^◌, ◌≤◌, ◌<◌, ◌≡◌, refl, ap, ◌∙◌, arith, Bool, true, false,
  ltb, leb, ◌==◌, if◌then◌else◌, Bool-cases, ==_iff, inl, inr, ◌⊎◌, List, [], ◌∷◌, length, get_or,
}
use mathlib.Core.Path.{subst}
use fcfish.Base.Words.{u64}
use native.Mathlib.Nat.{mul_assoc}
use fcfish.Platform.Numa.{
  NumaNode, doubled, insert_at, lower_bound, insertion_point, node_reserve, node_insert_sorted,
}

-- Ascending, without a number twice.
abbrev pub IsAscending : List ℕ → Type 0
IsAscending xs = (i j : ℕ) → i < j → j < length xs → get_or xs i 0 < get_or xs j 0

-- The reference: a processor is inserted in its place, unless it is there.
unfoldable pub insert_ordered : ℕ → List ℕ → List ℕ
insert_ordered cpu [] = cpu ∷ []
insert_ordered cpu (x ∷ xs) =
    let rest = insert_ordered cpu xs in
    if ltb x cpu then x ∷ rest else (if x == cpu then x ∷ xs else cpu ∷ x ∷ xs)

pub doubled-reaches :
    (fuel capacity want : ℕ)
    → want ≤ capacity * 2 ^ fuel
    → want ≤ 2 ^ 63
    → want ≤ doubled fuel capacity want
unfolding doubled
doubled-reaches zero capacity want h small = omega (arith, h)
doubled-reaches (suc fuel) capacity want h small = elim (Bool-cases (ltb capacity want)) [
  | inl e ↦
      let exact : u64 (capacity * 2) ≡ capacity * 2 = omega (arith, below e, small) in
      rw e (rw exact (doubled-reaches fuel (capacity * 2) want roomier small))
  | inr e ↦ rw e (ground (arith, e))
]
  where
    two : 2 ^ suc fuel ≡ 2 * 2 ^ fuel
    two = omega arith

    roomier : want ≤ capacity * 2 * 2 ^ fuel
    roomier = omega (arith, h, ap (λ n. capacity * n) two, mul_assoc capacity 2 (2 ^ fuel))

    below : ltb capacity want ≡ true → capacity < want
    below e = ground (arith, e)

ascending_le :
    (xs : List ℕ) (k m : ℕ) → IsAscending xs → k ≤ m → m < length xs → get_or xs k 0 ≤ get_or xs m 0
ascending_le xs k m asc le top = elim (Bool-cases (ltb k m)) [
  | inl e ↦ omega (arith, asc k m (ground (arith, e)) top)
  | inr e ↦
      let same : k ≡ m = ground (arith, e, le) in
      subst (λ j. get_or xs k 0 ≤ get_or xs j 0) same (omega arith)
]

-- `i` separates what is below `cpu` from what is not.
abbrev IsCut : List ℕ → ℕ → ℕ → Type 0
IsCut xs cpu i =
    ((k : ℕ) → k < i → k < length xs → get_or xs k 0 < cpu)
    × ((k : ℕ) → i ≤ k → k < length xs → cpu ≤ get_or xs k 0)

lower_bound-IsCut :
    (fuel : ℕ) (xs : List ℕ) (cpu lo hi : ℕ)
    → IsAscending xs
    → hi ≤ lo + fuel
    → lo ≤ hi
    → hi ≤ length xs
    → ((k : ℕ) → k < lo → k < length xs → get_or xs k 0 < cpu)
    → ((k : ℕ) → hi ≤ k → k < length xs → cpu ≤ get_or xs k 0)
    → IsCut xs cpu (lower_bound fuel xs cpu lo hi)
unfolding lower_bound
lower_bound-IsCut zero xs cpu lo hi asc few order top below above =
    (below, λ k p q. above k (omega (arith, few, p)) q)
lower_bound-IsCut (suc fuel) xs cpu lo hi asc few order top below above =
    elim (Bool-cases (ltb lo hi)) [
      | inr e ↦ rw e ((below, λ k p q. above k (ground (arith, e, p)) q))
      | inl e ↦
          let more : lo < hi = ground (arith, e) in
          let mid = lo + (hi - lo) / 2 in
          elim (Bool-cases (ltb (get_or xs mid 0) cpu)) [
            | inl r ↦
                let small : get_or xs mid 0 < cpu = ground (arith, r) in
                rw (e, r)
                  (lower_bound-IsCut fuel xs cpu (mid + 1) hi asc (omega (arith, few, more))
                    (omega (arith, more)) top
                    (λ k p q. omega (
                      arith,
                      ascending_le xs k mid asc (omega (arith, p)) (omega (arith, more, top)),
                      small,
                    ))
                    above)
            | inr r ↦
                let large : cpu ≤ get_or xs mid 0 = ground (arith, r) in
                rw (e, r)
                  (lower_bound-IsCut fuel xs cpu lo mid asc (omega (arith, few, more)) (omega arith)
                    (omega (arith, more, top)) below
                    (λ k p q. omega (arith, ascending_le xs mid k asc p q, large)))
          ]
    ]

insert_at-IsCut :
    (xs : List ℕ) (cpu i : ℕ)
    → i ≤ length xs
    → IsCut xs cpu i
    → (if (if ltb i (length xs) then get_or xs i 0 == cpu else false)
        then xs
        else insert_at xs i cpu)
      ≡ insert_ordered cpu xs
unfolding insert_at insert_ordered
insert_at-IsCut [] cpu zero top cut = refl
insert_at-IsCut [] cpu (suc i) top cut = absurd (omega (arith, top))
insert_at-IsCut (x ∷ xs) cpu zero top cut =
    let large : cpu ≤ x = cut.1 0 (omega arith) (omega arith) in ground (arith, large)
insert_at-IsCut (x ∷ xs) cpu (suc i) top cut =
    let small : x < cpu = cut.0 0 (omega arith) (omega arith) in
    let is_small : ltb x cpu ≡ true = ground (arith, small) in
    let ih = insert_at-IsCut xs cpu i (omega (arith, top)) (
      λ k p q. cut.0 (suc k) (omega (arith, p)) (omega (arith, q)),
      λ k p q. cut.1 (suc k) (omega (arith, p)) (omega (arith, q)),
    ) in
    let found = if ltb i (length xs) then get_or xs i 0 == cpu else false in
    let same : ltb (suc i) (suc (length xs)) ≡ ltb i (length xs) = ground arith in
    rw (is_small, same) (pull (Bool-cases found) ∙ ap (λ t. x ∷ t) ih)
  where
    pull :
        {b : Bool}
        → (b ≡ true) ⊎ (b ≡ false)
        → (if b then x ∷ xs else x ∷ insert_at xs i cpu)
          ≡ x ∷ (if b then xs else insert_at xs i cpu)
    pull (inl e) = rw e refl
    pull (inr e) = rw e refl

lower_bound-le :
    (fuel : ℕ) (xs : List ℕ) (cpu lo hi : ℕ) → lo ≤ hi → lower_bound fuel xs cpu lo hi ≤ hi
unfolding lower_bound
lower_bound-le zero xs cpu lo hi order = order
lower_bound-le (suc fuel) xs cpu lo hi order = elim (Bool-cases (ltb lo hi)) [
  | inr e ↦ rw e order
  | inl e ↦
      let more : lo < hi = ground (arith, e) in
      let mid = lo + (hi - lo) / 2 in
      elim (Bool-cases (ltb (get_or xs mid 0) cpu)) [
        | inl r ↦ rw (e, r) (lower_bound-le fuel xs cpu (mid + 1) hi (omega (arith, more)))
        | inr r ↦ rw (e, r) (omega (arith, more, lower_bound-le fuel xs cpu lo mid (omega arith)))
      ]
]

insertion_point-IsCut :
    (xs : List ℕ) (cpu : ℕ)
    → IsAscending xs
    → (insertion_point xs cpu ≤ length xs) × IsCut xs cpu (insertion_point xs cpu)
unfolding insertion_point
insertion_point-IsCut xs cpu asc = elim (Bool-cases (length xs == 0)) [
  | inl e ↦
      let empty : length xs ≡ 0 = (==_iff (length xs) 0).0 e in
      rw e (
        (
          omega arith,
          (λ k p q. absurd (omega (arith, empty, q)), λ k p q. absurd (omega (arith, empty, q))),
        ))
  | inr e ↦ elim (Bool-cases (ltb (get_or xs (length xs - 1) 0) cpu)) [
    | inl last ↦
        let small : get_or xs (length xs - 1) 0 < cpu = ground (arith, last) in
        rw (e, last)
          ((
            omega arith,
            (
              λ k p q. omega (
                arith,
                small,
                ascending_le xs k (length xs - 1) asc (omega (arith, q)) (omega (arith, q)),
              ),
              λ k p q. absurd (omega (arith, p, q)),
            ),
          ))
    | inr last ↦
        rw (e, last)
          ((
            lower_bound-le (length xs) xs cpu 0 (length xs) (omega arith),
            lower_bound-IsCut (length xs) xs cpu 0 (length xs) asc (omega arith) (omega arith)
                (omega arith) (λ k p q. absurd (omega (arith, p)))
                (λ k p q. absurd (omega (arith, p, q))),
          ))
  ]
]

node_reserve-keeps :
    (grants : ℕ → Bool) (node : NumaNode) (want : ℕ)
    → (node_reserve grants node want).0.cpus ≡ node.cpus
unfolding node_reserve
node_reserve-keeps grants node want =
    let start = if node.capacity == 0 then 8 else node.capacity in
    elim (Bool-cases (leb want node.capacity)) [
      | inl e ↦ rw e refl
      | inr e ↦ elim (Bool-cases (grants (u64 (doubled 64 start want * 8)))) [
        | inl g ↦ rw (e, g) refl
        | inr g ↦ rw (e, g) refl
      ]
    ]

pub node_insert_sorted_lem :
    (grants : ℕ → Bool) (node : NumaNode) (cpu : ℕ)
    → IsAscending node.cpus
    → (node_insert_sorted grants node cpu).0.cpus
      ≡ (if (node_insert_sorted grants node cpu).1 then insert_ordered cpu node.cpus else node.cpus)
unfolding node_insert_sorted
node_insert_sorted_lem grants node cpu asc =
    let i = insertion_point node.cpus cpu in
    let found = if ltb i (length node.cpus) then get_or node.cpus i 0 == cpu else false in
    let point = insertion_point-IsCut node.cpus cpu asc in
    let placed = insert_at-IsCut node.cpus cpu i point.0 point.1 in
    let r = node_reserve grants node (length node.cpus + 1) in
    elim (Bool-cases found) [
      | inl f ↦ rw f (rw f at placed)
      | inr f ↦ elim (Bool-cases r.1) [
        | inl g ↦
            rw (f, g)
              (ap (λ t. insert_at t i cpu) (node_reserve-keeps grants node (length node.cpus + 1))
                ∙ rw f at placed)
        | inr g ↦ rw (f, g) (node_reserve-keeps grants node (length node.cpus + 1))
      ]
    ]
