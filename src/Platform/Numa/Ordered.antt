-- ===== src/Platform/Numa/Ordered.antt =====
-- src/platform/numa.c: what the reference insertion keeps.
use fcfish.Base.{
  ℕ, zero, suc, ◌<◌, ◌≡◌, refl, arith, Bool, true, false, ltb, ◌==◌, if◌then◌else◌, Bool-cases, inl,
  inr, List, [], ◌∷◌, length, get_or,
}
use fcfish.Platform.Numa.Insert.{IsAscending, insert_ordered}

abbrev pub contains : ℕ → List ℕ → Bool
contains cpu [] = false
contains cpu (x ∷ xs) = if x == cpu then true else contains cpu xs

pub contains-insert_ordered :
    (c d : ℕ) (xs : List ℕ)
    → contains c (insert_ordered d xs) ≡ (if d == c then true else contains c xs)
unfolding insert_ordered
contains-insert_ordered c d [] = refl
contains-insert_ordered c d (x ∷ xs) = ground (arith, contains-insert_ordered c d xs)

IsAbove : ℕ → List ℕ → Type 0
IsAbove a xs = (k : ℕ) → k < length xs → a < get_or xs k 0

IsAscending-cons : (x : ℕ) (xs : List ℕ) → IsAbove x xs → IsAscending xs → IsAscending (x ∷ xs)
unfolding IsAbove
IsAscending-cons x xs above asc i zero p q = absurd (omega (arith, p))
IsAscending-cons x xs above asc zero (suc j) p q = above j (omega (arith, q))
IsAscending-cons x xs above asc (suc i) (suc j) p q = asc i j (omega (arith, p)) (omega (arith, q))

IsAbove-cons : (a x : ℕ) (xs : List ℕ) → a < x → IsAbove a xs → IsAbove a (x ∷ xs)
unfolding IsAbove
IsAbove-cons a x xs lt above zero q = lt
IsAbove-cons a x xs lt above (suc k) q = above k (omega (arith, q))

IsAbove-insert_ordered :
    (a d : ℕ) (xs : List ℕ) → a < d → IsAbove a xs → IsAbove a (insert_ordered d xs)
unfolding insert_ordered IsAbove
IsAbove-insert_ordered a d [] lt above = IsAbove-cons a d [] lt above
IsAbove-insert_ordered a d (x ∷ xs) lt above = elim (Bool-cases (ltb x d)) [
  | inl e ↦ rw e (
      IsAbove-cons a x (insert_ordered d xs) (above 0 (omega arith))
        (IsAbove-insert_ordered a d xs lt (λ k q. above (suc k) (omega (arith, q)))))
  | inr e ↦ elim (Bool-cases (x == d)) [
    | inl s ↦ rw (e, s) above
    | inr s ↦ rw (e, s) (IsAbove-cons a d (x ∷ xs) lt above)
  ]
]

pub IsAscending-insert_ordered :
    (d : ℕ) (xs : List ℕ) → IsAscending xs → IsAscending (insert_ordered d xs)
unfolding insert_ordered IsAbove
IsAscending-insert_ordered d [] asc = λ i j p q. absurd (omega (arith, p, q))
IsAscending-insert_ordered d (x ∷ xs) asc =
    let above : IsAbove x xs = λ k q. asc 0 (suc k) (omega arith) (omega (arith, q)) in
    let tail : IsAscending xs =
      λ i j p q. asc (suc i) (suc j) (omega (arith, p)) (omega (arith, q)) in
    elim (Bool-cases (ltb x d)) [
      | inl e ↦ rw e (
          IsAscending-cons x (insert_ordered d xs)
            (IsAbove-insert_ordered x d xs (ground (arith, e)) above)
            (IsAscending-insert_ordered d xs tail))
      | inr e ↦ elim (Bool-cases (x == d)) [
        | inl s ↦ rw (e, s) asc
        | inr s ↦
            let lt : d < x = ground (arith, e, s) in
            rw (e, s)
              (IsAscending-cons d (x ∷ xs)
                (IsAbove-cons d x xs lt (λ k q. omega (arith, lt, above k q))) asc)
      ]
    ]

pub length-insert_ordered :
    (d : ℕ) (xs : List ℕ) → contains d xs ≡ false → length (insert_ordered d xs) ≡ suc (length xs)
unfolding insert_ordered
length-insert_ordered d [] h = refl
length-insert_ordered d (x ∷ xs) h = ground (arith, h, length-insert_ordered d xs)
