-- ===== src/Search/MovePick/Segments.antt =====
-- src/engine/search/movepick.c: the buffer of the picker, by what stands in it from an index on.
use fcfish.Base.{
  ℕ, suc, ◌+◌, ◌≤◌, ◌<◌, ◌≡◌, refl, ap, sym, ◌∙◌, arith, List, [], ◌∷◌, ◌++◌, length, get_or, set,
  length-set, get_or-set_self, get_or-set_ne,
}
use mathlib.Core.Path.{subst}
use fcfish.Search.RootPv.{write_at}

module _ {ℓ} {A : Type ℓ} (d : A) where
  -- The entries `xs` stand in the buffer from `i` on.
  abbrev pub Holds : List A → ℕ → List A → Type ℓ
  Holds buf i [] = Unit
  Holds buf i (x ∷ xs) = (get_or buf i d ≡ x) × Holds buf (suc i) xs

  pub Holds-set_below :
      (buf : List A) (j i : ℕ) (v : A) (xs : List A)
      → j < i
      → Holds buf i xs
      → Holds (set buf j v) i xs
  Holds-set_below buf j i v [] h holds = tt
  Holds-set_below buf j i v (x ∷ xs) h holds = (
    get_or-set_ne buf j i v d (λ e. omega (arith, e, h)) ∙ holds.0,
    Holds-set_below buf j (suc i) v xs (omega (arith, h)) holds.1,
  )

  pub Holds-set_above :
      (buf : List A) (j i : ℕ) (v : A) (xs : List A)
      → i + length xs ≤ j
      → Holds buf i xs
      → Holds (set buf j v) i xs
  Holds-set_above buf j i v [] h holds = tt
  Holds-set_above buf j i v (x ∷ xs) h holds = (
    get_or-set_ne buf j i v d (λ e. omega (arith, e, h)) ∙ holds.0,
    Holds-set_above buf j (suc i) v xs (omega (arith, h)) holds.1,
  )

  pub Holds-snoc :
      (buf : List A) (i : ℕ) (v : A) (xs : List A) (j : ℕ)
      → j ≡ i + length xs
      → j < length buf
      → Holds buf i xs
      → Holds (set buf j v) i (xs ++ (v ∷ []))
  Holds-snoc buf i v [] j e h holds =
      let same : j ≡ i = omega (arith, e) in
      (ap (λ k. get_or (set buf j v) k d) (sym same) ∙ get_or-set_self buf j v d h, tt)
  Holds-snoc buf i v (x ∷ xs) j e h holds = (
    get_or-set_ne buf j i v d (λ q. omega (arith, e, q)) ∙ holds.0,
    Holds-snoc buf (suc i) v xs j (omega (arith, e)) h holds.1,
  )

  pub length-write_at :
      (buf : List A) (i : ℕ) (xs : List A) → length (write_at buf i xs) ≡ length buf
  unfolding write_at
  length-write_at buf i [] = refl
  length-write_at buf i (x ∷ xs) = length-write_at (set buf i x) (i + 1) xs ∙ length-set buf i x

  pub Holds-write_at_above :
      (buf : List A) (i j : ℕ) (ys xs : List A)
      → i + length ys ≤ j
      → Holds buf i ys
      → Holds (write_at buf j xs) i ys
  unfolding write_at
  Holds-write_at_above buf i j ys [] h holds = holds
  Holds-write_at_above buf i j ys (x ∷ xs) h holds =
      Holds-write_at_above (set buf j x) i (j + 1) ys xs (omega (arith, h))
        (Holds-set_above buf j i x ys h holds)

  get_or-write_at_above :
      (buf : List A) (i j : ℕ) (xs : List A)
      → i < j
      → get_or (write_at buf j xs) i d ≡ get_or buf i d
  unfolding write_at
  get_or-write_at_above buf i j [] h = refl
  get_or-write_at_above buf i j (x ∷ xs) h =
      get_or-write_at_above (set buf j x) i (j + 1) xs (omega (arith, h))
      ∙ get_or-set_ne buf j i x d (λ e. omega (arith, e, h))

  pub Holds-write_at :
      (buf : List A) (i : ℕ) (xs : List A)
      → i + length xs ≤ length buf
      → Holds (write_at buf i xs) i xs
  unfolding write_at
  Holds-write_at buf i [] h = tt
  Holds-write_at buf i (x ∷ xs) h = (
    get_or-write_at_above (set buf i x) i (i + 1) xs (omega arith)
        ∙ get_or-set_self buf i x d (omega (arith, h)),
    subst (λ k. Holds (write_at (set buf i x) (i + 1) xs) k xs) one_more
        (Holds-write_at (set buf i x) (i + 1) xs (omega (arith, h, length-set buf i x))),
  )
    where
      one_more : i + 1 ≡ suc i
      one_more = omega arith
