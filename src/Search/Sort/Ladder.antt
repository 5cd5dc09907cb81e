-- ===== src/Search/Sort/Ladder.antt =====
-- src/engine/search/movepick.c: the inner loop on an array that is split at the insertion point,
-- and the reference insertion that it carries out.
use fcfish.Base.{
  ℕ, suc, ◌+◌, ◌≡◌, refl, ap, arith, if◌then◌else◌, Bool-cases, inl, inr, List, [], ◌∷◌, ◌++◌,
  length, get_or, set,
}
use fcfish.Base.Int.{ℤ, ltb_ℤ}
use mathlib.Core.List.{Perm}
use mathlib.Core.List.Perm
use mathlib.Core.List.{perm_middle}
use fcfish.Search.Sort.{ladder}

module _ {ℓ} {A : Type ℓ} where
  -- The reversal of `xs`, before `ys`: an array that is read at `length xs`.
  abbrev pub rev_onto : List A → List A → List A
  rev_onto [] ys = ys
  rev_onto (x ∷ xs) ys = rev_onto xs (x ∷ ys)

  pub get_or-rev_onto :
      (d : A) (xs zs : List A) (k i : ℕ)
      → i ≡ length xs + k
      → get_or (rev_onto xs zs) i d ≡ get_or zs k d
  get_or-rev_onto d [] zs k i e =
      let same : i ≡ k = omega (arith, e) in ap (λ j. get_or zs j d) same
  get_or-rev_onto d (x ∷ xs) zs k i e = get_or-rev_onto d xs (x ∷ zs) (suc k) i (omega (arith, e))

  pub set-rev_onto :
      (v : A) (xs zs : List A) (k i : ℕ)
      → i ≡ length xs + k
      → set (rev_onto xs zs) i v ≡ rev_onto xs (set zs k v)
  set-rev_onto v [] zs k i e = let same : i ≡ k = omega (arith, e) in ap (λ j. set zs j v) same
  set-rev_onto v (x ∷ xs) zs k i e = set-rev_onto v xs (x ∷ zs) (suc k) i (omega (arith, e))

  pub rev_onto_append : (xs ys zs : List A) → rev_onto xs ys ++ zs ≡ rev_onto xs (ys ++ zs)
  rev_onto_append [] ys zs = refl
  rev_onto_append (x ∷ xs) ys zs = rev_onto_append xs (x ∷ ys) zs

  pub rev_onto_twice : (xs ys zs : List A) → rev_onto (rev_onto xs ys) zs ≡ rev_onto ys (xs ++ zs)
  rev_onto_twice [] ys zs = refl
  rev_onto_twice (x ∷ xs) ys zs = rev_onto_twice xs (x ∷ ys) zs

  pub rev_onto-perm : (xs ys : List A) → Perm (rev_onto xs ys) (xs ++ ys)
  rev_onto-perm [] ys = Perm.refl ys
  rev_onto-perm (x ∷ xs) ys = Perm.trans (rev_onto-perm xs (x ∷ ys)) (perm_middle xs ys)

module _ {ℓ} {A : Type ℓ} (key : A → ℤ) where
  -- The insertion into the reversed sorted part: before the first entry that is not smaller.
  unfoldable pub insert_back : List A → A → List A
  insert_back [] c = c ∷ []
  insert_back (y ∷ ys) c = if ltb_ℤ (key y) (key c) then y ∷ insert_back ys c else c ∷ y ∷ ys

  pub ladder-rev_onto :
      (ys : List A) (z : A) (zs : List A) (c : A)
      → ladder key (rev_onto ys (z ∷ zs)) (length ys) c ≡ rev_onto (insert_back ys c) zs
  unfolding ladder insert_back
  ladder-rev_onto [] z zs c = refl
  ladder-rev_onto (y ∷ ys) z zs c =
      let read : get_or (rev_onto ys (y ∷ z ∷ zs)) (length ys) c ≡ y =
        get_or-rev_onto c ys (y ∷ z ∷ zs) 0 (length ys) (omega arith) in
      let write : (v : A)
          → set (rev_onto ys (y ∷ z ∷ zs)) (suc (length ys)) v ≡ rev_onto ys (y ∷ v ∷ zs) =
        λ v. set-rev_onto v ys (y ∷ z ∷ zs) 1 (suc (length ys)) (omega arith) in
      elim (Bool-cases (ltb_ℤ (key y) (key c))) [
        | inl h ↦ rw (read, write y, h) (ladder-rev_onto ys y (y ∷ zs) c)
        | inr h ↦ rw (read, write c, h) refl
      ]

  pub insert_back-perm : (ys : List A) (c : A) → Perm (insert_back ys c) (c ∷ ys)
  unfolding insert_back
  insert_back-perm [] c = Perm.refl (c ∷ [])
  insert_back-perm (y ∷ ys) c = elim (Bool-cases (ltb_ℤ (key y) (key c))) [
    | inl h ↦ rw h (Perm.trans (Perm.cons y (insert_back-perm ys c)) (Perm.swap c y ys))
    | inr h ↦ rw h (Perm.refl (c ∷ y ∷ ys))
  ]

  pub length-insert_back : (ys : List A) (c : A) → length (insert_back ys c) ≡ suc (length ys)
  unfolding insert_back
  length-insert_back [] c = refl
  length-insert_back (y ∷ ys) c = elim (Bool-cases (ltb_ℤ (key y) (key c))) [
    | inl h ↦ rw h (ap suc (length-insert_back ys c))
    | inr h ↦ rw h refl
  ]
