-- ===== src/Search/Sort/Stable.antt =====
-- src/engine/search/movepick.c: the full sort puts the entries in descending order, and keeps the
-- order of those with equal keys.
use fcfish.Base.{
  append-nil, suc, ◌≡◌, refl, ap, sym, ◌∙◌, arith, Bool, true, false, if◌then◌else◌, Bool-cases,
  inl, inr, List, [], ◌∷◌, ◌++◌, length, get_or, ◌⊎◌,
}
use fcfish.Base.Int.{ℤ, ltb_ℤ, leb_ℤ, ◌≤ℤ◌}
use mathlib.Core.List.{Perm}
use mathlib.Core.List.Perm
use mathlib.Core.List.{perm_middle}
use mathlib.Core.Path.{subst}
use fcfish.Search.Sort.{ladder, sort_from, sort_all}
use fcfish.Search.Sort.Ladder.{
  rev_onto, get_or-rev_onto, insert_back, ladder-rev_onto, insert_back-perm, length-insert_back,
  rev_onto-perm, rev_onto_twice,
}

module _ {ℓ} {A : Type ℓ} where
  abbrev pub All {κ} : (A → Type κ) → List A → Type κ
  All P [] = Unit
  All P (x ∷ xs) = P x × All P xs

  pub All-map {κ μ} :
      {P : A → Type κ} {Q : A → Type μ} (f : (x : A) → P x → Q x) (xs : List A)
      → All P xs
      → All Q xs
  All-map f [] h = tt
  All-map f (x ∷ xs) h = (f x h.0, All-map f xs h.1)

module _ {ℓ} {A : Type ℓ} (key : A → ℤ) where
  abbrev pub IsDescending : List A → Type 0
  IsDescending [] = Unit
  IsDescending (x ∷ xs) = All (λ y. key y ≤ℤ key x) xs × IsDescending xs

  abbrev has_key : ℤ → A → Bool
  has_key v x = if leb_ℤ (key x) v then leb_ℤ v (key x) else false

  -- The entries with the key `v`, in their order.
  abbrev pub with_key : ℤ → List A → List A
  with_key v [] = []
  with_key v (x ∷ xs) = let rest = with_key v xs in if has_key v x then x ∷ rest else rest

  abbrev IsAscending : List A → Type 0
  IsAscending [] = Unit
  IsAscending (x ∷ xs) = All (λ y. key x ≤ℤ key y) xs × IsAscending xs

  -- The reference: each entry is inserted in turn.
  unfoldable pub insert_each : List A → List A → List A
  insert_each ys [] = ys
  insert_each ys (c ∷ cs) = insert_each (insert_back key ys c) cs

  pub sort_from-insert_each :
      (d : A) (ys rest : List A)
      → sort_from key d (rev_onto ys rest) (length ys) (length rest)
        ≡ rev_onto (insert_each ys rest) []
  unfolding sort_from insert_each
  sort_from-insert_each d ys [] = refl
  sort_from-insert_each d ys (c ∷ cs) =
      let read : get_or (rev_onto ys (c ∷ cs)) (length ys) d ≡ c =
        get_or-rev_onto d ys (c ∷ cs) 0 (length ys) (omega arith) in
      ap
        (λ x.
          sort_from key d (ladder key (rev_onto ys (c ∷ cs)) (length ys) x) (suc (length ys))
            (length cs))
        read
      ∙ ap (λ es. sort_from key d es (suc (length ys)) (length cs)) (ladder-rev_onto key ys c cs c)
      ∙ ap (λ i. sort_from key d (rev_onto (insert_back key ys c) cs) i (length cs))
          (sym (length-insert_back key ys c))
      ∙ sort_from-insert_each d (insert_back key ys c) cs

  pub sort_all-insert_each :
      (e : A) (es : List A) → sort_all key (e ∷ es) ≡ rev_onto (insert_each (e ∷ []) es) []
  unfolding sort_all
  sort_all-insert_each e es = sort_from-insert_each e (e ∷ []) es

  insert_each-perm : (ys cs : List A) → Perm (insert_each ys cs) (rev_onto cs ys)
  unfolding insert_each
  insert_each-perm ys [] = Perm.refl ys
  insert_each-perm ys (c ∷ cs) = Perm.trans (insert_each-perm (insert_back key ys c) cs) (
      Perm.trans (rev_onto-perm cs (insert_back key ys c)) (
        Perm.trans (Perm.append_left cs (insert_back-perm key ys c))
          (Perm.symm (rev_onto-perm cs (c ∷ ys)))))

  insert_back-All {κ} :
      (P : A → Type κ) (ys : List A) (c : A) → P c → All P ys → All P (insert_back key ys c)
  unfolding insert_back
  insert_back-All P [] c hc h = (hc, h)
  insert_back-All P (y ∷ ys) c hc h = elim (Bool-cases (ltb_ℤ (key y) (key c))) [
    | inl e ↦ rw e (h.0, insert_back-All P ys c hc h.1)
    | inr e ↦ rw e (hc, h)
  ]

  insert_back-IsAscending :
      (ys : List A) (c : A) → IsAscending ys → IsAscending (insert_back key ys c)
  unfolding insert_back
  insert_back-IsAscending [] c h = (tt, tt)
  insert_back-IsAscending (y ∷ ys) c h = elim (Bool-cases (ltb_ℤ (key y) (key c))) [
    | inl e ↦ rw e (
      insert_back-All (λ x. key y ≤ℤ key x) ys c (ground (arith, e)) h.0,
      insert_back-IsAscending ys c h.1,
    )
    | inr e ↦
        let le : key c ≤ℤ key y = ground (arith, e) in
        rw e ((le, All-map (λ x p. omega (arith, le, p)) ys h.0), h)
  ]

  insert_each-IsAscending : (ys cs : List A) → IsAscending ys → IsAscending (insert_each ys cs)
  unfolding insert_each
  insert_each-IsAscending ys [] h = h
  insert_each-IsAscending ys (c ∷ cs) h =
      insert_each-IsAscending (insert_back key ys c) cs (insert_back-IsAscending ys c h)

  rev_onto-IsDescending :
      (ys zs : List A)
      → IsAscending ys
      → IsDescending zs
      → All (λ y. All (λ z. key z ≤ℤ key y) zs) ys
      → IsDescending (rev_onto ys zs)
  rev_onto-IsDescending [] zs a d h = d
  rev_onto-IsDescending (y ∷ ys) zs a d h =
      rev_onto-IsDescending ys (y ∷ zs) a.1 (h.0, d) (both ys a.0 h.1)
    where
      both :
          (xs : List A)
          → All (λ x. key y ≤ℤ key x) xs
          → All (λ x. All (λ z. key z ≤ℤ key x) zs) xs
          → All (λ x. All (λ z. key z ≤ℤ key x) (y ∷ zs)) xs
      both [] p q = tt
      both (x ∷ xs) p q = ((p.0, q.0), both xs p.1 q.1)

  with_key-rev_onto :
      (v : ℤ) (xs zs : List A)
      → with_key v (rev_onto xs zs) ≡ rev_onto (with_key v xs) (with_key v zs)
  with_key-rev_onto v [] zs = refl
  with_key-rev_onto v (x ∷ xs) zs = elim (Bool-cases (has_key v x)) [
    | inl h ↦
        with_key-rev_onto v xs (x ∷ zs)
        ∙ ap (λ b. rev_onto (with_key v xs) (if b then x ∷ with_key v zs else with_key v zs)) h
        ∙ sym
            (ap (λ b. rev_onto (if b then x ∷ with_key v xs else with_key v xs) (with_key v zs)) h)
    | inr h ↦
        with_key-rev_onto v xs (x ∷ zs)
        ∙ ap (λ b. rev_onto (with_key v xs) (if b then x ∷ with_key v zs else with_key v zs)) h
        ∙ sym
            (ap (λ b. rev_onto (if b then x ∷ with_key v xs else with_key v xs) (with_key v zs)) h)
  ]

  with_key-insert_back :
      (v : ℤ) (ys : List A) (c : A) → with_key v (insert_back key ys c) ≡ with_key v (c ∷ ys)
  unfolding insert_back
  with_key-insert_back v [] c = refl
  with_key-insert_back v (y ∷ ys) c = elim (Bool-cases (ltb_ℤ (key y) (key c))) [
    | inl e ↦ rw e (
        ap (λ t. if has_key v y then y ∷ t else t) (with_key-insert_back v ys c)
        ∙ apart e (Bool-cases (has_key v y)) (Bool-cases (has_key v c)))
    | inr e ↦ rw e refl
  ]
    where
      apart :
          ltb_ℤ (key y) (key c) ≡ true
          → (has_key v y ≡ true) ⊎ (has_key v y ≡ false)
          → (has_key v c ≡ true) ⊎ (has_key v c ≡ false)
          → (if has_key v y then y ∷ with_key v (c ∷ ys) else with_key v (c ∷ ys))
            ≡ with_key v (c ∷ y ∷ ys)
      apart e (inl p) (inl q) = absurd (ground (arith, e, p, q))
      apart e (inl p) (inr q) = rw (p, q) refl
      apart e (inr p) q = rw p refl

  with_key-insert_each :
      (v : ℤ) (ys cs : List A) → with_key v (insert_each ys cs) ≡ with_key v (rev_onto cs ys)
  unfolding insert_each
  with_key-insert_each v ys [] = refl
  with_key-insert_each v ys (c ∷ cs) =
      with_key-insert_each v (insert_back key ys c) cs
      ∙ with_key-rev_onto v cs (insert_back key ys c)
      ∙ ap (rev_onto (with_key v cs)) (with_key-insert_back v ys c)
      ∙ sym (with_key-rev_onto v cs (c ∷ ys))

  insert_each_all-perm : (e : A) (es : List A) → Perm (insert_each (e ∷ []) es) (e ∷ es)
  insert_each_all-perm e es = Perm.trans (insert_each-perm (e ∷ []) es) (
      Perm.trans (rev_onto-perm es (e ∷ []))
        (subst (λ t. Perm (es ++ (e ∷ [])) (e ∷ t)) (append-nil es) (perm_middle es [])))

  -- The full sort returns the entries, in descending order of their keys, and entries with the
  -- same key `v` in the order in which they came.
  pub sort_all_lem :
      (entries : List A) (v : ℤ)
      → Perm (sort_all key entries) entries
        × IsDescending (sort_all key entries)
        × (with_key v (sort_all key entries) ≡ with_key v entries)
  unfolding sort_all
  sort_all_lem [] v = (Perm.refl [], tt, refl)
  sort_all_lem (e ∷ es) v =
      let sorted = insert_each (e ∷ []) es in
      subst (λ t. Perm t (e ∷ es) × IsDescending t × (with_key v t ≡ with_key v (e ∷ es)))
        (sym (sort_from-insert_each e (e ∷ []) es))
        (
          Perm.trans (rev_onto-perm sorted [])
              (subst (λ t. Perm t (e ∷ es)) (sym (append-nil sorted)) (insert_each_all-perm e es)),
          rev_onto-IsDescending sorted [] (insert_each-IsAscending (e ∷ []) es (tt, tt)) tt
              (all_tt sorted),
          with_key-rev_onto v sorted []
              ∙ ap (λ t. rev_onto t []) (with_key-insert_each v (e ∷ []) es)
              ∙ sym (with_key-rev_onto v (rev_onto es (e ∷ [])) [])
              ∙ ap (with_key v) (rev_onto_twice es (e ∷ []) [] ∙ ap (λ t. e ∷ t) (append-nil es)),
        )
    where
      all_tt : (xs : List A) → All (λ y. All (λ z. key z ≤ℤ key y) []) xs
      all_tt [] = tt
      all_tt (x ∷ xs) = (tt, all_tt xs)
