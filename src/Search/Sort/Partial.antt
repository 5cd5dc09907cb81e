-- ===== src/Search/Sort/Partial.antt =====
-- src/engine/search/movepick.c: the partial sort. It puts the head and the entries of at least the
-- limit in front, in the order of the full sort, and only moves the others.
use fcfish.Base.{
  append_assoc, ℕ, suc, ◌+◌, ◌≡◌, refl, ap, sym, ◌∙◌, arith, Bool, true, false, if◌then◌else◌,
  Bool-cases, inl, inr, List, [], ◌∷◌, ◌++◌, length, get_or, set, length-append,
}
use fcfish.Base.Int.{ℤ, ltb_ℤ}
use mathlib.Core.List.{Perm}
use mathlib.Core.List.Perm
use mathlib.Core.List.{perm_middle}
use mathlib.Core.Path.{subst}
use fcfish.Search.Sort.{ladder, partial_from, sort_all, partial_insertion_sort}
use fcfish.Search.Sort.Ladder.{
  rev_onto, get_or-rev_onto, set-rev_onto, insert_back, ladder-rev_onto, length-insert_back,
  rev_onto_append,
}
use fcfish.Search.Sort.Stable.{insert_each, sort_all-insert_each}

module _ {ℓ} {A : Type ℓ} where
  get_or-middle :
      (d : A) (xs : List A) (y : A) (zs : List A) → get_or (xs ++ (y ∷ zs)) (length xs) d ≡ y
  get_or-middle d [] y zs = refl
  get_or-middle d (x ∷ xs) y zs = get_or-middle d xs y zs

  set-middle :
      (v : A) (xs : List A) (y : A) (zs : List A)
      → set (xs ++ (y ∷ zs)) (length xs) v ≡ xs ++ (v ∷ zs)
  set-middle v [] y zs = refl
  set-middle v (x ∷ xs) y zs = ap (λ t. x ∷ t) (set-middle v xs y zs)

  -- The entries that the scan has left behind, after the first of them gave up its place.
  abbrev rotated : List A → List A
  rotated [] = []
  rotated (r ∷ rs) = rs ++ (r ∷ [])

  length-rotated : (rs : List A) → length (rotated rs) ≡ length rs
  length-rotated [] = refl
  length-rotated (r ∷ rs) = omega (arith, length-append rs (r ∷ []))

  rotated-perm : (rs zs : List A) → Perm (rotated rs ++ zs) (rs ++ zs)
  rotated-perm [] zs = Perm.refl zs
  rotated-perm (r ∷ rs) zs =
      subst (λ t. Perm t (r ∷ (rs ++ zs))) (sym (append_assoc rs (r ∷ []) zs)) (perm_middle rs zs)

module _ {ℓ} {A : Type ℓ} (key : A → ℤ) (limit : ℤ) where
  abbrev pub at_least : List A → List A
  at_least [] = []
  at_least (x ∷ xs) = if ltb_ℤ (key x) limit then at_least xs else x ∷ at_least xs

  abbrev pub under : List A → List A
  under [] = []
  under (x ∷ xs) = if ltb_ℤ (key x) limit then x ∷ under xs else under xs

  module _ (d : A) where
    taken_step :
        (ys rs : List A) (c : A) (cs : List A) (sorted_end scan : ℕ)
        → length ys ≡ suc sorted_end
        → scan ≡ length ys + length rs
        → ladder key
            (set
              (rev_onto ys (rs ++ (c ∷ cs)))
              scan
              (get_or (rev_onto ys (rs ++ (c ∷ cs))) (suc sorted_end) d))
            (suc sorted_end)
            c
          ≡ rev_onto (insert_back key ys c) (rotated rs ++ cs)
    taken_step ys rs c cs sorted_end scan at_end at_scan =
        ap (λ i. ladder key (set arr scan (get_or arr i d)) i c) (sym at_end)
        ∙ ap (λ v. ladder key (set arr scan v) (length ys) c)
            (get_or-rev_onto d ys (rs ++ (c ∷ cs)) 0 (length ys) (omega arith))
        ∙ ap (λ es. ladder key es (length ys) c)
            (set-rev_onto (get_or (rs ++ (c ∷ cs)) 0 d) ys (rs ++ (c ∷ cs)) (length rs) scan
              at_scan)
        ∙ opened rs
      where
        arr : List A
        arr = rev_onto ys (rs ++ (c ∷ cs))

        opened :
            (rs : List A)
            → ladder key
                (rev_onto ys (set (rs ++ (c ∷ cs)) (length rs) (get_or (rs ++ (c ∷ cs)) 0 d)))
                (length ys)
                c
              ≡ rev_onto (insert_back key ys c) (rotated rs ++ cs)
        opened [] = ladder-rev_onto key ys c cs c
        opened (r ∷ rs) =
            ap (λ t. ladder key (rev_onto ys (r ∷ t)) (length ys) c) (set-middle r rs c cs)
            ∙ ladder-rev_onto key ys r (rs ++ (r ∷ cs)) c
            ∙ ap (rev_onto (insert_back key ys c)) (sym (append_assoc rs (r ∷ []) cs))

    step_lem :
        (es : List A) (c : A) (below : Bool) (sorted_end scan n : ℕ)
        → get_or es scan d ≡ c
        → ltb_ℤ (key c) limit ≡ below
        → partial_from key limit d es sorted_end scan (suc n)
          ≡ partial_from key limit d
              (if below
                then es
                else ladder key (set es scan (get_or es (suc sorted_end) d)) (suc sorted_end) c)
              (if below then sorted_end else suc sorted_end)
              (suc scan)
              n
    unfolding partial_from
    step_lem es c below sorted_end scan n read h =
        ap (λ x. go x (ltb_ℤ (key x) limit)) read ∙ ap (go c) h
      where
        go : A → Bool → List A
        go x b =
            partial_from key limit d
              (if b
                then es
                else ladder key (set es scan (get_or es (suc sorted_end) d)) (suc sorted_end) x)
              (if b then sorted_end else suc sorted_end) (suc scan) n

    partial_from_lem :
        (ys rs rest : List A) (sorted_end scan : ℕ)
        → length ys ≡ suc sorted_end
        → scan ≡ length ys + length rs
        → (left : List A) × (partial_from key limit d
              (rev_onto ys (rs ++ rest))
              sorted_end
              scan
              (length rest)
            ≡ rev_onto (insert_each key ys (at_least rest)) left)
          × Perm left (rs ++ under rest)
    unfolding partial_from insert_each
    partial_from_lem ys rs [] sorted_end scan at_end at_scan =
        (rs ++ [], refl, Perm.refl (rs ++ []))
    partial_from_lem ys rs (c ∷ cs) sorted_end scan at_end at_scan =
        let read : get_or (rev_onto ys (rs ++ (c ∷ cs))) scan d ≡ c =
          get_or-rev_onto d ys (rs ++ (c ∷ cs)) (length rs) scan at_scan
          ∙ get_or-middle d rs c cs in
        elim (Bool-cases (ltb_ℤ (key c) limit)) [
          | inl h ↦
              let ih =
                partial_from_lem ys (rs ++ (c ∷ [])) cs sorted_end (suc scan) at_end
                  (omega (arith, at_scan, length-append rs (c ∷ []))) in
              rw h (
                ih.0,
                step_lem (rev_onto ys (rs ++ (c ∷ cs))) c true sorted_end scan (length cs) read h
                    ∙ ap
                        (λ t.
                          partial_from key limit d (rev_onto ys t) sorted_end (suc scan)
                            (length cs))
                        (sym (append_assoc rs (c ∷ []) cs))
                    ∙ ih.1,
                subst (Perm ih.0) (append_assoc rs (c ∷ []) (under cs)) ih.2,
              )
          | inr h ↦
              let ih =
                partial_from_lem (insert_back key ys c) (rotated rs) cs (suc sorted_end) (suc scan)
                  (omega (arith, at_end, length-insert_back key ys c))
                  (omega (arith, at_scan, length-insert_back key ys c, length-rotated rs)) in
              rw h (
                ih.0,
                step_lem (rev_onto ys (rs ++ (c ∷ cs))) c false sorted_end scan (length cs) read h
                    ∙ ap (λ es. partial_from key limit d es (suc sorted_end) (suc scan) (length cs))
                        (taken_step ys rs c cs sorted_end scan at_end at_scan)
                    ∙ ih.1,
                Perm.trans ih.2 (rotated-perm rs (under cs)),
              )
        ]

  -- The partial sort returns what the full sort makes of the first entry and of those that reach
  -- the limit, and behind it the others in some order.
  pub partial_insertion_sort_lem :
      (e : A) (es : List A)
      → (left : List A) × (partial_insertion_sort key (e ∷ es) limit
          ≡ sort_all key (e ∷ at_least es) ++ left)
        × Perm left (under es)
  unfolding partial_insertion_sort
  partial_insertion_sort_lem e es =
      let r = partial_from_lem e (e ∷ []) [] es 0 1 refl refl in
      (
        r.0,
        r.1
            ∙ sym (rev_onto_append (insert_each key (e ∷ []) (at_least es)) [] r.0)
            ∙ sym (ap (λ t. t ++ r.0) (sort_all-insert_each key e (at_least es))),
        r.2,
      )
