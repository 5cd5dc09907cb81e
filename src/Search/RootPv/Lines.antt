-- ===== src/Search/RootPv/Lines.antt =====
-- src/engine/search/root_pv.c: the line that each operation leaves.
use fcfish.Base.{
  append-nil, append_assoc, ℕ, zero, suc, ◌+◌, ◌≤◌, ◌<◌, ◌≡◌, refl, ap, sym, ◌∙◌, arith, Bool, ltb,
  if◌then◌else◌, Bool-cases, inl, inr, List, [], ◌∷◌, ◌++◌, length, set, take, length-set,
}
use fcfish.Search.RootPv.{
  RootPvMoves, Realloc, reserve, write_at, root_pv_set_line, root_pv_push, root_pv_truncate,
  root_pv_copy,
}
use fcfish.Search.RootPv.Reserve.{
  Reallocates, IsPv, IsReserved, reserve-IsReserved, reserve-refused,
}

-- The moves of the line.
abbrev pub line : RootPvMoves → List ℕ
line pv = take pv.length pv.moves

length-write_at : (buf : List ℕ) (i : ℕ) (xs : List ℕ) → length (write_at buf i xs) ≡ length buf
unfolding write_at
length-write_at buf i [] = refl
length-write_at buf i (x ∷ xs) = length-write_at (set buf i x) (i + 1) xs ∙ length-set buf i x

take-set :
    (buf : List ℕ) (i x : ℕ) → i < length buf → take (i + 1) (set buf i x) ≡ take i buf ++ (x ∷ [])
take-set [] i x h = absurd (omega (arith, h))
take-set (b ∷ buf) zero x h = refl
take-set (b ∷ buf) (suc i) x h = ground (arith, take-set buf i x (omega (arith, h)))

take-write_at :
    (buf : List ℕ) (i : ℕ) (xs : List ℕ)
    → i + length xs ≤ length buf
    → take (i + length xs) (write_at buf i xs) ≡ take i buf ++ xs
unfolding write_at
take-write_at buf i [] h =
    let same : i + 0 ≡ i = omega arith in ap (λ n. take n buf) same ∙ sym (append-nil (take i buf))
take-write_at buf i (x ∷ xs) h =
    let same : i + suc (length xs) ≡ i + 1 + length xs = omega arith in
    ap (λ n. take n (write_at (set buf i x) (i + 1) xs)) same
    ∙ take-write_at (set buf i x) (i + 1) xs (omega (arith, h, length-set buf i x))
    ∙ ap (λ t. t ++ xs) (take-set buf i x (omega (arith, h)))
    ∙ append_assoc (take i buf) (x ∷ []) xs

length-take : (n : ℕ) (xs : List ℕ) → n ≤ length xs → length (take n xs) ≡ n
length-take zero xs h = refl
length-take (suc n) [] h = absurd (omega (arith, h))
length-take (suc n) (x ∷ xs) h = ap suc (length-take n xs (omega (arith, h)))

take-write_all :
    (buf xs : List ℕ) (n : ℕ) → n ≡ length xs → n ≤ length buf → take n (write_at buf 0 xs) ≡ xs
take-write_all buf xs n e h =
    let same : n ≡ 0 + length xs = omega (arith, e) in
    ap (λ k. take k (write_at buf 0 xs)) same ∙ take-write_at buf 0 xs (omega (arith, e, h))

take-fewer : (k n : ℕ) (xs : List ℕ) → k ≤ n → take k (take n xs) ≡ take k xs
take-fewer zero n xs h = refl
take-fewer (suc k) zero xs h = absurd (omega (arith, h))
take-fewer (suc k) (suc n) [] h = refl
take-fewer (suc k) (suc n) (x ∷ xs) h = ap (λ t. x ∷ t) (take-fewer k n xs (omega (arith, h)))

take-more : (n : ℕ) (xs : List ℕ) → length xs ≤ n → take n xs ≡ xs
take-more zero [] h = refl
take-more (suc n) [] h = refl
take-more zero (x ∷ xs) h = absurd (omega (arith, h))
take-more (suc n) (x ∷ xs) h = ap (λ t. x ∷ t) (take-more n xs (omega (arith, h)))

-- Setting a line leaves it, `first` before `child`, or the empty line if the room was refused, and
-- always a valid list.
root_pv_set_line_lem :
    (realloc : Realloc) (pv : RootPvMoves) (first : ℕ) (child : List ℕ)
    → Reallocates realloc
    → IsPv pv
    → IsPv (root_pv_set_line realloc pv first child)
      × (line (root_pv_set_line realloc pv first child)
          ≡ (if (reserve realloc pv (length child + 1)).1 then first ∷ child else []))
unfolding root_pv_set_line
root_pv_set_line_lem realloc pv first child re ok = elim (Bool-cases r.1) [
  | inl t ↦ rw t (
    record {
      sized = length-write_at r.0.moves 0 (first ∷ child) ∙ done.valid.sized;
      fits = omega (arith, done.room t);
    },
    take-write_all r.0.moves (first ∷ child) (1 + length child) (omega arith)
        (omega (arith, done.room t, done.valid.sized)),
  )
  | inr t ↦ rw t (record { sized = done.valid.sized; fits = omega arith }, refl)
]
  where
    r : RootPvMoves × Bool
    r = reserve realloc pv (length child + 1)

    done : IsReserved pv (length child + 1) r
    done = reserve-IsReserved realloc pv (length child + 1) re ok

-- A push that says so appends the move to the line; one that does not keeps the line. Either leaves
-- a valid list.
root_pv_push_lem :
    (realloc : Realloc) (pv : RootPvMoves) (m : ℕ)
    → Reallocates realloc
    → IsPv pv
    → IsPv (root_pv_push realloc pv m).0
      × (line (root_pv_push realloc pv m).0
          ≡ (if (root_pv_push realloc pv m).1 then line pv ++ (m ∷ []) else line pv))
unfolding root_pv_push
root_pv_push_lem realloc pv m re ok = elim (Bool-cases r.1) [
  | inl t ↦ rw t (
    record {
      sized = length-write_at r.0.moves r.0.length (m ∷ []) ∙ done.valid.sized;
      fits = omega (arith, done.room t, done.same_length);
    },
    take-write_at r.0.moves r.0.length (m ∷ [])
          (omega (arith, done.room t, done.same_length, done.valid.sized))
        ∙ ap (λ n. take n r.0.moves ++ (m ∷ [])) done.same_length
        ∙ ap (λ xs. xs ++ (m ∷ [])) done.same_line,
  )
  | inr t ↦ rw t (done.valid, ap (λ n. take n r.0.moves) done.same_length ∙ done.same_line)
]
  where
    r : RootPvMoves × Bool
    r = reserve realloc pv (pv.length + 1)

    done : IsReserved pv (pv.length + 1) r
    done = reserve-IsReserved realloc pv (pv.length + 1) re ok

-- A copy of a valid list is valid, and its line is the source's, or if the room was refused the
-- longest prefix of it that fits.
pub root_pv_copy_lem :
    (realloc : Realloc) (dst src : RootPvMoves)
    → Reallocates realloc
    → IsPv dst
    → IsPv src
    → IsPv (root_pv_copy realloc dst src)
      × (line (root_pv_copy realloc dst src)
          ≡ (if (reserve realloc dst src.length).1 then line src else take dst.capacity (line src)))
unfolding root_pv_copy
root_pv_copy_lem realloc dst src re ok ok' = elim (Bool-cases r.1) [
  | inl t ↦ rw t (
    record {
      sized = length-write_at r.0.moves 0 (line src) ∙ done.valid.sized;
      fits = done.room t;
    },
    take-write_all r.0.moves (line src) src.length (sym (length-take src.length src.moves whole))
        (omega (arith, done.room t, done.valid.sized)),
  )
  | inr t ↦
      let same : r.0.capacity ≡ dst.capacity = ap (λ q. q.capacity) (done.refused t) in
      let short = reserve-refused realloc dst src.length t in
      rw t (
        record {
          sized = length-write_at r.0.moves 0 (take r.0.capacity src.moves) ∙ done.valid.sized;
          fits = omega arith;
        },
        take-write_all r.0.moves (take r.0.capacity src.moves) r.0.capacity
              (sym (length-take r.0.capacity src.moves (omega (arith, same, short, whole))))
              (omega (arith, done.valid.sized))
            ∙ ap (λ n. take n src.moves) same
            ∙ sym (take-fewer dst.capacity src.length src.moves (omega (arith, short))),
      )
]
  where
    whole : src.length ≤ length src.moves
    whole = omega (arith, ok'.fits, ok'.sized)

    r : RootPvMoves × Bool
    r = reserve realloc dst src.length

    done : IsReserved dst src.length r
    done = reserve-IsReserved realloc dst src.length re ok

-- Truncating a valid list to `len` moves leaves a valid list of the first `len` of its line.
pub root_pv_truncate_lem :
    (pv : RootPvMoves) (len : ℕ)
    → IsPv pv
    → IsPv (root_pv_truncate pv len) × (line (root_pv_truncate pv len) ≡ take len (line pv))
unfolding root_pv_truncate
root_pv_truncate_lem pv len ok = elim (Bool-cases (ltb len pv.length)) [
  | inl t ↦ rw t (
    record { sized = ok.sized; fits = ground (arith, ok.fits) },
    sym (take-fewer len pv.length pv.moves (ground arith)),
  )
  | inr t ↦ rw t (
    ok,
    sym (
        take-more len (line pv)
          (ground (arith, length-take pv.length pv.moves (omega (arith, ok.fits, ok.sized))))),
  )
]
