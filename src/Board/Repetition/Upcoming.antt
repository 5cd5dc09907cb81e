-- ===== src/Board/Repetition/Upcoming.antt =====
-- src/engine/board/repetition.c: what `pos_upcoming_repetition` answers, told by the keys of the
-- chain, the entries of the table and the squares of the closing move.
use fcfish.Base.{
  ℕ, zero, suc, ◌+◌, ◌*◌, ◌≤◌, ◌<◌, ◌≡◌, refl, ◌≢◌, ap, sym, ◌∙◌, arith, true, false, ◌==◌, ==_iff,
  ltb, Bool, Bool-cases, inl, inr, ◌⊎◌, ◌↔◌, bit_xor, bit_and, Option, none, some,
}
use fcfish.Base.Words.{◌>>◌}
use mathlib.Core.Option.{some-injective, none-ne-some}
use fcfish.Board.Types.{move_from, move_to}
use fcfish.Board.Placement.{square_bb}
use fcfish.Board.Repetition.{
  Chain, is_zero, end_of, Cuckoo, closes, cycle_from, pos_upcoming_repetition, cuckoo_find,
  is_clear, cuckoo_h1, cuckoo_h2,
}

-- The keys of the states from this one back to the `2 * n + 1`th, in pairs, each with the side key.
abbrev pub folded : ℕ → Chain → ℕ → ℕ
folded side st zero = bit_xor (bit_xor (st 0).key (st 1).key) side
folded side st (suc n) =
    bit_xor (folded side st n) (bit_xor (bit_xor (st (2 * n + 2)).key (st (2 * n + 3)).key) side)

-- The table answers the move `mv` for the key: its first slot has the key, or else its second.
abbrev pub Answers : Cuckoo → ℕ → ℕ → Type 0
Answers t key mv =
    ((t.keys (bit_and key 8191) ≡ key) × (t.moves (bit_and key 8191) ≡ mv))
    ⊎ ((t.keys (bit_and key 8191) ≢ key)
        × (t.keys (bit_and (key >> 16) 8191) ≡ key)
        × (t.moves (bit_and (key >> 16) 8191) ≡ mv))

-- `pieces` has nothing on the squares between those of the move, its target excepted.
abbrev pub IsClear : (ℕ → ℕ → ℕ) → ℕ → ℕ → Type 0
IsClear between pieces mv =
    bit_and (bit_xor (between (move_from mv) (move_to mv)) (square_bb (move_to mv))) pieces ≡ 0

-- A cycle closes at the state `2 * n + 3` plies back, which lies inside the window of reversible
-- plies without a null move.
pub record Closing (t : Cuckoo) (between : ℕ → ℕ → ℕ) (pieces side : ℕ) (st : Chain) (ply n : ℕ)
    : Type 0 where
  pub reversible : 2 * n + 3 ≤ (st 0).rule50
  pub no_null : 2 * n + 3 ≤ (st 0).plies_from_null
  pub cancels : folded side st (suc n) ≡ 0
  pub move : ℕ
  pub answers : Answers t (bit_xor (st 0).key (st (2 * n + 3)).key) move
  pub clear : IsClear between pieces move
  pub inside : (2 * n + 3 < ply) ⊎ (is_zero (st (2 * n + 3)).repetition ≡ false)

find-Answers : (t : Cuckoo) (key mv : ℕ) → cuckoo_find t key ≡ some mv → Answers t key mv
unfolding cuckoo_find cuckoo_h1 cuckoo_h2
find-Answers t key mv h = elim (Bool-cases (t.keys (bit_and key 8191) == key)) [
  | inl e ↦ inl ((==_iff (t.keys (bit_and key 8191)) key).0 e, some-injective _ _ (rw e at h))
  | inr e ↦ elim (Bool-cases (t.keys (bit_and (key >> 16) 8191) == key)) [
    | inl f ↦ inr (
      λ q. absurd (ground (arith, q, e)),
      (==_iff (t.keys (bit_and (key >> 16) 8191)) key).0 f,
      some-injective _ _ (rw (e, f) at h),
    )
    | inr f ↦ absurd (none-ne-some mv (rw (e, f) at h))
  ]
]

Answers-find : (t : Cuckoo) (key mv : ℕ) → Answers t key mv → cuckoo_find t key ≡ some mv
unfolding cuckoo_find cuckoo_h1 cuckoo_h2
Answers-find t key mv (inl (k, m)) =
    let e : (t.keys (bit_and key 8191) == key) ≡ true = ground (arith, k) in rw e (ap some m)
Answers-find t key mv (inr (ne, k, m)) =
    let e : (t.keys (bit_and key 8191) == key) ≡ false = ground (arith, ne) in
    let f : (t.keys (bit_and (key >> 16) 8191) == key) ≡ true = ground (arith, k) in
    rw (e, f) (ap some m)

is_clear-IsClear :
    (between : ℕ → ℕ → ℕ) (pieces : ℕ) (o : Option ℕ)
    → is_clear between pieces o ≡ true
    → (mv : ℕ) × (o ≡ some mv) × IsClear between pieces mv
unfolding is_clear
is_clear-IsClear between pieces none h = absurd (ground (arith, h))
is_clear-IsClear between pieces (some mv) h = (mv, refl, ground (arith, h))

module _ (t : Cuckoo) (between : ℕ → ℕ → ℕ) (pieces side : ℕ) (st : Chain) (ply : ℕ) where
  -- The test of a round, with what the loop has folded.
  abbrev closes_at : ℕ → Bool
  closes_at n = closes t between pieces st ply (2 * n + 3) (folded side st (suc n))

  closes_at-Closing :
      (n : ℕ) → 2 * n + 3 ≤ end_of st → closes_at n ≡ true → Closing t between pieces side st ply n
  unfolding closes
  closes_at-Closing n inside h =
      let key = bit_xor (st 0).key (st (2 * n + 3)).key in
      let found = is_clear-IsClear between pieces (cuckoo_find t key) (ground (arith, h)) in
      record {
        reversible = ground (arith, inside);
        no_null = ground (arith, inside);
        cancels = ground (arith, h);
        move = found.0;
        answers = find-Answers t key found.0 found.1;
        clear = found.2;
        inside = elim (Bool-cases (ltb (2 * n + 3) ply)) [
          | inl e ↦ inl (ground (arith, e))
          | inr e ↦ inr (ground (arith, h, e))
        ];
      }

  Closing-closes_at :
      (n : ℕ)
      → Closing t between pieces side st ply n
      → (2 * n + 3 ≤ end_of st) × (closes_at n ≡ true)
  unfolding closes is_clear
  Closing-closes_at n c =
      let key = bit_xor (st 0).key (st (2 * n + 3)).key in
      let found = Answers-find t key c.move c.answers in
      let zero_key : (folded side st (suc n) == 0) ≡ true = ground (arith, c.cancels) in
      (
        ground (arith, c.reversible, c.no_null),
        rw (zero_key, found)
            (elim c.inside [
              | inl e ↦ ground (arith, c.clear, e)
              | inr e ↦ ground (arith, c.clear, e)
            ]),
      )

  cycle_from_sound :
      (rest n : ℕ)
      → cycle_from t between pieces side st ply (end_of st) rest (2 * n + 3) (folded side st n)
        ≡ true
      → (k : ℕ) × Closing t between pieces side st ply k
  unfolding cycle_from
  cycle_from_sound zero n h = absurd (ground (arith, h))
  cycle_from_sound (suc rest) n h =
      elim (Bool-cases (closes t between pieces st ply (2 * n + 3) (folded side st (suc n)))) [
        | inl c ↦ (n, closes_at-Closing n (ground (arith, h)) c)
        | inr c ↦ cycle_from_sound rest (suc n) (rw step (ground (arith, h, c)))
      ]
    where
      step : 2 * suc n + 3 ≡ 2 * n + 3 + 2
      step = omega arith

  cycle_from_complete :
      (rest n k : ℕ)
      → n ≤ k
      → k < n + rest
      → 2 * k + 3 ≤ end_of st
      → closes_at k ≡ true
      → cycle_from t between pieces side st ply (end_of st) rest (2 * n + 3) (folded side st n)
        ≡ true
  unfolding cycle_from
  cycle_from_complete zero n k le lt inside c = absurd (omega (arith, le, lt))
  cycle_from_complete (suc rest) n k le lt inside c = elim (Bool-cases (k == n)) [
    | inl e ↦ ground (arith, inside, ap closes_at (sym ((==_iff k n).0 e)) ∙ c)
    | inr e ↦
        let further : cycle_from t between pieces side st ply (end_of st) rest (2 * n + 3 + 2)
              (folded side st (suc n))
            ≡ true =
          rw step (
            cycle_from_complete rest (suc n) k (ground (arith, e, le)) (omega (arith, lt)) inside
              c) in
        ground (arith, inside, le, further)
  ]
    where
      step : 2 * n + 3 + 2 ≡ 2 * suc n + 3
      step = omega arith

  -- A cycle is reported exactly if at some odd number of plies back, three or more, within the plies
  -- since the last irreversible and the last null move, the folded keys cancel, one of the two slots
  -- of the difference of the keys there and here has a move for it, the way of that move is clear,
  -- and the state lies inside the search line or is marked as a repetition.
  pub pos_upcoming_repetition_lem :
      (pos_upcoming_repetition t between pieces side st ply ≡ true)
      ↔ ((n : ℕ) × Closing t between pieces side st ply n)
  unfolding pos_upcoming_repetition
  pos_upcoming_repetition_lem = elim (Bool-cases (ltb (end_of st) 3)) [
    | inl e ↦ rw e (
      λ h. absurd (ground (arith, h)),
      λ (n, c). absurd (ground (arith, e, c.reversible, c.no_null)),
    )
    | inr e ↦ rw e (
      λ h. cycle_from_sound (end_of st) 0 h,
      λ (n, c).
          let here = Closing-closes_at n c in
          cycle_from_complete (end_of st) 0 n (omega arith) (omega (arith, here.0)) here.0 here.1,
    )
  ]
