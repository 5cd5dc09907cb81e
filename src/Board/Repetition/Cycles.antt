-- ===== src/Board/Repetition/Cycles.antt =====
-- src/engine/board/repetition.c: what the queries along the chain of states answer.
use fcfish.Base.{
  ℕ, zero, suc, ◌+◌, ◌≤◌, ◌≡◌, ap, arith, true, false, ◌==◌, ==_iff, Bool-cases, inl, inr, ◌↔◌,
}
use fcfish.Board.Repetition.{Chain, is_zero, end_of, repeated_from, pos_has_repeated}

-- A state `k` plies back is a repetition, with at least four plies of the window left.
abbrev pub RepeatedAt : Chain → ℕ → ℕ → Type 0
RepeatedAt st end k = (k + 4 ≤ end) × (is_zero (st k).repetition ≡ false)

repeated_from_sound :
    (st : Chain) (rest k : ℕ)
    → repeated_from st k rest ≡ true
    → (j : ℕ) × (k ≤ j) × RepeatedAt st (k + rest) j
unfolding repeated_from
repeated_from_sound st zero k h = absurd (ground (arith, h))
repeated_from_sound st (suc rest) k h = elim (Bool-cases (is_zero (st k).repetition)) [
  | inl z ↦
      let (j, le, (room, rep)) = repeated_from_sound st rest (k + 1) (ground (arith, h, z)) in
      (j, omega (arith, le), (omega (arith, room), rep))
  | inr z ↦ (k, omega arith, (ground (arith, h), z))
]

repeated_from_complete :
    (st : Chain) (rest k j : ℕ)
    → k ≤ j
    → RepeatedAt st (k + rest) j
    → repeated_from st k rest ≡ true
unfolding repeated_from
repeated_from_complete st zero k j le (room, rep) = absurd (omega (arith, room, le))
repeated_from_complete st (suc rest) k j le (room, rep) = elim (Bool-cases (j == k)) [
  | inl e ↦ ground (arith, room, rep, ap (λ n. is_zero (st n).repetition) ((==_iff j k).0 e))
  | inr e ↦ ground (
    arith,
    room,
    repeated_from_complete st rest (k + 1) j (ground (arith, e, le)) (omega (arith, room), rep),
  )
]

-- A repetition since the last irreversible or null move is reported exactly if one of the states of
-- that window, at least four plies inside it, is marked as one.
pub pos_has_repeated_lem :
    (st : Chain) → (pos_has_repeated st ≡ true) ↔ ((k : ℕ) × RepeatedAt st (end_of st) k)
unfolding pos_has_repeated
pos_has_repeated_lem st = (
  λ h.
      let (j, le, (room, rep)) = repeated_from_sound st (end_of st) 0 h in
      (j, (omega (arith, room), rep)),
  λ (j, (room, rep)).
      repeated_from_complete st (end_of st) 0 j (omega arith) (omega (arith, room), rep),
)
