-- ===== src/Search/RootPv/Reserve.antt =====
-- src/engine/search/root_pv.c: `reserve` gives the room asked for, or refuses and changes nothing.
use fcfish.Base.{
  ℕ, zero, suc, ◌*◌, ◌^◌, ◌≤◌, ◌<◌, ◌≡◌, refl, ap, arith, Bool, true, false, ltb, leb, ◌==◌,
  if◌then◌else◌, Bool-cases, inl, inr, List, [], ◌∷◌, length, take, Option, none, some,
}
use native.Mathlib.Nat.{mul_assoc}
use fcfish.Search.RootPv.{
  RootPvMoves, Realloc, root_pv_search_cap, double_cap, grown, grow_to, reserve,
}

-- What the C library says of `realloc`: the block has the size asked for, and what it held.
abbrev pub Reallocates : Realloc → Type 0
Reallocates realloc =
    (buf : List ℕ) (n : ℕ) (block : List ℕ)
    → length buf ≤ n
    → realloc buf n ≡ some block
    → (length block ≡ n) × (take (length buf) block ≡ buf)

-- The doubling ends, with room for what was asked, unless that is more than 2 ^ 62 moves.
double_cap-enough :
    (fuel cap want : ℕ)
    → 0 < cap
    → want ≤ cap * 2 ^ fuel
    → want ≤ 2 ^ 62
    → (c : ℕ) × (double_cap fuel cap want ≡ some c) × (want ≤ c) × (cap ≤ c)
unfolding double_cap
double_cap-enough zero cap want pos room small = (cap, ground arith, omega arith, omega arith)
double_cap-enough (suc fuel) cap want pos room small = elim (Bool-cases (ltb cap want)) [
  | inl t ↦
      let (c, e, w, b) = double_cap-enough fuel (cap * 2) want (omega arith) roomier small in
      (c, ground (arith, e), w, omega (arith, b))
  | inr t ↦ (cap, rw t refl, ground arith, omega arith)
]
  where
    two : 2 ^ suc fuel ≡ 2 * 2 ^ fuel
    two = omega arith

    roomier : want ≤ cap * 2 * 2 ^ fuel
    roomier = omega (arith, room, ap (λ n. cap * n) two, mul_assoc cap 2 (2 ^ fuel))

double_cap-some : (fuel cap want c : ℕ) → double_cap fuel cap want ≡ some c → (want ≤ c) × (cap ≤ c)
unfolding double_cap
double_cap-some zero cap want c h = ground (arith, h)
double_cap-some (suc fuel) cap want c h = ground (arith, h, double_cap-some fuel (cap * 2) want c)

pub record IsPv (pv : RootPvMoves) : Type 0 where
  pub sized : length pv.moves ≡ pv.capacity
  pub fits : pv.length ≤ pv.capacity

-- What every call of `reserve` leaves: room for `want` moves if it says so, and in any case a valid
-- list of the same moves.
pub record IsReserved (pv : RootPvMoves) (want : ℕ) (r : RootPvMoves × Bool) : Type 0 where
  pub valid : IsPv r.0
  pub same_length : r.0.length ≡ pv.length
  pub same_line : take pv.length r.0.moves ≡ take pv.length pv.moves
  pub room : r.1 ≡ true → want ≤ r.0.capacity
  pub refused : r.1 ≡ false → r.0 ≡ pv

take-take : (k n : ℕ) (xs ys : List ℕ) → k ≤ n → take n xs ≡ ys → take k xs ≡ take k ys
take-take zero n xs ys h e = refl
take-take (suc k) zero xs ys h e = absurd (omega (arith, h))
take-take (suc k) (suc n) [] [] h e = refl
take-take (suc k) (suc n) [] (y ∷ ys) h e = absurd (ground (arith, e))
take-take (suc k) (suc n) (x ∷ xs) [] h e = absurd (ground (arith, e))
take-take (suc k) (suc n) (x ∷ xs) (y ∷ ys) h e =
    ground (arith, e, take-take k n xs ys (omega (arith, h)) (ground (arith, e)))

kept-IsReserved : (pv : RootPvMoves) (want : ℕ) → IsPv pv → IsReserved pv want (pv, false)
kept-IsReserved pv want ok = record {
  valid = ok;
  same_length = refl;
  same_line = refl;
  room = λ e. absurd (ground (arith, e));
  refused = λ e. refl;
}

grown-IsReserved :
    (realloc : Realloc) (pv : RootPvMoves) (want size : ℕ) (block : Option (List ℕ))
    → Reallocates realloc
    → IsPv pv
    → want ≤ size
    → pv.capacity ≤ size
    → realloc pv.moves size ≡ block
    → IsReserved pv want (grown pv size block)
unfolding grown
grown-IsReserved realloc pv want size none re ok w b e = kept-IsReserved pv want ok
grown-IsReserved realloc pv want size (some block) re ok w b e =
    let (l, held) = re pv.moves size block (omega (arith, ok.sized)) e in
    record {
      valid = record { sized = l; fits = omega (arith, ok.fits) };
      same_length = refl;
      same_line =
          take-take pv.length (length pv.moves) block pv.moves (omega (arith, ok.fits, ok.sized))
            held;
      room = λ t. w;
      refused = λ t. absurd (ground (arith, t));
    }

grow_to-IsReserved :
    (realloc : Realloc) (pv : RootPvMoves) (want : ℕ) (o : Option ℕ)
    → Reallocates realloc
    → IsPv pv
    → ((c : ℕ) → o ≡ some c → (want ≤ c) × (pv.capacity ≤ c))
    → IsReserved pv want (grow_to realloc pv o)
unfolding grow_to
grow_to-IsReserved realloc pv want none re ok h = kept-IsReserved pv want ok
grow_to-IsReserved realloc pv want (some c) re ok h =
    let (w, b) = h c refl in grown-IsReserved realloc pv want c (realloc pv.moves c) re ok w b refl

-- Where the allocator behaves as `realloc` does, reserving on a valid list gives the room asked for
-- and keeps its moves, or refuses and changes nothing.
pub reserve-IsReserved :
    (realloc : Realloc) (pv : RootPvMoves) (want : ℕ)
    → Reallocates realloc
    → IsPv pv
    → IsReserved pv want (reserve realloc pv want)
unfolding reserve
reserve-IsReserved realloc pv want re ok = elim (Bool-cases (leb want pv.capacity)) [
  | inl t ↦ rw t (record {
    valid = ok;
    same_length = refl;
    same_line = refl;
    room = λ e. ground arith;
    refused = λ e. refl;
  })
  | inr t ↦ rw t (
      grow_to-IsReserved realloc pv want (double_cap 64 start want) re ok
        (λ c e. let (w, b) = double_cap-some 64 start want c e in (w, ground (arith, b))))
]
  where
    start : ℕ
    start = if pv.capacity == 0 then root_pv_search_cap else pv.capacity

-- An allocator that never fails grants every request of at most 2 ^ 62 moves: the 64 doublings are
-- enough.
pub reserve-granted :
    (realloc : Realloc) (pv : RootPvMoves) (want : ℕ)
    → ((buf : List ℕ) (n : ℕ) → (block : List ℕ) × (realloc buf n ≡ some block))
    → want ≤ 2 ^ 62
    → (reserve realloc pv want).1 ≡ true
unfolding reserve grow_to grown
reserve-granted realloc pv want gives small = elim (Bool-cases (leb want pv.capacity)) [
  | inl t ↦ rw t refl
  | inr t ↦
      let (c, e, w, b) = double_cap-enough 64 start want (ground arith) (ground arith) small in
      let (block, given) = gives pv.moves c in rw t (rw e (rw given refl))
]
  where
    start : ℕ
    start = if pv.capacity == 0 then root_pv_search_cap else pv.capacity

pub reserve-refused :
    (realloc : Realloc) (pv : RootPvMoves) (want : ℕ)
    → (reserve realloc pv want).1 ≡ false
    → pv.capacity < want
unfolding reserve
reserve-refused realloc pv want h = elim (Bool-cases (leb want pv.capacity)) [
  | inl t ↦ absurd (ground (arith, t, h))
  | inr t ↦ ground arith
]
