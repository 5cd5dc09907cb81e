-- ===== src/Board/Repetition/Insert.antt =====
-- src/engine/board/repetition.c: an entry that `repetition_init` has put into the table stays findable.
use fcfish.Base.{
  ℕ, zero, suc, ◌≡◌, refl, ◌≢◌, ap, sym, ◌∙◌, arith, true, false, ◌==◌, ==_iff, ==_refl,
  if◌then◌else◌, Bool-cases, inl, inr, ◌⊎◌, List, [], ◌∷◌, Option, none, some,
}
use mathlib.Core.List.{Memᴰ}
use mathlib.Core.Option.{some-injective}
use fcfish.Board.Types.{move_none}
use fcfish.Board.Repetition.{
  Cuckoo, cuckoo_h1, cuckoo_h2, put, and_then, displace, insert_all, cuckoo_find,
}

-- Slot `i` is one of the two of the key.
abbrev pub IsSlot : ℕ → ℕ → Type 0
IsSlot key i = (i ≡ cuckoo_h1 key) ⊎ (i ≡ cuckoo_h2 key)

-- Every occupied slot is one of its key's.
abbrev pub IsPlaced : Cuckoo → Type 0
IsPlaced t = (i : ℕ) → t.moves i ≢ move_none → IsSlot (t.keys i) i

-- The entry stands in one of the key's slots.
abbrev pub Holds : Cuckoo → ℕ → ℕ → Type 0
Holds t key move = (i : ℕ) × IsSlot key i × (t.keys i ≡ key) × (t.moves i ≡ move)

put-IsPlaced :
    (t : Cuckoo) (i key move : ℕ) → IsPlaced t → IsSlot key i → IsPlaced (put t i key move)
put-IsPlaced t i key move placed slot j h = elim (Bool-cases (j == i)) [
  | inl e ↦ rw e (rw ((==_iff j i).0 e) slot)
  | inr e ↦ rw e (placed j (λ z. h (rw e z)))
]

put-Holds : (t : Cuckoo) (i key move : ℕ) → IsSlot key i → Holds (put t i key move) key move
put-Holds t i key move slot = (i, slot, rw (==_refl i) refl, rw (==_refl i) refl)

put-keeps :
    (t : Cuckoo) (i key move key' move' : ℕ)
    → Holds t key' move'
    → Holds (put t i key move) key' move' ⊎ ((t.keys i ≡ key') × (t.moves i ≡ move'))
put-keeps t i key move key' move' (j, slot, k, m) = elim (Bool-cases (j == i)) [
  | inl e ↦ inr (ap t.keys (sym ((==_iff j i).0 e)) ∙ k, ap t.moves (sym ((==_iff j i).0 e)) ∙ m)
  | inr e ↦ inl (j, slot, rw e k, rw e m)
]

other-IsSlot :
    (key i : ℕ)
    → IsSlot key i
    → IsSlot key (if i == cuckoo_h1 key then cuckoo_h2 key else cuckoo_h1 key)
other-IsSlot key i h = elim (Bool-cases (i == cuckoo_h1 key)) [
  | inl e ↦ rw e (inr refl)
  | inr e ↦ rw e (inl refl)
]

-- What an insertion does to a table.
pub record IsInserted (t t' : Cuckoo) (key move : ℕ) : Type 0 where
  pub placed : IsPlaced t'
  pub inserted : Holds t' key move
  pub kept : (key' move' : ℕ) → move' ≢ move_none → Holds t key' move' → Holds t' key' move'

displace-IsInserted :
    (fuel : ℕ) (t t' : Cuckoo) (key move i : ℕ)
    → IsPlaced t
    → IsSlot key i
    → move ≢ move_none
    → displace fuel t key move i ≡ some t'
    → IsInserted t t' key move
unfolding displace
displace-IsInserted zero t t' key move i placed slot real h = absurd (ground (arith, h))
displace-IsInserted (suc fuel) t t' key move i placed slot real h =
    elim (Bool-cases (t.moves i == move_none)) [
      | inl e ↦
          let same : put t i key move ≡ t' = ground (arith, h, e) in
          rw (sym same) (record {
            placed = put-IsPlaced t i key move placed slot;
            inserted = put-Holds t i key move slot;
            kept = λ key' move' r held. elim (put-keeps t i key move key' move' held) [
              | inl there ↦ there
              | inr gone ↦ absurd (r (sym gone.1 ∙ (==_iff (t.moves i) move_none).0 e))
            ];
          })
      | inr e ↦
          let occupied : t.moves i ≢ move_none = ground (arith, e) in
          let next =
            displace-IsInserted fuel (put t i key move) t' (t.keys i) (t.moves i)
              (if i == cuckoo_h1 (t.keys i) then cuckoo_h2 (t.keys i) else cuckoo_h1 (t.keys i))
              (put-IsPlaced t i key move placed slot)
              (other-IsSlot (t.keys i) i (placed i occupied)) occupied (ground (arith, h, e)) in
          record {
            placed = next.placed;
            inserted = next.kept key move real (put-Holds t i key move slot);
            kept = λ key' move' r held. elim (put-keeps t i key move key' move' held) [
              | inl there ↦ next.kept key' move' r there
              | inr gone ↦ rw (sym gone.0) (rw (sym gone.1) next.inserted)
            ];
          }
    ]

-- The moves of the entries are real ones.
abbrev pub AreReal : List (ℕ × ℕ) → Type 0
AreReal entries = (key move : ℕ) → Memᴰ (key, move) entries → move ≢ move_none

insert_all-keeps :
    (fuel : ℕ) (entries : List (ℕ × ℕ)) (t t' : Cuckoo)
    → IsPlaced t
    → AreReal entries
    → insert_all fuel t entries ≡ some t'
    → ((key move : ℕ) → Memᴰ (key, move) entries → Holds t' key move)
      × ((key move : ℕ) → move ≢ move_none → Holds t key move → Holds t' key move)
unfolding insert_all
insert_all-keeps fuel [] t t' placed real h =
    let same : t ≡ t' = some-injective t t' h in
    (λ key move m. elim m [ ], λ key move r held. rw (sym same) held)
insert_all-keeps fuel ((k0, m0) ∷ entries) t t' placed real h =
    after (displace fuel t k0 m0 (cuckoo_h1 k0)) refl h (λ t1 ok e.
      insert_all-keeps fuel entries t1 t' ok (λ key move m. real key move (Memᴰ.tail m)) e)
  where
    member :
        (key move : ℕ)
        → Holds t' k0 m0
        → ((k1 m1 : ℕ) → Memᴰ (k1, m1) entries → Holds t' k1 m1)
        → Memᴰ (key, move) ((k0, m0) ∷ entries)
        → Holds t' key move
    member key move first others (Memᴰ.head e) = rw (ap (λ q. q.0) e) (rw (ap (λ q. q.1) e) first)
    member key move first others (Memᴰ.tail m) = others key move m

    after :
        (o : Option Cuckoo)
        → displace fuel t k0 m0 (cuckoo_h1 k0) ≡ o
        → and_then o (λ t1. insert_all fuel t1 entries) ≡ some t'
        → ((t1 : Cuckoo)
            → IsPlaced t1
            → insert_all fuel t1 entries ≡ some t'
            → ((key move : ℕ) → Memᴰ (key, move) entries → Holds t' key move)
              × ((key move : ℕ) → move ≢ move_none → Holds t1 key move → Holds t' key move))
        → ((key move : ℕ) → Memᴰ (key, move) ((k0, m0) ∷ entries) → Holds t' key move)
          × ((key move : ℕ) → move ≢ move_none → Holds t key move → Holds t' key move)
    after none e h1 again = absurd (ground (arith, h1))
    after (some t1) e h1 again =
        let genuine : m0 ≢ move_none = real k0 m0 (Memᴰ.head refl) in
        let ins = displace-IsInserted fuel t t1 k0 m0 (cuckoo_h1 k0) placed (inl refl) genuine e in
        let (all, keep) = again t1 ins.placed h1 in
        (
          λ key move m. member key move (keep k0 m0 genuine ins.inserted) all m,
          λ key move r held. keep key move r (ins.kept key move r held),
        )

-- Inserting entries with real moves one after the other, each by displacing until a slot was empty,
-- leaves every one of them, and every entry with a real move in the table before, in one of its
-- key's two slots.
insert_all-Holds :
    (fuel : ℕ) (entries : List (ℕ × ℕ)) (t t' : Cuckoo) (key move key' move' : ℕ)
    → IsPlaced t
    → AreReal entries
    → insert_all fuel t entries ≡ some t'
    → Memᴰ (key, move) entries
    → move' ≢ move_none
    → Holds t key' move'
    → Holds t' key move × Holds t' key' move'
insert_all-Holds fuel entries t t' key move key' move' placed real done member genuine held =
    let (all, keep) = insert_all-keeps fuel entries t t' placed real done in
    (all key move member, keep key' move' genuine held)

-- A key that stands in one of its slots is found.
cuckoo_find-Holds :
    (t : Cuckoo) (key move : ℕ) → Holds t key move → (m : ℕ) × (cuckoo_find t key ≡ some m)
unfolding cuckoo_find
cuckoo_find-Holds t key move (i, slot, k, m) = elim (Bool-cases (t.keys (cuckoo_h1 key) == key)) [
  | inl e ↦ (t.moves (cuckoo_h1 key), rw e refl)
  | inr e ↦ elim slot [
    | inl first ↦ absurd (first_slot first e)
    | inr second ↦ (t.moves (cuckoo_h2 key), rw e (rw (second_slot second) refl))
  ]
]
  where
    first_slot : i ≡ cuckoo_h1 key → (t.keys (cuckoo_h1 key) == key) ≢ false
    first_slot s e = ground (arith, e, ap t.keys (sym s) ∙ k)

    second_slot : i ≡ cuckoo_h2 key → (t.keys (cuckoo_h2 key) == key) ≡ true
    second_slot s = ground (arith, ap t.keys (sym s) ∙ k)
