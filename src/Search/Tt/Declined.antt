-- ===== src/Search/Tt/Declined.antt =====
-- src/engine/search/tt.c: the branch of `tt_save` that keeps the entry, and ages it.
use fcfish.Base.{
  ap, ◌∙◌, ◌||◌, ℕ, ◌+◌, ◌-◌, ◌*◌, ◌<◌, ◌≡◌, refl, Bool, true, false, not, ◌==◌, ◌&&◌, arith, leb,
  ltb, if◌then◌else◌, Bool-cases, inl, inr,
}
use fcfish.Base.Int.{ℤ, pos, ◌-ℤ◌, ◌+ℤ◌, ◌≤ℤ◌, abs_ℕ, ltb_ℤ, -ℤ_parts, +ℤ_parts}
use fcfish.Base.Words.{u16}
use fcfish.Board.Types.{move_none}
use fcfish.Board.Score.{value_is_decisive, value_is_win, value_is_loss}
use fcfish.Search.Tt.Entry.{
  TtEntry, Bound, is_exact, bound_field, bool_code, overwrites, ages, tt_save,
  tt_entry_relative_age, depth_saturating_sub, depth_entry_offset,
}
use fcfish.Search.Tt.Save.{kept_move}

-- An entry that is aged: of stored depth 8 or more, not exact, and with a mate or tablebase score
-- that is not infinite.
abbrev pub is_ageing : TtEntry → Bool
is_ageing e =
    (leb 8 e.depth8 && not (is_exact (bound_field e.gen_bound8)))
    && ltb (abs_ℕ e.value16) 32001
    && leb 31507 (abs_ℕ e.value16)

abbrev with_depth : ℕ → TtEntry → TtEntry
with_depth depth8 e = record e { depth8 = depth8 }

depth_less_one : (d : ℕ) → 0 < d → d < 256 → depth_saturating_sub d (pos 1) ≡ d - 1
unfolding depth_saturating_sub
depth_less_one d h k = ground arith

declined :
    (g : ℕ) (writer : TtEntry) (key16 : ℕ) (pv : Bool) (b : Bound) (d : ℤ)
    → is_exact b ≡ false
    → writer.key16 ≡ key16
    → d +ℤ pos (2 * bool_code pv + 7) ≤ℤ pos writer.depth8
    → tt_entry_relative_age writer g ≡ 0
    → overwrites g writer key16 pv b d ≡ false
unfolding overwrites
declined g writer key16 pv b d inexact same shallow young =
    let off = depth_entry_offset in
    let flag = pos (2 * bool_code pv) in
    let deeper : ltb_ℤ (pos writer.depth8 -ℤ pos 4) (d -ℤ off +ℤ flag) ≡ false = ground (
      arith,
      shallow,
      -ℤ_parts (pos writer.depth8) (pos 4),
      -ℤ_parts d off,
      +ℤ_parts (d -ℤ off) flag,
      +ℤ_parts d (pos (2 * bool_code pv + 7)),
    ) in
    let key : (key16 == writer.key16) ≡ true = ground (arith, same) in
    let age : (tt_entry_relative_age writer g == 0) ≡ true = ground (arith, young) in
    rw (inexact, key, deeper, age) refl

decisive : (v : ℤ) → value_is_decisive v ≡ leb 31507 (abs_ℕ v)
unfolding value_is_decisive value_is_win value_is_loss
decisive v = ground arith

deep : (e : TtEntry) → ages e ≡ (leb 8 e.depth8 && not (is_exact (bound_field e.gen_bound8)))
unfolding ages ◌+ℤ◌
deep e = ground arith

saved_move :
    (writer : TtEntry) (k m : ℕ)
    → (if not (m == move_none) || not (u16 k == writer.key16)
        then record writer { move16 = m }
        else writer)
      ≡ record writer { move16 = kept_move writer k m }
saved_move writer k m = elim (Bool-cases (m == move_none)) [
  | inr e ↦ rw e refl
  | inl e ↦ elim (Bool-cases (u16 k == writer.key16)) [
    | inl f ↦ rw (e, f) refl
    | inr f ↦ rw (e, f) refl
  ]
]

-- A save of a bound that is not exact, for the key of an entry of the current generation whose
-- stored depth is by 7 or more larger than the depth of the save (9 on a principal variation), keeps
-- the key, the scores, the bound and the generation of the entry, and the kept move. The depth falls
-- by one where the entry is of stored depth 8 or more, not exact, and has a mate or tablebase score
-- that is not infinite, and stays in every other case.
pub tt_save-declined :
    (g : ℕ) (writer : TtEntry) (k : ℕ) (v : ℤ) (pv : Bool) (b : Bound) (d : ℤ) (m : ℕ) (ev : ℤ)
    → is_exact b ≡ false
    → writer.key16 ≡ u16 k
    → d +ℤ pos (2 * bool_code pv + 7) ≤ℤ pos writer.depth8
    → tt_entry_relative_age writer g ≡ 0
    → writer.depth8 < 256
    → tt_save g writer k v pv b d m ev ≡ record writer {
      move16 = kept_move writer k m;
      depth8 = if is_ageing writer then writer.depth8 - 1 else writer.depth8;
    }
unfolding tt_save
tt_save-declined g writer k v pv b d m ev inexact same shallow young small =
    rw (declined g writer (u16 k) pv b d inexact same shallow young) (
      rw (deep writer) (
        rw (decisive writer.value16) (elim (Bool-cases (is_ageing writer)) [
          | inr a ↦ rw a (saved_move writer k m)
          | inl a ↦
              let same_move = saved_move writer k m in
              let less = depth_less_one writer.depth8 (ground (arith, a)) small in
              rw a (
                ap (with_depth (depth_saturating_sub writer.depth8 (pos 1))) same_move
                ∙ ap (λ n. with_depth n (record writer { move16 = kept_move writer k m })) less)
        ])))
