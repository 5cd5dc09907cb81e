-- ===== src/Search/Tt/Entry.antt =====
-- src/engine/search/tt.h, tt.c: one entry of the table, how it is packed, read and written.
use fcfish.Base.{
  ℕ, ◌+◌, ◌-◌, ◌*◌, ◌^◌, Bool, true, false, not, ◌&&◌, ◌||◌, ◌==◌, ltb, if◌then◌else◌, bit_and,
  bit_or,
}
use fcfish.Base.Int.{ℤ, pos, negsuc, ◌+ℤ◌, ◌-ℤ◌, ltb_ℤ, leb_ℤ, abs_ℕ}
use fcfish.Base.Words.{u8, u16, u32, wrap, to_i16, ◌<<◌, ◌>>◌}
use fcfish.Board.Types.{
  move_none, value_none, value_infinite, value_mate_in_max_ply, value_mated_in_max_ply,
}
use fcfish.Board.Score.{value_is_decisive}

pub data Bound : Type 0 where
  bound_none bound_upper bound_lower bound_exact : Bound

-- The enumerator's value, and the cast back from two bits.
abbrev pub bound_code : Bound → ℕ
bound_code bound_none = 0
bound_code bound_upper = 1
bound_code bound_lower = 2
bound_code bound_exact = 3

abbrev pub bound_of : ℕ → Bound
bound_of n =
    if n == 0
    then bound_none
    else if n == 1
    then bound_upper
    else if n == 2
    then bound_lower
    else bound_exact

abbrev pub is_exact : Bound → Bool
is_exact b = bound_code b == 3

-- The mask is the LOWER atom for a fail-high, the UPPER one for a fail-low.
unfoldable pub bound_covers : Bound → Bool → Bool
bound_covers b fail_high = not (bit_and (bound_code b) (if fail_high then 2 else 1) == 0)

-- DEPTH_ENTRY_OFFSET is -3.
abbrev pub depth_entry_offset : ℤ
depth_entry_offset = negsuc 2

-- The unsigned fields hold their values, the two `int16_t` fields the integer they stand for.
pub record TtEntry : Type 0 where
  pub key16 : ℕ
  pub depth8 : ℕ
  pub gen_bound8 : ℕ
  pub move16 : ℕ
  pub value16 : ℤ
  pub eval16 : ℤ

-- What `memset` to zero leaves.
abbrev pub zero_entry : TtEntry
zero_entry = record {
  key16 = 0;
  depth8 = 0;
  gen_bound8 = 0;
  move16 = 0;
  value16 = pos 0;
  eval16 = pos 0;
}

pub record TtData : Type 0 where
  pub move : ℕ
  pub value : ℤ
  pub eval : ℤ
  pub depth : ℤ
  pub bound : Bound
  pub is_pv : Bool

abbrev pub tt_generation_mask : ℕ
tt_generation_mask = 31

abbrev pub tt_bound_mask : ℕ
tt_bound_mask = 96

abbrev pub tt_pv_mask : ℕ
tt_pv_mask = 128

-- The unsigned 32-bit difference borrows; the mask keeps the five generation bits.
unfoldable pub tt_entry_relative_age : TtEntry → ℕ → ℕ
tt_entry_relative_age entry curr_generation =
    u8 (bit_and (u32 (curr_generation + 2 ^ 32 - entry.gen_bound8)) tt_generation_mask)

unfoldable pub tt_entry_is_occupied : TtEntry → Bool
tt_entry_is_occupied entry = not (entry.depth8 == 0)

abbrev pub bound_field : ℕ → Bound
bound_field gen_bound8 = bound_of (bit_and gen_bound8 tt_bound_mask >> 5)

unfoldable pub tt_entry_read : TtEntry → ℕ → TtData
unfolding ◌+ℤ◌
tt_entry_read entry depth8 = record {
  move = entry.move16;
  value = entry.value16;
  eval = entry.eval16;
  depth = depth_entry_offset +ℤ pos depth8;
  bound = bound_field entry.gen_bound8;
  is_pv = not (bit_and entry.gen_bound8 tt_pv_mask == 0);
}

abbrev pub tt_empty_data : TtData
tt_empty_data = record {
  move = move_none;
  value = value_none;
  eval = value_none;
  depth = depth_entry_offset;
  bound = bound_none;
  is_pv = false;
}

-- The subtraction in `int32_t` of a number that may be negative, and the cast of the result.
unfoldable pub depth_saturating_sub : ℕ → ℤ → ℕ
unfolding ◌-ℤ◌
depth_saturating_sub depth8 n =
    let d = pos depth8 -ℤ n in if ltb_ℤ (pos 0) d then wrap (2 ^ 8) d else 0

abbrev pub bool_code : Bool → ℕ
bool_code true = 1
bool_code false = 0

-- gen | b << 5 | pv << 7, cast to a byte.
unfoldable pub pack_gen_bound : ℕ → Bound → Bool → ℕ
pack_gen_bound generation8 b pv =
    u8 (bit_or (bit_or generation8 (bound_code b << 5)) (bool_code pv << 7))

-- The test of the first branch of `tt_save`.
unfoldable pub overwrites : ℕ → TtEntry → ℕ → Bool → Bound → ℤ → Bool
unfolding ◌-ℤ◌ ◌+ℤ◌
overwrites generation8 writer key16 pv b d =
    is_exact b
    || not (key16 == writer.key16)
    || ltb_ℤ (pos writer.depth8 -ℤ pos 4) (d -ℤ depth_entry_offset +ℤ pos (2 * bool_code pv))
    || not (tt_entry_relative_age writer generation8 == 0)

-- The test of the second branch: a deep entry that is not exact.
unfoldable pub ages : TtEntry → Bool
unfolding ◌+ℤ◌
ages writer =
    leb_ℤ (pos 5) (pos writer.depth8 +ℤ depth_entry_offset)
    && not (is_exact (bound_field writer.gen_bound8))

unfoldable pub tt_save : ℕ → TtEntry → ℕ → ℤ → Bool → Bound → ℤ → ℕ → ℤ → TtEntry
tt_save generation8 writer k v pv b d m ev =
    let key16 = u16 k in
    let w =
      if not (m == move_none) || not (key16 == writer.key16)
      then record writer { move16 = m }
      else writer in
    if overwrites generation8 writer key16 pv b d
    then record w {
      key16 = key16;
      depth8 = wrap (2 ^ 8) (d -ℤ depth_entry_offset);
      gen_bound8 = pack_gen_bound generation8 b pv;
      value16 = to_i16 v;
      eval16 = to_i16 ev;
    }
    else if ages writer
        && ltb (abs_ℕ writer.value16) (abs_ℕ value_infinite)
        && value_is_decisive writer.value16
    then record w { depth8 = depth_saturating_sub writer.depth8 (pos 1) }
    else w

unfoldable pub tt_penalize : TtEntry → ℤ → TtEntry
unfolding depth_saturating_sub
tt_penalize writer penalty = record writer { depth8 = depth_saturating_sub writer.depth8 penalty }

-- A mate score is stored relative to its node, hence rebased on both ways.
unfoldable pub value_to_tt : ℤ → ℤ → ℤ
unfolding ◌+ℤ◌ ◌-ℤ◌
value_to_tt v ply =
    if leb_ℤ value_mate_in_max_ply v
    then v +ℤ ply
    else if leb_ℤ v value_mated_in_max_ply
    then v -ℤ ply
    else v

unfoldable pub value_from_tt : ℤ → ℤ → ℤ
unfolding ◌+ℤ◌ ◌-ℤ◌
value_from_tt v ply =
    if leb_ℤ v value_none && leb_ℤ value_none v
    then value_none
    else if leb_ℤ value_mate_in_max_ply v
    then v -ℤ ply
    else if leb_ℤ v value_mated_in_max_ply
    then v +ℤ ply
    else v
