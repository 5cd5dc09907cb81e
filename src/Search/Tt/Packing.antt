-- ===== src/Search/Tt/Packing.antt =====
-- src/engine/search/tt.h: the packed byte of an entry, the ages, and the stored mate scores.
use fcfish.Base.{
  ℕ, zero, suc, ◌+◌, ◌-◌, ◌*◌, ◌/◌, ◌%◌, ◌^◌, ◌≤◌, ◌<◌, ◌≡◌, refl, ◌∙◌, Bool, true, false, ◌==◌,
  ◌&&◌, arith, bit_and, passes, passes_lem, ==_iff,
}
use mathlib.Core.Path.{ap₂}
use fcfish.Base.Int.{ℤ, pos, negsuc, ◌+ℤ◌, ◌-ℤ◌, abs_ℕ}
use fcfish.Base.Words.{u32}
use fcfish.Base.Bits.{bit_and_mask}
use fcfish.Search.Tt.Entry.{
  Bound, bound_none, bound_upper, bound_lower, bound_exact, bound_code, tt_bound_mask, tt_pv_mask,
  bool_code, pack_gen_bound, TtEntry, tt_entry_relative_age, tt_entry_read, value_to_tt,
  value_from_tt,
}
use fcfish.Search.Tt.Table.{TranspositionTable, tt_new_search, tt_mul_hi64, tt_mul_hi64_schoolbook}

abbrev packs_as_sum : Bound → Bool → ℕ → Bool
packs_as_sum b pv g = pack_gen_bound g b pv == bool_code pv * 128 + bound_code b * 32 + g

packs_all : (b : Bound) (pv : Bool) → passes (packs_as_sum b pv) 32 ≡ true
unfolding passes pack_gen_bound
packs_all bound_none true = refl
packs_all bound_none false = refl
packs_all bound_upper true = refl
packs_all bound_upper false = refl
packs_all bound_lower true = refl
packs_all bound_lower false = refl
packs_all bound_exact true = refl
packs_all bound_exact false = refl

-- The packed byte as a sum.
pub pack_sum :
    (g : ℕ) (b : Bound) (pv : Bool)
    → g < 32
    → pack_gen_bound g b pv ≡ bool_code pv * 128 + bound_code b * 32 + g
pack_sum g b pv h = (==_iff _ _).0 (passes_lem (packs_as_sum b pv) 32 g h (packs_all b pv))

fields_of_byte : ℕ → Bool
fields_of_byte x =
    bit_and x tt_bound_mask / 32 == x / 32 % 4 && bit_and x tt_pv_mask == x / 128 * 128

fields_of_bytes : passes fields_of_byte 256 ≡ true
unfolding passes fields_of_byte
fields_of_bytes = refl

-- The bound and is-PV fields of a byte.
pub byte_fields :
    (x : ℕ)
    → x < 256
    → (bit_and x tt_bound_mask / 32 ≡ x / 32 % 4) × (bit_and x tt_pv_mask ≡ x / 128 * 128)
unfolding fields_of_byte
byte_fields x h = ground (arith, passes_lem fields_of_byte 256 x h fields_of_bytes)

pub age_lem :
    (e : TtEntry) (g : ℕ)
    → e.gen_bound8 < 256
    → g < 32
    → tt_entry_relative_age e g ≡ (g + 32 - e.gen_bound8 % 32) % 32
unfolding tt_entry_relative_age
age_lem e g h k = omega (arith, bit_and_mask 5 (u32 (g + 2 ^ 32 - e.gen_bound8)))

-- What a save packs, a read unpacks: for a generation below 32 the bound and the is-PV flag come
-- back, and the entry's age is 0 at that generation.
pub pack_gen_bound_fields :
    (e : TtEntry) (g : ℕ) (b : Bound) (pv : Bool)
    → g < 32
    → e.gen_bound8 ≡ pack_gen_bound g b pv
    → ((tt_entry_read e e.depth8).bound ≡ b)
      × ((tt_entry_read e e.depth8).is_pv ≡ pv)
      × (tt_entry_relative_age e g ≡ 0)
unfolding tt_entry_read
pack_gen_bound_fields e g b pv h k =
    let fits : e.gen_bound8 < 256 = ground (arith, pack_sum g b pv h) in
    ground (arith, pack_sum g b pv h, byte_fields e.gen_bound8 fits, age_lem e g fits h)

-- The table after `n` further root searches.
pub searches : ℕ → TranspositionTable → TranspositionTable
searches zero tab = tab
searches (suc n) tab = tt_new_search (searches n tab)

searches-generation :
    (n : ℕ) (tab : TranspositionTable)
    → tab.generation8 < 32
    → (searches n tab).generation8 ≡ (tab.generation8 + n) % 32
unfolding searches tt_new_search
searches-generation zero tab h = omega arith
searches-generation (suc n) tab h =
    omega
      (arith, searches-generation n tab h, bit_and_mask 5 (u32 ((searches n tab).generation8 + 1)))

-- An entry that was packed at the table's generation, below 32, has age `n` modulo 32 after `n`
-- further searches, whatever its bound and flag.
searches-relative_age :
    (n : ℕ) (tab : TranspositionTable) (e : TtEntry) (b : Bound) (pv : Bool)
    → tab.generation8 < 32
    → e.gen_bound8 ≡ pack_gen_bound tab.generation8 b pv
    → tt_entry_relative_age e (searches n tab).generation8 ≡ n % 32
searches-relative_age n tab e b pv h k =
    let g = (searches n tab).generation8 in
    let fits : e.gen_bound8 < 256 = ground (arith, pack_sum tab.generation8 b pv h) in
    ground (
      arith,
      pack_sum tab.generation8 b pv h,
      searches-generation n tab h,
      age_lem e g fits (omega (arith, searches-generation n tab h)),
    )

-- A score with `|v| + ply` at most 32000, which a mate score of a node at that ply has, survives
-- the way into the table and back at the same ply.
pub value_from_tt-value_to_tt :
    (v : ℤ) (ply : ℕ)
    → abs_ℕ v + ply ≤ 32000
    → value_from_tt (value_to_tt v (pos ply)) (pos ply) ≡ v
unfolding value_from_tt value_to_tt ◌+ℤ◌ ◌-ℤ◌
value_from_tt-value_to_tt (pos n) ply h = ground arith
value_from_tt-value_to_tt (negsuc n) ply h = ground arith

half-mul-half : (x y : ℕ) → x < 2 ^ 32 → y < 2 ^ 32 → x * y ≤ (2 ^ 32 - 1) * (2 ^ 32 - 1)
half-mul-half x y p q = grind arith

product_of_halves :
    (ah al bh bl : ℕ)
    → (ah * 2 ^ 32 + al) * (bh * 2 ^ 32 + bl)
      ≡ ah * bh * 2 ^ 64 + (al * bh + ah * bl) * 2 ^ 32 + al * bl
product_of_halves ah al bh bl = omega arith

halves : (a : ℕ) → a ≡ a / 2 ^ 32 * 2 ^ 32 + a % 2 ^ 32
halves a = omega arith

-- The product of two words, by their halves.
mul-halves :
    (a b : ℕ)
    → a * b
      ≡ a / 2 ^ 32 * (b / 2 ^ 32) * 2 ^ 64
        + (a % 2 ^ 32 * (b / 2 ^ 32) + a / 2 ^ 32 * (b % 2 ^ 32)) * 2 ^ 32
        + a % 2 ^ 32 * (b % 2 ^ 32)
mul-halves a b =
    ap₂ ◌*◌ (halves a) (halves b)
    ∙ product_of_halves (a / 2 ^ 32) (a % 2 ^ 32) (b / 2 ^ 32) (b % 2 ^ 32)

-- The analyser's arm computes the high word of the product, for all 64-bit operands.
pub tt_mul_hi64_schoolbook-eq :
    (a b : ℕ) → a < 2 ^ 64 → b < 2 ^ 64 → tt_mul_hi64_schoolbook a b ≡ tt_mul_hi64 a b
unfolding tt_mul_hi64_schoolbook tt_mul_hi64
tt_mul_hi64_schoolbook-eq a b h k = omega (
  arith,
  mul-halves a b,
  half-mul-half (a % 2 ^ 32) (b % 2 ^ 32) (omega arith) (omega arith),
  half-mul-half (a % 2 ^ 32) (b / 2 ^ 32) (omega arith) (omega arith),
  half-mul-half (a / 2 ^ 32) (b % 2 ^ 32) (omega arith) (omega arith),
  half-mul-half (a / 2 ^ 32) (b / 2 ^ 32) (omega arith) (omega arith),
)
