-- ===== src/Platform/Numa/Parse.antt =====
-- src/platform/numa.c: reading a topology such as `0-3,8:4-7`, a text as its character codes.
pub mod Uint
pub mod Nodes
pub mod Read
use fcfish.Base.{
  ℕ, zero, suc, ◌+◌, ◌-◌, ◌*◌, ◌/◌, ◌^◌, ◌%◌, Bool, true, false, ltb, leb, ◌==◌, if◌then◌else◌,
  List, [], ◌∷◌, length, Option, none, some,
}
use mathlib.Core.Option
use fcfish.Base.Words.{u64}
use fcfish.Platform.Numa.{NumaConfig, NumaAddStatus, numa_config_init, numa_config_add_cpu_to_node}

-- (size_t) -1.
abbrev pub size_max : ℕ
size_max = 2 ^ 64 - 1

-- ' ', and '\t' to '\r'.
unfoldable pub is_space : ℕ → Bool
is_space c = if c == 32 then true else (if leb 9 c then leb c 13 else false)

unfoldable pub is_digit : ℕ → Bool
is_digit c = if leb 48 c then leb c 57 else false

unfoldable pub skip_space : List ℕ → List ℕ
skip_space [] = []
skip_space (c ∷ s) = if is_space c then skip_space s else c ∷ s

unfoldable pub all_space : List ℕ → Bool
all_space [] = true
all_space (c ∷ s) = if is_space c then all_space s else false

-- The value of the digits in front and what follows them; none where it passes SIZE_MAX.
unfoldable pub read_digits : ℕ → List ℕ → Option (ℕ × List ℕ)
read_digits value [] = some (value, [])
read_digits value (c ∷ s) =
    let rest = read_digits (value * 10 + (c - 48)) s in
    if is_digit c
    then (if ltb ((size_max - (c - 48)) / 10) value then none else rest)
    else some (value, c ∷ s)

-- Without a digit, the test of the tail starts at the first character.
unfoldable pub accept_tail : List ℕ → List ℕ → Option (ℕ × List ℕ) → Option ℕ
accept_tail s t none = none
accept_tail s t (some r) =
    if all_space (if length r.1 == length t then s else r.1) then some r.0 else none

unfoldable pub parse_uint : List ℕ → Option ℕ
parse_uint s = let t = skip_space s in accept_tail s t (read_digits 0 t)

-- memchr for '-': what is before it and after it.
unfoldable pub split_dash : List ℕ → Option (List ℕ × List ℕ)
split_dash [] = none
split_dash (c ∷ s) =
    let rest = Option.map (λ p. (c ∷ p.0, p.1)) (split_dash s) in
    if c == 45 then some ([], s) else rest

abbrev pub numa_max_range_indices : ℕ
numa_max_range_indices = 2 ^ 20

unfoldable pub cap_range : Option ℕ → Option ℕ → Option (ℕ × ℕ)
cap_range none hi = none
cap_range (some lo) none = none
cap_range (some lo) (some hi) =
    if ltb (u64 (hi + 2 ^ 64 - lo)) numa_max_range_indices then some (lo, hi) else none

unfoldable pub parse_range : List ℕ → List ℕ → Option (List ℕ × List ℕ) → Option (ℕ × ℕ)
parse_range head tail none = cap_range (parse_uint head) (parse_uint tail)
parse_range head tail (some third) = none

unfoldable pub parse_split : List ℕ → Option (List ℕ × List ℕ) → Option (ℕ × ℕ)
parse_split s none = Option.map (λ lo. (lo, lo)) (parse_uint s)
parse_split s (some parts) = parse_range parts.0 parts.1 (split_dash parts.1)

unfoldable pub parse_element : List ℕ → Option (ℕ × ℕ)
parse_element s = parse_split s (split_dash s)

abbrev pub in_front : ℕ → List (List ℕ) → List (List ℕ)
in_front c [] = (c ∷ []) ∷ []
in_front c (p ∷ ps) = (c ∷ p) ∷ ps

-- The segments that the walks cut at a separator, the last one ended by the end of the text.
unfoldable pub split_on : ℕ → List ℕ → List (List ℕ)
split_on sep [] = [] ∷ []
split_on sep (c ∷ s) = if c == sep then [] ∷ split_on sep s else in_front c (split_on sep s)

-- A walk: the state of the sink, whether it took an index, and whether all went well.
pub record Walk {ℓ} (S : Type ℓ) : Type ℓ where
  pub state : S
  pub any : Bool
  pub ok : Bool

module _ {ℓ} {S : Type ℓ} (sink : S → ℕ → S × Bool) where
  -- The loop from `index`, for `n` indices.
  unfoldable pub range_loop : ℕ → ℕ → Walk S → Walk S
  range_loop zero index w = w
  range_loop (suc n) index w =
      let r = sink w.state index in
      let rest = range_loop n (index + 1) (record { state = r.0; any = true; ok = true }) in
      if r.1 then rest else record { state = r.0; any = w.any; ok = false }

  unfoldable pub walk_range : Bool → Option (ℕ × ℕ) → Walk S → Walk S
  walk_range strict none w = if strict then record w { ok = false } else w
  walk_range strict (some range) w = range_loop (range.1 + 1 - range.0) range.0 w

  -- The elements in turn, up to the first that fails; an empty one is skipped.
  unfoldable pub walk_elements : Bool → List (List ℕ) → Walk S → Walk S
  walk_elements strict [] w = w
  walk_elements strict (e ∷ es) w =
      let r = if length e == 0 then w else walk_range strict (parse_element e) w in
      let rest = walk_elements strict es r in if r.ok then rest else r

  unfoldable pub for_each_index : Bool → List ℕ → S → Walk S
  for_each_index strict s state =
      walk_elements strict (split_on 44 s) (record { state = state; any = false; ok = true })

module _ (grants : ℕ → Bool) where
  abbrev is_add_ok : NumaAddStatus → Bool
  is_add_ok NumaAddStatus.numa_add_ok = true
  is_add_ok NumaAddStatus.numa_add_conflict = false
  is_add_ok NumaAddStatus.numa_add_oom = false

  unfoldable pub add_sink : ℕ → NumaConfig → ℕ → NumaConfig × Bool
  add_sink node cfg index =
      let r = numa_config_add_cpu_to_node grants cfg node index in (r.0, is_add_ok r.1)

  -- The segments of the nodes; one that names no processor does not count.
  unfoldable pub read_nodes : List (List ℕ) → NumaConfig → ℕ → Option (NumaConfig × ℕ)
  read_nodes [] cfg node = some (cfg, node)
  read_nodes (p ∷ ps) cfg node =
      let w = for_each_index (add_sink node) true p cfg in
      let rest = read_nodes ps w.state (if w.any then node + 1 else node) in
      if w.ok then rest else none

  unfoldable pub custom_config : Option (NumaConfig × ℕ) → Option NumaConfig
  custom_config none = none
  custom_config (some r) = if r.1 == 0 then none else some (record r.0 { custom_affinity = true })

  unfoldable pub numa_config_from_string : List ℕ → Option NumaConfig
  numa_config_from_string s = custom_config (read_nodes (split_on 58 s) numa_config_init 0)
