-- ===== src/Search/Tt/Table.antt =====
-- src/engine/search/tt.h, tt.c: the table of clusters. A `TTEntry *` is a `Slot`, the cluster's index
-- and the entry's index in it; the fallback cluster stands in `table` while nothing is allocated.
use fcfish.Base.{
  ℕ, ◌+◌, ◌*◌, ◌/◌, Bool, false, not, ◌&&◌, ◌==◌, ltb, if◌then◌else◌, List, [], ◌∷◌, get_or, set,
  replicate, take, bit_and, Option, none, some,
}
use fcfish.Base.Int.{ℤ, pos, ◌-ℤ◌, ltb_ℤ, leb_ℤ}
use fcfish.Base.Words.{u8, u16, u32, u64, ◌>>◌}
use fcfish.Search.Tt.Entry.{
  TtEntry, TtData, Bound, zero_entry, tt_empty_data, tt_generation_mask, tt_entry_relative_age,
  tt_entry_is_occupied, tt_entry_read, tt_save, tt_penalize,
}

abbrev pub tt_cluster_size : ℕ
tt_cluster_size = 3

-- The entries of one cluster; the two bytes of padding are never read.
abbrev pub TtCluster : Type 0
TtCluster = List TtEntry

abbrev pub zero_cluster : TtCluster
zero_cluster = replicate tt_cluster_size zero_entry

pub record TranspositionTable : Type 0 where
  pub cluster_count : ℕ
  pub table : List TtCluster
  pub generation8 : ℕ

pub record Slot : Type 0 where
  pub cluster : ℕ
  pub index : ℕ

pub record TtProbeResult : Type 0 where
  pub found : Bool
  pub result : TtData
  pub writer : Slot

-- The high word of the 128-bit product.
unfoldable pub tt_mul_hi64 : ℕ → ℕ → ℕ
tt_mul_hi64 a b = u64 ((a * b) >> 64)

-- The arm for the analyser: 32-bit halves, and 64-bit products and sums.
unfoldable pub tt_mul_hi64_schoolbook : ℕ → ℕ → ℕ
tt_mul_hi64_schoolbook a b =
    let a_lo = u32 a in
    let a_hi = a >> 32 in
    let b_lo = u32 b in
    let b_hi = b >> 32 in
    let lo_lo = u64 (a_lo * b_lo) in
    let lo_hi = u64 (a_lo * b_hi) in
    let hi_lo = u64 (a_hi * b_lo) in
    let hi_hi = u64 (a_hi * b_hi) in
    let carry = u64 ((lo_lo >> 32) + u32 lo_hi + u32 hi_lo) in
    u64 (hi_hi + (lo_hi >> 32) + (hi_lo >> 32) + (carry >> 32))

abbrev pub cluster_at : TranspositionTable → ℕ → TtCluster
cluster_at tab c = get_or tab.table c zero_cluster

-- What a writer points at, and the store through it.
abbrev pub entry_at : TranspositionTable → Slot → TtEntry
entry_at tab s = get_or (cluster_at tab s.cluster) s.index zero_entry

abbrev pub store_at : TranspositionTable → Slot → TtEntry → TranspositionTable
store_at tab s e = record tab {
  table = set tab.table s.cluster (set (cluster_at tab s.cluster) s.index e);
}

-- The first loop of `tt_probe`: the index of the first entry with the key, counted from `i`.
unfoldable pub find_key : ℕ → ℕ → TtCluster → Option ℕ
find_key key16 i [] = none
find_key key16 i (e ∷ es) = if e.key16 == key16 then some i else find_key key16 (i + 1) es

-- What an entry is worth: its depth less eight times its relative age.
unfoldable pub worth : ℕ → TtEntry → ℤ
unfolding ◌-ℤ◌
worth generation8 e = pos e.depth8 -ℤ pos (8 * tt_entry_relative_age e generation8)

-- The second loop, from index `i` on, with the entry to replace so far and its index.
unfoldable pub least_valuable : ℕ → TtEntry → ℕ → ℕ → TtCluster → ℕ
unfolding worth
least_valuable generation8 replace r i [] = r
least_valuable generation8 replace r i (e ∷ es) =
    let better = ltb_ℤ (worth generation8 e) (worth generation8 replace) in
    least_valuable generation8 (if better then e else replace) (if better then i else r) (i + 1) es

abbrev pub replace_index : ℕ → TtCluster → ℕ
replace_index generation8 [] = 0
replace_index generation8 (e ∷ es) = least_valuable generation8 e 0 1 es

-- What the probe returns for the entry found in cluster `c`, or for none.
unfoldable pub probe_result : TranspositionTable → ℕ → Option ℕ → TtProbeResult
probe_result tab c (some i) =
    let e = entry_at tab (record { cluster = c; index = i }) in
    record {
      found = not (e.depth8 == 0);
      result = tt_entry_read e e.depth8;
      writer = record { cluster = c; index = i };
    }
probe_result tab c none = record {
  found = false;
  result = tt_empty_data;
  writer = record { cluster = c; index = replace_index tab.generation8 (cluster_at tab c) };
}

unfoldable pub tt_probe : TranspositionTable → ℕ → TtProbeResult
unfolding tt_mul_hi64 find_key least_valuable probe_result
tt_probe tab key =
    let c = tt_mul_hi64 key tab.cluster_count in
    probe_result tab c (find_key (u16 key) 0 (cluster_at tab c))

-- `tt_save` and `tt_penalize` through a writer into the table.
unfoldable pub table_save :
    TranspositionTable → Slot → ℕ → ℤ → Bool → Bound → ℤ → ℕ → ℤ → TranspositionTable
table_save tab writer k v pv b d m ev =
    store_at tab writer (tt_save tab.generation8 (entry_at tab writer) k v pv b d m ev)

unfoldable pub table_penalize : TranspositionTable → Slot → ℤ → TranspositionTable
table_penalize tab writer penalty = store_at tab writer (tt_penalize (entry_at tab writer) penalty)

unfoldable pub tt_new_search : TranspositionTable → TranspositionTable
tt_new_search tab = record tab {
  generation8 = u8 (bit_and (u32 (tab.generation8 + 1)) tt_generation_mask);
}

-- The two loops of `tt_hashfull`.
unfoldable pub count_fresh : ℕ → ℤ → TtCluster → ℕ
count_fresh generation8 max_age [] = 0
count_fresh generation8 max_age (e ∷ es) =
    (if tt_entry_is_occupied e && leb_ℤ (pos (tt_entry_relative_age e generation8)) max_age
      then 1
      else 0)
    + count_fresh generation8 max_age es

unfoldable pub count_clusters : ℕ → ℤ → List TtCluster → ℕ
unfolding count_fresh
count_clusters generation8 max_age [] = 0
count_clusters generation8 max_age (c ∷ cs) =
    count_fresh generation8 max_age c + count_clusters generation8 max_age cs

unfoldable pub tt_hashfull : TranspositionTable → ℤ → ℕ
unfolding count_clusters
tt_hashfull tab max_age =
    let limit = if ltb tab.cluster_count 1000 then tab.cluster_count else 1000 in
    count_clusters tab.generation8 max_age (take limit tab.table) / tt_cluster_size
