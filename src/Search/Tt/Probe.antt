-- ===== src/Search/Tt/Probe.antt =====
-- src/engine/search/tt.c: what a probe returns, on a hit and on a miss.
use fcfish.Base.{
  ℕ, zero, suc, ◌+◌, ◌-◌, ◌*◌, ◌^◌, ◌≤◌, ◌<◌, ◌≡◌, refl, ◌≢◌, ap, false, not, ◌==◌, arith,
  Bool-cases, inl, inr, [], ◌∷◌, length, get_or, Option, none, some, if◌then◌else◌,
}
use fcfish.Base.Int.{ℤ, ◌≤ℤ◌, ltb_ℤ}
use fcfish.Base.Words.{u16}
use fcfish.Search.Tt.Entry.{TtEntry, zero_entry, tt_entry_read, tt_empty_data}
use fcfish.Search.Tt.Table.{
  TranspositionTable, TtCluster, Slot, TtProbeResult, cluster_at, entry_at, tt_mul_hi64, find_key,
  worth, least_valuable, probe_result, replace_index, tt_probe,
}

-- A table that `tt_resize` or the fallback set up: one cluster of three entries for each count.
pub record IsTable (tab : TranspositionTable) : Type 0 where
  pub sized : length tab.table ≡ tab.cluster_count
  pub nonempty : 0 < tab.cluster_count
  pub full : (c : ℕ) → c < tab.cluster_count → length (cluster_at tab c) ≡ 3
  pub generation : tab.generation8 < 32

mul_below : (key n : ℕ) → key < 2 ^ 64 → key * n ≤ (2 ^ 64 - 1) * n
mul_below key n h = grind arith

-- The cluster that a key maps onto lies in the table.
pub hi64-lt : (key n : ℕ) → key < 2 ^ 64 → 0 < n → tt_mul_hi64 key n < n
unfolding tt_mul_hi64
hi64-lt key n h p = omega (arith, mul_below key n h)

-- Entry `k` is the first that has the key.
abbrev pub First : ℕ → TtCluster → ℕ → Type 0
First key16 es k =
    (k < length es)
    × ((get_or es k zero_entry).key16 ≡ key16)
    × ((j : ℕ) → j < k → (get_or es j zero_entry).key16 ≢ key16)

abbrev pub Absent : ℕ → TtCluster → Type 0
Absent key16 es = (j : ℕ) → j < length es → (get_or es j zero_entry).key16 ≢ key16

abbrev Finds : ℕ → ℕ → TtCluster → Option ℕ → Type 0
Finds key16 i es none = Absent key16 es
Finds key16 i es (some r) = (k : ℕ) × (r ≡ i + k) × First key16 es k

Finds-cons :
    (key16 i : ℕ) (e : TtEntry) (es : TtCluster) (o : Option ℕ)
    → e.key16 ≢ key16
    → Finds key16 (i + 1) es o
    → Finds key16 i (e ∷ es) o
Finds-cons key16 i e es none ne f = λ j p. differs j p
  where
    differs : (j : ℕ) → j < suc (length es) → (get_or (e ∷ es) j zero_entry).key16 ≢ key16
    differs zero p = ne
    differs (suc j) p = f j (omega arith)
Finds-cons key16 i e es (some r) ne (k, at, (inside, same, first)) =
    (suc k, omega arith, (omega arith, same, before))
  where
    before : (j : ℕ) → j < suc k → (get_or (e ∷ es) j zero_entry).key16 ≢ key16
    before zero p = ne
    before (suc j) p = first j (omega arith)

find_key-Finds : (key16 i : ℕ) (es : TtCluster) → Finds key16 i es (find_key key16 i es)
unfolding find_key
find_key-Finds key16 i [] = λ j p. absurd (omega arith)
find_key-Finds key16 i (e ∷ es) = elim (Bool-cases (e.key16 == key16)) [
  | inl same ↦ rw same (0, omega arith, (omega arith, ground arith, λ j p. absurd (omega arith)))
  | inr ne ↦ rw ne (
      Finds-cons key16 i e es (find_key key16 (i + 1) es) (ground arith)
        (find_key-Finds key16 (i + 1) es))
]

abbrev pub IsLeast : ℕ → TtCluster → ℕ → Type 0
IsLeast g es r =
    (r < 3)
    × ((j : ℕ) → j < 3 → worth g (get_or es r zero_entry) ≤ℤ worth g (get_or es j zero_entry))

IsLeast-three :
    (g r : ℕ) (e0 e1 e2 : TtEntry) (w : ℤ)
    → r < 3
    → worth g (get_or (e0 ∷ e1 ∷ e2 ∷ []) r zero_entry) ≡ w
    → w ≤ℤ worth g e0
    → w ≤ℤ worth g e1
    → w ≤ℤ worth g e2
    → IsLeast g (e0 ∷ e1 ∷ e2 ∷ []) r
IsLeast-three g r e0 e1 e2 w small e h0 h1 h2 = (small, λ j p. rw e (at j p))
  where
    at : (j : ℕ) → j < 3 → w ≤ℤ worth g (get_or (e0 ∷ e1 ∷ e2 ∷ []) j zero_entry)
    at zero p = h0
    at (suc zero) p = h1
    at (suc (suc zero)) p = h2
    at (suc (suc (suc j))) p = absurd (omega arith)

-- The second comparison, between the last entry and the lesser of the first two.
last_step :
    (g r : ℕ) (e0 e1 e2 best : TtEntry)
    → r < 2
    → get_or (e0 ∷ e1 ∷ e2 ∷ []) r zero_entry ≡ best
    → worth g best ≤ℤ worth g e0
    → worth g best ≤ℤ worth g e1
    → IsLeast g (e0 ∷ e1 ∷ e2 ∷ []) (if ltb_ℤ (worth g e2) (worth g best) then 2 else r)
last_step g r e0 e1 e2 best small at h0 h1 = elim (Bool-cases (ltb_ℤ (worth g e2) (worth g best))) [
  | inl t ↦ rw t (
      IsLeast-three g 2 e0 e1 e2 (worth g e2) (omega arith) refl (ground arith) (ground arith)
        (ground arith))
  | inr t ↦ rw t (
      IsLeast-three g r e0 e1 e2 (worth g best) (omega arith) (ap (worth g) at) h0 h1
        (ground arith))
]

-- Among the three entries none is worth less than the one that is replaced.
replace_index-IsLeast :
    (g : ℕ) (e0 e1 e2 : TtEntry)
    → IsLeast g (e0 ∷ e1 ∷ e2 ∷ []) (replace_index g (e0 ∷ e1 ∷ e2 ∷ []))
unfolding least_valuable
replace_index-IsLeast g e0 e1 e2 = elim (Bool-cases (ltb_ℤ (worth g e1) (worth g e0))) [
  | inl t ↦ rw t (last_step g 1 e0 e1 e2 e1 (omega arith) refl (ground arith) (omega arith))
  | inr t ↦ rw t (last_step g 0 e0 e1 e2 e0 (omega arith) refl (omega arith) (ground arith))
]

cluster-IsLeast : (g : ℕ) (es : TtCluster) → length es ≡ 3 → IsLeast g es (replace_index g es)
cluster-IsLeast g [] h = absurd (omega arith)
cluster-IsLeast g (e0 ∷ []) h = absurd (omega arith)
cluster-IsLeast g (e0 ∷ e1 ∷ []) h = absurd (omega arith)
cluster-IsLeast g (e0 ∷ e1 ∷ e2 ∷ []) h = replace_index-IsLeast g e0 e1 e2
cluster-IsLeast g (e0 ∷ e1 ∷ e2 ∷ e3 ∷ es) h = absurd (omega arith)

-- A probe that found the first entry with the key, and one that found none and chose the entry worth
-- least.
pub data Outcome (tab : TranspositionTable) (key16 : ℕ) (r : TtProbeResult) : Type 0 where
  hit :
      First key16 (cluster_at tab r.writer.cluster) r.writer.index
      → r.found ≡ not ((entry_at tab r.writer).depth8 == 0)
      → r.result ≡ tt_entry_read (entry_at tab r.writer) (entry_at tab r.writer).depth8
      → Outcome tab key16 r
  miss :
      Absent key16 (cluster_at tab r.writer.cluster)
      → IsLeast tab.generation8 (cluster_at tab r.writer.cluster) r.writer.index
      → r.found ≡ false
      → r.result ≡ tt_empty_data
      → Outcome tab key16 r

abbrev pub InTable : TranspositionTable → Slot → Type 0
InTable tab s = (s.cluster < tab.cluster_count) × (s.index < 3)

probe_result-Outcome :
    (tab : TranspositionTable) (key16 c : ℕ) (o : Option ℕ)
    → length (cluster_at tab c) ≡ 3
    → Finds key16 0 (cluster_at tab c) o
    → ((probe_result tab c o).writer.index < 3) × Outcome tab key16 (probe_result tab c o)
unfolding probe_result
probe_result-Outcome tab key16 c none full f =
    let least = cluster-IsLeast tab.generation8 (cluster_at tab c) full in
    (least.0, miss f least refl refl)
probe_result-Outcome tab key16 c (some i) full (k, at, first) =
    let e : i ≡ k = omega (arith, at) in
    let here : First key16 (cluster_at tab c) i = rw e first in
    (omega (arith, here.0), hit here refl refl)

probe_result-cluster :
    (tab : TranspositionTable) (c : ℕ) (o : Option ℕ) → (probe_result tab c o).writer.cluster ≡ c
unfolding probe_result
probe_result-cluster tab c none = refl
probe_result-cluster tab c (some i) = refl

-- On a table as set up, a probe for any 64-bit key returns a writer inside the table, in the cluster
-- that the key maps onto. It found the first entry of that cluster with the key's low 16 bits and
-- reports what the entry holds, as found exactly if it is occupied; or no entry has the key, and it
-- reports the empty data and an entry of the cluster that no other is worth less than.
pub tt_probe-Outcome :
    (tab : TranspositionTable) (key : ℕ)
    → IsTable tab
    → key < 2 ^ 64
    → InTable tab (tt_probe tab key).writer
      × ((tt_probe tab key).writer.cluster ≡ tt_mul_hi64 key tab.cluster_count)
      × Outcome tab (u16 key) (tt_probe tab key)
unfolding tt_probe
tt_probe-Outcome tab key h small =
    let c = tt_mul_hi64 key tab.cluster_count in
    let o = find_key (u16 key) 0 (cluster_at tab c) in
    let c-lt : c < tab.cluster_count = hi64-lt key tab.cluster_count small h.nonempty in
    let (index-lt, outcome) =
      probe_result-Outcome tab (u16 key) c o (h.full c c-lt)
        (find_key-Finds (u16 key) 0 (cluster_at tab c)) in
    let same = probe_result-cluster tab c o in ((rw same c-lt, index-lt), same, outcome)
