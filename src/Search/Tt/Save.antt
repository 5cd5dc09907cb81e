-- ===== src/Search/Tt/Save.antt =====
-- src/engine/search/tt.c: `tt_save` and `tt_penalize`, alone and followed by a probe.
use fcfish.Base.{
  ℕ, zero, suc, ◌+◌, ◌-◌, ◌^◌, ◌<◌, ◌≡◌, refl, ◌≢◌, ◌∙◌, ap, sym, Bool, true, not, ◌==◌, ◌&&◌,
  arith, [], ◌∷◌, length, get_or, set, some, if◌then◌else◌, length-set, get_or-set_self,
  get_or-set_ne,
}
use fcfish.Base.Int.{ℤ, pos, negsuc, ◌-ℤ◌, ◌+ℤ◌, ◌≤ℤ◌}
use fcfish.Base.Words.{u16, wrap, to_i16, to_i16_exact}
use fcfish.Board.Types.{move_none}
use fcfish.Search.Tt.Entry.{
  TtEntry, Bound, zero_entry, depth_entry_offset, tt_entry_read, overwrites, pack_gen_bound,
  tt_save, tt_penalize, depth_saturating_sub,
}
use fcfish.Search.Tt.Table.{
  TranspositionTable, TtCluster, Slot, TtProbeResult, cluster_at, entry_at, store_at, tt_mul_hi64,
  find_key, probe_result, tt_probe, table_save,
}
use fcfish.Search.Tt.Packing.{pack_gen_bound_fields}
use fcfish.Search.Tt.Probe.{IsTable, First, Outcome, hit, miss, tt_probe-Outcome}

-- The scores that an `int16_t` holds, and the depths that the biased byte holds above "unoccupied".
abbrev pub IsScore : ℤ → Type 0
IsScore v = (negsuc (2 ^ 15 - 1) ≤ℤ v) × (v ≤ℤ pos (2 ^ 15 - 1))

abbrev pub IsDepth : ℤ → Type 0
IsDepth d = (negsuc 1 ≤ℤ d) × (d ≤ℤ pos 252)

-- The move that a save leaves: the new one, but the old one if there is no new one for the same key.
abbrev pub kept_move : TtEntry → ℕ → ℕ → ℕ
kept_move writer k m = if m == move_none && u16 k == writer.key16 then writer.move16 else m

-- What an overwriting save stores.
abbrev overwritten : ℕ → TtEntry → ℕ → ℤ → Bool → Bound → ℤ → ℕ → ℤ → TtEntry
overwritten g writer k v pv b d m ev = record {
  key16 = u16 k;
  depth8 = wrap (2 ^ 8) (d -ℤ depth_entry_offset);
  gen_bound8 = pack_gen_bound g b pv;
  move16 = kept_move writer k m;
  value16 = to_i16 v;
  eval16 = to_i16 ev;
}

tt_save-overwrites :
    (g : ℕ) (writer : TtEntry) (k : ℕ) (v : ℤ) (pv : Bool) (b : Bound) (d : ℤ) (m : ℕ) (ev : ℤ)
    → overwrites g writer (u16 k) pv b d ≡ true
    → tt_save g writer k v pv b d m ev ≡ overwritten g writer k v pv b d m ev
unfolding tt_save
tt_save-overwrites g writer k v pv b d m ev over = rw over (ground arith)

stored_depth :
    (d : ℤ)
    → IsDepth d
    → (wrap (2 ^ 8) (d -ℤ depth_entry_offset) ≢ 0)
      × (depth_entry_offset +ℤ pos (wrap (2 ^ 8) (d -ℤ depth_entry_offset)) ≡ d)
unfolding ◌-ℤ◌ ◌+ℤ◌
stored_depth (pos n) h = ground arith
stored_depth (negsuc n) h = ground arith

-- A save that overwrites writes an entry that reads as what was saved.
pub tt_save-read :
    (g : ℕ) (writer : TtEntry) (k : ℕ) (v : ℤ) (pv : Bool) (b : Bound) (d : ℤ) (m : ℕ) (ev : ℤ)
    → g < 32
    → overwrites g writer (u16 k) pv b d ≡ true
    → IsScore v
    → IsScore ev
    → IsDepth d
    → let e = tt_save g writer k v pv b d m ev in
      (e.key16 ≡ u16 k)
      × (e.depth8 ≢ 0)
      × (tt_entry_read e e.depth8 ≡ record {
        move = kept_move writer k m;
        value = v;
        eval = ev;
        depth = d;
        bound = b;
        is_pv = pv;
      })
unfolding tt_entry_read
tt_save-read g writer k v pv b d m ev hg over hv he hd =
    let e = overwritten g writer k v pv b d m ev in
    let fields = pack_gen_bound_fields e g b pv hg refl in
    rw (tt_save-overwrites g writer k v pv b d m ev over) (
      refl,
      (stored_depth d hd).0,
      λ i. record {
        move = kept_move writer k m;
        value = to_i16_exact v hv.0 hv.1 i;
        eval = to_i16_exact ev he.0 he.1 i;
        depth = (stored_depth d hd).1 i;
        bound = fields.0 i;
        is_pv = fields.1 i;
      },
    )

find_key-First :
    (key16 i : ℕ) (es : TtCluster) (k : ℕ) → First key16 es k → find_key key16 i es ≡ some (i + k)
unfolding find_key
find_key-First key16 i [] k f = absurd (omega (arith, f.0))
find_key-First key16 i (e ∷ es) zero (inside, same, first) = ground arith
find_key-First key16 i (e ∷ es) (suc k) (inside, same, first) = ground (
  arith,
  first 0,
  find_key-First key16 (i + 1) es k (omega arith, same, λ j p. first (suc j) (omega arith)),
)

First-set :
    (key16 : ℕ) (es : TtCluster) (k : ℕ) (e : TtEntry)
    → k < length es
    → ((j : ℕ) → j < k → (get_or es j zero_entry).key16 ≢ key16)
    → e.key16 ≡ key16
    → First key16 (set es k e) k
First-set key16 es k e inside first same = (
  rw length-set inside,
  rw (get_or-set_self es k e zero_entry inside) same,
  λ j p. rw (get_or-set_ne es k j e zero_entry (λ q. omega arith)) (first j p),
)

-- Whatever the outcome, no entry before the writer's has the key.
Outcome-first :
    {tab : TranspositionTable} {key16 : ℕ} {r : TtProbeResult}
    → length (cluster_at tab r.writer.cluster) ≡ 3
    → r.writer.index < 3
    → Outcome tab key16 r
    → (j : ℕ) → j < r.writer.index
    → (get_or (cluster_at tab r.writer.cluster) j zero_entry).key16 ≢ key16
Outcome-first full small (hit f _ _) j p = f.2 j p
Outcome-first full small (miss a _ _ _) j p = a j (omega (arith, full))

-- The cluster of the writer after a store through it.
cluster_at-store_at :
    (tab : TranspositionTable) (s : Slot) (e : TtEntry)
    → s.cluster < length tab.table
    → cluster_at (store_at tab s e) s.cluster ≡ set (cluster_at tab s.cluster) s.index e
cluster_at-store_at tab s e h = get_or-set_self tab.table s.cluster _ _ h

abbrev reports : TtEntry → Slot → TtProbeResult
reports e w = record { found = not (e.depth8 == 0); result = tt_entry_read e e.depth8; writer = w }

entry_at-store_at :
    (tab : TranspositionTable) (w : Slot) (e : TtEntry)
    → w.cluster < length tab.table
    → w.index < length (cluster_at tab w.cluster)
    → entry_at (store_at tab w e) w ≡ e
entry_at-store_at tab w e h k =
    ap (λ es. get_or es w.index zero_entry) (cluster_at-store_at tab w e h)
    ∙ get_or-set_self (cluster_at tab w.cluster) w.index e zero_entry k

-- A probe after a store through `w`, where no earlier entry of the cluster has the key.
tt_probe-store_at :
    (tab : TranspositionTable) (key : ℕ) (w : Slot) (e : TtEntry)
    → w.cluster ≡ tt_mul_hi64 key tab.cluster_count
    → w.cluster < length tab.table
    → w.index < length (cluster_at tab w.cluster)
    → ((j : ℕ) → j < w.index → (get_or (cluster_at tab w.cluster) j zero_entry).key16 ≢ u16 key)
    → e.key16 ≡ u16 key
    → tt_probe (store_at tab w e) key ≡ reports e w
tt_probe-store_at tab key w e c h k first same =
    entered
    ∙ ap (probe_result tab' w.cluster) found
    ∙ (unfold probe_result in ap (λ t. reports t w) (entry_at-store_at tab w e h k))
  where
    tab' : TranspositionTable
    tab' = store_at tab w e

    entered :
        tt_probe tab' key
        ≡ probe_result tab' w.cluster (find_key (u16 key) 0 (cluster_at tab' w.cluster))
    entered =
        unfold tt_probe in
        ap (λ n. probe_result tab' n (find_key (u16 key) 0 (cluster_at tab' n))) (sym c)

    found : find_key (u16 key) 0 (cluster_at tab' w.cluster) ≡ some w.index
    found = rw (cluster_at-store_at tab w e h) (
        find_key-First (u16 key) 0 _ w.index (First-set (u16 key) _ w.index e k first same)
        ∙ ap some (omega arith))

-- After an overwriting save of a score, evaluation and depth that the entry can hold, through the
-- writer that a probe for the same key returned, the probe finds the entry at that writer and
-- reports what was saved, with the move that the save keeps.
pub tt_probe-table_save :
    (tab : TranspositionTable) (key : ℕ) (v : ℤ) (pv : Bool) (b : Bound) (d : ℤ) (m : ℕ) (ev : ℤ)
    → IsTable tab
    → key < 2 ^ 64
    → IsScore v
    → IsScore ev
    → IsDepth d
    → let w = (tt_probe tab key).writer in
      overwrites tab.generation8 (entry_at tab w) (u16 key) pv b d ≡ true
      → tt_probe (table_save tab w key v pv b d m ev) key ≡ record {
        found = true;
        result = record {
          move = kept_move (entry_at tab w) key m;
          value = v;
          eval = ev;
          depth = d;
          bound = b;
          is_pv = pv;
        };
        writer = w;
      }
unfolding table_save
tt_probe-table_save tab key v pv b d m ev h small hv he hd over =
    let w = (tt_probe tab key).writer in
    let e = tt_save tab.generation8 (entry_at tab w) key v pv b d m ev in
    let (inside, at, outcome) = tt_probe-Outcome tab key h small in
    let full = h.full w.cluster inside.0 in
    let (same, occupied, read) =
      tt_save-read tab.generation8 (entry_at tab w) key v pv b d m ev h.generation over hv he hd in
    let found : not (e.depth8 == 0) ≡ true = ground (arith, occupied) in
    tt_probe-store_at tab key w e at (omega (arith, h.sized)) (omega (arith, full))
      (Outcome-first full inside.1 outcome) same
    ∙ (λ i. record { found = found i; result = read i; writer = w })

-- A save for a key whose low bits the writer does not hold always overwrites, so after a probe
-- that met no entry with the key nothing is declined.
pub overwrites-miss :
    (g : ℕ) (writer : TtEntry) (key16 : ℕ) (pv : Bool) (b : Bound) (d : ℤ)
    → writer.key16 ≢ key16
    → overwrites g writer key16 pv b d ≡ true
unfolding overwrites
overwrites-miss g writer key16 pv b d ne = ground arith

-- A penalty of at least zero lowers a stored byte to the difference, or to zero, and changes no
-- other field.
pub tt_penalize_lem :
    (writer : TtEntry) (n : ℕ)
    → writer.depth8 < 256
    → tt_penalize writer (pos n) ≡ record writer { depth8 = writer.depth8 - n }
unfolding tt_penalize depth_saturating_sub
tt_penalize_lem writer n h = ground arith
