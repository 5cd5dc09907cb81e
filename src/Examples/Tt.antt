-- ===== src/Examples/Tt.antt =====
-- src/engine/search/tt.c: the transposition table's theorems on a table of two clusters.
use fcfish.Base.{
  ℕ, zero, suc, ◌*◌, ◌<◌, ◌≡◌, refl, arith, true, false, List, [], ◌∷◌, length, get_or, replicate,
  Option, some, length-replicate,
}
use fcfish.Base.Int.{pos, negsuc, ◌+ℤ◌}
use fcfish.Base.Words.{u16}
use fcfish.Search.Tt.Entry.{
  TtEntry, bound_exact, bound_lower, zero_entry, tt_entry_relative_age, pack_gen_bound, overwrites,
  tt_save, value_to_tt, value_from_tt,
}
use fcfish.Search.Tt.Table.{
  TtCluster, TranspositionTable, zero_cluster, entry_at, tt_mul_hi64, tt_mul_hi64_schoolbook,
  tt_probe, table_save,
}
use fcfish.Search.Tt.Packing.{value_from_tt-value_to_tt, tt_mul_hi64_schoolbook-eq}
use fcfish.Search.Tt.Probe.{IsTable, InTable, Outcome, tt_probe-Outcome}
use fcfish.Search.Tt.Declined.{tt_save-declined}
use fcfish.Search.Tt.Save.{kept_move, tt_probe-table_save}
use fcfish.Search.Tt.Clear.{TtMemory, tt_clear, tt_resize}
use fcfish.Search.Tt.Clear.Spans.{Covers, tt_clear_lem}
use fcfish.Search.Tt.Clear.Resize.{IsResized, tt_resize-IsResized}
use mathlib.Core.List.{Memᴰ}

-- An entry saved at generation 3 with the low key bits 5.
abbrev saved : TtEntry
saved = record {
  key16 = 5;
  depth8 = 13;
  gen_bound8 = pack_gen_bound 3 bound_lower true;
  move16 = 796;
  value16 = pos 40;
  eval16 = negsuc 11;
}

abbrev two_clusters : TranspositionTable
two_clusters = record {
  cluster_count = 2;
  table = (zero_entry ∷ saved ∷ zero_entry ∷ []) ∷ zero_cluster ∷ [];
  generation8 = 3;
}

two_clusters-IsTable : IsTable two_clusters
two_clusters-IsTable = record {
  sized = refl;
  nonempty = omega arith;
  full = full;
  generation = omega arith;
}
  where
    full : (c : ℕ) → c < 2 → length (get_or two_clusters.table c zero_cluster) ≡ 3
    full zero h = refl
    full (suc zero) h = refl
    full (suc (suc c)) h = absurd (omega (arith, h))

-- Both threads' jobs, the second first.
two_jobs-Covers : Covers 2 (1 ∷ 0 ∷ [])
two_jobs-Covers zero h = Memᴰ.tail (Memᴰ.head refl)
two_jobs-Covers (suc zero) h = Memᴰ.head refl
two_jobs-Covers (suc (suc i)) h = absurd (omega (arith, h))

value_from_tt-value_to_tt_example :
    value_from_tt (value_to_tt (pos 31990) (pos 4)) (pos 4) ≡ pos 31990
value_from_tt-value_to_tt_example = value_from_tt-value_to_tt (pos 31990) 4 (omega arith)

tt_mul_hi64_schoolbook-eq_example :
    tt_mul_hi64_schoolbook 18446744073709551615 4294967297
    ≡ tt_mul_hi64 18446744073709551615 4294967297
tt_mul_hi64_schoolbook-eq_example =
    tt_mul_hi64_schoolbook-eq 18446744073709551615 4294967297 (omega arith) (omega arith)

-- The key 5 maps onto cluster 0, where its entry stands.
tt_probe-Outcome_example :
    InTable two_clusters (tt_probe two_clusters 5).writer
    × ((tt_probe two_clusters 5).writer.cluster ≡ tt_mul_hi64 5 2)
    × Outcome two_clusters (u16 5) (tt_probe two_clusters 5)
tt_probe-Outcome_example = tt_probe-Outcome two_clusters 5 two_clusters-IsTable (omega arith)

-- A shallow save for the same key does not overwrite.
-- The same entry with a mate score, which a shallow save ages.
abbrev mating : TtEntry
mating = record saved { value16 = pos 31990 }

tt_save-declined_example :
    tt_save 3 mating 5 (pos 1) false bound_lower (pos 1) 99 (pos 7)
    ≡ record mating { move16 = 99; depth8 = 12 }
unfolding ◌+ℤ◌ tt_entry_relative_age pack_gen_bound
tt_save-declined_example =
    tt_save-declined 3 mating 5 (pos 1) false bound_lower (pos 1) 99 (pos 7) refl refl (omega arith)
      refl (omega arith)

tt_probe-table_save_example :
    let w = (tt_probe two_clusters 5).writer in
    tt_probe (table_save two_clusters w 5 (pos 40) false bound_exact (pos 9) 0 (pos 7)) 5 ≡ record {
      found = true;
      result = record {
        move = kept_move (entry_at two_clusters w) 5 0;
        value = pos 40;
        eval = pos 7;
        depth = pos 9;
        bound = bound_exact;
        is_pv = false;
      };
      writer = w;
    }
unfolding overwrites
tt_probe-table_save_example =
    tt_probe-table_save two_clusters 5 (pos 40) false bound_exact (pos 9) 0 (pos 7)
      two_clusters-IsTable (omega arith) (ground arith) (ground arith) (ground arith) refl

abbrev second_job : ℕ
second_job = 1

tt_clear_lem_example :
    tt_clear (some 2) (1 ∷ 0 ∷ []) two_clusters
    ≡ record { cluster_count = 2; table = replicate 2 zero_cluster; generation8 = 0 }
tt_clear_lem_example = tt_clear_lem (some 2) (1 ∷ 0 ∷ []) two_clusters refl two_jobs-Covers

-- An allocator that has a block for every request, full of stale entries.
abbrev stale_block : ℕ → Option (List TtCluster)
stale_block n = some (replicate n (saved ∷ saved ∷ saved ∷ []))

stale_block-length : (n : ℕ) (t : List TtCluster) → stale_block n ≡ some t → length t ≡ n
stale_block-length n t h = ground (arith, h, length-replicate n (saved ∷ saved ∷ saved ∷ []))

abbrev owned_table : TtMemory
owned_table = record { tab = two_clusters; owned = true; live = pos 1 }

tt_resize-IsResized_example :
    IsResized (16 * 32768) (tt_resize stale_block (some 2) (1 ∷ 0 ∷ []) 16 owned_table)
tt_resize-IsResized_example =
    tt_resize-IsResized stale_block (some 2) (1 ∷ 0 ∷ []) 16 owned_table stale_block-length
      two_jobs-Covers (omega arith) refl
