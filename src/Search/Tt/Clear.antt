-- ===== src/Search/Tt/Clear.antt =====
-- src/engine/search/tt.c: sizing, freeing and clearing the table.
-- The page allocator and the pool's threads are parameters: the block that `ArenaAlloc` returns for
-- a number of clusters, the number of threads the installed pool reports (`none` for no pool), and
-- the order in which its threads ran the span jobs.
pub mod Spans
pub mod Resize
use fcfish.Base.{
  ℕ, zero, suc, ◌+◌, ◌-◌, ◌*◌, ◌/◌, Bool, true, false, ◌||◌, ◌==◌, leb, ltb, if◌then◌else◌, List,
  [], ◌∷◌, set, Option, none, some,
}
use fcfish.Base.Int.{ℤ, pos, ◌+ℤ◌, ◌-ℤ◌}
use fcfish.Base.Words.{u64}
use fcfish.Search.Tt.Table.{TtCluster, TranspositionTable, zero_cluster}

-- `memset` to zero of `n` clusters from index `start`.
unfoldable pub zero_range : ℕ → ℕ → List TtCluster → List TtCluster
zero_range start zero t = t
zero_range start (suc n) t = zero_range (start + 1) n (set t start zero_cluster)

-- The bounds of the span of one job: the last absorbs the division remainder.
abbrev pub span_start : ℕ → ℕ → ℕ → ℕ
span_start cluster_count span_count index = cluster_count / span_count * index

abbrev pub span_len : ℕ → ℕ → ℕ → ℕ
span_len cluster_count span_count index =
    if index + 1 == span_count
    then cluster_count - span_start cluster_count span_count index
    else cluster_count / span_count

unfoldable pub clear_span : ℕ → ℕ → ℕ → List TtCluster → List TtCluster
unfolding zero_range
clear_span cluster_count span_count index t =
    zero_range (span_start cluster_count span_count index) (span_len cluster_count span_count index)
      t

-- The jobs, in the order in which they ran.
unfoldable pub clear_spans : ℕ → ℕ → List ℕ → List TtCluster → List TtCluster
unfolding clear_span
clear_spans cluster_count span_count [] t = t
clear_spans cluster_count span_count (i ∷ order) t =
    clear_spans cluster_count span_count order (clear_span cluster_count span_count i t)

-- No installed pool reads as one thread.
abbrev pub pool_threads : Option ℕ → ℕ
pool_threads none = 1
pool_threads (some n) = n

unfoldable pub tt_clear : Option ℕ → List ℕ → TranspositionTable → TranspositionTable
unfolding clear_spans zero_range
tt_clear thread_count order tab =
    let threads = pool_threads thread_count in
    if leb threads 1 || ltb tab.cluster_count threads
    then record tab { table = zero_range 0 tab.cluster_count tab.table; generation8 = 0 }
    else record tab {
      table = clear_spans tab.cluster_count threads order tab.table;
      generation8 = 0;
    }

-- The table with what it owns: whether `table` is an arena block, and the number of allocations
-- minus the number of frees, which a second free or a free of the fallback takes below zero.
pub record TtMemory : Type 0 where
  pub tab : TranspositionTable
  pub owned : Bool
  pub live : ℤ

unfoldable pub tt_free : TtMemory → TtMemory
tt_free mem = record {
  tab = record { cluster_count = 1; table = zero_cluster ∷ []; generation8 = 0 };
  owned = false;
  live = if mem.owned then mem.live -ℤ pos 1 else mem.live;
}

-- What `tt_resize` does with the block that it got, or with none.
unfoldable pub install :
    Option ℕ → List ℕ → ℕ → TtMemory → Option (List TtCluster) → TtMemory × Bool
install thread_count order cluster_count freed none = (freed, false)
install thread_count order cluster_count freed (some block) = (
  record {
    tab = tt_clear thread_count order (record {
      cluster_count = cluster_count;
      table = block;
      generation8 = freed.tab.generation8;
    });
    owned = true;
    live = freed.live +ℤ pos 1;
  },
  true,
)

unfoldable pub tt_resize :
    (ℕ → Option (List TtCluster)) → Option ℕ → List ℕ → ℕ → TtMemory → TtMemory × Bool
unfolding tt_free install
tt_resize arena_alloc thread_count order mb mem =
    let freed = tt_free mem in
    let cluster_count = u64 (mb * 1024 * 1024) / 32 in
    if cluster_count == 0
    then (freed, false)
    else install thread_count order cluster_count freed (arena_alloc cluster_count)
