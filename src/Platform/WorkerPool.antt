-- ===== src/Platform/WorkerPool.antt =====
-- src/platform/worker_pool.c: the workers of a resize, and where each stands on its node. The node
-- of each thread comes from numa_distribute_threads_among_nodes, which is not modelled, and is a
-- parameter; so is whether a node has its bank.
pub mod Banks
use fcfish.Base.{
  ℕ, zero, suc, ◌+◌, ◌^◌, ◌%◌, Bool, true, false, ltb, leb, ◌==◌, if◌then◌else◌, List, [], ◌∷◌,
  ◌++◌, map, length, Option, none, some,
}
use mathlib.Core.Option
use fcfish.Base.Words.{u64}
use fcfish.Search.History.{BankSizes}
use fcfish.Search.History.Clear.{SharedTables, clear_shared}

abbrev pub search_threads_max : ℕ
search_threads_max = 1024

-- An array of one counter for each node.
abbrev pub Counters : Type 0
Counters = ℕ → ℕ

unfoldable pub bump : Counters → ℕ → Counters
bump table node n = if n == node then table n + 1 else table n

-- The number of workers of a resize.
unfoldable pub worker_count : ℕ → ℕ
worker_count requested =
    if requested == 0
    then 1
    else (if ltb search_threads_max requested then search_threads_max else requested)

-- NodeOfThread, with what is out of its range sent to node 0.
unfoldable pub node_of_thread : List ℕ → List ℕ
node_of_thread [] = []
node_of_thread (n ∷ ns) = (if leb search_threads_max n then 0 else n) ∷ node_of_thread ns

-- PerNodeTotal, counted thread by thread.
unfoldable pub per_node_total : List ℕ → Counters → Counters
per_node_total [] table = table
per_node_total (n ∷ ns) table = per_node_total ns (bump table n)

-- What `builder_build` hands to worker_create, without the pool and the bank.
pub record WorkerCtorInputs : Type 0 where
  pub thread_idx : ℕ
  pub numa_thread_idx : ℕ
  pub numa_total : ℕ
  pub numa_access_token : ℕ

unfoldable pub builder_inputs : Counters → Counters → ℕ → ℕ → WorkerCtorInputs
builder_inputs total placed idx node = record {
  thread_idx = idx;
  numa_thread_idx = placed node;
  numa_total = if total node == 0 then 1 else total node;
  numa_access_token = node;
}

-- The workers from index `idx` on, up to the first whose bank or whose block is missing.
unfoldable pub build_workers :
    (ℕ → Bool) → (ℕ → Bool) → Counters → Counters → ℕ → List ℕ → List WorkerCtorInputs × Bool
build_workers has_bank creates total placed idx [] = ([], true)
build_workers has_bank creates total placed idx (node ∷ nodes) =
    let rest = build_workers has_bank creates total (bump placed node) (idx + 1) nodes in
    if has_bank node
    then (if creates idx
        then (builder_inputs total placed idx node ∷ rest.0, rest.1)
        else ([], false))
    else ([], false)

-- The workers of a resize, given the distribution of its threads.
unfoldable pub pool_workers : (ℕ → Bool) → (ℕ → Bool) → List ℕ → List WorkerCtorInputs × Bool
pool_workers has_bank creates distribution =
    let nodes = node_of_thread distribution in
    build_workers has_bank creates (per_node_total nodes (λ n. 0)) (λ n. 0) 0 nodes

-- What `worker_clear` writes to the shared bank of the worker's node.
unfoldable pub worker_clear : BankSizes → WorkerCtorInputs → SharedTables → SharedTables
worker_clear sizes w sh = clear_shared sizes w.numa_thread_idx w.numa_total sh

-- The clears of some workers, one after the other.
unfoldable pub clear_workers : BankSizes → List WorkerCtorInputs → SharedTables → SharedTables
clear_workers sizes [] sh = sh
clear_workers sizes (w ∷ ws) sh = clear_workers sizes ws (worker_clear sizes w sh)

-- The counters that the seam sums up.
pub record WorkerCounters : Type 0 where
  pub nodes : ℕ
  pub tb_hits : ℕ
  pub best_move_changes : ℕ

unfoldable pub sum_from : (WorkerCounters → ℕ) → ℕ → List WorkerCounters → ℕ
sum_from field total [] = total
sum_from field total (w ∷ ws) = sum_from field (u64 (total + field w)) ws

unfoldable pub pool_nodes_sum : List WorkerCounters → ℕ
pool_nodes_sum ws = sum_from (λ w. WorkerCounters.nodes w) 0 ws

unfoldable pub pool_tb_hits_sum : List WorkerCounters → ℕ
pool_tb_hits_sum ws = sum_from (λ w. WorkerCounters.tb_hits w) 0 ws

abbrev reset_changes : WorkerCounters → WorkerCounters
reset_changes w = record w { best_move_changes = 0 }

unfoldable pub pool_collect_bmc : List WorkerCounters → List WorkerCounters × ℕ
pool_collect_bmc ws =
    (map reset_changes ws, sum_from (λ w. WorkerCounters.best_move_changes w) 0 ws)
