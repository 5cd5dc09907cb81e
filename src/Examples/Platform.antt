-- ===== src/Examples/Platform.antt =====
-- src/platform: a topology of two nodes, a thread that starts and ends, and a pool of three workers.
use fcfish.Base.{
  ℕ, ◌≤◌, ◌≡◌, refl, arith, Bool, true, false, List, [], ◌∷◌, replicate, none, some, ◌⊎◌,
}
use fcfish.Base.Int.{pos, negsuc}
use fcfish.Platform.Numa.{
  NumaNode, NumaConfig, numa_unassigned, doubled, insert_at, lower_bound, insertion_point,
  numa_config_init, numa_config_is_cpu_assigned, node_reserve, node_insert_sorted, nodes_reserve,
  cpu_map_reserve, place_cpu, numa_config_add_cpu_to_node, numa_config_num_nodes,
}
use fcfish.Platform.Numa.Config.{IsConsistent}
use fcfish.Platform.Numa.Sized.{IsSized, numa_config_add_cpu_to_node-IsConsistent}
use fcfish.Platform.Numa.Parse.{
  is_space, is_digit, skip_space, all_space, read_digits, accept_tail, parse_uint, split_dash,
  cap_range, parse_range, parse_split, parse_element, split_on, range_loop, walk_range,
  walk_elements, for_each_index, add_sink, read_nodes, custom_config, numa_config_from_string,
}
use fcfish.Platform.Numa.Parse.Uint.{parse_uint_lem}
use fcfish.Platform.Numa.Parse.Read.{numa_config_from_string-IsConsistent, empty-IsConsistent}
use fcfish.Search.History.{BankSizes}
use fcfish.Search.History.Clear.{SharedTables}
use fcfish.Platform.WorkerPool.{
  clear_workers, bump, node_of_thread, per_node_total, builder_inputs, build_workers, pool_workers,
}
use fcfish.Platform.WorkerPool.Banks.{workers_on, pool_workers-clear}
use fcfish.Platform.Thread.{
  Worker, Client, Thread, Call, Progress, Step, Reachable, Run, idle_loop, client_step, call_step,
  thread_spawn,
}
use fcfish.Platform.Thread.Phases.{IsSound}
use fcfish.Platform.Thread.ClientSteps.{Reachable-IsSound}
use fcfish.Platform.Thread.Weights.{remaining, at_rest}
use fcfish.Platform.Thread.Runs.{Run-returns, waited-finished, joined-finished}

always : ℕ → Bool
always n = true

abbrev two_cpus : NumaNode
two_cpus = record { cpus = 1 ∷ 4 ∷ []; capacity = 8 }

numa_config_add_cpu_to_node-IsConsistent_example :
    IsConsistent (numa_config_add_cpu_to_node always numa_config_init 1 6).0
    × IsSized (numa_config_add_cpu_to_node always numa_config_init 1 6).0
unfolding numa_config_init
numa_config_add_cpu_to_node-IsConsistent_example =
    numa_config_add_cpu_to_node-IsConsistent always numa_config_init 1 6 (empty-IsConsistent always)
      (record { nodes_fit = omega arith; cpus_fit = λ i. omega arith }) (omega arith) (omega arith)

-- " 42\n".
parse_uint_lem_example : parse_uint (32 ∷ 52 ∷ 50 ∷ 10 ∷ []) ≡ some 42
unfolding all_space is_space is_digit
parse_uint_lem_example =
    parse_uint_lem (32 ∷ []) 52 (50 ∷ []) (10 ∷ []) refl (refl, (refl, tt)) refl

-- "0-1:2".
abbrev two_nodes_text : List ℕ
two_nodes_text = 48 ∷ 45 ∷ 49 ∷ 58 ∷ 50 ∷ []

abbrev two_nodes : NumaConfig
two_nodes = record {
  nodes = record { cpus = 0 ∷ 1 ∷ []; capacity = 8 } ∷ record { cpus = 2 ∷ []; capacity = 8 } ∷ [];
  node_capacity = 4;
  node_by_cpu = 0 ∷ 0 ∷ 1 ∷ replicate 61 numa_unassigned;
  assigned_cpus = 3;
  custom_affinity = true;
}

two_nodes_read : numa_config_from_string always two_nodes_text ≡ some two_nodes
unfolding always numa_config_from_string custom_config read_nodes add_sink for_each_index
    walk_elements walk_range range_loop split_on parse_element parse_split parse_range cap_range
    split_dash parse_uint accept_tail read_digits all_space skip_space is_digit is_space
    numa_config_add_cpu_to_node place_cpu cpu_map_reserve nodes_reserve node_insert_sorted
    node_reserve numa_config_is_cpu_assigned numa_config_init insertion_point lower_bound insert_at
    doubled
two_nodes_read = refl

numa_config_from_string-IsConsistent_example :
    IsConsistent two_nodes
    × (1 ≤ numa_config_num_nodes two_nodes)
    × (two_nodes.custom_affinity ≡ true)
numa_config_from_string-IsConsistent_example =
    numa_config_from_string-IsConsistent always two_nodes_text two_nodes (omega arith)
      two_nodes_read

-- The new thread has parked, and the wait of its creator is about to return.
abbrev parked : Thread
parked = record {
  searching = false;
  exit = false;
  job = none;
  worker = Worker.asleep;
  client = Client.waiting false;
  started = [];
  finished = [];
}

parked-Reachable : Reachable parked
unfolding thread_spawn idle_loop
parked-Reachable = Reachable.next Reachable.spawned (Step.progress (Progress.worker refl))

Reachable-IsSound_example : IsSound parked
Reachable-IsSound_example = Reachable-IsSound parked-Reachable

abbrev at_ready : Thread
at_ready = record parked { client = Client.ready }

ready-Run : Run parked 1 at_ready
unfolding client_step
ready-Run = Run.more (Progress.client refl) Run.here

Run-returns_example :
    (1 ≤ remaining parked)
    × ((at_rest at_ready.client ≡ true) ⊎ ((v : Thread) × Progress at_ready v))
Run-returns_example = Run-returns parked at_ready 1 parked-Reachable ready-Run

waited-finished_example : parked.started ≡ parked.finished
waited-finished_example = waited-finished parked parked-Reachable refl refl

abbrev ended : Thread
ended = record {
  searching = true;
  exit = true;
  job = none;
  worker = Worker.returned;
  client = Client.joined;
  started = [];
  finished = [];
}

ended-Reachable : Reachable ended
unfolding idle_loop client_step call_step
ended-Reachable =
    let s₁ = Reachable.next parked-Reachable (Step.progress (Progress.client refl)) in
    let s₂ = Reachable.next s₁ (Step.call Call.join refl) in
    let s₃ = Reachable.next s₂ (Step.progress (Progress.client refl)) in
    let s₄ = Reachable.next s₃ (Step.progress (Progress.client refl)) in
    let s₅ = Reachable.next s₄ (Step.progress (Progress.client refl)) in
    let s₆ = Reachable.next s₅ (Step.progress (Progress.worker refl)) in
    Reachable.next s₆ (Step.progress (Progress.client refl))

joined-finished_example : (ended.worker ≡ Worker.returned) × (ended.started ≡ ended.finished)
joined-finished_example = joined-finished ended ended-Reachable refl

-- Three threads, the second on another node.
abbrev three_threads : List ℕ
three_threads = 0 ∷ 1 ∷ 0 ∷ []

abbrev two_threads_bank : BankSizes
two_threads_bank = record {
  corr_size = 131072;
  corr_size_minus1 = 131071;
  pawn_size = 16384;
  pawn_size_minus1 = 16383;
}

abbrev old_tables : SharedTables
old_tables = record { correction = λ i. pos 9; pawn = λ i. pos 9; continuation = λ i. pos 9 }

pool_workers-clear_example :
    let built = workers_on 0 (pool_workers always always three_threads).0 in
    let done = clear_workers two_threads_bank built old_tables in
    (done.correction 1048575 ≡ negsuc 4)
    × (done.pawn 100 ≡ negsuc 1337)
    × (done.continuation 4194303 ≡ negsuc 585)
unfolding always pool_workers build_workers builder_inputs bump node_of_thread per_node_total
pool_workers-clear_example =
    pool_workers-clear always always three_threads 0 two_threads_bank old_tables 1048575 100 4194303
      refl (omega arith) (omega arith) (omega arith) (omega arith)
