-- ===== src/Platform/Numa.antt =====
-- src/platform/numa.c: the processors of each node, and the map from a processor to its node.
-- An allocation is a parameter: `grants n` says whether a block of `n` bytes is there.
pub mod Insert
pub mod Ordered
pub mod Config
pub mod Add
pub mod Sized
pub mod Parse
use fcfish.Base.Words.{u64}
use fcfish.Base.{
  ℕ, zero, suc, ◌+◌, ◌-◌, ◌*◌, ◌/◌, ◌^◌, Bool, true, false, ltb, leb, ◌==◌, if◌then◌else◌, List, [],
  ◌∷◌, ◌++◌, length, get_or, set, replicate,
}

abbrev pub numa_max_cpus : ℕ
numa_max_cpus = 65536

-- (size_t) -1.
abbrev pub numa_unassigned : ℕ
numa_unassigned = 2 ^ 64 - 1

pub record NumaNode : Type 0 where
  pub cpus : List ℕ
  pub capacity : ℕ

abbrev pub empty_node : NumaNode
empty_node = record { cpus = []; capacity = 0 }

-- The counts are the lengths of the lists.
pub record NumaConfig : Type 0 where
  pub nodes : List NumaNode
  pub node_capacity : ℕ
  pub node_by_cpu : List ℕ
  pub assigned_cpus : ℕ
  pub custom_affinity : Bool

pub data NumaAddStatus : Type 0 where
  numa_add_ok : NumaAddStatus
  numa_add_conflict : NumaAddStatus
  numa_add_oom : NumaAddStatus

-- The loops that double a size_t up to `want`. For a `want` of at most 2^63 they end within 64
-- rounds; for a larger one the size wraps to 0 and the loop of the source need not end, which a
-- result of `doubled` below `want` stands for.
unfoldable pub doubled : ℕ → ℕ → ℕ → ℕ
doubled zero capacity want = capacity
doubled (suc fuel) capacity want =
    let rest = doubled fuel (u64 (capacity * 2)) want in
    if ltb capacity want then rest else capacity

unfoldable pub insert_at : List ℕ → ℕ → ℕ → List ℕ
insert_at cpus zero cpu = cpu ∷ cpus
insert_at [] (suc i) cpu = cpu ∷ []
insert_at (c ∷ cpus) (suc i) cpu = c ∷ insert_at cpus i cpu

-- The binary search between `lo` and `hi`.
unfoldable pub lower_bound : ℕ → List ℕ → ℕ → ℕ → ℕ → ℕ
lower_bound zero cpus cpu lo hi = lo
lower_bound (suc fuel) cpus cpu lo hi =
    let mid = lo + (hi - lo) / 2 in
    let right = ltb (get_or cpus mid 0) cpu in
    let rest =
      lower_bound fuel cpus cpu (if right then mid + 1 else lo) (if right then hi else mid) in
    if ltb lo hi then rest else lo

unfoldable pub insertion_point : List ℕ → ℕ → ℕ
insertion_point cpus cpu =
    let count = length cpus in
    if count == 0
    then count
    else (if ltb (get_or cpus (count - 1) 0) cpu then count else lower_bound count cpus cpu 0 count)

unfoldable pub numa_config_init : NumaConfig
numa_config_init = record {
  nodes = [];
  node_capacity = 0;
  node_by_cpu = [];
  assigned_cpus = 0;
  custom_affinity = false;
}

unfoldable pub numa_config_is_cpu_assigned : NumaConfig → ℕ → Bool
numa_config_is_cpu_assigned cfg cpu =
    if ltb cpu (length cfg.node_by_cpu)
    then (if get_or cfg.node_by_cpu cpu numa_unassigned == numa_unassigned then false else true)
    else false

abbrev pub node_at : NumaConfig → ℕ → NumaNode
node_at cfg node = get_or cfg.nodes node empty_node

unfoldable pub numa_config_num_cpus_in_node : NumaConfig → ℕ → ℕ
numa_config_num_cpus_in_node cfg node =
    if ltb node (length cfg.nodes) then length (node_at cfg node).cpus else 0

unfoldable pub numa_config_num_cpus : NumaConfig → ℕ
numa_config_num_cpus cfg = cfg.assigned_cpus

unfoldable pub numa_config_num_nodes : NumaConfig → ℕ
numa_config_num_nodes cfg = length cfg.nodes

module _ (grants : ℕ → Bool) where
  unfoldable pub node_reserve : NumaNode → ℕ → NumaNode × Bool
  node_reserve node want =
      let capacity = doubled 64 (if node.capacity == 0 then 8 else node.capacity) want in
      if leb want node.capacity
      then (node, true)
      else (if grants (u64 (capacity * 8))
          then (record node { capacity = capacity }, true)
          else (node, false))

  unfoldable pub node_insert_sorted : NumaNode → ℕ → NumaNode × Bool
  node_insert_sorted node cpu =
      let count = length node.cpus in
      let i = insertion_point node.cpus cpu in
      let found = if ltb i count then get_or node.cpus i 0 == cpu else false in
      let r = node_reserve node (count + 1) in
      if found
      then (node, true)
      else (if r.1 then (record r.0 { cpus = insert_at r.0.cpus i cpu }, true) else (r.0, false))

  unfoldable pub nodes_reserve : NumaConfig → ℕ → NumaConfig × Bool
  nodes_reserve cfg want =
      let capacity = doubled 64 (if cfg.node_capacity == 0 then 4 else cfg.node_capacity) want in
      if leb want cfg.node_capacity
      then (cfg, true)
      else (if grants (u64 (capacity * 24))
          then (record cfg { node_capacity = capacity }, true)
          else (cfg, false))

  unfoldable pub cpu_map_reserve : NumaConfig → ℕ → NumaConfig × Bool
  cpu_map_reserve cfg cpu =
      let old = length cfg.node_by_cpu in
      let len = doubled 64 (if old == 0 then 64 else old) (cpu + 1) in
      let grown = cfg.node_by_cpu ++ replicate (len - old) numa_unassigned in
      if ltb cpu old
      then (cfg, true)
      else (if grants (u64 (len * 8))
          then (record cfg { node_by_cpu = grown }, true)
          else (cfg, false))

  -- The insertion, when there is room: the missing nodes are appended, empty.
  unfoldable pub place_cpu : NumaConfig → ℕ → ℕ → NumaConfig × NumaAddStatus
  place_cpu cfg node cpu =
      let nodes = cfg.nodes ++ replicate (node + 1 - length cfg.nodes) empty_node in
      let r = node_insert_sorted (get_or nodes node empty_node) cpu in
      let placed = record cfg { nodes = set nodes node r.0 } in
      if r.1
      then (
        record placed {
          node_by_cpu = set cfg.node_by_cpu cpu node;
          assigned_cpus = cfg.assigned_cpus + 1;
        },
        NumaAddStatus.numa_add_ok,
      )
      else (placed, NumaAddStatus.numa_add_oom)

  unfoldable pub numa_config_add_cpu_to_node : NumaConfig → ℕ → ℕ → NumaConfig × NumaAddStatus
  numa_config_add_cpu_to_node cfg node cpu =
      let with_nodes = nodes_reserve cfg (node + 1) in
      let with_map = cpu_map_reserve with_nodes.0 cpu in
      if leb numa_max_cpus cpu
      then (cfg, NumaAddStatus.numa_add_conflict)
      else (if numa_config_is_cpu_assigned cfg cpu
          then (cfg, NumaAddStatus.numa_add_conflict)
          else (if with_nodes.1
              then (if with_map.1
                  then place_cpu with_map.0 node cpu
                  else (with_map.0, NumaAddStatus.numa_add_oom))
              else (with_nodes.0, NumaAddStatus.numa_add_oom)))
