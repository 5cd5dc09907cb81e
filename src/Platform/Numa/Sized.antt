-- ===== src/Platform/Numa/Sized.antt =====
-- src/platform/numa.c: the blocks of a topology are as large as what they hold.
use fcfish.Base.Words.{u64}
use fcfish.Base.{
  ℕ, zero, suc, ◌+◌, ◌-◌, ◌*◌, ◌^◌, ◌≤◌, ◌<◌, ◌≡◌, refl, ap, sym, ◌∙◌, arith, Bool, true, false,
  ltb, leb, ◌==◌, if◌then◌else◌, Bool-cases, inl, inr, List, [], ◌∷◌, ◌++◌, length, get_or, set,
  replicate, length-append, length-replicate, length-set,
}
use mathlib.Core.Path.{subst}
use fcfish.Platform.Numa.{
  NumaNode, NumaConfig, empty_node, numa_max_cpus, node_at, doubled, insert_at, insertion_point,
  node_reserve, node_insert_sorted, nodes_reserve, cpu_map_reserve, place_cpu,
  numa_config_is_cpu_assigned, numa_config_add_cpu_to_node,
}
use fcfish.Platform.Numa.Insert.{doubled-reaches}
use fcfish.Platform.Numa.Config.{IsConsistent, get_or-padded, get_or-set_if}
use fcfish.Platform.Numa.Add.{add-IsConsistent}

-- Every list has room for what stands in it.
pub record IsSized (cfg : NumaConfig) : Type 0 where
  pub nodes_fit : length cfg.nodes ≤ cfg.node_capacity
  pub cpus_fit : (i : ℕ) → length (node_at cfg i).cpus ≤ (node_at cfg i).capacity

length-insert_at : (xs : List ℕ) (i cpu : ℕ) → length (insert_at xs i cpu) ≡ suc (length xs)
unfolding insert_at
length-insert_at xs zero cpu = refl
length-insert_at [] (suc i) cpu = refl
length-insert_at (x ∷ xs) (suc i) cpu = ap suc (length-insert_at xs i cpu)

doubled_from :
    (first capacity want : ℕ)
    → 0 < first
    → want ≤ 2 ^ 58
    → want ≤ doubled 64 (if capacity == 0 then first else capacity) want
doubled_from first capacity want positive small =
    let start = if capacity == 0 then first else capacity in
    let some : 1 ≤ start = ground (arith, positive) in
    doubled-reaches 64 start want (omega (arith, some, small)) (omega (arith, small))

module _ (grants : ℕ → Bool) where
  node_insert_sorted-fits :
      (node : NumaNode) (cpu : ℕ)
      → length node.cpus ≤ node.capacity
      → length node.cpus < 2 ^ 58
      → length (node_insert_sorted grants node cpu).0.cpus
        ≤ (node_insert_sorted grants node cpu).0.capacity
  unfolding node_insert_sorted node_reserve
  node_insert_sorted-fits node cpu fits small =
      let count = length node.cpus in
      let i = insertion_point node.cpus cpu in
      let found = if ltb i count then get_or node.cpus i 0 == cpu else false in
      let capacity = doubled 64 (if node.capacity == 0 then 8 else node.capacity) (count + 1) in
      let grown = length-insert_at node.cpus i cpu in
      elim (Bool-cases found) [
        | inl a ↦ rw a fits
        | inr a ↦ elim (Bool-cases (leb (count + 1) node.capacity)) [
          | inl b ↦ rw (a, b) (ground (arith, b, grown))
          | inr b ↦ elim (Bool-cases (grants (u64 (capacity * 8)))) [
            | inr c ↦ rw (a, b, c) fits
            | inl c ↦
                let reached =
                  doubled_from 8 node.capacity (count + 1) (omega arith) (omega (arith, small)) in
                rw (a, b, c) (omega (arith, reached, grown))
          ]
        ]
      ]

  nodes_reserve-IsSized :
      (cfg : NumaConfig) (want : ℕ)
      → IsSized cfg
      → want ≤ 2 ^ 58
      → IsSized (nodes_reserve grants cfg want).0
        × ((nodes_reserve grants cfg want).1 ≡ true
            → want ≤ (nodes_reserve grants cfg want).0.node_capacity)
        × ((nodes_reserve grants cfg want).0.nodes ≡ cfg.nodes)
  unfolding nodes_reserve
  nodes_reserve-IsSized cfg want ok small =
      let capacity = doubled 64 (if cfg.node_capacity == 0 then 4 else cfg.node_capacity) want in
      elim (Bool-cases (leb want cfg.node_capacity)) [
        | inl e ↦ rw e (ok, λ d. ground (arith, e), refl)
        | inr e ↦ elim (Bool-cases (grants (u64 (capacity * 24)))) [
          | inl g ↦
              let reached = doubled_from 4 cfg.node_capacity want (omega arith) small in
              rw (e, g)
                (
                  record {
                    nodes_fit = ground (arith, reached, e, ok.nodes_fit);
                    cpus_fit = ok.cpus_fit;
                  },
                  λ d. reached,
                  refl,
                )
          | inr g ↦ rw (e, g) (ok, λ d. absurd (ground (arith, d)), refl)
        ]
      ]

  cpu_map_reserve-IsSized :
      (cfg : NumaConfig) (cpu : ℕ)
      → IsSized cfg
      → IsSized (cpu_map_reserve grants cfg cpu).0
        × ((cpu_map_reserve grants cfg cpu).0.nodes ≡ cfg.nodes)
        × ((cpu_map_reserve grants cfg cpu).0.node_capacity ≡ cfg.node_capacity)
  unfolding cpu_map_reserve
  cpu_map_reserve-IsSized cfg cpu ok =
      let old = length cfg.node_by_cpu in
      let len = doubled 64 (if old == 0 then 64 else old) (cpu + 1) in
      elim (Bool-cases (ltb cpu old)) [
        | inl e ↦ rw e (ok, refl, refl)
        | inr e ↦ elim (Bool-cases (grants (u64 (len * 8)))) [
          | inl g ↦
              rw (e, g) (record { nodes_fit = ok.nodes_fit; cpus_fit = ok.cpus_fit }, refl, refl)
          | inr g ↦ rw (e, g) (ok, refl, refl)
        ]
      ]

  -- The nodes after a write to `node`.
  written_fit :
      (cfg : NumaConfig) (node : ℕ) (v : NumaNode) (i : ℕ)
      → IsSized cfg
      → length v.cpus ≤ v.capacity
      → let after =
          get_or
            (set (cfg.nodes ++ replicate (node + 1 - length cfg.nodes) empty_node) node v)
            i
            empty_node in
        length after.cpus ≤ after.capacity
  written_fit cfg node v i ok fits =
      let nodes = cfg.nodes ++ replicate (node + 1 - length cfg.nodes) empty_node in
      let long : node < length nodes = omega (
        arith,
        length-append cfg.nodes (replicate (node + 1 - length cfg.nodes) empty_node),
        length-replicate (node + 1 - length cfg.nodes) empty_node,
      ) in
      subst (λ n. length n.cpus ≤ n.capacity) (sym (get_or-set_if empty_node nodes node i v long))
        (elim (Bool-cases (i == node)) [
          | inl e ↦ rw e fits
          | inr e ↦ rw e (
              subst (λ n. length n.cpus ≤ n.capacity)
                (sym (get_or-padded empty_node cfg.nodes (node + 1 - length cfg.nodes) i))
                (ok.cpus_fit i))
        ])

  place_cpu-IsSized :
      (cfg : NumaConfig) (node cpu : ℕ)
      → IsSized cfg
      → node + 1 ≤ cfg.node_capacity
      → length (node_at cfg node).cpus < 2 ^ 58
      → IsSized (place_cpu grants cfg node cpu).0
  unfolding place_cpu
  place_cpu-IsSized cfg node cpu ok room small = elim (Bool-cases r.1) [
    | inl g ↦ rw g (record { nodes_fit = fit; cpus_fit = λ i. written_fit cfg node r.0 i ok held })
    | inr g ↦ rw g (record { nodes_fit = fit; cpus_fit = λ i. written_fit cfg node r.0 i ok held })
  ]
    where
      nodes : List NumaNode
      nodes = cfg.nodes ++ replicate (node + 1 - length cfg.nodes) empty_node

      old : NumaNode
      old = get_or nodes node empty_node

      r : NumaNode × Bool
      r = node_insert_sorted grants old cpu

      same : old ≡ node_at cfg node
      same = get_or-padded empty_node cfg.nodes (node + 1 - length cfg.nodes) node

      held : length r.0.cpus ≤ r.0.capacity
      held =
          node_insert_sorted-fits old cpu
            (subst (λ n. length n.cpus ≤ n.capacity) (sym same) (ok.cpus_fit node))
            (subst (λ n. length n.cpus < 2 ^ 58) (sym same) small)

      fit : length (set nodes node r.0) ≤ cfg.node_capacity
      fit = omega (
        arith,
        ok.nodes_fit,
        room,
        length-set nodes node r.0,
        length-append cfg.nodes (replicate (node + 1 - length cfg.nodes) empty_node),
        length-replicate (node + 1 - length cfg.nodes) empty_node,
      )

  add-IsSized :
      (cfg : NumaConfig) (node cpu : ℕ)
      → IsSized cfg
      → node < 2 ^ 58
      → length (node_at cfg node).cpus < 2 ^ 58
      → IsSized (numa_config_add_cpu_to_node grants cfg node cpu).0
  unfolding numa_config_add_cpu_to_node
  add-IsSized cfg node cpu ok small few =
      let with_nodes = nodes_reserve grants cfg (node + 1) in
      let with_map = cpu_map_reserve grants with_nodes.0 cpu in
      let (nodes_ok, reached, same_nodes) =
        nodes_reserve-IsSized cfg (node + 1) ok (omega (arith, small)) in
      let (map_ok, same_map, same_capacity) = cpu_map_reserve-IsSized with_nodes.0 cpu nodes_ok in
      elim (Bool-cases (leb numa_max_cpus cpu)) [
        | inl a ↦ rw a ok
        | inr a ↦ elim (Bool-cases (numa_config_is_cpu_assigned cfg cpu)) [
          | inl b ↦ rw (a, b) ok
          | inr b ↦ elim (Bool-cases with_nodes.1) [
            | inr c ↦ rw (a, b, c) nodes_ok
            | inl c ↦ elim (Bool-cases with_map.1) [
              | inr d ↦ rw (a, b, c, d) map_ok
              | inl d ↦
                  rw (a, b, c, d)
                    (place_cpu-IsSized with_map.0 node cpu map_ok
                      (omega (arith, reached c, same_capacity))
                      (subst (λ ns. length (get_or ns node empty_node).cpus < 2 ^ 58)
                        (sym (same_map ∙ same_nodes)) few))
            ]
          ]
        ]
      ]

  -- For a node below 2^58 that holds fewer than 2^58 processors, every addition, refused or not,
  -- keeps the node lists ascending and free of doubles, a processor in the node that the map gives
  -- and in no other, the counter equal to the number of processors, and every list within its block.
  pub numa_config_add_cpu_to_node-IsConsistent :
      (cfg : NumaConfig) (node cpu : ℕ)
      → IsConsistent cfg
      → IsSized cfg
      → node < 2 ^ 58
      → length (node_at cfg node).cpus < 2 ^ 58
      → IsConsistent (numa_config_add_cpu_to_node grants cfg node cpu).0
        × IsSized (numa_config_add_cpu_to_node grants cfg node cpu).0
  numa_config_add_cpu_to_node-IsConsistent cfg node cpu ok sized small few = (
    add-IsConsistent grants cfg node cpu ok (omega (arith, small)),
    add-IsSized cfg node cpu sized small few,
  )
