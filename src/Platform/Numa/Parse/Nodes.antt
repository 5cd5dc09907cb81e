-- ===== src/Platform/Numa/Parse/Nodes.antt =====
-- src/platform/numa.c: the number of the nodes after an addition.
use fcfish.Base.Words.{u64}
use fcfish.Base.{
  ◌*◌, ℕ, ◌+◌, ◌-◌, ◌≤◌, ◌≡◌, refl, ap, ◌∙◌, arith, Bool, true, ltb, leb, ◌==◌, if◌then◌else◌,
  Bool-cases, inl, inr, ◌++◌, length, length-append, length-set, length-replicate, replicate, set,
  get_or,
}
use fcfish.Platform.Numa.{
  NumaConfig, empty_node, numa_max_cpus, doubled, node_insert_sorted, nodes_reserve,
  cpu_map_reserve, place_cpu, numa_config_is_cpu_assigned, numa_config_add_cpu_to_node,
}
use fcfish.Platform.Numa.Parse.{is_add_ok}

module _ (grants : ℕ → Bool) where
  nodes_reserve-nodes :
      (cfg : NumaConfig) (want : ℕ) → (nodes_reserve grants cfg want).0.nodes ≡ cfg.nodes
  unfolding nodes_reserve
  nodes_reserve-nodes cfg want =
      let start = if cfg.node_capacity == 0 then 4 else cfg.node_capacity in
      elim (Bool-cases (leb want cfg.node_capacity)) [
        | inl e ↦ rw e refl
        | inr e ↦ elim (Bool-cases (grants (u64 (doubled 64 start want * 24)))) [
          | inl g ↦ rw (e, g) refl
          | inr g ↦ rw (e, g) refl
        ]
      ]

  cpu_map_reserve-nodes :
      (cfg : NumaConfig) (cpu : ℕ) → (cpu_map_reserve grants cfg cpu).0.nodes ≡ cfg.nodes
  unfolding cpu_map_reserve
  cpu_map_reserve-nodes cfg cpu =
      let old = length cfg.node_by_cpu in
      let len = doubled 64 (if old == 0 then 64 else old) (cpu + 1) in
      elim (Bool-cases (ltb cpu old)) [
        | inl e ↦ rw e refl
        | inr e ↦ elim (Bool-cases (grants (u64 (len * 8)))) [
          | inl g ↦ rw (e, g) refl
          | inr g ↦ rw (e, g) refl
        ]
      ]

  -- The placement leaves at least the nodes up to `node`.
  place_cpu-nodes :
      (cfg : NumaConfig) (node cpu : ℕ)
      → (length cfg.nodes ≤ length (place_cpu grants cfg node cpu).0.nodes)
        × (1 ≤ length (place_cpu grants cfg node cpu).0.nodes)
  unfolding place_cpu
  place_cpu-nodes cfg node cpu =
      let padded = cfg.nodes ++ replicate (node + 1 - length cfg.nodes) empty_node in
      let r = node_insert_sorted grants (get_or padded node empty_node) cpu in
      let sized : length (set padded node r.0) ≡ length cfg.nodes + (node + 1 - length cfg.nodes) =
        length-set padded node r.0
        ∙ length-append cfg.nodes (replicate (node + 1 - length cfg.nodes) empty_node)
        ∙ ap (λ n. length cfg.nodes + n)
            (length-replicate (node + 1 - length cfg.nodes) empty_node) in
      elim (Bool-cases r.1) [
        | inl e ↦ rw e ((omega (arith, sized), omega (arith, sized)))
        | inr e ↦ rw e ((omega (arith, sized), omega (arith, sized)))
      ]

  -- An addition loses no node, and after a successful one there is a node.
  pub add-nodes :
      (cfg : NumaConfig) (node cpu : ℕ)
      → (length cfg.nodes ≤ length (numa_config_add_cpu_to_node grants cfg node cpu).0.nodes)
        × (is_add_ok grants (numa_config_add_cpu_to_node grants cfg node cpu).1 ≡ true
            → 1 ≤ length (numa_config_add_cpu_to_node grants cfg node cpu).0.nodes)
  unfolding numa_config_add_cpu_to_node
  add-nodes cfg node cpu =
      let with_nodes = nodes_reserve grants cfg (node + 1) in
      let with_map = cpu_map_reserve grants with_nodes.0 cpu in
      let same_nodes = nodes_reserve-nodes cfg (node + 1) in
      let same_map = cpu_map_reserve-nodes with_nodes.0 cpu in
      elim (Bool-cases (leb numa_max_cpus cpu)) [
        | inl a ↦ rw a ((omega arith, λ f. absurd (ground (arith, f))))
        | inr a ↦ elim (Bool-cases (numa_config_is_cpu_assigned cfg cpu)) [
          | inl b ↦ rw (a, b) ((omega arith, λ f. absurd (ground (arith, f))))
          | inr b ↦ elim (Bool-cases with_nodes.1) [
            | inr c ↦
                rw (a, b, c)
                  ((omega (arith, ap length same_nodes), λ f. absurd (ground (arith, f))))
            | inl c ↦ elim (Bool-cases with_map.1) [
              | inr d ↦
                  rw (a, b, c, d)
                    ((
                      omega (arith, ap length same_nodes, ap length same_map),
                      λ f. absurd (ground (arith, f)),
                    ))
              | inl d ↦
                  let placed = place_cpu-nodes with_map.0 node cpu in
                  rw (a, b, c, d)
                    ((
                      omega (arith, ap length same_nodes, ap length same_map, placed.0),
                      λ f. placed.1,
                    ))
            ]
          ]
        ]
      ]
