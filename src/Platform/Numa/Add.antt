-- ===== src/Platform/Numa/Add.antt =====
-- src/platform/numa.c: numa_config_add_cpu_to_node as a whole, its refusals included.
use fcfish.Base.{
  ℕ, zero, suc, ◌+◌, ◌-◌, ◌*◌, ◌≤◌, ◌<◌, ◌≡◌, refl, ap, sym, ◌∙◌, arith, Bool, true, false, ltb,
  leb, ◌==◌, if◌then◌else◌, Bool-cases, ==_iff, inl, inr, List, [], ◌∷◌, ◌++◌, length, get_or,
  replicate, length-append, length-replicate,
}
use fcfish.Base.Words.{u64}
use mathlib.Core.Path.{subst}
use fcfish.Platform.Numa.{
  NumaNode, NumaConfig, empty_node, numa_unassigned, numa_max_cpus, node_at, doubled,
  node_insert_sorted, nodes_reserve, cpu_map_reserve, place_cpu, numa_config_is_cpu_assigned,
  numa_config_add_cpu_to_node,
}
use fcfish.Platform.Numa.Insert.{
  IsAscending, insert_ordered, node_insert_sorted_lem, doubled-reaches,
}
use fcfish.Platform.Numa.Config.{IsConsistent, get_or-padded, kept_node, added_node, same_node}

get_or-beyond :
    (xs : List ℕ) (i : ℕ) → length xs ≤ i → get_or xs i numa_unassigned ≡ numa_unassigned
get_or-beyond [] i h = refl
get_or-beyond (x ∷ xs) zero h = absurd (omega (arith, h))
get_or-beyond (x ∷ xs) (suc i) h = get_or-beyond xs i (omega (arith, h))

module _ (grants : ℕ → Bool) where
  place_cpu-IsConsistent :
      (cfg : NumaConfig) (node cpu : ℕ)
      → IsConsistent cfg
      → node < numa_unassigned
      → cpu < length cfg.node_by_cpu
      → get_or cfg.node_by_cpu cpu numa_unassigned ≡ numa_unassigned
      → IsConsistent (place_cpu grants cfg node cpu).0
  unfolding place_cpu
  place_cpu-IsConsistent cfg node cpu ok small long free = elim (Bool-cases r.1) [
    | inl g ↦ rw g (
        added_node cfg ok node r.0 cpu (inserted ∙ rw g (ap (insert_ordered cpu) same)) small long
          free)
    | inr g ↦ rw g (kept_node cfg ok node r.0 (inserted ∙ rw g same))
  ]
    where
      old : NumaNode
      old = get_or (cfg.nodes ++ replicate (node + 1 - length cfg.nodes) empty_node) node empty_node

      r : NumaNode × Bool
      r = node_insert_sorted grants old cpu

      same : old.cpus ≡ (node_at cfg node).cpus
      same = ap (λ n. NumaNode.cpus n) (same_node cfg ok node node)

      inserted : r.0.cpus ≡ (if r.1 then insert_ordered cpu old.cpus else old.cpus)
      inserted =
          node_insert_sorted_lem grants old cpu (subst IsAscending (sym same) (ok.ascending node))

  nodes_reserve-IsConsistent :
      (cfg : NumaConfig) (want : ℕ)
      → IsConsistent cfg
      → IsConsistent (nodes_reserve grants cfg want).0
  unfolding nodes_reserve
  nodes_reserve-IsConsistent cfg want ok =
      let start = if cfg.node_capacity == 0 then 4 else cfg.node_capacity in
      elim (Bool-cases (leb want cfg.node_capacity)) [
        | inl e ↦ rw e ok
        | inr e ↦ elim (Bool-cases (grants (u64 (doubled 64 start want * 24)))) [
          | inl g ↦
              rw (e, g)
                (record { ascending = ok.ascending; mapped = ok.mapped; counted = ok.counted })
          | inr g ↦ rw (e, g) ok
        ]
      ]

  nodes_reserve-map :
      (cfg : NumaConfig) (want cpu : ℕ)
      → get_or (nodes_reserve grants cfg want).0.node_by_cpu cpu numa_unassigned
        ≡ get_or cfg.node_by_cpu cpu numa_unassigned
  unfolding nodes_reserve
  nodes_reserve-map cfg want cpu =
      let start = if cfg.node_capacity == 0 then 4 else cfg.node_capacity in
      elim (Bool-cases (leb want cfg.node_capacity)) [
        | inl e ↦ rw e refl
        | inr e ↦ elim (Bool-cases (grants (u64 (doubled 64 start want * 24)))) [
          | inl g ↦ rw (e, g) refl
          | inr g ↦ rw (e, g) refl
        ]
      ]

  cpu_map_reserve-IsConsistent :
      (cfg : NumaConfig) (cpu : ℕ)
      → IsConsistent cfg
      → IsConsistent (cpu_map_reserve grants cfg cpu).0
  unfolding cpu_map_reserve
  cpu_map_reserve-IsConsistent cfg cpu ok =
      let old = length cfg.node_by_cpu in
      let len = doubled 64 (if old == 0 then 64 else old) (cpu + 1) in
      elim (Bool-cases (ltb cpu old)) [
        | inl e ↦ rw e ok
        | inr e ↦ elim (Bool-cases (grants (u64 (len * 8)))) [
          | inl g ↦
              rw (e, g)
                (record {
                  ascending = ok.ascending;
                  mapped = λ i c small.
                      ok.mapped i c small
                      ∙ sym (
                          ap (λ n. n == i)
                            (get_or-padded numa_unassigned cfg.node_by_cpu (len - old) c));
                  counted = ok.counted;
                })
          | inr g ↦ rw (e, g) ok
        ]
      ]

  -- With a map that has room, or memory for one, the processor has an entry, free as before.
  cpu_map_reserve-reaches :
      (cfg : NumaConfig) (cpu : ℕ)
      → cpu < numa_max_cpus
      → (cpu_map_reserve grants cfg cpu).1 ≡ true
      → (cpu < length (cpu_map_reserve grants cfg cpu).0.node_by_cpu)
        × (get_or (cpu_map_reserve grants cfg cpu).0.node_by_cpu cpu numa_unassigned
            ≡ get_or cfg.node_by_cpu cpu numa_unassigned)
  unfolding cpu_map_reserve
  cpu_map_reserve-reaches cfg cpu below done =
      let old = length cfg.node_by_cpu in
      let start = if old == 0 then 64 else old in
      let len = doubled 64 start (cpu + 1) in
      let positive : 1 ≤ start = ground arith in
      let reaches : cpu + 1 ≤ len =
        doubled-reaches 64 start (cpu + 1) (omega (arith, below, positive))
          (omega (arith, below)) in
      elim (Bool-cases (ltb cpu old)) [
        | inl e ↦ rw e (ground (arith, e), refl)
        | inr e ↦ elim (Bool-cases (grants (u64 (len * 8)))) [
          | inl g ↦
              rw (e, g)
                (
                  omega (
                    arith,
                    reaches,
                    length-append cfg.node_by_cpu (replicate (len - old) numa_unassigned),
                    length-replicate (len - old) numa_unassigned,
                  ),
                  get_or-padded numa_unassigned cfg.node_by_cpu (len - old) cpu,
                )
          | inr g ↦ absurd (ground (arith, rw (e, g) at done))
        ]
      ]

  free_entry :
      (cfg : NumaConfig) (cpu : ℕ)
      → numa_config_is_cpu_assigned cfg cpu ≡ false
      → get_or cfg.node_by_cpu cpu numa_unassigned ≡ numa_unassigned
  unfolding numa_config_is_cpu_assigned
  free_entry cfg cpu h = elim (Bool-cases (ltb cpu (length cfg.node_by_cpu))) [
    | inl e ↦ elim (Bool-cases (get_or cfg.node_by_cpu cpu numa_unassigned == numa_unassigned)) [
      | inl q ↦ (==_iff (get_or cfg.node_by_cpu cpu numa_unassigned) numa_unassigned).0 q
      | inr q ↦ absurd (ground (arith, rw (e, q) at h))
    ]
    | inr e ↦ get_or-beyond cfg.node_by_cpu cpu (ground (arith, e))
  ]

  -- Every addition, refused or not, keeps the node lists ascending and free of doubles, a processor
  -- in the node that the map gives and in no other, and the counter equal to the number of
  -- processors, for a node below SIZE_MAX.
  pub add-IsConsistent :
      (cfg : NumaConfig) (node cpu : ℕ)
      → IsConsistent cfg
      → node < numa_unassigned
      → IsConsistent (numa_config_add_cpu_to_node grants cfg node cpu).0
  unfolding numa_config_add_cpu_to_node
  add-IsConsistent cfg node cpu ok small =
      let with_nodes = nodes_reserve grants cfg (node + 1) in
      let with_map = cpu_map_reserve grants with_nodes.0 cpu in
      let nodes_ok = nodes_reserve-IsConsistent cfg (node + 1) ok in
      let map_ok = cpu_map_reserve-IsConsistent with_nodes.0 cpu nodes_ok in
      elim (Bool-cases (leb numa_max_cpus cpu)) [
        | inl a ↦ rw a ok
        | inr a ↦ elim (Bool-cases (numa_config_is_cpu_assigned cfg cpu)) [
          | inl b ↦ rw (a, b) ok
          | inr b ↦ elim (Bool-cases with_nodes.1) [
            | inr c ↦ rw (a, b, c) nodes_ok
            | inl c ↦ elim (Bool-cases with_map.1) [
              | inr d ↦ rw (a, b, c, d) map_ok
              | inl d ↦
                  let reached = cpu_map_reserve-reaches with_nodes.0 cpu (ground (arith, a)) d in
                  rw (a, b, c, d)
                    (place_cpu-IsConsistent with_map.0 node cpu map_ok small reached.0
                      (reached.1 ∙ nodes_reserve-map cfg (node + 1) cpu ∙ free_entry cfg cpu b))
            ]
          ]
        ]
      ]
