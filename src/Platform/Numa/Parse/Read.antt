-- ===== src/Platform/Numa/Parse/Read.antt =====
-- src/platform/numa.c: a topology that was read from a text is consistent and has a node.
use fcfish.Base.{
  ℕ, zero, suc, ◌+◌, ◌-◌, ◌≤◌, ◌<◌, ◌≡◌, refl, arith, Bool, true, false, ◌==◌, if◌then◌else◌,
  Bool-cases, Option-cases, inl, inr, List, [], ◌∷◌, length, Option, none, some,
}
use mathlib.Core.Option.{some-injective, none-ne-some}
use mathlib.Core.Path.{subst}
use fcfish.Platform.Numa.{
  NumaConfig, numa_unassigned, numa_config_init, numa_config_add_cpu_to_node, numa_config_num_nodes,
}
use fcfish.Platform.Numa.Config.{IsConsistent}
use fcfish.Platform.Numa.Add.{add-IsConsistent}
use fcfish.Platform.Numa.Parse.{
  size_max, in_front, split_on, Walk, range_loop, walk_range, walk_elements, for_each_index,
  add_sink, read_nodes, custom_config, numa_config_from_string, is_add_ok, parse_element,
}
use fcfish.Platform.Numa.Parse.Nodes.{add-nodes}

length-in_front : (c : ℕ) (ps : List (List ℕ)) → 1 ≤ length ps → length (in_front c ps) ≡ length ps
length-in_front c [] h = absurd (omega (arith, h))
length-in_front c (p ∷ ps) h = refl

length-split_on :
    (sep : ℕ) (s : List ℕ)
    → (1 ≤ length (split_on sep s)) × (length (split_on sep s) ≤ length s + 1)
unfolding split_on
length-split_on sep [] = (omega arith, omega arith)
length-split_on sep (c ∷ s) =
    let ih = length-split_on sep s in
    elim (Bool-cases (c == sep)) [
      | inl e ↦ rw e ((omega arith, omega (arith, ih.1)))
      | inr e ↦ rw e (
          (
            omega (arith, length-in_front c (split_on sep s) ih.0, ih.0),
            omega (arith, length-in_front c (split_on sep s) ih.0, ih.1),
          ))
    ]

module _ (grants : ℕ → Bool) where
  -- What a walk keeps, that started with `least` nodes.
  record IsGood (least : ℕ) (w : Walk NumaConfig) : Type 0 where
    consistent : IsConsistent w.state
    kept : least ≤ length w.state.nodes
    named : w.any ≡ true → 1 ≤ length w.state.nodes

  module _ (node : ℕ) (small : node < numa_unassigned) (least : ℕ) where
    range_loop-IsGood :
        (n index : ℕ) (w : Walk NumaConfig)
        → IsGood least w
        → IsGood least (range_loop (add_sink grants node) n index w)
    unfolding range_loop add_sink
    range_loop-IsGood zero index w good = good
    range_loop-IsGood (suc n) index w good =
        let r = numa_config_add_cpu_to_node grants w.state node index in
        let still = add-IsConsistent grants w.state node index good.consistent small in
        let grown = add-nodes grants w.state node index in
        elim (Bool-cases (is_add_ok grants r.1)) [
          | inl e ↦ rw e (
              range_loop-IsGood n (index + 1) (record { state = r.0; any = true; ok = true })
                (record {
                  consistent = still;
                  kept = omega (arith, grown.0, good.kept);
                  named = λ f. grown.1 e;
                }))
          | inr e ↦ rw e (record {
            consistent = still;
            kept = omega (arith, grown.0, good.kept);
            named = λ f. omega (arith, good.named f, grown.0);
          })
        ]

    walk_range-IsGood :
        (o : Option (ℕ × ℕ)) (w : Walk NumaConfig)
        → IsGood least w
        → IsGood least (walk_range (add_sink grants node) true o w)
    unfolding walk_range
    walk_range-IsGood none w good = record {
      consistent = good.consistent;
      kept = good.kept;
      named = good.named;
    }
    walk_range-IsGood (some range) w good = range_loop-IsGood (range.1 + 1 - range.0) range.0 w good

    walk_elements-IsGood :
        (es : List (List ℕ)) (w : Walk NumaConfig)
        → IsGood least w
        → IsGood least (walk_elements (add_sink grants node) true es w)
    unfolding walk_elements
    walk_elements-IsGood [] w good = good
    walk_elements-IsGood (e ∷ es) w good =
        let next =
          if length e == 0 then w else walk_range (add_sink grants node) true (parse_element e) w in
        let next_good : IsGood least next = elim (Bool-cases (length e == 0)) [
          | inl q ↦ rw q good
          | inr q ↦ rw q (walk_range-IsGood (parse_element e) w good)
        ] in
        elim (Bool-cases next.ok) [
          | inl q ↦ rw q (walk_elements-IsGood es next next_good)
          | inr q ↦ rw q next_good
        ]

  read_nodes-IsConsistent :
      (ps : List (List ℕ)) (cfg : NumaConfig) (node : ℕ) (r : NumaConfig × ℕ)
      → IsConsistent cfg
      → (1 ≤ node → 1 ≤ length cfg.nodes)
      → node + length ps ≤ size_max
      → read_nodes grants ps cfg node ≡ some r
      → IsConsistent r.0 × (1 ≤ r.1 → 1 ≤ length r.0.nodes)
  unfolding read_nodes for_each_index
  read_nodes-IsConsistent [] cfg node r ok named short e =
      let same = some-injective (cfg, node) r e in
      subst (λ p. IsConsistent p.0 × (1 ≤ p.1 → 1 ≤ length (NumaConfig.nodes p.0))) same
        ((ok, named))
  read_nodes-IsConsistent (p ∷ ps) cfg node r ok named short e =
      let w = for_each_index (add_sink grants node) true p cfg in
      let good : IsGood (length cfg.nodes) w =
        walk_elements-IsGood node (omega (arith, short)) (length cfg.nodes) (split_on 44 p)
          (record { state = cfg; any = false; ok = true })
          (record {
            consistent = ok;
            kept = omega arith;
            named = λ f. absurd (ground (arith, f));
          }) in
      elim (Bool-cases w.ok) [
        | inl q ↦
            let rest = rw q at e in
            elim (Bool-cases w.any) [
              | inl a ↦
                  read_nodes-IsConsistent ps w.state (node + 1) r good.consistent
                    (λ h. good.named a) (omega (arith, short)) (rw a at rest)
              | inr a ↦
                  read_nodes-IsConsistent ps w.state node r good.consistent
                    (λ h. omega (arith, good.kept, named h)) (omega (arith, short)) (rw a at rest)
            ]
        | inr q ↦ absurd (none-ne-some r (rw q at e))
      ]

  pub empty-IsConsistent : IsConsistent numa_config_init
  unfolding numa_config_init
  empty-IsConsistent = record {
    ascending = λ node i j p q. absurd (omega (arith, p, q));
    mapped = λ node cpu small. ground (arith, small);
    counted = refl;
  }

  -- A topology that is read from a text of fewer than 2^64 - 1 characters is consistent, has at
  -- least one node, and binds its threads.
  pub numa_config_from_string-IsConsistent :
      (s : List ℕ) (cfg : NumaConfig)
      → length s < size_max
      → numa_config_from_string grants s ≡ some cfg
      → IsConsistent cfg × (1 ≤ numa_config_num_nodes cfg) × (cfg.custom_affinity ≡ true)
  unfolding numa_config_from_string custom_config numa_config_num_nodes numa_config_init
  numa_config_from_string-IsConsistent s cfg short e =
      elim (Option-cases (read_nodes grants (split_on 58 s) numa_config_init 0)) [
        | inl n ↦ absurd (none-ne-some cfg (rw n at e))
        | inr (r, q) ↦
            let pieces = length-split_on 58 s in
            let kept =
              read_nodes-IsConsistent (split_on 58 s) numa_config_init 0 r empty-IsConsistent
                (λ h. absurd (omega (arith, h))) (omega (arith, short, pieces.1)) q in
            let result = rw q at e in
            elim (Bool-cases (r.1 == 0)) [
              | inl z ↦ absurd (none-ne-some cfg (rw z at result))
              | inr z ↦
                  let same =
                    some-injective (record r.0 { custom_affinity = true }) cfg (rw z at result) in
                  subst
                    (λ c.
                      IsConsistent c
                      × (1 ≤ length (NumaConfig.nodes c))
                      × (NumaConfig.custom_affinity c ≡ true))
                    same
                    ((
                      record {
                        ascending = kept.0.ascending;
                        mapped = kept.0.mapped;
                        counted = kept.0.counted;
                      },
                      kept.1 (ground (arith, z)),
                      refl,
                    ))
            ]
      ]
