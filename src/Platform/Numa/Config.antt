-- ===== src/Platform/Numa/Config.antt =====
-- src/platform/numa.c: the lists of the nodes and the map agree after every addition.
use fcfish.Base.{
  ℕ, zero, suc, ◌+◌, ◌-◌, ◌<◌, ◌≡◌, refl, ap, sym, ◌∙◌, arith, true, false, ◌==◌, if◌then◌else◌,
  Bool-cases, ==_iff, inl, inr, ◌⊎◌, List, [], ◌∷◌, ◌++◌, length, get_or, set, replicate,
  length-append, length-replicate, get_or-set_self, get_or-set_ne,
}
use mathlib.Core.Path.{subst}
use fcfish.Platform.Numa.{NumaNode, NumaConfig, empty_node, numa_unassigned, node_at}
use fcfish.Platform.Numa.Insert.{IsAscending, insert_ordered}
use fcfish.Platform.Numa.Ordered.{
  contains, contains-insert_ordered, IsAscending-insert_ordered, length-insert_ordered,
}

-- The number of processors in all nodes.
abbrev pub total : List NumaNode → ℕ
total [] = 0
total (n ∷ ns) = length n.cpus + total ns

-- Every node is ascending, a processor is in the node that the map gives and in no other, and the
-- counter is the number of processors.
pub record IsConsistent (cfg : NumaConfig) : Type 0 where
  pub ascending : (node : ℕ) → IsAscending (node_at cfg node).cpus
  pub mapped :
      (node cpu : ℕ)
      → node < numa_unassigned
      → contains cpu (node_at cfg node).cpus ≡ (get_or cfg.node_by_cpu cpu numa_unassigned == node)
  pub counted : cfg.assigned_cpus ≡ total cfg.nodes

pub get_or-padded {ℓ} :
    {A : Type ℓ} (d : A) (xs : List A) (n i : ℕ) → get_or (xs ++ replicate n d) i d ≡ get_or xs i d
get_or-padded d [] zero i = refl
get_or-padded d [] (suc n) zero = refl
get_or-padded d [] (suc n) (suc i) = get_or-padded d [] n i
get_or-padded d (x ∷ xs) n zero = refl
get_or-padded d (x ∷ xs) n (suc i) = get_or-padded d xs n i

total-padded : (xs : List NumaNode) (n : ℕ) → total (xs ++ replicate n empty_node) ≡ total xs
total-padded [] zero = refl
total-padded [] (suc n) = omega (arith, total-padded [] n)
total-padded (x ∷ xs) n = ap (λ t. length x.cpus + t) (total-padded xs n)

total-set :
    (xs : List NumaNode) (i : ℕ) (n : NumaNode)
    → i < length xs
    → total (set xs i n) + length (get_or xs i empty_node).cpus ≡ total xs + length n.cpus
total-set [] i n h = absurd (omega (arith, h))
total-set (x ∷ xs) zero n h = omega arith
total-set (x ∷ xs) (suc i) n h = omega (arith, total-set xs i n (omega (arith, h)))

pub get_or-set_if {ℓ} :
    {A : Type ℓ} (d : A) (xs : List A) (i j : ℕ) (v : A)
    → i < length xs
    → get_or (set xs i v) j d ≡ (if j == i then v else get_or xs j d)
get_or-set_if d xs i j v h = elim (Bool-cases (j == i)) [
  | inl e ↦ rw e (ap (λ k. get_or (set xs i v) k d) ((==_iff j i).0 e) ∙ get_or-set_self xs i v d h)
  | inr e ↦ rw e (get_or-set_ne xs i j v d (λ q. absurd (ground (arith, q, e))))
]

module _ (cfg : NumaConfig) (ok : IsConsistent cfg) (node : ℕ) where
  -- The nodes, with the missing ones up to `node`.
  abbrev padded : List NumaNode
  padded = cfg.nodes ++ replicate (node + 1 - length cfg.nodes) empty_node

  pub same_node : (i : ℕ) → get_or padded i empty_node ≡ node_at cfg i
  same_node i = get_or-padded empty_node cfg.nodes (node + 1 - length cfg.nodes) i

  pub node-padded : node < length padded
  node-padded = omega (
    arith,
    length-append cfg.nodes (replicate (node + 1 - length cfg.nodes) empty_node),
    length-replicate (node + 1 - length cfg.nodes) empty_node,
  )

  module _ (v : NumaNode) where
    abbrev cpus_after : ℕ → List ℕ
    cpus_after i = (get_or (set padded node v) i empty_node).cpus

    cpus_after-if : (i : ℕ) → cpus_after i ≡ (if i == node then v.cpus else (node_at cfg i).cpus)
    cpus_after-if i =
        ap (λ n. NumaNode.cpus n) (get_or-set_if empty_node padded node i v node-padded)
        ∙ elim (Bool-cases (i == node)) [
          | inl e ↦ rw e refl
          | inr e ↦ rw e (ap (λ n. NumaNode.cpus n) (same_node i))
        ]

    total_after :
        total (set padded node v) + length (node_at cfg node).cpus ≡ total cfg.nodes + length v.cpus
    total_after = omega (
      arith,
      total-set padded node v node-padded,
      ap (λ n. length (NumaNode.cpus n)) (same_node node),
      total-padded cfg.nodes (node + 1 - length cfg.nodes),
    )

    -- Without memory for the processor, nothing is added.
    pub kept_node :
        v.cpus ≡ (node_at cfg node).cpus → IsConsistent (record cfg { nodes = set padded node v })
    kept_node e = record {
      ascending = λ i. subst IsAscending (sym (unchanged i)) (ok.ascending i);
      mapped = λ i cpu small. ap (contains cpu) (unchanged i) ∙ ok.mapped i cpu small;
      counted = omega (arith, total_after, ap length e, ok.counted);
    }
      where
        unchanged : (i : ℕ) → cpus_after i ≡ (node_at cfg i).cpus
        unchanged i = cpus_after-if i ∙ elim (Bool-cases (i == node)) [
          | inl q ↦ rw q (e ∙ ap (λ k. (node_at cfg k).cpus) (sym ((==_iff i node).0 q)))
          | inr q ↦ rw q refl
        ]

    -- With memory, it is in this node and in the map.
    pub added_node :
        (cpu : ℕ)
        → v.cpus ≡ insert_ordered cpu (node_at cfg node).cpus
        → node < numa_unassigned
        → cpu < length cfg.node_by_cpu
        → get_or cfg.node_by_cpu cpu numa_unassigned ≡ numa_unassigned
        → IsConsistent (record cfg {
          nodes = set padded node v;
          node_by_cpu = set cfg.node_by_cpu cpu node;
          assigned_cpus = cfg.assigned_cpus + 1;
        })
    added_node cpu e small long free = record {
      ascending = λ i. subst IsAscending (sym (cpus_after-if i)) (still_ascending i);
      mapped = λ i c below.
          ap (contains c) (cpus_after-if i)
          ∙ agree i c below (Bool-cases (i == node)) (Bool-cases (c == cpu))
          ∙ sym (ap (λ n. n == i) (get_or-set_if numa_unassigned cfg.node_by_cpu cpu c node long));
      counted = omega (
        arith,
        total_after,
        ap length e,
        ok.counted,
        length-insert_ordered cpu (node_at cfg node).cpus absent,
      );
    }
      where
        absent : contains cpu (node_at cfg node).cpus ≡ false
        absent = ok.mapped node cpu small ∙ ap (λ n. n == node) free ∙ ground (arith, small)

        still_ascending : (i : ℕ) → IsAscending (if i == node then v.cpus else (node_at cfg i).cpus)
        still_ascending i = elim (Bool-cases (i == node)) [
          | inl q ↦ rw q (
              subst IsAscending (sym e)
                (IsAscending-insert_ordered cpu (node_at cfg node).cpus (ok.ascending node)))
          | inr q ↦ rw q (ok.ascending i)
        ]

        agree :
            (i c : ℕ)
            → i < numa_unassigned
            → (i == node ≡ true) ⊎ (i == node ≡ false)
            → (c == cpu ≡ true) ⊎ (c == cpu ≡ false)
            → contains c (if i == node then v.cpus else (node_at cfg i).cpus)
              ≡ ((if c == cpu then node else get_or cfg.node_by_cpu c numa_unassigned) == i)
        agree i c below (inl p) (inl q) =
            rw (p, q)
              (ap (contains c) e
                ∙ contains-insert_ordered c cpu (node_at cfg node).cpus
                ∙ ground (arith, p, q))
        agree i c below (inl p) (inr q) =
            let other : (cpu == c) ≡ false = ground (arith, q) in
            rw (p, q)
              (ap (contains c) e
                ∙ contains-insert_ordered c cpu (node_at cfg node).cpus
                ∙ rw other (ok.mapped node c small)
                ∙ ap (λ n. get_or cfg.node_by_cpu c numa_unassigned == n)
                    (sym ((==_iff i node).0 p)))
        agree i c below (inr p) (inl q) =
            rw (p, q)
              (ok.mapped i c below
                ∙ ap (λ k. get_or cfg.node_by_cpu k numa_unassigned == i) ((==_iff c cpu).0 q)
                ∙ ap (λ n. n == i) free
                ∙ ground (arith, below, p))
        agree i c below (inr p) (inr q) = rw (p, q) (ok.mapped i c below)
