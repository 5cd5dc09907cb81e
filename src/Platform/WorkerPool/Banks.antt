-- ===== src/Platform/WorkerPool/Banks.antt =====
-- src/platform/worker_pool.c with src/engine/search/history.c: the workers of a node clear its
-- shared bank together.
use fcfish.Base.{
  ℕ, zero, suc, ◌+◌, ◌*◌, ◌≡◌, ◌≤◌, ◌<◌, refl, ap, sym, ◌∙◌, arith, Bool, true, false, ◌==◌,
  if◌then◌else◌, Bool-cases, ==_iff, inl, inr, List, [], ◌∷◌,
}
use mathlib.Core.Path.{subst}
use mathlib.Core.List.{Memᴰ}
use fcfish.Base.Int.{negsuc}
use fcfish.Search.History.{BankSizes, hist_pieceto, continuation_pages}
use fcfish.Search.History.Clear.{SharedTables, clear_shared, clear_in_order, corr_ints_per_page}
use fcfish.Search.Tt.Clear.Spans.{Covers}
use fcfish.Search.History.Filled.{clear_in_order_lem}
use fcfish.Platform.WorkerPool.{
  Counters, bump, node_of_thread, per_node_total, WorkerCtorInputs, builder_inputs, build_workers,
  pool_workers, worker_clear, clear_workers,
}

-- The indices on a node, of the workers that stand there, in the order in which they were built.
abbrev pub indices_on : ℕ → List WorkerCtorInputs → List ℕ
indices_on node [] = []
indices_on node (w ∷ ws) =
    let rest = indices_on node ws in
    if w.numa_access_token == node then w.numa_thread_idx ∷ rest else rest

-- The `n` numbers from `first` on.
abbrev pub numbers : ℕ → ℕ → List ℕ
numbers first zero = []
numbers first (suc n) = first ∷ numbers (suc first) n

-- The threads of a node.
abbrev pub count_on : ℕ → List ℕ → ℕ
count_on node [] = 0
count_on node (n ∷ ns) = if n == node then suc (count_on node ns) else count_on node ns

bump_self :
    (table : Counters) (n node : ℕ) → (n == node) ≡ true → bump table n node ≡ suc (table node)
unfolding bump
bump_self table n node e =
    let back : (node == n) ≡ true = ground (arith, e) in rw back (omega arith)

bump_other : (table : Counters) (n node : ℕ) → (n == node) ≡ false → bump table n node ≡ table node
unfolding bump
bump_other table n node e = let back : (node == n) ≡ false = ground (arith, e) in rw back refl

per_node_total-count :
    (nodes : List ℕ) (table : Counters) (node : ℕ)
    → per_node_total nodes table node ≡ table node + count_on node nodes
unfolding per_node_total
per_node_total-count [] table node = omega arith
per_node_total-count (n ∷ ns) table node =
    per_node_total-count ns (bump table n) node ∙ elim (Bool-cases (n == node)) [
      | inl e ↦ rw e (omega (arith, bump_self table n node e))
      | inr e ↦ rw e (omega (arith, bump_other table n node e))
    ]

build_workers-indices :
    (has_bank creates : ℕ → Bool) (total placed : Counters) (idx : ℕ) (nodes : List ℕ) (node : ℕ)
    → (build_workers has_bank creates total placed idx nodes).1 ≡ true
    → indices_on node (build_workers has_bank creates total placed idx nodes).0
      ≡ numbers (placed node) (count_on node nodes)
unfolding build_workers builder_inputs
build_workers-indices has_bank creates total placed idx [] node done = refl
build_workers-indices has_bank creates total placed idx (n ∷ ns) node done =
    elim (Bool-cases (has_bank n)) [
      | inr a ↦ absurd (ground (arith, rw a at done))
      | inl a ↦ elim (Bool-cases (creates idx)) [
        | inr b ↦ absurd (ground (arith, rw (a, b) at done))
        | inl b ↦
            let ih =
              build_workers-indices has_bank creates total (bump placed n) (idx + 1) ns node
                (rw (a, b) at done) in
            elim (Bool-cases (n == node)) [
              | inl c ↦
                  rw (a, b, c)
                    (ap (λ l. placed n ∷ l)
                        (ih ∙ ap (λ k. numbers k (count_on node ns)) (bump_self placed n node c))
                      ∙ ap (λ k. placed k ∷ numbers (suc (placed node)) (count_on node ns))
                          ((==_iff n node).0 c))
              | inr c ↦
                  rw (a, b, c)
                    (ih ∙ ap (λ k. numbers k (count_on node ns)) (bump_other placed n node c))
            ]
      ]
    ]

-- In a resize that succeeds, the workers of each node are numbered from 0 on in the order in which
-- they are built, and there are as many of them as PerNodeTotal says.
pub pool_workers-indices :
    (has_bank creates : ℕ → Bool) (distribution : List ℕ) (node : ℕ)
    → (pool_workers has_bank creates distribution).1 ≡ true
    → indices_on node (pool_workers has_bank creates distribution).0
      ≡ numbers 0 (per_node_total (node_of_thread distribution) (λ n. 0) node)
unfolding pool_workers
pool_workers-indices has_bank creates distribution node done =
    let nodes = node_of_thread distribution in
    let counted : count_on node nodes ≡ per_node_total nodes (λ n. 0) node =
      omega (arith, per_node_total-count nodes (λ n. 0) node) in
    build_workers-indices has_bank creates (per_node_total nodes (λ n. 0)) (λ n. 0) 0 nodes node
      done
    ∙ ap (numbers 0) counted

numbers-Covers : (first n i : ℕ) → first ≤ i → i < first + n → Memᴰ i (numbers first n)
numbers-Covers first zero i le lt = absurd (omega (arith, le, lt))
numbers-Covers first (suc n) i le lt = elim (Bool-cases (i == first)) [
  | inl e ↦ Memᴰ.head ((==_iff i first).0 e)
  | inr e ↦ Memᴰ.tail (numbers-Covers (suc first) n i (ground (arith, e, le)) (omega (arith, lt)))
]

-- The workers that stand on a node, in the order in which they were built.
abbrev pub workers_on : ℕ → List WorkerCtorInputs → List WorkerCtorInputs
workers_on node [] = []
workers_on node (w ∷ ws) =
    let rest = workers_on node ws in if w.numa_access_token == node then w ∷ rest else rest

clear_workers-in_order :
    (has_bank creates : ℕ → Bool) (total placed : Counters) (idx : ℕ) (nodes : List ℕ) (node : ℕ)
    (sizes : BankSizes) (sh : SharedTables)
    → 0 < total node
    → clear_workers sizes
        (workers_on node (build_workers has_bank creates total placed idx nodes).0)
        sh
      ≡ clear_in_order sizes
          (total node)
          (indices_on node (build_workers has_bank creates total placed idx nodes).0)
          sh
unfolding build_workers builder_inputs clear_workers clear_in_order worker_clear
clear_workers-in_order has_bank creates total placed idx [] node sizes sh some = refl
clear_workers-in_order has_bank creates total placed idx (n ∷ ns) node sizes sh some =
    elim (Bool-cases (has_bank n)) [
      | inr a ↦ rw a refl
      | inl a ↦ elim (Bool-cases (creates idx)) [
        | inr b ↦ rw (a, b) refl
        | inl b ↦ elim (Bool-cases (n == node)) [
          | inr c ↦
              rw (a, b, c)
                (clear_workers-in_order has_bank creates total (bump placed n) (idx + 1) ns node
                  sizes sh some)
          | inl c ↦
              let here : total n ≡ total node = ap total ((==_iff n node).0 c) in
              let own : (if total n == 0 then 1 else total n) ≡ total node =
                ground (arith, here, some) in
              rw (a, b, c)
                (clear_workers-in_order has_bank creates total (bump placed n) (idx + 1) ns node
                    sizes (clear_shared sizes (placed n) (if total n == 0 then 1 else total n) sh)
                    some
                  ∙ ap
                      (λ t.
                        clear_in_order sizes (total node)
                          (indices_on node
                            (build_workers has_bank creates total (bump placed n) (idx + 1) ns).0)
                          (clear_shared sizes (placed n) t sh))
                      own)
        ]
      ]
    ]

-- When the workers that a successful resize built on an occupied node clear the shared bank of the
-- node, each with the index and the total that it was built with, every entry of the three tables
-- holds its fill.
pub pool_workers-clear :
    (has_bank creates : ℕ → Bool) (distribution : List ℕ) (node : ℕ) (sizes : BankSizes)
    (sh : SharedTables) (corr_entry pawn_entry cont_entry : ℕ)
    → (pool_workers has_bank creates distribution).1 ≡ true
    → 0 < per_node_total (node_of_thread distribution) (λ n. 0) node
    → corr_entry < sizes.corr_size * corr_ints_per_page
    → pawn_entry < sizes.pawn_size * hist_pieceto
    → cont_entry < continuation_pages * hist_pieceto
    → let built = workers_on node (pool_workers has_bank creates distribution).0 in
      let done = clear_workers sizes built sh in
      (done.correction corr_entry ≡ negsuc 4)
      × (done.pawn pawn_entry ≡ negsuc 1337)
      × (done.continuation cont_entry ≡ negsuc 585)
unfolding pool_workers
pool_workers-clear has_bank creates distribution node sizes sh ce pe ke done some hc hp hk =
    let nodes = node_of_thread distribution in
    let total = per_node_total nodes (λ n. 0) in
    rw (clear_workers-in_order has_bank creates total (λ n. 0) 0 nodes node sizes sh some) (
      clear_in_order_lem sizes (total node)
        (indices_on node (pool_workers has_bank creates distribution).0) sh ce pe ke some
        (subst (λ l. Covers (total node) l)
          (sym (pool_workers-indices has_bank creates distribution node done))
          (λ i lt. numbers-Covers 0 (total node) i (omega arith) (omega (arith, lt))))
        hc hp hk)
