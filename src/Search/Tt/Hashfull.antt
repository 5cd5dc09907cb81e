-- ===== src/Search/Tt/Hashfull.antt =====
-- src/engine/search/tt.c: the fill that `tt_hashfull` reports.
use fcfish.Base.{
  ℕ, zero, suc, ◌*◌, ◌/◌, ◌≤◌, ◌<◌, ◌≡◌, refl, arith, List, [], ◌∷◌, length, get_or, take,
  replicate, ltb, Bool-cases, inl, inr,
}
use fcfish.Base.Int.{ℤ}
use fcfish.Search.Tt.Entry.{tt_entry_is_occupied}
use fcfish.Search.Tt.Table.{
  TtCluster, TranspositionTable, zero_cluster, count_fresh, count_clusters, tt_hashfull,
}
use fcfish.Search.Tt.Probe.{IsTable}

count_fresh-le : (g : ℕ) (max_age : ℤ) (es : TtCluster) → count_fresh g max_age es ≤ length es
unfolding count_fresh
count_fresh-le g max_age [] = omega arith
count_fresh-le g max_age (e ∷ es) = ground (arith, count_fresh-le g max_age es)

count_clusters-le :
    (g n : ℕ) (max_age : ℤ) (t : List TtCluster)
    → ((c : ℕ) → c < length t → length (get_or t c zero_cluster) ≡ 3)
    → count_clusters g max_age (take n t) ≤ 3 * n
unfolding count_clusters
count_clusters-le g zero max_age t full = omega arith
count_clusters-le g (suc n) max_age [] full = omega arith
count_clusters-le g (suc n) max_age (c ∷ t) full = omega (
  arith,
  count_fresh-le g max_age c,
  full 0 (omega arith),
  count_clusters-le g n max_age t (λ i p. full (suc i) (omega arith)),
)

-- On a table as set up the reported fill is a permille.
tt_hashfull-le :
    (tab : TranspositionTable) (max_age : ℤ) → IsTable tab → tt_hashfull tab max_age ≤ 1000
unfolding tt_hashfull
tt_hashfull-le tab max_age h = elim (Bool-cases (ltb tab.cluster_count 1000)) [
  | inl t ↦ rw t (permille tab.cluster_count (ground arith))
  | inr t ↦ rw t (permille 1000 (omega arith))
]
  where
    full : (c : ℕ) → c < length tab.table → length (get_or tab.table c zero_cluster) ≡ 3
    full c p = h.full c (omega (arith, h.sized))

    permille :
        (n : ℕ) → n ≤ 1000 → count_clusters tab.generation8 max_age (take n tab.table) / 3 ≤ 1000
    permille n small = omega (arith, count_clusters-le tab.generation8 n max_age tab.table full)

count_clusters-zero :
    (g n k : ℕ) (max_age : ℤ) → count_clusters g max_age (take k (replicate n zero_cluster)) ≡ 0
unfolding count_clusters tt_entry_is_occupied
count_clusters-zero g n zero max_age = refl
count_clusters-zero g zero (suc k) max_age = refl
count_clusters-zero g (suc n) (suc k) max_age = omega (arith, count_clusters-zero g n k max_age)

-- A cleared table reports no fill at any age.
pub tt_hashfull-cleared :
    (tab : TranspositionTable) (n : ℕ) (max_age : ℤ)
    → tab.table ≡ replicate n zero_cluster
    → tt_hashfull tab max_age ≡ 0
unfolding tt_hashfull
tt_hashfull-cleared tab n max_age h = rw h (
    ground (
      arith,
      count_clusters-zero tab.generation8 n tab.cluster_count max_age,
      count_clusters-zero tab.generation8 n 1000 max_age,
    ))
