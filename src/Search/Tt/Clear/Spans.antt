-- ===== src/Search/Tt/Clear/Spans.antt =====
-- src/engine/search/tt.c: the span jobs together clear the whole table, in any order.
use mathlib.Core.List.{Memᴰ}
use fcfish.Base.{
  ℕ, zero, suc, ◌+◌, ◌-◌, ◌*◌, ◌/◌, ◌≤◌, ◌<◌, ◌≡◌, refl, ◌∙◌, sym, ◌==◌, ◌||◌, leb, ltb, arith,
  List, [], ◌∷◌, length, get_or, set, replicate, Option, length-set, length-replicate,
  get_or-replicate, get_or_ext, if◌then◌else◌, Bool-cases, inl, inr,
}
use fcfish.Search.Tt.Table.{TtCluster, TranspositionTable, zero_cluster}
use fcfish.Search.Tt.Clear.{
  zero_range, span_start, span_len, clear_span, clear_spans, pool_threads, tt_clear,
}

-- Beyond the table the default is a zero cluster too, so no bound is needed.
abbrev IsZeroAt : List TtCluster → ℕ → Type 0
IsZeroAt t c = get_or t c zero_cluster ≡ zero_cluster

set-zero_self : (t : List TtCluster) (i : ℕ) → IsZeroAt (set t i zero_cluster) i
set-zero_self [] i = refl
set-zero_self (x ∷ t) zero = refl
set-zero_self (x ∷ t) (suc i) = set-zero_self t i

set-zero_keeps : (t : List TtCluster) (i c : ℕ) → IsZeroAt t c → IsZeroAt (set t i zero_cluster) c
set-zero_keeps [] i c h = h
set-zero_keeps (x ∷ t) zero zero h = refl
set-zero_keeps (x ∷ t) zero (suc c) h = h
set-zero_keeps (x ∷ t) (suc i) zero h = h
set-zero_keeps (x ∷ t) (suc i) (suc c) h = set-zero_keeps t i c h

zero_range-keeps : (s n c : ℕ) (t : List TtCluster) → IsZeroAt t c → IsZeroAt (zero_range s n t) c
unfolding zero_range
zero_range-keeps s zero c t h = h
zero_range-keeps s (suc n) c t h =
    zero_range-keeps (s + 1) n c (set t s zero_cluster) (set-zero_keeps t s c h)

zero_range-clears :
    (s n c : ℕ) (t : List TtCluster) → s ≤ c → c < s + n → IsZeroAt (zero_range s n t) c
unfolding zero_range
zero_range-clears s zero c t h k = absurd (omega arith)
zero_range-clears s (suc n) c t h k = elim (Bool-cases (s == c)) [
  | inl e ↦
      zero_range-keeps (s + 1) n c (set t s zero_cluster)
        (let e' : s ≡ c = ground arith in rw e' (set-zero_self t c))
  | inr e ↦ zero_range-clears (s + 1) n c (set t s zero_cluster) (ground arith) (omega arith)
]

length-zero_range : (s n : ℕ) (t : List TtCluster) → length (zero_range s n t) ≡ length t
unfolding zero_range
length-zero_range s zero t = refl
length-zero_range s (suc n) t =
    length-zero_range (s + 1) n (set t s zero_cluster) ∙ length-set t s zero_cluster

zero_range-all :
    (n : ℕ) (t : List TtCluster) → length t ≡ n → zero_range 0 n t ≡ replicate n zero_cluster
zero_range-all n t sized =
    get_or_ext zero_cluster _ _
      (length-zero_range 0 n t ∙ sized ∙ sym (length-replicate n zero_cluster))
      (λ c p.
        zero_range-clears 0 n c t (omega arith) (omega (arith, length-zero_range 0 n t, p))
        ∙ sym (get_or-replicate n c zero_cluster))

-- Cluster `c` lies in the span of job `i`.
abbrev pub InSpan : ℕ → ℕ → ℕ → ℕ → Type 0
InSpan count threads i c =
    (span_start count threads i ≤ c) × (c < span_start count threads i + span_len count threads i)

clear_spans-keeps :
    (count threads c : ℕ) (order : List ℕ) (t : List TtCluster)
    → IsZeroAt t c
    → IsZeroAt (clear_spans count threads order t) c
unfolding clear_spans
clear_spans-keeps count threads c [] t h = h
clear_spans-keeps count threads c (i ∷ order) t h =
    clear_spans-keeps count threads c order _
      (zero_range-keeps (span_start count threads i) (span_len count threads i) c t h)

clear_spans-clears :
    (count threads i c : ℕ) (order : List ℕ) (t : List TtCluster)
    → Memᴰ i order
    → InSpan count threads i c
    → IsZeroAt (clear_spans count threads order t) c
unfolding clear_spans
clear_spans-clears count threads i c [] t m h = elim m [ ]
clear_spans-clears count threads i c (j ∷ order) t (Memᴰ.head e) h =
    clear_spans-keeps count threads c order (clear_span count threads j t) (
      rw (← e)
        (zero_range-clears (span_start count threads i) (span_len count threads i) c t h.0 h.1))
clear_spans-clears count threads i c (j ∷ order) t (Memᴰ.tail m) h =
    clear_spans-clears count threads i c order (clear_span count threads j t) m h

length-clear_spans :
    (count threads : ℕ) (order : List ℕ) (t : List TtCluster)
    → length (clear_spans count threads order t) ≡ length t
unfolding clear_spans
length-clear_spans count threads [] t = refl
length-clear_spans count threads (i ∷ order) t =
    length-clear_spans count threads order (clear_span count threads i t)
    ∙ length-zero_range (span_start count threads i) (span_len count threads i) t

-- The job in whose span a cluster lies.
span_of : ℕ → ℕ → ℕ → ℕ
span_of count threads c =
    if ltb c (count / threads * (threads - 1)) then c / (count / threads) else threads - 1

div_bounds : (c q : ℕ) → 0 < q → (q * (c / q) ≤ c) × (c < q * (c / q) + q)
div_bounds c q h = (omega arith, omega arith)

lt_of_mul_lt : (q x m : ℕ) → q * x < q * m → x < m
lt_of_mul_lt q x m h = grind arith

stride_pos : (count threads : ℕ) → 0 < threads → threads ≤ count → 0 < count / threads
stride_pos count threads h k = elim (Bool-cases (count / threads == 0)) [
  | inl e ↦ absurd (ground (arith, div_bounds count threads h))
  | inr e ↦ ground arith
]

span_of-InSpan :
    (count threads c : ℕ)
    → 0 < threads
    → threads ≤ count
    → c < count
    → (span_of count threads c < threads) × InSpan count threads (span_of count threads c) c
unfolding span_of
span_of-InSpan count threads c pos fits h =
    let q = count / threads in
    let q_pos = stride_pos count threads pos fits in
    let bounds = div_bounds c q q_pos in
    elim (Bool-cases (ltb c (q * (threads - 1)))) [
      | inl t ↦
          let below : c / q < threads - 1 =
            lt_of_mul_lt q (c / q) (threads - 1) (ground (arith, bounds)) in
          rw t (omega arith, (ground arith, ground arith))
      | inr t ↦ rw t (omega arith, (ground arith, ground arith))
    ]

abbrev pub Covers : ℕ → List ℕ → Type 0
Covers threads order = (i : ℕ) → i < threads → Memᴰ i order

clear_spans-all :
    (count threads : ℕ) (order : List ℕ) (t : List TtCluster)
    → 0 < threads
    → threads ≤ count
    → Covers threads order
    → length t ≡ count
    → clear_spans count threads order t ≡ replicate count zero_cluster
clear_spans-all count threads order t pos fits covers sized =
    get_or_ext zero_cluster _ _
      (length-clear_spans count threads order t ∙ sized ∙ sym (length-replicate count zero_cluster))
      (λ c p.
        let (job-lt, inside) =
          span_of-InSpan count threads c pos fits
            (omega (arith, length-clear_spans count threads order t, p)) in
        clear_spans-clears count threads (span_of count threads c) c order t
          (covers (span_of count threads c) job-lt) inside
        ∙ sym (get_or-replicate count c zero_cluster))

mul_mono : (q a b : ℕ) → a ≤ b → q * a ≤ q * b
mul_mono q a b h = grind arith

later_disjoint :
    (count threads i j c : ℕ)
    → i < j
    → j < threads
    → InSpan count threads i c
    → InSpan count threads j c
    → ⊥
later_disjoint count threads i j c h k a b =
    ground (arith, mul_mono (count / threads) (i + 1) j (omega arith))

InSpan-lt : (count threads i c : ℕ) → i < threads → InSpan count threads i c → c < count
InSpan-lt count threads i c h a = ground (
  arith,
  mul_mono (count / threads) (i + 1) threads (omega arith),
  div_bounds count threads (omega arith),
)

-- Two different jobs of a clear write no cluster in common, and none writes past the table.
InSpan-disjoint :
    (count threads i j c : ℕ)
    → threads ≤ count
    → i < threads
    → j < threads
    → InSpan count threads i c
    → InSpan count threads j c
    → (i ≡ j) × (c < count)
InSpan-disjoint count threads i j c fits hi hj a b = (same, InSpan-lt count threads i c hi a)
  where
    same : i ≡ j
    same = elim (Bool-cases (ltb i j)) [
      | inl t ↦ absurd (later_disjoint count threads i j c (ground arith) hj a b)
      | inr t ↦ elim (Bool-cases (ltb j i)) [
        | inl u ↦ absurd (later_disjoint count threads j i c (ground arith) hi b a)
        | inr u ↦ ground arith
      ]
    ]

-- A clear leaves every cluster of the table zero and the generation at 0, whatever the number of
-- threads and the order in which the jobs ran, if every job ran.
pub tt_clear_lem :
    (thread_count : Option ℕ) (order : List ℕ) (tab : TranspositionTable)
    → length tab.table ≡ tab.cluster_count
    → Covers (pool_threads thread_count) order
    → tt_clear thread_count order tab ≡ record {
      cluster_count = tab.cluster_count;
      table = replicate tab.cluster_count zero_cluster;
      generation8 = 0;
    }
unfolding tt_clear
tt_clear_lem thread_count order tab sized covers =
    elim (Bool-cases (leb n 1 || ltb tab.cluster_count n)) [
      | inl t ↦ rw (t, zero_range-all tab.cluster_count tab.table sized)
      | inr t ↦ rw (
        t,
        clear_spans-all tab.cluster_count n order tab.table (ground arith) (ground arith) covers
            sized,
      )
    ]
  where
    n : ℕ
    n = pool_threads thread_count
