-- ===== src/Search/Tt/Clear/Resize.antt =====
-- src/engine/search/tt.c: what `tt_resize` and `tt_free` leave, and the blocks that they own.
use fcfish.Base.{
  ◌∙◌, ℕ, ◌*◌, ◌/◌, ◌^◌, ◌<◌, ◌≡◌, refl, ap, Bool, false, ◌==◌, arith, List, length, replicate,
  Option, none, some, length-replicate, get_or-replicate, if◌then◌else◌, Bool-cases, inl, inr,
}
use fcfish.Base.Int.{pos, ◌+ℤ◌, ◌-ℤ◌}
use fcfish.Base.Words.{u64}
use fcfish.Search.Tt.Table.{TtCluster, TranspositionTable, zero_cluster}
use fcfish.Search.Tt.Probe.{IsTable}
use fcfish.Search.Tt.Clear.{TtMemory, tt_free, install, tt_resize, pool_threads}
use fcfish.Search.Tt.Clear.Spans.{Covers, tt_clear_lem}

-- One arena block is live while the table is one, and none while it is the fallback.
abbrev pub IsAccounted : TtMemory → Type 0
IsAccounted mem = mem.live ≡ (if mem.owned then pos 1 else pos 0)

abbrev pub zero_table : ℕ → TranspositionTable
zero_table n = record { cluster_count = n; table = replicate n zero_cluster; generation8 = 0 }

zero_table-IsTable : (n : ℕ) → 0 < n → IsTable (zero_table n)
zero_table-IsTable n h = record {
  sized = length-replicate n zero_cluster;
  nonempty = h;
  full = λ c p. ap length (get_or-replicate n c zero_cluster);
  generation = omega arith;
}

-- What every resize leaves: a table to probe, blocks accounted for, and on success a zero table of
-- the asked number of clusters, on failure the zero fallback cluster.
pub record IsResized (n : ℕ) (r : TtMemory × Bool) : Type 0 where
  pub probes : IsTable r.0.tab
  pub accounted : IsAccounted r.0
  pub table : r.0.tab ≡ (if r.1 then zero_table n else zero_table 1)

install-IsResized :
    (thread_count : Option ℕ) (order : List ℕ) (n : ℕ) (freed : TtMemory)
    (block : Option (List TtCluster))
    → 0 < n
    → Covers (pool_threads thread_count) order
    → ((t : List TtCluster) → block ≡ some t → length t ≡ n)
    → freed.tab ≡ zero_table 1
    → freed.owned ≡ false
    → freed.live ≡ pos 0
    → IsResized n (install thread_count order n freed block)
unfolding install ◌+ℤ◌
install-IsResized thread_count order n freed none positive covers sized e o l = record {
  probes = rw e (zero_table-IsTable 1 (omega arith));
  accounted = rw (o, l) refl;
  table = e;
}
install-IsResized thread_count order n freed (some t) positive covers sized e o l =
    let clear =
      tt_clear_lem thread_count order
        (record { cluster_count = n; table = t; generation8 = freed.tab.generation8 })
        (sized t refl) covers in
    record {
      probes = rw clear (zero_table-IsTable n positive);
      accounted = rw l refl;
      table = clear;
    }

tt_free-lem :
    (mem : TtMemory)
    → IsAccounted mem
    → ((tt_free mem).tab ≡ zero_table 1)
      × ((tt_free mem).owned ≡ false)
      × ((tt_free mem).live ≡ pos 0)
unfolding tt_free ◌-ℤ◌
tt_free-lem mem h = (
  refl,
  refl,
  elim (Bool-cases mem.owned) [ inl o ↦ rw o (rw h (rw o refl)) | inr o ↦ rw o (h ∙ rw o refl) ],
)

refused-IsResized : (mem : TtMemory) (n : ℕ) → IsAccounted mem → IsResized n (tt_free mem, false)
refused-IsResized mem n h =
    let (e, o, l) = tt_free-lem mem h in
    record {
      probes = rw e (zero_table-IsTable 1 (omega arith));
      accounted = rw (o, l) refl;
      table = e;
    }

-- Resizing to `mb` megabytes, less than 2 ^ 44, with an allocator whose blocks have the size asked for and a pool that
-- runs every job of a clear, leaves on success a zero table of `mb * 32768` clusters, on failure
-- the zero fallback cluster. Either can be probed, and no block is lost or freed twice.
pub tt_resize-IsResized :
    (arena_alloc : ℕ → Option (List TtCluster)) (thread_count : Option ℕ) (order : List ℕ) (mb : ℕ)
    (mem : TtMemory)
    → ((n : ℕ) (t : List TtCluster) → arena_alloc n ≡ some t → length t ≡ n)
    → Covers (pool_threads thread_count) order
    → mb < 2 ^ 44
    → IsAccounted mem
    → IsResized (mb * 32768) (tt_resize arena_alloc thread_count order mb mem)
unfolding tt_resize
tt_resize-IsResized arena_alloc thread_count order mb mem sized covers small h =
    let n = u64 (mb * 1024 * 1024) / 32 in
    let exact : mb * 32768 ≡ n = omega arith in
    let (e, o, l) = tt_free-lem mem h in
    rw exact (elim (Bool-cases (n == 0)) [
      | inl t ↦ rw t (refused-IsResized mem n h)
      | inr t ↦ rw t (
          install-IsResized thread_count order n (tt_free mem) (arena_alloc n) (ground arith) covers
            (sized n) e o l)
    ])
