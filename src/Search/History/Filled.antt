-- ===== src/Search/History/Filled.antt =====
-- src/engine/search/history.c: what the workers of a node leave of its bank when all have cleared.
use fcfish.Base.{ℕ, ◌*◌, ◌/◌, ◌<◌, ◌≡◌, ap, sym, ◌∙◌, arith, List, [], ◌∷◌}
use fcfish.Base.Int.{ℤ, negsuc}
use mathlib.Core.List.{Memᴰ}
use fcfish.Search.Tt.Clear.Spans.{Covers}
use fcfish.Search.History.{hist_pieceto, continuation_pages, BankSizes}
use fcfish.Search.History.Stripes.{InStripe, stripe_covers}
use fcfish.Search.History.Clear.{corr_ints_per_page, SharedTables, clear_shared, clear_in_order}

module _ (sizes : BankSizes) (total : ℕ) where
  -- A cell that every worker either leaves or sets to `v`, and that worker `i` sets.
  run-keeps :
      (cell : SharedTables → ℤ) (v : ℤ) (order : List ℕ) (sh : SharedTables)
      → ((idx : ℕ) (s : SharedTables) → cell s ≡ v → cell (clear_shared sizes idx total s) ≡ v)
      → cell sh ≡ v
      → cell (clear_in_order sizes total order sh) ≡ v
  unfolding clear_in_order
  run-keeps cell v [] sh keeps h = h
  run-keeps cell v (idx ∷ order) sh keeps h =
      run-keeps cell v order (clear_shared sizes idx total sh) keeps (keeps idx sh h)

  run-sets :
      (cell : SharedTables → ℤ) (v : ℤ) (i : ℕ) (order : List ℕ) (sh : SharedTables)
      → ((idx : ℕ) (s : SharedTables) → cell s ≡ v → cell (clear_shared sizes idx total s) ≡ v)
      → ((s : SharedTables) → cell (clear_shared sizes i total s) ≡ v)
      → Memᴰ i order
      → cell (clear_in_order sizes total order sh) ≡ v
  unfolding clear_in_order
  run-sets cell v i [] sh keeps sets m = elim m [ ]
  run-sets cell v i (j ∷ order) sh keeps sets (Memᴰ.head e) =
      run-keeps cell v order (clear_shared sizes j total sh) keeps
        (ap (λ k. cell (clear_shared sizes k total sh)) (sym e) ∙ sets sh)
  run-sets cell v i (j ∷ order) sh keeps sets (Memᴰ.tail m) =
      run-sets cell v i order (clear_shared sizes j total sh) keeps sets m

  correction-sets :
      (idx e : ℕ) (sh : SharedTables)
      → InStripe sizes.corr_size total idx (e / corr_ints_per_page)
      → (clear_shared sizes idx total sh).correction e ≡ negsuc 4
  unfolding clear_shared
  correction-sets idx e sh h = ground (arith, h)

  pawn-sets :
      (idx e : ℕ) (sh : SharedTables)
      → InStripe sizes.pawn_size total idx (e / hist_pieceto)
      → (clear_shared sizes idx total sh).pawn e ≡ negsuc 1337
  unfolding clear_shared
  pawn-sets idx e sh h = ground (arith, h)

  correction-keeps :
      (e idx : ℕ) (sh : SharedTables)
      → sh.correction e ≡ negsuc 4
      → (clear_shared sizes idx total sh).correction e ≡ negsuc 4
  unfolding clear_shared
  correction-keeps e idx sh h = ground (arith, h)

  pawn-keeps :
      (e idx : ℕ) (sh : SharedTables)
      → sh.pawn e ≡ negsuc 1337
      → (clear_shared sizes idx total sh).pawn e ≡ negsuc 1337
  unfolding clear_shared
  pawn-keeps e idx sh h = ground (arith, h)

  continuation-keeps :
      (e idx : ℕ) (sh : SharedTables)
      → sh.continuation e ≡ negsuc 585
      → (clear_shared sizes idx total sh).continuation e ≡ negsuc 585
  unfolding clear_shared
  continuation-keeps e idx sh h = ground (arith, h)

  continuation-sets :
      (e : ℕ) (sh : SharedTables)
      → e < continuation_pages * hist_pieceto
      → (clear_shared sizes 0 total sh).continuation e ≡ negsuc 585
  unfolding clear_shared
  continuation-sets e sh h = ground (arith, h)

  -- When every one of at least one worker has cleared its share, in whatever order, each entry of
  -- the three shared tables holds its table's fill.
  pub clear_in_order_lem :
      (order : List ℕ) (sh : SharedTables) (corr_entry pawn_entry cont_entry : ℕ)
      → 0 < total
      → Covers total order
      → corr_entry < sizes.corr_size * corr_ints_per_page
      → pawn_entry < sizes.pawn_size * hist_pieceto
      → cont_entry < continuation_pages * hist_pieceto
      → let done = clear_in_order sizes total order sh in
        (done.correction corr_entry ≡ negsuc 4)
        × (done.pawn pawn_entry ≡ negsuc 1337)
        × (done.continuation cont_entry ≡ negsuc 585)
  clear_in_order_lem order sh corr_entry pawn_entry cont_entry some covers hc hp hk =
      let (i, i_lt, i_in) =
        stripe_covers sizes.corr_size total (corr_entry / corr_ints_per_page) some
          (omega (arith, hc)) in
      let (j, j_lt, j_in) =
        stripe_covers sizes.pawn_size total (pawn_entry / hist_pieceto) some (omega (arith, hp)) in
      (
        run-sets (λ s. s.correction corr_entry) (negsuc 4) i order sh (correction-keeps corr_entry)
            (λ s. correction-sets i corr_entry s i_in) (covers i i_lt),
        run-sets (λ s. s.pawn pawn_entry) (negsuc 1337) j order sh (pawn-keeps pawn_entry)
            (λ s. pawn-sets j pawn_entry s j_in) (covers j j_lt),
        run-sets (λ s. s.continuation cont_entry) (negsuc 585) 0 order sh
            (continuation-keeps cont_entry) (λ s. continuation-sets cont_entry s hk)
            (covers 0 some),
      )
