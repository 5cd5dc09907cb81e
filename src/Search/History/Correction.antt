-- ===== src/Search/History/Correction.antt =====
-- src/engine/search/history.c: what `history_update_correction` does to the counters.
use fcfish.Base.{
  ℕ, ◌+◌, ◌*◌, ◌≡◌, refl, ◌∙◌, arith, Bool, true, false, ◌&&◌, ◌==◌, if◌then◌else◌, Bool-cases, inl,
  inr,
}
use fcfish.Base.Int.{ℤ, pos, ◌*ℤ◌, ◌/ℤ◌}
use fcfish.Board.Types.{Color, move_to}
use fcfish.Search.History.{
  square_nb, shared_stats_update, corr_row, is_ok, CorrectionBundle, Keys, CorrBank, same_color,
  update_bank, update_entry, update_cont, history_update_correction,
}
use fcfish.Search.History.Gravity.{Within, stats_update-Within}

pub record IsBundle (b : CorrectionBundle) : Type 0 where
  pub pawn : Within 1024 b.pawn
  pub minor : Within 1024 b.minor
  pub nonpawn_white : Within 1024 b.nonpawn_white
  pub nonpawn_black : Within 1024 b.nonpawn_black

shared-Within : (val bonus : ℤ) → Within 1024 val → Within 1024 (shared_stats_update val bonus 1024)
shared-Within val bonus h =
    let (inside, _, same) = stats_update-Within val bonus 1024 (omega arith) (omega arith) h in
    rw same inside

pawn_step : Bool → (ℤ → ℤ) → CorrectionBundle → CorrectionBundle
pawn_step t f b = if t then record b { pawn = f b.pawn } else b

pawn_step_lem :
    (t : Bool) (f : ℤ → ℤ) (b : CorrectionBundle)
    → pawn_step t f b ≡ record b { pawn = if t then f b.pawn else b.pawn }
unfolding pawn_step
pawn_step_lem true f b = refl
pawn_step_lem false f b = refl

minor_step : Bool → (ℤ → ℤ) → CorrectionBundle → CorrectionBundle
minor_step t f b = if t then record b { minor = f b.minor } else b

minor_step_lem :
    (t : Bool) (f : ℤ → ℤ) (b : CorrectionBundle)
    → minor_step t f b ≡ record b { minor = if t then f b.minor else b.minor }
unfolding minor_step
minor_step_lem true f b = refl
minor_step_lem false f b = refl

nonpawn_white_step : Bool → (ℤ → ℤ) → CorrectionBundle → CorrectionBundle
nonpawn_white_step t f b = if t then record b { nonpawn_white = f b.nonpawn_white } else b

nonpawn_white_step_lem :
    (t : Bool) (f : ℤ → ℤ) (b : CorrectionBundle)
    → nonpawn_white_step t f b
      ≡ record b { nonpawn_white = if t then f b.nonpawn_white else b.nonpawn_white }
unfolding nonpawn_white_step
nonpawn_white_step_lem true f b = refl
nonpawn_white_step_lem false f b = refl

nonpawn_black_step : Bool → (ℤ → ℤ) → CorrectionBundle → CorrectionBundle
nonpawn_black_step t f b = if t then record b { nonpawn_black = f b.nonpawn_black } else b

nonpawn_black_step_lem :
    (t : Bool) (f : ℤ → ℤ) (b : CorrectionBundle)
    → nonpawn_black_step t f b
      ≡ record b { nonpawn_black = if t then f b.nonpawn_black else b.nonpawn_black }
unfolding nonpawn_black_step
nonpawn_black_step_lem true f b = refl
nonpawn_black_step_lem false f b = refl

abbrev pub selects : ℕ → ℕ → Color → ℕ → Color → Bool
selects key mask us r c = r == corr_row key mask && same_color c us

-- Each counter of a bundle is updated exactly if its own key selects the bundle's row, for the side
-- given, and with its own share of the bonus; all else in the bank stays.
update_bank_lem :
    (bank : CorrBank) (mask : ℕ) (st : Keys) (us : Color) (bonus : ℤ) (r : ℕ) (c : Color)
    → update_bank bank mask st us bonus r c ≡ record {
      pawn =
          if selects st.pawn_key mask us r c
          then shared_stats_update (bank r c).pawn bonus 1024
          else (bank r c).pawn;
      minor =
          if selects st.minor_piece_key mask us r c
          then shared_stats_update (bank r c).minor (bonus *ℤ pos 150 /ℤ 128) 1024
          else (bank r c).minor;
      nonpawn_white =
          if selects st.non_pawn_white mask us r c
          then shared_stats_update (bank r c).nonpawn_white (bonus *ℤ pos 186 /ℤ 128) 1024
          else (bank r c).nonpawn_white;
      nonpawn_black =
          if selects st.non_pawn_black mask us r c
          then shared_stats_update (bank r c).nonpawn_black (bonus *ℤ pos 186 /ℤ 128) 1024
          else (bank r c).nonpawn_black;
    }
update_bank_lem bank mask st us bonus r c =
    entered ∙ simp (pawn_step_lem, minor_step_lem, nonpawn_white_step_lem, nonpawn_black_step_lem)
  where
    entered :
        update_bank bank mask st us bonus r c
        ≡ nonpawn_black_step
            (selects st.non_pawn_black mask us r c)
            (λ v. shared_stats_update v (bonus *ℤ pos 186 /ℤ 128) 1024)
            (nonpawn_white_step
              (selects st.non_pawn_white mask us r c)
              (λ v. shared_stats_update v (bonus *ℤ pos 186 /ℤ 128) 1024)
              (minor_step
                (selects st.minor_piece_key mask us r c)
                (λ v. shared_stats_update v (bonus *ℤ pos 150 /ℤ 128) 1024)
                (pawn_step
                  (selects st.pawn_key mask us r c)
                  (λ v. shared_stats_update v bonus 1024)
                  (bank r c))))
    entered = unfold update_bank pawn_step minor_step nonpawn_white_step nonpawn_black_step in refl

if-Within :
    (t : Bool) (val bonus : ℤ)
    → Within 1024 val
    → Within 1024 (if t then shared_stats_update val bonus 1024 else val)
if-Within true val bonus h = shared-Within val bonus h
if-Within false val bonus h = h

update_bank-IsBundle :
    (bank : CorrBank) (mask : ℕ) (st : Keys) (us : Color) (bonus : ℤ) (r : ℕ) (c : Color)
    → IsBundle (bank r c)
    → IsBundle (update_bank bank mask st us bonus r c)
update_bank-IsBundle bank mask st us bonus r c h =
    rw (update_bank_lem bank mask st us bonus r c) (record {
      pawn = if-Within (selects st.pawn_key mask us r c) (bank r c).pawn bonus h.pawn;
      minor =
          if-Within (selects st.minor_piece_key mask us r c) (bank r c).minor
            (bonus *ℤ pos 150 /ℤ 128) h.minor;
      nonpawn_white =
          if-Within (selects st.non_pawn_white mask us r c) (bank r c).nonpawn_white
            (bonus *ℤ pos 186 /ℤ 128) h.nonpawn_white;
      nonpawn_black =
          if-Within (selects st.non_pawn_black mask us r c) (bank r c).nonpawn_black
            (bonus *ℤ pos 186 /ℤ 128) h.nonpawn_black;
    })

update_entry-Within :
    (cont : ℕ → ℤ) (at : ℕ) (bonus : ℤ)
    → ((i : ℕ) → Within 1024 (cont i))
    → (i : ℕ) → Within 1024 (update_entry cont at bonus i)
update_entry-Within cont at bonus h i = elim (Bool-cases (i == at)) [
  | inl t ↦ rw t (stats_update-Within (cont i) bonus 1024 (omega arith) (omega arith) (h i)).0
  | inr t ↦ rw t (h i)
]

update_cont-Within :
    (cont : ℕ → ℤ) (piece_on : ℕ → ℕ) (prev_move corr2 corr4 corr6 : ℕ) (bonus : ℤ)
    → ((i : ℕ) → Within 1024 (cont i))
    → (i : ℕ) → Within 1024 (update_cont cont piece_on prev_move corr2 corr4 corr6 bonus i)
unfolding update_cont
update_cont-Within cont piece_on prev_move corr2 corr4 corr6 bonus h =
    elim (Bool-cases (is_ok prev_move)) [
      | inl t ↦ rw t (
          update_entry-Within second (corr6 + idx) (bonus *ℤ pos 35 /ℤ 128) (
            update_entry-Within first (corr4 + idx) (bonus *ℤ pos 70 /ℤ 128)
              (update_entry-Within cont (corr2 + idx) (bonus *ℤ pos 130 /ℤ 128) h)))
      | inr t ↦ rw t h
    ]
  where
    idx : ℕ
    idx = piece_on (move_to prev_move) * square_nb + move_to prev_move

    first : ℕ → ℤ
    first = update_entry cont (corr2 + idx) (bonus *ℤ pos 130 /ℤ 128)

    second : ℕ → ℤ
    second = update_entry first (corr4 + idx) (bonus *ℤ pos 70 /ℤ 128)

-- Whatever the bonus, and whether or not the keys or the three continuation pages coincide, every
-- counter within 1024 stays within it.
pub history_update_correction-Within :
    (bank : CorrBank) (cont : ℕ → ℤ) (mask : ℕ) (st : Keys) (piece_on : ℕ → ℕ) (us : Color)
    (prev_move corr2 corr4 corr6 : ℕ) (bonus : ℤ)
    → ((r : ℕ) (c : Color) → IsBundle (bank r c))
    → ((i : ℕ) → Within 1024 (cont i))
    → let (bank', cont') =
        history_update_correction bank cont mask st piece_on us prev_move corr2 corr4 corr6 bonus in
      ((r : ℕ) (c : Color) → IsBundle (bank' r c)) × ((i : ℕ) → Within 1024 (cont' i))
unfolding history_update_correction
history_update_correction-Within bank cont mask st piece_on us prev_move corr2 corr4 corr6 bonus hb
      hc =
    (
      λ r c. update_bank-IsBundle bank mask st us bonus r c (hb r c),
      update_cont-Within cont piece_on prev_move corr2 corr4 corr6 bonus hc,
    )
