-- ===== src/Board/Flip/Mirror.antt =====
-- src/engine/board/position.c: `pos_flip_fen` writes the mirrored record, and twice gives it back.
use fcfish.Base.{
  ℕ, zero, suc, ◌<◌, ◌≡◌, refl, ap, arith, Bool, true, false, not, ◌==◌, List, [], ◌∷◌, ◌++◌, map,
  length, Option, none, some, length-append,
}
use fcfish.Board.Types.{Color, white, black, flip_color}
use fcfish.Board.Flip.{
  space, slash, flip_case, skip_spaces, split_ranks, write_ranks, write_board, flip_side,
  flip_rights, flip_ep, copy_tail, read_fields, write_flipped, pos_flip_fen,
}
use fcfish.Board.Flip.Record.{
  FenRecord, write, write_side, write_ep, join, lacks, IsWord, IsRank, AreRanks, IsEp, starts,
  IsRecord, split_at-word, split_at-end, fen_field-word, fen_field-spaced,
}

-- The ranks in reverse order, `r` over `below` the ones done.
abbrev turn : List ℕ → List (List ℕ) → List (List ℕ) → List ℕ × List (List ℕ)
turn r below [] = (r, below)
turn r below (r' ∷ ranks) = turn (map flip_case r') (r ∷ below) ranks

abbrev mirror_ep : Option (ℕ × Bool) → Option (ℕ × Bool)
mirror_ep none = none
mirror_ep (some (file, third)) = some (file, not third)

-- The same position with the sides exchanged: the ranks upside down, the case of the pieces and of
-- the rights swapped, the other side to move, and the en-passant square on the other third rank.
abbrev pub mirror : FenRecord → FenRecord
mirror f =
    let (top, below) = turn (map flip_case f.rank8) [] f.ranks in
    record {
      rank8 = top;
      ranks = below;
      side = flip_color f.side;
      rights = map flip_case f.rights;
      ep = mirror_ep f.ep;
      counters = f.counters;
    }

write_ranks-join :
    (r : List ℕ) (below ranks : List (List ℕ))
    → write_ranks (join r below) ranks ≡ join (turn r below ranks).0 (turn r below ranks).1
unfolding write_ranks
write_ranks-join r below [] = refl
write_ranks-join r below (r' ∷ ranks) = write_ranks-join (map flip_case r') (r ∷ below) ranks

split_ranks-join :
    (n : ℕ) (r : List ℕ) (ranks : List (List ℕ))
    → length ranks < n
    → IsRank r
    → AreRanks ranks
    → split_ranks n (join r ranks) ≡ r ∷ ranks
unfolding split_ranks
split_ranks-join zero r ranks h ok oks = absurd (omega (arith, h))
split_ranks-join (suc n) [] ranks h ok oks = absurd (omega (arith, ok.0))
split_ranks-join (suc n) (c ∷ w) [] h ok oks = rw (split_at-end slash (c ∷ w) ok.2) (done n)
  where
    done : (k : ℕ) → (c ∷ w) ∷ split_ranks k [] ≡ (c ∷ w) ∷ []
    done zero = refl
    done (suc k) = refl
split_ranks-join (suc n) (c ∷ w) (r' ∷ ranks) h ok oks =
    rw (split_at-word slash (c ∷ w) (join r' ranks) ok.2)
      (ap (λ rs. (c ∷ w) ∷ rs) (split_ranks-join n r' ranks (omega (arith, h)) oks.0 oks.1))

lacks-append :
    (c : ℕ) (s t : List ℕ) → lacks c s ≡ true → lacks c t ≡ true → lacks c (s ++ t) ≡ true
lacks-append c [] t hs ht = ht
lacks-append c (d ∷ s) t hs ht = ground (arith, lacks-append c s t (ground (arith, hs)) ht)

join-IsWord :
    (r : List ℕ) (ranks : List (List ℕ)) → IsRank r → AreRanks ranks → IsWord (join r ranks)
join-IsWord r [] ok oks = (ok.0, ok.1)
join-IsWord r (r' ∷ ranks) ok oks = (
  omega (arith, length-append r (slash ∷ join r' ranks), ok.0),
  lacks-append space r (slash ∷ join r' ranks) ok.1 (join-IsWord r' ranks oks.0 oks.1).1,
)

write_ep-IsWord : (ep : Option (ℕ × Bool)) → IsEp ep → IsWord (write_ep ep)
write_ep-IsWord none h = (omega arith, refl)
write_ep-IsWord (some (file, true)) h = (omega arith, ground (arith, h))
write_ep-IsWord (some (file, false)) h = (omega arith, ground (arith, h))

write_side-IsWord : (c : Color) → IsWord (write_side c ∷ [])
write_side-IsWord white = (omega arith, refl)
write_side-IsWord black = (omega arith, refl)

flip_side-write : (c : Color) → flip_side (write_side c ∷ []) ≡ write_side (flip_color c)
unfolding flip_side flip_color
flip_side-write white = refl
flip_side-write black = refl

flip_ep-write : (ep : Option (ℕ × Bool)) → flip_ep (write_ep ep) ≡ write_ep (mirror_ep ep)
unfolding flip_ep
flip_ep-write none = refl
flip_ep-write (some (file, true)) = refl
flip_ep-write (some (file, false)) = refl

flip_rights-write : (s : List ℕ) → 0 < length s → flip_rights s ≡ map flip_case s
unfolding flip_rights
flip_rights-write [] h = absurd (omega (arith, h))
flip_rights-write (c ∷ s) h = refl

copy_tail-write : (s : List ℕ) → starts s ≡ true → copy_tail (skip_spaces (space ∷ s)) ≡ space ∷ s
unfolding copy_tail skip_spaces
copy_tail-write [] h = absurd (ground (arith, h))
copy_tail-write (c ∷ s) h = ground (arith, h)

read_fields-write :
    (f : FenRecord)
    → IsRecord f
    → read_fields (write f) ≡ record {
      board = join f.rank8 f.ranks;
      side = write_side f.side ∷ [];
      rights = f.rights;
      ep = write_ep f.ep;
      rest = space ∷ f.counters;
    }
unfolding read_fields
read_fields-write f h =
    rw (fen_field-word (join f.rank8 f.ranks) rest1 (join-IsWord f.rank8 f.ranks h.rank8 h.ranks)) (
      rw (fen_field-spaced (write_side f.side ∷ []) rest2 (write_side-IsWord f.side)) (
        rw (fen_field-spaced f.rights rest3 h.rights)
          (rw (fen_field-spaced (write_ep f.ep) f.counters (write_ep-IsWord f.ep h.ep)) refl)))
  where
    rest3 : List ℕ
    rest3 = write_ep f.ep ++ (space ∷ f.counters)

    rest2 : List ℕ
    rest2 = f.rights ++ (space ∷ rest3)

    rest1 : List ℕ
    rest1 = write_side f.side ∷ space ∷ rest2

-- The flip of a well-formed record of at most eight ranks is the record of the position with the
-- sides exchanged.
pub pos_flip_fen-write :
    (f : FenRecord) → IsRecord f → pos_flip_fen (write f) ≡ some (write (mirror f))
unfolding pos_flip_fen write_flipped write_board
pos_flip_fen-write f h = rw (read_fields-write f h) (
    rw (split_ranks-join 8 f.rank8 f.ranks (omega (arith, h.eight)) h.rank8 h.ranks) (
      rw (write_ranks-join (map flip_case f.rank8) [] f.ranks) (
        rw (flip_side-write f.side) (
          rw (flip_rights-write f.rights h.rights.0) (
            rw (flip_ep-write f.ep)
              (rw (copy_tail-write f.counters h.counters) (rw nonempty refl)))))))
  where
    nonempty : (length (join f.rank8 f.ranks) == 0) ≡ false
    nonempty = ground (arith, join-IsWord f.rank8 f.ranks h.rank8 h.ranks)
