-- ===== src/Platform/Thread/WorkerSteps.antt =====
-- src/platform/thread.c: a step of idle_loop keeps the phases.
use fcfish.Base.{
  append-nil, ℕ, ◌≡◌, refl, sym, ◌∙◌, arith, Bool, true, false, List, [], ◌∷◌, ◌++◌, Option, none,
  some,
}
use mathlib.Core.Path.{subst}
use mathlib.Core.Option.{some-injective, none-ne-some}
use fcfish.Platform.Thread.{Worker, Client, Thread, wake_client, take_job, idle_loop}
use fcfish.Platform.Thread.Phases.{busy, idle, over, IsSound, Phase, mk}
use fcfish.Platform.Thread.Wakes.{busy-wake, ending-returned}

-- What a step of the worker leads to.
pub worker-IsSound :
    (se ex : Bool) (job : Option ℕ) (w : Worker) (c : Client) (st fi : List ℕ) (u : Thread)
    → IsSound (mk se ex job w c st fi)
    → idle_loop w (mk se ex job w c st fi) ≡ some u
    → IsSound u
unfolding idle_loop take_job
worker-IsSound se ex job Worker.asleep c st fi u s e = absurd (none-ne-some u e)
worker-IsSound se ex job Worker.returned c st fi u s e = absurd (none-ne-some u e)
worker-IsSound se ex none (Worker.running j) c st fi u s e =
    subst IsSound (some-injective (mk se ex none Worker.parking c st (fi ++ (j ∷ []))) u e) record {
      phase = elim s.phase [
        | busy a b f g ↦ Phase.busy a b refl g
        | idle a b o f g ↦ absurd (ground (arith, f))
        | over b o f g ↦ absurd (ground (arith, f))
      ];
      log = s.log ∙ sym (append-nil (fi ++ (j ∷ [])));
    }
worker-IsSound se ex (some i) (Worker.running j) c st fi u s e = elim s.phase [
  | busy a b f g ↦ absurd (ground (arith, f))
  | idle a b o f g ↦ absurd (ground (arith, f))
  | over b o f g ↦ absurd (ground (arith, f))
]
worker-IsSound se false none Worker.parking c st fi u s e =
    subst IsSound (some-injective (mk false false none Worker.asleep (wake_client c) st fi) u e)
      record {
        phase = elim s.phase [
          | busy a b f g ↦ Phase.idle refl refl refl refl (busy-wake c g)
          | idle a b o f g ↦ absurd (ground (arith, f))
          | over b o f g ↦ absurd (ground (arith, b))
        ];
        log = s.log;
      }
worker-IsSound se true none Worker.parking c st fi u s e = elim s.phase [
  | busy a b f g ↦ absurd (ground (arith, b))
  | idle a b o f g ↦ absurd (ground (arith, b))
  | over b o f g ↦ absurd (ground (arith, f))
]
worker-IsSound se ex (some i) Worker.parking c st fi u s e = elim s.phase [
  | busy a b f g ↦ absurd (ground (arith, f))
  | idle a b o f g ↦ absurd (none-ne-some i (sym o))
  | over b o f g ↦ absurd (none-ne-some i (sym o))
]
worker-IsSound se true none Worker.woken c st fi u s e =
    subst IsSound (some-injective (mk se true none Worker.returned c st fi) u e) record {
      phase = elim s.phase [
        | busy a b f g ↦ absurd (ground (arith, b))
        | idle a b o f g ↦ absurd (ground (arith, b))
        | over b o f g ↦ Phase.over refl refl (ending-returned c f) g
      ];
      log = s.log;
    }
worker-IsSound se true (some i) Worker.woken c st fi u s e = elim s.phase [
  | busy a b f g ↦ absurd (ground (arith, b))
  | idle a b o f g ↦ absurd (ground (arith, b))
  | over b o f g ↦ absurd (none-ne-some i (sym o))
]
worker-IsSound true false (some i) Worker.woken c st fi u s e =
    subst IsSound (some-injective (mk true false none (Worker.running i) c st fi) u e) record {
      phase = elim s.phase [
        | busy a b f g ↦ Phase.busy refl refl refl g
        | idle a b o f g ↦ absurd (ground (arith, a))
        | over b o f g ↦ absurd (ground (arith, b))
      ];
      log = s.log;
    }
worker-IsSound true false none Worker.woken c st fi u s e = elim s.phase [
  | busy a b f g ↦ absurd (ground (arith, f))
  | idle a b o f g ↦ absurd (ground (arith, a))
  | over b o f g ↦ absurd (ground (arith, b))
]
worker-IsSound false false none Worker.woken c st fi u s e =
    subst IsSound (some-injective (mk false false none Worker.asleep c st fi) u e) record {
      phase = elim s.phase [
        | busy a b f g ↦ absurd (ground (arith, a))
        | idle a b o f g ↦ Phase.idle refl refl refl refl g
        | over b o f g ↦ absurd (ground (arith, b))
      ];
      log = s.log;
    }
worker-IsSound false false (some i) Worker.woken c st fi u s e = elim s.phase [
  | busy a b f g ↦ absurd (ground (arith, a))
  | idle a b o f g ↦ absurd (none-ne-some i (sym o))
  | over b o f g ↦ absurd (ground (arith, b))
]
