-- ===== src/Platform/Thread/ClientSteps.antt =====
-- src/platform/thread.c: the steps of the caller keep the phases, and so does every step.
use fcfish.Base.{
  append-nil, ℕ, ◌≡◌, refl, ap, sym, ◌∙◌, arith, Bool, true, false, List, [], ◌∷◌, ◌++◌, Option,
  some,
}
use mathlib.Core.Path.{subst}
use mathlib.Core.Option.{some-injective, none-ne-some}
use fcfish.Platform.Thread.{
  Worker, Client, Thread, Call, Progress, Step, Reachable, wake_client, wake_worker, client_step,
  call_step,
}
use fcfish.Platform.Thread.Phases.{
  busy, idle, over, IsSound, Phase, in_flight, is_notifying, mk, spawn-IsSound,
}
use fcfish.Platform.Thread.Wakes.{
  busy-wake_worker, ending-joining, idle-wake_worker, idle_worker-busy, idle_worker-ending,
  in_busy-wake, in_flight-none, in_flight-some, in_flight-wake, in_idle-wake, is_end-wake,
  is_end-wake_client,
}
use fcfish.Platform.Thread.WorkerSteps.{worker-IsSound}

client-IsSound :
    (se ex : Bool) (job : Option ℕ) (w : Worker) (c : Client) (st fi : List ℕ) (u : Thread)
    → IsSound (mk se ex job w c st fi)
    → client_step c w (mk se ex job w c st fi) ≡ some u
    → IsSound u
unfolding client_step
client-IsSound se ex job w Client.ready st fi u s e = absurd (none-ne-some u e)
client-IsSound se ex job w (Client.starting j true) st fi u s e = absurd (none-ne-some u e)
client-IsSound se ex job w (Client.waiting true) st fi u s e = absurd (none-ne-some u e)
client-IsSound se ex job w (Client.draining true) st fi u s e = absurd (none-ne-some u e)
client-IsSound se ex job w Client.joined st fi u s e = absurd (none-ne-some u e)
client-IsSound se ex job Worker.parking Client.joining st fi u s e = absurd (none-ne-some u e)
client-IsSound se ex job Worker.asleep Client.joining st fi u s e = absurd (none-ne-some u e)
client-IsSound se ex job Worker.woken Client.joining st fi u s e = absurd (none-ne-some u e)
client-IsSound se ex job (Worker.running j) Client.joining st fi u s e = absurd (none-ne-some u e)
client-IsSound true ex job w (Client.starting j false) st fi u s e =
    subst IsSound (some-injective (mk true ex job w (Client.starting j true) st fi) u e) record {
      phase = elim s.phase [
        | busy a b f g ↦ Phase.busy refl b f refl
        | idle a b o f g ↦ absurd (ground (arith, a))
        | over b o f g ↦ absurd (ground (arith, g))
      ];
      log = s.log;
    }
client-IsSound true ex job w (Client.waiting false) st fi u s e =
    subst IsSound (some-injective (mk true ex job w (Client.waiting true) st fi) u e) record {
      phase = elim s.phase [
        | busy a b f g ↦ Phase.busy refl b f refl
        | idle a b o f g ↦ absurd (ground (arith, a))
        | over b o f g ↦ absurd (ground (arith, g))
      ];
      log = s.log;
    }
client-IsSound true ex job w (Client.draining false) st fi u s e =
    subst IsSound (some-injective (mk true ex job w (Client.draining true) st fi) u e) record {
      phase = elim s.phase [
        | busy a b f g ↦ Phase.busy refl b f refl
        | idle a b o f g ↦ absurd (ground (arith, a))
        | over b o f g ↦ absurd (ground (arith, g))
      ];
      log = s.log;
    }
client-IsSound false ex job w (Client.waiting false) st fi u s e =
    subst IsSound (some-injective (mk false ex job w Client.ready st fi) u e) record {
      phase = elim s.phase [
        | busy a b f g ↦ absurd (ground (arith, a))
        | idle a b o f g ↦ Phase.idle refl b o f refl
        | over b o f g ↦ absurd (ground (arith, g))
      ];
      log = s.log;
    }
client-IsSound false ex job w (Client.draining false) st fi u s e =
    subst IsSound (some-injective (mk false ex job w Client.raising st fi) u e) record {
      phase = elim s.phase [
        | busy a b f g ↦ absurd (ground (arith, a))
        | idle a b o f g ↦ Phase.idle refl b o f refl
        | over b o f g ↦ absurd (ground (arith, g))
      ];
      log = s.log;
    }
client-IsSound false ex job w (Client.starting j false) st fi u s e =
    subst IsSound (some-injective (mk true ex (some j) w Client.notifying (st ++ (j ∷ [])) fi) u e)
      (elim s.phase [
        | busy a b f g ↦ absurd (ground (arith, a))
        | idle a b o f g ↦ record {
          phase = Phase.busy refl b (idle_worker-busy w j f) refl;
          log =
              ap (λ l. l ++ (j ∷ []))
                (s.log
                  ∙ ap (λ k. fi ++ in_flight w k) o
                  ∙ ap (λ k. fi ++ k) (in_flight-none w f)
                  ∙ append-nil fi)
              ∙ sym (ap (λ k. fi ++ k) (in_flight-some w j f));
        }
        | over b o f g ↦ absurd (ground (arith, g))
      ])
client-IsSound se ex job w Client.notifying st fi u s e =
    subst IsSound (some-injective (mk se ex job (wake_worker w) Client.ready st fi) u e) record {
      phase = elim s.phase [
        | busy a b f g ↦ Phase.busy a b (busy-wake_worker w job true false f) refl
        | idle a b o f g ↦ Phase.idle a b o (idle-wake_worker w f) refl
        | over b o f g ↦ absurd (ground (arith, g))
      ];
      log = s.log ∙ sym (ap (λ k. fi ++ k) (in_flight-wake w job));
    }
client-IsSound se ex job w Client.raising st fi u s e =
    subst IsSound (some-injective (mk true true job w Client.exiting st fi) u e) record {
      phase = elim s.phase [
        | busy a b f g ↦ absurd (ground (arith, g))
        | idle a b o f g ↦ Phase.over refl o (idle_worker-ending w f) refl
        | over b o f g ↦ absurd (ground (arith, g))
      ];
      log = s.log;
    }
client-IsSound se ex job w Client.exiting st fi u s e =
    subst IsSound (some-injective (mk se ex job (wake_worker w) Client.joining st fi) u e) record {
      phase = elim s.phase [
        | busy a b f g ↦ absurd (ground (arith, g))
        | idle a b o f g ↦ absurd (ground (arith, g))
        | over b o f g ↦ Phase.over b o (ending-joining w f) refl
      ];
      log = s.log ∙ sym (ap (λ k. fi ++ k) (in_flight-wake w job));
    }
client-IsSound se ex job Worker.returned Client.joining st fi u s e =
    subst IsSound (some-injective (mk se ex job Worker.returned Client.joined st fi) u e) record {
      phase = elim s.phase [
        | busy a b f g ↦ absurd (ground (arith, g))
        | idle a b o f g ↦ absurd (ground (arith, g))
        | over b o f g ↦ Phase.over b o refl refl
      ];
      log = s.log;
    }

spurious-IsSound :
    (t : Thread)
    → IsSound t
    → IsSound (record t { worker = wake_worker t.worker; client = wake_client t.client })
spurious-IsSound t s = record {
  phase = elim s.phase [
    | busy a b f g ↦
        Phase.busy a b
          (busy-wake_worker t.worker t.job (is_notifying t.client)
            (is_notifying (wake_client t.client)) f)
          (in_busy-wake t.client g)
    | idle a b o f g ↦ Phase.idle a b o (idle-wake_worker t.worker f) (in_idle-wake t.client g)
    | over b o f g ↦
        Phase.over b o (is_end-wake t.worker t.client g f) (is_end-wake_client t.client g)
  ];
  log = s.log ∙ sym (ap (λ k. t.finished ++ k) (in_flight-wake t.worker t.job));
}

call-IsSound :
    (call : Call) (se ex : Bool) (job : Option ℕ) (w : Worker) (c : Client) (st fi : List ℕ)
    (u : Thread)
    → IsSound (mk se ex job w c st fi)
    → call_step call c (mk se ex job w c st fi) ≡ some u
    → IsSound u
unfolding call_step
call-IsSound (Call.start_job j) se ex job w Client.ready st fi u s e =
    subst IsSound (some-injective (mk se ex job w (Client.starting j false) st fi) u e) record {
      phase = elim s.phase [
        | busy a b f g ↦ Phase.busy a b f refl
        | idle a b o f g ↦ Phase.idle a b o f refl
        | over b o f g ↦ absurd (ground (arith, g))
      ];
      log = s.log;
    }
call-IsSound (Call.start_job j) se ex job w Client.joined st fi u s e =
    subst IsSound (some-injective (mk se ex job w Client.joined st fi) u e) s
call-IsSound (Call.start_job j) se ex job w (Client.starting k b) st fi u s e =
    absurd (none-ne-some u e)
call-IsSound (Call.start_job j) se ex job w Client.notifying st fi u s e = absurd (none-ne-some u e)
call-IsSound (Call.start_job j) se ex job w (Client.waiting b) st fi u s e =
    absurd (none-ne-some u e)
call-IsSound (Call.start_job j) se ex job w (Client.draining b) st fi u s e =
    absurd (none-ne-some u e)
call-IsSound (Call.start_job j) se ex job w Client.raising st fi u s e = absurd (none-ne-some u e)
call-IsSound (Call.start_job j) se ex job w Client.exiting st fi u s e = absurd (none-ne-some u e)
call-IsSound (Call.start_job j) se ex job w Client.joining st fi u s e = absurd (none-ne-some u e)
call-IsSound Call.wait_for_search_finished se ex job w Client.ready st fi u s e =
    subst IsSound (some-injective (mk se ex job w (Client.waiting false) st fi) u e) record {
      phase = elim s.phase [
        | busy a b f g ↦ Phase.busy a b f refl
        | idle a b o f g ↦ Phase.idle a b o f refl
        | over b o f g ↦ absurd (ground (arith, g))
      ];
      log = s.log;
    }
call-IsSound Call.wait_for_search_finished se ex job w Client.joined st fi u s e =
    subst IsSound (some-injective (mk se ex job w Client.joined st fi) u e) s
call-IsSound Call.wait_for_search_finished se ex job w (Client.starting k b) st fi u s e =
    absurd (none-ne-some u e)
call-IsSound Call.wait_for_search_finished se ex job w Client.notifying st fi u s e =
    absurd (none-ne-some u e)
call-IsSound Call.wait_for_search_finished se ex job w (Client.waiting b) st fi u s e =
    absurd (none-ne-some u e)
call-IsSound Call.wait_for_search_finished se ex job w (Client.draining b) st fi u s e =
    absurd (none-ne-some u e)
call-IsSound Call.wait_for_search_finished se ex job w Client.raising st fi u s e =
    absurd (none-ne-some u e)
call-IsSound Call.wait_for_search_finished se ex job w Client.exiting st fi u s e =
    absurd (none-ne-some u e)
call-IsSound Call.wait_for_search_finished se ex job w Client.joining st fi u s e =
    absurd (none-ne-some u e)
call-IsSound Call.join se ex job w Client.ready st fi u s e =
    subst IsSound (some-injective (mk se ex job w (Client.draining false) st fi) u e) record {
      phase = elim s.phase [
        | busy a b f g ↦ Phase.busy a b f refl
        | idle a b o f g ↦ Phase.idle a b o f refl
        | over b o f g ↦ absurd (ground (arith, g))
      ];
      log = s.log;
    }
call-IsSound Call.join se ex job w Client.joined st fi u s e =
    subst IsSound (some-injective (mk se ex job w Client.joined st fi) u e) s
call-IsSound Call.join se ex job w (Client.starting k b) st fi u s e = absurd (none-ne-some u e)
call-IsSound Call.join se ex job w Client.notifying st fi u s e = absurd (none-ne-some u e)
call-IsSound Call.join se ex job w (Client.waiting b) st fi u s e = absurd (none-ne-some u e)
call-IsSound Call.join se ex job w (Client.draining b) st fi u s e = absurd (none-ne-some u e)
call-IsSound Call.join se ex job w Client.raising st fi u s e = absurd (none-ne-some u e)
call-IsSound Call.join se ex job w Client.exiting st fi u s e = absurd (none-ne-some u e)
call-IsSound Call.join se ex job w Client.joining st fi u s e = absurd (none-ne-some u e)

pub Progress-IsSound : {t u : Thread} → Progress t u → IsSound t → IsSound u
Progress-IsSound {t} {u} (Progress.worker e) s =
    worker-IsSound t.searching t.exit t.job t.worker t.client t.started t.finished u s e
Progress-IsSound {t} {u} (Progress.client e) s =
    client-IsSound t.searching t.exit t.job t.worker t.client t.started t.finished u s e

Step-IsSound : {t u : Thread} → Step t u → IsSound t → IsSound u
Step-IsSound (Step.progress p) s = Progress-IsSound p s
Step-IsSound {t} {u} (Step.call c e) s =
    call-IsSound c t.searching t.exit t.job t.worker t.client t.started t.finished u s e
Step-IsSound (Step.spurious t) s = spurious-IsSound t s

-- In every state that the thread can reach, the places of both sides agree with the shared fields,
-- and the jobs that were handed over are those that have run, in their order, and at most one more,
-- which waits in the slot or runs.
pub Reachable-IsSound : {t : Thread} → Reachable t → IsSound t
Reachable-IsSound Reachable.spawned = spawn-IsSound
Reachable-IsSound (Reachable.next r p) = Step-IsSound p (Reachable-IsSound r)
