-- ===== src/Platform/Thread/Weights.antt =====
-- src/platform/thread.c: each step of a run makes what is left of it less.
use fcfish.Base.{
  ℕ, ◌+◌, ◌≤◌, ◌<◌, ◌≡◌, arith, Bool, true, false, if◌then◌else◌, List, [], ◌∷◌, ◌++◌, Option, none,
  some,
}
use mathlib.Core.Path.{subst}
use mathlib.Core.Option.{some-injective, none-ne-some}
use fcfish.Platform.Thread.{
  Worker, Client, Thread, Progress, Run, wake_client, wake_worker, take_job, idle_loop, client_step,
}
use fcfish.Platform.Thread.Phases.{busy, idle, over, IsSound, mk}
use fcfish.Platform.Thread.ClientSteps.{Progress-IsSound}

abbrev pub worker_weight : Worker → ℕ
worker_weight Worker.parking = 2
worker_weight Worker.asleep = 0
worker_weight Worker.woken = 1
worker_weight (Worker.running i) = 3
worker_weight Worker.returned = 0

abbrev pub client_weight : Client → ℕ
client_weight Client.ready = 0
client_weight (Client.starting j b) = if b then 10 else 11
client_weight Client.notifying = 2
client_weight (Client.waiting b) = if b then 0 else 1
client_weight (Client.draining b) = if b then 10 else 11
client_weight Client.raising = 9
client_weight Client.exiting = 8
client_weight Client.joining = 6
client_weight Client.joined = 0

abbrev pub job_weight : Option ℕ → ℕ
job_weight none = 0
job_weight (some j) = 4

-- What is left to do, as a number of steps.
abbrev pub remaining : Thread → ℕ
remaining t = worker_weight t.worker + client_weight t.client + job_weight t.job

abbrev pub at_rest : Client → Bool
at_rest Client.ready = true
at_rest (Client.starting j b) = false
at_rest Client.notifying = false
at_rest (Client.waiting b) = false
at_rest (Client.draining b) = false
at_rest Client.raising = false
at_rest Client.exiting = false
at_rest Client.joining = false
at_rest Client.joined = true

wake_client-weight : (c : Client) → client_weight (wake_client c) ≤ client_weight c + 1
wake_client-weight Client.ready = omega arith
wake_client-weight (Client.starting j b) = ground arith
wake_client-weight Client.notifying = omega arith
wake_client-weight (Client.waiting b) = ground arith
wake_client-weight (Client.draining b) = ground arith
wake_client-weight Client.raising = omega arith
wake_client-weight Client.exiting = omega arith
wake_client-weight Client.joining = omega arith
wake_client-weight Client.joined = omega arith

wake_worker-weight : (w : Worker) → worker_weight (wake_worker w) ≤ worker_weight w + 1
wake_worker-weight Worker.parking = omega arith
wake_worker-weight Worker.asleep = omega arith
wake_worker-weight Worker.woken = omega arith
wake_worker-weight (Worker.running i) = omega arith
wake_worker-weight Worker.returned = omega arith

worker_less :
    (se ex : Bool) (job : Option ℕ) (w : Worker) (c : Client) (st fi : List ℕ) (u : Thread)
    → IsSound (mk se ex job w c st fi)
    → idle_loop w (mk se ex job w c st fi) ≡ some u
    → remaining u < remaining (mk se ex job w c st fi)
unfolding idle_loop take_job
worker_less se false job Worker.parking c st fi u s e =
    subst (λ v. remaining v < remaining (mk se false job Worker.parking c st fi))
      (some-injective (mk false false job Worker.asleep (wake_client c) st fi) u e)
      (omega (arith, wake_client-weight c))
worker_less se true job Worker.parking c st fi u s e =
    subst (λ v. remaining v < remaining (mk se true job Worker.parking c st fi))
      (some-injective (mk false true job Worker.returned (wake_client c) st fi) u e)
      (omega (arith, wake_client-weight c))
worker_less se ex job Worker.asleep c st fi u s e = absurd (none-ne-some u e)
worker_less se ex job Worker.returned c st fi u s e = absurd (none-ne-some u e)
worker_less se ex job (Worker.running j) c st fi u s e =
    subst (λ v. remaining v < remaining (mk se ex job (Worker.running j) c st fi))
      (some-injective (mk se ex job Worker.parking c st (fi ++ (j ∷ []))) u e) (omega arith)
worker_less se true job Worker.woken c st fi u s e =
    subst (λ v. remaining v < remaining (mk se true job Worker.woken c st fi))
      (some-injective (mk se true job Worker.returned c st fi) u e) (omega arith)
worker_less false false job Worker.woken c st fi u s e =
    subst (λ v. remaining v < remaining (mk false false job Worker.woken c st fi))
      (some-injective (mk false false job Worker.asleep c st fi) u e) (omega arith)
worker_less true false (some i) Worker.woken c st fi u s e =
    subst (λ v. remaining v < remaining (mk true false (some i) Worker.woken c st fi))
      (some-injective (mk true false none (Worker.running i) c st fi) u e) (omega arith)
worker_less true false none Worker.woken c st fi u s e = elim s.phase [
  | busy a b f g ↦ absurd (ground (arith, f))
  | idle a b o f g ↦ absurd (ground (arith, a))
  | over b o f g ↦ absurd (ground (arith, b))
]

client_less :
    (se ex : Bool) (job : Option ℕ) (w : Worker) (c : Client) (st fi : List ℕ) (u : Thread)
    → IsSound (mk se ex job w c st fi)
    → client_step c w (mk se ex job w c st fi) ≡ some u
    → remaining u < remaining (mk se ex job w c st fi)
unfolding client_step
client_less se ex job w Client.ready st fi u s e = absurd (none-ne-some u e)
client_less se ex job w (Client.starting j true) st fi u s e = absurd (none-ne-some u e)
client_less se ex job w (Client.waiting true) st fi u s e = absurd (none-ne-some u e)
client_less se ex job w (Client.draining true) st fi u s e = absurd (none-ne-some u e)
client_less se ex job w Client.joined st fi u s e = absurd (none-ne-some u e)
client_less se ex job Worker.parking Client.joining st fi u s e = absurd (none-ne-some u e)
client_less se ex job Worker.asleep Client.joining st fi u s e = absurd (none-ne-some u e)
client_less se ex job Worker.woken Client.joining st fi u s e = absurd (none-ne-some u e)
client_less se ex job (Worker.running j) Client.joining st fi u s e = absurd (none-ne-some u e)
client_less true ex job w (Client.starting j false) st fi u s e =
    subst (λ v. remaining v < remaining (mk true ex job w (Client.starting j false) st fi))
      (some-injective (mk true ex job w (Client.starting j true) st fi) u e) (omega arith)
client_less true ex job w (Client.waiting false) st fi u s e =
    subst (λ v. remaining v < remaining (mk true ex job w (Client.waiting false) st fi))
      (some-injective (mk true ex job w (Client.waiting true) st fi) u e) (omega arith)
client_less true ex job w (Client.draining false) st fi u s e =
    subst (λ v. remaining v < remaining (mk true ex job w (Client.draining false) st fi))
      (some-injective (mk true ex job w (Client.draining true) st fi) u e) (omega arith)
client_less false ex job w (Client.waiting false) st fi u s e =
    subst (λ v. remaining v < remaining (mk false ex job w (Client.waiting false) st fi))
      (some-injective (mk false ex job w Client.ready st fi) u e) (omega arith)
client_less false ex job w (Client.draining false) st fi u s e =
    subst (λ v. remaining v < remaining (mk false ex job w (Client.draining false) st fi))
      (some-injective (mk false ex job w Client.raising st fi) u e) (omega arith)
client_less false ex job w (Client.starting j false) st fi u s e =
    subst (λ v. remaining v < remaining (mk false ex job w (Client.starting j false) st fi))
      (some-injective (mk true ex (some j) w Client.notifying (st ++ (j ∷ [])) fi) u e)
      (omega arith)
client_less se ex job w Client.notifying st fi u s e =
    subst (λ v. remaining v < remaining (mk se ex job w Client.notifying st fi))
      (some-injective (mk se ex job (wake_worker w) Client.ready st fi) u e)
      (omega (arith, wake_worker-weight w))
client_less se ex job w Client.raising st fi u s e =
    subst (λ v. remaining v < remaining (mk se ex job w Client.raising st fi))
      (some-injective (mk true true job w Client.exiting st fi) u e) (omega arith)
client_less se ex job w Client.exiting st fi u s e =
    subst (λ v. remaining v < remaining (mk se ex job w Client.exiting st fi))
      (some-injective (mk se ex job (wake_worker w) Client.joining st fi) u e)
      (omega (arith, wake_worker-weight w))
client_less se ex job Worker.returned Client.joining st fi u s e =
    subst (λ v. remaining v < remaining (mk se ex job Worker.returned Client.joining st fi))
      (some-injective (mk se ex job Worker.returned Client.joined st fi) u e) (omega arith)

Progress-less : {t u : Thread} → Progress t u → IsSound t → remaining u < remaining t
Progress-less {t} {u} (Progress.worker e) s =
    worker_less t.searching t.exit t.job t.worker t.client t.started t.finished u s e
Progress-less {t} {u} (Progress.client e) s =
    client_less t.searching t.exit t.job t.worker t.client t.started t.finished u s e

pub Run-bounded :
    {t u : Thread} {n : ℕ} → Run t n u → IsSound t → (n + remaining u ≤ remaining t) × IsSound u
Run-bounded Run.here s = (omega arith, s)
Run-bounded (Run.more p r) s =
    let rest = Run-bounded r (Progress-IsSound p s) in
    (omega (arith, rest.0, Progress-less p s), rest.1)
