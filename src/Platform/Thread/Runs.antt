-- ===== src/Platform/Thread/Runs.antt =====
-- src/platform/thread.c: a wait and a join end, and with them the jobs.
use fcfish.Base.{
  append-nil, ℕ, ◌≤◌, ◌≡◌, refl, ap, ◌∙◌, arith, Bool, true, false, Bool-cases, inl, inr, ◌⊎◌, List,
  [], ◌++◌, Option, none, some,
}
use fcfish.Platform.Thread.{
  Worker, Client, Thread, Progress, Reachable, Run, idle_loop, client_step,
}
use fcfish.Platform.Thread.Phases.{
  busy, idle, over, IsSound, mk, in_flight, ending, is_end, busy_worker, is_notifying, in_idle,
}
use fcfish.Platform.Thread.Wakes.{in_flight-none}
use fcfish.Platform.Thread.ClientSteps.{Reachable-IsSound}
use fcfish.Platform.Thread.Weights.{remaining, Run-bounded, at_rest}

abbrev awake : Worker → Bool
awake Worker.parking = true
awake Worker.asleep = false
awake Worker.woken = true
awake (Worker.running i) = true
awake Worker.returned = false

awake_goes : (t : Thread) (w : Worker) → awake w ≡ true → (u : Thread) × (idle_loop w t ≡ some u)
unfolding idle_loop
awake_goes t Worker.parking h = (_, refl)
awake_goes t Worker.woken h = (_, refl)
awake_goes t (Worker.running i) h = (_, refl)
awake_goes t Worker.asleep h = absurd (ground (arith, h))
awake_goes t Worker.returned h = absurd (ground (arith, h))

busy-awake : (w : Worker) (o : Option ℕ) → busy_worker w o false ≡ true → awake w ≡ true
busy-awake Worker.parking none h = refl
busy-awake Worker.parking (some k) h = refl
busy-awake Worker.asleep none h = absurd (ground (arith, h))
busy-awake Worker.asleep (some k) h = absurd (ground (arith, h))
busy-awake Worker.woken none h = refl
busy-awake Worker.woken (some k) h = refl
busy-awake (Worker.running i) none h = refl
busy-awake (Worker.running i) (some k) h = refl
busy-awake Worker.returned none h = absurd (ground (arith, h))
busy-awake Worker.returned (some k) h = absurd (ground (arith, h))

-- A caller that sleeps has an awake worker.
sleeper_goes :
    (t : Thread)
    → IsSound t
    → is_notifying t.client ≡ false
    → in_idle t.client ≡ false
    → is_end t.client ≡ false
    → (u : Thread) × Progress t u
sleeper_goes t s n h k = elim s.phase [
  | busy a b f g ↦
      let r = awake_goes t t.worker (busy-awake t.worker t.job (rw n at f)) in
      (r.0, Progress.worker r.1)
  | idle a b o f g ↦ absurd (ground (arith, g, h))
  | over b o f g ↦ absurd (ground (arith, g, k))
]

call_goes :
    (se ex : Bool) (job : Option ℕ) (w : Worker) (c : Client) (st fi : List ℕ)
    → IsSound (mk se ex job w c st fi)
    → at_rest c ≡ false
    → (u : Thread) × Progress (mk se ex job w c st fi) u
unfolding client_step
call_goes se ex job w Client.ready st fi s h = absurd (ground (arith, h))
call_goes se ex job w Client.joined st fi s h = absurd (ground (arith, h))
call_goes se ex job w (Client.starting j true) st fi s h =
    sleeper_goes (mk se ex job w (Client.starting j true) st fi) s refl refl refl
call_goes se ex job w (Client.waiting true) st fi s h =
    sleeper_goes (mk se ex job w (Client.waiting true) st fi) s refl refl refl
call_goes se ex job w (Client.draining true) st fi s h =
    sleeper_goes (mk se ex job w (Client.draining true) st fi) s refl refl refl
call_goes se ex job w (Client.starting j false) st fi s h = (_, Progress.client refl)
call_goes se ex job w (Client.waiting false) st fi s h = (_, Progress.client refl)
call_goes se ex job w (Client.draining false) st fi s h = (_, Progress.client refl)
call_goes se ex job w Client.notifying st fi s h = (_, Progress.client refl)
call_goes se ex job w Client.raising st fi s h = (_, Progress.client refl)
call_goes se ex job w Client.exiting st fi s h = (_, Progress.client refl)
call_goes se ex job Worker.returned Client.joining st fi s h = (_, Progress.client refl)
call_goes se ex job Worker.woken Client.joining st fi s h =
    let r = awake_goes (mk se ex job Worker.woken Client.joining st fi) Worker.woken refl in
    (r.0, Progress.worker r.1)
call_goes se ex job Worker.parking Client.joining st fi s h = elim s.phase [
  | busy a b f g ↦ absurd (ground (arith, g))
  | idle a b o f g ↦ absurd (ground (arith, g))
  | over b o f g ↦ absurd (ground (arith, f))
]
call_goes se ex job Worker.asleep Client.joining st fi s h = elim s.phase [
  | busy a b f g ↦ absurd (ground (arith, g))
  | idle a b o f g ↦ absurd (ground (arith, g))
  | over b o f g ↦ absurd (ground (arith, f))
]
call_goes se ex job (Worker.running i) Client.joining st fi s h = elim s.phase [
  | busy a b f g ↦ absurd (ground (arith, g))
  | idle a b o f g ↦ absurd (ground (arith, g))
  | over b o f g ↦ absurd (ground (arith, f))
]

-- From every state that the thread can reach, a run without further calls and spurious wakeups has
-- at most as many steps as the weights of the state allow, and it can stop only where the caller
-- is ready for the next call or has joined the thread: every start, wait and join returns.
pub Run-returns :
    (t u : Thread) (n : ℕ)
    → Reachable t
    → Run t n u
    → (n ≤ remaining t) × ((at_rest u.client ≡ true) ⊎ ((v : Thread) × Progress u v))
Run-returns t u n reach run =
    let bounded = Run-bounded run (Reachable-IsSound reach) in
    (
      omega (arith, bounded.0),
      elim (Bool-cases (at_rest u.client)) [
        | inl e ↦ inl e
        | inr e ↦
            inr (
              call_goes u.searching u.exit u.job u.worker u.client u.started u.finished bounded.1 e)
      ],
    )

idle_log :
    (t : Thread) → IsSound t → t.job ≡ none → in_flight t.worker none ≡ [] → t.started ≡ t.finished
idle_log t s o e =
    s.log
    ∙ ap (λ k. t.finished ++ in_flight t.worker k) o
    ∙ ap (λ k. t.finished ++ k) e
    ∙ append-nil t.finished

-- When a wait is about to return, since the thread does not search, every job that was handed over
-- has run.
pub waited-finished :
    (t : Thread)
    → Reachable t
    → t.client ≡ Client.waiting false
    → t.searching ≡ false
    → t.started ≡ t.finished
waited-finished t reach at e =
    let s = Reachable-IsSound reach in
    elim s.phase [
      | busy a b f g ↦ absurd (ground (arith, a, e))
      | idle a b o f g ↦ idle_log t s o (in_flight-none t.worker f)
      | over b o f g ↦ absurd (ground (arith, rw at at g))
    ]

joined_worker : (w : Worker) → ending w Client.joined ≡ true → w ≡ Worker.returned
joined_worker Worker.parking h = absurd (ground (arith, h))
joined_worker Worker.asleep h = absurd (ground (arith, h))
joined_worker Worker.woken h = absurd (ground (arith, h))
joined_worker (Worker.running i) h = absurd (ground (arith, h))
joined_worker Worker.returned h = refl

-- A joined thread has ended, and no job that was handed over is lost.
pub joined-finished :
    (t : Thread)
    → Reachable t
    → t.client ≡ Client.joined
    → (t.worker ≡ Worker.returned) × (t.started ≡ t.finished)
joined-finished t reach at =
    let s = Reachable-IsSound reach in
    elim s.phase [
      | busy a b f g ↦ absurd (ground (arith, rw at at g))
      | idle a b o f g ↦ absurd (ground (arith, rw at at g))
      | over b o f g ↦
          let done = joined_worker t.worker (rw at at f) in
          (done, idle_log t s o (ap (λ w. in_flight w none) done))
    ]
