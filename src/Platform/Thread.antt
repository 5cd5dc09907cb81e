-- ===== src/Platform/Thread.antt =====
-- src/platform/thread.c: a thread of the pool and the one thread that starts, awaits and joins it.
-- A critical section is one step, and so is a broadcast outside of one; a job is a number, its run
-- one step. A thread that sleeps on the condition goes on only when a broadcast wakes it, or for
-- no reason at all (`Step.spurious`).
pub mod Phases
pub mod Wakes
pub mod WorkerSteps
pub mod ClientSteps
pub mod Weights
pub mod Runs
use fcfish.Base.{
  ℕ, zero, suc, Bool, true, false, if◌then◌else◌, List, [], ◌∷◌, ◌++◌, Option, none, some, ◌≡◌,
}

-- Where `idle_loop` stands: before the lock, in the wait, behind it, in a job, or at its end.
pub data Worker : Type 0 where
  parking : Worker
  asleep : Worker
  woken : Worker
  running : ℕ → Worker
  returned : Worker

-- Where the caller stands; the Boolean says that it sleeps in the wait. `notifying` and `exiting`
-- are before the broadcasts of `thread_start_job` and `thread_join`.
pub data Client : Type 0 where
  ready : Client
  starting : ℕ → Bool → Client
  notifying : Client
  waiting : Bool → Client
  draining : Bool → Client
  raising : Client
  exiting : Client
  joining : Client
  joined : Client

-- The shared fields, both places, and the jobs that were handed over and that have run.
pub record Thread : Type 0 where
  pub searching : Bool
  pub exit : Bool
  pub job : Option ℕ
  pub worker : Worker
  pub client : Client
  pub started : List ℕ
  pub finished : List ℕ

abbrev pub wake_client : Client → Client
wake_client (starting j _) = starting j false
wake_client (waiting _) = waiting false
wake_client (draining _) = draining false
wake_client ready = ready
wake_client notifying = notifying
wake_client raising = raising
wake_client exiting = exiting
wake_client joining = joining
wake_client joined = joined

abbrev pub wake_worker : Worker → Worker
wake_worker asleep = woken
wake_worker parking = parking
wake_worker woken = woken
wake_worker (running j) = running j
wake_worker returned = returned

-- The part behind the wait: a job is taken out of its slot.
unfoldable pub take_job : Option ℕ → Thread → Thread
take_job none t = record t { worker = Worker.parking }
take_job (some j) t = record t { worker = Worker.running j; job = none }

-- `idle_loop`; none where it cannot go on.
unfoldable pub idle_loop : Worker → Thread → Option Thread
idle_loop parking t = some (record t {
  searching = false;
  client = wake_client t.client;
  worker = if t.exit then Worker.returned else Worker.asleep;
})
idle_loop asleep t = none
idle_loop woken t = some (
    if t.exit
    then record t { worker = Worker.returned }
    else (if t.searching then take_job t.job t else record t { worker = Worker.asleep }))
idle_loop (running j) t =
    some (record t { worker = Worker.parking; finished = t.finished ++ (j ∷ []) })
idle_loop returned t = none

-- The operations of the caller, to the end of which it goes in several steps.
unfoldable pub client_step : Client → Worker → Thread → Option Thread
client_step ready w t = none
client_step (starting j true) w t = none
client_step (starting j false) w t = some (
    if t.searching then record t { client = Client.starting j true } else record t {
      job = some j;
      searching = true;
      client = Client.notifying;
      started = t.started ++ (j ∷ []);
    })
client_step notifying w t = some (record t { client = Client.ready; worker = wake_worker w })
client_step (waiting true) w t = none
client_step (waiting false) w t =
    some (record t { client = if t.searching then Client.waiting true else Client.ready })
client_step (draining true) w t = none
client_step (draining false) w t =
    some (record t { client = if t.searching then Client.draining true else Client.raising })
client_step raising w t = some (record t { exit = true; searching = true; client = Client.exiting })
client_step exiting w t = some (record t { client = Client.joining; worker = wake_worker w })
client_step joining returned t = some (record t { client = Client.joined })
client_step joining parking t = none
client_step joining asleep t = none
client_step joining woken t = none
client_step joining (running j) t = none
client_step joined w t = none

pub data Call : Type 0 where
  start_job : ℕ → Call
  wait_for_search_finished : Call
  join : Call

-- A call, while no other is under way. On a joined thread each returns at once.
unfoldable pub call_step : Call → Client → Thread → Option Thread
call_step (start_job j) ready t = some (record t { client = Client.starting j false })
call_step wait_for_search_finished ready t = some (record t { client = Client.waiting false })
call_step join ready t = some (record t { client = Client.draining false })
call_step call joined t = some t
call_step call _ t = none

-- `thread_spawn`, from the creation of the thread on: it waits until the thread has parked.
unfoldable pub thread_spawn : Thread
thread_spawn = record {
  searching = true;
  exit = false;
  job = none;
  worker = Worker.parking;
  client = Client.waiting false;
  started = [];
  finished = [];
}

-- A step of either side that goes on with what is under way.
pub data Progress : Thread → Thread → Type 0 where
  worker : {t u : Thread} → idle_loop t.worker t ≡ some u → Progress t u
  client : {t u : Thread} → client_step t.client t.worker t ≡ some u → Progress t u

pub data Step : Thread → Thread → Type 0 where
  progress : {t u : Thread} → Progress t u → Step t u
  call : {t u : Thread} (c : Call) → call_step c t.client t ≡ some u → Step t u
  spurious :
      (t : Thread)
      → Step t (record t { worker = wake_worker t.worker; client = wake_client t.client })

pub data Reachable : Thread → Type 0 where
  spawned : Reachable thread_spawn
  next : {t u : Thread} → Reachable t → Step t u → Reachable u

-- A run of `n` steps without calls and without spurious wakeups.
pub data Run : Thread → ℕ → Thread → Type 0 where
  here : {t : Thread} → Run t 0 t
  more : {t u v : Thread} {n : ℕ} → Progress t u → Run u n v → Run t (suc n) v
