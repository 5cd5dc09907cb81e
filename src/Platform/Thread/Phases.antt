-- ===== src/Platform/Thread/Phases.antt =====
-- src/platform/thread.c: what the places of the two sides say of the shared fields, in every state
-- that the thread can reach.
use fcfish.Base.{
  ℕ, ◌≡◌, refl, Bool, true, false, if◌then◌else◌, List, [], ◌∷◌, ◌++◌, Option, none, some,
}
use fcfish.Platform.Thread.{Worker, Client, Thread, thread_spawn}

-- Where the caller can be while a job is under way, while there is none, and at the end.
abbrev pub in_busy : Client → Bool
in_busy Client.ready = true
in_busy (Client.starting j b) = true
in_busy Client.notifying = true
in_busy (Client.waiting b) = true
in_busy (Client.draining b) = true
in_busy Client.raising = false
in_busy Client.exiting = false
in_busy Client.joining = false
in_busy Client.joined = false

abbrev pub in_idle : Client → Bool
in_idle Client.ready = true
in_idle (Client.starting j b) = if b then false else true
in_idle Client.notifying = true
in_idle (Client.waiting b) = if b then false else true
in_idle (Client.draining b) = if b then false else true
in_idle Client.raising = true
in_idle Client.exiting = false
in_idle Client.joining = false
in_idle Client.joined = false

abbrev pub is_notifying : Client → Bool
is_notifying Client.notifying = true
is_notifying Client.ready = false
is_notifying (Client.starting j b) = false
is_notifying (Client.waiting b) = false
is_notifying (Client.draining b) = false
is_notifying Client.raising = false
is_notifying Client.exiting = false
is_notifying Client.joining = false
is_notifying Client.joined = false

-- With a job in its slot the worker is awake, or the broadcast that wakes it is still to come.
abbrev pub busy_worker : Worker → Option ℕ → Bool → Bool
busy_worker Worker.parking none told = true
busy_worker Worker.parking (some j) told = false
busy_worker (Worker.running i) none told = true
busy_worker (Worker.running i) (some j) told = false
busy_worker Worker.woken none told = false
busy_worker Worker.woken (some j) told = true
busy_worker Worker.asleep none told = false
busy_worker Worker.asleep (some j) told = told
busy_worker Worker.returned o told = false

abbrev pub idle_worker : Worker → Bool
idle_worker Worker.asleep = true
idle_worker Worker.woken = true
idle_worker Worker.parking = false
idle_worker (Worker.running j) = false
idle_worker Worker.returned = false

abbrev pub is_end : Client → Bool
is_end Client.exiting = true
is_end Client.joining = true
is_end Client.joined = true
is_end Client.ready = false
is_end (Client.starting j b) = false
is_end Client.notifying = false
is_end (Client.waiting b) = false
is_end (Client.draining b) = false
is_end Client.raising = false

abbrev pub ending : Worker → Client → Bool
ending Worker.asleep Client.exiting = true
ending Worker.woken Client.exiting = true
ending Worker.returned Client.exiting = true
ending Worker.woken Client.joining = true
ending Worker.returned Client.joining = true
ending Worker.returned Client.joined = true
ending w c = false

pub data Phase (t : Thread) : Type 0 where
  busy :
      t.searching ≡ true
      → t.exit ≡ false
      → busy_worker t.worker t.job (is_notifying t.client) ≡ true
      → in_busy t.client ≡ true
      → Phase t
  idle :
      t.searching ≡ false
      → t.exit ≡ false
      → t.job ≡ none
      → idle_worker t.worker ≡ true
      → in_idle t.client ≡ true
      → Phase t
  over :
      t.exit ≡ true
      → t.job ≡ none
      → ending t.worker t.client ≡ true
      → is_end t.client ≡ true
      → Phase t

-- The job that was handed over and has not run.
abbrev pub in_flight : Worker → Option ℕ → List ℕ
in_flight (Worker.running j) o = j ∷ []
in_flight Worker.parking none = []
in_flight Worker.parking (some j) = j ∷ []
in_flight Worker.asleep none = []
in_flight Worker.asleep (some j) = j ∷ []
in_flight Worker.woken none = []
in_flight Worker.woken (some j) = j ∷ []
in_flight Worker.returned none = []
in_flight Worker.returned (some j) = j ∷ []

pub record IsSound (t : Thread) : Type 0 where
  pub phase : Phase t
  pub log : t.started ≡ t.finished ++ in_flight t.worker t.job

pub spawn-IsSound : IsSound thread_spawn
unfolding thread_spawn
spawn-IsSound = record { phase = Phase.busy refl refl refl refl; log = refl }

-- The fields one by one, so that the cases compute.
abbrev pub mk : Bool → Bool → Option ℕ → Worker → Client → List ℕ → List ℕ → Thread
mk se ex job w c st fi = record {
  searching = se;
  exit = ex;
  job = job;
  worker = w;
  client = c;
  started = st;
  finished = fi;
}
