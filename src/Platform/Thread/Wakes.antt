-- ===== src/Platform/Thread/Wakes.antt =====
-- src/platform/thread.c: what a broadcast keeps of the phases.
use fcfish.Base.{ℕ, ◌≡◌, refl, arith, Bool, true, [], ◌∷◌, Option, none, some}
use fcfish.Platform.Thread.{Worker, Client, wake_client, wake_worker}
use fcfish.Platform.Thread.Phases.{
  in_busy, in_idle, busy_worker, idle_worker, is_end, ending, in_flight,
}

pub busy-wake : (c : Client) → in_busy c ≡ true → in_idle (wake_client c) ≡ true
busy-wake Client.ready h = refl
busy-wake (Client.starting j b) h = refl
busy-wake Client.notifying h = refl
busy-wake (Client.waiting b) h = refl
busy-wake (Client.draining b) h = refl
busy-wake Client.raising h = absurd (ground (arith, h))
busy-wake Client.exiting h = absurd (ground (arith, h))
busy-wake Client.joining h = absurd (ground (arith, h))
busy-wake Client.joined h = absurd (ground (arith, h))

pub ending-returned : (c : Client) → ending Worker.woken c ≡ true → ending Worker.returned c ≡ true
ending-returned Client.exiting h = refl
ending-returned Client.joining h = refl
ending-returned Client.ready h = absurd (ground (arith, h))
ending-returned (Client.starting j b) h = absurd (ground (arith, h))
ending-returned Client.notifying h = absurd (ground (arith, h))
ending-returned (Client.waiting b) h = absurd (ground (arith, h))
ending-returned (Client.draining b) h = absurd (ground (arith, h))
ending-returned Client.raising h = absurd (ground (arith, h))
ending-returned Client.joined h = absurd (ground (arith, h))

pub busy-wake_worker :
    (w : Worker) (o : Option ℕ) (told now : Bool)
    → busy_worker w o told ≡ true
    → busy_worker (wake_worker w) o now ≡ true
busy-wake_worker Worker.parking none told now h = refl
busy-wake_worker Worker.parking (some k) told now h = absurd (ground (arith, h))
busy-wake_worker Worker.asleep none told now h = absurd (ground (arith, h))
busy-wake_worker Worker.asleep (some k) told now h = refl
busy-wake_worker Worker.woken none told now h = absurd (ground (arith, h))
busy-wake_worker Worker.woken (some k) told now h = refl
busy-wake_worker (Worker.running i) none told now h = refl
busy-wake_worker (Worker.running i) (some k) told now h = absurd (ground (arith, h))
busy-wake_worker Worker.returned none told now h = absurd (ground (arith, h))
busy-wake_worker Worker.returned (some k) told now h = absurd (ground (arith, h))

pub idle-wake_worker : (w : Worker) → idle_worker w ≡ true → idle_worker (wake_worker w) ≡ true
idle-wake_worker Worker.parking h = absurd (ground (arith, h))
idle-wake_worker Worker.asleep h = refl
idle-wake_worker Worker.woken h = refl
idle-wake_worker (Worker.running i) h = absurd (ground (arith, h))
idle-wake_worker Worker.returned h = absurd (ground (arith, h))

pub idle_worker-busy :
    (w : Worker) (j : ℕ) → idle_worker w ≡ true → busy_worker w (some j) true ≡ true
idle_worker-busy Worker.parking j h = absurd (ground (arith, h))
idle_worker-busy Worker.asleep j h = refl
idle_worker-busy Worker.woken j h = refl
idle_worker-busy (Worker.running i) j h = absurd (ground (arith, h))
idle_worker-busy Worker.returned j h = absurd (ground (arith, h))

pub idle_worker-ending : (w : Worker) → idle_worker w ≡ true → ending w Client.exiting ≡ true
idle_worker-ending Worker.parking h = absurd (ground (arith, h))
idle_worker-ending Worker.asleep h = refl
idle_worker-ending Worker.woken h = refl
idle_worker-ending (Worker.running i) h = absurd (ground (arith, h))
idle_worker-ending Worker.returned h = absurd (ground (arith, h))

pub ending-joining :
    (w : Worker) → ending w Client.exiting ≡ true → ending (wake_worker w) Client.joining ≡ true
ending-joining Worker.parking h = absurd (ground (arith, h))
ending-joining Worker.asleep h = refl
ending-joining Worker.woken h = refl
ending-joining (Worker.running i) h = absurd (ground (arith, h))
ending-joining Worker.returned h = refl

pub in_flight-wake : (w : Worker) (o : Option ℕ) → in_flight (wake_worker w) o ≡ in_flight w o
in_flight-wake Worker.parking none = refl
in_flight-wake Worker.parking (some k) = refl
in_flight-wake Worker.asleep none = refl
in_flight-wake Worker.asleep (some k) = refl
in_flight-wake Worker.woken none = refl
in_flight-wake Worker.woken (some k) = refl
in_flight-wake (Worker.running i) none = refl
in_flight-wake (Worker.running i) (some k) = refl
in_flight-wake Worker.returned none = refl
in_flight-wake Worker.returned (some k) = refl

pub in_flight-none : (w : Worker) → idle_worker w ≡ true → in_flight w none ≡ []
in_flight-none Worker.parking h = absurd (ground (arith, h))
in_flight-none Worker.asleep h = refl
in_flight-none Worker.woken h = refl
in_flight-none (Worker.running i) h = absurd (ground (arith, h))
in_flight-none Worker.returned h = absurd (ground (arith, h))

pub in_flight-some : (w : Worker) (j : ℕ) → idle_worker w ≡ true → in_flight w (some j) ≡ j ∷ []
in_flight-some Worker.parking j h = absurd (ground (arith, h))
in_flight-some Worker.asleep j h = refl
in_flight-some Worker.woken j h = refl
in_flight-some (Worker.running i) j h = absurd (ground (arith, h))
in_flight-some Worker.returned j h = absurd (ground (arith, h))

pub in_busy-wake : (c : Client) → in_busy c ≡ true → in_busy (wake_client c) ≡ true
in_busy-wake Client.ready h = refl
in_busy-wake (Client.starting j b) h = refl
in_busy-wake Client.notifying h = refl
in_busy-wake (Client.waiting b) h = refl
in_busy-wake (Client.draining b) h = refl
in_busy-wake Client.raising h = absurd (ground (arith, h))
in_busy-wake Client.exiting h = absurd (ground (arith, h))
in_busy-wake Client.joining h = absurd (ground (arith, h))
in_busy-wake Client.joined h = absurd (ground (arith, h))

pub in_idle-wake : (c : Client) → in_idle c ≡ true → in_idle (wake_client c) ≡ true
in_idle-wake Client.ready h = refl
in_idle-wake (Client.starting j b) h = refl
in_idle-wake Client.notifying h = refl
in_idle-wake (Client.waiting b) h = refl
in_idle-wake (Client.draining b) h = refl
in_idle-wake Client.raising h = refl
in_idle-wake Client.exiting h = absurd (ground (arith, h))
in_idle-wake Client.joining h = absurd (ground (arith, h))
in_idle-wake Client.joined h = absurd (ground (arith, h))

pub is_end-wake :
    (w : Worker) (c : Client)
    → is_end c ≡ true
    → ending w c ≡ true
    → ending (wake_worker w) (wake_client c) ≡ true
is_end-wake Worker.parking Client.ready g h = absurd (ground (arith, g))
is_end-wake Worker.parking (Client.starting j b) g h = absurd (ground (arith, g))
is_end-wake Worker.parking Client.notifying g h = absurd (ground (arith, g))
is_end-wake Worker.parking (Client.waiting b) g h = absurd (ground (arith, g))
is_end-wake Worker.parking (Client.draining b) g h = absurd (ground (arith, g))
is_end-wake Worker.parking Client.raising g h = absurd (ground (arith, g))
is_end-wake Worker.parking Client.exiting g h = absurd (ground (arith, h))
is_end-wake Worker.parking Client.joining g h = absurd (ground (arith, h))
is_end-wake Worker.parking Client.joined g h = absurd (ground (arith, h))
is_end-wake Worker.asleep Client.ready g h = absurd (ground (arith, g))
is_end-wake Worker.asleep (Client.starting j b) g h = absurd (ground (arith, g))
is_end-wake Worker.asleep Client.notifying g h = absurd (ground (arith, g))
is_end-wake Worker.asleep (Client.waiting b) g h = absurd (ground (arith, g))
is_end-wake Worker.asleep (Client.draining b) g h = absurd (ground (arith, g))
is_end-wake Worker.asleep Client.raising g h = absurd (ground (arith, g))
is_end-wake Worker.asleep Client.exiting g h = refl
is_end-wake Worker.asleep Client.joining g h = absurd (ground (arith, h))
is_end-wake Worker.asleep Client.joined g h = absurd (ground (arith, h))
is_end-wake Worker.woken Client.ready g h = absurd (ground (arith, g))
is_end-wake Worker.woken (Client.starting j b) g h = absurd (ground (arith, g))
is_end-wake Worker.woken Client.notifying g h = absurd (ground (arith, g))
is_end-wake Worker.woken (Client.waiting b) g h = absurd (ground (arith, g))
is_end-wake Worker.woken (Client.draining b) g h = absurd (ground (arith, g))
is_end-wake Worker.woken Client.raising g h = absurd (ground (arith, g))
is_end-wake Worker.woken Client.exiting g h = refl
is_end-wake Worker.woken Client.joining g h = refl
is_end-wake Worker.woken Client.joined g h = absurd (ground (arith, h))
is_end-wake (Worker.running i) Client.ready g h = absurd (ground (arith, g))
is_end-wake (Worker.running i) (Client.starting j b) g h = absurd (ground (arith, g))
is_end-wake (Worker.running i) Client.notifying g h = absurd (ground (arith, g))
is_end-wake (Worker.running i) (Client.waiting b) g h = absurd (ground (arith, g))
is_end-wake (Worker.running i) (Client.draining b) g h = absurd (ground (arith, g))
is_end-wake (Worker.running i) Client.raising g h = absurd (ground (arith, g))
is_end-wake (Worker.running i) Client.exiting g h = absurd (ground (arith, h))
is_end-wake (Worker.running i) Client.joining g h = absurd (ground (arith, h))
is_end-wake (Worker.running i) Client.joined g h = absurd (ground (arith, h))
is_end-wake Worker.returned Client.ready g h = absurd (ground (arith, g))
is_end-wake Worker.returned (Client.starting j b) g h = absurd (ground (arith, g))
is_end-wake Worker.returned Client.notifying g h = absurd (ground (arith, g))
is_end-wake Worker.returned (Client.waiting b) g h = absurd (ground (arith, g))
is_end-wake Worker.returned (Client.draining b) g h = absurd (ground (arith, g))
is_end-wake Worker.returned Client.raising g h = absurd (ground (arith, g))
is_end-wake Worker.returned Client.exiting g h = refl
is_end-wake Worker.returned Client.joining g h = refl
is_end-wake Worker.returned Client.joined g h = refl

pub is_end-wake_client : (c : Client) → is_end c ≡ true → is_end (wake_client c) ≡ true
is_end-wake_client Client.ready h = absurd (ground (arith, h))
is_end-wake_client (Client.starting j b) h = absurd (ground (arith, h))
is_end-wake_client Client.notifying h = absurd (ground (arith, h))
is_end-wake_client (Client.waiting b) h = absurd (ground (arith, h))
is_end-wake_client (Client.draining b) h = absurd (ground (arith, h))
is_end-wake_client Client.raising h = absurd (ground (arith, h))
is_end-wake_client Client.exiting h = refl
is_end-wake_client Client.joining h = refl
is_end-wake_client Client.joined h = refl
