-- ===== src/Pool/Ceiling/Runs.antt =====
-- The hard ceiling on browser generations, after any schedule of the pool and its clients.
use camouflare.Pool.Closed.{run-IsClosed}
use camouflare.Prelude.{
  inr, inl, ◌⊎◌, inl, inr, Bool-cases, ℕ, ◌≤◌, Bool, true, false, not, ◌≡◌, refl, arith, List, [],
  ◌∷◌, none, some, length, contains, lookup, ◌==◌, Option,
}
use camouflare.Pool.State.{
  Settings, Env, Pool, pure, ◌>>=◌, physical_generations, max_physical_generations, new_pool,
  pool_closed, SlotReservation, PersistentReservation,
}
use camouflare.Pool.Create.{create_slot, physical_close_finished, create_supervisor_done}
use camouflare.Pool.Lifecycle.{register_started_slots, end_start}
use camouflare.Pool.Tasks.{
  Event, refreshes, maintains, starts, quiesces, launch_completes, launch_times_out,
  launch_succeeds, supervisor_ends, launch_fails, abandoned_launch_ends, close_ends, close_aborts,
  physically_closes, closes_late, startup_aborts, startup_fails, registers, start_ends,
  startup_recovers, closes, perform,
}
use camouflare.Pool.Acquire.{acquire_wake}
use camouflare.Pool.Release.{reserve_persistent, release_persistent}
use camouflare.Pool.World.{
  count_sessions-pool, after_release-pool, after_round-pool, World, Action, happens, acquires,
  wakes, releases, opens_session, closes_session, pick, release_picked, step, run, new_world,
}
use camouflare.Pool.Keeps.{then_post, Keeps-raise_if, Keeps, Keeps-bind, Keeps-pure}
use camouflare.Pool.Ceiling.Steps.{Fits, Tracked}
use camouflare.Pool.Ceiling.Events.{finish_close_slot-Fits, reconcile_aborted_close-Fits}
use camouflare.Pool.Ceiling.Sections.{
  supervise_timeout-Fits, supervise_failure-Fits, supervise_success-Fits,
  finish_abandoned_creation-Fits, reconcile_late_physical_close-Fits,
}
use camouflare.Pool.Ceiling.Life.{
  recover_unregistered-Fits, refresh-Fits, maintain-Fits, begin_close-Fits, abort_startup-Fits,
  fail_startup-Fits, register_started_slots-Fits, recover_cancelled_start-Fits, begin_start-Fits,
}
use camouflare.Pool.Ceiling.Marks.{Covered, quiesce-Fits}
use camouflare.Pool.Ceiling.Requests.{acquire_round-Fits, release_slot-Fits, counters-Fits}

-- What the tasks that the pool has started report on: a close of a slot that is being closed, an
-- abandoned launch that is watched.
abbrev pub IsWatched : Pool → Event → Type 0
IsWatched p (abandoned_launch_ends t launched) = contains p.create_watchers t ≡ true
IsWatched p (close_ends i succeeded) = (task : ℕ) × (lookup i p.close_tasks ≡ some task)
IsWatched p _ = Unit {0}

-- The launches over which a startup ends are still counted, and it has at most as many browsers. A
-- recovery may also find the browsers in service or closing, where their registration had gone well.
abbrev pub IsAccounted : Pool → Event → Type 0
IsAccounted p (startup_fails done pending created) =
    Covered done p.create_tasks × (length created ≤ length done)
IsAccounted p (registers ts created cancelled) =
    Covered ts p.create_tasks × (length created ≤ length ts)
IsAccounted p (startup_recovers ts created) =
    ((i : ℕ) → contains created i ≡ true → Tracked i p)
    ⊎ (Covered ts p.create_tasks × (length created ≤ length ts))
IsAccounted p _ = Unit {0}

-- A truthful report. Only shutdown takes the launches of a startup away from it, so they are counted
-- as long as the pool is open.
abbrev pub Reported : Pool → Event → Type 0
Reported p v = IsWatched p v × (p.closed ≡ false → IsAccounted p v)

module _ (c : Settings) where
  perform-Fits :
      (e : Env) (v : Event) (p : Pool)
      → IsWatched p v
      → IsAccounted p v
      → Fits c 0 p
      → Fits c 0 (perform e v p).1
  unfolding perform create_slot create_supervisor_done physical_close_finished end_start
      physical_generations ◌>>=◌
  perform-Fits e refreshes p r a h = (refresh-Fits c 0 e).after p h
  perform-Fits e maintains p r a h = (maintain-Fits c e).after p h
  perform-Fits e starts p r a h = (begin_start-Fits c).after p h
  perform-Fits e quiesces p r a h = (quiesce-Fits c 0).after p h
  perform-Fits e (launch_completes t) p r a h = record {
    settings = h.settings;
    busy = λ j. ground (arith, h.busy j);
    within = h.within;
  }
  perform-Fits e (launch_times_out t) p r a h = (supervise_timeout-Fits c 0 t).after p h
  perform-Fits e (launch_succeeds t) p r a h = (supervise_success-Fits c 0 t).after p h
  perform-Fits e (supervisor_ends t) p r a h = counters-Fits c p _ refl refl refl refl h
  perform-Fits e (launch_fails t x) p r a h = (supervise_failure-Fits c 0 t x).after p h
  perform-Fits e (abandoned_launch_ends t b) p r a h = finish_abandoned_creation-Fits c 0 t b p r h
  perform-Fits e (close_ends i b) p (task, found) a h =
      finish_close_slot-Fits c e i task b p found h
  perform-Fits e (close_aborts i t) p r a h = (reconcile_aborted_close-Fits c e i t).after p h
  perform-Fits e (physically_closes i) p r a h = counters-Fits c p _ refl refl refl refl h
  perform-Fits e (closes_late i b) p r a h = (reconcile_late_physical_close-Fits c 0 i b).after p h
  perform-Fits e (startup_aborts ts) p r a h = (abort_startup-Fits c 0 ts).after p h
  perform-Fits e (startup_fails ds ps cs) p r (covered, fewer) h =
      fail_startup-Fits c ds ps cs p covered fewer h
  perform-Fits e (registers ts cs b) p r (covered, fewer) h =
      then_post (Fits c 0) (Fits c 0) (register_started_slots ts cs b) (λ _. pure tt) p
        (register_started_slots-Fits c ts cs b p covered fewer h) (λ _ k. k) (λ _ _ k. k)
  perform-Fits e (start_ends b) p r a h =
      (Keeps-raise_if {P = Fits c 0} (not b) pool_closed).after (record p { starting = false })
        (counters-Fits c p _ refl refl refl refl h)
  perform-Fits e (startup_recovers ts cs) p r (inl tracked) h =
      recover_cancelled_start-Fits c ts cs p tracked h
  perform-Fits e (startup_recovers ts cs) p r (inr (covered, fewer)) h =
      recover_unregistered-Fits c ts cs p covered fewer h
  perform-Fits e (closes startup accounting) p r a h =
      (Keeps-bind _ _ (begin_close-Fits c 0 startup accounting) (λ _. Keeps-pure tt)).after p h

abbrev pub Reports : Action → World → Type 0
Reports (happens e v) w = Reported w.pool v
Reports _ w = Unit {0}

abbrev pub Accounts : Action → World → Type 0
Accounts (happens e v) w = IsAccounted w.pool v
Accounts _ w = Unit {0}

-- The events of a schedule are truthful reports.
abbrev pub AllReported : List Action → World → Type 0
AllReported [] w = Unit {0}
AllReported (a ∷ rest) w = Reports a w × AllReported rest (step a w)

-- Every startup ends over launches that are still counted.
abbrev pub AllAccounted : List Action → World → Type 0
AllAccounted [] w = Unit {0}
AllAccounted (a ∷ rest) w = Accounts a w × AllAccounted rest (step a w)

Accounts-open : (a : Action) (w : World) → Reports a w → w.pool.closed ≡ false → Accounts a w
Accounts-open (happens e v) w r still_open = r.1 still_open
Accounts-open (acquires e deadline observed launched kind) w r still_open = tt
Accounts-open (wakes b) w r still_open = tt
Accounts-open (releases e n b x) w r still_open = tt
Accounts-open opens_session w r still_open = tt
Accounts-open closes_session w r still_open = tt

-- A pool that is open has been open all the time.
was_open :
    (schedule : List Action) (w : World)
    → (run schedule w).pool.closed ≡ false
    → w.pool.closed ≡ false
was_open schedule w still_open = elim (Bool-cases w.pool.closed) [
  | inl shut ↦
      let later = (run-IsClosed schedule w (record { closed = shut })).closed in
      absurd (ground (arith, later, still_open))
  | inr was ↦ was
]

AllAccounted-open :
    (schedule : List Action) (w : World)
    → AllReported schedule w
    → (run schedule w).pool.closed ≡ false
    → AllAccounted schedule w
unfolding run
AllAccounted-open [] w r still_open = tt
AllAccounted-open (a ∷ rest) w (r, rs) still_open = (
  Accounts-open a w r (was_open (a ∷ rest) w still_open),
  AllAccounted-open rest (step a w) rs still_open,
)

module _ (c : Settings) where
  acquire_wake-Fits : (b : Bool) → Keeps (Fits c 0) (acquire_wake b)
  unfolding acquire_wake physical_generations ◌>>=◌
  acquire_wake-Fits b = record {
    after = λ p h. record {
      settings = ground (arith, h.settings);
      busy = λ j. ground (arith, h.busy j);
      within = ground (arith, h.within);
    };
  }

  reserve_persistent-Fits : Keeps (Fits c 0) reserve_persistent
  unfolding reserve_persistent physical_generations ◌>>=◌
  reserve_persistent-Fits = record {
    after = λ p h. record {
      settings = ground (arith, h.settings);
      busy = λ j. ground (arith, h.busy j);
      within = ground (arith, h.within);
    };
  }

  release_persistent-Fits : (r : PersistentReservation) → Keeps (Fits c 0) (release_persistent r)
  unfolding release_persistent physical_generations ◌>>=◌
  release_persistent-Fits r = record {
    after = λ p h. record {
      settings = ground (arith, h.settings);
      busy = λ j. ground (arith, h.busy j);
      within = ground (arith, h.within);
    };
  }

  step-Fits :
      (a : Action) (w : World)
      → Reports a w
      → Accounts a w
      → Fits c 0 w.pool
      → Fits c 0 (step a w).pool
  unfolding step
  step-Fits (happens e v) w r a h = perform-Fits c e v w.pool r.0 a h
  step-Fits (acquires e deadline observed launched kind) w r a h =
      rw after_round-pool ((acquire_round-Fits c e deadline observed launched kind).after w.pool h)
  step-Fits (wakes b) w r a h = elim (Bool-cases (w.waiters == 0)) [
    | inl nobody ↦ rw nobody h
    | inr some_wait ↦ rw some_wait ((acquire_wake-Fits b).after w.pool h)
  ]
  step-Fits (releases e n b x) w r a h = go (pick n w.leases)
    where
      go :
          (o : Option (SlotReservation × List SlotReservation))
          → Fits c 0 (release_picked e b x w o).pool
      go none = h
      go (some (r, rest)) = rw after_release-pool ((release_slot-Fits c e r b x).after w.pool h)
  step-Fits opens_session w r a h = rw count_sessions-pool (reserve_persistent-Fits.after w.pool h)
  step-Fits closes_session w r a h = elim (Bool-cases (w.sessions == 0)) [
    | inl none_open ↦ rw none_open h
    | inr some_open ↦
        rw (some_open, count_sessions-pool) ((release_persistent-Fits _).after w.pool h)
  ]

  run-Fits :
      (schedule : List Action) (w : World)
      → AllReported schedule w
      → AllAccounted schedule w
      → Fits c 0 w.pool
      → Fits c 0 (run schedule w).pool
  unfolding run
  run-Fits [] w r k h = h
  run-Fits (a ∷ rest) w (r, rs) (k, ks) h = run-Fits rest (step a w) rs ks (step-Fits a w r k h)

  new_pool-Fits : Fits c 0 (new_pool c)
  unfolding physical_generations contains
  new_pool-Fits = record { settings = refl; busy = λ i. ground arith; within = omega arith }

-- Whatever the requests, releases, closes, retries, launches and restarts, along a schedule of
-- truthful reports the browsers that exist in any form (in service, being launched, abandoned at
-- launch, being closed, or stuck after a failed close) never exceed `max(1, 2 * max_browsers)`: as long
-- as the pool is open, and after it has been shut down if every startup ended over launches that were
-- still counted, so that no shutdown had abandoned them before.
pub run-ceiling :
    (c : Settings) (schedule : List Action)
    → AllReported schedule (new_world c)
    → ((run schedule (new_world c)).pool.closed ≡ false) ⊎ AllAccounted schedule (new_world c)
    → physical_generations (run schedule (new_world c)).pool ≤ max_physical_generations c
run-ceiling c schedule reported how =
    let accounted : AllAccounted schedule (new_world c) = elim how [
      | inl still_open ↦ AllAccounted-open schedule (new_world c) reported still_open
      | inr accounted ↦ accounted
    ] in
    omega (arith, (run-Fits c schedule (new_world c) reported accounted (new_pool-Fits c)).within)
