-- ===== src/Pool/Witnesses.antt =====
-- Concrete schedules of the pool, and the theorems at them.
use camouflare.Pool.Retired.{acquire_round-IsElsewhere, IsElsewhere, run-IsDoomed}
use camouflare.Pool.Snapshot.{release_and_publish, is_full_and_serving}
use camouflare.Pool.Readiness.{IsServing, is_full_and_serving-IsServing}
use camouflare.Pool.Published.{release_and_publish-Releases}
use camouflare.Pool.Connected.{acquire_round-IsAnswered, IsAnswered}
use camouflare.Pool.Doomed.{IsDoomed}
use camouflare.Pool.Contexts.{perform-SameLeases, SameLeases}
use camouflare.Pool.Soundness.{perform-AllSound, AllSound}
use camouflare.Pool.Release.{release_slot}
use camouflare.Pool.Acquire.{choose_slot, reserved, acquire_round}
use camouflare.Pool.Releasing.{Releases}
use camouflare.Pool.Accounting.{acquire_round-RoundEnds, RoundEnds}
use camouflare.Prelude.{
  inl, some, ◌↔◌, none, ◌++◌, ℕ, ◌≤◌, true, false, List, [], ◌∷◌, ◌≡◌, refl, arith,
}
use camouflare.Pool.State.{
  Pool, SlotReservation, ok, Settings, Env, transient, persistent, disconnected,
  physical_generations, max_physical_generations,
}
use camouflare.Pool.Tasks.{
  startup_fails, perform, starts, launch_completes, registers, start_ends, maintains, quiesces,
}
use camouflare.Pool.World.{
  pick, World, Action, happens, acquires, wakes, releases, opens_session, run, new_world,
}
use camouflare.Pool.Code.{pool_code}
use camouflare.Pool.Invariant.{run-new_world-Inv}
use camouflare.Pool.Leases.{Inv}
use camouflare.Pool.Ceiling.Runs.{AllReported, run-ceiling}

-- Two browsers with two contexts each, one context kept for stateless requests.
abbrev small_pool : Settings
small_pool = record {
  min_browsers = 1;
  max_browsers = 2;
  max_contexts_per_browser = 2;
  browser_max_uses = 3;
  browser_max_age = 7200000;
  reserved_transient_contexts = 1;
}

abbrev calm : ℕ → Env
calm now = record { now = now; later = now; dead = λ i. false; gone = λ i. false }

-- One browser starts and serves a session and a request; the request's context dies with it.
abbrev day : List Action
day =
    happens (calm 0) starts
    ∷ happens (calm 5) (launch_completes 0)
    ∷ happens (calm 6) (registers (0 ∷ []) (0 ∷ []) false)
    ∷ happens (calm 7) (start_ends true)
    ∷ opens_session
    ∷ acquires (calm 10) 100 0 false persistent
    ∷ acquires (calm 11) 100 0 false transient
    ∷ acquires (calm 12) 100 0 false transient
    ∷ releases (calm 20) 0 true disconnected
    ∷ wakes false
    ∷ happens (calm 30) maintains
    ∷ []

run-new_world-Inv_example : Inv small_pool (run day (new_world small_pool))
run-new_world-Inv_example = run-new_world-Inv small_pool day

day_reported : AllReported day (new_world small_pool)
unfolding pool_code
day_reported = (
  (tt, λ _. tt),
  (
    (tt, λ _. tt),
    (
      (tt, λ _. ((refl, tt), omega arith)),
      ((tt, λ _. tt), (tt, (tt, (tt, (tt, (tt, (tt, ((tt, λ _. tt), tt)))))))),
    ),
  ),
)

day_open : (run day (new_world small_pool)).pool.closed ≡ false
unfolding pool_code
day_open = refl

run-ceiling_example :
    physical_generations (run day (new_world small_pool)).pool ≤ max_physical_generations small_pool
run-ceiling_example = run-ceiling small_pool day day_reported (inl day_open)

-- The session's browser has gone, and one replacement is being launched.
day_ends : physical_generations (run day (new_world small_pool)).pool ≡ 2
unfolding pool_code
day_ends = refl

-- A startup whose launch was abandoned, and a second one that shutdown overtakes: its browser is counted
-- by the watcher of its launch and by its close, so that the count passes the ceiling of a pool of one.
overtaken_startup :
    physical_generations
      (run
        (happens (calm 0) starts
          ∷ happens (calm 5) (startup_fails [] (0 ∷ []) [])
          ∷ happens (calm 6) starts
          ∷ happens (calm 7) (launch_completes 1)
          ∷ happens (calm 8) quiesces
          ∷ happens (calm 9) (registers (1 ∷ []) (1 ∷ []) false)
          ∷ [])
        (new_world (record small_pool { max_browsers = 1 }))).pool
    ≡ 3
unfolding pool_code
overtaken_startup = refl

-- The pool once its browser serves, and after its first lease.
abbrev morning : List Action
morning =
    happens (calm 0) starts
    ∷ happens (calm 5) (launch_completes 0)
    ∷ happens (calm 6) (registers (0 ∷ []) (0 ∷ []) false)
    ∷ happens (calm 7) (start_ends true)
    ∷ []

abbrev serving : World
serving = run morning (new_world small_pool)

abbrev lent : World
lent = run (morning ++ (acquires (calm 10) 100 0 false transient ∷ [])) (new_world small_pool)

abbrev lease : SlotReservation
lease = record { slot = 0; kind = transient; released = false }

acquire_round-RoundEnds_example :
    RoundEnds serving.pool
      (acquire_round (calm 10) 100 0 false transient serving.pool).0
      (acquire_round (calm 10) 100 0 false transient serving.pool).1
acquire_round-RoundEnds_example =
    acquire_round-RoundEnds (calm 10) transient 100 0 false serving.pool
      (run-new_world-Inv small_pool _).sound

-- The round above ends with a lease of the browser.
first_lease : (acquire_round (calm 10) 100 0 false transient serving.pool).0 ≡ ok (reserved lease)
unfolding pool_code
first_lease = refl

lent_sound : AllSound lent.pool
lent_sound =
    (run-new_world-Inv small_pool
      (morning ++ (acquires (calm 10) 100 0 false transient ∷ []))).sound

lent_lease : pick 0 lent.leases ≡ some (lease, [])
unfolding pool_code
lent_lease = refl

release_and_publish-Releases_example :
    Releases lease lent.pool
      (release_and_publish (calm 20) lease true disconnected lent.pool).0
      (release_and_publish (calm 20) lease true disconnected lent.pool).1
release_and_publish-Releases_example =
    release_and_publish-Releases small_pool
      (morning ++ (acquires (calm 10) 100 0 false transient ∷ [])) (calm 20) 0 lease [] true
      disconnected lent_lease

perform-AllSound_example : AllSound (perform (calm 30) maintains lent.pool).1
perform-AllSound_example = perform-AllSound (calm 30) maintains lent.pool lent_sound

perform-SameLeases_example : SameLeases lent.pool (perform (calm 30) quiesces lent.pool).1
perform-SameLeases_example = perform-SameLeases (calm 30) quiesces lent.pool

-- A round while the only browser has died: it is not lent.
acquire_round-IsAnswered_example :
    let e = record (calm 10) { dead = λ i. true } in
    IsAnswered e (acquire_round e 100 0 false transient serving.pool).0
acquire_round-IsAnswered_example =
    acquire_round-IsAnswered (record (calm 10) { dead = λ i. true }) 100 0 false transient
      serving.pool

-- The browser whose lease was discarded at the end of the day.
abbrev discarded : Pool
discarded = (release_slot (calm 20) lease true disconnected lent.pool).1

discarded-IsDoomed : IsDoomed 0 discarded
unfolding pool_code
discarded-IsDoomed = record { left = refl; hard = refl }

run-IsDoomed_example :
    IsDoomed 0
      (run
        (happens (calm 30) maintains ∷ happens (calm 40) quiesces ∷ [])
        (record lent { pool = discarded })).pool
run-IsDoomed_example =
    run-IsDoomed 0 (happens (calm 30) maintains ∷ happens (calm 40) quiesces ∷ [])
      (record lent { pool = discarded }) discarded-IsDoomed

acquire_round-IsElsewhere_example :
    IsElsewhere 0 (acquire_round (calm 30) 100 0 false transient discarded).0
acquire_round-IsElsewhere_example =
    acquire_round-IsElsewhere 0 (calm 30) 100 0 false transient discarded discarded-IsDoomed

-- The only browser, with both of its contexts lent.
abbrev full : Pool
full =
    (run
      (morning
        ++ (acquires (calm 10) 100 0 false transient
            ∷ acquires (calm 11) 100 0 false transient
            ∷ []))
      (new_world small_pool)).pool

full_serving : is_full_and_serving (calm 12) full ≡ true
unfolding pool_code
full_serving = refl

is_full_and_serving-IsServing_example :
    (is_full_and_serving (calm 12) full ≡ true ↔ IsServing (calm 12) full)
    × (is_full_and_serving (calm 12) full ≡ true → choose_slot (calm 12) full ≡ none)
is_full_and_serving-IsServing_example = is_full_and_serving-IsServing (calm 12) full
