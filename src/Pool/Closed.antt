-- ===== src/Pool/Closed.antt =====
-- camouflare/pool.py: `_closed` is never cleared, along no schedule.
use camouflare.Prelude.{
  ℕ, Bool, true, List, [], ◌∷◌, Option, none, some, ◌≡◌, arith, ◌==◌, if-holds,
}
use camouflare.Pool.State.{
  Reason, Kind, Env, Pool, modify, ◌>>=◌, SlotReservation, PersistentReservation,
}
use camouflare.Pool.Recycle.{mark_retiring, schedule_close, start_close_task, retire_exhausted}
use camouflare.Pool.Create.{create_slot, settle_close, start_create_task}
use camouflare.Pool.Acquire.{
  occupy, reserve_slot, launch_and_wait, settle_round, take_or_wait, acquire_round, acquire_wake,
}
use camouflare.Pool.Release.{vacate, release_slot, reserve_persistent, release_persistent}
use camouflare.Pool.Keeps.{Keeps, keeps}
use camouflare.Pool.Stable.{Stable, mark_retiring-Keeps, refresh_recycling-Keeps, perform-Keeps}
use camouflare.Pool.Releasing.{retire_released-Keeps, close_released-Keeps}
use camouflare.Pool.World.{
  World, Action, happens, acquires, wakes, releases, opens_session, closes_session, pick,
  release_picked, step, run, after_round-pool, after_release-pool, count_sessions-pool,
}

pub record IsClosed (p : Pool) : Type 0 where
  pub closed : p.closed ≡ true

mark_retiring-IsClosed : (i : ℕ) (r : Reason) → Keeps IsClosed (mark_retiring i r)
unfolding mark_retiring ◌>>=◌
mark_retiring-IsClosed i r = record { after = λ p h. record { closed = h.closed } }

schedule_close-IsClosed : (i : ℕ) (r : Reason) → Keeps IsClosed (schedule_close i r)
unfolding schedule_close mark_retiring start_close_task ◌>>=◌
schedule_close-IsClosed i r = record { after = λ p h. record { closed = ground (arith, h.closed) } }

settle_close-IsClosed : (e : Env) (i : ℕ) (b : Bool) → Keeps IsClosed (modify (settle_close e i b))
unfolding settle_close ◌>>=◌
settle_close-IsClosed e i b = record { after = λ p h. record { closed = ground (arith, h.closed) } }

create_slot-IsClosed : (i now : ℕ) → Keeps IsClosed (create_slot i now)
unfolding create_slot ◌>>=◌
create_slot-IsClosed i now = record { after = λ p h. record { closed = ground (arith, h.closed) } }

IsClosed-Stable : Stable IsClosed
IsClosed-Stable = record {
  same = λ p q s h. record { closed = s.stays h.closed };
  retires = mark_retiring-IsClosed;
  schedules = schedule_close-IsClosed;
  creates = create_slot-IsClosed;
  settles = settle_close-IsClosed;
}

occupy-IsClosed : (i : ℕ) (kind : Kind) → Keeps IsClosed (modify (occupy i kind))
unfolding occupy ◌>>=◌
occupy-IsClosed i kind = record { after = λ p h. record { closed = h.closed } }

vacate-IsClosed : (r : SlotReservation) → Keeps IsClosed (modify (vacate r))
unfolding vacate ◌>>=◌
vacate-IsClosed r = record { after = λ p h. record { closed = h.closed } }

launch_and_wait-IsClosed : (late launched : Bool) → Keeps IsClosed (launch_and_wait late launched)
unfolding launch_and_wait start_create_task ◌>>=◌
launch_and_wait-IsClosed late launched = record {
  after = λ p h. record { closed = ground (arith, h.closed) };
}

acquire_wake-IsClosed : (b : Bool) → Keeps IsClosed (acquire_wake b)
unfolding acquire_wake ◌>>=◌
acquire_wake-IsClosed b = record { after = λ p h. record { closed = ground (arith, h.closed) } }

reserve_persistent-IsClosed : Keeps IsClosed reserve_persistent
unfolding reserve_persistent ◌>>=◌
reserve_persistent-IsClosed = record { after = λ p h. record { closed = ground (arith, h.closed) } }

release_persistent-IsClosed : (r : PersistentReservation) → Keeps IsClosed (release_persistent r)
unfolding release_persistent ◌>>=◌
release_persistent-IsClosed r = record {
  after = λ p h. record { closed = ground (arith, h.closed) };
}

module _ (e : Env) where
  settle_round-IsClosed :
      (i? x? : Option ℕ) (late launched : Bool) (kind : Kind)
      → Keeps IsClosed (settle_round e i? x? late launched kind)
  unfolding settle_round reserve_slot retire_exhausted
  settle_round-IsClosed (some j) x? late launched kind =
      search (keeps, occupy-IsClosed, mark_retiring-Keeps IsClosed-Stable) depth 16
  settle_round-IsClosed none (some x) late launched kind = search keeps depth 4
  settle_round-IsClosed none none late launched kind = launch_and_wait-IsClosed late launched

  acquire_round-IsClosed :
      (deadline observed : ℕ) (launched : Bool) (kind : Kind)
      → Keeps IsClosed (acquire_round e deadline observed launched kind)
  unfolding acquire_round take_or_wait
  acquire_round-IsClosed deadline observed launched kind =
      search (keeps, refresh_recycling-Keeps IsClosed-Stable, settle_round-IsClosed) depth 16

  release_slot-IsClosed :
      (r : SlotReservation) (b : Bool) (x : Reason) → Keeps IsClosed (release_slot e r b x)
  unfolding release_slot
  release_slot-IsClosed r b x =
      search
        (
          keeps,
          vacate-IsClosed,
          retire_released-Keeps IsClosed-Stable,
          close_released-Keeps IsClosed-Stable,
        )
        depth 16

pub step-IsClosed : (a : Action) (w : World) → IsClosed w.pool → IsClosed (step a w).pool
unfolding step
step-IsClosed (happens e v) w h = (perform-Keeps IsClosed-Stable e v).after w.pool h
step-IsClosed (acquires e deadline observed launched kind) w h =
    rw after_round-pool ((acquire_round-IsClosed e deadline observed launched kind).after w.pool h)
step-IsClosed (wakes b) w h =
    if-holds (λ (v : World). IsClosed v.pool) (w.waiters == 0) w _ (λ _. h)
      (λ _. (acquire_wake-IsClosed b).after w.pool h)
step-IsClosed (releases e n b x) w h = go (pick n w.leases)
  where
    go :
        (o : Option (SlotReservation × List SlotReservation))
        → IsClosed (release_picked e b x w o).pool
    go none = h
    go (some (r, rest)) = rw after_release-pool ((release_slot-IsClosed e r b x).after w.pool h)
step-IsClosed opens_session w h =
    rw count_sessions-pool (reserve_persistent-IsClosed.after w.pool h)
step-IsClosed closes_session w h =
    if-holds (λ (v : World). IsClosed v.pool) (w.sessions == 0) w _ (λ _. h)
      (λ _. rw count_sessions-pool ((release_persistent-IsClosed _).after w.pool h))

pub run-IsClosed :
    (schedule : List Action) (w : World) → IsClosed w.pool → IsClosed (run schedule w).pool
unfolding run
run-IsClosed [] w h = h
run-IsClosed (a ∷ rest) w h = run-IsClosed rest (step a w) (step-IsClosed a w h)
