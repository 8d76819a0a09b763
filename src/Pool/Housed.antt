-- ===== src/Pool/Housed.antt =====
-- camouflare/pool.py: a slot with leases stays in `_slots`, and the tests of `_snapshot_unlocked` pass.
use camouflare.Pool.World.{
  count_sessions-pool, after_release-pool, after_round-pool, new_world, run, step, release_picked,
  pick, closes_session, opens_session, releases, wakes, acquires, happens, Action, World,
}
use camouflare.Pool.Releasing.{close_released-Keeps, retire_released-Keeps}
use camouflare.Pool.Release.{release_persistent, reserve_persistent, release_slot, vacate}
use camouflare.Pool.Acquire.{
  Round, reserved, acquire_wake, acquire_round, take_or_wait, settle_round, launch_and_wait,
  new_failure, or_else, choose_slot, first_slot, reserve_slot, occupy,
}
use camouflare.Prelude.{
  refl, ◌∙◌, ◌||◌, if-holds, ℕ, ◌<◌, Bool, true, List, [], ◌∷◌, Option, none, some, ◌≡◌, subst,
  arith, ◌==◌, contains, contains-remove_ne,
}
use camouflare.Pool.State.{
  launch_failed, pure, PersistentReservation, Reason, Kind, Env, Pool, modify, ◌>>=◌, Settings,
  Slot, SlotReservation,
}
use camouflare.Pool.Recycle.{
  soft_retiring_slot_available, healthy_slot_available, retire_exhausted, mark_retiring,
  schedule_close, start_close_task,
}
use camouflare.Pool.Create.{start_create_task, create_slot, settle_close}
use camouflare.Pool.Keeps.{Keeps-raise, Keeps-get_bind, Keeps-pure, Keeps-bind, keeps, Keeps}
use camouflare.Pool.Stable.{perform-Keeps, refresh_recycling-Keeps, Stable}

-- A slot whose contexts are in use is in service: only idle slots leave the pool.
pub record Housed (p : Pool) : Type 0 where
  pub in_service : (i : ℕ) → 0 < (p.heap i).active_contexts → contains p.slots i ≡ true

mark_retiring-Housed : (i : ℕ) (r : Reason) → Keeps Housed (mark_retiring i r)
unfolding mark_retiring ◌>>=◌
mark_retiring-Housed i r = record {
  after = λ p h. record { in_service = λ j. ground (arith, h.in_service j) };
}

schedule_close-Housed : (i : ℕ) (r : Reason) → Keeps Housed (schedule_close i r)
unfolding schedule_close mark_retiring start_close_task ◌>>=◌
schedule_close-Housed i r = record {
  after = λ p h. record {
    in_service = λ j. ground (arith, h.in_service j, contains-remove_ne p.slots i j);
  };
}

settle_close-Housed : (e : Env) (i : ℕ) (b : Bool) → Keeps Housed (modify (settle_close e i b))
unfolding settle_close ◌>>=◌
settle_close-Housed e i b = record {
  after = λ p h. record { in_service = λ j. ground (arith, h.in_service j) };
}

create_slot-Housed : (i now : ℕ) → Keeps Housed (create_slot i now)
unfolding create_slot ◌>>=◌
create_slot-Housed i now = record {
  after = λ p h. record { in_service = λ j. ground (arith, h.in_service j) };
}

pub Housed-Stable : Stable Housed
Housed-Stable = record {
  same = λ p q s h. record {
    in_service = λ i busy.
        s.kept i (h.in_service i (subst (λ (f : ℕ → Slot). 0 < (f i).active_contexts) s.heap busy));
  };
  retires = mark_retiring-Housed;
  schedules = schedule_close-Housed;
  creates = create_slot-Housed;
  settles = settle_close-Housed;
}

module _ (e : Env) where
  -- A slot that is in service, in a pool where those with leases are.
  record Hosts (i : ℕ) (p : Pool) : Type 0 where
    housed : Housed p
    present : contains p.slots i ≡ true

  mark_retiring-Hosts : (i j : ℕ) (r : Reason) → Keeps (Hosts i) (mark_retiring j r)
  unfolding mark_retiring ◌>>=◌
  mark_retiring-Hosts i j r = record {
    after =
        λ p h. record { housed = (mark_retiring-Housed j r).after p h.housed; present = h.present };
  }

  occupy-Hosts : (i : ℕ) (kind : Kind) → Keeps (Hosts i) (modify (occupy i kind))
  unfolding occupy ◌>>=◌
  occupy-Hosts i kind = record {
    after = λ p h. record {
      housed = record { in_service = λ j. ground (arith, h.housed.in_service j, h.present) };
      present = h.present;
    };
  }

  reserve_slot-Hosts : (i : ℕ) (kind : Kind) → Keeps (Hosts i) (reserve_slot e i kind)
  unfolding reserve_slot retire_exhausted
  reserve_slot-Hosts i kind = search (keeps, occupy-Hosts, mark_retiring-Hosts) depth 16

  first_slot-contains :
      (test : Slot → Bool) (h : ℕ → Slot) (is : List ℕ) (i : ℕ)
      → first_slot test h is ≡ some i
      → contains is i ≡ true
  unfolding first_slot contains
  first_slot-contains test h [] i = λ found. absurd (ground (arith, found))
  first_slot-contains test h (j ∷ is) i =
      if-holds (λ (o : Option ℕ). o ≡ some i → (j == i) || contains is i ≡ true) (test (h j)) _ _
        (λ _ found. ground (arith, found))
        (λ _ found. ground (arith, first_slot-contains test h is i found))

  choose_slot-contains : (p : Pool) (i : ℕ) → choose_slot e p ≡ some i → contains p.slots i ≡ true
  unfolding choose_slot
  choose_slot-contains p i = by_first (first_slot (healthy_slot_available e p) p.heap p.slots) refl
    where
      by_first :
          (o : Option ℕ)
          → first_slot (healthy_slot_available e p) p.heap p.slots ≡ o
          → or_else o (first_slot (soft_retiring_slot_available p) p.heap p.slots) ≡ some i
          → contains p.slots i ≡ true
      by_first (some j) first found =
          first_slot-contains (healthy_slot_available e p) p.heap p.slots i (first ∙ found)
      by_first none first found =
          first_slot-contains (soft_retiring_slot_available p) p.heap p.slots i found

  launch_and_wait-Housed : (late launched : Bool) → Keeps Housed (launch_and_wait late launched)
  unfolding launch_and_wait start_create_task ◌>>=◌
  launch_and_wait-Housed late launched = record {
    after = λ p h. record { in_service = λ j. ground (arith, h.in_service j) };
  }

  settle_round-Housed :
      (i? x? : Option ℕ) (late launched : Bool) (kind : Kind) (p : Pool)
      → ((i : ℕ) → i? ≡ some i → contains p.slots i ≡ true)
      → Housed p
      → Housed (settle_round e i? x? late launched kind p).1
  unfolding settle_round
  settle_round-Housed (some i) x? late launched kind p present h =
      let lease : Keeps (Hosts i) (reserve_slot e i kind >>= λ r. pure (reserved r)) =
        Keeps-bind _ _ (reserve_slot-Hosts i kind) (λ r. Keeps-pure (reserved r)) in
      (lease.after p (record { housed = h; present = present i refl })).housed
  settle_round-Housed none (some x) late launched kind p present h =
      (Keeps-raise {P = Housed} {A = Round} (launch_failed x)).after p h
  settle_round-Housed none none late launched kind p present h =
      (launch_and_wait-Housed late launched).after p h

  take_or_wait-Housed :
      (late : Bool) (observed : ℕ) (launched : Bool) (kind : Kind)
      → Keeps Housed (take_or_wait e late observed launched kind)
  unfolding take_or_wait
  take_or_wait-Housed late observed launched kind = Keeps-get_bind _ (λ q h.
      settle_round-Housed (choose_slot e q) (new_failure observed q) late launched kind q
        (choose_slot-contains q) h)

  acquire_round-Housed :
      (deadline observed : ℕ) (launched : Bool) (kind : Kind)
      → Keeps Housed (acquire_round e deadline observed launched kind)
  unfolding acquire_round
  acquire_round-Housed deadline observed launched kind =
      search (keeps, refresh_recycling-Keeps Housed-Stable, take_or_wait-Housed) depth 16

  vacate-Housed : (r : SlotReservation) → Keeps Housed (modify (vacate r))
  unfolding vacate ◌>>=◌
  vacate-Housed r = record {
    after = λ p h. record { in_service = λ j. ground (arith, h.in_service j) };
  }

  pub release_slot-Housed :
      (r : SlotReservation) (b : Bool) (x : Reason) → Keeps Housed (release_slot e r b x)
  unfolding release_slot
  release_slot-Housed r b x =
      search
        (
          keeps,
          vacate-Housed,
          retire_released-Keeps Housed-Stable,
          close_released-Keeps Housed-Stable,
        )
        depth 16

acquire_wake-Housed : (b : Bool) → Keeps Housed (acquire_wake b)
unfolding acquire_wake ◌>>=◌
acquire_wake-Housed b = record {
  after = λ p h. record { in_service = λ j. ground (arith, h.in_service j) };
}

reserve_persistent-Housed : Keeps Housed reserve_persistent
unfolding reserve_persistent ◌>>=◌
reserve_persistent-Housed = record {
  after = λ p h. record { in_service = λ j. ground (arith, h.in_service j) };
}

release_persistent-Housed : (r : PersistentReservation) → Keeps Housed (release_persistent r)
unfolding release_persistent ◌>>=◌
release_persistent-Housed r = record {
  after = λ p h. record { in_service = λ j. ground (arith, h.in_service j) };
}

pub step-Housed : (a : Action) (w : World) → Housed w.pool → Housed (step a w).pool
unfolding step
step-Housed (happens e v) w h = (perform-Keeps Housed-Stable e v).after w.pool h
step-Housed (acquires e deadline observed launched kind) w h =
    rw after_round-pool ((acquire_round-Housed e deadline observed launched kind).after w.pool h)
step-Housed (wakes b) w h =
    if-holds (λ (v : World). Housed v.pool) (w.waiters == 0) w _ (λ _. h)
      (λ _. (acquire_wake-Housed b).after w.pool h)
step-Housed (releases e n b x) w h = go (pick n w.leases)
  where
    go :
        (o : Option (SlotReservation × List SlotReservation))
        → Housed (release_picked e b x w o).pool
    go none = h
    go (some (r, rest)) = rw after_release-pool ((release_slot-Housed e r b x).after w.pool h)
step-Housed opens_session w h = rw count_sessions-pool (reserve_persistent-Housed.after w.pool h)
step-Housed closes_session w h =
    if-holds (λ (v : World). Housed v.pool) (w.sessions == 0) w _ (λ _. h)
      (λ _. rw count_sessions-pool ((release_persistent-Housed _).after w.pool h))

run-Housed : (schedule : List Action) (w : World) → Housed w.pool → Housed (run schedule w).pool
unfolding run
run-Housed [] w h = h
run-Housed (a ∷ rest) w h = run-Housed rest (step a w) (step-Housed a w h)

pub run-new_world-Housed :
    (c : Settings) (schedule : List Action) → Housed (run schedule (new_world c)).pool
run-new_world-Housed c schedule =
    run-Housed schedule (new_world c)
      (record { in_service = λ i busy. absurd (ground (arith, busy)) })
