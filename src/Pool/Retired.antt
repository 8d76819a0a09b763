-- ===== src/Pool/Retired.antt =====
-- camouflare/pool.py: along any schedule a browser that was retired for good serves no one again.
use camouflare.Pool.Connected.{lease-Takes, Takes}
use camouflare.Prelude.{
  false, true, ◌≡◌, subst, refl, leb, Bool-cases, inr, inl, ◌∙◌, sym, ◌≢◌, ℕ, Bool, List, [], ◌∷◌,
  Option, none, some, arith, ◌==◌, if-holds,
}
use camouflare.Pool.State.{
  acquire_timeout, pool_closed, Reason, Kind, Result, ok, err, SlotReservation,
  PersistentReservation, Env, Pool, modify, ◌>>=◌,
}
use camouflare.Pool.Recycle.{refresh_recycling, retire_exhausted}
use camouflare.Pool.Create.{start_create_task}
use camouflare.Pool.Acquire.{
  take_or_wait, new_failure, choose_slot, may_launch, Round, reserved, waits, occupy, reserve_slot,
  settle_round, launch_and_wait, acquire_round, acquire_wake,
}
use camouflare.Pool.Release.{vacate, release_slot, reserve_persistent, release_persistent}
use camouflare.Pool.Keeps.{bind_post, guard_post, Keeps, keeps}
use camouflare.Pool.Stable.{mark_retiring-Keeps, refresh_recycling-Keeps}
use camouflare.Pool.Doomed.{choose_slot-passes, IsDoomed, IsDoomed-Stable, perform-IsDoomed}
use camouflare.Pool.Releasing.{retire_released-Keeps, close_released-Keeps}
use camouflare.Pool.World.{
  release_picked, World, Action, happens, acquires, wakes, releases, opens_session, closes_session,
  step, run, after_round, after_release, count_sessions,
}

module _ (i : ℕ) where
  occupy-IsDoomed : (j : ℕ) (kind : Kind) → Keeps (IsDoomed i) (modify (occupy j kind))
  unfolding occupy ◌>>=◌
  occupy-IsDoomed j kind = record {
    after = λ p h. record { left = ground (arith, h.left); hard = ground (arith, h.hard) };
  }

  vacate-IsDoomed : (r : SlotReservation) → Keeps (IsDoomed i) (modify (vacate r))
  unfolding vacate ◌>>=◌
  vacate-IsDoomed r = record {
    after = λ p h. record { left = ground (arith, h.left); hard = ground (arith, h.hard) };
  }

  launch_and_wait-IsDoomed :
      (late launched : Bool) → Keeps (IsDoomed i) (launch_and_wait late launched)
  unfolding launch_and_wait start_create_task ◌>>=◌
  launch_and_wait-IsDoomed late launched = record {
    after = λ p h. record { left = ground (arith, h.left); hard = ground (arith, h.hard) };
  }

  settle_round-IsDoomed :
      (e : Env) (i? x? : Option ℕ) (late launched : Bool) (kind : Kind)
      → Keeps (IsDoomed i) (settle_round e i? x? late launched kind)
  unfolding settle_round reserve_slot retire_exhausted
  settle_round-IsDoomed e (some j) x? late launched kind =
      search (keeps, occupy-IsDoomed, mark_retiring-Keeps (IsDoomed-Stable i)) depth 16
  settle_round-IsDoomed e none (some x) late launched kind = search keeps depth 4
  settle_round-IsDoomed e none none late launched kind = launch_and_wait-IsDoomed late launched

  acquire_round-IsDoomed :
      (e : Env) (deadline observed : ℕ) (launched : Bool) (kind : Kind)
      → Keeps (IsDoomed i) (acquire_round e deadline observed launched kind)
  unfolding acquire_round take_or_wait
  acquire_round-IsDoomed e deadline observed launched kind =
      search (keeps, refresh_recycling-Keeps (IsDoomed-Stable i), settle_round-IsDoomed) depth 16

  release_slot-IsDoomed :
      (e : Env) (r : SlotReservation) (b : Bool) (x : Reason)
      → Keeps (IsDoomed i) (release_slot e r b x)
  unfolding release_slot
  release_slot-IsDoomed e r b x =
      search
        (
          keeps,
          vacate-IsDoomed,
          retire_released-Keeps (IsDoomed-Stable i),
          close_released-Keeps (IsDoomed-Stable i),
        )
        depth 16

  after_round-IsDoomed :
      (w : World) (o : Result Round × Pool) → IsDoomed i o.1 → IsDoomed i (after_round w o).pool
  after_round-IsDoomed w (ok (reserved r), q) h = h
  after_round-IsDoomed w (ok (waits launched), q) h = h
  after_round-IsDoomed w (err x, q) h = h

  after_release-IsDoomed :
      (w : World) (rest : List SlotReservation) (o : Result SlotReservation × Pool)
      → IsDoomed i o.1
      → IsDoomed i (after_release w rest o).pool
  after_release-IsDoomed w rest (ok r, q) h = h
  after_release-IsDoomed w rest (err x, q) h = h

  release_picked-IsDoomed :
      (e : Env) (b : Bool) (x : Reason) (w : World)
      (o : Option (SlotReservation × List SlotReservation))
      → IsDoomed i w.pool
      → IsDoomed i (release_picked e b x w o).pool
  release_picked-IsDoomed e b x w none h = h
  release_picked-IsDoomed e b x w (some (r, rest)) h =
      after_release-IsDoomed w rest _ ((release_slot-IsDoomed e r b x).after w.pool h)

  count_sessions-IsDoomed :
      (w : World) (n : ℕ) (o : Result PersistentReservation × Pool)
      → IsDoomed i o.1
      → IsDoomed i (count_sessions w n o).pool
  count_sessions-IsDoomed w n (ok r, q) h = h
  count_sessions-IsDoomed w n (err x, q) h = h

  acquire_wake-IsDoomed : (b : Bool) → Keeps (IsDoomed i) (acquire_wake b)
  unfolding acquire_wake ◌>>=◌
  acquire_wake-IsDoomed b = record {
    after = λ p h. record { left = ground (arith, h.left); hard = ground (arith, h.hard) };
  }

  reserve_persistent-IsDoomed : Keeps (IsDoomed i) reserve_persistent
  unfolding reserve_persistent ◌>>=◌
  reserve_persistent-IsDoomed = record {
    after = λ p h. record { left = ground (arith, h.left); hard = ground (arith, h.hard) };
  }

  release_persistent-IsDoomed :
      (r : PersistentReservation) → Keeps (IsDoomed i) (release_persistent r)
  unfolding release_persistent ◌>>=◌
  release_persistent-IsDoomed r = record {
    after = λ p h. record { left = ground (arith, h.left); hard = ground (arith, h.hard) };
  }

  step-IsDoomed : (a : Action) (w : World) → IsDoomed i w.pool → IsDoomed i (step a w).pool
  unfolding step
  step-IsDoomed (happens e v) w h = perform-IsDoomed e v i w.pool h
  step-IsDoomed (acquires e deadline observed launched kind) w h =
      after_round-IsDoomed w _
        ((acquire_round-IsDoomed e deadline observed launched kind).after w.pool h)
  step-IsDoomed (wakes b) w h =
      if-holds (λ (v : World). IsDoomed i v.pool) (w.waiters == 0) w _ (λ _. h)
        (λ _. (acquire_wake-IsDoomed b).after w.pool h)
  step-IsDoomed (releases e n b x) w h = release_picked-IsDoomed e b x w _ h
  step-IsDoomed opens_session w h =
      count_sessions-IsDoomed w _ _ (reserve_persistent-IsDoomed.after w.pool h)
  step-IsDoomed closes_session w h =
      if-holds (λ (v : World). IsDoomed i v.pool) (w.sessions == 0) w _ (λ _. h)
        (λ _. count_sessions-IsDoomed w _ _ ((release_persistent-IsDoomed _).after w.pool h))

  -- Once a browser is closing, or retired for a reason other than its uses and its age, it stays so
  -- along every schedule.
  pub run-IsDoomed :
      (schedule : List Action) (w : World) → IsDoomed i w.pool → IsDoomed i (run schedule w).pool
  unfolding run
  run-IsDoomed [] w h = h
  run-IsDoomed (a ∷ rest) w h = run-IsDoomed rest (step a w) (step-IsDoomed a w h)

  -- The end of a round that does not lease slot `i`.
  abbrev pub IsElsewhere : Result Round → Type 0
  IsElsewhere (ok (reserved r)) = r.slot ≢ i
  IsElsewhere (ok (waits launched)) = Unit
  IsElsewhere (err x) = Unit

  Takes-IsElsewhere :
      (e : Env) (j : ℕ) (o : Result Round) (q : Pool) → Takes e j o q → j ≢ i → IsElsewhere o
  Takes-IsElsewhere e j (ok (reserved r)) q t other = λ same. other (sym t ∙ same)
  Takes-IsElsewhere e j (ok (waits b)) q t other = tt
  Takes-IsElsewhere e j (err x) q t other = tt

  launch_and_wait-IsElsewhere :
      (late launched : Bool) (q : Pool) → IsElsewhere (launch_and_wait late launched q).0
  unfolding launch_and_wait start_create_task ◌>>=◌
  launch_and_wait-IsElsewhere true launched q = elim (Bool-cases (may_launch launched q)) [
    | inl launches ↦ rw launches tt
    | inr full ↦ rw full tt
  ]
  launch_and_wait-IsElsewhere false launched q = elim (Bool-cases (may_launch launched q)) [
    | inl launches ↦ rw launches tt
    | inr full ↦ rw full tt
  ]

  settle_round-IsElsewhere :
      (e : Env) (i? x? : Option ℕ) (late launched : Bool) (kind : Kind) (q : Pool)
      → ((j : ℕ) → i? ≡ some j → j ≢ i)
      → IsElsewhere (settle_round e i? x? late launched kind q).0
  unfolding settle_round ◌>>=◌
  settle_round-IsElsewhere e (some j) x? late launched kind q h =
      Takes-IsElsewhere e j _ q (lease-Takes e j kind q) (h j refl)
  settle_round-IsElsewhere e none (some x) late launched kind q h = tt
  settle_round-IsElsewhere e none none late launched kind q h =
      launch_and_wait-IsElsewhere late launched q

  -- A round of an acquisition never leases a browser that is closing, or was retired for a reason other
  -- than its uses and its age.
  pub acquire_round-IsElsewhere :
      (e : Env) (deadline observed : ℕ) (launched : Bool) (kind : Kind) (p : Pool)
      → IsDoomed i p
      → IsElsewhere (acquire_round e deadline observed launched kind p).0
  unfolding acquire_round take_or_wait ◌>>=◌
  acquire_round-IsElsewhere e deadline observed launched kind p h =
      let Q : Result Round → Pool → Type 0 = λ o _. IsElsewhere o in
      guard_post Q p.closed pool_closed _ p (λ _. tt)
        λ _.
          guard_post Q (leb deadline e.now) acquire_timeout _ p (λ _. tt)
            λ _.
              bind_post Q (refresh_recycling e)
                (λ _. take_or_wait e (leb deadline e.later) observed launched kind) p
                (λ _ q eq.
                  let doomed =
                    subst (λ o. IsDoomed i o.1) eq
                      ((refresh_recycling-Keeps (IsDoomed-Stable i) e).after p h) in
                  settle_round-IsElsewhere e (choose_slot e q) (new_failure observed q)
                    (leb deadline e.later) launched kind q
                    (λ j chosen same.
                      (choose_slot-passes e q j chosen).1
                        (subst (λ x. IsDoomed x q) (sym same) doomed)))
                (λ x q eq. tt)
