-- ===== src/Pool/Ceiling/Requests.antt =====
-- The hard ceiling on browser generations: acquisition and release.
use camouflare.Prelude.{
  ℕ, ◌+◌, ◌<◌, Bool, true, ◌&&◌, ◌≡◌, refl, ap, ◌∙◌, subst, arith, List, [], ◌∷◌, none, some,
  Option, ◌==◌, leb, contains, if◌then◌else◌,
}
use camouflare.Pool.State.{
  Slot, Reason, Kind, SlotReservation, Settings, Env, Pool, pure, ◌>>=◌, physical_generations,
  max_physical_generations, pool_closed, acquire_timeout, reserve_closing, reserve_full,
  slot_underflow, transient_underflow,
}
use camouflare.Pool.Recycle.{
  is_closing, retire_exhausted, refresh_recycling, healthy_slot_available,
  soft_retiring_slot_available,
}
use camouflare.Pool.Create.{start_create_task}
use camouflare.Pool.Acquire.{
  reserved, first_slot, choose_slot, is_transient, occupy, reserve_slot, may_launch,
  launch_and_wait, settle_round, take_or_wait, acquire_round,
}
use camouflare.Pool.Release.{vacate, retire_released, close_released, release_slot}
use camouflare.Pool.Keeps.{Keeps, keeps, then_post, if_post, guard_post}
use camouflare.Pool.Ceiling.Steps.{
  Fits, FitsAll, mark_retiring-Fits, mark_retiring-FitsAll, schedule_close-FitsAll,
}
use camouflare.Pool.Ceiling.Sections.{refresh_recycling-Fits, start_create_task-Fits}

-- The slot that a search finds is in its list.
first_slot-mem :
    (test : Slot → Bool) (h : ℕ → Slot) (xs : List ℕ) (i : ℕ)
    → first_slot test h xs ≡ some i
    → contains xs i ≡ true
unfolding first_slot contains
first_slot-mem test h [] i found = cc
first_slot-mem test h (x ∷ xs) i found = ground (arith, first_slot-mem test h xs i)

pub choose_slot-mem :
    (e : Env) (p : Pool) (i : ℕ) → choose_slot e p ≡ some i → contains p.slots i ≡ true
unfolding choose_slot
choose_slot-mem e p i found = ground (
  arith,
  first_slot-mem (healthy_slot_available e p) p.heap p.slots i,
  first_slot-mem (soft_retiring_slot_available p) p.heap p.slots i,
)

module _ (c : Settings) where
  occupy-Fits :
      (i : ℕ) (kind : Kind) (p : Pool)
      → contains p.slots i ≡ true
      → Fits c 0 p
      → Fits c 0 (occupy i kind p)
  unfolding occupy physical_generations
  occupy-Fits i kind p inside h = record {
    settings = h.settings;
    busy = λ j. ground (arith, h.busy j, inside);
    within = h.within;
  }

  retire_exhausted-Fits : (e : Env) (i : ℕ) → Keeps (Fits c 0) (retire_exhausted e i)
  unfolding retire_exhausted
  retire_exhausted-Fits e i = search (keeps, mark_retiring-Fits) depth 12

  reserve_slot-Fits :
      (e : Env) (i : ℕ) (kind : Kind) (p : Pool)
      → contains p.slots i ≡ true
      → Fits c 0 p
      → Fits c 0 (reserve_slot e i kind p).1
  unfolding reserve_slot ◌>>=◌
  reserve_slot-Fits e i kind p inside h =
      guard_post (λ _ q. Fits c 0 q) (is_closing (p.heap i).state) reserve_closing _ p (λ _. h)
        λ _.
          guard_post (λ _ q. Fits c 0 q) (leb p.max_contexts_per_browser (p.heap i).active_contexts)
            reserve_full _ p (λ _. h)
            λ _.
              then_post (Fits c 0) (Fits c 0) (retire_exhausted e i) (λ _. pure _) (occupy i kind p)
                ((retire_exhausted-Fits e i).after _ (occupy-Fits i kind p inside h)) (λ _ k. k)
                (λ _ _ k. k)

  more_waiters-Fits :
      (p : Pool) → Fits c 0 p → Fits c 0 (record p { waiting_requests = p.waiting_requests + 1 })
  unfolding physical_generations
  more_waiters-Fits p h = record { settings = h.settings; busy = h.busy; within = h.within }

  may_launch-room : (b : Bool) (p : Pool) → may_launch b p ≡ true → Fits c 0 p → Fits c 1 p
  unfolding may_launch
  may_launch-room b p t h = record {
    settings = h.settings;
    busy = h.busy;
    within = ground (arith, h.within, ap max_physical_generations h.settings);
  }

  -- A launch for a waiting request starts only under the ceiling.
  launch_and_wait-Fits : (late b : Bool) → Keeps (Fits c 0) (launch_and_wait late b)
  unfolding launch_and_wait ◌>>=◌
  launch_and_wait-Fits late b = record {
    after = λ p h.
        then_post (Fits c 0) (Fits c 0) (if may_launch b p then start_create_task true else pure tt)
          _ p
          (if_post (λ _ q. Fits c 0 q) (may_launch b p) (start_create_task true) (pure tt) p
            (λ t. start_create_task-Fits c 0 true p (may_launch-room b p t h)) (λ _. h))
          (λ _ k. k)
          (λ _ q k.
            guard_post (λ _ t. Fits c 0 t) late acquire_timeout _ q (λ _. k)
              (λ _. more_waiters-Fits q k));
  }

  settle_round-Fits :
      (e : Env) (i? x? : Option ℕ) (late b : Bool) (kind : Kind) (p : Pool)
      → ((i : ℕ) → i? ≡ some i → contains p.slots i ≡ true)
      → Fits c 0 p
      → Fits c 0 (settle_round e i? x? late b kind p).1
  unfolding settle_round ◌>>=◌
  settle_round-Fits e (some i) x? late b kind p inside h =
      then_post (Fits c 0) (Fits c 0) (reserve_slot e i kind) (λ r. pure (reserved r)) p
        (reserve_slot-Fits e i kind p (inside i refl) h) (λ _ k. k) (λ _ _ k. k)
  settle_round-Fits e none (some x) late b kind p inside h = h
  settle_round-Fits e none none late b kind p inside h = (launch_and_wait-Fits late b).after p h

  pub acquire_round-Fits :
      (e : Env) (deadline observed : ℕ) (b : Bool) (kind : Kind)
      → Keeps (Fits c 0) (acquire_round e deadline observed b kind)
  unfolding acquire_round take_or_wait ◌>>=◌
  acquire_round-Fits e deadline observed b kind = record {
    after = λ p h.
        guard_post (λ _ q. Fits c 0 q) p.closed pool_closed _ p (λ _. h)
          λ _.
            guard_post (λ _ q. Fits c 0 q) (leb deadline e.now) acquire_timeout _ p (λ _. h)
              λ _.
                then_post (Fits c 0) (Fits c 0) (refresh_recycling e)
                  (λ _. take_or_wait e (leb deadline e.later) observed b kind) p
                  ((refresh_recycling-Fits c 0 e).after p h) (λ _ k. k)
                  (λ _ q k.
                    settle_round-Fits e _ _ (leb deadline e.later) b kind q (choose_slot-mem e q)
                      k);
  }

  retire_released-FitsAll :
      (xs : List ℕ) (e : Env) (i : ℕ) (b : Bool) (x : Reason)
      → Keeps (FitsAll xs c 0) (retire_released e i b x)
  unfolding retire_released
  retire_released-FitsAll xs e i b x = search (keeps, mark_retiring-FitsAll) depth 12

  close_released-FitsAll :
      (xs : List ℕ) (i : ℕ) → contains xs i ≡ true → Keeps (FitsAll xs c 0) (close_released i)
  unfolding close_released
  close_released-FitsAll xs i inside = search (keeps, schedule_close-FitsAll) depth 12

  vacate-FitsAll :
      (r : SlotReservation) (p : Pool)
      → 0 < (p.heap r.slot).active_contexts
      → Fits c 0 p
      → FitsAll (r.slot ∷ []) c 0 (vacate r p)
  unfolding vacate physical_generations contains
  vacate-FitsAll r p busy h = record {
    fits = record {
      settings = h.settings;
      busy = λ j. ground (arith, h.busy j);
      within = h.within;
    };
    tracked = λ i inside _. ground (arith, h.busy r.slot busy);
  }

  pub release_slot-Fits :
      (e : Env) (r : SlotReservation) (b : Bool) (x : Reason)
      → Keeps (Fits c 0) (release_slot e r b x)
  unfolding release_slot ◌>>=◌
  release_slot-Fits e r b x = record {
    after = λ p h.
        if_post (λ _ q. Fits c 0 q) r.released _ _ p (λ _. h)
          λ _.
            guard_post (λ _ q. Fits c 0 q) ((p.heap r.slot).active_contexts == 0) slot_underflow _ p
              (λ _. h)
              λ busy.
                guard_post (λ _ q. Fits c 0 q) (is_transient r.kind && p.transient_contexts == 0)
                  transient_underflow _ p (λ _. h)
                  λ _.
                    then_post (FitsAll (r.slot ∷ []) c 0) (Fits c 0) (retire_released e r.slot b x)
                      _ (vacate r p)
                      ((retire_released-FitsAll (r.slot ∷ []) e r.slot b x).after _
                        (vacate-FitsAll r p (ground arith) h))
                      (λ _ k. k.fits)
                      λ _ q k.
                        then_post (Fits c 0) (Fits c 0) (close_released r.slot) (λ _. pure _) q
                          ((close_released-FitsAll (r.slot ∷ []) r.slot
                              (unfold contains in ground arith)).after
                            q k).fits
                          (λ _ h. h) (λ _ _ h. h);
  }

  pub counters-Fits :
      (p q : Pool)
      → q.settings ≡ p.settings
      → q.heap ≡ p.heap
      → q.slots ≡ p.slots
      → physical_generations q ≡ physical_generations p
      → Fits c 0 p
      → Fits c 0 q
  counters-Fits p q s g l n h = record {
    settings = s ∙ h.settings;
    busy = λ i busy. cc (l, h.busy i (subst (λ (f : ℕ → Slot). 0 < (f i).active_contexts) g busy));
    within = omega (arith, h.within, n);
  }
