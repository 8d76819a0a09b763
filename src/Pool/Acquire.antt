-- ===== src/Pool/Acquire.antt =====
-- camouflare/pool.py: `_acquire_slot` in the rounds between its waits, and the release of a slot.
use camouflare.Prelude.{
  ℕ, ◌+◌, ◌-◌, Bool, true, false, not, ◌&&◌, ◌||◌, List, [], ◌∷◌, Option, none, some, ltb, leb,
  ◌==◌, if◌then◌else◌, length,
}
use camouflare.Pool.State.{
  Kind, transient, persistent, pool_closed, acquire_timeout, launch_failed, reserve_closing,
  reserve_full, waiter_underflow, Slot, SlotReservation, Env, Pool, M, pure, raise, modify, get,
  raise_if, ◌>>=◌, ◌>>◌, write_slot, max_abandoned_creations, max_physical_generations,
  physical_generations, usable_generations,
}
use camouflare.Pool.Recycle.{
  is_closing, retire_exhausted, healthy_slot_available, soft_retiring_slot_available,
  refresh_recycling,
}
use camouflare.Pool.Create.{start_create_task}

-- `for slot in self._slots: if test(slot): …`, the first slot that passes.
unfoldable pub first_slot : (Slot → Bool) → (ℕ → Slot) → List ℕ → Option ℕ
first_slot test h [] = none
first_slot test h (i ∷ is) = if test (h i) then some i else first_slot test h is

abbrev pub or_else : Option ℕ → Option ℕ → Option ℕ
or_else (some i) other_choice = some i
or_else none other_choice = other_choice

abbrev pub is_transient : Kind → Bool
is_transient transient = true
is_transient persistent = false

-- The writes of `_reserve_slot_unlocked`.
unfoldable pub occupy : ℕ → Kind → Pool → Pool
occupy i kind p =
    write_slot i (λ s. record s { active_contexts = s.active_contexts + 1; uses = s.uses + 1 })
      (record p {
        transient_contexts =
            if is_transient kind then p.transient_contexts + 1 else p.transient_contexts;
      })

-- A round of `_acquire_slot` returns a reservation, or begins to wait on the condition. A request
-- that waits remembers whether it has launched a browser.
pub data Round : Type 0 where
  reserved : SlotReservation → Round
  waits : Bool → Round

-- The gate before a launch.
unfoldable pub may_launch : Bool → Pool → Bool
unfolding usable_generations physical_generations
may_launch launched p =
    not launched
    && ltb (usable_generations p) p.max_browsers
    && ltb (physical_generations p) (max_physical_generations p.settings)
    && ltb (length p.create_watchers) (max_abandoned_creations p.settings)

-- `if self._create_failure_generation != observed: if failure is not None: raise failure`
abbrev pub new_failure : ℕ → Pool → Option ℕ
new_failure observed p =
    if p.create_failure_generation == observed then none else p.last_create_failure

-- A launch, if one may start, then the wait; `late` says that the deadline has passed by the second
-- reading of the clock, between the two.
unfoldable pub launch_and_wait : Bool → Bool → M Round
unfolding may_launch
launch_and_wait late launched = do
  p ← get
  if may_launch launched p then start_create_task true else pure tt
  raise_if late acquire_timeout
  modify (λ q. record q { waiting_requests = q.waiting_requests + 1 })
  pure (waits (may_launch launched p || launched))

module _ (e : Env) where
  unfoldable pub reserve_slot : ℕ → Kind → M SlotReservation
  reserve_slot i kind = do
    p ← get
    raise_if (is_closing (p.heap i).state) reserve_closing
    raise_if (leb p.max_contexts_per_browser (p.heap i).active_contexts) reserve_full
    modify (occupy i kind)
    retire_exhausted e i
    pure (record { slot = i; kind = kind; released = false })

  -- Healthy slots come first; a soft-retiring one is the fallback.
  unfoldable pub choose_slot : Pool → Option ℕ
  unfolding first_slot
  choose_slot p =
      or_else (first_slot (healthy_slot_available e p) p.heap p.slots)
        (first_slot (soft_retiring_slot_available p) p.heap p.slots)

  -- A round, after `_refresh_recycling_unlocked`, by the slot that was chosen and the launch failure
  -- that is new to the request.
  unfoldable pub settle_round : Option ℕ → Option ℕ → Bool → Bool → Kind → M Round
  settle_round (some i) failure late launched kind = do r ← reserve_slot i kind; pure (reserved r)
  settle_round none (some failure) late launched kind = raise (launch_failed failure)
  settle_round none none late launched kind = launch_and_wait late launched

  unfoldable pub take_or_wait : Bool → ℕ → Bool → Kind → M Round
  take_or_wait late observed launched kind = do
    q ← get
    settle_round (choose_slot q) (new_failure observed q) late launched kind

  unfoldable pub acquire_round : ℕ → ℕ → Bool → Kind → M Round
  acquire_round deadline observed launched kind = do
    p ← get
    raise_if p.closed pool_closed
    raise_if (leb deadline e.now) acquire_timeout
    refresh_recycling e
    take_or_wait (leb deadline e.later) observed launched kind

-- The end of the wait in `_acquire_slot`: the `finally` block, then the timeout.
unfoldable pub acquire_wake : Bool → M (Unit {0})
acquire_wake timed_out = do
  p ← get
  raise_if (p.waiting_requests == 0) waiter_underflow
  modify (λ q. record q { waiting_requests = q.waiting_requests - 1 })
  raise_if timed_out acquire_timeout
