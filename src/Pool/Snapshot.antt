-- ===== src/Pool/Snapshot.antt =====
-- camouflare/pool.py: the snapshot, and the readiness test of a full pool.
use camouflare.Pool.Release.{release_slot}
use camouflare.Prelude.{
  ℕ, ◌+◌, ◌*◌, ◌-◌, Bool, false, not, ◌&&◌, ◌||◌, List, [], ◌∷◌, ltb, ◌==◌, if◌then◌else◌, length,
}
use camouflare.Pool.State.{
  Reason, SlotReservation, transient_exceeds_active, Slot, Env, Pool, M, pure, get, raise_if, ◌>>=◌,
  ◌>>◌,
}
use camouflare.Pool.Recycle.{
  is_ready, is_retiring, is_soft_reason, is_soft_retire_reason, reason_or, should_recycle,
  recycle_reason, is_slot_disconnected,
}

pub record PoolSnapshot : Type 0 where
  pub browser_slots : ℕ
  pub creating_slots : ℕ
  pub closing_slots : ℕ
  pub active_contexts : ℕ
  pub transient_contexts : ℕ
  pub persistent_contexts : ℕ
  pub waiting_requests : ℕ
  pub max_slots : ℕ
  pub ready_browser_slots : ℕ
  pub retiring_browser_slots : ℕ
  pub usable_context_slots : ℕ
  pub idle_recyclable_slots : ℕ
  pub max_browsers : ℕ
  pub max_contexts_per_browser : ℕ

-- The four counters of the loop of `_snapshot_unlocked`.
pub record Tally : Type 0 where
  pub ready : ℕ
  pub retiring : ℕ
  pub usable : ℕ
  pub recyclable : ℕ

-- `sum(slot.active_contexts for slot in self._slots)`
unfoldable pub sum_active : (ℕ → Slot) → List ℕ → ℕ
sum_active h [] = 0
sum_active h (i ∷ is) = (h i).active_contexts + sum_active h is

module _ (e : Env) where
  -- One round of the loop. `max(0, …)` is the subtraction of ℕ.
  unfoldable pub tally_slot : Pool → Slot → Tally → Tally
  unfolding should_recycle
  tally_slot p s t =
      if is_retiring s.state || should_recycle e p s
      then (if s.active_contexts == 0
          then record t { retiring = t.retiring + 1; recyclable = t.recyclable + 1 }
          else if is_soft_reason (reason_or s.retire_reason (recycle_reason e p s))
          then record t {
            retiring = t.retiring + 1;
            usable = t.usable + (p.max_contexts_per_browser - s.active_contexts);
          }
          else record t { retiring = t.retiring + 1 })
      else record t {
        ready = t.ready + 1;
        usable = t.usable + (p.max_contexts_per_browser - s.active_contexts);
      }

  unfoldable pub tally : Pool → List ℕ → Tally → Tally
  unfolding tally_slot
  tally p [] t = t
  tally p (i ∷ is) t = tally p is (tally_slot p (p.heap i) t)

  -- The snapshot that is returned.
  unfoldable pub snapshot_of : Pool → PoolSnapshot
  unfolding sum_active tally
  snapshot_of p =
      let t = tally p p.slots (record { ready = 0; retiring = 0; usable = 0; recyclable = 0 }) in
      record {
        browser_slots = length p.slots;
        creating_slots = length p.create_tasks;
        closing_slots = length p.close_tasks + length p.failed_close_slots;
        active_contexts = sum_active p.heap p.slots;
        transient_contexts = p.transient_contexts;
        persistent_contexts = p.persistent_contexts;
        waiting_requests = p.waiting_requests;
        max_slots = p.max_browsers * p.max_contexts_per_browser;
        ready_browser_slots = t.ready;
        retiring_browser_slots = t.retiring;
        usable_context_slots = t.usable;
        idle_recyclable_slots = t.recyclable;
        max_browsers = p.max_browsers;
        max_contexts_per_browser = p.max_contexts_per_browser;
      }

  unfoldable pub snapshot : M PoolSnapshot
  unfolding snapshot_of
  snapshot = do
    p ← get
    raise_if (ltb (sum_active p.heap p.slots) p.transient_contexts) transient_exceeds_active
    pure (snapshot_of p)

  -- `_publish_metrics_unlocked`: the metrics themselves are not modelled, but the snapshot that it
  -- takes for them may raise.
  unfoldable pub publish_metrics : M (Unit {0})
  unfolding snapshot
  publish_metrics = do s ← snapshot; pure tt

  -- The whole of `_release_slot`: it publishes after the release, not after an early return.
  unfoldable pub release_and_publish : SlotReservation → Bool → Reason → M SlotReservation
  unfolding publish_metrics release_slot
  release_and_publish r discard reason =
      if r.released then pure r else do q ← release_slot e r discard reason; publish_metrics; pure q

  -- The loop of `is_full_and_serving`, with `active` so far. A slot that is passed over adds 0.
  unfoldable pub full_and_serving : Pool → List ℕ → ℕ → Bool
  full_and_serving p [] active = ltb 0 active
  full_and_serving p (i ∷ is) active =
      let s = p.heap i in
      let rest = full_and_serving p is (active + s.active_contexts) in
      if is_slot_disconnected e i
      then false
      else if is_retiring s.state && not (is_soft_retire_reason s.retire_reason)
      then false
      else if s.active_contexts == 0
      then (if is_ready s.state then false else rest)
      else if ltb s.active_contexts p.max_contexts_per_browser
      then false
      else rest

  unfoldable pub is_full_and_serving : Pool → Bool
  unfolding full_and_serving
  is_full_and_serving p = if not p.started || p.closed then false else full_and_serving p p.slots 0
