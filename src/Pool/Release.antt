-- ===== src/Pool/Release.antt =====
-- camouflare/pool.py: `_release_slot`, and the persistent reservations around it.
use camouflare.Prelude.{ℕ, ◌+◌, ◌-◌, Bool, true, false, ◌&&◌, leb, ◌==◌, if◌then◌else◌}
use camouflare.Pool.State.{
  Reason, other, pool_closed, persistent_capacity, slot_underflow, transient_underflow,
  persistent_underflow, SlotReservation, PersistentReservation, Env, Pool, M, pure, modify, get,
  raise_if, ◌>>=◌, ◌>>◌, write_slot, max_persistent_contexts,
}
use camouflare.Pool.Recycle.{
  is_retiring, reason_or, should_recycle, recycle_reason, mark_retiring, schedule_close,
}
use camouflare.Pool.Acquire.{is_transient}

-- The writes of `_release_slot` to the counters.
unfoldable pub vacate : SlotReservation → Pool → Pool
vacate r p =
    write_slot r.slot (λ s. record s { active_contexts = s.active_contexts - 1 })
      (record p {
        transient_contexts =
            if is_transient r.kind then p.transient_contexts - 1 else p.transient_contexts;
      })

-- The end of `_release_slot`: an idle retiring slot closes.
unfoldable pub close_released : ℕ → M (Unit {0})
close_released i = do
  p ← get
  if is_retiring (p.heap i).state && (p.heap i).active_contexts == 0
      then schedule_close i (reason_or (p.heap i).retire_reason other)
      else pure tt

module _ (e : Env) where
  -- Why a released slot retires: a discarded lease, or a recycle limit.
  unfoldable pub retire_released : ℕ → Bool → Reason → M (Unit {0})
  unfolding should_recycle
  retire_released i discard reason = do
    p ← get
    if discard
        then mark_retiring i reason
        else if should_recycle e p (p.heap i)
        then mark_retiring i (recycle_reason e p (p.heap i))
        else pure tt

  -- `_release_slot` returns the reservation as it leaves it.
  unfoldable pub release_slot : SlotReservation → Bool → Reason → M SlotReservation
  unfolding vacate
  release_slot r discard reason = if r.released then pure r else do
    p ← get
    raise_if ((p.heap r.slot).active_contexts == 0) slot_underflow
    raise_if (is_transient r.kind && p.transient_contexts == 0) transient_underflow
    modify (vacate r)
    retire_released r.slot discard reason
    close_released r.slot
    pure (record r { released = true })

-- The first critical section of `create_persistent_context`.
unfoldable pub reserve_persistent : M PersistentReservation
reserve_persistent = do
  p ← get
  raise_if p.closed pool_closed
  raise_if (leb (max_persistent_contexts p.settings) p.persistent_contexts) persistent_capacity
  modify (λ q. record q { persistent_contexts = q.persistent_contexts + 1 })
  pure (record { released = false })

-- `_release_persistent_reservation`
unfoldable pub release_persistent : PersistentReservation → M PersistentReservation
release_persistent r = if r.released then pure r else do
  p ← get
  raise_if (p.persistent_contexts == 0) persistent_underflow
  modify (λ q. record q { persistent_contexts = q.persistent_contexts - 1 })
  pure (record { released = true })
