-- ===== src/Pool/Recycle.antt =====
-- camouflare/pool.py: recycle limits, retirement, and the closing of idle browsers.
use camouflare.Prelude.{
  ℕ, suc, ◌+◌, Bool, true, false, not, ◌&&◌, Option, none, some, ltb, leb, ◌==◌, if◌then◌else◌,
  contains, remove, lookup, insert,
}
use camouflare.Pool.State.{
  SlotState, ready, retiring, closing, Reason, max_uses, max_age, disconnected, other, close_active,
  Slot, Env, Pool, M, pure, modify, get, raise_if, ◌>>=◌, ◌>>◌, for_each, write_slot,
}

abbrev pub max_close_retries : ℕ
max_close_retries = 3

abbrev pub is_ready : SlotState → Bool
is_ready ready = true
is_ready _ = false

abbrev pub is_retiring : SlotState → Bool
is_retiring retiring = true
is_retiring _ = false

abbrev pub is_closing : SlotState → Bool
is_closing closing = true
is_closing _ = false

abbrev pub is_soft_reason : Reason → Bool
is_soft_reason max_uses = true
is_soft_reason max_age = true
is_soft_reason _ = false

-- `None` is no soft reason.
abbrev pub is_soft_retire_reason : Option Reason → Bool
is_soft_retire_reason none = false
is_soft_retire_reason (some r) = is_soft_reason r

-- `slot.retire_reason or fallback`
abbrev pub reason_or : Option Reason → Reason → Reason
reason_or none r = r
reason_or (some s) r = s

module _ (e : Env) where
  unfoldable pub recycle_reason : Pool → Slot → Reason
  recycle_reason p s =
      if leb p.browser_max_uses s.uses
      then max_uses
      else if leb (s.created_at + p.browser_max_age) e.now
      then max_age
      else other

  -- `_recycle_reason(slot) != "other"`
  unfoldable pub should_recycle : Pool → Slot → Bool
  unfolding recycle_reason
  should_recycle p s = elim (recycle_reason p s) [ other ↦ false | _ ↦ true ]

  unfoldable pub healthy_slot_available : Pool → Slot → Bool
  unfolding should_recycle
  healthy_slot_available p s =
      is_ready s.state
      && ltb s.active_contexts p.max_contexts_per_browser
      && not (should_recycle p s)

unfoldable pub soft_retiring_slot_available : Pool → Slot → Bool
soft_retiring_slot_available p s =
    is_retiring s.state
    && ltb 0 s.active_contexts
    && ltb s.active_contexts p.max_contexts_per_browser
    && is_soft_retire_reason s.retire_reason

-- `_mark_retiring_unlocked` on the slot itself.
unfoldable pub retire : Reason → Slot → Slot
retire reason s = elim s.state [
  | closing ↦ s
  | _ ↦ record s {
    state = retiring;
    retire_reason = elim s.retire_reason [
      | none ↦ some reason
      | some old ↦ if is_soft_reason reason then some old else some reason
    ];
    recycle_recorded = true;
  }
]

unfoldable pub mark_retiring : ℕ → Reason → M (Unit {0})
unfolding retire
mark_retiring i reason = modify (write_slot i (retire reason))

-- A new task's identity is the next number. `_close_tasks[slot] = task`.
unfoldable pub start_close_task : ℕ → M (Unit {0})
start_close_task i =
    modify λ p. record p {
      close_tasks = insert i p.next_task p.close_tasks;
      next_task = suc p.next_task;
    }

-- The slot leaves the pool, in the state that no operation leaves again.
abbrev pub leave_pool : ℕ → Pool → Pool
leave_pool i p =
    write_slot i (λ s. record s { state = closing })
      (record p { slots = if contains p.slots i then remove i p.slots else p.slots })

-- `_schedule_close_unlocked`; the task that it returns is found again in `close_tasks`.
unfoldable pub schedule_close : ℕ → Reason → M (Unit {0})
schedule_close i reason = do
  p ← get
  if is_closing (p.heap i).state then pure tt else do
    raise_if (not ((p.heap i).active_contexts == 0)) close_active
    mark_retiring i reason
    modify (leave_pool i)
    start_close_task i

-- `_schedule_failed_close_retry_unlocked`
unfoldable pub schedule_failed_close_retry : ℕ → M (Unit {0})
schedule_failed_close_retry i = do
  p ← get
  elim (lookup i p.close_tasks) [
    | some task ↦ pure tt
    | none ↦ do
      modify (λ q. record q { failed_close_slots = remove i q.failed_close_slots })
      start_close_task i
  ]

module _ (e : Env) where
  -- The body of the loop of `_retry_failed_closes_unlocked`.
  unfoldable pub retry_failed_close : ℕ → M (Unit {0})
  retry_failed_close i = do
    p ← get
    if leb max_close_retries (p.heap i).close_failures
        then pure tt
        else if ltb e.now (p.heap i).next_close_retry_at
        then pure tt
        else schedule_failed_close_retry i

  unfoldable pub retry_failed_closes : M (Unit {0})
  retry_failed_closes = do p ← get; for_each retry_failed_close p.failed_close_slots

  -- `_is_slot_disconnected`
  abbrev pub is_slot_disconnected : ℕ → Bool
  is_slot_disconnected i = e.dead i

  -- The three tests of the loop of `_refresh_recycling_unlocked`, in order.
  unfoldable pub retire_disconnected : ℕ → M (Unit {0})
  retire_disconnected i = do
    p ← get
    if not (is_closing (p.heap i).state) && is_slot_disconnected i
        then mark_retiring i disconnected
        else pure tt

  unfoldable pub retire_exhausted : ℕ → M (Unit {0})
  unfolding should_recycle
  retire_exhausted i = do
    p ← get
    if is_ready (p.heap i).state && should_recycle e p (p.heap i)
        then mark_retiring i (recycle_reason e p (p.heap i))
        else pure tt

  unfoldable pub close_idle : ℕ → M (Unit {0})
  close_idle i = do
    p ← get
    if is_retiring (p.heap i).state && (p.heap i).active_contexts == 0
        then schedule_close i (reason_or (p.heap i).retire_reason other)
        else pure tt

  unfoldable pub refresh_slot : ℕ → M (Unit {0})
  refresh_slot i = do retire_disconnected i; retire_exhausted i; close_idle i

  unfoldable pub refresh_recycling : M (Unit {0})
  refresh_recycling = do p ← get; for_each refresh_slot p.slots; retry_failed_closes
