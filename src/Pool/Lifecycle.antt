-- ===== src/Pool/Lifecycle.antt =====
-- camouflare/pool.py: start, refresh, maintain, quiesce and close, one definition for each critical
-- section.
use camouflare.Prelude.{
  ℕ, zero, suc, ◌+◌, Bool, true, false, not, ◌&&◌, ◌||◌, List, ◌++◌, ltb, ◌==◌, if◌then◌else◌,
  length,
}
use camouflare.Pool.State.{
  error, shutdown, pool_closed, startup_quarantine, Env, Pool, M, pure, modify, get, raise_if,
  ◌>>=◌, ◌>>◌, for_each, max_physical_generations, physical_generations,
}
use camouflare.Pool.Recycle.{
  mark_retiring, schedule_close, schedule_failed_close_retry, refresh_recycling,
}
use camouflare.Pool.Create.{start_create_task, finish_create_task, abandon_create_task, replenish}

unfoldable pub start_create_tasks : ℕ → M (Unit {0})
start_create_tasks zero = pure tt
start_create_tasks (suc n) = do start_create_task false; start_create_tasks n

-- The first critical section of `_start_once`; without a task to wait for it is also the last.
unfoldable pub begin_start : M (Unit {0})
unfolding physical_generations
begin_start = do
  p ← get
  if p.started then pure tt else do
    raise_if p.closed pool_closed
    raise_if (ltb (max_physical_generations p.settings) (physical_generations p + p.min_browsers))
        startup_quarantine
    modify (λ q. record q { started = true; starting = true })
    start_create_tasks p.min_browsers
    if p.min_browsers == 0 then modify (λ q. record q { starting = false }) else pure tt

-- `if not self._closed: self._started = False`, then `self._starting = False`.
abbrev pub stop_starting : Pool → Pool
stop_starting p = record p { started = p.started && p.closed; starting = false }

-- What `_start_once` does when its wait is interrupted, and `_abort_startup_tasks`.
unfoldable pub abort_startup : List ℕ → M (Unit {0})
abort_startup tasks = do for_each abandon_create_task tasks; modify stop_starting

-- The critical section of `_start_once` for launches that failed or are late: `done` and `pending`
-- are the tasks by their state, `created` those of `done` that returned a browser.
unfoldable pub fail_startup : List ℕ → List ℕ → List ℕ → M (Unit {0})
fail_startup done pending created = do
  for_each finish_create_task done
  for_each abandon_create_task pending
  for_each (λ i. schedule_close i error) created
  modify stop_starting

-- `_register_started_slots`; `cancelled` is the flag of its `_StartupRegistration`.
unfoldable pub register_started_slots : List ℕ → List ℕ → Bool → M Bool
register_started_slots tasks created cancelled = do
  for_each finish_create_task tasks
  p ← get
  if p.closed || cancelled
      then (do
        for_each (λ i. schedule_close i (if p.closed then shutdown else error)) created
        pure false)
      else (do modify (λ q. record q { slots = q.slots ++ created }); pure true)

-- `_start_once` after a registration that was not interrupted.
unfoldable pub end_start : Bool → M (Unit {0})
end_start registered = do
  modify (λ p. record p { starting = false })
  raise_if (not registered) pool_closed

-- A slot that retires for good, and closes if it is idle.
unfoldable pub retire_for_good : Bool → ℕ → M (Unit {0})
retire_for_good stopping i = do
  mark_retiring i (if stopping then shutdown else error)
  p ← get
  if (p.heap i).active_contexts == 0
      then schedule_close i (if stopping then shutdown else error)
      else pure tt

-- `_recover_cancelled_start`, after the registration task has ended.
unfoldable pub recover_cancelled_start : List ℕ → List ℕ → M (Unit {0})
recover_cancelled_start tasks created = do
  for_each finish_create_task tasks
  for_each (retire_for_good false) created

module _ (e : Env) where
  unfoldable pub refresh : M (Unit {0})
  refresh = do p ← get; if not p.started || p.closed then pure tt else refresh_recycling e

  unfoldable pub maintain : M (Unit {0})
  maintain = do
    p ← get
    if not p.started || p.closed then pure tt else (do refresh_recycling e; replenish e)

-- `for slot in list(self._slots): …` and `for task in list(self._create_tasks): …`
unfoldable pub retire_all : M (Unit {0})
retire_all = do p ← get; for_each (retire_for_good true) p.slots

unfoldable pub abandon_all : M (Unit {0})
abandon_all = do p ← get; for_each abandon_create_task p.create_tasks

unfoldable pub quiesce : M (Unit {0})
quiesce = do modify (λ p. record p { closed = true }); abandon_all; retire_all

unfoldable pub retry_all_failed : M (Unit {0})
retry_all_failed = do p ← get; for_each schedule_failed_close_retry p.failed_close_slots

-- The first critical section of `close`. `startup` says that a startup task is in flight,
-- `settled` that no watcher, accounting task or the like is left beside what the pool records.
unfoldable pub begin_close : Bool → Bool → M Bool
begin_close startup accounting = do
  p ← get
  if p.closed
        && not (
            ltb 0 (length p.slots)
            || ltb 0 (length p.create_tasks)
            || ltb 0 (length p.create_watchers)
            || ltb 0 (length p.close_tasks)
            || ltb 0 (length p.failed_close_slots)
            || accounting
            || startup)
      then pure false
      else (do
        modify (λ q. record q { closed = true })
        abandon_all
        retry_all_failed
        retire_all
        pure true)
