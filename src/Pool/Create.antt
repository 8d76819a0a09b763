-- ===== src/Pool/Create.antt =====
-- camouflare/pool.py: launches, replenishment, and the end of a close.
use camouflare.Prelude.{
  ℕ, zero, suc, ◌+◌, ◌*◌, ◌-◌, ◌^◌, min, Bool, true, false, not, ◌&&◌, ◌||◌, List, [], ◌∷◌, ◌++◌,
  none, some, ltb, leb, ◌==◌, if◌then◌else◌, contains, remove, add_new, lookup, delete, length,
}
use camouflare.Pool.State.{
  error, shutdown, Env, Pool, M, pure, modify, get, ◌>>=◌, ◌>>◌, write_slot,
  max_abandoned_creations, physical_generations,
}
use camouflare.Pool.Recycle.{is_ready, should_recycle, schedule_close}

-- CLOSE_RETRY_MAX_BACKOFF_SECONDS and one second, on the clock's milliseconds.
abbrev pub close_retry_max_backoff : ℕ
close_retry_max_backoff = 60000

abbrev pub second : ℕ
second = 1000

-- `_start_create_task_unlocked`: the new task has the identity `next_task`.
unfoldable pub start_create_task : Bool → M (Unit {0})
start_create_task supervise = modify λ p. record p {
  create_tasks = p.next_task ∷ p.create_tasks;
  create_supervisors =
      if supervise then p.next_task ∷ p.create_supervisors else p.create_supervisors;
  next_task = suc p.next_task;
}

-- `_finish_create_task_unlocked`
unfoldable pub finish_create_task : ℕ → M (Unit {0})
finish_create_task task = modify λ p. record p { create_tasks = remove task p.create_tasks }

-- `_abandon_create_task_unlocked`: the task is cancelled and a watcher waits for it.
unfoldable pub abandon_create_task : ℕ → M (Unit {0})
abandon_create_task task = do
  p ← get
  if not (contains p.create_tasks task) || contains p.create_watchers task then pure tt else do
    finish_create_task task
    modify λ q. record q {
      create_supervisors = remove task q.create_supervisors;
      create_watchers = task ∷ q.create_watchers;
    }

-- A successful `_create_slot`: the object has the identity of its task, and is as yet untouched.
unfoldable pub create_slot : ℕ → ℕ → M (Unit {0})
create_slot task now = modify (write_slot task (λ s. record s { created_at = now }))

module _ (e : Env) where
  unfoldable pub count_healthy : Pool → List ℕ → ℕ
  count_healthy p [] = 0
  count_healthy p (i ∷ is) =
      (if is_ready (p.heap i).state && not (should_recycle e p (p.heap i)) then 1 else 0)
      + count_healthy p is

  -- `for _ in range(rounds)`, with its break.
  unfoldable pub launch : ℕ → M (Unit {0})
  launch zero = pure tt
  launch (suc rounds) = do
    p ← get
    if leb (max_abandoned_creations p.settings) (length p.create_watchers)
        then pure tt
        else do start_create_task true; launch rounds

  -- Both differences stop at 0 here and may be negative there; a range is empty in either case.
  unfoldable pub replenish_rounds : Pool → ℕ
  unfolding count_healthy physical_generations
  replenish_rounds p =
      min (p.min_browsers - count_healthy p p.slots - length p.create_tasks)
        (p.max_browsers - physical_generations p)

  -- `_replenish_unlocked`: its `occupied` is the sum of `_physical_generations_unlocked`.
  unfoldable pub replenish : M (Unit {0})
  unfolding replenish_rounds
  replenish = do
    p ← get
    if p.starting || not p.started || p.closed || ltb 0 p.waiting_requests
        then pure tt
        else launch (replenish_rounds p)

  -- The state change of `_finish_close_slot_unlocked` before it replenishes.
  unfoldable pub settle_close : ℕ → Bool → Pool → Pool
  settle_close i succeeded p =
      if succeeded || contains p.physically_closed_slots i || e.gone i
      then record p {
        close_tasks = delete i p.close_tasks;
        failed_close_slots = remove i p.failed_close_slots;
        physically_closed_slots = remove i p.physically_closed_slots;
      }
      else write_slot i
          (λ s. record s {
            close_failures = s.close_failures + 1;
            next_close_retry_at =
                e.now + min close_retry_max_backoff (2 ^ (s.close_failures + 1) * second);
          })
          (record p {
            close_tasks = delete i p.close_tasks;
            failed_close_slots = add_new i p.failed_close_slots;
          })

  unfoldable pub finish_close_slot : ℕ → Bool → M (Unit {0})
  unfolding settle_close
  finish_close_slot i succeeded = do modify (settle_close i succeeded); replenish

  -- The critical section of `_reconcile_aborted_close_task`.
  unfoldable pub reconcile_aborted_close : ℕ → ℕ → M (Unit {0})
  reconcile_aborted_close i task = do
    p ← get
    elim (lookup i p.close_tasks) [
      | none ↦ pure tt
      | some current ↦ if current == task then finish_close_slot i false else pure tt
    ]

-- `_physical_close_finished` on a close that succeeded.
unfoldable pub physical_close_finished : ℕ → M (Unit {0})
physical_close_finished i =
    modify λ p. record p { physically_closed_slots = add_new i p.physically_closed_slots }

-- The critical section of `_reconcile_late_physical_close`; `running` says that the close task of
-- the slot, if there is one, is not done.
unfoldable pub reconcile_late_physical_close : ℕ → Bool → M (Unit {0})
reconcile_late_physical_close i running = do
  p ← get
  if (elim (lookup i p.close_tasks) [ none ↦ false | some task ↦ running ])
      then pure tt
      else modify λ q. record q {
        failed_close_slots = remove i q.failed_close_slots;
        physically_closed_slots = remove i q.physically_closed_slots;
      }

-- What a finished launch becomes: a browser in service, or one to close if the pool has closed.
unfoldable pub admit_slot : ℕ → M (Unit {0})
admit_slot i = do
  p ← get
  if p.closed
      then schedule_close i shutdown
      else modify (λ q. record q { slots = q.slots ++ i ∷ [] })

-- `_supervise_create_task`, by the way in which its wait ends.
unfoldable pub supervise_timeout : ℕ → M (Unit {0})
supervise_timeout task = do
  p ← get
  if contains p.create_tasks task then abandon_create_task task else pure tt

unfoldable pub supervise_failure : ℕ → ℕ → M (Unit {0})
supervise_failure task failure = do
  p ← get
  if contains p.create_tasks task
      then (do
        finish_create_task task
        modify λ q. record q {
          create_failure_generation = suc q.create_failure_generation;
          last_create_failure = some failure;
        })
      else pure tt

unfoldable pub supervise_success : ℕ → M (Unit {0})
supervise_success task = do
  p ← get
  if contains p.create_tasks task then (do finish_create_task task; admit_slot task) else pure tt

-- `_create_supervisor_done`
unfoldable pub create_supervisor_done : ℕ → M (Unit {0})
create_supervisor_done task =
    modify λ p. record p { create_supervisors = remove task p.create_supervisors }

-- `_finish_abandoned_creation`: `launched` says that the factory returned a browser after all.
unfoldable pub finish_abandoned_creation : ℕ → Bool → M (Unit {0})
finish_abandoned_creation task launched = do
  modify (λ p. record p { create_watchers = remove task p.create_watchers })
  p ← get
  if launched then schedule_close task (if p.closed then shutdown else error) else pure tt
