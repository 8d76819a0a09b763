-- ===== src/Pool/Stable.antt =====
-- An invariant that the small steps of the pool keep is kept by every event.
use camouflare.Prelude.{
  ◌++◌, refl, contains-append, contains, arith, ℕ, zero, suc, Bool, true, false, List, ◌≡◌, inl,
  inr, lookup, Option-cases, ◌==◌,
}
use camouflare.Pool.State.{Reason, Env, Pool, modify, ◌>>=◌}
use camouflare.Pool.Recycle.{
  mark_retiring, start_close_task, schedule_close, schedule_failed_close_retry, retry_failed_close,
  retry_failed_closes, retire_disconnected, retire_exhausted, close_idle, refresh_slot,
  refresh_recycling,
}
use camouflare.Pool.Create.{
  start_create_task, finish_create_task, abandon_create_task, create_slot, launch, replenish,
  settle_close, finish_close_slot, reconcile_aborted_close, physical_close_finished,
  reconcile_late_physical_close, admit_slot, supervise_timeout, supervise_failure,
  supervise_success, create_supervisor_done, finish_abandoned_creation,
}
use camouflare.Pool.Lifecycle.{
  start_create_tasks, begin_start, abort_startup, fail_startup, register_started_slots, end_start,
  retire_for_good, recover_cancelled_start, refresh, maintain, retire_all, abandon_all, quiesce,
  retry_all_failed, begin_close,
}
use camouflare.Pool.Tasks.{
  Event, refreshes, maintains, starts, quiesces, launch_completes, launch_times_out,
  launch_succeeds, supervisor_ends, launch_fails, abandoned_launch_ends, close_ends, close_aborts,
  physically_closes, closes_late, startup_aborts, startup_fails, registers, start_ends,
  startup_recovers, closes, perform,
}
use camouflare.Pool.Keeps.{
  Keeps, Keeps-get_bind, Keeps-modify, Keeps-pure, Keeps-if, Keeps-bind, Keeps-get, keeps,
}

-- `q` differs from `p` in its lists, tasks and flags only: the heap, the counters and the settings
-- are those of `p`, no slot has left the pool, and a closed pool stays closed.
pub record SameHeap (p q : Pool) : Type 0 where
  pub settings : q.settings ≡ p.settings
  pub heap : q.heap ≡ p.heap
  pub stays : p.closed ≡ true → q.closed ≡ true
  pub kept : (i : ℕ) → contains p.slots i ≡ true → contains q.slots i ≡ true
  pub transient : q.transient_contexts ≡ p.transient_contexts
  pub persistent : q.persistent_contexts ≡ p.persistent_contexts
  pub waiting : q.waiting_requests ≡ p.waiting_requests

-- What an invariant on slots and counters has to stand.
pub record Stable (P : Pool → Type 0) : Type 0 where
  pub same : (p q : Pool) → SameHeap p q → P p → P q
  pub retires : (i : ℕ) (r : Reason) → Keeps P (mark_retiring i r)
  pub schedules : (i : ℕ) (r : Reason) → Keeps P (schedule_close i r)
  pub creates : (i now : ℕ) → Keeps P (create_slot i now)
  pub settles : (e : Env) (i : ℕ) (b : Bool) → Keeps P (modify (settle_close e i b))

module _ {P : Pool → Type 0} (s : Stable P) where
  -- A write to anything but the heap, the counters and the settings.
  aside : (f : Pool → Pool) → ((p : Pool) → SameHeap p (f p)) → Keeps P (modify f)
  aside f h = Keeps-modify f (λ p k. s.same p (f p) (h p) k)

  start_create_task-Keeps : (b : Bool) → Keeps P (start_create_task b)
  unfolding start_create_task
  start_create_task-Keeps b = aside _ (λ p. ground arith)

  finish_create_task-Keeps : (t : ℕ) → Keeps P (finish_create_task t)
  unfolding finish_create_task
  finish_create_task-Keeps t = aside _ (λ p. ground arith)

  schedule_failed_close_retry-Keeps : (i : ℕ) → Keeps P (schedule_failed_close_retry i)
  unfolding schedule_failed_close_retry start_close_task ◌>>=◌
  schedule_failed_close_retry-Keeps i = record { after = λ p k. s.same p _ (at_retry p) k }
    where
      at_retry : (p : Pool) → SameHeap p (schedule_failed_close_retry i p).1
      at_retry p = ground arith

  abandon_create_task-Keeps : (t : ℕ) → Keeps P (abandon_create_task t)
  unfolding abandon_create_task finish_create_task ◌>>=◌
  abandon_create_task-Keeps t = record { after = λ p k. s.same p _ (at_abandon p) k }
    where
      at_abandon : (p : Pool) → SameHeap p (abandon_create_task t p).1
      at_abandon p = ground arith

  pub mark_retiring-Keeps : (i : ℕ) (r : Reason) → Keeps P (mark_retiring i r)
  mark_retiring-Keeps = s.retires

  pub schedule_close-Keeps : (i : ℕ) (r : Reason) → Keeps P (schedule_close i r)
  schedule_close-Keeps = s.schedules

  settle_close-Keeps : (e : Env) (i : ℕ) (b : Bool) → Keeps P (modify (settle_close e i b))
  settle_close-Keeps = s.settles

  ruleset small = (
    keeps, aside, mark_retiring-Keeps, schedule_close-Keeps, settle_close-Keeps,
    start_create_task-Keeps, finish_create_task-Keeps, schedule_failed_close_retry-Keeps,
    abandon_create_task-Keeps,
  )

  pub retry_failed_closes-Keeps : (e : Env) → Keeps P (retry_failed_closes e)
  unfolding retry_failed_closes retry_failed_close
  retry_failed_closes-Keeps e = search small depth 12

  pub refresh_recycling-Keeps : (e : Env) → Keeps P (refresh_recycling e)
  unfolding refresh_recycling refresh_slot retire_disconnected retire_exhausted close_idle
  refresh_recycling-Keeps e = search (small, retry_failed_closes-Keeps) depth 16

  launch-Keeps : (e : Env) (n : ℕ) → Keeps P (launch e n)
  unfolding launch
  launch-Keeps e zero = search small
  launch-Keeps e (suc n) = Keeps-bind _ _ Keeps-get λ p.
      Keeps-if _ _ _ (Keeps-pure tt)
        (Keeps-bind _ _ (start_create_task-Keeps true) (λ _. launch-Keeps e n))

  replenish-Keeps : (e : Env) → Keeps P (replenish e)
  unfolding replenish
  replenish-Keeps e = search (small, launch-Keeps) depth 12

  finish_close_slot-Keeps : (e : Env) (i : ℕ) (b : Bool) → Keeps P (finish_close_slot e i b)
  unfolding finish_close_slot
  finish_close_slot-Keeps e i b = search (small, replenish-Keeps) depth 12

  admits-Keeps : (xs : List ℕ) → Keeps P (modify (λ q. record q { slots = q.slots ++ xs }))
  admits-Keeps xs = aside _ (λ p. record {
    settings = refl;
    heap = refl;
    stays = λ h. h;
    kept = λ i h. ground (arith, h, contains-append p.slots xs i);
    transient = refl;
    persistent = refl;
    waiting = refl;
  })

  admit_slot-Keeps : (i : ℕ) → Keeps P (admit_slot i)
  unfolding admit_slot
  admit_slot-Keeps i = search (small, admits-Keeps) depth 12

  reconcile_aborted_close-Keeps : (e : Env) (i t : ℕ) → Keeps P (reconcile_aborted_close e i t)
  unfolding reconcile_aborted_close
  reconcile_aborted_close-Keeps e i t = Keeps-get_bind _ λ p k.
      elim (Option-cases (lookup i p.close_tasks)) [
        | inl none_left ↦ rw none_left ((Keeps-pure {P = P} tt).after p k)
        | inr (current, found) ↦ rw found (
            (Keeps-if (current == t) _ _ (finish_close_slot-Keeps e i false) (Keeps-pure tt)).after
              p k)
      ]

  reconcile_late_physical_close-Keeps :
      (i : ℕ) (b : Bool) → Keeps P (reconcile_late_physical_close i b)
  unfolding reconcile_late_physical_close
  reconcile_late_physical_close-Keeps i b = search (small, arith) depth 12

  supervise_timeout-Keeps : (t : ℕ) → Keeps P (supervise_timeout t)
  unfolding supervise_timeout
  supervise_timeout-Keeps t = search small depth 12

  supervise_failure-Keeps : (t x : ℕ) → Keeps P (supervise_failure t x)
  unfolding supervise_failure
  supervise_failure-Keeps t x = search (small, arith) depth 12

  supervise_success-Keeps : (t : ℕ) → Keeps P (supervise_success t)
  unfolding supervise_success
  supervise_success-Keeps t = search (small, admit_slot-Keeps) depth 12

  finish_abandoned_creation-Keeps : (t : ℕ) (b : Bool) → Keeps P (finish_abandoned_creation t b)
  unfolding finish_abandoned_creation
  finish_abandoned_creation-Keeps t b = search (small, arith) depth 12

  start_create_tasks-Keeps : (n : ℕ) → Keeps P (start_create_tasks n)
  unfolding start_create_tasks
  start_create_tasks-Keeps zero = Keeps-pure tt
  start_create_tasks-Keeps (suc n) =
      Keeps-bind _ _ (start_create_task-Keeps false) (λ _. start_create_tasks-Keeps n)

  begin_start-Keeps : Keeps P begin_start
  unfolding begin_start
  begin_start-Keeps = search (small, arith, start_create_tasks-Keeps) depth 20

  abort_startup-Keeps : (ts : List ℕ) → Keeps P (abort_startup ts)
  unfolding abort_startup
  abort_startup-Keeps ts = search (small, arith) depth 12

  fail_startup-Keeps : (done pending created : List ℕ) → Keeps P (fail_startup done pending created)
  unfolding fail_startup
  fail_startup-Keeps done pending created = search (small, arith) depth 12

  register_started_slots-Keeps :
      (ts created : List ℕ) (b : Bool) → Keeps P (register_started_slots ts created b)
  unfolding register_started_slots
  register_started_slots-Keeps ts created b = search (small, admits-Keeps) depth 16

  end_start-Keeps : (b : Bool) → Keeps P (end_start b)
  unfolding end_start
  end_start-Keeps b = search (small, arith) depth 12

  retire_for_good-Keeps : (b : Bool) (i : ℕ) → Keeps P (retire_for_good b i)
  unfolding retire_for_good
  retire_for_good-Keeps b i = search small depth 12

  recover_cancelled_start-Keeps :
      (ts created : List ℕ) → Keeps P (recover_cancelled_start ts created)
  unfolding recover_cancelled_start
  recover_cancelled_start-Keeps ts created = search (small, retire_for_good-Keeps) depth 12

  maintain-Keeps : (e : Env) → Keeps P (maintain e)
  unfolding maintain
  maintain-Keeps e = search (small, refresh_recycling-Keeps, replenish-Keeps) depth 12

  refresh-Keeps : (e : Env) → Keeps P (refresh e)
  unfolding refresh
  refresh-Keeps e = search (small, refresh_recycling-Keeps) depth 12

  abandon_all-Keeps : Keeps P abandon_all
  unfolding abandon_all
  abandon_all-Keeps = search small depth 12

  retire_all-Keeps : Keeps P retire_all
  unfolding retire_all
  retire_all-Keeps = search (small, retire_for_good-Keeps) depth 12

  retry_all_failed-Keeps : Keeps P retry_all_failed
  unfolding retry_all_failed
  retry_all_failed-Keeps = search small depth 12

  quiesce-Keeps : Keeps P quiesce
  unfolding quiesce
  quiesce-Keeps = search (small, arith, abandon_all-Keeps, retire_all-Keeps) depth 12

  begin_close-Keeps : (a b : Bool) → Keeps P (begin_close a b)
  unfolding begin_close
  begin_close-Keeps a b =
      search (small, arith, abandon_all-Keeps, retire_all-Keeps, retry_all_failed-Keeps) depth 16

  pub perform-Keeps : (e : Env) (v : Event) → Keeps P (perform e v)
  unfolding perform
  perform-Keeps e refreshes = refresh-Keeps e
  perform-Keeps e maintains = maintain-Keeps e
  perform-Keeps e starts = begin_start-Keeps
  perform-Keeps e quiesces = quiesce-Keeps
  perform-Keeps e (launch_completes t) = s.creates t e.now
  perform-Keeps e (launch_times_out t) = supervise_timeout-Keeps t
  perform-Keeps e (launch_succeeds t) = supervise_success-Keeps t
  perform-Keeps e (supervisor_ends t) = unfold create_supervisor_done in search (small, arith)
  perform-Keeps e (launch_fails t x) = supervise_failure-Keeps t x
  perform-Keeps e (abandoned_launch_ends t b) = finish_abandoned_creation-Keeps t b
  perform-Keeps e (close_ends i b) = finish_close_slot-Keeps e i b
  perform-Keeps e (close_aborts i t) = reconcile_aborted_close-Keeps e i t
  perform-Keeps e (physically_closes i) = unfold physical_close_finished in search (small, arith)
  perform-Keeps e (closes_late i b) = reconcile_late_physical_close-Keeps i b
  perform-Keeps e (startup_aborts ts) = abort_startup-Keeps ts
  perform-Keeps e (startup_fails ds ps cs) = fail_startup-Keeps ds ps cs
  perform-Keeps e (registers ts cs b) =
      Keeps-bind _ _ (register_started_slots-Keeps ts cs b) (λ _. Keeps-pure tt)
  perform-Keeps e (start_ends b) = end_start-Keeps b
  perform-Keeps e (startup_recovers ts cs) = recover_cancelled_start-Keeps ts cs
  perform-Keeps e (closes a b) = Keeps-bind _ _ (begin_close-Keeps a b) (λ _. Keeps-pure tt)
