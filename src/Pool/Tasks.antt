-- ===== src/Pool/Tasks.antt =====
-- camouflare/pool.py: the critical sections that run beside the requests, as one type of events.
use camouflare.Prelude.{ℕ, Bool, List}
use camouflare.Pool.State.{Env, M, pure, ◌>>=◌}
use camouflare.Pool.Create.{
  create_slot, finish_close_slot, reconcile_aborted_close, physical_close_finished,
  reconcile_late_physical_close, supervise_timeout, supervise_failure, supervise_success,
  create_supervisor_done, finish_abandoned_creation,
}
use camouflare.Pool.Lifecycle.{
  begin_start, abort_startup, fail_startup, register_started_slots, end_start,
  recover_cancelled_start, refresh, maintain, quiesce, begin_close,
}

-- One event for each critical section of a background task or of the life cycle.
pub data Event : Type 0 where
  refreshes maintains starts quiesces : Event
  launch_completes launch_times_out launch_succeeds supervisor_ends : ℕ → Event
  launch_fails : ℕ → ℕ → Event
  abandoned_launch_ends : ℕ → Bool → Event
  close_ends : ℕ → Bool → Event
  close_aborts : ℕ → ℕ → Event
  physically_closes : ℕ → Event
  closes_late : ℕ → Bool → Event
  startup_aborts : List ℕ → Event
  startup_fails : List ℕ → List ℕ → List ℕ → Event
  registers : List ℕ → List ℕ → Bool → Event
  start_ends : Bool → Event
  startup_recovers : List ℕ → List ℕ → Event
  closes : Bool → Bool → Event

unfoldable pub perform : Env → Event → M (Unit {0})
perform e refreshes = refresh e
perform e maintains = maintain e
perform e starts = begin_start
perform e quiesces = quiesce
perform e (launch_completes t) = create_slot t e.now
perform e (launch_times_out t) = supervise_timeout t
perform e (launch_succeeds t) = supervise_success t
perform e (supervisor_ends t) = create_supervisor_done t
perform e (launch_fails t failure) = supervise_failure t failure
perform e (abandoned_launch_ends t launched) = finish_abandoned_creation t launched
perform e (close_ends i succeeded) = finish_close_slot e i succeeded
perform e (close_aborts i task) = reconcile_aborted_close e i task
perform e (physically_closes i) = physical_close_finished i
perform e (closes_late i running) = reconcile_late_physical_close i running
perform e (startup_aborts tasks) = abort_startup tasks
perform e (startup_fails done pending created) = fail_startup done pending created
perform e (registers tasks created cancelled) =
    register_started_slots tasks created cancelled >>= λ _. pure tt
perform e (start_ends registered) = end_start registered
perform e (startup_recovers tasks created) = recover_cancelled_start tasks created
perform e (closes startup accounting) = begin_close startup accounting >>= λ _. pure tt
