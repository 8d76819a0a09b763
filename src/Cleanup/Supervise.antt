-- ===== src/Cleanup/Supervise.antt =====
-- camouflare/cleanup.py: the tasks that the supervisor owns, their deadlines and their ends.
use camouflare.Prelude.{
  ℕ, ◌+◌, ◌-◌, String, Bool, ◌&&◌, not, List, [], ◌∷◌, Option, none, some, remove, contains, lookup,
  delete, if◌then◌else◌, ◌==◌, leb,
}
use camouflare.Cleanup.State.{
  CleanupScope, TrackedCleanup, no_longer_tracked, timed_out_error, Outcome, returned, raised,
  Supervisor, assign,
}
use camouflare.Cleanup.Groups.{each_group, group_task_finished}
use camouflare.Cleanup.Ownership.{mark_timed_out, shorten_deadline, earlier, or_default, track}

unfoldable pub group_for : ℕ → Supervisor → Outcome ℕ
group_for task s = elim (lookup task s.tasks) [
  | none ↦ raised no_longer_tracked
  | some tracked ↦ returned tracked.group
]

-- The end of `_task_finished` on either branch: the timeout mark goes unless `run` still waits, and
-- the groups lose the task.
unfoldable pub task_finished : ℕ → Supervisor → Supervisor
unfolding each_group group_task_finished
task_finished task s = elim (lookup task s.tasks) [
  | none ↦ s
  | some tracked ↦ each_group (group_task_finished task) tracked.groups (record s {
    tasks = delete task s.tasks;
    deadline_handles = delete task s.deadline_handles;
    timed_out =
        if contains s.timed_out task && s.run_waiters task == 0
        then remove task s.timed_out
        else s.timed_out;
  })
]

-- `run` up to its wait, and after it: the task is in `done`, or the wait has timed out.
unfoldable pub begin_run :
    ℕ
    → Option ℕ
    → ℕ
    → String
    → Option ℕ
    → Option CleanupScope
    → Supervisor
    → Outcome (Unit {0}) × Supervisor
unfolding track
begin_run now current task kind timeout scope s =
    let (o, q) = track now current task kind timeout scope s in
    elim o [
      | raised x ↦ (raised x, q)
      | returned _ ↦ (
        returned tt,
        record q { run_waiters = assign task (q.run_waiters task + 1) q.run_waiters },
      )
    ]

-- The `finally` block of `run`.
unfoldable pub leave_run : ℕ → Supervisor → Supervisor
leave_run task s =
    let q = record s { run_waiters = assign task (s.run_waiters task - 1) s.run_waiters } in
    if q.run_waiters task == 0 && q.finished task
    then record q { timed_out = remove task q.timed_out }
    else q

unfoldable pub end_run : Bool → ℕ → Supervisor → Outcome (Unit {0}) × Supervisor
unfolding leave_run mark_timed_out
end_run done task s =
    if not done
    then (raised timed_out_error, leave_run task (mark_timed_out task s))
    else if contains s.timed_out task
    then (raised timed_out_error, leave_run task s)
    else (returned tt, leave_run task s)

-- `close`: the shutdown deadline, a round over the tasks, and the marks at the deadline.
unfoldable pub begin_close : ℕ → ℕ → Supervisor → Supervisor
begin_close now timeout s = record s {
  shutdown_deadline = some (earlier (now + timeout) s.shutdown_deadline);
}

abbrev pub keys : List (ℕ × TrackedCleanup) → List ℕ
keys [] = []
keys ((k, v) ∷ m) = k ∷ keys m

unfoldable pub cancel_all : ℕ → ℕ → List ℕ → Supervisor → Supervisor
unfolding shorten_deadline
cancel_all now deadline [] s = s
cancel_all now deadline (t ∷ ts) s =
    let q = shorten_deadline now deadline t s in
    cancel_all now deadline ts (record q { cancelled = t ∷ q.cancelled })

unfoldable pub mark_all : List ℕ → Supervisor → Supervisor
unfolding mark_timed_out
mark_all [] s = s
mark_all (t ∷ ts) s = mark_all ts (mark_timed_out t s)

unfoldable pub close_round : ℕ → Supervisor → Supervisor
unfolding cancel_all
close_round now s = elim s.shutdown_deadline [
  | none ↦ s
  | some deadline ↦ cancel_all now deadline (keys s.tasks) s
]

unfoldable pub close_deadline : ℕ → Supervisor → Supervisor
unfolding mark_all
close_deadline now s =
    if leb (or_default 0 s.shutdown_deadline) now then mark_all (keys s.tasks) s else s
