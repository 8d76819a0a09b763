-- ===== src/Cleanup/Operations.antt =====
-- camouflare/cleanup.py: `track`, `run`, `close`, the end of a task and the waits forget no waiter.
use camouflare.Prelude.{
  ◌∷◌, [], ◌+◌, false, true, ◌&&◌, ◌==◌, ltb, not, ◌-◌, ℕ, String, Bool, List, Option, contains,
  lookup, if◌then◌else◌, leb, if-holds, cases-holds,
}
use camouflare.Cleanup.State.{assign, returned, raised, Outcome, CleanupScope, Supervisor}
use camouflare.Cleanup.Groups.{group_task_finished}
use camouflare.Cleanup.Supervise.{
  keys, end_run, cancel_all, mark_all, begin_run, task_finished, leave_run, begin_close,
  close_deadline, close_round,
}
use camouflare.Cleanup.Ownership.{
  current_scope, or_scope, track_deadline, or_default, track_within, track, shorten_deadline,
  merge_groups, track_new,
}
use camouflare.Cleanup.Events.{AreTuned, Follows, Follows-refl, Follows-trans}
use camouflare.Cleanup.Idling.{group_task_finished-Follows, each_group-Follows}
use camouflare.Cleanup.Tracking.{
  elsewhere, mark_timed_out-Follows, shorten_deadline-Follows, merge_groups-Follows,
  track_new-Follows,
}

if-Follows :
    (b : Bool) (s q r : Supervisor) → Follows s q → Follows s r → Follows s (if b then q else r)
if-Follows true s q r f g = f
if-Follows false s q r f g = g

track_within-Follows :
    (now timeout task : ℕ) (kind : String) (inherited : Option CleanupScope) (s : Supervisor)
    → AreTuned s
    → Follows s (track_within now timeout task kind inherited s)
unfolding track_within
track_within-Follows now timeout task kind inherited s h =
    let deadline = track_deadline now timeout inherited s in
    cases-holds (Follows s) (lookup task s.tasks) (track_new now deadline task kind inherited s)
      (λ tracked.
        merge_groups task inherited
          (if ltb deadline tracked.deadline then shorten_deadline now deadline task s else s))
      (λ _. track_new-Follows now deadline task kind inherited s h)
      λ tracked _.
        let first =
          if-Follows (ltb deadline tracked.deadline) s _ s
            (shorten_deadline-Follows now deadline task s h) (Follows-refl s h) in
        Follows-trans first (merge_groups-Follows task inherited _ first.tuned)

pub track-Follows :
    (now : ℕ) (current : Option ℕ) (task : ℕ) (kind : String) (timeout : Option ℕ)
    (scope : Option CleanupScope) (s : Supervisor)
    → AreTuned s
    → Follows s (track now current task kind timeout scope s).1
unfolding track
track-Follows now current task kind timeout scope s h =
    if-holds (λ (o : Outcome (Unit {0}) × Supervisor). Follows s o.1)
      (or_default s.timeout timeout == 0) _ _ (λ _. Follows-refl s h)
      (λ _.
        track_within-Follows now (or_default s.timeout timeout) task kind
          (or_scope scope (current_scope current s)) s h)

pub task_finished-Follows :
    (task : ℕ) (s : Supervisor) → AreTuned s → Follows s (task_finished task s)
unfolding task_finished
task_finished-Follows task s h =
    cases-holds (Follows s) (lookup task s.tasks) s _ (λ _. Follows-refl s h)
      λ tracked _.
        let first = elsewhere _ _ _ _ _ _ _ _ s h in
        Follows-trans first (
          each_group-Follows (group_task_finished task) tracked.groups _
            (group_task_finished-Follows task) first.tuned)

counted-Follows :
    (s : Supervisor) (task : ℕ) (o : Outcome (Unit {0}) × Supervisor)
    → Follows s o.1
    → Follows s
        (elim o.0 as (λ _. Outcome (Unit {0}) × Supervisor) [
          | raised x ↦ (raised x, o.1)
          | returned _ ↦ (
            returned tt,
            record o.1 { run_waiters = assign task (o.1.run_waiters task + 1) o.1.run_waiters },
          )
        ]).1
counted-Follows s task (raised x, q) f = f
counted-Follows s task (returned _, q) f = Follows-trans f (elsewhere _ _ _ _ _ _ _ _ q f.tuned)

pub begin_run-Follows :
    (now : ℕ) (current : Option ℕ) (task : ℕ) (kind : String) (timeout : Option ℕ)
    (scope : Option CleanupScope) (s : Supervisor)
    → AreTuned s
    → Follows s (begin_run now current task kind timeout scope s).1
unfolding begin_run
begin_run-Follows now current task kind timeout scope s h =
    counted-Follows s task (track now current task kind timeout scope s)
      (track-Follows now current task kind timeout scope s h)

leave_run-Follows : (task : ℕ) (s : Supervisor) → AreTuned s → Follows s (leave_run task s)
unfolding leave_run
leave_run-Follows task s h =
    if-holds (Follows s)
      (assign task (s.run_waiters task - 1) s.run_waiters task == 0 && s.finished task) _ _
      (λ _. elsewhere _ _ _ _ _ _ _ _ s h) (λ _. elsewhere _ _ _ _ _ _ _ _ s h)

pub end_run-Follows :
    (done : Bool) (task : ℕ) (s : Supervisor) → AreTuned s → Follows s (end_run done task s).1
unfolding end_run
end_run-Follows done task s h =
    let P : Outcome (Unit {0}) × Supervisor → Type 0 = λ o. Follows s o.1 in
    let marked = mark_timed_out-Follows task s h in
    if-holds P (not done) _ _ (λ _. Follows-trans marked (leave_run-Follows task _ marked.tuned))
      λ _.
        if-holds P (contains s.timed_out task) _ _ (λ _. leave_run-Follows task s h)
          (λ _. leave_run-Follows task s h)

pub begin_close-Follows :
    (now timeout : ℕ) (s : Supervisor) → AreTuned s → Follows s (begin_close now timeout s)
unfolding begin_close
begin_close-Follows now timeout s h = elsewhere _ _ _ _ _ _ _ _ s h

cancel_all-Follows :
    (now deadline : ℕ) (ts : List ℕ) (s : Supervisor)
    → AreTuned s
    → Follows s (cancel_all now deadline ts s)
unfolding cancel_all
cancel_all-Follows now deadline [] s h = Follows-refl s h
cancel_all-Follows now deadline (t ∷ ts) s h =
    let first = shorten_deadline-Follows now deadline t s h in
    let second = Follows-trans first (elsewhere _ _ _ _ _ _ _ _ _ first.tuned) in
    Follows-trans second (cancel_all-Follows now deadline ts _ second.tuned)

mark_all-Follows : (ts : List ℕ) (s : Supervisor) → AreTuned s → Follows s (mark_all ts s)
unfolding mark_all
mark_all-Follows [] s h = Follows-refl s h
mark_all-Follows (t ∷ ts) s h =
    let first = mark_timed_out-Follows t s h in
    Follows-trans first (mark_all-Follows ts _ first.tuned)

pub close_round-Follows : (now : ℕ) (s : Supervisor) → AreTuned s → Follows s (close_round now s)
unfolding close_round
close_round-Follows now s h =
    cases-holds (Follows s) s.shutdown_deadline s (λ d. cancel_all now d (keys s.tasks) s)
      (λ _. Follows-refl s h) (λ d _. cancel_all-Follows now d (keys s.tasks) s h)

pub close_deadline-Follows :
    (now : ℕ) (s : Supervisor) → AreTuned s → Follows s (close_deadline now s)
unfolding close_deadline
close_deadline-Follows now s h =
    if-Follows (leb (or_default 0 s.shutdown_deadline) now) s _ s
      (mark_all-Follows (keys s.tasks) s h) (Follows-refl s h)
