-- ===== src/Cleanup/Tracking.antt =====
-- camouflare/cleanup.py: no operation on the tasks forgets anyone who waits for a group.
use camouflare.Prelude.{
  ◌||◌, ℕ, max, String, Bool, List, [], ◌∷◌, Option, none, some, contains, insert, delete, lookup,
  if◌then◌else◌, leb, if-holds, cases-holds,
}
use camouflare.Cleanup.State.{CleanupScope, TrackedCleanup, ownership_groups, Supervisor}
use camouflare.Cleanup.Groups.{is_empty, is_busy, add_task_to_group, each_group}
use camouflare.Cleanup.Ownership.{
  mark_timed_out, deadline_expired, shorten_deadline, merge_groups, minus, track_new,
}
use camouflare.Cleanup.Events.{AreTuned, Follows, Follows-refl, Follows-trans}
use camouflare.Cleanup.Renewal.{add_task_to_group-Follows}
use camouflare.Cleanup.Idling.{each_group-Follows}

-- A supervisor with the same groups, holds and events.
pub elsewhere :
    (tasks : List (ℕ × TrackedCleanup)) (handles : List (ℕ × ℕ)) (timed_out : List ℕ)
    (run_waiters : ℕ → ℕ) (next_group : ℕ) (shutdown : Option ℕ) (finished : ℕ → Bool)
    (cancelled : List ℕ) (s : Supervisor)
    → AreTuned s
    → Follows s (record s {
      tasks = tasks;
      deadline_handles = handles;
      timed_out = timed_out;
      run_waiters = run_waiters;
      next_group = next_group;
      shutdown_deadline = shutdown;
      finished = finished;
      cancelled = cancelled;
    })
unfolding is_busy
elsewhere tasks handles timed_out run_waiters next_group shutdown finished cancelled s h = record {
  tuned = record { known = h.known; single = h.single; tuned = h.tuned };
  awaited = λ g v a. record { known = a.known; reachable = a.reachable };
}

pub mark_timed_out-Follows :
    (task : ℕ) (s : Supervisor) → AreTuned s → Follows s (mark_timed_out task s)
unfolding mark_timed_out
mark_timed_out-Follows task s h =
    cases-holds (Follows s) (lookup task s.tasks) s
      (λ _.
        if s.finished task || contains s.timed_out task
        then s
        else record s { timed_out = task ∷ s.timed_out; cancelled = task ∷ s.cancelled })
      (λ _. Follows-refl s h)
      λ tracked _.
        if-holds (Follows s) (s.finished task || contains s.timed_out task) s _
          (λ _. Follows-refl s h) (λ _. elsewhere _ _ _ _ _ _ _ _ s h)

pub deadline_expired-Follows :
    (task : ℕ) (s : Supervisor) → AreTuned s → Follows s (deadline_expired task s)
unfolding deadline_expired
deadline_expired-Follows task s h =
    let first =
      elsewhere s.tasks (delete task s.deadline_handles) s.timed_out s.run_waiters s.next_group
        s.shutdown_deadline s.finished s.cancelled s h in
    Follows-trans first (mark_timed_out-Follows task _ first.tuned)

pub shorten_deadline-Follows :
    (now deadline task : ℕ) (s : Supervisor)
    → AreTuned s
    → Follows s (shorten_deadline now deadline task s)
unfolding shorten_deadline
shorten_deadline-Follows now deadline task s h =
    cases-holds (Follows s) (lookup task s.tasks) s
      (λ tracked. if leb tracked.deadline deadline then s else record s {
        tasks = insert task (record tracked { deadline = deadline }) s.tasks;
        deadline_handles = insert task (max now deadline) (delete task s.deadline_handles);
      })
      (λ _. Follows-refl s h)
      λ tracked _.
        if-holds (Follows s) (leb tracked.deadline deadline) s _ (λ _. Follows-refl s h)
          (λ _. elsewhere _ _ _ _ _ _ _ _ s h)

-- A write beside the groups, then the task joins some of them.
join_groups-Follows :
    (task : ℕ) (gs : List ℕ) (s q : Supervisor)
    → Follows s q
    → Follows s (each_group (λ g. add_task_to_group g task) gs q)
join_groups-Follows task gs s q f = Follows-trans f (
    each_group-Follows (λ g. add_task_to_group g task) gs q (λ g. add_task_to_group-Follows g task)
      f.tuned)

pub merge_groups-Follows :
    (task : ℕ) (inherited : Option CleanupScope) (s : Supervisor)
    → AreTuned s
    → Follows s (merge_groups task inherited s)
unfolding merge_groups
merge_groups-Follows task none s h = Follows-refl s h
merge_groups-Follows task (some scope) s h =
    cases-holds (Follows s) (lookup task s.tasks) s _ (λ _. Follows-refl s h)
      λ tracked _.
        let new_groups = minus (ownership_groups scope) tracked.groups in
        if-holds (Follows s) (is_empty new_groups) s _ (λ _. Follows-refl s h)
          λ _. join_groups-Follows task new_groups s _ (elsewhere _ _ _ _ _ _ _ _ s h)

pub track_new-Follows :
    (now deadline task : ℕ) (kind : String) (inherited : Option CleanupScope) (s : Supervisor)
    → AreTuned s
    → Follows s (track_new now deadline task kind inherited s)
unfolding track_new
track_new-Follows now deadline task kind none s h =
    let joined = join_groups-Follows task (s.next_group ∷ []) s _ (elsewhere _ _ _ _ _ _ _ _ s h) in
    Follows-trans joined (elsewhere _ _ _ _ _ _ _ _ _ joined.tuned)
track_new-Follows now deadline task kind (some scope) s h =
    let joined =
      join_groups-Follows task (ownership_groups scope) s _ (elsewhere _ _ _ _ _ _ _ _ s h) in
    Follows-trans joined (elsewhere _ _ _ _ _ _ _ _ _ joined.tuned)
