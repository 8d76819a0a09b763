-- ===== src/Cleanup/Deadlines.antt =====
-- camouflare/cleanup.py: the deadline of a task that `track` has taken.
use camouflare.Prelude.{
  ℕ, suc, ◌+◌, ◌≤◌, min, max, String, true, false, List, [], ◌∷◌, Option, none, some, lookup,
  insert, delete, lookup-insert, if◌then◌else◌, ◌==◌, leb, ltb, ◌≡◌, refl, sym, subst, ◌∙◌, arith,
  if-holds, cases-holds,
}
use camouflare.Cleanup.State.{
  CleanupScope, TrackedCleanup, ownership_groups, returned, Supervisor, assign,
}
use camouflare.Cleanup.Groups.{is_empty, renew_event, add_task_to_group, each_group}
use camouflare.Cleanup.Ownership.{
  shorten_deadline, track_deadline, merge_groups, minus, track_new, track_within, track, or_default,
  or_scope, current_scope, canonical_kind, scope_deadline, earlier,
}

add_task_to_group-tasks :
    (g task : ℕ) (s : Supervisor) → (add_task_to_group g task s).tasks ≡ s.tasks
unfolding add_task_to_group renew_event
add_task_to_group-tasks g task s =
    cases-holds (λ (q : Supervisor). q.tasks ≡ s.tasks) (s.group_events g) s
      (λ v.
        if s.event_is_set v
        then record s {
          group_events = assign g (some s.next_event) s.group_events;
          event_is_set = assign s.next_event false s.event_is_set;
          next_event = suc s.next_event;
        }
        else s)
      (λ _. refl)
      λ v _.
        if-holds (λ (q : Supervisor). q.tasks ≡ s.tasks) (s.event_is_set v) _ s (λ _. refl)
          (λ _. refl)

join_groups-tasks :
    (task : ℕ) (gs : List ℕ) (s : Supervisor)
    → (each_group (λ g. add_task_to_group g task) gs s).tasks ≡ s.tasks
unfolding each_group
join_groups-tasks task [] s = refl
join_groups-tasks task (g ∷ gs) s =
    join_groups-tasks task gs (add_task_to_group g task s) ∙ add_task_to_group-tasks g task s

-- The task is owned, with a deadline of at most `limit`.
pub record IsOwedBy (task limit : ℕ) (s : Supervisor) : Type 0 where
  pub entry : TrackedCleanup
  pub found : lookup task s.tasks ≡ some entry
  pub soon : entry.deadline ≤ limit

joined-found :
    (task : ℕ) (gs : List ℕ) (t : TrackedCleanup) (s : Supervisor)
    → lookup task s.tasks ≡ some t
    → lookup task (each_group (λ g. add_task_to_group g task) gs s).tasks ≡ some t
joined-found task gs t s f =
    subst (λ m. lookup task m ≡ some t) (sym (join_groups-tasks task gs s)) f

lookup-insert-same :
    (task : ℕ) (t : TrackedCleanup) (m : List (ℕ × TrackedCleanup))
    → lookup task (insert task t m) ≡ some t
lookup-insert-same task t m = ground (arith, lookup-insert task task t m)

track_new-IsOwedBy :
    (now deadline task : ℕ) (kind : String) (inherited : Option CleanupScope) (s : Supervisor)
    → IsOwedBy task deadline (track_new now deadline task kind inherited s)
unfolding track_new
track_new-IsOwedBy now deadline task kind none s =
    let t : TrackedCleanup = record {
      kind = canonical_kind kind;
      started_at = now;
      deadline = deadline;
      group = s.next_group;
      groups = s.next_group ∷ [];
    } in
    record {
      entry = t;
      found =
          joined-found task (s.next_group ∷ []) t
            (record s { tasks = insert task t s.tasks; next_group = suc s.next_group })
            (lookup-insert-same task t s.tasks);
      soon = omega arith;
    }
track_new-IsOwedBy now deadline task kind (some scope) s = record {
  entry = record {
    kind = canonical_kind kind;
    started_at = now;
    deadline = deadline;
    group = scope.group;
    groups = ownership_groups scope;
  };
  found = joined-found task (ownership_groups scope) _ _ (lookup-insert-same task _ s.tasks);
  soon = omega arith;
}

shorten_deadline-IsOwedBy :
    (now deadline task : ℕ) (t : TrackedCleanup) (s : Supervisor)
    → lookup task s.tasks ≡ some t
    → ltb deadline t.deadline ≡ true
    → IsOwedBy task deadline (shorten_deadline now deadline task s)
unfolding shorten_deadline
shorten_deadline-IsOwedBy now deadline task t s f later =
    cases-holds (IsOwedBy task deadline) (lookup task s.tasks) s
      (λ tracked. if leb tracked.deadline deadline then s else record s {
        tasks = insert task (record tracked { deadline = deadline }) s.tasks;
        deadline_handles = insert task (max now deadline) (delete task s.deadline_handles);
      })
      (λ absent. absurd (ground (arith, absent, f)))
      λ tracked present.
        if-holds (IsOwedBy task deadline) (leb tracked.deadline deadline) s _
          (λ early. record { entry = tracked; found = present; soon = ground (arith, early) })
          (λ _. record { entry = _; found = lookup-insert-same task _ s.tasks; soon = omega arith })

merge_groups-IsOwedBy :
    (task limit : ℕ) (inherited : Option CleanupScope) (s : Supervisor)
    → IsOwedBy task limit s
    → IsOwedBy task limit (merge_groups task inherited s)
unfolding merge_groups
merge_groups-IsOwedBy task limit none s h = h
merge_groups-IsOwedBy task limit (some scope) s h =
    cases-holds (IsOwedBy task limit) (lookup task s.tasks) s _ (λ _. h)
      λ t present.
        let new_groups = minus (ownership_groups scope) t.groups in
        if-holds (IsOwedBy task limit) (is_empty new_groups) s _ (λ _. h)
          λ _. record {
            entry = _;
            found = joined-found task new_groups _ _ (lookup-insert-same task _ s.tasks);
            soon = ground (arith, present, h.found, h.soon);
          }

IsOwedBy-weaken : (task a b : ℕ) (s : Supervisor) → a ≤ b → IsOwedBy task a s → IsOwedBy task b s
IsOwedBy-weaken task a b s le h = record {
  entry = h.entry;
  found = h.found;
  soon = omega (arith, le, h.soon);
}

-- The earlier of a task's old deadline, if it has one, and the new one.
abbrev pub old_deadline : Option TrackedCleanup → Option ℕ
old_deadline none = none
old_deadline (some t) = some t.deadline

track_within-IsOwedBy :
    (now timeout task : ℕ) (kind : String) (inherited : Option CleanupScope) (s : Supervisor)
    → IsOwedBy task
        (earlier (track_deadline now timeout inherited s) (old_deadline (lookup task s.tasks)))
        (track_within now timeout task kind inherited s)
unfolding track_within
track_within-IsOwedBy now timeout task kind inherited s =
    let d = track_deadline now timeout inherited s in
    let limit : Option TrackedCleanup → ℕ = λ o. earlier d (old_deadline o) in
    let again : TrackedCleanup → Supervisor = λ t.
      merge_groups task inherited (if ltb d t.deadline then shorten_deadline now d task s else s) in
    cases-holds (IsOwedBy task (limit (lookup task s.tasks))) (lookup task s.tasks)
      (track_new now d task kind inherited s) again
      (λ absent.
        subst (λ o. IsOwedBy task (limit o) (track_new now d task kind inherited s)) (sym absent)
          (track_new-IsOwedBy now d task kind inherited s))
      λ t present.
        subst (λ o. IsOwedBy task (limit o) (again t)) (sym present)
          (merge_groups-IsOwedBy task (min d t.deadline) inherited _ (
            if-holds (IsOwedBy task (min d t.deadline)) (ltb d t.deadline) _ s
              (λ later.
                IsOwedBy-weaken task d (min d t.deadline) _ (ground (arith, later))
                  (shorten_deadline-IsOwedBy now d task t s present later))
              (λ early. record { entry = t; found = present; soon = ground (arith, early) })))

-- At most a bound, if there is one.
abbrev pub AtMost : ℕ → Option ℕ → Type 0
AtMost n none = Unit
AtMost n (some d) = n ≤ d

earlier-AtMost : (n d : ℕ) (o : Option ℕ) → n ≤ earlier d o → (n ≤ d) × AtMost n o
earlier-AtMost n d none h = (h, tt)
earlier-AtMost n d (some e) h = (omega (arith, h), omega (arith, h))

-- What `track` promises of the deadline of the task that it has taken.
pub record IsBounded (now timeout task : ℕ) (inherited : Option CleanupScope) (s q : Supervisor)
    : Type 0 where
  pub entry : TrackedCleanup
  pub found : lookup task q.tasks ≡ some entry
  pub by_timeout : entry.deadline ≤ now + timeout
  pub by_scope : AtMost entry.deadline (scope_deadline inherited)
  pub by_shutdown : AtMost entry.deadline s.shutdown_deadline
  pub by_itself : AtMost entry.deadline (old_deadline (lookup task s.tasks))

-- With a timeout above zero `track` returns and owns the task, new or not, with a deadline that is
-- neither after the timeout, nor after the deadline of the scope that it inherits (the given one, or
-- that of the running task), nor after the shutdown, nor after the deadline that the task had.
pub track-IsBounded :
    (now : ℕ) (current : Option ℕ) (task : ℕ) (kind : String) (timeout : Option ℕ)
    (scope : Option CleanupScope) (s : Supervisor)
    → (or_default s.timeout timeout == 0) ≡ false
    → ((track now current task kind timeout scope s).0 ≡ returned tt)
      × IsBounded now
          (or_default s.timeout timeout)
          task
          (or_scope scope (current_scope current s))
          s
          (track now current task kind timeout scope s).1
unfolding track track_deadline
track-IsBounded now current task kind timeout scope s positive =
    let inherited = or_scope scope (current_scope current s) in
    let t = or_default s.timeout timeout in
    let h = track_within-IsOwedBy now t task kind inherited s in
    let (a, old) = earlier-AtMost _ _ (old_deadline (lookup task s.tasks)) h.soon in
    let (b, shut) = earlier-AtMost _ _ s.shutdown_deadline a in
    let (c, scoped) = earlier-AtMost _ _ (scope_deadline inherited) b in
    simp positive (
      refl,
      record {
        entry = h.entry;
        found = h.found;
        by_timeout = c;
        by_scope = scoped;
        by_shutdown = shut;
        by_itself = old;
      },
    )
