-- ===== src/Cleanup/Groups.antt =====
-- camouflare/cleanup.py: the ownership groups, their holds and events, and the wait for a group.
use camouflare.Prelude.{
  ℕ, suc, ◌+◌, ◌-◌, Bool, true, false, ◌||◌, not, List, [], ◌∷◌, Option, none, some, add_new,
  remove, if◌then◌else◌, ◌==◌, ltb,
}
use camouflare.Cleanup.State.{
  CleanupScope, ownership_groups, hold_underflow, Outcome, returned, raised, Supervisor, assign,
}

abbrev pub is_empty {ℓ} : {A : Type ℓ} → List A → Bool
is_empty [] = true
is_empty (x ∷ xs) = false

-- `self._group_tasks.get(group) or self._group_holds.get(group, 0) > 0`
unfoldable pub is_busy : ℕ → Supervisor → Bool
is_busy g s = not (is_empty (s.group_tasks g)) || ltb 0 (s.group_holds g)

-- `if event is not None and event.is_set(): self._group_events[group] = asyncio.Event()`
unfoldable pub renew_event : ℕ → Supervisor → Supervisor
renew_event g s = elim (s.group_events g) [
  | none ↦ s
  | some v ↦
      if s.event_is_set v
      then record s {
        group_events = assign g (some s.next_event) s.group_events;
        event_is_set = assign s.next_event false s.event_is_set;
        next_event = suc s.next_event;
      }
      else s
]

unfoldable pub add_task_to_group : ℕ → ℕ → Supervisor → Supervisor
unfolding renew_event
add_task_to_group g task s =
    let q = renew_event g s in
    record q { group_tasks = assign g (add_new task (q.group_tasks g)) q.group_tasks }

unfoldable pub hold_group : ℕ → Supervisor → Supervisor
unfolding renew_event
hold_group g s =
    let q = renew_event g s in
    record q { group_holds = assign g (q.group_holds g + 1) q.group_holds }

unfoldable pub finish_group_if_idle : ℕ → Supervisor → Supervisor
unfolding is_busy
finish_group_if_idle g s = if is_busy g s then s else elim (s.group_events g) [
  | none ↦ s
  | some v ↦ record s { event_is_set = assign v true s.event_is_set }
]

unfoldable pub group_task_finished : ℕ → ℕ → Supervisor → Supervisor
unfolding finish_group_if_idle
group_task_finished task g s =
    if is_empty (s.group_tasks g)
    then s
    else let q = record s {
      group_tasks = assign g (remove task (s.group_tasks g)) s.group_tasks;
    } in
      if is_empty (q.group_tasks g) then finish_group_if_idle g q else q

unfoldable pub release_scope_hold : ℕ → Supervisor → Outcome (Unit {0}) × Supervisor
unfolding finish_group_if_idle
release_scope_hold g s = if s.group_holds g == 0 then (raised hold_underflow, s) else (
  returned tt,
  finish_group_if_idle g (record s { group_holds = assign g (s.group_holds g - 1) s.group_holds }),
)

-- `for group in groups: …`
unfoldable pub each_group : (ℕ → Supervisor → Supervisor) → List ℕ → Supervisor → Supervisor
each_group f [] s = s
each_group f (g ∷ gs) s = each_group f gs (f g s)

unfoldable pub retain_scope : CleanupScope → Supervisor → Supervisor
unfolding ownership_groups each_group hold_group
retain_scope scope s = each_group hold_group (ownership_groups scope) s

-- `CleanupScopeHold.release`, for a hold that is not released yet: the first underflow ends it.
unfoldable pub release_hold : List ℕ → Supervisor → Outcome (Unit {0}) × Supervisor
unfolding release_scope_hold
release_hold [] s = (returned tt, s)
release_hold (g ∷ gs) s =
    let (o, q) = release_scope_hold g s in
    let rest = release_hold gs q in elim o [ raised x ↦ (raised x, q) | returned _ ↦ rest ]

-- A turn of the loop of `wait_for_group`: the event to wait for, or none when the group is idle.
unfoldable pub wait_for_group : ℕ → Supervisor → Option ℕ × Supervisor
unfolding is_busy
wait_for_group g s =
    if is_busy g s
    then elim (s.group_events g) [
      | some v ↦ (some v, s)
      | none ↦ (
        some s.next_event,
        record s {
          group_events = assign g (some s.next_event) s.group_events;
          event_is_set = assign s.next_event false s.event_is_set;
          next_event = suc s.next_event;
        },
      )
    ]
    else (none, s)

-- After the event: `if self._group_events.get(group) is event: self._group_events.pop(group, None)`.
unfoldable pub forget_event : ℕ → ℕ → Supervisor → Supervisor
forget_event g v s = elim (s.group_events g) [
  | none ↦ s
  | some w ↦ if w == v then record s { group_events = assign g none s.group_events } else s
]
