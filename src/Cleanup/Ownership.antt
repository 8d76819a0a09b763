-- ===== src/Cleanup/Ownership.antt =====
-- camouflare/cleanup.py: the tasks that the supervisor owns, their groups and their deadlines.
use camouflare.Prelude.{
  ℕ, suc, ◌+◌, min, max, String, Bool, false, ◌||◌, List, [], ◌∷◌, ◌++◌, Option, none, some,
  contains, lookup, insert, delete, if◌then◌else◌, ◌==◌, leb, ltb,
}
use text.Mathlib.Text.{◌==◌ as str_eq}
use camouflare.Cleanup.State.{
  CleanupScope, ownership_groups, bad_timeout, Outcome, returned, raised, Supervisor,
}
use camouflare.Cleanup.Groups.{is_empty, each_group, add_task_to_group}

-- `kind if kind in _CLEANUP_KINDS else "other"`
abbrev pub is_kind : String → List String → Bool
is_kind k [] = false
is_kind k (x ∷ xs) = str_eq k x || is_kind k xs

abbrev pub cleanup_kinds : List String
cleanup_kinds =
    "request" ∷ "readiness" ∷ "page" ∷ "context" ∷ "browser" ∷ "proxy" ∷ "captcha" ∷ "session" ∷ []

unfoldable pub canonical_kind : String → String
canonical_kind kind = if is_kind kind cleanup_kinds then kind else "other"

-- `_mark_timed_out`
unfoldable pub mark_timed_out : ℕ → Supervisor → Supervisor
mark_timed_out task s = elim (lookup task s.tasks) [
  | none ↦ s
  | some tracked ↦
      if s.finished task || contains s.timed_out task
      then s
      else record s { timed_out = task ∷ s.timed_out; cancelled = task ∷ s.cancelled }
]

unfoldable pub deadline_expired : ℕ → Supervisor → Supervisor
unfolding mark_timed_out
deadline_expired task s =
    mark_timed_out task (record s { deadline_handles = delete task s.deadline_handles })

-- A timer set for a deadline fires then, or at once if that has passed.
unfoldable pub shorten_deadline : ℕ → ℕ → ℕ → Supervisor → Supervisor
shorten_deadline now deadline task s = elim (lookup task s.tasks) [
  | none ↦ s
  | some tracked ↦ if leb tracked.deadline deadline then s else record s {
    tasks = insert task (record tracked { deadline = deadline }) s.tasks;
    deadline_handles = insert task (max now deadline) (delete task s.deadline_handles);
  }
]

-- The scope of the running task, where the supervisor owns that task.
unfoldable pub current_scope : Option ℕ → Supervisor → Option CleanupScope
current_scope none s = none
current_scope (some current) s = elim (lookup current s.tasks) [
  | none ↦ none
  | some tracked ↦
      some (record { deadline = tracked.deadline; group = tracked.group; groups = tracked.groups })
]

abbrev pub earlier : ℕ → Option ℕ → ℕ
earlier d none = d
earlier d (some limit) = min d limit

abbrev pub scope_deadline : Option CleanupScope → Option ℕ
scope_deadline none = none
scope_deadline (some scope) = some scope.deadline

-- The deadline that `track` computes, from the inherited scope.
unfoldable pub track_deadline : ℕ → ℕ → Option CleanupScope → Supervisor → ℕ
track_deadline now timeout inherited s =
    earlier (earlier (now + timeout) (scope_deadline inherited)) s.shutdown_deadline

-- `a - b` on sets.
abbrev pub minus : List ℕ → List ℕ → List ℕ
minus [] ys = []
minus (x ∷ xs) ys = if contains ys x then minus xs ys else x ∷ minus xs ys

-- The groups of the inherited scope, merged into those of a task that is tracked already.
unfoldable pub merge_groups : ℕ → Option CleanupScope → Supervisor → Supervisor
unfolding each_group add_task_to_group ownership_groups
merge_groups task none s = s
merge_groups task (some scope) s = elim (lookup task s.tasks) [
  | none ↦ s
  | some tracked ↦
      let new_groups = minus (ownership_groups scope) tracked.groups in
      if is_empty new_groups
      then s
      else each_group (λ g. add_task_to_group g task) new_groups
          (record s {
            tasks = insert task (record tracked { groups = tracked.groups ++ new_groups }) s.tasks;
          })
]

-- The group and the ownership groups of a new task; without a scope it gets a group of its own.
abbrev pub own_scope : ℕ → Option CleanupScope → Supervisor → CleanupScope × Supervisor
own_scope deadline none s = (
  record { deadline = deadline; group = s.next_group; groups = s.next_group ∷ [] },
  record s { next_group = suc s.next_group },
)
own_scope deadline (some scope) s =
    (record { deadline = deadline; group = scope.group; groups = ownership_groups scope }, s)

unfoldable pub track_new : ℕ → ℕ → ℕ → String → Option CleanupScope → Supervisor → Supervisor
unfolding each_group add_task_to_group canonical_kind
track_new now deadline task kind inherited s =
    let (scope, q) = own_scope deadline inherited s in
    let r =
      each_group (λ g. add_task_to_group g task) scope.groups
        (record q {
          tasks =
              insert task
                (record {
                  kind = canonical_kind kind;
                  started_at = now;
                  deadline = deadline;
                  group = scope.group;
                  groups = scope.groups;
                })
                q.tasks;
        }) in
    record r { deadline_handles = insert task (max now deadline) r.deadline_handles }

-- `track`, from the timeout that applies and the scope that is inherited.
unfoldable pub track_within : ℕ → ℕ → ℕ → String → Option CleanupScope → Supervisor → Supervisor
unfolding track_deadline track_new merge_groups shorten_deadline
track_within now timeout task kind inherited s =
    let deadline = track_deadline now timeout inherited s in
    elim (lookup task s.tasks) [
      | none ↦ track_new now deadline task kind inherited s
      | some tracked ↦
          merge_groups task inherited
            (if ltb deadline tracked.deadline then shorten_deadline now deadline task s else s)
    ]

abbrev pub or_default : ℕ → Option ℕ → ℕ
or_default d none = d
or_default d (some t) = t

abbrev pub or_scope : Option CleanupScope → Option CleanupScope → Option CleanupScope
or_scope none other_scope = other_scope
or_scope (some scope) other_scope = some scope

unfoldable pub track :
    ℕ
    → Option ℕ
    → ℕ
    → String
    → Option ℕ
    → Option CleanupScope
    → Supervisor
    → Outcome (Unit {0}) × Supervisor
unfolding track_within current_scope
track now current task kind timeout scope s =
    if or_default s.timeout timeout == 0 then (raised bad_timeout, s) else (
      returned tt,
      track_within now (or_default s.timeout timeout) task kind
          (or_scope scope (current_scope current s)) s,
    )
