-- ===== src/Cleanup/State.antt =====
-- camouflare/cleanup.py: the records of the cleanup supervisor. Tasks, groups and events are
-- identities; times are milliseconds.
use camouflare.Prelude.{ℕ, String, Bool, false, List, [], ◌∷◌, Option, none, if◌then◌else◌, ◌==◌}

pub record CleanupScope : Type 0 where
  pub deadline : ℕ
  pub group : ℕ
  pub groups : List ℕ

-- `self.groups or frozenset({self.group})`
unfoldable pub ownership_groups : CleanupScope → List ℕ
ownership_groups scope = elim scope.groups [ [] ↦ scope.group ∷ [] | _ ∷ _ ↦ scope.groups ]

pub record TrackedCleanup : Type 0 where
  pub kind : String
  pub started_at : ℕ
  pub deadline : ℕ
  pub group : ℕ
  pub groups : List ℕ

pub data CleanupError : Type 0 where
  bad_timeout no_longer_tracked hold_underflow timed_out_error : CleanupError

pub data Outcome {ℓ} (A : Type ℓ) : Type ℓ where
  returned : A → Outcome A
  raised : CleanupError → Outcome A

-- The set of a group goes with its last task and its hold count with the last hold, so a group that
-- the source's dictionaries miss has no task and no hold here. `deadline_handles` gives the time at
-- which a timer fires, `finished` is `task.done()`, and `cancelled` holds the tasks that were asked
-- to stop.
pub record Supervisor : Type 0 where
  pub timeout : ℕ
  pub tasks : List (ℕ × TrackedCleanup)
  pub deadline_handles : List (ℕ × ℕ)
  pub timed_out : List ℕ
  pub run_waiters : ℕ → ℕ
  pub group_tasks : ℕ → List ℕ
  pub group_holds : ℕ → ℕ
  pub group_events : ℕ → Option ℕ
  pub event_is_set : ℕ → Bool
  pub next_event : ℕ
  pub next_group : ℕ
  pub shutdown_deadline : Option ℕ
  pub finished : ℕ → Bool
  pub cancelled : List ℕ

-- `CleanupSupervisor.__init__`
abbrev pub new_supervisor : ℕ → Supervisor
new_supervisor timeout = record {
  timeout = timeout;
  tasks = [];
  deadline_handles = [];
  timed_out = [];
  run_waiters = λ t. 0;
  group_tasks = λ g. [];
  group_holds = λ g. 0;
  group_events = λ g. none;
  event_is_set = λ v. false;
  next_event = 0;
  next_group = 0;
  shutdown_deadline = none;
  finished = λ t. false;
  cancelled = [];
}

-- `m[k] = v`
abbrev pub assign {ℓ} : {A : Type ℓ} → ℕ → A → (ℕ → A) → ℕ → A
assign k v m j = if k == j then v else m j
