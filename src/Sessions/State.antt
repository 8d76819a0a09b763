-- ===== src/Sessions/State.antt =====
-- camouflare/sessions.py: the session objects, the registry, and its operations, one definition for
-- each stretch of code that runs without awaiting.
use camouflare.Prelude.{
  ℕ, suc, ◌+◌, ◌-◌, String, Bool, true, false, [], Option, none, some, leb, ◌==◌, if◌then◌else◌,
}
use camouflare.Prelude.Dict.{Dict, find, put, size}

pub data CloseReason : Type 0 where
  expired error destroyed : CloseReason

-- Every `raise` of the manager.
pub data SessionError : Type 0 where
  manager_closed session_unavailable session_capacity already_exists in_use_underflow : SessionError

pub data Result {ℓ} (A : Type ℓ) : Type ℓ where
  ok : A → Result A
  err : SessionError → Result A

-- `context` stands for the browser context and the close callback, `locked` for `lock.locked()`.
pub record Session : Type 0 where
  pub session_id : String
  pub context : ℕ
  pub ttl_seconds : Option ℕ
  pub created_at : ℕ
  pub last_used_at : ℕ
  pub locked : Bool
  pub in_use : ℕ

-- `_ClosingSession`; sessions and tasks are identities.
pub record ClosingSession : Type 0 where
  pub session : ℕ
  pub task : ℕ
  pub reason : CloseReason

-- `_PendingCreation`
pub record PendingCreation : Type 0 where
  pub builders : ℕ
  pub settled : Bool

pub record Manager : Type 0 where
  pub max_sessions : ℕ
  pub default_ttl_seconds : ℕ
  pub heap : ℕ → Session
  pub next_session : ℕ
  pub next_task : ℕ
  pub sessions : Dict ℕ
  pub closing : Dict ClosingSession
  pub pending : ℕ → PendingCreation
  pub next_pending : ℕ
  pub creations : Dict ℕ
  pub closed : Bool

abbrev pub blank : Session
blank = record {
  session_id = "";
  context = 0;
  ttl_seconds = none;
  created_at = 0;
  last_used_at = 0;
  locked = false;
  in_use = 0;
}

-- `SessionManager.__init__`
abbrev pub new_manager : ℕ → ℕ → Manager
new_manager max_sessions default_ttl_seconds = record {
  max_sessions = max_sessions;
  default_ttl_seconds = default_ttl_seconds;
  heap = λ i. blank;
  next_session = 0;
  next_task = 0;
  sessions = [];
  closing = [];
  pending = λ i. record { builders = 0; settled = false };
  next_pending = 0;
  creations = [];
  closed = false;
}

-- `Session.expired`, on a clock of whole seconds.
unfoldable pub is_expired : ℕ → Session → Bool
is_expired now s = elim s.ttl_seconds [ none ↦ false | some ttl ↦ leb (s.created_at + ttl) now ]

abbrev pub write_session : ℕ → (Session → Session) → Manager → Manager
write_session i f m = record m { heap = λ j. if i == j then f (m.heap j) else m.heap j }

abbrev pub write_pending : ℕ → (PendingCreation → PendingCreation) → Manager → Manager
write_pending i f m = record m { pending = λ j. if i == j then f (m.pending j) else m.pending j }

unfoldable pub mark_in_use : ℕ → Manager → Manager
mark_in_use i m = write_session i (λ s. record s { in_use = s.in_use + 1 }) m

unfoldable pub mark_released : ℕ → Manager → Result (Unit {0}) × Manager
mark_released i m =
    if (m.heap i).in_use == 0
    then (err in_use_underflow, m)
    else (ok tt, write_session i (λ s. record s { in_use = s.in_use - 1 }) m)

-- `_start_closing_unlocked`: the entry of the session's id, new or present.
unfoldable pub start_closing : ℕ → CloseReason → Manager → Manager
start_closing i reason m = elim (find (m.heap i).session_id m.closing) [
  | some present ↦ m
  | none ↦ record m {
    closing =
        put (m.heap i).session_id (record { session = i; task = m.next_task; reason = reason })
          m.closing;
    next_task = suc m.next_task;
  }
]

-- `pending.settled.set()`, if the id has a pending creation.
unfoldable pub settle_creation : String → Manager → Manager
settle_creation id m = elim (find id m.creations) [
  | none ↦ m
  | some i ↦ write_pending i (λ p. record p { settled = true }) m
]

abbrev pub ttl_or : ℕ → Option ℕ → ℕ
ttl_or n none = n
ttl_or n (some ttl) = ttl

abbrev pub new_session : String → ℕ → Option ℕ → ℕ → Manager → Session
new_session id context ttl now m = record {
  session_id = id;
  context = context;
  ttl_seconds = some (ttl_or m.default_ttl_seconds ttl);
  created_at = now;
  last_used_at = now;
  locked = false;
  in_use = 0;
}

-- The insertion at the end of `register_or_get`.
unfoldable pub register : String → ℕ → Option ℕ → ℕ → Manager → Manager
unfolding settle_creation
register id context ttl now m = settle_creation id (
    write_session m.next_session (λ _. new_session id context ttl now m)
      (record m { sessions = put id m.next_session m.sessions; next_session = suc m.next_session }))

-- The tests of `register_or_get` in order: the session and whether it is new.
unfoldable pub register_or_get : String → ℕ → Option ℕ → ℕ → Manager → Result (ℕ × Bool) × Manager
unfolding register
register_or_get id context ttl now m =
    if m.closed then (err manager_closed, m) else elim (find id m.sessions) [
      | some existing ↦ (ok (existing, false), m)
      | none ↦ elim (find id m.closing) [
        | some reserved ↦ (err session_unavailable, m)
        | none ↦
            if leb m.max_sessions (size m.sessions + size m.closing)
            then (err session_capacity, m)
            else (ok (m.next_session, true), register id context ttl now m)
      ]
    ]

abbrev pub only_new : Result (ℕ × Bool) × Manager → Result ℕ × Manager
only_new (ok (session, true), m) = (ok session, m)
only_new (ok (session, false), m) = (err already_exists, m)
only_new (err x, m) = (err x, m)

unfoldable pub register_existing : String → ℕ → Option ℕ → ℕ → Manager → Result ℕ × Manager
unfolding register_or_get
register_existing id context ttl now m = only_new (register_or_get id context ttl now m)
