-- ===== src/Sessions/Untouched.antt =====
-- camouflare/sessions.py: the operations that leave the registry and the tombstones alone.
use camouflare.Prelude.{
  if◌then◌else◌, ◌-◌, ◌==◌, cases-holds, if-holds, ℕ, String, Bool, true, [], ◌≡◌, refl, sym, subst,
  arith, ◌+◌,
}
use camouflare.Prelude.Dict.{drop_key, Dict, find, Unique}
use camouflare.Sessions.Registry.{IsRegistry-nil, IsRegistry}
use camouflare.Sessions.State.{
  Session, PendingCreation, Manager, Result, write_pending, write_session, settle_creation,
  mark_in_use, mark_released,
}
use camouflare.Sessions.Creation.{enter_creating, exit_creating, forget_creation}
use camouflare.Sessions.Removal.{set_locked}

-- `q` has the registry, the tombstones and the session ids of `p`.
pub record SameRegistry (p q : Manager) : Type 0 where
  pub sessions : q.sessions ≡ p.sessions
  pub closing : q.closing ≡ p.closing
  pub ids : (i : ℕ) → (q.heap i).session_id ≡ (p.heap i).session_id
  pub next_session : q.next_session ≡ p.next_session
  pub next_task : q.next_task ≡ p.next_task
  pub max_sessions : q.max_sessions ≡ p.max_sessions

pub SameRegistry-refl : (m : Manager) → SameRegistry m m
SameRegistry-refl m = record {
  sessions = refl;
  closing = refl;
  ids = λ i. refl;
  next_session = refl;
  next_task = refl;
  max_sessions = refl;
}

pub SameRegistry-IsRegistry : (p q : Manager) → SameRegistry p q → IsRegistry [] p → IsRegistry [] q
SameRegistry-IsRegistry p q s h =
    IsRegistry-nil q (subst Unique (sym s.sessions) h.unique)
      (subst Unique (sym s.closing) h.closing_unique)
      (λ id i f. ground (arith, h.keyed id i, s.sessions, s.ids i, s.next_session, f))
      (λ id c f.
        ground
          (arith, h.closing_keyed id c, s.closing, s.ids c.session, s.next_session, s.next_task, f))
      (λ id i f. ground (arith, h.apart id i, s.sessions, s.closing, f))
      (ground (arith, h.within, s.sessions, s.closing, s.max_sessions))

-- The counts of the pending creations stand beside the registry.
bookkeeping :
    (pending : ℕ → PendingCreation) (next_pending : ℕ) (creations : Dict ℕ) (m : Manager)
    → SameRegistry m
        (record m { pending = pending; next_pending = next_pending; creations = creations })
bookkeeping pending next_pending creations m = record {
  sessions = refl;
  closing = refl;
  ids = λ i. refl;
  next_session = refl;
  next_task = refl;
  max_sessions = refl;
}

pub settle_creation-SameRegistry :
    (id : String) (m : Manager) → SameRegistry m (settle_creation id m)
unfolding settle_creation
settle_creation-SameRegistry id m =
    cases-holds (SameRegistry m) (find id m.creations) m
      (λ i. write_pending i (λ p. record p { settled = true }) m) (λ _. SameRegistry-refl m)
      (λ i _. bookkeeping _ _ _ m)

write_session-SameRegistry :
    (i : ℕ) (f : Session → Session) (m : Manager)
    → ((s : Session) → (f s).session_id ≡ s.session_id)
    → SameRegistry m (write_session i f m)
write_session-SameRegistry i f m h = record {
  sessions = refl;
  closing = refl;
  ids = λ j. ground (arith, h (m.heap j));
  next_session = refl;
  next_task = refl;
  max_sessions = refl;
}

pub mark_in_use-SameRegistry : (i : ℕ) (m : Manager) → SameRegistry m (mark_in_use i m)
unfolding mark_in_use
mark_in_use-SameRegistry i m =
    write_session-SameRegistry i (λ s. record s { in_use = s.in_use + 1 }) m (λ s. refl)

pub mark_released-SameRegistry : (i : ℕ) (m : Manager) → SameRegistry m (mark_released i m).1
unfolding mark_released
mark_released-SameRegistry i m =
    if-holds (λ (o : Result (Unit {0}) × Manager). SameRegistry m o.1) ((m.heap i).in_use == 0) _ _
      (λ _. SameRegistry-refl m)
      (λ _. write_session-SameRegistry i (λ s. record s { in_use = s.in_use - 1 }) m (λ s. refl))

pub set_locked-SameRegistry : (i : ℕ) (b : Bool) (m : Manager) → SameRegistry m (set_locked i b m)
unfolding set_locked
set_locked-SameRegistry i b m =
    write_session-SameRegistry i (λ s. record s { locked = b }) m (λ s. refl)

pub enter_creating-SameRegistry :
    (id : String) (m : Manager) → SameRegistry m (enter_creating id m).1
unfolding enter_creating
enter_creating-SameRegistry id m =
    cases-holds (λ (o : ℕ × Manager). SameRegistry m o.1) (find id m.creations) _
      (λ i. (i, write_pending i (λ p. record p { builders = p.builders + 1 }) m))
      (λ _. bookkeeping _ _ _ m) (λ i _. bookkeeping _ _ _ m)

forget_creation-SameRegistry :
    (id : String) (i : ℕ) (m : Manager) → SameRegistry m (forget_creation id i m)
forget_creation-SameRegistry id i m =
    cases-holds (SameRegistry m) (find id m.creations) m
      (λ j. if j == i then record m { creations = drop_key id m.creations } else m)
      (λ _. SameRegistry-refl m)
      λ j _.
        if-holds (SameRegistry m) (j == i) _ _ (λ _. bookkeeping _ _ _ m) (λ _. SameRegistry-refl m)

pub exit_creating-SameRegistry :
    (id : String) (i : ℕ) (m : Manager) → SameRegistry m (exit_creating id i m)
unfolding exit_creating
exit_creating-SameRegistry id i m =
    if-holds (SameRegistry m) ((m.pending i).builders - 1 == 0) _ _
      (λ _.
        let s = forget_creation-SameRegistry id i m in
        record {
          sessions = s.sessions;
          closing = s.closing;
          ids = s.ids;
          next_session = s.next_session;
          next_task = s.next_task;
          max_sessions = s.max_sessions;
        })
      (λ _. bookkeeping _ _ _ m)
