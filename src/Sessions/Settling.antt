-- ===== src/Sessions/Settling.antt =====
-- camouflare/sessions.py: the operations that leave the pending creations alone, or set their events.
use camouflare.Sessions.Schedules.{
  step, locks, exits, closing_ends, closes, enters, destroys, prunes, evicts, marks_released,
  marks_in_use, registers_new, registers, Action,
}
use camouflare.Prelude.{
  ℕ, String, Bool, true, [], ◌∷◌, Option, ◌≡◌, refl, ◌∙◌, subst, sym, arith, ◌==◌, leb, ◌+◌,
  if-holds, cases-holds,
}
use text.Mathlib.Text.{◌==◌ as str_eq}
use camouflare.Prelude.Dict.{Dict, find, drop_key, size}
use camouflare.Sessions.State.{
  CloseReason, expired, error, destroyed, ClosingSession, Session, Manager, Result, write_pending,
  mark_in_use, mark_released, start_closing, settle_creation, register, register_or_get,
  register_existing,
}
use camouflare.Sessions.Removal.{
  prunable, pop_all, start_all, prune_expired, evict_if_current, destroy, close, closing_done,
  set_locked,
}
use camouflare.Sessions.Invariant.{only_new-manager}

-- `q` has the pending creations of `p`, with their builders, and each event that is set in `p`.
pub record Settles (p q : Manager) : Type 0 where
  pub creations : q.creations ≡ p.creations
  pub next_pending : q.next_pending ≡ p.next_pending
  pub builders : (i : ℕ) → (q.pending i).builders ≡ (p.pending i).builders
  pub settled : (i : ℕ) → (p.pending i).settled ≡ true → (q.pending i).settled ≡ true

-- Only the registry, the tombstones and the session objects differ.
beside :
    (heap : ℕ → Session) (n t : ℕ) (sessions : Dict ℕ) (closing : Dict ClosingSession) (b : Bool)
    (m : Manager)
    → Settles m (record m {
      heap = heap;
      next_session = n;
      next_task = t;
      sessions = sessions;
      closing = closing;
      closed = b;
    })
beside heap n t sessions closing b m = record {
  creations = refl;
  next_pending = refl;
  builders = λ i. refl;
  settled = λ i h. h;
}

same : (m : Manager) → Settles m m
same m = beside m.heap m.next_session m.next_task m.sessions m.closing m.closed m

pub Settles-trans : (p q r : Manager) → Settles p q → Settles q r → Settles p r
Settles-trans p q r h k = record {
  creations = k.creations ∙ h.creations;
  next_pending = k.next_pending ∙ h.next_pending;
  builders = λ i. k.builders i ∙ h.builders i;
  settled = λ i s. k.settled i (h.settled i s);
}

start_closing-Settles :
    (i : ℕ) (reason : CloseReason) (m : Manager) → Settles m (start_closing i reason m)
unfolding start_closing
start_closing-Settles i reason m =
    cases-holds (Settles m) (find (m.heap i).session_id m.closing) _ (λ _. m)
      (λ _. beside _ _ _ _ _ _ m) (λ _ _. same m)

start_all-Settles :
    (reason : CloseReason) (xs : Dict ℕ) (m : Manager) → Settles m (start_all reason xs m)
unfolding start_all
start_all-Settles reason [] m = same m
start_all-Settles reason ((id, i) ∷ rest) m =
    Settles-trans m (start_closing i reason m) _ (start_closing-Settles i reason m)
      (start_all-Settles reason rest (start_closing i reason m))

pop_all-Settles : (xs : Dict ℕ) (m : Manager) → Settles m (pop_all xs m)
unfolding pop_all
pop_all-Settles [] m = same m
pop_all-Settles ((id, i) ∷ rest) m =
    Settles-trans m _ _ (beside m.heap m.next_session m.next_task _ m.closing m.closed m)
      (pop_all-Settles rest (record m { sessions = drop_key id m.sessions }))

pub settle_creation-Settles : (id : String) (m : Manager) → Settles m (settle_creation id m)
unfolding settle_creation
settle_creation-Settles id m =
    cases-holds (Settles m) (find id m.creations) m
      (λ i. write_pending i (λ p. record p { settled = true }) m) (λ _. same m)
      (λ i _. record {
        creations = refl;
        next_pending = refl;
        builders = λ j. ground arith;
        settled = λ j h. ground (arith, h);
      })

register_or_get-Settles :
    (id : String) (context : ℕ) (ttl : Option ℕ) (now : ℕ) (m : Manager)
    → Settles m (register_or_get id context ttl now m).1
unfolding register_or_get register
register_or_get-Settles id context ttl now m =
    let P : Result (ℕ × Bool) × Manager → Type 0 = λ o. Settles m o.1 in
    if-holds P m.closed _ _ (λ _. same m)
      λ _.
        cases-holds P (find id m.sessions) _ _
          (λ _.
            cases-holds P (find id m.closing) _ _
              (λ _.
                if-holds P (leb m.max_sessions (size m.sessions + size m.closing)) _ _ (λ _. same m)
                  λ _.
                    Settles-trans m _ _ (beside _ _ m.next_task _ m.closing m.closed m)
                      (settle_creation-Settles id _))
              λ c _. same m)
          λ i _. same m

register_existing-Settles :
    (id : String) (context : ℕ) (ttl : Option ℕ) (now : ℕ) (m : Manager)
    → Settles m (register_existing id context ttl now m).1
unfolding register_existing
register_existing-Settles id context ttl now m =
    subst (Settles m) (sym (only_new-manager (register_or_get id context ttl now m)))
      (register_or_get-Settles id context ttl now m)

prune_expired-Settles :
    (now : ℕ) (exclude : Option String) (m : Manager) → Settles m (prune_expired now exclude m).1
unfolding prune_expired
prune_expired-Settles now exclude m =
    if-holds (λ (o : Dict ℕ × Manager). Settles m o.1) m.closed _ _ (λ _. same m)
      (λ _.
        let gone = prunable now exclude m m.sessions in
        Settles-trans m (pop_all gone m) _ (pop_all-Settles gone m)
          (start_all-Settles expired gone (pop_all gone m)))

-- A session leaves the registry.
leave-Settles :
    (i : ℕ) (reason : CloseReason) (sessions : Dict ℕ) (m : Manager)
    → Settles m (start_closing i reason (record m { sessions = sessions }))
leave-Settles i reason sessions m =
    Settles-trans m _ _ (beside m.heap m.next_session m.next_task sessions m.closing m.closed m)
      (start_closing-Settles i reason (record m { sessions = sessions }))

evict_if_current-Settles : (i : ℕ) (m : Manager) → Settles m (evict_if_current i m).1
unfolding evict_if_current
evict_if_current-Settles i m =
    let P : Bool × Manager → Type 0 = λ o. Settles m o.1 in
    cases-holds P (find (m.heap i).session_id m.sessions) _ _ (λ _. same m)
      λ current _. if-holds P (current == i) _ _ (λ _. leave-Settles i error _ m) (λ _. same m)

destroy-Settles : (id : String) (m : Manager) → Settles m (destroy id m).1
unfolding destroy
destroy-Settles id m =
    let P : Option ClosingSession × Manager → Type 0 = λ o. Settles m o.1 in
    if-holds P (str_eq id "") _ _ (λ _. same m)
      λ _.
        cases-holds P (find id m.sessions) _ _ (λ _. same m) (λ i _. leave-Settles i destroyed _ m)

close-Settles : (m : Manager) → Settles m (close m)
unfolding close
close-Settles m =
    Settles-trans m _ _ (beside m.heap m.next_session m.next_task [] m.closing true m)
      (start_all-Settles destroyed m.sessions (record m { closed = true; sessions = [] }))

closing_done-Settles : (id : String) (task : ℕ) (m : Manager) → Settles m (closing_done id task m)
unfolding closing_done
closing_done-Settles id task m =
    cases-holds (Settles m) (find id m.closing) m _ (λ _. same m)
      λ c _. if-holds (Settles m) (c.task == task) _ _ (λ _. beside _ _ _ _ _ _ m) (λ _. same m)

mark_released-Settles : (i : ℕ) (m : Manager) → Settles m (mark_released i m).1
unfolding mark_released
mark_released-Settles i m =
    if-holds (λ (o : Result (Unit {0}) × Manager). Settles m o.1) ((m.heap i).in_use == 0) _ _
      (λ _. same m) (λ _. beside _ m.next_session m.next_task m.sessions m.closing m.closed m)

-- All actions but those of the builders.
abbrev pub IsOther : Action → Type 0
IsOther (enters id) = ⊥
IsOther (exits id i) = ⊥
IsOther _ = Unit

pub step-Settles : (a : Action) (m : Manager) → IsOther a → Settles m (step a m)
unfolding step mark_in_use set_locked
step-Settles (registers id context ttl now) m o = register_or_get-Settles id context ttl now m
step-Settles (registers_new id context ttl now) m o = register_existing-Settles id context ttl now m
step-Settles (marks_in_use i) m o =
    beside _ m.next_session m.next_task m.sessions m.closing m.closed m
step-Settles (marks_released i) m o = mark_released-Settles i m
step-Settles (evicts i) m o = evict_if_current-Settles i m
step-Settles (prunes now exclude) m o = prune_expired-Settles now exclude m
step-Settles (destroys id) m o = destroy-Settles id m
step-Settles (enters id) m o = absurd o
step-Settles closes m o = close-Settles m
step-Settles (closing_ends id task) m o = closing_done-Settles id task m
step-Settles (exits id i) m o = absurd o
step-Settles (locks i b) m o = beside _ m.next_session m.next_task m.sessions m.closing m.closed m
