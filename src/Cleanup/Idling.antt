-- ===== src/Cleanup/Idling.antt =====
-- camouflare/cleanup.py: a group that loses its last task or hold sets its event; the loops over groups.
use camouflare.Prelude.{
  ℕ, ◌-◌, true, false, List, [], ◌∷◌, some, remove, ◌==◌, ◌≡◌, subst, arith, Bool-cases, if-holds,
  cases-holds, inl, inr,
}
use camouflare.Cleanup.State.{
  CleanupScope, ownership_groups, Outcome, returned, raised, Supervisor, assign,
}
use camouflare.Cleanup.Groups.{
  is_empty, is_busy, hold_group, finish_group_if_idle, group_task_finished, release_scope_hold,
  each_group, retain_scope, release_hold,
}
use camouflare.Cleanup.Events.{
  AreTuned, IsAwaited, Follows, Follows-refl, Follows-trans, AreTunedBut, AreTunedBut-AreTuned,
}
use camouflare.Cleanup.Renewal.{hold_group-Follows}

-- The supervisor in which an event has been set.
abbrev set_event : ℕ → Supervisor → Supervisor
set_event v s = record s { event_is_set = assign v true s.event_is_set }

set_event-AreTuned :
    (g v : ℕ) (s : Supervisor)
    → AreTunedBut g s
    → s.group_events g ≡ some v
    → is_busy g s ≡ false
    → AreTuned (set_event v s)
unfolding is_busy
set_event-AreTuned g v s h at idle =
    AreTunedBut-AreTuned g _
      (record {
        known = h.known;
        single = h.single;
        tuned = λ k w other f. ground (arith, h.tuned k w other f, h.single g k v at, f, other);
      })
      (λ w f. ground (arith, at, f, idle))

-- The last step of a group that may have become idle: its event, unset while it was busy, is set.
finish_group_if_idle-AreTuned :
    (g : ℕ) (s : Supervisor)
    → AreTunedBut g s
    → ((v : ℕ) → s.group_events g ≡ some v → s.event_is_set v ≡ false)
    → AreTuned (finish_group_if_idle g s)
unfolding finish_group_if_idle
finish_group_if_idle-AreTuned g s h unset =
    if-holds AreTuned (is_busy g s) s _
      (λ busy. AreTunedBut-AreTuned g s h (λ v f. ground (arith, unset v f, busy)))
      λ idle.
        cases-holds AreTuned (s.group_events g) s (λ v. set_event v s)
          (λ absent. AreTunedBut-AreTuned g s h (λ v f. absurd (ground (arith, absent, f))))
          λ v present. set_event-AreTuned g v s h present idle

finish_group_if_idle-IsAwaited :
    (g k v : ℕ) (s : Supervisor) → IsAwaited k v s → IsAwaited k v (finish_group_if_idle g s)
unfolding finish_group_if_idle
finish_group_if_idle-IsAwaited g k v s a =
    if-holds (IsAwaited k v) (is_busy g s) s _ (λ _. a)
      λ _.
        cases-holds (IsAwaited k v) (s.group_events g) s (λ w. set_event w s) (λ _. a)
          λ w _. record { known = a.known; reachable = ground (arith, a.reachable) }

-- A busy group loses a task or a hold, and `finish_group_if_idle` follows.
vacated-Follows :
    (g : ℕ) (s : Supervisor) (t : ℕ → List ℕ) (h : ℕ → ℕ)
    → AreTuned s
    → is_busy g s ≡ true
    → let r = record s { group_tasks = t; group_holds = h } in
      ((k : ℕ) → (g == k) ≡ false → is_busy k r ≡ is_busy k s)
      → Follows s (finish_group_if_idle g r)
vacated-Follows g s t h tuned busy same = record {
  tuned =
      finish_group_if_idle-AreTuned g _
        (record {
          known = tuned.known;
          single = tuned.single;
          tuned = λ k v other f. ground (arith, tuned.tuned k v f, same k other);
        })
        (λ v f. ground (arith, tuned.tuned g v f, busy));
  awaited = λ k v a.
      finish_group_if_idle-IsAwaited g k v _ (record { known = a.known; reachable = a.reachable });
}

-- A group that stays busy needs no step.
still_busy-Follows :
    (g : ℕ) (s : Supervisor) (t : ℕ → List ℕ)
    → AreTuned s
    → let r = record s { group_tasks = t } in ((k : ℕ) → is_busy k r ≡ is_busy k s) → Follows s r
still_busy-Follows g s t tuned same = record {
  tuned = record {
    known = tuned.known;
    single = tuned.single;
    tuned = λ k v f. ground (arith, tuned.tuned k v f, same k);
  };
  awaited = λ k v a. record { known = a.known; reachable = a.reachable };
}

pub group_task_finished-Follows :
    (task g : ℕ) (s : Supervisor) → AreTuned s → Follows s (group_task_finished task g s)
unfolding group_task_finished is_busy
group_task_finished-Follows task g s h =
    let t = assign g (remove task (s.group_tasks g)) s.group_tasks in
    if-holds (Follows s) (is_empty (s.group_tasks g)) s _ (λ _. Follows-refl s h)
      λ has_tasks.
        if-holds (Follows s) (is_empty (t g))
          (finish_group_if_idle g (record s { group_tasks = t })) _
          (λ _.
            vacated-Follows g s t s.group_holds h (ground (arith, has_tasks))
              (λ k other. ground (arith, other)))
          (λ left. still_busy-Follows g s t h (λ k. elim (Bool-cases (g == k)) [
            | inl same ↦
                let e : g ≡ k = ground (arith, same) in
                subst (λ x. is_busy x (record s { group_tasks = t }) ≡ is_busy x s) e
                  (ground (arith, left, has_tasks))
            | inr other ↦ ground (arith, other)
          ]))

pub release_scope_hold-Follows :
    (g : ℕ) (s : Supervisor) → AreTuned s → Follows s (release_scope_hold g s).1
unfolding release_scope_hold is_busy
release_scope_hold-Follows g s h =
    if-holds (λ (o : Outcome (Unit {0}) × Supervisor). Follows s o.1) (s.group_holds g == 0) _ _
      (λ _. Follows-refl s h)
      λ held.
        vacated-Follows g s s.group_tasks (assign g (s.group_holds g - 1) s.group_holds) h
          (ground (arith, held)) (λ k other. ground (arith, other))

-- The loops over groups.
pub each_group-Follows :
    (f : ℕ → Supervisor → Supervisor) (gs : List ℕ) (s : Supervisor)
    → ((g : ℕ) (q : Supervisor) → AreTuned q → Follows q (f g q))
    → AreTuned s
    → Follows s (each_group f gs s)
unfolding each_group
each_group-Follows f [] s k h = Follows-refl s h
each_group-Follows f (g ∷ gs) s k h =
    let first = k g s h in Follows-trans first (each_group-Follows f gs (f g s) k first.tuned)

pub retain_scope-Follows :
    (scope : CleanupScope) (s : Supervisor) → AreTuned s → Follows s (retain_scope scope s)
unfolding retain_scope
retain_scope-Follows scope s h =
    each_group-Follows hold_group (ownership_groups scope) s hold_group-Follows h

outcome-Follows :
    (s : Supervisor) (later : Supervisor → Outcome (Unit {0}) × Supervisor)
    → ((q : Supervisor) → AreTuned q → Follows q (later q).1)
    → (o : Outcome (Unit {0}) × Supervisor) → Follows s o.1
    → Follows s
        (elim o.0 as (λ _. Outcome (Unit {0}) × Supervisor) [
          | raised x ↦ (raised x, o.1)
          | returned _ ↦ later o.1
        ]).1
outcome-Follows s later k (raised x, q) f = f
outcome-Follows s later k (returned _, q) f = Follows-trans f (k q f.tuned)

pub release_hold-Follows :
    (gs : List ℕ) (s : Supervisor) → AreTuned s → Follows s (release_hold gs s).1
unfolding release_hold
release_hold-Follows [] s h = Follows-refl s h
release_hold-Follows (g ∷ gs) s h =
    outcome-Follows s (release_hold gs) (release_hold-Follows gs) (release_scope_hold g s)
      (release_scope_hold-Follows g s h)
