-- ===== src/Cleanup/Wakeups.antt =====
-- camouflare/cleanup.py: `wait_for_group` loses no wakeup.
use camouflare.Cleanup.Renewal.{occupied-Follows, renewed-Renewed, renewed}
use camouflare.Prelude.{
  suc, zero, inr, inl, ℕ, true, false, List, [], ◌∷◌, Option, none, some, if◌then◌else◌, ◌==◌, ◌≡◌,
  refl, arith, if-holds, cases-holds, subst,
}
use camouflare.Cleanup.State.{Supervisor, assign}
use camouflare.Cleanup.Groups.{is_busy, wait_for_group, forget_event}
use camouflare.Cleanup.Events.{AreTuned, IsAwaited, Follows, Follows-refl, Follows-trans}
use camouflare.Cleanup.Tracking.{elsewhere, deadline_expired-Follows}
use camouflare.Cleanup.Idling.{retain_scope-Follows, release_hold-Follows}
use camouflare.Cleanup.Operations.{
  track-Follows, task_finished-Follows, begin_run-Follows, end_run-Follows, begin_close-Follows,
  close_round-Follows, close_deadline-Follows,
}
use camouflare.Cleanup.World.{
  World, Action, tracks, begins_run, ends_run, ends, expires, retains, gives_back, begins_close,
  closes_round, closes_deadline, waits, wakes, nth, drop_nth, await_event, turn, wake, step, run,
  new_world,
}

abbrev AllAwaited : List (ℕ × ℕ) → Supervisor → Type 0
AllAwaited [] s = Unit
AllAwaited ((g, v) ∷ rest) s = IsAwaited g v s × AllAwaited rest s

-- The events are tuned, and everyone who waits will be woken.
record IsLive (w : World) : Type 0 where
  pub tuned : AreTuned w.supervisor
  pub all : AllAwaited w.waiters w.supervisor

AllAwaited-Follows :
    (ws : List (ℕ × ℕ)) {s q : Supervisor} → Follows s q → AllAwaited ws s → AllAwaited ws q
AllAwaited-Follows [] f a = tt
AllAwaited-Follows ((g, v) ∷ ws) f a = (f.awaited g v a.0, AllAwaited-Follows ws f a.1)

AllAwaited-drop :
    (n : ℕ) (ws : List (ℕ × ℕ)) (s : Supervisor) → AllAwaited ws s → AllAwaited (drop_nth n ws) s
unfolding drop_nth
AllAwaited-drop n [] s a = tt
AllAwaited-drop zero (w ∷ ws) s a = a.1
AllAwaited-drop (suc n) (w ∷ ws) s a = (a.0, AllAwaited-drop n ws s a.1)

Follows-IsLive :
    (w : World) (q : Supervisor)
    → IsLive w
    → Follows w.supervisor q
    → IsLive (record w { supervisor = q })
Follows-IsLive w q h f = record { tuned = f.tuned; all = AllAwaited-Follows w.waiters f h.all }

-- A turn of the loop on a busy group without an event makes one.
fresh-Follows :
    (g : ℕ) (s : Supervisor)
    → AreTuned s
    → s.group_events g ≡ none
    → is_busy g s ≡ true
    → Follows s (renewed g s)
unfolding is_busy
fresh-Follows g s h absent busy =
    occupied-Follows g s (renewed g s) s.group_tasks s.group_holds
      (renewed-Renewed g s h (λ w f. absurd (ground (arith, absent, f)))) (λ k other. refl) busy

turn-IsLive :
    (g : ℕ) (rest : List (ℕ × ℕ)) (s : Supervisor)
    → AreTuned s
    → AllAwaited rest s
    → IsLive (turn g rest s)
unfolding turn wait_for_group
turn-IsLive g rest s h a =
    let P : Option ℕ × Supervisor → Type 0 = λ o. IsLive (await_event g rest o) in
    if-holds P (is_busy g s) _ _
      (λ busy.
        cases-holds P (s.group_events g) (some s.next_event, renewed g s) (λ v. (some v, s))
          (λ absent.
            let f = fresh-Follows g s h absent busy in
            record {
              tuned = f.tuned;
              all = (
                record { known = omega arith; reachable = inr (ground arith) },
                AllAwaited-Follows rest f a,
              );
            })
          λ v present. record {
            tuned = h;
            all = (record { known = h.known g v present; reachable = inr present }, a);
          })
      (λ _. record { tuned = h; all = a })

-- Whoever wakes has a set event, so taking the event away from the group forgets no one.
forget_event-Follows :
    (g v : ℕ) (s : Supervisor)
    → AreTuned s
    → s.event_is_set v ≡ true
    → Follows s (forget_event g v s)
unfolding forget_event is_busy
forget_event-Follows g v s h set =
    cases-holds (Follows s) (s.group_events g) s
      (λ w. if w == v then record s { group_events = assign g none s.group_events } else s)
      (λ _. Follows-refl s h)
      λ w present.
        if-holds (Follows s) (w == v) _ s
          (λ same. record {
            tuned = record {
              known = λ k u f. ground (arith, f, h.known k u);
              single = λ k j u f e. ground (arith, f, e, h.single k j u);
              tuned = λ k u f. ground (arith, f, h.tuned k u);
            };
            awaited = λ k u a. record {
              known = a.known;
              reachable = ground (arith, a.reachable, present, same, set);
            };
          })
          (λ _. Follows-refl s h)

wake-IsLive : (n : ℕ) (w : World) (o : Option (ℕ × ℕ)) → IsLive w → IsLive (wake n w o)
wake-IsLive n w none h = h
wake-IsLive n w (some (g, v)) h =
    if-holds IsLive (w.supervisor.event_is_set v) _ w
      (λ set.
        let f = forget_event-Follows g v w.supervisor h.tuned set in
        turn-IsLive g (drop_nth n w.waiters) (forget_event g v w.supervisor) f.tuned
          (AllAwaited-drop n w.waiters _ (AllAwaited-Follows w.waiters f h.all)))
      (λ _. h)

step-IsLive : (a : Action) (w : World) → IsLive w → IsLive (step a w)
unfolding step
step-IsLive (tracks now current task kind timeout scope) w h =
    Follows-IsLive w _ h (track-Follows now current task kind timeout scope w.supervisor h.tuned)
step-IsLive (begins_run now current task kind timeout scope) w h =
    Follows-IsLive w _ h
      (begin_run-Follows now current task kind timeout scope w.supervisor h.tuned)
step-IsLive (ends_run done task) w h =
    Follows-IsLive w _ h (end_run-Follows done task w.supervisor h.tuned)
step-IsLive (ends task) w h =
    let s = w.supervisor in
    let first =
      elsewhere s.tasks s.deadline_handles s.timed_out s.run_waiters s.next_group
        s.shutdown_deadline (assign task true s.finished) s.cancelled s h.tuned in
    Follows-IsLive w _ h (Follows-trans first (task_finished-Follows task _ first.tuned))
step-IsLive (expires task) w h =
    Follows-IsLive w _ h (deadline_expired-Follows task w.supervisor h.tuned)
step-IsLive (retains scope) w h =
    Follows-IsLive w _ h (retain_scope-Follows scope w.supervisor h.tuned)
step-IsLive (gives_back groups) w h =
    Follows-IsLive w _ h (release_hold-Follows groups w.supervisor h.tuned)
step-IsLive (begins_close now timeout) w h =
    Follows-IsLive w _ h (begin_close-Follows now timeout w.supervisor h.tuned)
step-IsLive (closes_round now) w h =
    Follows-IsLive w _ h (close_round-Follows now w.supervisor h.tuned)
step-IsLive (closes_deadline now) w h =
    Follows-IsLive w _ h (close_deadline-Follows now w.supervisor h.tuned)
step-IsLive (waits g) w h = turn-IsLive g w.waiters w.supervisor h.tuned h.all
step-IsLive (wakes n) w h = wake-IsLive n w (nth n w.waiters) h

run-IsLive : (schedule : List Action) (w : World) → IsLive w → IsLive (run schedule w)
unfolding run
run-IsLive [] w h = h
run-IsLive (a ∷ rest) w h = run-IsLive rest (step a w) (step-IsLive a w h)

new_world-IsLive : (timeout : ℕ) → IsLive (new_world timeout)
new_world-IsLive timeout = record {
  tuned = record {
    known = λ g v f. absurd (ground (arith, f));
    single = λ g j v f e. absurd (ground (arith, f));
    tuned = λ g v f. absurd (ground (arith, f));
  };
  all = tt;
}

nth-IsAwaited :
    (n g v : ℕ) (ws : List (ℕ × ℕ)) (s : Supervisor)
    → nth n ws ≡ some (g, v)
    → AllAwaited ws s
    → IsAwaited g v s
unfolding nth
nth-IsAwaited n g v [] s f a = absurd (ground (arith, f))
nth-IsAwaited zero g v ((h, u) ∷ ws) s f a =
    let same_group : h ≡ g = ground (arith, f) in
    let same_event : u ≡ v = ground (arith, f) in
    subst (λ x. IsAwaited x v s) same_group (subst (λ x. IsAwaited h x s) same_event a.0)
nth-IsAwaited (suc n) g v (w ∷ ws) s f a = nth-IsAwaited n g v ws s f a.1

-- After any schedule, whoever waits for a group that has neither a running task nor a hold is woken:
-- the event awaited is set.
pub run-wakes :
    (timeout : ℕ) (schedule : List Action) (n g v : ℕ)
    → nth n (run schedule (new_world timeout)).waiters ≡ some (g, v)
    → is_busy g (run schedule (new_world timeout)).supervisor ≡ false
    → (run schedule (new_world timeout)).supervisor.event_is_set v ≡ true
run-wakes timeout schedule n g v waiting idle =
    let w = run schedule (new_world timeout) in
    let h = run-IsLive schedule (new_world timeout) (new_world-IsLive timeout) in
    let a = nth-IsAwaited n g v w.waiters w.supervisor waiting h.all in
    elim a.reachable [
      | inl set ↦ set
      | inr current ↦ ground (arith, h.tuned.tuned g v current, idle)
    ]
