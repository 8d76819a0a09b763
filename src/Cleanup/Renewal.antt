-- ===== src/Cleanup/Renewal.antt =====
-- camouflare/cleanup.py: a group that gets a task or a hold gives a new event to those who wait next.
use camouflare.Prelude.{
  ◌∷◌, [], if◌then◌else◌, ◌+◌, List, add_new, if-holds, cases-holds, contains, ℕ, suc, true, false,
  some, ◌==◌, ◌≡◌, refl, arith,
}
use camouflare.Cleanup.State.{Supervisor, assign}
use camouflare.Cleanup.Groups.{is_empty, hold_group, add_task_to_group, renew_event, is_busy}
use camouflare.Cleanup.Events.{
  AreTuned, IsAwaited, Follows, AreTunedBut, AreTunedBut-AreTuned, AreTuned-AreTunedBut,
}

-- The renewal of a group's event leaves the counts alone, and the event unset.
pub record Renewed (g : ℕ) (s q : Supervisor) : Type 0 where
  pub tasks : q.group_tasks ≡ s.group_tasks
  pub holds : q.group_holds ≡ s.group_holds
  pub but : AreTunedBut g q
  pub unset : (v : ℕ) → q.group_events g ≡ some v → q.event_is_set v ≡ false
  pub awaited : (k v : ℕ) → IsAwaited k v s → IsAwaited k v q

-- The supervisor in which a group has a new event.
abbrev pub renewed : ℕ → Supervisor → Supervisor
renewed g s = record s {
  group_events = assign g (some s.next_event) s.group_events;
  event_is_set = assign s.next_event false s.event_is_set;
  next_event = suc s.next_event;
}

pub renewed-Renewed :
    (g : ℕ) (s : Supervisor)
    → AreTuned s
    → ((w : ℕ) → s.group_events g ≡ some w → s.event_is_set w ≡ true)
    → Renewed g s (renewed g s)
unfolding is_busy
renewed-Renewed g s h was_set = record {
  tasks = refl;
  holds = refl;
  but = record {
    known = λ k w f. ground (arith, f, h.known k w);
    single = λ k j w f e. ground (arith, f, e, h.known k w, h.known j w, h.single k j w);
    tuned = λ k w other f. ground (arith, f, other, h.known k w, h.tuned k w);
  };
  unset = λ w f. ground (arith, f);
  awaited = λ k w a. record {
    known = ground (arith, a.known);
    reachable = ground (arith, a.known, a.reachable, was_set w);
  };
}

unchanged-Renewed :
    (g : ℕ) (s : Supervisor)
    → AreTuned s
    → ((w : ℕ) → s.group_events g ≡ some w → s.event_is_set w ≡ false)
    → Renewed g s s
unchanged-Renewed g s h unset = record {
  tasks = refl;
  holds = refl;
  but = AreTuned-AreTunedBut g s h;
  unset = unset;
  awaited = λ k w a. a;
}

renew_event-Renewed : (g : ℕ) (s : Supervisor) → AreTuned s → Renewed g s (renew_event g s)
unfolding renew_event
renew_event-Renewed g s h =
    cases-holds (Renewed g s) (s.group_events g) s
      (λ v. if s.event_is_set v then renewed g s else s)
      (λ absent. unchanged-Renewed g s h (λ w f. absurd (ground (arith, absent, f))))
      λ v present.
        if-holds (Renewed g s) (s.event_is_set v) (renewed g s) s
          (λ set. renewed-Renewed g s h (λ w f. ground (arith, present, f, set)))
          (λ unset. unchanged-Renewed g s h (λ w f. ground (arith, present, f, unset)))

-- A group that becomes, or stays, busy after the renewal.
pub occupied-Follows :
    (g : ℕ) (s q : Supervisor) (t : ℕ → List ℕ) (h : ℕ → ℕ)
    → Renewed g s q
    → let r = record q { group_tasks = t; group_holds = h } in
      ((k : ℕ) → (g == k) ≡ false → is_busy k r ≡ is_busy k q) → is_busy g r ≡ true → Follows s r
occupied-Follows g s q t h renew same busy = record {
  tuned =
      AreTunedBut-AreTuned g _
        (record {
          known = renew.but.known;
          single = renew.but.single;
          tuned = λ k v other f. ground (arith, renew.but.tuned k v other f, same k other);
        })
        (λ v f. ground (arith, renew.unset v f, busy));
  awaited =
      λ k v w. let a = renew.awaited k v w in record { known = a.known; reachable = a.reachable };
}

add_new-nonempty : (a : ℕ) (xs : List ℕ) → is_empty (add_new a xs) ≡ false
unfolding add_new contains
add_new-nonempty a [] = refl
add_new-nonempty a (x ∷ xs) = ground arith

pub add_task_to_group-Follows :
    (g task : ℕ) (s : Supervisor) → AreTuned s → Follows s (add_task_to_group g task s)
unfolding add_task_to_group is_busy
add_task_to_group-Follows g task s h =
    let q = renew_event g s in
    occupied-Follows g s q (assign g (add_new task (q.group_tasks g)) q.group_tasks) q.group_holds
      (renew_event-Renewed g s h) (λ k other. ground (arith, other))
      (ground (arith, add_new-nonempty task (q.group_tasks g)))

pub hold_group-Follows : (g : ℕ) (s : Supervisor) → AreTuned s → Follows s (hold_group g s)
unfolding hold_group is_busy
hold_group-Follows g s h =
    let q = renew_event g s in
    occupied-Follows g s q q.group_tasks (assign g (q.group_holds g + 1) q.group_holds)
      (renew_event-Renewed g s h) (λ k other. ground (arith, other)) (ground arith)
