-- ===== src/Cleanup/Events.antt =====
-- camouflare/cleanup.py: the event of a group is set exactly while the group is idle, and an event that
-- somebody waits for is set or still the event of its group.
use camouflare.Prelude.{
  ℕ, ◌<◌, true, false, not, some, ◌==◌, ◌≡◌, sym, subst, ◌⊎◌, inl, inr, arith, Bool-cases,
}
use camouflare.Cleanup.State.{Supervisor}
use camouflare.Cleanup.Groups.{is_busy}

pub record AreTuned (s : Supervisor) : Type 0 where
  pub known : (g v : ℕ) → s.group_events g ≡ some v → v < s.next_event
  pub single : (g h v : ℕ) → s.group_events g ≡ some v → s.group_events h ≡ some v → g ≡ h
  pub tuned : (g v : ℕ) → s.group_events g ≡ some v → s.event_is_set v ≡ not (is_busy g s)

-- Who waits for `v` on behalf of `g` will be woken: the event is set, or it is the group's.
pub record IsAwaited (g v : ℕ) (s : Supervisor) : Type 0 where
  pub known : v < s.next_event
  pub reachable : (s.event_is_set v ≡ true) ⊎ (s.group_events g ≡ some v)

-- `q` comes after `s`: its events are tuned, and no one who waits has been forgotten.
pub record Follows (s q : Supervisor) : Type 0 where
  pub tuned : AreTuned q
  pub awaited : (g v : ℕ) → IsAwaited g v s → IsAwaited g v q

pub Follows-refl : (s : Supervisor) → AreTuned s → Follows s s
Follows-refl s h = record { tuned = h; awaited = λ g v a. a }

pub Follows-trans : {s q t : Supervisor} → Follows s q → Follows q t → Follows s t
Follows-trans a b = record { tuned = b.tuned; awaited = λ g v w. b.awaited g v (a.awaited g v w) }

-- Tuned at every group but one.
pub record AreTunedBut (g : ℕ) (s : Supervisor) : Type 0 where
  pub known : (k v : ℕ) → s.group_events k ≡ some v → v < s.next_event
  pub single : (k j v : ℕ) → s.group_events k ≡ some v → s.group_events j ≡ some v → k ≡ j
  pub tuned :
      (k v : ℕ)
      → (g == k) ≡ false
      → s.group_events k ≡ some v
      → s.event_is_set v ≡ not (is_busy k s)

pub AreTunedBut-AreTuned :
    (g : ℕ) (s : Supervisor)
    → AreTunedBut g s
    → ((v : ℕ) → s.group_events g ≡ some v → s.event_is_set v ≡ not (is_busy g s))
    → AreTuned s
AreTunedBut-AreTuned g s h at = record {
  known = h.known;
  single = h.single;
  tuned = λ k v f. elim (Bool-cases (g == k)) [
    | inl same ↦
        let e : g ≡ k = ground (arith, same) in
        subst (λ x. s.event_is_set v ≡ not (is_busy x s)) e
          (at v (subst (λ x. s.group_events x ≡ some v) (sym e) f))
    | inr other ↦ h.tuned k v other f
  ];
}

pub AreTuned-AreTunedBut : (g : ℕ) (s : Supervisor) → AreTuned s → AreTunedBut g s
AreTuned-AreTunedBut g s h = record {
  known = h.known;
  single = h.single;
  tuned = λ k v _ f. h.tuned k v f;
}
