-- ===== src/Pool/Doomed.antt =====
-- camouflare/pool.py: a browser that has been retired for good stays so, and serves no one.
use camouflare.Prelude.{
  not, ◌⊎◌, ℕ, Bool, true, false, List, [], ◌∷◌, Option, none, some, contains, ◌&&◌, ◌≡◌, sym,
  subst, arith, inl, inr, Bool-cases,
}
use camouflare.Pool.State.{Reason, Slot, Env, Pool, modify, ◌>>=◌}
use camouflare.Pool.Recycle.{
  is_soft_reason, is_ready, is_retiring, retire, mark_retiring, start_close_task, schedule_close,
  healthy_slot_available, soft_retiring_slot_available,
}
use camouflare.Pool.Create.{create_slot, settle_close}
use camouflare.Pool.Acquire.{first_slot, choose_slot, or_else}
use camouflare.Pool.Tasks.{Event, perform}
use camouflare.Pool.Keeps.{Keeps}
use camouflare.Pool.Stable.{Stable, perform-Keeps}

-- A reason is given, and it is a hard one.
abbrev pub is_hard : Option Reason → Bool
is_hard none = false
is_hard (some r) = not (is_soft_reason r)

-- The slot is closing, or retiring for a reason other than its uses and its age.
pub record IsDoomed (i : ℕ) (p : Pool) : Type 0 where
  pub left : is_ready (p.heap i).state ≡ false
  pub hard : (is_retiring (p.heap i).state && not (is_hard (p.heap i).retire_reason)) ≡ false

mark_retiring-IsDoomed : (i j : ℕ) (r : Reason) → Keeps (IsDoomed i) (mark_retiring j r)
unfolding mark_retiring retire ◌>>=◌
mark_retiring-IsDoomed i j r = record {
  after = λ p h. record {
    left = ground (arith, h.left, h.hard);
    hard = ground (arith, h.left, h.hard);
  };
}

schedule_close-IsDoomed : (i j : ℕ) (r : Reason) → Keeps (IsDoomed i) (schedule_close j r)
unfolding schedule_close mark_retiring retire start_close_task ◌>>=◌
schedule_close-IsDoomed i j r = record {
  after = λ p h. record {
    left = ground (arith, h.left, h.hard);
    hard = ground (arith, h.left, h.hard);
  };
}

settle_close-IsDoomed :
    (i : ℕ) (e : Env) (j : ℕ) (b : Bool) → Keeps (IsDoomed i) (modify (settle_close e j b))
unfolding settle_close ◌>>=◌
settle_close-IsDoomed i e j b = record {
  after = λ p h. record { left = ground (arith, h.left); hard = ground (arith, h.hard) };
}

create_slot-IsDoomed : (i j now : ℕ) → Keeps (IsDoomed i) (create_slot j now)
unfolding create_slot ◌>>=◌
create_slot-IsDoomed i j now = record {
  after = λ p h. record { left = ground (arith, h.left); hard = ground (arith, h.hard) };
}

pub IsDoomed-Stable : (i : ℕ) → Stable (IsDoomed i)
IsDoomed-Stable i = record {
  same = λ p q h k. record {
    left = subst (λ (f : ℕ → Slot). is_ready (f i).state ≡ false) (sym h.heap) k.left;
    hard =
        subst
          (λ (f : ℕ → Slot). (is_retiring (f i).state && not (is_hard (f i).retire_reason)) ≡ false)
          (sym h.heap) k.hard;
  };
  retires = mark_retiring-IsDoomed i;
  schedules = schedule_close-IsDoomed i;
  creates = create_slot-IsDoomed i;
  settles = λ e j b. settle_close-IsDoomed i e j b;
}

-- No background event brings a browser back that was retired for good.
pub perform-IsDoomed :
    (e : Env) (v : Event) (i : ℕ) (p : Pool) → IsDoomed i p → IsDoomed i (perform e v p).1
perform-IsDoomed e v i p h = (perform-Keeps (IsDoomed-Stable i) e v).after p h

first_slot-passes :
    (test : Slot → Bool) (h : ℕ → Slot) (is : List ℕ) (i : ℕ)
    → first_slot test h is ≡ some i
    → (contains is i ≡ true) × (test (h i) ≡ true)
unfolding first_slot contains
first_slot-passes test h [] i f = absurd (ground (arith, f))
first_slot-passes test h (j ∷ js) i f = elim (Bool-cases (test (h j))) [
  | inl passes ↦
      let e : j ≡ i = ground (arith, f, passes) in
      (ground (arith, e), subst (λ x. test (h x) ≡ true) e passes)
  | inr fails ↦
      let later = first_slot-passes test h js i (ground (arith, f, fails)) in
      (ground (arith, later.0), later.1)
]

or_else-cases : (a b : Option ℕ) (i : ℕ) → or_else a b ≡ some i → (a ≡ some i) ⊎ (b ≡ some i)
or_else-cases (some j) b i f = inl f
or_else-cases none b i f = inr f

-- The slot that a round chooses is in service, and is not doomed.
pub choose_slot-passes :
    (e : Env) (p : Pool) (i : ℕ)
    → choose_slot e p ≡ some i
    → (contains p.slots i ≡ true) × (IsDoomed i p → ⊥)
unfolding choose_slot healthy_slot_available soft_retiring_slot_available
choose_slot-passes e p i f = elim (or_else-cases _ _ i f) [
  | inl healthy ↦
      let found = first_slot-passes (healthy_slot_available e p) p.heap p.slots i healthy in
      (found.0, λ d. absurd (ground (arith, found.1, d.left)))
  | inr soft ↦
      let found = first_slot-passes (soft_retiring_slot_available p) p.heap p.slots i soft in
      (found.0, λ d. absurd (ground (arith, found.1, d.hard)))
]
