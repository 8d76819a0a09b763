-- ===== src/Pool/Counts.antt =====
-- camouflare/pool.py: what the counts of a snapshot say of the slots.
use camouflare.Prelude.{
  ℕ, ◌+◌, ◌-◌, ◌≤◌, ◌<◌, Bool, not, ◌&&◌, ◌||◌, ◌==◌, if◌then◌else◌, List, [], ◌∷◌, some, length,
  ◌≡◌,
}
use camouflare.Pool.State.{Slot, Env, Pool}
use camouflare.Pool.Recycle.{is_retiring, should_recycle, is_soft_reason, reason_or, recycle_reason}
use camouflare.Pool.Acquire.{choose_slot}
use camouflare.Pool.Snapshot.{PoolSnapshot, Tally}

-- A number of every slot of a list, added up.
pub sum_slots : (Slot → ℕ) → (ℕ → Slot) → List ℕ → ℕ
sum_slots f h [] = 0
sum_slots f h (i ∷ is) = f (h i) + sum_slots f h is

module _ (e : Env) (p : Pool) where
  -- It has been retired, or has reached a limit of its uses or its age.
  abbrev is_leaving : Slot → Bool
  is_leaving s = is_retiring s.state || should_recycle e p s

  abbrev leaving : Slot → ℕ
  leaving s = if is_leaving s then 1 else 0

  abbrev idle_leaving : Slot → ℕ
  idle_leaving s = if is_leaving s && s.active_contexts == 0 then 1 else 0

  -- The contexts that are not in use, of a slot that stays, or that is in use and leaves for its uses
  -- or its age only.
  abbrev offered : Slot → ℕ
  offered s =
      if is_leaving s
        && (s.active_contexts == 0
            || not (is_soft_reason (reason_or s.retire_reason (recycle_reason e p s))))
      then 0
      else p.max_contexts_per_browser - s.active_contexts

  -- From `t` to `u` the slots of `is` have been counted.
  record Counts (is : List ℕ) (t u : Tally) : Type 0 where
    all : u.ready + u.retiring ≡ t.ready + t.retiring + length is
    retiring : u.retiring ≡ t.retiring + sum_slots leaving p.heap is
    recyclable : u.recyclable ≡ t.recyclable + sum_slots idle_leaving p.heap is
    usable : u.usable ≡ t.usable + sum_slots offered p.heap is

  record CountsOne (s : Slot) (t u : Tally) : Type 0 where
    all : u.ready + u.retiring ≡ t.ready + t.retiring + 1
    retiring : u.retiring ≡ t.retiring + leaving s
    recyclable : u.recyclable ≡ t.recyclable + idle_leaving s
    usable : u.usable ≡ t.usable + offered s

  -- The counts of a snapshot are those of the slots in service, one by one, and where a request finds
  -- a slot, a context is on offer.
  pub record IsExact (s : PoolSnapshot) : Type 0 where
    pub all : s.ready_browser_slots + s.retiring_browser_slots ≡ length p.slots
    pub retiring : s.retiring_browser_slots ≡ sum_slots leaving p.heap p.slots
    pub recyclable : s.idle_recyclable_slots ≡ sum_slots idle_leaving p.heap p.slots
    pub usable : s.usable_context_slots ≡ sum_slots offered p.heap p.slots
    pub active : s.transient_contexts ≤ s.active_contexts
    pub offers : (i : ℕ) → choose_slot e p ≡ some i → 0 < s.usable_context_slots
