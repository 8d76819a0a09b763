-- ===== src/Pool/Readiness.antt =====
-- camouflare/pool.py: what `is_full_and_serving` says of the pool.
use camouflare.Prelude.{
  ◌<◌, ◌⊎◌, All, ◌↔◌, ℕ, ◌+◌, ◌≤◌, true, false, List, [], ◌∷◌, none, ◌≡◌, refl, arith,
}
use camouflare.Pool.State.{Env, Pool}
use camouflare.Pool.Recycle.{
  is_ready, is_soft_retire_reason, is_retiring, is_slot_disconnected, healthy_slot_available,
  soft_retiring_slot_available,
}
use camouflare.Pool.Acquire.{first_slot, choose_slot}
use camouflare.Pool.Snapshot.{sum_active, full_and_serving, is_full_and_serving}

module _ (e : Env) (p : Pool) where
  full-first_slot :
      (is : List ℕ) (active : ℕ)
      → full_and_serving e p is active ≡ true
      → (first_slot (healthy_slot_available e p) p.heap is ≡ none)
        × (first_slot (soft_retiring_slot_available p) p.heap is ≡ none)
  unfolding full_and_serving first_slot healthy_slot_available soft_retiring_slot_available
  full-first_slot [] active h = (refl, refl)
  full-first_slot (i ∷ is) active h =
      let s = p.heap i in
      let rest : full_and_serving e p is (active + s.active_contexts) ≡ true = ground (arith, h) in
      let (a, b) = full-first_slot is (active + s.active_contexts) rest in
      (ground (arith, h, a), ground (arith, h, b))

  -- The slot's browser is connected, it has not been retired for good, and it has no room: all its
  -- contexts are in use, or none is and it has left the ready state, so that it is about to close.
  abbrev IsSaturated : ℕ → Type 0
  IsSaturated i =
      (is_slot_disconnected e i ≡ false)
      × (is_retiring (p.heap i).state ≡ true
          → is_soft_retire_reason (p.heap i).retire_reason ≡ true)
      × (((0 < (p.heap i).active_contexts)
            × (p.max_contexts_per_browser ≤ (p.heap i).active_contexts))
          ⊎ (((p.heap i).active_contexts ≡ 0) × (is_ready (p.heap i).state ≡ false)))

  full_and_serving-IsSaturated :
      (is : List ℕ) (active : ℕ)
      → full_and_serving e p is active ≡ true
      → All IsSaturated is × (0 < active + sum_active p.heap is)
  unfolding full_and_serving sum_active
  full_and_serving-IsSaturated [] active h = (tt, ground (arith, h))
  full_and_serving-IsSaturated (i ∷ is) active h =
      let n = (p.heap i).active_contexts in
      let rest : full_and_serving e p is (active + n) ≡ true = ground (arith, h) in
      let (a, b) = full_and_serving-IsSaturated is (active + n) rest in
      ((ground (arith, h), a), omega (arith, b))

  IsSaturated-full_and_serving :
      (is : List ℕ) (active : ℕ)
      → All IsSaturated is
      → 0 < active + sum_active p.heap is
      → full_and_serving e p is active ≡ true
  unfolding full_and_serving sum_active
  IsSaturated-full_and_serving [] active a b = ground (arith, b)
  IsSaturated-full_and_serving (i ∷ is) active (first, a) b =
      let n = (p.heap i).active_contexts in
      let rest = IsSaturated-full_and_serving is (active + n) a (omega (arith, b)) in
      ground (arith, first, rest)

  -- The pool has started, is open, every slot is saturated, and contexts are in use.
  pub record IsServing : Type 0 where
    pub started : p.started ≡ true
    pub open_ : p.closed ≡ false
    pub saturated : All IsSaturated p.slots
    pub serves : 0 < sum_active p.heap p.slots

  -- The pool calls itself full and serving exactly if it has started and is open, every browser is
  -- connected and not retired for good, each has all its contexts in use or is an idle one that has
  -- left the ready state, and some context is in use. Then no request finds a slot in it.
  pub is_full_and_serving-IsServing :
      (is_full_and_serving e p ≡ true ↔ IsServing)
      × (is_full_and_serving e p ≡ true → choose_slot e p ≡ none)
  unfolding is_full_and_serving choose_slot
  is_full_and_serving-IsServing = (
    (
      λ h.
          let full : full_and_serving e p p.slots 0 ≡ true = ground (arith, h) in
          let (a, b) = full_and_serving-IsSaturated p.slots 0 full in
          record {
            started = ground (arith, h);
            open_ = ground (arith, h);
            saturated = a;
            serves = omega (arith, b);
          },
      λ k.
          let full = IsSaturated-full_and_serving p.slots 0 k.saturated (omega (arith, k.serves)) in
          ground (arith, full, k.started, k.open_),
    ),
    λ h.
        let full : full_and_serving e p p.slots 0 ≡ true = ground (arith, h) in
        let (a, b) = full-first_slot p.slots 0 full in ground (arith, a, b),
  )
