-- ===== src/Pool/Connected.antt =====
-- camouflare/pool.py: a request is never handed a browser that is known to be disconnected.
use camouflare.Pool.Create.{start_create_task}
use camouflare.Prelude.{
  refl, some, none, leb, Option, Bool, ℕ, true, false, List, [], ◌∷◌, contains, contains-of-remove,
  ◌≡◌, sym, subst, arith, inl, inr, Bool-cases, ◌==◌,
}
use camouflare.Pool.State.{
  pool_closed, acquire_timeout, Reason, Kind, Result, ok, err, Env, Pool, modify, pure, ◌>>=◌, ◌>>◌,
  for_each,
}
use camouflare.Pool.Recycle.{
  retire, mark_retiring, start_close_task, schedule_close, leave_pool, schedule_failed_close_retry,
  retry_failed_close, retry_failed_closes, retire_disconnected, retire_exhausted, close_idle,
  refresh_slot, refresh_recycling,
}
use camouflare.Pool.Acquire.{
  may_launch, waits, launch_and_wait, new_failure, acquire_round, take_or_wait, choose_slot,
  settle_round, Round, reserved, reserve_slot,
}
use camouflare.Pool.Keeps.{
  guard_post, Keeps-for_each, Keeps, Keeps-modify, keeps, seq_post, bind_post,
}
use camouflare.Pool.Stable.{mark_retiring-Keeps, schedule_close-Keeps, retry_failed_closes-Keeps}
use camouflare.Pool.Doomed.{choose_slot-passes, IsDoomed, IsDoomed-Stable}

-- The slots in service are among those of `p`.
record ServesLess (p q : Pool) : Type 0 where
  pub within : (i : ℕ) → contains q.slots i ≡ true → contains p.slots i ≡ true

module _ (p : Pool) where
  mark_retiring-ServesLess : (i : ℕ) (r : Reason) → Keeps (ServesLess p) (mark_retiring i r)
  unfolding mark_retiring ◌>>=◌
  mark_retiring-ServesLess i r = record { after = λ q h. record { within = h.within } }

  start_close_task-ServesLess : (i : ℕ) → Keeps (ServesLess p) (start_close_task i)
  unfolding start_close_task ◌>>=◌
  start_close_task-ServesLess i = record { after = λ q h. record { within = h.within } }

  leave_pool-ServesLess : (i : ℕ) → Keeps (ServesLess p) (modify (leave_pool i))
  leave_pool-ServesLess i = Keeps-modify (leave_pool i) (λ q h. record {
    within = λ j f. h.within j (ground (arith, f, contains-of-remove q.slots i j));
  })

  schedule_close-ServesLess : (i : ℕ) (r : Reason) → Keeps (ServesLess p) (schedule_close i r)
  unfolding schedule_close
  schedule_close-ServesLess i r =
      search (keeps, mark_retiring-ServesLess, start_close_task-ServesLess, leave_pool-ServesLess)
        depth 12

  schedule_failed_close_retry-ServesLess :
      (i : ℕ) → Keeps (ServesLess p) (schedule_failed_close_retry i)
  unfolding schedule_failed_close_retry start_close_task ◌>>=◌
  schedule_failed_close_retry-ServesLess i = record {
    after = λ q h. record { within = λ j f. h.within j (ground (arith, f)) };
  }

  refresh_recycling-ServesLess : (e : Env) → Keeps (ServesLess p) (refresh_recycling e)
  unfolding refresh_recycling refresh_slot retire_disconnected retire_exhausted close_idle
      retry_failed_closes retry_failed_close
  refresh_recycling-ServesLess e =
      search
        (
          keeps, mark_retiring-ServesLess, schedule_close-ServesLess,
          schedule_failed_close_retry-ServesLess,
        )
        depth 16

module _ (e : Env) where
  -- The first test of a round of the loop dooms a dead browser.
  retire_disconnected-IsDoomed :
      (i : ℕ) (p : Pool) → e.dead i ≡ true → IsDoomed i (retire_disconnected e i p).1
  unfolding retire_disconnected mark_retiring retire ◌>>=◌
  retire_disconnected-IsDoomed i p dead = record {
    left = ground (arith, dead);
    hard = ground (arith, dead);
  }

  -- What follows in the loop leaves a doomed slot doomed.
  then-IsDoomed : (i j : ℕ) → Keeps (IsDoomed i) (retire_exhausted e j >> close_idle e j)
  unfolding retire_exhausted close_idle
  then-IsDoomed i j =
      search
        (keeps, mark_retiring-Keeps (IsDoomed-Stable i), schedule_close-Keeps (IsDoomed-Stable i))
        depth 16

  later-IsDoomed : (i j : ℕ) → Keeps (IsDoomed i) (refresh_slot e j)
  unfolding refresh_slot retire_disconnected retire_exhausted close_idle
  later-IsDoomed i j =
      search
        (keeps, mark_retiring-Keeps (IsDoomed-Stable i), schedule_close-Keeps (IsDoomed-Stable i))
        depth 16

  refresh_slot-IsDoomed : (i : ℕ) (p : Pool) → e.dead i ≡ true → IsDoomed i (refresh_slot e i p).1
  unfolding refresh_slot
  refresh_slot-IsDoomed i p dead =
      seq_post (retire_disconnected e i) (λ _. retire_exhausted e i >> close_idle e i) p
        (retire_disconnected-IsDoomed i p dead) (λ _. then-IsDoomed i i)

  -- The loop dooms every dead slot of its list, if it ends without raising.
  abbrev Swept : ℕ → Result (Unit {0}) → Pool → Type 0
  Swept i (ok _) q = IsDoomed i q
  Swept i (err x) q = Unit

  IsDoomed-Swept : (i : ℕ) (o : Result (Unit {0})) (q : Pool) → IsDoomed i q → Swept i o q
  IsDoomed-Swept i (ok a) q h = h
  IsDoomed-Swept i (err x) q h = tt

  loop-Swept :
      (i : ℕ) (xs : List ℕ) (p : Pool)
      → e.dead i ≡ true
      → contains xs i ≡ true
      → Swept i (for_each (refresh_slot e) xs p).0 (for_each (refresh_slot e) xs p).1
  unfolding for_each contains
  loop-Swept i [] p dead inside = absurd (ground (arith, inside))
  loop-Swept i (x ∷ xs) p dead inside =
      bind_post (Swept i) (refresh_slot e x) (λ _. for_each (refresh_slot e) xs) p
        (λ _ q eq. elim (Bool-cases (x == i)) [
          | inl same ↦
              let here : x ≡ i = ground (arith, same) in
              let now : IsDoomed i q =
                subst (λ o. IsDoomed i o.1) eq
                  (subst (λ j. IsDoomed i (refresh_slot e j p).1) (sym here)
                    (refresh_slot-IsDoomed i p dead)) in
              IsDoomed-Swept i (for_each (refresh_slot e) xs q).0 _
                ((Keeps-for_each (refresh_slot e) xs (later-IsDoomed i)).after q now)
          | inr other ↦ loop-Swept i xs q dead (ground (arith, inside, other))
        ])
        (λ x q eq. tt)

  refresh_recycling-Swept :
      (i : ℕ) (p : Pool)
      → e.dead i ≡ true
      → contains p.slots i ≡ true
      → Swept i (refresh_recycling e p).0 (refresh_recycling e p).1
  unfolding refresh_recycling ◌>>=◌
  refresh_recycling-Swept i p dead inside =
      bind_post (Swept i) (for_each (refresh_slot e) p.slots) (λ _. retry_failed_closes e) p
        (λ _ q eq. IsDoomed-Swept i (retry_failed_closes e q).0 _ (
          (retry_failed_closes-Keeps (IsDoomed-Stable i) e).after q
            (subst (λ o. Swept i o.0 o.1) eq (loop-Swept i p.slots p dead inside))))
        (λ x q eq. tt)

  -- A round that ends with a lease ends with one of a browser that answers the probe.
  abbrev pub IsAnswered : Result Round → Type 0
  IsAnswered (ok (reserved r)) = e.dead r.slot ≡ false
  IsAnswered (ok (waits launched)) = Unit
  IsAnswered (err x) = Unit

  abbrev pub Takes : ℕ → Result Round → Pool → Type 0
  Takes i (ok (reserved r)) q = r.slot ≡ i
  Takes i (ok (waits launched)) q = Unit
  Takes i (err x) q = Unit

  pub lease-Takes :
      (i : ℕ) (kind : Kind) (p : Pool)
      → Takes i ((reserve_slot e i kind >>= λ r. pure (reserved r)) p).0 p
  unfolding reserve_slot retire_exhausted mark_retiring ◌>>=◌
  lease-Takes i kind p = ground arith

  Takes-IsAnswered :
      (i : ℕ) (o : Result Round) (q : Pool) → Takes i o q → e.dead i ≡ false → IsAnswered o
  Takes-IsAnswered i (ok (reserved r)) q t alive = subst (λ j. e.dead j ≡ false) (sym t) alive
  Takes-IsAnswered i (ok (waits b)) q t alive = tt
  Takes-IsAnswered i (err x) q t alive = tt

  -- The chosen slot is alive: a dead one would have been doomed by the sweep.
  chosen_alive :
      (p q : Pool) (i : ℕ)
      → refresh_recycling e p ≡ (ok tt, q)
      → choose_slot e q ≡ some i
      → e.dead i ≡ false
  chosen_alive p q i eq chosen =
      let (inside, alive) = choose_slot-passes e q i chosen in
      let served =
        ((refresh_recycling-ServesLess p e).after p (record { within = λ j f. f })).within i
          (subst (λ o. contains o.1.slots i ≡ true) (sym eq) inside) in
      elim (Bool-cases (e.dead i)) [
        | inl dead ↦
            absurd
              (alive (subst (λ o. Swept i o.0 o.1) eq (refresh_recycling-Swept i p dead served)))
        | inr answers ↦ answers
      ]

  launch_and_wait-IsAnswered :
      (late launched : Bool) (q : Pool) → IsAnswered (launch_and_wait late launched q).0
  unfolding launch_and_wait start_create_task ◌>>=◌
  launch_and_wait-IsAnswered true launched q = elim (Bool-cases (may_launch launched q)) [
    | inl launches ↦ rw launches tt
    | inr full ↦ rw full tt
  ]
  launch_and_wait-IsAnswered false launched q = elim (Bool-cases (may_launch launched q)) [
    | inl launches ↦ rw launches tt
    | inr full ↦ rw full tt
  ]

  settle_round-IsAnswered :
      (i? x? : Option ℕ) (late launched : Bool) (kind : Kind) (q : Pool)
      → ((i : ℕ) → i? ≡ some i → e.dead i ≡ false)
      → IsAnswered (settle_round e i? x? late launched kind q).0
  unfolding settle_round launch_and_wait ◌>>=◌
  settle_round-IsAnswered (some i) x? late launched kind q h =
      Takes-IsAnswered i _ q (lease-Takes i kind q) (h i refl)
  settle_round-IsAnswered none (some x) late launched kind q h = tt
  settle_round-IsAnswered none none late launched kind q h =
      launch_and_wait-IsAnswered late launched q

  -- Whatever the pool, a round of an acquisition that ends with a lease ends with a lease of a browser
  -- whose `is_connected` probe does not say that it has died.
  pub acquire_round-IsAnswered :
      (deadline observed : ℕ) (launched : Bool) (kind : Kind) (p : Pool)
      → IsAnswered (acquire_round e deadline observed launched kind p).0
  unfolding acquire_round take_or_wait ◌>>=◌
  acquire_round-IsAnswered deadline observed launched kind p =
      let Q : Result Round → Pool → Type 0 = λ o _. IsAnswered o in
      guard_post Q p.closed pool_closed _ p (λ _. tt)
        λ _.
          guard_post Q (leb deadline e.now) acquire_timeout _ p (λ _. tt)
            λ _.
              bind_post Q (refresh_recycling e)
                (λ _. take_or_wait e (leb deadline e.later) observed launched kind) p
                (λ _ q eq.
                  settle_round-IsAnswered (choose_slot e q) (new_failure observed q)
                    (leb deadline e.later) launched kind q
                    (λ i chosen. chosen_alive p q i eq chosen))
                (λ x q eq. tt)
