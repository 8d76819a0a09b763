-- ===== src/Pool/Accounting.antt =====
-- What the rounds of `_acquire_slot` and the releases do to the leases.
use camouflare.Prelude.{
  ℕ, ◌+◌, Bool, true, false, Option, none, some, ◌≡◌, refl, ap, ◌∙◌, subst, arith, inl, inr, leb,
  ◌==◌, Bool-cases, if◌then◌else◌,
}
use camouflare.Pool.State.{
  Reason, Kind, Result, ok, err, SlotReservation, Env, Pool, pure, ◌>>=◌, ◌>>◌, pool_closed,
  acquire_timeout,
}
use camouflare.Pool.Recycle.{is_closing, mark_retiring, retire_exhausted, refresh_recycling}
use camouflare.Pool.Acquire.{
  Round, reserved, waits, is_transient, occupy, reserve_slot, launch_and_wait, may_launch,
  take_or_wait, settle_round, acquire_round,
}
use camouflare.Pool.Create.{start_create_task}
use camouflare.Pool.Keeps.{bind_post, guard_post}
use camouflare.Pool.Stable.{refresh_recycling-Keeps}
use camouflare.Pool.Contexts.{SameLeases, SameLeases-refl, SameLeases-Stable}
use camouflare.Pool.Soundness.{AllSound, AllSound-Stable}

-- `q` has one lease more than `p`, that of `r`.
pub record Leased (p q : Pool) (r : SlotReservation) : Type 0 where
  pub settings : q.settings ≡ p.settings
  pub active :
      (i : ℕ)
      → (q.heap i).active_contexts ≡ (if r.slot == i then 1 else 0) + (p.heap i).active_contexts
  pub transient :
      q.transient_contexts ≡ (if is_transient r.kind then 1 else 0) + p.transient_contexts
  pub persistent : q.persistent_contexts ≡ p.persistent_contexts
  pub waiting : q.waiting_requests ≡ p.waiting_requests
  pub fresh : r.released ≡ false

Leased-then : {p q t : Pool} {r : SlotReservation} → Leased p q r → SameLeases q t → Leased p t r
Leased-then l s = record {
  settings = s.settings ∙ l.settings;
  active = λ i. s.active i ∙ l.active i;
  transient = s.transient ∙ l.transient;
  persistent = s.persistent ∙ l.persistent;
  waiting = s.waiting ∙ l.waiting;
  fresh = l.fresh;
}

Leased-after : {p q t : Pool} {r : SlotReservation} → SameLeases p q → Leased q t r → Leased p t r
Leased-after {r = r} s l = record {
  settings = l.settings ∙ s.settings;
  active = λ i. l.active i ∙ ap (λ n. (if r.slot == i then 1 else 0) + n) (s.active i);
  transient = l.transient ∙ ap (λ n. (if is_transient r.kind then 1 else 0) + n) s.transient;
  persistent = l.persistent ∙ s.persistent;
  waiting = l.waiting ∙ s.waiting;
  fresh = l.fresh;
}

abbrev Reserves : Pool → Result SlotReservation → Pool → Type 0
Reserves p (ok r) q = Leased p q r × AllSound q
Reserves p (err x) q = SameLeases p q × AllSound q

module _ (i : ℕ) (kind : Kind) where
  occupy-Leased :
      (p : Pool) → Leased p (occupy i kind p) (record { slot = i; kind = kind; released = false })
  unfolding occupy
  occupy-Leased p = record {
    settings = refl;
    active = λ j. ground arith;
    transient = ground arith;
    persistent = refl;
    waiting = refl;
    fresh = refl;
  }

  occupy-AllSound :
      (p : Pool)
      → is_closing (p.heap i).state ≡ false
      → leb p.max_contexts_per_browser (p.heap i).active_contexts ≡ false
      → AllSound p
      → AllSound (occupy i kind p)
  unfolding occupy
  occupy-AllSound p live room h = record { at = λ j. ground (arith, h.at i, h.at j) }

  -- The retirement that ends `_reserve_slot_unlocked`.
  retire_if-Leased :
      (b : Bool) (x : Reason) (r : SlotReservation) (p q : Pool)
      → Leased p q r
      → AllSound q
      → Reserves p
          (((if b then mark_retiring i x else pure tt) >>= λ _. pure r) q).0
          (((if b then mark_retiring i x else pure tt) >>= λ _. pure r) q).1
  unfolding ◌>>=◌ mark_retiring
  retire_if-Leased true x r p q l h = (
    Leased-then l (((SameLeases-Stable q).retires i x).after q (SameLeases-refl q)),
    (AllSound-Stable.retires i x).after q h,
  )
  retire_if-Leased false x r p q l h = (l, h)

  reserve_slot-Reserves :
      (e : Env) (p : Pool)
      → AllSound p
      → Reserves p (reserve_slot e i kind p).0 (reserve_slot e i kind p).1
  unfolding reserve_slot retire_exhausted ◌>>=◌
  reserve_slot-Reserves e p h = elim (Bool-cases (is_closing (p.heap i).state)) [
    | inl closes ↦ rw closes (SameLeases-refl p, h)
    | inr live ↦ elim (Bool-cases (leb p.max_contexts_per_browser (p.heap i).active_contexts)) [
      | inl full ↦ rw (live, full) (SameLeases-refl p, h)
      | inr room ↦
          rw (live, room)
            (retire_if-Leased _ _ _ p _ (occupy-Leased p) (occupy-AllSound p live room h))
    ]
  ]

-- `q` is `p` with one request more that waits.
pub record Waiting (p q : Pool) : Type 0 where
  pub settings : q.settings ≡ p.settings
  pub active : (i : ℕ) → (q.heap i).active_contexts ≡ (p.heap i).active_contexts
  pub transient : q.transient_contexts ≡ p.transient_contexts
  pub persistent : q.persistent_contexts ≡ p.persistent_contexts
  pub waiting : q.waiting_requests ≡ p.waiting_requests + 1

-- How a round of `_acquire_slot` ends: with a lease, in the wait, or by raising with no lease taken.
abbrev pub RoundEnds : Pool → Result Round → Pool → Type 0
RoundEnds p (ok (reserved r)) q = Leased p q r × AllSound q
RoundEnds p (ok (waits launched)) q = Waiting p q × AllSound q
RoundEnds p (err x) q = SameLeases p q × AllSound q

SameLeases-trans : {p q t : Pool} → SameLeases p q → SameLeases q t → SameLeases p t
SameLeases-trans a b = record {
  settings = b.settings ∙ a.settings;
  active = λ i. b.active i ∙ a.active i;
  transient = b.transient ∙ a.transient;
  persistent = b.persistent ∙ a.persistent;
  waiting = b.waiting ∙ a.waiting;
}

RoundEnds-after :
    (p q t : Pool) (o : Result Round) → SameLeases p q → RoundEnds q o t → RoundEnds p o t
RoundEnds-after p q t (ok (reserved r)) s (l, h) = (Leased-after s l, h)
RoundEnds-after p q t (ok (waits b)) s (w, h) = (
  record {
    settings = w.settings ∙ s.settings;
    active = λ i. w.active i ∙ s.active i;
    transient = w.transient ∙ s.transient;
    persistent = w.persistent ∙ s.persistent;
    waiting = w.waiting ∙ ap (λ n. n + 1) s.waiting;
  },
  h,
)
RoundEnds-after p q t (err x) s (l, h) = (SameLeases-trans s l, h)

launch_and_wait-RoundEnds :
    (late b : Bool) (p : Pool)
    → AllSound p
    → RoundEnds p (launch_and_wait late b p).0 (launch_and_wait late b p).1
unfolding launch_and_wait start_create_task ◌>>=◌
launch_and_wait-RoundEnds true b p h = elim (Bool-cases (may_launch b p)) [
  | inl launches ↦ rw launches (
    record {
      settings = refl;
      active = λ i. refl;
      transient = refl;
      persistent = refl;
      waiting = refl;
    },
    record { at = h.at },
  )
  | inr full ↦ rw full (
    record {
      settings = refl;
      active = λ i. refl;
      transient = refl;
      persistent = refl;
      waiting = refl;
    },
    record { at = h.at },
  )
]
launch_and_wait-RoundEnds false b p h = elim (Bool-cases (may_launch b p)) [
  | inl launches ↦ rw launches (
    record {
      settings = refl;
      active = λ i. refl;
      transient = refl;
      persistent = refl;
      waiting = refl;
    },
    record { at = h.at },
  )
  | inr full ↦ rw full (
    record {
      settings = refl;
      active = λ i. refl;
      transient = refl;
      persistent = refl;
      waiting = refl;
    },
    record { at = h.at },
  )
]

module _ (e : Env) (kind : Kind) where
  lease-RoundEnds :
      (p : Pool) (i : ℕ)
      → AllSound p
      → RoundEnds p
          ((reserve_slot e i kind >>= λ r. pure (reserved r)) p).0
          ((reserve_slot e i kind >>= λ r. pure (reserved r)) p).1
  lease-RoundEnds p i h =
      bind_post (RoundEnds p) (reserve_slot e i kind) (λ r. pure (reserved r)) p
        (λ r q eq.
          unfold ◌>>=◌ in subst (λ o. Reserves p o.0 o.1) eq (reserve_slot-Reserves i kind e p h))
        (λ x q eq. subst (λ o. Reserves p o.0 o.1) eq (reserve_slot-Reserves i kind e p h))

  refresh_recycling-SameLeases : (p : Pool) → SameLeases p (refresh_recycling e p).1
  refresh_recycling-SameLeases p =
      (refresh_recycling-Keeps (SameLeases-Stable p) e).after p (SameLeases-refl p)

  refresh_recycling-AllSound : (p : Pool) → AllSound p → AllSound (refresh_recycling e p).1
  refresh_recycling-AllSound p h = (refresh_recycling-Keeps AllSound-Stable e).after p h

  settle_round-RoundEnds :
      (i? x? : Option ℕ) (late launched : Bool) (q : Pool)
      → AllSound q
      → RoundEnds q
          (settle_round e i? x? late launched kind q).0
          (settle_round e i? x? late launched kind q).1
  unfolding settle_round ◌>>=◌
  settle_round-RoundEnds (some i) x? late launched q h = lease-RoundEnds q i h
  settle_round-RoundEnds none (some x) late launched q h = (SameLeases-refl q, h)
  settle_round-RoundEnds none none late launched q h = launch_and_wait-RoundEnds late launched q h

  refresh_then-RoundEnds :
      (late : Bool) (observed : ℕ) (launched : Bool) (p : Pool)
      → AllSound p
      → let m = refresh_recycling e >> take_or_wait e late observed launched kind in
        RoundEnds p (m p).0 (m p).1
  unfolding take_or_wait ◌>>=◌
  refresh_then-RoundEnds late observed launched p h =
      bind_post (RoundEnds p) (refresh_recycling e)
        (λ _. take_or_wait e late observed launched kind) p
        (λ _ q eq.
          RoundEnds-after p q _ _
            (subst (λ o. SameLeases p o.1) eq (refresh_recycling-SameLeases p))
            (settle_round-RoundEnds _ _ late launched q
              (subst (λ o. AllSound o.1) eq (refresh_recycling-AllSound p h))))
        (λ x q eq. (
          subst (λ o. SameLeases p o.1) eq (refresh_recycling-SameLeases p),
          subst (λ o. AllSound o.1) eq (refresh_recycling-AllSound p h),
        ))

  pub acquire_round-RoundEnds :
      (deadline observed : ℕ) (launched : Bool) (p : Pool)
      → AllSound p
      → RoundEnds p
          (acquire_round e deadline observed launched kind p).0
          (acquire_round e deadline observed launched kind p).1
  unfolding acquire_round ◌>>=◌
  acquire_round-RoundEnds deadline observed launched p h =
      guard_post (RoundEnds p) p.closed pool_closed _ p (λ _. (SameLeases-refl p, h))
        λ _.
          guard_post (RoundEnds p) (leb deadline e.now) acquire_timeout _ p
            (λ _. (SameLeases-refl p, h))
            λ _. refresh_then-RoundEnds (leb deadline e.later) observed launched p h
