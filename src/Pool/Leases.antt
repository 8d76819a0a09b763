-- ===== src/Pool/Leases.antt =====
-- The accounting of the pool, through an acquisition and a wake.
use camouflare.Prelude.{
  ℕ, ◌+◌, ◌-◌, ◌≤◌, ◌<◌, Bool, true, false, List, [], ◌∷◌, ◌≡◌, refl, ap, ◌∙◌, arith, inl, inr,
  ◌==◌, leb, Bool-cases, if◌then◌else◌,
}
use camouflare.Pool.State.{
  Result, ok, err, SlotReservation, Settings, Pool, raise_if, ◌>>=◌, waiter_underflow,
  acquire_timeout, pool_closed, persistent_capacity, persistent_underflow, max_persistent_contexts,
}
use camouflare.Pool.Acquire.{Round, reserved, waits, is_transient, acquire_wake}
use camouflare.Pool.Release.{reserve_persistent, release_persistent}
use camouflare.Pool.Keeps.{guard_post}
use camouflare.Pool.Contexts.{SameLeases, SameLeases-refl}
use camouflare.Pool.Soundness.{AllSound, new_pool-AllSound}
use camouflare.Pool.Accounting.{Leased, Waiting, RoundEnds}
use camouflare.Pool.World.{
  World, wakes, opens_session, closes_session, after_round, count_sessions, step, new_world,
  count_on, count_transient,
}

abbrev pub AllOut : List SlotReservation → Type 0
AllOut [] = Unit {0}
AllOut (r ∷ rs) = (r.released ≡ false) × AllOut rs

-- The counters of the pool are the numbers of its clients, and no limit is passed.
pub record Inv (c : Settings) (w : World) : Type 0 where
  pub settings : w.pool.settings ≡ c
  pub sound : AllSound w.pool
  pub active : (i : ℕ) → (w.pool.heap i).active_contexts ≡ count_on i w.leases
  pub transient : w.pool.transient_contexts ≡ count_transient w.leases
  pub persistent : w.pool.persistent_contexts ≡ w.sessions
  pub sessions_fit : w.sessions ≤ max_persistent_contexts c
  pub waiting : w.pool.waiting_requests ≡ w.waiters
  pub out : AllOut w.leases

pub new_world-Inv : (c : Settings) → Inv c (new_world c)
unfolding count_on count_transient
new_world-Inv c = record {
  settings = refl;
  sound = new_pool-AllSound c;
  active = λ i. refl;
  transient = refl;
  persistent = refl;
  sessions_fit = omega arith;
  waiting = refl;
  out = tt;
}

gt_of_leb : (a b : ℕ) → leb a b ≡ false → b < a
gt_of_leb a b h = ground arith

module _ (c : Settings) (w : World) (h : Inv c w) where
  -- A pool with the leases of the present one.
  pub unchanged-Inv : (q : Pool) → SameLeases w.pool q → AllSound q → Inv c (record w { pool = q })
  unchanged-Inv q s sound = record {
    settings = s.settings ∙ h.settings;
    sound = sound;
    active = λ i. s.active i ∙ h.active i;
    transient = s.transient ∙ h.transient;
    persistent = s.persistent ∙ h.persistent;
    sessions_fit = h.sessions_fit;
    waiting = s.waiting ∙ h.waiting;
    out = h.out;
  }

  Leased-Inv :
      (r : SlotReservation) (q : Pool)
      → Leased w.pool q r
      → AllSound q
      → Inv c (record w { pool = q; leases = r ∷ w.leases })
  unfolding count_on count_transient
  Leased-Inv r q l sound = record {
    settings = l.settings ∙ h.settings;
    sound = sound;
    active = λ i. l.active i ∙ ap (λ n. (if r.slot == i then 1 else 0) + n) (h.active i);
    transient = l.transient ∙ ap (λ n. (if is_transient r.kind then 1 else 0) + n) h.transient;
    persistent = l.persistent ∙ h.persistent;
    sessions_fit = h.sessions_fit;
    waiting = l.waiting ∙ h.waiting;
    out = (l.fresh, h.out);
  }

  Waiting-Inv :
      (q : Pool)
      → Waiting w.pool q
      → AllSound q
      → Inv c (record w { pool = q; waiters = w.waiters + 1 })
  Waiting-Inv q s sound = record {
    settings = s.settings ∙ h.settings;
    sound = sound;
    active = λ i. s.active i ∙ h.active i;
    transient = s.transient ∙ h.transient;
    persistent = s.persistent ∙ h.persistent;
    sessions_fit = h.sessions_fit;
    waiting = s.waiting ∙ ap (λ n. n + 1) h.waiting;
    out = h.out;
  }

  pub after_round-Inv :
      (o : Result Round) (q : Pool) → RoundEnds w.pool o q → Inv c (after_round w (o, q))
  after_round-Inv (ok (reserved r)) q (l, sound) = Leased-Inv r q l sound
  after_round-Inv (ok (waits b)) q (s, sound) = Waiting-Inv q s sound
  after_round-Inv (err x) q (s, sound) = unchanged-Inv q s sound

  woken-Inv :
      (q : Pool)
      → SameLeases (record w.pool { waiting_requests = w.pool.waiting_requests - 1 }) q
      → AllSound q
      → Inv c (record w { pool = q; waiters = w.waiters - 1 })
  woken-Inv q s sound = record {
    settings = s.settings ∙ h.settings;
    sound = sound;
    active = λ i. s.active i ∙ h.active i;
    transient = s.transient ∙ h.transient;
    persistent = s.persistent ∙ h.persistent;
    sessions_fit = h.sessions_fit;
    waiting = s.waiting ∙ ap (λ n. n - 1) h.waiting;
    out = h.out;
  }

  fewer_waiters : Pool
  fewer_waiters = record w.pool { waiting_requests = w.pool.waiting_requests - 1 }

  -- A wait that ends takes exactly its own request off the counter, by notice or by timeout.
  acquire_wake-pool :
      (b : Bool) → (w.waiters == 0) ≡ false → (acquire_wake b w.pool).1 ≡ fewer_waiters
  unfolding acquire_wake fewer_waiters ◌>>=◌
  acquire_wake-pool b some_wait =
      guard_post (λ _ q. q ≡ fewer_waiters) (w.pool.waiting_requests == 0) waiter_underflow _ w.pool
        (λ z. absurd (ground (arith, h.waiting))) (λ _. guard_end b)
    where
      guard_end : (b : Bool) → (raise_if b acquire_timeout fewer_waiters).1 ≡ fewer_waiters
      guard_end true = refl
      guard_end false = refl

  pub wakes-Inv : (b : Bool) → Inv c (step (wakes b) w)
  unfolding step fewer_waiters
  wakes-Inv b = elim (Bool-cases (w.waiters == 0)) [
    | inl nobody ↦ rw nobody h
    | inr some_wait ↦
        rw (some_wait, acquire_wake-pool b some_wait)
          (woken-Inv _ (SameLeases-refl _) (record { at = h.sound.at }))
  ]

  pub opens_session-Inv : Inv c (step opens_session w)
  unfolding step reserve_persistent ◌>>=◌
  opens_session-Inv =
      guard_post (λ o q. Inv c (count_sessions w (w.sessions + 1) (o, q))) w.pool.closed pool_closed
        _ w.pool (λ _. h)
        λ _.
          guard_post (λ o q. Inv c (count_sessions w (w.sessions + 1) (o, q)))
            (leb (max_persistent_contexts w.pool.settings) w.pool.persistent_contexts)
            persistent_capacity _ w.pool (λ _. h)
            λ room. record {
              settings = h.settings;
              sound = record { at = h.sound.at };
              active = h.active;
              transient = h.transient;
              persistent = ap (λ n. n + 1) h.persistent;
              sessions_fit = fits_one_more room;
              waiting = h.waiting;
              out = h.out;
            }
    where
      fits_one_more :
          leb (max_persistent_contexts w.pool.settings) w.pool.persistent_contexts ≡ false
          → w.sessions + 1 ≤ max_persistent_contexts c
      fits_one_more room =
          omega (arith, ap max_persistent_contexts h.settings, h.persistent, gt_of_leb _ _ room)

  pub closes_session-Inv : Inv c (step closes_session w)
  unfolding step release_persistent ◌>>=◌
  closes_session-Inv =
      if_step (w.sessions == 0) _ _ (λ _. h)
        λ some_open.
          guard_post (λ o q. Inv c (count_sessions w (w.sessions - 1) (o, q)))
            (w.pool.persistent_contexts == 0) persistent_underflow _ w.pool
            (λ z. absurd (ground (arith, h.persistent)))
            λ _. record {
              settings = h.settings;
              sound = record { at = h.sound.at };
              active = h.active;
              transient = h.transient;
              persistent = ap (λ n. n - 1) h.persistent;
              sessions_fit = omega (arith, h.sessions_fit);
              waiting = h.waiting;
              out = h.out;
            }
    where
      if_step :
          (b : Bool) (u v : World)
          → (b ≡ true → Inv c u)
          → (b ≡ false → Inv c v)
          → Inv c (if b then u else v)
      if_step true u v yes_case no_case = yes_case refl
      if_step false u v yes_case no_case = no_case refl
