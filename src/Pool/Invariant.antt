-- ===== src/Pool/Invariant.antt =====
-- The accounting of the pool, after any schedule of requests, releases and background events.
use camouflare.Prelude.{
  ℕ, zero, suc, ◌+◌, ◌<◌, Bool, true, false, List, [], ◌∷◌, Option, none, some, ◌≡◌, refl, ◌∙◌,
  subst, sym, arith, ◌==◌, if◌then◌else◌,
}
use camouflare.Pool.State.{Reason, SlotReservation, Settings, Env, Pool}
use camouflare.Pool.Acquire.{is_transient}
use camouflare.Pool.Release.{release_slot}
use camouflare.Pool.Contexts.{perform-SameLeases}
use camouflare.Pool.Soundness.{AllSound, perform-AllSound}
use camouflare.Pool.Accounting.{acquire_round-RoundEnds}
use camouflare.Pool.Releasing.{Releases, Freed, release_slot-Releases}
use camouflare.Pool.World.{
  World, Action, happens, acquires, wakes, releases, opens_session, closes_session, pick,
  after_release, release_picked, step, run, new_world, count_on, count_transient,
}
use camouflare.Pool.Leases.{
  Inv, AllOut, new_world-Inv, unchanged-Inv, after_round-Inv, wakes-Inv, opens_session-Inv,
  closes_session-Inv,
}

-- What `pick` takes out of the leases.
record Picked (rs : List SlotReservation) (r : SlotReservation) (rest : List SlotReservation)
    : Type 0 where
  on : (i : ℕ) → count_on i rs ≡ (if r.slot == i then 1 else 0) + count_on i rest
  transient : count_transient rs ≡ (if is_transient r.kind then 1 else 0) + count_transient rest
  out : AllOut rs → (r.released ≡ false) × AllOut rest

abbrev PickedOf : List SlotReservation → Option (SlotReservation × List SlotReservation) → Type 0
PickedOf rs none = Unit {0}
PickedOf rs (some (r, rest)) = Picked rs r rest

Picked-cons :
    (x r : SlotReservation) (xs rest : List SlotReservation)
    → Picked xs r rest
    → Picked (x ∷ xs) r (x ∷ rest)
unfolding count_on count_transient
Picked-cons x r xs rest h = record {
  on = λ i. omega (arith, h.on i);
  transient = omega (arith, h.transient);
  out = λ (a, o). let (b, u) = h.out o in (b, (a, u));
}

pick-Picked : (n : ℕ) (rs : List SlotReservation) → PickedOf rs (pick n rs)
unfolding pick count_on count_transient
pick-Picked n [] = tt
pick-Picked zero (x ∷ xs) = record { on = λ i. refl; transient = refl; out = λ o. o }
pick-Picked (suc n) (x ∷ xs) = go (pick n xs) (pick-Picked n xs)
  where
    go :
        (o : Option (SlotReservation × List SlotReservation))
        → PickedOf xs o
        → PickedOf (x ∷ xs) (elim o [ none ↦ none | some (y, ys) ↦ some (y, x ∷ ys) ])
    go none h = tt
    go (some (y, ys)) h = Picked-cons x y xs ys h

module _ (c : Settings) (w : World) (h : Inv c w) where
  settled-Inv :
      (r : SlotReservation) (rest : List SlotReservation) (q : Pool)
      → Picked w.leases r rest
      → Freed w.pool q r
      → AllSound q
      → Inv c (record w { pool = q; leases = rest })
  settled-Inv r rest q k f sound = record {
    settings = f.settings ∙ h.settings;
    sound = sound;
    active = λ i. omega (arith, f.active i, h.active i, k.on i);
    transient = omega (arith, f.transient, h.transient, k.transient);
    persistent = f.persistent ∙ h.persistent;
    sessions_fit = h.sessions_fit;
    waiting = f.waiting ∙ h.waiting;
    out = (k.out h.out).1;
  }

  -- A lease that is out is on a slot that counts it, and counted as transient if it is.
  out-busy :
      (r : SlotReservation) (rest : List SlotReservation)
      → Picked w.leases r rest
      → 0 < (w.pool.heap r.slot).active_contexts
  out-busy r rest k = ground (arith, h.active r.slot, k.on r.slot)

  out-transient :
      (r : SlotReservation) (rest : List SlotReservation)
      → Picked w.leases r rest
      → is_transient r.kind ≡ true
      → 0 < w.pool.transient_contexts
  out-transient r rest k t = ground (arith, h.transient, k.transient)

  -- A release of a lease that is out returns, and leaves the accounts right.
  pub released-Inv :
      (e : Env) (n : ℕ) (r : SlotReservation) (rest : List SlotReservation) (b : Bool) (x : Reason)
      → pick n w.leases ≡ some (r, rest)
      → (r.released ≡ false)
        × Releases r w.pool (release_slot e r b x w.pool).0 (release_slot e r b x w.pool).1
        × Inv c (record w { pool = (release_slot e r b x w.pool).1; leases = rest })
  released-Inv e n r rest b x found =
      let k = subst (PickedOf w.leases) found (pick-Picked n w.leases) in
      let (returns, f, sound) =
        release_slot-Releases e r b x w.pool h.sound (k.out h.out).0 (out-busy r rest k)
          (out-transient r rest k) in
      ((k.out h.out).0, (returns, f, sound), settled-Inv r rest _ k f sound)

  releases-Inv : (e : Env) (n : ℕ) (b : Bool) (x : Reason) → Inv c (step (releases e n b x) w)
  unfolding step
  releases-Inv e n b x = go (pick n w.leases) (pick-Picked n w.leases)
    where
      go :
          (o : Option (SlotReservation × List SlotReservation))
          → PickedOf w.leases o
          → Inv c (release_picked e b x w o)
      go none k = h
      go (some (r, rest)) k =
          let (returns, f, sound) =
            release_slot-Releases e r b x w.pool h.sound (k.out h.out).0 (out-busy r rest k)
              (out-transient r rest k) in
          subst (λ o. Inv c (after_release w rest (o, (release_slot e r b x w.pool).1)))
            (sym returns) (settled-Inv r rest _ k f sound)

step-Inv : (c : Settings) (w : World) (a : Action) → Inv c w → Inv c (step a w)
unfolding step
step-Inv c w (happens e v) h =
    unchanged-Inv c w h _ (perform-SameLeases e v w.pool) (perform-AllSound e v w.pool h.sound)
step-Inv c w (acquires e deadline observed launched kind) h =
    after_round-Inv c w h _ _
      (acquire_round-RoundEnds e kind deadline observed launched w.pool h.sound)
step-Inv c w (wakes b) h = wakes-Inv c w h b
step-Inv c w (releases e n b x) h = releases-Inv c w h e n b x
step-Inv c w opens_session h = opens_session-Inv c w h
step-Inv c w closes_session h = closes_session-Inv c w h

run-Inv : (c : Settings) (w : World) (schedule : List Action) → Inv c w → Inv c (run schedule w)
unfolding run
run-Inv c w [] h = h
run-Inv c w (a ∷ rest) h = run-Inv c (step a w) rest (step-Inv c w a h)

-- After any schedule from a new pool: each slot's `active_contexts` is the number of leases that are
-- out on it and at most `max_contexts_per_browser`, a closing slot has none, the transient and
-- persistent counters are the numbers of such leases and sessions, the sessions are within
-- `max_persistent_contexts`, and `waiting_requests` is the number of requests that wait.
pub run-new_world-Inv : (c : Settings) (schedule : List Action) → Inv c (run schedule (new_world c))
run-new_world-Inv c schedule = run-Inv c _ schedule (new_world-Inv c)
