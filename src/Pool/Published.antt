-- ===== src/Pool/Published.antt =====
-- camouflare/pool.py: in the states that the pool reaches, `_snapshot_unlocked` does not raise, and so
-- a release, which publishes the metrics of such a snapshot, returns.
use camouflare.Pool.Keeps.{returns_post, if_post}
use camouflare.Prelude.{
  ℕ, ◌+◌, ◌≤◌, ◌<◌, Bool, true, false, List, [], ◌∷◌, some, ◌≡◌, refl, subst, sym, ap, arith,
  contains, ltb,
}
use camouflare.Pool.State.{Reason, Env, Pool, ok, ◌>>=◌, Settings, Slot, SlotReservation}
use camouflare.Pool.Release.{release_slot}
use camouflare.Pool.Releasing.{Releases}
use camouflare.Pool.Snapshot.{
  sum_active, snapshot, snapshot_of, publish_metrics, release_and_publish,
}
use camouflare.Pool.World.{World, Action, pick, run, new_world, count_on, count_transient}
use camouflare.Pool.Leases.{Inv}
use camouflare.Pool.Invariant.{released-Inv, run-new_world-Inv}
use camouflare.Pool.Housed.{Housed, release_slot-Housed, run-new_world-Housed}

-- The leases on the slots of a list.
sum_on : List SlotReservation → List ℕ → ℕ
sum_on rs [] = 0
sum_on rs (i ∷ is) = count_on i rs + sum_on rs is

module _ (r : SlotReservation) (rs : List SlotReservation) where
  sum_on-more : (is : List ℕ) → sum_on rs is ≤ sum_on (r ∷ rs) is
  unfolding sum_on count_on
  sum_on-more [] = omega arith
  sum_on-more (i ∷ is) = ground (arith, sum_on-more is)

  sum_on-counts : (is : List ℕ) → contains is r.slot ≡ true → sum_on rs is + 1 ≤ sum_on (r ∷ rs) is
  unfolding sum_on count_on contains
  sum_on-counts [] present = absurd (ground (arith, present))
  sum_on-counts (i ∷ is) present = grind (arith, sum_on-more is, sum_on-counts is, present)

abbrev AllIn : List ℕ → List SlotReservation → Type 0
AllIn is [] = Unit
AllIn is (r ∷ rs) = (contains is r.slot ≡ true) × AllIn is rs

count_transient-le :
    (is : List ℕ) (rs : List SlotReservation) → AllIn is rs → count_transient rs ≤ sum_on rs is
unfolding count_transient
count_transient-le is [] h = omega arith
count_transient-le is (r ∷ rs) (present, h) =
    ground (arith, count_transient-le is rs h, sum_on-counts r rs is present)

sum_on-active :
    (h : ℕ → Slot) (rs : List SlotReservation) (is : List ℕ)
    → ((i : ℕ) → (h i).active_contexts ≡ count_on i rs)
    → sum_active h is ≡ sum_on rs is
unfolding sum_active sum_on
sum_on-active h rs [] e = refl
sum_on-active h rs (i ∷ is) e = omega (arith, e i, sum_on-active h rs is e)

-- The leases of a list are on slots that are in use.
AllIn-busy :
    (is : List ℕ) (rs all : List SlotReservation)
    → ((i : ℕ) → 0 < count_on i all → contains is i ≡ true)
    → ((i : ℕ) → count_on i rs ≤ count_on i all)
    → AllIn is rs
unfolding count_on
AllIn-busy is [] all busy le = tt
AllIn-busy is (r ∷ rs) all busy le =
    (busy r.slot (ground (arith, le r.slot)), AllIn-busy is rs all busy (λ i. ground (arith, le i)))

-- The stateless requests' contexts are within those of the slots in service.
pub counted :
    (c : Settings) (w : World)
    → Inv c w
    → Housed w.pool
    → w.pool.transient_contexts ≤ sum_active w.pool.heap w.pool.slots
counted c w h k =
    let is = w.pool.slots in
    let busy : (i : ℕ) → 0 < count_on i w.leases → contains is i ≡ true =
      λ i some_out. k.in_service i (omega (arith, some_out, h.active i)) in
    let within =
      count_transient-le is w.leases (AllIn-busy is w.leases w.leases busy (λ i. omega arith)) in
    omega (arith, h.transient, within, sum_on-active w.pool.heap w.leases is h.active)

module _ (e : Env) (p : Pool) (within : p.transient_contexts ≤ sum_active p.heap p.slots) where
  pub snapshot_returns : snapshot e p ≡ (ok (snapshot_of e p), p)
  unfolding snapshot ◌>>=◌
  snapshot_returns =
      let test : ltb (sum_active p.heap p.slots) p.transient_contexts ≡ false =
        ground (arith, within) in
      simp test refl

  publish_metrics_returns : publish_metrics e p ≡ (ok tt, p)
  unfolding publish_metrics ◌>>=◌
  publish_metrics_returns = rw snapshot_returns refl

-- After any schedule, the whole release of any lease that is out, metrics included, returns, gives
-- back exactly that lease, and keeps every slot sound.
pub release_and_publish-Releases :
    (c : Settings) (schedule : List Action) (e : Env) (n : ℕ) (r : SlotReservation)
    (rest : List SlotReservation) (b : Bool) (x : Reason)
    → pick n (run schedule (new_world c)).leases ≡ some (r, rest)
    → let p = (run schedule (new_world c)).pool in
      Releases r p (release_and_publish e r b x p).0 (release_and_publish e r b x p).1
unfolding release_and_publish ◌>>=◌
release_and_publish-Releases c schedule e n r rest b x found =
    let w = run schedule (new_world c) in
    let q = (release_slot e r b x w.pool).1 in
    let (out, done, inv) = released-Inv c w (run-new_world-Inv c schedule) e n r rest b x found in
    let housed = (release_slot-Housed e r b x).after w.pool (run-new_world-Housed c schedule) in
    let published =
      publish_metrics_returns e q (counted c (record w { pool = q; leases = rest }) inv housed) in
    if_post (Releases r w.pool) r.released _ _ w.pool (λ t. absurd (ground (arith, t, out)))
      (λ _. returns_post (Releases r w.pool) (release_slot e r b x) _ w.pool _ done.0 (
        returns_post (Releases r w.pool) (publish_metrics e) _ q tt (ap (λ o. o.0) published) (
          subst (λ t. Releases r w.pool (ok (record r { released = true })) t)
            (sym (ap (λ o. o.1) published)) (refl, done.1, done.2))))
