-- ===== src/Pool/Releasing.antt =====
-- A release gives one lease back, and never underflows on a lease that is out.
use camouflare.Prelude.{
  ℕ, ◌+◌, ◌<◌, Bool, true, false, ◌&&◌, ◌≡◌, refl, ap, ◌∙◌, sym, arith, ◌==◌, if◌then◌else◌,
}
use camouflare.Pool.State.{
  Reason, Result, ok, SlotReservation, Env, Pool, pure, ◌>>=◌, ◌>>◌, slot_underflow,
  transient_underflow,
}
use camouflare.Pool.Recycle.{is_retiring, mark_retiring, start_close_task, schedule_close}
use camouflare.Pool.Acquire.{is_transient}
use camouflare.Pool.Release.{vacate, retire_released, close_released, release_slot}
use camouflare.Pool.Keeps.{Keeps, keeps, guard_post, if_post, returns_post}
use camouflare.Pool.Stable.{Stable, mark_retiring-Keeps, schedule_close-Keeps}
use camouflare.Pool.Contexts.{SameLeases, SameLeases-refl, SameLeases-Stable}
use camouflare.Pool.Soundness.{AllSound, AllSound-Stable}

-- `q` has one lease less than `p`, that of `r`.
pub record Freed (p q : Pool) (r : SlotReservation) : Type 0 where
  pub settings : q.settings ≡ p.settings
  pub active :
      (i : ℕ)
      → (p.heap i).active_contexts ≡ (if r.slot == i then 1 else 0) + (q.heap i).active_contexts
  pub transient :
      p.transient_contexts ≡ (if is_transient r.kind then 1 else 0) + q.transient_contexts
  pub persistent : q.persistent_contexts ≡ p.persistent_contexts
  pub waiting : q.waiting_requests ≡ p.waiting_requests

Freed-then : {p q t : Pool} (r : SlotReservation) → Freed p q r → SameLeases q t → Freed p t r
Freed-then r f s = record {
  settings = s.settings ∙ f.settings;
  active = λ i. f.active i ∙ ap (λ n. (if r.slot == i then 1 else 0) + n) (sym (s.active i));
  transient = f.transient ∙ ap (λ n. (if is_transient r.kind then 1 else 0) + n) (sym s.transient);
  persistent = s.persistent ∙ f.persistent;
  waiting = s.waiting ∙ f.waiting;
}

module _ {P : Pool → Type 0} (s : Stable P) (i : ℕ) where
  pub retire_released-Keeps : (e : Env) (b : Bool) (x : Reason) → Keeps P (retire_released e i b x)
  unfolding retire_released
  retire_released-Keeps e b x = search (keeps, mark_retiring-Keeps s) depth 12

  pub close_released-Keeps : Keeps P (close_released i)
  unfolding close_released
  close_released-Keeps = search (keeps, schedule_close-Keeps s) depth 12

vacate-Freed :
    (r : SlotReservation) (p : Pool)
    → ((p.heap r.slot).active_contexts == 0) ≡ false
    → (is_transient r.kind && p.transient_contexts == 0) ≡ false
    → Freed p (vacate r p) r
unfolding vacate
vacate-Freed r p busy counted = record {
  settings = refl;
  active = λ i. ground arith;
  transient = ground arith;
  persistent = refl;
  waiting = refl;
}

absurd_eq : true ≡ false → ⊥
absurd_eq h = cc

no_underflow : (b : Bool) (n : ℕ) → (b ≡ true → 0 < n) → (b && n == 0) ≡ true → ⊥
no_underflow true n h z = ground (arith, h refl)
no_underflow false n h z = cc

vacate-AllSound : (r : SlotReservation) (p : Pool) → AllSound p → AllSound (vacate r p)
unfolding vacate
vacate-AllSound r p h = record { at = λ i. ground (arith, h.at i) }

-- No step after the counters have been written raises, on a sound pool.
retire_released_returns :
    (e : Env) (i : ℕ) (b : Bool) (x : Reason) (p : Pool) → (retire_released e i b x p).0 ≡ ok tt
unfolding retire_released mark_retiring ◌>>=◌
retire_released_returns e i b x p = ground arith

schedule_close_returns :
    (i : ℕ) (x : Reason) (p : Pool)
    → ((p.heap i).active_contexts == 0) ≡ true
    → (schedule_close i x p).0 ≡ ok tt
unfolding schedule_close mark_retiring start_close_task ◌>>=◌
schedule_close_returns i x p idle = ground arith

and_right : (a b : Bool) → (a && b) ≡ true → b ≡ true
and_right a b h = ground arith

close_released_returns : (i : ℕ) (p : Pool) → (close_released i p).0 ≡ ok tt
unfolding close_released ◌>>=◌
close_released_returns i p =
    if_post (λ o _. o ≡ ok tt) (is_retiring (p.heap i).state && (p.heap i).active_contexts == 0) _ _
      p (λ test. schedule_close_returns i _ p (and_right _ _ test)) (λ _. refl)

abbrev pub Releases : SlotReservation → Pool → Result SlotReservation → Pool → Type 0
Releases r p o q = (o ≡ ok (record r { released = true })) × Freed p q r × AllSound q

-- The two steps after the counters: the lease is gone, and a slot that may go has gone.
settle_release :
    (e : Env) (r : SlotReservation) (b : Bool) (x : Reason) (p q : Pool)
    → Freed p q r
    → AllSound q
    → let m =
        retire_released e r.slot b x
        >> (close_released r.slot >> pure (record r { released = true })) in
      Releases r p (m q).0 (m q).1
unfolding ◌>>=◌
settle_release e r b x p q f h =
    let t = (retire_released e r.slot b x q).1 in
    let retired =
      (retire_released-Keeps (SameLeases-Stable q) r.slot e b x).after q (SameLeases-refl q) in
    let sound = (retire_released-Keeps AllSound-Stable r.slot e b x).after q h in
    let gone = (close_released-Keeps (SameLeases-Stable t) r.slot).after t (SameLeases-refl t) in
    returns_post (Releases r p) (retire_released e r.slot b x) _ q tt
      (retire_released_returns e r.slot b x q)
      (returns_post (Releases r p) (close_released r.slot) _ t tt (close_released_returns r.slot t)
        (
          refl,
          Freed-then r (Freed-then r f retired) gone,
          (close_released-Keeps AllSound-Stable r.slot).after t sound,
        ))

-- Releasing a lease that is out returns, gives back exactly that lease, and keeps every slot sound.
pub release_slot-Releases :
    (e : Env) (r : SlotReservation) (b : Bool) (x : Reason) (p : Pool)
    → AllSound p
    → r.released ≡ false
    → 0 < (p.heap r.slot).active_contexts
    → (is_transient r.kind ≡ true → 0 < p.transient_contexts)
    → Releases r p (release_slot e r b x p).0 (release_slot e r b x p).1
unfolding release_slot ◌>>=◌
release_slot-Releases e r b x p h out busy counted =
    if_post (Releases r p) r.released _ _ p (λ t. absurd (absurd_eq (sym t ∙ out)))
      λ _.
        guard_post (Releases r p) ((p.heap r.slot).active_contexts == 0) slot_underflow _ p
          (λ z. absurd (ground arith))
          λ nz.
            guard_post (Releases r p) (is_transient r.kind && p.transient_contexts == 0)
              transient_underflow _ p
              (λ z. absurd (no_underflow (is_transient r.kind) p.transient_contexts counted z))
              λ nt.
                settle_release e r b x p (vacate r p) (vacate-Freed r p nz nt)
                  (vacate-AllSound r p h)
