-- ===== src/Pool/Ceiling/Events.antt =====
-- The hard ceiling on browser generations: the loops and the critical sections.
use camouflare.Prelude.{
  ap, ℕ, zero, suc, ◌+◌, Bool, true, false, ◌||◌, not, ◌≡◌, arith, some, inl, inr, ◌==◌, length,
  lookup, Option-cases, ltb, leb,
}
use camouflare.Pool.State.{Settings, Env, Pool, pure, ◌>>=◌, max_abandoned_creations}
use camouflare.Pool.Create.{
  start_create_task, launch, replenish, replenish_rounds, finish_close_slot,
  reconcile_aborted_close,
}
use camouflare.Pool.Keeps.{Keeps, Keeps-get_bind, Keeps-pure, if_post}
use camouflare.Pool.Ceiling.Steps.{Fits}
use camouflare.Pool.Ceiling.Sections.{Fits-le, start_create_task-Fits, settle_close-Fits}

-- `n` launches take at most `n` places.
launch-Fits :
    (c : Settings) (k : ℕ) (e : Env) (n : ℕ) (p : Pool)
    → Fits c (n + k) p
    → Fits c k (launch e n p).1
unfolding launch start_create_task ◌>>=◌
launch-Fits c k e zero p h = Fits-le c k (0 + k) p (omega arith) h
launch-Fits c k e (suc n) p h =
    if_post (λ _ q. Fits c k q)
      (leb (max_abandoned_creations p.settings) (length p.create_watchers)) _ _ p
      (λ _. Fits-le c k (suc n + k) p (omega arith) h)
      (λ _. launch-Fits c k e n _ (
        start_create_task-Fits c (n + k) true p
          (Fits-le c (suc (n + k)) (suc n + k) p (omega arith) h)))

-- The rounds never take the pool past `max_browsers`, which is under the ceiling.
replenish_rounds-room :
    (c : Settings) (e : Env) (p : Pool) → Fits c 0 p → Fits c (replenish_rounds e p + 0) p
unfolding replenish_rounds
replenish_rounds-room c e p h = record {
  settings = h.settings;
  busy = h.busy;
  within = omega (arith, h.within, ap (λ (s : Settings). s.max_browsers) h.settings);
}

pub replenish-Fits : (c : Settings) (e : Env) → Keeps (Fits c 0) (replenish e)
unfolding replenish ◌>>=◌
replenish-Fits c e = record {
  after = λ p h.
      if_post (λ _ q. Fits c 0 q)
        (p.starting || not p.started || p.closed || ltb 0 p.waiting_requests) (pure tt)
        (launch e (replenish_rounds e p)) p (λ _. h)
        (λ _. launch-Fits c 0 e (replenish_rounds e p) p (replenish_rounds-room c e p h));
}

pub finish_close_slot-Fits :
    (c : Settings) (e : Env) (i task : ℕ) (b : Bool) (p : Pool)
    → lookup i p.close_tasks ≡ some task
    → Fits c 0 p
    → Fits c 0 (finish_close_slot e i b p).1
unfolding finish_close_slot ◌>>=◌
finish_close_slot-Fits c e i task b p found h =
    (replenish-Fits c e).after _ (settle_close-Fits c 0 e i task b p found h)

pub reconcile_aborted_close-Fits :
    (c : Settings) (e : Env) (i t : ℕ) → Keeps (Fits c 0) (reconcile_aborted_close e i t)
unfolding reconcile_aborted_close
reconcile_aborted_close-Fits c e i t = Keeps-get_bind _ λ p h.
    elim (Option-cases (lookup i p.close_tasks)) [
      | inl gone ↦ rw gone ((Keeps-pure {P = Fits c 0} tt).after p h)
      | inr (task, found) ↦ rw found (
          if_post (λ _ q. Fits c 0 q) (task == t) (finish_close_slot e i false) (pure tt) p
            (λ _. finish_close_slot-Fits c e i task false p found h)
            (λ _. (Keeps-pure {P = Fits c 0} tt).after p h))
    ]
