-- ===== src/Pool/Ceiling/Steps.antt =====
-- The hard ceiling on browser generations: the small steps.
use camouflare.Prelude.{
  ℕ, suc, ◌+◌, ◌≤◌, ◌<◌, true, false, ◌≡◌, arith, List, contains, length-remove, length-remove-le,
  length-insert-le, contains-remove_ne,
}
use camouflare.Pool.State.{
  Reason, Settings, Pool, ◌>>=◌, physical_generations, max_physical_generations,
}
use camouflare.Pool.Recycle.{is_closing, mark_retiring, start_close_task, schedule_close}
use camouflare.Pool.Keeps.{Keeps}

-- The generations of `p` fit under the ceiling of `c` with room for `k` more, and a slot with a
-- lease is one of the slots of the pool.
pub record Fits (c : Settings) (k : ℕ) (p : Pool) : Type 0 where
  pub settings : p.settings ≡ c
  pub busy : (i : ℕ) → 0 < (p.heap i).active_contexts → contains p.slots i ≡ true
  pub within : physical_generations p + k ≤ max_physical_generations c

-- A slot that is not closing is in the pool.
abbrev pub Tracked : ℕ → Pool → Type 0
Tracked i p = is_closing (p.heap i).state ≡ false → contains p.slots i ≡ true

module _ (c : Settings) (k : ℕ) where
  pub mark_retiring-Fits : (i : ℕ) (r : Reason) → Keeps (Fits c k) (mark_retiring i r)
  unfolding mark_retiring physical_generations ◌>>=◌
  mark_retiring-Fits i r = record {
    after = λ p h. record {
      settings = h.settings;
      busy = λ j. ground (arith, h.busy j);
      within = h.within;
    };
  }

  -- Closing a slot of the pool only moves it.
  pub schedule_close-Fits :
      (i : ℕ) (r : Reason) (p : Pool) → Tracked i p → Fits c k p → Fits c k (schedule_close i r p).1
  unfolding schedule_close mark_retiring start_close_task physical_generations ◌>>=◌
  schedule_close-Fits i r p t h = record {
    settings = ground (arith, h.settings);
    busy = λ j. ground (arith, h.busy j, contains-remove_ne p.slots i j);
    within =
        ground
          (arith, h.within, length-remove i p.slots, length-insert-le i p.next_task p.close_tasks);
  }

  -- Closing any slot takes one place at most.
  pub schedule_close-takes_one :
      (i : ℕ) (r : Reason) (p : Pool) → Fits c (suc k) p → Fits c k (schedule_close i r p).1
  unfolding schedule_close mark_retiring start_close_task physical_generations ◌>>=◌
  schedule_close-takes_one i r p h = record {
    settings = ground (arith, h.settings);
    busy = λ j. ground (arith, h.busy j, contains-remove_ne p.slots i j);
    within =
        ground (
          arith,
          h.within,
          length-remove-le i p.slots,
          length-insert-le i p.next_task p.close_tasks,
        );
  }

mark_retiring-Tracked : (j i : ℕ) (r : Reason) → Keeps (Tracked j) (mark_retiring i r)
unfolding mark_retiring ◌>>=◌
mark_retiring-Tracked j i r = record { after = λ p t. ground arith }

schedule_close-Tracked :
    (j i : ℕ) (r : Reason) (p : Pool) → Tracked j p → Tracked j (schedule_close i r p).1
unfolding schedule_close mark_retiring start_close_task ◌>>=◌
schedule_close-Tracked j i r p t = ground (arith, contains-remove_ne p.slots i j)

-- Under the ceiling, with every slot of a loop's list tracked.
pub record FitsAll (xs : List ℕ) (c : Settings) (k : ℕ) (p : Pool) : Type 0 where
  pub fits : Fits c k p
  pub tracked : (i : ℕ) → contains xs i ≡ true → Tracked i p

module _ (xs : List ℕ) (c : Settings) (k : ℕ) where
  pub mark_retiring-FitsAll : (i : ℕ) (r : Reason) → Keeps (FitsAll xs c k) (mark_retiring i r)
  mark_retiring-FitsAll i r = record {
    after = λ p h. record {
      fits = (mark_retiring-Fits c k i r).after p h.fits;
      tracked = λ j inside. (mark_retiring-Tracked j i r).after p (h.tracked j inside);
    };
  }

  pub schedule_close-FitsAll :
      (i : ℕ) (r : Reason) → contains xs i ≡ true → Keeps (FitsAll xs c k) (schedule_close i r)
  schedule_close-FitsAll i r inside = record {
    after = λ p h. record {
      fits = schedule_close-Fits c k i r p (h.tracked i inside) h.fits;
      tracked = λ j at. schedule_close-Tracked j i r p (h.tracked j at);
    };
  }
