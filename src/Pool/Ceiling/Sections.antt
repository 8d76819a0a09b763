-- ===== src/Pool/Ceiling/Sections.antt =====
-- The hard ceiling on browser generations: the critical sections that move a slot.
use camouflare.Prelude.{
  ℕ, suc, ◌≤◌, Bool, true, ◌≡◌, arith, List, [], ◌∷◌, ◌++◌, none, some, contains, remove, lookup,
  length-remove, length-remove-le, length-insert-le, length-delete, length-add_new-le,
  length-append, lookup-insert, contains-append, contains-remove_ne,
}
use camouflare.Pool.State.{Settings, Env, Pool, ◌>>=◌, for_each, physical_generations}
use camouflare.Pool.Recycle.{
  start_close_task, schedule_failed_close_retry, retry_failed_close, retry_failed_closes,
  retire_disconnected, retire_exhausted, close_idle, refresh_slot, refresh_recycling,
}
use camouflare.Pool.Create.{
  start_create_task, finish_create_task, abandon_create_task, settle_close, admit_slot,
  supervise_timeout, supervise_failure, supervise_success, finish_abandoned_creation,
  reconcile_late_physical_close,
}
use camouflare.Pool.Keeps.{Keeps, Keeps-get_bind, for_each_in, seq_post, if_post, keeps}
use camouflare.Pool.Ceiling.Steps.{
  Fits, FitsAll, mark_retiring-FitsAll, schedule_close-FitsAll, schedule_close-takes_one,
}

module _ (xs : List ℕ) (c : Settings) (k : ℕ) where
  refresh_slot-FitsAll :
      (e : Env) (i : ℕ) → contains xs i ≡ true → Keeps (FitsAll xs c k) (refresh_slot e i)
  unfolding refresh_slot retire_disconnected retire_exhausted close_idle
  refresh_slot-FitsAll e i inside =
      search (keeps, mark_retiring-FitsAll, schedule_close-FitsAll) depth 16

-- The retries of a loop over failed closes: a slot of the list is still failed, or it is closing.
abbrev pub Held : ℕ → Pool → Type 0
Held i p = lookup i p.close_tasks ≡ none → contains p.failed_close_slots i ≡ true

pub record FitsHeld (xs : List ℕ) (c : Settings) (k : ℕ) (p : Pool) : Type 0 where
  pub fits : Fits c k p
  pub held : (i : ℕ) → contains xs i ≡ true → Held i p

module _ (xs : List ℕ) (c : Settings) (k : ℕ) where
  pub retry-FitsHeld :
      (i : ℕ) → contains xs i ≡ true → Keeps (FitsHeld xs c k) (schedule_failed_close_retry i)
  unfolding schedule_failed_close_retry start_close_task physical_generations ◌>>=◌
  retry-FitsHeld i inside = record {
    after = λ p h. record {
      fits = record {
        settings = ground (arith, h.fits.settings);
        busy = λ j. ground (arith, h.fits.busy j);
        within = ground (
          arith,
          h.fits.within,
          h.held i inside,
          length-remove i p.failed_close_slots,
          length-insert-le i p.next_task p.close_tasks,
        );
      };
      held = λ j at. ground (
        arith,
        h.held j at,
        contains-remove_ne p.failed_close_slots i j,
        lookup-insert i j p.next_task p.close_tasks,
      );
    };
  }

  retry_failed_close-FitsHeld :
      (e : Env) (i : ℕ) → contains xs i ≡ true → Keeps (FitsHeld xs c k) (retry_failed_close e i)
  unfolding retry_failed_close
  retry_failed_close-FitsHeld e i inside = search (keeps, retry-FitsHeld) depth 12

module _ (c : Settings) (k : ℕ) where
  retry_failed_closes-Fits : (e : Env) → Keeps (Fits c k) (retry_failed_closes e)
  unfolding retry_failed_closes
  retry_failed_closes-Fits e = Keeps-get_bind _ λ p h.
      ((for_each_in (retry_failed_close e) p.failed_close_slots
          (retry_failed_close-FitsHeld p.failed_close_slots c k e)).after
        p (record { fits = h; held = λ i inside _. inside })).fits

  pub refresh_recycling-Fits : (e : Env) → Keeps (Fits c k) (refresh_recycling e)
  unfolding refresh_recycling
  refresh_recycling-Fits e = Keeps-get_bind _ λ p h.
      seq_post (for_each (refresh_slot e) p.slots) _ p
        ((for_each_in (refresh_slot e) p.slots (refresh_slot-FitsAll p.slots c k e)).after p
          (record { fits = h; tracked = λ i inside _. inside })).fits
        (λ _. retry_failed_closes-Fits e)

  pub Fits-le : (j : ℕ) (p : Pool) → k ≤ j → Fits c j p → Fits c k p
  Fits-le j p le h = record {
    settings = h.settings;
    busy = h.busy;
    within = omega (arith, h.within, le);
  }

  pub finish_create_task-Fits : (t : ℕ) → Keeps (Fits c k) (finish_create_task t)
  unfolding finish_create_task physical_generations ◌>>=◌
  finish_create_task-Fits t = record {
    after = λ p h. record {
      settings = h.settings;
      busy = h.busy;
      within = omega (arith, h.within, length-remove-le t p.create_tasks);
    };
  }

  -- The place of a launch that is counted is free once it has finished.
  pub finish_create_task-frees :
      (t : ℕ) (p : Pool)
      → contains p.create_tasks t ≡ true
      → Fits c k p
      → Fits c (suc k) (finish_create_task t p).1
  unfolding finish_create_task physical_generations ◌>>=◌
  finish_create_task-frees t p counted h = record {
    settings = h.settings;
    busy = h.busy;
    within = omega (arith, h.within, length-remove t p.create_tasks counted);
  }

  pub abandon_create_task-Fits : (t : ℕ) → Keeps (Fits c k) (abandon_create_task t)
  unfolding abandon_create_task finish_create_task physical_generations ◌>>=◌
  abandon_create_task-Fits t = record {
    after = λ p h. record {
      settings = ground (arith, h.settings);
      busy = λ j. ground (arith, h.busy j);
      within = ground (arith, h.within, length-remove t p.create_tasks);
    };
  }

  pub start_create_task-Fits :
      (b : Bool) (p : Pool) → Fits c (suc k) p → Fits c k (start_create_task b p).1
  unfolding start_create_task physical_generations ◌>>=◌
  start_create_task-Fits b p h = record {
    settings = h.settings;
    busy = h.busy;
    within = omega (arith, h.within);
  }

  -- A browser that enters service takes one place.
  append_slot-Fits :
      (i : ℕ) (p : Pool) → Fits c (suc k) p → Fits c k (record p { slots = p.slots ++ i ∷ [] })
  unfolding physical_generations
  append_slot-Fits i p h = record {
    settings = h.settings;
    busy = λ j. ground (arith, h.busy j, contains-append p.slots (i ∷ []) j);
    within = omega (arith, h.within, length-append p.slots (i ∷ []));
  }

  admit_slot-Fits : (i : ℕ) (p : Pool) → Fits c (suc k) p → Fits c k (admit_slot i p).1
  unfolding admit_slot ◌>>=◌
  admit_slot-Fits i p h =
      if_post (λ _ q. Fits c k q) p.closed _ _ p (λ _. schedule_close-takes_one c k i _ p h)
        (λ _. append_slot-Fits i p h)

  pub supervise_timeout-Fits : (t : ℕ) → Keeps (Fits c k) (supervise_timeout t)
  unfolding supervise_timeout
  supervise_timeout-Fits t = search (keeps, abandon_create_task-Fits) depth 12

  pub supervise_failure-Fits : (t x : ℕ) → Keeps (Fits c k) (supervise_failure t x)
  unfolding supervise_failure finish_create_task physical_generations ◌>>=◌
  supervise_failure-Fits t x = record {
    after = λ p h. record {
      settings = ground (arith, h.settings);
      busy = λ j. ground (arith, h.busy j);
      within = ground (arith, h.within, length-remove-le t p.create_tasks);
    };
  }

  -- A supervised launch that returns a browser moves it from the launches to the slots.
  pub supervise_success-Fits : (t : ℕ) → Keeps (Fits c k) (supervise_success t)
  unfolding supervise_success finish_create_task ◌>>=◌
  supervise_success-Fits t = record {
    after = λ p h.
        if_post (λ _ q. Fits c k q) (contains p.create_tasks t) _ _ p
          (λ counted. admit_slot-Fits t _ (finish_create_task-frees t p counted h)) (λ _. h);
  }

  -- The watcher of an abandoned launch gives its place to the browser that came after all.
  pub finish_abandoned_creation-Fits :
      (t : ℕ) (b : Bool) (p : Pool)
      → contains p.create_watchers t ≡ true
      → Fits c k p
      → Fits c k (finish_abandoned_creation t b p).1
  unfolding finish_abandoned_creation physical_generations ◌>>=◌
  finish_abandoned_creation-Fits t b p counted h =
      if_post (λ _ q. Fits c k q) b _ _ rest (λ _. schedule_close-takes_one c k t _ rest freed)
        (λ _. Fits-le (suc k) rest (omega arith) freed)
    where
      rest : Pool
      rest = record p { create_watchers = remove t p.create_watchers }

      freed : Fits c (suc k) rest
      freed = record {
        settings = h.settings;
        busy = h.busy;
        within = omega (arith, h.within, length-remove t p.create_watchers counted);
      }

  pub reconcile_late_physical_close-Fits :
      (i : ℕ) (b : Bool) → Keeps (Fits c k) (reconcile_late_physical_close i b)
  unfolding reconcile_late_physical_close physical_generations ◌>>=◌
  reconcile_late_physical_close-Fits i b = record {
    after = λ p h. record {
      settings = ground (arith, h.settings);
      busy = λ j. ground (arith, h.busy j);
      within = ground (arith, h.within, length-remove-le i p.failed_close_slots);
    };
  }

  -- A close that ends leaves the pool, or waits among the failed ones.
  pub settle_close-Fits :
      (e : Env) (i task : ℕ) (b : Bool) (p : Pool)
      → lookup i p.close_tasks ≡ some task
      → Fits c k p
      → Fits c k (settle_close e i b p)
  unfolding settle_close physical_generations
  settle_close-Fits e i task b p found h = record {
    settings = ground (arith, h.settings);
    busy = λ j. ground (arith, h.busy j);
    within = ground (
      arith,
      h.within,
      length-delete i task p.close_tasks found,
      length-remove-le i p.failed_close_slots,
      length-add_new-le i p.failed_close_slots,
    );
  }
