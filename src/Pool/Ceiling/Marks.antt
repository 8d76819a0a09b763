-- ===== src/Pool/Ceiling/Marks.antt =====
-- The hard ceiling on browser generations: the loops of start, maintenance and shutdown.
use camouflare.Prelude.{
  if◌then◌else◌, ◌==◌, ℕ, zero, suc, ◌+◌, ◌<◌, Bool, true, false, ◌≡◌, subst, ◌∙◌, arith, List, [],
  ◌∷◌, length, contains, remove,
}
use camouflare.Pool.State.{
  error, shutdown, Slot, Reason, Settings, Pool, modify, ◌>>=◌, for_each, physical_generations,
}
use camouflare.Pool.Recycle.{mark_retiring, schedule_close, schedule_failed_close_retry}
use camouflare.Pool.Create.{start_create_task, finish_create_task}
use camouflare.Pool.Lifecycle.{
  start_create_tasks, retire_for_good, retire_all, abandon_all, quiesce, retry_all_failed,
}
use camouflare.Pool.Keeps.{
  if_post, Keeps, Keeps-modify, Keeps-get_bind, for_each_in, bind_post, seq_post, keeps,
}
use camouflare.Pool.Ceiling.Steps.{
  Fits, mark_retiring-Fits, Fits, FitsAll, mark_retiring-FitsAll, schedule_close-FitsAll,
  schedule_close-takes_one,
}
use camouflare.Pool.Ceiling.Sections.{
  retry-FitsHeld, Fits-le, finish_create_task-Fits, finish_create_task-frees,
  abandon_create_task-Fits, start_create_task-Fits,
}

-- The tasks of a list are all among the launches, each as often as it stands in the list.
abbrev pub Covered : List ℕ → List ℕ → Type 0
Covered [] ts = Unit {0}
Covered (x ∷ xs) ts = (contains ts x ≡ true) × Covered xs (remove x ts)

module _ (c : Settings) where
  -- A write to the flags.
  flags-Fits :
      (k : ℕ) (f : Pool → Pool)
      → ((p : Pool)
          → ((f p).settings ≡ p.settings)
            × ((f p).heap ≡ p.heap)
            × ((f p).slots ≡ p.slots)
            × (physical_generations (f p) ≡ physical_generations p))
      → Keeps (Fits c k) (modify f)
  flags-Fits k f same = Keeps-modify f λ p h. record {
    settings = (same p).0 ∙ h.settings;
    busy = λ i busy. cc (
      (same p).2,
      h.busy i (subst (λ (g : ℕ → Slot). 0 < (g i).active_contexts) (same p).1 busy),
    );
    within = omega (arith, h.within, (same p).3);
  }

  pub start_create_tasks-Fits :
      (k n : ℕ) (p : Pool) → Fits c (n + k) p → Fits c k (start_create_tasks n p).1
  unfolding start_create_tasks start_create_task ◌>>=◌
  start_create_tasks-Fits k zero p h = Fits-le c k (0 + k) p (omega arith) h
  start_create_tasks-Fits k (suc n) p h = start_create_tasks-Fits k n _ (
      start_create_task-Fits c (n + k) false p
        (Fits-le c (suc (n + k)) (suc n + k) p (omega arith) h))

  -- Every finished launch of a covered list frees its place.
  pub finish_all-frees :
      (k : ℕ) (ts : List ℕ) (p : Pool)
      → Covered ts p.create_tasks
      → Fits c k p
      → Fits c (length ts + k) (for_each finish_create_task ts p).1
  unfolding for_each finish_create_task ◌>>=◌
  finish_all-frees k [] p covered h = Fits-le c (0 + k) k p (omega arith) h
  finish_all-frees k (t ∷ ts) p covered h =
      Fits-le c (suc (length ts) + k) (length ts + suc k) _ (omega arith)
        (finish_all-frees (suc k) ts _ covered.1 (finish_create_task-frees c k t p covered.0 h))

  pub close_all-takes :
      (k : ℕ) (r : Reason) (xs : List ℕ) (p : Pool)
      → Fits c (length xs + k) p
      → Fits c k (for_each (λ i. schedule_close i r) xs p).1
  unfolding for_each ◌>>=◌
  close_all-takes k r [] p h = Fits-le c k (0 + k) p (omega arith) h
  close_all-takes k r (x ∷ xs) p h =
      bind_post (λ _ q. Fits c k q) (schedule_close x r)
        (λ _. for_each (λ i. schedule_close i r) xs) p
        (λ _ q eq. close_all-takes k r xs q (subst (λ o. Fits c (length xs + k) o.1) eq closed_one))
        (λ _ q eq.
          Fits-le c k (length xs + k) q (omega arith)
            (subst (λ o. Fits c (length xs + k) o.1) eq closed_one))
    where
      closed_one : Fits c (length xs + k) (schedule_close x r p).1
      closed_one =
          schedule_close-takes_one c (length xs + k) x r p
            (Fits-le c (suc (length xs + k)) (suc (length xs) + k) p (omega arith) h)

  -- Retiring a browser that the pool never held takes one place for its close.
  retire_for_good-takes_one :
      (k : ℕ) (b : Bool) (i : ℕ) (p : Pool) → Fits c (suc k) p → Fits c k (retire_for_good b i p).1
  unfolding retire_for_good mark_retiring ◌>>=◌
  retire_for_good-takes_one k b i p h =
      let r = if b then shutdown else error in
      let q = (mark_retiring i r p).1 in
      let marked = (mark_retiring-Fits c (suc k) i r).after p h in
      if_post (λ _ t. Fits c k t) ((q.heap i).active_contexts == 0) _ _ q
        (λ _. schedule_close-takes_one c k i r q marked)
        (λ _. Fits-le c k (suc k) q (omega arith) marked)

  pub retire_created-takes :
      (k : ℕ) (b : Bool) (xs : List ℕ) (p : Pool)
      → Fits c (length xs + k) p
      → Fits c k (for_each (retire_for_good b) xs p).1
  unfolding for_each ◌>>=◌
  retire_created-takes k b [] p h = Fits-le c k (0 + k) p (omega arith) h
  retire_created-takes k b (x ∷ xs) p h =
      bind_post (λ _ q. Fits c k q) (retire_for_good b x) (λ _. for_each (retire_for_good b) xs) p
        (λ _ q eq.
          retire_created-takes k b xs q (subst (λ o. Fits c (length xs + k) o.1) eq retired))
        (λ _ q eq.
          Fits-le c k (length xs + k) q (omega arith)
            (subst (λ o. Fits c (length xs + k) o.1) eq retired))
    where
      retired : Fits c (length xs + k) (retire_for_good b x p).1
      retired =
          retire_for_good-takes_one (length xs + k) b x p
            (Fits-le c (suc (length xs + k)) (suc (length xs) + k) p (omega arith) h)

  pub retire_for_good-FitsAll :
      (k : ℕ) (xs : List ℕ) (b : Bool) (i : ℕ)
      → contains xs i ≡ true
      → Keeps (FitsAll xs c k) (retire_for_good b i)
  unfolding retire_for_good
  retire_for_good-FitsAll k xs b i inside =
      search (keeps, mark_retiring-FitsAll, schedule_close-FitsAll) depth 16

  pub retire_all-Fits : (k : ℕ) → Keeps (Fits c k) retire_all
  unfolding retire_all
  retire_all-Fits k = Keeps-get_bind _ λ p h.
      ((for_each_in (retire_for_good true) p.slots (retire_for_good-FitsAll k p.slots true)).after p
        (record { fits = h; tracked = λ i inside _. inside })).fits

  pub abandon_all-Fits : (k : ℕ) → Keeps (Fits c k) abandon_all
  unfolding abandon_all
  abandon_all-Fits k = search (keeps, abandon_create_task-Fits) depth 12

  pub retry_all_failed-Fits : (k : ℕ) → Keeps (Fits c k) retry_all_failed
  unfolding retry_all_failed
  retry_all_failed-Fits k = Keeps-get_bind _ λ p h.
      ((for_each_in schedule_failed_close_retry p.failed_close_slots
          (retry-FitsHeld p.failed_close_slots c k)).after
        p (record { fits = h; held = λ i inside _. inside })).fits

  pub finish_create_task-FitsAll :
      (xs : List ℕ) (t : ℕ) → Keeps (FitsAll xs c 0) (finish_create_task t)
  unfolding finish_create_task ◌>>=◌
  finish_create_task-FitsAll xs t = record {
    after = λ p h. record {
      fits = (finish_create_task-Fits c 0 t).after p h.fits;
      tracked = λ i inside. h.tracked i inside;
    };
  }

  pub quiesce-Fits : (k : ℕ) → Keeps (Fits c k) quiesce
  unfolding quiesce physical_generations ◌>>=◌
  quiesce-Fits k = record {
    after = λ p h.
        seq_post abandon_all (λ _. retire_all) (record p { closed = true })
          ((abandon_all-Fits k).after _
            (record { settings = h.settings; busy = h.busy; within = h.within }))
          (λ _. retire_all-Fits k);
  }
