-- ===== src/Pool/Ceiling/Life.antt =====
-- The hard ceiling on browser generations: start, maintenance and shutdown.
use camouflare.Prelude.{
  ℕ, ◌+◌, ◌≤◌, Bool, true, false, ◌||◌, ◌≡◌, ap, arith, List, ◌++◌, ◌==◌, length, contains,
  length-append, contains-append, if◌then◌else◌, ltb,
}
use camouflare.Pool.State.{
  error, shutdown, Settings, Env, Pool, pure, ◌>>=◌, for_each, physical_generations,
  max_physical_generations, startup_quarantine, pool_closed,
}
use camouflare.Pool.Recycle.{schedule_close}
use camouflare.Pool.Create.{finish_create_task, abandon_create_task}
use camouflare.Pool.Lifecycle.{
  start_create_tasks, begin_start, stop_starting, abort_startup, fail_startup,
  register_started_slots, retire_for_good, recover_cancelled_start, refresh, maintain, begin_close,
}
use camouflare.Pool.Keeps.{
  Keeps, Keeps-modify, Keeps-for_each, for_each_in, then_post, if_post, guard_post, keeps,
}
use camouflare.Pool.Ceiling.Steps.{Fits, FitsAll, Tracked}
use camouflare.Pool.Ceiling.Events.{replenish-Fits}
use camouflare.Pool.Ceiling.Sections.{Fits-le, refresh_recycling-Fits, abandon_create_task-Fits}
use camouflare.Pool.Ceiling.Marks.{
  retire_created-takes, start_create_tasks-Fits, finish_all-frees, close_all-takes,
  retire_for_good-FitsAll, retire_all-Fits, abandon_all-Fits, retry_all_failed-Fits,
  finish_create_task-FitsAll, Covered,
}

module _ (c : Settings) where
  closed-Fits : (k : ℕ) (p : Pool) → Fits c k p → Fits c k (record p { closed = true })
  unfolding physical_generations
  closed-Fits k p h = record { settings = h.settings; busy = h.busy; within = h.within }

  stop_starting-Fits : (k : ℕ) (p : Pool) → Fits c k p → Fits c k (stop_starting p)
  unfolding physical_generations
  stop_starting-Fits k p h = record { settings = h.settings; busy = h.busy; within = h.within }

  append_all-Fits :
      (k : ℕ) (xs : List ℕ) (p : Pool)
      → Fits c (length xs + k) p
      → Fits c k (record p { slots = p.slots ++ xs })
  unfolding physical_generations
  append_all-Fits k xs p h = record {
    settings = h.settings;
    busy = λ j. ground (arith, h.busy j, contains-append p.slots xs j);
    within = omega (arith, h.within, length-append p.slots xs);
  }

  pub begin_close-Fits : (k : ℕ) (a b : Bool) → Keeps (Fits c k) (begin_close a b)
  unfolding begin_close
  begin_close-Fits k a b =
      search
        (keeps, closed-Fits, Keeps-modify, abandon_all-Fits, retire_all-Fits, retry_all_failed-Fits)
        depth 16

  pub refresh-Fits : (k : ℕ) (e : Env) → Keeps (Fits c k) (refresh e)
  unfolding refresh
  refresh-Fits k e = search (keeps, refresh_recycling-Fits) depth 12

  pub maintain-Fits : (e : Env) → Keeps (Fits c 0) (maintain e)
  unfolding maintain
  maintain-Fits e = search (keeps, refresh_recycling-Fits, replenish-Fits) depth 12

  pub abort_startup-Fits : (k : ℕ) (ts : List ℕ) → Keeps (Fits c k) (abort_startup ts)
  unfolding abort_startup
  abort_startup-Fits k ts =
      search (keeps, Keeps-modify, stop_starting-Fits, abandon_create_task-Fits) depth 12

  -- A startup that fails closes at most as many browsers as it had launches that ended.
  pub fail_startup-Fits :
      (done pending created : List ℕ) (p : Pool)
      → Covered done p.create_tasks
      → length created ≤ length done
      → Fits c 0 p
      → Fits c 0 (fail_startup done pending created p).1
  unfolding fail_startup ◌>>=◌
  fail_startup-Fits done pending created p covered fewer h =
      then_post (Fits c (length created)) (Fits c 0) (for_each finish_create_task done) _ p
        (Fits-le c (length created) (length done + 0) _ (omega (arith, fewer))
          (finish_all-frees c 0 done p covered h))
        (λ q. Fits-le c 0 (length created) q (omega arith))
        λ _ q hq.
          then_post (Fits c (length created)) (Fits c 0) (for_each abandon_create_task pending) _ q
            ((Keeps-for_each abandon_create_task pending
                (abandon_create_task-Fits c (length created))).after
              q hq)
            (λ t. Fits-le c 0 (length created) t (omega arith))
            λ _ t ht.
              then_post (Fits c 0) (Fits c 0) (for_each (λ i. schedule_close i error) created) _ t
                (close_all-takes c 0 error created t
                  (Fits-le c (length created + 0) (length created) t (omega arith) ht))
                (λ _ k. k) (λ _ u hu. stop_starting-Fits 0 u hu)

  -- A startup that ends well gives the places of its launches to its slots; one that was cancelled
  -- gives them to closes.
  pub register_started_slots-Fits :
      (ts created : List ℕ) (cancelled : Bool) (p : Pool)
      → Covered ts p.create_tasks
      → length created ≤ length ts
      → Fits c 0 p
      → Fits c 0 (register_started_slots ts created cancelled p).1
  unfolding register_started_slots ◌>>=◌
  register_started_slots-Fits ts created cancelled p covered fewer h =
      then_post (Fits c (length created + 0)) (Fits c 0) (for_each finish_create_task ts) _ p
        (Fits-le c (length created + 0) (length ts + 0) _ (omega (arith, fewer))
          (finish_all-frees c 0 ts p covered h))
        (λ q. Fits-le c 0 (length created + 0) q (omega arith))
        λ _ q hq.
          if_post (λ _ t. Fits c 0 t) (q.closed || cancelled) _ _ q
            (λ _.
              then_post (Fits c 0) (Fits c 0)
                (for_each (λ i. schedule_close i (if q.closed then shutdown else error)) created) _
                q (close_all-takes c 0 _ created q hq) (λ _ k. k) (λ _ _ k. k))
            (λ _. append_all-Fits 0 created q hq)

  -- Recovery of a startup whose slots are in the pool or closing.
  pub recover_cancelled_start-Fits :
      (ts created : List ℕ) (p : Pool)
      → ((i : ℕ) → contains created i ≡ true → Tracked i p)
      → Fits c 0 p
      → Fits c 0 (recover_cancelled_start ts created p).1
  unfolding recover_cancelled_start ◌>>=◌
  recover_cancelled_start-Fits ts created p tracked h =
      then_post (FitsAll created c 0) (Fits c 0) (for_each finish_create_task ts) _ p
        ((Keeps-for_each finish_create_task ts (finish_create_task-FitsAll c created)).after p
          (record { fits = h; tracked = tracked }))
        (λ _ k. k.fits)
        (λ _ q k.
          ((for_each_in (retire_for_good false) created
              (retire_for_good-FitsAll c 0 created false)).after
            q k).fits)

  -- Recovery of a startup whose registration failed before it had added the slots: the places of the
  -- launches go to the closes.
  pub recover_unregistered-Fits :
      (ts created : List ℕ) (p : Pool)
      → Covered ts p.create_tasks
      → length created ≤ length ts
      → Fits c 0 p
      → Fits c 0 (recover_cancelled_start ts created p).1
  unfolding recover_cancelled_start ◌>>=◌
  recover_unregistered-Fits ts created p covered fewer h =
      then_post (Fits c (length created + 0)) (Fits c 0) (for_each finish_create_task ts) _ p
        (Fits-le c (length created + 0) (length ts + 0) _ (omega (arith, fewer))
          (finish_all-frees c 0 ts p covered h))
        (λ q. Fits-le c 0 (length created + 0) q (omega arith))
        (λ _ q hq. retire_created-takes c 0 false created q hq)

  -- A start that passes its quarantine test has room for all its launches.
  pub begin_start-Fits : Keeps (Fits c 0) begin_start
  unfolding begin_start physical_generations ◌>>=◌
  begin_start-Fits = record {
    after = λ p h.
        if_post (λ _ q. Fits c 0 q) p.started (pure tt) _ p (λ _. h)
          λ _.
            guard_post (λ _ q. Fits c 0 q) p.closed pool_closed _ p (λ _. h)
              λ _.
                guard_post (λ _ q. Fits c 0 q)
                  (ltb (max_physical_generations p.settings)
                    (physical_generations p + p.min_browsers))
                  startup_quarantine _ p (λ _. h)
                  λ room.
                    then_post (Fits c 0) (Fits c 0) (start_create_tasks p.min_browsers) _
                      (record p { started = true; starting = true })
                      (start_create_tasks-Fits c 0 p.min_browsers _ (record {
                        settings = h.settings;
                        busy = h.busy;
                        within =
                            ground (arith, h.within, room, ap max_physical_generations h.settings);
                      }))
                      (λ _ k. k)
                      (λ _ q k.
                        if_post (λ _ t. Fits c 0 t) (p.min_browsers == 0) _ (pure tt) q
                          (λ _. record { settings = k.settings; busy = k.busy; within = k.within })
                          (λ _. k));
  }
