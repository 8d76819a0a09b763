-- ===== src/Http/Capacity.antt =====
-- The counters of the capacity of src/camouflare/http_transport.py are exact, and no slot is lost
-- while a request waits.
use camouflare.Prelude.{
  suc, inl, ◌+◌, refl, inr, false, true, length, Bool, ◌-◌, ◌||◌, contains, remove, length-remove,
  ◌∙◌, sym, ap, if-holds, ◌==◌, ℕ, List, [], ◌∷◌, ◌≡◌, arith,
}
use camouflare.Http.Slots.{
  wake, quiesce, World, quiesces, ends, gives_up, resumes, arrives, Action, new_service, run, step,
  release, give_up, resume, release_semaphore, held, Transport, pass_on,
}
use camouflare.Http.Admission.{
  wake-IsExact, wake-Same, IsExact, Inv, pass_on-IsExact, pass_on-Same, admit-Inv, acquire-Inv,
}

second_true : (a b : Bool) → a || b ≡ true → a ≡ false → b ≡ true
second_true true b h k = absurd (ground (arith, k))
second_true false b h k = h

-- What a waiter leaves behind once it is out of the semaphore.
wake-Inv :
    (holders : List ℕ) (t : Transport)
    → t.free + length t.granted + t.active ≡ t.max_concurrency
    → t.waiting ≡ length t.queue + length t.granted
    → t.active ≡ length holders
    → t.idle ≡ (t.active == 0)
    → Inv (record { transport = wake t.queue t; holders = holders })
wake-Inv holders t s w running resting =
    let (a, i, _) = wake-Same t.queue t in
    let y = wake-IsExact t.active t.queue t refl s w in
    record {
      exact = record { slots = omega (arith, y.slots, a); waiters = y.waiters; busy = y.busy };
      running = a ∙ running;
      resting = i ∙ (resting ∙ ap (λ n. n == 0) (sym a));
    }

resume-Inv :
    (r : ℕ) (holders : List ℕ) (t : Transport)
    → contains t.granted r ≡ true
    → Inv (record { transport = t; holders = holders })
    → Inv (held r holders (resume r t))
unfolding resume
resume-Inv r holders t c v =
    let fewer = length-remove r t.granted c in
    let t' = record t { granted = remove r t.granted; waiting = t.waiting - 1 } in
    let (a, i, _) = wake-Same t.queue t' in
    let y =
      wake-IsExact (suc t.active) t.queue t' refl (omega (arith, v.exact.slots, fewer))
        (omega (arith, v.exact.waiters, fewer)) in
    admit-Inv r holders (wake t.queue t')
      (record { slots = omega (arith, y.slots, a); waiters = y.waiters; busy = y.busy })
      (a ∙ v.running) (i ∙ (v.resting ∙ ap (λ n. n == 0) (sym a)))

give_up-Inv :
    (r : ℕ) (holders : List ℕ) (t : Transport)
    → contains t.granted r || contains t.queue r ≡ true
    → Inv (record { transport = t; holders = holders })
    → Inv (record { transport = give_up r t; holders = holders })
unfolding give_up
give_up-Inv r holders t c v =
    if-holds (λ (u : Transport). Inv (record { transport = u; holders = holders }))
      (contains t.granted r) _ _
      (λ granted.
        let fewer = length-remove r t.granted granted in
        wake-Inv holders
          (record t { free = suc t.free; granted = remove r t.granted; waiting = t.waiting - 1 })
          (omega (arith, v.exact.slots, fewer)) (omega (arith, v.exact.waiters, fewer)) v.running
          v.resting)
      (λ waits.
        let fewer = length-remove r t.queue (second_true _ _ c waits) in
        wake-Inv holders (record t { queue = remove r t.queue; waiting = t.waiting - 1 })
          v.exact.slots (omega (arith, v.exact.waiters, fewer)) v.running v.resting)

release-Inv :
    (r : ℕ) (holders : List ℕ) (t : Transport)
    → contains holders r ≡ true
    → Inv (record { transport = t; holders = holders })
    → Inv (record { transport = release t; holders = remove r holders })
unfolding release release_semaphore
release-Inv r holders t c v =
    let fewer = length-remove r holders c in
    let t' = record t { active = t.active - 1 } in
    let (a, i, _) = pass_on-Same t.queue t' in
    let y = pass_on-IsExact t'.active t.queue t' refl (record {
      slots = omega (arith, v.exact.slots, v.running, fewer);
      waiters = v.exact.waiters;
      busy = v.exact.busy;
    }) in
    let left : IsExact (pass_on t.queue t').active (pass_on t.queue t') = record {
      slots = omega (arith, y.slots, a);
      waiters = y.waiters;
      busy = y.busy;
    } in
    let runs : (pass_on t.queue t').active ≡ length (remove r holders) =
      omega (arith, a, v.running, fewer) in
    let was : (t.active == 0) ≡ false = ground (arith, v.running, fewer) in
    if-holds (λ (u : Transport). Inv (record { transport = u; holders = remove r holders }))
      ((pass_on t.queue t').active == 0) _ _
      (λ none_left. record {
        exact = record { slots = left.slots; waiters = left.waiters; busy = left.busy };
        running = runs;
        resting = sym none_left;
      })
      (λ some_left. record {
        exact = left;
        running = runs;
        resting = i ∙ (v.resting ∙ (was ∙ sym some_left));
      })

step-Inv : (a : Action) (w : World) → Inv w → Inv (step a w)
unfolding step quiesce
step-Inv (arrives r in_time wait) w v = acquire-Inv r in_time wait w.holders w.transport v
step-Inv (resumes r) w v =
    if-holds Inv (contains w.transport.granted r) _ _ (λ c. resume-Inv r w.holders w.transport c v)
      (λ _. v)
step-Inv (gives_up r) w v =
    if-holds Inv _ _ _ (λ c. give_up-Inv r w.holders w.transport c v) (λ _. v)
step-Inv (ends r) w v =
    if-holds Inv (contains w.holders r) _ _ (λ c. release-Inv r w.holders w.transport c v) (λ _. v)
step-Inv quiesces w v = record {
  exact = record { slots = v.exact.slots; waiters = v.exact.waiters; busy = v.exact.busy };
  running = v.running;
  resting = v.resting;
}

run-Inv : (actions : List Action) (w : World) → Inv w → Inv (run actions w)
unfolding run
run-Inv [] w v = v
run-Inv (a ∷ later) w v = run-Inv later (step a w) (step-Inv a w v)

-- After any schedule of requests that arrive, wait, give up, run and end, from a new transport, the
-- slots that are free, handed over or held by a running request are `max_concurrency` together, the
-- counters of running and waiting requests are exact, the idle event is set exactly when none runs,
-- and no slot is free while a request waits in the queue, unless one that was handed a slot has
-- still to run.
pub run-new_service-Inv : (n : ℕ) (actions : List Action) → Inv (run actions (new_service n))
run-new_service-Inv n actions = run-Inv actions (new_service n) (record {
  exact = record { slots = omega arith; waiters = refl; busy = inr (inl refl) };
  running = refl;
  resting = ground arith;
})
