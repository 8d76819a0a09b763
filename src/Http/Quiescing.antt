-- ===== src/Http/Quiescing.antt =====
-- After `quiesce` of src/camouflare/http_transport.py no request is admitted any more.
use camouflare.Prelude.{
  suc, ◌-◌, ◌==◌, contains, contains-of-remove, remove, ℕ, Bool, true, false, not, List, [], ◌∷◌,
  ◌≡◌, refl, arith, if-holds, ◌∙◌,
}
use camouflare.Http.Slots.{
  wake, Transport, Answer, pass_on, release_semaphore, admit, acquire, resume, give_up, release,
  quiesce, World, Action, arrives, resumes, gives_up, ends, quiesces, held, step, run,
}
use camouflare.Http.Admission.{wake-Same, pass_on-Same}

-- Nothing of `w` is admitted anew in `w'`, and `w'` admits nothing either.
abbrev pub IsDraining : World → World → Type 0
IsDraining w w' =
    (w'.transport.accepting ≡ false)
    × ((r : ℕ) → contains w'.holders r ≡ true → contains w.holders r ≡ true)

admit-IsDraining :
    (w : World) (r : ℕ) (t : Transport)
    → t.accepting ≡ false
    → IsDraining w (held r w.holders (admit t))
unfolding admit release_semaphore
admit-IsDraining w r t h =
    if-holds (λ (a : Answer × Transport). IsDraining w (held r w.holders a)) t.accepting _ _
      (λ open_. absurd (ground (arith, h, open_))) (λ _. ((pass_on-Same t.queue t).2 ∙ h, λ s k. k))

acquire-IsDraining :
    (w : World) (r : ℕ) (in_time wait : Bool)
    → w.transport.accepting ≡ false
    → IsDraining w (held r w.holders (acquire r in_time wait w.transport))
unfolding acquire
acquire-IsDraining w r in_time wait h =
    if-holds (λ (a : Answer × Transport). IsDraining w (held r w.holders a))
      (not w.transport.accepting) _ _ (λ _. (h, λ s k. k))
      (λ open_. absurd (ground (arith, h, open_)))

give_up-accepting : (r : ℕ) (t : Transport) → (give_up r t).accepting ≡ t.accepting
unfolding give_up
give_up-accepting r t =
    if-holds (λ (u : Transport). u.accepting ≡ t.accepting) (contains t.granted r) _ _
      (λ _.
        (wake-Same t.queue (record t {
          free = suc t.free;
          granted = remove r t.granted;
          waiting = t.waiting - 1;
        })).2)
      (λ _.
        (wake-Same (remove r t.queue)
          (record t { queue = remove r t.queue; waiting = t.waiting - 1 })).2)

release-accepting : (t : Transport) → (release t).accepting ≡ t.accepting
unfolding release release_semaphore
release-accepting t =
    let t' = record t { active = t.active - 1 } in
    let same = (pass_on-Same t.queue t').2 in
    if-holds (λ (u : Transport). u.accepting ≡ t.accepting) ((pass_on t.queue t').active == 0) _ _
      (λ _. same) (λ _. same)

step-IsDraining : (a : Action) (w : World) → w.transport.accepting ≡ false → IsDraining w (step a w)
unfolding step quiesce resume
step-IsDraining (arrives r in_time wait) w h = acquire-IsDraining w r in_time wait h
step-IsDraining (resumes r) w h =
    if-holds (IsDraining w) (contains w.transport.granted r) _ _
      (λ _.
        let t = record w.transport {
          granted = remove r w.transport.granted;
          waiting = w.transport.waiting - 1;
        } in
        admit-IsDraining w r (wake t.queue t) ((wake-Same t.queue t).2 ∙ h))
      (λ _. (h, λ s k. k))
step-IsDraining (gives_up r) w h =
    if-holds (IsDraining w) _ _ _ (λ _. (give_up-accepting r w.transport ∙ h, λ s k. k))
      (λ _. (h, λ s k. k))
step-IsDraining (ends r) w h =
    if-holds (IsDraining w) (contains w.holders r) _ _
      (λ _. (release-accepting w.transport ∙ h, λ s k. contains-of-remove w.holders r s k))
      (λ _. (h, λ s k. k))
step-IsDraining quiesces w h = (refl, λ s k. k)

-- Once a transport does not accept requests, no schedule makes it accept or admit another one: all
-- that ever run from then on are requests that ran already.
pub run-IsDraining :
    (actions : List Action) (w : World)
    → w.transport.accepting ≡ false
    → IsDraining w (run actions w)
unfolding run
run-IsDraining [] w h = (h, λ s k. k)
run-IsDraining (a ∷ later) w h =
    let (h', k) = step-IsDraining a w h in
    let (h'', k') = run-IsDraining later (step a w) h' in (h'', λ s c. k s (k' s c))
