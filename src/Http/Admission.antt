-- ===== src/Http/Admission.antt =====
-- An admission in src/camouflare/http_transport.py keeps the counters of the capacity exact.
use camouflare.Prelude.{
  ◌++◌, ◌⊎◌, refl, inr, inl, false, true, ◌≤◌, length, Bool, ◌-◌, ◌||◌, not, length-append, ◌∙◌,
  sym, ap, if-holds, ◌==◌, ℕ, suc, ◌+◌, List, [], ◌∷◌, ◌≡◌, arith,
}
use camouflare.Http.Slots.{
  wake, World, is_empty, Answer, release_semaphore, held, locked, acquire, admit, Transport,
  pass_on,
}

-- `n` slots are taken by requests that run, beside those that are free or handed to a request that
-- has not run again; every request that waits is counted; while one is in the queue, no slot is free,
-- or a request that was handed a slot has still to run and will hand on what is free.
pub record IsExact (n : ℕ) (t : Transport) : Type 0 where
  pub slots : t.free + length t.granted + n ≡ t.max_concurrency
  pub waiters : t.waiting ≡ length t.queue + length t.granted
  pub busy : (t.free ≡ 0) ⊎ ((length t.queue ≡ 0) ⊎ (1 ≤ length t.granted))

-- Also outside a stretch of `_acquire` or `_release`, so that the counter of the requests that run
-- and the idle event are exact.
pub record Inv (w : World) : Type 0 where
  pub exact : IsExact w.transport.active w.transport
  pub running : w.transport.active ≡ length w.holders
  pub resting : w.transport.idle ≡ (w.transport.active == 0)

-- One slot is given back.
pub pass_on-IsExact :
    (n : ℕ) (queue : List ℕ) (t : Transport)
    → t.queue ≡ queue
    → IsExact (suc n) t
    → IsExact n (pass_on queue t)
pass_on-IsExact n [] t e x = record {
  slots = omega (arith, x.slots);
  waiters = x.waiters;
  busy = inr (inl (ground (arith, e)));
}
pass_on-IsExact n (r ∷ rs) t e x = record {
  slots = omega (arith, x.slots);
  waiters = ground (arith, x.waiters, e);
  busy = inr (inr (omega arith));
}

pub wake-IsExact :
    (n : ℕ) (queue : List ℕ) (t : Transport)
    → t.queue ≡ queue
    → t.free + length t.granted + n ≡ t.max_concurrency
    → t.waiting ≡ length t.queue + length t.granted
    → IsExact n (wake queue t)
unfolding wake
wake-IsExact n [] t e s w = record { slots = s; waiters = w; busy = inr (inl (ground (arith, e))) }
wake-IsExact n (r ∷ rs) t e s w =
    if-holds (IsExact n) (t.free == 0) _ _
      (λ none_free. record { slots = s; waiters = w; busy = inl (ground (arith, none_free)) })
      (λ some_free.
        let positive : 1 ≤ t.free = ground (arith, some_free) in
        wake-IsExact n rs (record t { free = t.free - 1; queue = rs; granted = r ∷ t.granted }) refl
          (omega (arith, s)) (omega (arith, w, ap length e)))

-- What a semaphore leaves alone.
abbrev pub Same : Transport → Transport → Type 0
Same t u = (u.active ≡ t.active) × (u.idle ≡ t.idle) × (u.accepting ≡ t.accepting)

pub wake-Same : (queue : List ℕ) (t : Transport) → Same t (wake queue t)
unfolding wake
wake-Same [] t = (refl, refl, refl)
wake-Same (r ∷ rs) t =
    if-holds (Same t) (t.free == 0) _ _ (λ _. (refl, refl, refl))
      (λ _. wake-Same rs (record t { free = t.free - 1; queue = rs; granted = r ∷ t.granted }))

pub pass_on-Same : (queue : List ℕ) (t : Transport) → Same t (pass_on queue t)
pass_on-Same [] t = (refl, refl, refl)
pass_on-Same (r ∷ rs) t = (refl, refl, refl)

pub admit-Inv :
    (r : ℕ) (holders : List ℕ) (t : Transport)
    → IsExact (suc t.active) t
    → t.active ≡ length holders
    → t.idle ≡ (t.active == 0)
    → Inv (held r holders (admit t))
unfolding admit release_semaphore
admit-Inv r holders t x running resting =
    if-holds (λ (a : Answer × Transport). Inv (held r holders a)) t.accepting _ _
      (λ _. record {
        exact = record { slots = x.slots; waiters = x.waiters; busy = x.busy };
        running = omega (arith, running);
        resting = ground arith;
      })
      (λ _.
        let (a, i, _) = pass_on-Same t.queue t in
        let y = pass_on-IsExact t.active t.queue t refl x in
        record {
          exact = record { slots = omega (arith, y.slots, a); waiters = y.waiters; busy = y.busy };
          running = a ∙ running;
          resting = i ∙ (resting ∙ ap (λ n. n == 0) (sym a));
        })

is_empty-length : (xs : List ℕ) → is_empty xs ≡ true → length xs ≡ 0
is_empty-length [] h = refl
is_empty-length (x ∷ xs) h = absurd (ground (arith, h))

length-is_empty : (xs : List ℕ) → length xs ≡ 0 → is_empty xs ≡ true
length-is_empty [] h = refl
length-is_empty (x ∷ xs) h = absurd (omega (arith, h))

locked-busy :
    (t : Transport) (r : ℕ)
    → locked t ≡ true
    → (t.free ≡ 0) ⊎ ((length t.queue ≡ 0) ⊎ (1 ≤ length t.granted))
    → (t.free ≡ 0) ⊎ ((length (t.queue ++ (r ∷ [])) ≡ 0) ⊎ (1 ≤ length t.granted))
unfolding locked
locked-busy t r h (inl none_free) = inl none_free
locked-busy t r h (inr (inr handed)) = inr (inr handed)
locked-busy t r h (inr (inl none_queued)) =
    ground (arith, h, length-is_empty t.queue none_queued, length-is_empty t.granted)

unlocked : (t : Transport) → locked t ≡ false → (1 ≤ t.free) × (length t.queue ≡ 0)
unfolding locked
unlocked t h = (ground (arith, h), is_empty-length t.queue (ground (arith, h)))

first_false : (a b : Bool) → a || b ≡ false → a ≡ false
first_false true b h = h
first_false false b h = refl

late_true : (a b c : Bool) → a || b ≡ true → b || c ≡ false → a ≡ true
late_true true b c h k = refl
late_true false true c h k = absurd (ground (arith, k))
late_true false false c h k = h

pub acquire-Inv :
    (r : ℕ) (in_time wait : Bool) (holders : List ℕ) (t : Transport)
    → Inv (record { transport = t; holders = holders })
    → Inv (held r holders (acquire r in_time wait t))
unfolding acquire locked
acquire-Inv r in_time wait holders t v =
    if-holds Held (not t.accepting) _ _ (λ _. v)
      (λ _.
        if-holds Held (locked t || not in_time) _ _
          (λ tried.
            if-holds Held (not in_time || not wait) _ _ (λ _. v)
              (λ late. record {
                exact = record {
                  slots = v.exact.slots;
                  waiters = omega (arith, v.exact.waiters, length-append t.queue (r ∷ []));
                  busy = locked-busy t r (late_true _ _ _ tried late) v.exact.busy;
                };
                running = v.running;
                resting = v.resting;
              }))
          (λ open_.
            admit-Inv r holders (record t { free = t.free - 1 })
              (record {
                slots = omega (arith, v.exact.slots, (unlocked t (first_false _ _ open_)).0);
                waiters = v.exact.waiters;
                busy = inr (inl (unlocked t (first_false _ _ open_)).1);
              })
              v.running v.resting))
  where
    Held : Answer × Transport → Type 0
    Held a = Inv (held r holders a)
