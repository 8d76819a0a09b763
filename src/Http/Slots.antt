-- ===== src/Http/Slots.antt =====
-- The capacity of src/camouflare/http_transport.py: `HttpTransport._acquire`, `_release`, `quiesce`,
-- `snapshot` and the wait of `close`, over the semaphore of the standard library.
use camouflare.Prelude.{
  ◌==◌, contains, remove, if◌then◌else◌, ℕ, suc, ◌-◌, Bool, true, false, not, ◌&&◌, ◌||◌, List, [],
  ◌∷◌, ◌++◌,
}

-- `free` is the semaphore's value. A release hands its slot to the first request of `queue`, which
-- then is in `granted` until it runs again; both lists make up the semaphore's waiters.
pub record Transport : Type 0 where
  pub max_concurrency : ℕ
  pub free : ℕ
  pub granted : List ℕ
  pub queue : List ℕ
  pub active : ℕ
  pub waiting : ℕ
  pub accepting : Bool
  pub idle : Bool

-- `HttpTransport.__init__`
abbrev pub new_transport : ℕ → Transport
new_transport n = record {
  max_concurrency = n;
  free = n;
  granted = [];
  queue = [];
  active = 0;
  waiting = 0;
  accepting = true;
  idle = true;
}

pub data Answer : Type 0 where
  admitted queued shutting_down no_capacity : Answer

-- `Semaphore.release`
abbrev pub pass_on : List ℕ → Transport → Transport
pass_on [] t = record t { free = suc t.free }
pass_on (r ∷ rs) t = record t { queue = rs; granted = r ∷ t.granted }

unfoldable pub release_semaphore : Transport → Transport
release_semaphore t = pass_on t.queue t

abbrev pub is_empty : List ℕ → Bool
is_empty [] = true
is_empty (x ∷ xs) = false

-- `Semaphore.locked`: a slot is not taken ahead of a waiter, even one that has been handed its own.
unfoldable pub locked : Transport → Bool
locked t = (t.free == 0) || not (is_empty t.queue && is_empty t.granted)

-- A waiter that leaves `Semaphore.acquire`, either way, hands on what is free.
unfoldable pub wake : List ℕ → Transport → Transport
wake [] t = t
wake (r ∷ rs) t =
    let rest = wake rs (record t { free = t.free - 1; queue = rs; granted = r ∷ t.granted }) in
    if t.free == 0 then t else rest

-- The end of `_acquire`: the slot is taken, and the request may be too late.
unfoldable pub admit : Transport → Answer × Transport
unfolding release_semaphore
admit t =
    if t.accepting
    then (admitted, record t { active = suc t.active; idle = false })
    else (shutting_down, release_semaphore t)

-- `_acquire` up to its wait, if it waits; `in_time` says whether the deadline lies ahead.
unfoldable pub acquire : ℕ → Bool → Bool → Transport → Answer × Transport
unfolding locked admit
acquire r in_time wait t =
    if not t.accepting
    then (shutting_down, t)
    else if locked t || not in_time
    then (if not in_time || not wait
        then (no_capacity, t)
        else (queued, record t { queue = t.queue ++ (r ∷ []); waiting = suc t.waiting }))
    else admit (record t { free = t.free - 1 })

-- The rest of `_acquire` for a request that was handed a slot.
unfoldable pub resume : ℕ → Transport → Answer × Transport
unfolding admit wake
resume r t =
    admit (wake t.queue (record t { granted = remove r t.granted; waiting = t.waiting - 1 }))

-- The wait of `_acquire` is over before the request has run again: it gives back the slot that it
-- was handed, or leaves the queue.
unfoldable pub give_up : ℕ → Transport → Transport
unfolding wake contains
give_up r t =
    if contains t.granted r
    then wake t.queue
        (record t { free = suc t.free; granted = remove r t.granted; waiting = t.waiting - 1 })
    else wake (remove r t.queue) (record t { queue = remove r t.queue; waiting = t.waiting - 1 })

-- `_release`
unfoldable pub release : Transport → Transport
unfolding release_semaphore
release t =
    let t' = release_semaphore (record t { active = t.active - 1 }) in
    if t'.active == 0 then record t' { idle = true } else t'

-- `quiesce`
unfoldable pub quiesce : Transport → Transport
quiesce t = record t { accepting = false }

-- What happens to a transport whose requests in `holders` were admitted and have not ended.
pub record World : Type 0 where
  pub transport : Transport
  pub holders : List ℕ

pub data Action : Type 0 where
  arrives : ℕ → Bool → Bool → Action
  resumes gives_up ends : ℕ → Action
  quiesces : Action

abbrev pub held : ℕ → List ℕ → Answer × Transport → World
held r holders (admitted, t) = record { transport = t; holders = r ∷ holders }
held r holders (_, t) = record { transport = t; holders = holders }

unfoldable pub step : Action → World → World
unfolding acquire resume give_up release quiesce contains
step (arrives r in_time wait) w = held r w.holders (acquire r in_time wait w.transport)
step (resumes r) w =
    if contains w.transport.granted r then held r w.holders (resume r w.transport) else w
step (gives_up r) w =
    if contains w.transport.granted r || contains w.transport.queue r
    then record w { transport = give_up r w.transport }
    else w
step (ends r) w =
    if contains w.holders r
    then record { transport = release w.transport; holders = remove r w.holders }
    else w
step quiesces w = record w { transport = quiesce w.transport }

unfoldable pub run : List Action → World → World
unfolding step
run [] w = w
run (a ∷ later) w = run later (step a w)

abbrev pub new_service : ℕ → World
new_service n = record { transport = new_transport n; holders = [] }
