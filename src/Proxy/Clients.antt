-- ===== src/Proxy/Clients.antt =====
-- No client of a bridge of src/camouflare/proxy.py is forgotten.
use camouflare.Prelude.{
  ==_iff, contains, contains-append, contains-remove_ne, contains-of-remove, ℕ, ◌<◌, Bool, true,
  false, ◌&&◌, List, [], ◌∷◌, ◌≡◌, refl, ◌⊎◌, arith, if-holds,
}
use camouflare.Proxy.Bridge.{
  Bridge, new_bridge, accept_client, handler_done, leave_handler, begin_close, Event, connects,
  closes, starts, leaves, drops, reports, perform, run,
}

-- A client's writer was closed, or it is tracked, its handler's task too, and the bridge is open.
abbrev pub IsSettled : Bridge → ℕ → Type 0
IsSettled b i =
    (contains b.shut i ≡ true)
    ⊎ ((contains b.client_writers i ≡ true)
        × (contains b.handler_tasks i ≡ true)
        × (contains b.finished i ≡ false)
        × (b.closed ≡ false))

-- A task that was cancelled, or that is over, has its writer closed; once the bridge is closed each
-- of its tasks was cancelled.
pub record Inv (b : Bridge) : Type 0 where
  pub settled : (i : ℕ) → i < b.next_client → IsSettled b i
  pub known : (i : ℕ) → contains b.handler_tasks i ≡ true → i < b.next_client
  pub ended :
      (i : ℕ) → contains b.finished i ≡ true → (contains b.shut i ≡ true) × (i < b.next_client)
  pub stopped :
      (i : ℕ) → contains b.cancelled i ≡ true → (contains b.shut i ≡ true) × (i < b.next_client)
  pub begun : (i : ℕ) → contains b.started i ≡ true → i < b.next_client
  pub told :
      (i : ℕ) → b.closed ≡ true → contains b.handler_tasks i ≡ true → contains b.cancelled i ≡ true

new_bridge-Inv : Inv new_bridge
unfolding contains
new_bridge-Inv = record {
  settled = λ i h. ground (arith, h);
  known = λ i h. ground (arith, h);
  ended = λ i h. ground (arith, h);
  stopped = λ i h. ground (arith, h);
  begun = λ i h. ground (arith, h);
  told = λ i h k. ground (arith, k);
}

accept_client-Inv : (b : Bridge) → Inv b → Inv (accept_client b)
unfolding accept_client contains
accept_client-Inv b v =
    if-holds Inv b.closed _ _
      (λ closed. record {
        settled = λ i h. ground (arith, v.settled i, h);
        known = λ i h. ground (arith, v.known i, h);
        ended = λ i h. ground (arith, v.ended i, h);
        stopped = λ i h. ground (arith, v.stopped i, h);
        begun = λ i h. ground (arith, v.begun i, h);
        told = λ i h k. ground (arith, v.told i, h, k);
      })
      (λ open_. record {
        settled = λ i h. ground (arith, v.settled i, v.ended i, h, open_);
        known = λ i h. ground (arith, v.known i, h);
        ended = λ i h. ground (arith, v.ended i, h);
        stopped = λ i h. ground (arith, v.stopped i, h);
        begun = λ i h. ground (arith, v.begun i, h);
        told = λ i h k. ground (arith, v.told i, h, k, open_);
      })

handler_done-Inv :
    (i : ℕ) (b : Bridge) → contains b.finished i ≡ true → Inv b → Inv (handler_done i b)
unfolding handler_done
handler_done-Inv j b f v = record {
  settled = λ i h.
      ground
        (arith, v.settled i h, v.ended i, f, contains-remove_ne b.handler_tasks j i, ==_iff j i);
  known = λ i h. v.known i (contains-of-remove b.handler_tasks j i h);
  ended = v.ended;
  stopped = v.stopped;
  begun = v.begun;
  told = λ i h k. v.told i h (contains-of-remove b.handler_tasks j i k);
}

leave_handler-Inv :
    (i : ℕ) (b : Bridge) → contains b.started i ≡ true → Inv b → Inv (leave_handler i b)
unfolding leave_handler contains
leave_handler-Inv j b s v = record {
  settled =
      λ i h. ground (arith, v.settled i h, contains-remove_ne b.client_writers j i, ==_iff j i);
  known = v.known;
  ended = λ i h. ground (arith, v.ended i, v.begun i, h, s, ==_iff j i);
  stopped = λ i h. ground (arith, v.stopped i, h);
  begun = v.begun;
  told = v.told;
}

begin_close-Inv : (b : Bridge) → Inv b → Inv (begin_close b)
unfolding begin_close
begin_close-Inv b v = record {
  settled = λ i h. ground (arith, v.settled i h, contains-append b.client_writers b.shut i);
  known = v.known;
  ended = λ i h. ground (arith, v.ended i h, contains-append b.client_writers b.shut i);
  stopped = λ i h. ground (
    arith,
    h,
    v.stopped i,
    v.known i,
    v.settled i,
    contains-append b.client_writers b.shut i,
    contains-append b.handler_tasks b.cancelled i,
  );
  begun = v.begun;
  told = λ i h k. ground (arith, k, contains-append b.handler_tasks b.cancelled i);
}

drop-Inv :
    (i : ℕ) (b : Bridge)
    → contains b.cancelled i ≡ true
    → Inv b
    → Inv (record b { finished = i ∷ b.finished })
unfolding contains
drop-Inv j b c v = record {
  settled = λ i h. ground (arith, v.settled i h, v.stopped i, c, ==_iff j i);
  known = v.known;
  ended = λ i h. ground (arith, v.ended i, v.stopped i, h, c, ==_iff j i);
  stopped = v.stopped;
  begun = v.begun;
  told = v.told;
}

start-Inv :
    (i : ℕ) (b : Bridge)
    → contains b.handler_tasks i ≡ true
    → Inv b
    → Inv (record b { started = i ∷ b.started })
unfolding contains
start-Inv j b t v = record {
  settled = v.settled;
  known = v.known;
  ended = v.ended;
  stopped = v.stopped;
  begun = λ i h. ground (arith, v.begun i, v.known i, h, t, ==_iff j i);
  told = v.told;
}

both : (a b : Bool) → a && b ≡ true → a ≡ true
both true b h = refl
both false b h = h

perform-Inv : (e : Event) (b : Bridge) → Inv b → Inv (perform e b)
unfolding perform
perform-Inv connects b v = accept_client-Inv b v
perform-Inv closes b v = begin_close-Inv b v
perform-Inv (starts i) b v = if-holds Inv _ _ _ (λ h. start-Inv i b (both _ _ h) v) (λ _. v)
perform-Inv (leaves i) b v = if-holds Inv _ _ _ (λ h. leave_handler-Inv i b (both _ _ h) v) (λ _. v)
perform-Inv (drops i) b v = if-holds Inv _ _ _ (λ h. drop-Inv i b (both _ _ h) v) (λ _. v)
perform-Inv (reports i) b v = if-holds Inv _ _ _ (λ h. handler_done-Inv i b h v) (λ _. v)

run-Inv : (es : List Event) (b : Bridge) → Inv b → Inv (run es b)
unfolding run
run-Inv [] b v = v
run-Inv (e ∷ es) b v = run-Inv es (perform e b) (perform-Inv e b v)

-- Along every schedule of connections, starts and ends of handlers, their callbacks and closings,
-- each client that connected has had its writer closed, or the bridge is open and tracks the writer
-- and the task of its handler; a handler that is over or was cancelled has its writer closed; and
-- once the bridge is closed, each task that it tracks was cancelled.
pub run-new_bridge-Inv : (es : List Event) → Inv (run es new_bridge)
run-new_bridge-Inv es = run-Inv es new_bridge new_bridge-Inv
