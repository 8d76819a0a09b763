-- ===== src/Pool/World.antt =====
-- The pool together with its clients: the leases that are out, the persistent reservations and the
-- requests that wait. A schedule is a list of actions in the order of their critical sections.
use camouflare.Prelude.{
  refl, ◌≡◌, ℕ, zero, suc, ◌+◌, ◌-◌, Bool, false, List, [], ◌∷◌, Option, none, some, ◌==◌,
  if◌then◌else◌,
}
use camouflare.Pool.State.{
  Reason, Kind, Result, ok, err, SlotReservation, PersistentReservation, Settings, Env, Pool,
  new_pool,
}
use camouflare.Pool.Acquire.{Round, reserved, waits, acquire_round, acquire_wake, is_transient}
use camouflare.Pool.Release.{release_slot, reserve_persistent, release_persistent}
use camouflare.Pool.Tasks.{Event, perform}

pub record World : Type 0 where
  pub pool : Pool
  pub leases : List SlotReservation
  pub sessions : ℕ
  pub waiters : ℕ

-- `acquires` is one round of `_acquire_slot`, with the deadline, the failure generation and the
-- launch flag that its caller holds; `wakes` ends the wait of a round, by timeout or by notice;
-- `releases n` releases the lease at place `n`.
pub data Action : Type 0 where
  happens : Env → Event → Action
  acquires : Env → ℕ → ℕ → Bool → Kind → Action
  wakes : Bool → Action
  releases : Env → ℕ → Bool → Reason → Action
  opens_session : Action
  closes_session : Action

-- The element at a place, and the list without it.
unfoldable pub pick {ℓ} : {A : Type ℓ} → ℕ → List A → Option (A × List A)
pick n [] = none
pick zero (x ∷ xs) = some (x, xs)
pick (suc n) (x ∷ xs) = elim (pick n xs) [ none ↦ none | some (y, ys) ↦ some (y, x ∷ ys) ]

abbrev pub after_round : World → Result Round × Pool → World
after_round w (ok (reserved r), q) = record w { pool = q; leases = r ∷ w.leases }
after_round w (ok (waits launched), q) = record w { pool = q; waiters = w.waiters + 1 }
after_round w (err x, q) = record w { pool = q }

abbrev pub after_release : World → List SlotReservation → Result SlotReservation × Pool → World
after_release w rest (ok r, q) = record w { pool = q; leases = rest }
after_release w rest (err x, q) = record w { pool = q }

abbrev pub count_sessions : World → ℕ → Result PersistentReservation × Pool → World
count_sessions w n (ok r, q) = record w { pool = q; sessions = n }
count_sessions w n (err x, q) = record w { pool = q }

abbrev pub release_picked :
    Env → Bool → Reason → World → Option (SlotReservation × List SlotReservation) → World
release_picked e discard reason w none = w
release_picked e discard reason w (some (r, rest)) =
    after_release w rest (release_slot e r discard reason w.pool)

unfoldable pub step : Action → World → World
unfolding pick
step (happens e v) w = record w { pool = (perform e v w.pool).1 }
step (acquires e deadline observed launched kind) w =
    after_round w (acquire_round e deadline observed launched kind w.pool)
step (wakes timed_out) w =
    if w.waiters == 0
    then w
    else record w { pool = (acquire_wake timed_out w.pool).1; waiters = w.waiters - 1 }
step (releases e n discard reason) w = release_picked e discard reason w (pick n w.leases)
step opens_session w = count_sessions w (w.sessions + 1) (reserve_persistent w.pool)
step closes_session w =
    if w.sessions == 0
    then w
    else count_sessions w (w.sessions - 1) (release_persistent (record { released = false }) w.pool)

unfoldable pub run : List Action → World → World
run [] w = w
run (a ∷ rest) w = run rest (step a w)

abbrev pub new_world : Settings → World
new_world c = record { pool = new_pool c; leases = []; sessions = 0; waiters = 0 }

-- Whatever an operation comes to, its pool is the one that the world goes on with.
pub after_round-pool : (w : World) (o : Result Round × Pool) → (after_round w o).pool ≡ o.1
after_round-pool w (ok (reserved r), q) = refl
after_round-pool w (ok (waits b), q) = refl
after_round-pool w (err x, q) = refl

pub after_release-pool :
    (w : World) (rest : List SlotReservation) (o : Result SlotReservation × Pool)
    → (after_release w rest o).pool ≡ o.1
after_release-pool w rest (ok r, q) = refl
after_release-pool w rest (err x, q) = refl

pub count_sessions-pool :
    (w : World) (n : ℕ) (o : Result PersistentReservation × Pool)
    → (count_sessions w n o).pool ≡ o.1
count_sessions-pool w n (ok r, q) = refl
count_sessions-pool w n (err x, q) = refl

-- The leases on a slot, and those of stateless requests.
unfoldable pub count_on : ℕ → List SlotReservation → ℕ
count_on i [] = 0
count_on i (r ∷ rs) = (if r.slot == i then 1 else 0) + count_on i rs

unfoldable pub count_transient : List SlotReservation → ℕ
count_transient [] = 0
count_transient (r ∷ rs) = (if is_transient r.kind then 1 else 0) + count_transient rs
