-- ===== src/Cleanup/World.antt =====
-- camouflare/cleanup.py: the supervisor together with those who wait for a group, and its schedules.
use camouflare.Prelude.{
  ℕ, zero, suc, String, Bool, true, List, [], ◌∷◌, Option, none, some, if◌then◌else◌,
}
use camouflare.Cleanup.State.{CleanupScope, Supervisor, new_supervisor, assign}
use camouflare.Cleanup.Groups.{retain_scope, release_hold, wait_for_group, forget_event}
use camouflare.Cleanup.Supervise.{
  task_finished, begin_run, end_run, begin_close, close_round, close_deadline,
}
use camouflare.Cleanup.Ownership.{deadline_expired, track}

-- A waiter is a group and the event that the call of `wait_for_group` awaits.
pub record World : Type 0 where
  pub supervisor : Supervisor
  pub waiters : List (ℕ × ℕ)

-- `ends` is the end of a task and its callback; `wakes n` is the next turn of the waiter at place `n`.
pub data Action : Type 0 where
  tracks begins_run : ℕ → Option ℕ → ℕ → String → Option ℕ → Option CleanupScope → Action
  ends_run : Bool → ℕ → Action
  ends expires : ℕ → Action
  retains : CleanupScope → Action
  gives_back : List ℕ → Action
  begins_close : ℕ → ℕ → Action
  closes_round closes_deadline : ℕ → Action
  waits wakes : ℕ → Action

unfoldable pub nth : ℕ → List (ℕ × ℕ) → Option (ℕ × ℕ)
nth n [] = none
nth zero (x ∷ xs) = some x
nth (suc n) (x ∷ xs) = nth n xs

unfoldable pub drop_nth : ℕ → List (ℕ × ℕ) → List (ℕ × ℕ)
drop_nth n [] = []
drop_nth zero (x ∷ xs) = xs
drop_nth (suc n) (x ∷ xs) = x ∷ drop_nth n xs

-- A turn of the loop of `wait_for_group`: it awaits an event, or returns.
abbrev pub await_event : ℕ → List (ℕ × ℕ) → Option ℕ × Supervisor → World
await_event g rest (none, q) = record { supervisor = q; waiters = rest }
await_event g rest (some v, q) = record { supervisor = q; waiters = (g, v) ∷ rest }

unfoldable pub turn : ℕ → List (ℕ × ℕ) → Supervisor → World
turn g rest s = await_event g rest (wait_for_group g s)

-- `await event.wait()` goes on only once the event is set.
abbrev pub wake : ℕ → World → Option (ℕ × ℕ) → World
wake n w none = w
wake n w (some (g, v)) =
    if w.supervisor.event_is_set v
    then turn g (drop_nth n w.waiters) (forget_event g v w.supervisor)
    else w

abbrev with_supervisor : World → Supervisor → World
with_supervisor w q = record w { supervisor = q }

unfoldable pub step : Action → World → World
step (tracks now current task kind timeout scope) w =
    with_supervisor w (track now current task kind timeout scope w.supervisor).1
step (begins_run now current task kind timeout scope) w =
    with_supervisor w (begin_run now current task kind timeout scope w.supervisor).1
step (ends_run done task) w = with_supervisor w (end_run done task w.supervisor).1
step (ends task) w =
    with_supervisor w (
      task_finished task
        (record w.supervisor { finished = assign task true w.supervisor.finished }))
step (expires task) w = with_supervisor w (deadline_expired task w.supervisor)
step (retains scope) w = with_supervisor w (retain_scope scope w.supervisor)
step (gives_back groups) w = with_supervisor w (release_hold groups w.supervisor).1
step (begins_close now timeout) w = with_supervisor w (begin_close now timeout w.supervisor)
step (closes_round now) w = with_supervisor w (close_round now w.supervisor)
step (closes_deadline now) w = with_supervisor w (close_deadline now w.supervisor)
step (waits g) w = turn g w.waiters w.supervisor
step (wakes n) w = wake n w (nth n w.waiters)

unfoldable pub run : List Action → World → World
run [] w = w
run (a ∷ rest) w = run rest (step a w)

abbrev pub new_world : ℕ → World
new_world timeout = record { supervisor = new_supervisor timeout; waiters = [] }
