-- ===== src/Sessions/Schedules.antt =====
-- camouflare/sessions.py: the stretches between two awaits as actions; a schedule is any list of them.
use camouflare.Prelude.{ℕ, String, Bool, List, [], ◌∷◌, Option}
use camouflare.Sessions.State.{
  Manager, mark_in_use, mark_released, register_or_get, register_existing,
}
use camouflare.Sessions.Removal.{
  prune_expired, evict_if_current, destroy, close, closing_done, set_locked,
}
use camouflare.Sessions.Creation.{enter_creating, exit_creating}

pub data Action : Type 0 where
  registers registers_new : String → ℕ → Option ℕ → ℕ → Action
  marks_in_use marks_released evicts : ℕ → Action
  prunes : ℕ → Option String → Action
  destroys enters : String → Action
  closes : Action
  closing_ends exits : String → ℕ → Action
  locks : ℕ → Bool → Action

unfoldable pub step : Action → Manager → Manager
step (registers id context ttl now) m = (register_or_get id context ttl now m).1
step (registers_new id context ttl now) m = (register_existing id context ttl now m).1
step (marks_in_use i) m = mark_in_use i m
step (marks_released i) m = (mark_released i m).1
step (evicts i) m = (evict_if_current i m).1
step (prunes now exclude) m = (prune_expired now exclude m).1
step (destroys id) m = (destroy id m).1
step (enters id) m = (enter_creating id m).1
step closes m = close m
step (closing_ends id task) m = closing_done id task m
step (exits id i) m = exit_creating id i m
step (locks i b) m = set_locked i b m

unfoldable pub run : List Action → Manager → Manager
run [] m = m
run (a ∷ rest) m = run rest (step a m)
