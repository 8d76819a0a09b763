-- ===== src/Sessions/Code.antt =====
-- Every definition of the session manager, opened to evaluate concrete schedules.
use camouflare.Prelude.Dict.{find, put, drop_key}
use camouflare.Sessions.State.{
  is_expired, mark_in_use, mark_released, start_closing, settle_creation, register, register_or_get,
  register_existing,
}
use camouflare.Sessions.Removal.{
  is_prunable, prunable, pop_all, start_all, prune_expired, evict_if_current, destroy, close,
  closing_done, set_locked,
}
use camouflare.Sessions.Creation.{enter_creating, exit_creating, wait_for_creation, after_wait}
use camouflare.Sessions.Schedules.{step, run}

unfoldable pub session_code : Unit {0}
unfolding find put drop_key is_expired mark_in_use mark_released start_closing settle_creation
    register register_or_get register_existing is_prunable prunable pop_all start_all prune_expired
    evict_if_current destroy close closing_done set_locked enter_creating exit_creating
    wait_for_creation after_wait step run
session_code = tt
