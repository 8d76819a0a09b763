-- ===== src/Pool/Code.antt =====
-- Everything that a run of the pool computes with, under one name.
use camouflare.Prelude.{contains, remove, add_new, lookup, insert, delete}
use camouflare.Pool.State.{◌>>=◌, for_each, physical_generations, count_ready, usable_generations}
use camouflare.Pool.Recycle.{
  recycle_reason, should_recycle, healthy_slot_available, soft_retiring_slot_available, retire,
  mark_retiring, start_close_task, schedule_close, schedule_failed_close_retry, retry_failed_close,
  retry_failed_closes, retire_disconnected, retire_exhausted, close_idle, refresh_slot,
  refresh_recycling,
}
use camouflare.Pool.Create.{
  start_create_task, finish_create_task, abandon_create_task, create_slot, count_healthy, launch,
  replenish_rounds, replenish, settle_close, finish_close_slot, reconcile_aborted_close,
  physical_close_finished, reconcile_late_physical_close, admit_slot, supervise_timeout,
  supervise_failure, supervise_success, create_supervisor_done, finish_abandoned_creation,
}
use camouflare.Pool.Acquire.{
  first_slot, occupy, may_launch, launch_and_wait, reserve_slot, choose_slot, settle_round,
  take_or_wait, acquire_round, acquire_wake,
}
use camouflare.Pool.Release.{
  vacate, close_released, retire_released, release_slot, reserve_persistent, release_persistent,
}
use camouflare.Pool.Lifecycle.{
  start_create_tasks, begin_start, abort_startup, fail_startup, register_started_slots, end_start,
  retire_for_good, recover_cancelled_start, refresh, maintain, retire_all, abandon_all, quiesce,
  retry_all_failed, begin_close,
}
use camouflare.Pool.Tasks.{perform}
use camouflare.Pool.World.{pick, step, run, count_on, count_transient}
use camouflare.Pool.Snapshot.{
  snapshot_of, sum_active, tally_slot, tally, snapshot, publish_metrics, release_and_publish,
  full_and_serving, is_full_and_serving,
}

unfoldable pub pool_code : Unit {0}
unfolding contains remove add_new lookup insert delete ◌>>=◌ for_each physical_generations
    count_ready usable_generations recycle_reason should_recycle healthy_slot_available
    soft_retiring_slot_available retire mark_retiring start_close_task schedule_close
    schedule_failed_close_retry retry_failed_close retry_failed_closes retire_disconnected
    retire_exhausted close_idle refresh_slot refresh_recycling start_create_task finish_create_task
    abandon_create_task create_slot count_healthy launch replenish_rounds replenish settle_close
    finish_close_slot reconcile_aborted_close physical_close_finished reconcile_late_physical_close
    admit_slot supervise_timeout supervise_failure supervise_success create_supervisor_done
    finish_abandoned_creation first_slot occupy may_launch launch_and_wait reserve_slot choose_slot
    settle_round take_or_wait acquire_round acquire_wake vacate close_released retire_released
    release_slot reserve_persistent release_persistent start_create_tasks begin_start abort_startup
    fail_startup register_started_slots end_start retire_for_good recover_cancelled_start refresh
    maintain retire_all abandon_all quiesce retry_all_failed begin_close perform pick step run
    count_on count_transient sum_active tally_slot tally snapshot_of snapshot full_and_serving
    publish_metrics release_and_publish is_full_and_serving
pool_code = tt
