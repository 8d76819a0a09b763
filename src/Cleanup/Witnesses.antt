-- ===== src/Cleanup/Witnesses.antt =====
-- Concrete schedules of the cleanup supervisor, and the theorems at them.
use camouflare.Prelude.{
  true, false, List, [], ◌∷◌, none, some, contains, remove, add_new, lookup, insert, delete, ◌≡◌,
  refl,
}
use camouflare.Cleanup.State.{Supervisor, returned, ownership_groups}
use camouflare.Cleanup.Groups.{
  is_busy, renew_event, add_task_to_group, hold_group, finish_group_if_idle, group_task_finished,
  release_scope_hold, each_group, retain_scope, release_hold, wait_for_group,
}
use camouflare.Cleanup.Supervise.{task_finished}
use camouflare.Cleanup.Ownership.{
  canonical_kind, shorten_deadline, current_scope, track_deadline, merge_groups, track_new,
  track_within, track, or_scope,
}
use camouflare.Cleanup.World.{
  Action, tracks, retains, gives_back, ends, waits, begins_close, nth, turn, step, run, new_world,
}
use camouflare.Cleanup.Wakeups.{run-wakes}
use camouflare.Cleanup.Deadlines.{IsBounded, track-IsBounded}

-- A cleanup whose group is held across a hand-off, and someone who waits for the group.
abbrev hand_off : List Action
hand_off =
    tracks 0 none 7 "page" none none
    ∷ waits 0
    ∷ retains (record { deadline = 10; group = 0; groups = [] })
    ∷ ends 7
    ∷ gives_back (0 ∷ [])
    ∷ []

hand_off_waits : nth 0 (run hand_off (new_world 10)).waiters ≡ some (0, 0)
unfolding contains remove add_new lookup insert delete ownership_groups is_busy renew_event
    add_task_to_group hold_group finish_group_if_idle group_task_finished release_scope_hold
    each_group retain_scope release_hold wait_for_group canonical_kind shorten_deadline
    current_scope track_deadline merge_groups track_new track_within track task_finished nth turn
    step run
hand_off_waits = refl

hand_off_idle : is_busy 0 (run hand_off (new_world 10)).supervisor ≡ false
unfolding contains remove add_new lookup insert delete ownership_groups is_busy renew_event
    add_task_to_group hold_group finish_group_if_idle group_task_finished release_scope_hold
    each_group retain_scope release_hold wait_for_group canonical_kind shorten_deadline
    current_scope track_deadline merge_groups track_new track_within track task_finished nth turn
    step run
hand_off_idle = refl

run-wakes_example : (run hand_off (new_world 10)).supervisor.event_is_set 0 ≡ true
run-wakes_example = run-wakes 10 hand_off 0 0 0 hand_off_waits hand_off_idle

-- The supervisor while it shuts down, with one task tracked.
abbrev closing : Supervisor
closing = (run (tracks 0 none 7 "page" none none ∷ begins_close 3 4 ∷ []) (new_world 10)).supervisor

track-IsBounded_example :
    ((track 5 (some 7) 8 "context" (some 20) none closing).0 ≡ returned tt)
    × IsBounded 5 20 8
        (or_scope none (current_scope (some 7) closing))
        closing
        (track 5 (some 7) 8 "context" (some 20) none closing).1
track-IsBounded_example = track-IsBounded 5 (some 7) 8 "context" (some 20) none closing refl
