-- ===== src/Sessions/Witnesses.antt =====
-- Concrete schedules of the session manager, and the theorems at them.
use camouflare.Sessions.Waiting.{wait_for_creation-ends, IsAwake}
use camouflare.Sessions.Creation.{waits_for, wait_for_creation}
use camouflare.Sessions.Builders.{count_inside, follow_all, new_site, Site}
use text.Mathlib.TextEquality.{eq_iff}
use camouflare.Prelude.{
  ◌≤◌, ◌⊎◌, inl, String, true, false, List, [], ◌∷◌, none, some, ◌≡◌, ◌≢◌, refl, arith,
}
use camouflare.Prelude.Dict.{find}
use camouflare.Sessions.State.{Manager, new_manager, expired, error, destroyed}
use camouflare.Sessions.Removal.{prune_expired, evict_if_current, destroy, close}
use camouflare.Sessions.Schedules.{
  exits, enters, Action, registers, marks_in_use, destroys, closing_ends, prunes, step, run,
}
use camouflare.Sessions.Registry.{IsRegistry}
use camouflare.Sessions.Closing.{IsClosing}
use camouflare.Sessions.Pruning.{IsStale, prune_expired-IsExact}
use camouflare.Sessions.Departures.{HasLeft, departures-HasLeft}
use camouflare.Sessions.Stages.{stage, Moves}
use camouflare.Sessions.Moves.{step-Moves}
use camouflare.Sessions.Invariant.{run-new_manager-IsRegistry}
use camouflare.Sessions.Code.{session_code}

-- Two sessions, the second in use.
abbrev two : List Action
two = registers "a" 7 (some 60) 0 ∷ registers "b" 8 (some 60) 10 ∷ marks_in_use 1 ∷ []

abbrev both : Manager
both = run two (new_manager 2 3600)

both-IsRegistry : IsRegistry [] both
both-IsRegistry = run-new_manager-IsRegistry 2 3600 two

both_first : find "a" both.sessions ≡ some 0
unfolding session_code
both_first = refl

both_second : find "b" both.sessions ≡ some 1
unfolding session_code
both_second = refl

both_open : both.closed ≡ false
unfolding session_code
both_open = refl

run-new_manager-IsRegistry_example :
    IsRegistry []
      (run (registers "a" 7 none 0 ∷ destroys "a" ∷ closing_ends "a" 0 ∷ []) (new_manager 1 60))
run-new_manager-IsRegistry_example =
    run-new_manager-IsRegistry 1 60
      (registers "a" 7 none 0 ∷ destroys "a" ∷ closing_ends "a" 0 ∷ [])

both-IsStale : IsStale 100 none "a" (both.heap 0)
unfolding session_code
both-IsStale = record {
  ttl = 60;
  limited = refl;
  old = omega arith;
  idle = refl;
  unlocked = refl;
  other = λ e. absurd (ground (arith, e));
}

fresh_second : IsStale 100 none "b" (both.heap 1) → ⊥
unfolding session_code
fresh_second s = absurd (omega (arith, s.idle))

prune_expired-IsExact_example :
    let (gone, q) = prune_expired 100 none both in
    ((IsStale 100 none "a" (both.heap 0))
      × (find "a" gone ≡ some 0)
      × (find "a" q.sessions ≡ none)
      × IsClosing "a" 0 expired q)
    ⊎ ((IsStale 100 none "a" (both.heap 0) → ⊥)
        × (find "a" gone ≡ none)
        × (find "a" q.sessions ≡ some 0))
prune_expired-IsExact_example =
    prune_expired-IsExact 100 none both both-IsRegistry both_open "a" 0 both_first

named : ◌≢◌ {A = String} "a" ""
named e = ground (arith, e, eq_iff "a" "")

departures-HasLeft_example :
    HasLeft "a" 0 destroyed (destroy "a" both).1
    × ((destroy "a" both).0 ≡ find "a" (destroy "a" both).1.closing)
    × ((evict_if_current 0 both).0 ≡ true)
    × HasLeft "a" 0 error (evict_if_current 0 both).1
    × HasLeft "a" 0 destroyed (close both)
departures-HasLeft_example = departures-HasLeft "a" 0 both both-IsRegistry both_first named

step-Moves_example : Moves (stage "a" both) (stage "a" (step (prunes 100 none) both))
step-Moves_example = step-Moves "a" (prunes 100 none) both both-IsRegistry

-- Two builders of one id, both of which fail.
abbrev two_builders : List Action
two_builders = enters "a" ∷ enters "a" ∷ []

abbrev both_fail : List Action
both_fail = exits "a" 0 ∷ exits "a" 0 ∷ []

abbrev building : Site
building = follow_all two_builders (new_site 2 3600)

waits_for_both : wait_for_creation "a" 5 building.manager ≡ waits_for 0
unfolding session_code follow_all
waits_for_both = refl

none_left : count_inside 0 (follow_all both_fail building).inside ≡ 0
unfolding session_code follow_all count_inside
none_left = refl

wait_for_creation-ends_example :
    (1 ≤ count_inside 0 building.inside) × IsAwake 0 (follow_all both_fail building)
wait_for_creation-ends_example =
    wait_for_creation-ends 2 3600 two_builders both_fail "a" 5 0 waits_for_both (inl none_left)
