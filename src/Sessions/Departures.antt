-- ===== src/Sessions/Departures.antt =====
-- camouflare/sessions.py: a session that is destroyed, evicted or shut down leaves the registry and its
-- cleanup begins, under its id.
use camouflare.Prelude.{
  none, ◌∷◌, [], ◌≢◌, false, true, ◌==◌, if-holds, cases-holds, Bool, ap, ℕ, String, some, ◌≡◌,
  refl, arith,
}
use text.Mathlib.Text.{◌==◌ as str_eq}
use text.Mathlib.TextEquality.{eq_iff}
use camouflare.Prelude.Dict.{Dict, find, drop_key, find-drop_key}
use camouflare.Sessions.State.{destroyed, error, CloseReason, Manager, start_closing}
use camouflare.Sessions.Removal.{close, destroy, evict_if_current, start_all, pop_all}
use camouflare.Sessions.Registry.{emptied-IsRegistry, IsRegistry, pop_all-IsRegistry}
use camouflare.Sessions.Closing.{
  start_all-sessions, IsClosing, start_all-IsClosing, start_closing-sessions,
}

-- The session has left the registry, and its cleanup has begun for that reason.
pub record HasLeft (id : String) (i : ℕ) (reason : CloseReason) (q : Manager) : Type 0 where
  pub gone : find id q.sessions ≡ none
  pub closing : IsClosing id i reason q

leave-HasLeft :
    (id : String) (i : ℕ) (reason : CloseReason) (m : Manager)
    → IsRegistry [] m
    → find id m.sessions ≡ some i
    → HasLeft id i reason (start_closing i reason (record m { sessions = drop_key id m.sessions }))
unfolding pop_all start_all find
leave-HasLeft id i reason m h present =
    let one : Dict ℕ = (id, i) ∷ [] in
    let left =
      pop_all-IsRegistry one m h (refl, tt) (λ j k f. ground (arith, eq_iff id j, present, f)) in
    record {
      gone = ground (
        arith,
        start_closing-sessions i reason (record m { sessions = drop_key id m.sessions }),
        find-drop_key id id m.sessions,
        eq_iff id id,
      );
      closing = start_all-IsClosing reason one _ left id i (ground (arith, eq_iff id id));
    }

-- Destroying a registered session takes it out of the registry, begins its cleanup, and hands back the
-- tombstone to wait for.
destroy-HasLeft :
    (id : String) (i : ℕ) (m : Manager)
    → IsRegistry [] m
    → find id m.sessions ≡ some i
    → id ≢ ""
    → HasLeft id i destroyed (destroy id m).1
      × ((destroy id m).0 ≡ find id (destroy id m).1.closing)
unfolding destroy
destroy-HasLeft id i m h present named =
    let q = start_closing i destroyed (record m { sessions = drop_key id m.sessions }) in
    let test : str_eq id "" ≡ false = ground (arith, eq_iff id "", named) in
    simp (test, present)
      (
        leave-HasLeft id i destroyed m h present,
        ap (λ j. find j q.closing) (h.keyed id i present).0,
      )

-- Evicting the session that is registered under its id takes it out of the registry and begins its
-- cleanup.
evict_if_current-HasLeft :
    (id : String) (i : ℕ) (m : Manager)
    → IsRegistry [] m
    → find id m.sessions ≡ some i
    → ((evict_if_current i m).0 ≡ true) × HasLeft id i error (evict_if_current i m).1
unfolding evict_if_current
evict_if_current-HasLeft id i m h present =
    let same = (h.keyed id i present).0 in
    cases-holds (λ (o : Bool × Manager). (o.0 ≡ true) × HasLeft id i error o.1)
      (find (m.heap i).session_id m.sessions) _ _
      (λ absent. absurd (ground (arith, absent, same, present)))
      λ current found.
        if-holds (λ (o : Bool × Manager). (o.0 ≡ true) × HasLeft id i error o.1) (current == i) _ _
          (λ _. (refl, rw same (leave-HasLeft id i error m h present)))
          (λ other. absurd (ground (arith, found, same, present, other)))

-- Shutting down empties the registry, and the cleanup of every session that was registered begins.
close-HasLeft :
    (m : Manager)
    → IsRegistry [] m
    → (id : String) (i : ℕ) → find id m.sessions ≡ some i
    → HasLeft id i destroyed (close m)
unfolding close find
close-HasLeft m h id i present =
    let empty = record m { closed = true; sessions = [] } in
    record {
      gone = ground (arith, start_all-sessions destroyed m.sessions empty);
      closing =
          start_all-IsClosing destroyed m.sessions empty (emptied-IsRegistry m h) id i present;
    }

-- A session that is registered under its id, which is not empty, leaves the registry whether it is
-- destroyed, evicted or shut down, and its cleanup begins under its id: destroying it hands back the
-- tombstone to wait for, and an eviction reports that it has taken place.
pub departures-HasLeft :
    (id : String) (i : ℕ) (m : Manager)
    → IsRegistry [] m
    → find id m.sessions ≡ some i
    → id ≢ ""
    → HasLeft id i destroyed (destroy id m).1
      × ((destroy id m).0 ≡ find id (destroy id m).1.closing)
      × ((evict_if_current i m).0 ≡ true)
      × HasLeft id i error (evict_if_current i m).1
      × HasLeft id i destroyed (close m)
departures-HasLeft id i m h present named =
    let (gone, tombstone) = destroy-HasLeft id i m h present named in
    let (taken, evicted) = evict_if_current-HasLeft id i m h present in
    (gone, tombstone, taken, evicted, close-HasLeft m h id i present)
