-- ===== src/Sessions/Removal.antt =====
-- camouflare/sessions.py: pruning, eviction, destruction, shutdown, and the end of a cleanup.
use camouflare.Prelude.{
  ℕ, String, Bool, true, false, not, ◌&&◌, [], ◌∷◌, Option, none, some, ◌==◌, if◌then◌else◌,
}
use camouflare.Prelude.Dict.{Dict, find, drop_key}
use text.Mathlib.Text.{◌==◌ as str_eq}
use camouflare.Sessions.State.{
  CloseReason, expired, error, destroyed, ClosingSession, Manager, is_expired, start_closing,
}

-- `session_id != exclude`, where `exclude` may be `None`.
abbrev pub is_excluded : Option String → String → Bool
is_excluded none id = false
is_excluded (some other_id) id = str_eq id other_id

module _ (now : ℕ) (exclude : Option String) where
  -- The condition of the comprehension of `prune_expired`.
  unfoldable pub is_prunable : Manager → String × ℕ → Bool
  unfolding is_expired
  is_prunable m (id, i) =
      not (is_excluded exclude id)
      && is_expired now (m.heap i)
      && (m.heap i).in_use == 0
      && not (m.heap i).locked

  -- `expired_ids`, with the sessions that they name.
  unfoldable pub prunable : Manager → Dict ℕ → Dict ℕ
  unfolding is_prunable
  prunable m [] = []
  prunable m (entry ∷ rest) =
      let more = prunable m rest in if is_prunable m entry then entry ∷ more else more

-- `[self._sessions.pop(session_id) for session_id in …]`
unfoldable pub pop_all : Dict ℕ → Manager → Manager
pop_all [] m = m
pop_all ((id, i) ∷ rest) m = pop_all rest (record m { sessions = drop_key id m.sessions })

-- `[self._start_closing_unlocked(session, reason=…) for session in …]`
unfoldable pub start_all : CloseReason → Dict ℕ → Manager → Manager
start_all reason [] m = m
start_all reason ((id, i) ∷ rest) m = start_all reason rest (start_closing i reason m)

unfoldable pub prune_expired : ℕ → Option String → Manager → Dict ℕ × Manager
unfolding prunable pop_all start_all
prune_expired now exclude m =
    if m.closed
    then ([], m)
    else let gone = prunable now exclude m m.sessions in
      (gone, start_all expired gone (pop_all gone m))

-- `evict_if_current` compares identities: a replacement under the same id is another session.
unfoldable pub evict_if_current : ℕ → Manager → Bool × Manager
unfolding start_closing
evict_if_current i m = elim (find (m.heap i).session_id m.sessions) [
  | none ↦ (false, m)
  | some current ↦
      if current == i
      then (
        true,
        start_closing i error (record m { sessions = drop_key (m.heap i).session_id m.sessions }),
      )
      else (false, m)
]

-- The critical section of `destroy`: the tombstone to wait for, if there is one. A missing id is
-- treated as the empty one.
unfoldable pub destroy : String → Manager → Option ClosingSession × Manager
unfolding start_closing
destroy id m = if str_eq id "" then (none, m) else elim (find id m.sessions) [
  | none ↦ (find id m.closing, m)
  | some i ↦
      let q = start_closing i destroyed (record m { sessions = drop_key id m.sessions }) in
      (find (m.heap i).session_id q.closing, q)
]

-- The critical section of `close`.
unfoldable pub close : Manager → Manager
unfolding start_all
close m = start_all destroyed m.sessions (record m { closed = true; sessions = [] })

-- `_closing_done`: only the task that owns the tombstone removes it.
unfoldable pub closing_done : String → ℕ → Manager → Manager
closing_done id task m = elim (find id m.closing) [
  | none ↦ m
  | some current ↦ if current.task == task then record m { closing = drop_key id m.closing } else m
]

-- The lock of a session, taken and given back by its requests and by its cleanup.
unfoldable pub set_locked : ℕ → Bool → Manager → Manager
set_locked i b m = record m {
  heap = λ j. if i == j then record (m.heap j) { locked = b } else m.heap j;
}
