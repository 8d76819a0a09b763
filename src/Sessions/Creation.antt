-- ===== src/Sessions/Creation.antt =====
-- camouflare/sessions.py: in-flight builds of the same id, and the wait for their outcome.
use camouflare.Prelude.{
  ℕ, suc, ◌+◌, ◌-◌, String, true, false, Option, none, some, ltb, ◌==◌, if◌then◌else◌,
}
use camouflare.Prelude.Dict.{find, put, drop_key}
use camouflare.Sessions.State.{Manager, write_pending}

-- Entering `creating`: the pending creation of the id, new or present, with one builder more.
unfoldable pub enter_creating : String → Manager → ℕ × Manager
enter_creating id m = elim (find id m.creations) [
  | some i ↦ (i, write_pending i (λ p. record p { builders = p.builders + 1 }) m)
  | none ↦ (
    m.next_pending,
    write_pending m.next_pending (λ p. record { builders = 1; settled = false })
        (record m {
          creations = put id m.next_pending m.creations;
          next_pending = suc m.next_pending;
        }),
  )
]

-- `if self._creations.get(session_id) is pending: del …`
abbrev pub forget_creation : String → ℕ → Manager → Manager
forget_creation id i m = elim (find id m.creations) [
  | none ↦ m
  | some j ↦ if j == i then record m { creations = drop_key id m.creations } else m
]

-- Leaving `creating`: the last builder removes the entry and wakes those who wait.
unfoldable pub exit_creating : String → ℕ → Manager → Manager
exit_creating id i m =
    if (m.pending i).builders - 1 == 0
    then write_pending i (λ p. record { builders = p.builders - 1; settled = true })
        (forget_creation id i m)
    else write_pending i (λ p. record p { builders = p.builders - 1 }) m

-- `wait_for_creation` up to its wait: the session that is there, or the creation to wait for.
pub data Wait : Type 0 where
  found : Option ℕ → Wait
  waits_for : ℕ → Wait

unfoldable pub wait_for_creation : String → ℕ → Manager → Wait
wait_for_creation id timeout m = elim (find id m.sessions) [
  | some existing ↦ found (some existing)
  | none ↦ elim (find id m.creations) [
    | none ↦ found none
    | some i ↦ if ltb 0 timeout then waits_for i else found none
  ]
]

-- Its result after the wait, whether that timed out or not.
unfoldable pub after_wait : String → Manager → Option ℕ
after_wait id m = find id m.sessions
