-- ===== src/Sessions/Moves.antt =====
-- camouflare/sessions.py: every operation moves every id along its life, and no other way.
use camouflare.Sessions.Schedules.{
  locks, exits, closing_ends, closes, enters, destroys, prunes, evicts, marks_released,
  marks_in_use, registers_new, registers, step, Action,
}
use text.Mathlib.Text.{◌==◌ as str_eq}
use text.Mathlib.TextEquality.{eq_iff}
use camouflare.Prelude.{
  true, Option-cases, inr, inl, ℕ, suc, String, Bool, [], ◌∷◌, Option, none, some, ◌==◌, leb, ◌+◌,
  ◌≡◌, refl, sym, subst, ◌∙◌, ap, arith, Bool-cases, if-holds, cases-holds, if◌then◌else◌,
}
use camouflare.Prelude.Dict.{find-drop_key, drop_key, Unique, Dict, find, put, size, find-put}
use camouflare.Sessions.State.{
  ClosingSession, start_closing, destroyed, error, expired, CloseReason, Manager, Result, Session,
  new_session, write_session, register, register_or_get, register_existing,
}
use camouflare.Sessions.Removal.{
  pop_all, start_all, closing_done, close, destroy, evict_if_current, prunable, prune_expired,
}
use camouflare.Sessions.Registry.{
  emptied-IsRegistry, pop_all-closing, IsRegistry, Within, pop_all-IsRegistry, find-pop_all,
}
use camouflare.Sessions.Stages.{pass-Moves, finishes, Stage, stage, stage_of, Moves, remains, joins}
use camouflare.Sessions.Pruning.{prunable-Within, prunable-Unique}
use camouflare.Sessions.Untouched.{
  exit_creating-SameRegistry, enter_creating-SameRegistry, set_locked-SameRegistry,
  mark_released-SameRegistry, mark_in_use-SameRegistry, SameRegistry, settle_creation-SameRegistry,
}
use camouflare.Sessions.Invariant.{only_new-manager}

module _ (id : String) where
  SameRegistry-Moves : (m q : Manager) → SameRegistry m q → Moves (stage id m) (stage id q)
  SameRegistry-Moves m q s =
      subst (λ x. Moves (stage id m) (stage_of (find id x) (find id q.closing))) (sym s.sessions)
        (subst (λ x. Moves (stage id m) (stage_of (find id m.sessions) (find id x))) (sym s.closing)
          (remains _))

  SameRegistry-then :
      (s : Stage) (m q : Manager) → SameRegistry m q → Moves s (stage id m) → Moves s (stage id q)
  SameRegistry-then s m q r =
      subst (λ x. Moves s x)
        (ap (λ d. stage_of (find id d) (find id m.closing)) (sym r.sessions)
          ∙ ap (λ d. stage_of (find id q.sessions) (find id d)) (sym r.closing))

  insertion-Moves :
      (j : String) (s : Session) (m : Manager)
      → find j m.sessions ≡ none
      → find j m.closing ≡ none
      → Moves (stage id m) (
          stage id (
            write_session m.next_session
              (λ _. s)
              (record m {
                sessions = put j m.next_session m.sessions;
                next_session = suc m.next_session;
              })))
  insertion-Moves j s m new unused = elim (Bool-cases (str_eq j id)) [
    | inl same ↦
        let key : j ≡ id = ground (arith, eq_iff j id, same) in
        let f : find id m.sessions ≡ none = subst (λ x. find x m.sessions ≡ none) key new in
        let g : find id m.closing ≡ none = subst (λ x. find x m.closing ≡ none) key unused in
        let a : find id (put j m.next_session m.sessions) ≡ some m.next_session =
          ground (arith, find-put j id m.next_session m.sessions, same) in
        rw (f, g, a) (joins m.next_session)
    | inr other ↦
        let a : find id (put j m.next_session m.sessions) ≡ find id m.sessions =
          ground (arith, find-put j id m.next_session m.sessions, other) in
        rw a (remains _)
  ]

  register_or_get-Moves :
      (j : String) (context : ℕ) (ttl : Option ℕ) (now : ℕ) (m : Manager)
      → Moves (stage id m) (stage id (register_or_get j context ttl now m).1)
  unfolding register_or_get register
  register_or_get-Moves j context ttl now m =
      let P : Result (ℕ × Bool) × Manager → Type 0 = λ o. Moves (stage id m) (stage id o.1) in
      if-holds P m.closed _ _ (λ _. remains _)
        λ _.
          cases-holds P (find j m.sessions) _ _
            (λ new.
              cases-holds P (find j m.closing) _ _
                (λ unused.
                  if-holds P (leb m.max_sessions (size m.sessions + size m.closing)) _ _
                    (λ _. remains _)
                    λ room.
                      SameRegistry-then (stage id m) _ _ (settle_creation-SameRegistry j _)
                        (insertion-Moves j (new_session j context ttl now m) m new unused))
                λ c _. remains _)
            λ i _. remains _

  register_existing-Moves :
      (j : String) (context : ℕ) (ttl : Option ℕ) (now : ℕ) (m : Manager)
      → Moves (stage id m) (stage id (register_existing j context ttl now m).1)
  unfolding register_existing
  register_existing-Moves j context ttl now m =
      subst (λ q. Moves (stage id m) (stage id q))
        (sym (only_new-manager (register_or_get j context ttl now m)))
        (register_or_get-Moves j context ttl now m)

  drop_tombstone-Moves :
      (j : String) (c : ClosingSession) (m : Manager)
      → find j m.closing ≡ some c
      → Moves (stage id m) (stage id (record m { closing = drop_key j m.closing }))
  drop_tombstone-Moves j c m present = elim (Option-cases (find id m.sessions)) [
    | inr (i, here) ↦ rw here (remains _)
    | inl away ↦ elim (Bool-cases (str_eq j id)) [
      | inl same ↦
          let a : find id m.closing ≡ some c =
            subst (λ x. find x m.closing ≡ some c) (ground (arith, eq_iff j id, same)) present in
          let b : find id (drop_key j m.closing) ≡ none =
            ground (arith, find-drop_key j id m.closing, same) in
          rw (away, a, b) (finishes c)
      | inr other ↦
          let b : find id (drop_key j m.closing) ≡ find id m.closing =
            ground (arith, find-drop_key j id m.closing, other) in
          rw b (remains _)
    ]
  ]

  closing_done-Moves :
      (j : String) (task : ℕ) (m : Manager) → Moves (stage id m) (stage id (closing_done j task m))
  unfolding closing_done
  closing_done-Moves j task m =
      let P : Manager → Type 0 = λ q. Moves (stage id m) (stage id q) in
      cases-holds P (find j m.closing) m
        (λ c. if c.task == task then record m { closing = drop_key j m.closing } else m)
        (λ _. remains _)
        λ c present.
          if-holds P (c.task == task) _ _ (λ _. drop_tombstone-Moves j c m present) (λ _. remains _)

  -- A pass that takes `gone` out of the registry.
  removal-Moves :
      (reason : CloseReason) (gone : Dict ℕ) (m : Manager)
      → IsRegistry [] m
      → Unique gone
      → Within gone m.sessions
      → Moves (stage id m) (stage id (start_all reason gone (pop_all gone m)))
  removal-Moves reason gone m h u w =
      pass-Moves reason gone m (pop_all gone m) h (pop_all-IsRegistry gone m h u w)
        (pop_all-closing gone m) w id (find-pop_all id gone m)

  -- One session leaves.
  leave-Moves :
      (j : String) (i : ℕ) (reason : CloseReason) (m : Manager)
      → IsRegistry [] m
      → find j m.sessions ≡ some i
      → Moves
          (stage id m)
          (stage id (start_closing i reason (record m { sessions = drop_key j m.sessions })))
  unfolding pop_all start_all find
  leave-Moves j i reason m h present =
      removal-Moves reason ((j, i) ∷ []) m h (refl, tt)
        (λ x k f. ground (arith, eq_iff j x, present, f))

  evict_if_current-Moves :
      (i : ℕ) (m : Manager)
      → IsRegistry [] m
      → Moves (stage id m) (stage id (evict_if_current i m).1)
  unfolding evict_if_current
  evict_if_current-Moves i m h =
      let P : Bool × Manager → Type 0 = λ o. Moves (stage id m) (stage id o.1) in
      cases-holds P (find (m.heap i).session_id m.sessions) _ _ (λ _. remains _)
        λ current present.
          if-holds P (current == i) _ _
            (λ same. leave-Moves (m.heap i).session_id i error m h (ground (arith, present, same)))
            (λ _. remains _)

  destroy-Moves :
      (j : String) (m : Manager) → IsRegistry [] m → Moves (stage id m) (stage id (destroy j m).1)
  unfolding destroy
  destroy-Moves j m h =
      let P : Option ClosingSession × Manager → Type 0 = λ o. Moves (stage id m) (stage id o.1) in
      if-holds P (str_eq j "") _ _ (λ _. remains _)
        λ _.
          cases-holds P (find j m.sessions) _ _ (λ _. remains _)
            (λ i present. leave-Moves j i destroyed m h present)

  prune_expired-Moves :
      (now : ℕ) (exclude : Option String) (m : Manager)
      → IsRegistry [] m
      → Moves (stage id m) (stage id (prune_expired now exclude m).1)
  unfolding prune_expired
  prune_expired-Moves now exclude m h =
      let gone = prunable now exclude m m.sessions in
      if-holds (λ (o : Dict ℕ × Manager). Moves (stage id m) (stage id o.1)) m.closed _ _
        (λ _. remains _)
        λ _.
          removal-Moves expired gone m h (prunable-Unique now exclude m m.sessions h.unique)
            (prunable-Within now exclude m h.unique)

  close-Moves : (m : Manager) → IsRegistry [] m → Moves (stage id m) (stage id (close m))
  unfolding close find
  close-Moves m h =
      pass-Moves destroyed m.sessions m (record m { closed = true; sessions = [] }) h
        (emptied-IsRegistry m h) refl (λ x i f. f) id (ground arith)

  -- On a well-formed registry every operation leaves every id where it is in its life, or moves it one
  -- step on: a free id takes a session, a registered session's cleanup begins, a cleanup frees its id.
  pub step-Moves :
      (a : Action) (m : Manager) → IsRegistry [] m → Moves (stage id m) (stage id (step a m))
  unfolding step
  step-Moves (registers j context ttl now) m h = register_or_get-Moves j context ttl now m
  step-Moves (registers_new j context ttl now) m h = register_existing-Moves j context ttl now m
  step-Moves (marks_in_use i) m h = SameRegistry-Moves m _ (mark_in_use-SameRegistry i m)
  step-Moves (marks_released i) m h = SameRegistry-Moves m _ (mark_released-SameRegistry i m)
  step-Moves (evicts i) m h = evict_if_current-Moves i m h
  step-Moves (prunes now exclude) m h = prune_expired-Moves now exclude m h
  step-Moves (destroys j) m h = destroy-Moves j m h
  step-Moves (enters j) m h = SameRegistry-Moves m _ (enter_creating-SameRegistry j m)
  step-Moves closes m h = close-Moves m h
  step-Moves (closing_ends j task) m h = closing_done-Moves j task m
  step-Moves (exits j i) m h = SameRegistry-Moves m _ (exit_creating-SameRegistry j i m)
  step-Moves (locks i b) m h = SameRegistry-Moves m _ (set_locked-SameRegistry i b m)
