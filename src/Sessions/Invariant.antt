-- ===== src/Sessions/Invariant.antt =====
-- Every operation of the session manager keeps its registry well formed.
use camouflare.Sessions.Schedules.{
  locks, exits, closing_ends, closes, enters, destroys, prunes, evicts, marks_released,
  marks_in_use, registers_new, registers, run, step, Action,
}
use camouflare.Sessions.Pruning.{prunable-Within, prunable-Unique}
use camouflare.Sessions.Closing.{start_all-IsRegistry}
use camouflare.Sessions.Removal.{
  prunable, prune_expired, close, destroy, evict_if_current, start_all, pop_all, closing_done,
}
use camouflare.Sessions.Untouched.{
  exit_creating-SameRegistry, enter_creating-SameRegistry, set_locked-SameRegistry,
  mark_released-SameRegistry, mark_in_use-SameRegistry, settle_creation-SameRegistry,
  SameRegistry-IsRegistry,
}
use camouflare.Prelude.{
  List, ◌∷◌, some, if◌then◌else◌, ◌==◌, cases-holds, if-holds, ℕ, suc, String, Bool, true, false,
  [], Option, none, leb, ◌≡◌, refl, sym, subst, arith, ◌+◌,
}
use text.Mathlib.TextEquality.{eq_iff}
use text.Mathlib.Text.{◌==◌ as str_eq}
use camouflare.Prelude.Dict.{
  Dict, size-drop_key-le, find-drop_key, drop_key-Unique, drop_key, find, put, size, find-put,
  size-put-le, put-Unique,
}
use camouflare.Sessions.State.{
  expired, ClosingSession, start_closing, error, destroyed, CloseReason, err, ok, Result, Session,
  Manager, new_manager, new_session, write_session, register, register_or_get, register_existing,
  only_new,
}
use camouflare.Sessions.Registry.{
  emptied-IsRegistry, pop_all-IsRegistry, IsRegistry-nil, IsRegistry,
}

new_manager-IsRegistry : (max_sessions ttl : ℕ) → IsRegistry [] (new_manager max_sessions ttl)
unfolding find
new_manager-IsRegistry n ttl =
    IsRegistry-nil _ tt tt (λ id i f. absurd (ground (arith, f)))
      (λ id c f. absurd (ground (arith, f))) (λ id i f. refl) (omega arith)

-- The insertion, for an id that is neither registered nor being cleaned up, where there is room.
insertion-IsRegistry :
    (id : String) (s : Session) (m : Manager)
    → s.session_id ≡ id
    → find id m.sessions ≡ none
    → find id m.closing ≡ none
    → leb m.max_sessions (size m.sessions + size m.closing) ≡ false
    → IsRegistry [] m
    → IsRegistry [] (
        write_session m.next_session
          (λ _. s)
          (record m {
            sessions = put id m.next_session m.sessions;
            next_session = suc m.next_session;
          }))
insertion-IsRegistry id s m own new free room h =
    IsRegistry-nil _ (put-Unique id m.next_session m.sessions h.unique) h.closing_unique
      (λ j i f. ground (arith, find-put id j m.next_session m.sessions, eq_iff id j, h.keyed j i))
      (λ j c f. ground (arith, h.closing_keyed j c f))
      (λ j i f. ground (arith, find-put id j m.next_session m.sessions, eq_iff id j, h.apart j i))
      (ground (arith, h.within, room, size-put-le id m.next_session m.sessions))

register-IsRegistry :
    (id : String) (context : ℕ) (ttl : Option ℕ) (now : ℕ) (m : Manager)
    → find id m.sessions ≡ none
    → find id m.closing ≡ none
    → leb m.max_sessions (size m.sessions + size m.closing) ≡ false
    → IsRegistry [] m
    → IsRegistry [] (register id context ttl now m)
unfolding register
register-IsRegistry id context ttl now m new free room h =
    SameRegistry-IsRegistry _ _ (settle_creation-SameRegistry id _)
      (insertion-IsRegistry id (new_session id context ttl now m) m refl new free room h)

register_or_get-IsRegistry :
    (id : String) (context : ℕ) (ttl : Option ℕ) (now : ℕ) (m : Manager)
    → IsRegistry [] m
    → IsRegistry [] (register_or_get id context ttl now m).1
unfolding register_or_get
register_or_get-IsRegistry id context ttl now m h =
    let P : Result (ℕ × Bool) × Manager → Type 0 = λ o. IsRegistry [] o.1 in
    if-holds P m.closed _ _ (λ _. h)
      λ _.
        cases-holds P (find id m.sessions) _ _
          (λ new.
            cases-holds P (find id m.closing) _ _
              (λ free.
                if-holds P (leb m.max_sessions (size m.sessions + size m.closing)) _ _ (λ _. h)
                  λ room. register-IsRegistry id context ttl now m new free room h)
              λ c _. h)
          λ i _. h

pub only_new-manager : (o : Result (ℕ × Bool) × Manager) → (only_new o).1 ≡ o.1
only_new-manager (ok (i, true), m) = refl
only_new-manager (ok (i, false), m) = refl
only_new-manager (err x, m) = refl

register_existing-IsRegistry :
    (id : String) (context : ℕ) (ttl : Option ℕ) (now : ℕ) (m : Manager)
    → IsRegistry [] m
    → IsRegistry [] (register_existing id context ttl now m).1
unfolding register_existing
register_existing-IsRegistry id context ttl now m h =
    subst (IsRegistry []) (sym (only_new-manager (register_or_get id context ttl now m)))
      (register_or_get-IsRegistry id context ttl now m h)

closing_done-IsRegistry :
    (id : String) (task : ℕ) (m : Manager)
    → IsRegistry [] m
    → IsRegistry [] (closing_done id task m)
unfolding closing_done
closing_done-IsRegistry id task m h =
    cases-holds (IsRegistry []) (find id m.closing) m
      (λ c. if c.task == task then record m { closing = drop_key id m.closing } else m) (λ _. h)
      λ c _.
        if-holds (IsRegistry []) (c.task == task) _ _
          (λ _.
            IsRegistry-nil _ h.unique (drop_key-Unique id m.closing h.closing_unique) h.keyed
              (λ j d f. ground (arith, find-drop_key id j m.closing, h.closing_keyed j d))
              (λ j i f. ground (arith, find-drop_key id j m.closing, h.apart j i f))
              (omega (arith, h.within, size-drop_key-le id m.closing)))
          (λ _. h)

-- One session leaves.
leave-IsRegistry :
    (id : String) (i : ℕ) (reason : CloseReason) (m : Manager)
    → find id m.sessions ≡ some i
    → IsRegistry [] m
    → IsRegistry [] (start_closing i reason (record m { sessions = drop_key id m.sessions }))
unfolding pop_all start_all find
leave-IsRegistry id i reason m present h = start_all-IsRegistry reason ((id, i) ∷ []) _ (
    pop_all-IsRegistry ((id, i) ∷ []) m h (refl, tt)
      (λ j k f. ground (arith, eq_iff id j, present, f)))

evict_if_current-IsRegistry :
    (i : ℕ) (m : Manager) → IsRegistry [] m → IsRegistry [] (evict_if_current i m).1
unfolding evict_if_current
evict_if_current-IsRegistry i m h =
    let P : Bool × Manager → Type 0 = λ o. IsRegistry [] o.1 in
    cases-holds P (find (m.heap i).session_id m.sessions) _ _ (λ _. h)
      λ current present.
        if-holds P (current == i) _ _
          (λ same.
            leave-IsRegistry (m.heap i).session_id i error m (ground (arith, present, same)) h)
          (λ _. h)

destroy-IsRegistry : (id : String) (m : Manager) → IsRegistry [] m → IsRegistry [] (destroy id m).1
unfolding destroy
destroy-IsRegistry id m h =
    let P : Option ClosingSession × Manager → Type 0 = λ o. IsRegistry [] o.1 in
    if-holds P (str_eq id "") _ _ (λ _. h)
      λ _.
        cases-holds P (find id m.sessions) _ _ (λ _. h)
          (λ i present. leave-IsRegistry id i destroyed m present h)

close-IsRegistry : (m : Manager) → IsRegistry [] m → IsRegistry [] (close m)
unfolding close
close-IsRegistry m h = start_all-IsRegistry destroyed m.sessions _ (emptied-IsRegistry m h)

prune_expired-IsRegistry :
    (now : ℕ) (exclude : Option String) (m : Manager)
    → IsRegistry [] m
    → IsRegistry [] (prune_expired now exclude m).1
unfolding prune_expired
prune_expired-IsRegistry now exclude m h =
    let gone = prunable now exclude m m.sessions in
    if-holds (λ (o : Dict ℕ × Manager). IsRegistry [] o.1) m.closed _ _ (λ _. h)
      λ _. start_all-IsRegistry expired gone _ (
        pop_all-IsRegistry gone m h (prunable-Unique now exclude m m.sessions h.unique)
          (prunable-Within now exclude m h.unique))

step-IsRegistry : (a : Action) (m : Manager) → IsRegistry [] m → IsRegistry [] (step a m)
unfolding step
step-IsRegistry (registers id context ttl now) m h =
    register_or_get-IsRegistry id context ttl now m h
step-IsRegistry (registers_new id context ttl now) m h =
    register_existing-IsRegistry id context ttl now m h
step-IsRegistry (marks_in_use i) m h = SameRegistry-IsRegistry _ _ (mark_in_use-SameRegistry i m) h
step-IsRegistry (marks_released i) m h =
    SameRegistry-IsRegistry _ _ (mark_released-SameRegistry i m) h
step-IsRegistry (evicts i) m h = evict_if_current-IsRegistry i m h
step-IsRegistry (prunes now exclude) m h = prune_expired-IsRegistry now exclude m h
step-IsRegistry (destroys id) m h = destroy-IsRegistry id m h
step-IsRegistry (enters id) m h = SameRegistry-IsRegistry _ _ (enter_creating-SameRegistry id m) h
step-IsRegistry closes m h = close-IsRegistry m h
step-IsRegistry (closing_ends id task) m h = closing_done-IsRegistry id task m h
step-IsRegistry (exits id i) m h = SameRegistry-IsRegistry _ _ (exit_creating-SameRegistry id i m) h
step-IsRegistry (locks i b) m h = SameRegistry-IsRegistry _ _ (set_locked-SameRegistry i b m) h

run-IsRegistry :
    (schedule : List Action) (m : Manager) → IsRegistry [] m → IsRegistry [] (run schedule m)
unfolding run
run-IsRegistry [] m h = h
run-IsRegistry (a ∷ rest) m h = run-IsRegistry rest (step a m) (step-IsRegistry a m h)

-- After any schedule from a new manager no id is registered twice, cleaned up twice, or both at once;
-- every entry names a session of its id; and the registered sessions together with those that are
-- being cleaned up stay within `max_sessions`.
pub run-new_manager-IsRegistry :
    (max_sessions ttl : ℕ) (schedule : List Action)
    → IsRegistry [] (run schedule (new_manager max_sessions ttl))
run-new_manager-IsRegistry n ttl schedule = run-IsRegistry schedule _ (new_manager-IsRegistry n ttl)
