-- ===== src/Sessions/Stages.antt =====
-- camouflare/sessions.py: the life of an id as a state machine, free, registered, being cleaned up.
use text.Mathlib.Text.{◌==◌ as str_eq}
use camouflare.Prelude.{
  Option-cases, inr, inl, Option, ℕ, String, false, [], ◌∷◌, none, some, ◌≡◌, refl, sym, subst, ◌∙◌,
  arith, cases-holds,
}
use camouflare.Prelude.Dict.{Dict, find, find-put}
use camouflare.Sessions.State.{CloseReason, ClosingSession, Manager, start_closing}
use camouflare.Sessions.Removal.{start_all}
use camouflare.Sessions.Registry.{Within, IsRegistry}
use camouflare.Sessions.Closing.{
  start_all-IsClosing, start_all-sessions, tombstone, head_key, find-second,
  start_closing-IsRegistry,
}

pub data Stage : Type 0 where
  free : Stage
  registered : ℕ → Stage
  cleaning : ClosingSession → Stage

abbrev pub stage_of : Option ℕ → Option ClosingSession → Stage
stage_of (some i) entry = registered i
stage_of none (some c) = cleaning c
stage_of none none = free

abbrev pub stage : String → Manager → Stage
stage id m = stage_of (find id m.sessions) (find id m.closing)

-- What one stretch of code may do to an id: a free id takes a session, a registered session begins
-- its cleanup, a cleanup frees its id.
pub data Moves : Stage → Stage → Type 0 where
  remains : (s : Stage) → Moves s s
  joins : (i : ℕ) → Moves free (registered i)
  departs :
      (i task : ℕ) (reason : CloseReason)
      → Moves (registered i) (cleaning (record { session = i; task = task; reason = reason }))
  finishes : (c : ClosingSession) → Moves (cleaning c) free

-- The tombstones of other ids.
start_closing-other :
    (id : String) (i : ℕ) (reason : CloseReason) (m : Manager)
    → str_eq (m.heap i).session_id id ≡ false
    → find id (start_closing i reason m).closing ≡ find id m.closing
unfolding start_closing
start_closing-other id i reason m other =
    cases-holds (λ (q : Manager). find id q.closing ≡ find id m.closing)
      (find (m.heap i).session_id m.closing) _ (λ _. m)
      (λ _.
        ground (arith, find-put (m.heap i).session_id id (tombstone i reason m) m.closing, other))
      (λ _ _. refl)

start_all-other :
    (reason : CloseReason) (leaving : Dict ℕ) (m : Manager)
    → IsRegistry leaving m
    → (id : String) → find id leaving ≡ none
    → find id (start_all reason leaving m).closing ≡ find id m.closing
unfolding start_all
start_all-other reason [] m h id f = refl
start_all-other reason ((j, i) ∷ rest) m h id f =
    let (later, other) = find-second j i rest m id f in
    start_all-other reason rest (start_closing i reason m)
      (start_closing-IsRegistry j i rest m reason h) id later
    ∙ start_closing-other id i reason m
        (subst (λ x. str_eq x id ≡ false) (sym (head_key j i rest m h)) other)

-- A pass over the sessions that leave: `gone` has left `m` for `p`, and its cleanups begin.
pub pass-Moves :
    (reason : CloseReason) (gone : Dict ℕ) (m p : Manager)
    → IsRegistry [] m
    → IsRegistry gone p
    → p.closing ≡ m.closing
    → Within gone m.sessions
    → (id : String)
    → find id p.sessions ≡ elim (find id gone) [ none ↦ find id m.sessions | some _ ↦ none ]
    → Moves (stage id m) (stage id (start_all reason gone p))
pass-Moves reason gone m p h left same within id split =
    let q = start_all reason gone p in
    let kept = start_all-sessions reason gone p in
    elim (Option-cases (find id gone)) [
      | inl stays ↦
          let a : find id q.sessions ≡ find id m.sessions = ground (arith, kept, split, stays) in
          let b : find id q.closing ≡ find id m.closing =
            ground (arith, start_all-other reason gone p left id stays, same) in
          rw (a, b) (remains _)
      | inr (i, leaves) ↦
          let begun = start_all-IsClosing reason gone p left id i leaves in
          let a : find id q.sessions ≡ none = ground (arith, kept, split, leaves) in
          rw (within id i leaves, a, begun.found) (departs i begun.task reason)
    ]
