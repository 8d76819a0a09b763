-- ===== src/Sessions/Closing.antt =====
-- camouflare/sessions.py: `_start_closing_unlocked` for the sessions that have left the registry.
use camouflare.Sessions.Registry.{IsRegistry}
use camouflare.Prelude.{
  ◌∙◌, cases-holds, inr, inl, Bool-cases, suc, ℕ, String, none, some, [], ◌∷◌, ◌≡◌, refl, sym,
  subst, false, arith,
}
use text.Mathlib.Text.{◌==◌ as str_eq}
use text.Mathlib.TextEquality.{eq_iff}
use camouflare.Prelude.Dict.{find-put, size-put-le, put-Unique, put, Dict, find}
use camouflare.Sessions.State.{CloseReason, start_closing, ClosingSession, Manager}
use camouflare.Sessions.Removal.{start_all}

-- What `start_closing` writes for a session whose id has no tombstone yet.
abbrev pub tombstone : ℕ → CloseReason → Manager → ClosingSession
tombstone i reason m = record { session = i; task = m.next_task; reason = reason }

start_closing-first :
    (i : ℕ) (reason : CloseReason) (m : Manager)
    → find (m.heap i).session_id m.closing ≡ none
    → start_closing i reason m ≡ record m {
      closing = put (m.heap i).session_id (tombstone i reason m) m.closing;
      next_task = suc m.next_task;
    }
unfolding start_closing
start_closing-first i reason m h = rw (h, start_closing) refl

find-head : {V : Type 0} (id : String) (v : V) (rest : Dict V) → find id ((id, v) ∷ rest) ≡ some v
unfolding find
find-head id v rest = ground (arith, eq_iff id id)

module _ (id : String) (i : ℕ) (rest : Dict ℕ) (m : Manager) where
  pub head_key : IsRegistry ((id, i) ∷ rest) m → (m.heap i).session_id ≡ id
  head_key h = (h.leaving_keyed id i (find-head id i rest)).0

  head_apart : IsRegistry ((id, i) ∷ rest) m → find (m.heap i).session_id m.closing ≡ none
  head_apart h =
      subst (λ j. find j m.closing ≡ none) (sym (head_key h))
        (h.leaving_apart id i (find-head id i rest))

  find-tail :
      (j : String) (k : ℕ)
      → find id rest ≡ none
      → find j rest ≡ some k
      → (find j ((id, i) ∷ rest) ≡ some k) × (str_eq id j ≡ false)
  unfolding find
  find-tail j k fresh f = ground (arith, eq_iff id j)

  pub find-second :
      (j : String) → find j ((id, i) ∷ rest) ≡ none → (find j rest ≡ none) × (str_eq id j ≡ false)
  unfolding find
  find-second j f = ground (arith, eq_iff id j)

  pub start_closing-IsRegistry :
      (reason : CloseReason)
      → IsRegistry ((id, i) ∷ rest) m
      → IsRegistry rest (start_closing i reason m)
  start_closing-IsRegistry reason h =
      rw (start_closing-first i reason m (head_apart h), head_key h)
        (record {
          unique = h.unique;
          closing_unique = put-Unique id _ m.closing h.closing_unique;
          leaving_unique = h.leaving_unique.1;
          keyed = h.keyed;
          leaving_keyed = λ j k f. h.leaving_keyed j k (find-tail j k h.leaving_unique.0 f).0;
          closing_keyed = λ j c f. ground (
            arith,
            find-put id j (tombstone i reason m) m.closing,
            eq_iff id j,
            h.closing_keyed j c,
            h.leaving_keyed id i (find-head id i rest),
          );
          apart = λ j k f. ground (
            arith,
            find-put id j (tombstone i reason m) m.closing,
            h.apart j k f,
            find-second j (h.apart j k f).1,
          );
          leaving_apart = λ j k f. ground (
            arith,
            find-put id j (tombstone i reason m) m.closing,
            find-tail j k h.leaving_unique.0 f,
            h.leaving_apart j k,
          );
          within = omega (arith, h.within, size-put-le id (tombstone i reason m) m.closing);
        })

-- The second pass: every cleanup begins.
pub start_all-IsRegistry :
    (reason : CloseReason) (leaving : Dict ℕ) (m : Manager)
    → IsRegistry leaving m
    → IsRegistry [] (start_all reason leaving m)
unfolding start_all
start_all-IsRegistry reason [] m h = h
start_all-IsRegistry reason ((id, i) ∷ rest) m h =
    start_all-IsRegistry reason rest (start_closing i reason m)
      (start_closing-IsRegistry id i rest m reason h)

-- A cleanup of the session has begun for that reason, and its id is taken until the cleanup ends.
pub record IsClosing (id : String) (i : ℕ) (reason : CloseReason) (m : Manager) : Type 0 where
  pub task : ℕ
  pub found : find id m.closing ≡ some (record { session = i; task = task; reason = reason })

start_closing-IsClosing :
    (id : String) (i : ℕ) (rest : Dict ℕ) (reason : CloseReason) (m : Manager)
    → IsRegistry ((id, i) ∷ rest) m
    → IsClosing id i reason (start_closing i reason m)
start_closing-IsClosing id i rest reason m h =
    rw (start_closing-first i reason m (head_apart id i rest m h), head_key id i rest m h)
      (record {
        task = m.next_task;
        found = ground (arith, find-put id id (tombstone i reason m) m.closing, eq_iff id id);
      })

-- A tombstone that is there outlives the second pass.
start_closing-keeps :
    (i : ℕ) (id : String) (c : ClosingSession) (reason : CloseReason) (m : Manager)
    → find id m.closing ≡ some c
    → find id (start_closing i reason m).closing ≡ some c
unfolding start_closing
start_closing-keeps i id c reason m f = ground (
  arith,
  eq_iff (m.heap i).session_id id,
  find-put (m.heap i).session_id id (tombstone i reason m) m.closing,
)

start_all-keeps :
    (rest : Dict ℕ) (id : String) (c : ClosingSession) (reason : CloseReason) (m : Manager)
    → find id m.closing ≡ some c
    → find id (start_all reason rest m).closing ≡ some c
unfolding start_all
start_all-keeps [] id c reason m f = f
start_all-keeps ((j, i) ∷ rest) id c reason m f =
    start_all-keeps rest id c reason (start_closing i reason m)
      (start_closing-keeps i id c reason m f)

pub start_all-IsClosing :
    (reason : CloseReason) (leaving : Dict ℕ) (m : Manager)
    → IsRegistry leaving m
    → (id : String) (i : ℕ) → find id leaving ≡ some i
    → IsClosing id i reason (start_all reason leaving m)
unfolding start_all find
start_all-IsClosing reason [] m h id i f = absurd (ground (arith, f))
start_all-IsClosing reason ((j, k) ∷ rest) m h id i f = elim (Bool-cases (str_eq j id)) [
  | inl same ↦
      let t = start_closing k reason m in
      let begun = start_closing-IsClosing j k rest reason m h in
      let here : IsClosing id i reason t =
        subst (λ x. IsClosing id x reason t) (ground (arith, f, same))
          (subst (λ x. IsClosing x k reason t) (ground (arith, eq_iff j id, same)) begun) in
      record { task = here.task; found = start_all-keeps rest id _ reason t here.found }
  | inr other ↦
      start_all-IsClosing reason rest (start_closing k reason m)
        (start_closing-IsRegistry j k rest m reason h) id i (ground (arith, f, other))
]

-- Neither pass of the tombstones touches the registry.
pub start_closing-sessions :
    (i : ℕ) (reason : CloseReason) (m : Manager) → (start_closing i reason m).sessions ≡ m.sessions
unfolding start_closing
start_closing-sessions i reason m =
    cases-holds (λ (q : Manager). q.sessions ≡ m.sessions) (find (m.heap i).session_id m.closing) _
      (λ _. m) (λ _. refl) (λ _ _. refl)

pub start_all-sessions :
    (reason : CloseReason) (d : Dict ℕ) (m : Manager) → (start_all reason d m).sessions ≡ m.sessions
unfolding start_all
start_all-sessions reason [] m = refl
start_all-sessions reason ((id, i) ∷ d) m =
    start_all-sessions reason d (start_closing i reason m) ∙ start_closing-sessions i reason m
