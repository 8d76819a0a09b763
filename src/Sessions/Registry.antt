-- ===== src/Sessions/Registry.antt =====
-- camouflare/sessions.py: what the registry and its tombstones always satisfy, and the two passes
-- over the sessions that leave it.
use camouflare.Prelude.{ap, true, ℕ, ◌+◌, ◌≤◌, ◌<◌, String, none, some, [], ◌∷◌, ◌≡◌, refl, arith}
use text.Mathlib.TextEquality.{eq_iff}
use camouflare.Prelude.Dict.{
  Dict, find, drop_key, size, Unique, find-drop_key, size-drop_key, drop_key-Unique,
}
use camouflare.Sessions.State.{ClosingSession, Manager}
use camouflare.Sessions.Removal.{pop_all}

-- `leaving` holds the sessions that have left the registry and whose cleanup has not begun. No id
-- stands twice, or in two of the three; every entry names a session of its id; and the three
-- together stay within `max_sessions`.
pub record IsRegistry (leaving : Dict ℕ) (m : Manager) : Type 0 where
  pub unique : Unique m.sessions
  pub closing_unique : Unique m.closing
  pub leaving_unique : Unique leaving
  pub keyed :
      (id : String) (i : ℕ)
      → find id m.sessions ≡ some i
      → ((m.heap i).session_id ≡ id) × (i < m.next_session)
  pub leaving_keyed :
      (id : String) (i : ℕ)
      → find id leaving ≡ some i
      → ((m.heap i).session_id ≡ id) × (i < m.next_session)
  pub closing_keyed :
      (id : String) (c : ClosingSession)
      → find id m.closing ≡ some c
      → ((m.heap c.session).session_id ≡ id) × (c.session < m.next_session) × (c.task < m.next_task)
  pub apart :
      (id : String) (i : ℕ)
      → find id m.sessions ≡ some i
      → (find id m.closing ≡ none) × (find id leaving ≡ none)
  pub leaving_apart : (id : String) (i : ℕ) → find id leaving ≡ some i → find id m.closing ≡ none
  pub within : size m.sessions + size m.closing + size leaving ≤ m.max_sessions

-- `pop_all` on the registry alone.
unfoldable drop_all : Dict ℕ → Dict ℕ → Dict ℕ
drop_all [] d = d
drop_all ((id, i) ∷ gone) d = drop_all gone (drop_key id d)

pop_all-sessions :
    (gone : Dict ℕ) (m : Manager)
    → pop_all gone m ≡ record m { sessions = drop_all gone m.sessions }
unfolding pop_all drop_all
pop_all-sessions [] m = refl
pop_all-sessions ((id, i) ∷ gone) m =
    pop_all-sessions gone (record m { sessions = drop_key id m.sessions })

find-drop_all :
    (j : String) (gone d : Dict ℕ)
    → find j (drop_all gone d) ≡ elim (find j gone) [ none ↦ find j d | some _ ↦ none ]
unfolding drop_all find
find-drop_all j [] d = refl
find-drop_all j ((id, i) ∷ gone) d =
    ground (arith, find-drop_all j gone (drop_key id d), find-drop_key id j d)

pub pop_all-closing : (gone : Dict ℕ) (m : Manager) → (pop_all gone m).closing ≡ m.closing
pop_all-closing gone m = ap (λ q. q.closing) (pop_all-sessions gone m)

pub find-pop_all :
    (j : String) (gone : Dict ℕ) (m : Manager)
    → find j (pop_all gone m).sessions
      ≡ elim (find j gone) [ none ↦ find j m.sessions | some _ ↦ none ]
find-pop_all j gone m = rw (pop_all-sessions gone m) (find-drop_all j gone m.sessions)

drop_all-Unique : (gone d : Dict ℕ) → Unique d → Unique (drop_all gone d)
unfolding drop_all
drop_all-Unique [] d u = u
drop_all-Unique ((id, i) ∷ gone) d u = drop_all-Unique gone _ (drop_key-Unique id d u)

-- Every entry of `gone` is an entry of `d`.
abbrev pub Within : Dict ℕ → Dict ℕ → Type 0
Within gone d = (id : String) (i : ℕ) → find id gone ≡ some i → find id d ≡ some i

Within-tail :
    (id : String) (i : ℕ) (gone d : Dict ℕ)
    → find id gone ≡ none
    → Within ((id, i) ∷ gone) d
    → Within gone (drop_key id d)
unfolding find
Within-tail id i gone d fresh h j k found = ground (arith, find-drop_key id j d, eq_iff id j, h j k)

Within-head :
    (id : String) (i : ℕ) (gone d : Dict ℕ) → Within ((id, i) ∷ gone) d → find id d ≡ some i
unfolding find
Within-head id i gone d h = ground (arith, eq_iff id id, h id i)

size-drop_all :
    (gone d : Dict ℕ) → Unique gone → Within gone d → size (drop_all gone d) + size gone ≤ size d
unfolding drop_all find
size-drop_all [] d u h = omega arith
size-drop_all ((id, i) ∷ gone) d u h = ground (
  arith,
  size-drop_all gone (drop_key id d) u.1 (Within-tail id i gone d u.0 h),
  size-drop_key id i d (Within-head id i gone d h),
)

-- The first pass: the sessions leave the registry.
pub pop_all-IsRegistry :
    (gone : Dict ℕ) (m : Manager)
    → IsRegistry [] m
    → Unique gone
    → Within gone m.sessions
    → IsRegistry gone (pop_all gone m)
pop_all-IsRegistry gone m h u w = rw (pop_all-sessions gone m) (record {
  unique = drop_all-Unique gone m.sessions h.unique;
  closing_unique = h.closing_unique;
  leaving_unique = u;
  keyed = λ id i f. ground (arith, find-drop_all id gone m.sessions, h.keyed id i);
  leaving_keyed = λ id i f. h.keyed id i (w id i f);
  closing_keyed = h.closing_keyed;
  apart = λ id i f. ground (arith, find-drop_all id gone m.sessions, h.apart id i);
  leaving_apart = λ id i f. (h.apart id i (w id i f)).0;
  within = omega (arith, h.within, size-drop_all gone m.sessions u w);
})

-- Where no session is leaving, the clauses about those say nothing.
pub IsRegistry-nil :
    (m : Manager)
    → Unique m.sessions
    → Unique m.closing
    → ((id : String) (i : ℕ)
        → find id m.sessions ≡ some i
        → ((m.heap i).session_id ≡ id) × (i < m.next_session))
    → ((id : String) (c : ClosingSession)
        → find id m.closing ≡ some c
        → ((m.heap c.session).session_id ≡ id)
          × (c.session < m.next_session)
          × (c.task < m.next_task))
    → ((id : String) (i : ℕ) → find id m.sessions ≡ some i → find id m.closing ≡ none)
    → size m.sessions + size m.closing ≤ m.max_sessions
    → IsRegistry [] m
unfolding find
IsRegistry-nil m u v k c a w = record {
  unique = u;
  closing_unique = v;
  leaving_unique = tt;
  keyed = k;
  leaving_keyed = λ id i f. absurd (ground (arith, f));
  closing_keyed = c;
  apart = λ id i f. (a id i f, refl);
  leaving_apart = λ id i f. absurd (ground (arith, f));
  within = omega (arith, w);
}

-- The whole registry leaves at once.
pub emptied-IsRegistry :
    (m : Manager)
    → IsRegistry [] m
    → IsRegistry m.sessions (record m { closed = true; sessions = [] })
unfolding find
emptied-IsRegistry m h = record {
  unique = tt;
  closing_unique = h.closing_unique;
  leaving_unique = h.unique;
  keyed = λ id i f. absurd (ground (arith, f));
  leaving_keyed = h.keyed;
  closing_keyed = h.closing_keyed;
  apart = λ id i f. absurd (ground (arith, f));
  leaving_apart = λ id i f. (h.apart id i f).0;
  within = omega (arith, h.within);
}
