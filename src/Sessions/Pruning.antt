-- ===== src/Sessions/Pruning.antt =====
-- camouflare/sessions.py: `prune_expired` takes exactly the expired, idle and unlocked sessions.
use camouflare.Sessions.Closing.{start_all-sessions, start_all-IsClosing, IsClosing}
use camouflare.Sessions.Registry.{find-pop_all, IsRegistry, pop_all-IsRegistry, Within}
use camouflare.Prelude.{
  Bool-cases, ◌⊎◌, inr, inl, Bool, Option-cases, Bool-cases, inr, inl, true, false, ◌≤◌, ◌+◌, ◌≢◌,
  ℕ, String, [], ◌∷◌, Option, none, some, ◌≡◌, refl, arith, if◌then◌else◌,
}
use text.Mathlib.Text.{◌==◌ as str_eq}
use text.Mathlib.TextEquality.{eq_iff}
use camouflare.Prelude.Dict.{Dict, find, Unique}
use camouflare.Sessions.State.{expired, is_expired, Session, Manager}
use camouflare.Sessions.Removal.{prunable, prune_expired, pop_all, is_excluded, is_prunable}

-- A session of that id that the reaper may take: its time to live is over, no request uses it or
-- waits to, its lock is free, and it is not the one that the caller excludes.
pub record IsStale (now : ℕ) (exclude : Option String) (id : String) (s : Session) : Type 0 where
  pub ttl : ℕ
  pub limited : s.ttl_seconds ≡ some ttl
  pub old : s.created_at + ttl ≤ now
  pub idle : s.in_use ≡ 0
  pub unlocked : s.locked ≡ false
  pub other : exclude ≢ some id

excluded-other :
    (exclude : Option String) (id : String) → is_excluded exclude id ≡ false → exclude ≢ some id
excluded-other none id h e = absurd (ground (arith, e))
excluded-other (some j) id h e = absurd (ground (arith, h, e, eq_iff id j))

other-excluded :
    (exclude : Option String) (id : String) → exclude ≢ some id → is_excluded exclude id ≡ false
other-excluded none id h = refl
other-excluded (some j) id h = elim (Bool-cases (str_eq id j)) [
  | inl same ↦ absurd (h (ground (arith, same, eq_iff id j)))
  | inr differs ↦ differs
]

module _ (now : ℕ) (exclude : Option String) (m : Manager) where
  pub find-prunable :
      (id : String) (d : Dict ℕ)
      → Unique d
      → find id (prunable now exclude m d) ≡ elim (find id d) [
        | none ↦ none
        | some i ↦ if is_prunable now exclude m (id, i) then some i else none
      ]
  unfolding prunable find
  find-prunable id [] u = refl
  find-prunable id ((j, i) ∷ d) u =
      ground (arith, eq_iff j id, find-prunable id d u.1, find-prunable j d u.1)

  is_prunable-IsStale :
      (id : String) (i : ℕ)
      → is_prunable now exclude m (id, i) ≡ true
      → IsStale now exclude id (m.heap i)
  unfolding is_prunable is_expired
  is_prunable-IsStale id i t = elim (Option-cases (m.heap i).ttl_seconds) [
    | inl unlimited ↦ absurd (ground (arith, t, unlimited))
    | inr (ttl, limited) ↦ record {
      ttl = ttl;
      limited = limited;
      old = ground (arith, t, limited);
      idle = ground (arith, t);
      unlocked = ground (arith, t);
      other = excluded-other exclude id (ground (arith, t));
    }
  ]

  IsStale-is_prunable :
      (id : String) (i : ℕ)
      → IsStale now exclude id (m.heap i)
      → is_prunable now exclude m (id, i) ≡ true
  unfolding is_prunable is_expired
  IsStale-is_prunable id i s =
      ground (arith, s.limited, s.old, s.idle, s.unlocked, other-excluded exclude id s.other)

  pub prunable-Unique : (d : Dict ℕ) → Unique d → Unique (prunable now exclude m d)
  unfolding prunable find
  prunable-Unique [] u = tt
  prunable-Unique ((j, i) ∷ d) u = ground (arith, prunable-Unique d u.1, find-prunable j d u.1)

  pub prunable-Within : Unique m.sessions → Within (prunable now exclude m m.sessions) m.sessions
  prunable-Within u id i f = ground (arith, find-prunable id m.sessions u, f)

not_true : (b : Bool) → (b ≡ true → ⊥) → b ≡ false
not_true true h = absurd (h refl)
not_true false h = refl

module _ (now : ℕ) (exclude : Option String) (m : Manager) (h : IsRegistry [] m)
    (active : m.closed ≡ false) (id : String) (i : ℕ) (present : find id m.sessions ≡ some i) where
  -- On an open manager with a well-formed registry, pruning takes every registered session that is
  -- stale: it is in the result, out of the registry, and its cleanup has begun under its id.
  prune_expired-takes :
      IsStale now exclude id (m.heap i)
      → let (gone, q) = prune_expired now exclude m in
        (find id gone ≡ some i) × (find id q.sessions ≡ none) × IsClosing id i expired q
  unfolding prune_expired
  prune_expired-takes stale =
      let gone = prunable now exclude m m.sessions in
      let test = IsStale-is_prunable now exclude m id i stale in
      let found : find id gone ≡ some i =
        ground (arith, find-prunable now exclude m id m.sessions h.unique, present, test) in
      let left =
        pop_all-IsRegistry gone m h (prunable-Unique now exclude m m.sessions h.unique)
          (prunable-Within now exclude m h.unique) in
      simp active (
        found,
        ground (
          arith,
          find-pop_all id gone m,
          start_all-sessions expired gone (pop_all gone m),
          found,
        ),
        start_all-IsClosing expired gone _ left id i found,
      )

  -- On an open manager with a well-formed registry, pruning spares every registered session that is
  -- not stale: it is not in the result, and stays registered under its id.
  prune_expired-spares :
      (IsStale now exclude id (m.heap i) → ⊥)
      → let (gone, q) = prune_expired now exclude m in
        (find id gone ≡ none) × (find id q.sessions ≡ some i)
  unfolding prune_expired
  prune_expired-spares fresh =
      let gone = prunable now exclude m m.sessions in
      let test : is_prunable now exclude m (id, i) ≡ false =
        not_true _ (λ t. fresh (is_prunable-IsStale now exclude m id i t)) in
      let found : find id gone ≡ none =
        ground (arith, find-prunable now exclude m id m.sessions h.unique, present, test) in
      simp active (
        found,
        ground (
          arith,
          find-pop_all id gone m,
          start_all-sessions expired gone (pop_all gone m),
          found,
          present,
        ),
      )

  -- On an open manager with a well-formed registry, pruning takes exactly the registered sessions that
  -- are stale: such a session is in the result, out of the registry, and its cleanup has begun under
  -- its id; any other is not in the result, and stays registered.
  pub prune_expired-IsExact :
      let (gone, q) = prune_expired now exclude m in
      ((IsStale now exclude id (m.heap i))
        × (find id gone ≡ some i)
        × (find id q.sessions ≡ none)
        × IsClosing id i expired q)
      ⊎ ((IsStale now exclude id (m.heap i) → ⊥)
          × (find id gone ≡ none)
          × (find id q.sessions ≡ some i))
  prune_expired-IsExact = elim (Bool-cases (is_prunable now exclude m (id, i))) [
    | inl test ↦
        let stale = is_prunable-IsStale now exclude m id i test in
        let (listed, gone, begun) = prune_expired-takes stale in inl (stale, listed, gone, begun)
    | inr test ↦
        let fresh : IsStale now exclude id (m.heap i) → ⊥ =
          λ s. absurd (ground (arith, IsStale-is_prunable now exclude m id i s, test)) in
        let (unlisted, kept) = prune_expired-spares fresh in inr (fresh, unlisted, kept)
  ]
