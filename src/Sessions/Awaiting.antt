-- ===== src/Sessions/Awaiting.antt =====
-- camouflare/sessions.py: a pending creation stays that of its id until its event is set, for good.
use camouflare.Prelude.{
  ℕ, ◌+◌, ◌-◌, ◌<◌, ◌==◌, String, Bool, true, List, [], ◌∷◌, some, ◌≡◌, refl, subst, sym, ap, ◌∙◌,
  arith, ◌⊎◌, inl, inr, if-holds, cases-holds,
}
use text.Mathlib.TextEquality.{eq_iff}
use camouflare.Prelude.Dict.{find, find-put, find-drop_key}
use camouflare.Sessions.State.{Manager, write_pending}
use camouflare.Sessions.Creation.{enter_creating, exit_creating}
use camouflare.Sessions.Schedules.{
  Action, registers, registers_new, marks_in_use, marks_released, evicts, prunes, destroys, enters,
  closes, closing_ends, exits, locks, step,
}
use camouflare.Sessions.Builders.{
  Site, new_site, count_inside, is_inside, leave, admit_builder, follow, follow_all,
}
use camouflare.Sessions.Settling.{IsOther, step-Settles}
use camouflare.Sessions.Waking.{follow-Tracked}
use camouflare.Sessions.Counting.{Tracked, forget_creation-present}

-- The event of a creation is set, or, where `open_` allows it, the creation is still the one of the id.
abbrev pub Awaited : Bool → String → ℕ → Site → Type 0
Awaited open_ id i w =
    (i < w.manager.next_pending)
    × (((open_ ≡ true) × (find id w.manager.creations ≡ some i))
        ⊎ ((w.manager.pending i).settled ≡ true))

module _ (open_ : Bool) (id : String) (i : ℕ) where
  other-Awaited :
      (a : Action) (w : Site)
      → IsOther a
      → Awaited open_ id i w
      → Awaited open_ id i (record w { manager = step a w.manager })
  other-Awaited a w o (low, h) =
      let s = step-Settles a w.manager o in
      (
        subst (λ n. i < n) (sym s.next_pending) low,
        elim h [
          | inl (e, present) ↦ inl (e, ap (find id) s.creations ∙ present)
          | inr set ↦ inr (s.settled i set)
        ],
      )

  enter-Awaited :
      (key : String) (m : Manager) (inside : List (String × ℕ))
      → Awaited open_ id i (record { manager = m; inside = inside })
      → Awaited open_ id i (admit_builder key (enter_creating key m) inside)
  unfolding enter_creating
  enter-Awaited key m inside (low, h) =
      cases-holds (λ (o : ℕ × Manager). Awaited open_ id i (admit_builder key o inside))
        (find key m.creations) _
        (λ j. (j, write_pending j (λ p. record p { builders = p.builders + 1 }) m))
        (λ absent. (
          omega (arith, low),
          ground (arith, h, low, absent, find-put key id m.next_pending m.creations, eq_iff key id),
        ))
        (λ j present. (low, ground (arith, h)))

  exit-Awaited :
      (key : String) (j : ℕ) (w : Site)
      → Tracked w
      → is_inside key j w.inside ≡ true
      → Awaited open_ id i w
      → Awaited open_ id i
          (record { manager = exit_creating key j w.manager; inside = leave key j w.inside })
  unfolding exit_creating
  exit-Awaited key j w t here (low, h) =
      let P : Manager → Type 0 =
        λ q. Awaited open_ id i (record { manager = q; inside = leave key j w.inside }) in
      let present = t.owned key j here in
      if-holds P ((w.manager.pending j).builders - 1 == 0) _ _
        (λ last.
          subst
            (λ q. P (write_pending j (λ p. record { builders = p.builders - 1; settled = true }) q))
            (sym (forget_creation-present key j w.manager present))
            (
              low,
              ground (arith, h, present, find-drop_key key id w.manager.creations, eq_iff key id),
            ))
        (λ more. (low, ground (arith, h)))

  pub follow-Awaited :
      (a : Action) (w : Site) → Tracked w → Awaited open_ id i w → Awaited open_ id i (follow a w)
  unfolding follow
  follow-Awaited (enters key) w t h = enter-Awaited key w.manager w.inside h
  follow-Awaited (exits key j) w t h =
      if-holds (Awaited open_ id i) (is_inside key j w.inside) _ _
        (λ here. exit-Awaited key j w t here h) (λ _. h)
  follow-Awaited (registers key context ttl now) w t h =
      other-Awaited (registers key context ttl now) w tt h
  follow-Awaited (registers_new key context ttl now) w t h =
      other-Awaited (registers_new key context ttl now) w tt h
  follow-Awaited (marks_in_use j) w t h = other-Awaited (marks_in_use j) w tt h
  follow-Awaited (marks_released j) w t h = other-Awaited (marks_released j) w tt h
  follow-Awaited (evicts j) w t h = other-Awaited (evicts j) w tt h
  follow-Awaited (prunes now exclude) w t h = other-Awaited (prunes now exclude) w tt h
  follow-Awaited (destroys key) w t h = other-Awaited (destroys key) w tt h
  follow-Awaited closes w t h = other-Awaited closes w tt h
  follow-Awaited (closing_ends key task) w t h = other-Awaited (closing_ends key task) w tt h
  follow-Awaited (locks j b) w t h = other-Awaited (locks j b) w tt h

pub follow_all-Tracked :
    (actions : List Action) (w : Site) → Tracked w → Tracked (follow_all actions w)
unfolding follow_all
follow_all-Tracked [] w t = t
follow_all-Tracked (a ∷ later) w t = follow_all-Tracked later (follow a w) (follow-Tracked a w t)

pub follow_all-Awaited :
    (open_ : Bool) (id : String) (i : ℕ) (actions : List Action) (w : Site)
    → Tracked w
    → Awaited open_ id i w
    → Awaited open_ id i (follow_all actions w)
unfolding follow_all
follow_all-Awaited open_ id i [] w t h = h
follow_all-Awaited open_ id i (a ∷ later) w t h =
    follow_all-Awaited open_ id i later (follow a w) (follow-Tracked a w t)
      (follow-Awaited open_ id i a w t h)

pub new_site-Tracked : (max_sessions ttl : ℕ) → Tracked (new_site max_sessions ttl)
unfolding count_inside is_inside find
new_site-Tracked max_sessions ttl = record {
  builders = λ i. refl;
  owned = λ id i h. absurd (ground (arith, h));
  live = λ id i h. absurd (ground (arith, h));
  distinct = λ id key i h k. absurd (ground (arith, h));
  fresh = λ i h. refl;
  settled = λ i h k. absurd (omega (arith, h));
}
