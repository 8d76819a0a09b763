-- ===== src/Sessions/Waking.antt =====
-- camouflare/sessions.py: whoever waits for the outcome of builds of an id is woken when the last of
-- them has left `creating`.
use camouflare.Prelude.{
  ℕ, suc, ◌+◌, ◌-◌, ◌==◌, String, true, false, List, ◌∷◌, none, some, ◌≡◌, subst, sym, arith,
  if-holds, cases-holds,
}
use text.Mathlib.TextEquality.{eq_iff}
use camouflare.Prelude.Dict.{find, put, drop_key, find-put, find-drop_key}
use camouflare.Sessions.State.{Manager, write_pending}
use camouflare.Sessions.Creation.{enter_creating, exit_creating}
use camouflare.Sessions.Schedules.{
  Action, registers, registers_new, marks_in_use, marks_released, evicts, prunes, destroys, enters,
  closes, closing_ends, exits, locks, step,
}
use camouflare.Sessions.Builders.{Site, count_inside, is_inside, leave, admit_builder, follow}
use camouflare.Sessions.Settling.{IsOther, step-Settles}
use camouflare.Sessions.Counting.{
  is_inside-count_inside, count_inside-leave, is_inside-leave, forget_creation-present,
  Settles-Tracked, Tracked,
}

module _ (id : String) (m : Manager) (inside : List (String × ℕ))
    (t : Tracked (record { manager = m; inside = inside })) where
  join-Tracked :
      (i : ℕ)
      → find id m.creations ≡ some i
      → Tracked (record {
        manager = write_pending i (λ p. record p { builders = p.builders + 1 }) m;
        inside = (id, i) ∷ inside;
      })
  unfolding count_inside is_inside
  join-Tracked i present = record {
    builders = λ j. ground (arith, t.builders j);
    owned = λ key j h. ground (arith, t.owned key j, eq_iff id key, present, h);
    live = λ key j h. ground (arith, t.live key j h);
    distinct = t.distinct;
    fresh = λ j h. ground (arith, t.fresh j, t.live id i present, h);
    settled = λ j h k. ground (arith, t.settled j, h, k);
  }

  begin-Tracked :
      find id m.creations ≡ none
      → Tracked (record {
        manager =
            write_pending m.next_pending
              (λ p. record { builders = 1; settled = false })
              (record m {
                creations = put id m.next_pending m.creations;
                next_pending = suc m.next_pending;
              });
        inside = (id, m.next_pending) ∷ inside;
      })
  unfolding count_inside is_inside
  begin-Tracked absent = record {
    builders = λ j. ground (arith, t.builders j, t.fresh j);
    owned = λ key j h. ground (
      arith,
      t.owned key j,
      find-put id key m.next_pending m.creations,
      eq_iff id key,
      absent,
      h,
    );
    live = λ key j h. ground (arith, t.live key j, find-put id key m.next_pending m.creations, h);
    distinct = λ key key' j h k. ground (
      arith,
      t.distinct key key' j,
      t.live key j,
      t.live key' j,
      find-put id key m.next_pending m.creations,
      find-put id key' m.next_pending m.creations,
      eq_iff id key,
      eq_iff id key',
      eq_iff key key',
      h,
      k,
    );
    fresh = λ j h. ground (arith, t.fresh j, h);
    settled = λ j h k. ground (arith, t.settled j, h, k);
  }

  enter-Tracked : Tracked (admit_builder id (enter_creating id m) inside)
  unfolding enter_creating
  enter-Tracked =
      cases-holds (λ (o : ℕ × Manager). Tracked (admit_builder id o inside)) (find id m.creations) _
        (λ i. (i, write_pending i (λ p. record p { builders = p.builders + 1 }) m)) begin-Tracked
        join-Tracked

  module _ (i : ℕ) (here : is_inside id i inside ≡ true) where
    -- Another builder of the creation stays.
    part-Tracked :
        (m.pending i).builders - 1 == 0 ≡ false
        → Tracked (record {
          manager = write_pending i (λ p. record p { builders = p.builders - 1 }) m;
          inside = leave id i inside;
        })
    part-Tracked more = record {
      builders = λ j. ground (arith, t.builders j, count_inside-leave id i j inside here);
      owned = λ key j h. t.owned key j (is_inside-leave id key i j inside h);
      live = λ key j h.
          ground (arith, t.live key j h, t.builders i, count_inside-leave id i j inside here, more);
      distinct = t.distinct;
      fresh = λ j h. ground (arith, t.fresh j, count_inside-leave id i j inside here, h);
      settled = λ j h k.
          ground
            (arith, t.settled j, t.builders i, count_inside-leave id i j inside here, more, h, k);
    }

    -- The last builder leaves.
    end-Tracked :
        (m.pending i).builders - 1 == 0 ≡ true
        → Tracked (record {
          manager =
              write_pending i
                (λ p. record { builders = p.builders - 1; settled = true })
                (record m { creations = drop_key id m.creations });
          inside = leave id i inside;
        })
    end-Tracked last =
        let present = t.owned id i here in
        let none_left : count_inside i (leave id i inside) ≡ 0 =
          ground (arith, t.builders i, count_inside-leave id i i inside here, last) in
        record {
          builders = λ j. ground (arith, t.builders j, count_inside-leave id i j inside here);
          owned = λ key j h. ground (
            arith,
            t.owned key j (is_inside-leave id key i j inside h),
            is_inside-count_inside key j (leave id i inside) h,
            find-drop_key id key m.creations,
            eq_iff id key,
            present,
            none_left,
          );
          live = λ key j h. ground (
            arith,
            t.live key j,
            t.distinct id key j,
            count_inside-leave id i j inside here,
            find-drop_key id key m.creations,
            present,
            h,
          );
          distinct = λ key key' j h k. ground (
            arith,
            t.distinct key key' j,
            find-drop_key id key m.creations,
            find-drop_key id key' m.creations,
            h,
            k,
          );
          fresh = λ j h. ground (arith, t.fresh j, count_inside-leave id i j inside here, h);
          settled =
              λ j h k. ground (arith, t.settled j, count_inside-leave id i j inside here, h, k);
        }

    exit-Tracked : Tracked (record { manager = exit_creating id i m; inside = leave id i inside })
    unfolding exit_creating
    exit-Tracked =
        let P : Manager → Type 0 =
          λ q. Tracked (record { manager = q; inside = leave id i inside }) in
        if-holds P ((m.pending i).builders - 1 == 0) _ _
          (λ last.
            subst
              (λ q.
                P (write_pending i (λ p. record { builders = p.builders - 1; settled = true }) q))
              (sym (forget_creation-present id i m (t.owned id i here))) (end-Tracked last))
          part-Tracked

other-Tracked :
    (a : Action) (w : Site)
    → IsOther a
    → Tracked w
    → Tracked (record w { manager = step a w.manager })
other-Tracked a w o t =
    Settles-Tracked w.manager (step a w.manager) w.inside (step-Settles a w.manager o) t

pub follow-Tracked : (a : Action) (w : Site) → Tracked w → Tracked (follow a w)
unfolding follow
follow-Tracked (enters id) w t = enter-Tracked id w.manager w.inside t
follow-Tracked (exits id i) w t =
    if-holds Tracked (is_inside id i w.inside) _ _ (exit-Tracked id w.manager w.inside t i) (λ _. t)
follow-Tracked (registers id context ttl now) w t =
    other-Tracked (registers id context ttl now) w tt t
follow-Tracked (registers_new id context ttl now) w t =
    other-Tracked (registers_new id context ttl now) w tt t
follow-Tracked (marks_in_use i) w t = other-Tracked (marks_in_use i) w tt t
follow-Tracked (marks_released i) w t = other-Tracked (marks_released i) w tt t
follow-Tracked (evicts i) w t = other-Tracked (evicts i) w tt t
follow-Tracked (prunes now exclude) w t = other-Tracked (prunes now exclude) w tt t
follow-Tracked (destroys id) w t = other-Tracked (destroys id) w tt t
follow-Tracked closes w t = other-Tracked closes w tt t
follow-Tracked (closing_ends id task) w t = other-Tracked (closing_ends id task) w tt t
follow-Tracked (locks i b) w t = other-Tracked (locks i b) w tt t
