-- ===== src/Sessions/Counting.antt =====
-- camouflare/sessions.py: what the pending creations know of the builders inside.
use camouflare.Prelude.{
  ℕ, ◌+◌, ◌≤◌, ◌<◌, ◌==◌, String, true, List, [], ◌∷◌, some, ◌≡◌, refl, ◌∙◌, ap, arith,
  if◌then◌else◌, if-holds, cases-holds,
}
use text.Mathlib.Text.{◌==◌ as str_eq}
use camouflare.Prelude.Dict.{find, drop_key}
use camouflare.Sessions.State.{Manager}
use camouflare.Sessions.Creation.{forget_creation}
use camouflare.Sessions.Builders.{Site, count_inside, is_inside, leave}
use camouflare.Sessions.Settling.{Settles}

pub is_inside-count_inside :
    (id : String) (i : ℕ) (xs : List (String × ℕ))
    → is_inside id i xs ≡ true
    → 1 ≤ count_inside i xs
unfolding is_inside count_inside
is_inside-count_inside id i [] h = absurd (ground (arith, h))
is_inside-count_inside id i ((key, j) ∷ rest) h =
    ground (arith, h, is_inside-count_inside id i rest)

pub count_inside-leave :
    (id : String) (i k : ℕ) (xs : List (String × ℕ))
    → is_inside id i xs ≡ true
    → count_inside k xs ≡ (if i == k then 1 else 0) + count_inside k (leave id i xs)
unfolding is_inside count_inside leave
count_inside-leave id i k [] h = absurd (ground (arith, h))
count_inside-leave id i k ((key, j) ∷ rest) h = ground (arith, h, count_inside-leave id i k rest)

pub is_inside-leave :
    (id key : String) (i k : ℕ) (xs : List (String × ℕ))
    → is_inside key k (leave id i xs) ≡ true
    → is_inside key k xs ≡ true
unfolding is_inside leave
is_inside-leave id key i k [] h = h
is_inside-leave id key i k ((key', j) ∷ rest) h = ground (arith, h, is_inside-leave id key i k rest)

-- Each pending creation counts the builders that hold it, its id names it while one does, no two ids
-- name the same one, and its event is set once none does.
pub record Tracked (w : Site) : Type 0 where
  pub builders : (i : ℕ) → (w.manager.pending i).builders ≡ count_inside i w.inside
  pub owned :
      (id : String) (i : ℕ) → is_inside id i w.inside ≡ true → find id w.manager.creations ≡ some i
  pub live :
      (id : String) (i : ℕ)
      → find id w.manager.creations ≡ some i
      → (1 ≤ count_inside i w.inside) × (i < w.manager.next_pending)
  pub distinct :
      (id key : String) (i : ℕ)
      → find id w.manager.creations ≡ some i
      → find key w.manager.creations ≡ some i
      → str_eq id key ≡ true
  pub fresh : (i : ℕ) → w.manager.next_pending ≤ i → count_inside i w.inside ≡ 0
  pub settled :
      (i : ℕ)
      → i < w.manager.next_pending
      → count_inside i w.inside ≡ 0
      → (w.manager.pending i).settled ≡ true

pub forget_creation-present :
    (id : String) (i : ℕ) (m : Manager)
    → find id m.creations ≡ some i
    → forget_creation id i m ≡ record m { creations = drop_key id m.creations }
forget_creation-present id i m present =
    cases-holds (λ (q : Manager). q ≡ record m { creations = drop_key id m.creations })
      (find id m.creations) m _ (λ absent. absurd (ground (arith, absent, present)))
      λ j found.
        if-holds (λ (q : Manager). q ≡ record m { creations = drop_key id m.creations }) (j == i) _
          _ (λ _. refl) (λ other. absurd (ground (arith, found, present, other)))

pub Settles-Tracked :
    (m q : Manager) (inside : List (String × ℕ))
    → Settles m q
    → Tracked (record { manager = m; inside = inside })
    → Tracked (record { manager = q; inside = inside })
Settles-Tracked m q inside s t = record {
  builders = λ i. s.builders i ∙ t.builders i;
  owned = λ id i h. ap (find id) s.creations ∙ t.owned id i h;
  live = λ id i h. ground (arith, t.live id i, s.creations, s.next_pending, h);
  distinct = λ id key i h k. ground (arith, t.distinct id key i, s.creations, h, k);
  fresh = λ i h. ground (arith, t.fresh i, s.next_pending, h);
  settled = λ i h k. ground (arith, t.settled i, s.settled i, s.next_pending, h, k);
}
