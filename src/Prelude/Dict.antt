-- ===== src/Prelude/Dict.antt =====
-- Python's `dict` with string keys, in the order of insertion, with the laws that its users need.
use Prim.Native.Nat.{ℕ, suc, ◌+◌, ◌≤◌}
use Prim.Native.String.{String}
use mathlib.Core.Path.{◌≡◌, refl}
use mathlib.Core.List.{List, [], ◌∷◌}
use mathlib.Core.Option.{Option, none, some}
use native.Mathlib.Omega.{arith}
use text.Mathlib.Text.{◌==◌}
use text.Mathlib.TextEquality.{eq_iff}
use camouflare.Prelude.Tests.{if◌then◌else◌}

abbrev pub Dict {ℓ} : Type ℓ → Type ℓ
Dict V = List (String × V)

module _ {ℓ} {V : Type ℓ} where
  -- `m.get(k)`
  unfoldable pub find : String → Dict V → Option V
  find k [] = none
  find k ((j, v) ∷ m) = if j == k then some v else find k m

  -- `m[k] = v`
  unfoldable pub put : String → V → Dict V → Dict V
  put k v [] = (k, v) ∷ []
  put k v ((j, w) ∷ m) = if j == k then (j, v) ∷ m else (j, w) ∷ put k v m

  -- `m.pop(k, None)`, without the value.
  unfoldable pub drop_key : String → Dict V → Dict V
  drop_key k [] = []
  drop_key k ((j, w) ∷ m) = let rest = drop_key k m in if j == k then rest else (j, w) ∷ rest

  abbrev pub size : Dict V → ℕ
  size [] = 0
  size (e ∷ m) = suc (size m)

  -- No key stands twice.
  abbrev pub Unique : Dict V → Type ℓ
  Unique [] = Unit
  Unique ((k, v) ∷ m) = (find k m ≡ none) × Unique m

  pub find-put :
      (k j : String) (v : V) (m : Dict V)
      → find j (put k v m) ≡ (if k == j then some v else find j m)
  unfolding find put
  find-put k j v [] = refl
  find-put k j v ((i, w) ∷ m) = ground (arith, eq_iff k j, eq_iff i k, eq_iff i j, find-put k j v m)

  pub find-drop_key :
      (k j : String) (m : Dict V) → find j (drop_key k m) ≡ (if k == j then none else find j m)
  unfolding find drop_key
  find-drop_key k j [] = ground arith
  find-drop_key k j ((i, w) ∷ m) =
      ground (arith, eq_iff k j, eq_iff i k, eq_iff i j, find-drop_key k j m)

  pub size-put-le : (k : String) (v : V) (m : Dict V) → size (put k v m) ≤ size m + 1
  unfolding put
  size-put-le k v [] = omega arith
  size-put-le k v ((i, w) ∷ m) = ground (arith, size-put-le k v m)

  pub size-drop_key-le : (k : String) (m : Dict V) → size (drop_key k m) ≤ size m
  unfolding drop_key
  size-drop_key-le k [] = omega arith
  size-drop_key-le k ((i, w) ∷ m) = ground (arith, size-drop_key-le k m)

  pub size-drop_key :
      (k : String) (v : V) (m : Dict V) → find k m ≡ some v → size (drop_key k m) + 1 ≤ size m
  unfolding drop_key find
  size-drop_key k v [] h = ground arith
  size-drop_key k v ((i, w) ∷ m) h = ground (arith, size-drop_key k v m, size-drop_key-le k m)

  pub put-Unique : (k : String) (v : V) (m : Dict V) → Unique m → Unique (put k v m)
  unfolding put find
  put-Unique k v [] u = (refl, tt)
  put-Unique k v ((i, w) ∷ m) u =
      ground (arith, eq_iff i k, eq_iff k i, put-Unique k v m u.1, find-put k i v m)

  pub drop_key-Unique : (k : String) (m : Dict V) → Unique m → Unique (drop_key k m)
  unfolding drop_key
  drop_key-Unique k [] u = tt
  drop_key-Unique k ((i, w) ∷ m) u =
      ground (arith, eq_iff i k, eq_iff k i, drop_key-Unique k m u.1, find-drop_key k i m)
