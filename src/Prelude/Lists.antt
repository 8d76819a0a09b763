-- ===== src/Prelude/Lists.antt =====
-- Lists of object identities: Python's lists, sets and dictionaries of tasks and slots.
use Prim.Native.Nat.{ℕ, suc, ◌+◌, ◌≤◌}
use mathlib.Core.Path.{◌≡◌, refl}
use mathlib.Core.Bool.{Bool, true, false, ◌||◌}
use mathlib.Core.List.{List, [], ◌∷◌, ◌++◌}
use mathlib.Core.Option.{Option, none, some}
use native.Mathlib.Omega.{arith}
use camouflare.Prelude.Tests.{◌==◌, if◌then◌else◌}

module _ {ℓ} {A : Type ℓ} where
  abbrev pub length : List A → ℕ
  length [] = 0
  length (x ∷ xs) = suc (length xs)

  pub length-append : (xs ys : List A) → length (xs ++ ys) ≡ length xs + length ys
  length-append [] ys = omega arith
  length-append (x ∷ xs) ys = omega (arith, length-append xs ys)

-- `x in xs`
unfoldable pub contains : List ℕ → ℕ → Bool
contains [] a = false
contains (x ∷ xs) a = (x == a) || contains xs a

-- `xs.remove(a)`, `xs.discard(a)`: the first occurrence, if there is one.
unfoldable pub remove : ℕ → List ℕ → List ℕ
remove a [] = []
remove a (x ∷ xs) = if x == a then xs else x ∷ remove a xs

-- `xs.add(a)` on a set.
unfoldable pub add_new : ℕ → List ℕ → List ℕ
add_new a xs = if contains xs a then xs else a ∷ xs

pub length-remove-le : (a : ℕ) (xs : List ℕ) → length (remove a xs) ≤ length xs
unfolding remove
length-remove-le a [] = omega arith
length-remove-le a (x ∷ xs) = ground (arith, length-remove-le a xs)

pub length-remove :
    (a : ℕ) (xs : List ℕ) → contains xs a ≡ true → length (remove a xs) + 1 ≡ length xs
unfolding remove contains
length-remove a [] h = ground arith
length-remove a (x ∷ xs) h = ground (arith, length-remove a xs)

pub length-add_new-le : (a : ℕ) (xs : List ℕ) → length (add_new a xs) ≤ length xs + 1
unfolding add_new
length-add_new-le a xs = ground arith

pub contains-append :
    (xs ys : List ℕ) (a : ℕ) → contains (xs ++ ys) a ≡ contains xs a || contains ys a
unfolding contains
contains-append [] ys a = refl
contains-append (x ∷ xs) ys a = ground (arith, contains-append xs ys a)

pub contains-remove_ne :
    (xs : List ℕ) (a b : ℕ) → (a == b) ≡ false → contains (remove a xs) b ≡ contains xs b
unfolding contains remove
contains-remove_ne [] a b h = refl
contains-remove_ne (x ∷ xs) a b h = ground (arith, contains-remove_ne xs a b)

pub contains-of-remove :
    (xs : List ℕ) (a b : ℕ) → contains (remove a xs) b ≡ true → contains xs b ≡ true
unfolding contains remove
contains-of-remove [] a b h = h
contains-of-remove (x ∷ xs) a b h = ground (arith, contains-of-remove xs a b)

-- A dictionary whose keys are identities.
module _ {ℓ} {V : Type ℓ} where
  unfoldable pub lookup : ℕ → List (ℕ × V) → Option V
  lookup k [] = none
  lookup k ((j, v) ∷ m) = if j == k then some v else lookup k m

  unfoldable pub insert : ℕ → V → List (ℕ × V) → List (ℕ × V)
  insert k v [] = (k, v) ∷ []
  insert k v ((j, w) ∷ m) = if j == k then (k, v) ∷ m else (j, w) ∷ insert k v m

  unfoldable pub delete : ℕ → List (ℕ × V) → List (ℕ × V)
  delete k [] = []
  delete k ((j, w) ∷ m) = if j == k then m else (j, w) ∷ delete k m

  pub length-insert-le : (k : ℕ) (v : V) (m : List (ℕ × V)) → length (insert k v m) ≤ length m + 1
  unfolding insert
  length-insert-le k v [] = omega arith
  length-insert-le k v ((j, w) ∷ m) = ground (arith, length-insert-le k v m)

  pub length-delete-le : (k : ℕ) (m : List (ℕ × V)) → length (delete k m) ≤ length m
  unfolding delete
  length-delete-le k [] = omega arith
  length-delete-le k ((j, w) ∷ m) = ground (arith, length-delete-le k m)

  pub length-delete :
      (k : ℕ) (v : V) (m : List (ℕ × V)) → lookup k m ≡ some v → length (delete k m) + 1 ≡ length m
  unfolding delete lookup
  length-delete k v [] h = ground arith
  length-delete k v ((j, w) ∷ m) h = ground (arith, length-delete k v m)

  pub lookup-insert :
      (k j : ℕ) (v : V) (m : List (ℕ × V))
      → lookup j (insert k v m) ≡ (if k == j then some v else lookup j m)
  unfolding lookup insert
  lookup-insert k j v [] = ground arith
  lookup-insert k j v ((i, w) ∷ m) = ground (arith, lookup-insert k j v m)

module _ {ℓ κ} {A : Type ℓ} where
  abbrev pub All : (A → Type κ) → List A → Type κ
  All P [] = Unit
  All P (x ∷ xs) = P x × All P xs

  pub All-append : (P : A → Type κ) (xs ys : List A) → All P xs → All P ys → All P (xs ++ ys)
  All-append P [] ys h k = k
  All-append P (x ∷ xs) ys h k = (h.0, All-append P xs ys h.1 k)

  pub All-map : (P Q : A → Type κ) (xs : List A) → ((x : A) → P x → Q x) → All P xs → All Q xs
  All-map P Q [] h a = tt
  All-map P Q (x ∷ xs) h a = (h x a.0, All-map P Q xs h a.1)
