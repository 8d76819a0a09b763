-- ===== src/Pool/Keeps.antt =====
-- Invariants of the pool's actions: one rule for each way to build an action.
use camouflare.Prelude.{
  ℕ, Bool, true, false, List, [], ◌∷◌, ◌≡◌, refl, subst, sym, arith, contains, if◌then◌else◌,
}
use camouflare.Pool.State.{
  ◌>>◌, PoolError, Result, ok, err, Pool, M, pure, raise, modify, get, raise_if, continue, ◌>>=◌,
  for_each,
}

-- `P` holds after `m` if it held before, whether `m` returns or raises.
pub record Keeps {A : Type 0} (P : Pool → Type 0) (m : M A) : Type 0 where
  pub after : (p : Pool) → P p → P (m p).1

module _ {P : Pool → Type 0} where
  pub Keeps-pure : {A : Type 0} (a : A) → Keeps P (pure a)
  unfolding ◌>>=◌
  Keeps-pure a = record { after = λ p h. h }

  pub Keeps-get : Keeps P get
  unfolding ◌>>=◌
  Keeps-get = record { after = λ p h. h }

  pub Keeps-raise : {A : Type 0} (e : PoolError) → Keeps P (raise {A = A} e)
  unfolding ◌>>=◌
  Keeps-raise e = record { after = λ p h. h }

  pub Keeps-modify : (f : Pool → Pool) → ((p : Pool) → P p → P (f p)) → Keeps P (modify f)
  unfolding ◌>>=◌
  Keeps-modify f h = record { after = h }

  pub Keeps-raise_if : (b : Bool) (e : PoolError) → Keeps P (raise_if b e)
  unfolding ◌>>=◌
  Keeps-raise_if true e = record { after = λ p h. h }
  Keeps-raise_if false e = record { after = λ p h. h }

  pub Keeps-if :
      {A : Type 0} (b : Bool) (m n : M A) → Keeps P m → Keeps P n → Keeps P (if b then m else n)
  Keeps-if true m n km kn = km
  Keeps-if false m n km kn = kn

module _ {P : Pool → Type 0} {A B : Type 0} where
  resume :
      (r : Result A) (f : A → M B) (q : Pool)
      → P q
      → ((a : A) → Keeps P (f a))
      → P (continue r f q).1
  resume (ok a) f q h k = (k a).after q h
  resume (err e) f q h k = h

  pub Keeps-bind :
      (m : M A) (f : A → M B) → Keeps P m → ((a : A) → Keeps P (f a)) → Keeps P (m >>= f)
  unfolding ◌>>=◌
  Keeps-bind m f km kf = record { after = λ p h. resume (m p).0 f (m p).1 (km.after p h) kf }

module _ {P : Pool → Type 0} {B : Type 0} where
  -- What follows `get` may use that the pool that it read is the pool that it runs on.
  pub Keeps-get_bind : (f : Pool → M B) → ((p : Pool) → P p → P (f p p).1) → Keeps P (get >>= f)
  unfolding ◌>>=◌
  Keeps-get_bind f k = record { after = k }

pub Keeps-for_each :
    {P : Pool → Type 0} (body : ℕ → M (Unit {0})) (xs : List ℕ)
    → ((x : ℕ) → Keeps P (body x))
    → Keeps P (for_each body xs)
unfolding for_each
Keeps-for_each body [] k = Keeps-pure tt
Keeps-for_each body (x ∷ xs) k = Keeps-bind _ _ (k x) (λ _. Keeps-for_each body xs k)

pub ruleset keeps =
    (Keeps-pure, Keeps-get, Keeps-raise, Keeps-raise_if, Keeps-if, Keeps-bind, Keeps-for_each)

-- What a bind ends in, from what its first action ends in.
pub bind_post :
    {A B : Type 0} (Q : Result B → Pool → Type 0) (m : M A) (f : A → M B) (p : Pool)
    → ((a : A) (q : Pool) → m p ≡ (ok a, q) → Q (f a q).0 (f a q).1)
    → ((x : PoolError) (q : Pool) → m p ≡ (err x, q) → Q (err x) q)
    → Q (◌>>=◌ m f p).0 (◌>>=◌ m f p).1
unfolding ◌>>=◌
bind_post {A} {B} Q m f p returns raises = go (m p) refl
  where
    go : (o : Result A × Pool) → m p ≡ o → Q (continue o.0 f o.1).0 (continue o.0 f o.1).1
    go (ok a, q) h = returns a q h
    go (err x, q) h = raises x q h

-- The same for a guard: the rest runs on the same pool, and only where the test fails.
pub guard_post :
    {B : Type 0} (Q : Result B → Pool → Type 0) (b : Bool) (x : PoolError) (m : M B) (p : Pool)
    → (b ≡ true → Q (err x) p)
    → (b ≡ false → Q (m p).0 (m p).1)
    → Q ((raise_if b x >> m) p).0 ((raise_if b x >> m) p).1
unfolding ◌>>=◌
guard_post Q true x m p fails goes = fails refl
guard_post Q false x m p fails goes = goes refl

-- The same for a conditional.
pub if_post :
    {A : Type 0} (Q : Result A → Pool → Type 0) (b : Bool) (m n : M A) (p : Pool)
    → (b ≡ true → Q (m p).0 (m p).1)
    → (b ≡ false → Q (n p).0 (n p).1)
    → Q ((if b then m else n) p).0 ((if b then m else n) p).1
if_post Q true m n p yes_case no_case = yes_case refl
if_post Q false m n p yes_case no_case = no_case refl

-- An action that returns a known value goes on with it.
pub returns_post :
    {A B : Type 0} (Q : Result B → Pool → Type 0) (m : M A) (f : A → M B) (p : Pool) (a : A)
    → (m p).0 ≡ ok a
    → Q (f a (m p).1).0 (f a (m p).1).1
    → Q (◌>>=◌ m f p).0 (◌>>=◌ m f p).1
unfolding ◌>>=◌
returns_post Q m f p a returns rest =
    subst (λ r. Q (continue r f (m p).1).0 (continue r f (m p).1).1) (sym returns) rest

-- A loop over a list may use that the loop's variable is in the list.
pub for_each_in :
    {P : Pool → Type 0} (body : ℕ → M (Unit {0})) (xs : List ℕ)
    → ((x : ℕ) → contains xs x ≡ true → Keeps P (body x))
    → Keeps P (for_each body xs)
unfolding for_each contains
for_each_in body [] k = Keeps-pure tt
for_each_in body (x ∷ xs) k =
    Keeps-bind _ _ (k x (ground arith)) (λ _. for_each_in body xs (λ y inside. k y (ground arith)))

-- After a first action that has already established `P`.
pub seq_post :
    {P : Pool → Type 0} {A B : Type 0} (m : M A) (f : A → M B) (p : Pool)
    → P (m p).1
    → ((a : A) → Keeps P (f a))
    → P (◌>>=◌ m f p).1
unfolding ◌>>=◌
seq_post m f p h k = resume (m p).0 f (m p).1 h k

-- After a first action that has established `P`, the rest has to establish `R`.
pub then_post :
    {A B : Type 0} (P R : Pool → Type 0) (m : M A) (f : A → M B) (p : Pool)
    → P (m p).1
    → ((q : Pool) → P q → R q)
    → ((a : A) (q : Pool) → P q → R (f a q).1)
    → R (◌>>=◌ m f p).1
unfolding ◌>>=◌
then_post {A} {B} P R m f p h weaker rest = go (m p).0
  where
    go : (r : Result A) → R (continue r f (m p).1).1
    go (ok a) = rest a (m p).1 h
    go (err x) = weaker (m p).1 h
