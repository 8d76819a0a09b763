-- ===== src/Proxy/Outcomes.antt =====
-- The rules for the actions on a stream of src/camouflare/proxy.py: what a sequence, a read and a
-- write do when they return, and what a sequence that returned has done.
use camouflare.Proxy.Handshake.{send}
use camouflare.Prelude.{
  ◌≤◌, false, true, Bool, ap, refl, ◌++◌, some, none, ◌∷◌, [], ℕ, zero, suc, length, List, Option,
  ◌≡◌, arith,
}
use camouflare.Proxy.Wire.{
  drained, write, drain, raised, SocksError, raise_unless, put_front, take_exactly, ◌>>=◌, Wire,
  Talk, Outcome, returned, resume, deliver, read,
}

module _ {A B : Type 0} (m : Talk A) (f : A → Talk B) where
  pub >>=-returned : (w : Wire) {a : A} {w' : Wire} → m w ≡ (returned a, w') → (m >>= f) w ≡ f a w'
  unfolding ◌>>=◌
  >>=-returned w h = rw h

  resume-eq-returned :
      (o : Outcome A) (w : Wire) {b : B} {w' : Wire}
      → resume o f w ≡ (returned b, w')
      → (a : A) × (o ≡ returned a) × (f a w ≡ (returned b, w'))
  resume-eq-returned (returned a) w h = (a, refl, h)
  resume-eq-returned (raised e) w h = cc

  pub >>=-eq-returned :
      (w : Wire) {b : B} {w' : Wire}
      → (m >>= f) w ≡ (returned b, w')
      → (a : A) × (w₁ : Wire) × (m w ≡ (returned a, w₁)) × (f a w₁ ≡ (returned b, w'))
  unfolding ◌>>=◌
  >>=-eq-returned w h =
      let (a, e, k) = resume-eq-returned (m w).0 (m w).1 h in
      (a, (m w).1, ap (λ o. (o, (m w).1)) e, k)

-- The same with the parts bound, so that what follows does not see where they come from.
pub >>=-eq-returned_then :
    {A B : Type 0} {G : Type 0} (m : Talk A) (f : A → Talk B) (w : Wire) {b : B} {w' : Wire}
    → (m >>= f) w ≡ (returned b, w')
    → ((a : A) (w₁ : Wire) → m w ≡ (returned a, w₁) → f a w₁ ≡ (returned b, w') → G)
    → G
>>=-eq-returned_then m f w h k = let (a, w₁, e, e') = >>=-eq-returned m f w h in k a w₁ e e'

deliver-eq-returned :
    {A : Type 0} (o : Option (A × List ℕ)) (w : Wire) {a : A} {w' : Wire}
    → deliver o w ≡ (returned a, w')
    → (o ≡ some (a, w'.unread)) × (w'.sent ≡ w.sent) × (w'.closing ≡ w.closing)
deliver-eq-returned none w h = ground arith
deliver-eq-returned (some (b, rest)) w h = ground arith

module _ {A : Type 0} (take : List ℕ → Option (A × List ℕ)) where
  pub read-returned :
      (w : Wire) {a : A} {rest : List ℕ}
      → take w.unread ≡ some (a, rest)
      → read take w ≡ (returned a, record w { unread = rest })
  unfolding read
  read-returned w h = rw (read, h)

  pub read-eq-returned :
      (w : Wire) {a : A} {w' : Wire}
      → read take w ≡ (returned a, w')
      → (take w.unread ≡ some (a, w'.unread)) × (w'.sent ≡ w.sent) × (w'.closing ≡ w.closing)
  unfolding read
  read-eq-returned w h = deliver-eq-returned (take w.unread) w h

pub take_exactly-append :
    (n : ℕ) (xs ys : List ℕ) → length xs ≡ n → take_exactly n (xs ++ ys) ≡ some (xs, ys)
unfolding take_exactly
take_exactly-append zero [] ys h = refl
take_exactly-append zero (x ∷ xs) ys h = absurd (omega arith)
take_exactly-append (suc n) [] ys h = absurd (omega arith)
take_exactly-append (suc n) (x ∷ xs) ys h = rw (take_exactly-append n xs ys (omega (arith, h)))

put_front-split :
    {n : ℕ} {xs taken rest : List ℕ} (x : ℕ) (o : Option (List ℕ × List ℕ))
    → put_front x o ≡ some (taken, rest)
    → ((t r : List ℕ) → o ≡ some (t, r) → (xs ≡ t ++ r) × (length t ≡ n))
    → (x ∷ xs ≡ taken ++ rest) × (length taken ≡ suc n)
put_front-split x none h k = ground arith
put_front-split x (some (t, r)) h k = ground (arith, k t r refl)

pub take_exactly-split :
    (n : ℕ) (xs : List ℕ) {taken rest : List ℕ}
    → take_exactly n xs ≡ some (taken, rest)
    → (xs ≡ taken ++ rest) × (length taken ≡ n)
unfolding take_exactly
take_exactly-split zero xs h = ground arith
take_exactly-split (suc n) [] h = ground arith
take_exactly-split (suc n) (x ∷ xs) h =
    put_front-split x (take_exactly n xs) h (λ taken rest. take_exactly-split n xs)

pub raise_unless-eq-returned :
    (b : Bool) (e : SocksError) (w : Wire) {u : Unit {0}} {w' : Wire}
    → raise_unless b e w ≡ (returned u, w')
    → (b ≡ true) × (w ≡ w')
raise_unless-eq-returned true e w h = (refl, ap (λ r. r.1) h)
raise_unless-eq-returned false e w h = absurd (ground (arith, h))

-- The bytes stay written, also where the connection is then lost.
abbrev pub IsSent : Wire → List ℕ → Wire → Type 0
IsSent w bytes w' = (w'.sent ≡ w.sent ++ bytes) × (w'.unread ≡ w.unread)

drained-IsSent :
    (n : ℕ) (w : Wire) → ((drained n w).1.sent ≡ w.sent) × ((drained n w).1.unread ≡ w.unread)
drained-IsSent zero w = (refl, refl)
drained-IsSent (suc n) w = (refl, refl)

pub send-IsSent : (bytes : List ℕ) (w : Wire) → IsSent w bytes (send bytes w).1
unfolding send write drain ◌>>=◌
send-IsSent bytes w = drained-IsSent w.drains (record w { sent = w.sent ++ bytes })

drained-eq-returned :
    (n : ℕ) (w : Wire) {u : Unit {0}} {w' : Wire}
    → drained n w ≡ (returned u, w')
    → (w'.sent ≡ w.sent) × (w'.unread ≡ w.unread) × (w'.closing ≡ w.closing)
drained-eq-returned zero w h = absurd (ground (arith, h))
drained-eq-returned (suc n) w h = ground (arith, h)

pub send-eq-returned :
    (bytes : List ℕ) (w : Wire) {u : Unit {0}} {w' : Wire}
    → send bytes w ≡ (returned u, w')
    → (w'.sent ≡ w.sent ++ bytes) × (w'.unread ≡ w.unread) × (w'.closing ≡ w.closing)
unfolding send write drain ◌>>=◌
send-eq-returned bytes w h = drained-eq-returned w.drains (record w { sent = w.sent ++ bytes }) h

drained-returns : (n : ℕ) (w : Wire) → 1 ≤ n → (drained n w).0 ≡ returned tt
drained-returns zero w h = absurd (omega (arith, h))
drained-returns (suc n) w h = refl

pub send-returns : (bytes : List ℕ) (w : Wire) → 1 ≤ w.drains → (send bytes w).0 ≡ returned tt
unfolding send write drain ◌>>=◌
send-returns bytes w h = drained-returns w.drains (record w { sent = w.sent ++ bytes }) h
