-- ===== src/Proxy/Silence.antt =====
-- The actions of src/camouflare/proxy.py that only read: they write nothing, also when they raise.
use camouflare.Prelude.{
  sym, ap, if◌then◌else◌, ℕ, Bool, true, false, List, Option, none, some, ◌≡◌, refl, ◌∙◌,
}
use camouflare.Proxy.Wire.{
  ◌>>=◌, Wire, Talk, Outcome, returned, raised, SocksError, resume, pure, raise, raise_unless,
  deliver, read,
}
use camouflare.Proxy.Addresses.{read_domain, read_socks_address}
use camouflare.Proxy.Handshake.{read_port, read_target, read_bound_address}

-- The other half of the stream is as it was.
abbrev pub IsUnwritten : Wire → Wire → Type 0
IsUnwritten w w' = (w'.sent ≡ w.sent) × (w'.drains ≡ w.drains) × (w'.closing ≡ w.closing)

pub record IsSilent {A : Type 0} (m : Talk A) : Type 0 where
  pub leaves : (w : Wire) → IsUnwritten w (m w).1

module _ {A : Type 0} where
  pub pure-IsSilent : (a : A) → IsSilent (pure a)
  pure-IsSilent a = record { leaves = λ w. (refl, refl, refl) }

  pub raise-IsSilent : (e : SocksError) → IsSilent (raise {A = A} e)
  raise-IsSilent e = record { leaves = λ w. (refl, refl, refl) }

  pub if-IsSilent :
      (b : Bool) (m n : Talk A) → IsSilent m → IsSilent n → IsSilent (if b then m else n)
  if-IsSilent true m n h k = h
  if-IsSilent false m n h k = k

  deliver-IsUnwritten : (o : Option (A × List ℕ)) (w : Wire) → IsUnwritten w (deliver o w).1
  deliver-IsUnwritten none w = (refl, refl, refl)
  deliver-IsUnwritten (some (a, rest)) w = (refl, refl, refl)

  pub read-IsSilent : (take : List ℕ → Option (A × List ℕ)) → IsSilent (read take)
  unfolding read
  read-IsSilent take = record { leaves = λ w. deliver-IsUnwritten (take w.unread) w }

pub raise_unless-IsSilent : (b : Bool) (e : SocksError) → IsSilent (raise_unless b e)
raise_unless-IsSilent true e = record { leaves = λ w. (refl, refl, refl) }
raise_unless-IsSilent false e = record { leaves = λ w. (refl, refl, refl) }

module _ {A B : Type 0} where
  resume-IsUnwritten :
      (o : Outcome A) (f : A → Talk B) (w : Wire)
      → ((a : A) → IsSilent (f a))
      → IsUnwritten w (resume o f w).1
  resume-IsUnwritten (returned a) f w h = (h a).leaves w
  resume-IsUnwritten (raised e) f w h = (refl, refl, refl)

  pub bind-IsSilent :
      (m : Talk A) (f : A → Talk B) → IsSilent m → ((a : A) → IsSilent (f a)) → IsSilent (m >>= f)
  unfolding ◌>>=◌
  bind-IsSilent m f h k = record {
    leaves = λ w.
        let (s, d, c) = h.leaves w in
        let (s', d', c') = resume-IsUnwritten (m w).0 f (m w).1 k in (s' ∙ s, d' ∙ d, c' ∙ c);
  }

pub ruleset silence = (
  pure-IsSilent, raise-IsSilent, if-IsSilent, read-IsSilent, raise_unless-IsSilent, bind-IsSilent,
)

read_domain-IsSilent : IsSilent read_domain
unfolding read_domain
read_domain-IsSilent = search silence depth 16

pub read_socks_address-IsSilent : (atyp : ℕ) → IsSilent (read_socks_address atyp)
unfolding read_socks_address
read_socks_address-IsSilent atyp = search (silence, read_domain-IsSilent) depth 16

read_port-IsSilent : IsSilent read_port
unfolding read_port
read_port-IsSilent = search silence depth 16

pub read_target-IsSilent : (atyp : ℕ) → IsSilent (read_target atyp)
unfolding read_target
read_target-IsSilent atyp =
    search (silence, read_socks_address-IsSilent, read_port-IsSilent) depth 16

pub read_bound_address-IsSilent : IsSilent read_bound_address
unfolding read_bound_address
read_bound_address-IsSilent = search (silence, read_socks_address-IsSilent) depth 16

pub silent-eq :
    {A : Type 0} {m : Talk A}
    → IsSilent m
    → (w : Wire) {r : Outcome A} {w' : Wire} → m w ≡ (r, w')
    → w'.sent ≡ w.sent
silent-eq h w e = ap (λ (r : Outcome _ × Wire). r.1.sent) (sym e) ∙ (h.leaves w).0
