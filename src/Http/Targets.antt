-- ===== src/Http/Targets.antt =====
-- What src/camouflare/http_transport.py takes for a public address, and what it connects to.
use camouflare.Prelude.{
  ◌⊎◌, inr, inl, ap, ◌++◌, All, refl, ◌==◌, ℕ, ◌+◌, ◌*◌, ◌^◌, ◌/◌, ◌%◌, ◌<◌, Bool, true, false, not,
  List, [], ◌∷◌, Option, none, some, ◌≡◌, arith, if-holds,
}
use camouflare.Http.Addresses.{
  unreachable, private_target, unresolved, connected, IpAddress, ipv4, ipv6, IpTables,
  is_public_address, all_public, Connected, connect_first, connect_tcp,
}

-- An IPv4 address in an IPv6 one, where the source looks for it: mapped, behind NAT64, in 6to4.
abbrev pub mapped : ℕ → IpAddress
mapped e = ipv6 (65535 * 2 ^ 32 + e)

abbrev pub behind_nat64 : ℕ → IpAddress
behind_nat64 e = ipv6 (6619035 * 2 ^ 64 * 2 ^ 32 + e)

abbrev pub in_sixtofour : ℕ → ℕ → IpAddress
in_sixtofour e rest = ipv6 (8194 * 2 ^ 112 + e * 2 ^ 80 + rest)

is_public_address-in_sixtofour :
    (t : IpTables) (e rest : ℕ)
    → e < 2 ^ 32
    → rest < 2 ^ 80
    → is_public_address t (ipv4 e) ≡ false
    → is_public_address t (in_sixtofour e rest) ≡ false
unfolding is_public_address
is_public_address-in_sixtofour t e rest h k private =
    let n = 8194 * 2 ^ 112 + e * 2 ^ 80 + rest in
    let prefix : n / 2 ^ 112 ≡ 8194 = omega arith in
    let embedded : n / 2 ^ 80 % 2 ^ 32 ≡ e = omega arith in
    let unmapped : (n / 2 ^ 32 == 65535) ≡ false = ground arith in
    let direct : (n / 2 ^ 32 == 6619035 * 2 ^ 64) ≡ false = ground arith in
    ground (arith, prefix, embedded, unmapped, direct, private)

-- An IPv4 address that is embedded as mapped or behind NAT64 is public exactly if it is public
-- itself; a 6to4 address is public only if the address in it is.
pub is_public_address-embedded :
    (t : IpTables) (e rest : ℕ)
    → e < 2 ^ 32
    → rest < 2 ^ 80
    → (is_public_address t (mapped e) ≡ is_public_address t (ipv4 e))
      × (is_public_address t (behind_nat64 e) ≡ is_public_address t (ipv4 e))
      × (is_public_address t (ipv4 e) ≡ false → is_public_address t (in_sixtofour e rest) ≡ false)
unfolding is_public_address
is_public_address-embedded t e rest h k =
    let mapped_prefix : (65535 * 2 ^ 32 + e) / 2 ^ 32 ≡ 65535 = omega arith in
    let mapped_rest : (65535 * 2 ^ 32 + e) % 2 ^ 32 ≡ e = omega arith in
    let nat64_prefix : (6619035 * 2 ^ 64 * 2 ^ 32 + e) / 2 ^ 32 ≡ 6619035 * 2 ^ 64 = omega arith in
    let nat64_rest : (6619035 * 2 ^ 64 * 2 ^ 32 + e) % 2 ^ 32 ≡ e = omega arith in
    (
      ground (arith, mapped_prefix, mapped_rest),
      ground (arith, nat64_prefix, nat64_rest),
      is_public_address-in_sixtofour t e rest h k,
    )

abbrev pub AllPublic : IpTables → List IpAddress → Type 0
AllPublic t [] = Unit
AllPublic t (a ∷ others) = (is_public_address t a ≡ true) × AllPublic t others

all_public-AllPublic :
    (t : IpTables) (addresses : List IpAddress)
    → all_public t addresses ≡ true
    → AllPublic t addresses
unfolding all_public
all_public-AllPublic t [] h = tt
all_public-AllPublic t (a ∷ others) h =
    (ground (arith, h), all_public-AllPublic t others (ground (arith, h)))

AllPublic-all_public :
    (t : IpTables) (addresses : List IpAddress)
    → AllPublic t addresses
    → all_public t addresses ≡ true
unfolding all_public
AllPublic-all_public t [] h = refl
AllPublic-all_public t (a ∷ others) h = ground (arith, h.0, AllPublic-all_public t others h.1)

-- The first address that can be connected to is the last one that was tried; without one all were.
abbrev pub IsFirst : (IpAddress → Bool) → List IpAddress → Connected × List IpAddress → Type 0
IsFirst connects addresses (connected a, tried) =
    (before after : List IpAddress) × (addresses ≡ before ++ (a ∷ after))
    × (tried ≡ before ++ (a ∷ []))
    × All (λ b. connects b ≡ false) before
    × (connects a ≡ true)
IsFirst connects addresses (unreachable, tried) =
    (tried ≡ addresses) × All (λ b. connects b ≡ false) addresses
IsFirst connects addresses (_, tried) = ⊥

put_before-IsFirst :
    (connects : IpAddress → Bool) (a : IpAddress) (others : List IpAddress)
    (r : Connected × List IpAddress)
    → connects a ≡ false
    → IsFirst connects others r
    → IsFirst connects (a ∷ others) (r.0, a ∷ r.1)
put_before-IsFirst connects a others (connected b, tried) h (before, after, e, k, fails, works) =
    (a ∷ before, after, ap (λ xs. a ∷ xs) e, ap (λ xs. a ∷ xs) k, (h, fails), works)
put_before-IsFirst connects a others (unreachable, tried) h (e, fails) =
    (ap (λ xs. a ∷ xs) e, (h, fails))
put_before-IsFirst connects a others (unresolved, tried) h k = k
put_before-IsFirst connects a others (private_target, tried) h k = k

connect_first-IsFirst :
    (connects : IpAddress → Bool) (addresses : List IpAddress)
    → IsFirst connects addresses (connect_first connects addresses)
unfolding connect_first
connect_first-IsFirst connects [] = (refl, tt)
connect_first-IsFirst connects (a ∷ others) =
    if-holds (IsFirst connects (a ∷ others)) (connects a) _ _
      (λ works. ([], others, refl, refl, tt, works))
      (λ fails.
        put_before-IsFirst connects a others (connect_first connects others) fails
          (connect_first-IsFirst connects others))

-- Nothing is tried unless there are addresses, all of them public.
abbrev pub IsGuardedDial :
    IpTables → (IpAddress → Bool) → Option (List IpAddress) → Connected × List IpAddress → Type 0
IsGuardedDial t connects none r = r ≡ (unresolved, [])
IsGuardedDial t connects (some []) r = r ≡ (unresolved, [])
IsGuardedDial t connects (some (a ∷ others)) r =
    (AllPublic t (a ∷ others) × IsFirst connects (a ∷ others) r)
    ⊎ ((AllPublic t (a ∷ others) → ⊥) × (r ≡ (private_target, [])))

-- Whatever the resolver answers, nothing is tried unless it gave addresses and all of them are public:
-- with one that is not, the target is refused. Otherwise the first address that can be connected to is
-- connected, after those before it were tried, or all were tried in vain.
pub connect_tcp-IsGuardedDial :
    (t : IpTables) (connects : IpAddress → Bool) (answer : Option (List IpAddress))
    → IsGuardedDial t connects answer (connect_tcp t connects answer)
unfolding connect_tcp
connect_tcp-IsGuardedDial t connects none = refl
connect_tcp-IsGuardedDial t connects (some []) = refl
connect_tcp-IsGuardedDial t connects (some (a ∷ others)) =
    if-holds (IsGuardedDial t connects (some (a ∷ others))) (not (all_public t (a ∷ others))) _ _
      (λ private.
        inr (λ h. absurd (ground (arith, private, AllPublic-all_public t (a ∷ others) h)), refl))
      (λ all. inl (
        all_public-AllPublic t (a ∷ others) (ground (arith, all)),
        connect_first-IsFirst connects (a ∷ others),
      ))
