-- ===== src/Http/Addresses.antt =====
-- The private addresses that src/camouflare/http_transport.py keeps requests away from:
-- `is_public_address` and `PublicAddressBackend.connect_tcp`.
use camouflare.Prelude.{
  ◌*◌, ◌^◌, ◌==◌, if◌then◌else◌, ℕ, ◌/◌, ◌%◌, Bool, true, not, ◌&&◌, List, [], ◌∷◌, Option, none,
  some,
}

-- An address of either family, as the number that `int` makes of it.
pub data IpAddress : Type 0 where
  ipv4 ipv6 : ℕ → IpAddress

-- The tables of `ipaddress`.
pub record IpTables : Type 0 where
  pub is_global : IpAddress → Bool
  pub is_multicast : IpAddress → Bool

abbrev pub ipv4_mapped : ℕ → Option ℕ
ipv4_mapped n = if n / 2 ^ 32 == 65535 then some (n % 2 ^ 32) else none

-- 64:ff9b::/96
abbrev pub in_nat64 : ℕ → Bool
in_nat64 n = n / 2 ^ 32 == 6619035 * 2 ^ 64

-- 2002::/16
abbrev pub sixtofour : ℕ → Option ℕ
sixtofour n = if n / 2 ^ 112 == 8194 then some (n / 2 ^ 80 % 2 ^ 32) else none

module _ (t : IpTables) where
  abbrev pub is_ordinary : IpAddress → Bool
  is_ordinary a = t.is_global a && not (t.is_multicast a)

  -- A 6to4 address stands or falls with the one in it.
  abbrev pub is_public_sixtofour : ℕ → Option ℕ → Bool
  is_public_sixtofour n none = is_ordinary (ipv6 n)
  is_public_sixtofour n (some m) = is_ordinary (ipv4 m) && is_ordinary (ipv6 n)

  abbrev pub is_public_ipv6 : ℕ → Option ℕ → Bool
  is_public_ipv6 n (some m) = is_ordinary (ipv4 m)
  is_public_ipv6 n none =
      if in_nat64 n then is_ordinary (ipv4 (n % 2 ^ 32)) else is_public_sixtofour n (sixtofour n)

  unfoldable pub is_public_address : IpAddress → Bool
  is_public_address (ipv4 n) = is_ordinary (ipv4 n)
  is_public_address (ipv6 n) = is_public_ipv6 n (ipv4_mapped n)

  unfoldable pub all_public : List IpAddress → Bool
  unfolding is_public_address
  all_public [] = true
  all_public (a ∷ as_) = let rest = all_public as_ in is_public_address a && rest

pub data Connected : Type 0 where
  connected : IpAddress → Connected
  unresolved private_target unreachable : Connected

-- The loop over the addresses: the outcome, and the addresses that were tried.
unfoldable pub connect_first : (IpAddress → Bool) → List IpAddress → Connected × List IpAddress
connect_first connects [] = (unreachable, [])
connect_first connects (a ∷ others) =
    let (outcome, tried) = connect_first connects others in
    if connects a then (connected a, a ∷ []) else (outcome, a ∷ tried)

-- `connect_tcp`, from the addresses that the resolver gave, if it gave any.
unfoldable pub connect_tcp :
    IpTables → (IpAddress → Bool) → Option (List IpAddress) → Connected × List IpAddress
unfolding all_public connect_first
connect_tcp t connects none = (unresolved, [])
connect_tcp t connects (some []) = (unresolved, [])
connect_tcp t connects (some (a ∷ others)) =
    if not (all_public t (a ∷ others))
    then (private_target, [])
    else connect_first connects (a ∷ others)
