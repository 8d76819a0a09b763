-- ===== src/Proxy/Addresses.antt =====
-- SOCKS5 addresses and ports of src/camouflare/proxy.py: `_read_socks_address`,
-- `_encode_socks_address` and the two bytes of a port.
use camouflare.Prelude.{◌==◌, ltb, length, if◌then◌else◌, ℕ, ◌+◌, ◌*◌, ◌/◌, ◌%◌, List, [], ◌∷◌}
use camouflare.Proxy.Wire.{
  ◌>>=◌, Talk, Outcome, returned, raised, unsupported_address_type, domain_too_long, not_an_address,
  port_out_of_range, pure, raise, take_one, take_exactly, read,
}

-- The text of an address, by the bytes that it stands for: those that `ipaddress` prints and
-- packs, and the characters that latin-1 gives to the bytes of a domain name.
pub data Address : Type 0 where
  ipv4 domain ipv6 : List ℕ → Address

unfoldable pub read_domain : Talk Address
read_domain = do n ← read take_one; name ← read (take_exactly n); pure (domain name)

unfoldable pub read_socks_address : ℕ → Talk Address
unfolding read_domain
read_socks_address atyp =
    if atyp == 1
    then (do octets ← read (take_exactly 4); pure (ipv4 octets))
    else if atyp == 3
    then read_domain
    else if atyp == 4
    then (do octets ← read (take_exactly 16); pure (ipv6 octets))
    else raise unsupported_address_type

-- `ipaddress.IPv4Address(address).packed`, `address.encode("latin-1")` and
-- `ipaddress.IPv6Address(address).packed`. A text of another kind is refused here: the bridge
-- encodes each address by the type that it was read with.
abbrev pub ipv4_packed : Address → Outcome (List ℕ)
ipv4_packed (ipv4 octets) = returned octets
ipv4_packed _ = raised not_an_address

abbrev pub domain_bytes : Address → Outcome (List ℕ)
domain_bytes (domain name) = returned name
domain_bytes _ = raised not_an_address

abbrev pub ipv6_packed : Address → Outcome (List ℕ)
ipv6_packed (ipv6 octets) = returned octets
ipv6_packed _ = raised not_an_address

abbrev pub domain_message : ℕ → List ℕ → Outcome (List ℕ)
domain_message atyp encoded =
    if ltb 255 (length encoded)
    then raised domain_too_long
    else returned (atyp ∷ length encoded ∷ encoded)

abbrev pub and_then : Outcome (List ℕ) → (List ℕ → Outcome (List ℕ)) → Outcome (List ℕ)
and_then (returned bytes) f = f bytes
and_then (raised e) f = raised e

unfoldable pub encode_socks_address : ℕ → Address → Outcome (List ℕ)
encode_socks_address atyp address =
    if atyp == 1
    then and_then (ipv4_packed address) (λ packed. returned (atyp ∷ packed))
    else if atyp == 3
    then and_then (domain_bytes address) (domain_message atyp)
    else if atyp == 4
    then and_then (ipv6_packed address) (λ packed. returned (atyp ∷ packed))
    else raised unsupported_address_type

-- `int.from_bytes(bytes, "big")` of two bytes.
unfoldable pub port_of_bytes : ℕ → ℕ → ℕ
port_of_bytes high low = high * 256 + low

-- `port.to_bytes(2, "big")`, which raises OverflowError on what does not fit.
unfoldable pub port_to_bytes : ℕ → Outcome (List ℕ)
port_to_bytes port =
    if ltb port 65536 then returned (port / 256 ∷ port % 256 ∷ []) else raised port_out_of_range
