-- ===== src/Proxy/Handshake.antt =====
-- The two handshakes of a connection in src/camouflare/proxy.py: `_read_client_request`,
-- `_authenticate_upstream`, `_connect_upstream` and `_handle_client` up to the relay.
use camouflare.Prelude.{
  ◌==◌, leb, length, contains, if◌then◌else◌, ℕ, ◌&&◌, not, List, [], ◌∷◌, ◌++◌, Option, none, some,
}
use camouflare.Proxy.Wire.{
  ◌>>=◌, ◌>>◌, Talk, Outcome, returned, raised, unsupported_version, no_auth_not_offered,
  not_connect, missing_endpoint, credentials_too_long, auth_not_accepted, auth_failed,
  connect_failed, pure, raise, raise_unless, take_two, take_four, take_exactly, read, write, drain,
}
use camouflare.Proxy.Addresses.{
  Address, read_socks_address, encode_socks_address, port_of_bytes, port_to_bytes,
}

-- The configured proxy: what `urlsplit` reads from its server, and the credentials in UTF-8, empty
-- where there are none.
pub record UpstreamProxy : Type 0 where
  pub hostname : Option (List ℕ)
  pub port : Option ℕ
  pub username : List ℕ
  pub password : List ℕ

abbrev pub lift : {A : Type 0} → Outcome A → Talk A
lift (returned a) w = (returned a, w)
lift (raised e) w = (raised e, w)

-- `writer.write(bytes); await writer.drain()`
unfoldable pub send : List ℕ → Talk (Unit {0})
send bytes = do write bytes; drain

unfoldable pub offer_no_auth : List ℕ → Talk (Unit {0})
unfolding send
offer_no_auth methods =
    if not (contains methods 0)
    then (do send (5 ∷ 255 ∷ []); raise no_auth_not_offered)
    else send (5 ∷ 0 ∷ [])

unfoldable pub read_port : Talk ℕ
unfolding port_of_bytes
read_port = do (high, low) ← read take_two; pure (port_of_bytes high low)

-- `_read_client_request` up to the answer to the greeting.
unfoldable pub read_greeting : Talk (Unit {0})
unfolding offer_no_auth
read_greeting = do
  (version, method_count) ← read take_two
  raise_unless (version == 5) unsupported_version
  methods ← read (take_exactly method_count)
  offer_no_auth methods

-- The rest of `_read_client_request`.
unfoldable pub read_target : ℕ → Talk (ℕ × Address × ℕ)
unfolding read_port
read_target atyp = do
  address ← read_socks_address atyp
  port ← read_port
  pure (atyp, address, port)

unfoldable pub read_client_request : Talk (ℕ × Address × ℕ)
unfolding read_greeting read_target
read_client_request = do
  read_greeting
  (version, command, reserved, atyp) ← read take_four
  raise_unless ((version == 5) && (command == 1)) not_connect
  read_target atyp

abbrev pub credentials_message : UpstreamProxy → List ℕ
credentials_message proxy =
    (1 ∷ length proxy.username ∷ proxy.username) ++ (length proxy.password ∷ proxy.password)

unfoldable pub authenticate_upstream : UpstreamProxy → Talk (Unit {0})
unfolding send
authenticate_upstream proxy = do
  raise_unless (leb (length proxy.username) 255 && leb (length proxy.password) 255)
      credentials_too_long
  send (5 ∷ 1 ∷ 2 ∷ [])
  (version, method) ← read take_two
  raise_unless ((version == 5) && (method == 2)) auth_not_accepted
  send (credentials_message proxy)
  (auth_version, status) ← read take_two
  raise_unless ((auth_version == 1) && (status == 0)) auth_failed

-- The upstream's answer to the request.
unfoldable pub read_bound_address : Talk (Unit {0})
read_bound_address = do
  (version, reply, reserved, reply_atyp) ← read take_four
  raise_unless ((version == 5) && (reply == 0)) connect_failed
  bound ← read_socks_address reply_atyp
  bound_port ← read take_two
  pure tt

abbrev pub connect_message : List ℕ → List ℕ → List ℕ
connect_message target port_bytes = 5 ∷ 1 ∷ 0 ∷ target ++ port_bytes

-- `_connect_upstream` once the connection is open.
unfoldable pub request_upstream : UpstreamProxy → ℕ → Address → ℕ → Talk (Unit {0})
unfolding authenticate_upstream read_bound_address
request_upstream proxy atyp address port = do
  authenticate_upstream proxy
  target ← lift (encode_socks_address atyp address)
  port_bytes ← lift (port_to_bytes port)
  send (connect_message target port_bytes)
  read_bound_address

-- `_upstream_endpoint`
unfoldable pub upstream_endpoint : UpstreamProxy → Outcome (List ℕ × ℕ)
upstream_endpoint proxy = elim proxy.hostname [
  | none ↦ raised missing_endpoint
  | some host ↦ elim proxy.port [
    | none ↦ raised missing_endpoint
    | some port ↦ returned (host, port)
  ]
]
