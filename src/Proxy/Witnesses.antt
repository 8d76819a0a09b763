-- ===== src/Proxy/Witnesses.antt =====
-- Concrete connections of the SOCKS5 bridge, and the theorems at them.
use camouflare.Prelude.{contains, ℕ, true, false, List, [], ◌∷◌, some, ◌≡◌, refl, arith}
use camouflare.Proxy.Wire.{◌>>=◌, Wire, returned, take_exactly, read, write, drain}
use camouflare.Proxy.Addresses.{
  Address, domain, read_domain, read_socks_address, encode_socks_address, port_of_bytes,
  port_to_bytes,
}
use camouflare.Proxy.Handshake.{
  UpstreamProxy, send, offer_no_auth, read_port, read_greeting, read_target, read_client_request,
  authenticate_upstream, read_bound_address, request_upstream, upstream_endpoint,
}
use camouflare.Proxy.Connection.{
  Network, chunk, dialled, connect_to, connect_upstream, pipe, relay_other, relay,
  pipe_bidirectional, refuse, tunnel, answer, handle_request, handle_client,
}
use camouflare.Proxy.Verbatim.{read-encode_socks_address}
use camouflare.Proxy.Credentials.{read_credentials, read_credentials-credentials_message}
use camouflare.Proxy.Requests.{IsGreeting, IsConnect}
use camouflare.Proxy.Replies.{IsTunnel, handle_client-IsTunnel}
use camouflare.Proxy.Refusals.{IsRefused, handle_client-IsRefused}
use camouflare.Proxy.Tunnels.{HasDelivered, pipe_bidirectional-HasDelivered}
use camouflare.Proxy.Relays.{pipe_bidirectional-ends}
use camouflare.Proxy.Bridge.{
  new_bridge, Event, connects, starts, leaves, reports, drops, closes, run,
}
use camouflare.Proxy.Clients.{Inv, run-new_bridge-Inv}

proxy_code : Unit {0}
unfolding contains ◌>>=◌ take_exactly read write drain read_domain read_socks_address
    encode_socks_address port_of_bytes port_to_bytes send offer_no_auth read_port read_greeting
    read_target read_client_request authenticate_upstream read_bound_address request_upstream
    upstream_endpoint dialled connect_to connect_upstream pipe relay_other relay pipe_bidirectional
    refuse tunnel answer handle_request handle_client
proxy_code = tt

-- A stream on which the peer sends these bytes.
abbrev peer : List ℕ → Wire
peer bytes = record { unread = bytes; sent = []; drains = 9; closing = false }

-- It offers to go without authentication and asks for the port 80 of the host "ab".
abbrev browser : Wire
browser = peer (5 ∷ 1 ∷ 0 ∷ 5 ∷ 1 ∷ 0 ∷ 3 ∷ 2 ∷ 97 ∷ 98 ∷ 0 ∷ 80 ∷ [])

abbrev upstream_peer : Wire
upstream_peer = peer (5 ∷ 2 ∷ 1 ∷ 0 ∷ 5 ∷ 0 ∷ 0 ∷ 1 ∷ 9 ∷ 9 ∷ 9 ∷ 9 ∷ 1 ∷ 1 ∷ [])

-- A peer that rejects the credentials.
abbrev hostile_peer : Wire
hostile_peer = peer (5 ∷ 2 ∷ 1 ∷ 1 ∷ [])

abbrev network : Wire → Network
network w = record {
  dial = λ host port. some w;
  from_client = chunk (71 ∷ []) ∷ [];
  from_upstream = chunk (72 ∷ 73 ∷ []) ∷ chunk (74 ∷ []) ∷ [];
  client_ends_first = true;
  progress = 1;
}

abbrev proxy : UpstreamProxy
proxy = record {
  hostname = some (112 ∷ []);
  port = some 1080;
  username = 117 ∷ [];
  password = 112 ∷ 119 ∷ [];
}

connects_browser : (handle_client (network upstream_peer) proxy browser).connected ≡ true
unfolding proxy_code
connects_browser = refl

refuses_browser : (handle_client (network hostile_peer) proxy browser).connected ≡ false
unfolding proxy_code
refuses_browser = refl

handle_client-IsTunnel_example :
    (request : ℕ × Address × ℕ) × (greeted : Wire) × (asked : Wire) × IsGreeting browser greeted
    × IsConnect greeted request asked
    × IsTunnel
        (network upstream_peer)
        proxy
        request
        asked
        (handle_client (network upstream_peer) proxy browser)
handle_client-IsTunnel_example =
    handle_client-IsTunnel (network upstream_peer) proxy browser (ground arith) connects_browser

handle_client-IsRefused_example :
    IsRefused browser (handle_client (network hostile_peer) proxy browser)
handle_client-IsRefused_example =
    handle_client-IsRefused (network hostile_peer) proxy browser (ground arith) refuses_browser

read-encode_socks_address_example :
    (encode_socks_address 3 (domain (97 ∷ 98 ∷ [])) ≡ returned (3 ∷ 2 ∷ 97 ∷ 98 ∷ []))
    × (read_socks_address 3 (record browser { unread = 2 ∷ 97 ∷ 98 ∷ 0 ∷ 80 ∷ [] })
        ≡ (returned (domain (97 ∷ 98 ∷ [])), record browser { unread = 0 ∷ 80 ∷ [] }))
read-encode_socks_address_example =
    read-encode_socks_address (domain (97 ∷ 98 ∷ [])) (0 ∷ 80 ∷ []) browser (omega arith)

read_credentials-credentials_message_example :
    read_credentials (record browser { unread = 1 ∷ 1 ∷ 117 ∷ 2 ∷ 112 ∷ 119 ∷ 1 ∷ 0 ∷ [] })
    ≡ (returned (117 ∷ [], 112 ∷ 119 ∷ []), record browser { unread = 1 ∷ 0 ∷ [] })
read_credentials-credentials_message_example =
    read_credentials-credentials_message proxy (1 ∷ 0 ∷ []) browser (omega arith) (omega arith)

tunnel_ends : (pipe_bidirectional (network upstream_peer) browser upstream_peer).0 ≡ returned tt
unfolding proxy_code
tunnel_ends = refl

-- The client ends its direction after one arrival from the upstream: the second one is cut off.
pipe_bidirectional-HasDelivered_example :
    ((pipe_bidirectional (network upstream_peer) browser upstream_peer).2.sent ≡ 71 ∷ [])
    × ((pipe_bidirectional (network upstream_peer) browser upstream_peer).1.sent ≡ 72 ∷ 73 ∷ [])
    × ((pipe_bidirectional (network upstream_peer) browser upstream_peer).2.closing ≡ true)
    × ((pipe_bidirectional (network upstream_peer) browser upstream_peer).1.closing ≡ true)
pipe_bidirectional-HasDelivered_example =
    pipe_bidirectional-HasDelivered (network upstream_peer) browser upstream_peer tunnel_ends

pipe_bidirectional-ends_example :
    ((pipe_bidirectional (network upstream_peer) browser upstream_peer).0 ≡ returned tt)
    × HasDelivered true
        (network upstream_peer)
        browser
        upstream_peer
        (pipe_bidirectional (network upstream_peer) browser upstream_peer)
pipe_bidirectional-ends_example =
    pipe_bidirectional-ends (network upstream_peer) browser upstream_peer tt tt (omega arith)
      (omega arith)

-- One client is served to its end, another one is cut off by `close` before its handler has run.
abbrev two_clients : List Event
two_clients =
    connects
    ∷ starts 0
    ∷ connects
    ∷ leaves 0
    ∷ reports 0
    ∷ closes
    ∷ drops 1
    ∷ reports 1
    ∷ connects
    ∷ []

run-new_bridge-Inv_example : Inv (run two_clients new_bridge)
run-new_bridge-Inv_example = run-new_bridge-Inv two_clients
