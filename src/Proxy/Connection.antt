-- ===== src/Proxy/Connection.antt =====
-- One connection of the bridge of src/camouflare/proxy.py: `_connect_upstream`,
-- `_pipe_bidirectional` and `_handle_client`.
use camouflare.Prelude.{
  if◌then◌else◌, ℕ, zero, suc, Bool, true, false, List, [], ◌∷◌, Option, none, some,
}
use camouflare.Proxy.Wire.{
  ◌>>◌, Wire, Talk, Outcome, returned, raised, connection_lost, pure, raise,
}
use camouflare.Proxy.Addresses.{Address}
use camouflare.Proxy.Handshake.{
  UpstreamProxy, send, read_client_request, request_upstream, upstream_endpoint,
}

-- What one `await reader.read(65536)` of the relay gives, until it gives no bytes: bytes, or the
-- loss of the connection.
pub data Arrival : Type 0 where
  chunk : List ℕ → Arrival
  reset : Arrival

-- What the network does: the stream that a connection to the upstream opens, if one opens, what
-- the two peers send in the relay, whether the direction from the client ends first, and how many
-- arrivals the other one gets to relay: after a clean end those that have arrived by then, after a
-- failure those that it has relayed when it is cancelled.
pub record Network : Type 0 where
  pub dial : List ℕ → ℕ → Option Wire
  pub from_client : List Arrival
  pub from_upstream : List Arrival
  pub client_ends_first : Bool
  pub progress : ℕ

-- `writer.close()`
abbrev pub close : Wire → Wire
close w = record w { closing = true }

abbrev pub closed_after : Outcome (Unit {0}) × Wire → Outcome (Unit {0}) × Option Wire
closed_after (returned u, w) = (returned u, some w)
closed_after (raised e, w) = (raised e, some (close w))

-- Once the connection is open, or has failed.
unfoldable pub dialled :
    UpstreamProxy → ℕ × Address × ℕ → Option Wire → Outcome (Unit {0}) × Option Wire
unfolding request_upstream
dialled proxy request none = (raised connection_lost, none)
dialled proxy (atyp, address, port) (some w) =
    closed_after (request_upstream proxy atyp address port w)

unfoldable pub connect_to :
    (List ℕ → ℕ → Option Wire)
    → UpstreamProxy
    → ℕ × Address × ℕ
    → Outcome (List ℕ × ℕ)
    → Outcome (Unit {0}) × Option Wire
unfolding dialled
connect_to dial proxy request (raised e) = (raised e, none)
connect_to dial proxy request (returned (host, port)) = dialled proxy request (dial host port)

unfoldable pub connect_upstream :
    (List ℕ → ℕ → Option Wire) → UpstreamProxy → ℕ × Address × ℕ → Outcome (Unit {0}) × Option Wire
unfolding connect_to upstream_endpoint
connect_upstream dial proxy request = connect_to dial proxy request (upstream_endpoint proxy)

-- The loop of `pipe`, towards `w`.
unfoldable pub pipe : List Arrival → Talk (Unit {0})
unfolding send
pipe [] = pure tt
pipe (reset ∷ arrivals) = raise connection_lost
pipe (chunk bytes ∷ arrivals) = do send bytes; pipe arrivals

abbrev pub take {ℓ} : {A : Type ℓ} → ℕ → List A → List A
take zero xs = []
take (suc n) [] = []
take (suc n) (x ∷ xs) = x ∷ take n xs

-- The direction that ends first, towards `u`, and the other one, towards `v`. After a failure the
-- other is cancelled where it stands. After a clean end it is waited for; but `pipe` has closed `u`,
-- which is the connection that the other one reads from: it gets what has arrived, then the end.
unfoldable pub relay_other :
    List Arrival → ℕ → Outcome (Unit {0}) → Wire → Wire → Outcome (Unit {0}) × Wire × Wire
unfolding pipe
relay_other second progress (raised e) u v =
    (raised e, close u, close (pipe (take progress second) v).1)
relay_other second progress (returned _) u v =
    let (o, v') = pipe (take progress second) v in (o, close u, close v')

unfoldable pub relay :
    List Arrival → List Arrival → ℕ → Wire → Wire → Outcome (Unit {0}) × Wire × Wire
unfolding pipe relay_other
relay first second progress u v = let (o, u') = pipe first u in relay_other second progress o u' v

-- The outcome, the client's end and the upstream's.
unfoldable pub pipe_bidirectional : Network → Wire → Wire → Outcome (Unit {0}) × Wire × Wire
unfolding relay
pipe_bidirectional n client upstream =
    if n.client_ends_first
    then (let (o, u, v) = relay n.from_client n.from_upstream n.progress upstream client in
        (o, v, u))
    else relay n.from_upstream n.from_client n.progress client upstream

abbrev pub success_reply : List ℕ
success_reply = 5 ∷ 0 ∷ 0 ∷ 1 ∷ 0 ∷ 0 ∷ 0 ∷ 0 ∷ 0 ∷ 0 ∷ []

abbrev pub failure_reply : List ℕ
failure_reply = 5 ∷ 1 ∷ 0 ∷ 1 ∷ 0 ∷ 0 ∷ 0 ∷ 0 ∷ 0 ∷ 0 ∷ []

pub record Connection : Type 0 where
  pub client : Wire
  pub upstream : Option Wire
  pub connected : Bool

-- The failure reply, whose own failure is suppressed; then both ends are closed.
unfoldable pub refuse : Wire → Option Wire → Connection
unfolding send
refuse client upstream = record {
  client = close (if client.closing then client else (send failure_reply client).1);
  upstream = elim upstream [ none ↦ none | some w ↦ some (close w) ];
  connected = false;
}

unfoldable pub tunnel : Network → Outcome (Unit {0}) → Wire → Wire → Connection
unfolding pipe_bidirectional refuse
tunnel n (raised e) client upstream = refuse client (some upstream)
tunnel n (returned _) client upstream =
    let (o, client', upstream') = pipe_bidirectional n client upstream in
    record { client = close client'; upstream = some (close upstream'); connected = true }

-- Once the upstream has answered, or failed.
unfoldable pub answer : Network → Wire → Outcome (Unit {0}) × Option Wire → Connection
unfolding send tunnel refuse
answer n client (raised e, upstream) = refuse client upstream
answer n client (returned _, none) = refuse client none
answer n client (returned _, some upstream) =
    let (o, client') = send success_reply client in tunnel n o client' upstream

-- Once the client's request has been read, or failed.
unfoldable pub handle_request :
    Network → UpstreamProxy → Outcome (ℕ × Address × ℕ) → Wire → Connection
unfolding connect_upstream refuse answer
handle_request n proxy (raised e) client = refuse client none
handle_request n proxy (returned request) client =
    answer n client (connect_upstream n.dial proxy request)

unfoldable pub handle_client : Network → UpstreamProxy → Wire → Connection
unfolding read_client_request handle_request
handle_client n proxy client =
    let (request, client') = read_client_request client in handle_request n proxy request client'
