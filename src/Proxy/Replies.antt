-- ===== src/Proxy/Replies.antt =====
-- What `_handle_client` of src/camouflare/proxy.py writes to the browser, and what it has relayed.
use camouflare.Prelude.{
  ℕ, true, List, ◌++◌, Option, none, some, ◌≡◌, refl, ap, ◌∙◌, arith, append_assoc,
}
use camouflare.Proxy.Wire.{Wire, Outcome, returned, raised}
use camouflare.Proxy.Addresses.{Address}
use camouflare.Proxy.Handshake.{UpstreamProxy, send, read_client_request}
use camouflare.Proxy.Outcomes.{send-IsSent}
use camouflare.Proxy.Verbatim.{Bytes}
use camouflare.Proxy.Requests.{IsGreeting, IsConnect, read_client_request-IsRequest}
use camouflare.Proxy.Connection.{
  Network, Connection, close, success_reply, connect_upstream, tunnel, answer, handle_request,
  handle_client, pipe_bidirectional,
}
use camouflare.Proxy.Dialling.{IsDialled, connect_upstream-IsDialled}
use camouflare.Proxy.Tunnels.{IsRelayed, IsPrefix, bytes_of, pipe_bidirectional-IsRelayed}

-- The connection is a tunnel from `client` to an upstream: the client asked for it as a SOCKS5
-- client must, the upstream was dialled and sent that request, the client was told of success, and
-- since then each end was sent nothing but a first part of what came from the other.
abbrev pub IsTunnel : Network → UpstreamProxy → ℕ × Address × ℕ → Wire → Connection → Type 0
IsTunnel n proxy request client c =
    (dialled : Wire) × (upstream : Wire) × (down : List ℕ) × (c.upstream ≡ some upstream)
    × IsDialled n.dial proxy request dialled
    × IsRelayed n.from_client dialled upstream
    × IsPrefix down (bytes_of n.from_upstream)
    × (c.client.sent ≡ client.sent ++ (success_reply ++ down))

tunnel-IsTunnel :
    (n : Network) (proxy : UpstreamProxy) (request : ℕ × Address × ℕ) (o : Outcome (Unit {0}))
    (client client' dialled : Wire)
    → IsDialled n.dial proxy request dialled
    → client'.sent ≡ client.sent ++ success_reply
    → (tunnel n o client' dialled).connected ≡ true
    → IsTunnel n proxy request client (tunnel n o client' dialled)
unfolding tunnel
tunnel-IsTunnel n proxy request (raised e) client client' dialled d s h = absurd (ground (arith, h))
tunnel-IsTunnel n proxy request (returned _) client client' dialled d s h =
    let (down, up) = pipe_bidirectional-IsRelayed n client' dialled in
    (
      dialled,
      close ((pipe_bidirectional n client' dialled).2),
      down.0,
      refl,
      d,
      up,
      down.1,
      down.2 ∙ (ap (λ u. u ++ down.0) s ∙ append_assoc client.sent success_reply down.0),
    )

answer-IsTunnel :
    (n : Network) (proxy : UpstreamProxy) (request : ℕ × Address × ℕ) (client : Wire)
    (r : Outcome (Unit {0}) × Option Wire)
    → connect_upstream n.dial proxy request ≡ r
    → (answer n client r).connected ≡ true
    → IsTunnel n proxy request client (answer n client r)
unfolding answer
answer-IsTunnel n proxy request client (raised e, upstream) d h = absurd (ground (arith, h))
answer-IsTunnel n proxy request client (returned _, none) d h = absurd (ground (arith, h))
answer-IsTunnel n proxy request client (returned _, some dialled) d h =
    tunnel-IsTunnel n proxy request (send success_reply client).0 client
      (send success_reply client).1 dialled (connect_upstream-IsDialled n.dial proxy request d)
      ((send-IsSent success_reply client).0) h

handle_request-IsTunnel :
    (n : Network) (proxy : UpstreamProxy) (o : Outcome (ℕ × Address × ℕ)) (client client' : Wire)
    → Bytes client.unread
    → read_client_request client ≡ (o, client')
    → (handle_request n proxy o client').connected ≡ true
    → (request : ℕ × Address × ℕ) × (greeted : Wire) × (asked : Wire) × IsGreeting client greeted
      × IsConnect greeted request asked
      × IsTunnel n proxy request asked (handle_request n proxy o client')
unfolding handle_request
handle_request-IsTunnel n proxy (raised e) client client' b r h = absurd (ground (arith, h))
handle_request-IsTunnel n proxy (returned request) client client' b r h =
    let (greeted, g, c) = read_client_request-IsRequest client b r in
    (
      request,
      greeted,
      client',
      g,
      c,
      answer-IsTunnel n proxy request client' (connect_upstream n.dial proxy request) refl h,
    )

-- Where the client's bytes are below 256 and its handler ends connected, the client has greeted and
-- asked as a SOCKS5 client must; the configured upstream was dialled, authenticated and sent the
-- client's own request byte for byte; the client got the answer to its greeting and the success
-- reply; and after that each end got nothing but a first part of what the other end sent.
pub handle_client-IsTunnel :
    (n : Network) (proxy : UpstreamProxy) (client : Wire)
    → Bytes client.unread
    → (handle_client n proxy client).connected ≡ true
    → (request : ℕ × Address × ℕ) × (greeted : Wire) × (asked : Wire) × IsGreeting client greeted
      × IsConnect greeted request asked
      × IsTunnel n proxy request asked (handle_client n proxy client)
unfolding handle_client
handle_client-IsTunnel n proxy client b h =
    handle_request-IsTunnel n proxy (read_client_request client).0 client
      (read_client_request client).1 b refl h
