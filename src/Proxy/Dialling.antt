-- ===== src/Proxy/Dialling.antt =====
-- What the upstream has been sent when `_connect_upstream` of src/camouflare/proxy.py returns.
use camouflare.Prelude.{ℕ, List, Option, none, some, ◌≡◌, refl, arith}
use camouflare.Proxy.Wire.{Wire, Outcome, returned, raised}
use camouflare.Proxy.Addresses.{Address}
use camouflare.Proxy.Handshake.{UpstreamProxy, upstream_endpoint, request_upstream}
use camouflare.Proxy.Connection.{closed_after, dialled, connect_to, connect_upstream}
use camouflare.Proxy.Upstream.{IsForwarded, request_upstream-IsForwarded}

closed_after-eq-returned :
    (r : Outcome (Unit {0}) × Wire) {u : Unit {0}} {w' : Wire}
    → closed_after r ≡ (returned u, some w')
    → r ≡ (returned u, w')
closed_after-eq-returned (returned v, w) h = ground (arith, h)
closed_after-eq-returned (raised e, w) h = absurd (ground (arith, h))

-- The upstream was dialled at its configured endpoint, and was sent what `IsForwarded` says.
abbrev pub IsDialled : (List ℕ → ℕ → Option Wire) → UpstreamProxy → ℕ × Address × ℕ → Wire → Type 0
IsDialled dial proxy request w' =
    (host : List ℕ) × (port : ℕ) × (w : Wire) × (upstream_endpoint proxy ≡ returned (host, port))
    × (dial host port ≡ some w)
    × IsForwarded proxy request w w'

dialled-eq-returned :
    (proxy : UpstreamProxy) (request : ℕ × Address × ℕ) (o : Option Wire) {u : Unit {0}} {w' : Wire}
    → dialled proxy request o ≡ (returned u, some w')
    → (w : Wire) × (o ≡ some w) × IsForwarded proxy request w w'
unfolding dialled
dialled-eq-returned proxy request none h = absurd (ground (arith, h))
dialled-eq-returned proxy (atyp, a, port) (some w) h = (
  w,
  refl,
  request_upstream-IsForwarded proxy atyp a port w
      (closed_after-eq-returned (request_upstream proxy atyp a port w) h),
)

connect_to-eq-returned :
    (dial : List ℕ → ℕ → Option Wire) (proxy : UpstreamProxy) (request : ℕ × Address × ℕ)
    (o : Outcome (List ℕ × ℕ)) {u : Unit {0}} {w' : Wire}
    → connect_to dial proxy request o ≡ (returned u, some w')
    → (upstream_endpoint proxy ≡ o)
    → IsDialled dial proxy request w'
unfolding connect_to
connect_to-eq-returned dial proxy request (raised e) h k = absurd (ground (arith, h))
connect_to-eq-returned dial proxy request (returned (host, port)) h k =
    let (w, e, f) = dialled-eq-returned proxy request (dial host port) h in (host, port, w, k, e, f)

pub connect_upstream-IsDialled :
    (dial : List ℕ → ℕ → Option Wire) (proxy : UpstreamProxy) (request : ℕ × Address × ℕ)
    {u : Unit {0}} {w' : Wire}
    → connect_upstream dial proxy request ≡ (returned u, some w')
    → IsDialled dial proxy request w'
unfolding connect_upstream
connect_upstream-IsDialled dial proxy request h =
    connect_to-eq-returned dial proxy request (upstream_endpoint proxy) h refl
