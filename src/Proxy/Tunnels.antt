-- ===== src/Proxy/Tunnels.antt =====
-- What `_pipe_bidirectional` of src/camouflare/proxy.py relays in either direction.
use camouflare.Prelude.{
  if◌then◌else◌, false, true, Bool, ℕ, zero, suc, List, [], ◌∷◌, ◌++◌, ◌≡◌, refl, sym, ap, ◌∙◌,
  arith, append_assoc, append-nil, if-holds,
}
use camouflare.Proxy.Wire.{◌>>=◌, Wire, Outcome, returned, raised, resume}
use camouflare.Proxy.Handshake.{send}
use camouflare.Proxy.Outcomes.{send-IsSent, send-eq-returned, >>=-eq-returned_then}
use camouflare.Proxy.Connection.{
  Arrival, chunk, reset, Network, pipe, take, relay, relay_other, pipe_bidirectional,
}

-- The bytes that arrive until the peer ends the stream or the connection is lost.
abbrev pub bytes_of : List Arrival → List ℕ
bytes_of [] = []
bytes_of (reset ∷ arrivals) = []
bytes_of (chunk bytes ∷ arrivals) = bytes ++ bytes_of arrivals

abbrev pub IsPrefix : List ℕ → List ℕ → Type 0
IsPrefix xs ys = (rest : List ℕ) × (ys ≡ xs ++ rest)

-- Between `w` and `w'` a first part of what arrived was relayed, in order, and nothing else.
abbrev pub IsRelayed : List Arrival → Wire → Wire → Type 0
IsRelayed arrivals w w' =
    (relayed : List ℕ) × IsPrefix relayed (bytes_of arrivals) × (w'.sent ≡ w.sent ++ relayed)

nothing-IsRelayed : (arrivals : List Arrival) (w : Wire) → IsRelayed arrivals w w
nothing-IsRelayed arrivals w = ([], (bytes_of arrivals, refl), sym (append-nil w.sent))

more-IsRelayed :
    (bytes : List ℕ) (arrivals : List Arrival) (w v w' : Wire)
    → v.sent ≡ w.sent ++ bytes
    → IsRelayed arrivals v w'
    → IsRelayed (chunk bytes ∷ arrivals) w w'
more-IsRelayed bytes arrivals w v w' s (relayed, (rest, e), s') = (
  bytes ++ relayed,
  (rest, ap (λ u. bytes ++ u) e ∙ sym (append_assoc bytes relayed rest)),
  s' ∙ (ap (λ u. u ++ relayed) s ∙ append_assoc w.sent bytes relayed),
)

resumed-IsRelayed :
    (o : Outcome (Unit {0})) (bytes : List ℕ) (arrivals : List Arrival) (w v : Wire)
    → v.sent ≡ w.sent ++ bytes
    → IsRelayed arrivals v (pipe arrivals v).1
    → IsRelayed (chunk bytes ∷ arrivals) w (resume o (λ _. pipe arrivals) v).1
resumed-IsRelayed (returned u) bytes arrivals w v s h =
    more-IsRelayed bytes arrivals w v ((pipe arrivals v).1) s h
resumed-IsRelayed (raised e) bytes arrivals w v s h =
    more-IsRelayed bytes arrivals w v v s (nothing-IsRelayed arrivals v)

pipe-IsRelayed : (arrivals : List Arrival) (w : Wire) → IsRelayed arrivals w (pipe arrivals w).1
unfolding pipe ◌>>=◌
pipe-IsRelayed [] w = nothing-IsRelayed [] w
pipe-IsRelayed (reset ∷ arrivals) w = nothing-IsRelayed (reset ∷ arrivals) w
pipe-IsRelayed (chunk bytes ∷ arrivals) w =
    resumed-IsRelayed (send bytes w).0 bytes arrivals w (send bytes w).1 ((send-IsSent bytes w).0)
      (pipe-IsRelayed arrivals (send bytes w).1)

bytes_of-take-IsPrefix :
    (n : ℕ) (arrivals : List Arrival) → IsPrefix (bytes_of (take n arrivals)) (bytes_of arrivals)
bytes_of-take-IsPrefix zero arrivals = (bytes_of arrivals, refl)
bytes_of-take-IsPrefix (suc n) [] = ([], refl)
bytes_of-take-IsPrefix (suc n) (reset ∷ arrivals) = ([], refl)
bytes_of-take-IsPrefix (suc n) (chunk bytes ∷ arrivals) =
    let (rest, e) = bytes_of-take-IsPrefix n arrivals in
    (rest, ap (λ u. bytes ++ u) e ∙ sym (append_assoc bytes (bytes_of (take n arrivals)) rest))

take-IsRelayed :
    (n : ℕ) (arrivals : List Arrival) (w w' : Wire)
    → IsRelayed (take n arrivals) w w'
    → IsRelayed arrivals w w'
take-IsRelayed n arrivals w w' (relayed, (rest, e), s) =
    let (rest', e') = bytes_of-take-IsPrefix n arrivals in
    (relayed, (rest ++ rest', e' ∙ (ap (λ u. u ++ rest') e ∙ append_assoc relayed rest rest')), s)

cut-IsRelayed :
    (n : ℕ) (arrivals : List Arrival) (w : Wire) → IsRelayed arrivals w (pipe (take n arrivals) w).1
cut-IsRelayed n arrivals w =
    take-IsRelayed n arrivals w ((pipe (take n arrivals) w).1) (pipe-IsRelayed (take n arrivals) w)

relay_other-IsRelayed :
    (first second : List Arrival) (progress : ℕ) (o : Outcome (Unit {0})) (u u' v : Wire)
    → IsRelayed first u u'
    → IsRelayed first u (relay_other second progress o u' v).1
      × IsRelayed second v (relay_other second progress o u' v).2
unfolding relay_other
relay_other-IsRelayed first second progress (raised e) u u' v h =
    (h, cut-IsRelayed progress second v)
relay_other-IsRelayed first second progress (returned _) u u' v h =
    (h, cut-IsRelayed progress second v)

relay-IsRelayed :
    (first second : List Arrival) (progress : ℕ) (u v : Wire)
    → IsRelayed first u (relay first second progress u v).1
      × IsRelayed second v (relay first second progress u v).2
unfolding relay
relay-IsRelayed first second progress u v =
    relay_other-IsRelayed first second progress (pipe first u).0 u (pipe first u).1 v
      (pipe-IsRelayed first u)

-- Whatever ends the tunnel, each end was sent a first part of what the other end sent.
pub pipe_bidirectional-IsRelayed :
    (n : Network) (client upstream : Wire)
    → IsRelayed n.from_upstream client (pipe_bidirectional n client upstream).1
      × IsRelayed n.from_client upstream (pipe_bidirectional n client upstream).2
unfolding pipe_bidirectional
pipe_bidirectional-IsRelayed n client upstream =
    if-holds
      (λ (r : Outcome (Unit {0}) × Wire × Wire).
        IsRelayed n.from_upstream client r.1 × IsRelayed n.from_client upstream r.2)
      n.client_ends_first _ _
      (λ _.
        let (h, k) = relay-IsRelayed n.from_client n.from_upstream n.progress upstream client in
        (k, h))
      (λ _. relay-IsRelayed n.from_upstream n.from_client n.progress client upstream)

pipe-delivers :
    (arrivals : List Arrival) (w : Wire) {u : Unit {0}} {w' : Wire}
    → pipe arrivals w ≡ (returned u, w')
    → w'.sent ≡ w.sent ++ bytes_of arrivals
unfolding pipe
pipe-delivers [] w h =
    ap (λ (r : Outcome (Unit {0}) × Wire). r.1.sent) (sym h) ∙ sym (append-nil w.sent)
pipe-delivers (reset ∷ arrivals) w h = absurd (ground (arith, h))
pipe-delivers (chunk bytes ∷ arrivals) w {u} {w'} h =
    >>=-eq-returned_then (send bytes) _ w h (λ _ v e k.
      pipe-delivers arrivals v k
      ∙ (ap (λ s. s ++ bytes_of arrivals) (send-eq-returned bytes w e).0
          ∙ append_assoc w.sent bytes (bytes_of arrivals)))

-- Both ends are closed, all that came the one way has been sent to `u`, and what had arrived the
-- other way to `v`.
abbrev IsDelivered :
    List Arrival → List Arrival → ℕ → Wire → Wire → Outcome (Unit {0}) × Wire × Wire → Type 0
IsDelivered first second progress u v (o, u', v') =
    (u'.sent ≡ u.sent ++ bytes_of first)
    × (v'.sent ≡ v.sent ++ bytes_of (take progress second))
    × (u'.closing ≡ true)
    × (v'.closing ≡ true)

relay_other-IsDelivered :
    (first second : List Arrival) (progress : ℕ) (o : Outcome (Unit {0})) (u u' v : Wire)
    {r : Unit {0}}
    → pipe first u ≡ (o, u')
    → (relay_other second progress o u' v).0 ≡ returned r
    → IsDelivered first second progress u v (relay_other second progress o u' v)
unfolding relay_other
relay_other-IsDelivered first second progress (raised e) u u' v h k = absurd (ground (arith, k))
relay_other-IsDelivered first second progress (returned _) u u' v h k =
    let arrived = take progress second in
    (
      pipe-delivers first u h,
      pipe-delivers arrived v (ap (λ o. (o, (pipe arrived v).1)) k),
      refl,
      refl,
    )

relay-IsDelivered :
    (first second : List Arrival) (progress : ℕ) (u v : Wire) {r : Unit {0}}
    → (relay first second progress u v).0 ≡ returned r
    → IsDelivered first second progress u v (relay first second progress u v)
unfolding relay
relay-IsDelivered first second progress u v h =
    relay_other-IsDelivered first second progress (pipe first u).0 u (pipe first u).1 v refl h

-- What was delivered by a relay in which the client's direction ended first, or the upstream's.
abbrev pub HasDelivered : Bool → Network → Wire → Wire → Outcome (Unit {0}) × Wire × Wire → Type 0
HasDelivered true n client upstream (o, client', upstream') =
    IsDelivered n.from_client n.from_upstream n.progress upstream client (o, upstream', client')
HasDelivered false n client upstream r =
    IsDelivered n.from_upstream n.from_client n.progress client upstream r

-- A relay that returns without an error has closed both ends. It has sent all that came from the peer
-- whose direction ended first, up to its end of file; from the other peer it has sent what had
-- arrived by then, and no more: `pipe` closed the connection to it.
pub pipe_bidirectional-HasDelivered :
    (n : Network) (client upstream : Wire) {u : Unit {0}}
    → (pipe_bidirectional n client upstream).0 ≡ returned u
    → HasDelivered n.client_ends_first n client upstream (pipe_bidirectional n client upstream)
unfolding pipe_bidirectional
pipe_bidirectional-HasDelivered n client upstream {u} = by_direction n.client_ends_first
  where
    by_direction :
        (b : Bool)
        → (if b
            then (let (o, u, v) = relay n.from_client n.from_upstream n.progress upstream client in
                (o, v, u))
            else relay n.from_upstream n.from_client n.progress client upstream).0
          ≡ returned u
        → HasDelivered b n client upstream (
            if b
            then (let (o, u, v) = relay n.from_client n.from_upstream n.progress upstream client in
                (o, v, u))
            else relay n.from_upstream n.from_client n.progress client upstream)
    by_direction true h =
        relay-IsDelivered n.from_client n.from_upstream n.progress upstream client h
    by_direction false h =
        relay-IsDelivered n.from_upstream n.from_client n.progress client upstream h
