-- ===== src/Proxy/Relays.antt =====
-- That `_pipe_bidirectional` of src/camouflare/proxy.py ends in good order where no connection is lost.
use camouflare.Prelude.{
  ℕ, zero, suc, ◌≤◌, List, [], ◌∷◌, ◌++◌, ◌≡◌, refl, ap, ◌∙◌, arith, length, if-holds,
}
use camouflare.Proxy.Wire.{◌>>=◌, Wire, Outcome, returned, raised, write, drain}
use camouflare.Proxy.Handshake.{send}
use camouflare.Proxy.Outcomes.{>>=-returned}
use camouflare.Proxy.Connection.{
  Arrival, chunk, reset, Network, pipe, take, relay, relay_other, pipe_bidirectional,
}
use camouflare.Proxy.Tunnels.{HasDelivered, pipe_bidirectional-HasDelivered}

-- The peer's connection is not lost.
abbrev pub IsSteady : List Arrival → Type 0
IsSteady [] = Unit
IsSteady (reset ∷ arrivals) = ⊥
IsSteady (chunk bytes ∷ arrivals) = IsSteady arrivals

take-IsSteady : (n : ℕ) (arrivals : List Arrival) → IsSteady arrivals → IsSteady (take n arrivals)
take-IsSteady zero arrivals h = tt
take-IsSteady (suc n) [] h = tt
take-IsSteady (suc n) (reset ∷ arrivals) h = h
take-IsSteady (suc n) (chunk bytes ∷ arrivals) h = take-IsSteady n arrivals h

length-take-le : (n : ℕ) (arrivals : List Arrival) → length (take n arrivals) ≤ length arrivals
length-take-le zero arrivals = omega arith
length-take-le (suc n) [] = omega arith
length-take-le (suc n) (a ∷ arrivals) = omega (arith, length-take-le n arrivals)

send-takes_one :
    (bytes : List ℕ) (w : Wire) (n : ℕ)
    → w.drains ≡ suc n
    → send bytes w ≡ (returned tt, record w { sent = w.sent ++ bytes; drains = n })
unfolding send write drain ◌>>=◌
send-takes_one bytes w n e = rw e refl

pipe-returns :
    (arrivals : List Arrival) (w : Wire)
    → IsSteady arrivals
    → length arrivals ≤ w.drains
    → (pipe arrivals w).0 ≡ returned tt
unfolding pipe
pipe-returns [] w h room = refl
pipe-returns (reset ∷ arrivals) w h room = absurd h
pipe-returns (chunk bytes ∷ arrivals) w h room =
    by_drains w.drains refl (λ v. pipe-returns arrivals v h)
  where
    by_drains :
        (d : ℕ)
        → w.drains ≡ d
        → ((v : Wire) → length arrivals ≤ v.drains → (pipe arrivals v).0 ≡ returned tt)
        → (pipe (chunk bytes ∷ arrivals) w).0 ≡ returned tt
    by_drains zero e more = absurd (omega (arith, room, e))
    by_drains (suc n) e more =
        ap (λ o. o.0)
          (>>=-returned (send bytes) (λ _. pipe arrivals) w (send-takes_one bytes w n e))
        ∙ more (record w { sent = w.sent ++ bytes; drains = n }) (omega (arith, room, e))

relay_other-returns :
    (second : List Arrival) (progress : ℕ) (o : Outcome (Unit {0})) (u v : Wire)
    → o ≡ returned tt
    → IsSteady second
    → length second ≤ v.drains
    → (relay_other second progress o u v).0 ≡ returned tt
unfolding relay_other
relay_other-returns second progress (raised e) u v h steady room = absurd (ground (arith, h))
relay_other-returns second progress (returned _) u v h steady room =
    pipe-returns (take progress second) v (take-IsSteady progress second steady)
      (omega (arith, room, length-take-le progress second))

relay-returns :
    (first second : List Arrival) (progress : ℕ) (u v : Wire)
    → IsSteady first
    → IsSteady second
    → length first ≤ u.drains
    → length second ≤ v.drains
    → (relay first second progress u v).0 ≡ returned tt
unfolding relay
relay-returns first second progress u v steady steady' room room' =
    relay_other-returns second progress (pipe first u).0 (pipe first u).1 v
      (pipe-returns first u steady room) steady' room'

-- Where neither peer's connection is lost, and either stream takes as many writes as the other peer
-- has arrivals, the relay ends without an error, whichever direction ends first, and has delivered all
-- of that direction and what had arrived of the other by then.
pub pipe_bidirectional-ends :
    (n : Network) (client upstream : Wire)
    → IsSteady n.from_client
    → IsSteady n.from_upstream
    → length n.from_client ≤ upstream.drains
    → length n.from_upstream ≤ client.drains
    → ((pipe_bidirectional n client upstream).0 ≡ returned tt)
      × HasDelivered n.client_ends_first n client upstream (pipe_bidirectional n client upstream)
unfolding pipe_bidirectional
pipe_bidirectional-ends n client upstream steady steady' room room' =
    (ends, pipe_bidirectional-HasDelivered n client upstream ends)
  where
    ends : (pipe_bidirectional n client upstream).0 ≡ returned tt
    ends =
        if-holds (λ (r : Outcome (Unit {0}) × Wire × Wire). r.0 ≡ returned tt) n.client_ends_first _
          _
          (λ _.
            relay-returns n.from_client n.from_upstream n.progress upstream client steady steady'
              room room')
          (λ _.
            relay-returns n.from_upstream n.from_client n.progress client upstream steady' steady
              room' room)
