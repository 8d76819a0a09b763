-- ===== src/Proxy/Refusals.antt =====
-- What `_handle_client` of src/camouflare/proxy.py writes to a browser that it does not connect.
use camouflare.Proxy.Outcomes.{send-returns, send-IsSent}
use camouflare.Prelude.{
  ap, append_assoc, contains, not, ℕ, zero, suc, ◌≤◌, false, List, [], ◌∷◌, ◌++◌, Option, none,
  some, ◌≡◌, refl, sym, ◌∙◌, ◌⊎◌, inl, inr, arith, append-nil, if-holds,
}
use camouflare.Proxy.Wire.{
  ◌>>=◌, Wire, Talk, Outcome, returned, raised, resume, take_two, take_exactly, read, write, drain,
  drained, no_auth_not_offered, raise,
}
use camouflare.Proxy.Addresses.{Address}
use camouflare.Proxy.Handshake.{
  read_client_request, UpstreamProxy, send, offer_no_auth, read_greeting,
}
use camouflare.Proxy.Silence.{
  IsSilent, IsUnwritten, read-IsSilent, raise_unless-IsSilent, raise-IsSilent, read_target-IsSilent,
  silence,
}
use camouflare.Proxy.Connection.{
  Connection, Network, handle_client, handle_request, connect_upstream, answer, tunnel, refuse,
  success_reply, failure_reply,
}

-- The answer to the greeting, if it has been given.
abbrev pub IsStart : List ℕ → Type 0
IsStart start = (start ≡ []) ⊎ ((start ≡ 5 ∷ 255 ∷ []) ⊎ (start ≡ 5 ∷ 0 ∷ []))

-- From `w` on at most that answer was written, the stream is open and takes a further write.
abbrev pub IsStarted : Wire → Wire → Type 0
IsStarted w v =
    (v.closing ≡ false)
    × (1 ≤ v.drains)
    × ((start : List ℕ) × IsStart start × (v.sent ≡ w.sent ++ start))

-- A stream that is open and takes two more writes.
abbrev pub IsOpen : Wire → Type 0
IsOpen w = (w.closing ≡ false) × (2 ≤ w.drains)

-- Nothing was written.
unwritten-IsStarted : (w v : Wire) → IsOpen w → IsUnwritten w v → IsStarted w v
unwritten-IsStarted w v (c, d) (s, d', c') =
    (c' ∙ c, omega (arith, d, d'), ([], inl refl, s ∙ sym (append-nil w.sent)))

IsStarted-of_IsUnwritten : (w v v' : Wire) → IsStarted w v → IsUnwritten v v' → IsStarted w v'
IsStarted-of_IsUnwritten w v v' (c, d, (start, i, s)) (s', d', c') =
    (c' ∙ c, omega (arith, d, d'), (start, i, s' ∙ s))

module _ {A B : Type 0} (w : Wire) where
  resume-IsStarted :
      (o : Outcome A) (f : A → Talk B) (v : Wire)
      → IsStarted w v
      → ((a : A) → IsStarted w (f a v).1)
      → IsStarted w (resume o f v).1
  resume-IsStarted (returned a) f v h k = k a
  resume-IsStarted (raised e) f v h k = h

  -- What follows a silent action starts where that one did.
  silent_then-IsStarted :
      (m : Talk A) (f : A → Talk B) (v : Wire)
      → IsOpen w
      → IsSilent m
      → IsUnwritten w v
      → ((a : A) (v' : Wire) → IsUnwritten w v' → IsStarted w (f a v').1)
      → IsStarted w ((m >>= f) v).1
  unfolding ◌>>=◌
  silent_then-IsStarted m f v open_ silent (s, d, c) k =
      let (s', d', c') = silent.leaves v in
      let still : IsUnwritten w (m v).1 = (s' ∙ s, d' ∙ d, c' ∙ c) in
      resume-IsStarted (m v).0 f (m v).1 (unwritten-IsStarted w (m v).1 open_ still)
        (λ a. k a (m v).1 still)

  -- What follows a started action is silent.
  then_silent-IsStarted :
      (m : Talk A) (f : A → Talk B) (v : Wire)
      → IsStarted w (m v).1
      → ((a : A) → IsSilent (f a))
      → IsStarted w ((m >>= f) v).1
  unfolding ◌>>=◌
  then_silent-IsStarted m f v h k =
      resume-IsStarted (m v).0 f (m v).1 h
        (λ a. IsStarted-of_IsUnwritten w (m v).1 (f a (m v).1).1 h ((k a).leaves (m v).1))

drained-IsOpen :
    (n : ℕ) (w : Wire)
    → w.drains ≡ n
    → w.closing ≡ false
    → 2 ≤ n
    → ((drained n w).1.closing ≡ false)
      × (1 ≤ (drained n w).1.drains)
      × ((drained n w).1.sent ≡ w.sent)
drained-IsOpen zero w e c h = absurd (omega (arith, h))
drained-IsOpen (suc n) w e c h = (c, omega (arith, h), refl)

send-IsStarted :
    (start : List ℕ) (w v : Wire)
    → IsStart start
    → IsOpen w
    → IsUnwritten w v
    → IsStarted w (send start v).1
unfolding send write drain ◌>>=◌
send-IsStarted start w v i (c, d) (s, d', c') =
    let (c'', d'', s'') =
      drained-IsOpen v.drains (record v { sent = v.sent ++ start }) refl (c' ∙ c)
        (omega (arith, d, d')) in
    (c'', d'', (start, i, s'' ∙ ap (λ u. u ++ start) s))

offer_no_auth-IsStarted :
    (methods : List ℕ) (w v : Wire)
    → IsOpen w
    → IsUnwritten w v
    → IsStarted w (offer_no_auth methods v).1
unfolding offer_no_auth
offer_no_auth-IsStarted methods w v o u =
    if-holds (λ (m : Talk (Unit {0})). IsStarted w (m v).1) (not (contains methods 0)) _ _
      (λ _.
        then_silent-IsStarted w (send (5 ∷ 255 ∷ [])) (λ _. raise no_auth_not_offered) v
          (send-IsStarted (5 ∷ 255 ∷ []) w v (inr (inl refl)) o u)
          (λ _. raise-IsSilent no_auth_not_offered))
      (λ _. send-IsStarted (5 ∷ 0 ∷ []) w v (inr (inr refl)) o u)

read_greeting-IsStarted : (w : Wire) → IsOpen w → IsStarted w (read_greeting w).1
unfolding read_greeting
read_greeting-IsStarted w o =
    silent_then-IsStarted w (read take_two) _ w o (read-IsSilent take_two) (refl, refl, refl)
      (λ (version, count) v u.
        silent_then-IsStarted w _ _ v o (raise_unless-IsSilent _ _) u (λ _ v u.
          silent_then-IsStarted w _ _ v o (read-IsSilent (take_exactly count)) u
            (λ methods v u. offer_no_auth-IsStarted methods w v o u)))

read_client_request-IsStarted : (w : Wire) → IsOpen w → IsStarted w (read_client_request w).1
unfolding read_client_request
read_client_request-IsStarted w o =
    then_silent-IsStarted w read_greeting _ w (read_greeting-IsStarted w o)
      (λ _. search (silence, read_target-IsSilent) depth 16)

-- The stream was open, so that the failure reply is what comes last.
abbrev pub IsRefused : Wire → Connection → Type 0
IsRefused w c =
    (start : List ℕ) × IsStart start × (c.client.sent ≡ w.sent ++ (start ++ failure_reply))

refuse-IsRefused :
    (w v : Wire) (upstream : Option Wire) → IsStarted w v → IsRefused w (refuse v upstream)
unfolding refuse
refuse-IsRefused w v upstream (c, d, (start, i, s)) = (
  start,
  i,
  if-holds (λ (u : Wire). u.sent ≡ w.sent ++ (start ++ failure_reply)) v.closing v
      (send failure_reply v).1 (λ closing. absurd (ground (arith, closing, c)))
      (λ _.
        (send-IsSent failure_reply v).0
        ∙ (ap (λ u. u ++ failure_reply) s ∙ append_assoc w.sent start failure_reply)),
)

tunnel-IsRefused :
    (n : Network) (o : Outcome (Unit {0})) (w client upstream : Wire)
    → o ≡ returned tt
    → (tunnel n o client upstream).connected ≡ false
    → IsRefused w (tunnel n o client upstream)
unfolding tunnel
tunnel-IsRefused n (raised e) w client upstream h k = absurd (ground (arith, h))
tunnel-IsRefused n (returned _) w client upstream h k = absurd (ground (arith, k))

answer-IsRefused :
    (n : Network) (w client : Wire) (r : Outcome (Unit {0}) × Option Wire)
    → IsStarted w client
    → (answer n client r).connected ≡ false
    → IsRefused w (answer n client r)
unfolding answer
answer-IsRefused n w client (raised e, upstream) h k = refuse-IsRefused w client upstream h
answer-IsRefused n w client (returned _, none) h k = refuse-IsRefused w client none h
answer-IsRefused n w client (returned _, some upstream) h k =
    tunnel-IsRefused n (send success_reply client).0 w (send success_reply client).1 upstream
      (send-returns success_reply client h.1) k

handle_request-IsRefused :
    (n : Network) (proxy : UpstreamProxy) (w client : Wire) (o : Outcome (ℕ × Address × ℕ))
    → IsStarted w client
    → (handle_request n proxy o client).connected ≡ false
    → IsRefused w (handle_request n proxy o client)
unfolding handle_request
handle_request-IsRefused n proxy w client (raised e) h k = refuse-IsRefused w client none h
handle_request-IsRefused n proxy w client (returned request) h k =
    answer-IsRefused n w client (connect_upstream n.dial proxy request) h k

-- Where the client's stream is open, takes two more writes, and its handler ends unconnected, the
-- client got at most the answer to its greeting and then the failure reply, once and last.
pub handle_client-IsRefused :
    (n : Network) (proxy : UpstreamProxy) (client : Wire)
    → IsOpen client
    → (handle_client n proxy client).connected ≡ false
    → IsRefused client (handle_client n proxy client)
unfolding handle_client
handle_client-IsRefused n proxy client o h =
    handle_request-IsRefused n proxy client (read_client_request client).1
      (read_client_request client).0 (read_client_request-IsStarted client o) h
