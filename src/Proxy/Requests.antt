-- ===== src/Proxy/Requests.antt =====
-- What `_read_client_request` of src/camouflare/proxy.py has read and answered when it returns.
use camouflare.Prelude.{
  append_assoc, if-holds, not, ◌&&◌, ◌==◌, contains, length, ℕ, true, List, [], ◌∷◌, ◌++◌, some,
  ◌≡◌, refl, sym, ap, subst, ◌∙◌, arith,
}
use camouflare.Proxy.Wire.{
  raise_unless, unsupported_version, not_connect, Wire, Talk, Outcome, returned, take_two,
  take_four, take_exactly, read,
}
use camouflare.Proxy.Addresses.{
  read_socks_address, Address, encode_socks_address, port_of_bytes, port_to_bytes,
}
use camouflare.Proxy.Handshake.{
  read_target, read_greeting, send, offer_no_auth, read_port, read_client_request,
}
use camouflare.Proxy.Outcomes.{
  >>=-eq-returned_then, >>=-eq-returned, read-eq-returned, raise_unless-eq-returned,
  send-eq-returned, take_exactly-split,
}
use camouflare.Proxy.Verbatim.{
  body_of, read_socks_address-IsRead, IsRead, Bytes, port_to_bytes-port_of_bytes,
}

take_two-split :
    (xs : List ℕ) {a b : ℕ} {rest : List ℕ} → take_two xs ≡ some ((a, b), rest) → xs ≡ a ∷ b ∷ rest
take_two-split [] h = ground arith
take_two-split (x ∷ []) h = ground arith
take_two-split (x ∷ y ∷ xs) h = ground arith

take_four-split :
    (xs : List ℕ) {a b c d : ℕ} {rest : List ℕ}
    → take_four xs ≡ some ((a, b, c, d), rest)
    → xs ≡ a ∷ b ∷ c ∷ d ∷ rest
take_four-split [] h = ground arith
take_four-split (x ∷ []) h = ground arith
take_four-split (x ∷ y ∷ []) h = ground arith
take_four-split (x ∷ y ∷ z ∷ []) h = ground arith
take_four-split (x ∷ y ∷ z ∷ v ∷ xs) h = ground arith

pub Bytes-append : (xs ys : List ℕ) → Bytes (xs ++ ys) → Bytes ys
Bytes-append [] ys b = b
Bytes-append (x ∷ xs) ys b = Bytes-append xs ys b.1

offer_no_auth-eq-returned :
    (methods : List ℕ) (w : Wire) {u : Unit {0}} {w' : Wire}
    → offer_no_auth methods w ≡ (returned u, w')
    → (contains methods 0 ≡ true) × (w'.sent ≡ w.sent ++ (5 ∷ 0 ∷ [])) × (w'.unread ≡ w.unread)
unfolding offer_no_auth
offer_no_auth-eq-returned methods w {u} {w'} =
    if-holds (λ (m : Talk (Unit {0})). m w ≡ (returned u, w') → Offered) (not (contains methods 0))
      _ _
      (λ _ h.
        let (v, w₁, e, k) = >>=-eq-returned (send (5 ∷ 255 ∷ [])) _ w h in
        absurd (ground (arith, k)))
      (λ offered h.
        let (s, r, _) = send-eq-returned (5 ∷ 0 ∷ []) w h in (ground (arith, offered), s, r))
  where
    Offered : Type 0
    Offered =
        (contains methods 0 ≡ true) × (w'.sent ≡ w.sent ++ (5 ∷ 0 ∷ [])) × (w'.unread ≡ w.unread)

-- The bytes of a request that was read between `w` and `w'`, from the address type to the port,
-- are those that the request is written as.
abbrev pub IsMessage : ℕ × Address × ℕ → List ℕ → Type 0
IsMessage (atyp, a, port) message =
    (target : List ℕ) × (port_bytes : List ℕ) × (encode_socks_address atyp a ≡ returned target)
    × (port_to_bytes port ≡ returned port_bytes)
    × (message ≡ target ++ port_bytes)

read_port-IsPort :
    (w : Wire) {port : ℕ} {w' : Wire}
    → Bytes w.unread
    → read_port w ≡ (returned port, w')
    → (port_bytes : List ℕ) × (port_to_bytes port ≡ returned port_bytes)
      × (w.unread ≡ port_bytes ++ w'.unread)
      × (w'.sent ≡ w.sent)
unfolding read_port
read_port-IsPort w {port} {w'} b h =
    let ((high, low), w₁, e, k) = >>=-eq-returned (read take_two) _ w h in
    let (e₁, e₂, e₃) = read-eq-returned take_two w e in
    let s = take_two-split w.unread e₁ in
    let (small, others) = subst Bytes s b in
    let same : (port_of_bytes high low ≡ port) × (w₁ ≡ w') = ground (arith, k) in
    (
      high ∷ low ∷ [],
      ap port_to_bytes (sym (same.0)) ∙ port_to_bytes-port_of_bytes high low small (others.0),
      subst (λ v. w.unread ≡ high ∷ low ∷ v.unread) (same.1) s,
      ap Wire.sent (sym (same.1)) ∙ e₂,
    )

-- The client has offered to go without authentication and was told so.
abbrev pub IsGreeting : Wire → Wire → Type 0
IsGreeting w w' =
    (methods : List ℕ) × (contains methods 0 ≡ true)
    × (w.unread ≡ 5 ∷ length methods ∷ methods ++ w'.unread)
    × (w'.sent ≡ w.sent ++ (5 ∷ 0 ∷ []))

read_greeting-IsGreeting :
    (w : Wire) {u : Unit {0}} {w' : Wire} → read_greeting w ≡ (returned u, w') → IsGreeting w w'
unfolding read_greeting
read_greeting-IsGreeting w {u} {w'} h =
    let ((version, count), w₁, e, k) = >>=-eq-returned (read take_two) _ w h in
    let (e₁, s₁, _) = read-eq-returned take_two w e in
    let at₁ = take_two-split w.unread e₁ in
    let (_, w₂, f, k₂) = >>=-eq-returned (raise_unless (version == 5) unsupported_version) _ w₁ k in
    let (five, same) = raise_unless-eq-returned (version == 5) unsupported_version w₁ f in
    let (methods, w₃, e₃, k₃) = >>=-eq-returned (read (take_exactly count)) _ w₂ k₂ in
    let (e₄, s₃, _) = read-eq-returned (take_exactly count) w₂ e₃ in
    let (at₃, l₃) = take_exactly-split count w₂.unread e₄ in
    let (offered, s₄, r₄) = offer_no_auth-eq-returned methods w₃ k₃ in
    (
      methods,
      offered,
      ground (arith, at₁, five, same, at₃, l₃, r₄),
      ground (arith, s₁, same, s₃, s₄),
    )

-- The address type was read; the rest of the request is what it is written as.
abbrev pub IsTarget : ℕ → Wire → ℕ × Address × ℕ → Wire → Type 0
IsTarget atyp w request w' =
    (message : List ℕ) × IsMessage request (atyp ∷ message)
    × (w.unread ≡ message ++ w'.unread)
    × (w'.sent ≡ w.sent)

IsTarget-of_IsRead :
    (atyp : ℕ) (w v w' : Wire) (a : Address) (port : ℕ) (request : ℕ × Address × ℕ)
    → IsRead atyp w a v
    → (port_bytes : List ℕ) → port_to_bytes port ≡ returned port_bytes
    → v.unread ≡ port_bytes ++ w'.unread
    → w'.sent ≡ v.sent
    → (atyp, a, port) ≡ request
    → IsTarget atyp w request w'
IsTarget-of_IsRead atyp w v w' a port request (e, at, s, _, _) port_bytes e' at' s' same =
    subst (λ r. IsTarget atyp w r w') same
      (
        body_of a ++ port_bytes,
        (atyp ∷ body_of a, port_bytes, e, e', refl),
        at ∙ ap (λ u. body_of a ++ u) at' ∙ sym (append_assoc (body_of a) port_bytes w'.unread),
        s' ∙ s,
      )

read_target-IsTarget :
    (atyp : ℕ) (w : Wire) {request : ℕ × Address × ℕ} {w' : Wire}
    → Bytes w.unread
    → read_target atyp w ≡ (returned request, w')
    → IsTarget atyp w request w'
unfolding read_target
read_target-IsTarget atyp w {request} {w'} b h =
    >>=-eq-returned_then (read_socks_address atyp) _ w h (λ a v e k.
      >>=-eq-returned_then read_port _ v k (λ port v' e' k'.
        let is_read = read_socks_address-IsRead atyp w b e in
        let (port_bytes, p, at, s) =
          read_port-IsPort v (Bytes-append (body_of a) v.unread (subst Bytes (is_read.1) b)) e' in
        IsTarget-of_IsRead atyp w v w' a port request is_read port_bytes p
          (at ∙ ap (λ (r : Outcome (ℕ × Address × ℕ) × Wire). port_bytes ++ r.1.unread) k')
          (ap (λ (r : Outcome (ℕ × Address × ℕ) × Wire). r.1.sent) (sym k') ∙ s)
          (ground (arith, k'))))

-- After the greeting, the client has asked to connect.
abbrev pub IsConnect : Wire → ℕ × Address × ℕ → Wire → Type 0
IsConnect w request w' =
    (reserved : ℕ) × (message : List ℕ) × IsMessage request message
    × (w.unread ≡ 5 ∷ 1 ∷ reserved ∷ message ++ w'.unread)
    × (w'.sent ≡ w.sent)

IsConnect-of_IsTarget :
    (version command reserved atyp : ℕ) (w v w' : Wire) (request : ℕ × Address × ℕ)
    → (version == 5) && (command == 1) ≡ true
    → w.unread ≡ version ∷ command ∷ reserved ∷ atyp ∷ v.unread
    → v.sent ≡ w.sent
    → IsTarget atyp v request w'
    → IsConnect w request w'
IsConnect-of_IsTarget version command reserved atyp w v w' request tests at s
      (message, m, at', s') =
    (reserved, atyp ∷ message, m, ground (arith, tests, at, at'), s' ∙ s)

pub read_client_request-IsRequest :
    (w : Wire) {request : ℕ × Address × ℕ} {w' : Wire}
    → Bytes w.unread
    → read_client_request w ≡ (returned request, w')
    → (v : Wire) × IsGreeting w v × IsConnect v request w'
unfolding read_client_request
read_client_request-IsRequest w {request} {w'} b h =
    >>=-eq-returned_then read_greeting _ w h (λ _ v e k.
      >>=-eq-returned_then (read take_four) _ v k (λ (version, command, reserved, atyp) w₁ e₁ k₁.
        >>=-eq-returned_then (raise_unless ((version == 5) && (command == 1)) not_connect) _ w₁ k₁
          (λ _ w₂ e₂ k₂.
            let greeting = read_greeting-IsGreeting w e in
            let (taken, s₁, _) = read-eq-returned take_four v e₁ in
            let at₁ = take_four-split v.unread taken in
            let (tests, same) =
              raise_unless-eq-returned ((version == 5) && (command == 1)) not_connect w₁ e₂ in
            let b₁ =
              Bytes-append (5 ∷ length greeting.0 ∷ greeting.0) v.unread
                (subst Bytes greeting.2 b) in
            let b₂ = (subst Bytes at₁ b₁).1.1.1.1 in
            (
              v,
              greeting,
              IsConnect-of_IsTarget version command reserved atyp v w₁ w' request tests at₁ s₁ (
                  read_target-IsTarget atyp w₁ b₂
                    (subst (λ u. read_target atyp u ≡ (returned request, w')) (sym same) k₂)),
            ))))
