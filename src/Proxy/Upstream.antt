-- ===== src/Proxy/Upstream.antt =====
-- What `_authenticate_upstream` and `_connect_upstream` of src/camouflare/proxy.py have written to
-- the upstream when they return.
use camouflare.Proxy.Silence.{read_bound_address-IsSilent, silent-eq}
use camouflare.Prelude.{
  ◌==◌, leb, length, ℕ, ◌&&◌, ◌≤◌, List, [], ◌∷◌, ◌++◌, ◌≡◌, refl, sym, ap, ◌∙◌, arith,
  append_assoc,
}
use camouflare.Proxy.Wire.{
  Wire, Outcome, returned, raised, take_two, read, raise_unless, auth_not_accepted, auth_failed,
  credentials_too_long,
}
use camouflare.Proxy.Addresses.{Address, encode_socks_address, port_to_bytes}
use camouflare.Proxy.Handshake.{
  connect_message, UpstreamProxy, lift, send, authenticate_upstream, request_upstream,
  credentials_message,
}
use camouflare.Proxy.Outcomes.{
  >>=-eq-returned_then, read-eq-returned, raise_unless-eq-returned, send-eq-returned,
}
use camouflare.Proxy.Requests.{IsMessage}

sent_twice :
    (s first second : List ℕ) {t u : List ℕ}
    → t ≡ s ++ first
    → u ≡ t ++ second
    → u ≡ s ++ (first ++ second)
sent_twice s first second h k = k ∙ (ap (λ t. t ++ second) h ∙ append_assoc s first second)

-- Both messages of the authentication.
abbrev pub auth_messages : UpstreamProxy → List ℕ
auth_messages proxy = (5 ∷ 1 ∷ 2 ∷ []) ++ credentials_message proxy

pub authenticate_upstream-eq-returned :
    (proxy : UpstreamProxy) (w : Wire) {u : Unit {0}} {w' : Wire}
    → authenticate_upstream proxy w ≡ (returned u, w')
    → (length proxy.username ≤ 255)
      × (length proxy.password ≤ 255)
      × (w'.sent ≡ w.sent ++ auth_messages proxy)
unfolding authenticate_upstream
authenticate_upstream-eq-returned proxy w {u} {w'} h =
    >>=-eq-returned_then
      (raise_unless (leb (length proxy.username) 255 && leb (length proxy.password) 255)
        credentials_too_long)
      _ w h
      (λ _ w₁ e₁ k₁. >>=-eq-returned_then (send (5 ∷ 1 ∷ 2 ∷ [])) _ w₁ k₁ (λ _ w₂ e₂ k₂.
        >>=-eq-returned_then (read take_two) _ w₂ k₂ (λ (version, method) w₃ e₃ k₃.
          >>=-eq-returned_then (raise_unless ((version == 5) && (method == 2)) auth_not_accepted) _
            w₃ k₃
            (λ _ w₄ e₄ k₄.
              >>=-eq-returned_then (send (credentials_message proxy)) _ w₄ k₄ (λ _ w₅ e₅ k₅.
                >>=-eq-returned_then (read take_two) _ w₅ k₅ (λ (auth_version, status) w₆ e₆ k₆.
                  let (small, same₁) = raise_unless-eq-returned _ credentials_too_long w e₁ in
                  let (s₂, _, _) = send-eq-returned _ w₁ e₂ in
                  let (_, s₃, _) = read-eq-returned take_two w₂ e₃ in
                  let (_, same₄) = raise_unless-eq-returned _ auth_not_accepted w₃ e₄ in
                  let (s₅, _, _) = send-eq-returned _ w₄ e₅ in
                  let (_, s₆, _) = read-eq-returned take_two w₅ e₆ in
                  let (_, same₇) = raise_unless-eq-returned _ auth_failed w₆ k₆ in
                  (
                    ground (arith, small),
                    ground (arith, small),
                    sent_twice w.sent (5 ∷ 1 ∷ 2 ∷ []) (credentials_message proxy)
                        (ap Wire.sent (sym same₄)
                          ∙ (s₃ ∙ (s₂ ∙ ap (λ v. v.sent ++ (5 ∷ 1 ∷ 2 ∷ [])) (sym same₁))))
                        (ap Wire.sent (sym same₇) ∙ (s₆ ∙ s₅)),
                  )))))))

lift-eq-returned :
    {A : Type 0} (o : Outcome A) (w : Wire) {a : A} {w' : Wire}
    → lift o w ≡ (returned a, w')
    → (o ≡ returned a) × (w ≡ w')
lift-eq-returned (returned b) w h = ground arith
lift-eq-returned (raised e) w h = absurd (ground (arith, h))

-- Everything that is written to the upstream up to the relay.
abbrev pub IsForwarded : UpstreamProxy → ℕ × Address × ℕ → Wire → Wire → Type 0
IsForwarded proxy request w w' =
    (message : List ℕ) × IsMessage request message
    × (length proxy.username ≤ 255)
    × (length proxy.password ≤ 255)
    × (w'.sent ≡ w.sent ++ (auth_messages proxy ++ (5 ∷ 1 ∷ 0 ∷ message)))

pub request_upstream-IsForwarded :
    (proxy : UpstreamProxy) (atyp : ℕ) (a : Address) (port : ℕ) (w : Wire) {u : Unit {0}}
    {w' : Wire}
    → request_upstream proxy atyp a port w ≡ (returned u, w')
    → IsForwarded proxy (atyp, a, port) w w'
unfolding request_upstream
request_upstream-IsForwarded proxy atyp a port w {u} {w'} h =
    >>=-eq-returned_then (authenticate_upstream proxy) _ w h (λ _ w₁ e₁ k₁.
      >>=-eq-returned_then (lift (encode_socks_address atyp a)) _ w₁ k₁ (λ target w₂ e₂ k₂.
        >>=-eq-returned_then (lift (port_to_bytes port)) _ w₂ k₂ (λ port_bytes w₃ e₃ k₃.
          >>=-eq-returned_then (send (connect_message target port_bytes)) _ w₃ k₃ (λ _ w₄ e₄ k₄.
            let (small, small', s₁) = authenticate_upstream-eq-returned proxy w e₁ in
            let (encoded, same₂) = lift-eq-returned _ w₁ e₂ in
            let (encoded', same₃) = lift-eq-returned _ w₂ e₃ in
            let (s₄, _, _) = send-eq-returned _ w₃ e₄ in
            (
              target ++ port_bytes,
              (target, port_bytes, encoded, encoded', refl),
              small,
              small',
              sent_twice w.sent (auth_messages proxy) (5 ∷ 1 ∷ 0 ∷ target ++ port_bytes)
                  (ap Wire.sent (sym (same₂ ∙ same₃)) ∙ s₁)
                  (silent-eq read_bound_address-IsSilent w₄ k₄ ∙ s₄),
            )))))
