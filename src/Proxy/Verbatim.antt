-- ===== src/Proxy/Verbatim.antt =====
-- The address and port functions of src/camouflare/proxy.py against the form that RFC 1928 gives
-- to an address: they undo each other.
use camouflare.Prelude.{
  ◌%◌, ◌*◌, ◌/◌, ◌+◌, ◌==◌, true, ==_iff, if-holds, sym, ap, subst, Option, some, length, ℕ, ◌<◌,
  List, [], ◌∷◌, ◌++◌, ◌≡◌, refl, ◌∙◌, arith,
}
use camouflare.Proxy.Wire.{Talk, take_one, pure, ◌>>=◌, Wire, returned, take_exactly, read}
use camouflare.Proxy.Outcomes.{
  take_exactly-split, take_exactly-append, >>=-eq-returned, read-eq-returned, >>=-returned,
  read-returned,
}
use camouflare.Proxy.Addresses.{
  port_of_bytes, port_to_bytes, read_domain, Address, ipv4, domain, ipv6, read_socks_address,
  encode_socks_address,
}

abbrev pub Bytes : List ℕ → Type 0
Bytes [] = Unit
Bytes (x ∷ xs) = (x < 256) × Bytes xs

abbrev pub type_of : Address → ℕ
type_of (ipv4 _) = 1
type_of (domain _) = 3
type_of (ipv6 _) = 4

-- An address after its type byte.
abbrev pub body_of : Address → List ℕ
body_of (ipv4 octets) = octets
body_of (domain name) = length name ∷ name
body_of (ipv6 octets) = octets

-- The lengths that the form allows.
abbrev pub IsAddress : Address → Type 0
IsAddress (ipv4 octets) = length octets ≡ 4
IsAddress (domain name) = length name < 256
IsAddress (ipv6 octets) = length octets ≡ 16

-- `readexactly` and the address made of its bytes.
read_then :
    (take : List ℕ → Option (List ℕ × List ℕ)) (f : List ℕ → Address) (w : Wire)
    {bytes rest : List ℕ}
    → take w.unread ≡ some (bytes, rest)
    → (read take >>= λ b. pure (f b)) w ≡ (returned (f bytes), record w { unread = rest })
read_then take f w h = >>=-returned (read take) _ w (read-returned take w h)

-- An address whose length its type allows is encoded as its type byte and its body; and from a body
-- that other bytes follow, the address is read and those bytes are left.
pub read-encode_socks_address :
    (a : Address) (rest : List ℕ) (w : Wire)
    → IsAddress a
    → (encode_socks_address (type_of a) a ≡ returned (type_of a ∷ body_of a))
      × (read_socks_address (type_of a) (record w { unread = body_of a ++ rest })
          ≡ (returned a, record w { unread = rest }))
unfolding encode_socks_address read_socks_address read_domain
read-encode_socks_address (ipv4 octets) rest w h =
    (refl, read_then (take_exactly 4) ipv4 _ (take_exactly-append 4 octets rest h))
read-encode_socks_address (domain name) rest w h = (
  ground arith,
  >>=-returned (read take_one) _ _ (read-returned take_one _ refl)
      ∙ read_then (take_exactly (length name)) domain _
          (take_exactly-append (length name) name rest refl),
)
read-encode_socks_address (ipv6 octets) rest w h =
    (refl, read_then (take_exactly 16) ipv6 _ (take_exactly-append 16 octets rest h))

Bytes-head : (x : ℕ) (xs : List ℕ) {ys : List ℕ} → Bytes ys → ys ≡ x ∷ xs → x < 256
Bytes-head x xs b e = (subst Bytes e b).0

take_one-split :
    (xs : List ℕ) {n : ℕ} {rest : List ℕ} → take_one xs ≡ some (n, rest) → xs ≡ n ∷ rest
take_one-split [] h = ground arith
take_one-split (x ∷ xs) h = ground arith

-- What `IsRead` says of the address that was read from `w` as one of type `atyp`, up to `w'`: its
-- bytes were those in between, and it is written as the same bytes.
abbrev pub IsRead : ℕ → Wire → Address → Wire → Type 0
IsRead atyp w a w' =
    (encode_socks_address atyp a ≡ returned (atyp ∷ body_of a))
    × (w.unread ≡ body_of a ++ w'.unread)
    × (w'.sent ≡ w.sent)
    × IsAddress a
    × (type_of a ≡ atyp)

read_then-split :
    (n : ℕ) (f : List ℕ → Address) (w : Wire) {a : Address} {w' : Wire}
    → (read (take_exactly n) >>= λ b. pure (f b)) w ≡ (returned a, w')
    → (bytes : List ℕ) × (a ≡ f bytes)
      × (w.unread ≡ bytes ++ w'.unread)
      × (length bytes ≡ n)
      × (w'.sent ≡ w.sent)
read_then-split n f w {a} {w'} h =
    let (bytes, w₁, e, k) = >>=-eq-returned (read (take_exactly n)) _ w h in
    let (e₁, e₂, e₃) = read-eq-returned (take_exactly n) w e in
    let (s, l) = take_exactly-split n w.unread e₁ in
    let same : (f bytes ≡ a) × (w₁ ≡ w') = ground (arith, k) in
    (
      bytes,
      sym (same.0),
      subst (λ v. w.unread ≡ bytes ++ v.unread) (same.1) s,
      l,
      ap Wire.sent (sym same.1) ∙ e₂,
    )

domain-IsRead :
    (bytes : List ℕ) (w w' : Wire)
    → length bytes < 256
    → w.unread ≡ length bytes ∷ bytes ++ w'.unread
    → w'.sent ≡ w.sent
    → IsRead 3 w (domain bytes) w'
unfolding encode_socks_address
domain-IsRead bytes w w' small s k = (ground arith, s, k, small, refl)

read_domain-IsRead :
    (w : Wire) {a : Address} {w' : Wire}
    → Bytes w.unread
    → read_domain w ≡ (returned a, w')
    → IsRead 3 w a w'
unfolding read_domain
read_domain-IsRead w {a} {w'} b h =
    let (n, w₁, e, k) = >>=-eq-returned (read take_one) _ w h in
    let (e₁, e₂, e₃) = read-eq-returned take_one w e in
    let (bytes, at, s, l, k₂) = read_then-split n domain w₁ k in
    let first = take_one-split w.unread e₁ in
    let small = Bytes-head n w₁.unread b first in
    subst (λ a. IsRead 3 w a w') (sym at)
      (domain-IsRead bytes w w' (omega (arith, l, small))
        (first ∙ (ap (λ m. m ∷ w₁.unread) (sym l) ∙ ap (λ u. length bytes ∷ u) s)) (k₂ ∙ e₂))

octets-IsRead :
    (atyp n : ℕ) (f : List ℕ → Address) (w : Wire) {a : Address} {w' : Wire}
    → ((bytes : List ℕ)
        → length bytes ≡ n
        → (encode_socks_address atyp (f bytes) ≡ returned (atyp ∷ bytes))
          × (body_of (f bytes) ≡ bytes)
          × IsAddress (f bytes)
          × (type_of (f bytes) ≡ atyp))
    → (read (take_exactly n) >>= λ b. pure (f b)) w ≡ (returned a, w')
    → IsRead atyp w a w'
octets-IsRead atyp n f w {a} {w'} shape h =
    let (bytes, at, s, l, k) = read_then-split n f w h in
    let (e, body, small, type) = shape bytes l in
    subst (λ a. IsRead atyp w a w') (sym at)
      (
        e ∙ ap (λ u. returned (atyp ∷ u)) (sym body),
        s ∙ ap (λ u. u ++ w'.unread) (sym body),
        k,
        small,
        type,
      )

-- The read of each type, with `IsRead` for that type.
pub read_socks_address-IsRead :
    (atyp : ℕ) (w : Wire) {a : Address} {w' : Wire}
    → Bytes w.unread
    → read_socks_address atyp w ≡ (returned a, w')
    → IsRead atyp w a w'
unfolding read_socks_address encode_socks_address
read_socks_address-IsRead atyp w {a} {w'} b =
    if-holds Reads (atyp == 1) _ _
      (λ e. at_type e (octets-IsRead 1 4 ipv4 w (λ bytes l. (refl, refl, l, refl))))
      (λ _.
        if-holds Reads (atyp == 3) _ _ (λ e. at_type e (read_domain-IsRead w b))
          (λ _.
            if-holds Reads (atyp == 4) _ _
              (λ e. at_type e (octets-IsRead 4 16 ipv6 w (λ bytes l. (refl, refl, l, refl))))
              (λ _ h. absurd (ground (arith, h)))))
  where
    Reads : Talk Address → Type 0
    Reads m = m w ≡ (returned a, w') → IsRead atyp w a w'

    at_type :
        {n : ℕ} {X : Type 0} → (atyp == n) ≡ true → (X → IsRead n w a w') → X → IsRead atyp w a w'
    at_type {n} e k x = subst (λ t. IsRead t w a w') (sym ((==_iff atyp n).0 e)) (k x)

-- A port is relayed as the two bytes in which it came.
pub port_to_bytes-port_of_bytes :
    (high low : ℕ)
    → high < 256
    → low < 256
    → port_to_bytes (port_of_bytes high low) ≡ returned (high ∷ low ∷ [])
unfolding port_to_bytes port_of_bytes
port_to_bytes-port_of_bytes high low h l =
    let quotient : (high * 256 + low) / 256 ≡ high = omega arith in
    let remainder : (high * 256 + low) % 256 ≡ low = omega arith in
    ground (arith, quotient, remainder)
