-- ===== src/Proxy/Credentials.antt =====
-- The credentials message of `_authenticate_upstream` of src/camouflare/proxy.py, read as RFC 1929
-- has a server read it.
use camouflare.Prelude.{
  ◌≤◌, arith, ◌==◌, leb, ◌&&◌, Bool, false, true, arith, true, leb, ◌≤◌, Bool, ℕ, length, List, ◌∷◌,
  ◌++◌, ◌≡◌, refl, ap, ◌∙◌, append_assoc,
}
use camouflare.Proxy.Wire.{
  raise_unless, SocksError, unsupported_version, credentials_too_long, ◌>>◌, unsupported_version,
  credentials_too_long, SocksError, raise_unless, ◌>>=◌, Wire, Talk, returned, pure, take_one,
  take_two, take_exactly, read,
}
use camouflare.Proxy.Handshake.{UpstreamProxy, credentials_message}
use camouflare.Proxy.Outcomes.{>>=-returned, read-returned, take_exactly-append}

-- The byte before a string, which says how many bytes it has.
is_byte : ℕ → Bool
is_byte n = leb n 255

read_password : List ℕ → Talk (List ℕ × List ℕ)
unfolding is_byte
read_password username = do
  m ← read take_one
  raise_unless (is_byte m) credentials_too_long
  password ← read (take_exactly m)
  pure (username, password)

-- The server's side: the version 1, and two strings after the bytes of their lengths.
pub read_credentials : Talk (List ℕ × List ℕ)
unfolding read_password is_byte
read_credentials = do
  (version, n) ← read take_two
  raise_unless ((version == 1) && is_byte n) unsupported_version
  username ← read (take_exactly n)
  read_password username

raise_unless-returned :
    (b : Bool) (e : SocksError) (w : Wire) → b ≡ true → raise_unless b e w ≡ (returned tt, w)
raise_unless-returned true e w h = refl
raise_unless-returned false e w h = absurd (ground (arith, h))

read_password-append :
    (username password rest : List ℕ) (w : Wire)
    → length password ≤ 255
    → w.unread ≡ length password ∷ password ++ rest
    → read_password username w ≡ (returned (username, password), record w { unread = rest })
unfolding read_password is_byte
read_password-append username password rest w short h =
    >>=-returned (read take_one) _ w (read-returned take_one w (ap take_one h))
    ∙ (>>=-returned (raise_unless (leb (length password) 255) credentials_too_long) _ _
          (raise_unless-returned _ credentials_too_long _ (ground (arith, short)))
        ∙ >>=-returned (read (take_exactly (length password))) _ _ (
            read-returned (take_exactly (length password)) _
              (take_exactly-append (length password) password rest refl)))

read_credentials-append :
    (username password rest : List ℕ) (w : Wire)
    → length username ≤ 255
    → length password ≤ 255
    → w.unread ≡ 1 ∷ length username ∷ username ++ (length password ∷ password ++ rest)
    → read_credentials w ≡ (returned (username, password), record w { unread = rest })
unfolding read_credentials is_byte
read_credentials-append username password rest w short short' h =
    let more = length password ∷ password ++ rest in
    >>=-returned (read take_two) _ w (read-returned take_two w (ap take_two h))
    ∙ (>>=-returned (raise_unless (leb (length username) 255) unsupported_version) _ _
          (raise_unless-returned _ unsupported_version _ (ground (arith, short)))
        ∙ (>>=-returned (read (take_exactly (length username))) _ _ (
              read-returned (take_exactly (length username)) _
                (take_exactly-append (length username) username more refl))
            ∙ read_password-append username password rest (record w { unread = more }) short' refl))

-- From the credentials message of a username and a password of at most 255 bytes each, which is what
-- `_authenticate_upstream` demands before it sends one, and any bytes behind it, a server that reads
-- by RFC 1929 (which refuses another version than 1, or a length that is no byte) gets the username
-- and the password of the proxy, and those bytes are left.
pub read_credentials-credentials_message :
    (proxy : UpstreamProxy) (rest : List ℕ) (w : Wire)
    → length proxy.username ≤ 255
    → length proxy.password ≤ 255
    → read_credentials (record w { unread = credentials_message proxy ++ rest })
      ≡ (returned (proxy.username, proxy.password), record w { unread = rest })
read_credentials-credentials_message proxy rest w short short' =
    read_credentials-append proxy.username proxy.password rest
      (record w { unread = credentials_message proxy ++ rest }) short short'
      (ap (λ u. 1 ∷ length proxy.username ∷ u)
        (append_assoc proxy.username (length proxy.password ∷ proxy.password) rest))
