-- ===== src/Proxy/Wire.antt =====
-- One end of a TCP stream as src/camouflare/proxy.py uses it: `StreamReader.readexactly`,
-- `StreamWriter.write` and `drain`, and exceptions.
use camouflare.Prelude.{ℕ, zero, suc, Bool, true, false, List, [], ◌∷◌, ◌++◌, Option, none, some}

pub data SocksError : Type 0 where
  incomplete_read connection_lost unsupported_version no_auth_not_offered not_connect : SocksError
  unsupported_address_type domain_too_long not_an_address port_out_of_range : SocksError
  missing_endpoint credentials_too_long auth_not_accepted auth_failed connect_failed : SocksError

-- `unread` is what the peer still sends before it ends the stream, `sent` what was written to it.
-- The peer takes `drains` more writes; at the next `drain` the
-- connection is lost. `closing` is `is_closing()`.
pub record Wire : Type 0 where
  pub unread : List ℕ
  pub sent : List ℕ
  pub drains : ℕ
  pub closing : Bool

pub data Outcome (A : Type 0) : Type 0 where
  returned : A → Outcome A
  raised : SocksError → Outcome A

-- What was written before an exception stays written.
abbrev pub Talk : Type 0 → Type 0
Talk A = Wire → Outcome A × Wire

abbrev pub pure : {A : Type 0} → A → Talk A
pure a w = (returned a, w)

abbrev pub raise : {A : Type 0} → SocksError → Talk A
raise e w = (raised e, w)

-- `if not b: raise e`
abbrev pub raise_unless : Bool → SocksError → Talk (Unit {0})
raise_unless true e w = (returned tt, w)
raise_unless false e w = (raised e, w)

abbrev pub resume : {A B : Type 0} → Outcome A → (A → Talk B) → Talk B
resume (returned a) f w = f a w
resume (raised e) f w = (raised e, w)

infixl 5 ◌>>=◌ ◌>>◌
unfoldable pub ◌>>=◌ : {A B : Type 0} → Talk A → (A → Talk B) → Talk B
◌>>=◌ m f w = let (r, w') = m w in resume r f w'

abbrev pub ◌>>◌ : {B : Type 0} → Talk (Unit {0}) → Talk B → Talk B
m >> n = m >>= λ _. n

abbrev pub take_one : List ℕ → Option (ℕ × List ℕ)
take_one [] = none
take_one (a ∷ rest) = some (a, rest)

abbrev pub take_two : List ℕ → Option ((ℕ × ℕ) × List ℕ)
take_two (a ∷ b ∷ rest) = some ((a, b), rest)
take_two _ = none

abbrev pub take_four : List ℕ → Option ((ℕ × ℕ × ℕ × ℕ) × List ℕ)
take_four (a ∷ b ∷ c ∷ d ∷ rest) = some ((a, b, c, d), rest)
take_four _ = none

abbrev pub put_front : ℕ → Option (List ℕ × List ℕ) → Option (List ℕ × List ℕ)
put_front x none = none
put_front x (some (taken, rest)) = some (x ∷ taken, rest)

unfoldable pub take_exactly : ℕ → List ℕ → Option (List ℕ × List ℕ)
take_exactly zero xs = some ([], xs)
take_exactly (suc n) [] = none
take_exactly (suc n) (x ∷ xs) = put_front x (take_exactly n xs)

abbrev pub deliver : {A : Type 0} → Option (A × List ℕ) → Talk A
deliver none w = (raised incomplete_read, record w { unread = [] })
deliver (some (a, rest)) w = (returned a, record w { unread = rest })

-- `await reader.readexactly(n)`, with the shape in which its bytes are bound.
unfoldable pub read : {A : Type 0} → (List ℕ → Option (A × List ℕ)) → Talk A
read take w = deliver (take w.unread) w

-- `writer.write(bytes)`
unfoldable pub write : List ℕ → Talk (Unit {0})
write bytes w = (returned tt, record w { sent = w.sent ++ bytes })

abbrev pub drained : ℕ → Talk (Unit {0})
drained zero w = (raised connection_lost, record w { closing = true })
drained (suc n) w = (returned tt, record w { drains = n })

-- `await writer.drain()`
unfoldable pub drain : Talk (Unit {0})
drain w = drained w.drains w
