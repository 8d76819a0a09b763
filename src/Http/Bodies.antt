-- ===== src/Http/Bodies.antt =====
-- Response bodies in src/camouflare/http_transport.py: `_limited_body_chunks`,
-- `_decoded_body_chunks`, `_decode_body`, `_content_decoders`, `_reject_declared_oversize` and
-- `_read_response_body`, without the tests of the deadline.
use camouflare.Prelude.{
  ◌==◌, ltb, length, if◌then◌else◌, ℕ, zero, suc, ◌+◌, ◌-◌, Bool, true, false, not, ◌&&◌, ◌||◌,
  List, [], ◌∷◌, ◌++◌, Option, none, some,
}

-- How a generator of chunks ends: by itself, with one of the errors, or with `_BodyPrefixComplete`.
pub data End : Type 0 where
  finished too_large malformed truncated prefix_complete : End

-- What a generator yields, and how it ends.
abbrev pub Stream : Type 0
Stream = List (List ℕ) × End

abbrev pub take : ℕ → List ℕ → List ℕ
take zero xs = []
take (suc n) [] = []
take (suc n) (x ∷ xs) = x ∷ take n xs

abbrev pub yield_first : List ℕ → Stream → Stream
yield_first chunk (chunks, e) = (chunk ∷ chunks, e)

-- `_limited_body_chunks`, with `maximum_bytes - received` for its two counters.
unfoldable pub limited_chunks : Bool → ℕ → List (List ℕ) → End → Stream
limited_chunks prefix_only available [] e = ([], e)
limited_chunks prefix_only available (chunk ∷ chunks) e =
    let rest = limited_chunks prefix_only (available - length chunk) chunks e in
    if ltb available (length chunk)
    then (if not prefix_only
        then ([], too_large)
        else if available == 0
        then ([], prefix_complete)
        else (take available chunk ∷ [], prefix_complete))
    else yield_first chunk rest

-- An object with `decompress` and `finish`: `feed` is the loop of `decompress` calls for one chunk,
-- which fails on malformed data; `is_complete` is false where `finish` raises.
pub record Decoder : Type 1 where
  pub State : Type 0
  pub start : State
  pub feed : State → List ℕ → Option (List (List ℕ) × State)
  pub is_complete : State → Bool

abbrev pub at_end : Bool → End → End
at_end complete finished = if complete then finished else truncated
at_end complete e = e

abbrev pub yield_all : List (List ℕ) → Stream → Stream
yield_all outputs (chunks, e) = (outputs ++ chunks, e)

module _ (d : Decoder) where
  -- `_decoded_body_chunks`
  unfoldable pub decoded_chunks : d.State → List (List ℕ) → End → Stream
  decoded_chunks s [] e = ([], at_end (d.is_complete s) e)
  decoded_chunks s (chunk ∷ chunks) e = elim (d.feed s chunk) [
    | none ↦ ([], malformed)
    | some (outputs, s') ↦ yield_all outputs (decoded_chunks s' chunks e)
  ]

-- The loop of `_decode_body` over the decoders.
unfoldable pub decoded_layers : Bool → ℕ → List Decoder → Stream → Stream
unfolding limited_chunks decoded_chunks
decoded_layers prefix_only maximum [] stream = stream
decoded_layers prefix_only maximum (d ∷ decoders) (chunks, e) =
    let (outputs, e') = decoded_chunks d d.start chunks e in
    decoded_layers prefix_only maximum decoders (limited_chunks prefix_only maximum outputs e')

pub data BodyError : Type 0 where
  over_limit malformed_coding truncated_coding unsupported_coding too_many_codings : BodyError
  connection_lost : BodyError

pub data Result {ℓ} (A : Type ℓ) : Type ℓ where
  ok : A → Result A
  err : BodyError → Result A

abbrev pub concat : List (List ℕ) → List ℕ
concat [] = []
concat (chunk ∷ chunks) = chunk ++ concat chunks

-- `b"".join(parts)`, or the error that ended the stream.
abbrev pub joined : Stream → Result (List ℕ)
joined (chunks, finished) = ok (concat chunks)
joined (chunks, prefix_complete) = ok (concat chunks)
joined (chunks, too_large) = err over_limit
joined (chunks, malformed) = err malformed_coding
joined (chunks, truncated) = err truncated_coding

unfoldable pub decode_body : Bool → ℕ → List Decoder → List (List ℕ) → Result (List ℕ)
unfolding limited_chunks decoded_layers
decode_body prefix_only maximum decoders wire =
    joined (
      decoded_layers prefix_only maximum decoders
        (limited_chunks prefix_only maximum wire finished))

-- The loop of `_read_response_body`: it skips empty chunks and stops behind the limit.
unfoldable pub read_chunks : ℕ → ℕ → List (List ℕ) → List (List ℕ)
read_chunks maximum received [] = []
read_chunks maximum received (chunk ∷ chunks) =
    let received' = received + length chunk in
    let rest = read_chunks maximum received' chunks in
    if length chunk == 0 then rest else if ltb maximum received' then chunk ∷ [] else chunk ∷ rest

pub data Coding : Type 0 where
  gzip deflate other : Coding

pub data BodyMode : Type 0 where
  full prefix none_of_it : BodyMode

pub data Method : Type 0 where
  get head : Method

-- A response: its status, its declared length if that is a number, its content codings in the order
-- in which they were applied, and the chunks that arrive, behind which the connection may be broken.
pub record Response : Type 0 where
  pub status : ℕ
  pub content_length : Option ℕ
  pub codings : List Coding
  pub chunks : List (List ℕ)
  pub is_broken : Bool

-- What the two decoder classes make.
pub record Decoders : Type 1 where
  pub gzip_decoder : Decoder
  pub deflate_decoder : Decoder

abbrev pub one_more {ℓ} : {A : Type ℓ} → Result (List A) → A → Result (List A)
one_more (ok ds) d = ok (ds ++ (d ∷ []))
one_more (err e) d = err e

-- The loop of `_content_decoders`, over the reversed list: the first coding comes off last.
unfoldable pub make_decoders : Decoders → List Coding → Result (List Decoder)
make_decoders made [] = ok []
make_decoders made (gzip ∷ codings) = one_more (make_decoders made codings) made.gzip_decoder
make_decoders made (deflate ∷ codings) = one_more (make_decoders made codings) made.deflate_decoder
make_decoders made (other ∷ codings) = err unsupported_coding

unfoldable pub content_decoders : Decoders → List Coding → Result (List Decoder)
unfolding make_decoders
content_decoders made codings =
    if ltb 4 (length codings) then err too_many_codings else make_decoders made codings

abbrev pub is_prefix : BodyMode → Bool
is_prefix prefix = true
is_prefix _ = false

-- `_reject_declared_oversize`
abbrev pub is_declared_oversize : Option ℕ → ℕ → Bool
is_declared_oversize none maximum = false
is_declared_oversize (some n) maximum = ltb maximum n

abbrev pub has_no_body : Method → BodyMode → ℕ → Bool
has_no_body head mode status = true
has_no_body get none_of_it status = true
has_no_body get _ status = (status == 204) || (status == 304)

abbrev pub is_decoded : List Decoder → Bool
is_decoded [] = false
is_decoded (d ∷ ds) = true

abbrev pub with_flag : Result (List ℕ) → Bool → Result (List ℕ × Bool)
with_flag (ok body) decoded = ok (body, decoded)
with_flag (err e) decoded = err e

-- The loop of `_read_response_body` reads on to the break.
abbrev pub meets_break : ℕ → Response → Bool
meets_break maximum r = r.is_broken && not (ltb maximum (length (concat r.chunks)))

unfoldable pub read_decoded :
    BodyMode → ℕ → Response → Result (List Decoder) → Result (List ℕ × Bool)
unfolding decode_body read_chunks
read_decoded mode maximum r (err e) = err e
read_decoded mode maximum r (ok decoders) =
    if not (is_prefix mode) && is_declared_oversize r.content_length maximum
    then err over_limit
    else if meets_break maximum r
    then err connection_lost
    else with_flag (decode_body (is_prefix mode) maximum decoders (read_chunks maximum 0 r.chunks))
        (is_decoded decoders)

unfoldable pub read_response_body :
    Decoders → Method → BodyMode → ℕ → Response → Result (List ℕ × Bool)
unfolding content_decoders read_decoded
read_response_body made method mode maximum r =
    if has_no_body method mode r.status
    then ok ([], false)
    else read_decoded mode maximum r (content_decoders made r.codings)
