-- ===== src/Http/Chunking.antt =====
-- How a body without content codings is cut into chunks does not matter to
-- src/camouflare/http_transport.py.
use camouflare.Prelude.{
  append-nil, ◌==◌, ltb, leb, length, length-append, if◌then◌else◌, ℕ, zero, suc, ◌+◌, ◌-◌, ◌≤◌,
  ◌<◌, Bool, true, not, List, [], ◌∷◌, ◌++◌, ◌≡◌, refl, sym, ap, ◌∙◌, arith, if-holds,
}
use camouflare.Http.Bodies.{
  read_chunks, decode_body, decoded_layers, finished, too_large, malformed, truncated,
  prefix_complete, Stream, take, yield_first, limited_chunks, Result, ok, err, over_limit, concat,
  joined,
}

-- What is to become of a body of which `available` bytes are allowed.
pub allowed : Bool → ℕ → List ℕ → Result (List ℕ)
allowed prefix_only available body =
    if leb (length body) available
    then ok body
    else if prefix_only
    then ok (take available body)
    else err over_limit

take-append : (n : ℕ) (xs ys : List ℕ) → n < length xs → take n (xs ++ ys) ≡ take n xs
take-append zero xs ys h = refl
take-append (suc n) [] ys h = absurd (omega (arith, h))
take-append (suc n) (x ∷ xs) ys h = ap (λ u. x ∷ u) (take-append n xs ys (omega (arith, h)))

take-append_past :
    (n m : ℕ) (xs ys : List ℕ) → length xs + m ≡ n → take n (xs ++ ys) ≡ xs ++ take m ys
take-append_past n m [] ys h = ap (λ k. take k ys) (omega (arith, h))
take-append_past zero m (x ∷ xs) ys h = absurd (omega (arith, h))
take-append_past (suc n) m (x ∷ xs) ys h =
    ap (λ u. x ∷ u) (take-append_past n m xs ys (omega (arith, h)))

-- A result with the bytes of a chunk before it.
before : List ℕ → Result (List ℕ) → Result (List ℕ)
before chunk (ok body) = ok (chunk ++ body)
before chunk (err e) = err e

joined-yield_first :
    (chunk : List ℕ) (s : Stream) → joined (yield_first chunk s) ≡ before chunk (joined s)
unfolding before
joined-yield_first chunk (chunks, finished) = refl
joined-yield_first chunk (chunks, prefix_complete) = refl
joined-yield_first chunk (chunks, too_large) = refl
joined-yield_first chunk (chunks, malformed) = refl
joined-yield_first chunk (chunks, truncated) = refl

-- The first chunk fits.
allowed-append :
    (p : Bool) (n : ℕ) (chunk body : List ℕ)
    → length chunk ≤ n
    → allowed p n (chunk ++ body) ≡ before chunk (allowed p (n - length chunk) body)
unfolding allowed before
allowed-append p n chunk body h = ground (
  arith,
  h,
  length-append chunk body,
  take-append_past n (n - length chunk) chunk body (omega (arith, h)),
)

-- The first chunk is longer than what is allowed.
allowed-append_over :
    (p : Bool) (n : ℕ) (chunk body : List ℕ)
    → n < length chunk
    → allowed p n (chunk ++ body) ≡ (if p then ok (take n chunk) else err over_limit)
unfolding allowed
allowed-append_over p n chunk body h =
    ground (arith, h, length-append chunk body, take-append n chunk body h)

joined-limited_chunks-over :
    (p : Bool) (n : ℕ) (chunk : List ℕ) (chunks : List (List ℕ))
    → n < length chunk
    → joined (limited_chunks p n (chunk ∷ chunks) finished)
      ≡ (if p then ok (take n chunk) else err over_limit)
unfolding limited_chunks
joined-limited_chunks-over p n chunk chunks h =
    if-holds Cut (ltb n (length chunk)) _ _
      (λ _.
        if-holds Cut (not p) _ _ (λ full. ground (arith, full))
          (λ part.
            if-holds Cut (n == 0) _ _ (λ none_left. ground (arith, part, none_left))
              (λ _. ground (arith, part, append-nil (take n chunk)))))
      (λ fits. absurd (ground (arith, fits, h)))
  where
    Cut : Stream → Type 0
    Cut s = joined s ≡ (if p then ok (take n chunk) else err over_limit)

joined-limited_chunks-fits :
    (p : Bool) (n : ℕ) (chunk : List ℕ) (chunks : List (List ℕ))
    → length chunk ≤ n
    → joined (limited_chunks p n (chunk ∷ chunks) finished)
      ≡ before chunk (joined (limited_chunks p (n - length chunk) chunks finished))
unfolding limited_chunks
joined-limited_chunks-fits p n chunk chunks h =
    if-holds
      (λ (s : Stream).
        joined s ≡ before chunk (joined (limited_chunks p (n - length chunk) chunks finished)))
      (ltb n (length chunk)) _ _ (λ over. absurd (ground (arith, over, h)))
      (λ _. joined-yield_first chunk (limited_chunks p (n - length chunk) chunks finished))

joined-nothing : (p : Bool) (n : ℕ) → joined (limited_chunks p n [] finished) ≡ allowed p n []
unfolding limited_chunks allowed
joined-nothing p n = ground arith

length-nothing : (xs : List ℕ) → (length xs == 0) ≡ true → xs ≡ []
length-nothing [] h = refl
length-nothing (x ∷ xs) h = absurd (ground (arith, h))

-- The two loops together, from any count of bytes within the limit.
joined-read_chunks :
    (p : Bool) (maximum received n : ℕ) (chunks : List (List ℕ))
    → received + n ≡ maximum
    → joined (limited_chunks p n (read_chunks maximum received chunks) finished)
      ≡ allowed p n (concat chunks)
unfolding read_chunks
joined-read_chunks p maximum received n [] h = joined-nothing p n
joined-read_chunks p maximum received n (chunk ∷ chunks) h =
    let received' = received + length chunk in
    if-holds Read (length chunk == 0) _ _
      (λ empty.
        let nothing = length-nothing chunk empty in
        joined-read_chunks p maximum received' n chunks (omega (arith, h, ap length nothing))
        ∙ ap (λ c. allowed p n (c ++ concat chunks)) (sym nothing))
      (λ _.
        if-holds Read (ltb maximum received') _ _
          (λ over.
            let longer : n < length chunk = ground (arith, over, h) in
            joined-limited_chunks-over p n chunk [] longer
            ∙ sym (allowed-append_over p n chunk (concat chunks) longer))
          (λ fits.
            let shorter : length chunk ≤ n = ground (arith, fits, h) in
            joined-limited_chunks-fits p n chunk (read_chunks maximum received' chunks) shorter
            ∙ (ap (before chunk) (
                  joined-read_chunks p maximum received' (n - length chunk) chunks
                    (omega (arith, h, shorter)))
                ∙ sym (allowed-append p n chunk (concat chunks) shorter))))
  where
    Read : List (List ℕ) → Type 0
    Read cs = joined (limited_chunks p n cs finished) ≡ allowed p n (concat (chunk ∷ chunks))

-- The body that is read without content codings is what `allowed` makes of all the bytes that
-- arrive, however they are cut into chunks.
pub decode_body-read_chunks :
    (p : Bool) (maximum : ℕ) (chunks : List (List ℕ))
    → decode_body p maximum [] (read_chunks maximum 0 chunks) ≡ allowed p maximum (concat chunks)
unfolding decode_body decoded_layers
decode_body-read_chunks p maximum chunks =
    joined-read_chunks p maximum 0 maximum chunks (omega arith)
