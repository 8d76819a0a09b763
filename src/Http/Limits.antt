-- ===== src/Http/Limits.antt =====
-- No body of src/camouflare/http_transport.py is longer than its limit, whatever the decoders yield.
use camouflare.Prelude.{
  not, ◌&&◌, ◌==◌, ltb, length, length-append, ℕ, zero, suc, ◌-◌, ◌≤◌, Bool, List, [], ◌∷◌, ◌≡◌,
  refl, arith, if-holds, subst,
}
use camouflare.Http.Bodies.{
  connection_lost, meets_break, over_limit, is_declared_oversize, End, finished, too_large,
  malformed, truncated, prefix_complete, Stream, take, limited_chunks, Decoder, decoded_chunks,
  decoded_layers, Result, ok, err, concat, joined, decode_body, read_chunks, Decoders, Method,
  BodyMode, Response, read_decoded, read_response_body, content_decoders, is_decoded, is_prefix,
  with_flag, has_no_body,
}

pub length-take-le : (n : ℕ) (xs : List ℕ) → length (take n xs) ≤ n
length-take-le zero xs = omega arith
length-take-le (suc n) [] = omega arith
length-take-le (suc n) (x ∷ xs) = omega (arith, length-take-le n xs)

abbrev pub IsWithin : ℕ → Stream → Type 0
IsWithin n s = length (concat s.0) ≤ n

limited_chunks-IsWithin :
    (p : Bool) (n : ℕ) (chunks : List (List ℕ)) (e : End) → IsWithin n (limited_chunks p n chunks e)
unfolding limited_chunks
limited_chunks-IsWithin p n [] e = omega arith
limited_chunks-IsWithin p n (chunk ∷ chunks) e =
    if-holds (IsWithin n) (ltb n (length chunk)) _ _
      (λ _.
        if-holds (IsWithin n) (not p) _ _ (λ _. omega arith)
          (λ _.
            if-holds (IsWithin n) (n == 0) _ _ (λ _. omega arith)
              (λ _. omega (arith, length-append (take n chunk) [], length-take-le n chunk))))
      (λ fits. ground (
        arith,
        fits,
        limited_chunks-IsWithin p (n - length chunk) chunks e,
        length-append chunk (concat (limited_chunks p (n - length chunk) chunks e).0),
      ))

decoded_layers-IsWithin :
    (p : Bool) (n : ℕ) (decoders : List Decoder) (s : Stream)
    → IsWithin n s
    → IsWithin n (decoded_layers p n decoders s)
unfolding decoded_layers
decoded_layers-IsWithin p n [] s h = h
decoded_layers-IsWithin p n (d ∷ decoders) (chunks, e) h =
    let (outputs, e') = decoded_chunks d d.start chunks e in
    decoded_layers-IsWithin p n decoders (limited_chunks p n outputs e')
      (limited_chunks-IsWithin p n outputs e')

joined-le :
    (n : ℕ) (s : Stream) {body : List ℕ} → IsWithin n s → joined s ≡ ok body → length body ≤ n
joined-le n (chunks, finished) h e = ground (arith, h, e)
joined-le n (chunks, prefix_complete) h e = ground (arith, h, e)
joined-le n (chunks, too_large) h e = absurd (ground (arith, e))
joined-le n (chunks, malformed) h e = absurd (ground (arith, e))
joined-le n (chunks, truncated) h e = absurd (ground (arith, e))

pub decode_body-le :
    (p : Bool) (n : ℕ) (decoders : List Decoder) (wire : List (List ℕ)) {body : List ℕ}
    → decode_body p n decoders wire ≡ ok body
    → length body ≤ n
unfolding decode_body
decode_body-le p n decoders wire =
    joined-le n (decoded_layers p n decoders (limited_chunks p n wire finished)) (
      decoded_layers-IsWithin p n decoders (limited_chunks p n wire finished)
        (limited_chunks-IsWithin p n wire finished))

with_flag-le :
    (n : ℕ) (r : Result (List ℕ)) (flag : Bool) {body : List ℕ} {decoded : Bool}
    → ((b : List ℕ) → r ≡ ok b → length b ≤ n)
    → with_flag r flag ≡ ok (body, decoded)
    → length body ≤ n
with_flag-le n (ok b) flag h e = subst (λ u. length u ≤ n) (ground (arith, e)) (h b refl)
with_flag-le n (err x) flag h e = absurd (ground (arith, e))

read_decoded-le :
    (mode : BodyMode) (n : ℕ) (r : Response) (ds : Result (List Decoder)) {body : List ℕ}
    {decoded : Bool}
    → read_decoded mode n r ds ≡ ok (body, decoded)
    → length body ≤ n
unfolding read_decoded
read_decoded-le mode n r (err x) = λ e. absurd (ground (arith, e))
read_decoded-le mode n r (ok ds) {body} {decoded} =
    if-holds (λ (u : Result (List ℕ × Bool)). u ≡ ok (body, decoded) → length body ≤ n)
      (not (is_prefix mode) && is_declared_oversize r.content_length n) (err over_limit) _
      (λ _ e. absurd (ground (arith, e)))
      (λ _.
        if-holds (λ (u : Result (List ℕ × Bool)). u ≡ ok (body, decoded) → length body ≤ n)
          (meets_break n r) (err connection_lost) _ (λ _ e. absurd (ground (arith, e)))
          (λ _.
            with_flag-le n (decode_body (is_prefix mode) n ds (read_chunks n 0 r.chunks))
              (is_decoded ds)
              (λ b. decode_body-le (is_prefix mode) n ds (read_chunks n 0 r.chunks))))

-- A body that is read, in any mode and with any decoders, whatever they yield, is not longer than
-- the limit.
pub read_response_body-le :
    (made : Decoders) (method : Method) (mode : BodyMode) (maximum : ℕ) (r : Response)
    (body : List ℕ) (decoded : Bool)
    → read_response_body made method mode maximum r ≡ ok (body, decoded)
    → length body ≤ maximum
unfolding read_response_body
read_response_body-le made method mode maximum r body decoded =
    if-holds (λ (u : Result (List ℕ × Bool)). u ≡ ok (body, decoded) → length body ≤ maximum)
      (has_no_body method mode r.status) _ _ (λ _ e. ground (arith, e))
      (λ _. read_decoded-le mode maximum r (content_decoders made r.codings))
