-- ===== src/Http/Delivery.antt =====
-- `HttpTransport.fetch` of src/camouflare/http_transport.py between its `_acquire` and its `_release`:
-- the body of the last response, and what becomes of errors.
use camouflare.Prelude.{Bool, false, List, [], ◌∷◌, Option, none, some, not, ℕ}
use camouflare.Http.Urls.{Text}
use camouflare.Http.Bodies.{
  BodyError, over_limit, malformed_coding, truncated_coding, unsupported_coding, too_many_codings,
  connection_lost, Result, ok, err, Decoders, read_response_body,
}
use camouflare.Http.Failures.{
  PublicError, public, invalid_request, response_decode_error, Failure, timeout,
  classify_transport_error,
}
use camouflare.Http.Fetch.{
  FetchRequest, Hop, HopResponse, Surroundings, FetchError, invalid_url, not_https, private_target,
  unsupported_proxy, timed_out, transport_failed, out_of_fuel, Fetched, fetched, failed,
}
use camouflare.Http.Redirects.{is_direct, fetch}

-- `HttpResult`: its URL, response, body and `content_decoded`; or an error: a `CamouflareError`,
-- `ResourceLimitError`, or an exception that is raised as it is. The fuel never ends in the source.
pub data FetchResult : Type 0 where
  delivered : Text → HopResponse → List ℕ → Bool → FetchResult
  refused : PublicError → FetchResult
  resource_limit unexpected stuck : FetchResult

-- `raise classified from exc`
abbrev pub raised : Option PublicError → FetchResult
raised none = unexpected
raised (some e) = refused e

-- `TimeoutError`
abbrev pub deadline_passed : Failure
deadline_passed = record { kind = timeout; message = [] }

-- `bool(hops) and hops[-1].proxy_tunnel_open`
abbrev pub is_tunnel_open : Surroundings → List Hop → Bool
is_tunnel_open s [] = false
is_tunnel_open s (hop ∷ hops) = s.proxy_tunnel_open (hop ∷ hops)

module _ (s : Surroundings) (request : FetchRequest) where
  unfoldable pub classified : List Hop → Failure → FetchResult
  unfolding classify_transport_error
  classified hops f =
      raised (classify_transport_error f (not (is_direct request.proxy)) (is_tunnel_open s hops))

  -- The errors that `_fetch` raises before a response is there to be read.
  unfoldable pub fetch_failed : List Hop → FetchError → FetchResult
  unfolding classified
  fetch_failed hops timed_out = classified hops deadline_passed
  fetch_failed hops transport_failed = classified hops (s.failure hops)
  fetch_failed hops out_of_fuel = stuck
  fetch_failed hops invalid_url = refused (public invalid_request false)
  fetch_failed hops not_https = refused (public invalid_request false)
  fetch_failed hops private_target = refused (public invalid_request false)
  fetch_failed hops unsupported_proxy = refused (public invalid_request false)

  -- The errors of `_read_response_body`.
  unfoldable pub body_failed : List Hop → BodyError → FetchResult
  unfolding classified
  body_failed hops over_limit = resource_limit
  body_failed hops connection_lost = classified hops (s.failure hops)
  body_failed hops malformed_coding = refused (public response_decode_error false)
  body_failed hops truncated_coding = refused (public response_decode_error false)
  body_failed hops unsupported_coding = refused (public response_decode_error false)
  body_failed hops too_many_codings = refused (public response_decode_error false)

  unfoldable pub deliver : List Hop → Text → HopResponse → Result (List ℕ × Bool) → FetchResult
  unfolding body_failed
  deliver hops url r (ok (body, decoded)) = delivered url r body decoded
  deliver hops url r (err e) = body_failed hops e

  unfoldable pub settle : Decoders → Fetched × List Hop → FetchResult
  unfolding fetch_failed deliver read_response_body
  settle made (failed e, hops) = fetch_failed hops e
  settle made (fetched url r, hops) =
      deliver hops url r
        (read_response_body made request.method request.body request.max_body_bytes r.response)

  unfoldable pub fetch_result : Decoders → FetchResult
  unfolding settle fetch
  fetch_result made = settle made (fetch s request)
