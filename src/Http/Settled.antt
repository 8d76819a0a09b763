-- ===== src/Http/Settled.antt =====
-- What a whole fetch of src/camouflare/http_transport.py comes to.
use camouflare.Prelude.{
  subst, length, Bool, true, false, not, ◌&&◌, ℕ, ◌≤◌, List, Option, none, some, ◌≡◌, refl, ◌⊎◌,
  inl, inr, arith,
}
use camouflare.Http.Urls.{Text, clean_url}
use camouflare.Http.Bodies.{
  BodyError, over_limit, malformed_coding, truncated_coding, unsupported_coding, too_many_codings,
  connection_lost, Result, ok, err, Decoders, read_response_body,
}
use camouflare.Http.Limits.{read_response_body-le}
use camouflare.Http.Failures.{
  timeout, response_decode_error, invalid_request, public, PublicError, Failure, unknown,
}
use camouflare.Http.Blame.{IsFair, FairFor, classify_transport_error-IsFair}
use camouflare.Http.Fetch.{
  FetchRequest, Hop, HopResponse, Surroundings, FetchError, invalid_url, not_https, private_target,
  unsupported_proxy, timed_out, transport_failed, out_of_fuel, Fetched, fetched, failed,
}
use camouflare.Http.Redirects.{is_direct, fetch}
use camouflare.Http.Bounded.{has_ended, IsBounded, fetch-IsBounded}
use camouflare.Http.Responses.{IsAnswer, fetch-IsAnswer}
use camouflare.Http.Delivery.{
  FetchResult, delivered, refused, resource_limit, unexpected, stuck, raised, deadline_passed,
  is_tunnel_open, classified, fetch_failed, body_failed, deliver, settle, fetch_result,
}

module _ (s : Surroundings) (request : FetchRequest) (made : Decoders) where
  -- The last hop of a fetch through a proxy had not been connected to the target.
  abbrev pub is_before_target : List Hop → Bool
  is_before_target hops = not (is_direct request.proxy) && not (is_tunnel_open s hops)

  abbrev body_of : HopResponse → Result (List ℕ × Bool)
  body_of r = read_response_body made request.method request.body request.max_body_bytes r.response

  -- The URL, the scheme, the target or the proxy was not accepted.
  abbrev IsRejected : Fetched → Type 0
  IsRejected (failed invalid_url) = Unit
  IsRejected (failed not_https) = Unit
  IsRejected (failed private_target) = Unit
  IsRejected (failed unsupported_proxy) = Unit
  IsRejected _ = ⊥

  abbrev IsCodingError : BodyError → Type 0
  IsCodingError over_limit = ⊥
  IsCodingError connection_lost = ⊥
  IsCodingError _ = Unit

  -- There is a response, and its body did not decode.
  abbrev IsUndecoded : Fetched → Type 0
  IsUndecoded (failed e) = ⊥
  IsUndecoded (fetched url r) = (x : BodyError) × (body_of r ≡ err x) × IsCodingError x

  abbrev IsTooLong : Fetched → Type 0
  IsTooLong (failed e) = ⊥
  IsTooLong (fetched url r) = body_of r ≡ err over_limit

  -- An exception of the transport ended a hop, or the body after it.
  abbrev IsLost : Fetched → Type 0
  IsLost (failed transport_failed) = Unit
  IsLost (failed _) = ⊥
  IsLost (fetched url r) = body_of r ≡ err connection_lost

  -- What is classified: the end of the time, or the exception of the last hop.
  abbrev IsCause : Fetched × List Hop → Failure → Type 0
  IsCause (o, hops) f =
      ((o ≡ failed timed_out) × (f ≡ deadline_passed)) ⊎ (IsLost o × (f ≡ s.failure hops))

  -- What is delivered is the answer to the last hop, with the body that its response holds, within
  -- the limit. An error is that of a request that was not accepted, of a body that did not decode or
  -- was too long, or the fair one for what ended the fetch; an exception stays unexplained only if its
  -- class is unknown.
  abbrev pub IsSettled : Fetched × List Hop → FetchResult → Type 0
  IsSettled (o, hops) (delivered url r body decoded) =
      IsAnswer s request (clean_url s.library request.url) (fetched url r, hops)
      × (o ≡ fetched url r)
      × (body_of r ≡ ok (body, decoded))
      × (length body ≤ request.max_body_bytes)
  IsSettled (o, hops) (refused e) =
      ((e ≡ public invalid_request false) × IsRejected o)
      ⊎ (((e ≡ public response_decode_error false) × IsUndecoded o)
          ⊎ ((f : Failure) × IsCause (o, hops) f
              × IsFair f.kind f.message (is_before_target hops) e))
  IsSettled (o, hops) resource_limit = IsTooLong o
  IsSettled (o, hops) unexpected = IsLost o × ((s.failure hops).kind ≡ unknown)
  IsSettled (o, hops) stuck = ⊥

  raised-IsSettled :
      (o : Fetched) (hops : List Hop) (f : Failure) (e : Option PublicError)
      → IsCause (o, hops) f
      → FairFor f.kind f.message (is_before_target hops) e
      → IsSettled (o, hops) (raised e)
  raised-IsSettled o hops f none (inl (_, same)) h =
      let late : timeout ≡ unknown = subst (λ (g : Failure). g.kind ≡ unknown) same h in
      absurd (ground (arith, late))
  raised-IsSettled o hops f none (inr (lost, same)) h =
      (lost, subst (λ (g : Failure). g.kind ≡ unknown) same h)
  raised-IsSettled o hops f (some x) cause (h, k) = inr (inr (f, cause, h))

  classified-IsSettled :
      (o : Fetched) (hops : List Hop) (f : Failure)
      → IsCause (o, hops) f
      → IsSettled (o, hops) (classified s request hops f)
  unfolding classified
  classified-IsSettled o hops f cause =
      raised-IsSettled o hops f _ cause
        (classify_transport_error-IsFair f (not (is_direct request.proxy)) (is_tunnel_open s hops))

  fetch_failed-IsSettled :
      (hops : List Hop) (e : FetchError)
      → has_ended (failed e) ≡ true
      → IsSettled (failed e, hops) (fetch_failed s request hops e)
  unfolding fetch_failed
  fetch_failed-IsSettled hops timed_out h =
      classified-IsSettled (failed timed_out) hops deadline_passed (inl (refl, refl))
  fetch_failed-IsSettled hops transport_failed h =
      classified-IsSettled (failed transport_failed) hops (s.failure hops) (inr (tt, refl))
  fetch_failed-IsSettled hops out_of_fuel h = absurd (ground (arith, h))
  fetch_failed-IsSettled hops invalid_url h = inl (refl, tt)
  fetch_failed-IsSettled hops not_https h = inl (refl, tt)
  fetch_failed-IsSettled hops private_target h = inl (refl, tt)
  fetch_failed-IsSettled hops unsupported_proxy h = inl (refl, tt)

  body_failed-IsSettled :
      (hops : List Hop) (url : Text) (r : HopResponse) (e : BodyError)
      → body_of r ≡ err e
      → IsSettled (fetched url r, hops) (body_failed s request hops e)
  unfolding body_failed
  body_failed-IsSettled hops url r over_limit h = h
  body_failed-IsSettled hops url r connection_lost h =
      classified-IsSettled (fetched url r) hops (s.failure hops) (inr (h, refl))
  body_failed-IsSettled hops url r malformed_coding h = inr (inl (refl, (malformed_coding, h, tt)))
  body_failed-IsSettled hops url r truncated_coding h = inr (inl (refl, (truncated_coding, h, tt)))
  body_failed-IsSettled hops url r unsupported_coding h =
      inr (inl (refl, (unsupported_coding, h, tt)))
  body_failed-IsSettled hops url r too_many_codings h = inr (inl (refl, (too_many_codings, h, tt)))

  deliver-IsSettled :
      (hops : List Hop) (url : Text) (r : HopResponse) (o : Result (List ℕ × Bool))
      → body_of r ≡ o
      → IsAnswer s request (clean_url s.library request.url) (fetched url r, hops)
      → IsSettled (fetched url r, hops) (deliver s request hops url r o)
  unfolding deliver
  deliver-IsSettled hops url r (ok (body, decoded)) e a = (
    a,
    refl,
    e,
    read_response_body-le made request.method request.body request.max_body_bytes r.response body
        decoded e,
  )
  deliver-IsSettled hops url r (err x) e a = body_failed-IsSettled hops url r x e

  settle-IsSettled :
      (r : Fetched × List Hop)
      → IsAnswer s request (clean_url s.library request.url) r
      → IsBounded request r
      → IsSettled r (settle s request made r)
  unfolding settle
  settle-IsSettled (fetched url r, hops) a b = deliver-IsSettled hops url r _ refl a
  settle-IsSettled (failed e, hops) a b = fetch_failed-IsSettled hops e b.0

  -- A fetch that has its slot always comes to an end. It delivers the answer to its last hop, with the
  -- body that was read from it, which is not longer than the request allows; or it fails. Then the
  -- error is `invalid_request` for a URL, scheme, target or proxy that was not accepted;
  -- `response_decode_error` for a body that does not decode; that of the resource limit for a body
  -- that is too long; or else the fair one, by the rules of the classification, for the end of the time
  -- or for the transport's exception. That is raised as it is only if its class is unknown.
  pub fetch_result-IsSettled : IsSettled (fetch s request) (fetch_result s request made)
  unfolding fetch_result
  fetch_result-IsSettled =
      settle-IsSettled (fetch s request) (fetch-IsAnswer s request) (fetch-IsBounded s request)
