-- ===== src/Http/Redirects.antt =====
-- The rounds of the loop of `HttpTransport._fetch` in src/camouflare/http_transport.py, on fuel of one
-- round more than the redirects that a request allows.
use camouflare.Prelude.{
  if◌then◌else◌, ℕ, zero, suc, Bool, true, false, not, ◌&&◌, List, [], ◌∷◌, ◌++◌, Option, none,
  some,
}
use camouflare.Http.Urls.{Text, Parts, clean_url, Origin, url_origin}
use camouflare.Http.Fetch.{
  FetchRequest, Hop, HopResponse, Surroundings, FetchError, invalid_url, unsupported_proxy,
  timed_out, transport_failed, out_of_fuel, Fetched, fetched, failed, is_proxy_scheme, check_target,
  next_hop, next_url,
}

-- The end of a fetch, or the URL of the next hop; with the hops that were sent.
pub data Round : Type 0 where
  ends : Fetched → List Hop → Round
  goes_on : List Hop → Text → Round

-- What a round leaves to do.
abbrev pub next_round : (List Hop → Text → Fetched × List Hop) → Round → Fetched × List Hop
next_round loop (ends outcome hops) = (outcome, hops)
next_round loop (goes_on hops url) = loop hops url

-- After `_check_target` on the URL of a redirect.
unfoldable pub followed : List Hop → Text → Option FetchError → Round
followed hops url (some e) = ends (failed e) hops
followed hops url none = goes_on hops url

module _ (s : Surroundings) (request : FetchRequest) (block_private : Bool) where
  -- After `_redirect_url`, where the response is one to follow.
  unfoldable pub redirected : List Hop → Text → HopResponse → Option Text → Round
  unfolding check_target followed
  redirected hops url r none = ends (fetched url r) hops
  redirected hops url r (some url') = followed hops url' (check_target s request block_private url')

  -- After `send`.
  unfoldable pub answered : List Hop → Text → ℕ → Option HopResponse → Round
  unfolding next_url redirected
  answered hops url redirects none = ends (failed transport_failed) hops
  answered hops url redirects (some r) = redirected hops url r (next_url s request url r redirects)

  module _ (target_origin : Origin) where
    -- After `_remaining_seconds`.
    unfoldable pub send_hop : List Hop → Text → ℕ → Bool → Round
    unfolding next_hop answered
    send_hop hops url redirects false = ends (failed timed_out) hops
    send_hop hops url redirects true =
        let hop = next_hop s request target_origin hops url in
        answered (hops ++ (hop ∷ [])) url redirects (s.answer hops hop)

    -- The loop, from the hops that were sent, the current URL and the count of redirects.
    unfoldable pub fetch_hops : ℕ → List Hop → Text → ℕ → Fetched × List Hop
    unfolding send_hop
    fetch_hops zero hops url redirects = (failed out_of_fuel, hops)
    fetch_hops (suc n) hops url redirects =
        next_round (λ hops' url'. fetch_hops n hops' url' (suc redirects))
          (send_hop hops url redirects (s.in_time hops))

  -- From a cleaned URL, its parts and the outcome of its `_check_target`.
  unfoldable pub fetch_from : Text → Option Parts → Option FetchError → Fetched × List Hop
  unfolding fetch_hops url_origin
  fetch_from url none e = (failed invalid_url, [])
  fetch_from url (some p) (some e) = (failed e, [])
  fetch_from url (some p) none = fetch_hops (url_origin p) (suc request.max_redirects) [] url 0

  unfoldable pub fetch_cleaned : Option Text → Fetched × List Hop
  unfolding fetch_from check_target
  fetch_cleaned none = (failed invalid_url, [])
  fetch_cleaned (some url) =
      fetch_from url (s.library.urlsplit url) (check_target s request block_private url)

abbrev pub is_supported_proxy : Option Text → Bool
unfolding is_proxy_scheme
is_supported_proxy none = true
is_supported_proxy (some scheme) = is_proxy_scheme scheme

abbrev pub is_direct : Option Text → Bool
is_direct none = true
is_direct (some scheme) = false

-- `_fetch`
unfoldable pub fetch : Surroundings → FetchRequest → Fetched × List Hop
unfolding fetch_cleaned clean_url is_proxy_scheme
fetch s request =
    if not (is_supported_proxy request.proxy)
    then (failed unsupported_proxy, [])
    else fetch_cleaned s request (request.block_private_targets && is_direct request.proxy)
        (clean_url s.library request.url)
