-- ===== src/Http/Guarded.antt =====
-- The hops of a whole fetch in src/camouflare/http_transport.py, from the URL of the request on.
use camouflare.Prelude.{
  suc, Bool, not, ◌&&◌, List, [], Option, none, some, ◌≡◌, refl, ◌⊎◌, inl, inr, if-holds,
}
use camouflare.Http.Urls.{Text, Parts, clean_url, url_origin}
use camouflare.Http.Fetch.{FetchRequest, Hop, Surroundings, FetchError, Fetched, check_target}
use camouflare.Http.Redirects.{fetch_from, fetch_cleaned, is_supported_proxy, is_direct, fetch}
use camouflare.Http.Origins.{Allowed, fetch_hops-Allowed}

-- Nothing was sent, or every hop is allowed to a request whose cleaned URL is `cleaned`.
abbrev pub IsGuarded : Surroundings → FetchRequest → Bool → Option Text → List Hop → Type 0
IsGuarded s request b cleaned hops =
    (hops ≡ [])
    ⊎ ((url : Text) × (p : Parts) × (cleaned ≡ some url)
        × (s.library.urlsplit url ≡ some p)
        × Allowed s request b (url_origin p) hops)

fetch_from-IsGuarded :
    (s : Surroundings) (request : FetchRequest) (b : Bool) (url : Text) (parts : Option Parts)
    (o : Option FetchError)
    → s.library.urlsplit url ≡ parts
    → check_target s request b url ≡ o
    → IsGuarded s request b (some url) (fetch_from s request b url parts o).1
unfolding fetch_from
fetch_from-IsGuarded s request b url none o e c = inl refl
fetch_from-IsGuarded s request b url (some p) (some x) e c = inl refl
fetch_from-IsGuarded s request b url (some p) none e c = inr (
  url,
  p,
  refl,
  e,
  fetch_hops-Allowed s request b (url_origin p) (suc request.max_redirects) [] url 0 c tt,
)

fetch_cleaned-IsGuarded :
    (s : Surroundings) (request : FetchRequest) (b : Bool) (o : Option Text)
    → IsGuarded s request b o (fetch_cleaned s request b o).1
unfolding fetch_cleaned
fetch_cleaned-IsGuarded s request b none = inl refl
fetch_cleaned-IsGuarded s request b (some url) =
    fetch_from-IsGuarded s request b url (s.library.urlsplit url) (check_target s request b url)
      refl refl

-- Every hop that a fetch sends, the first one and those after redirects, goes to a URL that passes
-- the test of the target (https where the request requires it; no literal of a private address where
-- those are blocked and no proxy is used); and a hop to another origin than that of the request's
-- URL carries none of the headers that are bound to that origin, except the Cookie header whose value
-- is what the jar has for the hop's URL after the hops before it, and the Host header whose value is
-- what the transport makes of that URL.
pub fetch-IsGuarded :
    (s : Surroundings) (request : FetchRequest)
    → IsGuarded s request
        (request.block_private_targets && is_direct request.proxy)
        (clean_url s.library request.url)
        (fetch s request).1
unfolding fetch
fetch-IsGuarded s request =
    let b = request.block_private_targets && is_direct request.proxy in
    if-holds
      (λ (r : Fetched × List Hop). IsGuarded s request b (clean_url s.library request.url) r.1)
      (not (is_supported_proxy request.proxy)) _ _ (λ _. inl refl)
      (λ _. fetch_cleaned-IsGuarded s request b (clean_url s.library request.url))
