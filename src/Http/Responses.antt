-- ===== src/Http/Responses.antt =====
-- Which response a fetch of src/camouflare/http_transport.py returns.
use camouflare.Prelude.{
  length, length-append, ℕ, zero, suc, Bool, true, false, not, ◌&&◌, List, [], ◌∷◌, ◌++◌, Option,
  none, some, ◌≡◌, refl, subst, arith, if-holds,
}
use camouflare.Http.Urls.{Text, Parts, clean_url, Origin, url_origin}
use camouflare.Http.Fetch.{
  FetchRequest, Hop, HopResponse, Surroundings, FetchError, Fetched, fetched, failed, check_target,
  next_hop, next_url,
}
use camouflare.Http.Redirects.{
  Round, ends, goes_on, next_round, followed, redirected, answered, send_hop, fetch_hops,
  fetch_from, fetch_cleaned, is_supported_proxy, is_direct, fetch,
}

-- The response came to the last hop, which went to the URL of the result, and is none that is to be
-- followed, so many redirects being behind it as hops came before.
abbrev pub IsFinal : Surroundings → FetchRequest → Origin → Fetched → List Hop → Type 0
IsFinal s request origin (fetched url r) hops =
    (before : List Hop) × (hops ≡ before ++ (next_hop s request origin before url ∷ []))
    × (s.answer before (next_hop s request origin before url) ≡ some r)
    × (next_url s request url r (length before) ≡ none)
IsFinal s request origin (failed e) hops = Unit

module _ (s : Surroundings) (request : FetchRequest) (b : Bool) (origin : Origin) where
  -- A round that goes on has sent one hop more.
  abbrev IsFinalRound : ℕ → Round → Type 0
  IsFinalRound redirects (ends outcome hops) = IsFinal s request origin outcome hops
  IsFinalRound redirects (goes_on hops url) = length hops ≡ suc redirects

  followed-IsFinalRound :
      (redirects : ℕ) (hops : List Hop) (url : Text) (o : Option FetchError)
      → length hops ≡ suc redirects
      → IsFinalRound redirects (followed hops url o)
  unfolding followed
  followed-IsFinalRound redirects hops url none l = l
  followed-IsFinalRound redirects hops url (some e) l = tt

  redirected-IsFinalRound :
      (before : List Hop) (url : Text) (r : HopResponse) (o : Option Text)
      → s.answer before (next_hop s request origin before url) ≡ some r
      → next_url s request url r (length before) ≡ o
      → IsFinalRound
          (length before)
          (redirected s request b (before ++ (next_hop s request origin before url ∷ [])) url r o)
  unfolding redirected
  redirected-IsFinalRound before url r none a e = (before, refl, a, e)
  redirected-IsFinalRound before url r (some url') a e =
      followed-IsFinalRound (length before) (before ++ (next_hop s request origin before url ∷ []))
        url' (check_target s request b url')
        (omega (arith, length-append before (next_hop s request origin before url ∷ [])))

  answered-IsFinalRound :
      (before : List Hop) (url : Text) (o : Option HopResponse)
      → s.answer before (next_hop s request origin before url) ≡ o
      → IsFinalRound (length before) (
          answered s request b
            (before ++ (next_hop s request origin before url ∷ []))
            url
            (length before)
            o)
  unfolding answered
  answered-IsFinalRound before url none a = tt
  answered-IsFinalRound before url (some r) a =
      redirected-IsFinalRound before url r (next_url s request url r (length before)) a refl

  send_hop-IsFinalRound :
      (hops : List Hop) (url : Text) (t : Bool)
      → IsFinalRound (length hops) (send_hop s request b origin hops url (length hops) t)
  unfolding send_hop
  send_hop-IsFinalRound hops url false = tt
  send_hop-IsFinalRound hops url true =
      answered-IsFinalRound hops url (s.answer hops (next_hop s request origin hops url)) refl

  next_round-IsFinal :
      (redirects : ℕ) (loop : List Hop → Text → Fetched × List Hop) (r : Round)
      → IsFinalRound redirects r
      → ((hops : List Hop) (url : Text)
          → length hops ≡ suc redirects
          → IsFinal s request origin (loop hops url).0 (loop hops url).1)
      → IsFinal s request origin (next_round loop r).0 (next_round loop r).1
  next_round-IsFinal redirects loop (ends outcome hops) h k = h
  next_round-IsFinal redirects loop (goes_on hops url) h k = k hops url h

  fetch_hops-IsFinal :
      (n : ℕ) (hops : List Hop) (url : Text) (redirects : ℕ)
      → length hops ≡ redirects
      → IsFinal s request origin
          (fetch_hops s request b origin n hops url redirects).0
          (fetch_hops s request b origin n hops url redirects).1
  unfolding fetch_hops
  fetch_hops-IsFinal zero hops url redirects l = tt
  fetch_hops-IsFinal (suc n) hops url redirects l =
      next_round-IsFinal redirects _
        (send_hop s request b origin hops url redirects (s.in_time hops))
        (subst (λ m. IsFinalRound m (send_hop s request b origin hops url m (s.in_time hops))) l
          (send_hop-IsFinalRound hops url (s.in_time hops)))
        (λ hops' url' l'. fetch_hops-IsFinal n hops' url' (suc redirects) l')

-- `IsFinal` for the origin of the request's URL, which is `cleaned`.
abbrev pub IsAnswer : Surroundings → FetchRequest → Option Text → Fetched × List Hop → Type 0
IsAnswer s request cleaned (failed e, hops) = Unit
IsAnswer s request cleaned (fetched last r, hops) =
    (url : Text) × (p : Parts) × (cleaned ≡ some url)
    × (s.library.urlsplit url ≡ some p)
    × IsFinal s request (url_origin p) (fetched last r) hops

final-IsAnswer :
    (s : Surroundings) (request : FetchRequest) (url : Text) (p : Parts) (r : Fetched × List Hop)
    → s.library.urlsplit url ≡ some p
    → IsFinal s request (url_origin p) r.0 r.1
    → IsAnswer s request (some url) r
final-IsAnswer s request url p (failed e, hops) h f = tt
final-IsAnswer s request url p (fetched last r, hops) h f = (url, p, refl, h, f)

fetch_from-IsAnswer :
    (s : Surroundings) (request : FetchRequest) (b : Bool) (url : Text) (parts : Option Parts)
    (o : Option FetchError)
    → s.library.urlsplit url ≡ parts
    → IsAnswer s request (some url) (fetch_from s request b url parts o)
unfolding fetch_from
fetch_from-IsAnswer s request b url none o e = tt
fetch_from-IsAnswer s request b url (some p) (some x) e = tt
fetch_from-IsAnswer s request b url (some p) none e =
    final-IsAnswer s request url p
      (fetch_hops s request b (url_origin p) (suc request.max_redirects) [] url 0) e
      (fetch_hops-IsFinal s request b (url_origin p) (suc request.max_redirects) [] url 0 refl)

fetch_cleaned-IsAnswer :
    (s : Surroundings) (request : FetchRequest) (b : Bool) (o : Option Text)
    → IsAnswer s request o (fetch_cleaned s request b o)
unfolding fetch_cleaned
fetch_cleaned-IsAnswer s request b none = tt
fetch_cleaned-IsAnswer s request b (some url) =
    fetch_from-IsAnswer s request b url (s.library.urlsplit url) (check_target s request b url) refl

-- A fetch that returns a response returns what the connector answered to its last hop, with that
-- hop's URL, and the response is not one to follow: it is no redirect, has no location that can be
-- requested, or comes after as many redirects as are allowed.
pub fetch-IsAnswer :
    (s : Surroundings) (request : FetchRequest)
    → IsAnswer s request (clean_url s.library request.url) (fetch s request)
unfolding fetch
fetch-IsAnswer s request =
    if-holds (IsAnswer s request (clean_url s.library request.url))
      (not (is_supported_proxy request.proxy)) _ _ (λ _. tt)
      (λ _.
        fetch_cleaned-IsAnswer s request (request.block_private_targets && is_direct request.proxy)
          (clean_url s.library request.url))
