-- ===== src/Http/Bounded.antt =====
-- The redirect loop of src/camouflare/http_transport.py ends within the redirects that are allowed.
use camouflare.Prelude.{
  ◌&&◌, not, suc, zero, ◌<◌, ltb, length, length-append, ℕ, ◌+◌, ◌≤◌, Bool, true, false, List, [],
  ◌∷◌, ◌++◌, Option, none, some, ◌≡◌, refl, arith, if-holds,
}
use camouflare.Http.Urls.{
  https_scheme, lower, same_text, clean_url, url_origin, Parts, Text, Origin,
}
use camouflare.Http.Fetch.{
  private_target, not_https, is_private_host, check_target, redirect_to, check_parts, FetchRequest,
  Hop, HopResponse, Surroundings, FetchError, out_of_fuel, Fetched, fetched, failed, next_hop,
  next_url, is_redirect_status,
}
use camouflare.Http.Redirects.{
  is_direct, is_supported_proxy, fetch, fetch_cleaned, fetch_from, fetch_hops, next_round, Round,
  ends, goes_on, followed, redirected, answered, send_hop,
}

-- Anything but the end of the fuel, which the source does not know.
abbrev pub has_ended : Fetched → Bool
has_ended (fetched url r) = true
has_ended (failed out_of_fuel) = false
has_ended (failed e) = true

-- A round has sent at most one hop more than the `n` before it, and goes on only below the limit.
abbrev pub IsShort : ℕ → ℕ → ℕ → Round → Type 0
IsShort n redirects maximum (ends outcome hops) = (has_ended outcome ≡ true) × (length hops ≤ n + 1)
IsShort n redirects maximum (goes_on hops url) = (length hops ≤ n + 1) × (redirects < maximum)

check_parts-ended :
    (s : Surroundings) (request : FetchRequest) (b : Bool) (parts : Option Parts)
    → (e : FetchError) → check_parts s request b parts ≡ some e
    → has_ended (failed e) ≡ true
unfolding check_parts
check_parts-ended s request b none e = λ h. ground (arith, h)
check_parts-ended s request b (some p) e =
    if-holds Ends (request.require_https && not (same_text (lower p.scheme) https_scheme))
      (some not_https) _ (λ _ h. ground (arith, h))
      (λ _.
        if-holds Ends (b && is_private_host s p.hostname) (some private_target) none
          (λ _ h. ground (arith, h)) (λ _ h. absurd (ground (arith, h))))
  where
    Ends : Option FetchError → Type 0
    Ends o = o ≡ some e → has_ended (failed e) ≡ true

followed-IsShort :
    (n redirects maximum : ℕ) (hops : List Hop) (url : Text) (o : Option FetchError)
    → length hops ≤ n + 1
    → redirects < maximum
    → ((e : FetchError) → o ≡ some e → has_ended (failed e) ≡ true)
    → IsShort n redirects maximum (followed hops url o)
unfolding followed
followed-IsShort n redirects maximum hops url none l r h = (l, r)
followed-IsShort n redirects maximum hops url (some e) l r h = (h e refl, l)

module _ (s : Surroundings) (request : FetchRequest) (b : Bool) where
  redirected-IsShort :
      (n redirects : ℕ) (hops : List Hop) (url : Text) (r : HopResponse) (o : Option Text)
      → length hops ≤ n + 1
      → ((url' : Text) → o ≡ some url' → redirects < request.max_redirects)
      → IsShort n redirects request.max_redirects (redirected s request b hops url r o)
  unfolding redirected check_target
  redirected-IsShort n redirects hops url r none l h = (refl, l)
  redirected-IsShort n redirects hops url r (some url') l h =
      followed-IsShort n redirects request.max_redirects hops url' (check_target s request b url') l
        (h url' refl) (check_parts-ended s request b (s.library.urlsplit url'))

  -- A response is followed only below the limit.
  redirect_to-lt :
      (url : Text) (status redirects : ℕ) (location : Option Text) (url' : Text)
      → redirect_to s request url status redirects location ≡ some url'
      → redirects < request.max_redirects
  unfolding redirect_to
  redirect_to-lt url status redirects none url' = λ h. absurd (ground (arith, h))
  redirect_to-lt url status redirects (some []) url' = λ h. absurd (ground (arith, h))
  redirect_to-lt url status redirects (some (c ∷ cs)) url' =
      if-holds (λ (o : Option Text). o ≡ some url' → redirects < request.max_redirects)
        (is_redirect_status status && ltb redirects request.max_redirects) _ _
        (λ below h. ground (arith, below)) (λ _ h. absurd (ground (arith, h)))

  answered-IsShort :
      (n redirects : ℕ) (hops : List Hop) (url : Text) (o : Option HopResponse)
      → length hops ≤ n + 1
      → IsShort n redirects request.max_redirects (answered s request b hops url redirects o)
  unfolding answered next_url
  answered-IsShort n redirects hops url none l = (refl, l)
  answered-IsShort n redirects hops url (some r) l =
      redirected-IsShort n redirects hops url r (next_url s request url r redirects) l
        (redirect_to-lt url r.response.status redirects r.location)

  module _ (origin : Origin) where
    send_hop-IsShort :
        (hops : List Hop) (url : Text) (redirects : ℕ) (t : Bool)
        → IsShort
            (length hops)
            redirects
            request.max_redirects
            (send_hop s request b origin hops url redirects t)
    unfolding send_hop
    send_hop-IsShort hops url redirects false = (refl, omega arith)
    send_hop-IsShort hops url redirects true =
        let hop = next_hop s request origin hops url in
        answered-IsShort (length hops) redirects (hops ++ (hop ∷ [])) url (s.answer hops hop)
          (omega (arith, length-append hops (hop ∷ [])))

-- What is to hold of a fetch: it has ended, within the hops that are allowed.
abbrev pub IsBounded : FetchRequest → Fetched × List Hop → Type 0
IsBounded request (outcome, hops) =
    (has_ended outcome ≡ true) × (length hops ≤ request.max_redirects + 1)

next_round-IsBounded :
    (request : FetchRequest) (n redirects : ℕ) (loop : List Hop → Text → Fetched × List Hop)
    (r : Round)
    → IsShort n redirects request.max_redirects r
    → n ≤ redirects
    → redirects ≤ request.max_redirects
    → ((hops : List Hop) (url : Text)
        → length hops ≤ suc redirects
        → suc redirects ≤ request.max_redirects
        → IsBounded request (loop hops url))
    → IsBounded request (next_round loop r)
next_round-IsBounded request n redirects loop (ends outcome hops) (e, l) m k h =
    (e, omega (arith, l, m, k))
next_round-IsBounded request n redirects loop (goes_on hops url) (l, r) m k h =
    h hops url (omega (arith, l, m)) (omega (arith, r))

fetch_hops-IsBounded :
    (s : Surroundings) (request : FetchRequest) (b : Bool) (origin : Origin) (n : ℕ)
    (hops : List Hop) (url : Text) (redirects : ℕ)
    → redirects + n ≡ request.max_redirects + 1
    → length hops ≤ redirects
    → redirects ≤ request.max_redirects
    → IsBounded request (fetch_hops s request b origin n hops url redirects)
unfolding fetch_hops
fetch_hops-IsBounded s request b origin zero hops url redirects e l m = absurd (omega (arith, e, m))
fetch_hops-IsBounded s request b origin (suc n) hops url redirects e l m =
    next_round-IsBounded request (length hops) redirects _
      (send_hop s request b origin hops url redirects (s.in_time hops))
      (send_hop-IsShort s request b origin hops url redirects (s.in_time hops)) l m
      (λ hops' url' l' m'.
        fetch_hops-IsBounded s request b origin n hops' url' (suc redirects) (omega (arith, e)) l'
          m')

fetch_from-IsBounded :
    (s : Surroundings) (request : FetchRequest) (b : Bool) (url : Text) (parts : Option Parts)
    (o : Option FetchError)
    → ((e : FetchError) → o ≡ some e → has_ended (failed e) ≡ true)
    → IsBounded request (fetch_from s request b url parts o)
unfolding fetch_from
fetch_from-IsBounded s request b url none o h = (refl, omega arith)
fetch_from-IsBounded s request b url (some p) (some e) h = (h e refl, omega arith)
fetch_from-IsBounded s request b url (some p) none h =
    fetch_hops-IsBounded s request b (url_origin p) (suc request.max_redirects) [] url 0
      (omega arith) (omega arith) (omega arith)

fetch_cleaned-IsBounded :
    (s : Surroundings) (request : FetchRequest) (b : Bool) (o : Option Text)
    → IsBounded request (fetch_cleaned s request b o)
unfolding fetch_cleaned check_target
fetch_cleaned-IsBounded s request b none = (refl, omega arith)
fetch_cleaned-IsBounded s request b (some url) =
    fetch_from-IsBounded s request b url (s.library.urlsplit url) _
      (check_parts-ended s request b (s.library.urlsplit url))

-- Every fetch ends, whatever the servers answer: the fuel of one round more than the redirects that
-- are allowed is never used up, and at most that many hops are sent.
pub fetch-IsBounded :
    (s : Surroundings) (request : FetchRequest) → IsBounded request (fetch s request)
unfolding fetch
fetch-IsBounded s request =
    if-holds (IsBounded request) (not (is_supported_proxy request.proxy)) _ _
      (λ _. (refl, omega arith))
      (λ _.
        fetch_cleaned-IsBounded s request (request.block_private_targets && is_direct request.proxy)
          (clean_url s.library request.url))
