-- ===== src/Http/Origins.antt =====
-- What every hop of a fetch in src/camouflare/http_transport.py may go to, and may carry.
use camouflare.Prelude.{
  append-nil, append_assoc, subst, sym, ==_iff, All, All-append, ℕ, zero, suc, Bool, true, false,
  List, [], ◌∷◌, ◌++◌, Option, none, some, ◌≡◌, refl, ◌⊎◌, inl, inr, arith, if-holds,
}
use camouflare.Http.Urls.{
  Text, Parts, Origin, url_origin, same_text-eq, same_origin, Headers, lower, any_text, has_header,
  unbound_headers, headers_for_origin, cookie_name, host_name,
}
use camouflare.Http.Fetch.{
  FetchRequest, Hop, HopResponse, Surroundings, FetchError, Fetched, check_target, next_hop,
  next_url, add_cookie, add_host, cookie_header, host_header, bracketed_host_header,
}
use camouflare.Http.Redirects.{
  Round, ends, goes_on, next_round, followed, redirected, answered, send_hop, fetch_hops,
}

-- A header that any origin may get: not bound to the origin of the request, or the very header that
-- the transport makes for the hop, of the jar's cookie or of the host.
abbrev pub IsFree : List Text → Option Text → Option Text → Text × Text → Type 0
IsFree bound cookie host (name, value) =
    (any_text (lower name) bound ≡ false)
    ⊎ (((name ≡ cookie_header) × (cookie ≡ some value))
        ⊎ ((name ≡ host_header) × (host ≡ some value)))

-- The URL has the origin of the request.
abbrev pub IsHome : Surroundings → Origin → Text → Type 0
IsHome s origin url = (p : Parts) × (s.library.urlsplit url ≡ some p) × (url_origin p ≡ origin)

-- A hop after the hops `before`: its cookie is what the jar has for its URL after those.
abbrev pub IsAllowed : Surroundings → FetchRequest → Bool → Origin → List Hop → Hop → Type 0
IsAllowed s request b origin before hop =
    (check_target s request b hop.url ≡ none)
    × (IsHome s origin hop.url
        ⊎ All
            (IsFree request.origin_bound_header_names (s.jar_cookie before hop.url)
              (bracketed_host_header s (s.library.urlsplit hop.url)))
            hop.headers)

module _ (bound : List Text) (cookie host : Option Text) where
  unbound_headers-IsFree :
      (headers : Headers) → All (IsFree bound cookie host) (unbound_headers bound headers)
  unfolding unbound_headers
  unbound_headers-IsFree [] = tt
  unbound_headers-IsFree ((n, v) ∷ headers) =
      if-holds (All (IsFree bound cookie host)) (any_text (lower n) bound) _ _
        (λ _. unbound_headers-IsFree headers) (λ free. (inl free, unbound_headers-IsFree headers))

  add_cookie-IsFree :
      (o : Option Text) (headers : Headers)
      → o ≡ cookie
      → All (IsFree bound cookie host) headers
      → All (IsFree bound cookie host) (add_cookie o headers)
  unfolding add_cookie
  add_cookie-IsFree none headers e h = h
  add_cookie-IsFree (some value) headers e h =
      if-holds (All (IsFree bound cookie host)) (has_header headers cookie_name) _ _ (λ _. h)
        (λ _.
          All-append (IsFree bound cookie host) headers ((cookie_header, value) ∷ []) h
            (inr (inl (refl, sym e)), tt))

  add_host-IsFree :
      (o : Option Text) (headers : Headers)
      → o ≡ host
      → All (IsFree bound cookie host) headers
      → All (IsFree bound cookie host) (add_host o headers)
  unfolding add_host
  add_host-IsFree none headers e h = h
  add_host-IsFree (some value) headers e h =
      if-holds (All (IsFree bound cookie host)) (has_header headers host_name) _ _ (λ _. h)
        (λ _. (inr (inr (refl, sym e)), h))

same_origin-eq : (o o' : Origin) → same_origin o o' ≡ true → o ≡ o'
unfolding same_origin
same_origin-eq (scheme, host, port) (scheme', host', port') h =
    ground (arith, h, same_text-eq scheme scheme', same_text-eq host host', ==_iff port port')

-- Where the origin is another one, the headers that are left are free.
headers_for_origin-IsFree :
    (cookie host : Option Text) (headers : Headers) (bound : List Text) (origin : Origin)
    (parts : Option Parts)
    → ((p : Parts) × (parts ≡ some p) × (url_origin p ≡ origin))
      ⊎ All (IsFree bound cookie host) (headers_for_origin headers bound origin parts)
unfolding headers_for_origin
headers_for_origin-IsFree cookie host headers bound origin none =
    inr (unbound_headers-IsFree bound cookie host headers)
headers_for_origin-IsFree cookie host headers bound origin (some p) =
    if-holds
      (λ (hs : Headers).
        ((q : Parts) × (some p ≡ some q) × (url_origin q ≡ origin))
        ⊎ All (IsFree bound cookie host) hs)
      (same_origin (url_origin p) origin) _ _
      (λ same. inl (p, refl, same_origin-eq (url_origin p) origin same))
      (λ _. inr (unbound_headers-IsFree bound cookie host headers))

module _ (s : Surroundings) (request : FetchRequest) (b : Bool) (origin : Origin) where
  -- Every hop is allowed after those before it.
  abbrev pub AllowedAfter : List Hop → List Hop → Type 0
  AllowedAfter before [] = Unit
  AllowedAfter before (hop ∷ hops) =
      IsAllowed s request b origin before hop × AllowedAfter (before ++ (hop ∷ [])) hops

  abbrev pub Allowed : List Hop → Type 0
  Allowed = AllowedAfter []

  AllowedAfter-append :
      (before hops : List Hop) (hop : Hop)
      → AllowedAfter before hops
      → IsAllowed s request b origin (before ++ hops) hop
      → AllowedAfter before (hops ++ (hop ∷ []))
  AllowedAfter-append before [] hop h k =
      (subst (λ u. IsAllowed s request b origin u hop) (append-nil before) k, tt)
  AllowedAfter-append before (next ∷ hops) hop (h, h') k = (
    h,
    AllowedAfter-append (before ++ (next ∷ [])) hops hop h' (
        subst (λ u. IsAllowed s request b origin u hop) (sym (append_assoc before (next ∷ []) hops))
          k),
  )

  next_hop-IsAllowed :
      (hops : List Hop) (url : Text)
      → check_target s request b url ≡ none
      → IsAllowed s request b origin hops (next_hop s request origin hops url)
  unfolding next_hop
  next_hop-IsAllowed hops url h =
      let bound = request.origin_bound_header_names in
      let cookie = s.jar_cookie hops url in
      let host = bracketed_host_header s (s.library.urlsplit url) in
      elim (headers_for_origin-IsFree cookie host request.headers bound origin
        (s.library.urlsplit url)) [
          | inl home ↦ (h, inl home)
          | inr free ↦ (
            h,
            inr (
                add_host-IsFree bound cookie host host _ refl
                  (add_cookie-IsFree bound cookie host cookie _ refl free)),
          )
        ]

  -- A round adds only hops that are allowed, and goes on only to a URL that is.
  abbrev IsAllowedRound : Round → Type 0
  IsAllowedRound (ends outcome hops) = Allowed hops
  IsAllowedRound (goes_on hops url) = Allowed hops × (check_target s request b url ≡ none)

  followed-IsAllowedRound :
      (hops : List Hop) (url : Text) (o : Option FetchError)
      → check_target s request b url ≡ o
      → Allowed hops
      → IsAllowedRound (followed hops url o)
  unfolding followed
  followed-IsAllowedRound hops url none e h = (h, e)
  followed-IsAllowedRound hops url (some x) e h = h

  redirected-IsAllowedRound :
      (hops : List Hop) (url : Text) (r : HopResponse) (o : Option Text)
      → Allowed hops
      → IsAllowedRound (redirected s request b hops url r o)
  unfolding redirected
  redirected-IsAllowedRound hops url r none h = h
  redirected-IsAllowedRound hops url r (some url') h =
      followed-IsAllowedRound hops url' (check_target s request b url') refl h

  answered-IsAllowedRound :
      (hops : List Hop) (url : Text) (redirects : ℕ) (o : Option HopResponse)
      → Allowed hops
      → IsAllowedRound (answered s request b hops url redirects o)
  unfolding answered
  answered-IsAllowedRound hops url redirects none h = h
  answered-IsAllowedRound hops url redirects (some r) h =
      redirected-IsAllowedRound hops url r (next_url s request url r redirects) h

  send_hop-IsAllowedRound :
      (hops : List Hop) (url : Text) (redirects : ℕ) (t : Bool)
      → check_target s request b url ≡ none
      → Allowed hops
      → IsAllowedRound (send_hop s request b origin hops url redirects t)
  unfolding send_hop
  send_hop-IsAllowedRound hops url redirects false c h = h
  send_hop-IsAllowedRound hops url redirects true c h =
      let hop = next_hop s request origin hops url in
      answered-IsAllowedRound (hops ++ (hop ∷ [])) url redirects (s.answer hops hop)
        (AllowedAfter-append [] hops hop h (next_hop-IsAllowed hops url c))

  next_round-Allowed :
      (loop : List Hop → Text → Fetched × List Hop) (r : Round)
      → IsAllowedRound r
      → ((hops : List Hop) (url : Text)
          → Allowed hops
          → check_target s request b url ≡ none
          → Allowed (loop hops url).1)
      → Allowed (next_round loop r).1
  next_round-Allowed loop (ends outcome hops) h k = h
  next_round-Allowed loop (goes_on hops url) (h, c) k = k hops url h c

  pub fetch_hops-Allowed :
      (n : ℕ) (hops : List Hop) (url : Text) (redirects : ℕ)
      → check_target s request b url ≡ none
      → Allowed hops
      → Allowed (fetch_hops s request b origin n hops url redirects).1
  unfolding fetch_hops
  fetch_hops-Allowed zero hops url redirects c h = h
  fetch_hops-Allowed (suc n) hops url redirects c h =
      next_round-Allowed _ (send_hop s request b origin hops url redirects (s.in_time hops))
        (send_hop-IsAllowedRound hops url redirects (s.in_time hops) c h)
        (λ hops' url' h' c'. fetch_hops-Allowed n hops' url' (suc redirects) c' h')
