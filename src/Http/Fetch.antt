-- ===== src/Http/Fetch.antt =====
-- The redirect loop of src/camouflare/http_transport.py: `HttpTransport._fetch`, `_check_target`,
-- `_ip_literal`, `_bracketed_host_header`, `proxy_server_url`.
use camouflare.Prelude.{
  ◌==◌, ltb, if◌then◌else◌, ℕ, Bool, false, not, ◌&&◌, ◌||◌, List, [], ◌∷◌, ◌++◌, Option, none,
  some,
}
use camouflare.Http.Urls.{
  Text, same_text, lower, any_char, https_scheme, cookie_name, host_name, Parts, UrlLibrary,
  redirect_url, Origin, default_port, Headers, has_header, headers_for_origin, any_text,
}
use camouflare.Http.Bodies.{Method, BodyMode, Response}
use camouflare.Http.Failures.{Failure}
use camouflare.Http.Addresses.{IpAddress, IpTables, is_public_address}

-- `HttpFetch`, without the cookies that the jar starts with; `proxy` is the scheme of the proxy's server, in lower
-- case, and "http" where it has none.
pub record FetchRequest : Type 0 where
  pub url : Text
  pub method : Method
  pub headers : Headers
  pub origin_bound_header_names : List Text
  pub proxy : Option Text
  pub max_redirects : ℕ
  pub max_body_bytes : ℕ
  pub body : BodyMode
  pub require_https : Bool
  pub block_private_targets : Bool

pub record Hop : Type 0 where
  pub url : Text
  pub headers : Headers

pub record HopResponse : Type 0 where
  pub location : Option Text
  pub response : Response

-- What surrounds a fetch. `ip_literal` is `ip_address` of a host without its brackets; `str` is that
-- of a number. From the hops so far follow the cookie header that the jar makes for a URL, whether
-- the deadline lies ahead, and what the connector answers to a hop, if it does not raise. From the
-- hops that were sent follow the exception of the last one, where it raises, and whether a proxy has
-- connected it to the target.
pub record Surroundings : Type 0 where
  pub library : UrlLibrary
  pub tables : IpTables
  pub ip_literal : Text → Option IpAddress
  pub str : ℕ → Text
  pub jar_cookie : List Hop → Text → Option Text
  pub in_time : List Hop → Bool
  pub answer : List Hop → Hop → Option HopResponse
  pub failure : List Hop → Failure
  pub proxy_tunnel_open : List Hop → Bool

pub data FetchError : Type 0 where
  invalid_url not_https private_target unsupported_proxy timed_out transport_failed out_of_fuel :
      FetchError

pub data Fetched : Type 0 where
  fetched : Text → HopResponse → Fetched
  failed : FetchError → Fetched

-- "Cookie" and "Host"
abbrev pub cookie_header : Text
cookie_header = 67 ∷ 111 ∷ 111 ∷ 107 ∷ 105 ∷ 101 ∷ []

abbrev pub host_header : Text
host_header = 72 ∷ 111 ∷ 115 ∷ 116 ∷ []

unfoldable pub is_redirect_status : ℕ → Bool
is_redirect_status n = (n == 301) || ((n == 302) || ((n == 303) || ((n == 307) || (n == 308))))

-- `socks5` and `socks5h`
abbrev pub socks5_scheme : Text
socks5_scheme = 115 ∷ 111 ∷ 99 ∷ 107 ∷ 115 ∷ 53 ∷ []

unfoldable pub is_proxy_scheme : Text → Bool
unfolding any_text
is_proxy_scheme scheme = any_text scheme (
    https_scheme
    ∷ (104 ∷ 116 ∷ 116 ∷ 112 ∷ [])
    ∷ socks5_scheme
    ∷ (socks5_scheme ++ (104 ∷ []))
    ∷ [])

abbrev pub is_literal_private : IpTables → Option IpAddress → Bool
is_literal_private t none = false
is_literal_private t (some a) = not (is_public_address t a)

unfoldable pub is_private_host : Surroundings → Option Text → Bool
unfolding is_public_address
is_private_host s none = false
is_private_host s (some []) = false
is_private_host s (some (c ∷ cs)) = is_literal_private s.tables (s.ip_literal (c ∷ cs))

-- `_check_target`: the error, if there is one.
unfoldable pub check_parts : Surroundings → FetchRequest → Bool → Option Parts → Option FetchError
unfolding is_private_host same_text lower
check_parts s request block_private none = some invalid_url
check_parts s request block_private (some p) =
    if request.require_https && not (same_text (lower p.scheme) https_scheme)
    then some not_https
    else if block_private && is_private_host s p.hostname
    then some private_target
    else none

unfoldable pub check_target : Surroundings → FetchRequest → Bool → Text → Option FetchError
unfolding check_parts
check_target s request block_private url =
    check_parts s request block_private (s.library.urlsplit url)

-- The host of an IPv6 literal, in brackets, and its port where that is not the scheme's.
abbrev pub bracketed : Surroundings → Parts → Text → Text
bracketed s p host =
    let name = (91 ∷ host) ++ (93 ∷ []) in
    elim p.port [
      | none ↦ name
      | some n ↦ if n == default_port p then name else name ++ (58 ∷ s.str n)
    ]

-- `_bracketed_host_header`
unfoldable pub bracketed_host_header : Surroundings → Option Parts → Option Text
unfolding any_char same_text lower
bracketed_host_header s none = none
bracketed_host_header s (some p) = elim p.hostname [
  | none ↦ none
  | some host ↦ if any_char (λ c. c == 58) host then some (bracketed s p host) else none
]

unfoldable pub add_cookie : Option Text → Headers → Headers
unfolding has_header
add_cookie none headers = headers
add_cookie (some value) headers =
    if has_header headers cookie_name then headers else headers ++ ((cookie_header, value) ∷ [])

unfoldable pub add_host : Option Text → Headers → Headers
unfolding has_header
add_host none headers = headers
add_host (some host) headers =
    if has_header headers host_name then headers else (host_header, host) ∷ headers

-- The hop that one round of the loop sends.
unfoldable pub next_hop : Surroundings → FetchRequest → Origin → List Hop → Text → Hop
unfolding headers_for_origin add_cookie add_host bracketed_host_header
next_hop s request target_origin hops url =
    let parts = s.library.urlsplit url in
    record {
      url = url;
      headers = add_host (bracketed_host_header s parts) (
          add_cookie (s.jar_cookie hops url) (
            headers_for_origin request.headers request.origin_bound_header_names target_origin
              parts));
    }

-- Where a response with this `Location` redirects to, if it is followed.
unfoldable pub redirect_to : Surroundings → FetchRequest → Text → ℕ → ℕ → Option Text → Option Text
unfolding redirect_url is_redirect_status
redirect_to s request current status redirects none = none
redirect_to s request current status redirects (some []) = none
redirect_to s request current status redirects (some (c ∷ cs)) =
    if is_redirect_status status && ltb redirects request.max_redirects
    then redirect_url s.library current (c ∷ cs)
    else none

unfoldable pub next_url : Surroundings → FetchRequest → Text → HopResponse → ℕ → Option Text
unfolding redirect_to
next_url s request current r redirects =
    redirect_to s request current r.response.status redirects r.location
