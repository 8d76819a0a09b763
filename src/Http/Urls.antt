-- ===== src/Http/Urls.antt =====
-- URLs, header names and targets in src/camouflare/http_transport.py: `clean_url`, `_url_origin`,
-- `_headers_for_origin`, `has_header`, `_check_target`, `_redirect_url`, `_bracketed_host_header`.
-- A text is the list of its characters, all of them ASCII.
use camouflare.Prelude.{
  ◌==◌, leb, ltb, if◌then◌else◌, ℕ, ◌+◌, Bool, true, false, not, ◌&&◌, ◌||◌, List, [], ◌∷◌, Option,
  none, some, ◌≡◌, refl, arith, ==_iff,
}

abbrev pub Text : Type 0
Text = List ℕ

unfoldable pub same_text : Text → Text → Bool
same_text [] [] = true
same_text [] (d ∷ ds) = false
same_text (c ∷ cs) [] = false
same_text (c ∷ cs) (d ∷ ds) = let rest = same_text cs ds in (c == d) && rest

pub same_text-eq : (xs ys : Text) → same_text xs ys ≡ true → xs ≡ ys
unfolding same_text
same_text-eq [] [] h = refl
same_text-eq [] (d ∷ ds) h = absurd (ground (arith, h))
same_text-eq (c ∷ cs) [] h = absurd (ground (arith, h))
same_text-eq (c ∷ cs) (d ∷ ds) h = ground (arith, h, ==_iff c d, same_text-eq cs ds)

-- `str.lower`
abbrev pub lower_char : ℕ → ℕ
lower_char c = if leb 65 c && leb c 90 then c + 32 else c

unfoldable pub lower : Text → Text
lower [] = []
lower (c ∷ cs) = lower_char c ∷ lower cs

unfoldable pub any_char : (ℕ → Bool) → Text → Bool
any_char test [] = false
any_char test (c ∷ cs) = let rest = any_char test cs in test c || rest

abbrev pub http_scheme : Text
http_scheme = 104 ∷ 116 ∷ 116 ∷ 112 ∷ []

abbrev pub https_scheme : Text
https_scheme = 104 ∷ 116 ∷ 116 ∷ 112 ∷ 115 ∷ []

-- "cookie"
abbrev pub cookie_name : Text
cookie_name = 99 ∷ 111 ∷ 111 ∷ 107 ∷ 105 ∷ 101 ∷ []

-- "host"
abbrev pub host_name : Text
host_name = 104 ∷ 111 ∷ 115 ∷ 116 ∷ []

-- What `urlsplit` gives, its host and port included.
pub record Parts : Type 0 where
  pub scheme : Text
  pub hostname : Option Text
  pub port : Option ℕ

-- `urllib.parse`: `urlsplit` and `urljoin` give nothing where they, or the reading of the port,
-- raise ValueError.
pub record UrlLibrary : Type 0 where
  pub urlsplit : Text → Option Parts
  pub urljoin : Text → Text → Option Text

-- `str.isspace` of a character.
unfoldable pub is_space : ℕ → Bool
is_space c = (leb 9 c && leb c 13) || (leb 28 c && leb c 32)

unfoldable pub strip_start : Text → Text
strip_start [] = []
strip_start (c ∷ cs) = let rest = strip_start cs in if is_space c then rest else c ∷ cs

-- All the characters up to the last one that is no space.
unfoldable pub strip_end : Text → Text
strip_end [] = []
strip_end (c ∷ cs) = elim (strip_end cs) [
  | [] ↦ if is_space c then [] else c ∷ []
  | d ∷ ds ↦ c ∷ d ∷ ds
]

-- `url.replace('"', "")`
unfoldable pub remove_quotes : Text → Text
remove_quotes [] = []
remove_quotes (c ∷ cs) = let rest = remove_quotes cs in if c == 34 then rest else c ∷ rest

unfoldable pub is_control : ℕ → Bool
is_control c = ltb c 32 || (c == 127)

abbrev pub is_nothing : Text → Bool
is_nothing [] = true
is_nothing (c ∷ cs) = false

-- The tests of `clean_url` on the parts of a URL.
unfoldable pub is_requestable : Parts → Bool
unfolding same_text lower any_char is_space
is_requestable p =
    (same_text (lower p.scheme) http_scheme || same_text (lower p.scheme) https_scheme)
    && elim p.hostname [ none ↦ false | some host ↦ not (any_char is_space host) ]

module _ (l : UrlLibrary) where
  -- `clean_url`, which gives nothing where the source raises.
  unfoldable pub clean_url : Text → Option Text
  unfolding any_char strip_start strip_end remove_quotes is_control is_requestable
  clean_url url =
      let cleaned = strip_end (strip_start (remove_quotes url)) in
      if is_nothing url
      then none
      else if any_char is_control cleaned
      then none
      else elim (l.urlsplit cleaned) [
        | none ↦ none
        | some p ↦ if is_requestable p then some cleaned else none
      ]

  -- `_redirect_url`
  unfoldable pub redirect_url : Text → Text → Option Text
  unfolding clean_url
  redirect_url current location = elim (l.urljoin current location) [
    | none ↦ none
    | some url ↦ clean_url url
  ]

abbrev pub Origin : Type 0
Origin = Text × Text × ℕ

abbrev pub default_port : Parts → ℕ
unfolding same_text lower
default_port p = if same_text (lower p.scheme) https_scheme then 443 else 80

-- `parts.port or default_port`
abbrev pub port_or : Option ℕ → ℕ → ℕ
port_or none d = d
port_or (some n) d = if n == 0 then d else n

-- `_url_origin`
unfoldable pub url_origin : Parts → Origin
unfolding same_text lower
url_origin p = (
  lower p.scheme,
  elim p.hostname [ none ↦ [] | some host ↦ lower host ],
  port_or p.port (default_port p),
)

unfoldable pub same_origin : Origin → Origin → Bool
unfolding same_text
same_origin (scheme, host, port) (scheme', host', port') =
    same_text scheme scheme' && (same_text host host' && (port == port'))

abbrev pub Headers : Type 0
Headers = List (Text × Text)

unfoldable pub any_text : Text → List Text → Bool
unfolding same_text
any_text t [] = false
any_text t (u ∷ us) = let rest = any_text t us in same_text t u || rest

-- `has_header`, for a name in lower case.
unfoldable pub has_header : Headers → Text → Bool
unfolding same_text lower
has_header [] name = false
has_header ((n, v) ∷ headers) name =
    let rest = has_header headers name in same_text (lower n) name || rest

unfoldable pub unbound_headers : List Text → Headers → Headers
unfolding any_text lower
unbound_headers bound [] = []
unbound_headers bound ((n, v) ∷ headers) =
    let rest = unbound_headers bound headers in
    if any_text (lower n) bound then rest else (n, v) ∷ rest

-- `_headers_for_origin`
unfoldable pub headers_for_origin : Headers → List Text → Origin → Option Parts → Headers
unfolding same_origin unbound_headers url_origin
headers_for_origin headers bound target_origin parts =
    if elim parts [ none ↦ false | some p ↦ same_origin (url_origin p) target_origin ]
    then headers
    else unbound_headers bound headers
