-- ===== src/Cookies/Jar.antt =====
-- The cookies of a response in src/camouflare/http_transport.py: `_extract_response_cookies`, over the
-- `CookieJar` of the standard library. A text is the list of its characters, all of them ASCII.
use camouflare.Prelude.{
  ◌==◌, if◌then◌else◌, ℕ, Bool, true, false, not, ◌&&◌, ◌||◌, List, [], ◌∷◌, ◌++◌, Option, none,
  some,
}
use camouflare.Http.Urls.{Text, same_text, lower}

-- A cookie of the jar. `identity` tells objects apart; `same_site` and `partitioned` are read from the
-- nonstandard attributes.
pub record Cookie : Type 0 where
  pub identity : ℕ
  pub name : Text
  pub value : Text
  pub domain : Text
  pub path : Text
  pub domain_specified : Bool
  pub secure : Bool
  pub partitioned : Bool
  pub same_site : Option Text

-- `(cookie.domain, cookie.path, cookie.name)`
abbrev pub Key : Type 0
Key = Text × Text × Text

abbrev pub key_of : Cookie → Key
key_of c = (c.domain, c.path, c.name)

unfoldable pub same_key : Key → Key → Bool
unfolding same_text
same_key (a, b, c) (a', b', c') = same_text a a' && (same_text b b' && same_text c c')

abbrev pub Jar : Type 0
Jar = List Cookie

unfoldable pub find_cookie : Key → Jar → Option Cookie
unfolding same_key
find_cookie k [] = none
find_cookie k (c ∷ jar) = if same_key (key_of c) k then some c else find_cookie k jar

-- `CookieJar.clear(domain, path, name)`
unfoldable pub clear : Key → Jar → Jar
unfolding same_key
clear k [] = []
clear k (c ∷ jar) = let rest = clear k jar in if same_key (key_of c) k then rest else c ∷ rest

-- `CookieJar.set_cookie`
unfoldable pub set_cookie : Cookie → Jar → Jar
unfolding clear
set_cookie c jar = clear (key_of c) jar ++ (c ∷ [])

unfoldable pub starts_with : Text → Text → Bool
starts_with [] text = true
starts_with (c ∷ cs) [] = false
starts_with (c ∷ cs) (d ∷ ds) = let rest = starts_with cs ds in (c == d) && rest

-- "__Secure-", "__Host-", "none" and "/"
abbrev pub secure_prefix : Text
secure_prefix = 95 ∷ 95 ∷ 83 ∷ 101 ∷ 99 ∷ 117 ∷ 114 ∷ 101 ∷ 45 ∷ []

abbrev pub host_prefix : Text
host_prefix = 95 ∷ 95 ∷ 72 ∷ 111 ∷ 115 ∷ 116 ∷ 45 ∷ []

abbrev pub none_text : Text
none_text = 110 ∷ 111 ∷ 110 ∷ 101 ∷ []

abbrev pub root_path : Text
root_path = 47 ∷ []

-- Where a response came from.
pub record Source : Type 0 where
  pub is_secure : Bool
  pub is_ip : Bool

unfoldable pub has_invalid_prefix : Cookie → Bool
unfolding starts_with same_text
has_invalid_prefix c =
    (starts_with secure_prefix c.name && not c.secure)
    || (starts_with host_prefix c.name
        && (not c.secure || (c.domain_specified || not (same_text c.path root_path))))

unfoldable pub is_cross_site : Option Text → Bool
unfolding same_text lower
is_cross_site none = false
is_cross_site (some value) = same_text (lower value) none_text

-- The tests of `_extract_response_cookies`; `is_public_suffix` asks the public suffix list.
unfoldable pub is_refused : (Text → Bool) → Source → Cookie → Bool
unfolding has_invalid_prefix is_cross_site
is_refused is_public_suffix source c =
    c.partitioned
    || ((c.domain_specified && is_public_suffix c.domain)
        || ((c.domain_specified && source.is_ip)
            || ((c.secure && not source.is_secure)
                || ((is_cross_site c.same_site && not c.secure) || has_invalid_prefix c))))

-- Back to the cookie of before, if there was one.
unfoldable pub restore : Option Cookie → Jar → Jar
unfolding set_cookie
restore none jar = jar
restore (some previous) jar = set_cookie previous jar

abbrev pub is_object : Option Cookie → Cookie → Bool
is_object none c = false
is_object (some previous) c = previous.identity == c.identity

module _ (is_public_suffix : Text → Bool) (source : Source) (existing : Jar) where
  -- One round of the loop over the cookies of the jar.
  unfoldable pub check_cookie : Cookie → Jar → Jar
  unfolding find_cookie clear restore is_refused
  check_cookie c jar =
      let previous = find_cookie (key_of c) existing in
      if is_object previous c
      then jar
      else if is_refused is_public_suffix source c
      then restore previous (clear (key_of c) jar)
      else jar

  unfoldable pub check_cookies : List Cookie → Jar → Jar
  unfolding check_cookie
  check_cookies [] jar = jar
  check_cookies (c ∷ cookies) jar = check_cookies cookies (check_cookie c jar)

-- `_extract_response_cookies`; `extract` is `CookieJar.extract_cookies` for the response.
unfoldable pub extract_response_cookies : (Text → Bool) → Source → (Jar → Jar) → Jar → Jar
unfolding check_cookies
extract_response_cookies is_public_suffix source extract existing =
    check_cookies is_public_suffix source existing (extract existing) (extract existing)
