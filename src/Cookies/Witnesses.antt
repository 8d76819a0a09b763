-- ===== src/Cookies/Witnesses.antt =====
-- Concrete cookies, and the theorems at them.
use camouflare.Prelude.{contains, All, Bool, true, false, [], ◌∷◌, ◌++◌, none, some, ◌≡◌, refl}
use camouflare.Http.Urls.{
  Text, same_text, lower, any_char, is_space, is_control, strip_start, strip_end, remove_quotes,
  is_requestable,
}
use camouflare.Cookies.Jar.{
  Cookie, Source, set_cookie, starts_with, extract_response_cookies, secure_prefix,
}
use camouflare.Cookies.Policy.{IsAccepted, extract_response_cookies-IsAccepted}
use camouflare.Cookies.Merge.{SolutionCookie, find_merged, merge_solution_cookies}
use camouflare.Cookies.Latest.{IsUnique, last_of, merge_solution_cookies-IsUnique}
use camouflare.Cookies.Fields.{
  boolean, number, text, RawCookie, CookieLibrary, valid, is_name_char, is_cookie_name,
  is_cookie_value, check_name, check_value, check_expiry, canonical_same_site, check_same_site,
  check_flag, is_absolute_http_url, are_labels, strip_dots, ends_with_dot, is_valid_domain,
  cross_site,
}
use camouflare.Cookies.Requests.{
  RequestCookie, url_scope, domain_scope, target_scope, check_scope, check_path_text, check_path,
  check_partition, check_security, validate_cookie,
}
use camouflare.Cookies.Soundness.{IsSound}
use camouflare.Cookies.Validation.{validate_cookie-IsSound}

-- A cookie "a" of the host "h", and one with the same key that an insecure response sets as secure.
abbrev earlier : Cookie
earlier = record {
  identity = 1;
  name = 97 ∷ [];
  value = 49 ∷ [];
  domain = 104 ∷ [];
  path = 47 ∷ [];
  domain_specified = false;
  secure = true;
  partitioned = false;
  same_site = none;
}

abbrev intruder : Cookie
intruder = record earlier { identity = 2; value = 50 ∷ [] }

abbrev insecure : Source
insecure = record { is_secure = false; is_ip = false }

abbrev no_suffix : Text → Bool
no_suffix domain = false

extract_response_cookies-IsAccepted_example :
    All
      (IsAccepted no_suffix insecure (earlier ∷ []))
      (extract_response_cookies no_suffix insecure (set_cookie intruder) (earlier ∷ []))
extract_response_cookies-IsAccepted_example =
    extract_response_cookies-IsAccepted no_suffix insecure (set_cookie intruder) (earlier ∷ [])

abbrev collected : SolutionCookie
collected = record {
  name = some (97 ∷ []);
  value = some (49 ∷ []);
  domain = some (72 ∷ []);
  path = none;
  url = none;
  expires = some 9;
  expiry = none;
}

-- The same key, its domain in lower case.
abbrev renewed : SolutionCookie
renewed = record collected { domain = some (104 ∷ []); value = some (50 ∷ []) }

merge_solution_cookies-IsUnique_example :
    IsUnique (
      merge_solution_cookies
        (λ url. record { hostname = none; path = [] })
        (some collected ∷ none ∷ [])
        (some renewed ∷ []))
    × (find_merged
          (104 ∷ [], 47 ∷ [], 97 ∷ [])
          (merge_solution_cookies
            (λ url. record { hostname = none; path = [] })
            (some collected ∷ none ∷ [])
            (some renewed ∷ []))
        ≡ last_of
            (λ url. record { hostname = none; path = [] })
            (104 ∷ [], 47 ∷ [], 97 ∷ [])
            none
            (some collected ∷ none ∷ some renewed ∷ []))
merge_solution_cookies-IsUnique_example =
    merge_solution_cookies-IsUnique (λ url. record { hostname = none; path = [] })
      (some collected ∷ none ∷ []) (some renewed ∷ []) (104 ∷ [], 47 ∷ [], 97 ∷ [])

abbrev library : CookieLibrary
library = record {
  same_value = λ v w. true;
  is_finite = λ n. true;
  urlsplit = λ url. none;
  is_ip = λ host. false;
  is_public_suffix = no_suffix;
}

-- name = "__Secure-a", secure, for the domain ".h1".
abbrev raw_cookie : RawCookie
raw_cookie = record {
  name = some (text (secure_prefix ++ (97 ∷ [])));
  value = some (text []);
  url = none;
  domain = some (text (46 ∷ 104 ∷ 49 ∷ []));
  path = none;
  expires = none;
  expiry = some (number 7);
  http_only = none;
  secure = some (boolean true);
  same_site = some (text (78 ∷ 111 ∷ 110 ∷ 101 ∷ []));
  partition_key = none;
}

abbrev checked_cookie : RequestCookie
checked_cookie = record {
  name = secure_prefix ++ (97 ∷ []);
  value = [];
  url = none;
  domain = some (46 ∷ 104 ∷ 49 ∷ []);
  path = some (47 ∷ []);
  expires = some (number 7);
  secure = some true;
  http_only = none;
  same_site = some cross_site;
  partition_key = none;
}

validates_raw_cookie : validate_cookie library none raw_cookie ≡ valid checked_cookie
unfolding contains same_text lower any_char is_space is_control strip_start strip_end remove_quotes
    is_requestable starts_with is_name_char is_cookie_name is_cookie_value check_name check_value
    check_expiry canonical_same_site check_same_site check_flag is_absolute_http_url are_labels
    strip_dots ends_with_dot is_valid_domain url_scope domain_scope target_scope check_scope
    check_path_text check_path check_partition check_security validate_cookie
validates_raw_cookie = refl

validate_cookie-IsSound_example : IsSound library none raw_cookie checked_cookie
validate_cookie-IsSound_example =
    validate_cookie-IsSound library none raw_cookie checked_cookie validates_raw_cookie
