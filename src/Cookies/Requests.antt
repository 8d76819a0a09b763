-- ===== src/Cookies/Requests.antt =====
-- `_validate_cookie` of src/camouflare/models.py: the checks of a request's cookie, in their order.
use camouflare.Prelude.{
  if◌then◌else◌, Bool, true, false, not, ◌&&◌, ◌||◌, [], ◌∷◌, Option, none, some,
}
use camouflare.Http.Urls.{
  Text, same_text, strip_start, strip_end, remove_quotes, any_char, is_control,
}
use camouflare.Cookies.Jar.{starts_with, secure_prefix, host_prefix, root_path}
use camouflare.Cookies.Fields.{
  ◌>>=◌, ◌>>◌, Json, null, text, RawCookie, CookieLibrary, both_scopes, invalid_url, invalid_domain,
  public_suffix, no_scope, invalid_path, invalid_expires, invalid_partition_key, insecure_partition,
  insecure_same_site, insecure_prefix, invalid_host_scope, Checked, valid, invalid, guard,
  check_name, check_value, check_expiry, is_valid_expires, SameSite, cross_site, check_same_site,
  check_flag, is_absolute_http_url, is_valid_domain,
}

-- What is handed to the browser: fields without a value are left out.
pub record RequestCookie : Type 0 where
  pub name : Text
  pub value : Text
  pub url : Option Text
  pub domain : Option Text
  pub path : Option Text
  pub expires : Option Json
  pub secure : Option Bool
  pub http_only : Option Bool
  pub same_site : Option SameSite
  pub partition_key : Option Text

-- `cookie.get(field) is not None`
abbrev pub is_given : Option Json → Bool
is_given none = false
is_given (some null) = false
is_given (some _) = true

-- The URL or the domain that scopes the cookie.
abbrev pub Scope : Type 0
Scope = Option Text × Option Text

unfoldable pub url_scope : CookieLibrary → Json → Checked Scope
unfolding is_absolute_http_url
url_scope l (text url) =
    if is_absolute_http_url l url then valid (some url, none) else invalid invalid_url
url_scope l _ = invalid invalid_url

unfoldable pub domain_scope : CookieLibrary → Json → Checked Scope
unfolding is_valid_domain
domain_scope l (text domain) =
    if not (is_valid_domain l domain)
    then invalid invalid_domain
    else if l.is_public_suffix domain
    then invalid public_suffix
    else valid (none, some domain)
domain_scope l _ = invalid invalid_domain

-- The target URL of the request; an empty one is none.
unfoldable pub target_scope : Option Text → Checked Scope
unfolding strip_start strip_end remove_quotes
target_scope none = invalid no_scope
target_scope (some []) = invalid no_scope
target_scope (some (c ∷ cs)) = valid (some (strip_end (strip_start (remove_quotes (c ∷ cs)))), none)

abbrev pub or_null : Option Json → Json
or_null none = null
or_null (some v) = v

unfoldable pub check_scope : CookieLibrary → Option Text → Option Json → Option Json → Checked Scope
unfolding url_scope domain_scope target_scope
check_scope l target url domain =
    if is_given url
    then url_scope l (or_null url)
    else if is_given domain
    then domain_scope l (or_null domain)
    else target_scope target

unfoldable pub check_path_text : Option Json → Checked (Option Text)
unfolding any_char is_control starts_with
check_path_text (some (text path)) =
    if not (starts_with root_path path)
    then invalid invalid_path
    else if any_char is_control path
    then invalid invalid_path
    else valid (some path)
check_path_text _ = invalid invalid_path

-- The path that is given; a domain has the path "/" without one.
unfoldable pub check_path : Bool → Option Json → Checked (Option Text)
unfolding check_path_text
check_path has_domain none = if has_domain then valid (some root_path) else valid none
check_path has_domain (some v) = check_path_text (some v)

-- `normalized_input.get("secure")` is true.
abbrev pub is_true : Option Bool → Bool
is_true none = false
is_true (some b) = b

unfoldable pub check_partition : CookieLibrary → Option Json → Option Bool → Checked (Option Text)
unfolding is_absolute_http_url
check_partition l none secure = valid none
check_partition l (some (text key)) secure =
    if not (is_absolute_http_url l key)
    then invalid invalid_partition_key
    else if is_true secure
    then valid (some key)
    else invalid insecure_partition
check_partition l (some _) secure = invalid invalid_partition_key

abbrev pub is_cross_site : Option SameSite → Bool
is_cross_site (some cross_site) = true
is_cross_site _ = false

abbrev pub is_url_scope : Scope → Bool
is_url_scope (some url, domain) = true
is_url_scope (none, domain) = false

-- `normalized.get("path", "/") == "/"`
abbrev pub is_root : Option Text → Bool
unfolding same_text
is_root none = true
is_root (some path) = same_text path root_path

-- The tests that relate the fields to each other.
unfoldable pub check_security :
    Text → Scope → Option Text → Option Bool → Option SameSite → Checked (Unit {0})
unfolding starts_with same_text
check_security name scope path secure same_site = do
  guard (not (is_cross_site same_site) || is_true secure) insecure_same_site
  guard (not (starts_with secure_prefix name) || is_true secure) insecure_prefix
  guard
      (not (starts_with host_prefix name)
        || (is_true secure && (is_url_scope scope && is_root path)))
      invalid_host_scope

unfoldable pub validate_cookie : CookieLibrary → Option Text → RawCookie → Checked RequestCookie
unfolding check_name check_value check_expiry check_same_site check_scope check_path check_flag
    check_partition check_security
validate_cookie l target c = do
  name ← check_name c.name
  value ← check_value c.value
  expires ← check_expiry l c.expires c.expiry
  same_site ← check_same_site c.same_site
  guard (not (is_given c.url && is_given c.domain)) both_scopes
  scope ← check_scope l target c.url c.domain
  path ← check_path (is_given c.domain) c.path
  secure ← check_flag c.secure
  http_only ← check_flag c.http_only
  guard (is_valid_expires l expires) invalid_expires
  partition_key ← check_partition l c.partition_key secure
  check_security name scope path secure same_site
  valid (record {
    name = name;
    value = value;
    url = scope.0;
    domain = scope.1;
    path = path;
    expires = expires;
    secure = secure;
    http_only = http_only;
    same_site = same_site;
    partition_key = partition_key;
  })
