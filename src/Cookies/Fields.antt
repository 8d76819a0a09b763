-- ===== src/Cookies/Fields.antt =====
-- The fields of a cookie of a request, each checked by itself as `_validate_cookie` of
-- src/camouflare/models.py checks it. A text is the list of its characters, all of them ASCII.
use camouflare.Prelude.{
  ◌==◌, leb, ltb, length, contains, if◌then◌else◌, ℕ, Bool, true, false, not, ◌&&◌, ◌||◌, [], ◌∷◌,
  Option, none, some,
}
use camouflare.Http.Urls.{
  Text, same_text, lower, any_char, is_space, is_control, Parts, is_requestable,
}
use camouflare.Cookies.Jar.{starts_with, none_text}

-- A value of JSON, as far as the checks tell values apart; numbers go by a code.
pub data Json : Type 0 where
  null : Json
  boolean : Bool → Json
  number : ℕ → Json
  text : Text → Json
  other : ℕ → Json

-- The fields that are read; a field that is not given is `none`.
pub record RawCookie : Type 0 where
  pub name : Option Json
  pub value : Option Json
  pub url : Option Json
  pub domain : Option Json
  pub path : Option Json
  pub expires : Option Json
  pub expiry : Option Json
  pub http_only : Option Json
  pub secure : Option Json
  pub same_site : Option Json
  pub partition_key : Option Json

-- What the checks ask of libraries: Python's `==`, `math.isfinite`, `urlsplit` (nothing on ValueError),
-- `ip_address`, and the public suffix list.
pub record CookieLibrary : Type 0 where
  pub same_value : Json → Json → Bool
  pub is_finite : ℕ → Bool
  pub urlsplit : Text → Option Parts
  pub is_ip : Text → Bool
  pub is_public_suffix : Text → Bool

pub data CookieError : Type 0 where
  invalid_name invalid_value conflicting_expiry invalid_same_site both_scopes invalid_url :
      CookieError
  invalid_domain public_suffix no_scope invalid_path invalid_flag invalid_expires : CookieError
  invalid_partition_key insecure_partition insecure_same_site insecure_prefix : CookieError
  invalid_host_scope : CookieError

pub data Checked (A : Type 0) : Type 0 where
  valid : A → Checked A
  invalid : CookieError → Checked A

infixl 5 ◌>>=◌ ◌>>◌
abbrev pub ◌>>=◌ : {A B : Type 0} → Checked A → (A → Checked B) → Checked B
valid a >>= f = f a
invalid e >>= f = invalid e

abbrev pub ◌>>◌ : {B : Type 0} → Checked (Unit {0}) → Checked B → Checked B
m >> n = m >>= λ _. n

-- `if not b: raise`
abbrev pub guard : Bool → CookieError → Checked (Unit {0})
guard true e = valid tt
guard false e = invalid e

abbrev pub is_letter_or_digit : ℕ → Bool
is_letter_or_digit c = (leb 48 c && leb c 57) || ((leb 65 c && leb c 90) || (leb 97 c && leb c 122))

-- `_COOKIE_NAME`
unfoldable pub is_name_char : ℕ → Bool
unfolding contains
is_name_char c =
    is_letter_or_digit c
    || contains (33 ∷ 35 ∷ 36 ∷ 37 ∷ 38 ∷ 39 ∷ 42 ∷ 43 ∷ 45 ∷ 46 ∷ 94 ∷ 95 ∷ 96 ∷ 124 ∷ 126 ∷ []) c

abbrev pub is_nonempty : Text → Bool
is_nonempty [] = false
is_nonempty (c ∷ cs) = true

unfoldable pub is_cookie_name : Text → Bool
unfolding any_char is_name_char
is_cookie_name name = is_nonempty name && not (any_char (λ c. not (is_name_char c)) name)

-- `_COOKIE_VALUE`
abbrev pub is_value_char : ℕ → Bool
is_value_char c = (leb 32 c && leb c 126) && not (c == 59)

unfoldable pub is_cookie_value : Text → Bool
unfolding any_char
is_cookie_value value = not (any_char (λ c. not (is_value_char c)) value)

unfoldable pub check_name : Option Json → Checked Text
unfolding is_cookie_name
check_name (some (text name)) = if is_cookie_name name then valid name else invalid invalid_name
check_name _ = invalid invalid_name

unfoldable pub check_value : Option Json → Checked Text
unfolding is_cookie_value
check_value (some (text value)) =
    if is_cookie_value value then valid value else invalid invalid_value
check_value _ = invalid invalid_value

-- The one of `expires` and `expiry` that counts.
unfoldable pub check_expiry : CookieLibrary → Option Json → Option Json → Checked (Option Json)
check_expiry l expires none = valid expires
check_expiry l none (some v) = valid (some v)
check_expiry l (some w) (some v) =
    if l.same_value w v then valid (some v) else invalid conflicting_expiry

abbrev pub is_valid_expires : CookieLibrary → Option Json → Bool
is_valid_expires l none = true
is_valid_expires l (some (number n)) = l.is_finite n
is_valid_expires l (some _) = false

pub data SameSite : Type 0 where
  strict lax cross_site : SameSite

abbrev pub strict_text : Text
strict_text = 115 ∷ 116 ∷ 114 ∷ 105 ∷ 99 ∷ 116 ∷ []

abbrev pub lax_text : Text
lax_text = 108 ∷ 97 ∷ 120 ∷ []

-- `_COOKIE_SAME_SITE_VALUES.get(same_site.casefold())`
unfoldable pub canonical_same_site : Text → Option SameSite
unfolding same_text lower
canonical_same_site t =
    if same_text (lower t) strict_text
    then some strict
    else if same_text (lower t) lax_text
    then some lax
    else if same_text (lower t) none_text
    then some cross_site
    else none

unfoldable pub check_same_site : Option Json → Checked (Option SameSite)
unfolding canonical_same_site
check_same_site none = valid none
check_same_site (some (text t)) = elim (canonical_same_site t) [
  | none ↦ invalid invalid_same_site
  | some v ↦ valid (some v)
]
check_same_site (some _) = invalid invalid_same_site

unfoldable pub check_flag : Option Json → Checked (Option Bool)
check_flag none = valid none
check_flag (some (boolean b)) = valid (some b)
check_flag (some _) = invalid invalid_flag

-- `_validate_absolute_http_url`
unfoldable pub is_absolute_http_url : CookieLibrary → Text → Bool
unfolding any_char is_control is_requestable
is_absolute_http_url l url =
    not (any_char is_control url)
    && elim (l.urlsplit url) [ none ↦ false | some p ↦ is_requestable p ]

-- One label, reversed: `last` is its first character so far.
abbrev pub ends_well : Text → Bool
ends_well [] = false
ends_well (c ∷ []) = is_letter_or_digit c
ends_well (c ∷ d ∷ cs) = ends_well (d ∷ cs)

abbrev pub is_label : Text → Bool
unfolding any_char
is_label [] = false
is_label (c ∷ cs) =
    ltb (length (c ∷ cs)) 64
    && (is_letter_or_digit c
        && (ends_well (c ∷ cs)
            && not (any_char (λ d. not (is_letter_or_digit d || (d == 45))) (c ∷ cs))))

-- The labels that dots separate; `label` is the one that is being read, backwards.
unfoldable pub are_labels : Text → Text → Bool
unfolding any_char
are_labels label [] = is_label label
are_labels label (c ∷ cs) =
    let next = are_labels [] cs in
    let more = are_labels (c ∷ label) cs in if c == 46 then is_label label && next else more

unfoldable pub strip_dots : Text → Text
strip_dots [] = []
strip_dots (c ∷ cs) = let rest = strip_dots cs in if c == 46 then rest else c ∷ cs

unfoldable pub ends_with_dot : Text → Bool
ends_with_dot [] = false
ends_with_dot (c ∷ []) = c == 46
ends_with_dot (c ∷ d ∷ cs) = ends_with_dot (d ∷ cs)

-- `_valid_cookie_domain`
unfoldable pub is_valid_domain : CookieLibrary → Text → Bool
unfolding any_char is_space contains starts_with are_labels strip_dots ends_with_dot
is_valid_domain l domain =
    let host = strip_dots domain in
    (is_nonempty domain
      && (not (starts_with (46 ∷ 46 ∷ []) domain)
          && (not (ends_with_dot domain)
              && not
                  (any_char (λ c. is_space c || contains (47 ∷ 64 ∷ 63 ∷ 35 ∷ 58 ∷ []) c) domain))))
    && (l.is_ip host || (leb (length host) 253 && are_labels [] host))
