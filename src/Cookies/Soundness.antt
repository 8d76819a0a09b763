-- ===== src/Cookies/Soundness.antt =====
-- What the cookies that pass `_validate_cookie` of src/camouflare/models.py have in common.
use camouflare.Prelude.{
  inr, inl, ◌≢◌, Bool, true, false, not, [], ◌∷◌, Option, none, some, ◌≡◌, refl, subst, ◌⊎◌, arith,
  if-holds,
}
use camouflare.Http.Urls.{is_control, any_char, remove_quotes, strip_start, strip_end, Text}
use camouflare.Cookies.Jar.{starts_with, root_path, secure_prefix, host_prefix}
use camouflare.Cookies.Fields.{
  RawCookie, check_name, check_value, is_cookie_value, is_valid_domain, is_absolute_http_url, ◌>>=◌,
  Json, text, CookieLibrary, CookieError, Checked, valid, invalid, guard, SameSite, cross_site,
  is_cookie_name, is_valid_expires,
}
use camouflare.Cookies.Requests.{
  is_given, check_path_text, check_path, check_partition, check_scope, or_null, target_scope,
  domain_scope, url_scope, Scope, RequestCookie, is_true,
}

-- The URL is that of the request, which is not empty, without quotes and outer spaces.
abbrev pub IsTarget : Option Text → Text → Type 0
IsTarget none url = ⊥
IsTarget (some []) url = ⊥
IsTarget (some (c ∷ cs)) url = url ≡ strip_end (strip_start (remove_quotes (c ∷ cs)))

-- The cookie has a URL, an absolute one or that of the request, or a valid domain that is no public
-- suffix, but not both.
abbrev pub IsScope : CookieLibrary → Option Text → Option Text → Option Text → Type 0
IsScope l target (some url) (some domain) = ⊥
IsScope l target (some url) none = (is_absolute_http_url l url ≡ true) ⊎ IsTarget target url
IsScope l target none (some domain) =
    (is_valid_domain l domain ≡ true) × (l.is_public_suffix domain ≡ false)
IsScope l target none none = ⊥

-- A path that is there starts with "/" and has no control character.
abbrev pub IsPath : Option Text → Type 0
IsPath none = Unit
IsPath (some path) = (starts_with root_path path ≡ true) × (any_char is_control path ≡ false)

-- A partitioned cookie is secure, and its partition key is an absolute URL.
abbrev pub IsPartition : CookieLibrary → Option Text → Option Bool → Type 0
IsPartition l none secure = Unit
IsPartition l (some key) secure = (is_absolute_http_url l key ≡ true) × (is_true secure ≡ true)

-- The rules of SameSite and of the prefixes of names.
pub record IsSecured (name : Text) (url path : Option Text) (secure : Option Bool)
    (same_site : Option SameSite) : Type 0 where
  pub cross_site_secure : same_site ≡ some cross_site → is_true secure ≡ true
  pub prefix_secure : starts_with secure_prefix name ≡ true → is_true secure ≡ true
  pub host_secure : starts_with host_prefix name ≡ true → is_true secure ≡ true
  pub host_url : starts_with host_prefix name ≡ true → url ≢ none
  pub host_root : starts_with host_prefix name ≡ true → (path ≡ none) ⊎ (path ≡ some root_path)

-- What passes as `c` for the fields `raw`, in a request for the URL `target`.
pub record IsSound (l : CookieLibrary) (target : Option Text) (raw : RawCookie) (c : RequestCookie)
    : Type 0 where
  pub name : is_cookie_name c.name ≡ true
  pub value : is_cookie_value c.value ≡ true
  pub scope : IsScope l target c.url c.domain
  pub by_domain : is_given raw.domain ≡ true → c.url ≡ none
  pub path : IsPath c.path
  pub expires : is_valid_expires l c.expires ≡ true
  pub partition : IsPartition l c.partition_key c.secure
  pub secured : IsSecured c.name c.url c.path c.secure c.same_site

-- What a sequence that passes has passed.
pub and_so :
    {A B G : Type 0} (m : Checked A) (f : A → Checked B) {b : B}
    → (m >>= f) ≡ valid b
    → ((a : A) → m ≡ valid a → f a ≡ valid b → G)
    → G
and_so (valid a) f h k = k a refl h
and_so (invalid e) f h k = absurd (ground (arith, h))

pub guarded : (b : Bool) (e : CookieError) {u : Unit {0}} → guard b e ≡ valid u → b ≡ true
guarded true e h = refl
guarded false e h = absurd (ground (arith, h))

pub check_name-passes :
    (o : Option Json) {name : Text} → check_name o ≡ valid name → is_cookie_name name ≡ true
unfolding check_name
check_name-passes (some (text t)) {name} =
    if-holds (λ (r : Checked Text). r ≡ valid name → is_cookie_name name ≡ true) (is_cookie_name t)
      _ _
      (λ e h.
        let same : t ≡ name = ground (arith, h) in subst (λ n. is_cookie_name n ≡ true) same e)
      (λ _ h. absurd (ground (arith, h)))
check_name-passes _ = λ h. absurd (ground (arith, h))

pub check_value-passes :
    (o : Option Json) {value : Text} → check_value o ≡ valid value → is_cookie_value value ≡ true
unfolding check_value
check_value-passes (some (text t)) {value} =
    if-holds (λ (r : Checked Text). r ≡ valid value → is_cookie_value value ≡ true)
      (is_cookie_value t) _ _
      (λ e h.
        let same : t ≡ value = ground (arith, h) in subst (λ n. is_cookie_value n ≡ true) same e)
      (λ _ h. absurd (ground (arith, h)))
check_value-passes _ = λ h. absurd (ground (arith, h))

module _ (l : CookieLibrary) (target : Option Text) where
  url_scope-IsScope :
      (v : Json) {scope : Scope} → url_scope l v ≡ valid scope → IsScope l target scope.0 scope.1
  unfolding url_scope
  url_scope-IsScope (text t) {scope} =
      if-holds (λ (r : Checked Scope). r ≡ valid scope → IsScope l target scope.0 scope.1)
        (is_absolute_http_url l t) _ _
        (λ e h.
          let same : (some t, none) ≡ scope = ground (arith, h) in
          subst (λ (u : Scope). IsScope l target u.0 u.1) same (inl e))
        (λ _ h. absurd (ground (arith, h)))
  url_scope-IsScope _ = λ h. absurd (ground (arith, h))

  domain_scope-IsScope :
      (v : Json) {scope : Scope} → domain_scope l v ≡ valid scope → IsScope l target scope.0 scope.1
  unfolding domain_scope
  domain_scope-IsScope (text t) {scope} =
      if-holds Passes (not (is_valid_domain l t)) _ _ (λ _ h. absurd (ground (arith, h)))
        (λ is_valid.
          if-holds Passes (l.is_public_suffix t) _ _ (λ _ h. absurd (ground (arith, h)))
            (λ private h.
              let same : (none, some t) ≡ scope = ground (arith, h) in
              subst (λ (u : Scope). IsScope l target u.0 u.1) same
                (ground (arith, is_valid), private)))
    where
      Passes : Checked Scope → Type 0
      Passes r = r ≡ valid scope → IsScope l target scope.0 scope.1
  domain_scope-IsScope _ = λ h. absurd (ground (arith, h))

  target_scope-IsScope :
      {scope : Scope} → target_scope target ≡ valid scope → IsScope l target scope.0 scope.1
  unfolding target_scope
  target_scope-IsScope {scope} = by_target target
    where
      by_target : (o : Option Text) → target_scope o ≡ valid scope → IsScope l o scope.0 scope.1
      by_target none = λ h. absurd (ground (arith, h))
      by_target (some []) = λ h. absurd (ground (arith, h))
      by_target (some (c ∷ cs)) = λ h.
          let url = strip_end (strip_start (remove_quotes (c ∷ cs))) in
          let same : (some url, none) ≡ scope = ground (arith, h) in
          subst (λ (u : Scope). IsScope l (some (c ∷ cs)) u.0 u.1) same (inr refl)

  pub check_scope-IsScope :
      (url domain : Option Json) {scope : Scope}
      → check_scope l target url domain ≡ valid scope
      → IsScope l target scope.0 scope.1
  unfolding check_scope
  check_scope-IsScope url domain {scope} =
      if-holds (λ (r : Checked Scope). r ≡ valid scope → IsScope l target scope.0 scope.1)
        (is_given url) _ _ (λ _. url_scope-IsScope (or_null url))
        (λ _.
          if-holds (λ (r : Checked Scope). r ≡ valid scope → IsScope l target scope.0 scope.1)
            (is_given domain) _ _ (λ _. domain_scope-IsScope (or_null domain))
            (λ _. target_scope-IsScope))

module _ (l : CookieLibrary) where
  pub check_partition-IsPartition :
      (o : Option Json) (secure : Option Bool) {key : Option Text}
      → check_partition l o secure ≡ valid key
      → IsPartition l key secure
  unfolding check_partition
  check_partition-IsPartition none secure {key} =
      λ h. let same : none ≡ key = ground (arith, h) in subst (λ k. IsPartition l k secure) same tt
  check_partition-IsPartition (some (text t)) secure {key} =
      if-holds Passes (not (is_absolute_http_url l t)) _ _ (λ _ h. absurd (ground (arith, h)))
        (λ absolute.
          if-holds Passes (is_true secure) _ _
            (λ e h.
              let same : some t ≡ key = ground (arith, h) in
              subst (λ k. IsPartition l k secure) same (ground (arith, absolute), e))
            (λ _ h. absurd (ground (arith, h))))
    where
      Passes : Checked (Option Text) → Type 0
      Passes r = r ≡ valid key → IsPartition l key secure
  check_partition-IsPartition (some _) secure = λ h. absurd (ground (arith, h))

check_path_text-IsPath :
    (o : Option Json) {path : Option Text} → check_path_text o ≡ valid path → IsPath path
unfolding check_path_text
check_path_text-IsPath (some (text t)) {path} =
    if-holds Passes (not (starts_with root_path t)) _ _ (λ _ h. absurd (ground (arith, h)))
      (λ e.
        if-holds Passes (any_char is_control t) _ _ (λ _ h. absurd (ground (arith, h)))
          (λ printable h.
            let same : some t ≡ path = ground (arith, h) in
            subst IsPath same (ground (arith, e), printable)))
  where
    Passes : Checked (Option Text) → Type 0
    Passes r = r ≡ valid path → IsPath path
check_path_text-IsPath _ = λ h. absurd (ground (arith, h))

pub check_path-IsPath :
    (b : Bool) (o : Option Json) {path : Option Text} → check_path b o ≡ valid path → IsPath path
unfolding check_path starts_with any_char is_control
check_path-IsPath true none {path} =
    λ h. let same : some root_path ≡ path = ground (arith, h) in subst IsPath same (ground arith)
check_path-IsPath false none {path} =
    λ h. let same : none ≡ path = ground (arith, h) in subst IsPath same tt
check_path-IsPath b (some v) = check_path_text-IsPath (some v)
