-- ===== src/Cookies/Validation.antt =====
-- Every cookie that passes `_validate_cookie` of src/camouflare/models.py keeps the rules.
use camouflare.Prelude.{
  if-holds, Bool, true, not, ◌&&◌, ◌||◌, Option, none, some, ◌≡◌, ◌≢◌, refl, subst, ap, ◌⊎◌, inl,
  inr, arith,
}
use camouflare.Http.Urls.{Text, same_text, same_text-eq}
use camouflare.Cookies.Jar.{starts_with, secure_prefix, root_path}
use camouflare.Cookies.Fields.{
  is_valid_domain, Checked, text, Json, RawCookie, CookieLibrary, insecure_same_site,
  insecure_prefix, both_scopes, invalid_expires, valid, guard, SameSite, check_name, check_value,
  check_expiry, check_same_site, check_flag, is_valid_expires,
}
use camouflare.Cookies.Requests.{
  or_null, domain_scope, RequestCookie, is_given, Scope, check_scope, check_path, is_true,
  check_partition, is_cross_site, is_url_scope, is_root, check_security, validate_cookie,
}
use camouflare.Cookies.Soundness.{
  IsSecured, IsSound, and_so, guarded, check_name-passes, check_value-passes, check_path-IsPath,
  check_scope-IsScope, check_partition-IsPartition,
}

url-of_scope : (scope : Scope) → is_url_scope scope ≡ true → scope.0 ≢ none
url-of_scope (some url, domain) h = λ e. ground (arith, e)
url-of_scope (none, domain) h = absurd (ground (arith, h))

path-of_root : (path : Option Text) → is_root path ≡ true → (path ≡ none) ⊎ (path ≡ some root_path)
unfolding same_text
path-of_root none h = inl refl
path-of_root (some t) h = inr (ap some (same_text-eq t root_path h))

domain_scope-url :
    (l : CookieLibrary) (v : Json) {scope : Scope} → domain_scope l v ≡ valid scope → scope.0 ≡ none
unfolding domain_scope
domain_scope-url l (text t) {scope} =
    if-holds Passes (not (is_valid_domain l t)) _ _ (λ _ h. absurd (ground (arith, h)))
      (λ _.
        if-holds Passes (l.is_public_suffix t) _ _ (λ _ h. absurd (ground (arith, h)))
          (λ _ h.
            let same : (none, some t) ≡ scope = ground (arith, h) in
            subst (λ (u : Scope). u.0 ≡ none) same refl))
  where
    Passes : Checked Scope → Type 0
    Passes r = r ≡ valid scope → scope.0 ≡ none
domain_scope-url l _ = λ h. absurd (ground (arith, h))

-- A cookie that is given a domain, and no URL beside it, is scoped by the domain alone.
check_scope-url :
    (l : CookieLibrary) (target : Option Text) (url domain : Option Json) {scope : Scope}
    → not (is_given url && is_given domain) ≡ true
    → check_scope l target url domain ≡ valid scope
    → is_given domain ≡ true
    → scope.0 ≡ none
unfolding check_scope
check_scope-url l target url domain {scope} one h given =
    if-holds Passes (is_given url) _ _ (λ e _. absurd (ground (arith, one, e, given)))
      (λ _.
        if-holds Passes (is_given domain) _ _ (λ _. domain_scope-url l (or_null domain))
          (λ e _. absurd (ground (arith, e, given))))
      h
  where
    Passes : Checked Scope → Type 0
    Passes r = r ≡ valid scope → scope.0 ≡ none

check_security-IsSecured :
    (name : Text) (scope : Scope) (path : Option Text) (secure : Option Bool)
    (same_site : Option SameSite) {u : Unit {0}}
    → check_security name scope path secure same_site ≡ valid u
    → IsSecured name scope.0 path secure same_site
unfolding check_security
check_security-IsSecured name scope path secure same_site h =
    and_so (guard (not (is_cross_site same_site) || is_true secure) insecure_same_site) _ h
      (λ _ e₁ k₁.
        and_so (guard (not (starts_with secure_prefix name) || is_true secure) insecure_prefix) _ k₁
          (λ _ e₂ k₂.
            let s₁ = guarded _ _ e₁ in
            let s₂ = guarded _ _ e₂ in
            let s₃ = guarded _ _ k₂ in
            record {
              cross_site_secure = λ e. ground (arith, s₁, e);
              prefix_secure = λ e. ground (arith, s₂, e);
              host_secure = λ e. ground (arith, s₃, e);
              host_url = λ e. url-of_scope scope (ground (arith, s₃, e));
              host_root = λ e. path-of_root path (ground (arith, s₃, e));
            }))

-- A cookie that passes has a name and a value of the allowed characters; either a URL, which is an
-- absolute one or that of the request, or a valid domain that is no public suffix, and no URL if a
-- domain is given for it; a path, if any, that starts with "/" and has no control character; an
-- expiry, if any, that is a finite number; a partition key, if any, that is an absolute URL. It is
-- secure if it is partitioned, if its SameSite is None, and if its name starts with "__Secure-" or
-- "__Host-"; with the latter it has a URL and no path but "/".
pub validate_cookie-IsSound :
    (l : CookieLibrary) (target : Option Text) (raw : RawCookie) (c : RequestCookie)
    → validate_cookie l target raw ≡ valid c
    → IsSound l target raw c
unfolding validate_cookie
validate_cookie-IsSound l target raw c h = and_so (check_name raw.name) _ h (λ name e₁ k₁.
    and_so (check_value raw.value) _ k₁ (λ value e₂ k₂.
      and_so (check_expiry l raw.expires raw.expiry) _ k₂ (λ expires e₃ k₃.
        and_so (check_same_site raw.same_site) _ k₃ (λ same_site e₄ k₄.
          and_so (guard (not (is_given raw.url && is_given raw.domain)) both_scopes) _ k₄
            (λ _ e₅ k₅. and_so (check_scope l target raw.url raw.domain) _ k₅ (λ scope e₆ k₆.
              and_so (check_path (is_given raw.domain) raw.path) _ k₆ (λ path e₇ k₇.
                and_so (check_flag raw.secure) _ k₇ (λ secure e₈ k₈.
                  and_so (check_flag raw.http_only) _ k₈ (λ http_only e₉ k₉.
                    and_so (guard (is_valid_expires l expires) invalid_expires) _ k₉ (λ _ e₁₀ k₁₀.
                      and_so (check_partition l raw.partition_key secure) _ k₁₀
                        (λ partition_key e₁₁ k₁₁.
                          and_so (check_security name scope path secure same_site) _ k₁₁
                            (λ _ e₁₂ k₁₂.
                              let made = made_of k₁₂ in
                              subst (IsSound l target raw) made (record {
                                name = check_name-passes raw.name e₁;
                                value = check_value-passes raw.value e₂;
                                scope = check_scope-IsScope l target raw.url raw.domain e₆;
                                by_domain =
                                    check_scope-url l target raw.url raw.domain (guarded _ _ e₅) e₆;
                                path = check_path-IsPath (is_given raw.domain) raw.path e₇;
                                expires = guarded _ _ e₁₀;
                                partition =
                                    check_partition-IsPartition l raw.partition_key secure e₁₁;
                                secured =
                                    check_security-IsSecured name scope path secure same_site e₁₂;
                              })))))))))))))
  where
    made_of : {d : RequestCookie} → valid d ≡ valid c → d ≡ c
    made_of e = ground (arith, e)
