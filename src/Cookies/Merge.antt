-- ===== src/Cookies/Merge.antt =====
-- The cookies of a solution in src/camouflare/solution.py: `_solution_cookie` and
-- `_merge_solution_cookies`. A text is the list of its characters, all of them ASCII.
use camouflare.Prelude.{
  ◌==◌, if◌then◌else◌, ℕ, Bool, true, false, List, [], ◌∷◌, ◌++◌, Option, none, some,
}
use camouflare.Http.Urls.{Text, lower}
use camouflare.Cookies.Jar.{Key, same_key, root_path}

-- A cookie as a dictionary: the fields that are read, where they are there. Numbers go by a code, in
-- which 0 is -1.
pub record SolutionCookie : Type 0 where
  pub name : Option Text
  pub value : Option Text
  pub domain : Option Text
  pub path : Option Text
  pub url : Option Text
  pub expires : Option ℕ
  pub expiry : Option ℕ

-- The hostname and the path that `urlsplit` finds.
pub record UrlParts : Type 0 where
  pub hostname : Option Text
  pub path : Text

-- `text.rsplit("/", 1)[0]`, if there is a "/".
unfoldable pub before_last_slash : Text → Option Text
before_last_slash [] = none
before_last_slash (c ∷ cs) = elim (before_last_slash cs) [
  | some start ↦ some (c ∷ start)
  | none ↦ if c == 47 then some [] else none
]

-- `d.get(field)` is true.
abbrev pub is_filled : Option Text → Bool
is_filled none = false
is_filled (some []) = false
is_filled (some (c ∷ cs)) = true

abbrev pub or_root : Text → Text
or_root [] = root_path
or_root (c ∷ cs) = c ∷ cs

abbrev pub parent_path : Text → Text
unfolding before_last_slash
parent_path path = elim (before_last_slash path) [
  | none ↦ or_root path
  | some start ↦ or_root start
]

abbrev pub or_else {ℓ} : {A : Type ℓ} → Option A → Option A → Option A
or_else none o = o
or_else (some a) o = some a

unfoldable pub scoped_cookie : (Text → UrlParts) → Option Text → SolutionCookie → SolutionCookie
unfolding before_last_slash
scoped_cookie split none c = c
scoped_cookie split (some []) c = c
scoped_cookie split (some (x ∷ url)) c =
    let parts = split (x ∷ url) in
    if is_filled c.domain then c else record c {
      domain = or_else parts.hostname c.domain;
      path = if is_filled c.path then c.path else some (parent_path parts.path);
    }

-- `expiry` beside an `expires` that is there and not -1.
abbrev pub with_expiry : Option ℕ → Option ℕ → Option ℕ
with_expiry expires (some n) = some n
with_expiry none none = none
with_expiry (some n) none = if n == 0 then none else some n

unfoldable pub solution_cookie : (Text → UrlParts) → SolutionCookie → SolutionCookie
unfolding scoped_cookie
solution_cookie split c =
    let scoped = scoped_cookie split c.url (record c { url = none }) in
    record scoped {
      path = or_else scoped.path (some root_path);
      expiry = with_expiry scoped.expires scoped.expiry;
    }

abbrev pub or_empty : Option Text → Text
or_empty none = []
or_empty (some t) = t

abbrev pub key_text : Option Text → Text → Text
key_text none d = d
key_text (some t) d = t

unfoldable pub merge_key : SolutionCookie → Key
unfolding lower
merge_key c = (lower (key_text c.domain []), key_text c.path root_path, key_text c.name [])

abbrev pub Merged : Type 0
Merged = List (Key × SolutionCookie)

-- `merged[key] = cookie`
unfoldable pub put_cookie : Key → SolutionCookie → Merged → Merged
unfolding same_key
put_cookie k c [] = (k, c) ∷ []
put_cookie k c ((j, d) ∷ merged) =
    if same_key j k then (j, c) ∷ merged else (j, d) ∷ put_cookie k c merged

unfoldable pub find_merged : Key → Merged → Option SolutionCookie
unfolding same_key
find_merged k [] = none
find_merged k ((j, d) ∷ merged) = if same_key j k then some d else find_merged k merged

module _ (split : Text → UrlParts) where
  -- The loop of `_merge_solution_cookies`; what is no dictionary is `none`.
  unfoldable pub merge_into : Merged → List (Option SolutionCookie) → Merged
  unfolding solution_cookie merge_key put_cookie
  merge_into merged [] = merged
  merge_into merged (none ∷ cookies) = merge_into merged cookies
  merge_into merged (some c ∷ cookies) =
      let normalized = solution_cookie split c in
      merge_into (put_cookie (merge_key normalized) normalized merged) cookies

  unfoldable pub merge_solution_cookies :
      List (Option SolutionCookie) → List (Option SolutionCookie) → Merged
  unfolding merge_into
  merge_solution_cookies context_cookies response_cookies =
      merge_into [] (context_cookies ++ response_cookies)
