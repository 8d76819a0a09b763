-- ===== src/Cookies/Latest.antt =====
-- The merge of src/camouflare/solution.py keeps the last cookie of each key, and none twice.
use camouflare.Prelude.{
  if◌then◌else◌, List, [], ◌∷◌, ◌++◌, Option, none, some, ◌≡◌, refl, ◌∙◌, ap, arith, if-holds,
}
use camouflare.Http.Urls.{Text}
use camouflare.Cookies.Jar.{same_key, Key}
use camouflare.Cookies.Policy.{same_key_refl, same_key-eq}
use camouflare.Cookies.Merge.{
  SolutionCookie, UrlParts, solution_cookie, merge_key, Merged, put_cookie, find_merged, merge_into,
  merge_solution_cookies,
}

find_merged-put_cookie :
    (k j : Key) (c : SolutionCookie) (merged : Merged)
    → find_merged j (put_cookie k c merged)
      ≡ (if same_key k j then some c else find_merged j merged)
unfolding find_merged put_cookie
find_merged-put_cookie k j c [] = refl
find_merged-put_cookie k j c ((i, d) ∷ merged) = ground (
  arith,
  same_key_refl i,
  same_key-eq i k,
  same_key-eq i j,
  same_key-eq k j,
  find_merged-put_cookie k j c merged,
)

-- No key stands twice.
abbrev pub IsUnique : Merged → Type 0
IsUnique [] = Unit
IsUnique ((k, c) ∷ merged) = (find_merged k merged ≡ none) × IsUnique merged

put_cookie-IsUnique :
    (k : Key) (c : SolutionCookie) (merged : Merged)
    → IsUnique merged
    → IsUnique (put_cookie k c merged)
unfolding put_cookie find_merged
put_cookie-IsUnique k c [] u = (refl, tt)
put_cookie-IsUnique k c ((j, d) ∷ merged) u =
    if-holds IsUnique (same_key j k) _ _ (λ _. u)
      (λ other. (
        find_merged-put_cookie k j c merged
            ∙ ground (arith, other, u.0, same_key_refl j, same_key-eq k j),
        put_cookie-IsUnique k c merged u.1,
      ))

module _ (split : Text → UrlParts) where
  -- The last cookie of a key, normalized, or what was there before.
  abbrev pub last_of :
      Key → Option SolutionCookie → List (Option SolutionCookie) → Option SolutionCookie
  last_of k before [] = before
  last_of k before (none ∷ cookies) = last_of k before cookies
  last_of k before (some c ∷ cookies) =
      let normalized = solution_cookie split c in
      last_of k (if same_key (merge_key normalized) k then some normalized else before) cookies

  find_merged-merge_into :
      (k : Key) (merged : Merged) (cookies : List (Option SolutionCookie))
      → find_merged k (merge_into split merged cookies) ≡ last_of k (find_merged k merged) cookies
  unfolding merge_into
  find_merged-merge_into k merged [] = refl
  find_merged-merge_into k merged (none ∷ cookies) = find_merged-merge_into k merged cookies
  find_merged-merge_into k merged (some c ∷ cookies) =
      let normalized = solution_cookie split c in
      find_merged-merge_into k (put_cookie (merge_key normalized) normalized merged) cookies
      ∙ ap (λ o. last_of k o cookies)
          (find_merged-put_cookie (merge_key normalized) k normalized merged)

  merge_into-IsUnique :
      (merged : Merged) (cookies : List (Option SolutionCookie))
      → IsUnique merged
      → IsUnique (merge_into split merged cookies)
  unfolding merge_into
  merge_into-IsUnique merged [] u = u
  merge_into-IsUnique merged (none ∷ cookies) u = merge_into-IsUnique merged cookies u
  merge_into-IsUnique merged (some c ∷ cookies) u =
      let normalized = solution_cookie split c in
      merge_into-IsUnique (put_cookie (merge_key normalized) normalized merged) cookies
        (put_cookie-IsUnique (merge_key normalized) normalized merged u)

-- In the merge of two lists of cookies no key stands twice, and to each key belongs the last cookie
-- of the two lists, one after the other, that has this key once it is normalized.
pub merge_solution_cookies-IsUnique :
    (split : Text → UrlParts) (context_cookies response_cookies : List (Option SolutionCookie))
    (k : Key)
    → IsUnique (merge_solution_cookies split context_cookies response_cookies)
      × (find_merged k (merge_solution_cookies split context_cookies response_cookies)
          ≡ last_of split k none (context_cookies ++ response_cookies))
unfolding merge_solution_cookies find_merged
merge_solution_cookies-IsUnique split context_cookies response_cookies k = (
  merge_into-IsUnique split [] (context_cookies ++ response_cookies) tt,
  find_merged-merge_into split k [] (context_cookies ++ response_cookies),
)
