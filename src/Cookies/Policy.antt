-- ===== src/Cookies/Policy.antt =====
-- The cookies that `_extract_response_cookies` of src/camouflare/http_transport.py leaves in the jar.
use camouflare.Prelude.{
  All-map, ==_iff, ◌∙◌, subst, sym, ap, All-append, All, Bool, true, false, List, [], ◌∷◌, Option,
  none, some, ◌≡◌, refl, ◌⊎◌, inl, inr, arith, if-holds,
}
use camouflare.Http.Urls.{Text, same_text, same_text-eq}
use camouflare.Cookies.Jar.{
  restore, check_cookies, check_cookie, extract_response_cookies, is_refused, is_object, set_cookie,
  clear, find_cookie, Cookie, Key, key_of, same_key, Jar, Source,
}

same_text_refl : (t : Text) → same_text t t ≡ true
unfolding same_text
same_text_refl [] = refl
same_text_refl (c ∷ cs) = ground (arith, same_text_refl cs)

pub same_key_refl : (k : Key) → same_key k k ≡ true
unfolding same_key
same_key_refl (a, b, c) = ground (arith, same_text_refl a, same_text_refl b, same_text_refl c)

pub same_key-eq : (k j : Key) → same_key k j ≡ true → k ≡ j
unfolding same_key
same_key-eq (a, b, c) (a', b', c') h =
    ground (arith, h, same_text-eq a a', same_text-eq b b', same_text-eq c c')

find_cookie-key : (k : Key) (jar : Jar) {c : Cookie} → find_cookie k jar ≡ some c → key_of c ≡ k
unfolding find_cookie
find_cookie-key k [] = λ h. absurd (ground (arith, h))
find_cookie-key k (d ∷ jar) {c} =
    if-holds (λ (o : Option Cookie). o ≡ some c → key_of c ≡ k) (same_key (key_of d) k) _ _
      (λ same h.
        let found : d ≡ c = ground (arith, h) in
        subst (λ e. key_of e ≡ k) found (same_key-eq (key_of d) k same))
      (λ _. find_cookie-key k jar)

-- A list holds this cookie.
abbrev pub Holds : List Cookie → Cookie → Type 0
Holds [] c = ⊥
Holds (d ∷ cookies) c = (c ≡ d) ⊎ Holds cookies c

-- The cookie was in the jar before the response, as the same object, or passes every test.
abbrev pub IsAccepted : (Text → Bool) → Source → Jar → Cookie → Type 0
IsAccepted is_public_suffix source existing c =
    ((previous : Cookie) × (find_cookie (key_of c) existing ≡ some previous)
      × (previous.identity ≡ c.identity))
    ⊎ (is_refused is_public_suffix source c ≡ false)

-- What is left after `clear` has another key.
clear-All :
    (P Q : Cookie → Type 0) (k : Key) (jar : Jar)
    → ((c : Cookie) → P c → same_key (key_of c) k ≡ false → Q c)
    → All P jar
    → All Q (clear k jar)
unfolding clear
clear-All P Q k [] h a = tt
clear-All P Q k (c ∷ jar) h a =
    if-holds (All Q) (same_key (key_of c) k) _ _ (λ _. clear-All P Q k jar h a.1)
      (λ other. (h c a.0 other, clear-All P Q k jar h a.1))

set_cookie-All :
    (Q : Cookie → Type 0) (c : Cookie) (jar : Jar) → Q c → All Q jar → All Q (set_cookie c jar)
unfolding set_cookie
set_cookie-All Q c jar h a =
    All-append Q (clear (key_of c) jar) (c ∷ []) (clear-All Q Q (key_of c) jar (λ d q _. q) a)
      (h, tt)

module _ (is_public_suffix : Text → Bool) (source : Source) (existing : Jar) where
  abbrev Accepted : Cookie → Type 0
  Accepted = IsAccepted is_public_suffix source existing

  -- While `cookies` are still to be tested, each cookie of the jar is accepted or one of them.
  abbrev Pending : List Cookie → Cookie → Type 0
  Pending cookies c = Accepted c ⊎ Holds cookies c

  previous-Accepted :
      (k : Key) (previous : Cookie) → find_cookie k existing ≡ some previous → Accepted previous
  previous-Accepted k previous e =
      inl (previous, ap (λ j. find_cookie j existing) (find_cookie-key k existing e) ∙ e, refl)

  restore-All :
      (cookies : List Cookie) (k : Key) (o : Option Cookie) (jar : Jar)
      → find_cookie k existing ≡ o
      → All (Pending cookies) jar
      → All (Pending cookies) (restore o jar)
  unfolding restore
  restore-All cookies k none jar e a = a
  restore-All cookies k (some previous) jar e a =
      set_cookie-All (Pending cookies) previous jar (inl (previous-Accepted k previous e)) a

  -- The cookie that is tested is dealt with.
  settle :
      (c : Cookie) (cookies : List Cookie) (jar : Jar)
      → Accepted c
      → All (Pending (c ∷ cookies)) jar
      → All (Pending cookies) jar
  settle c cookies [] h a = tt
  settle c cookies (d ∷ jar) h a = (
    elim a.0 [
      | inl accepted ↦ inl accepted
      | inr held ↦ elim held [
        | inl same ↦ inl (subst Accepted (sym same) h)
        | inr later ↦ inr later
      ]
    ],
    settle c cookies jar h a.1,
  )

  is_object-Accepted :
      (c : Cookie) (o : Option Cookie)
      → find_cookie (key_of c) existing ≡ o
      → is_object o c ≡ true
      → Accepted c
  is_object-Accepted c none e h = absurd (ground (arith, h))
  is_object-Accepted c (some previous) e h =
      inl (previous, e, (==_iff previous.identity c.identity).0 h)

  still-Pending :
      (c : Cookie) (cookies : List Cookie) (d : Cookie)
      → Pending (c ∷ cookies) d
      → same_key (key_of d) (key_of c) ≡ false
      → Pending cookies d
  still-Pending c cookies d (inl accepted) h = inl accepted
  still-Pending c cookies d (inr (inl same)) h =
      absurd
        (ground (arith, h, same_key_refl (key_of c), ap (λ e. same_key (key_of e) (key_of c)) same))
  still-Pending c cookies d (inr (inr later)) h = inr later

  check_cookie-Pending :
      (c : Cookie) (cookies : List Cookie) (jar : Jar)
      → All (Pending (c ∷ cookies)) jar
      → All (Pending cookies) (check_cookie is_public_suffix source existing c jar)
  unfolding check_cookie
  check_cookie-Pending c cookies jar a =
      let previous = find_cookie (key_of c) existing in
      if-holds (All (Pending cookies)) (is_object previous c) _ _
        (λ same. settle c cookies jar (is_object-Accepted c previous refl same) a)
        (λ _.
          if-holds (All (Pending cookies)) (is_refused is_public_suffix source c) _ _
            (λ _. restore-All cookies (key_of c) previous (clear (key_of c) jar) refl (
              clear-All (Pending (c ∷ cookies)) (Pending cookies) (key_of c) jar
                (still-Pending c cookies) a))
            (λ passes. settle c cookies jar (inr passes) a))

  no_longer : (c : Cookie) → Pending [] c → Accepted c
  no_longer c (inl accepted) = accepted
  no_longer c (inr none_left) = absurd none_left

  check_cookies-Accepted :
      (cookies : List Cookie) (jar : Jar)
      → All (Pending cookies) jar
      → All Accepted (check_cookies is_public_suffix source existing cookies jar)
  unfolding check_cookies
  check_cookies-Accepted [] jar a = All-map (Pending []) Accepted jar (λ c. no_longer c) a
  check_cookies-Accepted (c ∷ cookies) jar a =
      check_cookies-Accepted cookies (check_cookie is_public_suffix source existing c jar)
        (check_cookie-Pending c cookies jar a)

  All-Pending :
      (cookies jar : List Cookie)
      → ((c : Cookie) → Holds jar c → Holds cookies c)
      → All (Pending cookies) jar
  All-Pending cookies [] h = tt
  All-Pending cookies (c ∷ jar) h =
      (inr (h c (inl refl)), All-Pending cookies jar (λ d k. h d (inr k)))

-- After the cookies of a response were taken into a jar, whatever the standard library made of the
-- jar, each of its cookies is the same object as the one that stood there before, or passes every
-- test: it is not partitioned, names no public suffix, no Domain of an IP address, is secure only
-- from a secure source, is secure where its SameSite is None, and keeps the rules of its name's prefix.
pub extract_response_cookies-IsAccepted :
    (is_public_suffix : Text → Bool) (source : Source) (extract : Jar → Jar) (existing : Jar)
    → All
        (IsAccepted is_public_suffix source existing)
        (extract_response_cookies is_public_suffix source extract existing)
unfolding extract_response_cookies
extract_response_cookies-IsAccepted is_public_suffix source extract existing =
    check_cookies-Accepted is_public_suffix source existing (extract existing) (extract existing) (
      All-Pending is_public_suffix source existing (extract existing) (extract existing) (λ c h. h))
