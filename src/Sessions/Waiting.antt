-- ===== src/Sessions/Waiting.antt =====
-- camouflare/sessions.py: `wait_for_creation` ends once a session of the id has been registered, or the
-- last of the builds has failed.
use camouflare.Prelude.{
  leb, ℕ, ◌+◌, ◌≤◌, String, Bool, true, false, List, [], ◌∷◌, ◌++◌, Option, some, ◌≡◌, refl, subst,
  sym, arith, ◌⊎◌, inl, inr, if-holds, cases-holds, ltb,
}
use camouflare.Prelude.Dict.{size, find}
use camouflare.Sessions.State.{
  Manager, Result, ok, write_pending, settle_creation, register, register_or_get,
}
use camouflare.Sessions.Creation.{Wait, waits_for, wait_for_creation}
use camouflare.Sessions.Schedules.{Action, registers, step}
use camouflare.Sessions.Builders.{Site, new_site, count_inside, follow, follow_all}
use camouflare.Sessions.Settling.{step-Settles}
use camouflare.Sessions.Waking.{follow-Tracked}
use camouflare.Sessions.Counting.{Tracked}
use camouflare.Sessions.Awaiting.{
  Awaited, follow-Awaited, follow_all-Tracked, follow_all-Awaited, new_site-Tracked,
}

-- A session of the id is registered anew.
abbrev pub IsRegistered : String → ℕ → Option ℕ → ℕ → Manager → Type 0
IsRegistered id context ttl now m =
    (s : ℕ) × ((register_or_get id context ttl now m).0 ≡ ok (s, true))

settle_creation-settled :
    (id : String) (i : ℕ) (m : Manager)
    → find id m.creations ≡ some i
    → ((settle_creation id m).pending i).settled ≡ true
unfolding settle_creation
settle_creation-settled id i m present =
    cases-holds (λ (q : Manager). (q.pending i).settled ≡ true) (find id m.creations) m
      (λ j. write_pending j (λ p. record p { settled = true }) m)
      (λ absent. absurd (ground (arith, absent, present)))
      (λ j found_. ground (arith, found_, present))

register_or_get-settled :
    (id : String) (context : ℕ) (ttl : Option ℕ) (now i : ℕ) (m : Manager)
    → find id m.creations ≡ some i
    → IsRegistered id context ttl now m
    → ((register_or_get id context ttl now m).1.pending i).settled ≡ true
unfolding register_or_get register
register_or_get-settled id context ttl now i m present (s, new) =
    if-holds P m.closed _ _ (λ _ h. absurd (ground (arith, h)))
      (λ _.
        cases-holds P (find id m.sessions) _ _
          (λ _.
            cases-holds P (find id m.closing) _ _
              (λ _.
                if-holds P (leb m.max_sessions (size m.sessions + size m.closing)) _ _
                  (λ _ h. absurd (ground (arith, h)))
                  (λ _ h. settle_creation-settled id i _ present))
              (λ c _ h. absurd (ground (arith, h))))
          (λ j _ h. absurd (ground (arith, h))))
      new
  where
    P : Result (ℕ × Bool) × Manager → Type 0
    P o = o.0 ≡ ok (s, true) → (o.1.pending i).settled ≡ true

register-settled :
    (id : String) (context : ℕ) (ttl : Option ℕ) (now i : ℕ) (w : Site)
    → Awaited true id i w
    → IsRegistered id context ttl now w.manager
    → ((follow (registers id context ttl now) w).manager.pending i).settled ≡ true
unfolding follow step
register-settled id context ttl now i w (low, inl (e, present)) new =
    register_or_get-settled id context ttl now i w.manager present new
register-settled id context ttl now i w (low, inr set) new =
    (step-Settles (registers id context ttl now) w.manager tt).settled i set

-- The event of the creation is set.
abbrev pub IsAwake : ℕ → Site → Type 0
IsAwake i w = (w.manager.pending i).settled ≡ true

follow_all-append :
    (xs ys : List Action) (w : Site) → follow_all (xs ++ ys) w ≡ follow_all ys (follow_all xs w)
unfolding follow_all
follow_all-append [] ys w = refl
follow_all-append (a ∷ xs) ys w = follow_all-append xs ys (follow a w)

-- A session of the id is registered anew by one of the actions.
pub record IsWon (id : String) (after : List Action) (w : Site) : Type 0 where
  pub first : List Action
  pub rest : List Action
  pub context : ℕ
  pub ttl : Option ℕ
  pub now : ℕ
  pub cut : after ≡ first ++ (registers id context ttl now ∷ rest)
  pub new : IsRegistered id context ttl now (follow_all first w).manager

-- What a wait waits for, of the actions behind it: all the builds have ended, or one has won.
abbrev pub IsDecided : String → ℕ → List Action → Site → Type 0
IsDecided id i after w = (count_inside i (follow_all after w).inside ≡ 0) ⊎ IsWon id after w

-- Whoever waits is awake.
decided-settled :
    (id : String) (i : ℕ) (after : List Action) (w : Site)
    → Tracked w
    → Awaited true id i w
    → IsDecided id i after w
    → IsAwake i (follow_all after w)
unfolding follow_all
decided-settled id i after w t h (inl none_left) =
    let low = (follow_all-Awaited true id i after w t h).0 in
    (follow_all-Tracked after w t).settled i low none_left
decided-settled id i after w t h (inr o) =
    let w₁ = follow_all o.first w in
    let t₁ = follow_all-Tracked o.first w t in
    let h₁ = follow_all-Awaited true id i o.first w t h in
    let a = registers id o.context o.ttl o.now in
    let set = register-settled id o.context o.ttl o.now i w₁ h₁ o.new in
    let h₂ : Awaited false id i (follow a w₁) =
      ((follow-Awaited true id i a w₁ t₁ h₁).0, inr set) in
    subst (λ xs. IsAwake i (follow_all xs w)) (sym o.cut)
      (subst (IsAwake i) (sym (follow_all-append o.first (a ∷ o.rest) w))
        (elim (follow_all-Awaited false id i o.rest (follow a w₁) (follow-Tracked a w₁ t₁) h₂).1 [
          | inl c ↦ absurd (ground (arith, c))
          | inr stays ↦ stays
        ]))

wait_for_creation-Awaited :
    (id : String) (timeout i : ℕ) (w : Site)
    → Tracked w
    → wait_for_creation id timeout w.manager ≡ waits_for i
    → Awaited true id i w × (1 ≤ count_inside i w.inside)
unfolding wait_for_creation
wait_for_creation-Awaited id timeout i w t =
    cases-holds P (find id w.manager.sessions) _ _
      (λ _.
        cases-holds P (find id w.manager.creations) _ _ (λ _ h. absurd (ground (arith, h)))
          λ j present.
            if-holds P (ltb 0 timeout) _ _
              (λ _ h.
                let same : find id w.manager.creations ≡ some i = ground (arith, present, h) in
                let (held, low) = t.live id i same in ((low, inl (refl, same)), held))
              (λ _ h. absurd (ground (arith, h))))
      (λ s _ h. absurd (ground (arith, h)))
  where
    P : Wait → Type 0
    P o = o ≡ waits_for i → Awaited true id i w × (1 ≤ count_inside i w.inside)

-- From a new manager, along any schedule in which builders leave what they have entered: whoever waits
-- for the outcome of builds of an id waits for a builder that is inside; and after any further actions
-- the event is set, if among them a session of the id was registered anew, or if at their end no
-- builder of that creation is inside.
pub wait_for_creation-ends :
    (max_sessions ttl : ℕ) (before after : List Action) (id : String) (timeout i : ℕ)
    → wait_for_creation id timeout (follow_all before (new_site max_sessions ttl)).manager
      ≡ waits_for i
    → IsDecided id i after (follow_all before (new_site max_sessions ttl))
    → (1 ≤ count_inside i (follow_all before (new_site max_sessions ttl)).inside)
      × IsAwake i (follow_all after (follow_all before (new_site max_sessions ttl)))
wait_for_creation-ends max_sessions ttl before after id timeout i waits decided =
    let w = follow_all before (new_site max_sessions ttl) in
    let t = follow_all-Tracked before _ (new_site-Tracked max_sessions ttl) in
    let (h, held) = wait_for_creation-Awaited id timeout i w t waits in
    (held, decided-settled id i after w t h decided)
