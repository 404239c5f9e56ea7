-- ===== src/Router/Availability.antt =====
-- routing.go: when `pick` finds a route.
use qoder_2api_go.Prelude.{
  ℕ, ◌<◌, ◌≡◌, refl, ◌≢◌, ◌⊎◌, ◌↔◌, inl, inr, Bool, true, false, not, ◌&&◌, Option, none, List, [],
  ◌∷◌, In, filter, In-filter, In-filter_of, In-ne-nil, In-head, length-pos, ne-nil_of_pos,
  Bool-cases, if-elim, arith, ltb, ◌==◌, length, if◌then◌else◌,
}
use qoder_2api_go.Prelude.Filters.{filter_full, length-filter_eq}
use qoder_2api_go.Float.{FloatOps}
use qoder_2api_go.Text.{Text}
use qoder_2api_go.Store.Account.{Account}
use qoder_2api_go.Router.State.{Deps, Router}
use qoder_2api_go.Router.Candidates.{
  may_support, not_saturated, is_nil, region_base, usable, eligible, relax, usable_candidates,
  supports_model, pick_from,
}
use qoder_2api_go.Router.Pick.{Request, choose, pool, pick}
use qoder_2api_go.Router.Membership.{region_base-In, supports_model-In, pick_from-In}

not-true : (b : Bool) → not b ≡ true → b ≡ false
not-true true h = cc
not-true false h = refl

is_nil-nil : {A : Type 0} (xs : List A) → is_nil xs ≡ true → xs ≡ []
is_nil-nil [] h = refl
is_nil-nil (x ∷ xs) h = cc

module _ {R : Type 0} where
  or_all-ne-nil : (xs ys : List (Account R)) → ys ≢ [] → (if is_nil xs then ys else xs) ≢ []
  or_all-ne-nil [] ys h e = h e
  or_all-ne-nil (x ∷ xs) ys h e = cc

  supports_model-ne-nil :
      (deps : Deps R) (xs : List (Account R)) (model : Text)
      → xs ≢ []
      → supports_model deps xs model ≢ []
  unfolding supports_model
  supports_model-ne-nil deps xs [] h = h
  supports_model-ne-nil deps xs (c ∷ model) h =
      or_all-ne-nil (filter (may_support deps (c ∷ model)) xs) xs h

  pick_from-ne-nil : (deps : Deps R) (xs : List (Account R)) → xs ≢ [] → pick_from deps xs ≢ []
  unfolding pick_from
  pick_from-ne-nil deps xs h = or_all-ne-nil (filter (not_saturated deps) xs) xs h

  relax-ready : (n : ℕ) (xs ys : List (Account R)) → xs ≢ [] → relax n xs ys ≢ []
  unfolding relax
  relax-ready n [] ys h = absurd (h refl)
  relax-ready n (x ∷ xs) ys h = h

  relax-all : (n : ℕ) (xs ys : List (Account R)) → 0 < n → length ys ≡ n → relax n xs ys ≢ []
  unfolding relax
  relax-all n (x ∷ xs) ys pos e h = cc
  relax-all n [] [] pos e h = absurd (omega arith)
  relax-all n [] (y ∷ ys) pos e h = ground arith

  relax_cases :
      (n : ℕ) (xs ys : List (Account R))
      → relax n xs ys ≢ []
      → (xs ≢ []) ⊎ ((0 < n) × (length ys ≡ n))
  unfolding relax
  relax_cases n (x ∷ xs) ys h = inl (λ e. cc)
  relax_cases n [] ys h = elim (Bool-cases (ltb 0 n && (length ys == n))) [
    | inl t ↦ inr (ground arith, ground arith)
    | inr f ↦ absurd (h (ground arith))
  ]

module _ {R : Type 0} (fl : FloatOps R) (deps : Deps R) (q : Request) (exclude : Text → Bool)
    (now : ℕ) where
  -- The accounts of the request's region.
  abbrev base : List (Account R)
  base = region_base deps.accounts q.region_filter

  -- Some account is usable under the credit threshold, or some are not excluded and the threshold
  -- is all that keeps each of them out.
  pub data CanRoute : Type 0 where
    ready : (a : Account R) → In a base → usable fl deps exclude now true a ≡ true → CanRoute
    below_threshold :
        (a : Account R)
        → In a base
        → exclude a.id ≡ false
        → ((b : Account R)
            → In b base
            → exclude b.id ≡ false
            → usable fl deps exclude now false b ≡ true)
        → CanRoute

  by : Bool → Account R → Bool
  by = usable fl deps exclude now

  allowed : Account R → Bool
  allowed a = not (exclude a.id)

  usable-allowed : (t : Bool) (a : Account R) → by t a ≡ true → allowed a ≡ true
  unfolding by allowed usable
  usable-allowed t a h = ground arith

  candidates-ne-nil : CanRoute → usable_candidates fl deps base exclude now ≢ []
  unfolding usable_candidates eligible allowed by
  candidates-ne-nil (ready a i u) =
      relax-ready _ (filter (by true) base) (filter (by false) base)
        (In-ne-nil a _ (In-filter_of (by true) a base i u))
  candidates-ne-nil (below_threshold a i e f) =
      relax-all (length (filter allowed base)) (filter (by true) base) (filter (by false) base)
        (length-pos (filter allowed base)
          (In-ne-nil a _ (In-filter_of allowed a base i (unfold allowed in rw e refl))))
        (length-filter_eq (by false) allowed base (λ b j. usable-allowed false b)
          (λ b j t. f b j (not-true (exclude b.id) t)))

  candidates-CanRoute : usable_candidates fl deps base exclude now ≢ [] → CanRoute
  unfolding usable_candidates eligible allowed by
  candidates-CanRoute h =
      elim (relax_cases (length (filter allowed base)) (filter (by true) base)
        (filter (by false) base) h) [
          | inl some_ready ↦
              let (a, i) = In-head _ some_ready in
              let (known, u) = In-filter (by true) a base i in ready a known u
          | inr (n, e) ↦
              let (a, i) = In-head _ (ne-nil_of_pos (filter allowed base) n) in
              let (known, free) = In-filter allowed a base i in
              below_threshold a known (not-true (exclude a.id) free) λ b j e'.
                filter_full (by false) allowed base (λ c k. usable-allowed false c) e b j
                  (unfold allowed in rw e' refl)
        ]

module _ {R : Type 0} (fl : FloatOps R) (deps : Deps R) where
  choose_cases :
      (r : Router) (q : Request) (now : ℕ) (xs : List (Account R))
      → ((choose deps r q now xs).1 ≢ none) ↔ (xs ≢ [])
  unfolding choose
  choose_cases r q now [] = (λ h e. h refl, λ h e. h refl)
  choose_cases r q now (x ∷ xs) = (λ h e. cc, λ h e. cc)

  pub base-ne-nil :
      (q : Request) (exclude : Text → Bool) (now : ℕ)
      → CanRoute fl deps q exclude now
      → deps.accounts ≢ []
  base-ne-nil q exclude now (ready a i u) =
      In-ne-nil a _ (region_base-In a deps.accounts q.region_filter i)
  base-ne-nil q exclude now (below_threshold a i e f) =
      In-ne-nil a _ (region_base-In a deps.accounts q.region_filter i)

  -- A list that comes from another by dropping items is empty where that one is.
  pool-ne-nil :
      (q : Request) (exclude : Text → Bool) (now : ℕ)
      → pool fl deps q exclude now ≢ []
      → usable_candidates fl deps (region_base deps.accounts q.region_filter) exclude now ≢ []
  unfolding pool
  pool-ne-nil q exclude now h =
      let candidates =
        usable_candidates fl deps (region_base deps.accounts q.region_filter) exclude now in
      let (a, i) = In-head _ h in
      In-ne-nil a candidates
        (supports_model-In deps a candidates q.bare_model (pick_from-In deps a _ i))

  -- `pick` finds a route exactly when some account can take the request: one is usable under the
  -- credit threshold, or the threshold is all that keeps out each account that is not excluded.
  pub pick-routes_iff :
      (r : Router) (q : Request) (exclude : Text → Bool) (now : ℕ)
      → ((pick fl deps r q exclude now).1 ≢ none) ↔ CanRoute fl deps q exclude now
  unfolding pick
  pick-routes_iff r q exclude now = (
    if-elim
        (λ (p : Router × Option (Account R × Text)). p.1 ≢ none → CanRoute fl deps q exclude now)
        (is_nil deps.accounts) (λ _ h. absurd (h refl))
        λ _ h.
          candidates-CanRoute fl deps q exclude now
            (pool-ne-nil q exclude now ((choose_cases r q now _).0 h)),
    λ c.
        if-elim (λ (p : Router × Option (Account R × Text)). p.1 ≢ none) (is_nil deps.accounts)
          (λ e. absurd (base-ne-nil q exclude now c (is_nil-nil deps.accounts e)))
          λ _. (choose_cases r q now _).1 (
            unfold pool in
            pick_from-ne-nil deps _ (
              supports_model-ne-nil deps _ q.bare_model
                (candidates-ne-nil fl deps q exclude now c))),
  )
