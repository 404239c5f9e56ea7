-- ===== src/Router/Safety.antt =====
-- routing.go: whatever `pick` returns may serve the request.
use qoder_2api_go.Prelude.{
  ℕ, ◌≡◌, refl, sym, ap, subst, ◌⊎◌, inl, inr, Bool, true, false, Option, none, some, List, [], ◌∷◌,
  In, filter, In-filter, In-filter_of, In-ne-nil, Bool-cases, if-elim, some_inj, arith, ltb, length,
  if◌then◌else◌,
}
use qoder_2api_go.Prelude.Int.{pos, ◌≤ℤ◌}
use qoder_2api_go.Float.{FloatOps}
use qoder_2api_go.Text.{Text, codes, text_eq, text_eq_iff, text_eq_refl}
use qoder_2api_go.Dict.{lookup}
use qoder_2api_go.Region.{RegionFilter, region_default, region_cn, region_global, region_auto}
use qoder_2api_go.Store.Account.{Account, AccountSnapshot}
use qoder_2api_go.Store.AutoSwitch.{strategy_round_robin}
use qoder_2api_go.Router.State.{Deps, Router, Binding, unix}
use qoder_2api_go.Router.Candidates.{
  relax, eligible, is_nil, account_region, filter_region, region_base, usable, usable_candidates,
}
use qoder_2api_go.Router.Rotate.{account_by_id, route_key}
use qoder_2api_go.Router.Pick.{
  Request, sticky_key_for, serve_bound, reuse, sticky_step, or_rotate, choose, pool, pick,
}
use qoder_2api_go.Router.Membership.{
  account_by_id-In, rotate-In, region_base-In, supports_model-In, pick_from-In,
}

global-ne-cn : text_eq (codes "global") (codes "cn") ≡ false
unfolding text_eq
global-ne-cn = refl

cn-ne-global : text_eq (codes "cn") (codes "global") ≡ false
unfolding text_eq
cn-ne-global = refl

module _ {R : Type 0} where
  abbrev pub IsGlobal : Account R → Type 0
  IsGlobal acc = acc.region ≡ codes "global"

  -- The regions that a filter lets through. Without a prefix, a global account serves only a pool
  -- of global accounts.
  abbrev pub InRegion : RegionFilter → List (Account R) → Account R → Type 0
  InRegion region_cn accounts acc = ¬ IsGlobal acc
  InRegion region_global accounts acc = IsGlobal acc
  InRegion region_auto accounts acc = Unit
  InRegion region_default accounts acc =
      (¬ IsGlobal acc) ⊎ ((a : Account R) → In a accounts → IsGlobal a)

  -- An account that may serve a request at an instant, whatever its credits.
  pub record IsRoutable (deps : Deps R) (q : Request) (exclude : Text → Bool) (now : ℕ)
      (acc : Account R) : Type 0 where
    pub known : In acc deps.accounts
    pub in_region : InRegion q.region_filter deps.accounts acc
    pub allowed : exclude acc.id ≡ false
    pub rested :
        (snap : AccountSnapshot R)
        → deps.snapshot acc.id ≡ some snap
        → (snap.cooldown_until ≤ℤ pos (unix now)) × (snap.is_exceeded ≡ false)

  region-cn : (acc : Account R) → text_eq (account_region acc) (codes "cn") ≡ true → ¬ IsGlobal acc
  unfolding account_region
  region-cn acc =
      if-elim (λ (x : Text). text_eq x (codes "cn") ≡ true → ¬ IsGlobal acc)
        (text_eq acc.region (codes "global"))
        (λ t (h : text_eq (codes "global") (codes "cn") ≡ true) e. cc (h, global-ne-cn))
        (λ f h e. cc (f, (text_eq_iff acc.region (codes "global")).1 e))

  region-IsGlobal :
      (acc : Account R) → text_eq (account_region acc) (codes "global") ≡ true → IsGlobal acc
  unfolding account_region
  region-IsGlobal acc =
      if-elim (λ (x : Text). text_eq x (codes "global") ≡ true → IsGlobal acc)
        (text_eq acc.region (codes "global")) (λ t h. (text_eq_iff _ _).0 t)
        (λ f (h : text_eq (codes "cn") (codes "global") ≡ true). absurd (cc (h, cn-ne-global)))

  region-of :
      (acc : Account R) → (¬ IsGlobal acc) → text_eq (account_region acc) (codes "cn") ≡ true
  unfolding account_region
  region-of acc n =
      if-elim (λ (x : Text). text_eq x (codes "cn") ≡ true) (text_eq acc.region (codes "global"))
        (λ t. absurd (n ((text_eq_iff _ _).0 t))) (λ f. text_eq_refl (codes "cn"))

  -- Without an account of the region cn every account is global.
  all-IsGlobal :
      (accounts : List (Account R))
      → filter_region accounts (codes "cn") ≡ []
      → (a : Account R) → In a accounts
      → IsGlobal a
  unfolding filter_region
  all-IsGlobal accounts e a i = elim (Bool-cases (text_eq a.region (codes "global"))) [
    | inl t ↦ (text_eq_iff _ _).0 t
    | inr f ↦ absurd (
        In-ne-nil a _
          (In-filter_of _ a accounts i
            (region-of a (λ g. cc (f, (text_eq_iff a.region (codes "global")).1 g))))
          e)
  ]

  filter_region-In :
      (accounts : List (Account R)) (want : Text) (acc : Account R)
      → In acc (filter_region accounts want)
      → In acc accounts × (text_eq (account_region acc) want ≡ true)
  unfolding filter_region
  filter_region-In accounts want acc h = In-filter _ acc accounts h

  default-InRegion :
      (accounts cn : List (Account R)) (acc : Account R)
      → filter_region accounts (codes "cn") ≡ cn
      → In acc (if is_nil cn then accounts else cn)
      → InRegion region_default accounts acc
  default-InRegion accounts [] acc e h = inr (all-IsGlobal accounts e)
  default-InRegion accounts (x ∷ xs) acc e h = inl (
      region-cn acc
        (filter_region-In accounts (codes "cn") acc (subst (λ l. In acc l) (sym e) h)).1)

  pub region_base-InRegion :
      (accounts : List (Account R)) (f : RegionFilter) (acc : Account R)
      → In acc (region_base accounts f)
      → InRegion f accounts acc
  unfolding region_base
  region_base-InRegion accounts region_default acc h = default-InRegion accounts _ acc refl h
  region_base-InRegion accounts region_cn acc h = region-cn acc (In-filter _ acc accounts h).1
  region_base-InRegion accounts region_global acc h =
      region-IsGlobal acc (In-filter _ acc accounts h).1
  region_base-InRegion accounts region_auto acc h = tt

module _ {R : Type 0} where
  relax-In :
      (count : ℕ) (candidates relaxed : List (Account R)) (acc : Account R)
      → In acc (relax count candidates relaxed)
      → In acc candidates ⊎ In acc relaxed
  unfolding relax
  relax-In count candidates relaxed acc h = ground arith

module _ {R : Type 0} (fl : FloatOps R) (deps : Deps R) where
  -- With or without the threshold, a usable account is allowed and rested.
  usable-rested :
      (exclude : Text → Bool) (now : ℕ) (t : Bool) (acc : Account R)
      → usable fl deps exclude now t acc ≡ true
      → (exclude acc.id ≡ false)
        × ((snap : AccountSnapshot R)
            → deps.snapshot acc.id ≡ some snap
            → (snap.cooldown_until ≤ℤ pos (unix now)) × (snap.is_exceeded ≡ false))
  unfolding usable
  usable-rested exclude now t acc h = (ground arith, λ snap e. ground arith)

  usable_candidates-usable :
      (base : List (Account R)) (exclude : Text → Bool) (now : ℕ) (acc : Account R)
      → In acc (usable_candidates fl deps base exclude now)
      → In acc base × ((t : Bool) × (usable fl deps exclude now t acc ≡ true))
  unfolding usable_candidates
  usable_candidates-usable base exclude now acc h =
      let by = usable fl deps exclude now in
      elim (relax-In (length (eligible base exclude)) (filter (by true) base)
        (filter (by false) base) acc h) [
          | inl i ↦ let (known, ok) = In-filter (by true) acc base i in (known, (true, ok))
          | inr i ↦ let (known, ok) = In-filter (by false) acc base i in (known, (false, ok))
        ]

  -- What the candidates of a request are.
  pub pool-IsRoutable :
      (q : Request) (exclude : Text → Bool) (now : ℕ) (acc : Account R)
      → In acc (pool fl deps q exclude now)
      → IsRoutable deps q exclude now acc
  unfolding pool
  pool-IsRoutable q exclude now acc h =
      let base = region_base deps.accounts q.region_filter in
      let candidates = usable_candidates fl deps base exclude now in
      let i = supports_model-In deps acc candidates q.bare_model (pick_from-In deps acc _ h) in
      let (known, (t, ok)) = usable_candidates-usable base exclude now acc i in
      let (allowed, rested) = usable-rested exclude now t acc ok in
      record {
        known = region_base-In acc deps.accounts q.region_filter known;
        in_region = region_base-InRegion deps.accounts q.region_filter acc known;
        allowed = allowed;
        rested = rested;
      }

module _ {R : Type 0} (deps : Deps R) where
  serve_bound-found :
      (r : Router) (key : Text) (b : Binding) (o : Option (Account R)) (acc : Account R)
      → (serve_bound deps r key b o).1 ≡ some acc
      → o ≡ some acc
  unfolding serve_bound
  serve_bound-found r key b none acc h = cc
  serve_bound-found r key b (some a) acc h = ground arith

  reuse-In :
      (r : Router) (key : Text) (now : ℕ) (candidates : List (Account R)) (o : Option Binding)
      (acc : Account R)
      → (reuse deps r key now candidates o).1 ≡ some acc
      → In acc candidates
  unfolding reuse
  reuse-In r key now candidates none acc = λ h. cc
  reuse-In r key now candidates (some b) acc =
      if-elim (λ (p : Router × Option (Account R)). p.1 ≡ some acc → In acc candidates)
        (ltb b.expires_at now) (λ _ h. cc)
        λ _ h.
          (account_by_id-In candidates b.account_id
            (serve_bound-found r key b (account_by_id candidates b.account_id) acc h)).0

  sticky_step-In :
      (r : Router) (key : Text) (now : ℕ) (candidates : List (Account R)) (acc : Account R)
      → (sticky_step deps r key now candidates).1 ≡ some acc
      → In acc candidates
  unfolding sticky_step
  sticky_step-In r key now candidates acc =
      if-elim (λ (p : Router × Option (Account R)). p.1 ≡ some acc → In acc candidates)
        (text_eq deps.config.strategy strategy_round_robin) (λ _ h. cc)
        (λ _. reuse-In r key now candidates (lookup key r.sticky) acc)

  or_rotate-In :
      (key : Text) (first : Account R) (others : List (Account R)) (p : Router × Option (Account R))
      → ((acc : Account R) → p.1 ≡ some acc → In acc (first ∷ others))
      → In (or_rotate deps key first others p).1 (first ∷ others)
  unfolding or_rotate
  or_rotate-In key first others (r, some acc) f = f acc refl
  or_rotate-In key first others (r, none) f = rotate-In deps r key deps.config.strategy first others

  pub choose-In :
      (r : Router) (q : Request) (now : ℕ) (candidates : List (Account R)) (acc : Account R)
      (key : Text)
      → (choose deps r q now candidates).1 ≡ some (acc, key)
      → In acc candidates
  unfolding choose
  choose-In r q now [] acc key h = cc
  choose-In r q now (first ∷ others) acc key h =
      let k = sticky_key_for deps q.api_key_id q.seed in
      let cs = first ∷ others in
      subst (λ a. In a cs) (ap (λ (p : Account R × Text). p.0) (some_inj h))
        (or_rotate-In (route_key q.region_filter q.bare_model) first others
          (sticky_step deps r k now cs) (sticky_step-In r k now cs))

module _ {R : Type 0} (fl : FloatOps R) (deps : Deps R) where
  -- The account that `pick` returns is in the pool, in a region that the request's prefix allows,
  -- not excluded, not cooling down and not out of quota.
  pub pick-IsRoutable :
      (r : Router) (q : Request) (exclude : Text → Bool) (now : ℕ) (acc : Account R) (key : Text)
      → (pick fl deps r q exclude now).1 ≡ some (acc, key)
      → IsRoutable deps q exclude now acc
  unfolding pick
  pick-IsRoutable r q exclude now acc key h = pool-IsRoutable fl deps q exclude now acc (
      if-elim
        (λ (p : Router × Option (Account R × Text)).
          p.1 ≡ some (acc, key) → In acc (pool fl deps q exclude now))
        (is_nil deps.accounts) (λ _ e. cc) (λ _. choose-In deps r q now _ acc key) h)
