-- ===== src/Router/Quota.antt =====
-- routing.go: the sticky table under every interleaving of requests. Each step below runs under the
-- router's mutex in the code: the sticky block of `pick`, a rotation, and `bind`.
use qoder_2api_go.Prelude.{
  length, ℕ, ◌+◌, ◌≤◌, ◌<◌, ◌≡◌, refl, ◌∙◌, false, Option, none, some, List, ◌∷◌, if-elim, arith,
  ltb, ◌&&◌,
}
use qoder_2api_go.Prelude.Int.{pos, ltb_ℤ}
use qoder_2api_go.Text.{Text, text_eq}
use qoder_2api_go.Dict.{Dict, lookup, delete, length-delete, length-insert_found}
use qoder_2api_go.Dict.Entries.{AllValues-lookup, AllValues-insert, AllValues-delete}
use qoder_2api_go.Store.Account.{Account, account_weight}
use qoder_2api_go.Store.AutoSwitch.{strategy_least_in_flight, strategy_round_robin}
use qoder_2api_go.Router.State.{Router, Binding, Deps, new_router, sticky_capacity}
use qoder_2api_go.Router.Rotate.{
  uniform_weight, weighted_rotate, cursor_rotate, or_cursor, rotate, account_by_id,
}
use qoder_2api_go.Router.Pick.{serve_bound, reuse, sticky_step}
use qoder_2api_go.Router.Bind.{bind}
use qoder_2api_go.Dict.Unique.{Unique}
use qoder_2api_go.Router.Served.{
  Watched, Counts, note_reuse, note_bind, sticky_step-Counts, bind-Counts,
}
use qoder_2api_go.Router.Capacity.{IsWithin, Covers, bind-IsWithin}

module _ {R : Type 0} where
  sticky-weighted_rotate :
      (r : Router) (key : Text) (first : Account R) (others : List (Account R))
      → (weighted_rotate r key first others).0.sticky ≡ r.sticky
  unfolding weighted_rotate
  sticky-weighted_rotate r key first others =
      if-elim (λ (p : Router × Option (Account R)). p.0.sticky ≡ r.sticky)
        (uniform_weight (account_weight first) (first ∷ others)) (λ _. refl) (λ _. refl)

  sticky-or_cursor :
      (key : Text) (first : Account R) (others : List (Account R)) (p : Router × Option (Account R))
      → (or_cursor key first others p).0.sticky ≡ p.0.sticky
  unfolding or_cursor cursor_rotate
  sticky-or_cursor key first others (r, none) = refl
  sticky-or_cursor key first others (r, some a) = refl

module _ {R : Type 0} (deps : Deps R) where
  -- A rotation leaves the sticky table alone.
  pub sticky-rotate :
      (r : Router) (key strategy : Text) (first : Account R) (others : List (Account R))
      → (rotate deps r key strategy first others).0.sticky ≡ r.sticky
  unfolding rotate
  sticky-rotate r key strategy first others =
      if-elim (λ (p : Router × Account R). p.0.sticky ≡ r.sticky)
        (text_eq strategy strategy_least_in_flight) (λ _. refl)
        λ _.
          sticky-or_cursor key first others (weighted_rotate r key first others)
          ∙ sticky-weighted_rotate r key first others

  IsWithin-rotate :
      (limit : ℕ) (r : Router) (key strategy : Text) (first : Account R) (others : List (Account R))
      → IsWithin limit r
      → IsWithin limit (rotate deps r key strategy first others).0
  IsWithin-rotate limit r key strategy first others h =
      let e = sticky-rotate r key strategy first others in
      record { bounded = rw e h.bounded; served = rw e h.served }

module _ {R : Type 0} (deps : Deps R) (limit : ℕ)
    (at_limit : deps.config.sticky_limit ≡ pos limit) where
  drop_key :
      (r : Router) (key : Text)
      → IsWithin limit r
      → IsWithin limit (record r { sticky = delete key r.sticky })
  drop_key r key h = record {
    bounded = omega (arith, length-delete key r.sticky, h.bounded);
    served = AllValues-delete _ key r.sticky h.served;
  }

  serve_bound-IsWithin :
      (r : Router) (key : Text) (b : Binding) (o : Option (Account R))
      → 0 < limit
      → lookup key r.sticky ≡ some b
      → IsWithin limit r
      → IsWithin limit (serve_bound deps r key b o).0
  unfolding serve_bound
  serve_bound-IsWithin r key b none low e h = drop_key r key h
  serve_bound-IsWithin r key b (some acc) low e h =
      if-elim (λ (p : Router × Option (Account R)). IsWithin limit p.0)
        (ltb_ℤ (pos 0) deps.config.sticky_limit
          && ltb_ℤ deps.config.sticky_limit (pos (b.count + 1)))
        (λ _. drop_key r key h)
        λ f. record {
          bounded = omega (
            arith,
            length-insert_found key (record b { count = b.count + 1 }) b r.sticky e,
            h.bounded,
          );
          served = AllValues-insert _ key _ r.sticky (within b (rw at_limit at f)) h.served;
        }
    where
      within :
          (b : Binding)
          → (ltb_ℤ (pos 0) (pos limit) && ltb_ℤ (pos limit) (pos (b.count + 1))) ≡ false
          → b.count + 1 ≤ limit
      within b f = ground arith

  sticky_step-IsWithin :
      (r : Router) (key : Text) (now : ℕ) (candidates : List (Account R))
      → 0 < limit
      → IsWithin limit r
      → IsWithin limit (sticky_step deps r key now candidates).0
  unfolding sticky_step
  sticky_step-IsWithin r key now candidates low h =
      if-elim (λ (p : Router × Option (Account R)). IsWithin limit p.0)
        (text_eq deps.config.strategy strategy_round_robin) (λ _. h)
        (λ _. go (lookup key r.sticky) refl)
    where
      go :
          (o : Option Binding)
          → lookup key r.sticky ≡ o
          → IsWithin limit (reuse deps r key now candidates o).0
      go none e = h
      go (some b) e =
          if-elim (λ (p : Router × Option (Account R)). IsWithin limit p.0) (ltb b.expires_at now)
            (λ _. drop_key r key h)
            (λ _. serve_bound-IsWithin r key b (account_by_id candidates b.account_id) low e h)

  -- One step of a request that runs under the mutex: `pick` reuses a binding, `pick` rotates, or a
  -- request that succeeded binds. Requests interleave in any order. Each step keeps the tally of the
  -- requests that the binding of each key has served.
  pub data Step (w : Watched) : Watched → Type 0 where
    reuses :
        {w' : Watched} (key : Text) (now : ℕ) (candidates : List (Account R))
        → (let (r, acc) = sticky_step deps w.router key now candidates in
            w' ≡ record { router = r; served = note_reuse key acc w.served })
        → Step w w'
    rotates :
        {w' : Watched} (key : Text) (first : Account R) (others : List (Account R))
        → w' ≡ record w { router = (rotate deps w.router key deps.config.strategy first others).0 }
        → Step w w'
    binds :
        {w' : Watched} (order : Dict Binding → List Text) (key account_id : Text) (now : ℕ)
        → ((m : Dict Binding) → Covers (order m) m)
        → w' ≡ record {
          router = bind order w.router key account_id now;
          served = note_bind key account_id now (lookup key w.router.sticky) w.served;
        }
        → Step w w'

  pub data Reach : Watched → Type 0 where
    start : {w : Watched} → w.router ≡ new_router → Reach w
    next : {w w' : Watched} → Reach w → Step w w' → Reach w'

  -- The table is within its capacity, its counts are within the limit and are those of the tally.
  IsTallied : Watched → Type 0
  IsTallied w = IsWithin limit w.router × Counts w.served w.router.sticky

  Step-IsTallied : {w w' : Watched} → 0 < limit → Step w w' → IsTallied w → IsTallied w'
  unfolding IsTallied
  Step-IsTallied {w} low (reuses key now candidates e) h = rw e (
    sticky_step-IsWithin w.router key now candidates low h.0,
    sticky_step-Counts deps w.router key now candidates w.served h.1,
  )
  Step-IsTallied {w} low (rotates key first others e) h = rw e (
    IsWithin-rotate deps limit w.router key deps.config.strategy first others h.0,
    rw (sticky-rotate deps w.router key deps.config.strategy first others) h.1,
  )
  Step-IsTallied {w} low (binds order key account_id now covers e) h = rw e (
    bind-IsWithin limit order w.router key account_id now covers low h.0,
    bind-Counts order w.router key account_id now w.served h.1,
  )

  Reach-IsTallied : {w : Watched} → 0 < limit → Reach w → IsTallied w
  unfolding IsTallied
  Reach-IsTallied low (start e) = rw e (
      unfold new_router in
      (
        record { bounded = omega arith; served = tt },
        record { unique = unfold Unique in tt; exact = λ k b f. absurd (unfold lookup in cc f) },
      ))
  Reach-IsTallied low (next reach step) = Step-IsTallied low step (Reach-IsTallied low reach)

  -- From a new router, after any interleaving of requests, the sticky table holds at most
  -- `stickyCapacity` bindings, and no binding in it has served more than `StickyLimit` requests,
  -- where a binding serves the request that makes it and each one that the sticky block sends on to
  -- its account, and goes on when a request binds the same account before it expires. The limit is above 0, and the
  -- runtime ranges over every key of a map.
  pub Reach-IsWithin :
      {w : Watched}
      → 0 < limit
      → Reach w
      → (length w.router.sticky ≤ sticky_capacity)
        × ((key : Text) (b : Binding) → lookup key w.router.sticky ≡ some b → w.served key ≤ limit)
  unfolding IsTallied
  Reach-IsWithin {w} low reach =
      let (within, counts) = Reach-IsTallied low reach in
      (
        within.bounded,
        λ key b e.
            let most : b.count ≤ limit = AllValues-lookup _ key w.router.sticky within.served e in
            omega (arith, counts.exact key b e, most),
      )
