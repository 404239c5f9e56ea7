-- ===== src/Router/Pick.antt =====
-- routing.go: `pick`, which chooses the account of one chat request, and `stickyKeyFor`.
use qoder_2api_go.Prelude.{
  ℕ, ◌+◌, Bool, ◌&&◌, Option, none, some, List, [], ◌∷◌, ◌++◌, ltb, if◌then◌else◌,
}
use qoder_2api_go.Prelude.Int.{pos, ltb_ℤ}
use qoder_2api_go.Float.{FloatOps}
use qoder_2api_go.Text.{Text, text_eq, is_empty}
use qoder_2api_go.Dict.{lookup, insert, delete}
use qoder_2api_go.Region.{RegionFilter}
use qoder_2api_go.Store.Account.{Account}
use qoder_2api_go.Store.AutoSwitch.{strategy_round_robin}
use qoder_2api_go.Router.State.{Router, Binding, Deps}
use qoder_2api_go.Router.Candidates.{
  is_nil, region_base, usable_candidates, supports_model, pick_from,
}
use qoder_2api_go.Router.Rotate.{account_by_id, route_key, rotate}

-- The request of `pick`: its parameters other than the clock and the excluded accounts.
pub record Request : Type 0 where
  pub api_key_id : Text
  pub bare_model : Text
  pub seed : Text
  pub region_filter : RegionFilter

module _ {R : Type 0} (deps : Deps R) where
  -- `stickyKeyFor`
  unfoldable pub sticky_key_for : Text → Text → Text
  sticky_key_for api_key_id seed =
      if is_empty api_key_id && is_empty seed then [] else deps.digest (api_key_id ++ (0 ∷ seed))

  -- The bound account is looked up among the candidates: it serves once more, unless it is gone or
  -- has served its quota.
  unfoldable pub serve_bound :
      Router → Text → Binding → Option (Account R) → Router × Option (Account R)
  serve_bound r key b none = (record r { sticky = delete key r.sticky }, none)
  serve_bound r key b (some acc) =
      let count = b.count + 1 in
      let limit = deps.config.sticky_limit in
      if ltb_ℤ (pos 0) limit && ltb_ℤ limit (pos count)
      then (record r { sticky = delete key r.sticky }, none)
      else (record r { sticky = insert key (record b { count = count }) r.sticky }, some acc)

  -- What the sticky block does with the binding of the key, if there is one.
  unfoldable pub reuse :
      Router → Text → ℕ → List (Account R) → Option Binding → Router × Option (Account R)
  unfolding serve_bound
  reuse r key now candidates none = (r, none)
  reuse r key now candidates (some b) =
      if ltb b.expires_at now
      then (record r { sticky = delete key r.sticky }, none)
      else serve_bound r key b (account_by_id candidates b.account_id)

  -- The sticky block of `pick`, which round-robin skips.
  unfoldable pub sticky_step : Router → Text → ℕ → List (Account R) → Router × Option (Account R)
  unfolding reuse
  sticky_step r key now candidates =
      if text_eq deps.config.strategy strategy_round_robin
      then (r, none)
      else reuse r key now candidates (lookup key r.sticky)

  -- The bound account, or else the next in rotation.
  unfoldable pub or_rotate :
      Text → Account R → List (Account R) → Router × Option (Account R) → Router × Account R
  unfolding rotate
  or_rotate key first others (r, some acc) = (r, acc)
  or_rotate key first others (r, none) = rotate deps r key deps.config.strategy first others

  -- `pick` once the candidates are known; no candidate, no route.
  unfoldable pub choose :
      Router → Request → ℕ → List (Account R) → Router × Option (Account R × Text)
  unfolding sticky_step or_rotate
  choose r q now [] = (r, none)
  choose r q now (first ∷ others) =
      let key = sticky_key_for q.api_key_id q.seed in
      let (r', acc) =
        or_rotate (route_key q.region_filter q.bare_model) first others
          (sticky_step r key now (first ∷ others)) in
      (r', some (acc, key))

module _ {R : Type 0} (fl : FloatOps R) (deps : Deps R) where
  -- The accounts that `pick` chooses from.
  unfoldable pub pool : Request → (Text → Bool) → ℕ → List (Account R)
  pool q exclude now = pick_from deps (
      supports_model deps
        (usable_candidates fl deps (region_base deps.accounts q.region_filter) exclude now)
        q.bare_model)

  -- `pick`
  unfoldable pub pick : Router → Request → (Text → Bool) → ℕ → Router × Option (Account R × Text)
  unfolding pool choose
  pick r q exclude now =
      if is_nil deps.accounts then (r, none) else choose deps r q now (pool q exclude now)
