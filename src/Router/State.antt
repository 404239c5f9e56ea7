-- ===== src/Router/State.antt =====
-- routing.go: the router's own state and the callbacks of `routerDeps`.
use qoder_2api_go.Prelude.{ℕ, ◌*◌, ◌/◌, Option, List}
use qoder_2api_go.Prelude.Int.{ℤ}
use qoder_2api_go.Text.{Text}
use qoder_2api_go.Dict.{Dict, empty}
use qoder_2api_go.Store.Account.{Account, AccountSnapshot}
use qoder_2api_go.Store.AutoSwitch.{AutoSwitch}

-- Instants are nanoseconds since the epoch; `Unix()` is in seconds.
abbrev pub unix : ℕ → ℕ
unix now = now / 1_000_000_000

abbrev pub sticky_ttl : ℕ
sticky_ttl = 3600 * 1_000_000_000

abbrev pub sticky_capacity : ℕ
sticky_capacity = 10_000

abbrev pub router_failure_cooldown : ℕ
router_failure_cooldown = 5 * 60 * 1_000_000_000

pub record Binding : Type 0 where
  pub account_id : Text
  pub count : ℕ
  pub expires_at : ℕ

pub record Router : Type 0 where
  pub sticky : Dict Binding
  pub cursor : Dict Text
  pub wrr : Dict (Dict ℤ)

-- `newRouter`
unfoldable pub new_router : Router
new_router = record { sticky = empty; cursor = empty; wrr = empty }

-- What the router reads of an account's bridge: `Capacity`, `InFlight` and `CachedCatalog`, the
-- last as the map from display names to keys.
pub record BridgeView : Type 0 where
  pub capacity : ℕ
  pub in_flight : ℕ
  pub cached_catalog : Option (Dict Text)

-- `routerDeps`, as the callbacks answer during one call, and the hash of `stickyKeyFor`
-- (hexadecimal SHA-256). `none` is a nil pointer.
pub record Deps (R : Type 0) : Type 0 where
  pub accounts : List (Account R)
  pub snapshot : Text → Option (AccountSnapshot R)
  pub bridge : Account R → Option BridgeView
  pub config : AutoSwitch R
  pub digest : Text → Text
