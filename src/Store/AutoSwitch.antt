-- ===== src/Store/AutoSwitch.antt =====
-- store/store.go: the routing configuration, its defaults and its validation.
pub mod Accepted
use qoder_2api_go.Prelude.{ℕ, Bool, not, ◌||◌, if◌then◌else◌}
use qoder_2api_go.Prelude.Int.{ℤ, pos, ltb_ℤ}
use qoder_2api_go.Prelude.Result.{Result, ok, err}
use qoder_2api_go.Float.{FloatOps}
use qoder_2api_go.Text.{Text, codes, text_eq, is_empty}

pub record AutoSwitch (R : Type 0) : Type 0 where
  pub enabled : Bool
  pub threshold : R
  pub strategy : Text
  pub sticky_limit : ℤ
  pub max_retry_accounts : ℤ

abbrev pub strategy_sticky : Text
strategy_sticky = codes "sticky"

abbrev pub strategy_round_robin : Text
strategy_round_robin = codes "round-robin"

abbrev pub strategy_least_in_flight : Text
strategy_least_in_flight = codes "least-inflight"

abbrev pub default_threshold : ℕ
default_threshold = 20

abbrev pub default_sticky_limit : ℕ
default_sticky_limit = 30

abbrev pub default_max_retry_accounts : ℕ
default_max_retry_accounts = 3

abbrev pub min_max_retry_accounts : ℕ
min_max_retry_accounts = 1

abbrev pub max_max_retry_accounts : ℕ
max_max_retry_accounts = 16

pub data ConfigError : Type 0 where
  bad_threshold unknown_strategy bad_sticky_limit bad_max_retry_accounts : ConfigError

-- The three cases of the `switch cfg.Strategy` statements.
unfoldable pub known_strategy : Text → Bool
known_strategy s =
    text_eq s strategy_sticky
    || text_eq s strategy_round_robin
    || text_eq s strategy_least_in_flight

module _ {R : Type 0} (fl : FloatOps R) where
  -- `normalizeAutoSwitch`
  unfoldable pub normalize_auto_switch : AutoSwitch R → AutoSwitch R
  unfolding known_strategy
  normalize_auto_switch c = record {
    enabled = c.enabled;
    threshold = if fl.le c.threshold (fl.of_ℕ 0) then fl.of_ℕ default_threshold else c.threshold;
    strategy = if known_strategy c.strategy then c.strategy else strategy_sticky;
    sticky_limit =
        if ltb_ℤ (pos 0) c.sticky_limit then c.sticky_limit else pos default_sticky_limit;
    max_retry_accounts =
        if ltb_ℤ (pos 0) c.max_retry_accounts
        then c.max_retry_accounts
        else pos default_max_retry_accounts;
  }

  -- `SetAutoSwitchConfig`: the configuration that is stored, or the first check that fails.
  unfoldable pub set_auto_switch_config : AutoSwitch R → Result ConfigError (AutoSwitch R)
  unfolding known_strategy
  set_auto_switch_config c =
      if fl.lt c.threshold (fl.of_ℕ 1)
      then err bad_threshold
      else if not (known_strategy c.strategy || is_empty c.strategy)
      then err unknown_strategy
      else if ltb_ℤ c.sticky_limit (pos 1)
      then err bad_sticky_limit
      else if ltb_ℤ c.max_retry_accounts (pos min_max_retry_accounts)
          || ltb_ℤ (pos max_max_retry_accounts) c.max_retry_accounts
      then err bad_max_retry_accounts
      else ok (record c { strategy = if is_empty c.strategy then strategy_sticky else c.strategy })

  -- `SetAutoSwitch`, over the configuration that it reads first.
  unfoldable pub set_auto_switch : AutoSwitch R → Bool → R → Result ConfigError (AutoSwitch R)
  unfolding normalize_auto_switch set_auto_switch_config
  set_auto_switch stored enabled threshold =
      set_auto_switch_config
        (record (normalize_auto_switch stored) { enabled = enabled; threshold = threshold })
