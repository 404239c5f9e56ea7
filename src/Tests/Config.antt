-- ===== src/Tests/Config.antt =====
-- store/store.go: a routing configuration that asks for no strategy.
use qoder_2api_go.Prelude.{ℕ, ◌≡◌, refl, true, [], arith}
use qoder_2api_go.Prelude.Int.{pos}
use qoder_2api_go.Float.{whole_credits}
use qoder_2api_go.Store.Load.{fill_auto_switch}
use qoder_2api_go.Store.AutoSwitch.{
  AutoSwitch, strategy_sticky, normalize_auto_switch, set_auto_switch_config,
}
use qoder_2api_go.Store.AutoSwitch.Accepted.{IsAccepted, set_auto_switch_config_stable}

abbrev asked : AutoSwitch ℕ
asked = record {
  enabled = true;
  threshold = 20;
  strategy = [];
  sticky_limit = pos 30;
  max_retry_accounts = pos 3;
}

abbrev stored : AutoSwitch ℕ
stored = record asked { strategy = strategy_sticky }

set_auto_switch_config_stable_example :
    IsAccepted whole_credits stored
    × ((fill_auto_switch whole_credits stored ≡ stored)
        × (normalize_auto_switch whole_credits stored ≡ stored))
unfolding set_auto_switch_config qoder_2api_go.Text.text_eq
set_auto_switch_config_stable_example =
    set_auto_switch_config_stable whole_credits asked stored (λ x h. ground arith) refl
