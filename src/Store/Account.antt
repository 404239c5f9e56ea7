-- ===== src/Store/Account.antt =====
-- store/store.go: accounts, their quota snapshots, and the weight that routing uses.
use qoder_2api_go.Prelude.{ℕ, Bool, Option, if◌then◌else◌}
use qoder_2api_go.Prelude.Int.{ℤ, pos, pos_part, ltb_ℤ}
use qoder_2api_go.Text.{Text}

-- The quota snapshot of an account. `R` is Go's `float64`.
pub record AccountSnapshot (R : Type 0) : Type 0 where
  pub remaining : R
  pub total : R
  pub plan : Text
  pub is_exceeded : Bool
  pub next_reset_at_ms : ℤ
  pub checked_at : ℤ
  pub cooldown_until : ℤ
  pub last_error : Text

pub record Account (R : Type 0) : Type 0 where
  pub id : Text
  pub pat : Text
  pub note : Text
  pub region : Text
  pub weight : ℤ
  pub created_at : ℤ
  pub snapshot : Option (AccountSnapshot R)
  pub auto_checkin : Bool
  pub checkin_time : Text
  pub last_checkin_at : ℤ
  pub last_checkin_status : Text
  pub last_checkin_msg : Text

abbrev pub default_account_weight : ℕ
default_account_weight = 1

abbrev pub max_account_weight : ℕ
max_account_weight = 100

-- `AccountWeight`
unfoldable pub account_weight : {R : Type 0} → Account R → ℕ
account_weight acc =
    if ltb_ℤ acc.weight (pos 1)
    then default_account_weight
    else if ltb_ℤ (pos max_account_weight) acc.weight
    then max_account_weight
    else pos_part acc.weight
