-- ===== src/Stats/Data.antt =====
-- stats/stats.go: the persisted snapshot and the recorder. Counters do not wrap around in the model;
-- token totals are sums of numbers that the gateway reports, which may be negative.
use qoder_2api_go.Prelude.{ℕ, Bool, true, false, Option, none, some, []}
use qoder_2api_go.Prelude.Int.{ℤ, pos}
use qoder_2api_go.Text.{Text}
use qoder_2api_go.Dict.{Dict}

pub record ModelStat (R : Type 0) : Type 0 where
  pub model : Text
  pub total : ℕ
  pub success : ℕ
  pub failed : ℕ
  pub billed : ℕ
  pub credits : R

pub record HourStat (R : Type 0) : Type 0 where
  pub hour : Text
  pub total : ℕ
  pub success : ℕ
  pub failed : ℕ
  pub billed : ℕ
  pub credits : R

pub record Quota (R : Type 0) : Type 0 where
  pub total : R
  pub used : R
  pub remaining : R
  pub percentage : R
  pub unit : Text
  pub detail_url : Text

pub record OrgResourcePackage (R : Type 0) : Type 0 where
  pub used : R
  pub cap : R
  pub remaining : R
  pub percentage : R
  pub available : Bool
  pub unit : Text

pub record Account (R : Type 0) : Type 0 where
  pub plan : Text
  pub tag : Text
  pub org_name : Text
  pub is_quota_exceeded : Bool
  pub total_usage_percentage : R
  pub user_quota : Option (Quota R)
  pub add_on_quota : Option (Quota R)
  pub org_resource_package : Option (OrgResourcePackage R)

pub record Data (R : Type 0) : Type 0 where
  pub total : ℕ
  pub success : ℕ
  pub failed : ℕ
  pub prompt_tokens : ℤ
  pub completion_tokens : ℤ
  pub cached_tokens : ℤ
  pub credits : R
  pub billed_requests : ℕ
  -- instants in milliseconds; at most 0 stands for an unknown boundary
  pub next_reset_ms : ℤ
  pub cycle_start_ms : ℤ
  pub cycle_credits : R
  pub account : Option (Account R)
  pub by_model : Dict (ModelStat R)
  pub hourly : Dict (HourStat R)

pub record Usage (R : Type 0) : Type 0 where
  pub prompt_tokens : ℤ
  pub completion_tokens : ℤ
  pub cached_tokens : ℤ
  pub credits : R
  pub non_billable : Bool

-- `persist` says whether there is a persister.
pub record Recorder (R : Type 0) : Type 0 where
  pub stats_data : Data R
  pub persist : Bool
  pub dirty : Bool

module _ {R : Type 0} where
  -- `newData`; the argument is the float 0.
  unfoldable pub new_data : R → Data R
  new_data free = record {
    total = 0;
    success = 0;
    failed = 0;
    prompt_tokens = pos 0;
    completion_tokens = pos 0;
    cached_tokens = pos 0;
    credits = free;
    billed_requests = 0;
    next_reset_ms = pos 0;
    cycle_start_ms = pos 0;
    cycle_credits = free;
    account = none;
    by_model = [];
    hourly = [];
  }

  -- `NewRecorder`: without a persister, or with what it loads, if it has anything. Values are not
  -- shared in the model, so `normalize` and `Clone` have nothing to do.
  unfoldable pub new_recorder : R → Option (Option (Data R)) → Recorder R
  new_recorder free none = record { stats_data = new_data free; persist = false; dirty = false }
  new_recorder free (some none) = record {
    stats_data = new_data free;
    persist = true;
    dirty = false;
  }
  new_recorder free (some (some d)) = record { stats_data = d; persist = true; dirty = false }
