-- ===== src/Store/Config.antt =====
-- store/store.go: the configuration that the store keeps and writes as JSON, and its defaults. The
-- statistics and the log entries in it are those of the packages stats and logs.
use qoder_2api_go.Prelude.{ℕ, Bool, false, Option, none, List, []}
use qoder_2api_go.Prelude.Int.{ℤ, pos}
use qoder_2api_go.Float.{FloatOps}
use qoder_2api_go.Text.{Text, codes}
use qoder_2api_go.Logs.Entry.{LogEntry}
use qoder_2api_go.Logs.Recorder.{default_retention_days, default_max_entries}
use qoder_2api_go.Stats.Data.{Data}
use qoder_2api_go.Store.Account.{Account}
use qoder_2api_go.Store.AutoSwitch.{AutoSwitch, ConfigError, default_threshold}

pub record ApiKey : Type 0 where
  pub id : Text
  pub key : Text
  pub note : Text
  pub created_at : ℤ

pub record Config (R : Type 0) : Type 0 where
  pub host : Text
  pub port : ℤ
  pub pat : Text
  pub password : Text
  pub api_keys : List ApiKey
  pub statistics : Option (Data R)
  pub logs : List (LogEntry R)
  pub log_retention_days : ℤ
  pub log_max_entries : ℤ
  pub chat_timeout_seconds : ℤ
  pub idle_timeout_seconds : ℤ
  pub cors_enabled : Bool
  pub cors_origins : Text
  pub accounts : List (Account R)
  pub active_account_id : Text
  pub auto_switch : AutoSwitch R
  pub checkin_time : Text

abbrev pub default_checkin_time : Text
default_checkin_time = codes "10:15"

abbrev pub default_host : Text
default_host = codes "0.0.0.0"

abbrev pub default_port : ℕ
default_port = 10081

abbrev pub default_password : Text
default_password = codes "password"

abbrev pub default_chat_timeout_seconds : ℕ
default_chat_timeout_seconds = 120

abbrev pub max_chat_timeout_seconds : ℕ
max_chat_timeout_seconds = 3600

abbrev pub default_idle_timeout_seconds : ℕ
default_idle_timeout_seconds = 300

abbrev pub max_idle_timeout_seconds : ℕ
max_idle_timeout_seconds = 3600

-- The errors of the store. `failed_save` and `failed_read` stand for an error of the file system.
pub data StoreError : Type 0 where
  bad_checkin_time bad_retention_days bad_max_entries : StoreError
  bad_timeout : ℕ → StoreError
  bad_origin : Text → StoreError
  no_origins empty_token duplicate_account bad_weight : StoreError
  no_account no_key : Text → StoreError
  bad_auto_switch : ConfigError → StoreError
  duplicate_key no_random : StoreError
  failed_encoding failed_save failed_read failed_parse : StoreError

-- The configuration of a store whose file does not exist yet.
unfoldable pub new_config : {R : Type 0} → FloatOps R → Config R
new_config fl = record {
  host = default_host;
  port = pos default_port;
  pat = [];
  password = [];
  api_keys = [];
  statistics = none;
  logs = [];
  log_retention_days = pos default_retention_days;
  log_max_entries = pos default_max_entries;
  chat_timeout_seconds = pos default_chat_timeout_seconds;
  idle_timeout_seconds = pos default_idle_timeout_seconds;
  cors_enabled = false;
  cors_origins = [];
  accounts = [];
  active_account_id = [];
  auto_switch = record {
    enabled = false;
    threshold = fl.of_ℕ default_threshold;
    strategy = [];
    sticky_limit = pos 0;
    max_retry_accounts = pos 0;
  };
  checkin_time = [];
}
