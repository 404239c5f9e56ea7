-- ===== src/Store/Calls.antt =====
-- store/store.go: the methods of the store that write, as calls, and the file behind them. A method
-- changes the configuration under the lock and saves it afterwards, under the lock again.
use qoder_2api_go.Prelude.{ℕ, Bool, Option, none, some, List, if◌then◌else◌}
use qoder_2api_go.Prelude.Int.{ℤ}
use qoder_2api_go.Prelude.Result.{Result, ok, err}
use qoder_2api_go.Float.{FloatOps}
use qoder_2api_go.Text.{Text, is_empty, trim_space}
use qoder_2api_go.Dict.{Dict}
use qoder_2api_go.Logs.Entry.{LogEntry}
use qoder_2api_go.Stats.Data.{Data}
use qoder_2api_go.Store.Account.{AccountSnapshot}
use qoder_2api_go.Store.AutoSwitch.{
  AutoSwitch, ConfigError, set_auto_switch, set_auto_switch_config,
}
use qoder_2api_go.Store.Config.{
  Config, StoreError, no_origins, bad_auto_switch, failed_encoding, failed_save,
  max_chat_timeout_seconds, max_idle_timeout_seconds,
}
use qoder_2api_go.Store.Settings.{
  OriginUrl, validate_checkin_time, validate_log_retention_days, validate_log_max_entries,
  validate_timeout_seconds, validate_cors_origins,
}
use qoder_2api_go.Store.Accounts.{
  Outcome, rejects, keeps, writes, Reply, done, clear_active_account, activate_account,
  delete_account, update_account_note, set_account_weight, update_account_checkin, record_checkin,
  set_account_snapshot, save_snapshots, add_account_with_region,
}
use qoder_2api_go.Store.Keys.{add_key, delete_key}

-- What the store takes from other packages: the test of time.Parse for "15:04", strings.ToLower and
-- url.Parse.
pub record Parsers : Type 0 where
  pub is_clock : Text → Bool
  pub lower : Text → Text
  pub parse : Text → Option OriginUrl

pub data Call (R : Type 0) : Type 0 where
  set_host_port : Text → ℤ → Call R
  set_cors : Bool → Text → Call R
  set_chat_timeout set_idle_timeout set_log_retention_days set_log_max_entries : ℤ → Call R
  set_password set_pat set_checkin_time : Text → Call R
  clear_active : Call R
  -- the generated ID, the clock, the token, the note and the region
  add_account : Text → ℤ → Text → Text → Text → Call R
  remove_account activate : Text → Call R
  set_note : Text → Text → Call R
  set_weight : Text → ℤ → Call R
  set_checkin : Text → Bool → Text → Call R
  note_checkin : Text → Text → Text → ℤ → Call R
  set_snapshot : Text → Option (AccountSnapshot R) → Call R
  merge_snapshots : Dict (AccountSnapshot R) → Call R
  -- SetAutoSwitch reads and writes in two locked sections: the first argument is what it read, which
  -- may have changed since.
  set_switch : AutoSwitch R → Bool → R → Call R
  set_switch_config : AutoSwitch R → Call R
  save_stats : Option (Data R) → Call R
  save_logs : List (LogEntry R) → Call R
  -- the random bytes of a key and of an ID, the clock, the key and the note
  create_key : Option (List ℕ) → Option (List ℕ) → ℤ → Text → Text → Call R
  remove_key : Text → Call R

module _ {R : Type 0} where
  -- A setting is written if its check finds no error.
  abbrev pub checked : Option StoreError → Config R → Outcome R
  checked (some e) c = rejects e
  checked none c = writes done c

  abbrev pub switched : Config R → Result ConfigError (AutoSwitch R) → Outcome R
  switched c (err e) = rejects (bad_auto_switch e)
  switched c (ok s) = writes done (record c { auto_switch = s })

  -- `SetCORS` after trimming
  unfoldable pub write_cors : (Text → Option OriginUrl) → Bool → Text → Config R → Outcome R
  unfolding validate_cors_origins
  write_cors parse enabled origins c =
      let c' = record c { cors_enabled = enabled; cors_origins = origins } in
      if enabled
      then elim (validate_cors_origins parse origins) [
        | some e ↦ rejects e
        | none ↦ if is_empty origins then rejects no_origins else writes done c'
      ]
      else writes done c'

-- The locked section of each method, with the checks before it.
unfoldable pub perform : {R : Type 0} → FloatOps R → Parsers → Call R → Config R → Outcome R
unfolding write_cors trim_space validate_timeout_seconds validate_log_retention_days
    validate_log_max_entries validate_checkin_time clear_active_account add_account_with_region
    delete_account activate_account update_account_note set_account_weight update_account_checkin
    record_checkin set_account_snapshot save_snapshots set_auto_switch set_auto_switch_config
    add_key delete_key
perform fl ps (set_host_port host port) c = writes done (record c { host = host; port = port })
perform fl ps (set_cors enabled origins) c = write_cors ps.parse enabled (trim_space origins) c
perform fl ps (set_chat_timeout n) c =
    checked (validate_timeout_seconds n max_chat_timeout_seconds)
      (record c { chat_timeout_seconds = n })
perform fl ps (set_idle_timeout n) c =
    checked (validate_timeout_seconds n max_idle_timeout_seconds)
      (record c { idle_timeout_seconds = n })
perform fl ps (set_log_retention_days n) c =
    checked (validate_log_retention_days n) (record c { log_retention_days = n })
perform fl ps (set_log_max_entries n) c =
    checked (validate_log_max_entries n) (record c { log_max_entries = n })
perform fl ps (set_password password) c = writes done (record c { password = password })
perform fl ps (set_pat pat) c = writes done (record c { pat = pat })
perform fl ps (set_checkin_time v) c =
    checked (validate_checkin_time ps.is_clock (trim_space v))
      (record c { checkin_time = trim_space v })
perform fl ps clear_active c = clear_active_account c
perform fl ps (add_account id now pat note region) c =
    add_account_with_region ps.lower id now pat note region c
perform fl ps (remove_account id) c = delete_account id c
perform fl ps (activate id) c = activate_account id c
perform fl ps (set_note id note) c = update_account_note id note c
perform fl ps (set_weight id weight) c = set_account_weight id weight c
perform fl ps (set_checkin id auto time) c = update_account_checkin ps.is_clock id auto time c
perform fl ps (note_checkin id status msg at) c = record_checkin id status msg at c
perform fl ps (set_snapshot id snap) c = set_account_snapshot id snap c
perform fl ps (merge_snapshots snaps) c = save_snapshots snaps c
perform fl ps (set_switch seen enabled threshold) c =
    switched c (set_auto_switch fl seen enabled threshold)
perform fl ps (set_switch_config s) c = switched c (set_auto_switch_config fl s)
perform fl ps (save_stats d) c = writes done (record c { statistics = d })
perform fl ps (save_logs entries) c = writes done (record c { logs = entries })
perform fl ps (create_key key_bytes id_bytes now key note) c =
    add_key key_bytes id_bytes now key note c
perform fl ps (remove_key id) c = delete_key id c

-- Where a save can fail.
pub data Fault : Type 0 where
  at_open at_write at_sync at_close at_rename : Fault

-- The data file and the temporary file beside it, with their contents where they exist.
pub record Disk (Bytes : Type 0) : Type 0 where
  pub file : Option Bytes
  pub tmp : Option Bytes

pub record Store (R : Type 0) (Bytes : Type 0) : Type 0 where
  pub config : Config R
  pub disk : Disk Bytes

module _ {Bytes : Type 0} where
  -- `saveLocked` after encoding. A file that cannot be written, synced or closed is removed.
  unfoldable pub save_bytes : Option Fault → Bytes → Disk Bytes → Option StoreError × Disk Bytes
  save_bytes (some at_open) bytes d = (some failed_save, d)
  save_bytes (some at_write) bytes d = (some failed_save, record d { tmp = none })
  save_bytes (some at_sync) bytes d = (some failed_save, record d { tmp = none })
  save_bytes (some at_close) bytes d = (some failed_save, record d { tmp = none })
  save_bytes (some at_rename) bytes d = (some failed_save, record d { tmp = some bytes })
  save_bytes none bytes d = (none, record { file = some bytes; tmp = none })

  unfoldable pub save_encoded :
      Option Fault → Option Bytes → Disk Bytes → Option StoreError × Disk Bytes
  unfolding save_bytes
  save_encoded fault none d = (some failed_encoding, d)
  save_encoded fault (some bytes) d = save_bytes fault bytes d

-- `ClearActiveAccount` ignores the error of its save.
unfoldable pub answer :
    {R : Type 0} → Call R → Reply R → Option StoreError → Result StoreError (Reply R)
answer call reply none = ok reply
answer clear_active reply (some e) = ok reply
answer call reply (some e) = err e

module _ {R : Type 0} {Bytes : Type 0} where
  -- `save`; `encode` is json.MarshalIndent.
  unfoldable pub save :
      (Config R → Option Bytes) → Option Fault → Store R Bytes → Option StoreError × Store R Bytes
  unfolding save_encoded
  save encode fault s =
      let (e, d) = save_encoded fault (encode s.config) s.disk in (e, record s { disk = d })

  unfoldable pub finish :
      (Config R → Option Bytes)
      → Option Fault
      → Call R
      → Store R Bytes
      → Outcome R
      → Result StoreError (Reply R) × Store R Bytes
  unfolding save answer
  finish encode fault call s (rejects e) = (err e, s)
  finish encode fault call s keeps = (ok done, s)
  finish encode fault call s (writes reply c) =
      let (e, s') = save encode fault (record s { config = c }) in (answer call reply e, s')

  -- A whole method.
  unfoldable pub run :
      FloatOps R
      → Parsers
      → (Config R → Option Bytes)
      → Option Fault
      → Call R
      → Store R Bytes
      → Result StoreError (Reply R) × Store R Bytes
  unfolding perform finish
  run fl ps encode fault call s = finish encode fault call s (perform fl ps call s.config)
