-- ===== src/Store/Load.antt =====
-- store/store.go: `New` and `load`: the file is read, and what is missing or out of range in it is
-- filled in.
use qoder_2api_go.Prelude.{
  Bool, not, ◌&&◌, ◌||◌, Option, none, some, List, [], ◌∷◌, ◌++◌, if◌then◌else◌,
}
use qoder_2api_go.Prelude.Int.{ℤ, pos, ltb_ℤ}
use qoder_2api_go.Prelude.Result.{Result, ok, err}
use qoder_2api_go.Float.{FloatOps}
use qoder_2api_go.Text.{Text, is_empty, trim_space}
use qoder_2api_go.Logs.Recorder.{default_retention_days, default_max_entries}
use qoder_2api_go.Stats.Calendar.{eq_ℤ}
use qoder_2api_go.Store.Account.{Account}
use qoder_2api_go.Store.AutoSwitch.{
  AutoSwitch, strategy_sticky, default_threshold, default_sticky_limit, default_max_retry_accounts,
}
use qoder_2api_go.Store.Config.{
  Config, StoreError, default_checkin_time, default_host, default_port, default_password,
  default_chat_timeout_seconds, max_chat_timeout_seconds, default_idle_timeout_seconds,
  max_idle_timeout_seconds, failed_read, failed_parse, new_config,
}
use qoder_2api_go.Store.Settings.{normalize_timeout}
use qoder_2api_go.Store.Accounts.{find_account_by_pat, holds_pat, new_account}
use qoder_2api_go.Store.Calls.{Fault, Disk, Store, save}

-- What json.Unmarshal makes of the file: the configuration, with the zero value for a missing field,
-- and whether the keys and the accounts were missing, which Go tells from empty lists.
pub record Decoded (R : Type 0) : Type 0 where
  pub read : Config R
  pub keys_missing : Bool
  pub accounts_missing : Bool

-- The new account's ID, the clock, and the note that the source has in Chinese.
pub record Import : Type 0 where
  pub new_id : Text
  pub now : ℤ
  pub default_note : Text

unfoldable pub or_default : Text → Text → Text
or_default default s = if is_empty s then default else s

unfoldable pub or_positive : ℤ → ℤ → ℤ
or_positive default n = if ltb_ℤ (pos 0) n then n else default

module _ {R : Type 0} where
  -- The migration of a bare token: a token that is not in the pool becomes an account.
  unfoldable pub import_token : Import → Text → List (Account R) → List (Account R)
  unfolding holds_pat new_account
  import_token im pat accounts =
      if is_empty pat || holds_pat accounts pat
      then accounts
      else accounts ++ new_account im.new_id pat im.default_note [] im.now ∷ []

  -- The active account that a file without one gets.
  unfoldable pub default_active : Text → Text → List (Account R) → Text
  unfolding find_account_by_pat
  default_active active pat accounts =
      if is_empty active && not (is_empty pat)
      then elim (find_account_by_pat accounts pat) [ none ↦ active | some acc ↦ acc.id ]
      else active

  unfoldable pub fill_auto_switch : FloatOps R → AutoSwitch R → AutoSwitch R
  unfolding or_default or_positive
  fill_auto_switch fl s = record {
    enabled = s.enabled;
    threshold = if fl.le s.threshold (fl.of_ℕ 0) then fl.of_ℕ default_threshold else s.threshold;
    strategy = or_default strategy_sticky s.strategy;
    sticky_limit = or_positive (pos default_sticky_limit) s.sticky_limit;
    max_retry_accounts =
        if eq_ℤ s.max_retry_accounts (pos 0)
        then pos default_max_retry_accounts
        else s.max_retry_accounts;
  }

  -- What `load` makes of the configuration that it reads.
  unfoldable pub fill : FloatOps R → Import → Config R → Config R
  unfolding or_default or_positive normalize_timeout import_token default_active fill_auto_switch
      trim_space
  fill fl im c =
      let accounts = import_token im c.pat c.accounts in
      record c {
        host = or_default default_host c.host;
        port = if eq_ℤ c.port (pos 0) then pos default_port else c.port;
        password = or_default default_password c.password;
        chat_timeout_seconds =
            normalize_timeout c.chat_timeout_seconds default_chat_timeout_seconds
              max_chat_timeout_seconds;
        idle_timeout_seconds =
            normalize_timeout c.idle_timeout_seconds default_idle_timeout_seconds
              max_idle_timeout_seconds;
        log_retention_days = or_positive (pos default_retention_days) c.log_retention_days;
        log_max_entries = or_positive (pos default_max_entries) c.log_max_entries;
        accounts = accounts;
        active_account_id = default_active c.active_account_id c.pat accounts;
        auto_switch = fill_auto_switch fl c.auto_switch;
        checkin_time =
            if is_empty (trim_space c.checkin_time) then default_checkin_time else c.checkin_time;
      }

  -- The tests of `load` that set `needsSave`.
  unfoldable pub needs_save : FloatOps R → Import → Decoded R → Bool
  unfolding import_token holds_pat trim_space
  needs_save fl im d =
      let c = d.read in
      let pooled = import_token im c.pat c.accounts in
      d.keys_missing
      || is_empty c.host
      || eq_ℤ c.port (pos 0)
      || is_empty c.password
      || ltb_ℤ c.chat_timeout_seconds (pos 1)
      || ltb_ℤ c.idle_timeout_seconds (pos 1)
      || ltb_ℤ c.log_retention_days (pos 1)
      || ltb_ℤ c.log_max_entries (pos 1)
      || ltb_ℤ (pos max_chat_timeout_seconds) c.chat_timeout_seconds
      || ltb_ℤ (pos max_idle_timeout_seconds) c.idle_timeout_seconds
      || d.accounts_missing
      || (not (is_empty c.pat) && not (holds_pat c.accounts c.pat))
      || (is_empty c.active_account_id && not (is_empty c.pat) && holds_pat pooled c.pat)
      || fl.le c.auto_switch.threshold (fl.of_ℕ 0)
      || is_empty (trim_space c.checkin_time)
      || is_empty c.auto_switch.strategy
      || eq_ℤ c.auto_switch.max_retry_accounts (pos 0)
      || ltb_ℤ c.auto_switch.sticky_limit (pos 1)

  module _ {Bytes : Type 0} where
    -- A store, or the error that its save returns.
    unfoldable pub or_error :
        Option StoreError × Store R Bytes → Result StoreError (Store R Bytes) × Disk Bytes
    or_error (none, s) = (ok s, s.disk)
    or_error (some e, s) = (err e, s.disk)

    unfoldable pub load_decoded :
        FloatOps R
        → (Config R → Option Bytes)
        → Import
        → Option Fault
        → Disk Bytes
        → Option (Decoded R)
        → Result StoreError (Store R Bytes) × Disk Bytes
    unfolding fill needs_save save or_error
    load_decoded fl encode im fault disk none = (err failed_parse, disk)
    load_decoded fl encode im fault disk (some d) =
        let s : Store R Bytes = record { config = fill fl im d.read; disk = disk } in
        if needs_save fl im d then or_error (save encode fault s) else (ok s, disk)

    -- `load` of a file that is missing or has some bytes.
    unfoldable pub load_file :
        FloatOps R
        → (Config R → Option Bytes)
        → (Bytes → Option (Decoded R))
        → Import
        → Option Fault
        → Disk Bytes
        → Option Bytes
        → Result StoreError (Store R Bytes) × Disk Bytes
    unfolding load_decoded new_config save or_error
    load_file fl encode decode im fault disk none =
        or_error (save encode fault (record { config = new_config fl; disk = disk }))
    load_file fl encode decode im fault disk (some bytes) =
        load_decoded fl encode im fault disk (decode bytes)

    -- `New`, with whether the file cannot be read
    unfoldable pub load :
        FloatOps R
        → (Config R → Option Bytes)
        → (Bytes → Option (Decoded R))
        → Import
        → Option Fault
        → Bool
        → Disk Bytes
        → Result StoreError (Store R Bytes) × Disk Bytes
    unfolding load_file
    load fl encode decode im fault unreadable disk =
        if unreadable
        then (err failed_read, disk)
        else load_file fl encode decode im fault disk disk.file
