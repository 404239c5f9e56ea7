-- ===== src/Store/Pool/Methods.antt =====
-- store/store.go: a property that is closed under the changes of the pool and the keys holds after
-- every method.
use qoder_2api_go.Prelude.{
  ◌≡◌, refl, Bool, ◌||◌, Option, none, some, List, [], ◌∷◌, map, if-elim, if◌then◌else◌,
}
use qoder_2api_go.Prelude.Int.{ℤ, pos, ltb_ℤ}
use qoder_2api_go.Prelude.Result.{Result, ok, err}
use qoder_2api_go.Float.{FloatOps}
use qoder_2api_go.Text.{Text, is_empty, trim_space}
use qoder_2api_go.Dict.{Dict, lookup}
use qoder_2api_go.Store.Account.{Account, AccountSnapshot, max_account_weight}
use qoder_2api_go.Store.AutoSwitch.{
  AutoSwitch, ConfigError, set_auto_switch, set_auto_switch_config,
}
use qoder_2api_go.Store.Config.{
  Config, StoreError, max_chat_timeout_seconds, max_idle_timeout_seconds,
}
use qoder_2api_go.Store.Settings.{
  validate_checkin_time, validate_log_retention_days, validate_log_max_entries,
  validate_timeout_seconds,
}
use qoder_2api_go.Store.Accounts.{
  rejects, apply_snapshot, apply_snapshots, applies, update_account, set_account_weight,
  update_account_checkin, save_snapshots, clear_active_account, update_account_note, record_checkin,
  set_account_snapshot,
}
use qoder_2api_go.Store.Keys.{
  has_key, generate_id, generate_api_key, add_entry, add_generated, add_key, has_key_id, delete_key,
}
use qoder_2api_go.Store.Calls.{
  Call, Parsers, perform, switched, set_host_port, set_cors, set_chat_timeout, set_idle_timeout,
  set_log_retention_days, set_log_max_entries, set_password, set_pat, set_checkin_time,
  clear_active, add_account, remove_account, activate, set_note, set_weight, set_checkin,
  note_checkin, set_snapshot, merge_snapshots, set_switch, set_switch_config, save_stats, save_logs,
  create_key, remove_key,
}
use qoder_2api_go.Store.Pool.{id_pat}
use qoder_2api_go.Store.Pool.Operations.{Writes, checked-Writes, write_cors-Writes}
use qoder_2api_go.Store.Pool.Closed.{
  Property, Holds, IsClosed, UsesFresh, add_account_with_region-Writes, delete_account-Writes,
  activate_account-Writes, update-Writes,
}

module _ {R : Type 0} {P : Property R} (closed : IsClosed P) where
  apply_snapshots-map :
      (snaps : Dict (AccountSnapshot R)) (accounts : List (Account R))
      → map id_pat (apply_snapshots snaps accounts) ≡ map id_pat accounts
  unfolding apply_snapshots
  apply_snapshots-map snaps [] = refl
  apply_snapshots-map snaps (acc ∷ accounts) =
      let step : (o : Option (AccountSnapshot R)) → id_pat (apply_snapshot acc o) ≡ id_pat acc =
        same acc in
      rw (step (lookup acc.id snaps), apply_snapshots-map snaps accounts) refl
    where
      same :
          (acc : Account R) (o : Option (AccountSnapshot R))
          → id_pat (apply_snapshot acc o) ≡ id_pat acc
      same acc none = refl
      same acc (some snap) = refl

  save_snapshots-Writes :
      (snaps : Dict (AccountSnapshot R)) (c : Config R)
      → Holds P c
      → Writes (Holds P) (save_snapshots snaps c)
  unfolding save_snapshots
  save_snapshots-Writes snaps c h =
      if-elim (Writes (Holds P)) (applies snaps c.accounts)
        (λ _. closed.updates _ (apply_snapshots-map snaps c.accounts) h) (λ _. tt)

  set_account_weight-Writes :
      (id : Text) (weight : ℤ) (c : Config R)
      → Holds P c
      → Writes (Holds P) (set_account_weight id weight c)
  unfolding set_account_weight
  set_account_weight-Writes id weight c h =
      if-elim (Writes (Holds P)) (ltb_ℤ weight (pos 1) || ltb_ℤ (pos max_account_weight) weight)
        (λ _. tt) (λ _. update-Writes closed id _ c (λ acc. refl) h)

  update_account_checkin-Writes :
      (is_clock : Text → Bool) (id : Text) (auto : Bool) (time : Text) (c : Config R)
      → Holds P c
      → Writes (Holds P) (update_account_checkin is_clock id auto time c)
  unfolding update_account_checkin
  update_account_checkin-Writes is_clock id auto time c h = go (
      if is_empty (trim_space time) then none else validate_checkin_time is_clock (trim_space time))
    where
      go :
          (o : Option StoreError)
          → Writes (Holds P) (elim o [
            | some e ↦ rejects e
            | none ↦
                update_account id
                  (λ acc. record acc { auto_checkin = auto; checkin_time = trim_space time })
                  c
          ])
      go (some e) = tt
      go none = update-Writes closed id _ c (λ acc. refl) h

  add_generated-Writes :
      (now : ℤ) (note : Text) (key id : Option Text) (c : Config R)
      → Holds P c
      → Writes (Holds P) (add_generated now note key id c)
  unfolding add_generated add_entry
  add_generated-Writes now note none id c h = tt
  add_generated-Writes now note (some key) none c h = tt
  add_generated-Writes now note (some key) (some id) c h =
      if-elim (Writes (Holds P)) (has_key c.api_keys key) (λ _. tt)
        (λ f. closed.adds_key (record { id = id; key = key; note = note; created_at = now }) f h)

  delete_key-Writes : (id : Text) (c : Config R) → Holds P c → Writes (Holds P) (delete_key id c)
  unfolding delete_key
  delete_key-Writes id c h =
      if-elim (Writes (Holds P)) (has_key_id c.api_keys id) (λ _. closed.removes_key id h) (λ _. tt)

  switched-Writes :
      (c : Config R) (r : Result ConfigError (AutoSwitch R))
      → Holds P c
      → Writes (Holds P) (switched c r)
  switched-Writes c (err e) h = tt
  switched-Writes c (ok s) h = h

  -- Every method but `SetPAT` keeps a closed property; for that one it has to be given.
  pub perform-Writes :
      (fl : FloatOps R) (ps : Parsers) (call : Call R) (c : Config R)
      → ((pat : Text) → call ≡ set_pat pat → Holds P (record c { pat = pat }))
      → UsesFresh call c
      → Holds P c
      → Writes (Holds P) (perform fl ps call c)
  unfolding perform clear_active_account add_key update_account_note record_checkin
      set_account_snapshot
  perform-Writes fl ps (set_host_port host port) c w fresh h = h
  perform-Writes fl ps (set_cors enabled origins) c w fresh h =
      write_cors-Writes (Holds P) ps.parse enabled (trim_space origins) c h
  perform-Writes fl ps (set_chat_timeout n) c w fresh h =
      checked-Writes (Holds P) (validate_timeout_seconds n max_chat_timeout_seconds) _ h
  perform-Writes fl ps (set_idle_timeout n) c w fresh h =
      checked-Writes (Holds P) (validate_timeout_seconds n max_idle_timeout_seconds) _ h
  perform-Writes fl ps (set_log_retention_days n) c w fresh h =
      checked-Writes (Holds P) (validate_log_retention_days n) _ h
  perform-Writes fl ps (set_log_max_entries n) c w fresh h =
      checked-Writes (Holds P) (validate_log_max_entries n) _ h
  perform-Writes fl ps (set_password password) c w fresh h = h
  perform-Writes fl ps (set_pat pat) c w fresh h = w pat refl
  perform-Writes fl ps (set_checkin_time v) c w fresh h =
      checked-Writes (Holds P) (validate_checkin_time ps.is_clock (trim_space v)) _ h
  perform-Writes fl ps clear_active c w fresh h = closed.clears h
  perform-Writes fl ps (add_account id now pat note region) c w fresh h =
      add_account_with_region-Writes closed ps.lower id now pat note region c fresh h
  perform-Writes fl ps (remove_account id) c w fresh h = delete_account-Writes closed id c h
  perform-Writes fl ps (activate id) c w fresh h = activate_account-Writes closed id c h
  perform-Writes fl ps (set_note id note) c w fresh h = update-Writes closed id _ c (λ acc. refl) h
  perform-Writes fl ps (set_weight id weight) c w fresh h = set_account_weight-Writes id weight c h
  perform-Writes fl ps (set_checkin id auto time) c w fresh h =
      update_account_checkin-Writes ps.is_clock id auto time c h
  perform-Writes fl ps (note_checkin id status msg at) c w fresh h =
      update-Writes closed id _ c (λ acc. refl) h
  perform-Writes fl ps (set_snapshot id snap) c w fresh h =
      update-Writes closed id _ c (λ acc. refl) h
  perform-Writes fl ps (merge_snapshots snaps) c w fresh h = save_snapshots-Writes snaps c h
  perform-Writes fl ps (set_switch seen enabled threshold) c w fresh h =
      switched-Writes c (set_auto_switch fl seen enabled threshold) h
  perform-Writes fl ps (set_switch_config s) c w fresh h =
      switched-Writes c (set_auto_switch_config fl s) h
  perform-Writes fl ps (save_stats d) c w fresh h = h
  perform-Writes fl ps (save_logs entries) c w fresh h = h
  perform-Writes fl ps (create_key key_bytes id_bytes now key note) c w fresh h =
      add_generated-Writes now note (if is_empty key then generate_api_key key_bytes else some key)
        (generate_id id_bytes) c h
  perform-Writes fl ps (remove_key id) c w fresh h = delete_key-Writes id c h
