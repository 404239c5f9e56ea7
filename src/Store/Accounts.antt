-- ===== src/Store/Accounts.antt =====
-- store/store.go: the account pool. Each definition is what a method does to the configuration while
-- it holds the lock, with the checks before it; an ID that the method generates and the clock are
-- arguments. `lower` is strings.ToLower.
use qoder_2api_go.Prelude.{
  Bool, true, false, not, ◌||◌, Option, none, some, List, [], ◌∷◌, ◌++◌, filter, if◌then◌else◌,
}
use qoder_2api_go.Prelude.Int.{ℤ, pos, ltb_ℤ}
use qoder_2api_go.Text.{Text, codes, text_eq, is_empty, trim_space}
use qoder_2api_go.Dict.{Dict, lookup}
use qoder_2api_go.Store.Account.{Account, AccountSnapshot, max_account_weight}
use qoder_2api_go.Store.Config.{
  ApiKey, Config, StoreError, empty_token, duplicate_account, no_account, bad_weight,
}
use qoder_2api_go.Store.Settings.{validate_checkin_time}

-- What a method returns beside its error.
pub data Reply (R : Type 0) : Type 0 where
  done : Reply R
  added_account : Account R → Reply R
  added_key : ApiKey → Reply R

-- How a method ends its locked section: with an error, with nothing to save, or with a
-- configuration to save.
pub data Outcome (R : Type 0) : Type 0 where
  rejects : StoreError → Outcome R
  keeps : Outcome R
  writes : Reply R → Config R → Outcome R

module _ {R : Type 0} where
  -- `findAccountByPAT`, with the account in place of its index
  unfoldable pub find_account_by_pat : List (Account R) → Text → Option (Account R)
  unfolding text_eq
  find_account_by_pat [] pat = none
  find_account_by_pat (acc ∷ accounts) pat =
      let rest = find_account_by_pat accounts pat in if text_eq acc.pat pat then some acc else rest

  -- `findAccountByPAT` finds an account.
  unfoldable pub holds_pat : List (Account R) → Text → Bool
  unfolding text_eq
  holds_pat [] pat = false
  holds_pat (acc ∷ accounts) pat = text_eq acc.pat pat || holds_pat accounts pat

  -- `GetAccount`
  unfoldable pub get_account : List (Account R) → Text → Option (Account R)
  unfolding text_eq
  get_account [] id = none
  get_account (acc ∷ accounts) id =
      let rest = get_account accounts id in if text_eq acc.id id then some acc else rest

  -- `AccountRegionByPAT`
  unfoldable pub account_region_by_pat : Config R → Text → Text
  unfolding find_account_by_pat
  account_region_by_pat c pat = elim (find_account_by_pat c.accounts pat) [
    | none ↦ []
    | some acc ↦ acc.region
  ]

  -- `ClearActiveAccount`
  unfoldable pub clear_active_account : Config R → Outcome R
  clear_active_account c = writes done (record c { active_account_id = [] })

  -- The entry that `AddAccountWithRegion` and the migration append.
  unfoldable pub new_account : Text → Text → Text → Text → ℤ → Account R
  new_account id pat note region now = record {
    id = id;
    pat = pat;
    note = note;
    region = region;
    weight = pos 0;
    created_at = now;
    snapshot = none;
    auto_checkin = false;
    checkin_time = [];
    last_checkin_at = pos 0;
    last_checkin_status = [];
    last_checkin_msg = [];
  }

  -- The pool with an account behind it, which becomes active if none is.
  unfoldable pub append_account : Account R → Config R → Config R
  append_account entry c =
      let c' = record c { accounts = c.accounts ++ entry ∷ [] } in
      if is_empty c.active_account_id
      then record c' { active_account_id = entry.id; pat = entry.pat }
      else c'

  -- The locked section of `AddAccountWithRegion`.
  unfoldable pub add_unless_pooled : Account R → Config R → Outcome R
  unfolding holds_pat append_account
  add_unless_pooled entry c =
      if holds_pat c.accounts entry.pat
      then rejects duplicate_account
      else writes (added_account entry) (append_account entry c)

  -- `activate` of the account that was found, or the error.
  unfoldable pub activate_found : Text → Config R → Option (Account R) → Outcome R
  activate_found id c none = rejects (no_account id)
  activate_found id c (some acc) = writes done (record c { active_account_id = id; pat = acc.pat })

  -- `ActivateAccount`
  unfoldable pub activate_account : Text → Config R → Outcome R
  unfolding get_account activate_found
  activate_account id c = activate_found id c (get_account c.accounts id)

  -- The active account of `DeleteAccount`, after the active one was deleted.
  unfoldable pub move_active : List (Account R) → Config R → Config R
  move_active [] c = record c { active_account_id = []; pat = [] }
  move_active (acc ∷ accounts) c = record c { active_account_id = acc.id; pat = acc.pat }

  -- `found` and `filtered` of `DeleteAccount`
  unfoldable pub has_account : List (Account R) → Text → Bool
  unfolding text_eq
  has_account [] id = false
  has_account (acc ∷ accounts) id = text_eq acc.id id || has_account accounts id

  unfoldable pub without_account : Text → List (Account R) → List (Account R)
  unfolding text_eq filter
  without_account id = filter (λ acc. not (text_eq acc.id id))

  -- `DeleteAccount`
  unfoldable pub delete_account : Text → Config R → Outcome R
  unfolding text_eq has_account without_account move_active
  delete_account id c =
      let filtered = without_account id c.accounts in
      let c' = record c { accounts = filtered } in
      let c'' = if text_eq c.active_account_id id then move_active filtered c' else c' in
      if has_account c.accounts id then writes done c'' else rejects (no_account id)

  unfoldable pub behind : Account R → Option (List (Account R)) → Option (List (Account R))
  behind acc none = none
  behind acc (some accounts) = some (acc ∷ accounts)

  -- The loops that change the first account with an ID, if there is one.
  unfoldable pub update_first :
      Text → (Account R → Account R) → List (Account R) → Option (List (Account R))
  unfolding text_eq behind
  update_first id f [] = none
  update_first id f (acc ∷ accounts) =
      let rest = update_first id f accounts in
      if text_eq acc.id id then some (f acc ∷ accounts) else behind acc rest

  unfoldable pub store_accounts : Text → Config R → Option (List (Account R)) → Outcome R
  store_accounts id c none = rejects (no_account id)
  store_accounts id c (some accounts) = writes done (record c { accounts = accounts })

  unfoldable pub update_account : Text → (Account R → Account R) → Config R → Outcome R
  unfolding update_first store_accounts
  update_account id f c = store_accounts id c (update_first id f c.accounts)

  -- `UpdateAccountNote`
  unfoldable pub update_account_note : Text → Text → Config R → Outcome R
  unfolding update_account
  update_account_note id note = update_account id (λ acc. record acc { note = note })

  -- `SetAccountWeight`
  unfoldable pub set_account_weight : Text → ℤ → Config R → Outcome R
  unfolding update_account
  set_account_weight id weight c =
      if ltb_ℤ weight (pos 1) || ltb_ℤ (pos max_account_weight) weight
      then rejects bad_weight
      else update_account id (λ acc. record acc { weight = weight }) c

  -- `UpdateAccountCheckin`
  unfoldable pub update_account_checkin : (Text → Bool) → Text → Bool → Text → Config R → Outcome R
  unfolding update_account validate_checkin_time trim_space
  update_account_checkin is_clock id auto time c =
      let time' = trim_space time in
      let checked = if is_empty time' then none else validate_checkin_time is_clock time' in
      elim checked [
        | some e ↦ rejects e
        | none ↦
            update_account id (λ acc. record acc { auto_checkin = auto; checkin_time = time' }) c
      ]

  -- `RecordCheckin`
  unfoldable pub record_checkin : Text → Text → Text → ℤ → Config R → Outcome R
  unfolding update_account
  record_checkin id status msg at = update_account id λ acc. record acc {
    last_checkin_at = at;
    last_checkin_status = status;
    last_checkin_msg = msg;
  }

  -- `SetAccountSnapshot`
  unfoldable pub set_account_snapshot : Text → Option (AccountSnapshot R) → Config R → Outcome R
  unfolding update_account
  set_account_snapshot id snap = update_account id (λ acc. record acc { snapshot = snap })

  -- The loop of `SaveSnapshots`: the pool, and whether a snapshot was applied.
  unfoldable pub apply_snapshot : Account R → Option (AccountSnapshot R) → Account R
  apply_snapshot acc none = acc
  apply_snapshot acc (some snap) = record acc { snapshot = some snap }

  unfoldable pub apply_snapshots : Dict (AccountSnapshot R) → List (Account R) → List (Account R)
  unfolding lookup apply_snapshot
  apply_snapshots snaps [] = []
  apply_snapshots snaps (acc ∷ accounts) =
      apply_snapshot acc (lookup acc.id snaps) ∷ apply_snapshots snaps accounts

  unfoldable pub applies : Dict (AccountSnapshot R) → List (Account R) → Bool
  unfolding lookup
  applies snaps [] = false
  applies snaps (acc ∷ accounts) =
      elim (lookup acc.id snaps) [ none ↦ false | some snap ↦ true ] || applies snaps accounts

  -- `SaveSnapshots`
  unfoldable pub save_snapshots : Dict (AccountSnapshot R) → Config R → Outcome R
  unfolding apply_snapshots applies
  save_snapshots snaps c =
      if applies snaps c.accounts
      then writes done (record c { accounts = apply_snapshots snaps c.accounts })
      else keeps

-- `normalizeRegion`
unfoldable pub normalize_region : (Text → Text) → Text → Text
unfolding text_eq trim_space
normalize_region lower region =
    let r = lower (trim_space region) in
    if text_eq r (codes "global") || text_eq r (codes "intl") || text_eq r (codes "international")
    then codes "global"
    else []

-- `AddAccountWithRegion`
unfoldable pub add_account_with_region :
    {R : Type 0} → (Text → Text) → Text → ℤ → Text → Text → Text → Config R → Outcome R
unfolding add_unless_pooled new_account normalize_region
add_account_with_region lower id now pat note region c =
    if is_empty pat
    then rejects empty_token
    else add_unless_pooled (new_account id pat note (normalize_region lower region) now) c
