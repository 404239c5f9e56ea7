-- ===== src/Store/Settings.antt =====
-- store/store.go: the settings: their validation, and how they are read. `is_clock` tells whether
-- time.Parse accepts a text for the layout "15:04"; `parse` is url.Parse, with none for an error.
use qoder_2api_go.Prelude.{
  ℕ, zero, suc, Bool, true, false, not, ◌&&◌, ◌||◌, Option, none, some, List, [], ◌∷◌, ◌==◌, length,
  if◌then◌else◌,
}
use qoder_2api_go.Prelude.Int.{ℤ, pos, ltb_ℤ}
use qoder_2api_go.Text.{Text, codes, text_eq, is_empty, trim_space}
use qoder_2api_go.Cors.{split}
use qoder_2api_go.Logs.Recorder.{
  default_retention_days, max_retention_days, min_max_entries, default_max_entries,
  max_entries_hard_cap,
}
use qoder_2api_go.Store.Config.{
  Config, StoreError, bad_checkin_time, bad_retention_days, bad_max_entries, bad_timeout,
  bad_origin, default_checkin_time, default_password, default_chat_timeout_seconds,
  max_chat_timeout_seconds, default_idle_timeout_seconds, max_idle_timeout_seconds,
}

-- The code point at an index, as in `s[2]`. The source counts bytes, which differs only for texts that
-- time.Parse rejects anyway.
unfoldable pub has_at : ℕ → ℕ → Text → Bool
has_at zero c [] = false
has_at zero c (d ∷ s) = d == c
has_at (suc n) c [] = false
has_at (suc n) c (d ∷ s) = has_at n c s

-- `ValidateCheckinTime`
unfoldable pub validate_checkin_time : (Text → Bool) → Text → Option StoreError
unfolding has_at trim_space
validate_checkin_time is_clock s =
    let s' = trim_space s in
    if not (length s' == 5) || not (has_at 2 0x3A s')
    then some bad_checkin_time
    else if is_clock s'
    then none
    else some bad_checkin_time

-- `n < low || n > high` for a setting
unfoldable pub out_of_range : ℕ → ℕ → ℤ → Bool
out_of_range low high n = ltb_ℤ n (pos low) || ltb_ℤ (pos high) n

-- `ValidateLogRetentionDays`
unfoldable pub validate_log_retention_days : ℤ → Option StoreError
unfolding out_of_range
validate_log_retention_days n =
    if out_of_range 1 max_retention_days n then some bad_retention_days else none

-- `ValidateLogMaxEntries`
unfoldable pub validate_log_max_entries : ℤ → Option StoreError
unfolding out_of_range
validate_log_max_entries n =
    if out_of_range min_max_entries max_entries_hard_cap n then some bad_max_entries else none

-- `ValidateTimeoutSeconds`
unfoldable pub validate_timeout_seconds : ℤ → ℕ → Option StoreError
unfolding out_of_range
validate_timeout_seconds n max = if out_of_range 1 max n then some (bad_timeout max) else none

-- The fields of a `url.URL` that `ValidateCORSOrigins` reads.
pub record OriginUrl : Type 0 where
  pub scheme : Text
  pub host : Text
  pub has_user : Bool
  pub raw_query : Text
  pub fragment : Text
  pub path : Text

-- `strings.Contains(s, "*")`
unfoldable pub has_star : Text → Bool
has_star [] = false
has_star (c ∷ s) = c == 0x2A || has_star s

-- The condition on a URL of `ValidateCORSOrigins`.
unfoldable pub is_bad_url : Option OriginUrl → Bool
unfolding has_star text_eq
is_bad_url none = true
is_bad_url (some u) =
    (not (text_eq u.scheme (codes "http")) && not (text_eq u.scheme (codes "https")))
    || is_empty u.host
    || has_star u.host
    || u.has_user
    || not (is_empty u.raw_query)
    || not (is_empty u.fragment)
    || (not (is_empty u.path) && not (text_eq u.path (codes "/")))

-- The loop of `ValidateCORSOrigins`.
unfoldable pub validate_parts : (Text → Option OriginUrl) → List Text → Option StoreError
unfolding is_bad_url trim_space text_eq
validate_parts parse [] = none
validate_parts parse (part ∷ parts) =
    let rest = validate_parts parse parts in
    let origin = trim_space part in
    if is_empty origin || text_eq origin (codes "*")
    then rest
    else if is_bad_url (parse origin)
    then some (bad_origin origin)
    else rest

-- `ValidateCORSOrigins`
unfoldable pub validate_cors_origins : (Text → Option OriginUrl) → Text → Option StoreError
unfolding validate_parts split
validate_cors_origins parse spec = validate_parts parse (split 0x2C spec)

-- The second loop of `UsableCORSSpec`.
unfoldable pub some_part : List Text → Bool
unfolding trim_space
some_part [] = false
some_part (part ∷ parts) = not (is_empty (trim_space part)) || some_part parts

-- `UsableCORSSpec`
unfoldable pub usable_cors_spec : (Text → Option OriginUrl) → Text → Text
unfolding validate_cors_origins some_part trim_space split
usable_cors_spec parse spec =
    let spec' = trim_space spec in
    if is_empty spec' then [] else elim (validate_cors_origins parse spec') [
      | some e ↦ []
      | none ↦ if some_part (split 0x2C spec') then spec' else []
    ]

-- `normalizeTimeout`
unfoldable pub normalize_timeout : ℤ → ℕ → ℕ → ℤ
normalize_timeout n default max =
    if ltb_ℤ n (pos 1) then pos default else if ltb_ℤ (pos max) n then pos max else n

module _ {R : Type 0} where
  -- `GetChatTimeoutSeconds`
  unfoldable pub get_chat_timeout_seconds : Config R → ℤ
  unfolding normalize_timeout
  get_chat_timeout_seconds c =
      normalize_timeout c.chat_timeout_seconds default_chat_timeout_seconds max_chat_timeout_seconds

  -- `GetIdleTimeoutSeconds`
  unfoldable pub get_idle_timeout_seconds : Config R → ℤ
  unfolding normalize_timeout
  get_idle_timeout_seconds c =
      normalize_timeout c.idle_timeout_seconds default_idle_timeout_seconds max_idle_timeout_seconds

  -- `GetPassword`
  unfoldable pub get_password : Config R → Text
  get_password c = if is_empty c.password then default_password else c.password

  -- `GetCheckinTime`
  unfoldable pub get_checkin_time : Config R → Text
  unfolding trim_space
  get_checkin_time c =
      if is_empty (trim_space c.checkin_time) then default_checkin_time else c.checkin_time

  -- `GetLogRetentionDays`
  unfoldable pub get_log_retention_days : Config R → ℤ
  get_log_retention_days c =
      if ltb_ℤ (pos 0) c.log_retention_days
      then if ltb_ℤ (pos max_retention_days) c.log_retention_days
        then pos max_retention_days
        else c.log_retention_days
      else pos default_retention_days

  -- `GetLogMaxEntries`
  unfoldable pub get_log_max_entries : Config R → ℤ
  get_log_max_entries c =
      if ltb_ℤ (pos 0) c.log_max_entries
      then if ltb_ℤ c.log_max_entries (pos min_max_entries)
        then pos min_max_entries
        else if ltb_ℤ (pos max_entries_hard_cap) c.log_max_entries
        then pos max_entries_hard_cap
        else c.log_max_entries
      else pos default_max_entries
