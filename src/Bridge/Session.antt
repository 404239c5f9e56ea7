-- ===== src/Bridge/Session.antt =====
-- bridge/session.go: the session of a bridge and its renewal, and the cached OpenAPI bearer. Each call
-- takes the answers of the gateway that it may ask for; `tier` is resolveAccountStatus. Instants are
-- milliseconds whose 64-bit sums do not wrap.
pub mod Renewal
use qoder_2api_go.Prelude.{
  ℕ, ◌*◌, Bool, true, false, not, ◌||◌, ◌&&◌, Option, none, some, [], ◌∷◌, if◌then◌else◌,
}
use qoder_2api_go.Prelude.Int.{ℤ, pos, ltb_ℤ, ◌-ℤ◌}
use qoder_2api_go.Prelude.Result.{Result, ok, err}
use qoder_2api_go.Stats.Calendar.{eq_ℤ}
use qoder_2api_go.Text.{Text, codes, is_empty}

abbrev pub refresh_margin_ms : ℕ
refresh_margin_ms = 2 * 3600 * 1000

abbrev pub unknown_expiry_ttl_ms : ℕ
unknown_expiry_ttl_ms = 30 * 60 * 1000

abbrev pub quota_bearer_ttl_margin_ms : ℕ
quota_bearer_ttl_margin_ms = 5 * 60 * 1000

-- The fields of a job token; 0 stands for an expiry that is not reported.
pub record JobToken : Type 0 where
  pub name : Text
  pub id : Text
  pub user_type : Text
  pub security_oauth : Text
  pub refresh_token : Text
  pub expire_ms : ℤ

-- `AuthIdentity`, from which the session is signed.
pub record Identity : Type 0 where
  pub name : Text
  pub aid : Text
  pub uid : Text
  pub user_type : Text
  pub security_oauth : Text
  pub refresh_token : Text

-- The session part of an `OpenAiBridge`; there is a session where there is an identity.
pub record Session : Type 0 where
  pub bootstrapped : Bool
  pub identity : Option Identity
  pub refresh_token : Text
  pub security_oauth : Text
  pub expire_ms : ℤ
  pub refreshed_ms : ℤ

-- The answers to ExchangeJobToken and RefreshJobToken, with none for an error.
pub record Gateway : Type 0 where
  pub exchange : Option JobToken
  pub refresh : Option JobToken

pub data SessionError : Type 0 where
  exchange_failed refresh_failed : SessionError

abbrev pub or_text : Text → Text → Text
or_text [] other = other
or_text (c ∷ s) other = c ∷ s

-- `applyJobToken`
unfoldable pub apply_job_token : ℤ → JobToken → Text → Session → Session
apply_job_token now jt user_type s = record s {
  identity = some (record {
    name = jt.name;
    aid = jt.id;
    uid = jt.id;
    user_type = or_text user_type (or_text jt.user_type (codes "personal_standard"));
    security_oauth = jt.security_oauth;
    refresh_token = jt.refresh_token;
  });
  refresh_token = jt.refresh_token;
  security_oauth = jt.security_oauth;
  expire_ms = jt.expire_ms;
  refreshed_ms = now;
}

-- `needsRefresh`
unfoldable pub needs_refresh : ℤ → Session → Bool
needs_refresh now s = elim s.identity [
  | none ↦ true
  | some identity ↦
      if eq_ℤ s.expire_ms (pos 0)
      then ltb_ℤ (pos unknown_expiry_ttl_ms) (now -ℤ s.refreshed_ms)
      else ltb_ℤ (s.expire_ms -ℤ pos refresh_margin_ms) now
]

module _ (tier : Text → Text) where
  -- A token is applied, or the error is returned.
  unfoldable pub adopt :
      ℤ → SessionError → Option JobToken → Session → Option SessionError × Session
  unfolding apply_job_token
  adopt now e none s = (some e, s)
  adopt now e (some jt) s = (none, apply_job_token now jt (tier jt.id) s)

  unfoldable pub mark_bootstrapped : Option SessionError × Session → Option SessionError × Session
  mark_bootstrapped (some e, s) = (some e, s)
  mark_bootstrapped (none, s) = (none, record s { bootstrapped = true })

  -- `bootstrapSession`
  unfoldable pub bootstrap_session : ℤ → Gateway → Session → Option SessionError × Session
  unfolding adopt mark_bootstrapped
  bootstrap_session now g s = mark_bootstrapped (adopt now exchange_failed g.exchange s)

  -- The fallback of a renewal whose refresh was rejected.
  unfoldable pub renew_with :
      ℤ → Bool → Gateway → Option JobToken → Session → Option SessionError × Session
  unfolding adopt
  renew_with now force g (some jt) s = adopt now refresh_failed (some jt) s
  renew_with now force g none s =
      if force then adopt now exchange_failed g.exchange s else (some refresh_failed, s)

  -- `doRenew`
  unfoldable pub do_renew : ℤ → Bool → Gateway → Session → Option SessionError × Session
  unfolding renew_with
  do_renew now force g s = renew_with now force g g.refresh s

  -- `EnsureFreshSession`
  unfoldable pub ensure_fresh_session : ℤ → Gateway → Session → Option SessionError × Session
  unfolding bootstrap_session needs_refresh do_renew
  ensure_fresh_session now g s =
      if s.bootstrapped && not (needs_refresh now s)
      then (none, s)
      else if not s.bootstrapped
      then bootstrap_session now g s
      else do_renew now false g s

  -- `forceRefresh`
  unfoldable pub force_refresh : ℤ → Gateway → Session → Option SessionError × Session
  unfolding do_renew
  force_refresh now g s = do_renew now true g s

-- The cached OpenAPI token; an empty text stands for none, and 0 for an unknown expiry.
pub record OpenApiToken : Type 0 where
  pub token : Text
  pub refresh : Text
  pub expires_ms : ℤ

unfoldable pub is_current : ℤ → OpenApiToken → Bool
is_current now t =
    not (is_empty t.token)
    && (eq_ℤ t.expires_ms (pos 0) || ltb_ℤ now (t.expires_ms -ℤ pos quota_bearer_ttl_margin_ms))

unfoldable pub mint : Option OpenApiToken → OpenApiToken → Result SessionError Text × OpenApiToken
mint none t = (err exchange_failed, t)
mint (some new) t = (ok new.token, new)

unfoldable pub or_exchange : Option OpenApiToken → Option OpenApiToken → Option OpenApiToken
or_exchange none exchanged = exchanged
or_exchange (some new) exchanged = some new

-- `openAPIBearer`, with the answers to a refresh and to an exchange
unfoldable pub open_api_bearer :
    ℤ
    → Option OpenApiToken
    → Option OpenApiToken
    → OpenApiToken
    → Result SessionError Text × OpenApiToken
unfolding is_current mint or_exchange
open_api_bearer now refreshed exchanged t =
    if is_current now t
    then (ok t.token, t)
    else mint (or_exchange (if is_empty t.refresh then none else refreshed) exchanged) t

-- `quotaBearer`, for a region that needs an OpenAPI token or not
unfoldable pub quota_bearer :
    Bool
    → ℤ
    → Option OpenApiToken
    → Option OpenApiToken
    → Session
    → OpenApiToken
    → Result SessionError Text × OpenApiToken
unfolding open_api_bearer
quota_bearer needs_open_api now refreshed exchanged s t =
    if needs_open_api then open_api_bearer now refreshed exchanged t else (ok s.security_oauth, t)

-- `invalidateOpenAPIBearer`
unfoldable pub invalidate_open_api_bearer : OpenApiToken → OpenApiToken
invalidate_open_api_bearer t = record t { token = []; expires_ms = pos 0 }
