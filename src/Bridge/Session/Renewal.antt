-- ===== src/Bridge/Session/Renewal.antt =====
-- bridge/session.go: when a session recovers, and when it does not.
use qoder_2api_go.Prelude.{
  ◌≡◌, refl, ap, Bool, true, false, not, ◌&&◌, Option, none, some, List, [], ◌∷◌, All, arith,
  ltb→lt, lt→ltb, if-elim, if◌then◌else◌,
}
use qoder_2api_go.Prelude.Int.{ℤ, pos, ltb_ℤ, ◌-ℤ◌, ◌≤ℤ◌, -ℤ_parts}
use qoder_2api_go.Stats.Calendar.{eq_ℤ}
use qoder_2api_go.Text.{Text}
use qoder_2api_go.Bridge.Session.{
  JobToken, Identity, Session, Gateway, SessionError, refresh_failed, refresh_margin_ms,
  unknown_expiry_ttl_ms, apply_job_token, needs_refresh, adopt, renew_with, do_renew,
  ensure_fresh_session, force_refresh,
}

ltb_later :
    (a r now later : ℤ) → now ≤ℤ later → ltb_ℤ a (now -ℤ r) ≡ true → ltb_ℤ a (later -ℤ r) ≡ true
ltb_later a r now later l h =
    lt→ltb _ _ (omega (arith, ltb→lt _ _ h, l, -ℤ_parts now r, -ℤ_parts later r))

later-needs :
    (unknown : Bool) (limit r expiry now later : ℤ)
    → now ≤ℤ later
    → (if unknown then ltb_ℤ limit (now -ℤ r) else ltb_ℤ expiry now) ≡ true
    → (if unknown then ltb_ℤ limit (later -ℤ r) else ltb_ℤ expiry later) ≡ true
later-needs true limit r expiry now later l h = ltb_later limit r now later l h
later-needs false limit r expiry now later l h = lt→ltb _ _ (omega (arith, ltb→lt _ _ h, l))

-- What needs a refresh needs it later too.
needs_refresh_later :
    (now later : ℤ) (s : Session)
    → now ≤ℤ later
    → needs_refresh now s ≡ true
    → needs_refresh later s ≡ true
unfolding needs_refresh
needs_refresh_later now later s l h = go s.identity h
  where
    go :
        (o : Option Identity)
        → elim o as (λ _. Bool) [
          | none ↦ true
          | some identity ↦
              if eq_ℤ s.expire_ms (pos 0)
              then ltb_ℤ (pos unknown_expiry_ttl_ms) (now -ℤ s.refreshed_ms)
              else ltb_ℤ (s.expire_ms -ℤ pos refresh_margin_ms) now
        ]
          ≡ true
        → elim o as (λ _. Bool) [
          | none ↦ true
          | some identity ↦
              if eq_ℤ s.expire_ms (pos 0)
              then ltb_ℤ (pos unknown_expiry_ttl_ms) (later -ℤ s.refreshed_ms)
              else ltb_ℤ (s.expire_ms -ℤ pos refresh_margin_ms) later
        ]
          ≡ true
    go none h = refl
    go (some identity) h =
        later-needs (eq_ℤ s.expire_ms (pos 0)) (pos unknown_expiry_ttl_ms) s.refreshed_ms
          (s.expire_ms -ℤ pos refresh_margin_ms) now later l h

module _ (tier : Text → Text) where
  -- One request after another calls EnsureFreshSession, at an instant and with a gateway each.
  unfoldable pub requests : List (ℤ × Gateway) → Session → List (Option SessionError) × Session
  requests [] s = ([], s)
  requests ((now, g) ∷ calls) s =
      let (e, s') = ensure_fresh_session tier now g s in
      let (es, s'') = requests calls s' in (e ∷ es, s'')

  ensure_fresh_session-fails :
      (now : ℤ) (g : Gateway) (s : Session)
      → s.bootstrapped ≡ true
      → needs_refresh now s ≡ true
      → g.refresh ≡ none
      → ensure_fresh_session tier now g s ≡ (some refresh_failed, s)
  unfolding ensure_fresh_session do_renew renew_with
  ensure_fresh_session-fails now g s b n r =
      if-elim (λ (p : Option SessionError × Session). p ≡ (some refresh_failed, s))
        (s.bootstrapped && not (needs_refresh now s))
        (λ t. absurd (no s.bootstrapped (needs_refresh now s) b n t))
        (λ _.
          if-elim (λ (p : Option SessionError × Session). p ≡ (some refresh_failed, s))
            (not s.bootstrapped) (λ t. absurd (cc (t, b)))
            (λ _. ap (λ o. renew_with tier now false g o s) r))
    where
      no : (b n : Bool) → b ≡ true → n ≡ true → (b && not n) ≡ true → ⊥
      no false x b n t = cc
      no true false b n t = cc
      no true true b n t = cc

  force_refresh-falls :
      (now : ℤ) (g : Gateway) (jt : JobToken) (s : Session)
      → g.refresh ≡ none
      → g.exchange ≡ some jt
      → force_refresh tier now g s ≡ (none, apply_job_token now jt (tier jt.id) s)
  unfolding force_refresh do_renew renew_with adopt
  force_refresh-falls now g jt s r x = rw (r, x) refl

  requests-keep :
      (calls : List (ℤ × Gateway)) (now : ℤ) (s : Session)
      → s.bootstrapped ≡ true
      → needs_refresh now s ≡ true
      → All (λ call. (now ≤ℤ call.0) × (call.1.refresh ≡ none)) calls
      → All (λ e. e ≡ some refresh_failed) (requests calls s).0 × ((requests calls s).1 ≡ s)
  unfolding requests
  requests-keep [] now s b n h = (tt, refl)
  requests-keep ((later, g) ∷ calls) now s b n ((l, r), rest) =
      let fails = ensure_fresh_session-fails later g s b (needs_refresh_later now later s l n) r in
      let step = requests-keep calls now s b n rest in rw fails ((refl, step.0), step.1)

  -- A session that needs a refresh, whose refresh token the gateway rejects from then on: every later
  -- request fails to get a session, in whatever order and number they come and whatever an exchange
  -- of the account's token would give, and the session stays as it is; a forced refresh would succeed
  -- at any of these moments, if the exchange does.
  pub requests-fail :
      (calls : List (ℤ × Gateway)) (now : ℤ) (s : Session)
      → s.bootstrapped ≡ true
      → needs_refresh now s ≡ true
      → All (λ call. (now ≤ℤ call.0) × (call.1.refresh ≡ none)) calls
      → All (λ e. e ≡ some refresh_failed) (requests calls s).0
        × (((requests calls s).1 ≡ s)
            × ((instant : ℤ) (g : Gateway) (jt : JobToken)
                → g.refresh ≡ none
                → g.exchange ≡ some jt
                → force_refresh tier instant g s
                  ≡ (none, apply_job_token instant jt (tier jt.id) s)))
  requests-fail calls now s b n h =
      let (fail, same) = requests-keep calls now s b n h in
      (fail, (same, λ instant g jt r x. force_refresh-falls instant g jt s r x))
