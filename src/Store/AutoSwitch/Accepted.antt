-- ===== src/Store/AutoSwitch/Accepted.antt =====
-- store/store.go: what the checks of the routing configuration let through.
use qoder_2api_go.Prelude.{
  [], ◌∷◌, ◌≡◌, refl, subst, true, false, not, ◌||◌, arith, if◌then◌else◌, if-elim,
}
use qoder_2api_go.Prelude.Int.{pos, ltb_ℤ, ◌≤ℤ◌}
use qoder_2api_go.Prelude.Result.{Result, ok}
use qoder_2api_go.Float.{FloatOps}
use qoder_2api_go.Text.{Text, is_empty, codes, text_eq_refl}
use qoder_2api_go.Stats.Calendar.{eq_ℤ}
use qoder_2api_go.Store.Load.{fill_auto_switch, or_default, or_positive}
use qoder_2api_go.Store.AutoSwitch.{
  AutoSwitch, ConfigError, strategy_sticky, min_max_retry_accounts, max_max_retry_accounts,
  known_strategy, normalize_auto_switch, set_auto_switch_config,
}

ok_inj {ℓ κ} : {E : Type κ} {A : Type ℓ} {a b : A} → ◌≡◌ {A = Result E A} (ok a) (ok b) → a ≡ b
ok_inj h = cc

module _ {R : Type 0} (fl : FloatOps R) where
  -- A configuration within the documented limits.
  pub record IsAccepted (c : AutoSwitch R) : Type 0 where
    pub threshold : fl.lt c.threshold (fl.of_ℕ 1) ≡ false
    pub strategy : known_strategy c.strategy ≡ true
    pub sticky_limit : pos 1 ≤ℤ c.sticky_limit
    pub retries_low : pos min_max_retry_accounts ≤ℤ c.max_retry_accounts
    pub retries_high : c.max_retry_accounts ≤ℤ pos max_max_retry_accounts

  sticky-known : known_strategy strategy_sticky ≡ true
  unfolding known_strategy
  sticky-known = rw (text_eq_refl (codes "sticky")) refl

  strategy_or :
      (s : Text)
      → not (known_strategy s || is_empty s) ≡ false
      → known_strategy (if is_empty s then strategy_sticky else s) ≡ true
  strategy_or s h =
      if-elim (λ (t : Text). known_strategy t ≡ true) (is_empty s) (λ _. sticky-known)
        (λ f. ground arith)

  set_auto_switch_config-IsAccepted :
      (c c' : AutoSwitch R) → set_auto_switch_config fl c ≡ ok c' → IsAccepted c'
  unfolding set_auto_switch_config
  set_auto_switch_config-IsAccepted c c' =
      let P = λ (r : Result ConfigError (AutoSwitch R)). r ≡ ok c' → IsAccepted c' in
      if-elim P (fl.lt c.threshold (fl.of_ℕ 1)) (λ _ e. absurd (cc e))
        (λ t.
          if-elim P (not (known_strategy c.strategy || is_empty c.strategy)) (λ _ e. absurd (cc e))
            (λ s.
              if-elim P (ltb_ℤ c.sticky_limit (pos 1)) (λ _ e. absurd (cc e))
                (λ l.
                  if-elim P
                    (ltb_ℤ c.max_retry_accounts (pos min_max_retry_accounts)
                      || ltb_ℤ (pos max_max_retry_accounts) c.max_retry_accounts)
                    (λ _ e. absurd (cc e))
                    (λ m e. subst IsAccepted (ok_inj e) (record {
                      threshold = t;
                      strategy = strategy_or c.strategy s;
                      sticky_limit = ground arith;
                      retries_low = ground arith;
                      retries_high = ground arith;
                    })))))

  known-full : (s : Text) → known_strategy s ≡ true → is_empty s ≡ false
  unfolding known_strategy qoder_2api_go.Text.text_eq
  known-full [] h = cc
  known-full (c ∷ s) h = refl

  normalize_accepted :
      (c : AutoSwitch R)
      → fl.le c.threshold (fl.of_ℕ 0) ≡ false
      → IsAccepted c
      → normalize_auto_switch fl c ≡ c
  unfolding normalize_auto_switch
  normalize_accepted c t v =
      let k = v.strategy in
      let l : ltb_ℤ (pos 0) c.sticky_limit ≡ true = ground (arith, v.sticky_limit) in
      let m : ltb_ℤ (pos 0) c.max_retry_accounts ≡ true = ground (arith, v.retries_low) in
      rw (t, k, l, m) refl

  fill_accepted :
      (c : AutoSwitch R)
      → fl.le c.threshold (fl.of_ℕ 0) ≡ false
      → IsAccepted c
      → fill_auto_switch fl c ≡ c
  unfolding fill_auto_switch or_default or_positive
  fill_accepted c t v =
      let k = known-full c.strategy v.strategy in
      let l : ltb_ℤ (pos 0) c.sticky_limit ≡ true = ground (arith, v.sticky_limit) in
      let m : eq_ℤ c.max_retry_accounts (pos 0) ≡ false = ground (arith, v.retries_low) in
      rw (t, k, l, m) refl

  -- A configuration that `SetAutoSwitchConfig` accepts has a threshold that is not below 1, a known
  -- strategy, and limits within their bounds. `load` fills in nothing of it, and GetAutoSwitch,
  -- which normalizes what it reads, returns it as it is. A threshold that is not below 1 is taken
  -- not to be at most 0.
  pub set_auto_switch_config_stable :
      (c c' : AutoSwitch R)
      → ((x : R) → fl.lt x (fl.of_ℕ 1) ≡ false → fl.le x (fl.of_ℕ 0) ≡ false)
      → set_auto_switch_config fl c ≡ ok c'
      → IsAccepted c' × ((fill_auto_switch fl c' ≡ c') × (normalize_auto_switch fl c' ≡ c'))
  set_auto_switch_config_stable c c' law h =
      let v = set_auto_switch_config-IsAccepted c c' h in
      let t = law c'.threshold v.threshold in (v, (fill_accepted c' t v, normalize_accepted c' t v))
