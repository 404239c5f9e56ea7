-- ===== src/Store/Restart.antt =====
-- store/store.go: what a restart does to the configuration.
pub mod Durable
use qoder_2api_go.Prelude.{
  ℕ, ◌≡◌, ◌≢◌, refl, sym, subst, ap, ◌∙◌, inl, inr, Bool, true, false, not, ◌||◌, ◌&&◌, Option,
  none, some, List, [], ◌∷◌, ◌++◌, All, All-append, In, In-map, All-In, Bool-cases, if-elim,
  if◌then◌else◌, arith,
}
use qoder_2api_go.Prelude.Int.{ℤ, pos, ltb_ℤ}
use qoder_2api_go.Prelude.Result.{Result, ok, err}
use qoder_2api_go.Float.{FloatOps}
use qoder_2api_go.Text.{Text, text_eq, text_eq_iff, text_eq_refl, is_empty, trim_space}
use qoder_2api_go.Stats.Calendar.{eq_ℤ}
use qoder_2api_go.Store.Account.{Account}
use qoder_2api_go.Store.AutoSwitch.{AutoSwitch, default_threshold}
use qoder_2api_go.Store.Config.{
  Config, StoreError, default_chat_timeout_seconds, max_chat_timeout_seconds,
  default_idle_timeout_seconds, max_idle_timeout_seconds,
}
use qoder_2api_go.Store.Settings.{out_of_range, normalize_timeout}
use qoder_2api_go.Store.Accounts.{
  Outcome, writes, Reply, holds_pat, find_account_by_pat, new_account,
}
use qoder_2api_go.Store.Calls.{Call, Parsers, perform, Disk, Store, save, run, finish, answer}
use qoder_2api_go.Store.Load.{
  Decoded, Import, or_default, or_positive, import_token, default_active, fill_auto_switch, fill,
  needs_save, or_error, load_decoded, load_file, load,
}
use qoder_2api_go.Store.Pool.{IsFilled, ids, snoc-In, find_account_by_pat-In}
use qoder_2api_go.Text.Distinct.{texts_snoc}
use qoder_2api_go.Store.Interleaving.{IsCodec}

-- Nothing is missing or out of range, the token is in the pool, and a token has an active account.
pub record IsSettled {R : Type 0} (fl : FloatOps R) (c : Config R) : Type 0 where
  pub has_host : is_empty c.host ≡ false
  pub has_port : eq_ℤ c.port (pos 0) ≡ false
  pub has_password : is_empty c.password ≡ false
  pub chat_in_range : out_of_range 1 max_chat_timeout_seconds c.chat_timeout_seconds ≡ false
  pub idle_in_range : out_of_range 1 max_idle_timeout_seconds c.idle_timeout_seconds ≡ false
  pub keeps_days : ltb_ℤ (pos 0) c.log_retention_days ≡ true
  pub keeps_entries : ltb_ℤ (pos 0) c.log_max_entries ≡ true
  pub pat_pooled : (is_empty c.pat || holds_pat c.accounts c.pat) ≡ true
  pub pat_active : (is_empty c.active_account_id && not (is_empty c.pat)) ≡ false
  pub has_threshold : fl.le c.auto_switch.threshold (fl.of_ℕ 0) ≡ false
  pub has_strategy : is_empty c.auto_switch.strategy ≡ false
  pub has_limit : ltb_ℤ (pos 0) c.auto_switch.sticky_limit ≡ true
  pub has_retries : eq_ℤ c.auto_switch.max_retry_accounts (pos 0) ≡ false
  pub has_checkin_time : is_empty (trim_space c.checkin_time) ≡ false

normalize_timeout_same :
    (n : ℤ) (default max : ℕ) → out_of_range 1 max n ≡ false → normalize_timeout n default max ≡ n
unfolding normalize_timeout out_of_range
normalize_timeout_same n default max h = ground arith

normalize_timeout-in_range :
    (n : ℤ) (default max : ℕ)
    → out_of_range 1 max (pos default) ≡ false
    → out_of_range 1 max (normalize_timeout n default max) ≡ false
unfolding normalize_timeout out_of_range
normalize_timeout-in_range n default max h = ground arith

or_default-filled : (d s : Text) → is_empty d ≡ false → is_empty (or_default d s) ≡ false
unfolding or_default
or_default-filled d [] h = h
or_default-filled d (c ∷ s) h = refl

or_positive-positive : (d n : ℤ) → ltb_ℤ (pos 0) d ≡ true → ltb_ℤ (pos 0) (or_positive d n) ≡ true
unfolding or_positive
or_positive-positive d n h = ground arith

module _ {R : Type 0} (fl : FloatOps R) where
  -- What is settled is loaded as it is.
  pub IsSettled-fill : (im : Import) (c : Config R) → IsSettled fl c → fill fl im c ≡ c
  unfolding fill or_default or_positive import_token default_active fill_auto_switch
  IsSettled-fill im c h =
      rw
        (
          h.has_host,
          h.has_port,
          h.has_password,
          normalize_timeout_same c.chat_timeout_seconds default_chat_timeout_seconds
              max_chat_timeout_seconds h.chat_in_range,
          normalize_timeout_same c.idle_timeout_seconds default_idle_timeout_seconds
              max_idle_timeout_seconds h.idle_in_range,
          h.keeps_days,
          h.keeps_entries,
          h.pat_pooled,
          h.pat_active,
          h.has_threshold,
          h.has_strategy,
          h.has_limit,
          h.has_retries,
          h.has_checkin_time,
        )
        refl

module _ {R : Type 0} where
  holds_pat-In_of :
      (xs : List (Account R)) (acc : Account R) → In acc xs → holds_pat xs acc.pat ≡ true
  unfolding holds_pat
  holds_pat-In_of [] acc i = absurd i
  holds_pat-In_of (x ∷ xs) acc (inl e) =
      let t : text_eq x.pat acc.pat ≡ true =
        (text_eq_iff x.pat acc.pat).1 (ap (λ (a : Account R). a.pat) (sym e)) in
      rw t refl
  holds_pat-In_of (x ∷ xs) acc (inr i) =
      rw (holds_pat-In_of xs acc i) (or_true (text_eq x.pat acc.pat))
    where
      or_true : (b : Bool) → (b || true) ≡ true
      or_true true = refl
      or_true false = refl

  -- A token that is pooled is found.
  holds_pat-found :
      (xs : List (Account R)) (pat : Text)
      → holds_pat xs pat ≡ true
      → (acc : Account R) × (find_account_by_pat xs pat ≡ some acc)
  unfolding holds_pat find_account_by_pat
  holds_pat-found [] pat h = absurd (cc h)
  holds_pat-found (x ∷ xs) pat h = elim (Bool-cases (text_eq x.pat pat)) [
    | inl t ↦ (x, rw t refl)
    | inr f ↦
        let h' : holds_pat xs pat ≡ true = rw f at h in
        let (acc, e) = holds_pat-found xs pat h' in (acc, rw (f, e) refl)
  ]

  import_token-pooled :
      (im : Import) (pat : Text) (xs : List (Account R))
      → (is_empty pat || holds_pat (import_token im pat xs) pat) ≡ true
  unfolding import_token new_account
  import_token-pooled im pat xs =
      if-elim (λ (ys : List (Account R)). (is_empty pat || holds_pat ys pat) ≡ true)
        (is_empty pat || holds_pat xs pat) (λ h. h)
        (λ f.
          rw
            (holds_pat-In_of (xs ++ new_account im.new_id pat im.default_note [] im.now ∷ [])
              (new_account im.new_id pat im.default_note [] im.now) (snoc-In xs _))
            (or_true (is_empty pat)))
    where
      or_true : (b : Bool) → (b || true) ≡ true
      or_true true = refl
      or_true false = refl

  import_token-IsFilled :
      (im : Import) (pat : Text) (xs : List (Account R))
      → IsFilled im.new_id
      → All IsFilled (ids xs)
      → All IsFilled (ids (import_token im pat xs))
  unfolding import_token new_account
  import_token-IsFilled im pat xs n h =
      if-elim (λ (ys : List (Account R)). All IsFilled (ids ys)) (is_empty pat || holds_pat xs pat)
        (λ _. h)
        (λ f.
          subst (All IsFilled) (sym (texts_snoc _ xs _)) (All-append IsFilled (ids xs) _ h (n, tt)))

  default_active-IsFilled :
      (active pat : Text) (xs : List (Account R))
      → All IsFilled (ids xs)
      → (is_empty pat || holds_pat xs pat) ≡ true
      → (is_empty (default_active active pat xs) && not (is_empty pat)) ≡ false
  unfolding default_active
  default_active-IsFilled active [] xs h p = and_false (is_empty (default_active active [] xs))
    where
      and_false : (b : Bool) → (b && false) ≡ false
      and_false true = refl
      and_false false = refl
  default_active-IsFilled [] (c ∷ pat) xs h p =
      let (acc, e) = holds_pat-found xs (c ∷ pat) p in
      let n : IsFilled acc.id =
        All-In IsFilled (ids xs) acc.id h
          (In-map _ xs acc (find_account_by_pat-In xs (c ∷ pat) acc e).0) in
      rw e (filled acc.id n)
    where
      filled : (s : Text) → IsFilled s → (is_empty s && true) ≡ false
      filled [] n = absurd (n refl)
      filled (c ∷ s) n = refl
  default_active-IsFilled (d ∷ active) (c ∷ pat) xs h p = refl

module _ {R : Type 0} (fl : FloatOps R)
    (positive : fl.le (fl.of_ℕ default_threshold) (fl.of_ℕ 0) ≡ false) where
  threshold-positive :
      (t : R)
      → fl.le (if fl.le t (fl.of_ℕ 0) then fl.of_ℕ default_threshold else t) (fl.of_ℕ 0) ≡ false
  threshold-positive t =
      if-elim (λ (u : R). fl.le u (fl.of_ℕ 0) ≡ false) (fl.le t (fl.of_ℕ 0)) (λ _. positive)
        (λ f. f)

  -- A start settles whatever it reads, if the accounts in the file have IDs.
  pub fill-IsSettled :
      (im : Import) (c : Config R)
      → IsFilled im.new_id
      → All IsFilled (ids c.accounts)
      → IsSettled fl (fill fl im c)
  unfolding fill fill_auto_switch
  fill-IsSettled im c n h = record {
    has_host = or_default-filled _ c.host refl;
    has_port = if-elim (λ p. eq_ℤ p (pos 0) ≡ false) (eq_ℤ c.port (pos 0)) (λ _. refl) (λ f. f);
    has_password = or_default-filled _ c.password refl;
    chat_in_range =
        normalize_timeout-in_range c.chat_timeout_seconds default_chat_timeout_seconds
          max_chat_timeout_seconds (unfold out_of_range in refl);
    idle_in_range =
        normalize_timeout-in_range c.idle_timeout_seconds default_idle_timeout_seconds
          max_idle_timeout_seconds (unfold out_of_range in refl);
    keeps_days = or_positive-positive _ c.log_retention_days refl;
    keeps_entries = or_positive-positive _ c.log_max_entries refl;
    pat_pooled = import_token-pooled im c.pat c.accounts;
    pat_active =
        default_active-IsFilled c.active_account_id c.pat (import_token im c.pat c.accounts)
          (import_token-IsFilled im c.pat c.accounts n h) (import_token-pooled im c.pat c.accounts);
    has_threshold = threshold-positive c.auto_switch.threshold;
    has_strategy = or_default-filled _ c.auto_switch.strategy refl;
    has_limit = or_positive-positive _ c.auto_switch.sticky_limit refl;
    has_retries =
        if-elim (λ p. eq_ℤ p (pos 0) ≡ false) (eq_ℤ c.auto_switch.max_retry_accounts (pos 0))
          (λ _. refl) (λ f. f);
    has_checkin_time =
        if-elim (λ s. is_empty (trim_space s) ≡ false) (is_empty (trim_space c.checkin_time))
          (λ _. unfold trim_space in refl) (λ f. f);
  }

  -- A second start finds nothing more to fill in: where the accounts in the file and the generated
  -- ID are not empty, loading what was loaded changes nothing. The default threshold is taken to be
  -- above 0.
  pub fill_idem :
      (im im' : Import) (c : Config R)
      → IsFilled im.new_id
      → All IsFilled (ids c.accounts)
      → fill fl im' (fill fl im c) ≡ fill fl im c
  fill_idem im im' c n h = IsSettled-fill fl im' (fill fl im c) (fill-IsSettled im c n h)
