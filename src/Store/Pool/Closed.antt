-- ===== src/Store/Pool/Closed.antt =====
-- store/store.go: a property of the pool, the active account, its token and the keys holds after
-- every method if it is closed under the few ways in which the methods change these.
use qoder_2api_go.Prelude.{
  ◌≡◌, ◌≢◌, refl, subst, inl, false, Option, none, some, List, [], ◌∷◌, ◌++◌, map, In, if-elim,
}
use qoder_2api_go.Prelude.Int.{ℤ}
use qoder_2api_go.Text.{Text, text_eq, text_eq_iff, is_empty}
use qoder_2api_go.Store.Account.{Account}
use qoder_2api_go.Store.Config.{ApiKey, Config}
use qoder_2api_go.Store.Accounts.{
  holds_pat, get_account, append_account, has_account, without_account, move_active, activate_found,
  activate_account, delete_account, update_account, add_unless_pooled, normalize_region,
  new_account, add_account_with_region,
}
use qoder_2api_go.Store.Keys.{has_key, without_key}
use qoder_2api_go.Store.Calls.{Call, add_account}
use qoder_2api_go.Store.Pool.{IsFilled, ids, id_pat, snoc-In, get_account-In}
use qoder_2api_go.Store.Pool.Operations.{Writes, update_account-Writes}

-- A property of the accounts, the active ID, the token and the keys.
abbrev pub Property : Type 0 → Type 1
Property R = List (Account R) → Text → Text → List ApiKey → Type 0

abbrev pub Holds : {R : Type 0} → Property R → Config R → Type 0
Holds P c = P c.accounts c.active_account_id c.pat c.api_keys

pub record IsClosed {R : Type 0} (P : Property R) : Type 0 where
  pub updates :
      {xs : List (Account R)} {active pat : Text} {ks : List ApiKey} (ys : List (Account R))
      → map id_pat ys ≡ map id_pat xs
      → P xs active pat ks
      → P ys active pat ks
  pub clears :
      {xs : List (Account R)} {active pat : Text} {ks : List ApiKey}
      → P xs active pat ks
      → P xs [] pat ks
  pub activates :
      {xs : List (Account R)} {active pat : Text} {ks : List ApiKey} (acc : Account R)
      → In acc xs
      → P xs active pat ks
      → P xs acc.id acc.pat ks
  pub appends :
      {xs : List (Account R)} {active pat : Text} {ks : List ApiKey} (entry : Account R)
      → IsFilled entry.id
      → IsFilled entry.pat
      → ¬ In entry.id (ids xs)
      → holds_pat xs entry.pat ≡ false
      → P xs active pat ks
      → P (xs ++ entry ∷ []) active pat ks
  pub removes_other :
      {xs : List (Account R)} {active pat : Text} {ks : List ApiKey} (id : Text)
      → active ≢ id
      → P xs active pat ks
      → P (without_account id xs) active pat ks
  pub removes_active :
      {xs : List (Account R)} {active pat : Text} {ks : List ApiKey} (id : Text)
      → P xs active pat ks
      → P (without_account id xs) [] [] ks
  pub adds_key :
      {xs : List (Account R)} {active pat : Text} {ks : List ApiKey} (entry : ApiKey)
      → has_key ks entry.key ≡ false
      → P xs active pat ks
      → P xs active pat (ks ++ entry ∷ [])
  pub removes_key :
      {xs : List (Account R)} {active pat : Text} {ks : List ApiKey} (id : Text)
      → P xs active pat ks
      → P xs active pat (without_key id ks)

-- A generated ID is not empty and is new to the pool.
abbrev pub IsFresh : {R : Type 0} → Text → List (Account R) → Type 0
IsFresh id accounts = IsFilled id × ¬ In id (ids accounts)

abbrev pub UsesFresh : {R : Type 0} → Call R → Config R → Type 0
UsesFresh (add_account id now pat note region) c = IsFresh id c.accounts
UsesFresh _ c = Unit

is_empty-IsFilled : (s : Text) → is_empty s ≡ false → IsFilled s
is_empty-IsFilled [] h e = cc
is_empty-IsFilled (c ∷ s) h e = cc

module _ {R : Type 0} {P : Property R} (closed : IsClosed P) where
  append_account-Holds :
      (entry : Account R) (c : Config R)
      → IsFilled entry.pat
      → IsFresh entry.id c.accounts
      → holds_pat c.accounts entry.pat ≡ false
      → Holds P c
      → Holds P (append_account entry c)
  unfolding append_account
  append_account-Holds entry c n fresh f h =
      let h' = closed.appends entry fresh.0 n fresh.1 f h in
      if-elim (Holds P) (is_empty c.active_account_id)
        (λ _. closed.activates entry (snoc-In c.accounts entry) h') (λ _. h')

  pub add_account_with_region-Writes :
      (lower : Text → Text) (id : Text) (now : ℤ) (pat note region : Text) (c : Config R)
      → IsFresh id c.accounts
      → Holds P c
      → Writes (Holds P) (add_account_with_region lower id now pat note region c)
  unfolding add_account_with_region add_unless_pooled new_account
  add_account_with_region-Writes lower id now pat note region c fresh h =
      if-elim (Writes (Holds P)) (is_empty pat) (λ _. tt)
        λ filled.
          if-elim (Writes (Holds P)) (holds_pat c.accounts pat) (λ _. tt)
            λ f.
              append_account-Holds (new_account id pat note (normalize_region lower region) now) c
                (is_empty-IsFilled pat filled) fresh f h

  move_active-Holds :
      (xs : List (Account R)) (c : Config R)
      → P xs [] [] c.api_keys
      → Holds P (move_active xs (record c { accounts = xs }))
  unfolding move_active
  move_active-Holds [] c h = h
  move_active-Holds (acc ∷ xs) c h = closed.activates acc (inl refl) h

  pub delete_account-Writes :
      (id : Text) (c : Config R) → Holds P c → Writes (Holds P) (delete_account id c)
  unfolding delete_account
  delete_account-Writes id c h =
      if-elim (Writes (Holds P)) (has_account c.accounts id)
        (λ _.
          if-elim (Holds P) (text_eq c.active_account_id id)
            (λ _. move_active-Holds (without_account id c.accounts) c (closed.removes_active id h))
            (λ f.
              closed.removes_other id (λ e. cc (f, (text_eq_iff c.active_account_id id).1 e)) h))
        (λ _. tt)

  pub activate_account-Writes :
      (id : Text) (c : Config R) → Holds P c → Writes (Holds P) (activate_account id c)
  unfolding activate_account
  activate_account-Writes id c h = go (get_account c.accounts id) refl
    where
      go :
          (o : Option (Account R))
          → get_account c.accounts id ≡ o
          → Writes (Holds P) (activate_found id c o)
      go none e = tt
      go (some acc) e =
          let (i, d) = get_account-In c.accounts id acc e in
          subst (λ x. P c.accounts x acc.pat c.api_keys) d (closed.activates acc i h)

  pub update-Writes :
      (id : Text) (f : Account R → Account R) (c : Config R)
      → ((acc : Account R) → id_pat (f acc) ≡ id_pat acc)
      → Holds P c
      → Writes (Holds P) (update_account id f c)
  update-Writes id f c k h =
      update_account-Writes (Holds P) id f c k (λ xs e. closed.updates xs e h)
