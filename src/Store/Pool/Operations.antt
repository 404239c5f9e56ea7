-- ===== src/Store/Pool/Operations.antt =====
-- store/store.go: what a method may write, and the methods on the pool.
use qoder_2api_go.Prelude.{
  ◌≡◌, refl, sym, subst, ap, inl, inr, Bool, true, false, Option, none, some, List, [], ◌∷◌, map,
  Bool-cases, if-elim, if◌then◌else◌, some_inj,
}
use qoder_2api_go.Text.{Text, text_eq, is_empty}
use qoder_2api_go.Store.Account.{Account}
use qoder_2api_go.Store.Config.{Config, StoreError, no_origins}
use qoder_2api_go.Store.Settings.{validate_cors_origins, OriginUrl}
use qoder_2api_go.Store.Accounts.{
  Outcome, done, behind, rejects, keeps, writes, update_first, store_accounts, update_account,
}
use qoder_2api_go.Store.Calls.{checked, write_cors}
use qoder_2api_go.Store.Pool.{id_pat}

-- What is written, if anything is, has the property.
abbrev pub Writes : {R : Type 0} → (Config R → Type 0) → Outcome R → Type 0
Writes P (rejects e) = Unit
Writes P keeps = Unit
Writes P (writes reply c) = P c

module _ {R : Type 0} where
  pub checked-Writes :
      (P : Config R → Type 0) (o : Option StoreError) (c : Config R) → P c → Writes P (checked o c)
  checked-Writes P none c h = h
  checked-Writes P (some e) c h = tt

  pub write_cors-Writes :
      (P : Config R → Type 0) (parse : Text → Option OriginUrl) (enabled : Bool) (origins : Text)
      (c : Config R)
      → P (record c { cors_enabled = enabled; cors_origins = origins })
      → Writes P (write_cors parse enabled origins c)
  unfolding write_cors
  write_cors-Writes P parse false origins c h = h
  write_cors-Writes P parse true origins c h = go (validate_cors_origins parse origins)
    where
      go :
          (o : Option StoreError)
          → Writes P (elim o [
            | some e ↦ rejects e
            | none ↦
                if is_empty origins
                then rejects no_origins
                else writes done (record c { cors_enabled = true; cors_origins = origins })
          ])
      go (some e) = tt
      go none = if-elim (Writes P) (is_empty origins) (λ _. tt) (λ _. h)

  behind-some :
      (a : Account R) (o : Option (List (Account R))) (accounts : List (Account R))
      → behind a o ≡ some accounts
      → (rest : List (Account R)) × ((o ≡ some rest) × (accounts ≡ a ∷ rest))
  unfolding behind
  behind-some a none accounts h = absurd (cc h)
  behind-some a (some rest) accounts h = (rest, (refl, sym (some_inj h)))

  update_first-map :
      {B : Type 0} (g : Account R → B) (id : Text) (f : Account R → Account R)
      (accounts accounts' : List (Account R))
      → ((acc : Account R) → g (f acc) ≡ g acc)
      → update_first id f accounts ≡ some accounts'
      → map g accounts' ≡ map g accounts
  unfolding update_first
  update_first-map g id f [] accounts' k h = absurd (cc h)
  update_first-map g id f (a ∷ accounts) accounts' k h = elim (Bool-cases (text_eq a.id id)) [
    | inl t ↦
        let e : f a ∷ accounts ≡ accounts' =
          some_inj (let h' : some (f a ∷ accounts) ≡ some accounts' = rw t at h in h') in
        subst (λ xs. map g xs ≡ g a ∷ map g accounts) e (ap (λ b. b ∷ map g accounts) (k a))
    | inr n ↦
        let h' : behind a (update_first id f accounts) ≡ some accounts' = rw n at h in
        let (rest, (e, d)) = behind-some a (update_first id f accounts) accounts' h' in
        subst (λ xs. map g xs ≡ g a ∷ map g accounts) (sym d)
          (ap (λ r. g a ∷ r) (update_first-map g id f accounts rest k e))
  ]

  -- A change that keeps the ID and the token of the account keeps what the pool has of them.
  pub update_account-Writes :
      (P : Config R → Type 0) (id : Text) (f : Account R → Account R) (c : Config R)
      → ((acc : Account R) → id_pat (f acc) ≡ id_pat acc)
      → ((accounts : List (Account R))
          → map id_pat accounts ≡ map id_pat c.accounts
          → P (record c { accounts = accounts }))
      → Writes P (update_account id f c)
  unfolding update_account store_accounts
  update_account-Writes P id f c k h = go (update_first id f c.accounts) refl
    where
      go :
          (o : Option (List (Account R)))
          → update_first id f c.accounts ≡ o
          → Writes P (store_accounts id c o)
      go none e = tt
      go (some accounts) e = h accounts (update_first-map id_pat id f c.accounts accounts k e)
