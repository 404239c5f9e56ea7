-- ===== src/Store/Pool.antt =====
-- store/store.go: what makes a pool well formed, and that each operation on it keeps it so.
pub mod Operations
pub mod Closed
pub mod Methods
use qoder_2api_go.Prelude.{
  ◌≡◌, ◌≢◌, refl, sym, subst, ap, ◌∙◌, ◌⊎◌, inl, inr, Bool, true, false, not, ◌||◌, Option, none,
  some, List, [], ◌∷◌, ◌++◌, map, filter, All, In, In-append_left, In-append_right, In-filter_of,
  All-append, Bool-cases, if-elim, arith,
}
use qoder_2api_go.Text.{Text, text_eq, text_eq_iff, text_eq_refl, is_empty}
use qoder_2api_go.Text.Distinct.{Distinct, texts, texts_snoc, Distinct-filter, Distinct-texts_snoc}
use qoder_2api_go.Store.Account.{Account}
use qoder_2api_go.Store.Config.{Config}
use qoder_2api_go.Store.Accounts.{
  holds_pat, find_account_by_pat, get_account, append_account, without_account, move_active,
  update_first,
}

abbrev pub IsFilled : Text → Type 0
IsFilled s = s ≢ []

abbrev pub ids : {R : Type 0} → List (Account R) → List Text
ids = texts (λ acc. acc.id)

abbrev pub pats : {R : Type 0} → List (Account R) → List Text
pats = texts (λ acc. acc.pat)

-- What identifies an account.
abbrev pub id_pat : {R : Type 0} → Account R → Text × Text
id_pat acc = (acc.id, acc.pat)

-- Accounts have IDs and tokens, all distinct, and the active ID is that of an account or empty.
pub record IsPooled {R : Type 0} (accounts : List (Account R)) (active : Text) : Type 0 where
  pub filled_ids : All IsFilled (ids accounts)
  pub filled_pats : All IsFilled (pats accounts)
  pub distinct_ids : Distinct (ids accounts)
  pub distinct_pats : Distinct (pats accounts)
  pub active_pooled : (active ≡ []) ⊎ In active (ids accounts)

-- The token that the bridge reads is that of the active account.
abbrev pub IsMirrored : {R : Type 0} → List (Account R) → Text → Text → Type 0
IsMirrored accounts active pat = (active ≡ []) ⊎ In (active, pat) (map id_pat accounts)

module _ {R : Type 0} where
  holds_pat-In :
      (accounts : List (Account R)) (pat : Text)
      → holds_pat accounts pat ≡ false
      → ¬ In pat (pats accounts)
  unfolding holds_pat
  holds_pat-In [] pat h i = i
  holds_pat-In (acc ∷ accounts) pat h (inl e) = cc (h, (text_eq_iff acc.pat pat).1 (sym e))
  holds_pat-In (acc ∷ accounts) pat h (inr i) = holds_pat-In accounts pat (ground arith) i

  -- An account with a fresh ID and a fresh token can go into the pool.
  pub snoc-IsPooled :
      (accounts : List (Account R)) (active : Text) (entry : Account R)
      → IsFilled entry.id
      → IsFilled entry.pat
      → ¬ In entry.id (ids accounts)
      → holds_pat accounts entry.pat ≡ false
      → IsPooled accounts active
      → IsPooled (accounts ++ entry ∷ []) active
  snoc-IsPooled accounts active entry n m fresh h p = record {
    filled_ids =
        subst (All IsFilled) (sym (texts_snoc _ accounts entry))
          (All-append IsFilled (ids accounts) (entry.id ∷ []) p.filled_ids (n, tt));
    filled_pats =
        subst (All IsFilled) (sym (texts_snoc _ accounts entry))
          (All-append IsFilled (pats accounts) (entry.pat ∷ []) p.filled_pats (m, tt));
    distinct_ids = Distinct-texts_snoc _ accounts entry p.distinct_ids fresh;
    distinct_pats =
        Distinct-texts_snoc _ accounts entry p.distinct_pats (holds_pat-In accounts entry.pat h);
    active_pooled = elim p.active_pooled [
      | inl e ↦ inl e
      | inr i ↦ inr (
          subst (λ xs. In active xs) (sym (texts_snoc _ accounts entry))
            (In-append_left active (ids accounts) (entry.id ∷ []) i))
    ];
  }

  pub active-IsPooled :
      (accounts : List (Account R)) (active active' : Text)
      → (active' ≡ []) ⊎ In active' (ids accounts)
      → IsPooled accounts active
      → IsPooled accounts active'
  active-IsPooled accounts active active' a p = record {
    filled_ids = p.filled_ids;
    filled_pats = p.filled_pats;
    distinct_ids = p.distinct_ids;
    distinct_pats = p.distinct_pats;
    active_pooled = a;
  }

  pub snoc-In :
      (accounts : List (Account R)) (entry : Account R) → In entry (accounts ++ entry ∷ [])
  snoc-In accounts entry = In-append_right entry accounts (entry ∷ []) (inl refl)

  -- The account that a search returns is in the pool and has what was searched for.
  pub get_account-In :
      (accounts : List (Account R)) (id : Text) (acc : Account R)
      → get_account accounts id ≡ some acc
      → In acc accounts × (acc.id ≡ id)
  unfolding get_account
  get_account-In [] id acc h = absurd (cc h)
  get_account-In (a ∷ accounts) id acc h = elim (Bool-cases (text_eq a.id id)) [
    | inl t ↦
        let e : a ≡ acc = cc (let h' : some a ≡ some acc = rw t at h in h') in
        (inl (sym e), ap (λ (x : Account R). x.id) (sym e) ∙ (text_eq_iff a.id id).0 t)
    | inr f ↦
        let h' : get_account accounts id ≡ some acc = rw f at h in
        let (i, e) = get_account-In accounts id acc h' in (inr i, e)
  ]

  pub find_account_by_pat-In :
      (accounts : List (Account R)) (pat : Text) (acc : Account R)
      → find_account_by_pat accounts pat ≡ some acc
      → In acc accounts × (acc.pat ≡ pat)
  unfolding find_account_by_pat
  find_account_by_pat-In [] pat acc h = absurd (cc h)
  find_account_by_pat-In (a ∷ accounts) pat acc h = elim (Bool-cases (text_eq a.pat pat)) [
    | inl t ↦
        let e : a ≡ acc = cc (let h' : some a ≡ some acc = rw t at h in h') in
        (inl (sym e), ap (λ (x : Account R). x.pat) (sym e) ∙ (text_eq_iff a.pat pat).0 t)
    | inr f ↦
        let h' : find_account_by_pat accounts pat ≡ some acc = rw f at h in
        let (i, e) = find_account_by_pat-In accounts pat acc h' in (inr i, e)
  ]

  All-texts-filter :
      (f : Account R → Text) (p : Account R → Bool) (accounts : List (Account R))
      → All IsFilled (texts f accounts)
      → All IsFilled (texts f (filter p accounts))
  unfolding filter
  All-texts-filter f p [] h = h
  All-texts-filter f p (a ∷ accounts) (n, h) =
      let rest = All-texts-filter f p accounts h in
      if-elim (λ (xs : List (Account R)). All IsFilled (texts f xs)) (p a) (λ _. (n, rest))
        (λ _. rest)

  -- Another account than the deleted one stays.
  pub without_account-In :
      (id : Text) (accounts : List (Account R)) (acc : Account R)
      → In acc accounts
      → acc.id ≢ id
      → In acc (without_account id accounts)
  unfolding without_account
  without_account-In id accounts acc i n =
      In-filter_of (λ (a : Account R). not (text_eq a.id id)) acc accounts i
        (ground (arith, text_eq_iff acc.id id))

  -- Deleting leaves accounts with distinct IDs and tokens.
  pub without_account-IsPooled :
      (id active : Text) (accounts : List (Account R))
      → (active ≡ []) ⊎ In active (ids (without_account id accounts))
      → IsPooled accounts active
      → IsPooled (without_account id accounts) active
  unfolding without_account
  without_account-IsPooled id active accounts a p = record {
    filled_ids = All-texts-filter _ _ accounts p.filled_ids;
    filled_pats = All-texts-filter _ _ accounts p.filled_pats;
    distinct_ids = Distinct-filter _ _ accounts p.distinct_ids;
    distinct_pats = Distinct-filter _ _ accounts p.distinct_pats;
    active_pooled = a;
  }

  -- A pool whose accounts are identified by the same IDs and tokens is as well formed.
  pub same-IsPooled :
      (accounts accounts' : List (Account R)) (active : Text)
      → ids accounts' ≡ ids accounts
      → pats accounts' ≡ pats accounts
      → IsPooled accounts active
      → IsPooled accounts' active
  same-IsPooled accounts accounts' active e d p = record {
    filled_ids = subst (All IsFilled) (sym e) p.filled_ids;
    filled_pats = subst (All IsFilled) (sym d) p.filled_pats;
    distinct_ids = subst Distinct (sym e) p.distinct_ids;
    distinct_pats = subst Distinct (sym d) p.distinct_pats;
    active_pooled = elim p.active_pooled [
      | inl h ↦ inl h
      | inr i ↦ inr (subst (λ xs. In active xs) (sym e) i)
    ];
  }
