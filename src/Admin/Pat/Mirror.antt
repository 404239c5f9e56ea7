-- ===== src/Admin/Pat/Mirror.antt =====
-- admin/admin.go: whether the PAT form keeps the token that the bridge reads in step with the active
-- account.
use qoder_2api_go.Prelude.{
  ◌≡◌, ◌≢◌, refl, sym, subst, ap, ◌∙◌, inl, inr, true, false, Option, none, some, List, [], ◌∷◌,
  ◌++◌, In, In-map, In-map_of, In-append_cases, Bool-cases, if-elim, arith,
}
use qoder_2api_go.Prelude.Int.{ℤ}
use qoder_2api_go.Prelude.Result.{Result, ok, err}
use qoder_2api_go.Float.{FloatOps}
use qoder_2api_go.Text.{Text, text_eq, text_eq_iff, is_empty}
use qoder_2api_go.Store.Account.{Account}
use qoder_2api_go.Store.Config.{Config, StoreError}
use qoder_2api_go.Store.Accounts.{
  Reply, done, added_account, holds_pat, find_account_by_pat, append_account, add_unless_pooled,
  new_account, normalize_region, add_account_with_region, writes,
}
use qoder_2api_go.Store.Calls.{
  Call, Parsers, perform, Fault, Store, save, save_encoded, save_bytes, finish, answer, run,
  set_pat, add_account,
}
use qoder_2api_go.Store.Pool.{IsPooled, IsMirrored, IsFilled, ids, pats, id_pat}
use qoder_2api_go.Store.Pool.Closed.{IsFresh}
use qoder_2api_go.Admin.Pat.{
  PatReply, pat_saved, ensure_found, ensure_account, align_pool, after_write, change_pat,
}

abbrev pub InStep : {R Bytes : Type 0} → Store R Bytes → Type 0
InStep s = IsMirrored s.config.accounts s.config.active_account_id s.config.pat

module _ {R Bytes : Type 0} (fl : FloatOps R) (ps : Parsers)
    (encode : Config R → Option Bytes) where
  -- The configuration that a call writes stands in memory, whether or not the save fails.
  pub run-config :
      (fault : Option Fault) (call : Call R) (s : Store R Bytes) (reply : Reply R) (c : Config R)
      → perform fl ps call s.config ≡ writes reply c
      → (run fl ps encode fault call s).1.config ≡ c
  unfolding run finish save
  run-config fault call s reply c e = rw e refl

  holds_pat-not :
      (xs : List (Account R)) (pat : Text) → ¬ In pat (pats xs) → holds_pat xs pat ≡ false
  unfolding holds_pat
  holds_pat-not [] pat n = refl
  holds_pat-not (x ∷ xs) pat n =
      let rest = holds_pat-not xs pat (λ i. n (inr i)) in
      ground (arith, text_eq_iff x.pat pat, n (inl _))

  find-none :
      (xs : List (Account R)) (pat : Text)
      → holds_pat xs pat ≡ false
      → find_account_by_pat xs pat ≡ none
  unfolding holds_pat find_account_by_pat
  find-none [] pat h = refl
  find-none (x ∷ xs) pat h = elim (Bool-cases (text_eq x.pat pat)) [
    | inl t ↦ absurd (cc (let h' : true ≡ false = rw t at h in h'))
    | inr f ↦ rw f (find-none xs pat (let h' : holds_pat xs pat ≡ false = rw f at h in h'))
  ]

  -- The call of `AddAccount` with a token that is not in the pool, while an account is active.
  add_account-appends :
      (id : Text) (now : ℤ) (pat : Text) (c : Config R)
      → is_empty c.active_account_id ≡ false
      → is_empty pat ≡ false
      → holds_pat c.accounts pat ≡ false
      → (entry : Account R) × ((id_pat entry ≡ (id, pat))
          × (perform fl ps (add_account id now pat [] []) c
              ≡ writes (added_account entry) (record c { accounts = c.accounts ++ entry ∷ [] })))
  unfolding perform add_account_with_region add_unless_pooled append_account new_account
  add_account-appends id now pat c a p h =
      (new_account id pat [] (normalize_region ps.lower []) now, (refl, rw (p, h, a) refl))

  ensure_account-adds :
      (fault : Option Fault) (id : Text) (now : ℤ) (pat : Text) (s : Store R Bytes)
      → is_empty s.config.active_account_id ≡ false
      → is_empty pat ≡ false
      → holds_pat s.config.accounts pat ≡ false
      → (entry : Account R) × ((id_pat entry ≡ (id, pat))
          × ((ensure_account fl ps encode fault id now pat s).config
              ≡ record s.config { accounts = s.config.accounts ++ entry ∷ [] }))
  unfolding ensure_account ensure_found
  ensure_account-adds fault id now pat s a p h =
      let (entry, (e, w)) = add_account-appends id now pat s.config a p h in
      let missing : find_account_by_pat s.config.accounts pat ≡ none =
        find-none s.config.accounts pat h in
      (
        entry,
        (
          e,
          rw (p, missing)
              (run-config fault (add_account id now pat [] []) s (added_account entry) _ w),
        ),
      )

  set_pat-saved :
      (pat : Text) (s : Store R Bytes) (bytes : Bytes)
      → encode (record s.config { pat = pat }) ≡ some bytes
      → (run fl ps encode none (set_pat pat) s).0 ≡ ok done
  unfolding run perform finish save save_encoded save_bytes answer
  set_pat-saved pat s bytes e = rw e refl

  filled-is_empty : (s : Text) → IsFilled s → is_empty s ≡ false
  filled-is_empty [] n = absurd (n refl)
  filled-is_empty (c ∷ s) n = refl

  -- Neither the old accounts nor the new one have both the active ID and the new token.
  out_of_step :
      (xs : List (Account R)) (entry : Account R) (active id pat : Text)
      → id_pat entry ≡ (id, pat)
      → IsPooled xs active
      → ¬ In id (ids xs)
      → IsFilled active
      → ¬ In pat (pats xs)
      → ¬ IsMirrored (xs ++ entry ∷ []) active pat
  out_of_step xs entry active id pat e p fresh n new (inl z) = n z
  out_of_step xs entry active id pat e p fresh n new (inr i) =
      let (acc, (j, d)) = In-map_of id_pat (xs ++ entry ∷ []) (active, pat) i in
      elim (In-append_cases acc xs (entry ∷ []) j) [
        | inl old ↦ new (
            subst (λ t. In t (pats xs)) (ap (λ q. q.1) d)
              (In-map (λ (a : Account R). a.pat) xs acc old))
        | inr (inl same) ↦
            let e' : active ≡ id = ap (λ q. q.0) (sym d ∙ (ap id_pat same ∙ e)) in
            elim p.active_pooled [ inl z ↦ n z | inr k ↦ fresh (subst (λ t. In t (ids xs)) e' k) ]
        | inr (inr h) ↦ h
      ]

  after_write-ok :
      (fault : Option Fault) (id : Text) (now : ℤ) (old pat : Text)
      (r : Result StoreError (Reply R)) (s : Store R Bytes)
      → r ≡ ok done
      → after_write fl ps encode fault id now old pat (r, s)
        ≡ (pat_saved, align_pool fl ps encode fault id now old pat s)
  unfolding after_write
  after_write-ok fault id now old pat (ok reply) s h = refl
  after_write-ok fault id now old pat (err x) s h = absurd (cc h)

  align_pool-splits :
      (fault : Option Fault) (id : Text) (now : ℤ) (old pat : Text) (s : Store R Bytes)
      → IsPooled s.config.accounts s.config.active_account_id
      → IsFresh id s.config.accounts
      → IsFilled s.config.active_account_id
      → IsFilled pat
      → ¬ In pat (pats s.config.accounts)
      → pat ≢ old
      → s.config.pat ≡ pat
      → let s' = align_pool fl ps encode fault id now old pat s in
        (s'.config.pat ≡ pat)
        × ((s'.config.active_account_id ≡ s.config.active_account_id) × ¬ InStep s')
  unfolding align_pool
  align_pool-splits fault id now old pat s p fresh na np new differs e =
      let unequal : text_eq pat old ≡ false = ground (arith, text_eq_iff pat old) in
      let (entry, (d, w)) =
        ensure_account-adds fault id now pat s (filled-is_empty s.config.active_account_id na)
          (filled-is_empty pat np) (holds_pat-not s.config.accounts pat new) in
      let P : Config R → Type 0 = λ c.
        (c.pat ≡ pat)
        × ((c.active_account_id ≡ s.config.active_account_id)
            × ¬ IsMirrored c.accounts c.active_account_id c.pat) in
      let there : P (record s.config { accounts = s.config.accounts ++ entry ∷ [] }) = (
        e,
        (
          refl,
          subst (λ t. ¬ IsMirrored (s.config.accounts ++ entry ∷ []) s.config.active_account_id t)
              (sym e)
              (out_of_step s.config.accounts entry s.config.active_account_id id pat d p fresh.1 na
                new),
        ),
      ) in
      let Q : Store R Bytes → Type 0 = λ t. P t.config in
      if-elim Q (is_empty pat) (λ t. absurd (cc (t, filled-is_empty pat np)))
        (λ _.
          if-elim Q (text_eq pat old) (λ t. absurd (cc (t, unequal))) (λ _. subst P (sym w) there))

  -- The PAT form with a token that is new to a well-formed pool, and not the current one, while an
  -- account is active: the reply is a success, whether or not the second save fails, and then the
  -- token is the new one, the active account is the one before, and the two are out of step. The
  -- first save is taken to succeed and the generated ID to be new.
  pub change_pat-splits :
      (fault : Option Fault) (id : Text) (now : ℤ) (pat : Text) (s : Store R Bytes) (bytes : Bytes)
      → IsPooled s.config.accounts s.config.active_account_id
      → IsFresh id s.config.accounts
      → IsFilled s.config.active_account_id
      → IsFilled pat
      → ¬ In pat (pats s.config.accounts)
      → pat ≢ s.config.pat
      → encode (record s.config { pat = pat }) ≡ some bytes
      → let (reply, s') = change_pat fl ps encode none fault id now pat s in
        (reply ≡ pat_saved)
        × ((s'.config.pat ≡ pat)
            × ((s'.config.active_account_id ≡ s.config.active_account_id) × ¬ InStep s'))
  unfolding change_pat run perform finish save
  change_pat-splits fault id now pat s bytes p fresh na np new differs e =
      let s1 : Store R Bytes = (run fl ps encode none (set_pat pat) s).1 in
      subst
        (λ (q : PatReply × Store R Bytes).
          (q.0 ≡ pat_saved)
          × ((q.1.config.pat ≡ pat)
              × ((q.1.config.active_account_id ≡ s.config.active_account_id) × ¬ InStep q.1)))
        (sym (
          after_write-ok fault id now s.config.pat pat (run fl ps encode none (set_pat pat) s).0 s1
            (set_pat-saved pat s bytes e)))
        (refl, align_pool-splits fault id now s.config.pat pat s1 p fresh na np new differs refl)
