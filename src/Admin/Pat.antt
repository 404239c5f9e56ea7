-- ===== src/Admin/Pat.antt =====
-- admin/admin.go: the change of the token through the PAT form, over the methods of the store.
pub mod Mirror
use qoder_2api_go.Prelude.{Bool, true, false, not, Option, none, some, List, [], if◌then◌else◌}
use qoder_2api_go.Prelude.Int.{ℤ}
use qoder_2api_go.Prelude.Result.{Result, ok, err}
use qoder_2api_go.Float.{FloatOps}
use qoder_2api_go.Text.{Text, text_eq, is_empty}
use qoder_2api_go.Store.Account.{Account}
use qoder_2api_go.Store.Config.{Config, StoreError}
use qoder_2api_go.Store.Accounts.{Reply, find_account_by_pat}
use qoder_2api_go.Store.Calls.{
  Call, Parsers, Fault, Store, run, set_pat, clear_active, activate, add_account,
}
use qoder_2api_go.Store.Load.{Decoded}

-- The status of the reply.
pub data PatReply : Type 0 where
  pat_saved pat_failed : PatReply

module _ {R Bytes : Type 0} (fl : FloatOps R) (ps : Parsers) (encode : Config R → Option Bytes)
    (fault : Option Fault) where
  -- `ensureAccount` after its search of the pool: the account that was found is activated, or a new
  -- one is added. Errors are ignored.
  unfoldable pub ensure_found : Text → ℤ → Text → Option (Account R) → Store R Bytes → Store R Bytes
  unfolding run
  ensure_found id now pat (some acc) s = (run fl ps encode fault (activate acc.id) s).1
  ensure_found id now pat none s = (run fl ps encode fault (add_account id now pat [] []) s).1

  -- `ensureAccount` and `activateExisting`
  unfoldable pub ensure_account : Text → ℤ → Text → Store R Bytes → Store R Bytes
  unfolding ensure_found find_account_by_pat
  ensure_account id now pat s =
      ensure_found id now pat
        (if is_empty pat then none else find_account_by_pat s.config.accounts pat) s

  -- What follows the write of the token.
  unfoldable pub align_pool : Text → ℤ → Text → Text → Store R Bytes → Store R Bytes
  unfolding ensure_account run text_eq
  align_pool id now old pat s =
      let cleared =
        if is_empty s.config.active_account_id
        then s
        else (run fl ps encode fault clear_active s).1 in
      let ensured = ensure_account id now pat s in
      if is_empty pat then cleared else if text_eq pat old then s else ensured

  unfoldable pub after_write :
      Text
      → ℤ
      → Text
      → Text
      → Result StoreError (Reply R) × Store R Bytes
      → PatReply × Store R Bytes
  unfolding align_pool
  after_write id now old pat (err e, s) = (pat_failed, s)
  after_write id now old pat (ok reply, s) = (pat_saved, align_pool id now old pat s)

-- The POST branch of `handlePAT`, with the faults of the two saves.
unfoldable pub change_pat :
    {R Bytes : Type 0}
    → FloatOps R
    → Parsers
    → (Config R → Option Bytes)
    → Option Fault
    → Option Fault
    → Text
    → ℤ
    → Text
    → Store R Bytes
    → PatReply × Store R Bytes
unfolding after_write run
change_pat fl ps encode fault fault' id now pat s =
    after_write fl ps encode fault' id now s.config.pat pat (run fl ps encode fault (set_pat pat) s)
