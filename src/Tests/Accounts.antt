-- ===== src/Tests/Accounts.antt =====
-- store/store.go and admin/admin.go: a fresh installation that gets its first accounts and keys. The
-- file holds the configuration itself.
use qoder_2api_go.Prelude.{
  ℕ, ◌≡◌, ◌⊎◌, ap, some_inj, refl, sym, inl, inr, true, false, Option, none, some, [], ◌∷◌,
}
use qoder_2api_go.Prelude.Int.{pos}
use qoder_2api_go.Prelude.Result.{ok}
use qoder_2api_go.Float.{whole_credits}
use qoder_2api_go.Text.{Text, codes, text_ne}
use qoder_2api_go.Store.Account.{Account}
use qoder_2api_go.Store.AutoSwitch.{strategy_sticky}
use qoder_2api_go.Store.Config.{ApiKey, Config, new_config, failed_save}
use qoder_2api_go.Store.Accounts.{writes, new_account, done, added_account, added_key}
use qoder_2api_go.Store.Keys.{add_key, delete_key, lookup_key}
use qoder_2api_go.Store.Calls.{
  Call, Parsers, perform, at_rename, Disk, Store, run, set_pat, add_account, set_note,
}
use qoder_2api_go.Store.Load.{Decoded, Import, load}
use qoder_2api_go.Store.Restart.{IsSettled}
use qoder_2api_go.Store.Restart.Durable.{StartsWith, run-StartsWith, run-kept}
use qoder_2api_go.Store.Interleaving.{IsCodec, HoldsBoth, Reach, installs, next, changes, saves}
use qoder_2api_go.Store.Interleaving.Pool.{IsSound, HasMirror, Reach-IsSound, Reach-HasMirror}
use qoder_2api_go.Store.Keys.Lookup.{add_key-lookup, delete_key-lookup}
use qoder_2api_go.Store.Pool.{IsPooled}
use qoder_2api_go.Admin.Pat.{pat_saved, change_pat}
use qoder_2api_go.Admin.Pat.Mirror.{InStep, change_pat-splits}

abbrev parsers : Parsers
parsers = record { is_clock = λ s. true; lower = λ s. s; parse = λ s. none }

abbrev encode : Config ℕ → Option (Config ℕ)
encode c = some c

abbrev decode : Config ℕ → Option (Decoded ℕ)
decode c = some (record { read = c; keys_missing = false; accounts_missing = false })

codec : IsCodec encode decode
codec = record {
  decodes = λ c bytes e. (
    record { read = c; keys_missing = false; accounts_missing = false },
    (ap decode (sym (some_inj e)), refl),
  );
}

abbrev first : Account ℕ
first = new_account (codes "a1") (codes "pt-1") (codes "one") [] (pos 100)

abbrev empty_store : Store ℕ (Config ℕ)
empty_store = record {
  config = new_config whole_credits;
  disk = record { file = none; tmp = none };
}

abbrev one_account : Config ℕ
one_account = record (new_config whole_credits) {
  pat = codes "pt-1";
  accounts = first ∷ [];
  active_account_id = codes "a1";
}

abbrev adds : Call ℕ
adds = add_account (codes "a1") (pos 100) (codes "pt-1") (codes "one") []

abbrev IsSafe : Call ℕ → Type 0
IsSafe (set_pat pat) = ⊥
IsSafe call = Unit

abbrev saved_store : Store ℕ (Config ℕ)
saved_store = record { config = one_account; disk = record { file = some one_account; tmp = none } }

adds-one :
    perform whole_credits parsers adds (new_config whole_credits)
    ≡ writes (added_account first) one_account
unfolding perform new_config
adds-one = refl

saved_Reach : Reach whole_credits parsers encode decode IsSafe saved_store
unfolding new_config qoder_2api_go.Store.Calls.save
saved_Reach =
    next
      (next (installs {s = empty_store} refl refl)
        (changes adds (added_account first) one_account tt ((λ e. cc), (λ h. h)) adds-one refl))
      (saves none refl)

Reach-IsSound_example : HoldsBoth decode IsSound saved_store
Reach-IsSound_example = Reach-IsSound codec whole_credits parsers IsSafe saved_Reach

Reach-HasMirror_example : HoldsBoth decode HasMirror saved_store
Reach-HasMirror_example =
    Reach-HasMirror codec whole_credits parsers IsSafe (λ pat h. h) saved_Reach

abbrev import : Import
import = record { new_id = codes "b2"; now = pos 200; default_note = codes "default" }

-- A file of an old version, with a bare token.
abbrev legacy : Config ℕ
legacy = record (new_config whole_credits) {
  pat = codes "pt-1";
  host = [];
  chat_timeout_seconds = pos 9000;
}

abbrev settled : Config ℕ
settled = record one_account {
  password = codes "secret";
  checkin_time = codes "10:15";
  auto_switch = record {
    enabled = true;
    threshold = 20;
    strategy = strategy_sticky;
    sticky_limit = pos 30;
    max_retry_accounts = pos 3;
  };
}

abbrev renamed : Config ℕ
renamed = record settled { accounts = record first { note = codes "main" } ∷ [] }

abbrev settled_store : Store ℕ (Config ℕ)
settled_store = record { config = settled; disk = record { file = none; tmp = none } }

renamed-IsSettled : IsSettled whole_credits renamed
unfolding new_config qoder_2api_go.Store.Settings.out_of_range
    qoder_2api_go.Store.Accounts.holds_pat new_account qoder_2api_go.Text.trim_space
renamed-IsSettled = record {
  has_host = refl;
  has_port = refl;
  has_password = refl;
  chat_in_range = refl;
  idle_in_range = refl;
  keeps_days = refl;
  keeps_entries = refl;
  pat_pooled = refl;
  pat_active = refl;
  has_threshold = refl;
  has_strategy = refl;
  has_limit = refl;
  has_retries = refl;
  has_checkin_time = refl;
}

run-StartsWith_example :
    let (r, s') =
      run whole_credits parsers encode none (set_note (codes "a1") (codes "main")) settled_store in
    (r ≡ ok done) × StartsWith renamed (load whole_credits encode decode import none false s'.disk)
unfolding perform
run-StartsWith_example =
    run-StartsWith whole_credits parsers codec import (set_note (codes "a1") (codes "main"))
      settled_store done renamed renamed refl refl renamed-IsSettled

run-kept_example :
    (run whole_credits parsers encode (some at_rename) adds empty_store).1.disk.file ≡ none
unfolding run new_config
run-kept_example =
    run-kept whole_credits parsers encode (some at_rename) adds empty_store failed_save refl

abbrev entry : ApiKey
entry = record { id = codes "0a"; key = codes "sk-1"; note = []; created_at = pos 5 }

abbrev one_key : Config ℕ
one_key = record (new_config whole_credits) { api_keys = entry ∷ [] }

add_key-lookup_example : (false ≡ false) × (lookup_key one_key.api_keys (codes "sk-1") ≡ some entry)
unfolding add_key new_config qoder_2api_go.Store.Keys.validate_key
add_key-lookup_example =
    add_key-lookup none (some (10 ∷ [])) (pos 5) (codes "sk-1") [] (new_config whole_credits)
      one_key entry (codes "sk-1") refl

delete_key-lookup_example : lookup_key (new_config whole_credits).api_keys (codes "sk-1") ≡ none
unfolding delete_key new_config lookup_key
delete_key-lookup_example =
    delete_key-lookup (codes "0a") one_key (new_config whole_credits) (codes "sk-1") ((λ h. h), tt)
      refl

-- The new token is saved, and the active account is still the old one.
change_pat-splits_example :
    let (reply, s') =
      change_pat whole_credits parsers encode none none
        (codes "b2")
        (pos 200)
        (codes "pt-2")
        saved_store in
    (reply ≡ pat_saved)
    × ((s'.config.pat ≡ codes "pt-2") × ((s'.config.active_account_id ≡ codes "a1") × ¬ InStep s'))
unfolding qoder_2api_go.Text.text_eq new_account
change_pat-splits_example =
    change_pat-splits whole_credits parsers encode none (codes "b2") (pos 200) (codes "pt-2")
      saved_store (record one_account { pat = codes "pt-2" }) one_pool ((λ e. cc), ne) (λ e. cc)
      (λ e. cc) ne2 (text_ne (codes "pt-2") (codes "pt-1") refl) refl
  where
    one_pool : IsPooled one_account.accounts one_account.active_account_id
    one_pool = (Reach-IsSound codec whole_credits parsers IsSafe saved_Reach).in_memory.0

    ne : ¬ ((codes "b2" ≡ codes "a1") ⊎ ⊥)
    ne (inl e) = text_ne (codes "b2") (codes "a1") refl e
    ne (inr h) = h

    ne2 : ¬ ((codes "pt-2" ≡ codes "pt-1") ⊎ ⊥)
    ne2 (inl e) = text_ne (codes "pt-2") (codes "pt-1") refl e
    ne2 (inr h) = h
