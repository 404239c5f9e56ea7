-- ===== src/Store/Interleaving.antt =====
-- store/store.go: the store under every interleaving. Each method is two locked sections, the change
-- and the save; other methods may run between them, a save may fail anywhere, and the process may
-- stop at any point and start again from the file.
pub mod Invariant
pub mod Pool
use qoder_2api_go.Prelude.{
  ◌≡◌, ◌≢◌, refl, sym, subst, inl, inr, Bool, true, false, ◌||◌, not, ◌&&◌, Option, none, some,
  List, [], ◌∷◌, ◌++◌, some_inj, Bool-cases, if-elim, if◌then◌else◌, In, arith,
}
use qoder_2api_go.Prelude.Int.{ℤ}
use qoder_2api_go.Prelude.Result.{Result, ok, err}
use qoder_2api_go.Float.{FloatOps}
use qoder_2api_go.Text.{Text, is_empty}
use qoder_2api_go.Store.Account.{Account}
use qoder_2api_go.Store.Config.{Config, StoreError, failed_encoding, new_config}
use qoder_2api_go.Store.Accounts.{
  Outcome, rejects, keeps, writes, Reply, holds_pat, find_account_by_pat, new_account,
}
use qoder_2api_go.Store.Calls.{
  Call, Parsers, perform, Fault, at_open, at_write, at_sync, at_close, at_rename, Disk, Store,
  save_bytes, save_encoded, save, set_pat,
}
use qoder_2api_go.Store.Load.{
  Decoded, Import, import_token, default_active, fill, needs_save, or_error, load_decoded, load,
}
use qoder_2api_go.Store.Pool.{IsFilled, ids, find_account_by_pat-In}
use qoder_2api_go.Store.Pool.Operations.{Writes}
use qoder_2api_go.Store.Pool.Closed.{Property, Holds, IsClosed, IsFresh, UsesFresh}
use qoder_2api_go.Store.Pool.Methods.{perform-Writes}

-- JSON reads back what it wrote.
pub record IsCodec {R Bytes : Type 0} (encode : Config R → Option Bytes)
    (decode : Bytes → Option (Decoded R)) : Type 0 where
  pub decodes :
      (c : Config R) (bytes : Bytes)
      → encode c ≡ some bytes
      → (d : Decoded R) × ((decode bytes ≡ some d) × (d.read ≡ c))

-- A start gives a new store, or it fails and leaves a disk.
abbrev pub after_start :
    {R Bytes : Type 0}
    → Store R Bytes
    → Result StoreError (Store R Bytes) × Disk Bytes
    → Store R Bytes
after_start s (ok s', d) = s'
after_start s (err e, d) = record s { disk = d }

-- The ID that a start generates for a token that it imports is new to the accounts in the file.
abbrev pub ImportsFresh :
    {R Bytes : Type 0} → (Bytes → Option (Decoded R)) → Import → Disk Bytes → Type 0
ImportsFresh {R} {Bytes} decode im disk =
    (bytes : Bytes) (d : Decoded R)
    → disk.file ≡ some bytes
    → decode bytes ≡ some d
    → IsFresh im.new_id d.read.accounts

module _ {R Bytes : Type 0} (fl : FloatOps R) (ps : Parsers) (encode : Config R → Option Bytes)
    (decode : Bytes → Option (Decoded R)) (Allows : Call R → Type 0) where
  -- The locked section of a call, a save that fails or not, a crash that leaves anything in the
  -- temporary file, and a start from the file.
  pub data Step (s : Store R Bytes) : Store R Bytes → Type 0 where
    changes :
        {s' : Store R Bytes} (call : Call R) (reply : Reply R) (c : Config R)
        → Allows call
        → UsesFresh call s.config
        → perform fl ps call s.config ≡ writes reply c
        → s' ≡ record s { config = c }
        → Step s s'
    saves : {s' : Store R Bytes} (fault : Option Fault) → s' ≡ (save encode fault s).1 → Step s s'
    crashes :
        {s' : Store R Bytes} (tmp : Option Bytes)
        → s' ≡ record s { disk = record s.disk { tmp = tmp } }
        → Step s s'
    starts :
        {s' : Store R Bytes} (im : Import) (fault : Option Fault) (unreadable : Bool)
        → ImportsFresh decode im s.disk
        → s' ≡ after_start s (load fl encode decode im fault unreadable s.disk)
        → Step s s'

  -- From a fresh installation, which has no file.
  pub data Reach : Store R Bytes → Type 0 where
    installs : {s : Store R Bytes} → s.config ≡ new_config fl → s.disk.file ≡ none → Reach s
    next : {s s' : Store R Bytes} → Reach s → Step s s' → Reach s'

-- The configuration in a file, if the file can be parsed, has the property.
abbrev pub OnDisk :
    {R Bytes : Type 0} → (Bytes → Option (Decoded R)) → Property R → Option Bytes → Type 0
OnDisk {R} {Bytes} decode P file =
    (bytes : Bytes) (d : Decoded R) → file ≡ some bytes → decode bytes ≡ some d → Holds P d.read

-- The property holds of the configuration in memory and of the one in the file.
pub record HoldsBoth {R Bytes : Type 0} (decode : Bytes → Option (Decoded R)) (P : Property R)
    (s : Store R Bytes) : Type 0 where
  pub in_memory : Holds P s.config
  pub on_disk : OnDisk decode P s.disk.file

module _ {R : Type 0} {P : Property R} (closed : IsClosed P) where
  import_token-Holds :
      (im : Import) (c : Config R)
      → IsFresh im.new_id c.accounts
      → Holds P c
      → P (import_token im c.pat c.accounts) c.active_account_id c.pat c.api_keys
  unfolding import_token new_account
  import_token-Holds im c fresh h =
      if-elim (λ (xs : List (Account R)). P xs c.active_account_id c.pat c.api_keys)
        (is_empty c.pat || holds_pat c.accounts c.pat) (λ _. h)
        (λ f.
          closed.appends (new_account im.new_id c.pat im.default_note [] im.now) fresh.0
            (full c.pat (or_first (is_empty c.pat) _ f)) fresh.1 (or_second (is_empty c.pat) _ f) h)
    where
      or_first : (a b : Bool) → (a || b) ≡ false → a ≡ false
      or_first false b h = refl
      or_first true b h = h

      or_second : (a b : Bool) → (a || b) ≡ false → b ≡ false
      or_second false b h = h
      or_second true b h = cc

      full : (s : Text) → is_empty s ≡ false → IsFilled s
      full [] h e = cc
      full (x ∷ s) h e = cc

  default_active-Holds :
      (active pat : Text) (xs : List (Account R)) (c : Config R)
      → P xs active pat c.api_keys
      → P xs (default_active active pat xs) pat c.api_keys
  unfolding default_active
  default_active-Holds active pat xs c h =
      if-elim (λ a. P xs a pat c.api_keys) (is_empty active && not (is_empty pat))
        (λ _. go (find_account_by_pat xs pat) refl) (λ _. h)
    where
      go :
          (o : Option (Account R))
          → find_account_by_pat xs pat ≡ o
          → P xs (elim o [ none ↦ active | some acc ↦ acc.id ]) pat c.api_keys
      go none e = h
      go (some acc) e =
          let (i, d) = find_account_by_pat-In xs pat acc e in
          subst (λ t. P xs acc.id t c.api_keys) d (closed.activates acc i h)

  -- Loading keeps a closed property.
  pub fill-Holds :
      (fl : FloatOps R) (im : Import) (c : Config R)
      → IsFresh im.new_id c.accounts
      → Holds P c
      → Holds P (fill fl im c)
  unfolding fill
  fill-Holds fl im c fresh h =
      default_active-Holds c.active_account_id c.pat (import_token im c.pat c.accounts) c
        (import_token-Holds im c fresh h)
