-- ===== src/Store/Restart/Durable.antt =====
-- store/store.go: what a method that succeeds has stored survives a restart, and a save that fails
-- leaves the file alone.
use qoder_2api_go.Prelude.{◌≡◌, refl, sym, subst, false, Option, none, some, if-elim, ◌≢◌}
use qoder_2api_go.Prelude.Result.{Result, ok, err}
use qoder_2api_go.Float.{FloatOps}
use qoder_2api_go.Store.Config.{Config, StoreError}
use qoder_2api_go.Store.Accounts.{Outcome, rejects, keeps, writes, Reply}
use qoder_2api_go.Store.Calls.{
  Call, Parsers, perform, Fault, at_open, at_write, at_sync, at_close, at_rename, Disk, Store,
  save_bytes, save_encoded, save, run, finish, answer,
}
use qoder_2api_go.Store.Load.{
  Decoded, Import, fill, needs_save, or_error, load_decoded, load_file, load,
}
use qoder_2api_go.Store.Interleaving.{IsCodec}
use qoder_2api_go.Store.Restart.{IsSettled, IsSettled-fill}

-- The start succeeded, with a configuration.
abbrev pub StartsWith :
    {R Bytes : Type 0} → Config R → Result StoreError (Store R Bytes) × Disk Bytes → Type 0
StartsWith c (ok s, d) = s.config ≡ c
StartsWith c (err e, d) = ⊥

module _ {R Bytes : Type 0} (fl : FloatOps R) (ps : Parsers) {encode : Config R → Option Bytes}
    {decode : Bytes → Option (Decoded R)} (codec : IsCodec encode decode) where
  save-succeeds :
      (s : Store R Bytes) (bytes : Bytes)
      → encode s.config ≡ some bytes
      → StartsWith s.config (or_error (save encode none s))
  unfolding or_error save save_encoded save_bytes
  save-succeeds s bytes e = rw e refl

  load_decoded-StartsWith :
      (im : Import) (disk : Disk Bytes) (d : Decoded R) (bytes : Bytes)
      → IsSettled fl d.read
      → encode d.read ≡ some bytes
      → StartsWith d.read (load_decoded fl encode im none disk (some d))
  unfolding load_decoded
  load_decoded-StartsWith im disk d bytes settled e =
      let same : fill fl im d.read ≡ d.read = IsSettled-fill fl im d.read settled in
      if-elim (StartsWith d.read) (needs_save fl im d)
        (λ _.
          subst
            (λ c.
              StartsWith c
                (or_error (save encode none (record { config = fill fl im d.read; disk = disk }))))
            same
            (save-succeeds (record { config = fill fl im d.read; disk = disk }) bytes (rw same e)))
        (λ _. same)

  load-StartsWith :
      (im : Import) (disk : Disk Bytes) (c : Config R) (bytes : Bytes)
      → disk.file ≡ some bytes
      → encode c ≡ some bytes
      → IsSettled fl c
      → StartsWith c (load fl encode decode im none false disk)
  unfolding load load_file
  load-StartsWith im disk c bytes f e settled =
      let (d, (r, q)) = codec.decodes c bytes e in
      let there : StartsWith c (load_decoded fl encode im none disk (some d)) =
        subst (λ c'. StartsWith c' (load_decoded fl encode im none disk (some d))) q
          (load_decoded-StartsWith im disk d bytes (subst (IsSettled fl) (sym q) settled)
            (rw q e)) in
      subst (λ o. StartsWith c (load_file fl encode decode im none disk o)) (sym f)
        (subst (λ o. StartsWith c (load_decoded fl encode im none disk o)) (sym r) there)

  -- A method that changes the configuration to a settled one, and whose save meets no error, returns
  -- its reply, and a start that meets none gives the same configuration again. JSON is taken to read
  -- back what it wrote.
  pub run-StartsWith :
      (im : Import) (call : Call R) (s : Store R Bytes) (reply : Reply R) (c : Config R)
      (bytes : Bytes)
      → perform fl ps call s.config ≡ writes reply c
      → encode c ≡ some bytes
      → IsSettled fl c
      → let (r, s') = run fl ps encode none call s in
        (r ≡ ok reply) × StartsWith c (load fl encode decode im none false s'.disk)
  unfolding run finish save save_encoded save_bytes answer
  run-StartsWith im call s reply c bytes p e settled =
      rw (p, e) (refl, load-StartsWith im _ c bytes refl e settled)

module _ {R Bytes : Type 0} (fl : FloatOps R) (ps : Parsers)
    (encode : Config R → Option Bytes) where
  answer-err :
      (call : Call R) (reply : Reply R) (o : Option StoreError) (e : StoreError)
      → answer call reply o ≡ err e
      → o ≢ none
  unfolding answer
  answer-err call reply none e h d = cc
  answer-err call reply (some x) e h d = cc

  save-kept :
      (fault : Option Fault) (o : Option Bytes) (d : Disk Bytes)
      → (save_encoded fault o d).0 ≢ none
      → (save_encoded fault o d).1.file ≡ d.file
  unfolding save_encoded save_bytes
  save-kept fault none d h = refl
  save-kept none (some bytes) d h = absurd (h refl)
  save-kept (some at_open) (some bytes) d h = refl
  save-kept (some at_write) (some bytes) d h = refl
  save-kept (some at_sync) (some bytes) d h = refl
  save-kept (some at_close) (some bytes) d h = refl
  save-kept (some at_rename) (some bytes) d h = refl

  finish-kept :
      (fault : Option Fault) (call : Call R) (s : Store R Bytes) (o : Outcome R) (e : StoreError)
      → (finish encode fault call s o).0 ≡ err e
      → (finish encode fault call s o).1.disk.file ≡ s.disk.file
  unfolding finish save
  finish-kept fault call s (rejects x) e h = refl
  finish-kept fault call s keeps e h = refl
  finish-kept fault call s (writes reply c) e h =
      save-kept fault (encode c) s.disk (answer-err call reply _ e h)

  -- Where a method returns an error, whatever step of its save failed, the data file is as before.
  pub run-kept :
      (fault : Option Fault) (call : Call R) (s : Store R Bytes) (e : StoreError)
      → let (r, s') = run fl ps encode fault call s in r ≡ err e → s'.disk.file ≡ s.disk.file
  unfolding run
  run-kept fault call s e h = finish-kept fault call s (perform fl ps call s.config) e h
