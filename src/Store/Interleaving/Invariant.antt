-- ===== src/Store/Interleaving/Invariant.antt =====
-- store/store.go: a closed property holds in memory and in the file at every moment.
use qoder_2api_go.Prelude.{◌≡◌, refl, sym, subst, Bool, Option, none, some, if-elim}
use qoder_2api_go.Prelude.Result.{Result, ok, err}
use qoder_2api_go.Float.{FloatOps}
use qoder_2api_go.Text.{Text}
use qoder_2api_go.Store.Config.{Config, StoreError, new_config}
use qoder_2api_go.Store.Calls.{
  Call, Parsers, perform, Fault, at_open, at_write, at_sync, at_close, at_rename, Disk, Store,
  save_bytes, save_encoded, save, set_pat,
}
use qoder_2api_go.Store.Load.{
  Decoded, Import, fill, needs_save, or_error, load_decoded, load_file, load,
}
use qoder_2api_go.Store.Pool.Operations.{Writes}
use qoder_2api_go.Store.Pool.Closed.{Property, Holds, IsClosed, IsFresh}
use qoder_2api_go.Store.Pool.Methods.{perform-Writes}
use qoder_2api_go.Store.Interleaving.{
  IsCodec, after_start, ImportsFresh, OnDisk, HoldsBoth, fill-Holds, Step, changes, saves, crashes,
  starts, Reach, installs, next,
}

-- A save leaves the file as it was, or it is encoded and written.
pub data Saved {Bytes : Type 0} (old : Option Bytes) (encoded : Option Bytes) (file : Option Bytes)
    : Type 0 where
  kept : file ≡ old → Saved old encoded file
  replaced : (bytes : Bytes) → encoded ≡ some bytes → file ≡ some bytes → Saved old encoded file

module _ {R Bytes : Type 0} (encode : Config R → Option Bytes) where
  save_encoded-Saved :
      (fault : Option Fault) (o : Option Bytes) (d : Disk Bytes)
      → Saved d.file o (save_encoded fault o d).1.file
  unfolding save_encoded save_bytes
  save_encoded-Saved fault none d = kept refl
  save_encoded-Saved none (some bytes) d = replaced bytes refl refl
  save_encoded-Saved (some at_open) (some bytes) d = kept refl
  save_encoded-Saved (some at_write) (some bytes) d = kept refl
  save_encoded-Saved (some at_sync) (some bytes) d = kept refl
  save_encoded-Saved (some at_close) (some bytes) d = kept refl
  save_encoded-Saved (some at_rename) (some bytes) d = kept refl

  pub save-Saved :
      (fault : Option Fault) (s : Store R Bytes)
      → Saved s.disk.file (encode s.config) (save encode fault s).1.disk.file
  unfolding save
  save-Saved fault s = save_encoded-Saved fault (encode s.config) s.disk

module _ {R Bytes : Type 0} {encode : Config R → Option Bytes} {decode : Bytes → Option (Decoded R)}
    (codec : IsCodec encode decode) {P : Property R} (closed : IsClosed P) (fl : FloatOps R) where
  encoded-OnDisk :
      (c : Config R) (bytes : Bytes)
      → encode c ≡ some bytes
      → Holds P c
      → OnDisk decode P (some bytes)
  encoded-OnDisk c bytes e h bytes' d' f g =
      let (d, (r, q)) = codec.decodes c bytes e in
      let same : d' ≡ d = cc (f, g, r) in
      subst (Holds P) (sym (let x : d'.read ≡ c = rw same q in x)) h

  Saved-OnDisk :
      (c : Config R) (old file : Option Bytes)
      → Saved old (encode c) file
      → Holds P c
      → OnDisk decode P old
      → OnDisk decode P file
  Saved-OnDisk c old file (kept e) h o = subst (OnDisk decode P) (sym e) o
  Saved-OnDisk c old file (replaced bytes e f) h o =
      subst (OnDisk decode P) (sym f) (encoded-OnDisk c bytes e h)

  save-HoldsBoth :
      (fault : Option Fault) (s : Store R Bytes)
      → HoldsBoth decode P s
      → HoldsBoth decode P (save encode fault s).1
  unfolding save
  save-HoldsBoth fault s h = record {
    in_memory = h.in_memory;
    on_disk = Saved-OnDisk s.config s.disk.file _ (save-Saved encode fault s) h.in_memory h.on_disk;
  }

  -- Whatever a start returns.
  abbrev Started : Result StoreError (Store R Bytes) × Disk Bytes → Type 0
  Started (ok s, d) = HoldsBoth decode P s
  Started (err e, d) = OnDisk decode P d.file

  or_error-Started :
      (p : Option StoreError × Store R Bytes) → HoldsBoth decode P p.1 → Started (or_error p)
  unfolding or_error
  or_error-Started (none, s) h = h
  or_error-Started (some e, s) h = h.on_disk

  load_decoded-Started :
      (im : Import) (fault : Option Fault) (disk : Disk Bytes) (o : Option (Decoded R))
      → ((d : Decoded R) → o ≡ some d → IsFresh im.new_id d.read.accounts × Holds P d.read)
      → OnDisk decode P disk.file
      → Started (load_decoded fl encode im fault disk o)
  unfolding load_decoded
  load_decoded-Started im fault disk none g h = h
  load_decoded-Started im fault disk (some d) g h =
      let (fresh, hd) = g d refl in
      let hs : HoldsBoth decode P (record { config = fill fl im d.read; disk = disk }) = record {
        in_memory = fill-Holds closed fl im d.read fresh hd;
        on_disk = h;
      } in
      if-elim Started (needs_save fl im d) (λ _. or_error-Started _ (save-HoldsBoth fault _ hs))
        (λ _. hs)

  load_file-Started :
      (im : Import) (fault : Option Fault) (disk : Disk Bytes) (file : Option Bytes)
      → file ≡ disk.file
      → Holds P (new_config fl)
      → ImportsFresh decode im disk
      → OnDisk decode P disk.file
      → Started (load_file fl encode decode im fault disk file)
  unfolding load_file
  load_file-Started im fault disk none e base fresh h = or_error-Started _ (
      save-HoldsBoth fault (record { config = new_config fl; disk = disk })
        (record { in_memory = base; on_disk = h }))
  load_file-Started im fault disk (some bytes) e base fresh h =
      load_decoded-Started im fault disk (decode bytes)
        (λ d r. (fresh bytes d (sym e) r, h bytes d (sym e) r)) h

  load-Started :
      (im : Import) (fault : Option Fault) (unreadable : Bool) (disk : Disk Bytes)
      → Holds P (new_config fl)
      → ImportsFresh decode im disk
      → OnDisk decode P disk.file
      → Started (load fl encode decode im fault unreadable disk)
  unfolding load
  load-Started im fault unreadable disk base fresh h =
      if-elim Started unreadable (λ _. h)
        (λ _. load_file-Started im fault disk disk.file refl base fresh h)

  after_start-HoldsBoth :
      (s : Store R Bytes) (p : Result StoreError (Store R Bytes) × Disk Bytes)
      → HoldsBoth decode P s
      → Started p
      → HoldsBoth decode P (after_start s p)
  after_start-HoldsBoth s (ok s', d) h k = k
  after_start-HoldsBoth s (err e, d) h k = record { in_memory = h.in_memory; on_disk = k }

  module _ (ps : Parsers) (Allows : Call R → Type 0)
      (allowed : (pat : Text)
        → Allows (set_pat pat)
        → (c : Config R) → Holds P c
        → Holds P (record c { pat = pat })) where
    Step-HoldsBoth :
        {s s' : Store R Bytes}
        → Holds P (new_config fl)
        → Step fl ps encode decode Allows s s'
        → HoldsBoth decode P s
        → HoldsBoth decode P s'
    Step-HoldsBoth {s} base (changes call reply c a fresh e d) h =
        let w : Writes (Holds P) (perform fl ps call s.config) =
          perform-Writes closed fl ps call s.config
            (λ pat q. allowed pat (subst Allows q a) s.config h.in_memory) fresh h.in_memory in
        rw d (record { in_memory = subst (Writes (Holds P)) e w; on_disk = h.on_disk })
    Step-HoldsBoth base (saves fault d) h = rw d (save-HoldsBoth fault _ h)
    Step-HoldsBoth base (crashes tmp d) h =
        rw d (record { in_memory = h.in_memory; on_disk = h.on_disk })
    Step-HoldsBoth {s} base (starts im fault unreadable fresh d) h =
        rw d (
          after_start-HoldsBoth s _ h
            (load-Started im fault unreadable s.disk base fresh h.on_disk))

    -- A closed property that a new configuration has, and that `SetPAT` keeps where it may be called,
    -- holds in memory and in the file of every store that can be reached.
    pub Reach-HoldsBoth :
        {s : Store R Bytes}
        → Holds P (new_config fl)
        → Reach fl ps encode decode Allows s
        → HoldsBoth decode P s
    Reach-HoldsBoth {s} base (installs e f) = record {
      in_memory = subst (Holds P) (sym e) base;
      on_disk = λ bytes d g r. absurd (cc (f, g));
    }
    Reach-HoldsBoth base (next reach step) = Step-HoldsBoth base step (Reach-HoldsBoth base reach)
