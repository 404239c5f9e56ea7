-- ===== src/Logs/Persist.antt =====
-- logs/logs.go: what the persister holds. One goroutine flushes (main.go): a save that is under way
-- ends before the next begins, and other calls may come between.
use qoder_2api_go.Prelude.{
  ℕ, ◌-◌, ◌/◌, ◌&&◌, ◌≡◌, refl, sym, ap, ◌∙◌, Bool, subst, true, false, Option, none, some, List,
  [], ◌∷◌, arith, length, length-append, ◌==◌, ==_iff, ltb, if◌then◌else◌, if-elim, Bool-cases, inl,
  inr,
}
use qoder_2api_go.Prelude.Int.{ℤ}
use qoder_2api_go.Logs.Entry.{LogEntry}
use qoder_2api_go.Logs.Recorder.{
  Recorder, new_recorder, empty_recorder, restore, drop_stale, trim, prune, add_entry, set_limits,
  begin_flush, end_flush, normalize_retention, normalize_max_entries, second,
}
use qoder_2api_go.Logs.Retention.{SuffixOf, SuffixOf-drop, SuffixOf-drop_stale}

pub record System (R : Type 0) : Type 0 where
  pub recorder : Recorder R
  pub disk : List (LogEntry R)
  -- the copy that is being saved
  pub saving : Option (List (LogEntry R))

pub data Event (R : Type 0) : Type 0 where
  records : LogEntry R → ℕ → ℕ → Event R
  limits : ℤ → ℤ → ℕ → Event R
  flush_begins : Event R
  -- the persister answers, with success or not
  flush_ends : Bool → Event R

true-ne-false : ¬ (true ≡ false)
true-ne-false h = ground arith

module _ {R : Type 0} where
  unfoldable pub start_save : System R → Recorder R × Option (List (LogEntry R)) → System R
  start_save s (r, copy) = record s { recorder = r; saving = copy }

  unfoldable pub finish_save : System R → Bool → Option (List (LogEntry R)) → System R
  finish_save s saved none = s
  finish_save s saved (some copy) = record s {
    recorder = end_flush s.recorder saved;
    disk = if saved then copy else s.disk;
    saving = none;
  }

  unfoldable pub step : System R → Event R → System R
  step s (records e stamped now) = record s { recorder = add_entry s.recorder e stamped now }
  step s (limits days max now) = record s { recorder = set_limits s.recorder days max now }
  step s flush_begins = elim s.saving [
    | none ↦ start_save s (begin_flush s.recorder)
    | some copy ↦ s
  ]
  step s (flush_ends saved) = finish_save s saved s.saving

  unfoldable pub steps : System R → List (Event R) → System R
  steps s [] = s
  steps s (e ∷ es) = steps (step s e) es

  -- What the disk holds once the save that is under way succeeds.
  abbrev pub coming : System R → List (LogEntry R)
  coming s = elim s.saving [ none ↦ s.disk | some copy ↦ copy ]

  -- A recorder that is not dirty has saved its entries, or is saving them.
  pub record IsDurable (s : System R) : Type 0 where
    pub persistent : s.recorder.persist ≡ true
    pub clean : s.recorder.dirty ≡ false → coming s ≡ s.recorder.entries

  -- A list that lost nothing from its front is the same list.
  SuffixOf-eq : (ys xs : List (LogEntry R)) → SuffixOf ys xs → length xs ≡ length ys → xs ≡ ys
  SuffixOf-eq ys xs ([], e) h = e
  SuffixOf-eq ys xs (g ∷ gone, e) h =
      absurd (omega (arith, ap length e, length-append (g ∷ gone) xs))

  trim-SuffixOf : (max : ℕ) (ys xs : List (LogEntry R)) → SuffixOf ys xs → SuffixOf ys (trim max xs)
  unfolding trim
  trim-SuffixOf max ys xs s =
      if-elim (λ l. SuffixOf ys l) (ltb 0 max && ltb max (length xs))
        (λ t. SuffixOf-drop (length xs - max) ys xs s) (λ f. s)

  prune-dirty : (r : Recorder R) (now : ℕ) → (prune r now).dirty ≡ r.dirty
  unfolding prune
  prune-dirty r now = refl

  prune-SuffixOf : (r : Recorder R) (now : ℕ) → SuffixOf r.entries (prune r now).entries
  unfolding prune
  prune-SuffixOf r now =
      trim-SuffixOf r.max_entries r.entries
        (if ltb 0 r.retention
          then drop_stale ((now - r.retention) / second) r.entries
          else r.entries)
        (if-elim (λ l. SuffixOf r.entries l) (ltb 0 r.retention)
          (λ t. SuffixOf-drop_stale ((now - r.retention) / second) r.entries r.entries ([], refl))
          (λ f. ([], refl)))

  set_limits-clean :
      (r : Recorder R) (days max : ℤ) (now : ℕ)
      → (set_limits r days max now).dirty ≡ false
      → (r.dirty ≡ false) × ((set_limits r days max now).entries ≡ r.entries)
  unfolding set_limits
  set_limits-clean r days max now =
      let limited = record r {
        retention = normalize_retention days;
        max_entries = normalize_max_entries max;
      } in
      let kept = prune limited now in
      if-elim (λ (x : Recorder R). x.dirty ≡ false → (r.dirty ≡ false) × (x.entries ≡ r.entries))
        (length kept.entries == length r.entries)
        (λ t h. (
          sym (prune-dirty limited now) ∙ h,
          SuffixOf-eq r.entries kept.entries (prune-SuffixOf limited now) ((==_iff _ _).0 t),
        ))
        (λ f h. ground arith)

  add_entry-dirty :
      (r : Recorder R) (e : LogEntry R) (stamped now : ℕ)
      → ((add_entry r e stamped now).dirty ≡ true)
        × ((add_entry r e stamped now).persist ≡ r.persist)
  unfolding add_entry prune
  add_entry-dirty r e stamped now = (refl, refl)

  set_limits-persist :
      (r : Recorder R) (days max : ℤ) (now : ℕ) → (set_limits r days max now).persist ≡ r.persist
  unfolding set_limits prune
  set_limits-persist r days max now =
      if-elim (λ (x : Recorder R). x.persist ≡ r.persist) _ (λ t. refl) (λ f. refl)

  -- A recorder with no more to save, and the copy it saves.
  abbrev taken : Recorder R → Recorder R × Option (List (LogEntry R))
  taken r = (record r { dirty = false }, some r.entries)

  begin_flush-dirty : (r : Recorder R) → r.dirty ≡ true → r.persist ≡ true → begin_flush r ≡ taken r
  unfolding begin_flush
  begin_flush-dirty r t p =
      if-elim (λ q. q ≡ taken r) r.dirty
        (λ _.
          if-elim
            (λ (o : Option (List (LogEntry R))).
              ◌≡◌ {A = Recorder R × Option (List (LogEntry R))} (record r { dirty = false }, o)
                (taken r))
            r.persist (λ _. refl) (λ f. ground arith))
        (λ f. ground arith)

  begin_flush-clean : (r : Recorder R) → r.dirty ≡ false → begin_flush r ≡ (r, none)
  unfolding begin_flush
  begin_flush-clean r f = if-elim (λ q. q ≡ (r, none)) r.dirty (λ t. ground arith) (λ _. refl)

  start_save-IsDurable :
      (r : Recorder R) (disk : List (LogEntry R))
      → let s : System R = record { recorder = r; disk = disk; saving = none } in
        IsDurable s → IsDurable (start_save s (begin_flush r))
  unfolding start_save
  start_save-IsDurable r disk v =
      let s : System R = record { recorder = r; disk = disk; saving = none } in
      elim (Bool-cases r.dirty) [
        | inl t ↦
            subst (λ q. IsDurable (start_save s q)) (sym (begin_flush-dirty r t v.persistent))
              record { persistent = v.persistent; clean = λ h. refl }
        | inr f ↦ subst (λ q. IsDurable (start_save s q)) (sym (begin_flush-clean r f)) v
      ]

  finish_save-IsDurable :
      (r : Recorder R) (disk : List (LogEntry R)) (o : Option (List (LogEntry R))) (saved : Bool)
      → let s : System R = record { recorder = r; disk = disk; saving = o } in
        IsDurable s → IsDurable (finish_save s saved o)
  unfolding finish_save end_flush
  finish_save-IsDurable r disk none saved v = v
  finish_save-IsDurable r disk (some copy) true v = record {
    persistent = v.persistent;
    clean = v.clean;
  }
  finish_save-IsDurable r disk (some copy) false v = record {
    persistent = v.persistent;
    clean = λ h. ground arith;
  }

  begins-IsDurable :
      (r : Recorder R) (disk : List (LogEntry R)) (o : Option (List (LogEntry R)))
      → let s : System R = record { recorder = r; disk = disk; saving = o } in
        IsDurable s → IsDurable (step s flush_begins)
  unfolding step
  begins-IsDurable r disk none v = start_save-IsDurable r disk v
  begins-IsDurable r disk (some copy) v = v

  step-IsDurable : (s : System R) (e : Event R) → IsDurable s → IsDurable (step s e)
  unfolding step
  step-IsDurable s (records e stamped now) v = record {
    persistent = (add_entry-dirty s.recorder e stamped now).1 ∙ v.persistent;
    clean = λ h.
        let d = (add_entry-dirty s.recorder e stamped now).0 in absurd (true-ne-false (sym d ∙ h));
  }
  step-IsDurable s (limits days max now) v = record {
    persistent = set_limits-persist s.recorder days max now ∙ v.persistent;
    clean = λ h. let c = set_limits-clean s.recorder days max now h in v.clean c.0 ∙ sym c.1;
  }
  step-IsDurable s flush_begins v = begins-IsDurable s.recorder s.disk s.saving v
  step-IsDurable s (flush_ends saved) v = finish_save-IsDurable s.recorder s.disk s.saving saved v

  steps-IsDurable : (s : System R) (es : List (Event R)) → IsDurable s → IsDurable (steps s es)
  unfolding steps
  steps-IsDurable s [] v = v
  steps-IsDurable s (e ∷ es) v = steps-IsDurable (step s e) es (step-IsDurable s e v)

  -- The system after it has started from what is on the disk.
  unfoldable pub boot : List (LogEntry R) → ℤ → ℤ → ℕ → System R
  boot disk days max now = record {
    recorder = new_recorder (some disk) days max now;
    disk = disk;
    saving = none;
  }

  boot-IsDurable :
      (disk : List (LogEntry R)) (days max : ℤ) (now : ℕ) → IsDurable (boot disk days max now)
  unfolding boot new_recorder empty_recorder restore prune
  boot-IsDurable [] days max now = record { persistent = refl; clean = λ h. refl }
  boot-IsDurable (e ∷ es) days max now = record { persistent = refl; clean = λ h. ground arith }

  abbrev pub IsFlushed : System R → System R → Type 0
  IsFlushed s s' =
      (s'.disk ≡ s'.recorder.entries)
      × (s'.recorder.entries ≡ s.recorder.entries)
      × (s'.recorder.dirty ≡ false)
      × (s'.saving ≡ none)

  flush-IsFlushed :
      (r : Recorder R) (disk : List (LogEntry R)) (o : Option (List (LogEntry R)))
      → let s : System R = record { recorder = r; disk = disk; saving = o } in
        IsDurable s → o ≡ none → IsFlushed s (step (step s flush_begins) (flush_ends true))
  unfolding step start_save finish_save end_flush
  flush-IsFlushed r disk none v e =
      let s : System R = record { recorder = r; disk = disk; saving = none } in
      elim (Bool-cases r.dirty) [
        | inl t ↦
            subst (λ q. IsFlushed s (step (start_save s q) (flush_ends true)))
              (sym (begin_flush-dirty r t v.persistent)) (refl, refl, refl, refl)
        | inr f ↦
            subst (λ q. IsFlushed s (step (start_save s q) (flush_ends true)))
              (sym (begin_flush-clean r f)) (v.clean f, refl, f, refl)
      ]
  flush-IsFlushed r disk (some copy) v e = ground arith

  -- After any run of calls since the start, if a flush then begins, succeeds, and nothing comes
  -- between its begin and its end, the disk holds the entries and nothing is left to save. No change
  -- is lost that came while an earlier save was under way, or whose save failed.
  pub flush-saves :
      (disk : List (LogEntry R)) (days max : ℤ) (now : ℕ) (es : List (Event R))
      → let s = steps (boot disk days max now) es in
        s.saving ≡ none → IsFlushed s (step (step s flush_begins) (flush_ends true))
  flush-saves disk days max now es idle =
      let s = steps (boot disk days max now) es in
      flush-IsFlushed s.recorder s.disk s.saving
        (steps-IsDurable (boot disk days max now) es (boot-IsDurable disk days max now)) idle
