-- ===== src/Logs/Retention.antt =====
-- logs/logs.go: what pruning keeps.
use qoder_2api_go.Prelude.{
  ℕ, zero, suc, ◌+◌, ◌-◌, ◌/◌, ◌≤◌, ◌<◌, ◌≡◌, refl, sym, ap, ◌∙◌, Bool, true, false, List, [], ◌∷◌,
  ◌++◌, arith, length, drop, filter, All, length-append, ltb, leb, if-elim, append_assoc, leb→le,
  Bool-cases, inl, inr,
}
use qoder_2api_go.Logs.Entry.{LogEntry}
use qoder_2api_go.Logs.Recorder.{Recorder, drop_stale, trim, prune, stamp, add_entry, second}

module _ {R : Type 0} where
  -- Entries stand in the order of their instants.
  abbrev pub Chronological : List (LogEntry R) → Type 0
  Chronological [] = Unit {0}
  Chronological (e ∷ es) =
      All (λ (x : LogEntry R). e.created_at ≤ x.created_at) es × Chronological es

  -- An entry within the retention window.
  abbrev pub fresh : ℕ → LogEntry R → Bool
  fresh cutoff e = leb cutoff e.created_at

  -- The last items of a list, at most so many.
  abbrev pub last : ℕ → List (LogEntry R) → List (LogEntry R)
  last n es = drop (length es - n) es

  filter-All :
      (cutoff : ℕ) (es : List (LogEntry R))
      → All (λ (x : LogEntry R). cutoff ≤ x.created_at) es
      → filter (fresh cutoff) es ≡ es
  unfolding filter
  filter-All cutoff [] h = refl
  filter-All cutoff (e ∷ es) h =
      let t : leb cutoff e.created_at ≡ true = ground arith in
      rw t (ap (λ l. e ∷ l) (filter-All cutoff es h.1))

  All-later :
      (lo hi : ℕ) (es : List (LogEntry R))
      → lo ≤ hi
      → All (λ (x : LogEntry R). hi ≤ x.created_at) es
      → All (λ (x : LogEntry R). lo ≤ x.created_at) es
  All-later lo hi [] h a = tt
  All-later lo hi (e ∷ es) h a = (omega arith, All-later lo hi es h a.1)

  drop_stale-eq-filter :
      (cutoff : ℕ) (es : List (LogEntry R))
      → Chronological es
      → drop_stale cutoff es ≡ filter (fresh cutoff) es
  unfolding drop_stale filter
  drop_stale-eq-filter cutoff [] c = refl
  drop_stale-eq-filter cutoff (e ∷ es) c = elim (Bool-cases (ltb e.created_at cutoff)) [
    | inl stale ↦
        let f : leb cutoff e.created_at ≡ false = ground arith in
        rw (stale, f) (drop_stale-eq-filter cutoff es c.1)
    | inr kept ↦
        let t : leb cutoff e.created_at ≡ true = ground arith in
        rw (kept, t)
          (ap (λ l. e ∷ l)
            (sym (filter-All cutoff es (All-later cutoff e.created_at es (leb→le _ _ t) c.0))))
  ]

  trim-eq-last : (max : ℕ) (es : List (LogEntry R)) → 0 < max → trim max es ≡ last max es
  unfolding trim
  trim-eq-last max es h = elim (Bool-cases (ltb max (length es))) [
    | inl over ↦ ground arith
    | inr within ↦ let e : length es - max ≡ 0 = ground arith in rw e (ground arith)
  ]

  -- Of a log in chronological order, with a retention and a cap above 0, pruning keeps the entries
  -- within the retention window, and of these the last, as many as the cap allows.
  pub prune-eq :
      (r : Recorder R) (now : ℕ)
      → Chronological r.entries
      → 0 < r.retention
      → 0 < r.max_entries
      → (prune r now).entries
        ≡ last r.max_entries (filter (fresh ((now - r.retention) / second)) r.entries)
  unfolding prune
  prune-eq r now c live cap =
      let cutoff = (now - r.retention) / second in
      let t : ltb 0 r.retention ≡ true = ground arith in
      rw t (
        trim-eq-last r.max_entries (drop_stale cutoff r.entries) cap
        ∙ ap (last r.max_entries) (drop_stale-eq-filter cutoff r.entries c))

  drop_stale-append :
      (cutoff : ℕ) (es : List (LogEntry R)) (e : LogEntry R)
      → cutoff ≤ e.created_at
      → drop_stale cutoff (es ++ (e ∷ [])) ≡ drop_stale cutoff es ++ (e ∷ [])
  unfolding drop_stale
  drop_stale-append cutoff [] e h =
      let f : ltb e.created_at cutoff ≡ false = ground arith in rw f refl
  drop_stale-append cutoff (x ∷ es) e h = elim (Bool-cases (ltb x.created_at cutoff)) [
    | inl stale ↦ rw stale (drop_stale-append cutoff es e h)
    | inr kept ↦ rw kept refl
  ]

  drop-append :
      (n : ℕ) (es : List (LogEntry R)) (e : LogEntry R)
      → n ≤ length es
      → drop n (es ++ (e ∷ [])) ≡ drop n es ++ (e ∷ [])
  drop-append zero es e h = refl
  drop-append (suc n) [] e h = absurd (omega arith)
  drop-append (suc n) (x ∷ es) e h = drop-append n es e (omega arith)

  trim-append :
      (max : ℕ) (es : List (LogEntry R)) (e : LogEntry R)
      → 0 < max
      → trim max (es ++ (e ∷ [])) ≡ drop (length es + 1 - max) es ++ (e ∷ [])
  trim-append max es e h =
      let n : length (es ++ (e ∷ [])) - max ≡ length es + 1 - max =
        omega (arith, length-append es (e ∷ [])) in
      trim-eq-last max (es ++ (e ∷ [])) h
      ∙ ap (λ k. drop k (es ++ (e ∷ []))) n
      ∙ drop-append (length es + 1 - max) es e (omega arith)

  -- The list is what is left of another when items are dropped from its front.
  abbrev pub SuffixOf : List (LogEntry R) → List (LogEntry R) → Type 0
  SuffixOf ys xs = (gone : List (LogEntry R)) × (gone ++ xs ≡ ys)

  pub SuffixOf-drop : (n : ℕ) (ys xs : List (LogEntry R)) → SuffixOf ys xs → SuffixOf ys (drop n xs)
  SuffixOf-drop zero ys xs s = s
  SuffixOf-drop (suc n) ys [] s = s
  SuffixOf-drop (suc n) ys (x ∷ xs) (gone, e) =
      SuffixOf-drop n ys xs (gone ++ (x ∷ []), append_assoc gone (x ∷ []) xs ∙ e)

  pub SuffixOf-drop_stale :
      (cutoff : ℕ) (ys xs : List (LogEntry R)) → SuffixOf ys xs → SuffixOf ys (drop_stale cutoff xs)
  unfolding drop_stale
  SuffixOf-drop_stale cutoff ys [] s = s
  SuffixOf-drop_stale cutoff ys (x ∷ xs) (gone, e) =
      if-elim (SuffixOf ys) (ltb x.created_at cutoff)
        (λ _.
          SuffixOf-drop_stale cutoff ys xs (gone ++ (x ∷ []), append_assoc gone (x ∷ []) xs ∙ e))
        (λ _. (gone, e))

  abbrev pub Ends : List (LogEntry R) → LogEntry R → List (LogEntry R) → Type 0
  Ends old e es = (before : List (LogEntry R)) × (es ≡ before ++ (e ∷ [])) × SuffixOf old before

  trim-Ends :
      (max : ℕ) (old es : List (LogEntry R)) (e : LogEntry R)
      → 0 < max
      → SuffixOf old es
      → Ends old e (trim max (es ++ (e ∷ [])))
  trim-Ends max old es e h s =
      let n = length es + 1 - max in (drop n es, trim-append max es e h, SuffixOf-drop n old es s)

  -- Where the cap is above 0, an entry that is within the retention window when it is recorded
  -- becomes the last of the log, with the ID of the counter, which moves on. Before it stand
  -- entries of the log that were there: all but some of the first ones.
  pub add_entry-last :
      (r : Recorder R) (e : LogEntry R) (stamped now : ℕ)
      → 0 < r.max_entries
      → (now - r.retention) / second ≤ (stamp r e stamped).created_at
      → let r' = add_entry r e stamped now in
        Ends r.entries (stamp r e stamped) r'.entries
        × ((stamp r e stamped).id ≡ r.next_id)
        × (r'.next_id ≡ r.next_id + 1)
  unfolding add_entry prune stamp
  add_entry-last r e stamped now cap within =
      let cutoff = (now - r.retention) / second in
      let new = stamp r e stamped in
      (
        if-elim (λ l. Ends r.entries new (trim r.max_entries l)) (ltb 0 r.retention)
            (λ _. rw (drop_stale-append cutoff r.entries new within) (
              trim-Ends r.max_entries r.entries (drop_stale cutoff r.entries) new cap
                (SuffixOf-drop_stale cutoff r.entries r.entries ([], refl))))
            (λ _. trim-Ends r.max_entries r.entries r.entries new cap ([], refl)),
        refl,
        refl,
      )
