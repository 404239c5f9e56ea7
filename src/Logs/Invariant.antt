-- ===== src/Logs/Invariant.antt =====
-- logs/logs.go: the invariant of the recorder: IDs, the entry cap and the limits.
use qoder_2api_go.Prelude.{
  ℕ, zero, suc, ◌+◌, ◌-◌, ◌*◌, ◌/◌, ◌≤◌, ◌<◌, ◌≡◌, refl, Bool, true, false, Option, some, List, [],
  ◌∷◌, ◌++◌, arith, length, drop, length-drop, ltb, leb, ◌==◌, ◌&&◌, if-elim,
}
use qoder_2api_go.Prelude.Int.{ℤ}
use qoder_2api_go.Logs.Entry.{LogEntry}
use qoder_2api_go.Logs.Recorder.{
  Recorder, normalize_retention, normalize_max_entries, drop_stale, trim, prune, next_after_loaded,
  empty_recorder, restore, new_recorder, stamp, add_entry, set_limits, begin_flush, end_flush,
  min_max_entries, max_entries_hard_cap, max_retention_days, day, second,
}

normalize_retention_bounds :
    (days : ℤ)
    → (day ≤ normalize_retention days) × (normalize_retention days ≤ max_retention_days * day)
unfolding normalize_retention
normalize_retention_bounds days = ground arith

normalize_max_entries_bounds :
    (n : ℤ)
    → (min_max_entries ≤ normalize_max_entries n) × (normalize_max_entries n ≤ max_entries_hard_cap)
unfolding normalize_max_entries
normalize_max_entries_bounds n = ground arith

-- The calls of a recorder that change it.
pub data Call (R : Type 0) : Type 0 where
  records : LogEntry R → ℕ → ℕ → Call R
  limits : ℤ → ℤ → ℕ → Call R
  flush_begins : Call R
  flush_ends : Bool → Call R

module _ {R : Type 0} where
  -- The IDs grow along the list, from `lo` on and below `hi`.
  abbrev pub Ascending : ℕ → ℕ → List (LogEntry R) → Type 0
  Ascending lo hi [] = lo ≤ hi
  Ascending lo hi (e ∷ es) = (lo ≤ e.id) × Ascending (e.id + 1) hi es

  Ascending-le : (lo hi : ℕ) (es : List (LogEntry R)) → Ascending lo hi es → lo ≤ hi
  Ascending-le lo hi [] h = h
  Ascending-le lo hi (e ∷ es) h = omega (arith, Ascending-le (e.id + 1) hi es h.1)

  Ascending-lower :
      (lo lo' hi : ℕ) (es : List (LogEntry R)) → lo' ≤ lo → Ascending lo hi es → Ascending lo' hi es
  Ascending-lower lo lo' hi [] h a = omega arith
  Ascending-lower lo lo' hi (e ∷ es) h a = (omega arith, a.1)

  Ascending-tail :
      (lo hi : ℕ) (e : LogEntry R) (es : List (LogEntry R))
      → Ascending lo hi (e ∷ es)
      → Ascending lo hi es
  Ascending-tail lo hi e es a = Ascending-lower (e.id + 1) lo hi es (omega arith) a.1

  Ascending-append :
      (lo hi : ℕ) (es : List (LogEntry R)) (e : LogEntry R)
      → Ascending lo hi es
      → e.id ≡ hi
      → Ascending lo (hi + 1) (es ++ (e ∷ []))
  Ascending-append lo hi [] e a i = (omega arith, omega arith)
  Ascending-append lo hi (x ∷ es) e a i = (a.0, Ascending-append (x.id + 1) hi es e a.1 i)

  Ascending-drop :
      (n lo hi : ℕ) (es : List (LogEntry R)) → Ascending lo hi es → Ascending lo hi (drop n es)
  Ascending-drop zero lo hi es a = a
  Ascending-drop (suc n) lo hi [] a = a
  Ascending-drop (suc n) lo hi (e ∷ es) a = Ascending-drop n lo hi es (Ascending-tail lo hi e es a)

  Ascending-drop_stale :
      (cutoff lo hi : ℕ) (es : List (LogEntry R))
      → Ascending lo hi es
      → Ascending lo hi (drop_stale cutoff es)
  unfolding drop_stale
  Ascending-drop_stale cutoff lo hi [] a = a
  Ascending-drop_stale cutoff lo hi (e ∷ es) a =
      if-elim (Ascending lo hi) (ltb e.created_at cutoff)
        (λ _. Ascending-drop_stale cutoff lo hi es (Ascending-tail lo hi e es a)) (λ _. a)

  Ascending-trim :
      (max lo hi : ℕ) (es : List (LogEntry R)) → Ascending lo hi es → Ascending lo hi (trim max es)
  unfolding trim
  Ascending-trim max lo hi es a =
      if-elim (Ascending lo hi) (ltb 0 max && ltb max (length es))
        (λ _. Ascending-drop (length es - max) lo hi es a) (λ _. a)

  length-trim : (max : ℕ) (es : List (LogEntry R)) → 0 < max → length (trim max es) ≤ max
  unfolding trim
  length-trim max es h = ground (arith, length-drop (length es - max) es)

  -- The IDs are distinct and below the counter, and the limits are in force.
  pub record IsValid (r : Recorder R) : Type 0 where
    pub ids : Ascending 1 r.next_id r.entries
    pub capped : length r.entries ≤ r.max_entries
    pub cap_low : min_max_entries ≤ r.max_entries
    pub cap_high : r.max_entries ≤ max_entries_hard_cap
    pub retention_low : day ≤ r.retention
    pub retention_high : r.retention ≤ max_retention_days * day

  -- Pruning restores the cap.
  prune-IsValid :
      (r : Recorder R) (now : ℕ)
      → Ascending 1 r.next_id r.entries
      → min_max_entries ≤ r.max_entries
      → r.max_entries ≤ max_entries_hard_cap
      → day ≤ r.retention
      → r.retention ≤ max_retention_days * day
      → IsValid (prune r now)
  unfolding prune
  prune-IsValid r now ids low high rlow rhigh = record {
    ids = Ascending-trim r.max_entries 1 r.next_id _ (
        if-elim (Ascending 1 r.next_id) (ltb 0 r.retention)
          (λ _. Ascending-drop_stale ((now - r.retention) / second) 1 r.next_id r.entries ids)
          (λ _. ids));
    capped = length-trim r.max_entries _ (omega arith);
    cap_low = low;
    cap_high = high;
    retention_low = rlow;
    retention_high = rhigh;
  }

  dirty-IsValid : (r : Recorder R) (b : Bool) → IsValid r → IsValid (record r { dirty = b })
  dirty-IsValid r b v = record {
    ids = v.ids;
    capped = v.capped;
    cap_low = v.cap_low;
    cap_high = v.cap_high;
    retention_low = v.retention_low;
    retention_high = v.retention_high;
  }

  add_entry-IsValid :
      (r : Recorder R) (e : LogEntry R) (stamped now : ℕ)
      → IsValid r
      → IsValid (add_entry r e stamped now)
  unfolding add_entry stamp
  add_entry-IsValid r e stamped now v =
      prune-IsValid _ now (Ascending-append 1 r.next_id r.entries (stamp r e stamped) v.ids refl)
        v.cap_low v.cap_high v.retention_low v.retention_high

  set_limits-IsValid :
      (r : Recorder R) (days max : ℤ) (now : ℕ) → IsValid r → IsValid (set_limits r days max now)
  unfolding set_limits
  set_limits-IsValid r days max now v =
      let limited = record r {
        retention = normalize_retention days;
        max_entries = normalize_max_entries max;
      } in
      let kept =
        prune-IsValid limited now v.ids (normalize_max_entries_bounds max).0
          (normalize_max_entries_bounds max).1 (normalize_retention_bounds days).0
          (normalize_retention_bounds days).1 in
      if-elim IsValid (length (prune limited now).entries == length r.entries) (λ _. kept)
        (λ _. dirty-IsValid (prune limited now) true kept)

  Ascending-next_after_loaded :
      (n m : ℕ) (es : List (LogEntry R))
      → Ascending n m es
      → Ascending n (next_after_loaded n es) es
  unfolding next_after_loaded
  Ascending-next_after_loaded n m [] a = omega arith
  Ascending-next_after_loaded n m (e ∷ es) a =
      let t : leb n e.id ≡ true = ground arith in
      rw t (a.0, Ascending-next_after_loaded (e.id + 1) m es a.1)

  empty_recorder-IsValid : (b : Bool) (days max : ℤ) → IsValid (empty_recorder {R = R} b days max)
  unfolding empty_recorder
  empty_recorder-IsValid b days max = record {
    ids = omega arith;
    capped = omega arith;
    cap_low = (normalize_max_entries_bounds max).0;
    cap_high = (normalize_max_entries_bounds max).1;
    retention_low = (normalize_retention_bounds days).0;
    retention_high = (normalize_retention_bounds days).1;
  }

  restore-IsValid :
      (r : Recorder R) (es : List (LogEntry R)) (hi now : ℕ)
      → IsValid r
      → r.next_id ≡ 1
      → Ascending 1 hi es
      → IsValid (restore r es now)
  unfolding restore
  restore-IsValid r [] hi now v i a = v
  restore-IsValid r (e ∷ es) hi now v i a = dirty-IsValid _ true (
      prune-IsValid _ now (rw i (Ascending-next_after_loaded 1 hi (e ∷ es) a)) v.cap_low v.cap_high
        v.retention_low v.retention_high)

  pub apply : Recorder R → Call R → Recorder R
  apply r (records e stamped now) = add_entry r e stamped now
  apply r (limits days max now) = set_limits r days max now
  apply r flush_begins = (begin_flush r).0
  apply r (flush_ends saved) = end_flush r saved

  pub run : Recorder R → List (Call R) → Recorder R
  run r [] = r
  run r (c ∷ cs) = run (apply r c) cs

  pub apply-IsValid : (r : Recorder R) (c : Call R) → IsValid r → IsValid (apply r c)
  unfolding apply begin_flush end_flush
  apply-IsValid r (records e stamped now) v = add_entry-IsValid r e stamped now v
  apply-IsValid r (limits days max now) v = set_limits-IsValid r days max now v
  apply-IsValid r flush_begins v =
      if-elim (λ (p : Recorder R × Option (List (LogEntry R))). IsValid p.0) r.dirty
        (λ _. dirty-IsValid r false v) (λ _. v)
  apply-IsValid r (flush_ends saved) v =
      if-elim IsValid saved (λ _. v) (λ _. dirty-IsValid r true v)

  run-IsValid : (r : Recorder R) (cs : List (Call R)) → IsValid r → IsValid (run r cs)
  unfolding run
  run-IsValid r [] v = v
  run-IsValid r (c ∷ cs) v = run-IsValid (apply r c) cs (apply-IsValid r c v)

  -- A recorder restored from entries with growing IDs stays valid through any calls: its IDs are
  -- distinct, grow along the log and stay below the counter, the entries are within the cap, and
  -- both limits within their bounds, whatever limits it was given.
  pub run-restored-IsValid :
      (es : List (LogEntry R)) (hi : ℕ) (days max : ℤ) (now : ℕ) (cs : List (Call R))
      → Ascending 1 hi es
      → IsValid (run (new_recorder (some es) days max now) cs)
  unfolding new_recorder
  run-restored-IsValid es hi days max now cs a = run-IsValid _ cs (
      restore-IsValid (empty_recorder true days max) es hi now
        (empty_recorder-IsValid true days max) (unfold empty_recorder in refl) a)
