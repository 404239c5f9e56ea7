-- ===== src/Logs/Recorder.antt =====
-- logs/logs.go: the recorder: retention, the entry cap, and lazy persistence.
use qoder_2api_go.Prelude.{
  ℕ, ◌+◌, ◌-◌, ◌*◌, ◌/◌, Bool, true, false, ◌&&◌, Option, none, some, List, [], ◌∷◌, ◌++◌, length,
  drop, ltb, leb, ◌==◌, if◌then◌else◌,
}
use qoder_2api_go.Prelude.Int.{ℤ, pos, pos_part, ltb_ℤ}
use qoder_2api_go.Logs.Entry.{LogEntry}

abbrev pub default_retention_days : ℕ
default_retention_days = 90

abbrev pub max_retention_days : ℕ
max_retention_days = 3650

abbrev pub min_max_entries : ℕ
min_max_entries = 100

abbrev pub default_max_entries : ℕ
default_max_entries = 2000

abbrev pub max_entries_hard_cap : ℕ
max_entries_hard_cap = 100_000

-- Durations and instants are nanoseconds.
abbrev pub second : ℕ
second = 1_000_000_000

abbrev pub day : ℕ
day = 24 * 3600 * second

-- The recorder; `persist` says whether there is a persister.
pub record Recorder (R : Type 0) : Type 0 where
  pub entries : List (LogEntry R)
  pub next_id : ℕ
  pub persist : Bool
  pub dirty : Bool
  pub retention : ℕ
  pub max_entries : ℕ

-- `normalizeRetention`
unfoldable pub normalize_retention : ℤ → ℕ
normalize_retention days =
    let days' = if ltb_ℤ (pos 0) days then pos_part days else default_retention_days in
    (if ltb max_retention_days days' then max_retention_days else days') * day

-- `normalizeMaxEntries`
unfoldable pub normalize_max_entries : ℤ → ℕ
normalize_max_entries n =
    if ltb_ℤ n (pos 1)
    then default_max_entries
    else if ltb_ℤ n (pos min_max_entries)
    then min_max_entries
    else if ltb_ℤ (pos max_entries_hard_cap) n
    then max_entries_hard_cap
    else pos_part n

module _ {R : Type 0} where
  -- The retention scan of `pruneLocked`: entries are dropped up to the first that is fresh.
  unfoldable pub drop_stale : ℕ → List (LogEntry R) → List (LogEntry R)
  drop_stale cutoff [] = []
  drop_stale cutoff (e ∷ es) =
      let rest = drop_stale cutoff es in if ltb e.created_at cutoff then rest else e ∷ es

  -- The cap of `pruneLocked`.
  unfoldable pub trim : ℕ → List (LogEntry R) → List (LogEntry R)
  trim max_entries es =
      if ltb 0 max_entries && ltb max_entries (length es)
      then drop (length es - max_entries) es
      else es

  -- `pruneLocked`
  unfoldable pub prune : Recorder R → ℕ → Recorder R
  unfolding drop_stale trim
  prune r now =
      let fresh =
        if ltb 0 r.retention
        then drop_stale ((now - r.retention) / second) r.entries
        else r.entries in
      record r { entries = trim r.max_entries fresh }

  -- The ID counter after the persisted entries.
  unfoldable pub next_after_loaded : ℕ → List (LogEntry R) → ℕ
  next_after_loaded n [] = n
  next_after_loaded n (e ∷ es) = next_after_loaded (if leb n e.id then e.id + 1 else n) es

  -- A recorder with no entries.
  unfoldable pub empty_recorder : Bool → ℤ → ℤ → Recorder R
  empty_recorder persist retention_days max_entries = record {
    entries = [];
    next_id = 1;
    persist = persist;
    dirty = false;
    retention = normalize_retention retention_days;
    max_entries = normalize_max_entries max_entries;
  }

  -- The persisted entries are taken over, and pruned at once.
  unfoldable pub restore : Recorder R → List (LogEntry R) → ℕ → Recorder R
  restore r [] now = r
  restore r (e ∷ es) now =
      let loaded = record r { entries = e ∷ es; next_id = next_after_loaded r.next_id (e ∷ es) } in
      record (prune loaded now) { dirty = true }

  -- `NewRecorder`; `loaded` is what the persister has, if there is one.
  unfoldable pub new_recorder : Option (List (LogEntry R)) → ℤ → ℤ → ℕ → Recorder R
  unfolding empty_recorder restore
  new_recorder none retention_days max_entries now = empty_recorder false retention_days max_entries
  new_recorder (some es) retention_days max_entries now =
      restore (empty_recorder true retention_days max_entries) es now

  -- The entry as `Record` stores it.
  unfoldable pub stamp : Recorder R → LogEntry R → ℕ → LogEntry R
  stamp r e now = record e {
    id = r.next_id;
    created_at = if e.created_at == 0 then now / second else e.created_at;
  }

  -- `Record` of an entry that is not nil; it reads the clock for the entry and for the pruning.
  unfoldable pub add_entry : Recorder R → LogEntry R → ℕ → ℕ → Recorder R
  add_entry r e stamped now =
      prune
        (record r {
          dirty = true;
          next_id = r.next_id + 1;
          entries = r.entries ++ (stamp r e stamped ∷ []);
        })
        now

  -- `SetLimits`
  unfoldable pub set_limits : Recorder R → ℤ → ℤ → ℕ → Recorder R
  set_limits r retention_days max_entries now =
      let limited = record r {
        retention = normalize_retention retention_days;
        max_entries = normalize_max_entries max_entries;
      } in
      let kept = prune limited now in
      if length kept.entries == length r.entries then kept else record kept { dirty = true }

  -- `Limits`
  unfoldable pub limits : Recorder R → ℕ × ℕ
  limits r = (r.retention / day, r.max_entries)

  -- `Flush` up to the call of the persister: the copy to save, if there is anything to save.
  unfoldable pub begin_flush : Recorder R → Recorder R × Option (List (LogEntry R))
  begin_flush r =
      if r.dirty
      then (record r { dirty = false }, if r.persist then some r.entries else none)
      else (r, none)

  -- `Flush` after the persister's answer.
  unfoldable pub end_flush : Recorder R → Bool → Recorder R
  end_flush r saved = if saved then r else record r { dirty = true }
