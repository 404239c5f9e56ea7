-- ===== src/Stats/Record.antt =====
-- stats/stats.go: counting requests and usage, the account, and persistence. `hour_key` is the hour
-- of an instant in the layout of the bucket keys.
use qoder_2api_go.Prelude.{
  ℕ, ◌+◌, Bool, true, false, not, Option, none, some, filter, if◌then◌else◌,
}
use qoder_2api_go.Prelude.Int.{ℤ, ◌+ℤ◌}
use qoder_2api_go.Text.{Text, text_lt}
use qoder_2api_go.Dict.{Dict, lookup, insert}
use qoder_2api_go.Float.{FloatOps}
use qoder_2api_go.Stats.Data.{ModelStat, HourStat, Account, Data, Usage, Recorder}
use qoder_2api_go.Stats.Calendar.{Calendar}
use qoder_2api_go.Stats.Cycle.{roll_cycle}

abbrev pub one_if : Bool → ℕ
one_if b = if b then 1 else 0

module _ {R : Type 0} where
  -- The tokens of a frame, which count whether it is charged or not.
  unfoldable pub add_tokens : Data R → Usage R → Data R
  unfolding ◌+ℤ◌
  add_tokens d u = record d {
    prompt_tokens = d.prompt_tokens +ℤ u.prompt_tokens;
    completion_tokens = d.completion_tokens +ℤ u.completion_tokens;
    cached_tokens = d.cached_tokens +ℤ u.cached_tokens;
  }

module _ {R : Type 0} (ops : FloatOps R) where
  -- A row that is found, or a new one.
  unfoldable pub model_or : Text → Option (ModelStat R) → ModelStat R
  model_or model (some m) = m
  model_or model none = record {
    model = model;
    total = 0;
    success = 0;
    failed = 0;
    billed = 0;
    credits = ops.of_ℕ 0;
  }

  unfoldable pub hour_or : Text → Option (HourStat R) → HourStat R
  hour_or key (some h) = h
  hour_or key none = record {
    hour = key;
    total = 0;
    success = 0;
    failed = 0;
    billed = 0;
    credits = ops.of_ℕ 0;
  }

  -- The row of a model, made when there is none.
  unfoldable pub model_row : Text → Dict (ModelStat R) → ModelStat R
  unfolding model_or lookup
  model_row model rows = model_or model (lookup model rows)

  unfoldable pub hour_row : Text → Dict (HourStat R) → HourStat R
  unfolding hour_or lookup
  hour_row key rows = hour_or key (lookup key rows)

  unfoldable pub count_model : Bool → ModelStat R → ModelStat R
  count_model ok m = record m {
    total = m.total + 1;
    success = m.success + one_if ok;
    failed = m.failed + one_if (not ok);
  }

  unfoldable pub count_hour : Bool → HourStat R → HourStat R
  count_hour ok h = record h {
    total = h.total + 1;
    success = h.success + one_if ok;
    failed = h.failed + one_if (not ok);
  }

  -- `Record`
  unfoldable pub record_request : (ℤ → Text) → Recorder R → Text → Bool → ℤ → Recorder R
  unfolding model_row hour_row count_model count_hour insert
  record_request hour_key r model ok now =
      let d = r.stats_data in
      let key = hour_key now in
      record r {
        dirty = true;
        stats_data = record d {
          total = d.total + 1;
          success = d.success + one_if ok;
          failed = d.failed + one_if (not ok);
          by_model = insert model (count_model ok (model_row model d.by_model)) d.by_model;
          hourly = insert key (count_hour ok (hour_row key d.hourly)) d.hourly;
        };
      }

  unfoldable pub bill_model : R → ModelStat R → ModelStat R
  bill_model c m = record m { billed = m.billed + 1; credits = ops.add m.credits c }

  unfoldable pub bill_hour : R → HourStat R → HourStat R
  bill_hour c h = record h { billed = h.billed + 1; credits = ops.add h.credits c }

  -- The lifetime totals of a charged frame, which come before the roll.
  unfoldable pub add_lifetime : R → Data R → Data R
  add_lifetime c d = record d {
    credits = ops.add d.credits c;
    billed_requests = d.billed_requests + 1;
  }

  -- What a charged frame adds after the roll: to its cycle, its model and its hour.
  unfoldable pub attribute : Text → Text → R → Data R → Data R
  unfolding model_row hour_row bill_model bill_hour insert
  attribute model key c d = record d {
    cycle_credits = ops.add d.cycle_credits c;
    by_model = insert model (bill_model c (model_row model d.by_model)) d.by_model;
    hourly = insert key (bill_hour c (hour_row key d.hourly)) d.hourly;
  }

  -- `RecordUsage`
  unfoldable pub record_usage :
      Calendar → (ℤ → Text) → Recorder R → Text → Option (Usage R) → ℤ → Recorder R
  unfolding add_tokens add_lifetime attribute roll_cycle
  record_usage cal hour_key r model none now = r
  record_usage cal hour_key r model (some u) now =
      let d = add_tokens r.stats_data u in
      record r {
        dirty = true;
        stats_data =
            if u.non_billable
            then d
            else let d' = (roll_cycle ops cal (add_lifetime u.credits d) now).0 in
              attribute model (hour_key now) u.credits d';
      }

module _ {R : Type 0} where
  -- `SetAccount`; nil is ignored
  unfoldable pub set_account : Recorder R → Option (Account R) → Recorder R
  set_account r none = r
  set_account r (some a) = record r {
    stats_data = record r.stats_data { account = some a };
    dirty = true;
  }

  -- `ClearAccount`, with the account of the snapshot
  unfoldable pub clear_known : Recorder R → Option (Account R) → Recorder R
  clear_known r none = r
  clear_known r (some a) = record r {
    stats_data = record r.stats_data { account = none };
    dirty = true;
  }

  unfoldable pub clear_account : Recorder R → Recorder R
  unfolding clear_known
  clear_account r = clear_known r r.stats_data.account

  -- `pruneLocked`; the cutoff is the hour key of the oldest instant to keep
  unfoldable pub prune : Text → Data R → Data R
  unfolding filter text_lt
  prune cutoff d = record d {
    hourly = filter (λ (row : Text × HourStat R). not (text_lt row.0 cutoff)) d.hourly;
  }

  -- `Flush` up to the call of the persister: the snapshot to save, if there is one.
  unfoldable pub begin_flush : Recorder R → Text → Recorder R × Option (Data R)
  unfolding prune
  begin_flush r cutoff =
      if r.dirty
      then (
        record r { stats_data = prune cutoff r.stats_data; dirty = false },
        if r.persist then some (prune cutoff r.stats_data) else none,
      )
      else (r, none)

  -- `Flush` after the persister's answer.
  unfoldable pub end_flush : Recorder R → Bool → Recorder R
  end_flush r saved = if saved then r else record r { dirty = true }
