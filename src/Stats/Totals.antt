-- ===== src/Stats/Totals.antt =====
-- stats/stats.go: the counters of a snapshot agree with each other.
pub mod Run
use qoder_2api_go.Prelude.{
  ℕ, zero, suc, ◌+◌, ◌≡◌, refl, sym, ap, ◌∙◌, subst, Bool, true, false, not, Option, none, some,
  List, [], ◌∷◌, arith, All, Bool-cases, Option-cases, inl, inr, if◌then◌else◌, if-elim, filter,
}
use qoder_2api_go.Prelude.Int.{ℤ, pos}
use qoder_2api_go.Text.{Text, text_eq}
use qoder_2api_go.Dict.{Dict, lookup, insert}
use qoder_2api_go.Dict.Entries.{AllValues, AllValues-lookup, AllValues-insert, All-filter}
use qoder_2api_go.Float.{FloatOps}
use qoder_2api_go.Stats.Data.{
  ModelStat, HourStat, Account, Data, Usage, Recorder, new_data, new_recorder,
}
use qoder_2api_go.Stats.Calendar.{Calendar, leb_ℤ, eq_ℤ, next_cycle_boundary}
use qoder_2api_go.Stats.Cycle.{
  due, stale_report, max_cycle_catch_ups, roll_cycle, set_billing_cycle, roll_loop, end_roll, adopt,
  report, rolled_recorder, passed_cycle,
}
use qoder_2api_go.Stats.Record.{
  model_or, hour_or, model_row, hour_row, one_if, count_model, count_hour, record_request,
  add_tokens, bill_model, bill_hour, add_lifetime, attribute, record_usage, set_account,
  clear_known, clear_account, prune, begin_flush, end_flush,
}

-- The sum of a counter over the rows of a map.
abbrev pub sum_of : {V : Type 0} → (V → ℕ) → Dict V → ℕ
sum_of f [] = 0
sum_of f ((k, v) ∷ m) = f v + sum_of f m

module _ {R : Type 0} where
  abbrev pub BalancedModel : ModelStat R → Type 0
  BalancedModel m = m.total ≡ m.success + m.failed

  abbrev pub BalancedHour : HourStat R → Type 0
  BalancedHour h = h.total ≡ h.success + h.failed

  -- Every total is its successes and its failures; the models' rows add up to the totals, but for
  -- the frames that no row has been charged for yet.
  pub record IsConsistent (uncharged : ℕ) (d : Data R) : Type 0 where
    pub totals : d.total ≡ d.success + d.failed
    pub models : AllValues BalancedModel d.by_model
    pub hours : AllValues BalancedHour d.hourly
    pub by_models : sum_of (λ (m : ModelStat R). m.total) d.by_model ≡ d.total
    pub billed : sum_of (λ (m : ModelStat R). m.billed) d.by_model + uncharged ≡ d.billed_requests

  -- The cycle has no part in the counters.
  with_cycle-IsConsistent :
      (n : ℕ) (d : Data R) (next start : ℤ) (c : R)
      → IsConsistent n d
      → IsConsistent n
          (record d { next_reset_ms = next; cycle_start_ms = start; cycle_credits = c })
  with_cycle-IsConsistent n d next start c v = record {
    totals = v.totals;
    models = v.models;
    hours = v.hours;
    by_models = v.by_models;
    billed = v.billed;
  }

  end_roll-IsConsistent :
      (n : ℕ) (now : ℤ) (d : Data R) (b : Bool)
      → IsConsistent n d
      → IsConsistent n (end_roll now d b).0
  unfolding end_roll
  end_roll-IsConsistent n now d b v =
      if-elim (λ (q : Data R × Bool). IsConsistent n q.0) (due now d.next_reset_ms)
        (λ _. with_cycle-IsConsistent n d (pos 0) d.cycle_start_ms d.cycle_credits v) (λ _. v)

  sum_of-model_row :
      (f : ModelStat R → ℕ) (ops : FloatOps R) (k : Text) (x : ModelStat R) (m : Dict (ModelStat R))
      → f (model_row ops k []) ≡ 0
      → sum_of f (insert k x m) + f (model_row ops k m) ≡ sum_of f m + f x
  unfolding insert model_row lookup model_or
  sum_of-model_row f ops k x [] z = ground arith
  sum_of-model_row f ops k x ((j, w) ∷ m) z = ground (arith, sum_of-model_row f ops k x m z)

  add_tokens-IsConsistent :
      (d : Data R) (u : Usage R) → IsConsistent 0 d → IsConsistent 0 (add_tokens d u)
  unfolding add_tokens
  add_tokens-IsConsistent d u v = record {
    totals = v.totals;
    models = v.models;
    hours = v.hours;
    by_models = v.by_models;
    billed = v.billed;
  }

module _ {R : Type 0} (ops : FloatOps R) where
  model_or-BalancedModel :
      (k : Text) (o : Option (ModelStat R))
      → ((x : ModelStat R) → o ≡ some x → BalancedModel x)
      → BalancedModel (model_or ops k o)
  unfolding model_or
  model_or-BalancedModel k none h = refl
  model_or-BalancedModel k (some x) h = h x refl

  hour_or-BalancedHour :
      (k : Text) (o : Option (HourStat R))
      → ((x : HourStat R) → o ≡ some x → BalancedHour x)
      → BalancedHour (hour_or ops k o)
  unfolding hour_or
  hour_or-BalancedHour k none h = refl
  hour_or-BalancedHour k (some x) h = h x refl

  model_row-BalancedModel :
      (k : Text) (m : Dict (ModelStat R))
      → AllValues BalancedModel m
      → BalancedModel (model_row ops k m)
  unfolding model_row
  model_row-BalancedModel k m v =
      model_or-BalancedModel k (lookup k m) (λ x e. AllValues-lookup BalancedModel k m v e)

  hour_row-BalancedHour :
      (k : Text) (m : Dict (HourStat R))
      → AllValues BalancedHour m
      → BalancedHour (hour_row ops k m)
  unfolding hour_row
  hour_row-BalancedHour k m v =
      hour_or-BalancedHour k (lookup k m) (λ x e. AllValues-lookup BalancedHour k m v e)

  one_if-not : (b : Bool) → one_if b + one_if (not b) ≡ 1
  one_if-not true = refl
  one_if-not false = refl

  record_request-IsConsistent :
      (hour_key : ℤ → Text) (r : Recorder R) (model : Text) (ok : Bool) (now : ℤ)
      → IsConsistent 0 r.stats_data
      → IsConsistent 0 (record_request ops hour_key r model ok now).stats_data
  unfolding record_request count_model count_hour
  record_request-IsConsistent hour_key r model ok now v =
      let d = r.stats_data in
      let m = model_row ops model d.by_model in
      let h = hour_row ops (hour_key now) d.hourly in
      let mb : m.total ≡ m.success + m.failed = model_row-BalancedModel model d.by_model v.models in
      let hb : h.total ≡ h.success + h.failed =
        hour_row-BalancedHour (hour_key now) d.hourly v.hours in
      record {
        totals = omega (arith, one_if-not ok, v.totals);
        models =
            AllValues-insert BalancedModel model (count_model ops ok m) d.by_model
              (omega (arith, one_if-not ok, mb)) v.models;
        hours =
            AllValues-insert BalancedHour (hour_key now) (count_hour ops ok h) d.hourly
              (omega (arith, one_if-not ok, hb)) v.hours;
        by_models = omega (
          arith,
          v.by_models,
          sum_of-model_row (λ (x : ModelStat R). x.total) ops model (count_model ops ok m)
              d.by_model refl,
        );
        billed = omega (
          arith,
          v.billed,
          sum_of-model_row (λ (x : ModelStat R). x.billed) ops model (count_model ops ok m)
              d.by_model refl,
        );
      }

  add_lifetime-IsConsistent :
      (c : R) (d : Data R) → IsConsistent 0 d → IsConsistent 1 (add_lifetime ops c d)
  unfolding add_lifetime
  add_lifetime-IsConsistent c d v = record {
    totals = v.totals;
    models = v.models;
    hours = v.hours;
    by_models = v.by_models;
    billed = omega (arith, v.billed);
  }

  attribute-IsConsistent :
      (model key : Text) (c : R) (d : Data R)
      → IsConsistent 1 d
      → IsConsistent 0 (attribute ops model key c d)
  unfolding attribute bill_model bill_hour
  attribute-IsConsistent model key c d v =
      let m = model_row ops model d.by_model in
      let h = hour_row ops key d.hourly in
      let row = λ (f : ModelStat R → ℕ) (z : f (model_row ops model []) ≡ 0).
        sum_of-model_row f ops model (bill_model ops c m) d.by_model z in
      record {
        totals = v.totals;
        models =
            AllValues-insert BalancedModel model (bill_model ops c m) d.by_model
              (model_row-BalancedModel model d.by_model v.models) v.models;
        hours =
            AllValues-insert BalancedHour key (bill_hour ops c h) d.hourly
              (hour_row-BalancedHour key d.hourly v.hours) v.hours;
        by_models = omega (arith, v.by_models, row (λ (x : ModelStat R). x.total) refl);
        billed = omega (arith, v.billed, row (λ (x : ModelStat R). x.billed) refl);
      }
