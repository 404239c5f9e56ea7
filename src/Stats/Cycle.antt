-- ===== src/Stats/Cycle.antt =====
-- stats/stats.go: the billing cycle, its roll and its projection.
use qoder_2api_go.Prelude.{ℕ, zero, suc, ◌*◌, Bool, true, false, not, ◌&&◌, ◌||◌, if◌then◌else◌}
use qoder_2api_go.Prelude.Int.{ℤ, pos, negsuc, ◌-ℤ◌, ltb_ℤ}
use qoder_2api_go.Float.{FloatOps}
use qoder_2api_go.Stats.Data.{Data, Recorder}
use qoder_2api_go.Stats.Calendar.{Calendar, leb_ℤ, eq_ℤ, add_months, next_cycle_boundary}

abbrev pub cycle_drift_tolerance_ms : ℕ
cycle_drift_tolerance_ms = 7 * 24 * 60 * 60 * 1000

abbrev pub max_cycle_catch_ups : ℕ
max_cycle_catch_ups = 2400

abbrev pub max_plausible_reset_ms : ℕ
max_plausible_reset_ms = 4102444800000

-- `plausibleResetMs`
unfoldable pub plausible_reset_ms : ℤ → Bool
plausible_reset_ms ms = ltb_ℤ (pos 0) ms && ltb_ℤ ms (pos max_plausible_reset_ms)

-- The boundary is known and has passed.
unfoldable pub due : ℤ → ℤ → Bool
due now next = ltb_ℤ (pos 0) next && leb_ℤ next now

-- A report that tells nothing new: the same boundary, or one that the tracked one is beyond.
unfoldable pub stale_report : ℤ → ℤ → Bool
unfolding plausible_reset_ms
stale_report tracked next = eq_ℤ tracked next || (plausible_reset_ms tracked && leb_ℤ next tracked)

-- The cycle as a report shows it.
pub record Projection (R : Type 0) : Type 0 where
  pub cycle_credits : R
  pub start_ms : ℤ
  pub next_ms : ℤ

module _ {R : Type 0} where
  -- After the loop of `projectCycleLocked`.
  unfoldable pub end_projection : ℤ → Projection R → Projection R
  end_projection now p = if due now p.next_ms then record p { next_ms = pos 0 } else p

  -- After the loop of `rollCycleLocked`; the flag says whether it rolled.
  unfoldable pub end_roll : ℤ → Data R → Bool → Data R × Bool
  end_roll now d rolled =
      if due now d.next_reset_ms then (record d { next_reset_ms = pos 0 }, true) else (d, rolled)

  -- The recorder after a roll that may have changed it.
  unfoldable pub rolled_recorder : Recorder R → Data R × Bool → Recorder R
  rolled_recorder r (d, rolled) = record r { stats_data = d; dirty = r.dirty || rolled }

module _ {R : Type 0} (ops : FloatOps R) (cal : Calendar) where
  -- The cycle that starts at the boundary, with its own boundary.
  abbrev pub passed_projection : Projection R → ℤ → Projection R
  passed_projection p next = record {
    cycle_credits = ops.of_ℕ 0;
    start_ms = p.next_ms;
    next_ms = next;
  }

  -- The loop of `projectCycleLocked`, for at most so many cycles. A `break` leaves no boundary that
  -- could be due.
  unfoldable pub project_loop : ℕ → ℤ → Projection R → Projection R
  unfolding end_projection
  project_loop zero now p = end_projection now p
  project_loop (suc n) now p = elim (due now p.next_ms) [
    | false ↦ end_projection now p
    | true ↦
        let adv = next_cycle_boundary cal p.next_ms in
        elim (eq_ℤ adv (pos 0)) [
          | true ↦ end_projection now (passed_projection p (pos 0))
          | false ↦ project_loop n now (passed_projection p adv)
        ]
  ]

  -- `projectCycleLocked`
  unfoldable pub project_cycle : Data R → ℤ → Projection R
  unfolding project_loop
  project_cycle d now = project_loop max_cycle_catch_ups now record {
    cycle_credits = d.cycle_credits;
    start_ms = d.cycle_start_ms;
    next_ms = d.next_reset_ms;
  }

  abbrev pub passed_cycle : Data R → ℤ → Data R
  passed_cycle d next = record d {
    cycle_start_ms = d.next_reset_ms;
    cycle_credits = ops.of_ℕ 0;
    next_reset_ms = next;
  }

  -- The loop of `rollCycleLocked`, for at most so many cycles.
  unfoldable pub roll_loop : ℕ → ℤ → Data R → Bool → Data R × Bool
  unfolding end_roll
  roll_loop zero now d rolled = end_roll now d rolled
  roll_loop (suc n) now d rolled = elim (due now d.next_reset_ms) [
    | false ↦ end_roll now d rolled
    | true ↦
        let adv = next_cycle_boundary cal d.next_reset_ms in
        elim (eq_ℤ adv (pos 0)) [
          | true ↦ (passed_cycle d (pos 0), true)
          | false ↦ roll_loop n now (passed_cycle d adv) true
        ]
  ]

  -- `rollCycleLocked`
  unfoldable pub roll_cycle : Data R → ℤ → Data R × Bool
  unfolding roll_loop
  roll_cycle d now = roll_loop max_cycle_catch_ups now d false

  -- `setBillingCycleAt` once the boundary is rolled: the report of another boundary.
  unfoldable pub adopt : Recorder R → ℤ → Recorder R
  adopt r next =
      let d = r.stats_data in
      let refreshed =
        not (eq_ℤ d.next_reset_ms (pos 0))
        && leb_ℤ (pos cycle_drift_tolerance_ms) (next -ℤ d.next_reset_ms) in
      record r {
        stats_data = record d {
          cycle_credits = if refreshed then ops.of_ℕ 0 else d.cycle_credits;
          next_reset_ms = next;
          cycle_start_ms = add_months cal next (negsuc 0);
        };
        dirty = true;
      }

  -- `setBillingCycleAt` after the roll.
  unfoldable pub report : Recorder R → ℤ → Recorder R
  unfolding adopt stale_report
  report r next = if stale_report r.stats_data.next_reset_ms next then r else adopt r next

  -- `setBillingCycleAt`, which is `SetBillingCycle` with the clock
  unfoldable pub set_billing_cycle : Recorder R → ℤ → ℤ → Recorder R
  unfolding report rolled_recorder roll_cycle
  set_billing_cycle r next now =
      if leb_ℤ next (pos 0)
      then r
      else report (rolled_recorder r (roll_cycle r.stats_data now)) next
