-- ===== src/Tests/Usage.antt =====
-- stats/stats.go in a zone whose months have 30 days.
use qoder_2api_go.Prelude.{
  ℕ, ◌+◌, ◌-◌, ◌*◌, ◌/◌, ◌%◌, ◌≡◌, refl, Bool, true, false, none, some, List, [], ◌∷◌, arith, inr,
}
use qoder_2api_go.Prelude.Int.{ℤ, pos, pos_part}
use qoder_2api_go.Text.{Text, codes}
use qoder_2api_go.Float.{whole_credits}
use qoder_2api_go.Stats.Data.{Data, Usage, Recorder, new_data, new_recorder}
use qoder_2api_go.Stats.Calendar.{Clock, Calendar}
use qoder_2api_go.Stats.Cycle.{roll_cycle, project_cycle, set_billing_cycle}
use qoder_2api_go.Stats.Rolling.{IsAhead, cycle_of, project-roll, roll-once}
use qoder_2api_go.Stats.Billing.{MovesForward, set_billing_cycle-MovesForward}
use qoder_2api_go.Stats.Spend.{Frame, use_all, with_credits, project-spend}
use qoder_2api_go.Stats.Totals.{IsConsistent}
use qoder_2api_go.Stats.Totals.Run.{Call, run, run-IsConsistent, requests, charges, boundary}

abbrev day_ms : ℕ
day_ms = 24 * 3600 * 1000

abbrev month_ms : ℕ
month_ms = 30 * day_ms

abbrev clock_of : ℕ → Clock
clock_of ms = record {
  hour = pos 0;
  minute = pos 0;
  sec = pos 0;
  nanosecond = pos (ms * 1_000_000);
}

-- Months are counted from the epoch, and the clock has nanoseconds alone.
abbrev even_months : Calendar
even_months = record {
  in_zone = λ ms. record {
    year = pos 0;
    month = pos (pos_part ms / month_ms);
    day = pos (pos_part ms % month_ms / day_ms + 1);
    clock = clock_of (pos_part ms % day_ms);
  };
  date = λ year month day clock. pos (
      pos_part month * month_ms
      + pos_part day * day_ms
      + pos_part clock.nanosecond / 1_000_000
      - day_ms);
}

-- Seven credits were spent before the boundary, at the end of the first month.
abbrev spent : Data ℕ
spent = record (new_data 0) { credits = 7; cycle_credits = 7; next_reset_ms = pos month_ms }

abbrev spent_recorder : Recorder ℕ
spent_recorder = record { stats_data = spent; persist = true; dirty = false }

-- Two and a half months later.
abbrev later : ℤ
later = pos (2 * month_ms + 15 * day_ms)

roll-once_example :
    let d' = (roll_cycle whole_credits even_months spent later).0 in
    IsAhead later d'.next_reset_ms
    × ((at : ℤ)
        → IsAhead at d'.next_reset_ms
        → roll_cycle whole_credits even_months d' at ≡ (d', false))
roll-once_example = roll-once whole_credits even_months spent later

project-roll_example :
    project_cycle whole_credits even_months spent later
    ≡ cycle_of (roll_cycle whole_credits even_months spent later).0
project-roll_example = project-roll whole_credits even_months spent later

-- The next boundary is reported two days late, within the drift.
set_billing_cycle-MovesForward_example :
    MovesForward whole_credits even_months
      (roll_cycle whole_credits even_months spent later).0
      (set_billing_cycle whole_credits even_months spent_recorder
        (pos (3 * month_ms + 2 * day_ms))
        later).stats_data
      (pos (3 * month_ms + 2 * day_ms))
set_billing_cycle-MovesForward_example =
    set_billing_cycle-MovesForward whole_credits even_months spent_recorder
      (pos (3 * month_ms + 2 * day_ms)) later (omega arith)

abbrev usage_of : ℕ → Bool → Usage ℕ
usage_of credits non_billable = record {
  prompt_tokens = pos 10;
  completion_tokens = pos 5;
  cached_tokens = pos 0;
  credits = credits;
  non_billable = non_billable;
}

abbrev hour_of : ℤ → Text
hour_of ms = pos_part ms / 3_600_000 ∷ []

abbrev new_calls : List (Call ℕ)
new_calls =
    requests (codes "auto") true (pos 5)
    ∷ charges (codes "auto") (some (usage_of 2 false)) (pos 5)
    ∷ requests (codes "lite") false (pos 9)
    ∷ boundary (pos month_ms) (pos 10)
    ∷ []

run-IsConsistent_example :
    IsConsistent 0
      (run whole_credits even_months hour_of (new_recorder 0 (some none)) new_calls).stats_data
unfolding new_recorder new_data
run-IsConsistent_example =
    run-IsConsistent whole_credits even_months hour_of (new_recorder 0 (some none)) new_calls
      record { totals = refl; models = tt; hours = tt; by_models = refl; billed = refl }

-- One frame is charged and one is not.
abbrev frames : List (Frame ℕ)
frames =
    record { model = codes "auto"; usage = usage_of 2 false; at = pos 5 }
    ∷ record { model = codes "auto"; usage = usage_of 4 true; at = pos 6 }
    ∷ []

project-spend_example :
    project_cycle whole_credits even_months
      (use_all whole_credits even_months hour_of spent_recorder frames).stats_data
      (pos 7)
    ≡ with_credits (cycle_of spent) 9
project-spend_example =
    project-spend whole_credits even_months hour_of spent_recorder frames (pos 7)
      (inr (omega arith), (inr (omega arith), tt)) (inr (omega arith))
