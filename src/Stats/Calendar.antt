-- ===== src/Stats/Calendar.antt =====
-- stats/stats.go: months in a time zone. Go's time package is the parameter `Calendar`.
use qoder_2api_go.Prelude.{Bool, not, ◌&&◌, if◌then◌else◌}
use qoder_2api_go.Prelude.Int.{ℤ, pos, ◌+ℤ◌, ltb_ℤ}

-- The clock fields of a time.
pub record Clock : Type 0 where
  pub hour : ℤ
  pub minute : ℤ
  pub sec : ℤ
  pub nanosecond : ℤ

-- The fields of a time in a zone.
pub record Civil : Type 0 where
  pub year : ℤ
  pub month : ℤ
  pub day : ℤ
  pub clock : Clock

-- A zone: the fields of an instant, and `time.Date`, which takes months and days out of their range.
pub record Calendar : Type 0 where
  pub in_zone : ℤ → Civil
  pub date : ℤ → ℤ → ℤ → Clock → ℤ

abbrev pub leb_ℤ : ℤ → ℤ → Bool
leb_ℤ a b = not (ltb_ℤ b a)

abbrev pub eq_ℤ : ℤ → ℤ → Bool
eq_ℤ a b = not (ltb_ℤ a b) && not (ltb_ℤ b a)

-- `addMonthsMsIn`
unfoldable pub add_months : Calendar → ℤ → ℤ → ℤ
add_months cal ms n =
    let t = cal.in_zone ms in
    let target = cal.in_zone (cal.date t.year (t.month +ℤ n) (pos 1) t.clock) in
    let end = cal.in_zone (cal.date target.year (target.month +ℤ pos 1) (pos 0) t.clock) in
    let day = if ltb_ℤ end.day t.day then end.day else t.day in
    cal.date target.year target.month day t.clock

-- `advanceBoundaryMs`, which is `nextCycleBoundary` in a zone
unfoldable pub next_cycle_boundary : Calendar → ℤ → ℤ
next_cycle_boundary cal next_ms =
    let adv = add_months cal next_ms (pos 1) in if leb_ℤ adv next_ms then pos 0 else adv
