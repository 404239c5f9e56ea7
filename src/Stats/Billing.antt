-- ===== src/Stats/Billing.antt =====
-- stats/stats.go: what a reported subscription boundary may change.
use qoder_2api_go.Prelude.{
  ◌≡◌, refl, sym, ap, ◌∙◌, subst, true, false, not, ◌||◌, ◌&&◌, arith, Bool-cases, ◌⊎◌, inl, inr,
  if-elim,
}
use qoder_2api_go.Prelude.Int.{ℤ, pos, ◌≤ℤ◌, ◌-ℤ◌, eq_of_parts}
use qoder_2api_go.Float.{FloatOps}
use qoder_2api_go.Stats.Data.{Data, Recorder}
use qoder_2api_go.Stats.Calendar.{Calendar, leb_ℤ, eq_ℤ}
use qoder_2api_go.Stats.Cycle.{
  due, plausible_reset_ms, cycle_drift_tolerance_ms, roll_cycle, adopt, stale_report, report,
  rolled_recorder, set_billing_cycle,
}
use qoder_2api_go.Stats.Rolling.{roll-idle, roll-due, due-IsAhead, ◌<ℤ◌}

rolled-same : {R : Type 0} (r : Recorder R) → rolled_recorder r (r.stats_data, false) ≡ r
unfolding rolled_recorder
rolled-same r =
    let e : (r.dirty || false) ≡ r.dirty = ground arith in ap (λ b. record r { dirty = b }) e

module _ {R : Type 0} (ops : FloatOps R) (cal : Calendar) where
  -- The cycle's credits are kept, or they are reset since the boundary moved on by a week or more.
  abbrev pub KeepsCredits : Data R → Data R → ℤ → Type 0
  KeepsCredits d d' next =
      (d'.cycle_credits ≡ d.cycle_credits)
      ⊎ ((d'.cycle_credits ≡ ops.of_ℕ 0)
          × (pos cycle_drift_tolerance_ms ≤ℤ next -ℤ d.next_reset_ms))

  abbrev pub MovesForward : Data R → Data R → ℤ → Type 0
  MovesForward d d' next =
      (plausible_reset_ms d.next_reset_ms ≡ true → d.next_reset_ms ≤ℤ d'.next_reset_ms)
      × (plausible_reset_ms d.next_reset_ms ≡ false → d'.next_reset_ms ≡ next)
      × KeepsCredits d d' next

  adopt-credits :
      (r : Recorder R) (next : ℤ) → KeepsCredits r.stats_data (adopt ops cal r next).stats_data next
  unfolding adopt
  adopt-credits r next =
      let d = r.stats_data in
      if-elim
        (λ (c : R).
          (c ≡ d.cycle_credits)
          ⊎ ((c ≡ ops.of_ℕ 0) × (pos cycle_drift_tolerance_ms ≤ℤ next -ℤ d.next_reset_ms)))
        (not (eq_ℤ d.next_reset_ms (pos 0))
          && leb_ℤ (pos cycle_drift_tolerance_ms) (next -ℤ d.next_reset_ms))
        (λ t. inr (refl, ground arith)) (λ f. inl refl)

  stale-plausible :
      (tracked next : ℤ)
      → stale_report tracked next ≡ false
      → plausible_reset_ms tracked ≡ true
      → tracked ≤ℤ next
  unfolding stale_report
  stale-plausible tracked next f p = ground arith

  stale-implausible :
      (tracked next : ℤ)
      → stale_report tracked next ≡ true
      → plausible_reset_ms tracked ≡ false
      → tracked ≡ next
  unfolding stale_report
  stale-implausible tracked next t p = eq_of_parts tracked next (ground arith)

  adopt-next : (r : Recorder R) (next : ℤ) → (adopt ops cal r next).stats_data.next_reset_ms ≡ next
  unfolding adopt
  adopt-next r next = refl

  report-MovesForward :
      (r : Recorder R) (next : ℤ)
      → MovesForward r.stats_data (report ops cal r next).stats_data next
  unfolding report
  report-MovesForward r next =
      let tracked = r.stats_data.next_reset_ms in
      if-elim (λ (r' : Recorder R). MovesForward r.stats_data r'.stats_data next)
        (stale_report tracked next)
        (λ t. (λ p. ground arith, λ p. stale-implausible tracked next t p, inl refl))
        (λ f. (
          λ p.
              subst (λ n. tracked ≤ℤ n) (sym (adopt-next r next))
                (stale-plausible tracked next f p),
          λ p. adopt-next r next,
          adopt-credits r next,
        ))

  -- A report of a boundary above 0 takes the cycle, rolled to now, forward only: a believable
  -- boundary is never replaced by an earlier one, a missing or unbelievable one is replaced by the
  -- report, and the cycle's credits are reset only if the boundary moves on by a week or more.
  pub set_billing_cycle-MovesForward :
      (r : Recorder R) (next now : ℤ)
      → pos 0 <ℤ next
      → MovesForward
          (roll_cycle ops cal r.stats_data now).0
          (set_billing_cycle ops cal r next now).stats_data
          next
  unfolding set_billing_cycle
  set_billing_cycle-MovesForward r next now h =
      let f : leb_ℤ next (pos 0) ≡ false = ground arith in
      rw f (report-MovesForward (rolled_recorder r (roll_cycle ops cal r.stats_data now)) next)

  rolled-idle :
      (r : Recorder R) (now : ℤ)
      → due now r.stats_data.next_reset_ms ≡ false
      → rolled_recorder r (roll_cycle ops cal r.stats_data now) ≡ r
  unfolding rolled_recorder
  rolled-idle r now f =
      ap (rolled_recorder r) (roll-idle ops cal r.stats_data now f) ∙ rolled-same r

  stale_self : (next : ℤ) → stale_report next next ≡ true
  unfolding stale_report
  stale_self next = ground arith

  report-stale :
      (r : Recorder R) (next : ℤ)
      → stale_report r.stats_data.next_reset_ms next ≡ true
      → report ops cal r next ≡ r
  unfolding report
  report-stale r next t = rw t refl

  report-adopt :
      (r : Recorder R) (next : ℤ)
      → stale_report r.stats_data.next_reset_ms next ≡ false
      → report ops cal r next ≡ adopt ops cal r next
  unfolding report
  report-adopt r next f = rw f refl

  report-again :
      (r : Recorder R) (next : ℤ)
      → report ops cal (report ops cal r next) next ≡ report ops cal r next
  report-again r next =
      let again = λ (r' : Recorder R). report ops cal r' next in
      elim (Bool-cases (stale_report r.stats_data.next_reset_ms next)) [
        | inl t ↦ ap again (report-stale r next t)
        | inr f ↦
            ap again (report-adopt r next f)
            ∙ report-stale (adopt ops cal r next) next (
                subst (λ n. stale_report n next ≡ true) (sym (adopt-next r next)) (stale_self next))
            ∙ sym (report-adopt r next f)
      ]

  report-due :
      (r : Recorder R) (next now : ℤ)
      → now <ℤ next
      → due now r.stats_data.next_reset_ms ≡ false
      → due now (report ops cal r next).stats_data.next_reset_ms ≡ false
  unfolding report
  report-due r next now ahead f =
      if-elim (λ (r' : Recorder R). due now r'.stats_data.next_reset_ms ≡ false)
        (stale_report r.stats_data.next_reset_ms next) (λ _. f)
        (λ _.
          subst (λ n. due now n ≡ false) (sym (adopt-next r next))
            (due-IsAhead now next (inr ahead)))

  set-report :
      (r : Recorder R) (next now : ℤ)
      → pos 0 <ℤ next
      → due now r.stats_data.next_reset_ms ≡ false
      → set_billing_cycle ops cal r next now ≡ report ops cal r next
  unfolding set_billing_cycle
  set-report r next now h f =
      let g : leb_ℤ next (pos 0) ≡ false = ground arith in
      rw g (ap (λ r'. report ops cal r' next) (rolled-idle r now f))

  -- Reporting a boundary that is still to come once more, at the same instant, changes nothing.
  pub set_billing_cycle-again :
      (r : Recorder R) (next now : ℤ)
      → pos 0 <ℤ next
      → now <ℤ next
      → let r' = set_billing_cycle ops cal r next now in set_billing_cycle ops cal r' next now ≡ r'
  unfolding set_billing_cycle
  set_billing_cycle-again r next now h ahead =
      let f : leb_ℤ next (pos 0) ≡ false = ground arith in
      let r1 = rolled_recorder r (roll_cycle ops cal r.stats_data now) in
      let settled = report-due r1 next now ahead (roll-due ops cal r.stats_data now) in
      rw f (
        ap (λ r'. report ops cal r' next) (rolled-idle (report ops cal r1 next) now settled)
        ∙ report-again r1 next)
