-- ===== src/Stats/Rolling.antt =====
-- stats/stats.go: what rolling the cycle does, and that a report agrees with it.
use qoder_2api_go.Prelude.{
  ℕ, zero, suc, ◌+◌, ◌<◌, ◌≡◌, refl, Bool, true, false, arith, Bool-cases, ◌⊎◌, inl, inr, if-elim,
}
use qoder_2api_go.Prelude.Int.{ℤ, pos, ◌≤ℤ◌, pos_part, neg_part}
use qoder_2api_go.Float.{FloatOps}
use qoder_2api_go.Stats.Data.{Data}
use qoder_2api_go.Stats.Calendar.{Calendar, eq_ℤ, next_cycle_boundary}
use qoder_2api_go.Stats.Cycle.{
  Projection, due, end_projection, project_loop, project_cycle, end_roll, roll_loop, roll_cycle,
  passed_cycle, max_cycle_catch_ups,
}

infix 50 ◌<ℤ◌
abbrev pub ◌<ℤ◌ : ℤ → ℤ → Type 0
a <ℤ b = pos_part a + neg_part b < pos_part b + neg_part a

abbrev pub IsAhead : ℤ → ℤ → Type 0
IsAhead now next = (next ≤ℤ pos 0) ⊎ (now <ℤ next)

IsAhead-due : (now next : ℤ) → due now next ≡ false → IsAhead now next
unfolding due
IsAhead-due now next f = ground arith

pub due-IsAhead : (now next : ℤ) → IsAhead now next → due now next ≡ false
unfolding due
due-IsAhead now next h = ground arith

not-due_zero : (now : ℤ) → due now (pos 0) ≡ false
unfolding due
not-due_zero now = ground arith

-- The cycle of a snapshot.
abbrev pub cycle_of : {R : Type 0} → Data R → Projection R
cycle_of d = record {
  cycle_credits = d.cycle_credits;
  start_ms = d.cycle_start_ms;
  next_ms = d.next_reset_ms;
}

module _ {R : Type 0} (ops : FloatOps R) (cal : Calendar) where
  end-unset :
      (now : ℤ) (credits : R) (start : ℤ)
      → let p : Projection R = record {
        cycle_credits = credits;
        start_ms = start;
        next_ms = pos 0;
      } in
        end_projection now p ≡ p
  unfolding end_projection
  end-unset now credits start = rw (not-due_zero now) refl

  end-agrees :
      (now : ℤ) (d : Data R) (b : Bool)
      → end_projection now (cycle_of d) ≡ cycle_of (end_roll now d b).0
  unfolding end_projection end_roll
  end-agrees now d b = elim (Bool-cases (due now d.next_reset_ms)) [
    | inl t ↦ rw t refl
    | inr f ↦ rw f refl
  ]

  loop-agrees :
      (n : ℕ) (now : ℤ) (d : Data R) (b : Bool)
      → project_loop ops cal n now (cycle_of d) ≡ cycle_of (roll_loop ops cal n now d b).0
  unfolding project_loop roll_loop
  loop-agrees zero now d b = end-agrees now d b
  loop-agrees (suc n) now d b = elim (Bool-cases (due now d.next_reset_ms)) [
    | inr f ↦ rw (f, project_loop, roll_loop) (end-agrees now d b)
    | inl t ↦
        let adv = next_cycle_boundary cal d.next_reset_ms in
        elim (Bool-cases (eq_ℤ adv (pos 0))) [
          | inl z ↦ rw (t, z, project_loop, roll_loop) (end-unset now (ops.of_ℕ 0) d.next_reset_ms)
          | inr l ↦
              rw (t, l, project_loop, roll_loop)
                (loop-agrees n now (passed_cycle ops cal d adv) true)
        ]
  ]

  -- A report shows the cycle that the next write stores: projecting it and rolling it give the same
  -- credits, start and boundary, however many cycles were missed.
  pub project-roll :
      (d : Data R) (now : ℤ) → project_cycle ops cal d now ≡ cycle_of (roll_cycle ops cal d now).0
  unfolding project_cycle roll_cycle
  project-roll d now = loop-agrees max_cycle_catch_ups now d false

  end_roll-due :
      (now : ℤ) (d : Data R) (b : Bool) → due now (end_roll now d b).0.next_reset_ms ≡ false
  unfolding end_roll
  end_roll-due now d b =
      if-elim (λ (q : Data R × Bool). due now q.0.next_reset_ms ≡ false) (due now d.next_reset_ms)
        (λ _. not-due_zero now) (λ f. f)

  loop-due :
      (n : ℕ) (now : ℤ) (d : Data R) (b : Bool)
      → due now (roll_loop ops cal n now d b).0.next_reset_ms ≡ false
  unfolding roll_loop
  loop-due zero now d b = end_roll-due now d b
  loop-due (suc n) now d b = elim (Bool-cases (due now d.next_reset_ms)) [
    | inr f ↦ rw (f, roll_loop) (end_roll-due now d b)
    | inl t ↦
        let adv = next_cycle_boundary cal d.next_reset_ms in
        elim (Bool-cases (eq_ℤ adv (pos 0))) [
          | inl z ↦ rw (t, z, roll_loop) (not-due_zero now)
          | inr l ↦ rw (t, l, roll_loop) (loop-due n now (passed_cycle ops cal d adv) true)
        ]
  ]

  end_roll-idle :
      (now : ℤ) (d : Data R) (b : Bool)
      → due now d.next_reset_ms ≡ false
      → end_roll now d b ≡ (d, b)
  unfolding end_roll
  end_roll-idle now d b f = rw f refl

  loop-idle :
      (n : ℕ) (now : ℤ) (d : Data R) (b : Bool)
      → due now d.next_reset_ms ≡ false
      → roll_loop ops cal n now d b ≡ (d, b)
  unfolding roll_loop
  loop-idle zero now d b f = end_roll-idle now d b f
  loop-idle (suc n) now d b f = rw (f, roll_loop) (end_roll-idle now d b f)

  pub roll-idle :
      (d : Data R) (now : ℤ)
      → due now d.next_reset_ms ≡ false
      → roll_cycle ops cal d now ≡ (d, false)
  unfolding roll_cycle
  roll-idle d now f = loop-idle max_cycle_catch_ups now d false f

  pub roll-due : (d : Data R) (now : ℤ) → due now (roll_cycle ops cal d now).0.next_reset_ms ≡ false
  unfolding roll_cycle
  roll-due d now = loop-due max_cycle_catch_ups now d false

  -- Rolling ends with no boundary or with one in the future, and a cycle is rolled over once: until
  -- the instant of the new boundary a roll changes nothing.
  pub roll-once :
      (d : Data R) (now : ℤ)
      → let d' = (roll_cycle ops cal d now).0 in
        IsAhead now d'.next_reset_ms
        × ((later : ℤ) → IsAhead later d'.next_reset_ms → roll_cycle ops cal d' later ≡ (d', false))
  roll-once d now =
      let d' = (roll_cycle ops cal d now).0 in
      (
        IsAhead-due now d'.next_reset_ms (roll-due d now),
        λ later h. roll-idle d' later (due-IsAhead later d'.next_reset_ms h),
      )
