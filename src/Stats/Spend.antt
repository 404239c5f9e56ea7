-- ===== src/Stats/Spend.antt =====
-- stats/stats.go: what a cycle's spend adds up to.
use qoder_2api_go.Prelude.{
  ◌≡◌, refl, sym, ap, ◌∙◌, subst, Bool, true, false, some, List, [], ◌∷◌, All, if◌then◌else◌,
}
use qoder_2api_go.Prelude.Int.{ℤ}
use qoder_2api_go.Text.{Text}
use qoder_2api_go.Float.{FloatOps}
use qoder_2api_go.Stats.Data.{Data, Usage, Recorder}
use qoder_2api_go.Stats.Calendar.{Calendar}
use qoder_2api_go.Stats.Cycle.{Projection, due, roll_cycle, project_cycle}
use qoder_2api_go.Stats.Record.{add_tokens, add_lifetime, attribute, record_usage}
use qoder_2api_go.Stats.Rolling.{cycle_of, project-roll, roll-idle, IsAhead, due-IsAhead}

-- A usage frame with its model and the instant of its arrival.
pub record Frame (R : Type 0) : Type 0 where
  pub model : Text
  pub usage : Usage R
  pub at : ℤ

-- The cycle with other credits.
abbrev pub with_credits : {R : Type 0} → Projection R → R → Projection R
with_credits p c = record p { cycle_credits = c }

module _ {R : Type 0} (ops : FloatOps R) (cal : Calendar) (hour_key : ℤ → Text) where
  -- The frames, one after the other.
  abbrev pub use_all : Recorder R → List (Frame R) → Recorder R
  use_all r [] = r
  use_all r (f ∷ fs) = use_all (record_usage ops cal hour_key r f.model (some f.usage) f.at) fs

  -- Credits with those of a frame, if it is charged.
  abbrev pub charge : R → Usage R → R
  charge c u = if u.non_billable then c else ops.add c u.credits

  -- The credits of the frames, added in their order.
  abbrev pub spend : R → List (Frame R) → R
  spend c [] = c
  spend c (f ∷ fs) = spend (charge c f.usage) fs

  either-cycle :
      (b : Bool) (d d' : Data R) (p : Projection R) (c : R)
      → cycle_of d ≡ p
      → cycle_of d' ≡ with_credits p c
      → cycle_of (if b then d else d') ≡ with_credits p (if b then p.cycle_credits else c)
  either-cycle true d d' p c e e' = e
  either-cycle false d d' p c e e' = e'

  -- What one frame does to the cycle before its boundary.
  charge-cycle :
      (r : Recorder R) (f : Frame R)
      → due f.at r.stats_data.next_reset_ms ≡ false
      → cycle_of (record_usage ops cal hour_key r f.model (some f.usage) f.at).stats_data
        ≡ with_credits (cycle_of r.stats_data) (charge r.stats_data.cycle_credits f.usage)
  unfolding record_usage add_tokens add_lifetime attribute
  charge-cycle r f h =
      let u = f.usage in
      let d = add_lifetime ops u.credits (add_tokens r.stats_data u) in
      either-cycle u.non_billable (add_tokens r.stats_data u)
        (attribute ops f.model (hour_key f.at) u.credits (roll_cycle ops cal d f.at).0)
        (cycle_of r.stats_data) (ops.add r.stats_data.cycle_credits u.credits) refl
        (ap (λ (q : Data R × Bool). cycle_of (attribute ops f.model (hour_key f.at) u.credits q.0))
          (roll-idle ops cal d f.at h))

  use_all-cycle :
      (r : Recorder R) (fs : List (Frame R))
      → All (λ (f : Frame R). IsAhead f.at r.stats_data.next_reset_ms) fs
      → let p = cycle_of r.stats_data in
        cycle_of (use_all r fs).stats_data ≡ with_credits p (spend p.cycle_credits fs)
  use_all-cycle r [] h = refl
  use_all-cycle r (f ∷ fs) h =
      let r' = record_usage ops cal hour_key r f.model (some f.usage) f.at in
      let e = charge-cycle r f (due-IsAhead f.at r.stats_data.next_reset_ms h.0) in
      let ahead =
        subst (λ (p : Projection R). All (λ (g : Frame R). IsAhead g.at p.next_ms) fs) (sym e)
          h.1 in
      use_all-cycle r' fs ahead
      ∙ ap (λ (p : Projection R). with_credits p (spend p.cycle_credits fs)) e

  -- A report within the cycle shows the credits of the charged frames since, added to those that the
  -- cycle had, with the cycle's start and boundary. Frames that the gateway did not charge add
  -- nothing.
  pub project-spend :
      (r : Recorder R) (fs : List (Frame R)) (now : ℤ)
      → All (λ (f : Frame R). IsAhead f.at r.stats_data.next_reset_ms) fs
      → IsAhead now r.stats_data.next_reset_ms
      → let p = cycle_of r.stats_data in
        project_cycle ops cal (use_all r fs).stats_data now
        ≡ with_credits p (spend p.cycle_credits fs)
  project-spend r fs now h ahead =
      let d = (use_all r fs).stats_data in
      let e = use_all-cycle r fs h in
      let still =
        subst (λ (p : Projection R). due now p.next_ms ≡ false) (sym e)
          (due-IsAhead now r.stats_data.next_reset_ms ahead) in
      project-roll ops cal d now
      ∙ ap (λ (q : Data R × Bool). cycle_of q.0) (roll-idle ops cal d now still)
      ∙ e
