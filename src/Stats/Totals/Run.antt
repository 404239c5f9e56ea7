-- ===== src/Stats/Totals/Run.antt =====
-- stats/stats.go: the counters agree whatever the recorder is told.
use qoder_2api_go.Prelude.{
  ℕ, zero, suc, Bool, true, false, Option, none, some, List, [], ◌∷◌, Bool-cases, inl, inr, if-elim,
}
use qoder_2api_go.Prelude.Int.{ℤ, pos}
use qoder_2api_go.Text.{Text}
use qoder_2api_go.Dict.Entries.{All-filter}
use qoder_2api_go.Float.{FloatOps}
use qoder_2api_go.Stats.Data.{Account, Data, Usage, Recorder}
use qoder_2api_go.Stats.Calendar.{Calendar, leb_ℤ, eq_ℤ, next_cycle_boundary}
use qoder_2api_go.Stats.Cycle.{
  due, stale_report, max_cycle_catch_ups, roll_cycle, set_billing_cycle, roll_loop, adopt, report,
  rolled_recorder, passed_cycle,
}
use qoder_2api_go.Stats.Record.{
  record_request, add_tokens, add_lifetime, record_usage, set_account, clear_known, clear_account,
  prune, begin_flush, end_flush,
}
use qoder_2api_go.Stats.Totals.{
  IsConsistent, with_cycle-IsConsistent, end_roll-IsConsistent, add_tokens-IsConsistent,
  add_lifetime-IsConsistent, attribute-IsConsistent, record_request-IsConsistent,
}

-- The calls of a recorder, with the instants they read.
pub data Call (R : Type 0) : Type 0 where
  requests : Text → Bool → ℤ → Call R
  charges : Text → Option (Usage R) → ℤ → Call R
  boundary : ℤ → ℤ → Call R
  accounts : Option (Account R) → Call R
  clears : Call R
  flushes : Text → Call R
  saved : Bool → Call R

module _ {R : Type 0} (ops : FloatOps R) (cal : Calendar) (hour_key : ℤ → Text) where
  unfoldable pub apply : Recorder R → Call R → Recorder R
  unfolding record_request record_usage set_billing_cycle set_account clear_account begin_flush
      end_flush
  apply r (requests model ok now) = record_request ops hour_key r model ok now
  apply r (charges model u now) = record_usage ops cal hour_key r model u now
  apply r (boundary next now) = set_billing_cycle ops cal r next now
  apply r (accounts a) = set_account r a
  apply r clears = clear_account r
  apply r (flushes cutoff) = (begin_flush r cutoff).0
  apply r (saved ok) = end_flush r ok

  unfoldable pub run : Recorder R → List (Call R) → Recorder R
  unfolding apply
  run r [] = r
  run r (c ∷ cs) = run (apply r c) cs

module _ {R : Type 0} (ops : FloatOps R) (cal : Calendar) where
  loop-IsConsistent :
      (k n : ℕ) (now : ℤ) (d : Data R) (b : Bool)
      → IsConsistent n d
      → IsConsistent n (roll_loop ops cal k now d b).0
  unfolding roll_loop
  loop-IsConsistent zero n now d b v = end_roll-IsConsistent n now d b v
  loop-IsConsistent (suc k) n now d b v = elim (Bool-cases (due now d.next_reset_ms)) [
    | inr f ↦ rw (f, roll_loop) (end_roll-IsConsistent n now d b v)
    | inl t ↦
        let adv = next_cycle_boundary cal d.next_reset_ms in
        let passed =
          λ (next : ℤ). with_cycle-IsConsistent n d next d.next_reset_ms (ops.of_ℕ 0) v in
        elim (Bool-cases (eq_ℤ adv (pos 0))) [
          | inl z ↦ rw (t, z, roll_loop) (passed (pos 0))
          | inr l ↦
              rw (t, l, roll_loop)
                (loop-IsConsistent k n now (passed_cycle ops cal d adv) true (passed adv))
        ]
  ]

  roll-IsConsistent :
      (n : ℕ) (now : ℤ) (d : Data R)
      → IsConsistent n d
      → IsConsistent n (roll_cycle ops cal d now).0
  unfolding roll_cycle
  roll-IsConsistent n now d v = loop-IsConsistent max_cycle_catch_ups n now d false v

  record_usage-IsConsistent :
      (hour_key : ℤ → Text) (r : Recorder R) (model : Text) (u : Option (Usage R)) (now : ℤ)
      → IsConsistent 0 r.stats_data
      → IsConsistent 0 (record_usage ops cal hour_key r model u now).stats_data
  unfolding record_usage
  record_usage-IsConsistent hour_key r model none now v = v
  record_usage-IsConsistent hour_key r model (some u) now v =
      let d = add_tokens r.stats_data u in
      let w = add_tokens-IsConsistent r.stats_data u v in
      if-elim (IsConsistent 0) u.non_billable (λ _. w)
        (λ _.
          attribute-IsConsistent ops model (hour_key now) u.credits
            (roll_cycle ops cal (add_lifetime ops u.credits d) now).0
            (roll-IsConsistent 1 now (add_lifetime ops u.credits d)
              (add_lifetime-IsConsistent ops u.credits d w)))

  report-IsConsistent :
      (r : Recorder R) (next : ℤ)
      → IsConsistent 0 r.stats_data
      → IsConsistent 0 (report ops cal r next).stats_data
  unfolding report adopt
  report-IsConsistent r next v =
      if-elim (λ (r' : Recorder R). IsConsistent 0 r'.stats_data)
        (stale_report r.stats_data.next_reset_ms next) (λ _. v)
        (λ _. with_cycle-IsConsistent 0 r.stats_data next _ _ v)

  set_billing_cycle-IsConsistent :
      (r : Recorder R) (next now : ℤ)
      → IsConsistent 0 r.stats_data
      → IsConsistent 0 (set_billing_cycle ops cal r next now).stats_data
  unfolding set_billing_cycle rolled_recorder
  set_billing_cycle-IsConsistent r next now v =
      if-elim (λ (r' : Recorder R). IsConsistent 0 r'.stats_data) (leb_ℤ next (pos 0)) (λ _. v)
        (λ _.
          report-IsConsistent (rolled_recorder r (roll_cycle ops cal r.stats_data now)) next
            (roll-IsConsistent 0 now r.stats_data v))

module _ {R : Type 0} where
  account-IsConsistent :
      (d : Data R) (a : Option (Account R))
      → IsConsistent 0 d
      → IsConsistent 0 (record d { account = a })
  account-IsConsistent d a v = record {
    totals = v.totals;
    models = v.models;
    hours = v.hours;
    by_models = v.by_models;
    billed = v.billed;
  }

  clear_known-IsConsistent :
      (r : Recorder R) (o : Option (Account R))
      → IsConsistent 0 r.stats_data
      → IsConsistent 0 (clear_known r o).stats_data
  unfolding clear_known
  clear_known-IsConsistent r none v = v
  clear_known-IsConsistent r (some a) v = account-IsConsistent r.stats_data none v

  prune-IsConsistent :
      (cutoff : Text) (d : Data R) → IsConsistent 0 d → IsConsistent 0 (prune cutoff d)
  unfolding prune
  prune-IsConsistent cutoff d v = record {
    totals = v.totals;
    models = v.models;
    hours = All-filter _ _ d.hourly v.hours;
    by_models = v.by_models;
    billed = v.billed;
  }

module _ {R : Type 0} (ops : FloatOps R) (cal : Calendar) (hour_key : ℤ → Text) where
  apply-IsConsistent :
      (r : Recorder R) (c : Call R)
      → IsConsistent 0 r.stats_data
      → IsConsistent 0 (apply ops cal hour_key r c).stats_data
  unfolding apply set_account clear_account begin_flush end_flush
  apply-IsConsistent r (requests model ok now) v =
      record_request-IsConsistent ops hour_key r model ok now v
  apply-IsConsistent r (charges model u now) v =
      record_usage-IsConsistent ops cal hour_key r model u now v
  apply-IsConsistent r (boundary next now) v = set_billing_cycle-IsConsistent ops cal r next now v
  apply-IsConsistent r (accounts none) v = v
  apply-IsConsistent r (accounts (some a)) v = account-IsConsistent r.stats_data (some a) v
  apply-IsConsistent r clears v = clear_known-IsConsistent r r.stats_data.account v
  apply-IsConsistent r (flushes cutoff) v =
      if-elim (λ (q : Recorder R × Option (Data R)). IsConsistent 0 q.0.stats_data) r.dirty
        (λ _. prune-IsConsistent cutoff r.stats_data v) (λ _. v)
  apply-IsConsistent r (saved ok) v =
      if-elim (λ (r' : Recorder R). IsConsistent 0 r'.stats_data) ok (λ _. v) (λ _. v)

  -- Whatever a consistent recorder is told, every total is the sum of its successes and its
  -- failures, for the service, each model and each hour, and the models' requests and charges add
  -- up to the service's.
  pub run-IsConsistent :
      (r : Recorder R) (cs : List (Call R))
      → IsConsistent 0 r.stats_data
      → IsConsistent 0 (run ops cal hour_key r cs).stats_data
  unfolding run
  run-IsConsistent r [] v = v
  run-IsConsistent r (c ∷ cs) v =
      run-IsConsistent (apply ops cal hour_key r c) cs (apply-IsConsistent r c v)
