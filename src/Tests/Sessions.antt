-- ===== src/Tests/Sessions.antt =====
-- bridge/session.go: a session whose expiry has passed, and whose refresh token is rejected.
use qoder_2api_go.Prelude.{◌≡◌, refl, true, none, some, List, [], ◌∷◌, All, arith}
use qoder_2api_go.Prelude.Int.{ℤ, pos, ◌-ℤ◌}
use qoder_2api_go.Text.{codes}
use qoder_2api_go.Bridge.Session.{
  JobToken, Session, Gateway, refresh_failed, apply_job_token, force_refresh, needs_refresh,
}
use qoder_2api_go.Bridge.Session.Renewal.{requests, requests-fail}

abbrev exchanged : JobToken
exchanged = record {
  name = codes "n";
  id = codes "i";
  user_type = [];
  security_oauth = codes "new";
  refresh_token = codes "r";
  expire_ms = pos 90000000;
}

abbrev lapsed : Session
lapsed = record {
  bootstrapped = true;
  identity = some (record {
    name = codes "n";
    aid = codes "i";
    uid = codes "i";
    user_type = [];
    security_oauth = codes "old";
    refresh_token = codes "r0";
  });
  refresh_token = codes "r0";
  security_oauth = codes "old";
  expire_ms = pos 10000000;
  refreshed_ms = pos 1000;
}

abbrev rejecting : Gateway
rejecting = record { exchange = some exchanged; refresh = none }

abbrev two_calls : List (ℤ × Gateway)
two_calls = (pos 9000000, rejecting) ∷ (pos 12000000, rejecting) ∷ []

requests-fail_example :
    All (λ e. e ≡ some refresh_failed) (requests (λ id. []) two_calls lapsed).0
    × (((requests (λ id. []) two_calls lapsed).1 ≡ lapsed)
        × ((instant : ℤ) (g : Gateway) (jt : JobToken)
            → g.refresh ≡ none
            → g.exchange ≡ some jt
            → force_refresh (λ id. []) instant g lapsed
              ≡ (none, apply_job_token instant jt [] lapsed)))
unfolding needs_refresh ◌-ℤ◌
requests-fail_example =
    requests-fail (λ id. []) two_calls (pos 9000000) lapsed refl refl
      ((omega arith, refl), ((omega arith, refl), tt))
