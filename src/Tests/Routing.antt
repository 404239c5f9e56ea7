-- ===== src/Tests/Routing.antt =====
-- routing.go and models/route.go on two accounts, one in each region.
use qoder_2api_go.Prelude.{
  ℕ, ◌+◌, ◌≤◌, ◌<◌, ◌≡◌, ◌≢◌, ◌↔◌, refl, sym, ap, Bool, true, false, Option, none, some, List, [],
  ◌∷◌, ◌++◌, if-elim, In, arith, inl, inr, if◌then◌else◌, map, length, replicate,
}
use qoder_2api_go.Prelude.Int.{pos}
use qoder_2api_go.Text.{Text, codes, text_eq, text_eq_iff}
use qoder_2api_go.Dict.{Dict, empty, lookup, get_or}
use qoder_2api_go.Float.{whole_credits}
use qoder_2api_go.Region.{region_auto, region_prefixes, parse_region_prefix}
use qoder_2api_go.Region.Parse.{Parsed, parse_region_prefix-Parsed}
use qoder_2api_go.Store.Account.{Account, AccountSnapshot}
use qoder_2api_go.Store.AutoSwitch.{strategy_sticky}
use qoder_2api_go.Router.State.{Router, Binding, Deps, new_router}
use qoder_2api_go.Router.Rotate.{account_by_id}
use qoder_2api_go.Router.Pick.{Request, pick, sticky_step}
use qoder_2api_go.Router.Bind.{bind}
use qoder_2api_go.Router.Safety.{IsRoutable, pick-IsRoutable}
use qoder_2api_go.Router.Availability.{CanRoute, pick-routes_iff}
use qoder_2api_go.Router.Capacity.{Covers}
use qoder_2api_go.Router.Served.{Watched, note_bind, note_reuse}
use qoder_2api_go.Router.Quota.{Reach-IsWithin, start, next, reuses, binds}
use qoder_2api_go.Router.Rounds.{Round, binding_of, Alive, serve_rounds, quota_exact}

abbrev account_of : Text → Text → ℕ → Account ℕ
account_of id region weight = record {
  id = id;
  pat = codes "pat";
  note = [];
  region = region;
  weight = pos weight;
  created_at = pos 0;
  snapshot = none;
  auto_checkin = false;
  checkin_time = [];
  last_checkin_at = pos 0;
  last_checkin_status = [];
  last_checkin_msg = [];
}

abbrev first_account : Account ℕ
first_account = account_of (codes "a1") (codes "cn") 1

abbrev second_account : Account ℕ
second_account = account_of (codes "a2") (codes "global") 3

-- An account that has credits, and may rest until an instant.
abbrev snapshot_of : ℕ → AccountSnapshot ℕ
snapshot_of cooldown = record {
  remaining = 500;
  total = 1000;
  plan = codes "Teams";
  is_exceeded = false;
  next_reset_at_ms = pos 0;
  checked_at = pos 0;
  cooldown_until = pos cooldown;
  last_error = [];
}

-- The first account rests until second 100, the second is free.
abbrev two_accounts : Deps ℕ
two_accounts = record {
  accounts = first_account ∷ second_account ∷ [];
  snapshot = λ id. if text_eq id (codes "a1") then some (snapshot_of 100) else some (snapshot_of 0);
  bridge = λ acc. none;
  config = record {
    enabled = true;
    threshold = 20;
    strategy = strategy_sticky;
    sticky_limit = pos 2;
    max_retry_accounts = pos 3;
  };
  digest = λ t. t;
}

abbrev ask : Request
ask = record {
  api_key_id = codes "k";
  bare_model = codes "auto";
  seed = codes "s";
  region_filter = region_auto;
}

abbrev instant : ℕ
instant = 5_000_000_000

-- The resting account is passed over.
pick-IsRoutable_example : IsRoutable two_accounts ask (λ id. false) instant second_account
unfolding pick qoder_2api_go.Router.Candidates.pick_from qoder_2api_go.Prelude.filter
    qoder_2api_go.Router.Candidates.supports_model qoder_2api_go.Router.Candidates.usable_candidates
    qoder_2api_go.Router.Candidates.relax qoder_2api_go.Router.Candidates.region_base
    qoder_2api_go.Router.Candidates.usable text_eq lookup qoder_2api_go.Router.Pick.sticky_key_for
    new_router qoder_2api_go.Store.Account.account_weight get_or
pick-IsRoutable_example =
    pick-IsRoutable whole_credits two_accounts new_router ask (λ id. false) instant second_account
      (codes "k" ++ (0 ∷ codes "s")) refl

-- The free account of the other region can take the request.
pick-routes_iff_example :
    ((pick whole_credits two_accounts new_router ask (λ id. false) instant).1 ≢ none)
    ↔ CanRoute whole_credits two_accounts ask (λ id. false) instant
pick-routes_iff_example =
    pick-routes_iff whole_credits two_accounts new_router ask (λ id. false) instant

abbrev in_order : Dict Binding → List Text
in_order = map (λ (k, b). k)

in_order-Covers : (m : Dict Binding) → Covers (in_order m) m
unfolding lookup
in_order-Covers [] k b = λ e. absurd (cc e)
in_order-Covers ((j, v) ∷ m) k b =
    if-elim (λ (o : Option Binding). o ≡ some b → In k (j ∷ in_order m)) (text_eq j k)
      (λ t e. inl (sym ((text_eq_iff j k).0 t))) (λ f e. inr (in_order-Covers m k b e))

abbrev bound_once : Watched
bound_once = record {
  router = bind in_order new_router (codes "s") (codes "a2") instant;
  served = note_bind (codes "s") (codes "a2") instant none (λ k. 0);
}

abbrev reused : Watched
reused =
    let (r, acc) =
      sticky_step two_accounts bound_once.router (codes "s") instant (second_account ∷ []) in
    record { router = r; served = note_reuse (codes "s") acc bound_once.served }

-- A request succeeds and binds; the next one reuses the binding.
Reach-IsWithin_example :
    (length reused.router.sticky ≤ 10000)
    × ((key : Text) (b : Binding)
        → lookup key reused.router.sticky ≡ some b
        → reused.served key ≤ 2)
unfolding new_router lookup
Reach-IsWithin_example = Reach-IsWithin two_accounts 2 refl (omega arith) (
    next
      (next (start {w = record { router = new_router; served = λ k. 0 }} refl)
        (binds in_order (codes "s") (codes "a2") instant in_order-Covers refl))
      (reuses (codes "s") instant (second_account ∷ []) refl))

abbrev bound : Router
bound = record {
  sticky = (codes "s", binding_of (codes "a2") 1 (instant + 10)) ∷ [];
  cursor = empty;
  wrr = empty;
}

abbrev round : Round ℕ
round = record {
  now = instant;
  candidates = first_account ∷ second_account ∷ [];
  bound = some (instant + 5);
}

-- With a limit of two, one more request is served, and the next rotates.
quota_exact_example :
    let (r', ids) = serve_rounds two_accounts in_order (codes "s") (round ∷ round ∷ []) bound in
    (ids ≡ some (codes "a2") ∷ none ∷ []) × (lookup (codes "s") r'.sticky ≡ none)
unfolding text_eq lookup account_by_id Alive
quota_exact_example =
    quota_exact two_accounts in_order (codes "s") 2 refl (omega arith) refl refl (codes "a2") refl
      (round ∷ []) round bound 1 (instant + 10) refl refl
      (omega arith, ((second_account, refl), (omega arith, tt)))

abbrev route : Text
route = codes "auto|auto"

abbrev after_first : Router
after_first = record { sticky = empty; cursor = (route, codes "a1") ∷ []; wrr = empty }

parse_region_prefix-Parsed_example :
    let (f, bare) = parse_region_prefix (codes "gl/auto") in
    Parsed (codes "gl/auto") region_prefixes f bare
parse_region_prefix-Parsed_example = parse_region_prefix-Parsed (codes "gl/auto")
