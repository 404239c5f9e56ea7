-- ===== src/Router/Rounds.antt =====
-- routing.go: how long a conversation stays on its account.
use qoder_2api_go.Prelude.{
  ℕ, ◌+◌, ◌≤◌, ◌<◌, ◌≡◌, refl, ap, ◌∙◌, true, false, ◌&&◌, Option, none, some, List, [], ◌∷◌, ◌++◌,
  length, if-elim, arith, ltb, replicate,
}
use qoder_2api_go.Prelude.Int.{pos, ltb_ℤ}
use qoder_2api_go.Text.{Text, is_empty, text_eq, text_eq_refl}
use qoder_2api_go.Dict.{Dict, lookup, insert, delete, lookup-insert, lookup-delete}
use qoder_2api_go.Store.Account.{Account}
use qoder_2api_go.Store.AutoSwitch.{strategy_round_robin}
use qoder_2api_go.Router.State.{Router, Binding, Deps, sticky_ttl}
use qoder_2api_go.Router.Rotate.{account_by_id}
use qoder_2api_go.Router.Membership.{account_by_id-In}
use qoder_2api_go.Router.Pick.{serve_bound, reuse, sticky_step}
use qoder_2api_go.Router.Bind.{refreshes, count_of, bind}

-- A request of a conversation: its candidates and instant when it is routed, and the instant at which
-- it binds, if it succeeds.
pub record Round (R : Type 0) : Type 0 where
  pub now : ℕ
  pub candidates : List (Account R)
  pub bound : Option ℕ

abbrev pub binding_of : Text → ℕ → ℕ → Binding
binding_of account n expires = record { account_id = account; count = n; expires_at = expires }

abbrev pub served_by : {R : Type 0} → Option (Account R) → Option Text
served_by none = none
served_by (some acc) = some acc.id

-- When a binding expires after a request that binds it, or not, and whether that is in time.
abbrev pub renewed : ℕ → Option ℕ → ℕ
renewed expires none = expires
renewed expires (some t) = t + sticky_ttl

abbrev pub IsTimely : ℕ → Option ℕ → Type 0
IsTimely expires none = Unit
IsTimely expires (some t) = t < expires

-- The account is a candidate of each request, and its binding has not expired when a request is routed
-- nor when it binds.
module _ {R : Type 0} where
  unfoldable pub Alive : Text → ℕ → List (Round R) → Type 0
  Alive account expires [] = Unit
  Alive account expires (q ∷ qs) =
      (q.now ≤ expires)
      × (((acc : Account R) × (account_by_id q.candidates account ≡ some acc))
          × (IsTimely expires q.bound × Alive account (renewed expires q.bound) qs))

module _ {R : Type 0} (deps : Deps R) (order : Dict Binding → List Text) (key : Text) where
  abbrev bind_served : Router → Option (Account R) → Option ℕ → Router
  bind_served r (some acc) (some t) = bind order r key acc.id t
  bind_served r _ _ = r

  -- A request of the conversation: the sticky block, and the binding after a success.
  unfoldable pub serve_round : Round R → Router → Router × Option Text
  serve_round q r =
      let (r', acc) = sticky_step deps r key q.now q.candidates in
      (bind_served r' acc q.bound, served_by acc)

  -- The requests of a conversation, one after another, with the account that each is sent to.
  pub serve_rounds : List (Round R) → Router → Router × List (Option Text)
  serve_rounds [] r = (r, [])
  serve_rounds (q ∷ qs) r =
      let (r', id) = serve_round q r in let (r'', rest) = serve_rounds qs r' in (r'', id ∷ rest)

  module _ (limit : ℕ) (at_limit : deps.config.sticky_limit ≡ pos limit) (low : 0 < limit)
      (sticky_mode : text_eq deps.config.strategy strategy_round_robin ≡ false)
      (keyed : is_empty key ≡ false) (account : Text) (named : is_empty account ≡ false) where
    serves :
        (r : Router) (n expires : ℕ) (q : Round R) (acc : Account R)
        → lookup key r.sticky ≡ some (binding_of account n expires)
        → q.now ≤ expires
        → account_by_id q.candidates account ≡ some acc
        → n + 1 ≤ limit
        → sticky_step deps r key q.now q.candidates ≡ (
          record r { sticky = insert key (binding_of account (n + 1) expires) r.sticky },
          some acc,
        )
    unfolding sticky_step reuse serve_bound
    serves r n expires q acc e alive found room =
        let live : ltb expires q.now ≡ false = ground arith in
        rw (sticky_mode, e, live, found, at_limit) (ground arith)

    rebinds :
        (r : Router) (n expires t : ℕ)
        → lookup key r.sticky ≡ some (binding_of account n expires)
        → t < expires
        → bind order r key account t
          ≡ record r { sticky = insert key (binding_of account n (t + sticky_ttl)) r.sticky }
    unfolding bind refreshes count_of
    rebinds r n expires t e live =
        let alive : ltb t expires ≡ true = ground arith in
        rw (keyed, named, e, alive, text_eq_refl) refl

    found_after : (r : Router) (b : Binding) → lookup key (insert key b r.sticky) ≡ some b
    found_after r b = lookup-insert key key b r.sticky ∙ rw text_eq_refl refl

    binding_after :
        (r : Router) (n expires : ℕ) (acc : Account R) (bound : Option ℕ)
        → lookup key r.sticky ≡ some (binding_of account n expires)
        → acc.id ≡ account
        → IsTimely expires bound
        → lookup key (bind_served r (some acc) bound).sticky
          ≡ some (binding_of account n (renewed expires bound))
    binding_after r n expires acc none e same timely = e
    binding_after r n expires acc (some t) e same timely =
        rw (same, rebinds r n expires t e timely)
          (found_after r (binding_of account n (t + sticky_ttl)))

    -- A request that is served leaves the binding with one more.
    round-Served :
        (r : Router) (n expires : ℕ) (q : Round R)
        → lookup key r.sticky ≡ some (binding_of account n expires)
        → q.now ≤ expires
        → (acc : Account R) × (account_by_id q.candidates account ≡ some acc)
        → IsTimely expires q.bound
        → n + 1 ≤ limit
        → (lookup key (serve_round q r).0.sticky
            ≡ some (binding_of account (n + 1) (renewed expires q.bound)))
          × ((serve_round q r).1 ≡ some account)
    unfolding serve_round
    round-Served r n expires q e alive (acc, found) timely room =
        let same = (account_by_id-In q.candidates account found).1 in
        let b = binding_of account (n + 1) expires in
        let r' = record r { sticky = insert key b r.sticky } in
        rw (serves r n expires q acc e alive found room)
          (binding_after r' (n + 1) expires acc q.bound (found_after r b) same timely, ap some same)

    full_now : (ltb_ℤ (pos 0) (pos limit) && ltb_ℤ (pos limit) (pos (limit + 1))) ≡ true
    full_now = ground arith

    -- The next one is passed on, whatever it finds.
    serve_bound-full :
        (r : Router) (expires : ℕ) (o : Option (Account R))
        → serve_bound deps r key (binding_of account limit expires) o
          ≡ (record r { sticky = delete key r.sticky }, none)
    unfolding serve_bound
    serve_bound-full r expires none = refl
    serve_bound-full r expires (some acc) = rw (at_limit, full_now) refl

    round-full :
        (r : Router) (expires : ℕ) (q : Round R)
        → lookup key r.sticky ≡ some (binding_of account limit expires)
        → sticky_step deps r key q.now q.candidates
          ≡ (record r { sticky = delete key r.sticky }, none)
    unfolding sticky_step reuse
    round-full r expires q e =
        rw (sticky_mode, e)
          (if-elim
            (λ (p : Router × Option (Account R)).
              p ≡ (record r { sticky = delete key r.sticky }, none))
            (ltb expires q.now) (λ _. refl)
            (λ _. serve_bound-full r expires (account_by_id q.candidates account)))

    last-full :
        (r : Router) (expires : ℕ) (q : Round R)
        → lookup key r.sticky ≡ some (binding_of account limit expires)
        → serve_round q r ≡ (record r { sticky = delete key r.sticky }, none)
    unfolding serve_round
    last-full r expires q e = rw (round-full r expires q e) refl

    -- Outside of round-robin, a conversation whose binding has served `n` of its `StickyLimit`
    -- requests stays on the account for exactly the rest of them, each with its own candidates and
    -- instant, and whether or not it binds again afterwards: while the account is a candidate and the
    -- binding has not expired, each of them is sent to it. The sticky block sends the request behind
    -- them to no account, which leaves it to the rotation, and the binding is gone. The limit
    -- is above 0, and neither the key nor the account is empty.
    pub quota_exact :
        (qs : List (Round R)) (last : Round R) (r : Router) (n expires : ℕ)
        → lookup key r.sticky ≡ some (binding_of account n expires)
        → n + length qs ≡ limit
        → Alive account expires qs
        → ((serve_rounds (qs ++ last ∷ []) r).1 ≡ replicate (length qs) (some account) ++ none ∷ [])
          × (lookup key (serve_rounds (qs ++ last ∷ []) r).0.sticky ≡ none)
    unfolding serve_rounds Alive
    quota_exact [] last r n expires e full alive =
        let e' : lookup key r.sticky ≡ some (binding_of account limit expires) =
          e ∙ ap (λ m. some (binding_of account m expires)) (omega (arith, full)) in
        rw (last-full r expires last e')
          (refl, lookup-delete key key r.sticky ∙ rw text_eq_refl refl)
    quota_exact (q ∷ qs) last r n expires e full (alive, (found, (timely, rest))) =
        let (kept, sent) = round-Served r n expires q e alive found timely (omega (arith, full)) in
        let (ids, gone) =
          quota_exact qs last (serve_round q r).0 (n + 1) (renewed expires q.bound) kept
            (omega (arith, full)) rest in
        (rw sent (ap (λ (l : List (Option Text)). some account ∷ l) ids), gone)
