-- ===== src/Router/Served.antt =====
-- routing.go: how many requests a binding has really served, told apart from the count that the code
-- keeps in it.
use qoder_2api_go.Prelude.{
  ℕ, ◌+◌, ◌≡◌, refl, subst, ◌∙◌, ap, Bool, true, false, ◌&&◌, ◌||◌, Option, none, some, List, [],
  ◌∷◌, Bool-cases, inl, inr, if-elim, some_inj, arith, ltb, leb, length, if◌then◌else◌,
}
use qoder_2api_go.Prelude.Int.{pos, ltb_ℤ}
use qoder_2api_go.Text.{Text, is_empty, text_eq, text_eq_iff, text_eq_refl}
use qoder_2api_go.Dict.{Dict, lookup, insert, delete, lookup-insert, lookup-delete}
use qoder_2api_go.Dict.Unique.{Unique, Unique-filter, Unique-delete, Unique-insert, lookup-filter}
use qoder_2api_go.Store.Account.{Account}
use qoder_2api_go.Store.AutoSwitch.{strategy_round_robin}
use qoder_2api_go.Router.State.{Router, Binding, Deps, sticky_capacity, sticky_ttl}
use qoder_2api_go.Router.Rotate.{account_by_id}
use qoder_2api_go.Router.Pick.{serve_bound, reuse, sticky_step}
use qoder_2api_go.Router.Bind.{
  count_of, drop_expired, drop_until_free, prune_sticky, refreshes, bind,
}

-- A router with, for each sticky key, the requests that its present binding has served.
pub record Watched : Type 0 where
  pub router : Router
  pub served : Text → ℕ

abbrev pub set_served : Text → ℕ → (Text → ℕ) → Text → ℕ
set_served key n served k = if text_eq key k then n else served k

-- A request that the sticky block sends on to an account is one more.
abbrev pub note_reuse {ℓ} : {A : Type ℓ} → Text → Option A → (Text → ℕ) → Text → ℕ
note_reuse key none served = served
note_reuse key (some acc) served = set_served key (served key + 1) served

-- A binding to the same account that has not expired goes on.
abbrev pub goes_on : Text → ℕ → Option Binding → Bool
goes_on account_id now none = false
goes_on account_id now (some b) = ltb now b.expires_at && text_eq b.account_id account_id

-- A request that binds its key makes a binding that has served this one request, unless one goes on.
abbrev pub note_bind : Text → Text → ℕ → Option Binding → (Text → ℕ) → Text → ℕ
note_bind key account_id now old served =
    if is_empty key || is_empty account_id
    then served
    else if goes_on account_id now old
    then served
    else set_served key 1 served

-- The keys are distinct, and every binding's count is the number of requests that it has served.
pub record Counts (served : Text → ℕ) (m : Dict Binding) : Type 0 where
  pub unique : Unique m
  pub exact : (k : Text) (b : Binding) → lookup k m ≡ some b → served k ≡ b.count

lookup-delete-some :
    (key k : Text) (m : Dict Binding) (b : Binding)
    → lookup k (delete key m) ≡ some b
    → lookup k m ≡ some b
lookup-delete-some key k m b e = ground (arith, lookup-delete key k m)

Counts-delete :
    (served : Text → ℕ) (key : Text) (m : Dict Binding)
    → Counts served m
    → Counts served (delete key m)
Counts-delete served key m h = record {
  unique = Unique-delete key m h.unique;
  exact = λ k b e. h.exact k b (lookup-delete-some key k m b e);
}

-- A binding is written: its count is that of the new tally, which is the old one for other keys.
Counts-insert :
    (served served' : Text → ℕ) (key : Text) (b : Binding) (m : Dict Binding)
    → served' key ≡ b.count
    → ((k : Text) → text_eq key k ≡ false → served' k ≡ served k)
    → Counts served m
    → Counts served' (insert key b m)
Counts-insert served served' key b m now others h = record {
  unique = Unique-insert key b m h.unique;
  exact = λ k c e. elim (Bool-cases (text_eq key k)) [
    | inl t ↦
        let found : some b ≡ some c = cc (lookup-insert key k b m, e, t) in
        subst (λ x. served' x ≡ c.count) ((text_eq_iff key k).0 t)
          (now ∙ ap (λ (x : Binding). x.count) (some_inj found))
    | inr f ↦
        let found : lookup k m ≡ some c = cc (lookup-insert key k b m, e, f) in
        others k f ∙ h.exact k c found
  ];
}

set_served-same : (key : Text) (n : ℕ) (served : Text → ℕ) → set_served key n served key ≡ n
set_served-same key n served = rw text_eq_refl refl

set_served-other :
    (key : Text) (n : ℕ) (served : Text → ℕ) (k : Text)
    → text_eq key k ≡ false
    → set_served key n served k ≡ served k
set_served-other key n served k f = rw f refl

drop_until_free-Counts :
    (served : Text → ℕ) (order : List Text) (m : Dict Binding)
    → Counts served m
    → Counts served (drop_until_free order m)
unfolding drop_until_free
drop_until_free-Counts served [] m h = h
drop_until_free-Counts served (k ∷ order) m h =
    if-elim (Counts served) (ltb (length m) sticky_capacity) (λ _. h)
      (λ _. drop_until_free-Counts served order (delete k m) (Counts-delete served k m h))

prune_sticky-Counts :
    (served : Text → ℕ) (order : Dict Binding → List Text) (now : ℕ) (m : Dict Binding)
    → Counts served m
    → Counts served (prune_sticky order now m)
unfolding prune_sticky drop_expired
prune_sticky-Counts served order now m h = drop_until_free-Counts served (order _) _ (record {
  unique = Unique-filter _ m h.unique;
  exact = λ k b e. h.exact k b (lookup-filter _ k m b h.unique e);
})

-- A new binding has served one request.
fresh-Counts :
    (order : Dict Binding → List Text) (r : Router) (key account_id : Text) (now expires_at : ℕ)
    (served : Text → ℕ)
    → Counts served r.sticky
    → Counts (set_served key 1 served) (
        insert key
          (record { account_id = account_id; count = 1; expires_at = expires_at })
          (if leb sticky_capacity (length r.sticky)
            then prune_sticky order now r.sticky
            else r.sticky))
fresh-Counts order r key account_id now expires_at served h =
    Counts-insert served (set_served key 1 served) key _ _ (set_served-same key 1 served)
      (set_served-other key 1 served)
      (if-elim (Counts served) (leb sticky_capacity (length r.sticky))
        (λ _. prune_sticky-Counts served order now r.sticky h) (λ _. h))

pub bind-Counts :
    (order : Dict Binding → List Text) (r : Router) (key account_id : Text) (now : ℕ)
    (served : Text → ℕ)
    → Counts served r.sticky
    → Counts
        (note_bind key account_id now (lookup key r.sticky) served)
        (bind order r key account_id now).sticky
unfolding bind refreshes count_of
bind-Counts order r key account_id now served h =
    go (is_empty key || is_empty account_id) (lookup key r.sticky) refl
  where
    room : Dict Binding
    room =
        if leb sticky_capacity (length r.sticky) then prune_sticky order now r.sticky else r.sticky

    entry : ℕ → Binding
    entry n = record { account_id = account_id; count = n; expires_at = now + sticky_ttl }

    renew :
        (b : Binding) (c : Bool)
        → lookup key r.sticky ≡ some b
        → Counts
            (if c then served else set_served key 1 served)
            (if c
              then record r { sticky = insert key (entry b.count) r.sticky }
              else record r { sticky = insert key (entry 1) room }).sticky
    renew b true e =
        Counts-insert served served key (entry b.count) r.sticky (h.exact key b e) (λ k f. refl) h
    renew b false e = fresh-Counts order r key account_id now (now + sticky_ttl) served h

    go :
        (blank : Bool) (o : Option Binding)
        → lookup key r.sticky ≡ o
        → Counts
            (if blank
              then served
              else if goes_on account_id now o
              then served
              else set_served key 1 served)
            (if blank
              then r
              else if refreshes account_id now o
              then record r { sticky = insert key (entry (count_of o)) r.sticky }
              else record r { sticky = insert key (entry 1) room }).sticky
    go true o e = h
    go false none e = fresh-Counts order r key account_id now (now + sticky_ttl) served h
    go false (some b) e = renew b (ltb now b.expires_at && text_eq b.account_id account_id) e

module _ {R : Type 0} (deps : Deps R) where
  abbrev Noted : Text → (Text → ℕ) → Router × Option (Account R) → Type 0
  Noted key served p = Counts (note_reuse key p.1 served) p.0.sticky

  serve_bound-Counts :
      (r : Router) (key : Text) (b : Binding) (o : Option (Account R)) (served : Text → ℕ)
      → lookup key r.sticky ≡ some b
      → Counts served r.sticky
      → Noted key served (serve_bound deps r key b o)
  unfolding serve_bound
  serve_bound-Counts r key b none served e h = Counts-delete served key r.sticky h
  serve_bound-Counts r key b (some acc) served e h =
      if-elim (Noted key served)
        (ltb_ℤ (pos 0) deps.config.sticky_limit
          && ltb_ℤ deps.config.sticky_limit (pos (b.count + 1)))
        (λ _. Counts-delete served key r.sticky h)
        (λ _.
          Counts-insert served (set_served key (served key + 1) served) key _ r.sticky
            (set_served-same key (served key + 1) served ∙ ap (λ n. n + 1) (h.exact key b e))
            (set_served-other key (served key + 1) served) h)

  pub sticky_step-Counts :
      (r : Router) (key : Text) (now : ℕ) (candidates : List (Account R)) (served : Text → ℕ)
      → Counts served r.sticky
      → Noted key served (sticky_step deps r key now candidates)
  unfolding sticky_step
  sticky_step-Counts r key now candidates served h =
      if-elim (Noted key served) (text_eq deps.config.strategy strategy_round_robin) (λ _. h)
        (λ _. go (lookup key r.sticky) refl)
    where
      go :
          (o : Option Binding)
          → lookup key r.sticky ≡ o
          → Noted key served (reuse deps r key now candidates o)
      go none e = h
      go (some b) e =
          if-elim (Noted key served) (ltb b.expires_at now)
            (λ _. Counts-delete served key r.sticky h)
            (λ _. serve_bound-Counts r key b (account_by_id candidates b.account_id) served e h)
