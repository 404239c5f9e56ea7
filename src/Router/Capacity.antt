-- ===== src/Router/Capacity.antt =====
-- routing.go: the sticky table never outgrows its capacity, and a binding never outlives its count.
use qoder_2api_go.Prelude.{
  ℕ, ◌≤◌, ◌<◌, ◌≡◌, refl, inl, inr, true, ◌||◌, Option, none, some, List, [], ◌∷◌, In, Bool-cases,
  if-elim, arith, if◌then◌else◌, length, ltb, leb,
}
use qoder_2api_go.Text.{Text, is_empty, text_eq, text_eq_iff, text_eq_refl}
use qoder_2api_go.Dict.{
  Dict, lookup, insert, delete, lookup-delete, length-insert, length-insert_found,
}
use qoder_2api_go.Dict.Entries.{
  All-filter, AllValues, AllValues-lookup, AllValues-insert, AllValues-delete,
}
use qoder_2api_go.Router.State.{Router, Binding, sticky_capacity}
use qoder_2api_go.Router.Bind.{
  count_of, drop_expired, drop_until_free, prune_sticky, refreshes, bind,
}

-- The runtime's iteration order of a map names each of its keys.
abbrev pub Covers : List Text → Dict Binding → Type 0
Covers order sticky = (k : Text) (b : Binding) → lookup k sticky ≡ some b → In k order

empty_of_no_key : (sticky : Dict Binding) → Covers [] sticky → length sticky ≡ 0
unfolding lookup
empty_of_no_key [] h = refl
empty_of_no_key ((k, b) ∷ m) h = absurd (h k b (rw text_eq_refl))

drop_until_free-lt :
    (order : List Text) (sticky : Dict Binding)
    → Covers order sticky
    → length (drop_until_free order sticky) < sticky_capacity
unfolding drop_until_free
drop_until_free-lt [] sticky h = omega (arith, empty_of_no_key sticky h)
drop_until_free-lt (k ∷ order) sticky h =
    if-elim (λ (m : Dict Binding). length m < sticky_capacity) (ltb (length sticky) sticky_capacity)
      (λ t. ground arith)
      λ _. drop_until_free-lt order (delete k sticky) λ j b e. elim (Bool-cases (text_eq k j)) [
        | inl same ↦ absurd (ground (arith, lookup-delete k j sticky))
        | inr other ↦ elim (h j b (ground (arith, lookup-delete k j sticky))) [
          | inl i ↦ absurd (ground (arith, text_eq_iff k j))
          | inr i ↦ i
        ]
      ]

-- The sticky table is within its capacity, and the count of no binding is above `limit`.
pub record IsWithin (limit : ℕ) (r : Router) : Type 0 where
  pub bounded : length r.sticky ≤ sticky_capacity
  pub served : AllValues (λ (b : Binding). b.count ≤ limit) r.sticky

module _ (limit : ℕ) where
  abbrev Served : Dict Binding → Type 0
  Served = AllValues (λ (b : Binding). b.count ≤ limit)

  drop_until_free-Served :
      (order : List Text) (sticky : Dict Binding)
      → Served sticky
      → Served (drop_until_free order sticky)
  unfolding drop_until_free
  drop_until_free-Served [] sticky h = h
  drop_until_free-Served (k ∷ order) sticky h =
      if-elim Served (ltb (length sticky) sticky_capacity) (λ _. h)
        (λ _. drop_until_free-Served order (delete k sticky) (AllValues-delete _ k sticky h))

  prune_sticky-Served :
      (order : Dict Binding → List Text) (now : ℕ) (sticky : Dict Binding)
      → Served sticky
      → Served (prune_sticky order now sticky)
  unfolding prune_sticky drop_expired
  prune_sticky-Served order now sticky h =
      drop_until_free-Served (order _) _ (All-filter _ _ sticky h)

  -- The table that a new binding is written to.
  room_for :
      (order : Dict Binding → List Text) (now : ℕ) (r : Router)
      → ((m : Dict Binding) → Covers (order m) m)
      → IsWithin limit r
      → let m =
          if leb sticky_capacity (length r.sticky)
          then prune_sticky order now r.sticky
          else r.sticky in
        (length m < sticky_capacity) × Served m
  room_for order now r covers h =
      if-elim (λ (m : Dict Binding). (length m < sticky_capacity) × Served m)
        (leb sticky_capacity (length r.sticky))
        (λ _. (
          unfold prune_sticky in drop_until_free-lt _ (drop_expired now r.sticky) (covers _),
          prune_sticky-Served order now r.sticky h.served,
        ))
        (λ f. (ground arith, h.served))

  set_binding :
      (r : Router) (m : Dict Binding) (key : Text) (b : Binding)
      → length (insert key b m) ≤ sticky_capacity
      → b.count ≤ limit
      → Served m
      → IsWithin limit (record r { sticky = insert key b m })
  set_binding r m key b fits c s = record {
    bounded = fits;
    served = AllValues-insert _ key b m c s;
  }

  refreshed :
      (account_id : Text) (now : ℕ) (o : Option Binding)
      → refreshes account_id now o ≡ true
      → (b : Binding) × (o ≡ some b)
  unfolding refreshes
  refreshed account_id now none h = absurd (cc h)
  refreshed account_id now (some b) h = (b, refl)

  count_of-le :
      (o : Option Binding)
      → 1 ≤ limit
      → ((b : Binding) → o ≡ some b → b.count ≤ limit)
      → count_of o ≤ limit
  unfolding count_of
  count_of-le none low f = low
  count_of-le (some b) low f = f b refl

  -- `bind` keeps the sticky table within its capacity and its counts, in whatever order the
  -- runtime ranges over the map.
  pub bind-IsWithin :
      (order : Dict Binding → List Text) (r : Router) (key account_id : Text) (now : ℕ)
      → ((m : Dict Binding) → Covers (order m) m)
      → 1 ≤ limit
      → IsWithin limit r
      → IsWithin limit (bind order r key account_id now)
  unfolding bind
  bind-IsWithin order r key account_id now covers low h =
      if-elim (IsWithin limit) (is_empty key || is_empty account_id) (λ _. h)
        λ _.
          if-elim (IsWithin limit) (refreshes account_id now (lookup key r.sticky))
            (λ t.
              let o = lookup key r.sticky in
              let (b, e) = refreshed account_id now o t in
              set_binding r r.sticky key _
                (omega (arith, length-insert_found key _ b r.sticky e, h.bounded))
                (count_of-le o low (λ c. AllValues-lookup _ key r.sticky {v = c} h.served))
                h.served)
            (λ _.
              let (room, served) = room_for order now r covers h in
              set_binding r _ key _ (omega (arith, length-insert {0})) low served)
