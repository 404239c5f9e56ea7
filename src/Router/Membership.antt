-- ===== src/Router/Membership.antt =====
-- Where the accounts come from that the filters and the rotation policies of routing.go return.
use qoder_2api_go.Prelude.{
  ◌≡◌, refl, inl, inr, Bool, true, false, Option, none, some, List, [], ◌∷◌, In, ltb, In-filter,
  Bool-cases, if-elim, subst, some_inj, arith, if◌then◌else◌,
}
use qoder_2api_go.Prelude.Int.{ℤ, pos}
use qoder_2api_go.Text.{Text, text_eq, text_eq_iff}
use qoder_2api_go.Dict.{Dict, get_or, empty}
use qoder_2api_go.Region.{RegionFilter, region_default, region_cn, region_global, region_auto}
use qoder_2api_go.Store.Account.{Account, account_weight}
use qoder_2api_go.Store.AutoSwitch.{strategy_least_in_flight}
use qoder_2api_go.Router.State.{Deps, Router}
use qoder_2api_go.Router.Candidates.{is_nil, region_base, supports_model, pick_from}
use qoder_2api_go.Router.Rotate.{
  keep_live, uniform_weight, account_by_id, insert_by_id, sort_by_id, next_after, resume, advance,
  in_flight, least_in_flight, weighted_rotate, cursor_rotate, or_cursor, rotate,
}

-- The head that a test chooses is one of the two.
In-choice :
    {A : Type 0} (b : Bool) (a x y : A) (xs : List A)
    → In a ((if b then x else y) ∷ xs)
    → In a (y ∷ x ∷ xs)
In-choice true a x y xs (inl e) = inr (inl e)
In-choice true a x y xs (inr h) = inr (inr h)
In-choice false a x y xs (inl e) = inl e
In-choice false a x y xs (inr h) = inr (inr h)

In-again : {A : Type 0} {a : A} (x : A) (xs : List A) → In a (x ∷ x ∷ xs) → In a (x ∷ xs)
In-again x xs (inl e) = inl e
In-again x xs (inr h) = h

module _ {R : Type 0} where
  pub account_by_id-In :
      (accounts : List (Account R)) (id : Text) {acc : Account R}
      → account_by_id accounts id ≡ some acc
      → In acc accounts × (acc.id ≡ id)
  unfolding account_by_id
  account_by_id-In [] id h = cc
  account_by_id-In (x ∷ xs) id h = elim (Bool-cases (text_eq x.id id)) [
    | inl hit ↦ ground (arith, text_eq_iff x.id id)
    | inr miss ↦ let (i, e) = account_by_id-In xs id (rw miss at h) in (inr i, e)
  ]

  insert_by_id-In :
      (a x : Account R) (xs : List (Account R)) → In a (insert_by_id x xs) → In a (x ∷ xs)
  unfolding insert_by_id
  insert_by_id-In a x [] h = h
  insert_by_id-In a x (y ∷ ys) h = ground (arith, insert_by_id-In a x ys)

  sort_by_id-In : (a : Account R) (xs : List (Account R)) → In a (sort_by_id xs) → In a xs
  unfolding sort_by_id
  sort_by_id-In a [] h = h
  sort_by_id-In a (x ∷ xs) h =
      ground (arith, insert_by_id-In a x (sort_by_id xs) h, sort_by_id-In a xs)

  next_after-In :
      (last : Text) (first : Account R) (xs : List (Account R))
      → In (next_after last first xs) (first ∷ xs)
  unfolding next_after
  next_after-In last first [] = inl refl
  next_after-In last first (x ∷ xs) = ground (arith, next_after-In last first xs)

  resume-In :
      (last : Text) (default : Account R) (xs : List (Account R))
      → In (resume last default xs) (default ∷ xs)
  unfolding resume
  resume-In last default [] = inl refl
  resume-In last default (x ∷ xs) = ground (arith, next_after-In last x (x ∷ xs))

  advance-In :
      (xs : List (Account R)) (state : Dict ℤ) (best : Account R) (bw : ℤ)
      → In (advance xs state best bw).0 (best ∷ xs)
  unfolding advance
  advance-In [] state best bw = inl refl
  advance-In (x ∷ xs) state best bw = In-choice _ _ x best xs (advance-In xs _ _ _)

  weighted_rotate-In :
      (r : Router) (key : Text) (first : Account R) (others : List (Account R)) {acc : Account R}
      → (weighted_rotate r key first others).1 ≡ some acc
      → In acc (first ∷ others)
  unfolding weighted_rotate
  weighted_rotate-In r key first others {acc} =
      let candidates = first ∷ others in
      let live = keep_live candidates (get_or key r.wrr empty) in
      if-elim (λ (p : Router × Option (Account R)). p.1 ≡ some acc → In acc candidates)
        (uniform_weight (account_weight first) candidates) (λ _ h. cc)
        λ _ h.
          subst (λ a. In a candidates) (some_inj h)
            (In-again first others (advance-In candidates live first (pos 0)))

  cursor_rotate-In :
      (r : Router) (key : Text) (first : Account R) (others : List (Account R))
      → In (cursor_rotate r key first others).1 (first ∷ others)
  unfolding cursor_rotate
  cursor_rotate-In r key first others =
      elim (resume-In (get_or key r.cursor []) first (sort_by_id (first ∷ others))) [
        | inl e ↦ inl e
        | inr i ↦ sort_by_id-In _ (first ∷ others) i
      ]

  or_cursor-In :
      (key : Text) (first : Account R) (others : List (Account R)) (p : Router × Option (Account R))
      → ((acc : Account R) → p.1 ≡ some acc → In acc (first ∷ others))
      → In (or_cursor key first others p).1 (first ∷ others)
  unfolding or_cursor
  or_cursor-In key first others (r, some acc) f = f acc refl
  or_cursor-In key first others (r, none) f = cursor_rotate-In r key first others

module _ {R : Type 0} (deps : Deps R) where
  least_in_flight-In :
      (best : Account R) (xs : List (Account R)) → In (least_in_flight deps best xs) (best ∷ xs)
  unfolding least_in_flight
  least_in_flight-In best [] = inl refl
  least_in_flight-In best (x ∷ xs) =
      In-choice _ _ x best xs
        (least_in_flight-In (if ltb (in_flight deps x) (in_flight deps best) then x else best) xs)

  -- Every policy returns one of the candidates.
  pub rotate-In :
      (r : Router) (key strategy : Text) (first : Account R) (others : List (Account R))
      → In (rotate deps r key strategy first others).1 (first ∷ others)
  unfolding rotate
  rotate-In r key strategy first others =
      if-elim (λ (p : Router × Account R). In p.1 (first ∷ others))
        (text_eq strategy strategy_least_in_flight) (λ _. least_in_flight-In first others)
        λ _.
          or_cursor-In key first others _ (λ acc. weighted_rotate-In r key first others {acc = acc})

module _ {R : Type 0} where
  In-or_all :
      (a : Account R) (xs ys : List (Account R))
      → (In a xs → In a ys)
      → In a (if is_nil xs then ys else xs)
      → In a ys
  In-or_all a [] ys f h = h
  In-or_all a (x ∷ xs) ys f h = f h

  pub region_base-In :
      (a : Account R) (xs : List (Account R)) (f : RegionFilter) → In a (region_base xs f) → In a xs
  unfolding region_base
  region_base-In a xs region_default h = In-or_all a _ xs (λ i. (In-filter _ a xs i).0) h
  region_base-In a xs region_cn h = (In-filter _ a xs h).0
  region_base-In a xs region_global h = (In-filter _ a xs h).0
  region_base-In a xs region_auto h = h

  pub supports_model-In :
      (deps : Deps R) (a : Account R) (xs : List (Account R)) (model : Text)
      → In a (supports_model deps xs model)
      → In a xs
  unfolding supports_model
  supports_model-In deps a xs [] h = h
  supports_model-In deps a xs (c ∷ model) h = In-or_all a _ xs (λ i. (In-filter _ a xs i).0) h

  pub pick_from-In :
      (deps : Deps R) (a : Account R) (xs : List (Account R)) → In a (pick_from deps xs) → In a xs
  unfolding pick_from
  pick_from-In deps a xs h = In-or_all a _ xs (λ i. (In-filter _ a xs i).0) h
