-- ===== src/Router/Weights.antt =====
-- routing.go: smooth weighted round-robin moves credit between the accounts and makes none.
use qoder_2api_go.Prelude.{
  ◌≡◌, ◌∙◌, Option, some, List, [], ◌∷◌, if-elim, if◌then◌else◌, Bool-cases, inl, inr,
}
use qoder_2api_go.Prelude.Int.{ℤ, pos, ltb_ℤ, ◌+ℤ◌, ◌-ℤ◌, int_laws, parts_eq}
use qoder_2api_go.Text.{Text, text_eq, text_eq_refl}
use qoder_2api_go.Dict.{Dict, lookup, insert, get_or, get_or-cons, get_or-insert, empty}
use qoder_2api_go.Store.Account.{Account, account_weight}
use qoder_2api_go.Router.State.{Router}
use qoder_2api_go.Router.Rotate.{advance, total_weight, keep_live, uniform_weight, weighted_rotate}

-- The sum of the running weights of a route.
abbrev pub sum : Dict ℤ → ℤ
sum [] = pos 0
sum ((k, w) ∷ m) = w +ℤ sum m

-- A write changes the sum by the difference to the old value.
sum-insert : (k : Text) (w : ℤ) (m : Dict ℤ) → sum (insert k w m) +ℤ get_or k m (pos 0) ≡ w +ℤ sum m
unfolding insert
sum-insert k w [] = unfold get_or lookup in omega int_laws
sum-insert k w ((j, v) ∷ m) = elim (Bool-cases (text_eq j k)) [
  | inl hit ↦ rw (get_or-cons, hit) (omega int_laws)
  | inr miss ↦ rw (get_or-cons, miss) (omega (int_laws, parts_eq (sum-insert k w m)))
]

module _ {R : Type 0} where
  sum-advance :
      (xs : List (Account R)) (state : Dict ℤ) (best : Account R) (bw : ℤ)
      → sum (advance xs state best bw).1 ≡ sum state +ℤ pos (total_weight xs)
  unfolding advance total_weight
  sum-advance [] state best bw = omega int_laws
  sum-advance (x ∷ xs) state best bw =
      let w = get_or x.id state (pos 0) +ℤ pos (account_weight x) in
      sum-advance xs (insert x.id w state) (if ltb_ℤ bw w then x else best)
        (if ltb_ℤ bw w then w else bw)
      ∙ omega (int_laws, parts_eq (sum-insert x.id w state))

  -- A step of the weighted rotation leaves the sum of the running weights of its route as it was
  -- for the accounts that are still candidates: what the winner spends is what all of them gained.
  pub weighted_rotate-sum :
      (r : Router) (key : Text) (first : Account R) (others : List (Account R)) (acc : Account R)
      → let (r', chosen) = weighted_rotate r key first others in
        chosen ≡ some acc
        → sum (get_or key r'.wrr empty) ≡ sum (keep_live (first ∷ others) (get_or key r.wrr empty))
  unfolding weighted_rotate
  weighted_rotate-sum r key first others acc =
      let candidates = first ∷ others in
      let live = keep_live candidates (get_or key r.wrr empty) in
      let (best, state) = advance candidates live first (pos 0) in
      let spent = get_or best.id state (pos 0) -ℤ pos (total_weight candidates) in
      if-elim
        (λ (p : Router × Option (Account R)).
          p.1 ≡ some acc → sum (get_or key p.0.wrr empty) ≡ sum live)
        (uniform_weight (account_weight first) candidates) (λ _ h. absurd (cc h))
        λ _ _.
          rw (get_or-insert, text_eq_refl)
            (omega (
              int_laws,
              parts_eq (sum-insert best.id spent state),
              parts_eq (sum-advance candidates live first (pos 0)),
            ))
