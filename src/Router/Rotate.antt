-- ===== src/Router/Rotate.antt =====
-- routing.go: the rotation policies: least in flight, smooth weighted round-robin, and the cursor
-- over the accounts sorted by ID.
use qoder_2api_go.Prelude.{
  ℕ, ◌+◌, Bool, true, false, ◌&&◌, Option, none, some, List, [], ◌∷◌, ◌++◌, filter, ltb, ◌==◌,
  if◌then◌else◌,
}
use qoder_2api_go.Prelude.Int.{ℤ, pos, ltb_ℤ, ◌+ℤ◌, ◌-ℤ◌}
use qoder_2api_go.Text.{Text, codes, text_eq, text_lt, is_empty}
use qoder_2api_go.Dict.{Dict, get_or, insert, delete, empty}
use qoder_2api_go.Region.{RegionFilter, to_string}
use qoder_2api_go.Store.Account.{Account, account_weight}
use qoder_2api_go.Store.AutoSwitch.{strategy_least_in_flight}
use qoder_2api_go.Router.State.{Router, Deps}

-- `filter.String() + "|" + bareModel`
unfoldable pub route_key : RegionFilter → Text → Text
unfolding to_string
route_key f bare_model = to_string f ++ (codes "|" ++ bare_model)

module _ {R : Type 0} where
  -- `accountByID`
  unfoldable pub account_by_id : List (Account R) → Text → Option (Account R)
  account_by_id [] id = none
  account_by_id (acc ∷ accounts) id =
      if text_eq acc.id id then some acc else account_by_id accounts id

  -- `containsAccount`
  unfoldable pub contains_account : List (Account R) → Text → Bool
  unfolding account_by_id
  contains_account accounts id = elim (account_by_id accounts id) [ none ↦ false | some acc ↦ true ]

  -- `sort.Slice` by ID. The IDs of a pool are distinct, so every sorting order gives this list.
  unfoldable pub insert_by_id : Account R → List (Account R) → List (Account R)
  insert_by_id acc [] = acc ∷ []
  insert_by_id acc (x ∷ xs) = if text_lt x.id acc.id then x ∷ insert_by_id acc xs else acc ∷ x ∷ xs

  unfoldable pub sort_by_id : List (Account R) → List (Account R)
  unfolding insert_by_id
  sort_by_id [] = []
  sort_by_id (acc ∷ accounts) = insert_by_id acc (sort_by_id accounts)

  -- The search for `idx`: the first account whose ID is above the cursor, or else the given one.
  unfoldable pub next_after : Text → Account R → List (Account R) → Account R
  next_after last first [] = first
  next_after last first (acc ∷ accounts) =
      let rest = next_after last first accounts in if text_lt last acc.id then acc else rest

  -- `candidates[idx]` over the sorted candidates. An empty cursor starts over.
  unfoldable pub resume : Text → Account R → List (Account R) → Account R
  unfolding next_after
  resume last default [] = default
  resume last default (acc ∷ accounts) =
      if is_empty last then acc else next_after last acc (acc ∷ accounts)

  -- The totals of the first loop of `weightedRotate`.
  unfoldable pub total_weight : List (Account R) → ℕ
  total_weight [] = 0
  total_weight (acc ∷ accounts) = account_weight acc + total_weight accounts

  unfoldable pub uniform_weight : ℕ → List (Account R) → Bool
  uniform_weight w [] = true
  uniform_weight w (acc ∷ accounts) = account_weight acc == w && uniform_weight w accounts

  -- The second loop: running weights grow, and the first strict maximum above `bestWeight` wins.
  unfoldable pub advance : List (Account R) → Dict ℤ → Account R → ℤ → Account R × Dict ℤ
  advance [] state best best_weight = (best, state)
  advance (acc ∷ accounts) state best best_weight =
      let w = get_or acc.id state (pos 0) +ℤ pos (account_weight acc) in
      let better = ltb_ℤ best_weight w in
      advance accounts (insert acc.id w state) (if better then acc else best)
        (if better then w else best_weight)

  -- Entries of accounts that left the candidate set are dropped.
  unfoldable pub keep_live : List (Account R) → Dict ℤ → Dict ℤ
  unfolding contains_account
  keep_live candidates = filter (λ (id, w). contains_account candidates id)

  -- `weightedRotate`; the candidates are given as the first and the others.
  unfoldable pub weighted_rotate :
      Router → Text → Account R → List (Account R) → Router × Option (Account R)
  unfolding total_weight uniform_weight advance keep_live
  weighted_rotate r route_key first others =
      let candidates = first ∷ others in
      let live = keep_live candidates (get_or route_key r.wrr empty) in
      let (best, state) = advance candidates live first (pos 0) in
      let spent = get_or best.id state (pos 0) -ℤ pos (total_weight candidates) in
      if uniform_weight (account_weight first) candidates
      then (record r { wrr = delete route_key r.wrr }, none)
      else (
        record r {
          wrr = insert route_key (insert best.id spent state) r.wrr;
          cursor = insert route_key best.id r.cursor;
        },
        some best,
      )

  -- The plain cursor of `rotate`.
  unfoldable pub cursor_rotate : Router → Text → Account R → List (Account R) → Router × Account R
  unfolding resume sort_by_id
  cursor_rotate r key first others =
      let chosen = resume (get_or key r.cursor []) first (sort_by_id (first ∷ others)) in
      (record r { cursor = insert key chosen.id r.cursor }, chosen)

  -- `rotate` after `weightedRotate`.
  unfoldable pub or_cursor :
      Text → Account R → List (Account R) → Router × Option (Account R) → Router × Account R
  unfolding cursor_rotate
  or_cursor key first others (r, some acc) = (r, acc)
  or_cursor key first others (r, none) = cursor_rotate r key first others

module _ {R : Type 0} (deps : Deps R) where
  -- `inFlight`
  unfoldable pub in_flight : Account R → ℕ
  in_flight acc = elim (deps.bridge acc) [ none ↦ 0 | some b ↦ b.in_flight ]

  -- The loop of the least-in-flight policy.
  unfoldable pub least_in_flight : Account R → List (Account R) → Account R
  unfolding in_flight
  least_in_flight best [] = best
  least_in_flight best (acc ∷ accounts) =
      least_in_flight (if ltb (in_flight acc) (in_flight best) then acc else best) accounts

  -- `rotate`
  unfoldable pub rotate : Router → Text → Text → Account R → List (Account R) → Router × Account R
  unfolding least_in_flight weighted_rotate or_cursor
  rotate r key strategy first others =
      let best = least_in_flight first others in
      if text_eq strategy strategy_least_in_flight
      then (record r { cursor = insert key best.id r.cursor }, best)
      else or_cursor key first others (weighted_rotate r key first others)
