-- ===== src/Router/Candidates.antt =====
-- routing.go: which accounts may serve a request.
use qoder_2api_go.Prelude.{
  ℕ, Bool, true, false, not, ◌&&◌, none, some, List, [], ◌∷◌, length, filter, ltb, ◌==◌,
  if◌then◌else◌,
}
use qoder_2api_go.Prelude.Int.{pos, ltb_ℤ}
use qoder_2api_go.Float.{FloatOps}
use qoder_2api_go.Text.{Text, codes, text_eq, is_empty}
use qoder_2api_go.Dict.{Dict, lookup}
use qoder_2api_go.Region.{RegionFilter, region_default, region_cn, region_global, region_auto}
use qoder_2api_go.Store.Account.{Account, AccountSnapshot}
use qoder_2api_go.Router.State.{Deps, unix}

-- `x == nil`, and `len(x) == 0`
abbrev pub is_nil {ℓ} : {A : Type ℓ} → List A → Bool
is_nil [] = true
is_nil (x ∷ xs) = false

module _ {R : Type 0} where
  -- `accountRegion`
  unfoldable pub account_region : Account R → Text
  account_region acc = if text_eq acc.region (codes "global") then codes "global" else codes "cn"

  -- `filterRegion`
  unfoldable pub filter_region : List (Account R) → Text → List (Account R)
  unfolding account_region
  filter_region accounts want = filter (λ acc. text_eq (account_region acc) want) accounts

  -- `regionBase`
  unfoldable pub region_base : List (Account R) → RegionFilter → List (Account R)
  unfolding filter_region
  region_base accounts region_cn = filter_region accounts (codes "cn")
  region_base accounts region_global = filter_region accounts (codes "global")
  region_base accounts region_auto = accounts
  region_base accounts region_default =
      let cn = filter_region accounts (codes "cn") in if is_nil cn then accounts else cn

  -- The accounts that are not excluded; the code counts them in `eligible`.
  unfoldable pub eligible : List (Account R) → (Text → Bool) → List (Account R)
  eligible base exclude = filter (λ acc. not (exclude acc.id)) base

  -- Where no eligible account is usable under the threshold, those usable without it serve, if
  -- they are all the eligible ones.
  unfoldable pub relax : ℕ → List (Account R) → List (Account R) → List (Account R)
  relax count candidates relaxed =
      if is_nil candidates && ltb 0 count
      then (if length relaxed == count then relaxed else candidates)
      else candidates

module _ {R : Type 0} (fl : FloatOps R) (deps : Deps R) where
  -- The tests of `usable` on a snapshot that is not nil.
  unfoldable pub snapshot_usable : AccountSnapshot R → ℕ → Bool → Bool
  snapshot_usable snap now apply_threshold =
      if ltb_ℤ (pos (unix now)) snap.cooldown_until
      then false
      else if snap.is_exceeded
      then false
      else not (
          apply_threshold
          && deps.config.enabled
          && fl.lt (fl.of_ℕ 0) snap.total
          && fl.le snap.remaining deps.config.threshold)

  -- `usable`
  unfoldable pub usable : (Text → Bool) → ℕ → Bool → Account R → Bool
  unfolding snapshot_usable
  usable exclude now apply_threshold acc =
      if exclude acc.id then false else elim (deps.snapshot acc.id) [
        | none ↦ true
        | some snap ↦ snapshot_usable snap now apply_threshold
      ]

  -- The candidates of `pick` before the model filter.
  unfoldable pub usable_candidates : List (Account R) → (Text → Bool) → ℕ → List (Account R)
  usable_candidates base exclude now =
      relax (length (eligible base exclude)) (filter (usable exclude now true) base)
        (filter (usable exclude now false) base)

module _ {R : Type 0} (deps : Deps R) where
  -- `notSaturated`
  unfoldable pub not_saturated : Account R → Bool
  not_saturated acc = elim (deps.bridge acc) [
    | none ↦ true
    | some b ↦ if b.capacity == 0 then true else ltb b.in_flight b.capacity
  ]

  -- `cat.GetKey(bareModel) != ""`
  unfoldable pub knows_model : Dict Text → Text → Bool
  knows_model cat model = elim (lookup model cat) [ none ↦ false | some key ↦ not (is_empty key) ]

  -- The body of the loop of `supportsModel`: is the account kept?
  unfoldable pub may_support : Text → Account R → Bool
  unfolding knows_model
  may_support bare_model acc = elim (deps.bridge acc) [
    | none ↦ true
    | some b ↦ elim b.cached_catalog [ none ↦ true | some cat ↦ knows_model cat bare_model ]
  ]

  -- `supportsModel`
  unfoldable pub supports_model : List (Account R) → Text → List (Account R)
  unfolding may_support
  supports_model candidates bare_model =
      let supported = filter (may_support bare_model) candidates in
      if is_empty bare_model then candidates else if is_nil supported then candidates else supported

  -- `free`, or every candidate if all are saturated.
  unfoldable pub pick_from : List (Account R) → List (Account R)
  unfolding not_saturated
  pick_from candidates =
      let free = filter not_saturated candidates in if is_nil free then candidates else free
