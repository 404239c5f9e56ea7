-- ===== src/Router/Bind.antt =====
-- routing.go: `bind` and `pruneSticky`. Go ranges over a map in any order: `order` gives the keys
-- in the order in which the second loop of `pruneSticky` meets them.
use qoder_2api_go.Prelude.{
  ℕ, ◌+◌, Bool, false, not, ◌&&◌, ◌||◌, Option, none, some, List, [], ◌∷◌, filter, length, ltb, leb,
  if◌then◌else◌,
}
use qoder_2api_go.Text.{Text, text_eq, is_empty}
use qoder_2api_go.Dict.{Dict, lookup, insert, delete}
use qoder_2api_go.Router.State.{
  Router, Binding, sticky_ttl, sticky_capacity, unix, router_failure_cooldown,
}

-- The first loop of `pruneSticky`.
unfoldable pub drop_expired : ℕ → Dict Binding → Dict Binding
drop_expired now = filter (λ (k, b). not (ltb b.expires_at now))

-- The second loop of `pruneSticky`.
unfoldable pub drop_until_free : List Text → Dict Binding → Dict Binding
drop_until_free [] sticky = sticky
drop_until_free (k ∷ order) sticky =
    let rest = drop_until_free order (delete k sticky) in
    if ltb (length sticky) sticky_capacity then sticky else rest

unfoldable pub prune_sticky : (Dict Binding → List Text) → ℕ → Dict Binding → Dict Binding
unfolding drop_expired drop_until_free
prune_sticky order now sticky =
    let live = drop_expired now sticky in drop_until_free (order live) live

-- Is the binding alive and for this account?
unfoldable pub refreshes : Text → ℕ → Option Binding → Bool
refreshes account_id now none = false
refreshes account_id now (some b) = ltb now b.expires_at && text_eq b.account_id account_id

-- The count that a refreshed binding keeps.
unfoldable pub count_of : Option Binding → ℕ
count_of none = 1
count_of (some b) = b.count

-- `bind`
unfoldable pub bind : (Dict Binding → List Text) → Router → Text → Text → ℕ → Router
unfolding prune_sticky refreshes count_of
bind order r sticky_key account_id now =
    let old = lookup sticky_key r.sticky in
    let pruned =
      if leb sticky_capacity (length r.sticky) then prune_sticky order now r.sticky else r.sticky in
    let entry : ℕ → Binding =
      λ count. record { account_id = account_id; count = count; expires_at = now + sticky_ttl } in
    if is_empty sticky_key || is_empty account_id
    then r
    else if refreshes account_id now old
    then record r { sticky = insert sticky_key (entry (count_of old)) r.sticky }
    else record r { sticky = insert sticky_key (entry 1) pruned }

-- `markFailure`: the account and the instant (in seconds) until which it is skipped.
unfoldable pub mark_failure : Text → ℕ → Option (Text × ℕ)
mark_failure account_id now =
    if is_empty account_id then none else some (account_id, unix (now + router_failure_cooldown))
