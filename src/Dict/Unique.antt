-- ===== src/Dict/Unique.antt =====
-- Maps whose keys are distinct, through the operations.
use qoder_2api_go.Prelude.{◌≡◌, refl, Bool, none, some, [], ◌∷◌, filter, if-elim, arith}
use qoder_2api_go.Text.{Text, text_eq, text_eq_iff}
use qoder_2api_go.Dict.{Dict, lookup, insert, delete, lookup-insert, lookup-delete}

module _ {V : Type 0} where
  unfoldable pub Unique : Dict V → Type 0
  Unique [] = Unit
  Unique ((k, v) ∷ m) = (lookup k m ≡ none) × Unique m

  lookup-filter-none :
      (p : Text × V → Bool) (k : Text) (m : Dict V)
      → lookup k m ≡ none
      → lookup k (filter p m) ≡ none
  unfolding lookup filter
  lookup-filter-none p k [] h = h
  lookup-filter-none p k ((j, w) ∷ m) h = ground (arith, lookup-filter-none p k m)

  pub Unique-filter : (p : Text × V → Bool) (m : Dict V) → Unique m → Unique (filter p m)
  unfolding Unique filter
  Unique-filter p [] h = h
  Unique-filter p ((j, w) ∷ m) h =
      if-elim Unique (p (j, w)) (λ _. (lookup-filter-none p j m h.0, Unique-filter p m h.1))
        (λ _. Unique-filter p m h.1)

  -- What is found after filtering was there before.
  pub lookup-filter :
      (p : Text × V → Bool) (k : Text) (m : Dict V) (v : V)
      → Unique m
      → lookup k (filter p m) ≡ some v
      → lookup k m ≡ some v
  unfolding Unique lookup filter
  lookup-filter p k [] v h e = e
  lookup-filter p k ((j, w) ∷ m) v h e =
      ground (arith, text_eq_iff j k, lookup-filter p k m v h.1, lookup-filter-none p k m, h.0)

  pub Unique-delete : (k : Text) (m : Dict V) → Unique m → Unique (delete k m)
  unfolding Unique delete
  Unique-delete k [] h = h
  Unique-delete k ((j, w) ∷ m) h =
      if-elim Unique (text_eq j k) (λ _. Unique-delete k m h.1)
        (λ _. (ground (arith, lookup-delete k j m, h.0), Unique-delete k m h.1))

  pub Unique-insert : (k : Text) (v : V) (m : Dict V) → Unique m → Unique (insert k v m)
  unfolding Unique insert lookup
  Unique-insert k v [] h = (refl, tt)
  Unique-insert k v ((j, w) ∷ m) h =
      if-elim Unique (text_eq j k) (λ _. h)
        (λ f. (
          ground (arith, text_eq_iff k j, text_eq_iff j k, lookup-insert k j v m, h.0, f),
          Unique-insert k v m h.1,
        ))
