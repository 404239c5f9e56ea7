-- ===== src/Dict.antt =====
-- Go's `map[string]V` as an association list with distinct keys. Where the program ranges over a
-- map, the order is an argument of the model.
pub mod Entries
pub mod Unique
use qoder_2api_go.Prelude.{
  ◌+◌, ◌≤◌, ◌<◌, ◌≡◌, refl, List, [], ◌∷◌, Option, none, some, arith, length, if◌then◌else◌,
}
use qoder_2api_go.Text.{Text, text_eq, text_eq_iff, text_eq_refl}

abbrev pub Dict {ℓ} : Type ℓ → Type ℓ
Dict V = List (Text × V)

module _ {ℓ} {V : Type ℓ} where
  abbrev pub empty : Dict V
  empty = []

  unfoldable pub lookup : Text → Dict V → Option V
  lookup k [] = none
  lookup k ((j, v) ∷ m) = if text_eq j k then some v else lookup k m

  -- `m[k]` with the zero value for a missing key
  unfoldable pub get_or : Text → Dict V → V → V
  unfolding lookup
  get_or k m d = elim (lookup k m) [ none ↦ d | some v ↦ v ]

  unfoldable pub insert : Text → V → Dict V → Dict V
  insert k v [] = (k, v) ∷ []
  insert k v ((j, w) ∷ m) = if text_eq j k then (j, v) ∷ m else (j, w) ∷ insert k v m

  unfoldable pub delete : Text → Dict V → Dict V
  delete k [] = []
  delete k ((j, w) ∷ m) = let rest = delete k m in if text_eq j k then rest else (j, w) ∷ rest

  pub lookup-insert :
      (k j : Text) (v : V) (m : Dict V)
      → lookup j (insert k v m) ≡ (if text_eq k j then some v else lookup j m)
  unfolding lookup insert
  lookup-insert k j v [] = refl
  lookup-insert k j v ((i, w) ∷ m) =
      ground (arith, text_eq_iff k j, text_eq_iff i k, text_eq_iff i j, lookup-insert k j v m)

  pub lookup-delete :
      (k j : Text) (m : Dict V) → lookup j (delete k m) ≡ (if text_eq k j then none else lookup j m)
  unfolding lookup delete
  lookup-delete k j [] = ground arith
  lookup-delete k j ((i, w) ∷ m) =
      ground (arith, text_eq_iff k j, text_eq_iff i k, text_eq_iff i j, lookup-delete k j m)

  pub get_or-cons :
      (k j : Text) (v d : V) (m : Dict V)
      → get_or k ((j, v) ∷ m) d ≡ (if text_eq j k then v else get_or k m d)
  unfolding get_or lookup
  get_or-cons k j v d m = ground arith

  pub get_or-insert :
      (k j : Text) (v d : V) (m : Dict V)
      → get_or j (insert k v m) d ≡ (if text_eq k j then v else get_or j m d)
  unfolding get_or
  get_or-insert k j v d m = ground (arith, lookup-insert k j v m)

  pub length-delete : (k : Text) (m : Dict V) → length (delete k m) ≤ length m
  unfolding delete
  length-delete k [] = omega arith
  length-delete k ((j, w) ∷ m) = ground (arith, length-delete k m)

  pub length-delete_found :
      (k : Text) (v : V) (m : Dict V) → lookup k m ≡ some v → length (delete k m) < length m
  unfolding lookup delete
  length-delete_found k v [] h = cc
  length-delete_found k v ((j, w) ∷ m) h =
      ground (arith, length-delete k m, length-delete_found k v m)

  pub length-insert : (k : Text) (v : V) (m : Dict V) → length (insert k v m) ≤ length m + 1
  unfolding insert
  length-insert k v [] = omega arith
  length-insert k v ((j, w) ∷ m) = ground (arith, length-insert k v m)

  pub length-insert_found :
      (k : Text) (v w : V) (m : Dict V) → lookup k m ≡ some w → length (insert k v m) ≡ length m
  unfolding lookup insert
  length-insert_found k v w [] h = cc
  length-insert_found k v w ((j, u) ∷ m) h = ground (arith, length-insert_found k v w m)

pub ruleset dict_laws = (lookup-insert, lookup-delete, text_eq_refl)
