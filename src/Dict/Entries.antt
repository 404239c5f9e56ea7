-- ===== src/Dict/Entries.antt =====
-- A property of every entry of a map, through the operations.
use qoder_2api_go.Prelude.{
  ◌≡◌, subst, Bool, Option, some, List, [], ◌∷◌, All, if-elim, some_inj, filter,
}
use qoder_2api_go.Text.{Text, text_eq}
use qoder_2api_go.Dict.{Dict, lookup, insert, delete}

module _ {ℓ} {A : Type ℓ} where
  pub All-filter {κ} :
      (P : A → Type κ) (p : A → Bool) (xs : List A) → All P xs → All P (filter p xs)
  unfolding filter
  All-filter P p [] h = h
  All-filter P p (x ∷ xs) h =
      if-elim (All P) (p x) (λ _. (h.0, All-filter P p xs h.1)) (λ _. All-filter P p xs h.1)

module _ {V : Type 0} (P : V → Type 0) where
  abbrev pub AllValues : Dict V → Type 0
  AllValues = All (λ (k, v). P v)

  pub AllValues-lookup : (k : Text) (m : Dict V) {v : V} → AllValues m → lookup k m ≡ some v → P v
  unfolding lookup
  AllValues-lookup k [] h = λ e. absurd (cc e)
  AllValues-lookup k ((j, w) ∷ m) {v} h =
      if-elim (λ (o : Option V). o ≡ some v → P v) (text_eq j k) (λ _ e. subst P (some_inj e) h.0)
        (λ _ e. AllValues-lookup k m {v = v} h.1 e)

  pub AllValues-insert :
      (k : Text) (v : V) (m : Dict V) → P v → AllValues m → AllValues (insert k v m)
  unfolding insert
  AllValues-insert k v [] p h = (p, tt)
  AllValues-insert k v ((j, w) ∷ m) p h =
      if-elim AllValues (text_eq j k) (λ _. (p, h.1)) (λ _. (h.0, AllValues-insert k v m p h.1))

  pub AllValues-delete : (k : Text) (m : Dict V) → AllValues m → AllValues (delete k m)
  unfolding delete
  AllValues-delete k [] h = h
  AllValues-delete k ((j, w) ∷ m) h =
      if-elim AllValues (text_eq j k) (λ _. AllValues-delete k m h.1)
        (λ _. (h.0, AllValues-delete k m h.1))
