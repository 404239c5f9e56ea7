-- ===== src/Prelude/Quantify.antt =====
-- Membership and "for every item" by recursion, which the tactics take apart.
use Prim.Native.Nat.{◌<◌}
use mathlib.Core.Path.{◌≡◌, refl, subst, sym, ap}
use mathlib.Core.Logic.{◌⊎◌, inl, inr}
use mathlib.Core.Bool.{Bool, true}
use mathlib.Core.List.{List, [], ◌∷◌, ◌++◌, map}
use native.Mathlib.Omega.{arith}
use qoder_2api_go.Prelude.Tests.{Bool-cases}
use qoder_2api_go.Prelude.Lists.{filter, length}

abbrev pub All {ℓ κ} : {A : Type ℓ} → (A → Type κ) → List A → Type κ
All P [] = Unit
All P (x ∷ xs) = P x × All P xs

abbrev pub In : {A : Type 0} → A → List A → Type 0
In a [] = ⊥
In a (x ∷ xs) = (a ≡ x) ⊎ In a xs

pub All-append {ℓ κ} :
    {A : Type ℓ} (P : A → Type κ) (xs ys : List A) → All P xs → All P ys → All P (xs ++ ys)
All-append P [] ys hx hy = hy
All-append P (x ∷ xs) ys hx hy = (hx.0, All-append P xs ys hx.1 hy)

module _ {A : Type 0} where
  pub In-append_left : (a : A) (xs ys : List A) → In a xs → In a (xs ++ ys)
  In-append_left a [] ys h = absurd h
  In-append_left a (x ∷ xs) ys (inl e) = inl e
  In-append_left a (x ∷ xs) ys (inr h) = inr (In-append_left a xs ys h)

  pub In-append_right : (a : A) (xs ys : List A) → In a ys → In a (xs ++ ys)
  In-append_right a [] ys h = h
  In-append_right a (x ∷ xs) ys h = inr (In-append_right a xs ys h)

  pub In-append_cases : (a : A) (xs ys : List A) → In a (xs ++ ys) → In a xs ⊎ In a ys
  In-append_cases a [] ys h = inr h
  In-append_cases a (x ∷ xs) ys (inl e) = inl (inl e)
  In-append_cases a (x ∷ xs) ys (inr h) = elim (In-append_cases a xs ys h) [
    | inl l ↦ inl (inr l)
    | inr r ↦ inr r
  ]

  pub All-In {κ} : (P : A → Type κ) (xs : List A) (a : A) → All P xs → In a xs → P a
  All-In P [] a h i = absurd i
  All-In P (x ∷ xs) a h (inl e) = subst P (sym e) h.0
  All-In P (x ∷ xs) a h (inr i) = All-In P xs a h.1 i

  -- An item passes a filter exactly when it was there and passes the test.
  pub In-filter : (p : A → Bool) (a : A) (xs : List A) → In a (filter p xs) → In a xs × (p a ≡ true)
  unfolding filter
  In-filter p a [] h = absurd h
  In-filter p a (x ∷ xs) h = elim (Bool-cases (p x)) [
    | inl pass ↦ elim (let h' : In a (x ∷ filter p xs) = rw pass at h in h') [
      | inl e ↦ (inl e, subst (λ b. p b ≡ true) (sym e) pass)
      | inr r ↦ let (i, q) = In-filter p a xs r in (inr i, q)
    ]
    | inr miss ↦
        let h' : In a (filter p xs) = rw miss at h in let (i, q) = In-filter p a xs h' in (inr i, q)
  ]

  pub In-filter_of :
      (p : A → Bool) (a : A) (xs : List A) → In a xs → p a ≡ true → In a (filter p xs)
  unfolding filter
  In-filter_of p a [] h t = absurd h
  In-filter_of p a (x ∷ xs) (inl e) t =
      rw (let px : p x ≡ true = subst (λ b. p b ≡ true) e t in px) (inl e)
  In-filter_of p a (x ∷ xs) (inr h) t = elim (Bool-cases (p x)) [
    | inl pass ↦ rw pass (inr (In-filter_of p a xs h t))
    | inr miss ↦ rw miss (In-filter_of p a xs h t)
  ]

  -- A list with an item that passes has a filtered list that is not empty.
  pub In-ne-nil : (a : A) (xs : List A) → In a xs → ¬ (xs ≡ [])
  In-ne-nil a [] h e = absurd h
  In-ne-nil a (x ∷ xs) h e = cc

  pub In-head : (xs : List A) → ¬ (xs ≡ []) → (a : A) × In a xs
  In-head [] h = absurd (h refl)
  In-head (x ∷ xs) h = (x, inl refl)

  pub length-pos : (xs : List A) → ¬ (xs ≡ []) → 0 < length xs
  length-pos [] h = absurd (h refl)
  length-pos (x ∷ xs) h = omega arith

  pub ne-nil_of_pos : (xs : List A) → 0 < length xs → ¬ (xs ≡ [])
  ne-nil_of_pos [] h e = omega arith
  ne-nil_of_pos (x ∷ xs) h e = cc

module _ {A B : Type 0} (f : A → B) where
  pub In-map : (xs : List A) (a : A) → In a xs → In (f a) (map f xs)
  In-map [] a i = i
  In-map (x ∷ xs) a (inl e) = inl (ap f e)
  In-map (x ∷ xs) a (inr i) = inr (In-map xs a i)

  pub In-map_of : (xs : List A) (b : B) → In b (map f xs) → (a : A) × (In a xs × (f a ≡ b))
  In-map_of [] b i = absurd i
  In-map_of (x ∷ xs) b (inl e) = (x, (inl refl, sym e))
  In-map_of (x ∷ xs) b (inr i) = let (a, (j, e)) = In-map_of xs b i in (a, (inr j, e))
