-- ===== src/Prelude/Filters.antt =====
-- Two filters over one list, compared by their lengths.
use Prim.Native.Nat.{◌≤◌}
use mathlib.Core.Path.{◌≡◌, refl, subst, sym}
use mathlib.Core.Logic.{inl, inr}
use mathlib.Core.Bool.{Bool, true}
use mathlib.Core.List.{List, [], ◌∷◌}
use native.Mathlib.Omega.{arith}
use qoder_2api_go.Prelude.Lists.{filter, length}
use qoder_2api_go.Prelude.Quantify.{In}

module _ {A : Type 0} (p q : A → Bool) where
  -- `p` implies `q` on the list.
  abbrev pub Implies : List A → Type 0
  Implies xs = (a : A) → In a xs → p a ≡ true → q a ≡ true

  pub length-filter_mono : (xs : List A) → Implies xs → length (filter p xs) ≤ length (filter q xs)
  unfolding filter
  length-filter_mono [] h = omega arith
  length-filter_mono (x ∷ xs) h =
      ground (arith, h x (inl refl), length-filter_mono xs (λ a i. h a (inr i)))

  -- If as many items pass the stronger test as the weaker, the same items pass both.
  pub filter_full :
      (xs : List A)
      → Implies xs
      → length (filter p xs) ≡ length (filter q xs)
      → (a : A) → In a xs
      → q a ≡ true
      → p a ≡ true
  unfolding filter
  filter_full [] h e a i t = absurd i
  filter_full (x ∷ xs) h e a (inl i) t =
      let tx : q x ≡ true = subst (λ b. q b ≡ true) i t in
      subst (λ b. p b ≡ true) (sym i)
        (ground (arith, h x (inl refl), length-filter_mono xs (λ b j. h b (inr j))))
  filter_full (x ∷ xs) h e a (inr i) t =
      filter_full xs (λ b j. h b (inr j))
        (ground (arith, h x (inl refl), length-filter_mono xs (λ b j. h b (inr j)))) a i t

  pub length-filter_eq :
      (xs : List A)
      → Implies xs
      → ((a : A) → In a xs → q a ≡ true → p a ≡ true)
      → length (filter p xs) ≡ length (filter q xs)
  unfolding filter
  length-filter_eq [] h k = refl
  length-filter_eq (x ∷ xs) h k = ground (
    arith,
    h x (inl refl),
    k x (inl refl),
    length-filter_eq xs (λ b j. h b (inr j)) (λ b j. k b (inr j)),
  )
