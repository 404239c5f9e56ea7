-- ===== src/Text/Distinct.antt =====
-- Lists of distinct texts, and the texts that a function reads off the items of a list.
use qoder_2api_go.Prelude.{
  ◌≡◌, refl, sym, subst, ap, inl, inr, Bool, List, [], ◌∷◌, ◌++◌, map, filter, In, In-append_cases,
  Bool-cases,
}
use qoder_2api_go.Text.{Text}

abbrev pub Distinct : List Text → Type 0
Distinct [] = Unit
Distinct (x ∷ xs) = ¬ In x xs × Distinct xs

pub Distinct-snoc : (x : Text) (xs : List Text) → Distinct xs → ¬ In x xs → Distinct (xs ++ x ∷ [])
Distinct-snoc x [] d n = (λ h. h, tt)
Distinct-snoc x (y ∷ ys) (m, d) n = (
  λ i. elim (In-append_cases y ys (x ∷ []) i) [
    | inl j ↦ m j
    | inr (inl e) ↦ n (inl (sym e))
    | inr (inr h) ↦ h
  ],
  Distinct-snoc x ys d (λ i. n (inr i)),
)

module _ {A : Type 0} (f : A → Text) where
  abbrev pub texts : List A → List Text
  texts = map f

  pub texts_snoc : (xs : List A) (a : A) → texts (xs ++ a ∷ []) ≡ texts xs ++ f a ∷ []
  texts_snoc [] a = refl
  texts_snoc (b ∷ xs) a = ap (λ r. f b ∷ r) (texts_snoc xs a)

  pub In-texts-filter :
      (p : A → Bool) (xs : List A) (x : Text) → In x (texts (filter p xs)) → In x (texts xs)
  unfolding filter
  In-texts-filter p [] x i = i
  In-texts-filter p (a ∷ xs) x i = elim (Bool-cases (p a)) [
    | inl t ↦ elim (let j : In x (f a ∷ texts (filter p xs)) = rw t at i in j) [
      | inl e ↦ inl e
      | inr j ↦ inr (In-texts-filter p xs x j)
    ]
    | inr n ↦ inr (In-texts-filter p xs x (let j : In x (texts (filter p xs)) = rw n at i in j))
  ]

  pub Distinct-filter :
      (p : A → Bool) (xs : List A) → Distinct (texts xs) → Distinct (texts (filter p xs))
  unfolding filter
  Distinct-filter p [] d = d
  Distinct-filter p (a ∷ xs) (n, d) = elim (Bool-cases (p a)) [
    | inl t ↦ rw t ((λ i. n (In-texts-filter p xs (f a) i)), Distinct-filter p xs d)
    | inr m ↦ rw m (Distinct-filter p xs d)
  ]

  pub Distinct-texts_snoc :
      (xs : List A) (a : A)
      → Distinct (texts xs)
      → ¬ In (f a) (texts xs)
      → Distinct (texts (xs ++ a ∷ []))
  Distinct-texts_snoc xs a d n =
      subst Distinct (sym (texts_snoc xs a)) (Distinct-snoc (f a) (texts xs) d n)
