-- ===== src/Cors/Allowed.antt =====
-- cors.go: what an origin needs to be allowed.
use qoder_2api_go.Prelude.{
  ◌≡◌, ◌≢◌, ◌↔◌, ◌⊎◌, refl, subst, Bool, true, false, ◌||◌, Option, List, [], ◌∷◌, In, inl, inr,
  if-elim,
}
use qoder_2api_go.Text.{Text, codes, text_eq, text_eq_iff}
use qoder_2api_go.Cors.{
  Url, Policy, split, has_origin, normalize_origin, add_origin, add_parts, parse_cors_policy,
  allows,
}

-- A policy lets the normalized origin pass.
abbrev passes : Policy → Text → Bool
passes p n = p.allow_all || has_origin n p.origins

or_cases : (a b c : Bool) → (a || (b || c)) ≡ true → (b ≡ true) ⊎ ((a || c) ≡ true)
or_cases true b c h = inr refl
or_cases false true c h = inl refl
or_cases false false c h = inr h

or_left : (a b c : Bool) → b ≡ true → (a || (b || c)) ≡ true
or_left true b c h = refl
or_left false b c h = rw h refl

or_right : (a b c : Bool) → (a || c) ≡ true → (a || (b || c)) ≡ true
or_right true b c h = refl
or_right false true c h = refl
or_right false false c h = h

abbrev Fits : Text → Text → Type 0
Fits n o = (o ≡ codes "*") ⊎ ((o ≢ []) × (o ≡ n))

star_passes :
    (o n : Text) (p : Policy)
    → o ≡ codes "*"
    → (passes (record p { allow_all = true }) n ≡ true) ↔ (Fits n o ⊎ (passes p n ≡ true))
star_passes o n p e = (λ _. inl (inl e), λ _. refl)

origin_passes :
    (o n : Text) (p : Policy)
    → text_eq o (codes "*") ≡ false
    → o ≢ []
    → (passes (record p { origins = o ∷ p.origins }) n ≡ true) ↔ (Fits n o ⊎ (passes p n ≡ true))
unfolding has_origin
origin_passes o n p f ne = (
  λ h. elim (or_cases p.allow_all (text_eq o n) (has_origin n p.origins) h) [
    | inl t ↦ inl (inr (ne, (text_eq_iff o n).0 t))
    | inr r ↦ inr r
  ],
  λ x. elim x [
    | inl (inl e) ↦ absurd (cc (f, (text_eq_iff o (codes "*")).1 e))
    | inl (inr (_, e)) ↦
        or_left p.allow_all (text_eq o n) (has_origin n p.origins) ((text_eq_iff o n).1 e)
    | inr r ↦ or_right p.allow_all (text_eq o n) (has_origin n p.origins) r
  ],
)

add_origin-passes :
    (o n : Text) (p : Policy)
    → (passes (add_origin o p) n ≡ true) ↔ (Fits n o ⊎ (passes p n ≡ true))
unfolding add_origin
add_origin-passes [] n p = (
  λ h. inr h,
  λ x. elim x [ inl (inl e) ↦ absurd (cc e) | inl (inr (ne, e)) ↦ absurd (ne refl) | inr h ↦ h ],
)
add_origin-passes (c ∷ o) n p =
    if-elim (λ (p' : Policy). (passes p' n ≡ true) ↔ (Fits n (c ∷ o) ⊎ (passes p n ≡ true)))
      (text_eq (c ∷ o) (codes "*"))
      (λ t. star_passes (c ∷ o) n p ((text_eq_iff (c ∷ o) (codes "*")).0 t))
      (λ f. origin_passes (c ∷ o) n p f (λ e. cc))

module _ (parse : Text → Option Url) (lower : Text → Text) where
  -- A part of the specification admits the origin: it is "*", or it names the same origin.
  abbrev pub Admits : Text → Text → Type 0
  Admits origin part =
      let part' = normalize_origin parse lower part in
      (part' ≡ codes "*") ⊎ ((part' ≢ []) × (part' ≡ normalize_origin parse lower origin))

  abbrev pub Some : (Text → Type 0) → List Text → Type 0
  Some P parts = (part : Text) × In part parts × P part

  add_parts-passes :
      (origin : Text) (parts : List Text)
      → (passes (add_parts parse lower parts) (normalize_origin parse lower origin) ≡ true)
        ↔ Some (Admits origin) parts
  unfolding add_parts
  add_parts-passes origin [] = unfold has_origin in (λ h. absurd (cc h), λ (part, i, a). absurd i)
  add_parts-passes origin (part ∷ parts) =
      let n = normalize_origin parse lower origin in
      let o = normalize_origin parse lower part in
      let rest = add_parts-passes origin parts in
      let step = add_origin-passes o n (add_parts parse lower parts) in
      (
        λ h. elim (step.0 h) [
          | inl a ↦ (part, inl refl, a)
          | inr r ↦ let (q, i, a) = rest.0 r in (q, inr i, a)
        ],
        λ (q, i, a). elim i [
          | inl e ↦ step.1 (inl (subst (Admits origin) e a))
          | inr j ↦ step.1 (inr (rest.1 (q, j, a)))
        ],
      )

  -- An origin is allowed exactly when a part of the specification is "*", or names the same origin
  -- once both are normalized.
  pub allows_iff :
      (spec origin : Text)
      → origin ≢ []
      → (allows parse lower (parse_cors_policy parse lower spec) origin ≡ true)
        ↔ Some (Admits origin) (split 0x2C spec)
  unfolding allows parse_cors_policy
  allows_iff spec [] ne = absurd (ne refl)
  allows_iff spec (c ∷ origin) ne = add_parts-passes (c ∷ origin) (split 0x2C spec)
