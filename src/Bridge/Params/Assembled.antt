-- ===== src/Bridge/Params/Assembled.antt =====
-- bridge/params.go: what is found in the assembled parameters under each name.
use qoder_2api_go.Prelude.{
  ◌≡◌, refl, sym, subst, ap, ◌∙◌, inl, inr, Bool, true, false, ◌||◌, Option, none, some, List, [],
  ◌∷◌, Bool-cases, if◌then◌else◌,
}
use qoder_2api_go.Text.{Text, codes, text_eq, text_eq_iff}
use qoder_2api_go.Dict.{Dict, lookup, insert, lookup-insert}
use qoder_2api_go.Json.{Json, number, Fields}
use qoder_2api_go.Bridge.Params.{
  passthrough_params, option_field, set_if, pass_through, thinking_value, effort_value, assemble,
}

abbrev or_else : Option Json → Option Json → Option Json
or_else none o = o
or_else (some v) o = some v

abbrev pub among : Text → List Text → Bool
among j [] = false
among j (k ∷ ks) = text_eq k j || among j ks

lookup-set_if :
    (key j : Text) (o : Option Json) (m : Dict Json)
    → lookup j (set_if key o m) ≡ (if text_eq key j then or_else o (lookup j m) else lookup j m)
unfolding set_if
lookup-set_if key j none m = sym (same (text_eq key j))
  where
    same : (b : Bool) → (if b then lookup j m else lookup j m) ≡ lookup j m
    same true = refl
    same false = refl
lookup-set_if key j (some v) m = lookup-insert key j v m

lookup-set_if_other :
    (key j : Text) (o : Option Json) (m : Dict Json)
    → text_eq key j ≡ false
    → lookup j (set_if key o m) ≡ lookup j m
lookup-set_if_other key j o m f =
    lookup-set_if key j o m ∙ ap (λ b. if b then or_else o (lookup j m) else lookup j m) f

lookup-set_if_same :
    (key j : Text) (o : Option Json) (m : Dict Json)
    → text_eq key j ≡ true
    → lookup j (set_if key o m) ≡ or_else o (lookup j m)
lookup-set_if_same key j o m t =
    lookup-set_if key j o m ∙ ap (λ b. if b then or_else o (lookup j m) else lookup j m) t

lookup-pass_through_other :
    (names : List Text) (j : Text) (body : Fields) (m : Dict Json)
    → among j names ≡ false
    → lookup j (pass_through names body m) ≡ lookup j m
unfolding pass_through
lookup-pass_through_other [] j body m f = refl
lookup-pass_through_other (k ∷ names) j body m f = elim (Bool-cases (text_eq k j)) [
  | inl t ↦ absurd (cc (let f' : (true || among j names) ≡ false = rw t at f in f'))
  | inr n ↦
      lookup-pass_through_other names j body (set_if k (option_field k body) m)
        (let f' : among j names ≡ false = rw n at f in f')
      ∙ lookup-set_if_other k j (option_field k body) m n
]

or_else_twice : (o p : Option Json) → or_else o (or_else o p) ≡ or_else o p
or_else_twice none p = refl
or_else_twice (some v) p = refl

lookup-pass_through :
    (names : List Text) (j : Text) (body : Fields) (m : Dict Json)
    → among j names ≡ true
    → lookup j (pass_through names body m) ≡ or_else (option_field j body) (lookup j m)
unfolding pass_through
lookup-pass_through [] j body m h = absurd (cc h)
lookup-pass_through (k ∷ names) j body m h =
    let m' = set_if k (option_field k body) m in
    elim (Bool-cases (text_eq k j)) [
      | inl t ↦
          let now : lookup j m' ≡ or_else (option_field j body) (lookup j m) =
            subst (λ x. lookup j m' ≡ or_else (option_field x body) (lookup j m))
              ((text_eq_iff k j).0 t) (lookup-set_if_same k j (option_field k body) m t) in
          elim (Bool-cases (among j names)) [
            | inl again ↦
                lookup-pass_through names j body m' again
                ∙ (ap (or_else (option_field j body)) now
                    ∙ or_else_twice (option_field j body) (lookup j m))
            | inr gone ↦ lookup-pass_through_other names j body m' gone ∙ now
          ]
      | inr n ↦
          let h' : among j names ≡ true = rw n at h in
          lookup-pass_through names j body m' h'
          ∙ ap (or_else (option_field j body)) (lookup-set_if_other k j (option_field k body) m n)
    ]

or_else-none : (o : Option Json) → or_else o none ≡ o
or_else-none none = refl
or_else-none (some v) = refl

distinct_from :
    (k j : Text)
    → among k passthrough_params ≡ false
    → among j passthrough_params ≡ true
    → text_eq k j ≡ false
distinct_from k j f t = elim (Bool-cases (text_eq k j)) [
  | inl e ↦
      absurd
        (cc (f, subst (λ x. among x passthrough_params ≡ true) (sym ((text_eq_iff k j).0 e)) t))
  | inr n ↦ n
]

module _ (body : Fields) (effort : Text) where
  -- The parameters before the fields that are passed through.
  abbrev capped_only : Text → Dict Json
  capped_only n = insert (codes "max_tokens") (number n) []

  abbrev with_thinking : Text → Option Text → Dict Json
  with_thinking n t = set_if (codes "max_thinking_tokens") (thinking_value effort t) (capped_only n)

  abbrev with_effort : Text → Option Text → Dict Json
  with_effort n t = set_if (codes "reasoning_effort") (effort_value effort) (with_thinking n t)

  abbrev with_choice : Text → Option Text → Dict Json
  with_choice n t =
      set_if (codes "tool_choice") (option_field (codes "tool_choice") body) (with_effort n t)

  lookup-capped_only :
      (j n : Text) → text_eq (codes "max_tokens") j ≡ false → lookup j (capped_only n) ≡ none
  unfolding lookup
  lookup-capped_only j n f =
      lookup-insert (codes "max_tokens") j (number n) []
      ∙ ap (λ (b : Bool). if b then some (number n) else none) f

  pub assemble-passed :
      (n : Text) (t : Option Text) (key : Text)
      → among key passthrough_params ≡ true
      → lookup key (assemble body effort n t) ≡ option_field key body
  unfolding assemble
  assemble-passed n t key h =
      lookup-pass_through passthrough_params key body (with_choice n t) h
      ∙ (ap (or_else (option_field key body)) (
            lookup-set_if_other (codes "tool_choice") key _ (with_effort n t)
              (distinct_from (codes "tool_choice") key refl h)
            ∙ (lookup-set_if_other (codes "reasoning_effort") key _ (with_thinking n t)
                  (distinct_from (codes "reasoning_effort") key refl h)
                ∙ (lookup-set_if_other (codes "max_thinking_tokens") key _ (capped_only n)
                      (distinct_from (codes "max_thinking_tokens") key refl h)
                    ∙ lookup-capped_only key n (distinct_from (codes "max_tokens") key refl h))))
          ∙ or_else-none (option_field key body))

  pub assemble-choice :
      (n : Text) (t : Option Text)
      → lookup (codes "tool_choice") (assemble body effort n t)
        ≡ option_field (codes "tool_choice") body
  unfolding assemble
  assemble-choice n t =
      let j = codes "tool_choice" in
      lookup-pass_through_other passthrough_params j body (with_choice n t) refl
      ∙ (lookup-set_if_same j j (option_field j body) (with_effort n t) refl
          ∙ (ap (or_else (option_field j body)) (
                lookup-set_if_other (codes "reasoning_effort") j _ (with_thinking n t) refl
                ∙ (lookup-set_if_other (codes "max_thinking_tokens") j _ (capped_only n) refl
                    ∙ lookup-capped_only j n refl))
              ∙ or_else-none (option_field j body)))

  pub assemble-effort :
      (n : Text) (t : Option Text)
      → lookup (codes "reasoning_effort") (assemble body effort n t) ≡ effort_value effort
  unfolding assemble
  assemble-effort n t =
      let j = codes "reasoning_effort" in
      lookup-pass_through_other passthrough_params j body (with_choice n t) refl
      ∙ (lookup-set_if_other (codes "tool_choice") j _ (with_effort n t) refl
          ∙ (lookup-set_if_same j j (effort_value effort) (with_thinking n t) refl
              ∙ (ap (or_else (effort_value effort)) (
                    lookup-set_if_other (codes "max_thinking_tokens") j _ (capped_only n) refl
                    ∙ lookup-capped_only j n refl)
                  ∙ or_else-none (effort_value effort))))

  pub assemble-thinking :
      (n : Text) (t : Option Text)
      → lookup (codes "max_thinking_tokens") (assemble body effort n t) ≡ thinking_value effort t
  unfolding assemble
  assemble-thinking n t =
      let j = codes "max_thinking_tokens" in
      lookup-pass_through_other passthrough_params j body (with_choice n t) refl
      ∙ (lookup-set_if_other (codes "tool_choice") j _ (with_effort n t) refl
          ∙ (lookup-set_if_other (codes "reasoning_effort") j _ (with_thinking n t) refl
              ∙ (lookup-set_if_same j j (thinking_value effort t) (capped_only n) refl
                  ∙ (ap (or_else (thinking_value effort t)) (lookup-capped_only j n refl)
                      ∙ or_else-none (thinking_value effort t)))))

  pub assemble-tokens :
      (n : Text) (t : Option Text)
      → lookup (codes "max_tokens") (assemble body effort n t) ≡ some (number n)
  unfolding assemble
  assemble-tokens n t =
      let j = codes "max_tokens" in
      lookup-pass_through_other passthrough_params j body (with_choice n t) refl
      ∙ (lookup-set_if_other (codes "tool_choice") j _ (with_effort n t) refl
          ∙ (lookup-set_if_other (codes "reasoning_effort") j _ (with_thinking n t) refl
              ∙ (lookup-set_if_other (codes "max_thinking_tokens") j _ (capped_only n) refl
                  ∙ lookup-insert j j (number n) [])))
