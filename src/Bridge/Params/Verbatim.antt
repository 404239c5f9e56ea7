-- ===== src/Bridge/Params/Verbatim.antt =====
-- bridge/params.go: what the client sent reaches the gateway as it was sent.
use qoder_2api_go.Prelude.{
  ℕ, ◌≡◌, ◌≢◌, refl, sym, subst, ◌∙◌, Bool, true, Option, none, some, [], ◌∷◌, if-elim,
}
use qoder_2api_go.Prelude.Result.{Result, ok, err}
use qoder_2api_go.Text.{Text, codes, text_eq, text_eq_iff}
use qoder_2api_go.Dict.{Dict, lookup}
use qoder_2api_go.Json.{Json, number, string, Fields}
use qoder_2api_go.Bridge.Params.{
  passthrough_params, option_field, thinking_value, effort_value, assemble, or_default_tokens,
  with_numbers, number_field, first_number, max_tokens_field, max_thinking_tokens_field,
  validate_single_choice, unless_rejected, build_parameters,
}
use qoder_2api_go.Bridge.Params.Assembled.{
  among, assemble-passed, assemble-choice, assemble-effort, assemble-thinking, assemble-tokens,
}

-- The cap on tokens that a request asks for: the number of max_tokens, or else that of
-- max_completion_tokens, or else the default.
pub data IsCap (body : Fields) (default cap : Text) : Type 0 where
  asked : option_field (codes "max_tokens") body ≡ some (number cap) → IsCap body default cap
  asked_completion :
      option_field (codes "max_tokens") body ≡ none
      → option_field (codes "max_completion_tokens") body ≡ some (number cap)
      → IsCap body default cap
  defaulted :
      option_field (codes "max_tokens") body ≡ none
      → option_field (codes "max_completion_tokens") body ≡ none
      → cap ≡ default
      → IsCap body default cap

-- The thinking budget of a request: the number of max_thinking_tokens; without that field, 0 where
-- the effort is "none", and no budget otherwise.
pub data IsBudget (body : Fields) (effort : Text) (budget : Option Json) : Type 0 where
  budgeted :
      (n : Text)
      → option_field (codes "max_thinking_tokens") body ≡ some (number n)
      → budget ≡ some (number n)
      → IsBudget body effort budget
  switched_off :
      option_field (codes "max_thinking_tokens") body ≡ none
      → effort ≡ codes "none"
      → budget ≡ some (number (codes "0"))
      → IsBudget body effort budget
  unbudgeted :
      option_field (codes "max_thinking_tokens") body ≡ none
      → effort ≢ codes "none"
      → budget ≡ none
      → IsBudget body effort budget

-- What the gateway gets: the fields that are passed through, and the tool choice, as the request has
-- them; the cap, the budget and the effort that it asks for.
pub record IsVerbatim (body : Fields) (effort default : Text) (m : Dict Json) : Type 0 where
  pub passed :
      (key : Text) → among key passthrough_params ≡ true → lookup key m ≡ option_field key body
  pub capped :
      (cap : Text) × ((lookup (codes "max_tokens") m ≡ some (number cap)) × IsCap body default cap)
  pub thinks : IsBudget body effort (lookup (codes "max_thinking_tokens") m)
  pub effort_unsent : effort ≡ [] → lookup (codes "reasoning_effort") m ≡ none
  pub effort_sent : effort ≢ [] → lookup (codes "reasoning_effort") m ≡ some (string effort)
  pub tool_choice_sent : lookup (codes "tool_choice") m ≡ option_field (codes "tool_choice") body

effort_value-nil : (effort : Text) → effort ≡ [] → effort_value effort ≡ none
unfolding effort_value
effort_value-nil [] h = refl
effort_value-nil (c ∷ s) h = absurd (cc h)

effort_value-full : (effort : Text) → effort ≢ [] → effort_value effort ≡ some (string effort)
unfolding effort_value
effort_value-full [] f = absurd (f refl)
effort_value-full (c ∷ s) f = refl

-- What a token field holds where it has the right type.
number_field-none : (key : Text) (o : Option Json) → number_field key o ≡ ok none → o ≡ none
unfolding number_field
number_field-none key none h = refl
number_field-none key (some (number t)) h = absurd (cc h)
number_field-none key (some v) h = absurd (cc h)

number_field-some :
    (key : Text) (o : Option Json) (n : Text)
    → number_field key o ≡ ok (some n)
    → o ≡ some (number n)
unfolding number_field
number_field-some key none n h = absurd (cc h)
number_field-some key (some (number t)) n h = cc h
number_field-some key (some v) n h = absurd (cc h)

or_default_tokens-IsCap :
    (body : Fields) (default : Text) (n : Option Text)
    → max_tokens_field body ≡ ok n
    → IsCap body default (or_default_tokens default n)
unfolding max_tokens_field or_default_tokens first_number
or_default_tokens-IsCap body default n h =
    go n (number_field (codes "max_tokens") (option_field (codes "max_tokens") body))
      (number_field (codes "max_completion_tokens")
        (option_field (codes "max_completion_tokens") body))
      refl refl h
  where
    go :
        (n : Option Text) (a b : Result Text (Option Text))
        → number_field (codes "max_tokens") (option_field (codes "max_tokens") body) ≡ a
        → number_field
            (codes "max_completion_tokens")
            (option_field (codes "max_completion_tokens") body)
          ≡ b
        → first_number a b ≡ ok n
        → IsCap body default (or_default_tokens default n)
    go n (err e) b p q h = absurd (cc h)
    go n (ok a) (err e) p q h = absurd (cc h)
    go none (ok none) (ok none) p q h =
        defaulted
          (number_field-none (codes "max_tokens") (option_field (codes "max_tokens") body) p)
          (number_field-none (codes "max_completion_tokens")
            (option_field (codes "max_completion_tokens") body) q)
          refl
    go (some t) (ok none) (ok none) p q h = absurd (cc h)
    go none (ok none) (ok (some u)) p q h = absurd (cc h)
    go (some t) (ok none) (ok (some u)) p q h =
        asked_completion
          (number_field-none (codes "max_tokens") (option_field (codes "max_tokens") body) p)
          (number_field-some (codes "max_completion_tokens")
            (option_field (codes "max_completion_tokens") body) t (q ∙ cc h))
    go none (ok (some u)) (ok b) p q h = absurd (cc h)
    go (some t) (ok (some u)) (ok b) p q h = asked (
        number_field-some (codes "max_tokens") (option_field (codes "max_tokens") body) t
          (p ∙ cc h))

thinking_value-IsBudget :
    (body : Fields) (effort : Text) (n : Option Text)
    → max_thinking_tokens_field body ≡ ok n
    → IsBudget body effort (thinking_value effort n)
unfolding max_thinking_tokens_field thinking_value
thinking_value-IsBudget body effort none h =
    let gone =
      number_field-none (codes "max_thinking_tokens")
        (option_field (codes "max_thinking_tokens") body) h in
    if-elim (IsBudget body effort) (text_eq effort (codes "none"))
      (λ t. switched_off gone ((text_eq_iff effort (codes "none")).0 t) refl)
      (λ f. unbudgeted gone (λ e. absurd (cc (f, (text_eq_iff effort (codes "none")).1 e))) refl)
thinking_value-IsBudget body effort (some t) h =
    budgeted t
      (number_field-some (codes "max_thinking_tokens")
        (option_field (codes "max_thinking_tokens") body) t h)
      refl

module _ (body : Fields) (effort : Text) where
  with_numbers-IsVerbatim :
      (default : Text) (cap thinking : Result Text (Option Text)) (m : Dict Json)
      → max_tokens_field body ≡ cap
      → max_thinking_tokens_field body ≡ thinking
      → with_numbers body effort default cap thinking ≡ ok m
      → IsVerbatim body effort default m
  unfolding with_numbers
  with_numbers-IsVerbatim default (err e) thinking m a b h = absurd (cc h)
  with_numbers-IsVerbatim default (ok n) (err e) m a b h = absurd (cc h)
  with_numbers-IsVerbatim default (ok n) (ok t) m a b h =
      let tokens = or_default_tokens default n in
      let e : assemble body effort tokens t ≡ m = cc h in
      subst (IsVerbatim body effort default) e (record {
        passed = assemble-passed body effort tokens t;
        capped = (
          tokens,
          (assemble-tokens body effort tokens t, or_default_tokens-IsCap body default n a),
        );
        thinks =
            subst (IsBudget body effort) (sym (assemble-thinking body effort tokens t))
              (thinking_value-IsBudget body effort t b);
        effort_unsent = λ e. assemble-effort body effort tokens t ∙ effort_value-nil effort e;
        effort_sent = λ f. assemble-effort body effort tokens t ∙ effort_value-full effort f;
        tool_choice_sent = assemble-choice body effort tokens t;
      })

-- Where the parameters of a request are built, every field that is passed through reaches the gateway
-- with the client's value, and is absent where the client sent none, and so is the tool choice. The
-- cap on tokens is the number of max_tokens, or else that of max_completion_tokens, or else the
-- default. The thinking budget is the number of max_thinking_tokens; where that field is absent, it
-- is 0 if the effort is "none", and absent if not. The effort is sent unless it is empty.
pub build_parameters-IsVerbatim :
    (is_one : Text → Bool) (itoa : ℕ → Text) (body : Fields) (effort : Text) (default : ℕ)
    (m : Dict Json)
    → build_parameters is_one itoa body effort default ≡ ok m
    → IsVerbatim body effort (itoa default) m
unfolding build_parameters
build_parameters-IsVerbatim is_one itoa body effort default m h =
    go (validate_single_choice is_one itoa body) h
  where
    go :
        (o : Option Text)
        → unless_rejected is_one itoa o (
            with_numbers body effort
              (itoa default)
              (max_tokens_field body)
              (max_thinking_tokens_field body))
          ≡ ok m
        → IsVerbatim body effort (itoa default) m
    go (some e) h = absurd (cc h)
    go none h =
        with_numbers-IsVerbatim body effort (itoa default) (max_tokens_field body)
          (max_thinking_tokens_field body) m refl refl h
