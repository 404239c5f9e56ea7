-- ===== src/Bridge/Params.antt =====
-- bridge/params.go: which fields of a request become parameters of the gateway request. A number is
-- the text that the client sent. `is_one` tells whether strconv.ParseFloat makes 1 of a number, and
-- `itoa` is strconv.Itoa. A value that was decoded is encoded without an error.
pub mod Assembled
pub mod Verbatim
use qoder_2api_go.Prelude.{
  ℕ, Bool, true, false, not, ◌||◌, Option, none, some, List, [], ◌∷◌, ◌++◌, if◌then◌else◌,
}
use qoder_2api_go.Prelude.Result.{Result, ok, err}
use qoder_2api_go.Text.{Text, codes, text_eq, is_empty}
use qoder_2api_go.Dict.{Dict, insert}
use qoder_2api_go.Json.{
  Json, null, boolean, number, string, array, object, Fields, field, no_fields, get, to_list,
}

abbrev pub passthrough_params : List Text
passthrough_params =
    codes "frequency_penalty"
    ∷ codes "logit_bias"
    ∷ codes "n"
    ∷ codes "presence_penalty"
    ∷ codes "response_format"
    ∷ codes "seed"
    ∷ codes "stop"
    ∷ codes "temperature"
    ∷ codes "top_p"
    ∷ []

-- `v, present := m[name]`
unfoldable pub option_field : Text → Fields → Option Json
unfolding text_eq
option_field name no_fields = none
option_field name (field n v fs) =
    let rest = option_field name fs in if text_eq n name then some v else rest

-- `jsonTypeName`
unfoldable pub json_type_name : Json → Text
json_type_name null = codes "null"
json_type_name (boolean b) = codes "boolean"
json_type_name (number n) = codes "number"
json_type_name (string s) = codes "string"
json_type_name (array vs) = codes "array"
json_type_name (object fs) = codes "object"

-- A value of the wrong type, as a `RequestParamError`.
abbrev pub wrong_type : Text → Json → Text
wrong_type expected v = expected ++ (codes ", got " ++ json_type_name v)

-- `numberJSON`
unfoldable pub number_json : Json → Option Text
number_json (number n) = some n
number_json _ = none

unfoldable pub effort_of : Text → Json → Result Text Text
effort_of expected (string s) = ok s
effort_of expected v = err (wrong_type expected v)

unfoldable pub nested_effort : Json → Result Text Text
unfolding option_field effort_of
nested_effort (object fs) = elim (option_field (codes "effort") fs) [
  | none ↦ ok []
  | some v ↦ effort_of (codes "reasoning.effort must be a string") v
]
nested_effort _ = ok []

-- `resolveReasoningEffort`
unfoldable pub resolve_reasoning_effort : Fields → Result Text Text
unfolding option_field effort_of nested_effort get
resolve_reasoning_effort body = elim (option_field (codes "reasoning_effort") body) [
  | some v ↦ effort_of (codes "reasoning_effort must be a string") v
  | none ↦ nested_effort (get (codes "reasoning") body)
]

-- The number of a field that is present.
unfoldable pub number_field : Text → Option Json → Result Text (Option Text)
number_field key none = ok none
number_field key (some (number n)) = ok (some n)
number_field key (some v) = err (wrong_type (key ++ codes " must be a number") v)

-- `maxThinkingTokensField`
unfoldable pub max_thinking_tokens_field : Fields → Result Text (Option Text)
unfolding number_field option_field
max_thinking_tokens_field body =
    let key = codes "max_thinking_tokens" in number_field key (option_field key body)

-- The first of two fields that is present, if both have the right type.
unfoldable pub first_number :
    Result Text (Option Text) → Result Text (Option Text) → Result Text (Option Text)
first_number (err e) b = err e
first_number (ok a) (err e) = err e
first_number (ok none) (ok b) = ok b
first_number (ok (some n)) (ok b) = ok (some n)

-- `maxTokensField`
unfoldable pub max_tokens_field : Fields → Result Text (Option Text)
unfolding first_number number_field option_field
max_tokens_field body =
    first_number (number_field (codes "max_tokens") (option_field (codes "max_tokens") body)) (
      number_field (codes "max_completion_tokens")
        (option_field (codes "max_completion_tokens") body))

-- `jsonObject.set` for a field that is present
unfoldable pub set_if : Text → Option Json → Dict Json → Dict Json
unfolding insert
set_if key none o = o
set_if key (some v) o = insert key v o

-- The loop over `passthroughParams`.
unfoldable pub pass_through : List Text → Fields → Dict Json → Dict Json
unfolding set_if option_field
pass_through [] body o = o
pass_through (key ∷ names) body o = pass_through names body (set_if key (option_field key body) o)

abbrev pub as_number : Option Text → Option Json
as_number none = none
as_number (some n) = some (number n)

-- The thinking budget: the client's, or 0 where the effort is "none".
unfoldable pub thinking_value : Text → Option Text → Option Json
unfolding text_eq
thinking_value effort (some n) = some (number n)
thinking_value effort none =
    if text_eq effort (codes "none") then some (number (codes "0")) else none

unfoldable pub effort_value : Text → Option Json
effort_value effort = if is_empty effort then none else some (string effort)

-- The parameters, from the two token numbers.
unfoldable pub assemble : Fields → Text → Text → Option Text → Dict Json
unfolding set_if pass_through thinking_value effort_value option_field
assemble body effort max_tokens thinking = pass_through passthrough_params body (
    set_if (codes "tool_choice") (option_field (codes "tool_choice") body) (
      set_if (codes "reasoning_effort") (effort_value effort) (
        set_if (codes "max_thinking_tokens") (thinking_value effort thinking)
          (insert (codes "max_tokens") (number max_tokens) []))))

unfoldable pub or_default_tokens : Text → Option Text → Text
or_default_tokens default none = default
or_default_tokens default (some n) = n

unfoldable pub with_numbers :
    Fields
    → Text
    → Text
    → Result Text (Option Text)
    → Result Text (Option Text)
    → Result Text (Dict Json)
unfolding assemble or_default_tokens
with_numbers body effort default (err e) thinking = err e
with_numbers body effort default (ok n) (err e) = err e
with_numbers body effort default (ok n) (ok thinking) =
    ok (assemble body effort (or_default_tokens default n) thinking)

module _ (is_one : Text → Bool) (itoa : ℕ → Text) where
  unfoldable pub check_choice : Option Json → Option Text
  unfolding json_type_name
  check_choice none = none
  check_choice (some (number n)) =
      if is_one n
      then none
      else some (
          codes "n="
          ++ (n ++ codes " is not supported: this backend always returns a single choice"))
  check_choice (some v) = some (wrong_type (codes "n must be a number") v)

  -- `validateSingleChoice`
  unfoldable pub validate_single_choice : Fields → Option Text
  unfolding check_choice option_field
  validate_single_choice body = check_choice (option_field (codes "n") body)

  unfoldable pub unless_rejected : Option Text → Result Text (Dict Json) → Result Text (Dict Json)
  unless_rejected (some e) r = err e
  unless_rejected none r = r

  -- `buildParameters`
  unfoldable pub build_parameters : Fields → Text → ℕ → Result Text (Dict Json)
  unfolding unless_rejected validate_single_choice with_numbers max_tokens_field
      max_thinking_tokens_field
  build_parameters body effort default_max_tokens = unless_rejected (validate_single_choice body) (
      with_numbers body effort (itoa default_max_tokens) (max_tokens_field body)
        (max_thinking_tokens_field body))

unfoldable pub is_true : Json → Bool
is_true (boolean b) = b
is_true _ = false

unfoldable pub include_usage : Json → Bool
unfolding get is_true
include_usage (object fs) = is_true (get (codes "include_usage") fs)
include_usage _ = false

-- `streamIncludeUsage`
unfoldable pub stream_include_usage : Fields → Bool
unfolding include_usage get
stream_include_usage body = include_usage (get (codes "stream_options") body)

unfoldable pub objects : List Json → List Fields
objects [] = []
objects (object fs ∷ vs) = fs ∷ objects vs
objects (v ∷ vs) = objects vs

-- `extractMessages`
unfoldable pub extract_messages : Json → List Fields
unfolding objects to_list
extract_messages (array vs) = objects (to_list vs)
extract_messages _ = []
