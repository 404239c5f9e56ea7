-- ===== src/Tests/Chats.antt =====
-- bridge/handler.go: a request whose first account is rejected by the gateway and whose second
-- answers, and a conversation that grows.
use qoder_2api_go.Prelude.{
  ℕ, zero, suc, ◌≡◌, ◌∙◌, ap, some_inj, Bool-cases, if◌then◌else◌, refl, sym, inl, inr, true, false,
  Option, none, some, List, [], ◌∷◌, ◌++◌,
}
use qoder_2api_go.Prelude.Int.{pos}
use qoder_2api_go.Text.{Text, codes, text_eq, text_ne}
use qoder_2api_go.Text.Distinct.{Distinct}
use qoder_2api_go.Json.{Json, null, number, string, object, Fields, field, no_fields}
use qoder_2api_go.Dict.{Dict}
use qoder_2api_go.Bridge.Params.Verbatim.{IsVerbatim, build_parameters-IsVerbatim}
use qoder_2api_go.Bridge.Stream.{Try, busy, open_stream, IsSingle, open_stream-IsSingle}
use qoder_2api_go.Bridge.Reply.{ChatError, handle_chat_error}
use qoder_2api_go.Bridge.Failover.{ResolvedBridge, ResolveRequest, Attempt, serve}
use qoder_2api_go.Bridge.Handler.{blank_entry, start_served}
use qoder_2api_go.Bridge.Agreement.{Agrees}
use qoder_2api_go.Bridge.Attempts.{Excludes}
use qoder_2api_go.Bridge.Answers.{handle_chat_error-Agrees, serve-Distinct}
use qoder_2api_go.Bridge.Seed.{seed_loop, conversation_seed}
use qoder_2api_go.Bridge.Turns.{conversation_seed-append}

abbrev account : Text → ResolvedBridge
account id = record {
  has_bridge = true;
  key_id = codes "k";
  key_note = [];
  account_id = id;
  account_note = [];
  region = [];
  binds = true;
}

abbrev rejected : ChatError
rejected = record {
  reported = none;
  parameter = none;
  upstream = none;
  in_stream = none;
  auth = some (codes "401");
  unsupported = none;
  busy = none;
  canceled = false;
  message = codes "401";
  says_unsupported = false;
}

-- The first call is rejected, the others succeed.
abbrev chat : ℕ → ResolvedBridge → Attempt ℕ
chat zero rb = record { usages = []; error = some rejected }
chat (suc n) rb = record {
  usages =
      record { prompt_tokens = pos 3; completion_tokens = pos 4; total_tokens = pos 7; credits = 2 }
      ∷ [];
  error = none;
}

-- The account "b", unless it is excluded.
abbrev failover : Text → List Text → Option ResolvedBridge
failover failed [] = some (account (codes "b"))
failover failed (x ∷ xs) =
    let rest = failover failed xs in if text_eq (codes "b") x then none else rest

failover-b :
    (failed : Text) (xs : List Text) (next : ResolvedBridge)
    → failover failed xs ≡ some next
    → next.account_id ≡ codes "b"
failover-b failed [] next h = ap (λ (rb : ResolvedBridge). rb.account_id) (sym (some_inj h))
failover-b failed (x ∷ xs) next h = elim (Bool-cases (text_eq (codes "b") x)) [
  | inl t ↦ let h' : ◌≡◌ {A = Option ResolvedBridge} none (some next) = rw t at h in absurd (cc h')
  | inr f ↦ let h' : failover failed xs ≡ some next = rw f at h in failover-b failed xs next h'
]

failover-Excludes : Excludes {R = ℕ} chat failover
failover-Excludes failed [] next h i = i
failover-Excludes failed (x ∷ xs) next h i = elim (Bool-cases (text_eq (codes "b") x)) [
  | inl t ↦ let h' : ◌≡◌ {A = Option ResolvedBridge} none (some next) = rw t at h in absurd (cc h')
  | inr f ↦
      let h' : failover failed xs ≡ some next = rw f at h in
      elim i [
        | inl e ↦ text_ne (codes "b") x f (sym (failover-b failed xs next h') ∙ e)
        | inr j ↦ failover-Excludes failed xs next h' j
      ]
]

abbrev resolve : ResolveRequest → Option ResolvedBridge
resolve q = some (account (codes "a"))

abbrev body : Fields
body = field (codes "model") (string (codes "cn/GLM-5.3")) no_fields

serve-Distinct_example : Distinct (codes "b" ∷ codes "a" ∷ [])
unfolding serve text_eq start_served
serve-Distinct_example =
    serve-Distinct chat failover 0 (pos 0) (account (codes "a")) (blank_entry 0) failover-Excludes

handle_chat_error-Agrees_example : Agrees rejected (handle_chat_error rejected)
handle_chat_error-Agrees_example = handle_chat_error-Agrees rejected

abbrev asks : Json
asks = object (
    field (codes "role") (string (codes "user"))
      (field (codes "content") (string (codes "hi")) no_fields))

conversation_seed-append_example :
    conversation_seed (λ s. s) (λ v. none) (asks ∷ asks ∷ []) null (codes "GLM-5.3")
    ≡ conversation_seed (λ s. s) (λ v. none) (asks ∷ []) null (codes "GLM-5.3")
unfolding seed_loop
conversation_seed-append_example =
    conversation_seed-append (λ s. s) (λ v. none) (asks ∷ []) (asks ∷ []) null (codes "GLM-5.3")
      (codes "hi" ++ (0 ∷ codes "img:")) refl

abbrev params_body : Fields
params_body =
    field (codes "max_completion_tokens") (number (codes "1e3"))
      (field (codes "temperature") (number (codes "0.5")) no_fields)

abbrev sent_params : Dict Json
sent_params =
    (codes "max_tokens", number (codes "1e3"))
    ∷ (codes "max_thinking_tokens", number (codes "0"))
    ∷ (codes "reasoning_effort", string (codes "none"))
    ∷ (codes "temperature", number (codes "0.5"))
    ∷ []

build_parameters-IsVerbatim_example :
    IsVerbatim params_body (codes "none") (codes "32000") sent_params
unfolding qoder_2api_go.Bridge.Params.build_parameters
build_parameters-IsVerbatim_example =
    build_parameters-IsVerbatim (λ s. false) (λ n. codes "32000") params_body (codes "none") 32_000
      sent_params refl

-- The gateway is busy first, and then answers.
abbrev busy_once : ℕ → Try
busy_once zero = record { lines = []; error = some (busy 0) }
busy_once (suc n) = record { lines = codes "data: 1" ∷ []; error = none }

open_stream-IsSingle_example : IsSingle busy_once (open_stream busy_once true false)
open_stream-IsSingle_example = open_stream-IsSingle busy_once true false
