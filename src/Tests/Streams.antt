-- ===== src/Tests/Streams.antt =====
-- transform/transform.go on short streams.
use qoder_2api_go.Prelude.{
  ℕ, ◌≤◌, ◌≡◌, refl, true, Option, none, some, List, [], ◌∷◌, ◌++◌, arith, length,
}
use qoder_2api_go.Prelude.Int.{pos}
use qoder_2api_go.Text.{Text, codes}
use qoder_2api_go.Transform.ToolCalls.{CallDelta, ToolCall, blank_call, max_tool_calls, append}
use qoder_2api_go.Transform.Stream.{Delta, new_stream, flush}
use qoder_2api_go.Transform.Fragments.{arguments_at, parts_for, append-bound, append-arguments}
use qoder_2api_go.Transform.Delivery.{RoleOnce, accept_all, stream-RoleOnce}
use qoder_2api_go.Transform.Content.{text_of, stream-content}

abbrev piece : ℕ → Text → CallDelta
piece i text = record {
  index = some (pos i);
  id = none;
  call_type = none;
  name = none;
  arguments = some text;
}

abbrev pieces : List CallDelta
pieces = piece 0 (codes "{") ∷ piece 1 (codes "[") ∷ piece 0 (codes "}") ∷ []

abbrev two_calls : List ToolCall
two_calls = blank_call ∷ blank_call ∷ []

append-bound_example : length (append two_calls pieces) ≤ max_tool_calls
append-bound_example = append-bound two_calls pieces (omega arith)

append-arguments_example : arguments_at 0 (append two_calls pieces) ≡ [] ++ parts_for 2 0 pieces
unfolding qoder_2api_go.Transform.ToolCalls.index_of
append-arguments_example =
    append-arguments 0 pieces two_calls (omega arith, (omega arith, (omega arith, tt)))
      (omega arith)

abbrev says : Text → Delta
says text = record {
  role = [];
  content = text;
  reasoning_content = [];
  finish_reason = [];
  tool_calls = [];
}

abbrev hello : List Delta
hello = says (codes "Tool") ∷ says (codes " box") ∷ says (codes "es") ∷ []

abbrev no_calls : Text → Option (List CallDelta)
no_calls t = none

stream-RoleOnce_example : RoleOnce (flush no_calls (accept_all (new_stream true) hello)).chunks
stream-RoleOnce_example = stream-RoleOnce no_calls true hello

-- The text starts like tool calls, and is released once it cannot be.
stream-content_example :
    text_of (flush no_calls (accept_all (new_stream true) hello)).chunks ≡ codes "Tool boxes"
unfolding accept_all new_stream
stream-content_example = stream-content no_calls true hello (refl, (refl, (refl, tt))) refl
