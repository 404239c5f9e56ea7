-- ===== src/Transform/Stream.antt =====
-- transform/transform.go: `StreamAccumulator`. A chunk is a record of what `makeSSEChunk` is given;
-- `chunks` is what was emitted, to `emitFn` or to the field of that name.
use qoder_2api_go.Prelude.{
  ℕ, ◌+◌, Bool, true, false, not, ◌||◌, ◌&&◌, Option, none, some, List, [], ◌∷◌, ◌++◌, ◌==◌,
  if◌then◌else◌,
}
use qoder_2api_go.Prelude.Int.{ℤ, pos}
use qoder_2api_go.Text.{Text, codes, is_empty, strip_prefix, trim_left}
use qoder_2api_go.Transform.ToolCalls.{CallDelta, ToolCall, append}

pub record Delta : Type 0 where
  pub role : Text
  pub content : Text
  pub reasoning_content : Text
  pub finish_reason : Text
  pub tool_calls : List CallDelta

pub record Chunk : Type 0 where
  pub role : Text
  pub content : Text
  pub reasoning_content : Text
  pub tool_calls : List CallDelta

pub record Stream : Type 0 where
  pub tool_call_fallback : Bool
  pub tool_calls : List ToolCall
  pub pending_content : List Text
  pub pending_role : Text
  pub finish_reason : Text
  pub emitted : Bool
  pub streaming_text : Bool
  pub chunks : List Chunk

-- `NewStreamAccumulator`
unfoldable pub new_stream : Bool → Stream
new_stream fallback = record {
  tool_call_fallback = fallback;
  tool_calls = [];
  pending_content = [];
  pending_role = codes "assistant";
  finish_reason = [];
  emitted = false;
  streaming_text = false;
  chunks = [];
}

-- `strings.Join(parts, "")`
unfoldable pub join : List Text → Text
join [] = []
join (t ∷ ts) = t ++ join ts

abbrev pub is_some : {A : Type 0} → Option A → Bool
is_some none = false
is_some (some a) = true

-- `strings.HasPrefix`
unfoldable pub has_prefix : Text → Text → Bool
unfolding strip_prefix
has_prefix s prefix = is_some (strip_prefix prefix s)

-- `isPotentialToolCallText`
unfoldable pub is_potential_tool_call_text : Text → Bool
unfolding has_prefix trim_left
is_potential_tool_call_text text =
    let candidate = trim_left (λ c. c == 0x20 || c == 9 || c == 10 || c == 13) text in
    is_empty candidate
    || has_prefix (codes "Tool calls:") candidate
    || has_prefix candidate (codes "Tool calls:")

-- `withToolCallIndices`, from the given index on
unfoldable pub with_indices : ℕ → List CallDelta → List CallDelta
with_indices n [] = []
with_indices n (d ∷ ds) = record d { index = some (index_or n d.index) } ∷ with_indices (n + 1) ds
  where
    index_or : ℕ → Option ℤ → ℤ
    index_or n none = pos n
    index_or n (some i) = i

-- The role of the next chunk.
unfoldable pub role_of : Stream → Text
role_of s =
    if s.emitted then [] else if is_empty s.pending_role then codes "assistant" else s.pending_role

-- `emit`
unfoldable pub emit : Stream → Text → Text → List CallDelta → Stream
unfolding role_of
emit s content reasoning calls = record s {
  chunks =
      s.chunks
      ++ (record {
        role = role_of s;
        content = content;
        reasoning_content = reasoning;
        tool_calls = calls;
      }
          ∷ []);
  emitted = true;
}

-- `x == nil || len(x) == 0`
abbrev pub is_nil : {A : Type 0} → List A → Bool
is_nil [] = true
is_nil (x ∷ xs) = false

-- `emitBufferedText`
unfoldable pub emit_buffered_text : Stream → Stream
unfolding emit join
emit_buffered_text s =
    if is_nil s.pending_content
    then s
    else emit (record s { pending_content = [] }) (join s.pending_content) [] []

-- `discardBufferedToolCallText`
unfoldable pub discard_buffered_tool_call_text : Stream → Stream
unfolding emit join is_potential_tool_call_text
discard_buffered_tool_call_text s =
    let buffered = join s.pending_content in
    let rest = record s { pending_content = [] } in
    if is_nil s.pending_content
    then s
    else if s.tool_call_fallback && is_potential_tool_call_text buffered
    then rest
    else emit (record rest { streaming_text = true }) buffered [] []

-- `Accept`: the role and the finish reason of a delta.
unfoldable pub note_delta : Stream → Delta → Stream
note_delta s d = record s {
  pending_role = if is_empty d.role then s.pending_role else d.role;
  finish_reason = if is_empty d.finish_reason then s.finish_reason else d.finish_reason;
}

-- `Accept`: reasoning is never buffered.
unfoldable pub accept_reasoning : Stream → Text → Stream
unfolding emit
accept_reasoning s reasoning = if is_empty reasoning then s else emit s [] reasoning []

-- `Accept`: the tool calls of a delta that has some.
unfoldable pub accept_calls : Stream → List CallDelta → Stream
unfolding discard_buffered_tool_call_text append emit with_indices
accept_calls s calls =
    let s' = discard_buffered_tool_call_text s in
    emit (record s' { tool_calls = append s'.tool_calls calls }) [] [] (with_indices 0 calls)

-- `Accept`: text that has joined the buffer stays there while it may be a tool call.
unfoldable pub settle : Stream → Stream
unfolding emit_buffered_text is_potential_tool_call_text
settle s =
    if is_potential_tool_call_text (join s.pending_content)
    then s
    else emit_buffered_text (record s { streaming_text = true })

-- `Accept`: the text of a delta without tool calls.
unfoldable pub accept_text : Stream → Text → Stream
unfolding emit settle
accept_text s content =
    if is_empty content
    then s
    else if not s.tool_call_fallback || s.streaming_text
    then emit (record s { streaming_text = true }) content [] []
    else settle (record s { pending_content = s.pending_content ++ (content ∷ []) })

-- `StreamAccumulator.Accept`
unfoldable pub accept : Stream → Delta → Stream
unfolding note_delta accept_reasoning accept_calls accept_text
accept s d =
    let s' = accept_reasoning (note_delta s d) d.reasoning_content in
    if is_nil d.tool_calls then accept_text s' d.content else accept_calls s' d.tool_calls

-- `Flush` of text that is buffered, with the tool calls that are read from it, if there are any.
unfoldable pub flush_as : Stream → Text → Option (List CallDelta) → Stream
unfolding append emit with_indices
flush_as s buffered (some calls) =
    emit (record s { tool_calls = append s.tool_calls calls }) [] [] (with_indices 0 calls)
flush_as s buffered none = emit (record s { streaming_text = true }) buffered [] []

-- `StreamAccumulator.Flush`; `parse` is `ParseToolCallsText` with its result as deltas.
unfoldable pub flush : (Text → Option (List CallDelta)) → Stream → Stream
unfolding flush_as join
flush parse s =
    let buffered = join s.pending_content in
    if is_nil s.pending_content
    then s
    else flush_as (record s { pending_content = [] }) buffered
        (if s.tool_call_fallback then parse buffered else none)

-- `FinishReason`
unfoldable pub final_reason : Stream → Text
final_reason s =
    if not (is_nil s.tool_calls)
    then codes "tool_calls"
    else if is_empty s.finish_reason
    then codes "stop"
    else s.finish_reason
