-- ===== src/Transform/ToolCalls.antt =====
-- transform/transform.go: `ToolCallAccumulator`. A JSON object is a record of the fields that the
-- code reads, each absent where it has another type; an index is an integer.
use qoder_2api_go.Prelude.{
  ℕ, zero, suc, ◌+◌, ◌-◌, ◌||◌, Option, none, some, List, [], ◌∷◌, ◌++◌, length, replicate, leb,
  if◌then◌else◌,
}
use qoder_2api_go.Prelude.Int.{ℤ, pos, pos_part, ltb_ℤ}
use qoder_2api_go.Text.{Text, codes}

abbrev pub max_tool_calls : ℕ
max_tool_calls = 128

-- A delta of a tool call, as the gateway sends it.
pub record CallDelta : Type 0 where
  pub index : Option ℤ
  pub id : Option Text
  pub call_type : Option Text
  pub name : Option Text
  pub arguments : Option Text

-- An accumulated tool call.
pub record ToolCall : Type 0 where
  pub id : Text
  pub call_type : Text
  pub name : Text
  pub arguments : Text

abbrev pub blank_call : ToolCall
blank_call = record { id = []; call_type = codes "function"; name = []; arguments = [] }

-- A field that a delta may set.
abbrev pub or_old : Text → Option Text → Text
or_old old none = old
or_old old (some new) = new

abbrev pub fragment : CallDelta → Text
fragment d = or_old [] d.arguments

-- What a delta does to the call at its index.
unfoldable pub merge : CallDelta → ToolCall → ToolCall
merge d c = record {
  id = or_old c.id d.id;
  call_type = or_old c.call_type d.call_type;
  name = or_old c.name d.name;
  arguments = c.arguments ++ fragment d;
}

unfoldable pub update_at : ℕ → CallDelta → List ToolCall → List ToolCall
unfolding merge
update_at i d [] = []
update_at zero d (c ∷ calls) = merge d c ∷ calls
update_at (suc i) d (c ∷ calls) = c ∷ update_at i d calls

-- The index of a delta: one that is missing, negative, or out of range is the next free one.
unfoldable pub index_of : ℕ → Option ℤ → ℕ
index_of n none = n
index_of n (some i) =
    if ltb_ℤ i (pos 0) || ltb_ℤ (pos n) i || leb max_tool_calls (pos_part i) then n else pos_part i

-- One delta: the list grows up to the index, and the call there is updated.
unfoldable pub append_one : List ToolCall → CallDelta → List ToolCall
unfolding index_of update_at
append_one calls d =
    let i = index_of (length calls) d.index in
    update_at i d (calls ++ replicate (i + 1 - length calls) blank_call)

-- `ToolCallAccumulator.Append`, which stops when the list is full.
unfoldable pub append : List ToolCall → List CallDelta → List ToolCall
unfolding append_one
append calls [] = calls
append calls (d ∷ ds) =
    let rest = append (append_one calls d) ds in
    if leb max_tool_calls (length calls) then calls else rest
