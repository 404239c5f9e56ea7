-- ===== src/Transform/Delivery.antt =====
-- transform/transform.go: what a client of the stream receives.
use qoder_2api_go.Prelude.{
  ◌≡◌, ◌≢◌, refl, Bool, true, false, not, ◌||◌, ◌&&◌, Option, none, some, List, [], ◌∷◌, ◌++◌, All,
  All-append, if◌then◌else◌, if-elim,
}
use qoder_2api_go.Text.{Text, codes, is_empty}
use qoder_2api_go.Transform.ToolCalls.{CallDelta, append}
use qoder_2api_go.Transform.Stream.{
  Delta, Chunk, Stream, new_stream, join, is_nil, is_potential_tool_call_text, with_indices,
  role_of, emit, emit_buffered_text, discard_buffered_tool_call_text, note_delta, accept_reasoning,
  accept_calls, settle, accept_text, accept, flush_as, flush,
}

unfoldable pub accept_all : Stream → List Delta → Stream
unfolding accept
accept_all s [] = s
accept_all s (d ∷ ds) = accept_all (accept s d) ds

-- The first chunk tells the role, and no other does.
abbrev pub RoleOnce : List Chunk → Type 0
RoleOnce [] = Unit {0}
RoleOnce (c ∷ cs) = (c.role ≢ []) × All (λ (x : Chunk). x.role ≡ []) cs

abbrev RoleState : Stream → Type 0
RoleState s = RoleOnce s.chunks × (s.emitted ≡ not (is_nil s.chunks))

role-ne-nil : (role : Text) → (if is_empty role then codes "assistant" else role) ≢ []
role-ne-nil [] = λ e. cc
role-ne-nil (c ∷ role) = λ e. cc

emit-RoleState :
    (s : Stream) (content reasoning : Text) (calls : List CallDelta)
    → RoleState s
    → RoleState (emit s content reasoning calls)
unfolding emit role_of
emit-RoleState s content reasoning calls (once, e) = go s.chunks s.emitted once e
  where
    go :
        (cs : List Chunk) (b : Bool)
        → RoleOnce cs
        → b ≡ not (is_nil cs)
        → let c : Chunk = record {
          role =
              if b
              then []
              else if is_empty s.pending_role
              then codes "assistant"
              else s.pending_role;
          content = content;
          reasoning_content = reasoning;
          tool_calls = calls;
        } in
          RoleOnce (cs ++ (c ∷ [])) × (true ≡ not (is_nil (cs ++ (c ∷ []))))
    go [] true once e = absurd (cc e)
    go [] false once e = ((role-ne-nil s.pending_role, tt), refl)
    go (x ∷ cs) false once e = absurd (cc e)
    go (x ∷ cs) true once e = ((once.0, All-append _ cs _ once.1 (refl, tt)), refl)

reasoning-RoleState : (s : Stream) (t : Text) → RoleState s → RoleState (accept_reasoning s t)
unfolding accept_reasoning
reasoning-RoleState s t v =
    if-elim RoleState (is_empty t) (λ _. v) (λ _. emit-RoleState s [] t [] v)

discard-RoleState : (s : Stream) → RoleState s → RoleState (discard_buffered_tool_call_text s)
unfolding discard_buffered_tool_call_text
discard-RoleState s v =
    let buffered = join s.pending_content in
    let rest = record s { pending_content = [] } in
    if-elim RoleState (is_nil s.pending_content) (λ _. v)
      (λ _.
        if-elim RoleState (s.tool_call_fallback && is_potential_tool_call_text buffered) (λ _. v)
          (λ _. emit-RoleState (record rest { streaming_text = true }) buffered [] [] v))

calls-RoleState :
    (s : Stream) (calls : List CallDelta) → RoleState s → RoleState (accept_calls s calls)
unfolding accept_calls
calls-RoleState s calls v =
    let s' = discard_buffered_tool_call_text s in
    emit-RoleState (record s' { tool_calls = append s'.tool_calls calls }) [] []
      (with_indices 0 calls) (discard-RoleState s v)

buffered-RoleState : (s : Stream) → RoleState s → RoleState (emit_buffered_text s)
unfolding emit_buffered_text
buffered-RoleState s v =
    if-elim RoleState (is_nil s.pending_content) (λ _. v)
      (λ _. emit-RoleState (record s { pending_content = [] }) (join s.pending_content) [] [] v)

settle-RoleState : (s : Stream) → RoleState s → RoleState (settle s)
unfolding settle
settle-RoleState s v =
    if-elim RoleState (is_potential_tool_call_text (join s.pending_content)) (λ _. v)
      (λ _. buffered-RoleState (record s { streaming_text = true }) v)

text-RoleState : (s : Stream) (t : Text) → RoleState s → RoleState (accept_text s t)
unfolding accept_text
text-RoleState s t v =
    if-elim RoleState (is_empty t) (λ _. v)
      (λ _.
        if-elim RoleState (not s.tool_call_fallback || s.streaming_text)
          (λ _. emit-RoleState (record s { streaming_text = true }) t [] [] v)
          (λ _. settle-RoleState (record s { pending_content = s.pending_content ++ (t ∷ []) }) v))

accept-RoleState : (s : Stream) (d : Delta) → RoleState s → RoleState (accept s d)
unfolding accept note_delta
accept-RoleState s d v =
    let s' = accept_reasoning (note_delta s d) d.reasoning_content in
    let w : RoleState s' = reasoning-RoleState (note_delta s d) d.reasoning_content v in
    if-elim RoleState (is_nil d.tool_calls) (λ _. text-RoleState s' d.content w)
      (λ _. calls-RoleState s' d.tool_calls w)

accept_all-RoleState : (s : Stream) (ds : List Delta) → RoleState s → RoleState (accept_all s ds)
unfolding accept_all
accept_all-RoleState s [] v = v
accept_all-RoleState s (d ∷ ds) v = accept_all-RoleState (accept s d) ds (accept-RoleState s d v)

flush_as-RoleState :
    (s : Stream) (t : Text) (o : Option (List CallDelta)) → RoleState s → RoleState (flush_as s t o)
unfolding flush_as
flush_as-RoleState s t none v = emit-RoleState (record s { streaming_text = true }) t [] [] v
flush_as-RoleState s t (some calls) v =
    emit-RoleState (record s { tool_calls = append s.tool_calls calls }) [] []
      (with_indices 0 calls) v

flush-RoleState :
    (parse : Text → Option (List CallDelta)) (s : Stream) → RoleState s → RoleState (flush parse s)
unfolding flush
flush-RoleState parse s v =
    let buffered = join s.pending_content in
    if-elim RoleState (is_nil s.pending_content) (λ _. v)
      (λ _.
        flush_as-RoleState (record s { pending_content = [] }) buffered
          (if s.tool_call_fallback then parse buffered else none) v)

-- Of the chunks of a whole stream, with its flush, the first has a role and no other has one.
pub stream-RoleOnce :
    (parse : Text → Option (List CallDelta)) (fallback : Bool) (ds : List Delta)
    → RoleOnce (flush parse (accept_all (new_stream fallback) ds)).chunks
stream-RoleOnce parse fallback ds =
    let s = accept_all (new_stream fallback) ds in
    (flush-RoleState parse s
      (accept_all-RoleState (new_stream fallback) ds (unfold new_stream in (tt, refl)))).0
