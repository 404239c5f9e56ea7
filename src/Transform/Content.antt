-- ===== src/Transform/Content.antt =====
-- transform/transform.go: the text of a stream reaches the client whole and in order.
use qoder_2api_go.Prelude.{
  ◌≡◌, refl, sym, ap, subst, ◌∙◌, Bool, true, false, not, ◌||◌, Option, none, List, [], ◌∷◌, ◌++◌,
  All, append-nil, append_assoc, if◌then◌else◌, if-elim,
}
use qoder_2api_go.Text.{Text, is_empty}
use qoder_2api_go.Transform.ToolCalls.{CallDelta}
use qoder_2api_go.Transform.Stream.{
  Delta, Chunk, Stream, new_stream, join, is_nil, is_potential_tool_call_text, emit,
  emit_buffered_text, note_delta, accept_reasoning, settle, accept_text, accept_calls, accept,
  flush_as, flush,
}
use qoder_2api_go.Transform.Delivery.{accept_all}

-- The text of chunks, and of deltas.
abbrev pub text_of : List Chunk → Text
text_of [] = []
text_of (c ∷ cs) = c.content ++ text_of cs

abbrev pub content_of : List Delta → Text
content_of [] = []
content_of (d ∷ ds) = d.content ++ content_of ds

text_of-append : (cs : List Chunk) (c : Chunk) → text_of (cs ++ (c ∷ [])) ≡ text_of cs ++ c.content
text_of-append [] c = append-nil c.content
text_of-append (x ∷ cs) c =
    ap (λ t. x.content ++ t) (text_of-append cs c)
    ∙ sym (append_assoc x.content (text_of cs) c.content)

join-append : (ts : List Text) (t : Text) → join (ts ++ (t ∷ [])) ≡ join ts ++ t
unfolding join
join-append [] t = append-nil t
join-append (u ∷ ts) t = ap (λ v. u ++ v) (join-append ts t) ∙ sym (append_assoc u (join ts) t)

-- The text has been emitted or is buffered; where text is streamed nothing is buffered.
record Holds (t : Text) (s : Stream) : Type 0 where
  whole : text_of s.chunks ++ join s.pending_content ≡ t
  streamed : (not s.tool_call_fallback || s.streaming_text) ≡ true → s.pending_content ≡ []

emit-text :
    (s : Stream) (content reasoning : Text) (calls : List CallDelta)
    → text_of (emit s content reasoning calls).chunks ≡ text_of s.chunks ++ content
unfolding emit
emit-text s content reasoning calls = text_of-append s.chunks _

emit-pending :
    (s : Stream) (content reasoning : Text) (calls : List CallDelta)
    → (emit s content reasoning calls).pending_content ≡ s.pending_content
unfolding emit
emit-pending s content reasoning calls = refl

-- Text goes out when nothing is buffered any more.
emit-Holds :
    (s : Stream) (before content : Text)
    → s.pending_content ≡ []
    → text_of s.chunks ≡ before
    → Holds (before ++ content) (emit s content [] [])
unfolding emit join
emit-Holds s before content e h = record {
  whole =
      ap (λ p. text_of (emit s content [] []).chunks ++ join p) e
      ∙ append-nil _
      ∙ emit-text s content [] []
      ∙ ap (λ t. t ++ content) h;
  streamed = λ _. e;
}

reasoning-Holds :
    (s : Stream) (t reasoning : Text) → Holds t s → Holds t (accept_reasoning s reasoning)
unfolding accept_reasoning emit
reasoning-Holds s t reasoning v =
    if-elim (Holds t) (is_empty reasoning) (λ _. v)
      (λ _. record {
        whole =
            ap (λ u. u ++ join s.pending_content)
              (emit-text s [] reasoning [] ∙ append-nil (text_of s.chunks))
            ∙ v.whole;
        streamed = v.streamed;
      })

is_nil-nil : {A : Type 0} (xs : List A) → is_nil xs ≡ true → xs ≡ []
is_nil-nil [] h = refl
is_nil-nil (x ∷ xs) h = absurd (cc h)

buffered-Holds :
    (s : Stream) (t : Text)
    → text_of s.chunks ++ join s.pending_content ≡ t
    → Holds t (emit_buffered_text s)
unfolding emit_buffered_text
buffered-Holds s t h =
    if-elim (Holds t) (is_nil s.pending_content)
      (λ n. record { whole = h; streamed = λ _. is_nil-nil s.pending_content n })
      (λ _.
        subst
          (λ u. Holds u (emit (record s { pending_content = [] }) (join s.pending_content) [] [])) h
          (emit-Holds (record s { pending_content = [] }) (text_of s.chunks)
            (join s.pending_content) refl refl))

settle-Holds :
    (s : Stream) (t : Text)
    → text_of s.chunks ++ join s.pending_content ≡ t
    → (not s.tool_call_fallback || s.streaming_text) ≡ false
    → Holds t (settle s)
unfolding settle
settle-Holds s t h f =
    if-elim (Holds t) (is_potential_tool_call_text (join s.pending_content))
      (λ _. record { whole = h; streamed = λ q. absurd (cc (f, q)) })
      (λ _. buffered-Holds (record s { streaming_text = true }) t h)

text-Holds :
    (s : Stream) (t content : Text) → Holds t s → Holds (t ++ content) (accept_text s content)
unfolding accept_text join
text-Holds s t [] v = subst (λ u. Holds u s) (sym (append-nil t)) v
text-Holds s t (c ∷ content) v =
    if-elim (Holds (t ++ (c ∷ content))) (not s.tool_call_fallback || s.streaming_text)
      (λ q.
        emit-Holds (record s { streaming_text = true }) t (c ∷ content) (v.streamed q)
          (sym (append-nil (text_of s.chunks))
            ∙ ap (λ p. text_of s.chunks ++ join p) (sym (v.streamed q))
            ∙ v.whole))
      (λ f.
        settle-Holds (record s { pending_content = s.pending_content ++ ((c ∷ content) ∷ []) })
          (t ++ (c ∷ content))
          (ap (λ u. text_of s.chunks ++ u) (join-append s.pending_content (c ∷ content))
            ∙ sym (append_assoc (text_of s.chunks) (join s.pending_content) (c ∷ content))
            ∙ ap (λ u. u ++ (c ∷ content)) v.whole)
          f)

note-Holds : (s : Stream) (t : Text) (d : Delta) → Holds t s → Holds t (note_delta s d)
unfolding note_delta
note-Holds s t d v = record { whole = v.whole; streamed = v.streamed }

accept-Holds :
    (s : Stream) (t : Text) (d : Delta)
    → d.tool_calls ≡ []
    → Holds t s
    → Holds (t ++ d.content) (accept s d)
unfolding accept
accept-Holds s t d e v =
    let s' = accept_reasoning (note_delta s d) d.reasoning_content in
    let w : Holds t s' =
      reasoning-Holds (note_delta s d) t d.reasoning_content (note-Holds s t d v) in
    subst
      (λ (calls : List CallDelta).
        Holds (t ++ d.content)
          (if is_nil calls then accept_text s' d.content else accept_calls s' calls))
      (sym e) (text-Holds s' t d.content w)

accept_all-Holds :
    (s : Stream) (t : Text) (ds : List Delta)
    → All (λ (d : Delta). d.tool_calls ≡ []) ds
    → Holds t s
    → Holds (t ++ content_of ds) (accept_all s ds)
unfolding accept_all
accept_all-Holds s t [] h v = subst (λ u. Holds u s) (sym (append-nil t)) v
accept_all-Holds s t (d ∷ ds) h v =
    subst (λ u. Holds u (accept_all s (d ∷ ds))) (append_assoc t d.content (content_of ds))
      (accept_all-Holds (accept s d) (t ++ d.content) ds h.1 (accept-Holds s t d h.0 v))

new_stream-Holds : (fallback : Bool) → Holds [] (new_stream fallback)
unfolding new_stream join
new_stream-Holds fallback = record { whole = refl; streamed = λ _. refl }

flush-text :
    (parse : Text → Option (List CallDelta)) (s : Stream) (t : Text)
    → Holds t s
    → (if s.tool_call_fallback then parse (join s.pending_content) else none) ≡ none
    → text_of (flush parse s).chunks ≡ t
unfolding flush flush_as join
flush-text parse s t v e =
    let buffered = join s.pending_content in
    if-elim (λ (s' : Stream). text_of s'.chunks ≡ t) (is_nil s.pending_content)
      (λ n.
        sym (append-nil (text_of s.chunks))
        ∙ ap (λ p. text_of s.chunks ++ join p) (sym (is_nil-nil s.pending_content n))
        ∙ v.whole)
      (λ _.
        subst (λ o. text_of (flush_as (record s { pending_content = [] }) buffered o).chunks ≡ t)
          (sym e)
          (emit-text (record s { pending_content = []; streaming_text = true }) buffered [] []
            ∙ v.whole))

-- Where no delta has tool calls, and the text that is still buffered at the end is none that is read
-- as tool calls, the chunks of the stream with its flush hold the text of the deltas, whole and in
-- order.
pub stream-content :
    (parse : Text → Option (List CallDelta)) (fallback : Bool) (ds : List Delta)
    → let s = accept_all (new_stream fallback) ds in
      All (λ (d : Delta). d.tool_calls ≡ []) ds
      → (if s.tool_call_fallback then parse (join s.pending_content) else none) ≡ none
      → text_of (flush parse s).chunks ≡ content_of ds
stream-content parse fallback ds h e =
    let s = accept_all (new_stream fallback) ds in
    flush-text parse s (content_of ds)
      (accept_all-Holds (new_stream fallback) [] ds h (new_stream-Holds fallback)) e
