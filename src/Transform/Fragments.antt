-- ===== src/Transform/Fragments.antt =====
-- transform/transform.go: what the tool calls of a stream add up to.
use qoder_2api_go.Prelude.{
  ℕ, zero, suc, ◌+◌, ◌-◌, ◌≤◌, ◌<◌, ◌≡◌, refl, sym, ap, subst, ◌∙◌, false, Option, none, some, List,
  [], ◌∷◌, ◌++◌, arith, All, length, length-append, replicate, append-nil, append_assoc, leb, ◌==◌,
  if◌then◌else◌, if-elim,
}
use qoder_2api_go.Prelude.Int.{ℤ}
use qoder_2api_go.Text.{Text}
use qoder_2api_go.Transform.ToolCalls.{
  max_tool_calls, CallDelta, ToolCall, blank_call, fragment, merge, update_at, index_of, append_one,
  append,
}

index_of_le : (n : ℕ) (o : Option ℤ) → index_of n o ≤ n
unfolding index_of
index_of_le n none = omega arith
index_of_le n (some i) = ground arith

length-update_at :
    (i : ℕ) (d : CallDelta) (calls : List ToolCall) → length (update_at i d calls) ≡ length calls
unfolding update_at
length-update_at i d [] = refl
length-update_at zero d (c ∷ calls) = refl
length-update_at (suc i) d (c ∷ calls) = ap suc (length-update_at i d calls)

length-replicate_blank : (n : ℕ) → length (replicate n blank_call) ≡ n
length-replicate_blank zero = refl
length-replicate_blank (suc n) = ap suc (length-replicate_blank n)

length-append_one :
    (calls : List ToolCall) (d : CallDelta)
    → length (append_one calls d)
      ≡ length calls + (index_of (length calls) d.index + 1 - length calls)
unfolding append_one
length-append_one calls d =
    let i = index_of (length calls) d.index in
    let new = replicate (i + 1 - length calls) blank_call in
    length-update_at i d (calls ++ new)
    ∙ omega (arith, length-append calls new, length-replicate_blank (i + 1 - length calls))

-- However the gateway indexes its deltas, a response that holds at most `maxToolCalls` tool calls
-- holds no more of them after.
pub append-bound :
    (calls : List ToolCall) (ds : List CallDelta)
    → length calls ≤ max_tool_calls
    → length (append calls ds) ≤ max_tool_calls
unfolding append
append-bound calls [] h = h
append-bound calls (d ∷ ds) h =
    if-elim (λ (l : List ToolCall). length l ≤ max_tool_calls) (leb max_tool_calls (length calls))
      (λ _. h)
      (λ f. append-bound (append_one calls d) ds (
        let room : length calls < max_tool_calls = ground arith in
        omega (arith, length-append_one calls d, index_of_le (length calls) d.index)))

-- The arguments of a call.
abbrev pub arguments_at : ℕ → List ToolCall → Text
arguments_at j [] = []
arguments_at zero (c ∷ calls) = c.arguments
arguments_at (suc j) (c ∷ calls) = arguments_at j calls

-- The part of a delta that is for the call, where there are so many calls.
abbrev pub part_for : ℕ → ℕ → CallDelta → Text
part_for n j d = if index_of n d.index == j then fragment d else []

abbrev pub parts_for : ℕ → ℕ → List CallDelta → Text
parts_for n j [] = []
parts_for n j (d ∷ ds) = part_for n j d ++ parts_for n j ds

arguments_at-update_at :
    (j i : ℕ) (d : CallDelta) (calls : List ToolCall)
    → i < length calls
    → arguments_at j (update_at i d calls)
      ≡ arguments_at j calls ++ (if i == j then fragment d else [])
unfolding update_at merge
arguments_at-update_at j i d [] h = absurd (omega arith)
arguments_at-update_at zero zero d (c ∷ calls) h = refl
arguments_at-update_at (suc j) zero d (c ∷ calls) h =
    let f : (0 == suc j) ≡ false = ground arith in rw f (sym (append-nil (arguments_at j calls)))
arguments_at-update_at zero (suc i) d (c ∷ calls) h =
    let f : (suc i == 0) ≡ false = ground arith in rw f (sym (append-nil c.arguments))
arguments_at-update_at (suc j) (suc i) d (c ∷ calls) h =
    let e : (suc i == suc j) ≡ (i == j) = ground arith in
    rw e (arguments_at-update_at j i d calls (omega arith))

arguments_at-append_one :
    (j : ℕ) (d : CallDelta) (calls : List ToolCall)
    → index_of (length calls) d.index < length calls
    → arguments_at j (append_one calls d) ≡ arguments_at j calls ++ part_for (length calls) j d
unfolding append_one
arguments_at-append_one j d calls h =
    let i = index_of (length calls) d.index in
    let e : i + 1 - length calls ≡ 0 = omega arith in
    ap (λ k. arguments_at j (update_at i d (calls ++ replicate k blank_call))) e
    ∙ ap (λ l. arguments_at j (update_at i d l)) (append-nil calls)
    ∙ arguments_at-update_at j i d calls h

-- Fragments of parallel calls may come in any interleaving: where each addresses a call that there
-- is, the arguments of each call grow by its own fragments, in their order, while the response
-- holds less than `maxToolCalls` calls.
pub append-arguments :
    (j : ℕ) (ds : List CallDelta) (calls : List ToolCall)
    → All (λ (d : CallDelta). index_of (length calls) d.index < length calls) ds
    → length calls < max_tool_calls
    → arguments_at j (append calls ds) ≡ arguments_at j calls ++ parts_for (length calls) j ds
unfolding append
append-arguments j [] calls h room = sym (append-nil (arguments_at j calls))
append-arguments j (d ∷ ds) calls h room =
    let f : leb max_tool_calls (length calls) ≡ false = ground arith in
    let same : length (append_one calls d) ≡ length calls =
      omega (arith, length-append_one calls d, h.0) in
    let rest =
      append-arguments j ds (append_one calls d)
        (subst (λ n. All (λ (x : CallDelta). index_of n x.index < n) ds) (sym same) h.1)
        (omega arith) in
    rw f (
      rest
      ∙ ap (λ n. arguments_at j (append_one calls d) ++ parts_for n j ds) same
      ∙ ap (λ t. t ++ parts_for (length calls) j ds) (arguments_at-append_one j d calls h.0)
      ∙ append_assoc (arguments_at j calls) _ _)
