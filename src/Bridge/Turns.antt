-- ===== src/Bridge/Turns.antt =====
-- bridge/handler.go: the conversation seed over the turns of a conversation.
use qoder_2api_go.Prelude.{
  ◌≡◌, refl, sym, subst, ◌∙◌, Bool, true, false, not, ◌||◌, Option, none, some, List, [], ◌∷◌, ◌++◌,
  if-elim, ◌⊎◌, inl, inr,
}
use qoder_2api_go.Text.{Text, codes, text_eq, is_empty}
use qoder_2api_go.Json.{
  Json, null, boolean, number, string, array, object, Fields, get, string_or_empty,
}
use qoder_2api_go.Bridge.Seed.{
  SeedState, seed_start, seed_system, user_anchor, or_first, seed_message, seed_step, seed_loop,
  message_text, tools_text, seed_of, conversation_seed,
}

-- The loop has seen a user message.
pub record IsAnchored (anchor : Text) (s : SeedState) : Type 0 where
  pub closed : s.system_open ≡ false
  pub seen : s.first_user ≡ some anchor

-- The two fields that the seed depends on.
abbrev Same : SeedState → SeedState → Type 0
Same s t = (t.prefix ≡ s.prefix) × (t.first_user ≡ s.first_user)

seed_message-Same :
    (role anchor : Text) (fs : Fields) (s : SeedState)
    → IsAnchored anchor s
    → Same s (seed_message role fs s) × IsAnchored anchor (seed_message role fs s)
unfolding seed_message seed_system or_first
seed_message-Same role anchor fs s h =
    let P : SeedState → Type 0 = λ t. Same s t × IsAnchored anchor t in
    if-elim P (text_eq role (codes "system") || text_eq role (codes "developer"))
      (λ _.
        if-elim P (not s.system_open || is_empty (message_text fs)) (λ _. ((refl, refl), h))
          (λ f. absurd (still_open s.system_open _ h.closed f)))
      (λ _.
        if-elim P (text_eq role (codes "user"))
          (λ _. (
            (refl, kept (user_anchor fs) s.first_user h.seen),
            record { closed = refl; seen = kept (user_anchor fs) s.first_user h.seen ∙ h.seen },
          ))
          (λ _. ((refl, refl), record { closed = refl; seen = h.seen })))
  where
    still_open : (o x : Bool) → o ≡ false → (not o || x) ≡ false → ⊥
    still_open false x e f = cc
    still_open true x e f = cc

    kept : (first : Text) (o : Option Text) → o ≡ some anchor → or_first first o ≡ o
    kept first none e = absurd (cc e)
    kept first (some t) e = refl

seed_step-Same :
    (anchor : Text) (m : Json) (s : SeedState)
    → IsAnchored anchor s
    → Same s (seed_step m s) × IsAnchored anchor (seed_step m s)
unfolding seed_step
seed_step-Same anchor null s h = ((refl, refl), h)
seed_step-Same anchor (boolean b) s h = ((refl, refl), h)
seed_step-Same anchor (number n) s h = ((refl, refl), h)
seed_step-Same anchor (string t) s h = ((refl, refl), h)
seed_step-Same anchor (array vs) s h = ((refl, refl), h)
seed_step-Same anchor (object fs) s h =
    seed_message-Same (string_or_empty (get (codes "role") fs)) anchor fs s h

-- Behind the first user message, nothing changes what the seed depends on.
seed_loop-Same :
    (anchor : Text) (ms : List Json) (s : SeedState) → IsAnchored anchor s → Same s (seed_loop ms s)
unfolding seed_loop
seed_loop-Same anchor [] s h = (refl, refl)
seed_loop-Same anchor (m ∷ ms) s h =
    let (e, h') = seed_step-Same anchor m s h in
    let d = seed_loop-Same anchor ms (seed_step m s) h' in (d.0 ∙ e.0, d.1 ∙ e.1)

seed_loop-append :
    (ms more : List Json) (s : SeedState)
    → seed_loop (ms ++ more) s ≡ seed_loop more (seed_loop ms s)
unfolding seed_loop
seed_loop-append [] more s = refl
seed_loop-append (m ∷ ms) more s = seed_loop-append ms more (seed_step m s)

-- A user message closes the system prefix.
abbrev IsClosing : SeedState → Type 0
IsClosing s = (s.first_user ≡ none) ⊎ (s.system_open ≡ false)

seed_message-IsClosing :
    (role : Text) (fs : Fields) (s : SeedState) → IsClosing s → IsClosing (seed_message role fs s)
unfolding seed_message seed_system
seed_message-IsClosing role fs s h =
    if-elim IsClosing (text_eq role (codes "system") || text_eq role (codes "developer"))
      (λ _.
        if-elim IsClosing (not s.system_open || is_empty (message_text fs)) (λ _. h)
          (λ _. elim h [ inl e ↦ inl e | inr c ↦ inr c ]))
      (λ _. if-elim IsClosing (text_eq role (codes "user")) (λ _. inr refl) (λ _. inr refl))

seed_step-IsClosing : (m : Json) (s : SeedState) → IsClosing s → IsClosing (seed_step m s)
unfolding seed_step
seed_step-IsClosing null s h = h
seed_step-IsClosing (boolean b) s h = h
seed_step-IsClosing (number n) s h = h
seed_step-IsClosing (string t) s h = h
seed_step-IsClosing (array vs) s h = h
seed_step-IsClosing (object fs) s h =
    seed_message-IsClosing (string_or_empty (get (codes "role") fs)) fs s h

seed_loop-IsClosing : (ms : List Json) (s : SeedState) → IsClosing s → IsClosing (seed_loop ms s)
unfolding seed_loop
seed_loop-IsClosing [] s h = h
seed_loop-IsClosing (m ∷ ms) s h =
    seed_loop-IsClosing ms (seed_step m s) (seed_step-IsClosing m s h)

module _ (digest : Text → Text) (marshal : Json → Option Text) where
  seed_of-Same :
      (bare tools : Text) (s t : SeedState)
      → Same s t
      → seed_of digest marshal bare tools t ≡ seed_of digest marshal bare tools s
  unfolding seed_of
  seed_of-Same bare tools s t e = rw (e.0, e.1) refl

  -- The seed does not change over the turns of a conversation: once there is a user message, further
  -- messages behind it, of whatever role, leave the seed as it is.
  pub conversation_seed-append :
      (messages more : List Json) (tools : Json) (bare_model anchor : Text)
      → (seed_loop messages seed_start).first_user ≡ some anchor
      → conversation_seed digest marshal (messages ++ more) tools bare_model
        ≡ conversation_seed digest marshal messages tools bare_model
  unfolding conversation_seed
  conversation_seed-append messages more tools bare_model anchor seen =
      let s = seed_loop messages seed_start in
      let closed : s.system_open ≡ false =
        elim (seed_loop-IsClosing messages seed_start (inl refl)) [
          | inl e ↦ absurd (cc (e, seen))
          | inr c ↦ c
        ] in
      seed_of-Same bare_model (tools_text digest marshal tools) s
        (seed_loop (messages ++ more) seed_start)
        (subst (Same s) (sym (seed_loop-append messages more seed_start))
          (seed_loop-Same anchor more s (record { closed = closed; seen = seen })))
