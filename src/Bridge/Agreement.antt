-- ===== src/Bridge/Agreement.antt =====
-- bridge/handler.go: how the reply to a failed chat and its log agree.
use qoder_2api_go.Prelude.{
  ℕ, ◌≡◌, refl, ◌∙◌, sym, subst, ◌⊎◌, inl, inr, Bool, true, false, Option, none, some, ◌++◌,
  Bool-cases, if-elim, arith, not, ◌||◌,
}
use qoder_2api_go.Prelude.Int.{ℤ, pos, ltb_ℤ}
use qoder_2api_go.Stats.Calendar.{eq_ℤ}
use qoder_2api_go.Text.{Text, codes}
use qoder_2api_go.Bridge.Reply.{
  Rejection, ChatError, ErrorReply, Handled, client_status_for_upstream, upstream_rejection,
  handle_with, handle_upstream, handle_other, handle_busy, handle_unsupported, handle_auth,
  handle_in_stream, handle_rejection, handle_parameter, handle_reported,
}

-- The statuses of the errors that have a type: the client's request, too many requests, the gateway.
abbrev IsTypedStatus : ℕ → Type 0
IsTypedStatus n = (n ≡ 400) ⊎ ((n ≡ 429) ⊎ (n ≡ 502))

abbrev is_some {ℓ} : {A : Type ℓ} → Option A → Bool
is_some none = false
is_some (some a) = true

-- Does an error tell what went wrong, by its type or by its text?
abbrev is_typed : ChatError → Bool
is_typed e =
    is_some e.parameter
    || (is_some e.upstream
        || (is_some e.in_stream
            || (is_some e.auth
                || (is_some e.unsupported || (is_some e.busy || e.says_unsupported)))))

-- The log agrees with the client. An error after content has gone out has no reply, and is logged as
-- 200; one that tells what went wrong is answered and logged with the same status; any other has a
-- reply of status 500, and is logged as 499 if the client gave up, and as 500 if not. What the
-- client gave up is not counted in the first and the last case; all else is.
pub data Agrees (e : ChatError) (h : Handled) : Type 0 where
  delivered :
      (msg : Text)
      → e.reported ≡ some msg
      → h.reply ≡ none
      → h.status_code ≡ 200
      → h.counts ≡ not e.canceled
      → Agrees e h
  typed :
      (r : ErrorReply)
      → e.reported ≡ none
      → is_typed e ≡ true
      → h.reply ≡ some r
      → IsTypedStatus r.status
      → h.status_code ≡ r.status
      → h.counts ≡ true
      → Agrees e h
  given_up :
      (r : ErrorReply)
      → e.reported ≡ none
      → is_typed e ≡ false
      → e.canceled ≡ true
      → h.reply ≡ some r
      → r.status ≡ 500
      → h.status_code ≡ 499
      → h.counts ≡ false
      → Agrees e h
  untyped :
      (r : ErrorReply)
      → e.reported ≡ none
      → is_typed e ≡ false
      → e.canceled ≡ false
      → h.reply ≡ some r
      → r.status ≡ 500
      → h.status_code ≡ 500
      → h.counts ≡ true
      → Agrees e h

client_status_for_upstream-IsTypedStatus : (n : ℤ) → IsTypedStatus (client_status_for_upstream n)
unfolding client_status_for_upstream
client_status_for_upstream-IsTypedStatus n =
    if-elim IsTypedStatus (eq_ℤ n (pos 429)) (λ _. inr (inl refl))
      (λ _.
        if-elim IsTypedStatus (not (ltb_ℤ n (pos 500)) || not (ltb_ℤ (pos 0) n))
          (λ _. inr (inr refl)) (λ _. inl refl))

upstream_rejection-status :
    (r : Rejection) → (upstream_rejection r).status ≡ client_status_for_upstream r.status
unfolding upstream_rejection client_status_for_upstream
upstream_rejection-status r = ground arith

module _ (e : ChatError) (fresh : e.reported ≡ none) where
  with-Agrees :
      (r : ErrorReply) (msg : Text)
      → is_typed e ≡ true
      → IsTypedStatus r.status
      → Agrees e (handle_with r msg)
  unfolding handle_with
  with-Agrees r msg t s = typed r fresh t refl s refl refl

  upstream-Agrees : (r : Rejection) → is_typed e ≡ true → Agrees e (handle_upstream r)
  unfolding handle_upstream
  upstream-Agrees r t =
      typed (upstream_rejection r) fresh t refl
        (subst IsTypedStatus (sym (upstream_rejection-status r))
          (client_status_for_upstream-IsTypedStatus r.status))
        (sym (upstream_rejection-status r)) refl

  -- Each lemma below is given what is left of the tests of `is_typed`.
  other-Agrees : is_typed e ≡ e.says_unsupported → Agrees e (handle_other e)
  unfolding handle_other
  other-Agrees k =
      if-elim (Agrees e) e.says_unsupported (λ t. with-Agrees _ e.message (k ∙ t) (inl refl))
        (λ u. elim (Bool-cases e.canceled) [
          | inl t ↦ given_up _ fresh (k ∙ u) t refl refl (rw t refl) (rw t refl)
          | inr f ↦ untyped _ fresh (k ∙ u) f refl refl (rw f refl) (rw f refl)
        ])

  busy-Agrees :
      (o : Option Rejection)
      → is_typed e ≡ (is_some o || e.says_unsupported)
      → Agrees e (handle_busy e o)
  unfolding handle_busy
  busy-Agrees none k = other-Agrees k
  busy-Agrees (some r) k = with-Agrees _ (codes "upstream busy: " ++ r.body) k (inr (inl refl))

  unsupported-Agrees :
      (o : Option Text)
      → is_typed e ≡ (is_some o || (is_some e.busy || e.says_unsupported))
      → Agrees e (handle_unsupported e o)
  unfolding handle_unsupported
  unsupported-Agrees none k = busy-Agrees e.busy k
  unsupported-Agrees (some msg) k = with-Agrees _ msg k (inl refl)

  auth-Agrees :
      (o : Option Text)
      → is_typed e
        ≡ (is_some o || (is_some e.unsupported || (is_some e.busy || e.says_unsupported)))
      → Agrees e (handle_auth e o)
  unfolding handle_auth
  auth-Agrees none k = unsupported-Agrees e.unsupported k
  auth-Agrees (some msg) k = with-Agrees _ (codes "upstream auth: " ++ msg) k (inr (inr refl))

  in_stream-Agrees :
      (o : Option Rejection)
      → is_typed e ≡ (
          is_some o
          || (is_some e.auth || (is_some e.unsupported || (is_some e.busy || e.says_unsupported))))
      → Agrees e (handle_in_stream e o)
  unfolding handle_in_stream
  in_stream-Agrees none k = auth-Agrees e.auth k
  in_stream-Agrees (some r) k = upstream-Agrees (record r { retry_after = 0 }) k

  rejection-Agrees :
      (o : Option Rejection)
      → is_typed e ≡ (
          is_some o
          || (is_some e.in_stream
              || (is_some e.auth
                  || (is_some e.unsupported || (is_some e.busy || e.says_unsupported)))))
      → Agrees e (handle_rejection e o)
  unfolding handle_rejection
  rejection-Agrees none k = in_stream-Agrees e.in_stream k
  rejection-Agrees (some r) k = upstream-Agrees r k

  parameter-Agrees : (o : Option Text) → e.parameter ≡ o → Agrees e (handle_parameter e o)
  unfolding handle_parameter
  parameter-Agrees none h = rejection-Agrees e.upstream (rw h refl)
  parameter-Agrees (some msg) h = with-Agrees _ msg (rw h refl) (inl refl)

pub reported-Agrees :
    (e : ChatError) (o : Option Text) → e.reported ≡ o → Agrees e (handle_reported e o)
unfolding handle_reported
reported-Agrees e none h = parameter-Agrees e h e.parameter refl
reported-Agrees e (some msg) h = delivered msg h refl refl refl
