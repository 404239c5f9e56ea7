-- ===== src/Bridge/Answers.antt =====
-- bridge/handler.go: what a client of the chat handler can see, and what the log says of it.
use qoder_2api_go.Prelude.{
  ℕ, ◌+◌, ◌≤◌, ◌≡◌, refl, ◌≢◌, Option, none, some, List, [], ◌∷◌, ◌++◌, length,
}
use qoder_2api_go.Prelude.Int.{ℤ}
use qoder_2api_go.Prelude.Result.{Result, ok, err}
use qoder_2api_go.Text.{Text}
use qoder_2api_go.Text.Distinct.{Distinct}
use qoder_2api_go.Logs.Entry.{LogEntry}
use qoder_2api_go.Json.{Json, Fields}
use qoder_2api_go.Bridge.Reply.{ChatError, ErrorReply, handle_chat_error}
use qoder_2api_go.Bridge.Failover.{
  ResolvedBridge, ResolveRequest, Attempt, Served, max_failover_attempts, extract_bearer_token,
  serve, usable_bridge,
}
use qoder_2api_go.Bridge.Handler.{Handling, start_served, route_request}
use qoder_2api_go.Bridge.Accounting.{Ended}
use qoder_2api_go.Bridge.Attempts.{Excludes, serve-Distinct_from}
use qoder_2api_go.Bridge.Agreement.{Agrees, reported-Agrees}

-- Where content has gone out already, there is no reply, and the log says 200. Otherwise an error
-- that tells what went wrong, by its type or its text, is answered with 400, 429 or 502, never with
-- a status that blames the client's key, logged with the same status, and counted. Any other error
-- is answered with 500; if the client gave the request up it is logged as 499 and not counted, and
-- if not it is logged as 500 and counted.
pub handle_chat_error-Agrees : (e : ChatError) → Agrees e (handle_chat_error e)
unfolding handle_chat_error
handle_chat_error-Agrees e = reported-Agrees e e.reported refl

module _ (resolve : ResolveRequest → Option ResolvedBridge) (digest : Text → Text)
    (marshal : Json → Option Text) where
  -- The account that the resolver finds for a request, if it has a bridge.
  abbrev routed : Text → Fields → Option ResolvedBridge
  routed authorization body =
      usable_bridge
        (resolve (route_request digest marshal (extract_bearer_token authorization) body))

  -- How the chat handler handles a request: which of these it is depends on the request alone.
  pub data IsHandled {R : Type 0} (duration : ℤ) (authorization : Text) (body : Result Text Fields)
      (h : Handling R) : Type 0 where
    keyless :
        (r : ErrorReply)
        → extract_bearer_token authorization ≡ []
        → h.refused ≡ some r
        → r.status ≡ 401
        → h.logged ≡ []
        → h.served ≡ none
        → IsHandled duration authorization body h
    malformed :
        (r : ErrorReply) (entry : LogEntry R) (e : Text)
        → extract_bearer_token authorization ≢ []
        → body ≡ err e
        → h.refused ≡ some r
        → r.status ≡ 400
        → h.logged ≡ entry ∷ []
        → entry.status_code ≡ 400
        → h.served ≡ none
        → IsHandled duration authorization body h
    unrouted :
        (r : ErrorReply) (fields : Fields)
        → extract_bearer_token authorization ≢ []
        → body ≡ ok fields
        → routed authorization fields ≡ none
        → h.refused ≡ some r
        → r.status ≡ 401
        → h.logged ≡ []
        → h.served ≡ none
        → IsHandled duration authorization body h
    answered :
        (s : Served R) (fields : Fields) (rb : ResolvedBridge) (later : List Text)
        → extract_bearer_token authorization ≢ []
        → body ≡ ok fields
        → routed authorization fields ≡ some rb
        → s.asked ≡ later ++ rb.account_id ∷ []
        → h.served ≡ some s
        → h.refused ≡ none
        → h.logged ≡ record s.entry { duration_ms = duration } ∷ []
        → Ended s
        → length s.asked ≤ max_failover_attempts + 1
        → IsHandled duration authorization body h

module _ {R : Type 0} (chat : ℕ → ResolvedBridge → Attempt R)
    (failover : Text → List Text → Option ResolvedBridge) (free : R) (duration : ℤ) where
  -- Where the router returns no excluded account, no account is asked twice for one request.
  pub serve-Distinct :
      (rb : ResolvedBridge) (entry : LogEntry R)
      → Excludes chat failover
      → Distinct (serve chat failover max_failover_attempts 0 rb [] (start_served entry)).asked
  unfolding start_served
  serve-Distinct rb entry x =
      serve-Distinct_from chat failover max_failover_attempts 0 rb [] _ x refl ((λ h. h), tt)
