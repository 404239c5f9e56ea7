-- ===== src/Bridge/Handler.antt =====
-- bridge/handler.go: `MakeChatHandler` around the failover loop.
use qoder_2api_go.Prelude.{ℕ, Bool, false, Option, none, some, List, [], ◌∷◌, ◌++◌, if◌then◌else◌}
use qoder_2api_go.Prelude.Int.{ℤ, pos}
use qoder_2api_go.Prelude.Result.{Result, ok, err}
use qoder_2api_go.Text.{Text, codes, is_empty}
use qoder_2api_go.Region.{parse_region_prefix}
use qoder_2api_go.Logs.Entry.{LogEntry}
use qoder_2api_go.Json.{Json, Fields, boolean, get, string_or_empty, items_of}
use qoder_2api_go.Bridge.Reply.{ErrorReply, error_reply, truncate_runes}
use qoder_2api_go.Bridge.Failover.{
  ResolvedBridge, ResolveRequest, Attempt, Served, max_failover_attempts, extract_bearer_token,
  usable_bridge, label_entry, serve,
}
use qoder_2api_go.Bridge.Seed.{conversation_seed}

-- What a request leaves behind: the entries that it logs, and the request as it was served, if it was.
pub record Handling (R : Type 0) : Type 0 where
  pub logged : List (LogEntry R)
  pub refused : Option ErrorReply
  pub served : Option (Served R)

unfoldable pub is_true : Json → Bool
is_true (boolean b) = b
is_true _ = false

-- What the resolver is asked.
unfoldable pub route_request : (Text → Text) → (Json → Option Text) → Text → Fields → ResolveRequest
unfolding parse_region_prefix conversation_seed get string_or_empty items_of
route_request digest marshal token body =
    let (filter, bare) = parse_region_prefix (string_or_empty (get (codes "model") body)) in
    record {
      api_key = token;
      model = bare;
      region = filter;
      sticky_seed =
          conversation_seed digest marshal (items_of (get (codes "messages") body))
            (get (codes "tools") body) bare;
    }

module _ {R : Type 0} where
  unfoldable pub refuse : ErrorReply → List (LogEntry R) → Handling R
  refuse reply logged = record { logged = logged; refused = some reply; served = none }

  -- A blank log entry; the argument is the float 0.
  unfoldable pub blank_entry : R → LogEntry R
  blank_entry free = record {
    id = 0;
    key_id = [];
    key_note = [];
    model = [];
    stream = false;
    account_id = [];
    account_note = [];
    region = [];
    prompt_tokens = pos 0;
    completion_tokens = pos 0;
    total_tokens = pos 0;
    credits = free;
    duration_ms = pos 0;
    status_code = 0;
    error_msg = [];
    created_at = 0;
  }

  -- The entry when the request is first routed.
  unfoldable pub first_entry : R → ResolvedBridge → Text → Bool → LogEntry R
  unfolding blank_entry label_entry
  first_entry free rb model stream = record (label_entry rb (blank_entry free)) {
    model = model;
    stream = stream;
  }

  unfoldable pub start_served : LogEntry R → Served R
  start_served entry = record {
    asked = [];
    charged = [];
    counted = [];
    bound = [];
    entry = entry;
    reply = none;
  }

  -- The deferred flush.
  unfoldable pub flush_entry : ℤ → Served R → Handling R
  flush_entry duration s = record {
    logged = record s.entry { duration_ms = duration } ∷ [];
    refused = none;
    served = some s;
  }

  module _ (chat : ℕ → ResolvedBridge → Attempt R)
      (failover : Text → List Text → Option ResolvedBridge) (free : R) (duration : ℤ) where
    -- The request after routing; the label is that of statsModelLabel.
    unfoldable pub serve_routed : Text → Bool → Option ResolvedBridge → Handling R
    unfolding refuse serve start_served first_entry flush_entry
    serve_routed label stream none =
        refuse
          (error_reply 401 (codes "invalid_request_error")
            (codes "Invalid API key or no PAT configured"))
          []
    serve_routed label stream (some rb) = flush_entry duration (
        serve chat failover max_failover_attempts 0 rb []
          (start_served (first_entry free rb label stream)))

    module _ (digest : Text → Text) (marshal : Json → Option Text)
        (resolve : ResolveRequest → Option ResolvedBridge) (label : Text → Text) where
      unfoldable pub handle_body : Text → Result Text Fields → Handling R
      unfolding refuse blank_entry serve_routed usable_bridge route_request is_true get
      handle_body token (err e) =
          let message = codes "Invalid JSON body: " ++ e in
          refuse (error_reply 400 (codes "invalid_request_error") message) (
            record (blank_entry free) { status_code = 400; error_msg = truncate_runes message 500 }
            ∷ [])
      handle_body token (ok body) =
          let request = route_request digest marshal token body in
          serve_routed (label request.model) (is_true (get (codes "stream") body))
            (usable_bridge (resolve request))

      -- `MakeChatHandler`: the Authorization header, and what decoding the body gives
      unfoldable pub chat_handler : Text → Result Text Fields → Handling R
      unfolding extract_bearer_token refuse handle_body
      chat_handler authorization body =
          let token = extract_bearer_token authorization in
          if is_empty token
          then refuse
              (error_reply 401 (codes "invalid_request_error")
                (codes "Missing Authorization: Bearer <key>"))
              []
          else handle_body token body
