-- ===== src/Bridge/Reply.antt =====
-- bridge/handler.go: how a failed chat is answered, logged and counted.
use qoder_2api_go.Prelude.{
  ℕ, ◌+◌, ◌-◌, ◌/◌, Bool, true, not, ◌||◌, Option, none, some, ◌++◌, take, ltb, ◌==◌, if◌then◌else◌,
}
use qoder_2api_go.Prelude.Int.{ℤ, pos, ltb_ℤ}
use qoder_2api_go.Stats.Calendar.{eq_ℤ}
use qoder_2api_go.Text.{Text, codes}
use qoder_2api_go.Logs.Recorder.{second}

-- `truncateRunes`
abbrev pub truncate_runes : Text → ℕ → Text
truncate_runes s n = take n s

-- A gateway rejection: its status, its body, and the wait that it asks for in nanoseconds.
pub record Rejection : Type 0 where
  pub status : ℤ
  pub body : Text
  pub retry_after : ℕ

-- What `errors.As` and `errors.Is` find in an error of HandleChat, by the type looked for; `message`
-- is its text and `says_unsupported` whether that has one of the two phrases of the source.
pub record ChatError : Type 0 where
  pub reported : Option Text
  pub parameter : Option Text
  pub upstream : Option Rejection
  pub in_stream : Option Rejection
  pub auth : Option Text
  pub unsupported : Option Text
  pub busy : Option Rejection
  pub canceled : Bool
  pub message : Text
  pub says_unsupported : Bool

-- An error reply: the status, the Retry-After header in seconds, the type and the message.
pub record ErrorReply : Type 0 where
  pub status : ℕ
  pub retry_after : Option ℕ
  pub error_type : Text
  pub text : Text

-- What handleChatError does: the reply, if it sends one; the status and the message of the log entry;
-- and whether it counts a failure.
pub record Handled : Type 0 where
  pub reply : Option ErrorReply
  pub status_code : ℕ
  pub error_msg : Text
  pub counts : Bool

-- `(d + time.Second - 1) / time.Second`, for a wait that is above 0
unfoldable pub retry_seconds : ℕ → Option ℕ
retry_seconds wait = if ltb 0 wait then some ((wait + second - 1) / second) else none

abbrev pub error_reply : ℕ → Text → Text → ErrorReply
error_reply status error_type text = record {
  status = status;
  retry_after = none;
  error_type = error_type;
  text = text;
}

-- `clientStatusForUpstream`
unfoldable pub client_status_for_upstream : ℤ → ℕ
client_status_for_upstream status =
    if eq_ℤ status (pos 429)
    then 429
    else if not (ltb_ℤ status (pos 500)) || not (ltb_ℤ (pos 0) status)
    then 502
    else 400

-- `writeUpstreamRejection`
unfoldable pub upstream_rejection : Rejection → ErrorReply
unfolding client_status_for_upstream retry_seconds
upstream_rejection r =
    if client_status_for_upstream r.status == 429
    then record (error_reply 429 (codes "rate_limit_error") (codes "upstream: " ++ r.body)) {
      retry_after = retry_seconds r.retry_after;
    }
    else if client_status_for_upstream r.status == 502
    then error_reply 502 (codes "upstream_error") (codes "upstream: " ++ r.body)
    else error_reply 400 (codes "invalid_request_error") (codes "upstream: " ++ r.body)

-- An error that is answered with the status that is logged, and counted.
unfoldable pub handle_with : ErrorReply → Text → Handled
handle_with reply msg = record {
  reply = some reply;
  status_code = reply.status;
  error_msg = truncate_runes msg 500;
  counts = true;
}

unfoldable pub handle_upstream : Rejection → Handled
unfolding upstream_rejection client_status_for_upstream
handle_upstream r = record {
  reply = some (upstream_rejection r);
  status_code = client_status_for_upstream r.status;
  error_msg = truncate_runes (codes "upstream: " ++ r.body) 500;
  counts = true;
}

-- The end of handleChatError, for an error of no known type.
unfoldable pub handle_other : ChatError → Handled
unfolding handle_with
handle_other e =
    if e.says_unsupported
    then handle_with (error_reply 400 (codes "invalid_request_error") e.message) e.message
    else record {
      reply = some (error_reply 500 (codes "qoder_error") e.message);
      status_code = if e.canceled then 499 else 500;
      error_msg = if e.canceled then codes "client canceled" else truncate_runes e.message 500;
      counts = not e.canceled;
    }

unfoldable pub handle_busy : ChatError → Option Rejection → Handled
unfolding handle_with retry_seconds handle_other
handle_busy e (some r) =
    let text = codes "upstream busy: " ++ r.body in
    handle_with
      (record (error_reply 429 (codes "rate_limit_error") text) {
        retry_after = retry_seconds r.retry_after;
      })
      text
handle_busy e none = handle_other e

unfoldable pub handle_unsupported : ChatError → Option Text → Handled
unfolding handle_with handle_busy
handle_unsupported e (some msg) =
    handle_with (error_reply 400 (codes "invalid_request_error") msg) msg
handle_unsupported e none = handle_busy e e.busy

unfoldable pub handle_auth : ChatError → Option Text → Handled
unfolding handle_with handle_unsupported
handle_auth e (some msg) =
    let text = codes "upstream auth: " ++ msg in
    handle_with (error_reply 502 (codes "upstream_error") text) text
handle_auth e none = handle_unsupported e e.unsupported

-- An in-stream failure asks for no wait.
unfoldable pub handle_in_stream : ChatError → Option Rejection → Handled
unfolding handle_upstream handle_auth
handle_in_stream e (some r) = handle_upstream (record r { retry_after = 0 })
handle_in_stream e none = handle_auth e e.auth

unfoldable pub handle_rejection : ChatError → Option Rejection → Handled
unfolding handle_upstream handle_in_stream
handle_rejection e (some r) = handle_upstream r
handle_rejection e none = handle_in_stream e e.in_stream

unfoldable pub handle_parameter : ChatError → Option Text → Handled
unfolding handle_with handle_rejection
handle_parameter e (some msg) =
    handle_with (error_reply 400 (codes "invalid_request_error") msg) msg
handle_parameter e none = handle_rejection e e.upstream

unfoldable pub handle_reported : ChatError → Option Text → Handled
unfolding handle_parameter
handle_reported e (some msg) = record {
  reply = none;
  status_code = 200;
  error_msg = truncate_runes msg 500;
  counts = not e.canceled;
}
handle_reported e none = handle_parameter e e.parameter

-- `handleChatError`
unfoldable pub handle_chat_error : ChatError → Handled
unfolding handle_reported
handle_chat_error e = handle_reported e e.reported
