-- ===== src/Bridge/Failover.antt =====
-- bridge/handler.go: the chat handler, from the token to the log entry. `chat` is what HandleChat does
-- on each call, `resolve` and `failover` are the callbacks; a callback that is nil finds no account.
use qoder_2api_go.Prelude.{
  ℕ, zero, suc, ◌+◌, Bool, true, false, not, ◌&&◌, Option, none, some, List, [], ◌∷◌, ◌++◌,
  if◌then◌else◌,
}
use qoder_2api_go.Prelude.Int.{ℤ}
use qoder_2api_go.Text.{Text, codes, strip_prefix, trim_space}
use qoder_2api_go.Region.{RegionFilter}
use qoder_2api_go.Logs.Entry.{LogEntry}
use qoder_2api_go.Bridge.Reply.{ChatError, ErrorReply, Handled, handle_chat_error}

-- `ResolvedBridge`; `has_bridge` says that its bridge is not nil, and `binds` that OnSuccess is set.
pub record ResolvedBridge : Type 0 where
  pub has_bridge : Bool
  pub key_id : Text
  pub key_note : Text
  pub account_id : Text
  pub account_note : Text
  pub region : Text
  pub binds : Bool

-- `ResolveRequest` without the excluded accounts
pub record ResolveRequest : Type 0 where
  pub api_key : Text
  pub model : Text
  pub region : RegionFilter
  pub sticky_seed : Text

-- `transform.Usage` as the sink reads it
pub record FrameUsage (R : Type 0) : Type 0 where
  pub prompt_tokens : ℤ
  pub completion_tokens : ℤ
  pub total_tokens : ℤ
  pub credits : R

-- One call of HandleChat: the usage frames that it passes to the sink, and its error.
pub record Attempt (R : Type 0) : Type 0 where
  pub usages : List (FrameUsage R)
  pub error : Option ChatError

-- What the request has done so far: the accounts asked, the latest first; the usage charged to
-- accounts; the results counted in the statistics; the accounts bound; the log entry; and the error
-- reply, if the handler itself has sent one.
pub record Served (R : Type 0) : Type 0 where
  pub asked : List Text
  pub charged : List (Text × FrameUsage R)
  pub counted : List Bool
  pub bound : List Text
  pub entry : LogEntry R
  pub reply : Option ErrorReply

abbrev pub max_failover_attempts : ℕ
max_failover_attempts = 16

-- `extractBearerToken`
unfoldable pub extract_bearer_token : Text → Text
unfolding strip_prefix trim_space
extract_bearer_token header = elim (strip_prefix (codes "Bearer ") header) [
  | none ↦ []
  | some rest ↦ trim_space rest
]

-- Whether another account is tried: an upstream auth failure before anything was delivered.
unfoldable pub is_retryable : ChatError → Bool
is_retryable e =
    elim e.auth [ none ↦ false | some msg ↦ true ]
    && elim e.reported [ none ↦ true | some msg ↦ false ]
    && not e.canceled

-- The bridge that a callback returned, if it has one.
unfoldable pub usable_bridge : Option ResolvedBridge → Option ResolvedBridge
usable_bridge none = none
usable_bridge (some rb) = if rb.has_bridge then some rb else none

module _ {R : Type 0} where
  -- The log entry of a request, labelled with the account that serves it.
  unfoldable pub label_entry : ResolvedBridge → LogEntry R → LogEntry R
  label_entry rb entry = record entry {
    key_id = rb.key_id;
    key_note = rb.key_note;
    account_id = rb.account_id;
    account_note = rb.account_note;
    region = rb.region;
  }

  -- The usage sink.
  unfoldable pub note_usages : ResolvedBridge → List (FrameUsage R) → Served R → Served R
  note_usages rb [] s = s
  note_usages rb (u ∷ us) s = note_usages rb us (record s {
    charged = s.charged ++ (rb.account_id, u) ∷ [];
    entry = record s.entry {
      prompt_tokens = u.prompt_tokens;
      completion_tokens = u.completion_tokens;
      total_tokens = u.total_tokens;
      credits = u.credits;
    };
  })

  -- One attempt, before its error is looked at.
  unfoldable pub ask : ResolvedBridge → Attempt R → Served R → Served R
  unfolding note_usages
  ask rb a s = note_usages rb a.usages (record s { asked = rb.account_id ∷ s.asked })

  unfoldable pub succeed : ResolvedBridge → Served R → Served R
  succeed rb s = record s {
    counted = s.counted ++ true ∷ [];
    bound = if rb.binds then s.bound ++ rb.account_id ∷ [] else s.bound;
    entry = record s.entry { status_code = 200 };
  }

  unfoldable pub fail : Handled → Served R → Served R
  fail h s = record s {
    counted = if h.counts then s.counted ++ false ∷ [] else s.counted;
    entry = record s.entry { status_code = h.status_code; error_msg = h.error_msg };
    reply = h.reply;
  }

  unfoldable pub conclude : ResolvedBridge → Option ChatError → Served R → Served R
  unfolding succeed fail handle_chat_error
  conclude rb none s = succeed rb s
  conclude rb (some e) s = fail (handle_chat_error e) s

  module _ (chat : ℕ → ResolvedBridge → Attempt R)
      (failover : Text → List Text → Option ResolvedBridge) where
    -- The replacement for an account that failed, if one is tried.
    unfoldable pub replacement :
        ResolvedBridge → List Text → Option ChatError → Option ResolvedBridge
    unfolding is_retryable usable_bridge
    replacement rb excluded none = none
    replacement rb excluded (some e) =
        if is_retryable e
        then usable_bridge (failover rb.account_id (rb.account_id ∷ excluded))
        else none

    -- The loop of `MakeChatHandler`, with the attempts that are left for failover, and the number of
    -- the attempt.
    unfoldable pub serve : ℕ → ℕ → ResolvedBridge → List Text → Served R → Served R
    unfolding ask replacement conclude label_entry
    serve zero n rb excluded s = let a = chat n rb in conclude rb a.error (ask rb a s)
    serve (suc left) n rb excluded s =
        let a = chat n rb in
        let s' = ask rb a s in
        elim (replacement rb excluded a.error) [
          | none ↦ conclude rb a.error s'
          | some next ↦
              serve left (n + 1) next (rb.account_id ∷ excluded)
                (record s' { entry = label_entry next s'.entry })
        ]
