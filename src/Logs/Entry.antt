-- ===== src/Logs/Entry.antt =====
-- logs/logs.go: the data of the request log. IDs, counts and instants are not negative.
use qoder_2api_go.Prelude.{ℕ, Bool, List}
use qoder_2api_go.Prelude.Int.{ℤ}
use qoder_2api_go.Text.{Text}

-- `R` is Go's `float64`. `created_at` is in seconds.
pub record LogEntry (R : Type 0) : Type 0 where
  pub id : ℕ
  pub key_id : Text
  pub key_note : Text
  pub model : Text
  pub stream : Bool
  pub account_id : Text
  pub account_note : Text
  pub region : Text
  pub prompt_tokens : ℤ
  pub completion_tokens : ℤ
  pub total_tokens : ℤ
  pub credits : R
  pub duration_ms : ℤ
  pub status_code : ℕ
  pub error_msg : Text
  pub created_at : ℕ

-- The fields are Go's `int`: what they exclude is decided by the query.
pub record Filter : Type 0 where
  pub model : Text
  pub key_id : Text
  pub status : ℤ
  pub page : ℤ
  pub page_size : ℤ

pub record LogPage (R : Type 0) : Type 0 where
  pub logs : List (LogEntry R)
  pub total : ℕ
  pub page : ℕ
  pub page_size : ℕ
