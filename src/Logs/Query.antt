-- ===== src/Logs/Query.antt =====
-- logs/logs.go: filtered pages of the request log. Go's `int` has 64 bits: the start of a page is
-- computed modulo 2 ^ 64, and a slice outside of its bounds panics.
use mathlib.Core.List.{reverse}
use qoder_2api_go.Prelude.{
  ℕ, ◌+◌, ◌-◌, ◌*◌, ◌%◌, Bool, false, not, ◌&&◌, ◌||◌, Option, none, some, List, length, filter,
  take, drop, ltb, ◌==◌, if◌then◌else◌,
}
use qoder_2api_go.Prelude.Int.{ℤ, pos, negsuc, pos_part, ltb_ℤ}
use qoder_2api_go.Text.{text_eq, is_empty}
use qoder_2api_go.Logs.Entry.{LogEntry, Filter, LogPage}
use qoder_2api_go.Logs.Fold.{contains_fold}
use qoder_2api_go.Logs.Recorder.{Recorder}

abbrev pub word : ℕ
word = 18_446_744_073_709_551_616

abbrev pub half_word : ℕ
half_word = 9_223_372_036_854_775_808

-- The `int` that a number wraps around to.
unfoldable pub to_int : ℕ → ℤ
to_int n = let m = n % word in if ltb m half_word then pos m else negsuc (word - m - 1)

-- `f.Page` and `f.PageSize` after their checks.
unfoldable pub page_of : Filter → ℕ
page_of f = if ltb_ℤ f.page (pos 1) then 1 else pos_part f.page

unfoldable pub page_size_of : Filter → ℕ
page_size_of f =
    if ltb_ℤ f.page_size (pos 1) || ltb_ℤ (pos 100) f.page_size then 20 else pos_part f.page_size

module _ {R : Type 0} where
  -- The tests of the loop of `Query`, which skip an entry.
  unfoldable pub matches : Filter → LogEntry R → Bool
  unfolding contains_fold
  matches f e =
      if not (is_empty f.model) && not (contains_fold e.model f.model)
      then false
      else if not (is_empty f.key_id) && not (text_eq e.key_id f.key_id)
      then false
      else if ltb_ℤ (pos 0) f.status && not (e.status_code == pos_part f.status)
      then false
      else not (ltb_ℤ f.status (pos 0) && ltb e.status_code 400 && is_empty e.error_msg)

  -- `s[start:end]`; `none` is a panic.
  unfoldable pub slice : List (LogEntry R) → ℤ → ℕ → Option (List (LogEntry R))
  slice xs (negsuc n) end = none
  slice xs (pos start) end =
      if ltb end start || ltb (length xs) end
      then none
      else some (take (end - start) (drop start xs))

  -- The page of the matches from `start`. The loop walks the entries from the last to the first.
  unfoldable pub page_from : List (LogEntry R) → ℤ → ℕ → Option (List (LogEntry R))
  unfolding slice
  page_from matched start size =
      let total = length matched in
      let start' = if ltb_ℤ (pos total) start then pos total else start in
      let end = pos_part start' + size in
      slice matched start' (if ltb total end then total else end)

  -- The result of `Query` around its page.
  unfoldable pub respond : ℕ → ℕ → ℕ → Option (List (LogEntry R)) → Option (LogPage R)
  respond total page size none = none
  respond total page size (some logs) =
      some (record { logs = logs; total = total; page = page; page_size = size })

  -- The entries that the loop of `Query` collects.
  abbrev pub matched : Recorder R → Filter → List (LogEntry R)
  matched r f = filter (matches f) (reverse r.entries)

  -- `Query`
  unfoldable pub query : Recorder R → Filter → Option (LogPage R)
  query r f =
      respond (length (matched r f)) (page_of f) (page_size_of f)
        (page_from (matched r f) (to_int ((page_of f - 1) * page_size_of f)) (page_size_of f))
