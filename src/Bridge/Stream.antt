-- ===== src/Bridge/Stream.antt =====
-- bridge/bridge.go: opening the stream of a chat, with one retry. `upstream` is auth.OpenStreamLines on
-- each try; `refreshed` tells whether forceRefresh succeeds, and `gone` whether the request is
-- cancelled during the wait.
use qoder_2api_go.Prelude.{
  ℕ, ◌+◌, ◌*◌, ◌≤◌, ◌<◌, ◌≡◌, refl, ◌⊎◌, inl, inr, Bool, true, false, Option, none, some, List, [],
  ◌∷◌, All, ltb, if-elim, if◌then◌else◌, arith,
}
use qoder_2api_go.Text.{Text}
use qoder_2api_go.Logs.Recorder.{second}

-- An error of the stream; a rejection for being busy may ask for a wait, in nanoseconds.
pub data StreamError : Type 0 where
  unauthorized failed canceled : StreamError
  busy : ℕ → StreamError

-- The lines that one try passes to the callback, and how it ends.
pub record Try : Type 0 where
  pub lines : List Text
  pub error : Option StreamError

-- What was delivered, the number of tries, the refreshes and the waits in between, and the error that
-- is returned.
pub record Opened : Type 0 where
  pub delivered : List Text
  pub tries : ℕ
  pub refreshes : ℕ
  pub waits : List ℕ
  pub outcome : Option StreamError

abbrev pub busy_fallback_backoff : ℕ
busy_fallback_backoff = 2 * second

unfoldable pub wait_of : ℕ → ℕ
wait_of wait =
    if ltb 0 wait
    then if ltb (10 * second) wait then busy_fallback_backoff else wait
    else busy_fallback_backoff

abbrev pub produced : List Text → Bool
produced [] = false
produced (line ∷ lines) = true

-- A try that ends the method.
unfoldable pub return_try : Try → Opened
return_try t = record {
  delivered = t.lines;
  tries = 1;
  refreshes = 0;
  waits = [];
  outcome = t.error;
}

-- One more try before what follows.
unfoldable pub after_refresh : Opened → Opened
after_refresh o = record o { tries = o.tries + 1; refreshes = o.refreshes + 1 }

unfoldable pub after_wait : ℕ → Opened → Opened
after_wait wait o = record o { tries = o.tries + 1; waits = wait ∷ o.waits }

-- The retry after the first try, with the error of that one, if it ended without content.
unfoldable pub retry : (refreshed gone : Bool) → Try → Option StreamError → Opened → Opened
unfolding return_try after_refresh after_wait wait_of
retry refreshed gone t (some unauthorized) next =
    if refreshed then after_refresh next else return_try t
retry refreshed gone t (some (busy wait)) next =
    if gone
    then record (return_try t) { waits = wait_of wait ∷ []; outcome = some canceled }
    else after_wait (wait_of wait) next
retry refreshed gone t _ next = return_try t

-- `openStreamAsync`: the second try returns whatever it ends with.
unfoldable pub open_stream : (ℕ → Try) → (refreshed gone : Bool) → Opened
unfolding return_try retry
open_stream upstream refreshed gone =
    let first = upstream 0 in
    if produced first.lines
    then return_try first
    else retry refreshed gone first first.error (return_try (upstream 1))

-- The client gets the lines of one try, the last, and none of an earlier one; there are at most two
-- tries; each wait is above 0 and at most 10 seconds.
pub record IsSingle (upstream : ℕ → Try) (o : Opened) : Type 0 where
  pub last_lines :
      ((o.tries ≡ 1) × (o.delivered ≡ (upstream 0).lines))
      ⊎ ((o.tries ≡ 2) × (((upstream 0).lines ≡ []) × (o.delivered ≡ (upstream 1).lines)))
  pub short_waits : All (λ wait. (0 < wait) × (wait ≤ 10 * second)) o.waits

wait_of-bound : (wait : ℕ) → (0 < wait_of wait) × (wait_of wait ≤ 10 * second)
unfolding wait_of
wait_of-bound wait = ground arith

return_try-IsSingle : (upstream : ℕ → Try) → IsSingle upstream (return_try (upstream 0))
unfolding return_try
return_try-IsSingle upstream = record { last_lines = inl (refl, refl); short_waits = tt }

retry-IsSingle :
    (upstream : ℕ → Try) (refreshed gone : Bool) (e : Option StreamError)
    → (upstream 0).lines ≡ []
    → IsSingle upstream (retry refreshed gone (upstream 0) e (return_try (upstream 1)))
unfolding retry return_try after_refresh after_wait
retry-IsSingle upstream refreshed gone none h = return_try-IsSingle upstream
retry-IsSingle upstream refreshed gone (some failed) h = return_try-IsSingle upstream
retry-IsSingle upstream refreshed gone (some canceled) h = return_try-IsSingle upstream
retry-IsSingle upstream refreshed gone (some unauthorized) h =
    if-elim (IsSingle upstream) refreshed
      (λ _. record { last_lines = inr (refl, (h, refl)); short_waits = tt })
      (λ _. return_try-IsSingle upstream)
retry-IsSingle upstream refreshed gone (some (busy wait)) h =
    if-elim (IsSingle upstream) gone
      (λ _. record { last_lines = inl (refl, refl); short_waits = (wait_of-bound wait, tt) })
      (λ _. record { last_lines = inr (refl, (h, refl)); short_waits = (wait_of-bound wait, tt) })

-- Opening a stream never delivers content twice: the client gets the lines of the last try, which is
-- the first or the second, and a first try that is retried has delivered nothing; each wait in between
-- is above 0 and at most 10 seconds.
pub open_stream-IsSingle :
    (upstream : ℕ → Try) (refreshed gone : Bool)
    → IsSingle upstream (open_stream upstream refreshed gone)
unfolding open_stream
open_stream-IsSingle upstream refreshed gone =
    if-elim (IsSingle upstream) (produced (upstream 0).lines) (λ _. return_try-IsSingle upstream)
      (λ f.
        retry-IsSingle upstream refreshed gone (upstream 0).error (nothing (upstream 0).lines f))
  where
    nothing : (lines : List Text) → produced lines ≡ false → lines ≡ []
    nothing [] h = refl
    nothing (line ∷ lines) h = absurd (cc h)
