-- ===== src/Bridge/Accounting.antt =====
-- bridge/handler.go: what the failover loop counts, binds and logs.
use qoder_2api_go.Prelude.{
  ℕ, zero, suc, ◌+◌, ◌≡◌, refl, ap, true, false, Option, none, some, List, [], ◌∷◌, ◌++◌,
  if◌then◌else◌,
}
use qoder_2api_go.Text.{Text}
use qoder_2api_go.Bridge.Reply.{ChatError, handle_chat_error}
use qoder_2api_go.Bridge.Failover.{
  ResolvedBridge, FrameUsage, Attempt, Served, label_entry, note_usages, ask, succeed, fail,
  conclude, replacement, serve,
}

-- How a request ends: the account asked last is the one that is logged; a success is counted once,
-- logged as 200, answered by no error, and bound to that account if it asks for it; a failure binds
-- nothing, and is answered, logged and counted as `handleChatError` says.
pub data Ended {R : Type 0} (s : Served R) : Type 0 where
  succeeded :
      (rb : ResolvedBridge) (earlier : List Text)
      → s.asked ≡ rb.account_id ∷ earlier
      → s.entry.account_id ≡ rb.account_id
      → s.entry.status_code ≡ 200
      → s.reply ≡ none
      → s.counted ≡ true ∷ []
      → s.bound ≡ (if rb.binds then rb.account_id ∷ [] else [])
      → Ended s
  failed :
      (rb : ResolvedBridge) (earlier : List Text) (e : ChatError)
      → s.asked ≡ rb.account_id ∷ earlier
      → s.entry.account_id ≡ rb.account_id
      → s.entry.status_code ≡ (handle_chat_error e).status_code
      → s.reply ≡ (handle_chat_error e).reply
      → s.counted ≡ (if (handle_chat_error e).counts then false ∷ [] else [])
      → s.bound ≡ []
      → Ended s

-- Before its last attempt, a request has neither counted nor bound anything.
pub record IsOpen {R : Type 0} (account : Text) (s : Served R) : Type 0 where
  pub uncounted : s.counted ≡ []
  pub unbound : s.bound ≡ []
  pub unanswered : s.reply ≡ none
  pub labelled : s.entry.account_id ≡ account

module _ {R : Type 0} where
  note_usages-asked :
      (rb : ResolvedBridge) (us : List (FrameUsage R)) (s : Served R)
      → (note_usages rb us s).asked ≡ s.asked
  unfolding note_usages
  note_usages-asked rb [] s = refl
  note_usages-asked rb (u ∷ us) s = note_usages-asked rb us _

  note_usages-IsOpen :
      (rb : ResolvedBridge) (account : Text) (us : List (FrameUsage R)) (s : Served R)
      → IsOpen account s
      → IsOpen account (note_usages rb us s)
  unfolding note_usages
  note_usages-IsOpen rb account [] s h = h
  note_usages-IsOpen rb account (u ∷ us) s h = note_usages-IsOpen rb account us _ (record {
    uncounted = h.uncounted;
    unbound = h.unbound;
    unanswered = h.unanswered;
    labelled = h.labelled;
  })

  pub ask-asked :
      (rb : ResolvedBridge) (a : Attempt R) (s : Served R)
      → (ask rb a s).asked ≡ rb.account_id ∷ s.asked
  unfolding ask
  ask-asked rb a s = note_usages-asked rb a.usages _

  ask-IsOpen :
      (rb : ResolvedBridge) (a : Attempt R) (s : Served R)
      → IsOpen rb.account_id s
      → IsOpen rb.account_id (ask rb a s)
  unfolding ask
  ask-IsOpen rb a s h = note_usages-IsOpen rb rb.account_id a.usages _ (record {
    uncounted = h.uncounted;
    unbound = h.unbound;
    unanswered = h.unanswered;
    labelled = h.labelled;
  })

  pub conclude-asked :
      (rb : ResolvedBridge) (o : Option ChatError) (s : Served R)
      → (conclude rb o s).asked ≡ s.asked
  unfolding conclude succeed fail
  conclude-asked rb none s = refl
  conclude-asked rb (some e) s = refl

  conclude-Ended :
      (rb : ResolvedBridge) (earlier : List Text) (o : Option ChatError) (s : Served R)
      → s.asked ≡ rb.account_id ∷ earlier
      → IsOpen rb.account_id s
      → Ended (conclude rb o s)
  unfolding conclude succeed fail
  conclude-Ended rb earlier none s a h =
      succeeded rb earlier a h.labelled refl h.unanswered (ap (λ xs. xs ++ true ∷ []) h.uncounted)
        (ap (λ xs. if rb.binds then xs ++ rb.account_id ∷ [] else xs) h.unbound)
  conclude-Ended rb earlier (some e) s a h =
      failed rb earlier e a h.labelled refl refl
        (ap (λ xs. if (handle_chat_error e).counts then xs ++ false ∷ [] else xs) h.uncounted)
        h.unbound

  module _ (chat : ℕ → ResolvedBridge → Attempt R)
      (failover : Text → List Text → Option ResolvedBridge) where
    pub serve-Ended_from :
        (left n : ℕ) (rb : ResolvedBridge) (excluded : List Text) (s : Served R)
        → IsOpen rb.account_id s
        → Ended (serve chat failover left n rb excluded s)
    unfolding serve
    serve-Ended_from zero n rb excluded s h =
        conclude-Ended rb s.asked (chat n rb).error _ (ask-asked rb (chat n rb) s)
          (ask-IsOpen rb (chat n rb) s h)
    serve-Ended_from (suc left) n rb excluded s h =
        go
          (λ next.
            serve-Ended_from left (n + 1) next (rb.account_id ∷ excluded)
              (record (ask rb (chat n rb) s) {
                entry = label_entry next (ask rb (chat n rb) s).entry;
              }))
          (replacement chat failover rb excluded (chat n rb).error)
      where
        go :
            ((next : ResolvedBridge)
              → IsOpen next.account_id (record (ask rb (chat n rb) s) {
                entry = label_entry next (ask rb (chat n rb) s).entry;
              })
              → Ended (
                  serve chat failover left
                    (n + 1)
                    next
                    (rb.account_id ∷ excluded)
                    (record (ask rb (chat n rb) s) {
                      entry = label_entry next (ask rb (chat n rb) s).entry;
                    })))
            → (o : Option ResolvedBridge)
            → Ended (elim o [
              | none ↦ conclude rb (chat n rb).error (ask rb (chat n rb) s)
              | some next ↦
                  serve chat failover left
                    (n + 1)
                    next
                    (rb.account_id ∷ excluded)
                    (record (ask rb (chat n rb) s) {
                      entry = label_entry next (ask rb (chat n rb) s).entry;
                    })
            ])
        go ih none =
            conclude-Ended rb s.asked (chat n rb).error _ (ask-asked rb (chat n rb) s)
              (ask-IsOpen rb (chat n rb) s h)
        go ih (some next) =
            let o = ask-IsOpen rb (chat n rb) s h in
            ih next (record {
              uncounted = o.uncounted;
              unbound = o.unbound;
              unanswered = o.unanswered;
              labelled = refl;
            })
