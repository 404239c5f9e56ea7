-- ===== src/Bridge/Attempts.antt =====
-- bridge/handler.go: which accounts the failover loop asks, and how many.
use qoder_2api_go.Prelude.{
  ℕ, zero, suc, ◌+◌, ◌≤◌, ◌≡◌, refl, sym, subst, ap, ◌∙◌, inl, inr, Bool, true, false, Option, none,
  some, List, [], ◌∷◌, ◌++◌, In, length, Bool-cases, if◌then◌else◌, arith, append_assoc,
}
use qoder_2api_go.Text.{Text}
use qoder_2api_go.Text.Distinct.{Distinct}
use qoder_2api_go.Bridge.Reply.{ChatError}
use qoder_2api_go.Bridge.Failover.{
  ResolvedBridge, Attempt, Served, is_retryable, usable_bridge, label_entry, ask, conclude,
  replacement, serve,
}
use qoder_2api_go.Bridge.Accounting.{ask-asked, conclude-asked}

module _ {R : Type 0} where
  module _ (chat : ℕ → ResolvedBridge → Attempt R)
      (failover : Text → List Text → Option ResolvedBridge) where
    -- The account that is asked first is the one that the request starts with.
    pub serve-first :
        (left n : ℕ) (rb : ResolvedBridge) (excluded : List Text) (s : Served R)
        → (later : List Text) × ((serve chat failover left n rb excluded s).asked
            ≡ later ++ rb.account_id ∷ s.asked)
    unfolding serve
    serve-first zero n rb excluded s = (
      [],
      conclude-asked rb (chat n rb).error (ask rb (chat n rb) s) ∙ ask-asked rb (chat n rb) s,
    )
    serve-first (suc left) n rb excluded s =
        go
          (λ next.
            serve-first left (n + 1) next (rb.account_id ∷ excluded)
              (record (ask rb (chat n rb) s) {
                entry = label_entry next (ask rb (chat n rb) s).entry;
              }))
          (replacement chat failover rb excluded (chat n rb).error)
      where
        now : (ask rb (chat n rb) s).asked ≡ rb.account_id ∷ s.asked
        now = ask-asked rb (chat n rb) s

        go :
            ((next : ResolvedBridge)
              → (later : List Text) × ((serve chat failover left
                    (n + 1)
                    next
                    (rb.account_id ∷ excluded)
                    (record (ask rb (chat n rb) s) {
                      entry = label_entry next (ask rb (chat n rb) s).entry;
                    })).asked
                  ≡ later ++ next.account_id ∷ (ask rb (chat n rb) s).asked))
            → (o : Option ResolvedBridge)
            → (later : List Text) × ((elim o as (λ _. Served R) [
              | none ↦ conclude rb (chat n rb).error (ask rb (chat n rb) s)
              | some next ↦
                  serve chat failover left
                    (n + 1)
                    next
                    (rb.account_id ∷ excluded)
                    (record (ask rb (chat n rb) s) {
                      entry = label_entry next (ask rb (chat n rb) s).entry;
                    })
            ]).asked
                ≡ later ++ rb.account_id ∷ s.asked)
        go ih none = ([], conclude-asked rb (chat n rb).error (ask rb (chat n rb) s) ∙ now)
        go ih (some next) =
            let (later, e) = ih next in
            (
              later ++ next.account_id ∷ [],
              e
                  ∙ (ap (λ (xs : List Text). later ++ next.account_id ∷ xs) now
                      ∙ sym (append_assoc later (next.account_id ∷ []) (rb.account_id ∷ s.asked))),
            )

    -- At most one attempt more than are left for failover.
    pub length-serve :
        (left n : ℕ) (rb : ResolvedBridge) (excluded : List Text) (s : Served R)
        → length (serve chat failover left n rb excluded s).asked ≤ length s.asked + left + 1
    unfolding serve
    length-serve zero n rb excluded s =
        let e : length (conclude rb (chat n rb).error (ask rb (chat n rb) s)).asked
            ≡ suc (length s.asked) =
          ap length (
            conclude-asked rb (chat n rb).error (ask rb (chat n rb) s)
            ∙ ask-asked rb (chat n rb) s) in
        omega (arith, e)
    length-serve (suc left) n rb excluded s =
        go
          (λ next.
            length-serve left (n + 1) next (rb.account_id ∷ excluded)
              (record (ask rb (chat n rb) s) {
                entry = label_entry next (ask rb (chat n rb) s).entry;
              }))
          (replacement chat failover rb excluded (chat n rb).error)
      where
        go :
            ((next : ResolvedBridge)
              → length
                  (serve chat failover left
                    (n + 1)
                    next
                    (rb.account_id ∷ excluded)
                    (record (ask rb (chat n rb) s) {
                      entry = label_entry next (ask rb (chat n rb) s).entry;
                    })).asked
                ≤ length (ask rb (chat n rb) s).asked + left + 1)
            → (o : Option ResolvedBridge)
            → length
                (elim o as (λ _. Served R) [
                  | none ↦ conclude rb (chat n rb).error (ask rb (chat n rb) s)
                  | some next ↦
                      serve chat failover left
                        (n + 1)
                        next
                        (rb.account_id ∷ excluded)
                        (record (ask rb (chat n rb) s) {
                          entry = label_entry next (ask rb (chat n rb) s).entry;
                        })
                ]).asked
              ≤ length s.asked + suc left + 1
        go ih none =
            let e : length (conclude rb (chat n rb).error (ask rb (chat n rb) s)).asked
                ≡ suc (length s.asked) =
              ap length (
                conclude-asked rb (chat n rb).error (ask rb (chat n rb) s)
                ∙ ask-asked rb (chat n rb) s) in
            omega (arith, e)
        go ih (some next) =
            let e : length (ask rb (chat n rb) s).asked ≡ suc (length s.asked) =
              ap length (ask-asked rb (chat n rb) s) in
            omega (arith, e, ih next)

    -- The router never returns an excluded account.
    abbrev pub Excludes : Type 0
    Excludes =
        (account : Text) (excluded : List Text) (next : ResolvedBridge)
        → failover account excluded ≡ some next
        → ¬ In next.account_id excluded

    usable_bridge-some :
        (o : Option ResolvedBridge) (next : ResolvedBridge)
        → usable_bridge o ≡ some next
        → o ≡ some next
    unfolding usable_bridge
    usable_bridge-some none next h = absurd (cc h)
    usable_bridge-some (some rb) next h = chosen rb.has_bridge h
      where
        chosen : (b : Bool) → (if b then some rb else none) ≡ some next → some rb ≡ some next
        chosen true e = e
        chosen false e = absurd (cc e)

    replacement-fresh :
        (rb : ResolvedBridge) (excluded : List Text) (o : Option ChatError) (next : ResolvedBridge)
        → Excludes
        → replacement chat failover rb excluded o ≡ some next
        → ¬ In next.account_id (rb.account_id ∷ excluded)
    unfolding replacement
    replacement-fresh rb excluded none next x h = absurd (cc h)
    replacement-fresh rb excluded (some e) next x h = elim (Bool-cases (is_retryable e)) [
      | inl t ↦
          let h' : usable_bridge (failover rb.account_id (rb.account_id ∷ excluded)) ≡ some next =
            rw t at h in
          x rb.account_id (rb.account_id ∷ excluded) next (usable_bridge-some _ next h')
      | inr f ↦ let h' : none ≡ some next = rw f at h in absurd (cc h')
    ]

    pub serve-Distinct_from :
        (left n : ℕ) (rb : ResolvedBridge) (excluded : List Text) (s : Served R)
        → Excludes
        → s.asked ≡ excluded
        → Distinct (rb.account_id ∷ excluded)
        → Distinct (serve chat failover left n rb excluded s).asked
    unfolding serve
    serve-Distinct_from zero n rb excluded s x e d =
        subst Distinct
          (sym (
            conclude-asked rb (chat n rb).error (ask rb (chat n rb) s)
            ∙ (ask-asked rb (chat n rb) s ∙ ap (λ xs. rb.account_id ∷ xs) e)))
          d
    serve-Distinct_from (suc left) n rb excluded s x e d =
        go
          (λ next.
            serve-Distinct_from left (n + 1) next (rb.account_id ∷ excluded)
              (record (ask rb (chat n rb) s) {
                entry = label_entry next (ask rb (chat n rb) s).entry;
              })
              x)
          (replacement chat failover rb excluded (chat n rb).error) refl
      where
        now : (ask rb (chat n rb) s).asked ≡ rb.account_id ∷ excluded
        now = ask-asked rb (chat n rb) s ∙ ap (λ xs. rb.account_id ∷ xs) e

        go :
            ((next : ResolvedBridge)
              → (ask rb (chat n rb) s).asked ≡ rb.account_id ∷ excluded
              → Distinct (next.account_id ∷ rb.account_id ∷ excluded)
              → Distinct
                  (serve chat failover left
                    (n + 1)
                    next
                    (rb.account_id ∷ excluded)
                    (record (ask rb (chat n rb) s) {
                      entry = label_entry next (ask rb (chat n rb) s).entry;
                    })).asked)
            → (o : Option ResolvedBridge)
            → replacement chat failover rb excluded (chat n rb).error ≡ o
            → Distinct
                (elim o as (λ _. Served R) [
                  | none ↦ conclude rb (chat n rb).error (ask rb (chat n rb) s)
                  | some next ↦
                      serve chat failover left
                        (n + 1)
                        next
                        (rb.account_id ∷ excluded)
                        (record (ask rb (chat n rb) s) {
                          entry = label_entry next (ask rb (chat n rb) s).entry;
                        })
                ]).asked
        go ih none r =
            subst Distinct (sym (conclude-asked rb (chat n rb).error (ask rb (chat n rb) s) ∙ now))
              d
        go ih (some next) r =
            ih next now (replacement-fresh rb excluded (chat n rb).error next x r, d)
