-- ===== src/Cors/Handler.antt =====
-- cors.go: when a browser is told that an origin may call.
use qoder_2api_go.Prelude.{
  ◌≡◌, refl, true, not, ◌&&◌, Option, none, some, some_inj, sym, ◌∙◌, List, [], ◌∷◌, arith,
  if◌then◌else◌, if-elim,
}
use qoder_2api_go.Text.{Text, codes, text_eq, is_empty}
use qoder_2api_go.Dict.{lookup}
use qoder_2api_go.Cors.{
  Url, Policy, CorsRequest, CorsReply, pass_on, trim_slashes, is_cors_path, enabled, grant,
  parse_cors_policy, allows, cors_handler,
}

lookup-grant :
    (p : Policy) (q : CorsRequest)
    → lookup (codes "Access-Control-Allow-Origin") ((codes "Vary", codes "Origin") ∷ grant p q)
      ≡ some (if p.allow_all then codes "*" else trim_slashes q.origin)
unfolding lookup grant text_eq
lookup-grant p q = refl

lookup-vary :
    ◌≡◌ {A = Option Text}
      (lookup (codes "Access-Control-Allow-Origin") ((codes "Vary", codes "Origin") ∷ []))
      none
unfolding lookup text_eq
lookup-vary = refl

module _ (parse : Text → Option Url) (lower : Text → Text) where
  -- The reply that grants an origin: only on the API, and only where the policy allows it.
  pub record IsGranted (spec : Text) (q : CorsRequest) (granted : Text) : Type 0 where
    pub on_api : is_cors_path q.path ≡ true
    pub allowed : allows parse lower (parse_cors_policy parse lower spec) q.origin ≡ true
    pub told : granted ≡ (
        if (parse_cors_policy parse lower spec).allow_all then codes "*" else trim_slashes q.origin)

  -- The handler sends `Access-Control-Allow-Origin` only for a request to the API whose origin the
  -- policy allows; it then says "*" if the policy allows all, or else the origin without its
  -- trailing slashes.
  pub cors_handler-IsGranted :
      (spec : Text) (q : CorsRequest) (granted : Text)
      → lookup (codes "Access-Control-Allow-Origin") (cors_handler parse lower spec q).headers
        ≡ some granted
      → IsGranted spec q granted
  unfolding cors_handler
  cors_handler-IsGranted spec q granted =
      let acao = codes "Access-Control-Allow-Origin" in
      let policy = parse_cors_policy parse lower spec in
      let preflight = text_eq q.method (codes "OPTIONS") in
      let P = λ (r : CorsReply). lookup acao r.headers ≡ some granted → IsGranted spec q granted in
      let passed : P pass_on = unfold lookup in (λ e. absurd (cc e)) in
      if-elim P (not (is_cors_path q.path)) (λ _. passed)
        (λ api.
          if-elim P (is_empty q.origin && not preflight) (λ _. passed)
            (λ _.
              if-elim P (not (enabled policy)) (λ _. passed)
                (λ _.
                  if-elim
                    (λ (l : List (Text × Text)). P (record {
                      headers = (codes "Vary", codes "Origin") ∷ l;
                      answered = preflight;
                    }))
                    (allows parse lower policy q.origin)
                    (λ a e. record {
                      on_api = ground arith;
                      allowed = a;
                      told = some_inj (sym e ∙ lookup-grant policy q);
                    })
                    (λ _ e. absurd (cc (e, lookup-vary))))))
