-- ===== src/Tests/Origins.antt =====
-- cors.go for a specification of one origin.
use qoder_2api_go.Prelude.{◌≡◌, ◌↔◌, refl, true, Option, some, []}
use qoder_2api_go.Text.{Text, codes}
use qoder_2api_go.Dict.{lookup}
use qoder_2api_go.Cors.{Url, CorsRequest, split, parse_cors_policy, allows, cors_handler}
use qoder_2api_go.Cors.Allowed.{Some, Admits, allows_iff}
use qoder_2api_go.Cors.Handler.{IsGranted, cors_handler-IsGranted}

-- Every text is read as a host of the same scheme.
abbrev as_host : Text → Option Url
as_host t = some (record { scheme = codes "https"; host = t })

abbrev same : Text → Text
same t = t

allows_iff_example :
    (allows as_host same (parse_cors_policy as_host same (codes "a.com,b.com")) (codes "b.com")
      ≡ true)
    ↔ Some as_host same (Admits as_host same (codes "b.com")) (split 0x2C (codes "a.com,b.com"))
allows_iff_example = allows_iff as_host same (codes "a.com,b.com") (codes "b.com") (λ e. cc)

abbrev preflight : CorsRequest
preflight = record {
  path = codes "/v1/models";
  method = codes "OPTIONS";
  origin = codes "b.com/";
  requested_headers = [];
}

cors_handler-IsGranted_example :
    IsGranted as_host same (codes "a.com,b.com") preflight (codes "b.com")
unfolding lookup cors_handler
cors_handler-IsGranted_example =
    cors_handler-IsGranted as_host same (codes "a.com,b.com") preflight (codes "b.com") refl
