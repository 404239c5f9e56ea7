-- ===== src/Cors.antt =====
-- cors.go: which origins may call the API from a browser. `parse` is url.Parse, with none for an
-- error, and `lower` is strings.ToLower.
pub mod Allowed
pub mod Handler
use mathlib.Core.List.{reverse}
use qoder_2api_go.Prelude.{
  ℕ, Bool, true, false, not, ◌||◌, ◌&&◌, Option, none, some, List, [], ◌∷◌, ◌++◌, ◌==◌,
  if◌then◌else◌,
}
use qoder_2api_go.Text.{Text, codes, text_eq, is_empty, strip_prefix, trim_left, trim_space}

-- The fields of a `url.URL` that the code reads.
pub record Url : Type 0 where
  pub scheme : Text
  pub host : Text

pub record Policy : Type 0 where
  pub allow_all : Bool
  pub origins : List Text

-- `strings.Split` at one code point
unfoldable pub split : ℕ → Text → List Text
split sep [] = [] ∷ []
split sep (c ∷ s) = let rest = split sep s in if c == sep then [] ∷ rest else to_first c rest
  where
    to_first : ℕ → List Text → List Text
    to_first c [] = (c ∷ []) ∷ []
    to_first c (t ∷ ts) = (c ∷ t) ∷ ts

-- `strings.TrimRight(s, "/")`
unfoldable pub trim_slashes : Text → Text
unfolding trim_left
trim_slashes s = reverse (trim_left (λ c. c == 0x2F) (reverse s))

-- `strings.TrimSuffix`
abbrev pub or_same : Text → Option Text → Text
or_same s none = s
or_same s (some rest) = reverse rest

unfoldable pub trim_suffix : Text → Text → Text
unfolding strip_prefix
trim_suffix s suffix = or_same s (strip_prefix (reverse suffix) (reverse s))

-- Is the origin one of the set?
unfoldable pub has_origin : Text → List Text → Bool
unfolding text_eq
has_origin origin [] = false
has_origin origin (o ∷ origins) = text_eq o origin || has_origin origin origins

-- The cases of the `switch` of `parseCORSPolicy`.
unfoldable pub add_origin : Text → Policy → Policy
unfolding text_eq
add_origin origin p =
    if is_empty origin
    then p
    else if text_eq origin (codes "*")
    then record p { allow_all = true }
    else record p { origins = origin ∷ p.origins }

-- `corsPolicy.enabled`
unfoldable pub enabled : Policy → Bool
enabled p = p.allow_all || some_origin p.origins
  where
    some_origin : List Text → Bool
    some_origin [] = false
    some_origin (o ∷ os) = true

-- `isCORSPath`
unfoldable pub is_cors_path : Text → Bool
unfolding text_eq strip_prefix
is_cors_path path =
    text_eq path (codes "/health")
    || elim (strip_prefix (codes "/v1/") path) [ none ↦ false | some rest ↦ true ]

-- What the handler reads of a request.
pub record CorsRequest : Type 0 where
  pub path : Text
  pub method : Text
  pub origin : Text
  pub requested_headers : Text

-- The headers that are set, and whether the request is answered here, with status 204, or goes on to
-- the next handler.
pub record CorsReply : Type 0 where
  pub headers : List (Text × Text)
  pub answered : Bool

abbrev pub pass_on : CorsReply
pass_on = record { headers = []; answered = false }

-- The headers of an origin that is allowed.
unfoldable pub grant : Policy → CorsRequest → List (Text × Text)
unfolding trim_slashes trim_space
grant p q =
    let allowed = trim_space q.requested_headers in
    (codes "Access-Control-Allow-Origin", if p.allow_all then codes "*" else trim_slashes q.origin)
    ∷ (codes "Access-Control-Allow-Methods", codes "GET, POST, OPTIONS")
    ∷ (
      codes "Access-Control-Allow-Headers",
      if is_empty allowed then codes "Authorization, Content-Type" else allowed,
    )
    ∷ (codes "Access-Control-Max-Age", codes "86400")
    ∷ []

module _ (parse : Text → Option Url) (lower : Text → Text) where
  -- The origin of a URL that was parsed, if it was.
  unfoldable pub origin_of : Text → Option Url → Text
  unfolding trim_suffix text_eq
  origin_of origin none = lower origin
  origin_of origin (some u) =
      let host = lower u.host in
      let host' =
        if text_eq u.scheme (codes "https") then trim_suffix host (codes ":443") else host in
      let host'' =
        if text_eq u.scheme (codes "http") then trim_suffix host' (codes ":80") else host' in
      if is_empty u.host then lower origin else u.scheme ++ (codes "://" ++ host'')

  -- `normalizeOrigin`
  unfoldable pub normalize_origin : Text → Text
  unfolding origin_of trim_slashes trim_space text_eq
  normalize_origin origin =
      let trimmed = trim_slashes (trim_space origin) in
      if is_empty trimmed || text_eq trimmed (codes "*")
      then trimmed
      else origin_of trimmed (parse trimmed)

  -- The loop of `parseCORSPolicy`, which builds a set: the order does not matter.
  unfoldable pub add_parts : List Text → Policy
  unfolding add_origin normalize_origin
  add_parts [] = record { allow_all = false; origins = [] }
  add_parts (part ∷ parts) = add_origin (normalize_origin part) (add_parts parts)

  -- `parseCORSPolicy`
  unfoldable pub parse_cors_policy : Text → Policy
  unfolding add_parts split
  parse_cors_policy spec = add_parts (split 0x2C spec)

  -- `corsPolicy.allows`
  unfoldable pub allows : Policy → Text → Bool
  unfolding has_origin normalize_origin
  allows p origin =
      if is_empty origin
      then false
      else p.allow_all || has_origin (normalize_origin origin) p.origins

  -- `corsHandler`, for the specification that it reads
  unfoldable pub cors_handler : Text → CorsRequest → CorsReply
  unfolding is_cors_path parse_cors_policy enabled allows grant text_eq
  cors_handler spec q =
      let policy = parse_cors_policy spec in
      let granted = if allows policy q.origin then grant policy q else [] in
      let preflight = text_eq q.method (codes "OPTIONS") in
      if not (is_cors_path q.path)
      then pass_on
      else if is_empty q.origin && not preflight
      then pass_on
      else if not (enabled policy)
      then pass_on
      else record { headers = (codes "Vary", codes "Origin") ∷ granted; answered = preflight }
