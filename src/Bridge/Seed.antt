-- ===== src/Bridge/Seed.antt =====
-- bridge/handler.go: the conversation seed of sticky routing; the image URLs are those of
-- transform/transform.go. `digest` is SHA-256 in hexadecimal, `marshal` is json.Marshal of the tools.
use qoder_2api_go.Prelude.{
  Bool, true, false, not, ◌||◌, ◌&&◌, Option, none, some, List, [], ◌∷◌, ◌++◌, map, filter,
  if◌then◌else◌,
}
use qoder_2api_go.Text.{Text, codes, text_eq, is_empty, trim_space}
use qoder_2api_go.Json.{
  Json, null, string, array, object, Fields, get, string_or_empty, items_of, to_list,
}
use qoder_2api_go.Bridge.Reply.{truncate_runes}

-- `strings.Join`
unfoldable pub join : Text → List Text → Text
join sep [] = []
join sep (t ∷ []) = t
join sep (t ∷ (u ∷ ts)) = t ++ (sep ++ join sep (u ∷ ts))

-- The `text` of a content part of type text.
unfoldable pub part_text : Json → Text
unfolding get string_or_empty text_eq
part_text (object fs) =
    if text_eq (string_or_empty (get (codes "type") fs)) (codes "text")
    then string_or_empty (get (codes "text") fs)
    else []
part_text _ = []

unfoldable pub parts_text : List Json → Text
unfolding part_text
parts_text [] = []
parts_text (p ∷ ps) = part_text p ++ parts_text ps

unfoldable pub content_text : Json → Text
unfolding parts_text trim_space to_list
content_text (string s) = truncate_runes (trim_space s) 512
content_text (array vs) = truncate_runes (trim_space (parts_text (to_list vs))) 512
content_text _ = []

-- `messageText`
unfoldable pub message_text : Fields → Text
unfolding content_text get
message_text fs = content_text (get (codes "content") fs)

unfoldable pub url_or : Text → Json → Text
unfolding get string_or_empty
url_or other (object fs) =
    let url = string_or_empty (get (codes "url") fs) in if is_empty url then other else url
url_or other (string s) = s
url_or other _ = other

-- `extractImageDataURL`
unfoldable pub extract_image_data_url : Fields → Text
unfolding url_or get string_or_empty text_eq
extract_image_data_url fs =
    let t = string_or_empty (get (codes "type") fs) in
    if not (text_eq t (codes "image_url")) && not (text_eq t (codes "input_image"))
    then []
    else url_or (string_or_empty (get (codes "url") fs)) (get (codes "image_url") fs)

unfoldable pub image_url : Json → Text
unfolding extract_image_data_url
image_url (object fs) = extract_image_data_url fs
image_url _ = []

unfoldable pub is_array : Json → Bool
is_array (array vs) = true
is_array _ = false

-- `ExtractMessageImages`
unfoldable pub extract_message_images : Fields → List Text
unfolding get items_of image_url filter is_array
extract_message_images fs =
    let content =
      if is_array (get (codes "content") fs)
      then get (codes "content") fs
      else get (codes "contents") fs in
    filter (λ url. not (is_empty url)) (map image_url (items_of content))

-- The variables of the loop of `conversationSeed`; the first user message is none until it is seen.
pub record SeedState : Type 0 where
  pub prefix : List Text
  pub system_open : Bool
  pub first_user : Option Text

unfoldable pub user_anchor : Fields → Text
unfolding message_text extract_message_images join
user_anchor fs =
    message_text fs ++ (0 ∷ (codes "img:" ++ join (codes ",") (extract_message_images fs)))

unfoldable pub or_first : Text → Option Text → Option Text
or_first anchor none = some anchor
or_first anchor (some first) = some first

unfoldable pub seed_system : Text → Fields → SeedState → SeedState
unfolding message_text
seed_system role fs s =
    let txt = message_text fs in
    if not s.system_open || is_empty txt
    then s
    else record s { prefix = s.prefix ++ (role ++ (codes ":" ++ txt)) ∷ [] }

-- The `switch` on the role.
unfoldable pub seed_message : Text → Fields → SeedState → SeedState
unfolding seed_system user_anchor or_first text_eq
seed_message role fs s =
    if text_eq role (codes "system") || text_eq role (codes "developer")
    then seed_system role fs s
    else if text_eq role (codes "user")
    then record s { system_open = false; first_user = or_first (user_anchor fs) s.first_user }
    else record s { system_open = false }

unfoldable pub seed_step : Json → SeedState → SeedState
unfolding seed_message get string_or_empty
seed_step (object fs) s = seed_message (string_or_empty (get (codes "role") fs)) fs s
seed_step _ s = s

unfoldable pub seed_loop : List Json → SeedState → SeedState
unfolding seed_step
seed_loop [] s = s
seed_loop (m ∷ ms) s = seed_loop ms (seed_step m s)

abbrev pub seed_start : SeedState
seed_start = record { prefix = []; system_open = true; first_user = none }

module _ (digest : Text → Text) (marshal : Json → Option Text) where
  unfoldable pub tools_text : Json → Text
  tools_text null = []
  tools_text tools = elim (marshal tools) [ none ↦ [] | some b ↦ b ]

  unfoldable pub seed_of : Text → Text → SeedState → Text
  unfolding join
  seed_of bare_model tools s = elim s.first_user [
    | none ↦ []
    | some first ↦ digest (
        bare_model
        ++ (0
            ∷ (codes "tools:"
                ++ (tools
                    ++ (0
                        ∷ (codes "prefix:"
                            ++ (join (1 ∷ []) s.prefix ++ (0 ∷ (codes "first:" ++ first)))))))))
  ]

  -- `conversationSeed`, over the messages and the tools of the request
  unfoldable pub conversation_seed : List Json → Json → Text → Text
  unfolding seed_of seed_loop tools_text
  conversation_seed messages tools bare_model =
      seed_of bare_model (tools_text tools) (seed_loop messages seed_start)
