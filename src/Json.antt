-- ===== src/Json.antt =====
-- Go's `interface{}` after JSON decoding. A number is its text, since the program decodes requests
-- with UseNumber; an object is a list of fields with distinct names, of which the first counts.
use qoder_2api_go.Prelude.{Bool, List, [], ◌∷◌, if◌then◌else◌}
use qoder_2api_go.Text.{Text, text_eq}

mutual
  pub data Json : Type 0 where
    null : Json
    boolean : Bool → Json
    number : Text → Json
    string : Text → Json
    array : Items → Json
    object : Fields → Json

  pub data Items : Type 0 where
    no_items : Items
    item : Json → Items → Items

  pub data Fields : Type 0 where
    no_fields : Fields
    field : Text → Json → Fields → Fields

-- `m[name]`, with `null` for a missing field, as the type assertions of the program see it
unfoldable pub get : Text → Fields → Json
unfolding text_eq
get name no_fields = null
get name (field n v fs) = let rest = get name fs in if text_eq n name then v else rest

-- `x, _ := v.(string)`
unfoldable pub string_or_empty : Json → Text
string_or_empty (string s) = s
string_or_empty _ = []

-- The items of an array as a list; any other value has none, like a failed assertion.
unfoldable pub to_list : Items → List Json
to_list no_items = []
to_list (item v vs) = v ∷ to_list vs

unfoldable pub items_of : Json → List Json
unfolding to_list
items_of (array vs) = to_list vs
items_of _ = []
