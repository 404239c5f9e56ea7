-- ===== src/Models/Extract.antt =====
-- models/models.go: reading the catalog off the gateway's model list. `Numbers` is what float64 and
-- strconv.Atoi make of the text of a number.
use qoder_2api_go.Prelude.{
  ℕ, Bool, true, false, not, ◌||◌, ◌&&◌, Option, none, some, List, [], ◌∷◌, if◌then◌else◌,
}
use qoder_2api_go.Text.{Text, codes, text_eq, is_empty, trim_space}
use qoder_2api_go.Dict.{Dict, insert}
use qoder_2api_go.Json.{
  Json, null, boolean, number, string, array, object, Fields, field, no_fields, get,
  string_or_empty, to_list,
}
use qoder_2api_go.Models.Catalog.{
  ModelCaps, ModelCatalog, preferred_default_key, default_scene, default_max_output_tokens,
  name_for_key,
}

-- `is_zero` and `positive` are of the float64 that a number is; `positive` and `atoi` give a positive
-- integer, if that is what it is.
pub record Numbers : Type 0 where
  pub is_zero : Text → Bool
  pub positive : Text → Option ℕ
  pub atoi : Text → Option ℕ

-- `_, ok := m[name]`
unfoldable pub has_field : Text → Fields → Bool
unfolding text_eq
has_field name no_fields = false
has_field name (field n v fs) = text_eq n name || has_field name fs

-- `v != nil`
unfoldable pub is_present : Json → Bool
is_present null = false
is_present _ = true

-- The three maps that `ExtractCatalog` builds.
pub record Maps : Type 0 where
  pub model_map : Dict Text
  pub vision : List Text
  pub caps : Dict ModelCaps

-- `isVL, ok := v.(bool); ok && isVL`
unfoldable pub is_vision : Json → Bool
is_vision (boolean b) = b
is_vision _ = false

module _ (ns : Numbers) where
  -- `enableFlag`
  unfoldable pub enable_flag : Json → Bool
  unfolding text_eq
  enable_flag (boolean b) = b
  enable_flag (string s) = not (
      text_eq s (codes "false")
      || text_eq s (codes "0")
      || text_eq s (codes "False")
      || text_eq s (codes "FALSE"))
  enable_flag (number n) = not (ns.is_zero n)
  enable_flag _ = true

  -- The top-level flag of `reasoningCapability`.
  unfoldable pub reasoning_flag : Fields → Bool
  unfolding has_field enable_flag get
  reasoning_flag m =
      if has_field (codes "is_reasoning") m
      then enable_flag (get (codes "is_reasoning") m)
      else true

  unfoldable pub thinking : Fields → Json → Bool
  unfolding reasoning_flag is_present get
  thinking m (object config) = is_present (get (codes "enabled") config)
  thinking m null = reasoning_flag m
  thinking m _ = true

  -- `reasoningCapability`
  unfoldable pub reasoning_capability : Fields → Bool
  unfolding thinking get
  reasoning_capability m = thinking m (get (codes "thinking_config") m)

  -- `positiveInt`
  unfoldable pub positive_int : Json → Option ℕ
  unfolding trim_space
  positive_int (number n) = ns.positive n
  positive_int (string s) = ns.atoi (trim_space s)
  positive_int _ = none

  unfoldable pub entry_caps : Fields → ModelCaps
  unfolding reasoning_capability positive_int get
  entry_caps m = record {
    is_reasoning = reasoning_capability m;
    max_tokens = elim (positive_int (get (codes "max_output_tokens") m)) [
      | none ↦ default_max_output_tokens
      | some n ↦ n
    ];
  }

  -- An entry that is enabled and has a key and a name.
  unfoldable pub is_listed : Fields → Bool
  unfolding enable_flag has_field get string_or_empty text_eq
  is_listed m =
      let key = string_or_empty (get (codes "key") m) in
      (not (has_field (codes "enable") m) || enable_flag (get (codes "enable") m))
      && not (is_empty key)
      && not (is_empty (string_or_empty (get (codes "display_name") m)))
      && not (text_eq key (codes "auto"))

  unfoldable pub add_entry : Fields → Maps → Maps
  unfolding entry_caps is_vision get string_or_empty insert
  add_entry m maps =
      let key = string_or_empty (get (codes "key") m) in
      let name = string_or_empty (get (codes "display_name") m) in
      record {
        model_map = insert name key maps.model_map;
        vision = if is_vision (get (codes "is_vl") m) then name ∷ maps.vision else maps.vision;
        caps = insert key (entry_caps m) maps.caps;
      }

  unfoldable pub note_entry : Json → Maps → Maps
  unfolding is_listed add_entry
  note_entry (object m) maps = if is_listed m then add_entry m maps else maps
  note_entry _ maps = maps

  unfoldable pub note_entries : List Json → Maps → Maps
  unfolding note_entry
  note_entries [] maps = maps
  note_entries (v ∷ vs) maps = note_entries vs (note_entry v maps)

  module _ (lower : Text → Text) (order : Dict Text → Dict Text) where
    -- The end of `ExtractCatalog`: no model makes no catalog.
    unfoldable pub catalog_from : Maps → Dict Text → Option ModelCatalog
    unfolding name_for_key
    catalog_from maps [] = none
    catalog_from maps (entry ∷ entries) = some (record {
      model_map = maps.model_map;
      vision_models = maps.vision;
      default_name = name_for_key lower order maps.model_map preferred_default_key;
      caps = maps.caps;
    })

    unfoldable pub catalog_of : Maps → Option ModelCatalog
    unfolding catalog_from
    catalog_of maps = catalog_from maps maps.model_map

    unfoldable pub extract_scene : Json → Option ModelCatalog
    unfolding catalog_of note_entries to_list
    extract_scene (array vs) =
        catalog_of (note_entries (to_list vs) (record { model_map = []; vision = []; caps = [] }))
    extract_scene _ = none

    -- `ExtractCatalog`
    unfoldable pub extract_catalog : Fields → Option ModelCatalog
    unfolding extract_scene get
    extract_catalog raw = extract_scene (get default_scene raw)
