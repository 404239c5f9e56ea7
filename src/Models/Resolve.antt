-- ===== src/Models/Resolve.antt =====
-- models/models.go: resolving a model name, and the list of models; bridge/handler.go: the label of a
-- request in the statistics, and the models handler.
use qoder_2api_go.Prelude.{not, Option, none, some, List, [], ◌∷◌, ◌++◌, if◌then◌else◌}
use qoder_2api_go.Prelude.Result.{Result, ok, err}
use qoder_2api_go.Text.{Text, codes, is_empty}
use qoder_2api_go.Dict.{Dict, get_or}
use qoder_2api_go.Json.{
  Json, number, string, array, object, Items, no_items, item, Fields, field, no_fields,
}
use qoder_2api_go.Bridge.Reply.{truncate_runes}
use qoder_2api_go.Bridge.Seed.{join}
use qoder_2api_go.Bridge.Failover.{extract_bearer_token}
use qoder_2api_go.Models.Catalog.{ModelCatalog, keys, get_key, default_catalog}

-- `UnsupportedModelError`
pub record UnsupportedModel : Type 0 where
  pub model : Text
  pub supported : Text

-- `UnsupportedModelError.Error`
unfoldable pub error_text : UnsupportedModel → Text
error_text e = codes "Unsupported model '" ++ (e.model ++ (codes "'. Supported: " ++ e.supported))

-- One model of the list.
unfoldable pub model_row : Text → Json
model_row name = object (
    field (codes "id") (string name) (
      field (codes "object") (string (codes "model")) (
        field (codes "created") (number (codes "0"))
          (field (codes "owned_by") (string (codes "qoder")) no_fields))))

unfoldable pub model_rows : List Text → Items
unfolding model_row
model_rows [] = no_items
model_rows (name ∷ names) = item (model_row name) (model_rows names)

module _ (lower : Text → Text) (order : Dict Text → Dict Text) where
  unfoldable pub or_default_catalog : Option ModelCatalog → ModelCatalog
  unfolding default_catalog
  or_default_catalog none = default_catalog lower order
  or_default_catalog (some c) = c

  -- The name for an empty model: the default, or else the first of the map.
  unfoldable pub first_name : Dict Text → Text
  first_name [] = []
  first_name ((name, key) ∷ m) = name

  unfoldable pub name_or_first : ModelCatalog → Text
  unfolding first_name
  name_or_first c =
      if is_empty c.default_name then first_name (order c.model_map) else c.default_name

  unfoldable pub resolve_in : Text → ModelCatalog → Result UnsupportedModel (Text × Text)
  unfolding get_key keys join name_or_first get_or
  resolve_in model c =
      if not (is_empty model)
      then if is_empty (get_key c model)
        then err (record { model = model; supported = join (codes ", ") (keys c.model_map) })
        else ok (model, get_key c model)
      else ok (name_or_first c, get_or (name_or_first c) c.model_map [])

  -- `ResolveModel`
  unfoldable pub resolve_model : Text → Option ModelCatalog → Result UnsupportedModel (Text × Text)
  unfolding resolve_in or_default_catalog
  resolve_model model catalog = resolve_in model (or_default_catalog catalog)

  -- `ModelsPayload`
  unfoldable pub models_payload : Option ModelCatalog → Fields
  unfolding model_rows keys or_default_catalog
  models_payload catalog = field (codes "object") (string (codes "list")) (
      field (codes "data") (array (model_rows (keys (or_default_catalog catalog).model_map)))
        no_fields)

  -- `MakeModelsHandler`, with the catalog of the bridge that the resolver gives for a key, if it
  -- gives one
  unfoldable pub models_handler : (Text → Option ModelCatalog) → Text → Fields
  unfolding models_payload extract_bearer_token
  models_handler catalog_for authorization =
      let token = extract_bearer_token authorization in
      models_payload (if is_empty token then none else catalog_for token)

  abbrev pub label_or : Text → Text
  label_or [] = codes "(default)"
  label_or (c ∷ s) = c ∷ s

  unfoldable pub resolved_label : Result UnsupportedModel (Text × Text) → Text
  resolved_label (ok (name, key)) = name
  resolved_label (err e) = []

  unfoldable pub default_label : Option ModelCatalog → Text
  unfolding resolve_model resolved_label
  default_label none = []
  default_label (some c) = resolved_label (resolve_model [] (some c))

  -- `statsModelLabel`, with the catalog of the bridge
  unfoldable pub stats_model_label : Option ModelCatalog → Text → Text
  unfolding default_label
  stats_model_label catalog model =
      let short = truncate_runes model 64 in
      label_or (if is_empty short then default_label catalog else short)
