-- ===== src/Tests/Catalog.antt =====
-- models/models.go: a list with one model.
use qoder_2api_go.Prelude.{◌≡◌, ◌↔◌, refl, none, some, [], ◌∷◌, In, true, false}
use qoder_2api_go.Prelude.Result.{ok}
use qoder_2api_go.Text.{Text, codes}
use qoder_2api_go.Dict.{Dict}
use qoder_2api_go.Json.{string, array, object, Fields, field, no_fields, item, no_items}
use qoder_2api_go.Models.Catalog.{ModelCatalog, keys}
use qoder_2api_go.Models.Extract.{Numbers}
use qoder_2api_go.Models.Resolve.{resolve_model}
use qoder_2api_go.Models.Listed.{IsFilled}
use qoder_2api_go.Models.Listed.Offered.{Resolves, resolve_model_iff}

abbrev numbers : Numbers
numbers = record { is_zero = λ n. false; positive = λ n. none; atoi = λ s. none }

abbrev same_order : Dict Text → Dict Text
same_order m = m

abbrev answer : Fields
answer =
    field (codes "chat")
      (array (
        item
          (object (
            field (codes "key") (string (codes "gmodel"))
              (field (codes "display_name") (string (codes "GLM-5.3")) no_fields)))
          no_items))
      no_fields

abbrev glm : ModelCatalog
glm = record {
  model_map = (codes "GLM-5.3", codes "gmodel") ∷ [];
  vision_models = [];
  default_name = codes "GLM-5.3";
  caps = (codes "gmodel", record { is_reasoning = true; max_tokens = 32_000 }) ∷ [];
}

resolve_model_iff_example :
    (Resolves numbers (λ s. s) same_order (λ m entry i. i) (codes "GLM-5.3") glm
      ↔ In (codes "GLM-5.3") (keys glm.model_map))
    × ((key : Text) × (IsFilled key
          × ((resolve_model (λ s. s) same_order [] (some glm) ≡ ok (glm.default_name, key))
              × In glm.default_name (keys glm.model_map))))
unfolding qoder_2api_go.Models.Extract.extract_catalog
resolve_model_iff_example =
    resolve_model_iff numbers (λ s. s) same_order (λ m entry i. i) answer glm (codes "GLM-5.3") refl
      (λ e. cc)
