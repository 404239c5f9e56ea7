-- ===== src/Models/Catalog.antt =====
-- models/models.go: the catalog, its built-in version, and what is looked up in it.
use qoder_2api_go.Prelude.{
  ℕ, Bool, true, false, ◌||◌, Option, none, some, List, [], ◌∷◌, map, ltb, if◌then◌else◌,
}
use qoder_2api_go.Text.{Text, codes, text_eq, text_lt, is_empty, strip_prefix}
use qoder_2api_go.Dict.{Dict, lookup, get_or}

pub record ModelCaps : Type 0 where
  pub is_reasoning : Bool
  pub max_tokens : ℕ

pub record ModelCatalog : Type 0 where
  pub model_map : Dict Text
  pub vision_models : List Text
  pub default_name : Text
  pub caps : Dict ModelCaps

abbrev pub preferred_default_key : Text
preferred_default_key = codes "qmodel_latest"

abbrev pub default_scene : Text
default_scene = codes "chat"

abbrev pub default_max_output_tokens : ℕ
default_max_output_tokens = 32_000

abbrev pub default_model_map : Dict Text
default_model_map =
    (codes "Qwen3.8-Max", codes "qmodel_38max")
    ∷ (codes "Qwen3.8-Flash", codes "qfmodel")
    ∷ (codes "Qwen3.7-Max", codes "qmodel_latest")
    ∷ (codes "Qwen3.7-Plus", codes "qmodel")
    ∷ (codes "Qwen3.7-Flash", codes "q37fmodel")
    ∷ (codes "DeepSeek-V4-Pro", codes "dmodel")
    ∷ (codes "DeepSeek-Flash", codes "dfmodel")
    ∷ (codes "GLM-5.3", codes "gmodel")
    ∷ (codes "GLM-5.3-Flash", codes "gfmodel")
    ∷ (codes "GLM-5.2", codes "gm51model")
    ∷ (codes "Kimi-K3", codes "kmodel_latest")
    ∷ (codes "Kimi-K2.8-Preview", codes "kmodel")
    ∷ (codes "MiniMax-M2.7", codes "mmodel")
    ∷ []

abbrev pub default_vision_models : List Text
default_vision_models =
    codes "Qwen3.8-Max"
    ∷ codes "Qwen3.8-Flash"
    ∷ codes "Qwen3.7-Max"
    ∷ codes "Qwen3.7-Plus"
    ∷ codes "Qwen3.7-Flash"
    ∷ codes "DeepSeek-V4-Pro"
    ∷ codes "DeepSeek-Flash"
    ∷ codes "GLM-5.3"
    ∷ codes "GLM-5.3-Flash"
    ∷ codes "GLM-5.2"
    ∷ codes "Kimi-K3"
    ∷ codes "Kimi-K2.8-Preview"
    ∷ []

-- `sort.Strings`
unfoldable pub insert_sorted : Text → List Text → List Text
unfolding text_lt
insert_sorted t [] = t ∷ []
insert_sorted t (u ∷ us) =
    let rest = insert_sorted t us in if text_lt u t then u ∷ rest else t ∷ u ∷ us

unfoldable pub sort_strings : List Text → List Text
unfolding insert_sorted
sort_strings [] = []
sort_strings (t ∷ ts) = insert_sorted t (sort_strings ts)

-- `ModelCatalog.Keys`
unfoldable pub keys : Dict Text → List Text
unfolding sort_strings
keys m = sort_strings (map (λ entry. entry.0) m)

-- `ModelCatalog.GetKey`
unfoldable pub get_key : ModelCatalog → Text → Text
unfolding get_or
get_key c name = get_or name c.model_map []

-- `ModelCatalog.MaxOutputTokens`
unfoldable pub max_output_tokens : ModelCatalog → Text → ℕ
unfolding lookup
max_output_tokens c key = elim (lookup key c.caps) [
  | none ↦ default_max_output_tokens
  | some caps ↦ if ltb 0 caps.max_tokens then caps.max_tokens else default_max_output_tokens
]

-- `ModelCatalog.ReasoningDefault`
unfoldable pub reasoning_default : ModelCatalog → Text → Bool
unfolding lookup
reasoning_default c key = elim (lookup key c.caps) [ none ↦ true | some caps ↦ caps.is_reasoning ]

-- `strings.Contains`
unfoldable pub contains : Text → Text → Bool
unfolding strip_prefix
contains want [] = is_empty want
contains want (c ∷ s) =
    elim (strip_prefix want (c ∷ s)) [ none ↦ false | some rest ↦ true ] || contains want s

module _ (lower : Text → Text) where
  -- The first of the names that contains the text, in any case.
  unfoldable pub first_with : Text → List Text → Option Text
  unfolding contains
  first_with want [] = none
  first_with want (name ∷ names) =
      let rest = first_with want names in if contains want (lower name) then some name else rest

  abbrev pub or_head : List Text → Text
  or_head [] = []
  or_head (name ∷ names) = name

  -- The loop over the cheaper tiers, and what follows it.
  unfoldable pub cheapest : List Text → List Text → Text
  unfolding first_with
  cheapest names [] = or_head names
  cheapest names (want ∷ wants) =
      let rest = cheapest names wants in
      elim (first_with want names) [ none ↦ rest | some name ↦ name ]

  -- `fallbackDefaultName`
  unfoldable pub fallback_default_name : Dict Text → Text
  unfolding cheapest keys
  fallback_default_name m = cheapest (keys m) (codes "flash" ∷ codes "lite" ∷ codes "plus" ∷ [])

  -- The search of `nameForKey`, over the map in the order in which it is ranged over.
  unfoldable pub search_key : Text → Dict Text → Option Text
  unfolding text_eq
  search_key key [] = none
  search_key key ((name, k) ∷ m) =
      let rest = search_key key m in if text_eq k key then some name else rest

  module _ (order : Dict Text → Dict Text) where
    -- `nameForKey`
    unfoldable pub name_for_key : Dict Text → Text → Text
    unfolding search_key fallback_default_name
    name_for_key m key = elim (search_key key (order m)) [
      | none ↦ fallback_default_name m
      | some name ↦ name
    ]

    -- `DefaultCatalog`
    unfoldable pub default_catalog : ModelCatalog
    unfolding name_for_key
    default_catalog = record {
      model_map = default_model_map;
      vision_models = default_vision_models;
      default_name = name_for_key default_model_map preferred_default_key;
      caps = [];
    }
