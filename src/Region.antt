-- ===== src/Region.antt =====
-- models/route.go: the region filter and its model-name prefixes.
pub mod Parse
use qoder_2api_go.Prelude.{List, [], ◌∷◌, Option, none, some, if◌then◌else◌}
use qoder_2api_go.Text.{Text, codes, is_empty, strip_prefix, trim_space}

pub data RegionFilter : Type 0 where
  region_default region_cn region_global region_auto : RegionFilter

-- `RegionFilter.Region`
unfoldable pub region : RegionFilter → Text
region region_cn = codes "cn"
region region_global = codes "global"
region _ = []

-- `RegionFilter.String`
unfoldable pub to_string : RegionFilter → Text
to_string region_cn = codes "cn"
to_string region_global = codes "global"
to_string region_auto = codes "auto"
to_string _ = codes "default"

abbrev pub region_prefixes : List (Text × RegionFilter)
region_prefixes =
    (codes "cn/", region_cn)
    ∷ (codes "gl/", region_global)
    ∷ (codes "global/", region_global)
    ∷ (codes "auto/", region_auto)
    ∷ []

-- One round of the loop of `ParseRegionPrefix`, from the rest behind the prefix, if it is there, and
-- what the other rounds return.
unfoldable pub after_prefix :
    Text → RegionFilter → RegionFilter × Text → Option Text → RegionFilter × Text
after_prefix model f others none = others
after_prefix model f others (some tail) =
    let bare = trim_space tail in if is_empty bare then (region_default, model) else (f, bare)

unfoldable pub parse_prefixes : Text → List (Text × RegionFilter) → RegionFilter × Text
unfolding after_prefix
parse_prefixes model [] = (region_default, model)
parse_prefixes model ((prefix, f) ∷ ps) =
    after_prefix model f (parse_prefixes model ps) (strip_prefix prefix model)

unfoldable pub parse_region_prefix : Text → RegionFilter × Text
unfolding parse_prefixes
parse_region_prefix model = parse_prefixes model region_prefixes
