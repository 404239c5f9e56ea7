-- ===== src/Models/Listed/Offered.antt =====
-- models/models.go: a catalog that was read off the gateway's list resolves what it offers.
use qoder_2api_go.Prelude.{
  ◌≡◌, ◌↔◌, refl, sym, subst, inl, inr, Bool, true, false, not, ◌||◌, ◌&&◌, some, some_inj, List,
  [], ◌∷◌, In, if-elim,
}
use qoder_2api_go.Prelude.Result.{Result, ok}
use qoder_2api_go.Text.{Text, codes, text_eq, is_empty}
use qoder_2api_go.Dict.{Dict, get_or, insert}
use qoder_2api_go.Json.{
  Json, null, boolean, number, string, array, object, Fields, get, string_or_empty, to_list,
}
use qoder_2api_go.Models.Catalog.{ModelCatalog, preferred_default_key, default_scene, keys, get_key}
use qoder_2api_go.Models.Extract.{
  Numbers, Maps, is_listed, has_field, enable_flag, add_entry, note_entry, note_entries,
  catalog_from, catalog_of, extract_scene, extract_catalog,
}
use qoder_2api_go.Models.Resolve.{
  UnsupportedModel, or_default_catalog, name_or_first, resolve_in, resolve_model,
}
use qoder_2api_go.Models.Listed.{
  names, IsFilled, AreFilled, In-sort_strings, In-sort_strings_of, get_or-listed, listed-get_or,
  name_for_key-In,
}

-- Names and keys are not empty, and the default is one of the names.
pub record IsUsable (c : ModelCatalog) : Type 0 where
  pub filled : AreFilled c.model_map
  pub has_default : In c.default_name (names c.model_map)

AreFilled-insert :
    (name key : Text) (m : Dict Text)
    → IsFilled name
    → IsFilled key
    → AreFilled m
    → AreFilled (insert name key m)
unfolding insert
AreFilled-insert name key [] n k h = ((n, k), tt)
AreFilled-insert name key ((j, w) ∷ m) n k h =
    if-elim AreFilled (text_eq j name) (λ _. ((h.0.0, k), h.1))
      (λ _. (h.0, AreFilled-insert name key m n k h.1))

is_empty-IsFilled : (s : Text) → not (is_empty s) ≡ true → IsFilled s
is_empty-IsFilled [] h e = cc
is_empty-IsFilled (c ∷ s) h e = cc

and_parts : (a b c d : Bool) → (a && b && c && d) ≡ true → (b ≡ true) × (c ≡ true)
and_parts true true true d h = (refl, refl)
and_parts true true false d h = absurd (cc h)
and_parts true false c d h = absurd (cc h)
and_parts false b c d h = absurd (cc h)

module _ (ns : Numbers) where
  is_listed-IsFilled :
      (m : Fields)
      → is_listed ns m ≡ true
      → IsFilled (string_or_empty (get (codes "key") m))
        × IsFilled (string_or_empty (get (codes "display_name") m))
  unfolding is_listed
  is_listed-IsFilled m h =
      let key = string_or_empty (get (codes "key") m) in
      let name = string_or_empty (get (codes "display_name") m) in
      let (k, n) =
        and_parts (not (has_field (codes "enable") m) || enable_flag ns (get (codes "enable") m))
          (not (is_empty key)) (not (is_empty name)) (not (text_eq key (codes "auto"))) h in
      (is_empty-IsFilled key k, is_empty-IsFilled name n)

  note_entry-AreFilled :
      (v : Json) (maps : Maps)
      → AreFilled maps.model_map
      → AreFilled (note_entry ns v maps).model_map
  unfolding note_entry add_entry
  note_entry-AreFilled null maps h = h
  note_entry-AreFilled (boolean b) maps h = h
  note_entry-AreFilled (number n) maps h = h
  note_entry-AreFilled (string s) maps h = h
  note_entry-AreFilled (array vs) maps h = h
  note_entry-AreFilled (object m) maps h =
      if-elim (λ (x : Maps). AreFilled x.model_map) (is_listed ns m)
        (λ t.
          let (k, n) = is_listed-IsFilled m t in
          AreFilled-insert (string_or_empty (get (codes "display_name") m))
            (string_or_empty (get (codes "key") m)) maps.model_map n k h)
        (λ _. h)

  note_entries-AreFilled :
      (vs : List Json) (maps : Maps)
      → AreFilled maps.model_map
      → AreFilled (note_entries ns vs maps).model_map
  unfolding note_entries
  note_entries-AreFilled [] maps h = h
  note_entries-AreFilled (v ∷ vs) maps h =
      note_entries-AreFilled vs (note_entry ns v maps) (note_entry-AreFilled v maps h)

  module _ (lower : Text → Text) (order : Dict Text → Dict Text)
      (ranges : (m : Dict Text) (entry : Text × Text) → In entry (order m) → In entry m) where
    catalog_from-IsUsable :
        (maps : Maps) (m : Dict Text) (c : ModelCatalog)
        → m ≡ maps.model_map
        → AreFilled maps.model_map
        → catalog_from ns lower order maps m ≡ some c
        → IsUsable c
    unfolding catalog_from
    catalog_from-IsUsable maps [] c e h f = absurd (cc f)
    catalog_from-IsUsable maps (entry ∷ entries) c e h f = subst IsUsable (some_inj f) (record {
      filled = h;
      has_default =
          name_for_key-In lower order ranges maps.model_map preferred_default_key
            (λ d. absurd (cc (e, d)));
    })

    extract_scene-IsUsable :
        (v : Json) (c : ModelCatalog) → extract_scene ns lower order v ≡ some c → IsUsable c
    unfolding extract_scene catalog_of
    extract_scene-IsUsable null c h = absurd (cc h)
    extract_scene-IsUsable (boolean b) c h = absurd (cc h)
    extract_scene-IsUsable (number n) c h = absurd (cc h)
    extract_scene-IsUsable (string s) c h = absurd (cc h)
    extract_scene-IsUsable (object m) c h = absurd (cc h)
    extract_scene-IsUsable (array vs) c h =
        let maps =
          note_entries ns (to_list vs) (record { model_map = []; vision = []; caps = [] }) in
        catalog_from-IsUsable maps maps.model_map c refl (note_entries-AreFilled (to_list vs) _ tt)
          h

    -- A model that resolves, to itself and a key.
    abbrev pub Resolves : Text → ModelCatalog → Type 0
    Resolves model c =
        (key : Text) × (IsFilled key × (resolve_model lower order model (some c) ≡ ok (model, key)))

    resolve_in-listed :
        (model : Text) (c : ModelCatalog)
        → IsFilled model
        → AreFilled c.model_map
        → In model (names c.model_map)
        → resolve_in lower order model c ≡ ok (model, get_or model c.model_map [])
    unfolding resolve_in get_key
    resolve_in-listed [] c n h i = absurd (n refl)
    resolve_in-listed (x ∷ xs) c n h i =
        rw (full (get_or (x ∷ xs) c.model_map []) (get_or-listed (x ∷ xs) c.model_map h i)) refl
      where
        full : (s : Text) → IsFilled s → is_empty s ≡ false
        full [] n = absurd (n refl)
        full (d ∷ s) n = refl

    Resolves-In :
        (model : Text) (c : ModelCatalog)
        → IsFilled model
        → Resolves model c
        → In model (names c.model_map)
    unfolding resolve_model resolve_in or_default_catalog get_key
    Resolves-In [] c n h = absurd (n refl)
    Resolves-In (x ∷ xs) c n (key, (k, e)) =
        if-elim
          (λ (r : Result UnsupportedModel (Text × Text)).
            r ≡ ok (x ∷ xs, key) → In (x ∷ xs) (names c.model_map))
          (is_empty (get_or (x ∷ xs) c.model_map [])) (λ _ h. absurd (cc h))
          (λ f _. listed-get_or (x ∷ xs) c.model_map (full (get_or (x ∷ xs) c.model_map []) f)) e
      where
        full : (s : Text) → is_empty s ≡ false → IsFilled s
        full [] h e = cc
        full (d ∷ s) h e = cc

    default-Resolves :
        (c : ModelCatalog)
        → IsUsable c
        → resolve_in lower order [] c ≡ ok (c.default_name, get_or c.default_name c.model_map [])
    unfolding resolve_in name_or_first
    default-Resolves c u =
        rw (full c.default_name (listed-filled c.default_name c.model_map u.filled u.has_default))
          refl
      where
        full : (s : Text) → IsFilled s → is_empty s ≡ false
        full [] n = absurd (n refl)
        full (d ∷ s) n = refl

        listed-filled :
            (name : Text) (m : Dict Text) → AreFilled m → In name (names m) → IsFilled name
        listed-filled name [] h i = absurd i
        listed-filled name (entry ∷ m) h (inl e) = subst IsFilled (sym e) h.0.0
        listed-filled name (entry ∷ m) h (inr i) = listed-filled name m h.1 i

    -- With a catalog that was read off the gateway's list, a name that is not empty resolves, to
    -- itself and a key that is not empty, exactly if the list of models offers it, and the empty name
    -- resolves to a model that is offered. Ranging over a map is taken to meet no entries but its own.
    pub resolve_model_iff :
        (raw : Fields) (c : ModelCatalog) (model : Text)
        → extract_catalog ns lower order raw ≡ some c
        → IsFilled model
        → (Resolves model c ↔ In model (keys c.model_map))
          × ((key : Text) × (IsFilled key
                × ((resolve_model lower order [] (some c) ≡ ok (c.default_name, key))
                    × In c.default_name (keys c.model_map))))
    unfolding extract_catalog resolve_model or_default_catalog keys
    resolve_model_iff raw c model h n =
        let u = extract_scene-IsUsable (get default_scene raw) c h in
        (
          (
            λ r. In-sort_strings_of model (names c.model_map) (Resolves-In model c n r),
            λ i.
                let j = In-sort_strings model (names c.model_map) i in
                (
                  get_or model c.model_map [],
                  (
                    get_or-listed model c.model_map u.filled j,
                    resolve_in-listed model c n u.filled j,
                  ),
                ),
          ),
          (
            get_or c.default_name c.model_map [],
            (
              get_or-listed c.default_name c.model_map u.filled u.has_default,
              (
                default-Resolves c u,
                In-sort_strings_of c.default_name (names c.model_map) u.has_default,
              ),
            ),
          ),
        )
