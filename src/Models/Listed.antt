-- ===== src/Models/Listed.antt =====
-- models/models.go: a name resolves exactly if the list of models has it.
pub mod Offered
use qoder_2api_go.Prelude.{
  ℕ, ◌≡◌, ◌≢◌, ◌↔◌, ◌⊎◌, refl, sym, subst, ap, ◌∙◌, inl, inr, Bool, true, false, not, ◌||◌, ◌&&◌,
  Option, none, some, some_inj, List, [], ◌∷◌, map, All, In, In-map, In-map_of, In-ne-nil,
  Bool-cases, if-elim, if◌then◌else◌,
}
use qoder_2api_go.Prelude.Result.{Result, ok, err}
use qoder_2api_go.Text.{Text, codes, text_eq, text_eq_iff, text_eq_refl, text_lt, is_empty}
use qoder_2api_go.Dict.{Dict, lookup, get_or, insert, get_or-cons}
use qoder_2api_go.Json.{
  Json, null, boolean, number, string, array, object, Fields, get, string_or_empty, to_list,
}
use qoder_2api_go.Models.Catalog.{
  ModelCatalog, preferred_default_key, default_scene, insert_sorted, sort_strings, keys, get_key,
  contains, first_with, or_head, cheapest, fallback_default_name, search_key, name_for_key,
}
use qoder_2api_go.Models.Extract.{
  Numbers, Maps, is_listed, add_entry, note_entry, note_entries, catalog_from, catalog_of,
  extract_scene, extract_catalog,
}
use qoder_2api_go.Models.Resolve.{
  UnsupportedModel, or_default_catalog, name_or_first, resolve_in, resolve_model,
}

abbrev pub names : Dict Text → List Text
names = map (λ entry. entry.0)

abbrev pub IsFilled : Text → Type 0
IsFilled s = s ≢ []

-- Every entry has a name and a key.
abbrev pub AreFilled : Dict Text → Type 0
AreFilled = All (λ entry. IsFilled entry.0 × IsFilled entry.1)

In-insert_sorted_of : (t u : Text) (us : List Text) → (u ≡ t) ⊎ In u us → In u (insert_sorted t us)
unfolding insert_sorted
In-insert_sorted_of t u [] h = h
In-insert_sorted_of t u (v ∷ vs) h =
    if-elim (In u) (text_lt v t)
      (λ _. elim h [
        | inl e ↦ inr (In-insert_sorted_of t u vs (inl e))
        | inr (inl e) ↦ inl e
        | inr (inr i) ↦ inr (In-insert_sorted_of t u vs (inr i))
      ])
      (λ _. h)

In-insert_sorted : (t u : Text) (us : List Text) → In u (insert_sorted t us) → (u ≡ t) ⊎ In u us
unfolding insert_sorted
In-insert_sorted t u [] h = h
In-insert_sorted t u (v ∷ vs) h =
    if-elim (λ xs. In u xs → (u ≡ t) ⊎ In u (v ∷ vs)) (text_lt v t)
      (λ _ i. elim i [
        | inl e ↦ inr (inl e)
        | inr j ↦ elim (In-insert_sorted t u vs j) [ inl e ↦ inl e | inr k ↦ inr (inr k) ]
      ])
      (λ _ i. i) h

pub In-sort_strings_of : (u : Text) (ts : List Text) → In u ts → In u (sort_strings ts)
unfolding sort_strings
In-sort_strings_of u [] h = h
In-sort_strings_of u (t ∷ ts) (inl e) = In-insert_sorted_of t u (sort_strings ts) (inl e)
In-sort_strings_of u (t ∷ ts) (inr i) =
    In-insert_sorted_of t u (sort_strings ts) (inr (In-sort_strings_of u ts i))

pub In-sort_strings : (u : Text) (ts : List Text) → In u (sort_strings ts) → In u ts
unfolding sort_strings
In-sort_strings u [] h = h
In-sort_strings u (t ∷ ts) h = elim (In-insert_sorted t u (sort_strings ts) h) [
  | inl e ↦ inl e
  | inr i ↦ inr (In-sort_strings u ts i)
]

-- A name that is in the map has its key, which is not empty; any other has none.
pub get_or-listed :
    (name : Text) (m : Dict Text) → AreFilled m → In name (names m) → IsFilled (get_or name m [])
get_or-listed name [] h i = absurd i
get_or-listed name ((j, k) ∷ m) h i = subst IsFilled (sym (get_or-cons name j k [] m)) (
    if-elim IsFilled (text_eq j name) (λ _. h.0.1)
      (λ f. elim i [
        | inl e ↦ absurd (cc (f, (text_eq_iff j name).1 (sym e)))
        | inr r ↦ get_or-listed name m h.1 r
      ]))

pub listed-get_or : (name : Text) (m : Dict Text) → IsFilled (get_or name m []) → In name (names m)
unfolding get_or lookup
listed-get_or name [] n = absurd (n refl)
listed-get_or name ((j, k) ∷ m) n =
    if-elim (λ (t : Text). IsFilled t → In name (j ∷ names m)) (text_eq j name)
      (λ t _. inl (sym ((text_eq_iff j name).0 t))) (λ _ r. inr (listed-get_or name m r))
      (subst IsFilled (get_or-cons name j k [] m) n)

module _ (lower : Text → Text) where
  first_with-In :
      (want : Text) (ts : List Text) (name : Text)
      → first_with lower want ts ≡ some name
      → In name ts
  unfolding first_with
  first_with-In want [] name h = absurd (cc h)
  first_with-In want (t ∷ ts) name h =
      if-elim (λ (o : Option Text). o ≡ some name → In name (t ∷ ts)) (contains want (lower t))
        (λ _ e. inl (sym (some_inj e))) (λ _ e. inr (first_with-In want ts name e)) h

  -- The default is one of the names, if there are any.
  cheapest-In : (t : Text) (ts wants : List Text) → In (cheapest lower (t ∷ ts) wants) (t ∷ ts)
  unfolding cheapest
  cheapest-In t ts [] = inl refl
  cheapest-In t ts (want ∷ wants) =
      go (first_with lower want (t ∷ ts)) refl (cheapest-In t ts wants)
    where
      go :
          (o : Option Text)
          → first_with lower want (t ∷ ts) ≡ o
          → In (cheapest lower (t ∷ ts) wants) (t ∷ ts)
          → In (elim o [ none ↦ cheapest lower (t ∷ ts) wants | some name ↦ name ]) (t ∷ ts)
      go none e rest = rest
      go (some name) e rest = first_with-In want (t ∷ ts) name e

  fallback_default_name-In :
      (m : Dict Text) → keys m ≢ [] → In (fallback_default_name lower m) (keys m)
  unfolding fallback_default_name
  fallback_default_name-In m n = go (keys m) n
    where
      go :
          (ts : List Text)
          → ts ≢ []
          → In (cheapest lower ts (codes "flash" ∷ codes "lite" ∷ codes "plus" ∷ [])) ts
      go [] n = absurd (n refl)
      go (t ∷ ts) n = cheapest-In t ts (codes "flash" ∷ codes "lite" ∷ codes "plus" ∷ [])

  search_key-In :
      (key : Text) (m : Dict Text) (name : Text)
      → search_key lower key m ≡ some name
      → (entry : Text × Text) × (In entry m × (entry.0 ≡ name))
  unfolding search_key
  search_key-In key [] name h = absurd (cc h)
  search_key-In key ((j, k) ∷ m) name h =
      if-elim
        (λ (o : Option Text).
          o ≡ some name → (entry : Text × Text) × (In entry ((j, k) ∷ m) × (entry.0 ≡ name)))
        (text_eq k key) (λ _ e. ((j, k), (inl refl, some_inj e)))
        (λ _ e. let (entry, (i, d)) = search_key-In key m name e in (entry, (inr i, d))) h

  module _ (order : Dict Text → Dict Text)
      (ranges : (m : Dict Text) (entry : Text × Text) → In entry (order m) → In entry m) where
    pub name_for_key-In :
        (m : Dict Text) (key : Text) → m ≢ [] → In (name_for_key lower order m key) (names m)
    unfolding name_for_key
    name_for_key-In m key n = go (search_key lower key (order m)) refl
      where
        some_key : keys m ≢ []
        some_key = unfold keys in some_name m n
          where
            some_name : (m : Dict Text) → m ≢ [] → sort_strings (names m) ≢ []
            some_name [] n = absurd (n refl)
            some_name (entry ∷ m) n =
                In-ne-nil entry.0 _ (In-sort_strings_of entry.0 (entry.0 ∷ names m) (inl refl))

        go :
            (o : Option Text)
            → search_key lower key (order m) ≡ o
            → In (elim o [ none ↦ fallback_default_name lower m | some name ↦ name ]) (names m)
        go none e = In-sort_strings _ (names m) (unfold keys in fallback_default_name-In m some_key)
        go (some name) e =
            let (entry, (i, d)) = search_key-In key (order m) name e in
            subst (λ t. In t (names m)) d
              (In-map (λ (x : Text × Text). x.0) m entry (ranges m entry i))
