-- ===== src/Region/Parse.antt =====
-- models/route.go: what `ParseRegionPrefix` makes of a model name.
use qoder_2api_go.Prelude.{
  sym, subst, ◌≡◌, refl, ◌≢◌, inl, inr, ◌++◌, List, [], ◌∷◌, Option, none, some, In, All, arith,
  if◌then◌else◌, if-elim,
}
use qoder_2api_go.Text.{Text, is_empty, nil_of_empty, not_nil, strip_prefix, trim_space}
use qoder_2api_go.Region.{
  RegionFilter, region_default, region_cn, region_global, region_auto, region_prefixes,
  after_prefix, parse_prefixes, parse_region_prefix,
}

strip_prefix-append : (p s : Text) → strip_prefix p (p ++ s) ≡ some s
unfolding strip_prefix
strip_prefix-append [] s = refl
strip_prefix-append (c ∷ p) s = ground (arith, strip_prefix-append p s)

-- What a result says of the model name: a prefix of the table was cut off, with a name behind it;
-- or the name is as the client wrote it, because no prefix of the table stands in front of it, or
-- because one does with nothing but blanks behind it.
pub data Parsed (model : Text) (table : List (Text × RegionFilter)) (f : RegionFilter) (bare : Text)
    : Type 0 where
  prefixed :
      (prefix tail : Text)
      → In (prefix, f) table
      → strip_prefix prefix model ≡ some tail
      → bare ≡ trim_space tail
      → bare ≢ []
      → Parsed model table f bare
  unprefixed :
      All (λ row. strip_prefix row.0 model ≡ none) table
      → f ≡ region_default
      → bare ≡ model
      → Parsed model table f bare
  nameless :
      (prefix tail : Text) (g : RegionFilter)
      → In (prefix, g) table
      → strip_prefix prefix model ≡ some tail
      → trim_space tail ≡ []
      → f ≡ region_default
      → bare ≡ model
      → Parsed model table f bare

-- A row in front whose prefix does not stand there changes nothing.
Parsed-cons :
    {model : Text} {table : List (Text × RegionFilter)} {f : RegionFilter} {bare : Text}
    (row : Text × RegionFilter)
    → strip_prefix row.0 model ≡ none
    → Parsed model table f bare
    → Parsed model (row ∷ table) f bare
Parsed-cons row o (prefixed prefix tail i e b n) = prefixed prefix tail (inr i) e b n
Parsed-cons row o (unprefixed h d b) = unprefixed (o, h) d b
Parsed-cons row o (nameless prefix tail g i e t d b) = nameless prefix tail g (inr i) e t d b

after_prefix-Parsed :
    (model prefix : Text) (table : List (Text × RegionFilter)) (f : RegionFilter)
    (others : RegionFilter × Text) (o : Option Text)
    → strip_prefix prefix model ≡ o
    → Parsed model table others.0 others.1
    → let (g, bare) = after_prefix model f others o in Parsed model ((prefix, f) ∷ table) g bare
unfolding after_prefix
after_prefix-Parsed model prefix table f others none e h = Parsed-cons (prefix, f) e h
after_prefix-Parsed model prefix table f others (some tail) e h =
    if-elim (λ (p : RegionFilter × Text). Parsed model ((prefix, f) ∷ table) p.0 p.1)
      (is_empty (trim_space tail))
      (λ t. nameless prefix tail f (inl refl) e (nil_of_empty (trim_space tail) t) refl refl)
      (λ full. prefixed prefix tail (inl refl) e refl (not_nil (trim_space tail) full))

parse_prefixes-Parsed :
    (model : Text) (table : List (Text × RegionFilter))
    → let (f, bare) = parse_prefixes model table in Parsed model table f bare
unfolding parse_prefixes
parse_prefixes-Parsed model [] = unprefixed tt refl refl
parse_prefixes-Parsed model ((prefix, f) ∷ ps) =
    after_prefix-Parsed model prefix ps f (parse_prefixes model ps) (strip_prefix prefix model) refl
      (parse_prefixes-Parsed model ps)

-- `ParseRegionPrefix` cuts off a prefix of its table that has a name behind it, trimmed, and
-- returns that prefix's region. It returns the name as it is, for the default region, only where no
-- prefix of the table stands in front of it, or one that has nothing but blanks behind it.
pub parse_region_prefix-Parsed :
    (model : Text)
    → let (f, bare) = parse_region_prefix model in Parsed model region_prefixes f bare
unfolding parse_region_prefix
parse_region_prefix-Parsed model = parse_prefixes-Parsed model region_prefixes

named :
    (model bare : Text) (f : RegionFilter)
    → bare ≢ []
    → trim_space bare ≡ bare
    → ◌≡◌ {A = RegionFilter × Text}
        (if is_empty (trim_space bare) then (region_default, model) else (f, trim_space bare))
        (f, bare)
named model [] f n t = absurd (n refl)
named model (c ∷ bare) f n t = rw t refl

-- Each prefix of the table selects its region for every trimmed name that is not empty.
pub parse-print :
    (prefix : Text) (f : RegionFilter) (bare : Text)
    → In (prefix, f) region_prefixes
    → bare ≢ []
    → trim_space bare ≡ bare
    → parse_region_prefix (prefix ++ bare) ≡ (f, bare)
unfolding parse_region_prefix strip_prefix
parse-print prefix f bare i n t =
    let P : Text × RegionFilter → Type 0 =
      λ row. parse_region_prefix (row.0 ++ bare) ≡ (row.1, bare) in
    elim i [
      | inl e ↦ subst P (sym e) (named _ bare region_cn n t)
      | inr (inl e) ↦ subst P (sym e) (named _ bare region_global n t)
      | inr (inr (inl e)) ↦ subst P (sym e) (named _ bare region_global n t)
      | inr (inr (inr (inl e))) ↦ subst P (sym e) (named _ bare region_auto n t)
      | inr (inr (inr (inr h))) ↦ absurd h
    ]
