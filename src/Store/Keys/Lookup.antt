-- ===== src/Store/Keys/Lookup.antt =====
-- store/store.go: the API keys as a table from keys to entries.
use qoder_2api_go.Prelude.{
  ℕ, ◌⊎◌, ◌≡◌, refl, sym, subst, ap, ◌∙◌, inl, inr, true, false, ◌||◌, Option, none, some, List, [],
  ◌∷◌, ◌++◌, filter, In, Bool-cases, if◌then◌else◌, arith,
}
use qoder_2api_go.Prelude.Int.{ℤ}
use qoder_2api_go.Text.{Text, text_eq, text_eq_iff, is_empty}
use qoder_2api_go.Text.Distinct.{Distinct, texts}
use qoder_2api_go.Store.Config.{ApiKey, Config}
use qoder_2api_go.Store.Accounts.{writes, added_key, done}
use qoder_2api_go.Store.Keys.{
  has_key, lookup_key, validate_key, add_entry, add_generated, add_key, generate_api_key,
  generate_id, has_key_id, without_key, delete_key,
}

lookup_key-none :
    (ks : List ApiKey) (key : Text) → has_key ks key ≡ false → lookup_key ks key ≡ none
unfolding has_key lookup_key
lookup_key-none [] key h = refl
lookup_key-none (k ∷ ks) key h = elim (Bool-cases (text_eq k.key key)) [
  | inl t ↦ absurd (cc (let h' : (true || has_key ks key) ≡ false = rw t at h in h'))
  | inr f ↦ rw f (lookup_key-none ks key (let h' : has_key ks key ≡ false = rw f at h in h'))
]

lookup_key-snoc :
    (ks : List ApiKey) (entry : ApiKey) (key : Text)
    → has_key ks entry.key ≡ false
    → lookup_key (ks ++ entry ∷ []) key
      ≡ (if text_eq entry.key key then some entry else lookup_key ks key)
unfolding has_key lookup_key
lookup_key-snoc [] entry key h = refl
lookup_key-snoc (k ∷ ks) entry key h = ground (
  arith,
  text_eq_iff k.key key,
  text_eq_iff entry.key key,
  text_eq_iff k.key entry.key,
  lookup_key-snoc ks entry key,
)

-- `ValidateKey` accepts exactly the keys that `LookupKey` finds.
pub has_key-lookup :
    (ks : List ApiKey) (key : Text)
    → has_key ks key ≡ elim (lookup_key ks key) [ none ↦ false | some k ↦ true ]
unfolding has_key lookup_key
has_key-lookup [] key = refl
has_key-lookup (k ∷ ks) key = elim (Bool-cases (text_eq k.key key)) [
  | inl t ↦ rw t refl
  | inr f ↦ rw f (has_key-lookup ks key)
]

-- The entry that a search finds has the key.
lookup_key-key :
    (ks : List ApiKey) (key : Text) (k : ApiKey)
    → lookup_key ks key ≡ some k
    → In k ks × (k.key ≡ key)
unfolding lookup_key
lookup_key-key [] key k h = absurd (cc h)
lookup_key-key (j ∷ ks) key k h = elim (Bool-cases (text_eq j.key key)) [
  | inl t ↦
      let e : j ≡ k = cc (let h' : some j ≡ some k = rw t at h in h') in
      (inl (sym e), ap (λ (x : ApiKey). x.key) (sym e) ∙ (text_eq_iff j.key key).0 t)
  | inr f ↦
      let h' : lookup_key ks key ≡ some k = rw f at h in
      let (i, e) = lookup_key-key ks key k h' in (inr i, e)
]

-- What is left of an entry that was found, after the deletion of an ID.
abbrev pub unless_deleted : Text → Option ApiKey → Option ApiKey
unless_deleted id none = none
unless_deleted id (some k) = if text_eq k.id id then none else some k

unless-missing : (id : Text) (o : Option ApiKey) → o ≡ none → unless_deleted id o ≡ none
unless-missing id none h = refl
unless-missing id (some k) h = absurd (cc h)

fresh_key-none :
    (ks : List ApiKey) (key : Text) → ¬ In key (texts (λ k. k.key) ks) → lookup_key ks key ≡ none
unfolding lookup_key
fresh_key-none [] key n = refl
fresh_key-none (k ∷ ks) key n =
    rw (let f : text_eq k.key key ≡ false = differs (Bool-cases (text_eq k.key key)) in f)
      (fresh_key-none ks key (λ i. n (inr i)))
  where
    differs : (text_eq k.key key ≡ true) ⊎ (text_eq k.key key ≡ false) → text_eq k.key key ≡ false
    differs (inl t) = absurd (n (inl (sym ((text_eq_iff k.key key).0 t))))
    differs (inr f) = f

lookup_key-without :
    (id key : Text) (ks : List ApiKey)
    → Distinct (texts (λ k. k.key) ks)
    → lookup_key (without_key id ks) key ≡ unless_deleted id (lookup_key ks key)
unfolding lookup_key without_key filter
lookup_key-without id key [] d = refl
lookup_key-without id key (k ∷ ks) (n, d) =
    let ih = lookup_key-without id key ks d in
    elim (Bool-cases (text_eq k.key key)) [
      | inl t ↦
          let gone : lookup_key ks key ≡ none =
            fresh_key-none ks key
              (subst (λ x. ¬ In x (texts (λ j. j.key) ks)) ((text_eq_iff k.key key).0 t) n) in
          elim (Bool-cases (text_eq k.id id)) [
            | inl same ↦ rw (same, t, same) (ih ∙ unless-missing id (lookup_key ks key) gone)
            | inr other ↦ rw (other, t, other) refl
          ]
      | inr f ↦ elim (Bool-cases (text_eq k.id id)) [
        | inl same ↦ rw (same, f) ih
        | inr other ↦ rw (other, f) ih
      ]
    ]

module _ {R : Type 0} where
  add_entry-lookup :
      (entry entry' : ApiKey) (c c' : Config R) (other : Text)
      → add_entry entry c ≡ writes (added_key entry') c'
      → (validate_key c entry'.key ≡ false)
        × (lookup_key c'.api_keys other
            ≡ (if text_eq entry'.key other then some entry' else lookup_key c.api_keys other))
  unfolding add_entry validate_key
  add_entry-lookup entry entry' c c' other h = elim (Bool-cases (has_key c.api_keys entry.key)) [
    | inl t ↦ absurd (cc (t, h))
    | inr f ↦
        let h' : writes (added_key entry) (record c { api_keys = c.api_keys ++ entry ∷ [] })
            ≡ writes (added_key entry') c' =
          rw f at h in
        let e : entry ≡ entry' = cc h' in
        let e' : record c { api_keys = c.api_keys ++ entry ∷ [] } ≡ c' = cc h' in
        subst
          (λ (x : ApiKey).
            (has_key c.api_keys x.key ≡ false)
            × (lookup_key c'.api_keys other
                ≡ (if text_eq x.key other then some x else lookup_key c.api_keys other)))
          e
          (
            f,
            subst
                (λ (x : Config R).
                  lookup_key x.api_keys other
                  ≡ (if text_eq entry.key other then some entry else lookup_key c.api_keys other))
                e' (lookup_key-snoc c.api_keys entry other f),
          )
  ]

  add_generated-lookup :
      (now : ℤ) (note : Text) (key id : Option Text) (entry : ApiKey) (c c' : Config R)
      (other : Text)
      → add_generated now note key id c ≡ writes (added_key entry) c'
      → (validate_key c entry.key ≡ false)
        × (lookup_key c'.api_keys other
            ≡ (if text_eq entry.key other then some entry else lookup_key c.api_keys other))
  unfolding add_generated
  add_generated-lookup now note none id entry c c' other h = absurd (cc h)
  add_generated-lookup now note (some key) none entry c c' other h = absurd (cc h)
  add_generated-lookup now note (some key) (some id) entry c c' other h =
      add_entry-lookup _ entry c c' other h

  -- Where `AddKey` adds an entry, its key was not there before, and afterwards `LookupKey` finds the
  -- entry under its key and every other key as before.
  pub add_key-lookup :
      (key_bytes id_bytes : Option (List ℕ)) (now : ℤ) (key note : Text) (c c' : Config R)
      (entry : ApiKey) (other : Text)
      → add_key key_bytes id_bytes now key note c ≡ writes (added_key entry) c'
      → (validate_key c entry.key ≡ false)
        × (lookup_key c'.api_keys other
            ≡ (if text_eq entry.key other then some entry else lookup_key c.api_keys other))
  unfolding add_key
  add_key-lookup key_bytes id_bytes now key note c c' entry other h =
      add_generated-lookup now note (if is_empty key then generate_api_key key_bytes else some key)
        (generate_id id_bytes) entry c c' other h

  -- Where no key occurs twice, and `DeleteKey` deletes, `LookupKey` finds an entry afterwards exactly
  -- if it found it before and the entry does not have the deleted ID.
  pub delete_key-lookup :
      (id : Text) (c c' : Config R) (key : Text)
      → Distinct (texts (λ k. k.key) c.api_keys)
      → delete_key id c ≡ writes done c'
      → lookup_key c'.api_keys key ≡ unless_deleted id (lookup_key c.api_keys key)
  unfolding delete_key
  delete_key-lookup id c c' key d h = elim (Bool-cases (has_key_id c.api_keys id)) [
    | inl t ↦
        let h' : writes done (record c { api_keys = without_key id c.api_keys }) ≡ writes done c' =
          rw t at h in
        let e' : record c { api_keys = without_key id c.api_keys } ≡ c' = cc h' in
        subst
          (λ (x : Config R).
            lookup_key x.api_keys key ≡ unless_deleted id (lookup_key c.api_keys key))
          e' (lookup_key-without id key c.api_keys d)
    | inr f ↦ absurd (cc (f, h))
  ]
