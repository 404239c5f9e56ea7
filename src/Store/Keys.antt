-- ===== src/Store/Keys.antt =====
-- store/store.go: the API keys and the generators. Random bytes are an argument, with none where the
-- system has no randomness.
pub mod Lookup
use qoder_2api_go.Prelude.{
  ℕ, ◌+◌, ◌/◌, ◌%◌, Bool, true, false, not, ◌||◌, ◌==◌, Option, none, some, List, [], ◌∷◌, ◌++◌,
  filter, ltb, if◌then◌else◌,
}
use qoder_2api_go.Prelude.Int.{ℤ}
use qoder_2api_go.Text.{Text, codes, text_eq, is_empty}
use qoder_2api_go.Store.Config.{ApiKey, Config, StoreError, duplicate_key, no_key, no_random}
use qoder_2api_go.Store.Accounts.{Outcome, rejects, writes, done, added_key}

-- `hex.EncodeToString`
unfoldable pub hex_digit : ℕ → ℕ
hex_digit n = if ltb n 10 then 0x30 + n else 0x57 + n

unfoldable pub hex_encode : List ℕ → Text
unfolding hex_digit
hex_encode [] = []
hex_encode (b ∷ bs) = hex_digit (b / 16) ∷ hex_digit (b % 16) ∷ hex_encode bs

-- `GenerateID`
unfoldable pub generate_id : Option (List ℕ) → Option Text
unfolding hex_encode
generate_id none = none
generate_id (some bytes) = some (hex_encode bytes)

-- `GenerateAPIKey`
unfoldable pub generate_api_key : Option (List ℕ) → Option Text
unfolding hex_encode
generate_api_key none = none
generate_api_key (some bytes) = some (codes "sk-" ++ hex_encode bytes)

unfoldable pub has_key : List ApiKey → Text → Bool
unfolding text_eq
has_key [] key = false
has_key (k ∷ keys) key = text_eq k.key key || has_key keys key

-- `LookupKey`
unfoldable pub lookup_key : List ApiKey → Text → Option ApiKey
unfolding text_eq
lookup_key [] key = none
lookup_key (k ∷ keys) key =
    let rest = lookup_key keys key in if text_eq k.key key then some k else rest

-- `found` and `filtered` of `DeleteKey`
unfoldable pub has_key_id : List ApiKey → Text → Bool
unfolding text_eq
has_key_id [] id = false
has_key_id (k ∷ keys) id = text_eq k.id id || has_key_id keys id

unfoldable pub without_key : Text → List ApiKey → List ApiKey
unfolding filter text_eq
without_key id = filter (λ k. not (text_eq k.id id))

module _ {R : Type 0} where
  -- `ValidateKey`
  unfoldable pub validate_key : Config R → Text → Bool
  unfolding has_key
  validate_key c key = has_key c.api_keys key

  -- The locked section of `AddKey`.
  unfoldable pub add_entry : ApiKey → Config R → Outcome R
  unfolding has_key
  add_entry entry c =
      if has_key c.api_keys entry.key
      then rejects duplicate_key
      else writes (added_key entry) (record c { api_keys = c.api_keys ++ entry ∷ [] })

  unfoldable pub add_generated : ℤ → Text → Option Text → Option Text → Config R → Outcome R
  unfolding add_entry
  add_generated now note none id c = rejects no_random
  add_generated now note (some key) none c = rejects no_random
  add_generated now note (some key) (some id) c =
      add_entry (record { id = id; key = key; note = note; created_at = now }) c

  -- `AddKey`
  unfoldable pub add_key :
      Option (List ℕ) → Option (List ℕ) → ℤ → Text → Text → Config R → Outcome R
  unfolding add_generated generate_api_key generate_id
  add_key key_bytes id_bytes now key note c =
      add_generated now note (if is_empty key then generate_api_key key_bytes else some key)
        (generate_id id_bytes) c

  -- `DeleteKey`
  unfoldable pub delete_key : Text → Config R → Outcome R
  unfolding has_key_id without_key
  delete_key id c =
      if has_key_id c.api_keys id
      then writes done (record c { api_keys = without_key id c.api_keys })
      else rejects (no_key id)
