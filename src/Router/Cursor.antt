-- ===== src/Router/Cursor.antt =====
-- routing.go: the ID cursor resumes after the last account, in the order of the IDs.
use qoder_2api_go.Prelude.{◌≡◌, ◌⊎◌, true, false, List, [], ◌∷◌, In, All}
use qoder_2api_go.Text.{Text, text_lt}
use qoder_2api_go.Store.Account.{Account}
use qoder_2api_go.Router.State.{Router}

module _ {R : Type 0} where
  -- `s ≤ t` for IDs.
  abbrev pub Before : Account R → Account R → Type 0
  Before a b = text_lt b.id a.id ≡ false

  -- Sorted by ID.
  abbrev IsSorted : List (Account R) → Type 0
  IsSorted [] = Unit {0}
  IsSorted (x ∷ xs) = All (Before x) xs × IsSorted xs

  -- `c` is the next of the accounts after the cursor: the least of those above it, or the least of
  -- all where the cursor is not set or none is above.
  abbrev pub IsNext : Text → List (Account R) → Account R → Type 0
  IsNext last accounts c =
      ((text_lt last c.id ≡ true)
        × ((a : Account R) → In a accounts → text_lt last a.id ≡ true → Before c a))
      ⊎ (((last ≡ []) ⊎ ((a : Account R) → In a accounts → text_lt last a.id ≡ false))
          × ((a : Account R) → In a accounts → Before c a))
