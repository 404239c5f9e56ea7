-- ===== src/Logs/Fold.antt =====
-- logs/logs.go: the ASCII case-insensitive substring test. Texts are bytes here.
pub mod Correct
use qoder_2api_go.Prelude.{
  ℕ, ◌+◌, ◌-◌, Bool, true, false, ◌&&◌, [], ◌∷◌, length, take, ltb, leb, ◌==◌, if◌then◌else◌,
}
use qoder_2api_go.Text.{Text, is_empty}

-- The lower-case form of a byte.
unfoldable pub fold_byte : ℕ → ℕ
fold_byte c = if leb b'A' c && leb c b'Z' then c + (b'a' - b'A') else c

-- The loop of `equalFold`, over texts of one length.
unfoldable pub equal_bytes : Text → Text → Bool
unfolding fold_byte
equal_bytes [] t = true
equal_bytes (a ∷ s) [] = true
equal_bytes (a ∷ s) (b ∷ t) =
    let rest = equal_bytes s t in if fold_byte a == fold_byte b then rest else false

-- `equalFold`
unfoldable pub equal_fold : Text → Text → Bool
unfolding equal_bytes
equal_fold a b = if length a == length b then equal_bytes a b else false

-- The loop of `containsFold`, from the index where the rest of the text is the first argument.
unfoldable pub scan_fold : Text → Text → Bool
unfolding equal_fold
scan_fold [] sub = false
scan_fold (c ∷ s) sub =
    let rest = scan_fold s sub in
    if ltb (length (c ∷ s)) (length sub)
    then false
    else if equal_fold (take (length sub) (c ∷ s)) sub
    then true
    else rest

-- `containsFold`
unfoldable pub contains_fold : Text → Text → Bool
unfolding scan_fold
contains_fold s sub =
    if is_empty sub then true else if ltb (length s) (length sub) then false else scan_fold s sub
