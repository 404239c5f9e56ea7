-- ===== src/Logs/Fold/Correct.antt =====
-- logs/logs.go: the substring test against a description of it.
use qoder_2api_go.Prelude.{
  suc, ◌≤◌, ◌≡◌, refl, sym, ap, ◌∙◌, ◌↔◌, ◌≢◌, Bool, true, false, [], ◌∷◌, ◌++◌, map, length, take,
  drop, take-append-drop, length-append, ltb, ◌==◌, ==_refl, ==_iff, if◌then◌else◌, Bool-cases, inl,
  inr, arith,
}
use qoder_2api_go.Text.{Text}
use qoder_2api_go.Logs.Fold.{fold_byte, equal_bytes, equal_fold, scan_fold, contains_fold}

-- The texts agree up to the case of ASCII letters.
abbrev pub SameFold : Text → Text → Type 0
SameFold s t = map fold_byte s ≡ map fold_byte t

length-SameFold : (s t : Text) → SameFold s t → length s ≡ length t
length-SameFold [] [] h = refl
length-SameFold [] (b ∷ t) h = cc
length-SameFold (a ∷ s) [] h = cc
length-SameFold (a ∷ s) (b ∷ t) h = ap suc (length-SameFold s t (cc))

equal_bytes_sound : (s t : Text) → length s ≡ length t → equal_bytes s t ≡ true → SameFold s t
unfolding equal_bytes
equal_bytes_sound [] [] e h = refl
equal_bytes_sound [] (b ∷ t) e h = absurd (omega arith)
equal_bytes_sound (a ∷ s) [] e h = absurd (omega arith)
equal_bytes_sound (a ∷ s) (b ∷ t) e h =
    let rest = equal_bytes_sound s t (omega arith) in
    elim (Bool-cases (fold_byte a == fold_byte b)) [
      | inl same ↦ cc ((==_iff (fold_byte a) (fold_byte b)).0 same, rest (rw same at h))
      | inr other ↦ absurd (cc (let h' : false ≡ true = rw other at h in h'))
    ]

equal_bytes_complete : (s t : Text) → SameFold s t → equal_bytes s t ≡ true
unfolding equal_bytes
equal_bytes_complete [] t h = refl
equal_bytes_complete (a ∷ s) [] h = refl
equal_bytes_complete (a ∷ s) (b ∷ t) h =
    let e : fold_byte a ≡ fold_byte b = cc in
    rw (e, ==_refl (fold_byte b)) (equal_bytes_complete s t (cc))

pub equal_fold_iff : (s t : Text) → (equal_fold s t ≡ true) ↔ SameFold s t
unfolding equal_fold
equal_fold_iff s t = (
  λ h. equal_bytes_sound s t (ground arith) (ground arith),
  λ h. let e = length-SameFold s t h in rw (e, ==_refl (length t)) (equal_bytes_complete s t h),
)

-- Some part of the text agrees with `sub` up to case.
abbrev pub Occurs : Text → Text → Type 0
Occurs s sub =
    (pre : Text) × (part : Text) × (post : Text) × (s ≡ pre ++ (part ++ post)) × SameFold part sub

scan_fold_sound : (s sub : Text) → scan_fold s sub ≡ true → Occurs s sub
unfolding scan_fold
scan_fold_sound [] sub h = cc
scan_fold_sound (c ∷ s) sub h = elim (Bool-cases (equal_fold (take (length sub) (c ∷ s)) sub)) [
  | inl here ↦ (
    [],
    take (length sub) (c ∷ s),
    drop (length sub) (c ∷ s),
    sym (take-append-drop (length sub) (c ∷ s)),
    (equal_fold_iff _ sub).0 here,
  )
  | inr later ↦
      let (pre, part, post, e, same) = scan_fold_sound s sub (ground arith) in
      (c ∷ pre, part, post, ap (λ r. c ∷ r) e, same)
]

take-append : (xs ys : Text) → take (length xs) (xs ++ ys) ≡ xs
take-append [] ys = refl
take-append (x ∷ xs) ys = ap (λ r. x ∷ r) (take-append xs ys)

Occurs-length : (s sub : Text) → Occurs s sub → length sub ≤ length s
Occurs-length s sub (pre, part, post, e, same) = omega (
  arith,
  ap length e,
  length-append pre (part ++ post),
  length-append part post,
  length-SameFold part sub same,
)

if_same : (b : Bool) → (if b then true else true) ≡ true
if_same true = refl
if_same false = refl

scan_fold_complete : (s sub : Text) → sub ≢ [] → Occurs s sub → scan_fold s sub ≡ true
unfolding scan_fold
scan_fold_complete [] [] n o = absurd (n refl)
scan_fold_complete [] (b ∷ sub) n o = absurd (omega (arith, Occurs-length [] (b ∷ sub) o))
scan_fold_complete (c ∷ s) sub n ([], part, post, e, same) =
    let le = Occurs-length (c ∷ s) sub ([], part, post, e, same) in
    let fits : ltb (length (c ∷ s)) (length sub) ≡ false = ground arith in
    let first : take (length sub) (c ∷ s) ≡ part =
      ap (take (length sub)) e
      ∙ ap (λ k. take k (part ++ post)) (sym (length-SameFold part sub same))
      ∙ take-append part post in
    rw (fits, (equal_fold_iff (take (length sub) (c ∷ s)) sub).1 (ap (map fold_byte) first ∙ same))
      refl
scan_fold_complete (c ∷ s) sub n (p ∷ pre, part, post, e, same) =
    let le = Occurs-length (c ∷ s) sub (p ∷ pre, part, post, e, same) in
    let fits : ltb (length (c ∷ s)) (length sub) ≡ false = ground arith in
    let later = scan_fold_complete s sub n (pre, part, post, cc, same) in
    rw (fits, later) (if_same (equal_fold (take (length sub) (c ∷ s)) sub))

-- `containsFold` tells whether `sub` occurs in `s`, up to the case of ASCII letters.
pub contains_fold_iff : (s sub : Text) → (contains_fold s sub ≡ true) ↔ Occurs s sub
unfolding contains_fold
contains_fold_iff s [] = (λ _. ([], [], s, refl, refl), λ _. refl)
contains_fold_iff s (b ∷ sub) = (
  λ h. scan_fold_sound s (b ∷ sub) (ground arith),
  λ o.
      let le = Occurs-length s (b ∷ sub) o in
      let fits : ltb (length s) (length (b ∷ sub)) ≡ false = ground arith in
      rw fits (scan_fold_complete s (b ∷ sub) (λ e. cc) o),
)
