-- ===== src/Store/Interleaving/Pool.antt =====
-- store/store.go: what holds of the pool and the keys at every moment.
use qoder_2api_go.Prelude.{
  ◌≡◌, ◌≢◌, ◌⊎◌, refl, sym, subst, ap, ◌∙◌, inl, inr, false, Option, List, [], ◌∷◌, ◌++◌, map, In,
  In-append_left, In-map, In-map_of, arith,
}
use qoder_2api_go.Float.{FloatOps}
use qoder_2api_go.Text.{Text, text_eq_iff}
use qoder_2api_go.Text.Distinct.{Distinct, texts, Distinct-filter, Distinct-texts_snoc}
use qoder_2api_go.Store.Account.{Account}
use qoder_2api_go.Store.Config.{ApiKey, Config, new_config}
use qoder_2api_go.Store.Accounts.{without_account}
use qoder_2api_go.Store.Keys.{has_key, without_key}
use qoder_2api_go.Store.Calls.{Call, Parsers, Store, set_pat}
use qoder_2api_go.Store.Load.{Decoded}
use qoder_2api_go.Store.Pool.{
  IsPooled, IsMirrored, ids, pats, id_pat, same-IsPooled, active-IsPooled, snoc-IsPooled,
  without_account-IsPooled, without_account-In,
}
use qoder_2api_go.Store.Pool.Closed.{Property, Holds, IsClosed}
use qoder_2api_go.Store.Interleaving.{IsCodec, HoldsBoth, Reach}
use qoder_2api_go.Store.Interleaving.Invariant.{Reach-HoldsBoth}

abbrev pub keys : List ApiKey → List Text
keys = texts (λ k. k.key)

-- The pool is well formed, and no key occurs twice.
abbrev pub IsSound : {R : Type 0} → Property R
IsSound xs active pat ks = IsPooled xs active × Distinct (keys ks)

-- The token that the bridge reads is that of the active account.
abbrev pub HasMirror : {R : Type 0} → Property R
HasMirror xs active pat ks = IsMirrored xs active pat

has_key-In : (ks : List ApiKey) (key : Text) → has_key ks key ≡ false → ¬ In key (keys ks)
unfolding has_key
has_key-In [] key h i = i
has_key-In (k ∷ ks) key h (inl e) = cc (h, (text_eq_iff k.key key).1 (sym e))
has_key-In (k ∷ ks) key h (inr i) = has_key-In ks key (ground arith) i

module _ {R : Type 0} where
  map-ids : (xs : List (Account R)) → ids xs ≡ map (λ (p : Text × Text). p.0) (map id_pat xs)
  map-ids [] = refl
  map-ids (x ∷ xs) = ap (λ r. x.id ∷ r) (map-ids xs)

  map-pats : (xs : List (Account R)) → pats xs ≡ map (λ (p : Text × Text). p.1) (map id_pat xs)
  map-pats [] = refl
  map-pats (x ∷ xs) = ap (λ r. x.pat ∷ r) (map-pats xs)

  IsSound-IsClosed : IsClosed {R = R} IsSound
  unfolding without_key
  IsSound-IsClosed = record {
    updates = λ {xs} {active} {pat} {ks} ys e h. (
      same-IsPooled xs ys active
          (map-ids ys ∙ (ap (map (λ (p : Text × Text). p.0)) e ∙ sym (map-ids xs)))
          (map-pats ys ∙ (ap (map (λ (p : Text × Text). p.1)) e ∙ sym (map-pats xs))) h.0,
      h.1,
    );
    clears = λ {xs} {active} {pat} {ks} h. (active-IsPooled xs active [] (inl refl) h.0, h.1);
    activates = λ {xs} {active} {pat} {ks} acc i h.
        (active-IsPooled xs active acc.id (inr (In-map _ xs acc i)) h.0, h.1);
    appends = λ {xs} {active} {pat} {ks} entry n m fresh f h.
        (snoc-IsPooled xs active entry n m fresh f h.0, h.1);
    removes_other = λ {xs} {active} {pat} {ks} id n h.
        (without_account-IsPooled id active xs (stays id active xs n h.0) h.0, h.1);
    removes_active = λ {xs} {active} {pat} {ks} id h. (
      without_account-IsPooled id [] xs (inl refl) (active-IsPooled xs active [] (inl refl) h.0),
      h.1,
    );
    adds_key = λ {xs} {active} {pat} {ks} entry f h.
        (h.0, Distinct-texts_snoc _ ks entry h.1 (has_key-In ks entry.key f));
    removes_key = λ {xs} {active} {pat} {ks} id h. (h.0, Distinct-filter _ _ ks h.1);
  }
    where
      stays :
          (id active : Text) (xs : List (Account R))
          → active ≢ id
          → IsPooled xs active
          → (active ≡ []) ⊎ In active (ids (without_account id xs))
      stays id active xs n p = elim p.active_pooled [
        | inl e ↦ inl e
        | inr i ↦
            let (acc, (j, e)) = In-map_of (λ (a : Account R). a.id) xs active i in
            inr (
              subst (λ t. In t (ids (without_account id xs))) e
                (In-map _ _ acc (without_account-In id xs acc j (λ d. n (sym e ∙ d)))))
      ]

  HasMirror-IsClosed : IsClosed {R = R} HasMirror
  HasMirror-IsClosed = record {
    updates = λ {xs} {active} {pat} {ks} ys e h. elim h [
      | inl z ↦ inl z
      | inr i ↦ inr (subst (λ ps. In (active, pat) ps) (sym e) i)
    ];
    clears = λ h. inl refl;
    activates = λ {xs} {active} {pat} {ks} acc i h. inr (In-map id_pat xs acc i);
    appends = λ {xs} {active} {pat} {ks} entry n m fresh f h. elim h [
      | inl z ↦ inl z
      | inr i ↦ inr (appended xs entry (active, pat) i)
    ];
    removes_other = λ {xs} {active} {pat} {ks} id n h. elim h [
      | inl z ↦ inl z
      | inr i ↦ inr (remains id xs active pat n i)
    ];
    removes_active = λ id h. inl refl;
    adds_key = λ entry f h. h;
    removes_key = λ id h. h;
  }
    where
      appended :
          (xs : List (Account R)) (entry : Account R) (p : Text × Text)
          → In p (map id_pat xs)
          → In p (map id_pat (xs ++ entry ∷ []))
      appended xs entry p i =
          let (acc, (j, e)) = In-map_of id_pat xs p i in
          subst (λ q. In q (map id_pat (xs ++ entry ∷ []))) e
            (In-map id_pat _ acc (In-append_left acc xs (entry ∷ []) j))

      remains :
          (id : Text) (xs : List (Account R)) (active pat : Text)
          → active ≢ id
          → In (active, pat) (map id_pat xs)
          → In (active, pat) (map id_pat (without_account id xs))
      remains id xs active pat n i =
          let (acc, (j, e)) = In-map_of id_pat xs (active, pat) i in
          subst (λ q. In q (map id_pat (without_account id xs))) e
            (In-map id_pat _ acc
              (without_account-In id xs acc j (λ d. n (sym (ap (λ q. q.0) e) ∙ d))))

module _ {R Bytes : Type 0} {encode : Config R → Option Bytes} {decode : Bytes → Option (Decoded R)}
    (codec : IsCodec encode decode) (fl : FloatOps R) (ps : Parsers)
    (Allows : Call R → Type 0) where
  -- From a fresh installation, whatever methods run in any interleaving, with saves that fail,
  -- crashes and restarts: in memory and in the file, the accounts have distinct IDs and tokens, none
  -- of them empty, no key occurs twice, and the active ID is empty or that of an account in the
  -- pool. Generated IDs are taken to be new, and JSON to read back what it wrote.
  pub Reach-IsSound :
      {s : Store R Bytes} → Reach fl ps encode decode Allows s → HoldsBoth decode IsSound s
  Reach-IsSound reach =
      Reach-HoldsBoth codec IsSound-IsClosed fl ps Allows (λ pat a c h. h) empty_pool reach
    where
      empty_pool : Holds IsSound (new_config fl)
      empty_pool =
          unfold new_config in
          (
            record {
              filled_ids = tt;
              filled_pats = tt;
              distinct_ids = tt;
              distinct_pats = tt;
              active_pooled = inl refl;
            },
            tt,
          )

  -- From a fresh installation, whatever methods but `SetPAT` run in any interleaving, with saves that
  -- fail, crashes and restarts: if an account is active, its token is the token that the bridge
  -- reads, in memory and in the file. Generated IDs are taken to be new, and JSON to read back what
  -- it wrote.
  pub Reach-HasMirror :
      {s : Store R Bytes}
      → ((pat : Text) → ¬ Allows (set_pat pat))
      → Reach fl ps encode decode Allows s
      → HoldsBoth decode HasMirror s
  Reach-HasMirror never reach =
      Reach-HoldsBoth codec HasMirror-IsClosed fl ps Allows (λ pat a c h. absurd (never pat a))
        (unfold new_config in inl refl) reach
