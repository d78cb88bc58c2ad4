-- ===== src/AssetId/Identity.antt =====
-- The printed identity of an asset is read back as the same asset.
use fresnica.Prelude.{
  ℕ, zero, suc, ◌-◌, ◌≡◌, ◌⊎◌, inl, inr, refl, ap, true, false, [], ◌∷◌, ◌++◌, length, replicate,
  all, Text, ok, arith, Bool-cases, Option-cases,
}
use fresnica.Text.{
  codes, text_eq, is_ascii_alphanumeric, ascii_lowercase, to_ascii_lowercase, eq_ignore_ascii_case,
  split_once,
}
use fresnica.Text.Laws.{Lacks, split_once-append, text_eq_refl}
use fresnica.Stellar.{Stellar, Asset, native}
use fresnica.AssetId.{
  is_asset_code, validate_asset_code, decode_code, credit, issued, parse_issued, parse, display,
}

-- A text with a colon is not the name of the native asset, in whatever case.
text_eq-colon : (p q : Text) → text_eq (p ++ b':' ∷ q) (codes "xlm") ≡ false
unfolding text_eq codes
text_eq-colon [] q = refl
text_eq-colon (a ∷ []) q = ground arith
text_eq-colon (a ∷ b ∷ []) q = ground arith
text_eq-colon (a ∷ b ∷ c ∷ []) q = ground arith
text_eq-colon (a ∷ b ∷ c ∷ d ∷ p) q = ground arith

lowercase-colon :
    (p q : Text)
    → to_ascii_lowercase (p ++ b':' ∷ q) ≡ to_ascii_lowercase p ++ b':' ∷ to_ascii_lowercase q
unfolding to_ascii_lowercase
lowercase-colon [] q = refl
lowercase-colon (c ∷ p) q = ap (λ s. ascii_lowercase c ∷ s) (lowercase-colon p q)

xlm-lowercase : to_ascii_lowercase (codes "XLM") ≡ codes "xlm"
unfolding to_ascii_lowercase codes
xlm-lowercase = refl

pub not_native_name : (p q : Text) → eq_ignore_ascii_case (p ++ b':' ∷ q) (codes "XLM") ≡ false
unfolding eq_ignore_ascii_case
not_native_name p q =
    rw (lowercase-colon p q, xlm-lowercase)
      (text_eq-colon (to_ascii_lowercase p) (to_ascii_lowercase q))

-- A valid code has neither a zero nor a colon.
alphanumeric-Lacks :
    (code : Text) → all is_ascii_alphanumeric code ≡ true → Lacks 0 code × Lacks b':' code
unfolding is_ascii_alphanumeric
alphanumeric-Lacks [] h = (tt, tt)
alphanumeric-Lacks (c ∷ code) h =
    let rest = alphanumeric-Lacks code (ground arith) in
    ((ground arith, rest.0), (ground arith, rest.1))

decode_code-zeros : (k : ℕ) → decode_code (replicate k 0) ≡ []
unfolding decode_code
decode_code-zeros zero = refl
decode_code-zeros (suc k) = refl

decode_code-raw : (k : ℕ) (code : Text) → Lacks 0 code → decode_code (code ++ replicate k 0) ≡ code
unfolding decode_code
decode_code-raw k [] h = decode_code-zeros k
decode_code-raw k (c ∷ code) (hc, hs) = ground (arith, decode_code-raw k code hs)

code-Lacks : (code : Text) → is_asset_code code ≡ true → Lacks 0 code × Lacks b':' code
unfolding is_asset_code
code-Lacks code h = alphanumeric-Lacks code (ground arith)

module _ (X : Stellar) where
  open X use {Key, account_from_str, account_text, account_round}

  -- The assets that the parsers build.
  abbrev pub IsParsed : Asset Key → Type 0
  IsParsed a =
      (a ≡ native)
      ⊎ ((code : Text) × (key : Key) × (is_asset_code code ≡ true) × (a ≡ credit code key))

  display-credit :
      (code : Text) (key : Key)
      → is_asset_code code ≡ true
      → display X (credit code key) ≡ code ++ b':' ∷ account_text key
  unfolding display
  display-credit code key h =
      let lacks = (code-Lacks code h).0 in
      ground (
        arith,
        decode_code-raw (4 - length code) code lacks,
        decode_code-raw (12 - length code) code lacks,
      )

  issued-IsParsed : (code issuer : Text) {a : Asset Key} → issued X code issuer ≡ ok a → IsParsed a
  unfolding issued validate_asset_code
  issued-IsParsed code issuer {a} h = elim (Option-cases (account_from_str issuer)) [
    | inl e ↦ absurd (ground arith)
    | inr (key, e) ↦ inr (code, key, ground arith, ground arith)
  ]

  parse-IsParsed : (t : Text) {a : Asset Key} → parse X t ≡ ok a → IsParsed a
  unfolding parse parse_issued
  parse-IsParsed t {a} h = elim (Bool-cases (eq_ignore_ascii_case t (codes "XLM"))) [
    | inl name ↦ inl (ground arith)
    | inr other ↦ elim (Option-cases (split_once b':' t)) [
      | inl e ↦ absurd (ground arith)
      | inr ((code, issuer), e) ↦ issued-IsParsed code issuer (ground arith)
    ]
  ]

  issued-credit :
      (code : Text) (key : Key)
      → is_asset_code code ≡ true
      → issued X code (account_text key) ≡ ok (credit code key)
  unfolding issued validate_asset_code
  issued-credit code key h = rw (h, account_round key)

  parse-display_native : parse X (display X native) ≡ ok native
  unfolding parse display eq_ignore_ascii_case
  parse-display_native = rw (text_eq_refl (to_ascii_lowercase (codes "XLM")))

  parse-display-credit :
      (code : Text) (key : Key)
      → is_asset_code code ≡ true
      → parse X (display X (credit code key)) ≡ ok (credit code key)
  unfolding parse parse_issued
  parse-display-credit code key h =
      rw
        (
          display-credit code key h,
          not_native_name code (account_text key),
          parse_issued,
          split_once-append b':' code (account_text key) (code-Lacks code h).1,
        )
        (issued-credit code key h)

  -- Whatever text an asset was read from, its printed identity is read as the same asset.
  pub parse-display : (t : Text) {a : Asset Key} → parse X t ≡ ok a → parse X (display X a) ≡ ok a
  parse-display t h = elim (parse-IsParsed t h) [
    | inl e ↦ rw e parse-display_native
    | inr (code, key, valid, e) ↦ rw e (parse-display-credit code key valid)
  ]
