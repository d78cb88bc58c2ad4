-- ===== src/AssetId.antt =====
-- Asset identities (reference/rust-client/src/asset.rs): a native asset, or a code with its issuer.
-- The code stands in four or twelve bytes padded by zeros; it is ASCII, so a byte is a code point.
pub mod Identity
use fresnica.Prelude.{
  ℕ, zero, suc, ◌+◌, ◌-◌, Bool, true, false, not, ◌&&◌, ◌||◌, Option, none, some, [], ◌∷◌, ◌++◌,
  length, replicate, all, Text, String, Outcome, ok, err, ◌>>=◌, ◌>>◌, fail_if, ok_or, ltb, leb,
  ◌==◌, if◌then◌else◌,
}
use fresnica.Text.{
  codes, text_eq, is_empty, byte_length, is_ascii_alphanumeric, eq_ignore_ascii_case, split_once,
}
use fresnica.Stellar.{Stellar, Asset, native, credit_alphanum4, credit_alphanum12}
use fresnica.Json.{Json}
use fresnica.Horizon.{text}

abbrev pub code_message : Text
code_message = codes "issued asset code must be 1-12 ASCII letters or digits"

unfoldable pub is_asset_code : Text → Bool
is_asset_code code =
    not (is_empty code)
    && leb (byte_length code) 12
    && all (λ c. ltb c 0x80) code
    && all is_ascii_alphanumeric code

unfoldable pub validate_asset_code : Text → Outcome (Unit {0})
validate_asset_code code = fail_if (not (is_asset_code code)) code_message

-- `let mut raw = [0u8; width]; raw[..code.len()].copy_from_slice(code)`
abbrev pub raw_code : ℕ → Text → Text
raw_code width code = code ++ replicate (width - length code) 0

-- The bytes before the first zero.
unfoldable pub decode_code : Text → Text
decode_code [] = []
decode_code (c ∷ raw) = let rest = decode_code raw in if c == 0 then [] else c ∷ rest

-- `Option<String> == Option<&str>`
abbrev pub text_is : Option Text → Option Text → Bool
text_is none none = true
text_is none (some t) = false
text_is (some s) none = false
text_is (some s) (some t) = text_eq s t

-- Codes of up to four characters and longer ones have different variants.
abbrev pub credit : {K : Type 0} → Text → K → Asset K
credit code key =
    if leb (byte_length code) 4
    then credit_alphanum4 (raw_code 4 code) key
    else credit_alphanum12 (raw_code 12 code) key

abbrev pub is_native : {K : Type 0} → Asset K → Bool
is_native native = true
is_native (credit_alphanum4 raw issuer) = false
is_native (credit_alphanum12 raw issuer) = false

module _ (X : Stellar) where
  open X use {Key, account_from_str, account_text}

  abbrev pub AssetId : Type 0
  AssetId = Asset Key

  unfoldable pub issued : Text → Text → Outcome (Asset Key)
  issued code issuer = do
    validate_asset_code code
    key ← ok_or (account_from_str issuer) (codes "asset issuer must be a Classic G address")
    ok (credit code key)

  unfoldable pub parse_issued : Text → Outcome (Asset Key)
  parse_issued value = elim (split_once b':' value) [
    | none ↦ err (codes "asset must be CODE:GISSUER")
    | some (code, issuer) ↦ issued code issuer
  ]

  unfoldable pub parse : Text → Outcome (Asset Key)
  parse value = if eq_ignore_ascii_case value (codes "XLM") then ok native else parse_issued value

  unfoldable pub display : Asset Key → Text
  display native = codes "XLM"
  display (credit_alphanum4 raw issuer) = decode_code raw ++ b':' ∷ account_text issuer
  display (credit_alphanum12 raw issuer) = decode_code raw ++ b':' ∷ account_text issuer

  unfoldable pub asset_code : Asset Key → Option Text
  asset_code native = none
  asset_code (credit_alphanum4 raw issuer) = some (decode_code raw)
  asset_code (credit_alphanum12 raw issuer) = some (decode_code raw)

  unfoldable pub asset_issuer : Asset Key → Option Text
  asset_issuer native = none
  asset_issuer (credit_alphanum4 raw issuer) = some (account_text issuer)
  asset_issuer (credit_alphanum12 raw issuer) = some (account_text issuer)

  unfoldable pub issuer_is : Asset Key → Text → Bool
  issuer_is asset value = text_is (asset_issuer asset) (some value)

  unfoldable pub horizon_type : Asset Key → Text
  horizon_type native = codes "native"
  horizon_type (credit_alphanum4 raw issuer) = codes "credit_alphanum4"
  horizon_type (credit_alphanum12 raw issuer) = codes "credit_alphanum12"

  -- `ChangeTrustAsset` has the same variants for issued assets.
  unfoldable pub to_change_trust_xdr : Asset Key → Outcome (Asset Key)
  to_change_trust_xdr native = err (codes "XLM does not use a trustline")
  to_change_trust_xdr (credit_alphanum4 raw issuer) = ok (credit_alphanum4 raw issuer)
  to_change_trust_xdr (credit_alphanum12 raw issuer) = ok (credit_alphanum12 raw issuer)

module _ (X : Stellar) (J : Json) where
  open X use {Key}
  open J use {Value}

  unfoldable pub matches_balance : Asset Key → Value → Bool
  matches_balance native balance =
      text_is (text J balance (codes "asset_type")) (some (codes "native"))
  matches_balance (credit_alphanum4 raw issuer) balance =
      text_is (text J balance (codes "asset_code")) (asset_code X (credit_alphanum4 raw issuer))
      && text_is (text J balance (codes "asset_issuer"))
          (asset_issuer X (credit_alphanum4 raw issuer))
  matches_balance (credit_alphanum12 raw issuer) balance =
      text_is (text J balance (codes "asset_code")) (asset_code X (credit_alphanum12 raw issuer))
      && text_is (text J balance (codes "asset_issuer"))
          (asset_issuer X (credit_alphanum12 raw issuer))

  abbrev issued_from_horizon : Text → Value → Outcome (Asset Key)
  issued_from_horizon asset_type value = do
    code ← ok_or (text J value (codes "asset_code")) (codes "Horizon returned malformed asset code")
    issuer ←
        ok_or (text J value (codes "asset_issuer"))
          (codes "Horizon returned malformed asset issuer")
    asset ← issued X code issuer
    if text_eq (horizon_type X asset) asset_type
        then ok asset
        else err (codes "Horizon returned inconsistent asset type and code")

  unfoldable pub from_horizon : Value → Outcome (Asset Key)
  from_horizon value = elim (text J value (codes "asset_type")) [
    | none ↦ err (codes "Horizon returned unsupported asset type")
    | some asset_type ↦
        if text_eq asset_type (codes "native")
        then ok native
        else if text_eq asset_type (codes "credit_alphanum4")
            || text_eq asset_type (codes "credit_alphanum12")
        then issued_from_horizon asset_type value
        else err (codes "Horizon returned unsupported asset type")
  ]
