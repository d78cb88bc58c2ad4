-- ===== src/Authorization/Account.antt =====
-- The authorization state of an account as Horizon sends it (`LedgerAccountAuthorization` with
-- `from_horizon`, `json_string` and `json_u8` of
-- reference/rust-client/src/ledger_authorization.rs).
pub mod Laws
use fresnica.Prelude.{
  ℕ, ◌+◌, Bool, true, false, not, Option, none, some, List, [], ◌∷◌, ◌++◌, Text, String, Outcome,
  ok, err, ◌>>=◌, ◌>>◌, fail_if, ok_or, and_then, leb, if◌then◌else◌,
}
use fresnica.Text.{codes, text_eq}
use fresnica.Stellar.{Stellar, SignerKey}
use fresnica.Json.{Json}
use fresnica.Horizon.{text, array}
use fresnica.Collections.{contains, insert}
use fresnica.Authorization.{
  LedgerSignerKind, ed25519_public_key, preauthorized_transaction, hash_x, ed25519_signed_payload,
  kind_eq, LedgerSignerCondition, condition_ord, Conditions, WeightedLedgerSigner,
  LedgerAccountAuthorization,
}

unfoldable pub missing_field : Text → Text → Text
missing_field label field = label ++ codes " is missing " ++ field

-- The text that a kind of signer has in a document.
unfoldable pub signer_type_kind : Text → Outcome LedgerSignerKind
signer_type_kind signer_type =
    if text_eq signer_type (codes "ed25519_public_key")
    then ok ed25519_public_key
    else if text_eq signer_type (codes "preauth_tx")
    then ok preauthorized_transaction
    else if text_eq signer_type (codes "sha256_hash")
    then ok hash_x
    else if text_eq signer_type (codes "ed25519_signed_payload")
    then ok ed25519_signed_payload
    else err (codes "unsupported Horizon signer type: " ++ signer_type)

abbrev pub key_kind : {K P : Type 0} → SignerKey K P → LedgerSignerKind
key_kind (SignerKey.ed25519_key k) = ed25519_public_key
key_kind (SignerKey.pre_auth_tx k) = preauthorized_transaction
key_kind (SignerKey.hash_x k) = hash_x
key_kind (SignerKey.signed_payload p) = ed25519_signed_payload

unfoldable pub mismatch_message : Text → Text
mismatch_message signer_type =
    codes "Horizon signer type " ++ signer_type ++ codes " does not match signer key"

abbrev u8_of : ℕ → Option ℕ
u8_of n = if leb n 255 then some n else none

module _ (J : Json) where
  open J use {Value, get, as_u64}

  unfoldable pub json_string : Value → Text → Text → Outcome Text
  json_string value field label = ok_or (text J value field) (missing_field label field)

  unfoldable pub json_u8 : Value → Text → Text → Outcome ℕ
  json_u8 value field label =
      ok_or (and_then (and_then (get value field) as_u64) u8_of) (missing_field label field)

module _ (X : Stellar) (J : Json) where
  open X use {account_from_str, signer_from_str}
  open J use {Value, get}

  -- One round of the loop over the signers: its condition, that was not there before, and weight.
  unfoldable pub read_signer : Conditions → Value → Outcome WeightedLedgerSigner
  read_signer conditions signer = do
    key ← json_string J signer (codes "key") (codes "Horizon signer")
    signer_type ← json_string J signer (codes "type") (codes "Horizon signer")
    kind ← signer_type_kind signer_type
    parsed ← ok_or (signer_from_str key) (codes "Horizon signer has an invalid StrKey")
    fail_if (not (kind_eq (key_kind parsed) kind)) (mismatch_message signer_type)
    weight ← json_u8 J signer (codes "weight") (codes "Horizon signer")
    fail_if (contains conditions (record { kind = kind; key = key }))
        (codes "Horizon account authorization contains a duplicate signer")
    ok (record { condition = record { kind = kind; key = key }; weight = weight })

  unfoldable pub read_signers : List Value → Conditions → Outcome (List WeightedLedgerSigner)
  read_signers [] conditions = ok []
  read_signers (signer ∷ raw) conditions = do
    read ← read_signer conditions signer
    rest ← read_signers raw (insert read.condition conditions)
    ok (read ∷ rest)

  unfoldable pub account_from_horizon : Value → Outcome LedgerAccountAuthorization
  account_from_horizon account = do
    account_id ← json_string J account (codes "account_id") (codes "Horizon account authorization")
    key ←
        ok_or (account_from_str account_id)
          (codes "Horizon account authorization has an invalid account_id")
    thresholds ←
        ok_or (get account (codes "thresholds"))
          (codes "Horizon account authorization is missing thresholds")
    low_threshold ←
        json_u8 J thresholds (codes "low_threshold") (codes "Horizon account thresholds")
    medium_threshold ←
        json_u8 J thresholds (codes "med_threshold") (codes "Horizon account thresholds")
    high_threshold ←
        json_u8 J thresholds (codes "high_threshold") (codes "Horizon account thresholds")
    raw ←
        ok_or (array J account (codes "signers"))
          (codes "Horizon account authorization is missing signers")
    signers ← read_signers raw []
    ok (record {
      account_id = account_id;
      low_threshold = low_threshold;
      medium_threshold = medium_threshold;
      high_threshold = high_threshold;
      signers = signers;
    })
