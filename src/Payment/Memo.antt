-- ===== src/Payment/Memo.antt =====
-- The memo of a payment and its destination: `PaymentMemo`, `PaymentDestination`, `payment_body`,
-- `validate_destination_memo` and `account_requires_memo`.
pub mod Laws
use fresnica.Prelude.{
  ℕ, ◌+◌, Bool, true, false, not, ◌&&◌, Option, none, some, List, [], ◌∷◌, ◌++◌, length, Text,
  String, Outcome, ok, err, ◌>>=◌, ◌>>◌, fail_if, ok_or, and_then, ◌==◌, if◌then◌else◌,
}
use fresnica.Text.{codes, text_eq, is_empty}
use fresnica.Int.{ℤ, u64_max}
use fresnica.Decimal.{digits, parse_unsigned}
use fresnica.Stellar.{Stellar, MuxedAccount, Asset, Memo, id_memo, hash_memo, OperationBody}
use fresnica.Json.{Json}
use fresnica.Transaction.Envelope.{memo_text}

-- A hash is 32 bytes.
pub data PaymentMemo : Type 0 where
  no_memo : PaymentMemo
  text : Text → PaymentMemo
  id : ℕ → PaymentMemo
  hash : List ℕ → PaymentMemo

unfoldable pub from_text : Option Text → PaymentMemo
from_text none = PaymentMemo.no_memo
from_text (some value) = if is_empty value then PaymentMemo.no_memo else PaymentMemo.text value

unfoldable pub unsupported_memo : Text → Text
unsupported_memo memo_type =
    codes "unsupported anchor withdrawal memo type: "
    ++ memo_type
    ++ codes "; expected text, id, or hash"

abbrev unpaired_memo : Text
unpaired_memo = codes "anchor withdrawal memo_type and memo must be supplied together"

-- Base64 is a parameter: decoding may fail.
module _ (decode_base64 : Text → Option (List ℕ)) where
  unfoldable pub hash_from_base64 : Text → Outcome PaymentMemo
  hash_from_base64 value = do
    decoded ← ok_or (decode_base64 value) (codes "anchor withdrawal hash memo must be valid base64")
    if length decoded == 32
        then ok (PaymentMemo.hash decoded)
        else err (codes "anchor withdrawal hash memo must decode to exactly 32 bytes")

  unfoldable pub from_anchor_fields : Option Text → Option Text → Outcome PaymentMemo
  from_anchor_fields none none = ok PaymentMemo.no_memo
  from_anchor_fields none (some value) = err unpaired_memo
  from_anchor_fields (some memo_type) none = err unpaired_memo
  from_anchor_fields (some memo_type) (some value) =
      if text_eq memo_type (codes "text")
      then ok (PaymentMemo.text value)
      else if text_eq memo_type (codes "id")
      then (do
        number ←
            ok_or (parse_unsigned u64_max value)
              (codes "anchor withdrawal id memo must be an unsigned 64-bit integer")
        ok (PaymentMemo.id number))
      else if text_eq memo_type (codes "hash")
      then hash_from_base64 value
      else err (unsupported_memo memo_type)

unfoldable pub memo_xdr : {K : Type 0} → PaymentMemo → Outcome (Memo K)
memo_xdr PaymentMemo.no_memo = ok Memo.no_memo
memo_xdr (PaymentMemo.text value) = memo_text value
memo_xdr (PaymentMemo.id value) = ok (id_memo value)
memo_xdr (PaymentMemo.hash value) = ok (hash_memo value)

pub record PaymentMemoReview : Type 0 where
  pub memo_type : Text
  pub value : Text

unfoldable pub memo_review : (List ℕ → Text) → PaymentMemo → Option PaymentMemoReview
memo_review encode_base64 PaymentMemo.no_memo = none
memo_review encode_base64 (PaymentMemo.text value) =
    some (record { memo_type = codes "text"; value = value })
memo_review encode_base64 (PaymentMemo.id value) =
    some (record { memo_type = codes "id"; value = digits value })
memo_review encode_base64 (PaymentMemo.hash value) =
    some (record { memo_type = codes "hash"; value = encode_base64 value })

pub record PaymentDestination (K : Type 0) : Type 0 where
  pub ledger_account : K
  pub operation_destination : MuxedAccount K
  pub muxed_id : Option ℕ

abbrev pub is_muxed : {K : Type 0} → PaymentDestination K → Bool
is_muxed d = elim d.muxed_id [ none ↦ false | some n ↦ true ]

abbrev split_destination : {K : Type 0} → MuxedAccount K → PaymentDestination K
split_destination (MuxedAccount.ed25519 key) = record {
  ledger_account = key;
  operation_destination = MuxedAccount.ed25519 key;
  muxed_id = none;
}
split_destination (MuxedAccount.muxed n key) = record {
  ledger_account = key;
  operation_destination = MuxedAccount.muxed n key;
  muxed_id = some n;
}

unfoldable pub conflicting_memo : Text → ℕ → ℕ → Text
conflicting_memo address muxed_id memo_id =
    codes "Muxed destination "
    ++ address
    ++ codes " embeds id "
    ++ digits muxed_id
    ++ codes ", which conflicts with memo id "
    ++ digits memo_id

unfoldable pub memo_required : Text → Text
memo_required address =
    codes "Destination "
    ++ address
    ++ codes " requires a transaction memo (SEP-29). Add a memo and try again."

module _ (X : Stellar) where
  open X use {Key, Contents, muxed_from_str}

  unfoldable pub parse_destination : Text → Outcome (PaymentDestination Key)
  parse_destination value = do
    account ←
        ok_or (muxed_from_str value) (codes "destination must be a Classic Stellar G or M address")
    ok (split_destination account)

  unfoldable pub payment_body :
      PaymentDestination Key → Asset Key → ℤ → Bool → Outcome (OperationBody Key Contents)
  payment_body destination asset amount create_destination =
      if create_destination
      then (fail_if (is_muxed destination) (codes "CreateAccount cannot target a muxed M address")
          >> ok (OperationBody.create_account destination.ledger_account amount))
      else ok (OperationBody.payment destination.operation_destination asset amount)

abbrev memo_conflict : Text → Option ℕ → PaymentMemo → Outcome (Unit {0})
memo_conflict address (some muxed_id) (PaymentMemo.id memo_id) =
    fail_if (not (muxed_id == memo_id)) (conflicting_memo address muxed_id memo_id)
memo_conflict address muxed_id memo = ok tt

abbrev pub is_no_memo : PaymentMemo → Bool
is_no_memo memo = elim memo [ PaymentMemo.no_memo ↦ true | _ ↦ false ]

module _ (J : Json) (decode_base64 : Text → Option (List ℕ)) where
  open J use {Value, get, as_str, as_object, object_get}

  abbrev pub memo_field : Value → Option Text
  memo_field account =
      and_then (and_then (get account (codes "data")) as_object)
        λ fields. and_then (object_get fields (codes "config.memo_required")) as_str

  -- The decoded field is the text `1`.
  unfoldable pub account_requires_memo : Value → Outcome Bool
  account_requires_memo account = elim (memo_field account) [
    | none ↦ ok false
    | some encoded ↦
        ok_or (decode_base64 encoded) (codes "Horizon returned malformed config.memo_required data")
        >>= λ decoded. ok (text_eq decoded (codes "1"))
  ]

  unfoldable pub validate_destination_memo :
      {K : Type 0} → Text → PaymentDestination K → PaymentMemo → Value → Outcome (Unit {0})
  validate_destination_memo address destination memo account = do
    memo_conflict address destination.muxed_id memo
    if is_muxed destination
        then ok tt
        else if is_no_memo memo
        then (account_requires_memo account >>= λ required.
            fail_if required (memo_required address))
        else ok tt
