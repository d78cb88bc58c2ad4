-- ===== src/Payment/Prepare.antt =====
-- `prepare_payment_with_wallet` of reference/rust-client/src/payment.rs: every check of a payment in
-- the order of the code, the envelope that comes out and the review that the user sees. What the
-- client reads from elsewhere (Horizon, storage, the clock, base64, the Core library) is a record.
pub mod Delivery
pub mod Ready
use fresnica.Prelude.{
  ℕ, Bool, true, false, not, ◌&&◌, Option, none, some, List, ◌++◌, Text, String, Outcome, ok, err,
  ◌>>=◌, ◌>>◌, fail_if, ok_or, if◌then◌else◌,
}
use fresnica.Text.{codes}
use fresnica.Int.{ℤ, pos, checked_mul, ltb_ℤ}
use fresnica.Amount.{parse_positive_stroops, format_stroops}
use fresnica.Stellar.{Stellar, SignerKey, Asset, Memo, TransactionEnvelope}
use fresnica.Json.{Json}
use fresnica.Horizon.{LedgerParameters, account_sequence}
use fresnica.AssetId.{is_native, display, parse}
use fresnica.Authorization.Load.{WalletRecord, prepared_classic_authorization_snapshot}
use fresnica.Authorization.Summary.{LedgerAuthorizationSnapshot}
use fresnica.Transaction.Envelope.{build_single_operation_envelope_with_memo_and_timeout}
use fresnica.Payment.Memo.{
  PaymentMemo, PaymentMemoReview, PaymentDestination, is_muxed, memo_xdr, memo_review,
  parse_destination, payment_body, validate_destination_memo,
}
use fresnica.Payment.Funds.{validate_transfer, validate_destination_receive}

-- What the client holds and what it asks of the world. Two requests of one preparation see the same
-- ledger, as the arguments are functions.
pub record Client (X : Stellar) (J : Json) : Type 0 where
  pub get_account : Text → Outcome J.Value
  pub get_account_optional : Text → Outcome (Option J.Value)
  pub get_ledger_parameters : Outcome LedgerParameters
  pub stored_wallets : Outcome (List WalletRecord)
  pub network : Text
  pub timeout_seconds : ℕ
  pub now : Option ℕ
  pub decode_base64 : Text → Option (List ℕ)
  pub encode_base64 : List ℕ → Text
  pub satisfies : TransactionEnvelope X → Text → SignerKey X.Key X.Payload → Outcome Bool
  pub hash : TransactionEnvelope X → Text → Outcome Text

pub data PaymentOperation : Type 0 where
  payment create_account : PaymentOperation

pub record PaymentReview : Type 0 where
  pub operation : PaymentOperation
  pub wallet_name : Text
  pub source : Text
  pub destination : Text
  pub contact_name : Option Text
  pub amount : Text
  pub asset : Text
  pub fee_xlm : Text
  pub network : Text
  pub transaction_timeout_seconds : ℕ
  pub memo : Option PaymentMemoReview
  pub ledger_authorization : LedgerAuthorizationSnapshot

pub record PreparedPayment (X : Stellar) : Type 0 where
  pub review : PaymentReview
  pub wallet : WalletRecord
  pub envelope : TransactionEnvelope X

-- `is_none`
abbrev pub is_missing {ℓ} : {A : Type ℓ} → Option A → Bool
is_missing none = true
is_missing (some a) = false

unfoldable pub missing_muxed : Text → Text → Text
missing_muxed address ledger_address =
    codes "Muxed destination "
    ++ address
    ++ codes " refers to missing account "
    ++ ledger_address
    ++ codes "; M addresses cannot create Stellar accounts"

unfoldable pub missing_account : Text
missing_account =
    codes
      "Destination account does not exist. Only XLM can create a new Stellar account; issued assets require an existing account and trustline."

unfoldable pub below_reserve : ℤ → ℤ → Text
below_reserve minimum amount =
    codes "Creating a Stellar account requires at least "
    ++ format_stroops minimum
    ++ codes " XLM at the current base reserve; requested "
    ++ format_stroops amount
    ++ codes " XLM"

-- `if create_destination { CreateAccount } else { Payment }`
abbrev pub operation_of : Bool → PaymentOperation
operation_of create = if create then PaymentOperation.create_account else PaymentOperation.payment

module _ (X : Stellar) (J : Json) (client : Client X J) where
  open X use {Key, account_text}
  open J use {Value}

  -- The checks of an account that is there.
  unfoldable pub check_found :
      Text
      → PaymentDestination Key
      → PaymentMemo
      → Asset Key
      → ℤ
      → Option Value
      → Outcome (Unit {0})
  check_found address destination memo asset amount none = ok tt
  check_found address destination memo asset amount (some found) =
      validate_destination_receive X J found (account_text destination.ledger_account) asset amount
      >> validate_destination_memo J client.decode_base64 address destination memo found

  -- An account that is to be created needs two base reserves.
  unfoldable pub check_minimum : LedgerParameters → ℤ → Option Value → Outcome (Unit {0})
  check_minimum ledger amount (some found) = ok tt
  check_minimum ledger amount none = do
    minimum ←
        ok_or (checked_mul (pos 2) ledger.base_reserve_in_stroops) (codes "base reserve overflow")
    fail_if (ltb_ℤ amount minimum) (below_reserve minimum amount)

  -- The envelope and its review, once every check has passed.
  unfoldable pub finish_payment :
      WalletRecord
      → Text
      → Option Text
      → PaymentMemo
      → Asset Key
      → ℤ
      → PaymentDestination Key
      → Memo Key
      → Value
      → Bool
      → LedgerParameters
      → Outcome (PreparedPayment X)
  finish_payment current destination_address contact_name memo asset amount destination memo'
        account create_destination ledger =
      do
        body ← payment_body X destination asset amount create_destination
        sequence ← account_sequence J account
        envelope ←
            build_single_operation_envelope_with_memo_and_timeout X client.now current.address body
              sequence ledger.base_fee_in_stroops memo' client.timeout_seconds
        snapshot ←
            prepared_classic_authorization_snapshot X client.satisfies client.hash J
              client.stored_wallets client.network envelope account
        ok (record {
          review = record {
            operation = operation_of create_destination;
            wallet_name = current.name;
            source = current.address;
            destination = destination_address;
            contact_name = contact_name;
            amount = format_stroops amount;
            asset = display X asset;
            fee_xlm = format_stroops (pos ledger.base_fee_in_stroops);
            network = current.network;
            transaction_timeout_seconds = client.timeout_seconds;
            memo = memo_review client.encode_base64 memo;
            ledger_authorization = snapshot;
          };
          wallet = current;
          envelope = envelope;
        })

  -- The checks against the ledger, in the order of the code.
  unfoldable pub check_payment :
      WalletRecord
      → Text
      → PaymentMemo
      → Asset Key
      → ℤ
      → PaymentDestination Key
      → Value
      → Option Value
      → Outcome LedgerParameters
  check_payment current destination_address memo asset amount destination account found = do
    fail_if (is_missing found && is_muxed destination)
        (missing_muxed destination_address (account_text destination.ledger_account))
    fail_if (is_missing found && not (is_native asset)) missing_account
    ledger ← client.get_ledger_parameters
    validate_transfer X J account current.address asset amount ledger
    check_found destination_address destination memo asset amount found
    check_minimum ledger amount found
    ok ledger

  unfoldable pub prepare_payment_with_wallet :
      WalletRecord → Text → Text → Text → Option Text → PaymentMemo → Outcome (PreparedPayment X)
  prepare_payment_with_wallet current amount_text asset_text destination_address contact_name memo =
      do
        asset ← parse X asset_text
        amount ← parse_positive_stroops amount_text
        destination ← parse_destination X destination_address
        memo' ← memo_xdr memo
        account ← client.get_account current.address
        found ← client.get_account_optional (account_text destination.ledger_account)
        ledger ←
            check_payment current destination_address memo asset amount destination account found
        finish_payment current destination_address contact_name memo asset amount destination memo'
            account (is_missing found) ledger
