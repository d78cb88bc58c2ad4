-- ===== src/Tests/Payments.antt =====
-- A payment from its texts to its envelope, on concrete accounts.
use fresnica.Prelude.{
  ℕ, ◌≡◌, ◌↔◌, refl, true, false, Option, none, some, List, [], ◌∷◌, Text, ok, arith,
}
use fresnica.Text.{
  codes, text_eq, is_whitespace, trim, trim_start, split, split_once, utf8_length, byte_length,
  is_ascii_digit, is_ascii_alphanumeric, to_ascii_lowercase, eq_ignore_ascii_case,
}
use fresnica.Int.{
  pos, fits_i64, saturate, saturating_add, saturating_sub, checked_add, checked_mul,
  checked_mul_u32, checked_add_u64,
}
use fresnica.Decimal.{digits, integer_text, padded, value, value_from, parse_digits, parse_i64}
use fresnica.Amount.{
  scale, fraction_units, parse_amount, parse_parts, parse_stroops, parse_positive_stroops,
  trim_end_zeros, format_stroops,
}
use fresnica.Stellar.{MuxedAccount, Asset}
use fresnica.Horizon.{
  LedgerParameters, text, array, integer, account_sequence, reserve_units, minimum_balance_stroops,
  balance_stroops,
}
use fresnica.Collections.{
  text_ord, text_lt, contains, insert, collect, is_subset, map_get, map_insert,
}
use fresnica.AssetId.{
  credit, parse, display, asset_issuer, asset_code, decode_code, issuer_is, matches_balance,
}
use fresnica.Authorization.{
  condition_ord, threshold_weight, signer_weight, requirement_satisfiable, plan_satisfiable,
}
use fresnica.Authorization.Plan.{
  operation_authorization, authorization_account_id, operation_uses, classic_authorization_uses,
  insert_conditions, extra_signer_conditions, index_accounts, merge_requirement, add_requirement,
  add_requirements, plan_classic_ledger_authorization,
}
use fresnica.Authorization.Account.{
  signer_type_kind, json_string, json_u8, read_signer, read_signers, account_from_horizon,
}
use fresnica.Authorization.Summary.{
  met_conditions, satisfied_transaction_conditions, signer_conditions, requirement_conditions,
  add_local, signer_snapshot, signer_availability, summarize_ledger_authorization,
}
use fresnica.Authorization.Load.{
  WalletRecord, local_signing_records, local_signing_keys, watch_only, review_ledger_authorization,
  prepared_classic_authorization_snapshot,
}
use fresnica.Transaction.Envelope.{
  validate_classic_transaction_timeout_seconds, memo_text, network_passphrase,
  build_operation_envelope_with_memo_and_timeout,
  build_single_operation_envelope_with_memo_and_timeout,
}
use fresnica.Payment.Memo.{
  PaymentMemo, PaymentDestination, memo_xdr, memo_review, parse_destination, payment_body,
  account_requires_memo, validate_destination_memo, from_anchor_fields,
}
use fresnica.Payment.Memo.Laws.{
  Suits, shown_type, shown_value, validate_destination_memo_iff, from_anchor_fields-memo_review,
}
use fresnica.Payment.Funds.{
  is_native_balance, native_free, ensure_payment_fee_capacity, ensure_payment_trustline_authorized,
  native_available, trustline_available, available_amount, validate_transfer, committed_amount,
  receiving_capacity, validate_destination_receive,
}
use fresnica.Payment.Funds.Spendable.{IsFunded, validate_transfer-IsFunded}
use fresnica.Payment.Funds.Receivable.{IsReceivable, validate_destination_receive-IsReceivable}
use fresnica.Payment.Prepare.{
  Client, PaymentOperation, PreparedPayment, check_found, check_minimum, check_payment,
  finish_payment, prepare_payment_with_wallet,
}
use fresnica.Payment.Prepare.Ready.{IsReady, prepare_payment_with_wallet-IsReady}
use fresnica.Tests.Sample.{
  sample_json, sample_stellar, source_id, destination_id, source_account, destination_account,
  field,
}
use fresnica.Tests.Envelopes.{sample_envelope}
use fresnica.Tests.Signatures.{payment_plan}

abbrev sample_ledger : LedgerParameters
sample_ledger = record { base_fee_in_stroops = 100; base_reserve_in_stroops = pos 5000000 }

abbrev usd : Asset Text
usd = credit (codes "USD") (codes "GI")

usd_transfer :
    validate_transfer sample_stellar sample_json source_account source_id usd
      (pos 200000000)
      sample_ledger
    ≡ ok tt
unfolding is_native_balance native_free ensure_payment_fee_capacity
    ensure_payment_trustline_authorized native_available trustline_available available_amount
    validate_transfer fits_i64 saturate saturating_add saturating_sub checked_add checked_mul
    checked_mul_u32 checked_add_u64 digits value value_from parse_digits parse_i64 scale
    fraction_units parse_amount parse_parts parse_stroops parse_positive_stroops trim_end_zeros
    format_stroops text_eq is_whitespace trim trim_start split split_once utf8_length byte_length
    is_ascii_digit is_ascii_alphanumeric to_ascii_lowercase eq_ignore_ascii_case codes field text
    array integer account_sequence reserve_units minimum_balance_stroops balance_stroops
    asset_issuer asset_code decode_code issuer_is matches_balance
usd_transfer = refl

validate_transfer-IsFunded_example :
    IsFunded sample_stellar sample_json source_account source_id usd 200000000 sample_ledger
validate_transfer-IsFunded_example =
    validate_transfer-IsFunded sample_stellar sample_json source_account source_id usd 200000000
      sample_ledger (omega arith) usd_transfer

usd_receipt :
    validate_destination_receive sample_stellar sample_json destination_account destination_id usd
      (pos 300000000)
    ≡ ok tt
unfolding committed_amount receiving_capacity validate_destination_receive
    ensure_payment_trustline_authorized fits_i64 saturate saturating_add saturating_sub checked_add
    checked_mul checked_mul_u32 checked_add_u64 digits value value_from parse_digits parse_i64 scale
    fraction_units parse_amount parse_parts parse_stroops parse_positive_stroops trim_end_zeros
    format_stroops text_eq is_whitespace trim trim_start split split_once utf8_length byte_length
    is_ascii_digit is_ascii_alphanumeric to_ascii_lowercase eq_ignore_ascii_case codes field text
    array integer account_sequence reserve_units minimum_balance_stroops balance_stroops
    asset_issuer asset_code decode_code issuer_is matches_balance
usd_receipt = refl

validate_destination_receive-IsReceivable_example :
    IsReceivable sample_stellar sample_json destination_account destination_id usd 300000000
validate_destination_receive-IsReceivable_example =
    validate_destination_receive-IsReceivable sample_stellar sample_json destination_account
      destination_id usd 300000000 (omega arith) usd_receipt

-- Base64 of the sample: a text is its own code.
abbrev own_code : Text → Option (List ℕ)
own_code t = some t

abbrev muxed_destination : PaymentDestination Text
muxed_destination = record {
  ledger_account = destination_id;
  operation_destination = MuxedAccount.muxed 7 destination_id;
  muxed_id = some 7;
}

validate_destination_memo_iff_example :
    (validate_destination_memo sample_json own_code
        (codes "MGB")
        muxed_destination
        (PaymentMemo.id 7)
        destination_account
      ≡ ok tt)
    ↔ Suits sample_json own_code (some 7) (PaymentMemo.id 7) destination_account
validate_destination_memo_iff_example =
    validate_destination_memo_iff sample_json own_code (codes "MGB") muxed_destination
      destination_account (PaymentMemo.id 7)

from_anchor_fields-memo_review_example :
    from_anchor_fields own_code
      (shown_type (memo_review (λ b. b) (PaymentMemo.id 1050)))
      (shown_value (memo_review (λ b. b) (PaymentMemo.id 1050)))
    ≡ ok (PaymentMemo.id 1050)
from_anchor_fields-memo_review_example =
    from_anchor_fields-memo_review (λ b. b) own_code (λ b. refl) (PaymentMemo.id 1050) (omega arith)

abbrev sample_wallet : WalletRecord
sample_wallet = record {
  name = codes "main";
  address = source_id;
  wallet_type = codes "software";
  network = codes "testnet";
  has_secret = true;
}

abbrev sample_client : Client sample_stellar sample_json
sample_client = record {
  get_account = λ id. ok source_account;
  get_account_optional = λ id. ok (some destination_account);
  get_ledger_parameters = ok sample_ledger;
  stored_wallets = ok (sample_wallet ∷ []);
  network = codes "testnet";
  timeout_seconds = 300;
  now = some 1000;
  decode_base64 = own_code;
  encode_base64 = λ b. b;
  satisfies = λ envelope passphrase signer. ok false;
  hash = λ envelope passphrase. ok (codes "ab");
}

abbrev sample_prepared : PreparedPayment sample_stellar
sample_prepared = record {
  review = record {
    operation = PaymentOperation.payment;
    wallet_name = codes "main";
    source = source_id;
    destination = destination_id;
    contact_name = none;
    amount = codes "12.5";
    asset = codes "XLM";
    fee_xlm = codes "0.00001";
    network = codes "testnet";
    transaction_timeout_seconds = 300;
    memo = some (record { memo_type = codes "text"; value = codes "1" });
    ledger_authorization =
        summarize_ledger_authorization payment_plan [] (source_id ∷ []) (codes "ab");
  };
  wallet = sample_wallet;
  envelope = sample_envelope;
}

sample_preparation :
    prepare_payment_with_wallet sample_stellar sample_json sample_client sample_wallet
      (codes "12.50")
      (codes "xlm")
      destination_id
      none
      (PaymentMemo.text (codes "1"))
    ≡ ok sample_prepared
unfolding memo_xdr memo_review parse_destination payment_body account_requires_memo
    validate_destination_memo check_found check_minimum check_payment finish_payment
    prepare_payment_with_wallet parse display validate_classic_transaction_timeout_seconds memo_text
    network_passphrase build_operation_envelope_with_memo_and_timeout
    build_single_operation_envelope_with_memo_and_timeout is_native_balance native_free
    ensure_payment_fee_capacity ensure_payment_trustline_authorized native_available
    trustline_available available_amount validate_transfer committed_amount receiving_capacity
    validate_destination_receive contains insert collect is_subset map_get map_insert text_lt
    threshold_weight signer_weight requirement_satisfiable plan_satisfiable operation_authorization
    authorization_account_id operation_uses classic_authorization_uses insert_conditions
    extra_signer_conditions index_accounts merge_requirement add_requirement add_requirements
    plan_classic_ledger_authorization signer_type_kind json_string json_u8 read_signer read_signers
    account_from_horizon met_conditions satisfied_transaction_conditions signer_conditions
    requirement_conditions add_local signer_snapshot signer_availability
    summarize_ledger_authorization local_signing_records local_signing_keys watch_only
    review_ledger_authorization prepared_classic_authorization_snapshot fits_i64 saturate
    saturating_add saturating_sub checked_add checked_mul checked_mul_u32 checked_add_u64 digits
    value value_from parse_digits parse_i64 scale fraction_units parse_amount parse_parts
    parse_stroops parse_positive_stroops trim_end_zeros format_stroops text_eq is_whitespace trim
    trim_start split split_once utf8_length byte_length is_ascii_digit is_ascii_alphanumeric
    to_ascii_lowercase eq_ignore_ascii_case codes field text array integer account_sequence
    reserve_units minimum_balance_stroops balance_stroops asset_issuer asset_code decode_code
    issuer_is matches_balance integer_text padded
sample_preparation = refl

prepare_payment_with_wallet-IsReady_example :
    IsReady sample_stellar sample_json sample_client sample_wallet
      (codes "12.50")
      (codes "xlm")
      destination_id
      (PaymentMemo.text (codes "1"))
      sample_prepared
prepare_payment_with_wallet-IsReady_example =
    prepare_payment_with_wallet-IsReady sample_stellar sample_json sample_client sample_wallet
      (codes "12.50") (codes "xlm") destination_id none (PaymentMemo.text (codes "1"))
      sample_preparation
