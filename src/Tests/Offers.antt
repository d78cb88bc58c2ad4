-- ===== src/Tests/Offers.antt =====
-- Offers from their texts to their envelopes, on a concrete account.
use fresnica.Prelude.{
  IsOk, is_ok, is_ok-IsOk, ◌*◌, Outcome, ◌≡◌, ◌↔◌, refl, true, false, none, some, [], ◌∷◌, Text, ok,
  arith,
}
use fresnica.Text.{
  codes, text_eq, is_whitespace, trim, trim_start, split, split_once, utf8_length, byte_length,
  is_ascii_digit, is_ascii_alphanumeric, to_ascii_lowercase, eq_ignore_ascii_case,
}
use fresnica.Int.{
  ℤ, pos, fits_i64, saturate, saturating_add, saturating_sub, checked_add, checked_mul,
  checked_mul_u32, checked_add_u64,
}
use fresnica.Decimal.{digits, integer_text, padded, value, value_from, parse_digits, parse_i64}
use fresnica.Amount.{
  scale, fraction_units, parse_amount, parse_parts, parse_stroops, trim_end_zeros, format_stroops,
}
use fresnica.Stellar.{Asset, Price, native}
use fresnica.Horizon.{
  LedgerParameters, text, array, integer, account_sequence, reserve_units, minimum_balance_stroops,
  balance_stroops,
}
use fresnica.Collections.{
  text_ord, text_lt, contains, insert, collect, is_subset, map_get, map_insert,
}
use fresnica.AssetId.{
  credit, from_horizon, issued, parse_issued, validate_asset_code, is_asset_code, horizon_type,
  parse, display, asset_issuer, asset_code, decode_code, issuer_is, matches_balance,
}
use fresnica.Authorization.{
  condition_ord, threshold_weight, signer_weight, requirement_satisfiable, plan_satisfiable,
}
use fresnica.Authorization.Plan.{
  operation_authorization, authorization_account_id, operation_uses, classic_authorization_uses,
  insert_conditions, extra_signer_conditions, index_accounts, merge_requirement, add_requirement,
  add_requirements, plan_classic_ledger_authorization,
}
use fresnica.Authorization.Account.{
  signer_type_kind, json_string, json_u8, read_signer, read_signers, account_from_horizon,
}
use fresnica.Authorization.Summary.{
  met_conditions, satisfied_transaction_conditions, signer_conditions, requirement_conditions,
  add_local, signer_snapshot, signer_availability, summarize_ledger_authorization,
}
use fresnica.Authorization.Load.{
  WalletRecord, local_signing_records, local_signing_keys, watch_only, review_ledger_authorization,
  prepared_classic_authorization_snapshot,
}
use fresnica.Transaction.Envelope.{
  validate_classic_transaction_timeout_seconds, memo_text, optional_text_memo,
  build_operation_envelope_with_timeout, network_passphrase,
  build_operation_envelope_with_memo_and_timeout,
}
use fresnica.Payment.Funds.{committed_amount}
use fresnica.Payment.Prepare.{Client}
use fresnica.Dex.Price.{
  stellar_price, convergents, next_part, advance, settle_price, has_zero, price_of, recover,
  limit_by, in_range, requested_price_if_approximated,
}
use fresnica.Dex.Price.Exact.{
  IsInt32Price, stellar_price-IsInt32Price, stellar_price-requested_price_if_approximated,
}
use fresnica.Dex.Ratio.{
  checked_mul_i128, rounded, round_ratio, format_scaled_7, format_price_ratio, format_price_product,
}
use fresnica.Dex.Ratio.Rounding.{parse_stroops-format_scaled_7}
use fresnica.Dex.Liabilities.{
  OfferSide, OfferLiabilities, ceil_div, exchange, liabilities_of, exchange_v10_normal_liabilities,
  offer_liabilities,
}
use fresnica.Dex.Liabilities.Fair.{IsCommitted, offer_liabilities-IsCommitted}
use fresnica.Dex.Offer.{
  assets, operation_for_side, offer_operation, validate_offer_id, asset_eq, ensure_pair, infer_side,
  horizon_price, ensure_offer_owner, offer_amount,
}
use fresnica.Dex.Offer.Sides.{infer_side-assets}
use fresnica.Dex.Capacity.{
  free_of, available_balance, native_room, trustline_room, receiving_capacity,
  ensure_offer_fee_capacity, ensure_full_offer_authorization, issuer_requires_authorization,
  account_can_hold,
}
use fresnica.Dex.Preflight.{
  policy_limit, need_message, future_minimum, requirement, check_native_selling,
  check_issued_selling, check_selling, check_buying, preflight_create, check_available,
  check_released, released_capacity, preflight_update,
}
use fresnica.Dex.Preflight.Backed.{IsBacked, preflight_create-IsBacked}
use fresnica.Dex.Preflight.Released.{IsRebacked, preflight_update-IsRebacked}
use fresnica.Dex.Prepare.{parse_offer_value, parse_terms, parse_pair, trade_details, finish_offer}
use fresnica.Dex.Prepare.Create.{
  check_new_trustline, check_authorization, create_operations, check_create, create_offer,
  prepare_offer_create,
}
use fresnica.Dex.Prepare.Update.{
  stored_assets, check_update, own_side, update_offer, prepare_offer_update, cancel_offer,
  prepare_offer_cancel,
}
use fresnica.Dex.Prepare.Created.{IsCreated, prepare_offer_create-IsCreated}
use fresnica.Dex.Prepare.Updated.{IsUpdated, prepare_offer_update-IsUpdated}
use fresnica.Dex.Prepare.Cancelled.{IsCancelled, prepare_offer_cancel-IsCancelled}
use fresnica.Tests.Sample.{
  Tree, leaf, number, fields, no_fields, more_fields, sample_json, sample_stellar, source_id,
  source_account, field,
}

abbrev offer_ledger : LedgerParameters
offer_ledger = record { base_fee_in_stroops = 100; base_reserve_in_stroops = pos 5000000 }

abbrev offer_wallet : WalletRecord
offer_wallet = record {
  name = codes "main";
  address = source_id;
  wallet_type = codes "software";
  network = codes "testnet";
  has_secret = true;
}

abbrev offer_client : Client sample_stellar sample_json
offer_client = record {
  get_account = λ id. ok source_account;
  get_account_optional = λ id. ok none;
  get_ledger_parameters = ok offer_ledger;
  stored_wallets = ok (offer_wallet ∷ []);
  network = codes "testnet";
  timeout_seconds = 300;
  now = some 1000;
  decode_base64 = λ t. some t;
  encode_base64 = λ b. b;
  satisfies = λ envelope passphrase signer. ok false;
  hash = λ envelope passphrase. ok (codes "ab");
}

abbrev half : Price
half = record { n = 1; d = 2 }

abbrev usd_asset : Asset Text
usd_asset = credit (codes "USD") (codes "GI")

stellar_price-IsInt32Price_example :
    (r : Price) × (stellar_price 3333333 ≡ some (ok r)) × IsInt32Price r
stellar_price-IsInt32Price_example = stellar_price-IsInt32Price 3333333 (omega arith) (omega arith)

stellar_price-requested_price_if_approximated_example :
    (r : Price) × (stellar_price 3250000 ≡ some (ok r))
    × (r.n * 10000000 ≡ 3250000 * r.d)
    × (requested_price_if_approximated 3250000 r ≡ none)
stellar_price-requested_price_if_approximated_example =
    stellar_price-requested_price_if_approximated 3250000 13 40 (omega arith) refl (omega arith)
      (omega arith) (omega arith)

parse_stroops-format_scaled_7_example :
    parse_stroops (format_scaled_7 12345678) false ≡ some (pos 12345678)
parse_stroops-format_scaled_7_example = parse_stroops-format_scaled_7 12345678 (omega arith)

offer_liabilities-IsCommitted_example :
    (l : OfferLiabilities) × (offer_liabilities OfferSide.buy (pos 50000000) half ≡ ok l)
    × IsCommitted OfferSide.buy 50000000 half l
offer_liabilities-IsCommitted_example =
    offer_liabilities-IsCommitted OfferSide.buy 50000000 half (omega arith) (omega arith)
      (omega arith) (omega arith) (omega arith)

different : ensure_pair sample_stellar native usd_asset ≡ ok tt
unfolding ensure_pair asset_eq byte_length codes
different = refl

infer_side-assets_example :
    (infer_side sample_stellar usd_asset native native usd_asset ≡ ok OfferSide.buy) ↔ (
      (usd_asset ≡ (assets OfferSide.buy native usd_asset).0)
      × (native ≡ (assets OfferSide.buy native usd_asset).1))
infer_side-assets_example =
    infer_side-assets sample_stellar usd_asset native native usd_asset OfferSide.buy different

-- The stored offer sells one lumen.
abbrev stored_offer : Tree
stored_offer = fields (
    more_fields (codes "seller") (leaf source_id) (
      more_fields (codes "selling")
        (fields (more_fields (codes "asset_type") (leaf (codes "native")) no_fields))
        (more_fields (codes "buying")
          (fields (
            more_fields (codes "asset_type") (leaf (codes "credit_alphanum4")) (
              more_fields (codes "asset_code") (leaf (codes "USD"))
                (more_fields (codes "asset_issuer") (leaf (codes "GI")) no_fields))))
          (more_fields (codes "amount") (leaf (codes "1.0000000")) (
            more_fields (codes "price_r")
              (fields
                (more_fields (codes "n") (number 1) (more_fields (codes "d") (number 2) no_fields)))
              no_fields)))))

abbrev sample_offers : ℤ → Outcome Tree
sample_offers offer_id = ok stored_offer

-- The three requests are prepared, and both preflights pass.
prepared_offers :
    (is_ok (
        prepare_offer_create sample_stellar sample_json offer_client
          (ok offer_wallet)
          OfferSide.sell
          (codes "XLM")
          (codes "USD:GI")
          (codes "5")
          (codes "0.5")
          false)
      ≡ true)
    × (preflight_create sample_stellar sample_json source_account source_id OfferSide.sell native
          usd_asset
          (pos 50000000)
          half
          (pos 5000000)
          (pos 100)
          (pos 1)
          false
        ≡ ok tt)
    × (is_ok (
          prepare_offer_update sample_stellar sample_json offer_client sample_offers
            (ok offer_wallet)
            (pos 9)
            (codes "XLM")
            (codes "USD:GI")
            (codes "5")
            (codes "0.5"))
        ≡ true)
    × (preflight_update sample_stellar sample_json source_account source_id OfferSide.sell native
          usd_asset
          (pos 50000000)
          half
          (pos 10000000)
          half
          (pos 5000000)
          (pos 100)
        ≡ ok tt)
    × (is_ok (
          prepare_offer_cancel sample_stellar sample_json offer_client sample_offers
            (ok offer_wallet)
            (pos 9))
        ≡ true)
unfolding parse display validate_classic_transaction_timeout_seconds memo_text network_passphrase
    build_operation_envelope_with_memo_and_timeout committed_amount contains insert collect
    is_subset map_get map_insert text_lt threshold_weight signer_weight requirement_satisfiable
    plan_satisfiable operation_authorization authorization_account_id operation_uses
    classic_authorization_uses insert_conditions extra_signer_conditions index_accounts
    merge_requirement add_requirement add_requirements plan_classic_ledger_authorization
    signer_type_kind json_string json_u8 read_signer read_signers account_from_horizon
    met_conditions satisfied_transaction_conditions signer_conditions requirement_conditions
    add_local signer_snapshot signer_availability summarize_ledger_authorization
    local_signing_records local_signing_keys watch_only review_ledger_authorization
    prepared_classic_authorization_snapshot fits_i64 saturate saturating_add saturating_sub
    checked_add checked_mul checked_mul_u32 checked_add_u64 digits value value_from parse_digits
    parse_i64 scale fraction_units parse_amount parse_parts parse_stroops trim_end_zeros
    format_stroops text_eq is_whitespace trim trim_start split split_once utf8_length byte_length
    is_ascii_digit is_ascii_alphanumeric to_ascii_lowercase eq_ignore_ascii_case codes field text
    array integer account_sequence reserve_units minimum_balance_stroops balance_stroops
    asset_issuer asset_code decode_code issuer_is matches_balance integer_text padded stellar_price
    convergents next_part advance settle_price has_zero price_of recover limit_by in_range
    requested_price_if_approximated checked_mul_i128 rounded round_ratio format_scaled_7
    format_price_ratio format_price_product ceil_div exchange liabilities_of
    exchange_v10_normal_liabilities offer_liabilities assets operation_for_side offer_operation
    validate_offer_id asset_eq ensure_pair infer_side horizon_price ensure_offer_owner offer_amount
    free_of available_balance native_room trustline_room receiving_capacity
    ensure_offer_fee_capacity ensure_full_offer_authorization issuer_requires_authorization
    account_can_hold policy_limit need_message future_minimum requirement check_native_selling
    check_issued_selling check_selling check_buying preflight_create check_available check_released
    released_capacity preflight_update parse_offer_value parse_terms parse_pair trade_details
    finish_offer check_new_trustline check_authorization create_operations check_create create_offer
    prepare_offer_create stored_assets check_update own_side update_offer prepare_offer_update
    cancel_offer prepare_offer_cancel from_horizon issued parse_issued validate_asset_code
    is_asset_code horizon_type optional_text_memo build_operation_envelope_with_timeout
prepared_offers = (refl, refl, refl, refl, refl)

sample_created : IsOk (
    prepare_offer_create sample_stellar sample_json offer_client
      (ok offer_wallet)
      OfferSide.sell
      (codes "XLM")
      (codes "USD:GI")
      (codes "5")
      (codes "0.5")
      false)
sample_created = is_ok-IsOk _ (prepared_offers.0)

prepare_offer_create-IsCreated_example :
    IsCreated sample_stellar sample_json offer_client offer_ledger 5000000 refl
      (omega arith)
      (ok offer_wallet)
      OfferSide.sell
      (codes "XLM")
      (codes "USD:GI")
      (codes "5")
      (codes "0.5")
      false
      (sample_created.0)
prepare_offer_create-IsCreated_example =
    prepare_offer_create-IsCreated sample_stellar sample_json offer_client offer_ledger 5000000 refl
      (omega arith) (ok offer_wallet) OfferSide.sell (codes "XLM") (codes "USD:GI") (codes "5")
      (codes "0.5") false refl (sample_created.1)

preflight_create-IsBacked_example :
    IsBacked sample_stellar sample_json source_account source_id OfferSide.sell native usd_asset
      (pos 50000000)
      half
      5000000
      100
      1
      false
preflight_create-IsBacked_example =
    preflight_create-IsBacked sample_stellar sample_json source_account source_id OfferSide.sell
      native usd_asset (pos 50000000) half 5000000 100 1 false (omega arith) (prepared_offers.1)

sample_updated : IsOk (
    prepare_offer_update sample_stellar sample_json offer_client sample_offers
      (ok offer_wallet)
      (pos 9)
      (codes "XLM")
      (codes "USD:GI")
      (codes "5")
      (codes "0.5"))
sample_updated = is_ok-IsOk _ (prepared_offers.2)

prepare_offer_update-IsUpdated_example :
    IsUpdated sample_stellar sample_json offer_client sample_offers offer_ledger 5000000 refl
      (omega arith)
      (ok offer_wallet)
      (pos 9)
      (codes "XLM")
      (codes "USD:GI")
      (codes "5")
      (codes "0.5")
      (sample_updated.0)
prepare_offer_update-IsUpdated_example =
    prepare_offer_update-IsUpdated sample_stellar sample_json offer_client sample_offers
      offer_ledger 5000000 refl (omega arith) (ok offer_wallet) (pos 9) (codes "XLM")
      (codes "USD:GI") (codes "5") (codes "0.5") refl (sample_updated.1)

preflight_update-IsRebacked_example :
    IsRebacked sample_stellar sample_json source_account source_id OfferSide.sell native usd_asset
      (pos 50000000)
      half
      (pos 10000000)
      half
      5000000
      100
preflight_update-IsRebacked_example =
    preflight_update-IsRebacked sample_stellar sample_json source_account source_id OfferSide.sell
      native usd_asset (pos 50000000) half (pos 10000000) half 5000000 100 (omega arith)
      (prepared_offers.3)

sample_cancelled : IsOk (
    prepare_offer_cancel sample_stellar sample_json offer_client sample_offers
      (ok offer_wallet)
      (pos 9))
sample_cancelled = is_ok-IsOk _ (prepared_offers.4)

prepare_offer_cancel-IsCancelled_example :
    IsCancelled sample_stellar sample_json offer_client sample_offers offer_ledger 5000000 refl
      (omega arith)
      (ok offer_wallet)
      (pos 9)
      (sample_cancelled.0)
prepare_offer_cancel-IsCancelled_example =
    prepare_offer_cancel-IsCancelled sample_stellar sample_json offer_client sample_offers
      offer_ledger 5000000 refl (omega arith) (ok offer_wallet) (pos 9) refl (sample_cancelled.1)
