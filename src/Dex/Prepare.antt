-- ===== src/Dex/Prepare.antt =====
-- The preparation of an offer (reference/rust-client/src/dex.rs), every check in the order of the code:
-- here the review, the terms and the envelope, in Create and Update the three requests. The wallet
-- that `resolve_write_wallet` answers and the offers of Horizon are arguments.
pub mod Create
pub mod Update
pub mod Parts
pub mod Created
pub mod Updated
pub mod Cancelled
use fresnica.Prelude.{
  ℕ, Bool, true, false, not, ◌&&◌, Option, none, some, List, [], ◌∷◌, ◌++◌, Text, String, Outcome,
  ok, err, ◌>>=◌, ◌>>◌, fail_if, ok_or, or_message, if◌then◌else◌,
}
use fresnica.Text.{codes}
use fresnica.Int.{ℤ, pos, pos_part, checked_mul_u32}
use fresnica.Amount.{parse_stroops, format_stroops}
use fresnica.Stellar.{Stellar, Asset, native, Price, OperationBody, TransactionEnvelope}
use fresnica.Json.{Json}
use fresnica.Horizon.{LedgerParameters, account_sequence}
use fresnica.AssetId.{display, parse, asset_issuer, to_change_trust_xdr, from_horizon}
use fresnica.Authorization.Load.{WalletRecord, prepared_classic_authorization_snapshot}
use fresnica.Authorization.Summary.{LedgerAuthorizationSnapshot}
use fresnica.Transaction.Envelope.{build_operation_envelope_with_timeout}
use fresnica.Payment.Prepare.{Client}
use fresnica.Dex.Price.{stellar_price, no_approximation, requested_price_if_approximated}
use fresnica.Dex.Ratio.{format_price_ratio, format_price_product}
use fresnica.Dex.Liabilities.{OfferSide}
use fresnica.Dex.Offer.{
  OfferAction, OfferOperation, assets, operation_for_side, offer_operation, validate_offer_id,
  ensure_pair, infer_side, horizon_price, ensure_offer_owner, offer_amount,
}
use fresnica.Dex.Capacity.{
  account_can_hold, ensure_full_offer_authorization, issuer_requires_authorization,
  ensure_offer_fee_capacity,
}
use fresnica.Dex.Preflight.{
  default_trustline_limit, policy_limit, preflight_create, preflight_update,
}

pub record TradeDetails : Type 0 where
  pub side : OfferSide
  pub base : Text
  pub counter : Text
  pub amount : Text
  pub price : Text
  pub requested_price : Option Text
  pub price_n : ℕ
  pub price_d : ℕ
  pub total : Text
  pub trustline_asset : Option Text
  pub trustline_limit : Option Text

pub data OfferReviewDetails : Type 0 where
  trade : TradeDetails → OfferReviewDetails
  cancel : Text → Text → OfferReviewDetails

pub record OfferReview : Type 0 where
  pub action : OfferAction
  pub operation : OfferOperation
  pub wallet_name : Text
  pub source : Text
  pub offer_id : Option ℤ
  pub fee_xlm : Text
  pub network : Text
  pub transaction_timeout_seconds : ℕ
  pub details : OfferReviewDetails
  pub ledger_authorization : LedgerAuthorizationSnapshot

pub record PreparedOffer (X : Stellar) : Type 0 where
  pub review : OfferReview
  pub wallet : WalletRecord
  pub envelope : TransactionEnvelope X

abbrev invalid_value : Text → Text
invalid_value label =
    codes "Offer " ++ label ++ codes " must be greater than zero with at most 7 decimal places"

unfoldable pub parse_offer_value : Text → Text → Outcome ℤ
parse_offer_value value label = ok_or (parse_stroops value true) (invalid_value label)

-- `stellar_price` with its fuel, which is always enough.
abbrev pub offer_price : ℤ → Outcome Price
offer_price stroops = elim (stellar_price (pos_part stroops)) [
  | none ↦ err no_approximation
  | some answer ↦ answer
]

-- The amount, the decimal price and the price of the operation.
pub record Terms : Type 0 where
  pub amount : ℤ
  pub price_stroops : ℤ
  pub price : Price

unfoldable pub parse_terms : Text → Text → Outcome Terms
parse_terms amount_text price_text = do
  amount ← parse_offer_value amount_text (codes "amount")
  price_stroops ← parse_offer_value price_text (codes "price")
  price ← offer_price price_stroops
  ok (record { amount = amount; price_stroops = price_stroops; price = price })

module _ (X : Stellar) where
  open X use {Key, Contents}

  unfoldable pub parse_pair : Text → Text → Outcome (Asset Key × Asset Key)
  parse_pair base_text counter_text = do
    base ← parse X base_text
    counter ← parse X counter_text
    ensure_pair X base counter
    ok (base, counter)

  -- The two texts of a trade can fail, and are the last that is computed.
  unfoldable pub trade_details :
      OfferSide → Asset Key → Asset Key → Terms → Bool → Outcome OfferReviewDetails
  trade_details side base counter terms adds_trustline = do
    price ← format_price_ratio terms.price.n terms.price.d
    total ← format_price_product (pos_part terms.amount) terms.price
    ok (
        OfferReviewDetails.trade (record {
          side = side;
          base = display X base;
          counter = display X counter;
          amount = format_stroops terms.amount;
          price = price;
          requested_price =
              requested_price_if_approximated (pos_part terms.price_stroops) terms.price;
          price_n = terms.price.n;
          price_d = terms.price.d;
          total = total;
          trustline_asset =
              if adds_trustline then some (display X (assets side base counter).1) else none;
          trustline_limit = if adds_trustline then some default_trustline_limit else none;
        }))

module _ (X : Stellar) (J : Json) (client : Client X J) where
  open X use {Key, Contents}
  open J use {Value, get}

  -- The envelope and the review of an offer whose checks have passed.
  unfoldable pub finish_offer :
      WalletRecord
      → Value
      → LedgerParameters
      → List (OperationBody Key Contents)
      → OfferAction
      → OfferOperation
      → Option ℤ
      → ℕ
      → Outcome OfferReviewDetails
      → Outcome (PreparedOffer X)
  finish_offer wallet account ledger operations action operation offer_id fee details = do
    sequence ← account_sequence J account
    envelope ←
        build_operation_envelope_with_timeout X client.now wallet.address operations sequence
          ledger.base_fee_in_stroops none client.timeout_seconds
    snapshot ←
        prepared_classic_authorization_snapshot X client.satisfies client.hash J
          client.stored_wallets client.network envelope account
    shown ← details
    ok (record {
      review = record {
        action = action;
        operation = operation;
        wallet_name = wallet.name;
        source = wallet.address;
        offer_id = offer_id;
        fee_xlm = format_stroops (pos fee);
        network = wallet.network;
        transaction_timeout_seconds = client.timeout_seconds;
        details = shown;
        ledger_authorization = snapshot;
      };
      wallet = wallet;
      envelope = envelope;
    })
