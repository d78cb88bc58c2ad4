-- ===== src/Dex/Offer.antt =====
-- The market pair and the side of an offer, the operation that it becomes and what is read of an
-- offer from Horizon (reference/rust-client/src/dex.rs).
pub mod Sides
pub mod Owned
use fresnica.Prelude.{
  ℕ, Bool, true, false, not, ◌&&◌, Option, none, some, ◌++◌, Text, Outcome, ok, err, ◌>>=◌, ◌>>◌,
  fail_if, ok_or, and_then, or_message, ltb, leb, if◌then◌else◌,
}
use fresnica.Text.{codes, text_eq, is_empty, trim}
use fresnica.Int.{ℤ, pos, negsuc, ltb_ℤ}
use fresnica.Amount.{parse_stroops}
use fresnica.Stellar.{
  Stellar, Asset, native, credit_alphanum4, credit_alphanum12, Price, ManageOffer, OperationBody,
}
use fresnica.Json.{Json}
use fresnica.Horizon.{text, integer}
use fresnica.Authorization.Load.{WalletRecord}
use fresnica.Dex.Price.{int32_max}
use fresnica.Dex.Liabilities.{OfferSide}

pub data OfferAction : Type 0 where
  create update cancel : OfferAction

pub data OfferOperation : Type 0 where
  manage_buy_offer manage_sell_offer : OfferOperation

-- The selling and the buying asset of a side.
unfoldable pub assets : {K : Type 0} → OfferSide → Asset K → Asset K → Asset K × Asset K
assets OfferSide.buy base counter = (counter, base)
assets OfferSide.sell base counter = (base, counter)

unfoldable pub operation_for_side : OfferSide → OfferOperation
operation_for_side OfferSide.buy = OfferOperation.manage_buy_offer
operation_for_side OfferSide.sell = OfferOperation.manage_sell_offer

unfoldable pub offer_operation :
    {K C : Type 0} → OfferSide → Asset K → Asset K → ℤ → Price → ℤ → OperationBody K C
offer_operation OfferSide.buy base counter amount price offer_id =
    OperationBody.manage_buy_offer (record {
      selling = counter;
      buying = base;
      amount = amount;
      price = price;
      offer_id = offer_id;
    })
offer_operation OfferSide.sell base counter amount price offer_id =
    OperationBody.manage_sell_offer (record {
      selling = base;
      buying = counter;
      amount = amount;
      price = price;
      offer_id = offer_id;
    })

unfoldable pub validate_offer_id : ℤ → Outcome (Unit {0})
validate_offer_id offer_id =
    fail_if (not (ltb_ℤ (pos 0) offer_id)) (codes "offer id must be a positive integer")

module _ (X : Stellar) where
  open X use {Key, account_text}

  -- The derived equality of `AssetId`; two keys are equal when their addresses are.
  unfoldable pub asset_eq : Asset Key → Asset Key → Bool
  asset_eq native native = true
  asset_eq native (credit_alphanum4 raw issuer) = false
  asset_eq native (credit_alphanum12 raw issuer) = false
  asset_eq (credit_alphanum4 raw issuer) native = false
  asset_eq (credit_alphanum4 raw issuer) (credit_alphanum4 raw' issuer') =
      text_eq raw raw' && text_eq (account_text issuer) (account_text issuer')
  asset_eq (credit_alphanum4 raw issuer) (credit_alphanum12 raw' issuer') = false
  asset_eq (credit_alphanum12 raw issuer) native = false
  asset_eq (credit_alphanum12 raw issuer) (credit_alphanum4 raw' issuer') = false
  asset_eq (credit_alphanum12 raw issuer) (credit_alphanum12 raw' issuer') =
      text_eq raw raw' && text_eq (account_text issuer) (account_text issuer')

  unfoldable pub ensure_pair : Asset Key → Asset Key → Outcome (Unit {0})
  ensure_pair base counter =
      fail_if (asset_eq base counter) (codes "Offer assets must be different")

  abbrev side_kept : Text
  side_kept = codes "Offer update must keep the current market pair and BUY/SELL side"

  unfoldable pub infer_side : Asset Key → Asset Key → Asset Key → Asset Key → Outcome OfferSide
  infer_side selling buying base counter =
      if asset_eq selling base && asset_eq buying counter
      then ok OfferSide.sell
      else if asset_eq selling counter && asset_eq buying base
      then ok OfferSide.buy
      else err side_kept

-- `i32::try_from(value).ok().filter(|value| *value > 0)`
abbrev pub positive_i32 : ℤ → Option ℕ
positive_i32 (pos n) = if leb n int32_max then (if ltb 0 n then some n else none) else none
positive_i32 (negsuc n) = none

module _ (J : Json) where
  open J use {Value, get, as_object, object_get}

  unfoldable pub horizon_price : Value → Outcome Price
  horizon_price offer = do
    ratio ←
        ok_or (and_then (get offer (codes "price_r")) as_object)
          (codes "Horizon returned malformed offer price ratio")
    n ←
        ok_or (and_then (integer J (object_get ratio (codes "n"))) positive_i32)
          (codes "Horizon returned invalid offer price numerator")
    d ←
        ok_or (and_then (integer J (object_get ratio (codes "d"))) positive_i32)
          (codes "Horizon returned invalid offer price denominator")
    ok (record { n = n; d = d })

  abbrev not_owner : Text → Text → Text
  not_owner seller address =
      codes "Offer is owned by " ++ seller ++ codes ", not wallet " ++ address

  unfoldable pub ensure_offer_owner : Value → WalletRecord → Outcome (Unit {0})
  ensure_offer_owner offer wallet = do
    seller ← ok_or (text J offer (codes "seller")) (codes "Horizon returned malformed offer seller")
    fail_if (not (text_eq seller wallet.address)) (not_owner seller wallet.address)

  unfoldable pub offer_amount : Value → Outcome ℤ
  offer_amount offer = do
    value ← ok_or (text J offer (codes "amount")) (codes "Horizon returned malformed offer amount")
    ok_or (parse_stroops value false) (codes "Horizon returned malformed offer amount")

  -- The text of a string or of a number.
  unfoldable pub value_text : Option Value → Option Text
  value_text none = none
  value_text (some value) = elim (J.as_str value) [ some t ↦ some t | none ↦ J.number_text value ]
