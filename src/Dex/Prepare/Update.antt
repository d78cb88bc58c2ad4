-- ===== src/Dex/Prepare/Update.antt =====
-- A change and a cancellation of an offer (`prepare_offer_update`, `prepare_offer_cancel`).
use fresnica.Prelude.{false, some, [], ◌∷◌, Text, Outcome, ok, ◌>>=◌, ◌>>◌, ok_or}
use fresnica.Text.{codes}
use fresnica.Int.{ℤ, pos}
use fresnica.Stellar.{Stellar, Asset, Price, OperationBody}
use fresnica.Json.{Json}
use fresnica.Horizon.{LedgerParameters}
use fresnica.AssetId.{display, from_horizon}
use fresnica.Authorization.Load.{WalletRecord}
use fresnica.Payment.Prepare.{Client}
use fresnica.Dex.Liabilities.{OfferSide}
use fresnica.Dex.Offer.{
  OfferAction, OfferOperation, assets, operation_for_side, offer_operation, validate_offer_id,
  infer_side, horizon_price, ensure_offer_owner, offer_amount,
}
use fresnica.Dex.Capacity.{ensure_full_offer_authorization, ensure_offer_fee_capacity}
use fresnica.Dex.Preflight.{preflight_update}
use fresnica.Dex.Prepare.{
  Terms, PreparedOffer, OfferReviewDetails, parse_terms, parse_pair, trade_details, finish_offer,
}

module _ (X : Stellar) (J : Json) (client : Client X J) where
  open X use {Key, Contents}
  open J use {Value, get}

  -- The two assets of an offer that Horizon lists.
  unfoldable pub stored_assets : Value → Outcome (Asset Key × Asset Key)
  stored_assets offer = do
    selling ←
        ok_or (get offer (codes "selling")) (codes "Horizon returned malformed offer selling asset")
    selling' ← from_horizon X J selling
    buying ←
        ok_or (get offer (codes "buying")) (codes "Horizon returned malformed offer buying asset")
    buying' ← from_horizon X J buying
    ok (selling', buying')

  unfoldable pub check_update :
      WalletRecord
      → OfferSide
      → Asset Key
      → Asset Key
      → Terms
      → Value
      → Value
      → LedgerParameters
      → Outcome (Unit {0})
  check_update wallet side base counter terms offer account ledger = do
    let selling = (assets side base counter).0
    let buying = (assets side base counter).1
    ensure_full_offer_authorization X J account selling wallet.address
    ensure_full_offer_authorization X J account buying wallet.address
    old_amount ← offer_amount J offer
    old_price ← horizon_price J offer
    preflight_update X J account wallet.address side selling buying terms.amount terms.price
        old_amount old_price ledger.base_reserve_in_stroops (pos ledger.base_fee_in_stroops)

  -- The offers of Horizon by their ids.
  module _ (get_offer : ℤ → Outcome Value) where
    -- The offer, its side, and that it is the wallet's own.
    unfoldable pub own_side : WalletRecord → ℤ → Asset Key → Asset Key → Outcome (Value × OfferSide)
    own_side wallet offer_id base counter = do
      offer ← get_offer offer_id
      ensure_offer_owner J offer wallet
      stored ← stored_assets offer
      side ← infer_side X stored.0 stored.1 base counter
      ok (offer, side)

    unfoldable pub update_offer :
        WalletRecord → ℤ → Asset Key → Asset Key → Terms → Outcome (PreparedOffer X)
    update_offer wallet offer_id base counter terms = do
      found ← own_side wallet offer_id base counter
      account ← client.get_account wallet.address
      ledger ← client.get_ledger_parameters
      check_update wallet found.1 base counter terms found.0 account ledger
      finish_offer X J client wallet account ledger
          (offer_operation found.1 base counter terms.amount terms.price offer_id ∷ [])
          OfferAction.update (operation_for_side found.1) (some offer_id) ledger.base_fee_in_stroops
          (trade_details X found.1 base counter terms false)

    unfoldable pub prepare_offer_update :
        Outcome WalletRecord → ℤ → Text → Text → Text → Text → Outcome (PreparedOffer X)
    prepare_offer_update resolved offer_id base_text counter_text amount_text price_text = do
      validate_offer_id offer_id
      wallet ← resolved
      pair ← parse_pair X base_text counter_text
      terms ← parse_terms amount_text price_text
      update_offer wallet offer_id pair.0 pair.1 terms

    -- An offer is cancelled as it is stored: its operation sells nothing of its selling asset.
    abbrev pub cancel_operation : Asset Key → Asset Key → Price → ℤ → OperationBody Key Contents
    cancel_operation selling buying price offer_id = OperationBody.manage_sell_offer (record {
      selling = selling;
      buying = buying;
      amount = pos 0;
      price = price;
      offer_id = offer_id;
    })

    unfoldable pub cancel_offer : WalletRecord → ℤ → Outcome (PreparedOffer X)
    cancel_offer wallet offer_id = do
      offer ← get_offer offer_id
      ensure_offer_owner J offer wallet
      stored ← stored_assets offer
      price ← horizon_price J offer
      account ← client.get_account wallet.address
      ledger ← client.get_ledger_parameters
      ensure_offer_fee_capacity X J account ledger.base_reserve_in_stroops
          (pos ledger.base_fee_in_stroops)
      finish_offer X J client wallet account ledger
          (cancel_operation stored.0 stored.1 price offer_id ∷ []) OfferAction.cancel
          OfferOperation.manage_sell_offer (some offer_id) ledger.base_fee_in_stroops
          (ok (OfferReviewDetails.cancel (display X stored.0) (display X stored.1)))

    unfoldable pub prepare_offer_cancel : Outcome WalletRecord → ℤ → Outcome (PreparedOffer X)
    prepare_offer_cancel resolved offer_id = do
      validate_offer_id offer_id
      wallet ← resolved
      cancel_offer wallet offer_id
