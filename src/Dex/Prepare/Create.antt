-- ===== src/Dex/Prepare/Create.antt =====
-- A new offer (`prepare_offer_create`).
use fresnica.Prelude.{
  ℕ, Bool, not, none, List, [], ◌∷◌, ◌++◌, Text, Outcome, ok, ◌>>=◌, ◌>>◌, fail_if, ok_or,
  if◌then◌else◌,
}
use fresnica.Text.{codes}
use fresnica.Int.{pos, checked_mul_u32}
use fresnica.Stellar.{Stellar, Asset, OperationBody}
use fresnica.Json.{Json}
use fresnica.Horizon.{LedgerParameters}
use fresnica.AssetId.{display, asset_issuer, to_change_trust_xdr}
use fresnica.Authorization.Load.{WalletRecord}
use fresnica.Payment.Prepare.{Client}
use fresnica.Dex.Liabilities.{OfferSide}
use fresnica.Dex.Offer.{OfferAction, assets, operation_for_side, offer_operation}
use fresnica.Dex.Capacity.{
  account_can_hold, ensure_full_offer_authorization, issuer_requires_authorization,
}
use fresnica.Dex.Preflight.{policy_limit, preflight_create}
use fresnica.Dex.Prepare.{
  Terms, PreparedOffer, parse_terms, parse_pair, trade_details, finish_offer,
}

-- The number of operations, which is also that of the subentries they add.
abbrev pub count_of : Bool → ℕ
count_of adds_trustline = if adds_trustline then 2 else 1

module _ (X : Stellar) (J : Json) (client : Client X J) where
  open X use {Key, Contents}
  open J use {Value}

  abbrev no_receiving_trustline : Asset Key → Text
  no_receiving_trustline buying =
      codes "Receiving trustline is missing for "
      ++ display X buying
      ++ codes ". Add it first or explicitly allow adding the trustline."

  abbrev needs_issuer : Asset Key → Text
  needs_issuer buying =
      codes "Receiving trustline for "
      ++ display X buying
      ++ codes " requires issuer authorization before an offer can be created"

  -- A trustline that the offer adds must not wait for its issuer.
  unfoldable pub check_new_trustline : Asset Key → Outcome (Unit {0})
  check_new_trustline buying = do
    issuer ← ok_or (asset_issuer X buying) (codes "issued receiving asset is missing an issuer")
    issuer_account ← client.get_account issuer
    required ← issuer_requires_authorization X J issuer_account
    fail_if required (needs_issuer buying)

  unfoldable pub check_authorization :
      Value → Text → Asset Key → Asset Key → Bool → Bool → Outcome (Unit {0})
  check_authorization account address selling buying adds_trustline allow_trustline = do
    ensure_full_offer_authorization X J account selling address
    if adds_trustline
        then (fail_if (not allow_trustline) (no_receiving_trustline buying)
            >> check_new_trustline buying)
        else ensure_full_offer_authorization X J account buying address

  -- The operations: the trustline where it is missing, then the offer.
  unfoldable pub create_operations :
      OfferSide → Asset Key → Asset Key → Terms → Bool → Outcome (List (OperationBody Key Contents))
  create_operations side base counter terms adds_trustline =
      let offer = offer_operation side base counter terms.amount terms.price (pos 0) in
      if adds_trustline
      then (to_change_trust_xdr X (assets side base counter).1 >>= λ line.
          policy_limit >>= λ limit. ok (OperationBody.change_trust line limit ∷ offer ∷ []))
      else ok (offer ∷ [])

  unfoldable pub check_create :
      WalletRecord
      → OfferSide
      → Asset Key
      → Asset Key
      → Terms
      → Bool
      → Value
      → LedgerParameters
      → Bool
      → Outcome ℕ
  check_create wallet side base counter terms allow_trustline account ledger adds_trustline = do
    let selling = (assets side base counter).0
    let buying = (assets side base counter).1
    check_authorization account wallet.address selling buying adds_trustline allow_trustline
    total_fee ←
        ok_or (checked_mul_u32 ledger.base_fee_in_stroops (count_of adds_trustline))
          (codes "transaction fee overflow")
    preflight_create X J account wallet.address side selling buying terms.amount terms.price
        ledger.base_reserve_in_stroops (pos total_fee) (pos (count_of adds_trustline))
        adds_trustline
    ok total_fee

  unfoldable pub create_offer :
      WalletRecord → OfferSide → Asset Key → Asset Key → Terms → Bool → Outcome (PreparedOffer X)
  create_offer wallet side base counter terms allow_trustline = do
    account ← client.get_account wallet.address
    ledger ← client.get_ledger_parameters
    let adds_trustline =
        not (account_can_hold X J account (assets side base counter).1 wallet.address)
    total_fee ←
        check_create wallet side base counter terms allow_trustline account ledger adds_trustline
    operations ← create_operations side base counter terms adds_trustline
    finish_offer X J client wallet account ledger operations OfferAction.create
        (operation_for_side side) none total_fee
        (trade_details X side base counter terms adds_trustline)

  unfoldable pub prepare_offer_create :
      Outcome WalletRecord
      → OfferSide
      → Text
      → Text
      → Text
      → Text
      → Bool
      → Outcome (PreparedOffer X)
  prepare_offer_create resolved side base_text counter_text amount_text price_text allow_trustline =
      do
        wallet ← resolved
        pair ← parse_pair X base_text counter_text
        terms ← parse_terms amount_text price_text
        create_offer wallet side pair.0 pair.1 terms allow_trustline
