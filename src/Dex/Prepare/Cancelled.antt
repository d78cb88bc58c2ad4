-- ===== src/Dex/Prepare/Cancelled.antt =====
-- What a prepared cancellation of an offer guarantees.
use fresnica.Prelude.{
  ℕ, ◌+◌, ◌<◌, ◌≡◌, true, some, [], ◌∷◌, Outcome, ok, >>=-eq-ok, ok-injective, sym, ◌∙◌, subst,
}
use fresnica.Int.{ℤ, pos, ltb_ℤ}
use fresnica.Stellar.{Stellar, Asset, Price, native, OperationBody}
use fresnica.Json.{Json}
use fresnica.Horizon.{LedgerParameters, minimum_balance_stroops}
use fresnica.AssetId.{display}
use fresnica.Authorization.Load.{WalletRecord}
use fresnica.Payment.Prepare.{Client}
use fresnica.Dex.Offer.{
  OfferAction, OfferOperation, validate_offer_id, horizon_price, ensure_offer_owner,
}
use fresnica.Dex.Offer.Owned.{IsOwned, ensure_offer_owner-IsOwned, positive_id}
use fresnica.Dex.Capacity.{ensure_offer_fee_capacity}
use fresnica.Dex.Capacity.Free.{Covers}
use fresnica.Dex.Preflight.Released.{fee_covered}
use fresnica.Dex.Prepare.{PreparedOffer, OfferReviewDetails}
use fresnica.Dex.Prepare.Update.{
  stored_assets, cancel_operation, cancel_offer, prepare_offer_cancel,
}
use fresnica.Dex.Prepare.Parts.{IsEnvelope, finish_offer-IsEnvelope}

module _ (X : Stellar) (J : Json) (client : Client X J) (get_offer : ℤ → Outcome J.Value) where
  open X use {Key}

  module _ (ledger : LedgerParameters) (reserve : ℕ)
      (whole : ledger.base_reserve_in_stroops ≡ pos reserve)
      (paid : 0 < ledger.base_fee_in_stroops) where
    -- All that a prepared cancellation comes with.
    pub data IsCancelled (resolved : Outcome WalletRecord) (offer_id : ℤ)
        (prepared : PreparedOffer X) : Type 0 where
      cancelled :
          (wallet : WalletRecord) (offer account : J.Value) (stored : Asset Key × Asset Key)
          (price : Price) (least : ℕ)
          → ltb_ℤ (pos 0) offer_id ≡ true
          → resolved ≡ ok wallet
          → get_offer offer_id ≡ ok offer
          → IsOwned J offer wallet
          → stored_assets X J client offer ≡ ok stored
          → horizon_price J offer ≡ ok price
          → client.get_account wallet.address ≡ ok account
          → minimum_balance_stroops J account (pos reserve) ≡ ok (pos least)
          → Covers X J account native (pos (least + ledger.base_fee_in_stroops))
          → IsEnvelope X J client wallet account ledger
              (OperationBody.manage_sell_offer (record {
                selling = stored.0;
                buying = stored.1;
                amount = pos 0;
                price = price;
                offer_id = offer_id;
              })
                ∷ [])
              prepared
          → IsCancelled resolved offer_id prepared

    cancel_offer_lem :
        (resolved : Outcome WalletRecord) (wallet : WalletRecord) (offer_id : ℤ)
        {prepared : PreparedOffer X}
        → client.get_ledger_parameters ≡ ok ledger
        → validate_offer_id offer_id ≡ ok tt
        → resolved ≡ ok wallet
        → cancel_offer X J client get_offer wallet offer_id ≡ ok prepared
        → IsCancelled resolved offer_id prepared
    unfolding cancel_offer
    cancel_offer_lem resolved wallet offer_id {prepared} read i w h =
        let (offer, o, h₁) = >>=-eq-ok (get_offer offer_id) _ h in
        let (_, own, h₂) = >>=-eq-ok (ensure_offer_owner J offer wallet) _ h₁ in
        let (stored, s, h₃) = >>=-eq-ok (stored_assets X J client offer) _ h₂ in
        let (price, r, h₄) = >>=-eq-ok (horizon_price J offer) _ h₃ in
        let (account, a, h₅) = >>=-eq-ok (client.get_account wallet.address) _ h₄ in
        let (seen, l, h₆) = >>=-eq-ok client.get_ledger_parameters _ h₅ in
        let same : seen ≡ ledger = ok-injective (sym l ∙ read) in
        let (_, c, h₇) =
          >>=-eq-ok
            (ensure_offer_fee_capacity X J account seen.base_reserve_in_stroops
              (pos seen.base_fee_in_stroops))
            _ h₆ in
        let operation =
          cancel_operation X J client get_offer (stored.0) (stored.1) price offer_id in
        let built =
          finish_offer-IsEnvelope X J client wallet account seen (operation ∷ []) OfferAction.cancel
            OfferOperation.manage_sell_offer (some offer_id) seen.base_fee_in_stroops
            (ok (OfferReviewDetails.cancel (display X (stored.0)) (display X (stored.1)))) h₇ in
        let (least, minimum, pays) =
          fee_covered X J account reserve ledger.base_fee_in_stroops paid (
            subst
              (λ z.
                ensure_offer_fee_capacity X J account z (pos ledger.base_fee_in_stroops) ≡ ok tt)
              whole
              (subst
                (λ p.
                  ensure_offer_fee_capacity X J account p.base_reserve_in_stroops
                    (pos p.base_fee_in_stroops)
                  ≡ ok tt)
                same c)) in
        cancelled wallet offer account stored price least (positive_id offer_id i) w o
          (ensure_offer_owner-IsOwned J offer wallet own) s r a minimum pays
          (subst (λ p. IsEnvelope X J client wallet account p (operation ∷ []) prepared) same built)

    -- If a cancellation is prepared, with a base fee above zero and a base reserve that is not
    -- negative, then the id is positive, the wallet owns the stored offer, its native balance covers
    -- least balance and fee, and the envelope holds one sell operation of amount zero with the
    -- stored assets, price and id.
    pub prepare_offer_cancel-IsCancelled :
        (resolved : Outcome WalletRecord) (offer_id : ℤ) {prepared : PreparedOffer X}
        → client.get_ledger_parameters ≡ ok ledger
        → prepare_offer_cancel X J client get_offer resolved offer_id ≡ ok prepared
        → IsCancelled resolved offer_id prepared
    unfolding prepare_offer_cancel
    prepare_offer_cancel-IsCancelled resolved offer_id read h =
        let (_, i, h₁) = >>=-eq-ok (validate_offer_id offer_id) _ h in
        let (wallet, w, h₂) = >>=-eq-ok resolved _ h₁ in
        cancel_offer_lem resolved wallet offer_id read i w h₂
