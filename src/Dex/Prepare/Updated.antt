-- ===== src/Dex/Prepare/Updated.antt =====
-- What a prepared change of an offer guarantees.
use fresnica.Prelude.{
  ℕ, ◌<◌, ◌≡◌, true, false, some, [], ◌∷◌, Text, Outcome, ok, >>=-eq-ok, ok-injective, ap, ap₂, sym,
  ◌∙◌, subst,
}
use fresnica.Int.{ℤ, pos, ltb_ℤ}
use fresnica.Stellar.{Stellar, Asset, Price}
use fresnica.Json.{Json}
use fresnica.Horizon.{LedgerParameters}
use fresnica.AssetId.{parse}
use fresnica.Authorization.Load.{WalletRecord}
use fresnica.Payment.Prepare.{Client}
use fresnica.Dex.Liabilities.{OfferSide}
use fresnica.Dex.Offer.{
  OfferAction, assets, operation_for_side, offer_operation, ensure_pair, infer_side,
  validate_offer_id, horizon_price, ensure_offer_owner, offer_amount,
}
use fresnica.Dex.Offer.Owned.{IsOwned, ensure_offer_owner-IsOwned, positive_id}
use fresnica.Dex.Offer.Sides.{infer_side-assets}
use fresnica.Dex.Capacity.{ensure_full_offer_authorization}
use fresnica.Dex.Preflight.{preflight_update}
use fresnica.Dex.Preflight.Released.{IsRebacked, preflight_update-IsRebacked}
use fresnica.Dex.Prepare.{Terms, PreparedOffer, parse_pair, parse_terms, trade_details}
use fresnica.Dex.Prepare.Update.{
  stored_assets, check_update, own_side, update_offer, prepare_offer_update,
}
use fresnica.Dex.Prepare.Parts.{
  HasTerms, parse_terms-HasTerms, parse_pair_parts, IsEnvelope, finish_offer-IsEnvelope, IsTradable,
  ensure_full_offer_authorization-IsTradable,
}

module _ (X : Stellar) (J : Json) (client : Client X J) (get_offer : ℤ → Outcome J.Value) where
  open X use {Key}

  -- The stored offer under the id, which the wallet owns and whose assets are the pair by its side.
  pub IsOwnSide : WalletRecord → ℤ → Asset Key → Asset Key → J.Value → OfferSide → Type 0
  IsOwnSide wallet offer_id base counter offer side =
      (get_offer offer_id ≡ ok offer)
      × IsOwned J offer wallet
      × (stored_assets X J client offer ≡ ok (assets side base counter))

  pair_of : Asset Key → Asset Key → Asset Key × Asset Key
  pair_of selling buying = (selling, buying)

  same_pair :
      (stored pair : Asset Key × Asset Key) → stored.0 ≡ pair.0 → stored.1 ≡ pair.1 → stored ≡ pair
  unfolding pair_of
  same_pair stored pair h k = ap₂ pair_of h k

  own_side-IsOwnSide :
      (wallet : WalletRecord) (offer_id : ℤ) (base counter : Asset Key)
      {found : J.Value × OfferSide}
      → ensure_pair X base counter ≡ ok tt
      → own_side X J client get_offer wallet offer_id base counter ≡ ok found
      → IsOwnSide wallet offer_id base counter (found.0) (found.1)
  unfolding own_side IsOwnSide
  own_side-IsOwnSide wallet offer_id base counter apart h =
      let (offer, o, h₁) = >>=-eq-ok (get_offer offer_id) _ h in
      let (_, w, h₂) = >>=-eq-ok (ensure_offer_owner J offer wallet) _ h₁ in
      let (stored, s, h₃) = >>=-eq-ok (stored_assets X J client offer) _ h₂ in
      let (side, i, h₄) = >>=-eq-ok (infer_side X stored.0 stored.1 base counter) _ h₃ in
      let (sold, bought) = (infer_side-assets X stored.0 stored.1 base counter side apart).0 i in
      subst
        (λ found.
          (get_offer offer_id ≡ ok (found.0))
          × IsOwned J (found.0) wallet
          × (stored_assets X J client (found.0) ≡ ok (assets (found.1) base counter)))
        (ok-injective h₄)
        (
          o,
          ensure_offer_owner-IsOwned J offer wallet w,
          s ∙ ap ok (same_pair stored (assets side base counter) sold bought),
        )

  module _ (ledger : LedgerParameters) (reserve : ℕ)
      (whole : ledger.base_reserve_in_stroops ≡ pos reserve)
      (paid : 0 < ledger.base_fee_in_stroops) where
    -- What the checks of a changed offer establish about the account.
    pub IsUpdatable :
        WalletRecord → OfferSide → Asset Key → Asset Key → Terms → J.Value → J.Value → Type 0
    IsUpdatable wallet side base counter terms offer account =
        IsTradable X J account wallet.address (assets side base counter).0
        × IsTradable X J account wallet.address (assets side base counter).1
        × (old_amount : ℤ) × (old_price : Price) × (offer_amount J offer ≡ ok old_amount)
        × (horizon_price J offer ≡ ok old_price)
        × IsRebacked X J account wallet.address side (assets side base counter).0
            (assets side base counter).1 terms.amount terms.price old_amount old_price reserve
            ledger.base_fee_in_stroops

    check_update-IsUpdatable :
        (wallet : WalletRecord) (side : OfferSide) (base counter : Asset Key) (terms : Terms)
        (offer account : J.Value)
        → check_update X J client wallet side base counter terms offer account ledger ≡ ok tt
        → IsUpdatable wallet side base counter terms offer account
    unfolding check_update IsUpdatable
    check_update-IsUpdatable wallet side base counter terms offer account h =
        let selling = (assets side base counter).0 in
        let buying = (assets side base counter).1 in
        let (_, s, h₁) =
          >>=-eq-ok (ensure_full_offer_authorization X J account selling wallet.address) _ h in
        let (_, b, h₂) =
          >>=-eq-ok (ensure_full_offer_authorization X J account buying wallet.address) _ h₁ in
        let (old_amount, a, h₃) = >>=-eq-ok (offer_amount J offer) _ h₂ in
        let (old_price, r, h₄) = >>=-eq-ok (horizon_price J offer) _ h₃ in
        (
          ensure_full_offer_authorization-IsTradable X J account selling wallet.address s,
          ensure_full_offer_authorization-IsTradable X J account buying wallet.address b,
          old_amount,
          old_price,
          a,
          r,
          preflight_update-IsRebacked X J account wallet.address side selling buying terms.amount
              terms.price old_amount old_price reserve ledger.base_fee_in_stroops paid
              (subst
                (λ z.
                  preflight_update X J account wallet.address side selling buying terms.amount
                    terms.price old_amount old_price z (pos ledger.base_fee_in_stroops)
                  ≡ ok tt)
                whole h₄),
        )

    -- All that a prepared change comes with.
    pub data IsUpdated (resolved : Outcome WalletRecord) (offer_id : ℤ)
        (base_text counter_text amount_text price_text : Text) (prepared : PreparedOffer X)
        : Type 0 where
      updated :
          (wallet : WalletRecord) (base counter : Asset Key) (terms : Terms) (n : ℕ)
          (offer account : J.Value) (side : OfferSide)
          → ltb_ℤ (pos 0) offer_id ≡ true
          → resolved ≡ ok wallet
          → parse X base_text ≡ ok base
          → parse X counter_text ≡ ok counter
          → ensure_pair X base counter ≡ ok tt
          → HasTerms amount_text price_text terms n
          → IsOwnSide wallet offer_id base counter offer side
          → client.get_account wallet.address ≡ ok account
          → IsUpdatable wallet side base counter terms offer account
          → IsEnvelope X J client wallet account ledger
              (offer_operation side base counter terms.amount terms.price offer_id ∷ [])
              prepared
          → IsUpdated resolved offer_id base_text counter_text amount_text price_text prepared

    update_offer_lem :
        (wallet : WalletRecord) (offer_id : ℤ) (base counter : Asset Key) (terms : Terms)
        {prepared : PreparedOffer X}
        → client.get_ledger_parameters ≡ ok ledger
        → ensure_pair X base counter ≡ ok tt
        → update_offer X J client get_offer wallet offer_id base counter terms ≡ ok prepared
        → (offer : J.Value) × (account : J.Value) × (side : OfferSide) × IsOwnSide wallet offer_id
            base counter offer side
          × (client.get_account wallet.address ≡ ok account)
          × IsUpdatable wallet side base counter terms offer account
          × IsEnvelope X J client wallet account ledger
              (offer_operation side base counter terms.amount terms.price offer_id ∷ [])
              prepared
    unfolding update_offer
    update_offer_lem wallet offer_id base counter terms {prepared} read apart h =
        let (found, f, h₁) =
          >>=-eq-ok (own_side X J client get_offer wallet offer_id base counter) _ h in
        let (account, a, h₂) = >>=-eq-ok (client.get_account wallet.address) _ h₁ in
        let (seen, l, h₃) = >>=-eq-ok client.get_ledger_parameters _ h₂ in
        let same : seen ≡ ledger = ok-injective (sym l ∙ read) in
        let (_, c, h₄) =
          >>=-eq-ok (check_update X J client wallet found.1 base counter terms found.0 account seen)
            _ h₃ in
        let operation = offer_operation found.1 base counter terms.amount terms.price offer_id in
        let built =
          finish_offer-IsEnvelope X J client wallet account seen (operation ∷ []) OfferAction.update
            (operation_for_side found.1) (some offer_id) seen.base_fee_in_stroops
            (trade_details X found.1 base counter terms false) h₄ in
        (
          found.0,
          account,
          found.1,
          own_side-IsOwnSide wallet offer_id base counter apart f,
          a,
          check_update-IsUpdatable wallet found.1 base counter terms found.0 account (
              subst
                (λ p.
                  check_update X J client wallet found.1 base counter terms found.0 account p
                  ≡ ok tt)
                same c),
          subst (λ p. IsEnvelope X J client wallet account p (operation ∷ []) prepared) same built,
        )

    -- If a change of an offer is prepared, with a base fee above zero and a base reserve that is not
    -- negative, then the id is positive, the wallet owns the stored offer, which trades the same two
    -- assets on the same side, the texts spell the new terms, the account may trade both assets and
    -- can back the new terms with what the stored offer releases, and the envelope holds the one
    -- operation of that side under the same id.
    pub prepare_offer_update-IsUpdated :
        (resolved : Outcome WalletRecord) (offer_id : ℤ)
        (base_text counter_text amount_text price_text : Text) {prepared : PreparedOffer X}
        → client.get_ledger_parameters ≡ ok ledger
        → prepare_offer_update X J client get_offer resolved offer_id base_text counter_text
            amount_text price_text
          ≡ ok prepared
        → IsUpdated resolved offer_id base_text counter_text amount_text price_text prepared
    unfolding prepare_offer_update
    prepare_offer_update-IsUpdated resolved offer_id base_text counter_text amount_text price_text
          read h =
        let (_, i, h₁) = >>=-eq-ok (validate_offer_id offer_id) _ h in
        let (wallet, w, h₂) = >>=-eq-ok resolved _ h₁ in
        let (pair, p, h₃) = >>=-eq-ok (parse_pair X base_text counter_text) _ h₂ in
        let (terms, t, h₄) = >>=-eq-ok (parse_terms amount_text price_text) _ h₃ in
        let (based, countered, apart) = parse_pair_parts X base_text counter_text p in
        let (n, spelled) = parse_terms-HasTerms amount_text price_text t in
        let (offer, account, side, own, a, checks, built) =
          update_offer_lem wallet offer_id (pair.0) (pair.1) terms read apart h₄ in
        updated wallet (pair.0) (pair.1) terms n offer account side (positive_id offer_id i) w based
          countered apart spelled own a checks built
