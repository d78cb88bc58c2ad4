-- ===== src/Dex/Prepare/Created.antt =====
-- What a prepared new offer guarantees.
use fresnica.Prelude.{
  ℕ, ◌*◌, ◌<◌, ◌≡◌, refl, Bool, true, false, not, none, some, Text, Outcome, ok, ok_or, >>=-eq-ok,
  ok-injective, ok_or-eq-ok, fail_if, fail_if-ok, ap, sym, ◌∙◌, arith, subst,
}
use fresnica.Int.{pos, checked_mul_u32}
use fresnica.Stellar.{Stellar, Asset}
use fresnica.Json.{Json}
use fresnica.Horizon.{LedgerParameters}
use fresnica.AssetId.{parse, asset_issuer}
use fresnica.Authorization.Load.{WalletRecord}
use fresnica.Payment.Prepare.{Client}
use fresnica.Dex.Liabilities.{OfferSide}
use fresnica.Dex.Offer.{OfferAction, assets, operation_for_side, ensure_pair}
use fresnica.Dex.Capacity.{
  account_can_hold, ensure_full_offer_authorization, issuer_requires_authorization,
}
use fresnica.Dex.Preflight.{preflight_create}
use fresnica.Dex.Preflight.Backed.{IsBacked, preflight_create-IsBacked}
use fresnica.Dex.Prepare.{Terms, PreparedOffer, parse_pair, parse_terms, trade_details}
use fresnica.Dex.Prepare.Create.{
  check_new_trustline, check_authorization, count_of, create_operations, check_create, create_offer,
  prepare_offer_create,
}
use fresnica.Dex.Prepare.Parts.{
  HasTerms, parse_terms-HasTerms, parse_pair_parts, operations_of, create_operations_lem,
  IsEnvelope, finish_offer-IsEnvelope, IsTradable, ensure_full_offer_authorization-IsTradable,
}

not_refused : (b : Bool) → not b ≡ false → b ≡ true
not_refused true h = refl
not_refused false h = cc

product_u32 : (a b : ℕ) {c : ℕ} → checked_mul_u32 a b ≡ some c → c ≡ a * b
unfolding checked_mul_u32
product_u32 a b h = ground arith

module _ (X : Stellar) (J : Json) (client : Client X J) where
  open X use {Key}

  -- The account may take the buying asset: by a trustline that it has, or by a new one that the
  -- caller allows and whose issuer asks for no authorization.
  pub data MayTake (account : J.Value) (id : Text) (buying : Asset Key) (allowed : Bool)
      : Bool → Type 0 where
    with_trustline : IsTradable X J account id buying → MayTake account id buying allowed false
    with_new_trustline :
        allowed ≡ true
        → (issuer : Text) (issuer_account : J.Value) → asset_issuer X buying ≡ some issuer
        → client.get_account issuer ≡ ok issuer_account
        → issuer_requires_authorization X J issuer_account ≡ ok false
        → MayTake account id buying allowed true

  new_trustline :
      (account : J.Value) (id : Text) (buying : Asset Key) (allowed : Bool)
      → allowed ≡ true
      → check_new_trustline X J client buying ≡ ok tt
      → MayTake account id buying allowed true
  unfolding check_new_trustline
  new_trustline account id buying allowed permitted h =
      let (issuer, i, h₁) = >>=-eq-ok (ok_or (asset_issuer X buying) _) _ h in
      let (issuer_account, a, h₂) = >>=-eq-ok (client.get_account issuer) _ h₁ in
      let (required, r, h₃) = >>=-eq-ok (issuer_requires_authorization X J issuer_account) _ h₂ in
      with_new_trustline permitted issuer issuer_account (ok_or-eq-ok _ _ i) a
        (r ∙ ap ok (fail_if-ok _ _ h₃))

  check_authorization_lem :
      (account : J.Value) (id : Text) (selling buying : Asset Key) (adds allowed : Bool)
      → check_authorization X J client account id selling buying adds allowed ≡ ok tt
      → IsTradable X J account id selling × MayTake account id buying allowed adds
  unfolding check_authorization
  check_authorization_lem account id selling buying true allowed h =
      let (_, s, h₁) = >>=-eq-ok (ensure_full_offer_authorization X J account selling id) _ h in
      let (_, a, h₂) = >>=-eq-ok (fail_if (not allowed) _) _ h₁ in
      (
        ensure_full_offer_authorization-IsTradable X J account selling id s,
        new_trustline account id buying allowed (not_refused allowed (fail_if-ok _ _ a)) h₂,
      )
  check_authorization_lem account id selling buying false allowed h =
      let (_, s, h₁) = >>=-eq-ok (ensure_full_offer_authorization X J account selling id) _ h in
      (
        ensure_full_offer_authorization-IsTradable X J account selling id s,
        with_trustline (ensure_full_offer_authorization-IsTradable X J account buying id h₁),
      )

  module _ (ledger : LedgerParameters) (reserve : ℕ)
      (whole : ledger.base_reserve_in_stroops ≡ pos reserve)
      (paid : 0 < ledger.base_fee_in_stroops) where
    -- What the checks of a new offer establish about the account.
    pub IsChecked :
        WalletRecord → OfferSide → Asset Key → Asset Key → Terms → Bool → J.Value → Bool → Type 0
    IsChecked wallet side base counter terms allowed account adds =
        IsTradable X J account wallet.address (assets side base counter).0
        × MayTake account wallet.address (assets side base counter).1 allowed adds
        × IsBacked X J account wallet.address side (assets side base counter).0
            (assets side base counter).1 terms.amount terms.price reserve
            (ledger.base_fee_in_stroops * count_of adds) (count_of adds) adds

    fee_positive : (adds : Bool) → 0 < ledger.base_fee_in_stroops * count_of adds
    fee_positive true = omega (arith, paid)
    fee_positive false = omega (arith, paid)

    check_create-IsChecked :
        (wallet : WalletRecord) (side : OfferSide) (base counter : Asset Key) (terms : Terms)
        (allowed : Bool) (account : J.Value) (adds : Bool) {fee : ℕ}
        → check_create X J client wallet side base counter terms allowed account ledger adds
          ≡ ok fee
        → IsChecked wallet side base counter terms allowed account adds
    unfolding check_create IsChecked
    check_create-IsChecked wallet side base counter terms allowed account adds h =
        let selling = (assets side base counter).0 in
        let buying = (assets side base counter).1 in
        let (_, a, h₁) =
          >>=-eq-ok
            (check_authorization X J client account wallet.address selling buying adds allowed) _
            h in
        let (fee, f, h₂) =
          >>=-eq-ok (ok_or (checked_mul_u32 ledger.base_fee_in_stroops (count_of adds)) _) _ h₁ in
        let (_, p, h₃) =
          >>=-eq-ok
            (preflight_create X J account wallet.address side selling buying terms.amount
              terms.price ledger.base_reserve_in_stroops (pos fee) (pos (count_of adds)) adds)
            _ h₂ in
        let (sells, takes) =
          check_authorization_lem account wallet.address selling buying adds allowed a in
        let total : fee ≡ ledger.base_fee_in_stroops * count_of adds =
          product_u32 ledger.base_fee_in_stroops (count_of adds) (ok_or-eq-ok _ _ f) in
        let passed =
          subst
            (λ z.
              preflight_create X J account wallet.address side selling buying terms.amount
                terms.price z (pos fee) (pos (count_of adds)) adds
              ≡ ok tt)
            whole p in
        let priced =
          subst
            (λ z.
              preflight_create X J account wallet.address side selling buying terms.amount
                terms.price (pos reserve) (pos z) (pos (count_of adds)) adds
              ≡ ok tt)
            total passed in
        (
          sells,
          takes,
          preflight_create-IsBacked X J account wallet.address side selling buying terms.amount
              terms.price reserve (ledger.base_fee_in_stroops * count_of adds) (count_of adds) adds
              (fee_positive adds) priced,
        )

    -- All that a prepared new offer comes with.
    pub data IsCreated (resolved : Outcome WalletRecord) (side : OfferSide)
        (base_text counter_text amount_text price_text : Text) (allowed : Bool)
        (prepared : PreparedOffer X) : Type 0 where
      created :
          (wallet : WalletRecord) (base counter : Asset Key) (terms : Terms) (n : ℕ)
          (account : J.Value) (adds : Bool)
          → resolved ≡ ok wallet
          → parse X base_text ≡ ok base
          → parse X counter_text ≡ ok counter
          → ensure_pair X base counter ≡ ok tt
          → HasTerms amount_text price_text terms n
          → client.get_account wallet.address ≡ ok account
          → adds ≡ not (account_can_hold X J account (assets side base counter).1 wallet.address)
          → IsChecked wallet side base counter terms allowed account adds
          → IsEnvelope X J client wallet account ledger
              (operations_of X side base counter terms.amount terms.price adds)
              prepared
          → IsCreated resolved side base_text counter_text amount_text price_text allowed prepared

    create_offer_lem :
        (wallet : WalletRecord) (side : OfferSide) (base counter : Asset Key) (terms : Terms)
        (allowed : Bool) {prepared : PreparedOffer X}
        → client.get_ledger_parameters ≡ ok ledger
        → create_offer X J client wallet side base counter terms allowed ≡ ok prepared
        → (account : J.Value) × (client.get_account wallet.address ≡ ok account)
          × (adds : Bool) × (adds
              ≡ not (account_can_hold X J account (assets side base counter).1 wallet.address))
          × IsChecked wallet side base counter terms allowed account adds
          × IsEnvelope X J client wallet account ledger
              (operations_of X side base counter terms.amount terms.price adds)
              prepared
    unfolding create_offer
    create_offer_lem wallet side base counter terms allowed {prepared} read h =
        let (account, a, h₁) = >>=-eq-ok (client.get_account wallet.address) _ h in
        let (seen, l, h₂) = >>=-eq-ok client.get_ledger_parameters _ h₁ in
        let same : seen ≡ ledger = ok-injective (sym l ∙ read) in
        let adds = not (account_can_hold X J account (assets side base counter).1 wallet.address) in
        let (fee, f, h₃) =
          >>=-eq-ok
            (check_create X J client wallet side base counter terms allowed account seen adds) _
            h₂ in
        let (operations, o, h₄) =
          >>=-eq-ok (create_operations X J client side base counter terms adds) _ h₃ in
        let finished =
          finish_offer-IsEnvelope X J client wallet account seen operations OfferAction.create
            (operation_for_side side) none fee (trade_details X side base counter terms adds) h₄ in
        let exact = create_operations_lem X J client side base counter terms adds o in
        let built =
          subst (λ ops. IsEnvelope X J client wallet account seen ops prepared) exact finished in
        (
          account,
          a,
          adds,
          refl,
          check_create-IsChecked wallet side base counter terms allowed account adds (
              subst
                (λ p.
                  check_create X J client wallet side base counter terms allowed account p adds
                  ≡ ok fee)
                same f),
          subst
              (λ p.
                IsEnvelope X J client wallet account p
                  (operations_of X side base counter terms.amount terms.price adds) prepared)
              same built,
        )

    -- If a new offer is prepared, with a base fee above zero and a base reserve that is not
    -- negative, then its two assets differ, its texts spell a positive amount and a price of two
    -- positive `i32`, the account may trade both assets or the caller allows a new trustline that
    -- needs no authorization, the account can sell, pay and take what the offer asks, and the
    -- envelope holds the operations of that offer.
    pub prepare_offer_create-IsCreated :
        (resolved : Outcome WalletRecord) (side : OfferSide)
        (base_text counter_text amount_text price_text : Text) (allowed : Bool)
        {prepared : PreparedOffer X}
        → client.get_ledger_parameters ≡ ok ledger
        → prepare_offer_create X J client resolved side base_text counter_text amount_text
            price_text allowed
          ≡ ok prepared
        → IsCreated resolved side base_text counter_text amount_text price_text allowed prepared
    unfolding prepare_offer_create
    prepare_offer_create-IsCreated resolved side base_text counter_text amount_text price_text
          allowed read h =
        let (wallet, w, h₁) = >>=-eq-ok resolved _ h in
        let (pair, p, h₂) = >>=-eq-ok (parse_pair X base_text counter_text) _ h₁ in
        let (terms, t, h₃) = >>=-eq-ok (parse_terms amount_text price_text) _ h₂ in
        let (based, countered, apart) = parse_pair_parts X base_text counter_text p in
        let (n, spelled) = parse_terms-HasTerms amount_text price_text t in
        let (account, a, adds, e, checks, built) =
          create_offer_lem wallet side (pair.0) (pair.1) terms allowed read h₃ in
        created wallet (pair.0) (pair.1) terms n account adds w based countered apart spelled a e
          checks built
