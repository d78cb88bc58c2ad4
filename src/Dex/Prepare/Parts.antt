-- ===== src/Dex/Prepare/Parts.antt =====
-- What the parts of an offer's preparation establish: its assets, its terms, the authorization of
-- its trustlines, its operations and its envelope.
use fresnica.Prelude.{
  ℕ, ◌+◌, ◌*◌, ◌≤◌, ◌<◌, ◌≡◌, refl, Bool, true, false, not, ◌||◌, Option, none, some, List, [], ◌∷◌,
  length, find, Text, Outcome, ok, ok_or, >>=-eq-ok, ok-injective, ok_or-eq-ok, fail_if-ok,
  and_then, ap, sym, ◌∙◌, arith, Option-cases, Bool-cases, inl, inr, ◌⊎◌, subst,
}
use fresnica.Text.{codes, trim, split, byte_length, is_ascii_digit}
use fresnica.Int.{ℤ, pos, ◌+ℤ◌, i64_max, checked_mul, checked_add}
use fresnica.Amount.{parse_stroops, parse_parts, parse_amount, fraction_units, scale}
use fresnica.Decimal.{parse_i64}
use fresnica.Amount.Meaning.{IsAmount}
use fresnica.Amount.Parse.{parse_stroops_iff}
use fresnica.Stellar.{
  Stellar, Asset, native, credit_alphanum4, credit_alphanum12, Memo, OperationBody, Price,
  TransactionEnvelope,
}
use fresnica.Json.{Json}
use fresnica.Horizon.{LedgerParameters, array, account_sequence}
use fresnica.AssetId.{is_native, issuer_is, matches_balance, parse, to_change_trust_xdr}
use fresnica.Authorization.Load.{WalletRecord, prepared_classic_authorization_snapshot}
use fresnica.Transaction.Envelope.{
  optional_text_memo, build_operation_envelope_with_timeout,
  build_operation_envelope_with_memo_and_timeout, validate_classic_transaction_timeout_seconds,
}
use fresnica.Transaction.Envelope.Built.{built_transaction, build_exact}
use fresnica.Payment.Prepare.{Client}
use fresnica.Dex.Price.{stellar_price}
use fresnica.Dex.Price.Exact.{IsInt32Price, stellar_price-IsInt32Price}
use fresnica.Dex.Liabilities.{OfferSide}
use fresnica.Dex.Offer.{OfferAction, OfferOperation, assets, offer_operation, ensure_pair}
use fresnica.Dex.Capacity.{ensure_full_offer_authorization}
use fresnica.Dex.Preflight.{policy_limit}
use fresnica.Dex.Prepare.{
  Terms, PreparedOffer, OfferReviewDetails, parse_offer_value, offer_price, parse_terms, parse_pair,
  finish_offer,
}
use fresnica.Dex.Prepare.Create.{create_operations}

-- A text is read as a positive number of units.
abbrev pub Reads : Text → ℤ → ℕ → Type 0
Reads t z n = (z ≡ pos n) × IsAmount (trim t) n × (0 < n) × (n ≤ i64_max)

offer_value_lem :
    (t label : Text) {z : ℤ} → parse_offer_value t label ≡ ok z → (n : ℕ) × Reads t z n
unfolding parse_offer_value
offer_value_lem t label {z} h =
    let (n, exact, spelled, fits, positive) = (parse_stroops_iff t true z).0 (ok_or-eq-ok _ _ h) in
    (n, (exact, spelled, positive, fits))

-- The terms that two texts spell: positive amounts, and a price of two positive `i32`.
abbrev pub HasTerms : Text → Text → Terms → ℕ → Type 0
HasTerms amount_text price_text terms n =
    Reads amount_text terms.amount n
    × (p : ℕ) × Reads price_text terms.price_stroops p
    × (stellar_price p ≡ some (ok terms.price))
    × IsInt32Price terms.price

offer_price_lem :
    (z : ℤ) (p : ℕ) {price : Price}
    → z ≡ pos p
    → 0 < p
    → p ≤ i64_max
    → offer_price z ≡ ok price
    → (stellar_price p ≡ some (ok price)) × IsInt32Price price
offer_price_lem z p {price} exact positive fits h =
    let (r, runs, range) = stellar_price-IsInt32Price p positive fits in
    let same : r ≡ price = ok-injective (rw (exact, runs, offer_price) at h) in
    (runs ∙ ap (λ q. some (ok q)) same, subst IsInt32Price same range)

pub parse_terms-HasTerms :
    (amount_text price_text : Text) {terms : Terms}
    → parse_terms amount_text price_text ≡ ok terms
    → (n : ℕ) × HasTerms amount_text price_text terms n
unfolding parse_terms
parse_terms-HasTerms amount_text price_text h =
    let (amount, a, h₁) = >>=-eq-ok (parse_offer_value amount_text (codes "amount")) _ h in
    let (stroops, s, h₂) = >>=-eq-ok (parse_offer_value price_text (codes "price")) _ h₁ in
    let (price, r, h₃) = >>=-eq-ok (offer_price stroops) _ h₂ in
    let (n, amount_reads) = offer_value_lem amount_text (codes "amount") a in
    let (p, (exact, spelled, positive, fits)) = offer_value_lem price_text (codes "price") s in
    let priced = offer_price_lem stroops p exact positive fits r in
    (
      n,
      subst (λ t. HasTerms amount_text price_text t n) (ok-injective h₃)
          (amount_reads, p, (exact, spelled, positive, fits), priced.0, priced.1),
    )

-- The limit of a new trustline, `708269837873.6765`.
abbrev pub policy_stroops : ℕ
policy_stroops = 7082698378736765000

policy_limit_lem : policy_limit ≡ ok (pos policy_stroops)
unfolding policy_limit parse_stroops trim codes parse_parts split parse_amount is_ascii_digit
    parse_i64 fraction_units byte_length scale checked_mul checked_add
policy_limit_lem = refl

module _ (X : Stellar) where
  open X use {Key, Contents}

  pub parse_pair_parts :
      (base_text counter_text : Text) {pair : Asset Key × Asset Key}
      → parse_pair X base_text counter_text ≡ ok pair
      → (parse X base_text ≡ ok (pair.0))
        × (parse X counter_text ≡ ok (pair.1))
        × (ensure_pair X (pair.0) (pair.1) ≡ ok tt)
  unfolding parse_pair
  parse_pair_parts base_text counter_text h =
      let (base, b, h₁) = >>=-eq-ok (parse X base_text) _ h in
      let (counter, c, h₂) = >>=-eq-ok (parse X counter_text) _ h₁ in
      let (_, apart, h₃) = >>=-eq-ok (ensure_pair X base counter) _ h₂ in
      subst
        (λ pair.
          (parse X base_text ≡ ok (pair.0))
          × (parse X counter_text ≡ ok (pair.1))
          × (ensure_pair X (pair.0) (pair.1) ≡ ok tt))
        (ok-injective h₃) (b, c, apart)

  -- The operations of a new offer: its trustline where one is added, then the offer itself.
  pub operations_of :
      OfferSide → Asset Key → Asset Key → ℤ → Price → Bool → List (OperationBody Key Contents)
  operations_of side base counter amount price true =
      OperationBody.change_trust (assets side base counter).1 (pos policy_stroops)
      ∷ offer_operation side base counter amount price (pos 0)
      ∷ []
  operations_of side base counter amount price false =
      offer_operation side base counter amount price (pos 0) ∷ []

  trust_line :
      (asset : Asset Key) {line : Asset Key} → to_change_trust_xdr X asset ≡ ok line → line ≡ asset
  unfolding to_change_trust_xdr
  trust_line native h = cc
  trust_line (credit_alphanum4 raw issuer) h = sym (ok-injective h)
  trust_line (credit_alphanum12 raw issuer) h = sym (ok-injective h)

module _ (X : Stellar) (J : Json) (client : Client X J) where
  open X use {Key, Contents, account_from_str}

  pub create_operations_lem :
      (side : OfferSide) (base counter : Asset Key) (terms : Terms) (adds : Bool)
      {operations : List (OperationBody Key Contents)}
      → create_operations X J client side base counter terms adds ≡ ok operations
      → operations ≡ operations_of X side base counter terms.amount terms.price adds
  unfolding create_operations operations_of
  create_operations_lem side base counter terms true h =
      let (line, l, h₁) = >>=-eq-ok (to_change_trust_xdr X (assets side base counter).1) _ h in
      let (limit, m, h₂) = >>=-eq-ok policy_limit _ h₁ in
      let fixed : limit ≡ pos policy_stroops = ok-injective (sym m ∙ policy_limit_lem) in
      sym (ok-injective h₂)
      ∙ ap
          (λ k.
            OperationBody.change_trust line k
            ∷ offer_operation side base counter terms.amount terms.price (pos 0)
            ∷ [])
          fixed
      ∙ ap
          (λ k.
            OperationBody.change_trust k (pos policy_stroops)
            ∷ offer_operation side base counter terms.amount terms.price (pos 0)
            ∷ [])
          (trust_line X (assets side base counter).1 l)
  create_operations_lem side base counter terms false h = sym (ok-injective h)

  -- The envelope of a preparation: unsigned, without a memo, at the wallet's next sequence number,
  -- for the base fee of each of its operations, until the timeout is over.
  pub IsEnvelope :
      WalletRecord
      → J.Value
      → LedgerParameters
      → List (OperationBody Key Contents)
      → PreparedOffer X
      → Type 0
  IsEnvelope wallet account ledger operations prepared =
      (sequence : ℤ) × (key : Key) × (seconds : ℕ) × (account_sequence J account ≡ ok sequence)
      × (account_from_str wallet.address ≡ some key)
      × (client.now ≡ some seconds)
      × (prepared.envelope
          ≡ built_transaction X key (ledger.base_fee_in_stroops * length operations)
              (sequence +ℤ pos 1) (seconds + client.timeout_seconds) Memo.no_memo operations)

  no_clock :
      (source : Text) (bodies : List (OperationBody Key Contents)) (sequence : ℤ) (fee : ℕ)
      {e : TransactionEnvelope X}
      → client.now ≡ none
      → build_operation_envelope_with_memo_and_timeout X client.now source bodies sequence fee
          Memo.no_memo client.timeout_seconds
        ≡ ok e
      → ⊥
  unfolding build_operation_envelope_with_memo_and_timeout
      validate_classic_transaction_timeout_seconds
  no_clock source bodies sequence fee h k = ground arith

  pub finish_offer-IsEnvelope :
      (wallet : WalletRecord) (account : J.Value) (ledger : LedgerParameters)
      (operations : List (OperationBody Key Contents)) (action : OfferAction)
      (operation : OfferOperation) (offer_id : Option ℤ) (fee : ℕ)
      (details : Outcome OfferReviewDetails) {prepared : PreparedOffer X}
      → finish_offer X J client wallet account ledger operations action operation offer_id fee
          details
        ≡ ok prepared
      → IsEnvelope wallet account ledger operations prepared
  unfolding finish_offer build_operation_envelope_with_timeout optional_text_memo IsEnvelope
  finish_offer-IsEnvelope wallet account ledger operations action operation offer_id fee details h =
      let (sequence, s, h₁) = >>=-eq-ok (account_sequence J account) _ h in
      let (envelope, e, h₂) =
        >>=-eq-ok
          (build_operation_envelope_with_memo_and_timeout X client.now wallet.address operations
            sequence ledger.base_fee_in_stroops Memo.no_memo client.timeout_seconds)
          _ h₁ in
      let (snapshot, _, h₃) =
        >>=-eq-ok
          (prepared_classic_authorization_snapshot X client.satisfies client.hash J
            client.stored_wallets client.network envelope account)
          _ h₂ in
      let (shown, _, h₄) = >>=-eq-ok details _ h₃ in
      let same = ap (λ p. p.envelope) (sym (ok-injective h₄)) in
      elim (Option-cases client.now) [
        | inl e0 ↦
            absurd (no_clock wallet.address operations sequence ledger.base_fee_in_stroops e0 e)
        | inr (seconds, e0) ↦
            let (key, known, exact, _, _, _, _, _, _) =
              build_exact X seconds wallet.address operations sequence ledger.base_fee_in_stroops
                Memo.no_memo client.timeout_seconds (rw e0 at e) in
            (sequence, key, seconds, s, known, e0, same ∙ exact)
      ]

-- The account may trade the asset without a limit of its issuer.
pub IsTradable : (X : Stellar) (J : Json) → J.Value → Text → Asset X.Key → Type 0
IsTradable X J account id asset =
    ((is_native asset || issuer_is X asset id) ≡ true)
    ⊎ ((balances : List J.Value) × (raw : J.Value) × (array J account (codes "balances")
          ≡ some balances)
        × (find (matches_balance X J asset) balances ≡ some raw)
        × (and_then (J.get raw (codes "is_authorized")) J.as_bool ≡ some true))

double_negated : (b : Bool) → not b ≡ false → b ≡ true
double_negated true h = refl
double_negated false h = cc

pub ensure_full_offer_authorization-IsTradable :
    (X : Stellar) (J : Json) (account : J.Value) (asset : Asset X.Key) (id : Text)
    → ensure_full_offer_authorization X J account asset id ≡ ok tt
    → IsTradable X J account id asset
unfolding ensure_full_offer_authorization IsTradable
ensure_full_offer_authorization-IsTradable X J account asset id h =
    elim (Bool-cases (is_native asset || issuer_is X asset id)) [
      | inl own ↦ inl own
      | inr other ↦
          let (balances, listed, h₁) =
            >>=-eq-ok (ok_or (array J account (codes "balances")) _) _ (rw other at h) in
          let (raw, found, h₂) =
            >>=-eq-ok (ok_or (find (matches_balance X J asset) balances) _) _ h₁ in
          let (authorized, a, h₃) =
            >>=-eq-ok (ok_or (and_then (J.get raw (codes "is_authorized")) J.as_bool) _) _ h₂ in
          inr (
            balances,
            raw,
            ok_or-eq-ok _ _ listed,
            ok_or-eq-ok _ _ found,
            ok_or-eq-ok _ _ a ∙ ap some (double_negated authorized (fail_if-ok _ _ h₃)),
          )
    ]
