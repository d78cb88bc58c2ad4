-- ===== src/Payment/Prepare/Ready.antt =====
-- What a prepared payment guarantees: it can be paid, it can be received, and its envelope holds the
-- one operation that was asked for.
use fresnica.Prelude.{
  ℕ, ◌+◌, ◌*◌, ◌<◌, ◌≡◌, Bool, not, ◌&&◌, Option, none, some, [], ◌∷◌, Text, ok, fail_if, >>=-eq-ok,
  ok-injective, subst, ap, sym, ◌∙◌, arith, Option-cases, inl, inr,
}
use fresnica.Text.{trim}
use fresnica.Int.{ℤ, pos, ◌+ℤ◌}
use fresnica.Amount.{parse_positive_stroops}
use fresnica.Amount.Meaning.{IsAmount}
use fresnica.Stellar.{Stellar, Asset, Memo, OperationBody, TransactionEnvelope}
use fresnica.Json.{Json}
use fresnica.Horizon.{LedgerParameters, account_sequence}
use fresnica.AssetId.{is_native, parse}
use fresnica.Authorization.Load.{WalletRecord, prepared_classic_authorization_snapshot}
use fresnica.Transaction.Envelope.{
  validate_classic_transaction_timeout_seconds, build_operation_envelope_with_memo_and_timeout,
  build_single_operation_envelope_with_memo_and_timeout,
}
use fresnica.Transaction.Envelope.Built.{built_transaction, build_exact}
use fresnica.Payment.Memo.{
  PaymentMemo, PaymentDestination, is_muxed, memo_xdr, parse_destination, payment_body,
}
use fresnica.Payment.Funds.{validate_transfer}
use fresnica.Payment.Funds.Spendable.{IsFunded, validate_transfer-IsFunded}
use fresnica.Payment.Prepare.{
  Client, PreparedPayment, operation_of, is_missing, missing_muxed, missing_account, check_found,
  check_minimum, check_payment, finish_payment, prepare_payment_with_wallet,
}
use fresnica.Payment.Prepare.Delivery.{Delivers, delivers, positive-IsAmount}

module _ (X : Stellar) (J : Json) (client : Client X J) where
  open X use {Key, Contents, account_from_str, account_text}

  -- All that a prepared payment comes with.
  pub data IsReady (current : WalletRecord) (amount_text asset_text address : Text)
      (memo : PaymentMemo) (prepared : PreparedPayment X) : Type 0 where
    ready :
        (asset : Asset Key) (n : ℕ) (destination : PaymentDestination Key) (account : J.Value)
        (found : Option J.Value) (ledger : LedgerParameters) (body : OperationBody Key Contents)
        (envelope_memo : Memo Key) (key : Key) (sequence : ℤ) (seconds : ℕ)
        → parse X asset_text ≡ ok asset
        → IsAmount (trim amount_text) n
        → parse_destination X address ≡ ok destination
        → client.get_account current.address ≡ ok account
        → client.get_account_optional (account_text destination.ledger_account) ≡ ok found
        → client.get_ledger_parameters ≡ ok ledger
        → IsFunded X J account current.address asset n ledger
        → Delivers X J client destination asset n memo ledger found body prepared.review.operation
        → memo_xdr memo ≡ ok envelope_memo
        → account_from_str current.address ≡ some key
        → account_sequence J account ≡ ok sequence
        → client.now ≡ some seconds
        → prepared.envelope
          ≡ built_transaction X key
              (ledger.base_fee_in_stroops * 1)
              (sequence +ℤ pos 1)
              (seconds + client.timeout_seconds)
              envelope_memo
              (body ∷ [])
        → IsReady current amount_text asset_text address memo prepared

  no_clock :
      (source : Text) (body : OperationBody Key Contents) (sequence : ℤ) (fee : ℕ) (memo : Memo Key)
      {e : TransactionEnvelope X}
      → client.now ≡ none
      → build_operation_envelope_with_memo_and_timeout X client.now source
          (body ∷ [])
          sequence
          fee
          memo
          client.timeout_seconds
        ≡ ok e
      → ⊥
  unfolding build_operation_envelope_with_memo_and_timeout
      validate_classic_transaction_timeout_seconds
  no_clock source body sequence fee memo e h = ground arith

  -- The build of one operation, with the clock that it read.
  single_envelope :
      (source : Text) (body : OperationBody Key Contents) (sequence : ℤ) (fee : ℕ) (memo : Memo Key)
      {e : TransactionEnvelope X}
      → build_single_operation_envelope_with_memo_and_timeout X client.now source body sequence fee
          memo client.timeout_seconds
        ≡ ok e
      → (key : Key) × (seconds : ℕ) × (account_from_str source ≡ some key)
        × (client.now ≡ some seconds)
        × (e
            ≡ built_transaction X key
                (fee * 1)
                (sequence +ℤ pos 1)
                (seconds + client.timeout_seconds)
                memo
                (body ∷ []))
  unfolding build_single_operation_envelope_with_memo_and_timeout
  single_envelope source body sequence fee memo h = elim (Option-cases client.now) [
    | inl e ↦ absurd (no_clock source body sequence fee memo e h)
    | inr (seconds, e) ↦
        let (key, known, exact, _, _, _, _, _, _) =
          build_exact X seconds source (body ∷ []) sequence fee memo client.timeout_seconds
            (rw e at h) in
        (key, seconds, known, e, exact)
  ]

  -- What the checks against the ledger establish.
  checked :
      (current : WalletRecord) (address : Text) (memo : PaymentMemo) (asset : Asset Key) (n : ℕ)
      (destination : PaymentDestination Key) (account : J.Value) (found : Option J.Value)
      {ledger : LedgerParameters}
      → 0 < n
      → check_payment X J client current address memo asset (pos n) destination account found
        ≡ ok ledger
      → (client.get_ledger_parameters ≡ ok ledger)
        × IsFunded X J account current.address asset n ledger
        × (fail_if (is_missing found && not (is_native asset)) missing_account ≡ ok tt)
        × (check_found X J client address destination memo asset (pos n) found ≡ ok tt)
        × (check_minimum X J client ledger (pos n) found ≡ ok tt)
  unfolding check_payment
  checked current address memo asset n destination account found {ledger} positive h =
      let id = account_text destination.ledger_account in
      let (_, _, h₁) =
        >>=-eq-ok (fail_if (is_missing found && is_muxed destination) (missing_muxed address id)) _
          h in
      let (_, lumens, h₂) =
        >>=-eq-ok (fail_if (is_missing found && not (is_native asset)) missing_account) _ h₁ in
      let (read, l, h₃) = >>=-eq-ok client.get_ledger_parameters _ h₂ in
      let (_, funds, h₄) =
        >>=-eq-ok (validate_transfer X J account current.address asset (pos n) read) _ h₃ in
      let (_, checks, h₅) =
        >>=-eq-ok (check_found X J client address destination memo asset (pos n) found) _ h₄ in
      let (_, minimum, h₆) = >>=-eq-ok (check_minimum X J client read (pos n) found) _ h₅ in
      let same = ok-injective h₆ in
      (
        l ∙ ap ok same,
        subst (IsFunded X J account current.address asset n) same
            (validate_transfer-IsFunded X J account current.address asset n read positive funds),
        lumens,
        checks,
        subst (λ p. check_minimum X J client p (pos n) found ≡ ok tt) same minimum,
      )

  -- The operation and the envelope of a payment that was finished.
  finished :
      (current : WalletRecord) (address : Text) (contact : Option Text) (memo : PaymentMemo)
      (asset : Asset Key) (amount : ℤ) (destination : PaymentDestination Key)
      (envelope_memo : Memo Key) (account : J.Value) (create : Bool) (ledger : LedgerParameters)
      {prepared : PreparedPayment X}
      → finish_payment X J client current address contact memo asset amount destination
          envelope_memo account create ledger
        ≡ ok prepared
      → (body : OperationBody Key Contents) × (payment_body X destination asset amount create
          ≡ ok body)
        × (prepared.review.operation ≡ operation_of create)
        × (sequence : ℤ) × (account_sequence J account ≡ ok sequence)
        × (key : Key) × (seconds : ℕ) × (account_from_str current.address ≡ some key)
        × (client.now ≡ some seconds)
        × (prepared.envelope
            ≡ built_transaction X key
                (ledger.base_fee_in_stroops * 1)
                (sequence +ℤ pos 1)
                (seconds + client.timeout_seconds)
                envelope_memo
                (body ∷ []))
  unfolding finish_payment
  finished current address contact memo asset amount destination envelope_memo account create ledger
        {prepared} h =
      let (body, b, h₁) = >>=-eq-ok (payment_body X destination asset amount create) _ h in
      let (sequence, s, h₂) = >>=-eq-ok (account_sequence J account) _ h₁ in
      let (envelope, e, h₃) =
        >>=-eq-ok
          (build_single_operation_envelope_with_memo_and_timeout X client.now current.address body
            sequence ledger.base_fee_in_stroops envelope_memo client.timeout_seconds)
          _ h₂ in
      let (snapshot, _, h₄) =
        >>=-eq-ok
          (prepared_classic_authorization_snapshot X client.satisfies client.hash J
            client.stored_wallets client.network envelope account)
          _ h₃ in
      let same = sym (ok-injective h₄) in
      let (key, seconds, known, clock, built) =
        single_envelope current.address body sequence ledger.base_fee_in_stroops envelope_memo e in
      (
        body,
        b,
        ap (λ p. p.review.operation) same,
        sequence,
        s,
        key,
        seconds,
        known,
        clock,
        ap (λ p. p.envelope) same ∙ built,
      )

  -- The guarantee from the parts of a preparation.
  settled :
      (current : WalletRecord) (amount_text asset_text address : Text) (contact : Option Text)
      (memo : PaymentMemo) (asset : Asset Key) (n : ℕ) (destination : PaymentDestination Key)
      (account : J.Value) (found : Option J.Value) (ledger : LedgerParameters)
      (envelope_memo : Memo Key) {prepared : PreparedPayment X}
      → parse X asset_text ≡ ok asset
      → IsAmount (trim amount_text) n
      → 0 < n
      → parse_destination X address ≡ ok destination
      → client.get_account current.address ≡ ok account
      → client.get_account_optional (account_text destination.ledger_account) ≡ ok found
      → memo_xdr memo ≡ ok envelope_memo
      → check_payment X J client current address memo asset (pos n) destination account found
        ≡ ok ledger
      → finish_payment X J client current address contact memo asset
          (pos n)
          destination
          envelope_memo
          account
          (is_missing found)
          ledger
        ≡ ok prepared
      → IsReady current amount_text asset_text address memo prepared
  settled current amount_text asset_text address contact memo asset n destination account found
        ledger envelope_memo {prepared} a spelled positive d g f x c h =
      let (l, funded, lumens, checks, minimum) =
        checked current address memo asset n destination account found positive c in
      let (body, b, operation, sequence, s, key, seconds, known, clock, built) =
        finished current address contact memo asset (pos n) destination envelope_memo account
          (is_missing found) ledger h in
      ready asset n destination account found ledger body envelope_memo key sequence seconds a
        spelled d g f l funded
        (subst (Delivers X J client destination asset n memo ledger found body) (sym operation) (
          delivers X J client address destination asset n memo ledger found missing_account positive
            lumens checks minimum b))
        x known s clock built

  -- If a payment is prepared, then the amount is read exactly and is positive, the source can pay it
  -- with the fee, a missing destination is created with at least two base reserves of lumens, an
  -- existing one can receive the asset and takes the memo, and the envelope holds that one operation,
  -- unsigned, with the next sequence number and a limit of the timeout from now on.
  pub prepare_payment_with_wallet-IsReady :
      (current : WalletRecord) (amount_text asset_text address : Text) (contact : Option Text)
      (memo : PaymentMemo) {prepared : PreparedPayment X}
      → prepare_payment_with_wallet X J client current amount_text asset_text address contact memo
        ≡ ok prepared
      → IsReady current amount_text asset_text address memo prepared
  unfolding prepare_payment_with_wallet
  prepare_payment_with_wallet-IsReady current amount_text asset_text address contact memo {prepared}
        h =
      let (asset, a, h₁) = >>=-eq-ok (parse X asset_text) _ h in
      let (amount, m, h₂) = >>=-eq-ok (parse_positive_stroops amount_text) _ h₁ in
      let (n, exact, spelled, positive) = positive-IsAmount amount_text m in
      let (destination, d, h₃) = >>=-eq-ok (parse_destination X address) _ h₂ in
      let (envelope_memo, x, h₄) = >>=-eq-ok (memo_xdr memo) _ h₃ in
      let (account, g, h₅) = >>=-eq-ok (client.get_account current.address) _ h₄ in
      let (found, f, h₆) =
        >>=-eq-ok (client.get_account_optional (account_text destination.ledger_account)) _ h₅ in
      let (ledger, c, h₇) =
        >>=-eq-ok
          (check_payment X J client current address memo asset amount destination account found) _
          h₆ in
      settled current amount_text asset_text address contact memo asset n destination account found
        ledger envelope_memo a spelled positive d g f x
        (subst
          (λ z.
            check_payment X J client current address memo asset z destination account found
            ≡ ok ledger)
          exact c)
        (subst
          (λ z.
            finish_payment X J client current address contact memo asset z destination envelope_memo
              account (is_missing found) ledger
            ≡ ok prepared)
          exact h₇)
