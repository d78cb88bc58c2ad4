-- ===== src/Payment/Prepare/Delivery.antt =====
-- Where the amount of a payment goes, from the checks that passed.
use fresnica.Prelude.{
  ℕ, ◌<◌, ◌≡◌, refl, true, false, not, ◌&&◌, Option, none, some, Text, ok, fail_if, ok_or,
  >>=-eq-ok, ok-injective, fail_if-ok, ok_or-eq-ok, subst, sym, arith, Option-cases, inl, inr,
}
use fresnica.Text.{trim}
use fresnica.Int.{ℤ, pos, checked_mul, ltb_ℤ, ◌*ℤ◌, ◌≤ℤ◌}
use fresnica.Int.Laws.{checked_mul_exact}
use fresnica.Amount.{parse_stroops, parse_positive_stroops}
use fresnica.Amount.Meaning.{IsAmount}
use fresnica.Amount.Parse.{parse_stroops_iff}
use fresnica.Stellar.{Stellar, Asset, OperationBody}
use fresnica.Json.{Json}
use fresnica.Horizon.{LedgerParameters}
use fresnica.AssetId.{is_native}
use fresnica.Payment.Memo.{PaymentMemo, PaymentDestination, is_muxed, payment_body}
use fresnica.Payment.Memo.Laws.{Suits, validate_destination_memo_iff}
use fresnica.Payment.Funds.{validate_destination_receive}
use fresnica.Payment.Funds.Receivable.{IsReceivable, validate_destination_receive-IsReceivable}
use fresnica.Payment.Prepare.{
  Client, PaymentOperation, operation_of, is_missing, check_found, check_minimum,
}

-- A positive amount that was read.
pub positive-IsAmount :
    (t : Text) {z : ℤ}
    → parse_positive_stroops t ≡ ok z
    → (n : ℕ) × (z ≡ pos n) × IsAmount (trim t) n × (0 < n)
unfolding parse_positive_stroops
positive-IsAmount t h = elim (Option-cases (parse_stroops t true)) [
  | inl e ↦ absurd (ground arith)
  | inr (y, e) ↦
      let (n, exact, spelled, _, positive) = (parse_stroops_iff t true y).0 e in
      (n, ground arith, spelled, positive)
]

not_above : (z : ℤ) (k : ℕ) → ltb_ℤ (pos k) z ≡ false → z ≤ℤ pos k
not_above z k e = ground arith

module _ (X : Stellar) (J : Json) (client : Client X J) where
  open X use {Key, Contents, account_from_str, account_text}

  -- Where the amount goes: a new account for lumens of two base reserves or more, or an account that
  -- can receive the asset and takes the memo.
  pub data Delivers (destination : PaymentDestination Key) (asset : Asset Key) (n : ℕ)
      (memo : PaymentMemo) (ledger : LedgerParameters) (found : Option J.Value)
      (body : OperationBody Key Contents) (operation : PaymentOperation) : Type 0 where
    creates :
        found ≡ none
        → is_native asset ≡ true
        → destination.muxed_id ≡ none
        → pos 2 *ℤ ledger.base_reserve_in_stroops ≤ℤ pos n
        → body ≡ OperationBody.create_account destination.ledger_account (pos n)
        → operation ≡ PaymentOperation.create_account
        → Delivers destination asset n memo ledger found body operation
    pays :
        (account : J.Value)
        → found ≡ some account
        → IsReceivable X J account (account_text destination.ledger_account) asset n
        → Suits J client.decode_base64 destination.muxed_id memo account
        → body ≡ OperationBody.payment destination.operation_destination asset (pos n)
        → operation ≡ PaymentOperation.payment
        → Delivers destination asset n memo ledger found body operation

  reserve_covered :
      (n : ℕ) (ledger : LedgerParameters)
      → check_minimum X J client ledger (pos n) none ≡ ok tt
      → pos 2 *ℤ ledger.base_reserve_in_stroops ≤ℤ pos n
  unfolding check_minimum
  reserve_covered n ledger h =
      let (minimum, m, h₁) =
        >>=-eq-ok (ok_or (checked_mul (pos 2) ledger.base_reserve_in_stroops) _) _ h in
      let (exact, _) =
        checked_mul_exact (pos 2) ledger.base_reserve_in_stroops (ok_or-eq-ok _ _ m) in
      let enough = fail_if-ok _ _ h₁ in subst (λ z. z ≤ℤ pos n) exact (not_above minimum n enough)

  found_checks :
      (address : Text) (destination : PaymentDestination Key) (memo : PaymentMemo)
      (asset : Asset Key) (n : ℕ) (account : J.Value)
      → 0 < n
      → check_found X J client address destination memo asset (pos n) (some account) ≡ ok tt
      → IsReceivable X J account (account_text destination.ledger_account) asset n
        × Suits J client.decode_base64 destination.muxed_id memo account
  unfolding check_found
  found_checks address destination memo asset n account positive h =
      let id = account_text destination.ledger_account in
      let (_, receives, h₁) =
        >>=-eq-ok (validate_destination_receive X J account id asset (pos n)) _ h in
      (
        validate_destination_receive-IsReceivable X J account id asset n positive receives,
        (validate_destination_memo_iff J client.decode_base64 address destination account memo).0
            h₁,
      )

  unmuxed :
      (destination : PaymentDestination Key)
      → is_muxed destination ≡ false
      → destination.muxed_id ≡ none
  unmuxed destination h = ground arith

  pub delivers :
      (address : Text) (destination : PaymentDestination Key) (asset : Asset Key) (n : ℕ)
      (memo : PaymentMemo) (ledger : LedgerParameters) (found : Option J.Value) (refused : Text)
      {body : OperationBody Key Contents}
      → 0 < n
      → fail_if (is_missing found && not (is_native asset)) refused ≡ ok tt
      → check_found X J client address destination memo asset (pos n) found ≡ ok tt
      → check_minimum X J client ledger (pos n) found ≡ ok tt
      → payment_body X destination asset (pos n) (is_missing found) ≡ ok body
      → Delivers destination asset n memo ledger found body (operation_of (is_missing found))
  unfolding payment_body
  delivers address destination asset n memo ledger none refused positive lumens found minimum b =
      let (_, plain, b₁) = >>=-eq-ok (fail_if (is_muxed destination) _) _ b in
      creates refl (ground arith) (unmuxed destination (fail_if-ok _ _ plain))
        (reserve_covered n ledger minimum) (sym (ok-injective b₁)) refl
  delivers address destination asset n memo ledger (some account) refused positive lumens found
        minimum b =
      let (receives, suits) =
        found_checks address destination memo asset n account positive found in
      pays account refl receives suits (sym (ok-injective b)) refl
