-- ===== src/Payment/Funds.antt =====
-- Whether the source can pay and the destination can receive: `validate_transfer`,
-- `validate_destination_receive`, `ensure_payment_fee_capacity` and
-- `ensure_payment_trustline_authorized`. Numbers are `i64`, with saturating and checked arithmetic
-- where the source uses it.
pub mod Native
pub mod Spendable
pub mod Receivable
use fresnica.Prelude.{
  ℕ, ◌+◌, Bool, true, false, not, ◌&&◌, Option, none, some, List, [], ◌∷◌, ◌++◌, find, Text, String,
  Outcome, ok, err, ◌>>=◌, ◌>>◌, fail_if, ok_or, and_then, if◌then◌else◌,
}
use fresnica.Text.{codes}
use fresnica.Int.{ℤ, pos, ltb_ℤ, max_zero, saturating_sub, checked_add, i64_max}
use fresnica.Amount.{format_stroops}
use fresnica.Stellar.{Stellar, Asset}
use fresnica.Json.{Json}
use fresnica.Horizon.{text, array, balance_stroops, minimum_balance_stroops, LedgerParameters}
use fresnica.AssetId.{text_is, is_native, issuer_is, display, matches_balance}

unfoldable pub malformed_balances : Text
malformed_balances = codes "Horizon returned malformed balance data"

module _ (J : Json) where
  open J use {Value, get, as_bool}

  -- `text(balance, "asset_type") == Some("native")`
  unfoldable pub is_native_balance : Value → Bool
  is_native_balance balance = text_is (text J balance (codes "asset_type")) (some (codes "native"))

  -- Balance, less what is committed to offers, less the least balance of the account.
  unfoldable pub native_free : Value → Value → LedgerParameters → Outcome ℤ
  native_free account native ledger = do
    balance ← balance_stroops J native (codes "balance")
    selling ← balance_stroops J native (codes "selling_liabilities")
    minimum ← minimum_balance_stroops J account ledger.base_reserve_in_stroops
    ok (saturating_sub (saturating_sub balance selling) minimum)

  unfoldable pub fee_message : ℤ → ℤ → Text
  fee_message fee free =
      codes "Insufficient XLM for transaction fee: need "
      ++ format_stroops fee
      ++ codes ", available "
      ++ format_stroops free

  unfoldable pub ensure_payment_fee_capacity : Value → LedgerParameters → Outcome (Unit {0})
  ensure_payment_fee_capacity account ledger = do
    balances ← ok_or (array J account (codes "balances")) malformed_balances
    native ←
        ok_or (find is_native_balance balances)
          (codes "No XLM balance is available to pay the transaction fee")
    left ← native_free account native ledger
    fail_if (ltb_ℤ (max_zero left) (pos ledger.base_fee_in_stroops))
        (fee_message (pos ledger.base_fee_in_stroops) (max_zero left))

module _ (X : Stellar) (J : Json) where
  open X use {Key}
  open J use {Value, get, as_bool}

  unfoldable pub unauthorized_message : Asset Key → Text
  unauthorized_message asset =
      codes "Trustline for " ++ display X asset ++ codes " is not fully authorized for payment"

  unfoldable pub malformed_authorization : Asset Key → Text
  malformed_authorization asset =
      codes "Horizon returned malformed authorization state for " ++ display X asset

  unfoldable pub ensure_payment_trustline_authorized : Value → Asset Key → Outcome (Unit {0})
  ensure_payment_trustline_authorized raw asset =
      elim (and_then (get raw (codes "is_authorized")) as_bool) [
        | none ↦ err (malformed_authorization asset)
        | some authorized ↦ fail_if (not authorized) (unauthorized_message asset)
      ]

  unfoldable pub insufficient_balance : Asset Key → ℤ → ℤ → Text
  insufficient_balance asset requested available =
      codes "Insufficient "
      ++ display X asset
      ++ codes " balance: requested "
      ++ format_stroops requested
      ++ codes ", available "
      ++ format_stroops available

  unfoldable pub native_available : Value → LedgerParameters → Value → Outcome ℤ
  native_available account ledger raw = do
    left ← native_free J account raw ledger
    ok (max_zero (saturating_sub left (pos ledger.base_fee_in_stroops)))

  unfoldable pub trustline_available : Value → Asset Key → LedgerParameters → Value → Outcome ℤ
  trustline_available account asset ledger raw = do
    ensure_payment_trustline_authorized raw asset
    ensure_payment_fee_capacity J account ledger
    balance ← balance_stroops J raw (codes "balance")
    selling ← balance_stroops J raw (codes "selling_liabilities")
    ok (max_zero (saturating_sub balance selling))

  -- What the source can spend of the asset, from the balance that was found.
  unfoldable pub available_amount : Value → Asset Key → LedgerParameters → Option Value → Outcome ℤ
  available_amount account asset ledger none = ok (pos 0)
  available_amount account asset ledger (some raw) =
      if is_native asset
      then native_available account ledger raw
      else trustline_available account asset ledger raw

  unfoldable pub validate_transfer :
      Value → Text → Asset Key → ℤ → LedgerParameters → Outcome (Unit {0})
  validate_transfer account account_id asset requested ledger = do
    balances ← ok_or (array J account (codes "balances")) malformed_balances
    if not (is_native asset) && issuer_is X asset account_id
        then ensure_payment_fee_capacity J account ledger
        else (available_amount account asset ledger (find (matches_balance X J asset) balances)
            >>= λ available.
                fail_if (ltb_ℤ available requested)
                  (insufficient_balance asset requested available))

  unfoldable pub insufficient_capacity : Asset Key → ℤ → ℤ → Text
  insufficient_capacity asset requested capacity =
      codes "Insufficient receiving capacity for "
      ++ display X asset
      ++ codes " at destination: need "
      ++ format_stroops requested
      ++ codes ", available "
      ++ format_stroops capacity

  -- Balance and buying liabilities of the destination, or an overflow.
  unfoldable pub committed_amount : Value → Text → Outcome ℤ
  committed_amount raw message = do
    balance ← balance_stroops J raw (codes "balance")
    buying ← balance_stroops J raw (codes "buying_liabilities")
    ok_or (checked_add balance buying) message

  unfoldable pub receiving_capacity : Asset Key → Value → Outcome ℤ
  receiving_capacity asset raw =
      if is_native asset
      then (committed_amount raw (codes "destination native receiving capacity overflow")
          >>= λ committed. ok (saturating_sub (pos i64_max) committed))
      else (ensure_payment_trustline_authorized raw asset
          >> (balance_stroops J raw (codes "limit") >>= λ limit.
              committed_amount raw (codes "destination trustline receiving capacity overflow")
              >>= λ committed. ok (max_zero (saturating_sub limit committed))))

  unfoldable pub validate_destination_receive : Value → Text → Asset Key → ℤ → Outcome (Unit {0})
  validate_destination_receive account account_id asset requested =
      if not (is_native asset) && issuer_is X asset account_id then ok tt else (do
        balances ←
            ok_or (array J account (codes "balances"))
              (codes "Horizon returned malformed destination balance data")
        raw ←
            ok_or (find (matches_balance X J asset) balances)
              (codes "Destination has no trustline for " ++ display X asset)
        capacity ← receiving_capacity asset raw
        fail_if (ltb_ℤ capacity requested) (insufficient_capacity asset requested capacity))
