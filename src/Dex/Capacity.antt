-- ===== src/Dex/Capacity.antt =====
-- What an account can sell and take, by its document (`available_balance`, `receiving_capacity`,
-- `ensure_offer_fee_capacity`, `ensure_full_offer_authorization`, `issuer_requires_authorization` and
-- `account_can_hold` of reference/rust-client/src/dex.rs).
pub mod Free
pub mod Room
use fresnica.Prelude.{
  ℕ, Bool, true, false, not, ◌||◌, Option, none, some, List, find, any, ◌++◌, Text, Outcome, ok,
  err, ◌>>=◌, ◌>>◌, fail_if, ok_or, and_then, if◌then◌else◌,
}
use fresnica.Text.{codes}
use fresnica.Int.{ℤ, pos, ltb_ℤ, max_zero, saturating_sub, i64_max}
use fresnica.Amount.{format_stroops}
use fresnica.Stellar.{Stellar, Asset, native}
use fresnica.Json.{Json}
use fresnica.Horizon.{array, balance_stroops, minimum_balance_stroops, unwrap_or}
use fresnica.AssetId.{is_native, issuer_is, display, matches_balance}
use fresnica.Payment.Funds.{malformed_balances, committed_amount}

module _ (X : Stellar) (J : Json) where
  open X use {Key}
  open J use {Value, get, as_bool, as_object, object_get}

  -- Balance, less what is committed to offers.
  unfoldable pub free_of : Value → Outcome ℤ
  free_of raw = do
    balance ← balance_stroops J raw (codes "balance")
    selling ← balance_stroops J raw (codes "selling_liabilities")
    ok (max_zero (saturating_sub balance selling))

  -- An account without a balance of the asset has nothing of it.
  abbrev pub free_of_found : Option Value → Outcome ℤ
  free_of_found none = ok (pos 0)
  free_of_found (some raw) = free_of raw

  unfoldable pub available_balance : Value → Asset Key → Outcome ℤ
  available_balance account asset = do
    balances ← ok_or (array J account (codes "balances")) malformed_balances
    free_of_found (find (matches_balance X J asset) balances)

  unfoldable pub native_room : Option Value → Outcome ℤ
  native_room found = do
    raw ← ok_or found (codes "Horizon returned no native balance")
    taken ← committed_amount X J raw (codes "native receiving capacity overflow")
    ok (saturating_sub (pos i64_max) taken)

  unfoldable pub trustline_room : Option ℤ → Option Value → Outcome ℤ
  trustline_room new_trustline_limit none = ok (unwrap_or new_trustline_limit (pos 0))
  trustline_room new_trustline_limit (some raw) = do
    limit ← balance_stroops J raw (codes "limit")
    taken ← committed_amount X J raw (codes "trustline receiving capacity overflow")
    ok (max_zero (saturating_sub limit taken))

  unfoldable pub receiving_capacity : Value → Asset Key → Text → Option ℤ → Outcome ℤ
  receiving_capacity account asset account_id new_trustline_limit =
      if issuer_is X asset account_id then ok (pos i64_max) else (do
        balances ← ok_or (array J account (codes "balances")) malformed_balances
        let raw = find (matches_balance X J asset) balances
        if is_native asset then native_room raw else trustline_room new_trustline_limit raw)

  unfoldable pub insufficient_fee : ℤ → ℤ → Text
  insufficient_fee fee free =
      codes "Insufficient XLM for transaction fee: need "
      ++ format_stroops fee
      ++ codes ", available "
      ++ format_stroops free

  unfoldable pub ensure_offer_fee_capacity : Value → ℤ → ℤ → Outcome (Unit {0})
  ensure_offer_fee_capacity account base_reserve fee = do
    available ← available_balance account native
    minimum ← minimum_balance_stroops J account base_reserve
    let free = max_zero (saturating_sub available minimum)
    fail_if (ltb_ℤ free fee) (insufficient_fee fee free)

  abbrev missing_trustline : Asset Key → Text
  missing_trustline asset = codes "Trustline is missing for " ++ display X asset

  abbrev not_authorized : Asset Key → Text
  not_authorized asset =
      codes "Trustline for "
      ++ display X asset
      ++ codes " is not fully authorized for offer management"

  abbrev malformed_authorization : Asset Key → Text
  malformed_authorization asset =
      codes "Horizon returned malformed authorization state for " ++ display X asset

  unfoldable pub ensure_full_offer_authorization : Value → Asset Key → Text → Outcome (Unit {0})
  ensure_full_offer_authorization account asset account_id =
      if is_native asset || issuer_is X asset account_id then ok tt else (do
        balances ← ok_or (array J account (codes "balances")) malformed_balances
        raw ← ok_or (find (matches_balance X J asset) balances) (missing_trustline asset)
        authorized ←
            ok_or (and_then (get raw (codes "is_authorized")) as_bool)
              (malformed_authorization asset)
        fail_if (not authorized) (not_authorized asset))

  unfoldable pub issuer_requires_authorization : Value → Outcome Bool
  issuer_requires_authorization account =
      ok_or
        (and_then (and_then (get account (codes "flags")) as_object)
          λ flags. and_then (object_get flags (codes "auth_required")) as_bool)
        (codes "Horizon returned malformed issuer authorization flags")

  unfoldable pub account_can_hold : Value → Asset Key → Text → Bool
  account_can_hold account asset account_id =
      if is_native asset || issuer_is X asset account_id
      then true
      else elim (array J account (codes "balances")) [
        | none ↦ false
        | some balances ↦ any (matches_balance X J asset) balances
      ]
