-- ===== src/Dex/Preflight.antt =====
-- The checks of an offer against the account that makes it (`preflight_create` and
-- `preflight_update` of reference/rust-client/src/dex.rs). Numbers are `i64` with checked arithmetic.
pub mod Backed
pub mod Released
use fresnica.Prelude.{
  ℕ, Bool, true, false, not, ◌&&◌, Option, none, some, ◌++◌, Text, String, Outcome, ok, err, ◌>>=◌,
  ◌>>◌, fail_if, ok_or, and_then, if◌then◌else◌,
}
use fresnica.Text.{codes}
use fresnica.Int.{ℤ, pos, ltb_ℤ, checked_add, checked_mul, i64_max}
use fresnica.Amount.{format_stroops, parse_stroops}
use fresnica.Stellar.{Stellar, Asset, native, Price}
use fresnica.Json.{Json}
use fresnica.Horizon.{minimum_balance_stroops}
use fresnica.AssetId.{is_native, issuer_is, display}
use fresnica.Dex.Liabilities.{OfferSide, OfferLiabilities, offer_liabilities}
use fresnica.Dex.Capacity.{available_balance, receiving_capacity, ensure_offer_fee_capacity}

abbrev pub default_trustline_limit : Text
default_trustline_limit = codes "708269837873.6765"

unfoldable pub policy_limit : Outcome ℤ
policy_limit =
    ok_or (parse_stroops default_trustline_limit true)
      (codes "invalid Fresnica trustline policy limit")

-- `format!("{what}: need {required}, available {available}")`
unfoldable pub need_message : Text → ℤ → ℤ → Text
need_message what required available =
    what
    ++ codes ": need "
    ++ format_stroops required
    ++ codes ", available "
    ++ format_stroops available

module _ (X : Stellar) (J : Json) where
  open X use {Key}
  open J use {Value}

  -- The least balance once the offer and its trustline are there.
  unfoldable pub future_minimum : Value → ℤ → ℤ → Outcome ℤ
  future_minimum account base_reserve extra_subentries = do
    extra ← ok_or (checked_mul base_reserve extra_subentries) (codes "offer reserve overflow")
    minimum ← minimum_balance_stroops J account base_reserve
    ok_or (checked_add minimum extra) (codes "offer reserve overflow")

  -- `required_selling + minimum + fee`, each sum checked.
  unfoldable pub requirement : ℕ → ℤ → ℤ → Outcome ℤ
  requirement required_selling minimum fee =
      ok_or (and_then (checked_add (pos required_selling) minimum) λ value. checked_add value fee)
        (codes "offer requirement overflow")

  unfoldable pub check_native_selling : ℕ → ℤ → ℤ → ℤ → Outcome (Unit {0})
  check_native_selling required_selling minimum fee available = do
    required ← requirement required_selling minimum fee
    fail_if (ltb_ℤ available required)
        (need_message (codes "Insufficient XLM for offer") required available)

  unfoldable pub check_issued_selling :
      Value → Text → Asset Key → ℕ → ℤ → ℤ → ℤ → Outcome (Unit {0})
  check_issued_selling account account_id selling required_selling minimum fee available = do
    fail_if (not (issuer_is X selling account_id) && ltb_ℤ available (pos required_selling)) (
        need_message (codes "Insufficient " ++ display X selling ++ codes " for offer")
          (pos required_selling) available)
    available_native ← available_balance X J account native
    required_native ← ok_or (checked_add minimum fee) (codes "offer XLM requirement overflow")
    fail_if (ltb_ℤ available_native required_native) (
        need_message (codes "Insufficient XLM for offer reserve and fee") required_native
          available_native)

  unfoldable pub check_selling : Value → Text → Asset Key → ℕ → ℤ → ℤ → ℤ → Outcome (Unit {0})
  check_selling account account_id selling required_selling minimum fee available =
      if is_native selling
      then check_native_selling required_selling minimum fee available
      else check_issued_selling account account_id selling required_selling minimum fee available

  abbrev pub new_limit : Bool → Outcome (Option ℤ)
  new_limit adds_trustline =
      if adds_trustline then (policy_limit >>= λ limit. ok (some limit)) else ok none

  unfoldable pub check_buying : Value → Text → Asset Key → ℕ → Bool → Outcome (Unit {0})
  check_buying account account_id buying required adds_trustline = do
    limit ← new_limit adds_trustline
    capacity ← receiving_capacity X J account buying account_id limit
    fail_if (ltb_ℤ capacity (pos required)) (
        need_message (codes "Insufficient receiving capacity for " ++ display X buying)
          (pos required) capacity)

  -- Before an offer is created: the account can sell, pay the reserve and the fee, and take.
  unfoldable pub preflight_create :
      Value
      → Text
      → OfferSide
      → Asset Key
      → Asset Key
      → ℤ
      → Price
      → ℤ
      → ℤ
      → ℤ
      → Bool
      → Outcome (Unit {0})
  preflight_create account account_id side selling buying amount price base_reserve fee
        extra_subentries adds_trustline =
      do
        liabilities ← offer_liabilities side amount price
        available ← available_balance X J account selling
        minimum ← future_minimum account base_reserve extra_subentries
        check_selling account account_id selling liabilities.selling minimum fee available
        check_buying account account_id buying liabilities.buying adds_trustline

  abbrev insufficient_update : Asset Key → Text
  insufficient_update asset = codes "Insufficient " ++ display X asset ++ codes " for offer update"

  unfoldable pub check_available :
      Value → Asset Key → OfferLiabilities → ℤ → ℤ → ℤ → Outcome (Unit {0})
  check_available account selling new available base_reserve fee =
      if is_native selling
      then (minimum_balance_stroops J account base_reserve >>= λ minimum.
          requirement new.selling minimum fee >>= λ required.
          fail_if (ltb_ℤ available required)
            (need_message (codes "Insufficient XLM for offer update") required available))
      else fail_if (ltb_ℤ available (pos new.selling))
          (need_message (insufficient_update selling) (pos new.selling) available)

  -- What the stored offer holds is free for the new one.
  unfoldable pub check_released :
      Value → Text → Asset Key → OfferLiabilities → OfferLiabilities → ℤ → ℤ → Outcome (Unit {0})
  check_released account account_id selling new old base_reserve fee =
      if issuer_is X selling account_id then ok tt else (do
        free ← available_balance X J account selling
        available ←
            ok_or (checked_add free (pos old.selling)) (codes "offer selling capacity overflow")
        check_available account selling new available base_reserve fee)

  unfoldable pub released_capacity : Value → Text → Asset Key → OfferLiabilities → Outcome ℤ
  released_capacity account account_id buying old =
      if issuer_is X buying account_id then ok (pos i64_max) else (do
        capacity ← receiving_capacity X J account buying account_id none
        ok_or (checked_add capacity (pos old.buying)) (codes "offer receiving capacity overflow"))

  abbrev insufficient_capacity : Asset Key → Text
  insufficient_capacity asset =
      codes "Insufficient receiving capacity for " ++ display X asset ++ codes " offer update"

  unfoldable pub preflight_update :
      Value
      → Text
      → OfferSide
      → Asset Key
      → Asset Key
      → ℤ
      → Price
      → ℤ
      → Price
      → ℤ
      → ℤ
      → Outcome (Unit {0})
  preflight_update account account_id side selling buying amount price old_amount old_price
        base_reserve fee =
      do
        ensure_offer_fee_capacity X J account base_reserve fee
        new ← offer_liabilities side amount price
        old ← offer_liabilities OfferSide.sell old_amount old_price
        check_released account account_id selling new old base_reserve fee
        capacity ← released_capacity account account_id buying old
        fail_if (ltb_ℤ capacity (pos new.buying))
            (need_message (insufficient_capacity buying) (pos new.buying) capacity)
