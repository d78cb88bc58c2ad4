-- ===== src/Horizon.antt =====
-- The readers of an account document that the Classic transactions share
-- (reference/rust-client/src/transaction.rs): `text`, `integer`, `account_sequence`,
-- `balance_stroops` and `minimum_balance_stroops`, and the ledger parameters of
-- reference/rust-client/src/horizon_gateway.rs.
use fresnica.Prelude.{
  ℕ, false, Option, none, some, List, [], ◌∷◌, ◌++◌, Text, Outcome, ok, err, ◌>>=◌, ok_or, and_then,
  if◌then◌else◌, ltb,
}
use fresnica.Text.{codes}
use fresnica.Int.{
  ℤ, pos, negsuc, max_zero, saturating_add, saturating_sub, checked_mul, u32_max, ltb_ℤ,
}
use fresnica.Decimal.{parse_i64}
use fresnica.Amount.{parse_stroops}
use fresnica.Json.{Json}

pub record LedgerParameters : Type 0 where
  pub base_fee_in_stroops : ℕ
  pub base_reserve_in_stroops : ℤ

-- `unwrap_or`
abbrev pub unwrap_or {ℓ} : {A : Type ℓ} → Option A → A → A
unwrap_or none d = d
unwrap_or (some a) d = a

module _ (J : Json) where
  open J use {Value, get, as_str, as_i64, as_array}

  -- `value.get(key).and_then(Value::as_str)`
  unfoldable pub text : Value → Text → Option Text
  text value key = and_then (get value key) as_str

  -- `value.get(key).and_then(Value::as_array)`
  unfoldable pub array : Value → Text → Option (List Value)
  array value key = and_then (get value key) as_array

  -- A string is parsed, a number is taken if it is an `i64`.
  unfoldable pub integer : Option Value → Option ℤ
  integer none = none
  integer (some value) = elim (as_str value) [ some t ↦ parse_i64 t | none ↦ as_i64 value ]

  unfoldable pub account_sequence : Value → Outcome ℤ
  account_sequence account =
      ok_or (and_then (text account (codes "sequence")) parse_i64)
        (codes "Horizon returned invalid account sequence")

  -- `2 + subentries + sponsoring - sponsored` base reserves.
  unfoldable pub reserve_units : Value → ℤ
  reserve_units account =
      let subentries = unwrap_or (integer (get account (codes "subentry_count"))) (pos 0) in
      let sponsoring = unwrap_or (integer (get account (codes "num_sponsoring"))) (pos 0) in
      let sponsored = unwrap_or (integer (get account (codes "num_sponsored"))) (pos 0) in
      max_zero
        (saturating_sub (saturating_add (saturating_add (pos 2) subentries) sponsoring) sponsored)

  unfoldable pub minimum_balance_stroops : Value → ℤ → Outcome ℤ
  unfolding reserve_units
  minimum_balance_stroops account base_reserve =
      ok_or (checked_mul (reserve_units account) base_reserve) (codes "minimum balance overflow")

  unfoldable pub invalid_amount : Text → Text → Text
  invalid_amount field value = codes "Horizon returned invalid " ++ field ++ codes ": " ++ value

  -- A missing field is zero.
  unfoldable pub balance_stroops : Value → Text → Outcome ℤ
  unfolding text
  balance_stroops balance field =
      let value = unwrap_or (text balance field) (codes "0") in
      ok_or (parse_stroops value false) (invalid_amount field value)

  abbrev invalid_base_fee : Text
  invalid_base_fee = codes "Horizon returned invalid base fee"

  abbrev invalid_base_reserve : Text
  invalid_base_reserve = codes "Horizon returned invalid base reserve"

  abbrev u32_of : ℤ → Option ℕ
  u32_of (pos n) = if ltb u32_max n then none else some n
  u32_of (negsuc n) = none

  abbrev first : List Value → Option Value
  first [] = none
  first (v ∷ vs) = some v

  -- `get_ledger_parameters` behind the request: what it reads from the response.
  unfoldable pub ledger_parameters : Value → Outcome LedgerParameters
  ledger_parameters response = do
    ledger ←
        ok_or
          (and_then
            (and_then (get response (codes "_embedded")) λ value. array value (codes "records"))
            first)
          (codes "Horizon returned no ledger data")
    base_fee ←
        ok_or (and_then (integer (get ledger (codes "base_fee_in_stroops"))) u32_of)
          invalid_base_fee
    base_reserve ←
        ok_or (integer (get ledger (codes "base_reserve_in_stroops"))) invalid_base_reserve
    if ltb_ℤ base_reserve (pos 0)
        then err invalid_base_reserve
        else ok (record { base_fee_in_stroops = base_fee; base_reserve_in_stroops = base_reserve })
