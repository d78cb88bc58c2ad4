-- ===== src/Payment/Funds/Receivable.antt =====
-- A payment that passes the test of `validate_destination_receive` fits its destination.
use fresnica.Prelude.{
  ℕ, ◌<◌, ◌≡◌, true, false, not, ◌&&◌, some, find, Text, ok, ok_or, >>=-eq-ok, ok-injective,
  fail_if-ok, ok_or-eq-ok, arith, and_then, Bool-cases, inl, inr,
}
use fresnica.Text.{codes}
use fresnica.Int.{ℤ, pos, ◌+ℤ◌, ◌≤ℤ◌, IsI64, ltb_ℤ, max_zero, saturating_sub, i64_max}
use fresnica.Int.Laws.{checked_add_exact}
use fresnica.Stellar.{Stellar, Asset}
use fresnica.Json.{Json}
use fresnica.Horizon.{array, balance_stroops}
use fresnica.AssetId.{is_native, issuer_is, matches_balance}
use fresnica.Payment.Funds.{
  ensure_payment_trustline_authorized, committed_amount, receiving_capacity,
  validate_destination_receive,
}
use fresnica.Payment.Funds.Native.{IsUnits, Listed, balance_stroops_range}
use fresnica.Payment.Funds.Spendable.{trustline-authorized}

-- What the destination holds and what it is committed to buy, with `n` more, stay within the limit.
abbrev pub Holds : (J : Json) → J.Value → ℕ → ℤ → Type 0
Holds J raw n limit =
    (balance : ℤ) × (buying : ℤ) × (balance_stroops J raw (codes "balance") ≡ ok balance)
    × (balance_stroops J raw (codes "buying_liabilities") ≡ ok buying)
    × (balance +ℤ buying +ℤ pos n ≤ℤ limit)

-- How an account can take `n` stroops of the asset.
pub data IsReceivable (X : Stellar) (J : Json) (account : J.Value) (id : Text) (asset : Asset X.Key)
    (n : ℕ) : Type 0 where
  at_issuer :
      is_native asset ≡ false → issuer_is X asset id ≡ true → IsReceivable X J account id asset n
  in_native :
      is_native asset ≡ true
      → (raw : J.Value) → Listed J account (matches_balance X J asset) raw
      → Holds J raw n (pos i64_max)
      → IsReceivable X J account id asset n
  in_trustline :
      is_native asset ≡ false
      → (raw : J.Value) → Listed J account (matches_balance X J asset) raw
      → and_then (J.get raw (codes "is_authorized")) J.as_bool ≡ some true
      → (limit : ℤ) → balance_stroops J raw (codes "limit") ≡ ok limit
      → Holds J raw n limit
      → IsReceivable X J account id asset n

pub native_fits :
    (b s committed capacity : ℤ) (n : ℕ)
    → IsUnits b
    → IsUnits s
    → committed ≡ b +ℤ s
    → IsI64 committed
    → saturating_sub (pos i64_max) committed ≡ capacity
    → 0 < n
    → ltb_ℤ capacity (pos n) ≡ false
    → b +ℤ s +ℤ pos n ≤ℤ pos i64_max
unfolding saturating_sub ◌+ℤ◌
native_fits b s committed capacity n (bn, eb, hb) (sn, es, hs) exact fits e positive h =
    ground arith

pub trustline_fits :
    (limit b s committed capacity : ℤ) (n : ℕ)
    → IsUnits limit
    → IsUnits b
    → IsUnits s
    → committed ≡ b +ℤ s
    → IsI64 committed
    → max_zero (saturating_sub limit committed) ≡ capacity
    → 0 < n
    → ltb_ℤ capacity (pos n) ≡ false
    → b +ℤ s +ℤ pos n ≤ℤ limit
unfolding saturating_sub ◌+ℤ◌
trustline_fits limit b s committed capacity n (ln, el, hl) (bn, eb, hb) (sn, es, hs) exact fits e
      positive h =
    ground arith

-- The two parts of what a destination is committed to.
pub committed_parts :
    (X : Stellar) (J : Json) (raw : J.Value) (message : Text) {committed : ℤ}
    → committed_amount X J raw message ≡ ok committed
    → (balance : ℤ) × (buying : ℤ) × (balance_stroops J raw (codes "balance") ≡ ok balance)
      × (balance_stroops J raw (codes "buying_liabilities") ≡ ok buying)
      × (committed ≡ balance +ℤ buying)
      × IsI64 committed
unfolding committed_amount
committed_parts X J raw message h =
    let (balance, b, h₁) = >>=-eq-ok (balance_stroops J raw (codes "balance")) _ h in
    let (buying, s, h₂) = >>=-eq-ok (balance_stroops J raw (codes "buying_liabilities")) _ h₁ in
    let (exact, fits) = checked_add_exact balance buying (ok_or-eq-ok _ _ h₂) in
    (balance, buying, b, s, exact, fits)

module _ (X : Stellar) (J : Json) (account : J.Value) (id : Text) (n : ℕ) (positive : 0 < n)
    (raw : J.Value) where
  native_capacity :
      (asset : Asset X.Key) {capacity : ℤ}
      → is_native asset ≡ true
      → Listed J account (matches_balance X J asset) raw
      → receiving_capacity X J asset raw ≡ ok capacity
      → ltb_ℤ capacity (pos n) ≡ false
      → IsReceivable X J account id asset n
  unfolding receiving_capacity
  native_capacity asset {capacity} lumens matched h enough =
      let message = codes "destination native receiving capacity overflow" in
      let (committed, c, h₁) = >>=-eq-ok (committed_amount X J raw message) _ (rw lumens at h) in
      let (balance, buying, b, s, exact, fits) = committed_parts X J raw message c in
      in_native lumens raw matched (
        balance,
        buying,
        b,
        s,
        native_fits balance buying committed capacity n
            (balance_stroops_range J raw (codes "balance") b)
            (balance_stroops_range J raw (codes "buying_liabilities") s) exact fits
            (ok-injective h₁) positive enough,
      )

  trustline_capacity :
      (asset : Asset X.Key) {capacity : ℤ}
      → is_native asset ≡ false
      → Listed J account (matches_balance X J asset) raw
      → receiving_capacity X J asset raw ≡ ok capacity
      → ltb_ℤ capacity (pos n) ≡ false
      → IsReceivable X J account id asset n
  unfolding receiving_capacity
  trustline_capacity asset {capacity} issued matched h enough =
      let message = codes "destination trustline receiving capacity overflow" in
      let (_, authorized, h₁) =
        >>=-eq-ok (ensure_payment_trustline_authorized X J raw asset) _ (rw issued at h) in
      let (limit, l, h₂) = >>=-eq-ok (balance_stroops J raw (codes "limit")) _ h₁ in
      let (committed, c, h₃) = >>=-eq-ok (committed_amount X J raw message) _ h₂ in
      let (balance, buying, b, s, exact, fits) = committed_parts X J raw message c in
      in_trustline issued raw matched (trustline-authorized X J raw asset authorized) limit l (
        balance,
        buying,
        b,
        s,
        trustline_fits limit balance buying committed capacity n
            (balance_stroops_range J raw (codes "limit") l)
            (balance_stroops_range J raw (codes "balance") b)
            (balance_stroops_range J raw (codes "buying_liabilities") s) exact fits
            (ok-injective h₃) positive enough,
      )

-- If `validate_destination_receive` passes for a positive amount, then the destination is the
-- issuer, or the native balance that it lists with its buying liabilities and the amount fits an `i64`, or it lists
-- an authorized trustline with room for the amount beside its balance and buying liabilities.
pub validate_destination_receive-IsReceivable :
    (X : Stellar) (J : Json) (account : J.Value) (id : Text) (asset : Asset X.Key) (n : ℕ)
    → 0 < n
    → validate_destination_receive X J account id asset (pos n) ≡ ok tt
    → IsReceivable X J account id asset n
unfolding validate_destination_receive
validate_destination_receive-IsReceivable X J account id asset n positive h =
    elim (Bool-cases (not (is_native asset) && issuer_is X asset id)) [
      | inl issuing ↦ at_issuer (ground arith) (ground arith)
      | inr taking ↦
          let (balances, listed, h₁) =
            >>=-eq-ok (ok_or (array J account (codes "balances")) _) _ (rw taking at h) in
          let (raw, found, h₂) =
            >>=-eq-ok (ok_or (find (matches_balance X J asset) balances) _) _ h₁ in
          let matched : Listed J account (matches_balance X J asset) raw =
            (balances, ok_or-eq-ok _ _ listed, ok_or-eq-ok _ _ found) in
          let (capacity, c, h₃) = >>=-eq-ok (receiving_capacity X J asset raw) _ h₂ in
          let enough = fail_if-ok _ _ h₃ in
          elim (Bool-cases (is_native asset)) [
            | inl lumens ↦
                native_capacity X J account id n positive raw asset lumens matched c enough
            | inr issued ↦
                trustline_capacity X J account id n positive raw asset issued matched c enough
          ]
    ]
