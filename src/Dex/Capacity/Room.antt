-- ===== src/Dex/Capacity/Room.antt =====
-- What `receiving_capacity` promises: how an account can take an amount.
use fresnica.Prelude.{
  ℕ, ◌<◌, ◌≡◌, refl, true, false, Option, none, some, List, find, Text, ok, ok_or, >>=-eq-ok,
  ok-injective, ok_or-eq-ok, arith, Option-cases, Bool-cases, inl, inr,
}
use fresnica.Text.{codes}
use fresnica.Int.{ℤ, pos, ◌≤ℤ◌, ltb_ℤ, i64_max}
use fresnica.Stellar.{Stellar, Asset}
use fresnica.Json.{Json}
use fresnica.Horizon.{array, balance_stroops, unwrap_or}
use fresnica.AssetId.{is_native, issuer_is, matches_balance}
use fresnica.Payment.Funds.Native.{balance_stroops_range}
use fresnica.Payment.Funds.{committed_amount}
use fresnica.Payment.Funds.Receivable.{Holds, native_fits, trustline_fits, committed_parts}
use fresnica.Dex.Capacity.{native_room, trustline_room, receiving_capacity}

-- How an account can take `n` stroops of the asset, with or without a trustline that is added.
pub data CanTake (X : Stellar) (J : Json) (account : J.Value) (id : Text) (asset : Asset X.Key)
    (added : Option ℤ) (n : ℕ) : Type 0 where
  at_issuer : issuer_is X asset id ≡ true → CanTake X J account id asset added n
  in_lumens :
      is_native asset ≡ true
      → (balances : List J.Value) (raw : J.Value)
      → array J account (codes "balances") ≡ some balances
      → find (matches_balance X J asset) balances ≡ some raw
      → Holds J raw n (pos i64_max)
      → CanTake X J account id asset added n
  in_trustline :
      is_native asset ≡ false
      → (balances : List J.Value) (raw : J.Value)
      → array J account (codes "balances") ≡ some balances
      → find (matches_balance X J asset) balances ≡ some raw
      → (limit : ℤ) → balance_stroops J raw (codes "limit") ≡ ok limit
      → Holds J raw n limit
      → CanTake X J account id asset added n
  in_new_trustline :
      is_native asset ≡ false
      → (limit : ℤ) → added ≡ some limit
      → pos n ≤ℤ limit
      → CanTake X J account id asset added n

within_limit :
    (added : Option ℤ) (capacity : ℤ) (n : ℕ)
    → unwrap_or added (pos 0) ≡ capacity
    → 0 < n
    → ltb_ℤ capacity (pos n) ≡ false
    → (limit : ℤ) × (added ≡ some limit) × (pos n ≤ℤ limit)
within_limit none capacity n e positive h = absurd (ground arith)
within_limit (some limit) capacity n e positive h = (limit, refl, ground arith)

module _ (X : Stellar) (J : Json) (n : ℕ) (positive : 0 < n) where
  native_room_lem :
      (found : Option J.Value) {capacity : ℤ}
      → native_room X J found ≡ ok capacity
      → ltb_ℤ capacity (pos n) ≡ false
      → (raw : J.Value) × (found ≡ some raw) × Holds J raw n (pos i64_max)
  unfolding native_room
  native_room_lem found {capacity} h enough =
      let (raw, there, h₁) = >>=-eq-ok (ok_or found _) _ h in
      let (taken, c, h₂) = >>=-eq-ok (committed_amount X J raw _) _ h₁ in
      let (balance, buying, b, s, exact, fits) = committed_parts X J raw _ c in
      (
        raw,
        ok_or-eq-ok _ _ there,
        (
          balance,
          buying,
          b,
          s,
          native_fits balance buying taken capacity n
              (balance_stroops_range J raw (codes "balance") b)
              (balance_stroops_range J raw (codes "buying_liabilities") s) exact fits
              (ok-injective h₂) positive enough,
        ),
      )

  trustline_room_lem :
      (added : Option ℤ) (raw : J.Value) {capacity : ℤ}
      → trustline_room X J added (some raw) ≡ ok capacity
      → ltb_ℤ capacity (pos n) ≡ false
      → (limit : ℤ) × (balance_stroops J raw (codes "limit") ≡ ok limit) × Holds J raw n limit
  unfolding trustline_room
  trustline_room_lem added raw {capacity} h enough =
      let (limit, l, h₁) = >>=-eq-ok (balance_stroops J raw (codes "limit")) _ h in
      let (taken, c, h₂) = >>=-eq-ok (committed_amount X J raw _) _ h₁ in
      let (balance, buying, b, s, exact, fits) = committed_parts X J raw _ c in
      (
        limit,
        l,
        (
          balance,
          buying,
          b,
          s,
          trustline_fits limit balance buying taken capacity n
              (balance_stroops_range J raw (codes "limit") l)
              (balance_stroops_range J raw (codes "balance") b)
              (balance_stroops_range J raw (codes "buying_liabilities") s) exact fits
              (ok-injective h₂) positive enough,
        ),
      )

  no_trustline :
      (added : Option ℤ) {capacity : ℤ}
      → trustline_room X J added none ≡ ok capacity
      → ltb_ℤ capacity (pos n) ≡ false
      → (limit : ℤ) × (added ≡ some limit) × (pos n ≤ℤ limit)
  unfolding trustline_room
  no_trustline added {capacity} h enough =
      within_limit added capacity n (ok-injective h) positive enough

  -- A positive amount up to the receiving capacity can be taken.
  pub receiving_capacity-CanTake :
      (account : J.Value) (id : Text) (asset : Asset X.Key) (added : Option ℤ) {capacity : ℤ}
      → receiving_capacity X J account asset id added ≡ ok capacity
      → ltb_ℤ capacity (pos n) ≡ false
      → CanTake X J account id asset added n
  unfolding receiving_capacity
  receiving_capacity-CanTake account id asset added h enough =
      elim (Bool-cases (issuer_is X asset id)) [
        | inl issuing ↦ at_issuer issuing
        | inr taking ↦
            let (balances, listed, h₁) =
              >>=-eq-ok (ok_or (array J account (codes "balances")) _) _ (rw taking at h) in
            let there = ok_or-eq-ok _ _ listed in
            let found = find (matches_balance X J asset) balances in
            elim (Bool-cases (is_native asset)) [
              | inl lumens ↦
                  let (raw, e, room) = native_room_lem found (rw lumens at h₁) enough in
                  in_lumens lumens balances raw there e room
              | inr issued ↦ elim (Option-cases found) [
                | inl missing ↦
                    let (limit, e, fits) = no_trustline added (rw (issued, missing) at h₁) enough in
                    in_new_trustline issued limit e fits
                | inr (raw, e) ↦
                    let (limit, l, room) =
                      trustline_room_lem added raw (rw (issued, e) at h₁) enough in
                    in_trustline issued balances raw there e limit l room
              ]
            ]
      ]
