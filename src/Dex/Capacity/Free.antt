-- ===== src/Dex/Capacity/Free.antt =====
-- The exact sums behind what an account has free and what it can take.
use fresnica.Prelude.{
  ℕ, ◌<◌, ◌≡◌, false, some, List, find, ok, ok_or, >>=-eq-ok, ok-injective, ok_or-eq-ok, arith,
  Option-cases, inl, inr,
}
use fresnica.Text.{codes}
use fresnica.Int.{ℤ, pos, ◌+ℤ◌, ◌≤ℤ◌, ltb_ℤ, max_zero, saturating_sub}
use fresnica.Stellar.{Stellar, Asset}
use fresnica.Json.{Json}
use fresnica.Horizon.{array, balance_stroops}
use fresnica.AssetId.{matches_balance}
use fresnica.Payment.Funds.Native.{IsUnits, balance_stroops_range}
use fresnica.Dex.Capacity.{free_of, available_balance}

-- A balance of the asset covers the amount beside what its offers sell.
pub Covers : (X : Stellar) (J : Json) → J.Value → Asset X.Key → ℤ → Type 0
Covers X J account asset amount =
    (balances : List J.Value) × (raw : J.Value) × (array J account (codes "balances")
      ≡ some balances)
    × (find (matches_balance X J asset) balances ≡ some raw)
    × (balance : ℤ) × (selling : ℤ) × (balance_stroops J raw (codes "balance") ≡ ok balance)
    × (balance_stroops J raw (codes "selling_liabilities") ≡ ok selling)
    × (amount +ℤ selling ≤ℤ balance)

free_covers :
    (b s free : ℤ) (n : ℕ)
    → IsUnits b
    → IsUnits s
    → max_zero (saturating_sub b s) ≡ free
    → 0 < n
    → ltb_ℤ free (pos n) ≡ false
    → pos n +ℤ s ≤ℤ b
unfolding saturating_sub ◌+ℤ◌
free_covers b s free n (bn, eb, hb) (sn, es, hs) e positive h = ground arith

module _ (X : Stellar) (J : Json) (account : J.Value) (asset : Asset X.Key) (n : ℕ)
    (positive : 0 < n) where
  -- A positive amount up to what is available is covered.
  pub available_balance-Covers :
      {available : ℤ}
      → available_balance X J account asset ≡ ok available
      → ltb_ℤ available (pos n) ≡ false
      → Covers X J account asset (pos n)
  unfolding available_balance free_of Covers
  available_balance-Covers {available} h enough =
      let (balances, listed, h₁) = >>=-eq-ok (ok_or (array J account (codes "balances")) _) _ h in
      elim (Option-cases (find (matches_balance X J asset) balances)) [
        | inl missing ↦
            let nothing : pos 0 ≡ available = ok-injective (rw missing at h₁) in
            absurd (ground arith)
        | inr (raw, found) ↦
            let (balance, b, h₂) =
              >>=-eq-ok (balance_stroops J raw (codes "balance")) _ (rw found at h₁) in
            let (selling, s, h₃) =
              >>=-eq-ok (balance_stroops J raw (codes "selling_liabilities")) _ h₂ in
            (
              balances,
              raw,
              ok_or-eq-ok _ _ listed,
              found,
              balance,
              selling,
              b,
              s,
              free_covers balance selling available n
                  (balance_stroops_range J raw (codes "balance") b)
                  (balance_stroops_range J raw (codes "selling_liabilities") s) (ok-injective h₃)
                  positive enough,
            )
      ]
