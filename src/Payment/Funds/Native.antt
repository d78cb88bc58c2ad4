-- ===== src/Payment/Funds/Native.antt =====
-- What `native_free` and `ensure_payment_fee_capacity` leave of a native balance, by exact sums.
use fresnica.Prelude.{
  ℕ, ◌≤◌, ◌<◌, ◌≡◌, refl, false, find, Text, ok, ok_or, >>=-eq-ok, ok-injective, fail_if-ok,
  ok_or-eq-ok, Bool, List, some, zero, suc, ◌⊎◌, arith, Option-cases, inl, inr, subst,
}
use fresnica.Text.{codes}
use fresnica.Int.{ℤ, pos, ◌+ℤ◌, ◌≤ℤ◌, IsI64, ltb_ℤ, max_zero, saturating_sub, i64_max}
use fresnica.Int.Laws.{saturating_sub-IsI64}
use fresnica.Amount.{parse_stroops}
use fresnica.Amount.Parse.{parse_stroops_iff}
use fresnica.Json.{Json}
use fresnica.Horizon.{
  text, array, balance_stroops, minimum_balance_stroops, LedgerParameters, unwrap_or,
}
use fresnica.Payment.Funds.{native_free, is_native_balance, ensure_payment_fee_capacity}

-- A non-negative `i64`, as every amount that is read.
abbrev pub IsUnits : ℤ → Type 0
IsUnits z = (n : ℕ) × (z ≡ pos n) × (n ≤ i64_max)

-- With both saturating differences: a positive number of stroops up to what is left is covered.
left_covers :
    (b s m left : ℤ) (n : ℕ)
    → IsUnits b
    → IsUnits s
    → saturating_sub (saturating_sub b s) m ≡ left
    → 0 < n
    → pos n ≤ℤ left
    → pos n +ℤ m +ℤ s ≤ℤ b
unfolding saturating_sub ◌+ℤ◌
left_covers b s m left n (bn, eb, hb) (sn, es, hs) e positive le = ground arith

module _ (J : Json) where
  -- The first balance that the account lists and that passes the test.
  abbrev pub Listed : J.Value → (J.Value → Bool) → J.Value → Type 0
  Listed account test raw =
      (balances : List J.Value) × (array J account (codes "balances") ≡ some balances)
      × (find test balances ≡ some raw)

  -- The native balance covers the amount, the offers and the least balance of the account.
  abbrev pub NativeCovers : J.Value → J.Value → LedgerParameters → ℤ → Type 0
  NativeCovers account raw ledger amount =
      (balance : ℤ) × (selling : ℤ) × (minimum : ℤ) × (balance_stroops J raw (codes "balance")
        ≡ ok balance)
      × (balance_stroops J raw (codes "selling_liabilities") ≡ ok selling)
      × (minimum_balance_stroops J account ledger.base_reserve_in_stroops ≡ ok minimum)
      × (amount +ℤ minimum +ℤ selling ≤ℤ balance)

  -- Every amount that is read from a balance is a non-negative `i64`.
  pub balance_stroops_range :
      (v : J.Value) (field : Text) {z : ℤ} → balance_stroops J v field ≡ ok z → IsUnits z
  unfolding balance_stroops
  balance_stroops_range v field {z} h =
      let value = unwrap_or (text J v field) (codes "0") in
      elim (Option-cases (parse_stroops value false)) [
        | inl e ↦ absurd (ground arith)
        | inr (y, e) ↦
            let (n, exact, _, fits, _) = (parse_stroops_iff value false y).0 e in
            (n, ground arith, fits)
      ]

  -- Spending up to what is left leaves the offers and the least balance covered.
  pub native_free_lem :
      (account raw : J.Value) (ledger : LedgerParameters) (n : ℕ) {left : ℤ}
      → native_free J account raw ledger ≡ ok left
      → 0 < n
      → pos n ≤ℤ left
      → NativeCovers account raw ledger (pos n)
  unfolding native_free
  native_free_lem account raw ledger n {left} h positive le =
      let (balance, b, h₁) = >>=-eq-ok (balance_stroops J raw (codes "balance")) _ h in
      let (selling, s, h₂) = >>=-eq-ok (balance_stroops J raw (codes "selling_liabilities")) _ h₁ in
      let (minimum, m, h₃) =
        >>=-eq-ok (minimum_balance_stroops J account ledger.base_reserve_in_stroops) _ h₂ in
      (
        balance,
        selling,
        minimum,
        b,
        s,
        m,
        left_covers balance selling minimum left n (balance_stroops_range raw (codes "balance") b)
            (balance_stroops_range raw (codes "selling_liabilities") s) (ok-injective h₃) positive
            le,
      )

  pub native_free-IsI64 :
      (account raw : J.Value) (ledger : LedgerParameters) {left : ℤ}
      → native_free J account raw ledger ≡ ok left
      → IsI64 left
  unfolding native_free
  native_free-IsI64 account raw ledger h =
      let (balance, _, h₁) = >>=-eq-ok (balance_stroops J raw (codes "balance")) _ h in
      let (selling, _, h₂) = >>=-eq-ok (balance_stroops J raw (codes "selling_liabilities")) _ h₁ in
      let (minimum, _, h₃) =
        >>=-eq-ok (minimum_balance_stroops J account ledger.base_reserve_in_stroops) _ h₂ in
      subst IsI64 (ok-injective h₃) (saturating_sub-IsI64 (saturating_sub balance selling) minimum)

  -- The native balance covers the base fee beside the offers and the least balance; a fee of zero
  -- asks for nothing.
  abbrev pub FeeCovered : J.Value → LedgerParameters → Type 0
  FeeCovered account ledger =
      (raw : J.Value) × Listed account (is_native_balance J) raw
      × ((ledger.base_fee_in_stroops ≡ 0)
          ⊎ NativeCovers account raw ledger (pos ledger.base_fee_in_stroops))

  reaches_left :
      (fee : ℕ) (left : ℤ) → 0 < fee → ltb_ℤ (max_zero left) (pos fee) ≡ false → pos fee ≤ℤ left
  reaches_left fee left positive h = ground arith

  zero_or_positive : (n : ℕ) → (n ≡ 0) ⊎ (0 < n)
  zero_or_positive zero = inl refl
  zero_or_positive (suc n) = inr (omega arith)

  pub ensure_payment_fee_capacity-FeeCovered :
      (account : J.Value) (ledger : LedgerParameters)
      → ensure_payment_fee_capacity J account ledger ≡ ok tt
      → FeeCovered account ledger
  unfolding ensure_payment_fee_capacity
  ensure_payment_fee_capacity-FeeCovered account ledger h =
      let fee = ledger.base_fee_in_stroops in
      let (balances, listed, h₁) = >>=-eq-ok (ok_or (array J account (codes "balances")) _) _ h in
      let (raw, found, h₂) = >>=-eq-ok (ok_or (find (is_native_balance J) balances) _) _ h₁ in
      let (left, free, h₃) = >>=-eq-ok (native_free J account raw ledger) _ h₂ in
      let enough = fail_if-ok (ltb_ℤ (max_zero left) (pos fee)) _ h₃ in
      (
        raw,
        (balances, ok_or-eq-ok _ _ listed, ok_or-eq-ok _ _ found),
        elim (zero_or_positive fee) [
          | inl none_due ↦ inl none_due
          | inr due ↦
              inr
                (native_free_lem account raw ledger fee free due (reaches_left fee left due enough))
        ],
      )
