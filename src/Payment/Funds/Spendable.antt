-- ===== src/Payment/Funds/Spendable.antt =====
-- A transfer that passes the test of `validate_transfer` never overdraws its source.
use fresnica.Prelude.{
  ℕ, ◌+◌, ◌<◌, ◌≡◌, refl, true, false, not, ◌&&◌, Option, none, some, find, Text, ok, ok_or,
  >>=-eq-ok, ok-injective, fail_if-ok, ok_or-eq-ok, arith, and_then, Bool-cases, inl, inr, subst,
}
use fresnica.Text.{codes}
use fresnica.Int.{ℤ, pos, ◌+ℤ◌, ◌≤ℤ◌, IsI64, ltb_ℤ, max_zero, saturating_sub}
use fresnica.Stellar.{Stellar, Asset, native, credit_alphanum4, credit_alphanum12}
use fresnica.Json.{Json}
use fresnica.Horizon.{array, balance_stroops, LedgerParameters}
use fresnica.AssetId.{is_native, issuer_is, matches_balance}
use fresnica.Payment.Funds.{
  native_available, trustline_available, native_free, ensure_payment_fee_capacity,
  ensure_payment_trustline_authorized, available_amount, validate_transfer,
}
use fresnica.Payment.Funds.Native.{
  IsUnits, Listed, NativeCovers, FeeCovered, balance_stroops_range, native_free_lem,
  native_free-IsI64, ensure_payment_fee_capacity-FeeCovered,
}

-- The trustline is authorized where its test passes.
pub trustline-authorized :
    (X : Stellar) (J : Json) (raw : J.Value) (asset : Asset X.Key)
    → ensure_payment_trustline_authorized X J raw asset ≡ ok tt
    → and_then (J.get raw (codes "is_authorized")) J.as_bool ≡ some true
unfolding ensure_payment_trustline_authorized
trustline-authorized X J raw asset h = ground arith

-- What a transfer of `n` stroops needs, by the kind of the asset.
pub data IsFunded (X : Stellar) (J : Json) (account : J.Value) (id : Text) (asset : Asset X.Key)
    (n : ℕ) (ledger : LedgerParameters) : Type 0 where
  by_issuer :
      is_native asset ≡ false
      → issuer_is X asset id ≡ true
      → FeeCovered J account ledger
      → IsFunded X J account id asset n ledger
  by_native :
      is_native asset ≡ true
      → (raw : J.Value) → Listed J account (matches_balance X J asset) raw
      → NativeCovers J account raw ledger (pos n +ℤ pos ledger.base_fee_in_stroops)
      → IsFunded X J account id asset n ledger
  by_trustline :
      is_native asset ≡ false
      → (raw : J.Value) → Listed J account (matches_balance X J asset) raw
      → and_then (J.get raw (codes "is_authorized")) J.as_bool ≡ some true
      → FeeCovered J account ledger
      → (balance selling : ℤ) → balance_stroops J raw (codes "balance") ≡ ok balance
      → balance_stroops J raw (codes "selling_liabilities") ≡ ok selling
      → pos n +ℤ selling ≤ℤ balance
      → IsFunded X J account id asset n ledger

reaches_native :
    (n fee : ℕ) (left available : ℤ)
    → IsI64 left
    → 0 < n
    → max_zero (saturating_sub left (pos fee)) ≡ available
    → ltb_ℤ available (pos n) ≡ false
    → pos (n + fee) ≤ℤ left
unfolding saturating_sub
reaches_native n fee left available fits positive e h = ground arith

reaches_trustline :
    (n : ℕ) (b s available : ℤ)
    → IsUnits b
    → IsUnits s
    → 0 < n
    → max_zero (saturating_sub b s) ≡ available
    → ltb_ℤ available (pos n) ≡ false
    → pos n +ℤ s ≤ℤ b
unfolding saturating_sub ◌+ℤ◌
reaches_trustline n b s available (bn, eb, hb) (sn, es, hs) positive e h = ground arith

pos_sum : (n m : ℕ) → pos (n + m) ≡ pos n +ℤ pos m
unfolding ◌+ℤ◌
pos_sum n m = ground arith

module _ (X : Stellar) (J : Json) (account : J.Value) (id : Text) (n : ℕ)
    (ledger : LedgerParameters) (positive : 0 < n) where
  native-funded :
      (raw : J.Value) {available : ℤ}
      → Listed J account (matches_balance X J native) raw
      → native_available X J account ledger raw ≡ ok available
      → ltb_ℤ available (pos n) ≡ false
      → IsFunded X J account id native n ledger
  unfolding native_available
  native-funded raw {available} matched h enough =
      let fee = ledger.base_fee_in_stroops in
      let (left, free, h₁) = >>=-eq-ok (native_free J account raw ledger) _ h in
      let reached =
        reaches_native n fee left available (native_free-IsI64 J account raw ledger free) positive
          (ok-injective h₁) enough in
      by_native refl raw matched (
        subst (NativeCovers J account raw ledger) (pos_sum n fee)
          (native_free_lem J account raw ledger (n + fee) free (omega arith) reached))

  trustline-funded :
      (asset : Asset X.Key) (raw : J.Value) {available : ℤ}
      → is_native asset ≡ false
      → Listed J account (matches_balance X J asset) raw
      → trustline_available X J account asset ledger raw ≡ ok available
      → ltb_ℤ available (pos n) ≡ false
      → IsFunded X J account id asset n ledger
  unfolding trustline_available
  trustline-funded asset raw {available} issued matched h enough =
      let (_, authorized, h₁) = >>=-eq-ok (ensure_payment_trustline_authorized X J raw asset) _ h in
      let (_, fee, h₂) = >>=-eq-ok (ensure_payment_fee_capacity J account ledger) _ h₁ in
      let (balance, b, h₃) = >>=-eq-ok (balance_stroops J raw (codes "balance")) _ h₂ in
      let (selling, s, h₄) = >>=-eq-ok (balance_stroops J raw (codes "selling_liabilities")) _ h₃ in
      by_trustline issued raw matched (trustline-authorized X J raw asset authorized)
        (ensure_payment_fee_capacity-FeeCovered J account ledger fee) balance selling b s
        (reaches_trustline n balance selling available
          (balance_stroops_range J raw (codes "balance") b)
          (balance_stroops_range J raw (codes "selling_liabilities") s) positive (ok-injective h₄)
          enough)

  available-funded :
      (asset : Asset X.Key) (found : Option J.Value) {available : ℤ}
      → ((raw : J.Value) → found ≡ some raw → Listed J account (matches_balance X J asset) raw)
      → available_amount X J account asset ledger found ≡ ok available
      → ltb_ℤ available (pos n) ≡ false
      → IsFunded X J account id asset n ledger
  unfolding available_amount
  available-funded asset none {available} matched h enough =
      let nothing : pos 0 ≡ available = ok-injective h in absurd (ground arith)
  available-funded native (some raw) matched h enough =
      native-funded raw (matched raw refl) h enough
  available-funded (credit_alphanum4 code issuer) (some raw) matched h enough =
      trustline-funded (credit_alphanum4 code issuer) raw refl (matched raw refl) h enough
  available-funded (credit_alphanum12 code issuer) (some raw) matched h enough =
      trustline-funded (credit_alphanum12 code issuer) raw refl (matched raw refl) h enough

-- If `validate_transfer` passes for a positive amount, then the issuer pays in its own asset and
-- can pay the fee, or the native balance that the account lists covers amount, fee, offers and
-- least balance together, or an authorized trustline that it lists covers amount and offers while
-- the native balance covers the fee.
pub validate_transfer-IsFunded :
    (X : Stellar) (J : Json) (account : J.Value) (id : Text) (asset : Asset X.Key) (n : ℕ)
    (ledger : LedgerParameters)
    → 0 < n
    → validate_transfer X J account id asset (pos n) ledger ≡ ok tt
    → IsFunded X J account id asset n ledger
unfolding validate_transfer
validate_transfer-IsFunded X J account id asset n ledger positive h =
    let (balances, listed, h₁) = >>=-eq-ok (ok_or (array J account (codes "balances")) _) _ h in
    let found = find (matches_balance X J asset) balances in
    elim (Bool-cases (not (is_native asset) && issuer_is X asset id)) [
      | inl issuing ↦
          by_issuer (ground arith) (ground arith)
            (ensure_payment_fee_capacity-FeeCovered J account ledger (rw issuing at h₁))
      | inr spending ↦
          let h₂ = rw spending at h₁ in
          let (available, a, h₃) =
            >>=-eq-ok (available_amount X J account asset ledger found) _ h₂ in
          available-funded X J account id n ledger positive asset found
            (λ raw e. (balances, ok_or-eq-ok _ _ listed, e)) a (fail_if-ok _ _ h₃)
    ]
