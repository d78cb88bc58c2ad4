-- ===== src/Authorization/Account/Laws.antt =====
-- An account state that was read is well formed: weights and thresholds are bytes, and no signer is
-- there twice.
use fresnica.Prelude.{
  ℕ, ◌≤◌, ◌≡◌, false, List, [], ◌∷◌, Text, ok, >>=-eq-ok, arith, Option-cases, inl, inr, and_then,
  subst, ok_or, ok-injective, fail_if-eq-ok,
}
use fresnica.Stellar.{Stellar}
use fresnica.Text.{codes}
use fresnica.Horizon.{array}
use fresnica.Json.{Json}
use fresnica.Collections.{contains, insert}
use fresnica.Authorization.{
  condition_ord, Conditions, WeightedLedgerSigner, LedgerAccountAuthorization,
}
use fresnica.Authorization.Account.{
  json_string, json_u8, signer_type_kind, read_signer, read_signers, account_from_horizon,
}

-- Each weight is a byte, and no condition is in the set or stands earlier in the list.
abbrev pub AreDistinct : Conditions → List WeightedLedgerSigner → Type 0
AreDistinct conditions [] = Unit
AreDistinct conditions (s ∷ signers) =
    (contains conditions s.condition ≡ false)
    × (s.weight ≤ 255)
    × AreDistinct (insert s.condition conditions) signers

pub record IsWellFormed (a : LedgerAccountAuthorization) : Type 0 where
  pub low_byte : a.low_threshold ≤ 255
  pub medium_byte : a.medium_threshold ≤ 255
  pub high_byte : a.high_threshold ≤ 255
  pub distinct : AreDistinct [] a.signers

module _ (J : Json) where
  json_u8-le : (v : J.Value) (field label : Text) {n : ℕ} → json_u8 J v field label ≡ ok n → n ≤ 255
  unfolding json_u8
  json_u8-le v field label {n} h = elim (Option-cases (and_then (J.get v field) J.as_u64)) [
    | inl e ↦ absurd (ground arith)
    | inr (m, e) ↦ ground arith
  ]

module _ (X : Stellar) (J : Json) where
  read_signer_lem :
      (conditions : Conditions) (v : J.Value) {s : WeightedLedgerSigner}
      → read_signer X J conditions v ≡ ok s
      → (contains conditions s.condition ≡ false) × (s.weight ≤ 255)
  unfolding read_signer
  read_signer_lem conditions v {s} h =
      let (key, _, h₁) = >>=-eq-ok (json_string J v (codes "key") (codes "Horizon signer")) _ h in
      let (type, _, h₂) =
        >>=-eq-ok (json_string J v (codes "type") (codes "Horizon signer")) _ h₁ in
      let (kind, _, h₃) = >>=-eq-ok (signer_type_kind type) _ h₂ in
      let (parsed, _, h₄) = >>=-eq-ok (ok_or (X.signer_from_str key) _) _ h₃ in
      let (_, h₅) = fail_if-eq-ok _ _ _ h₄ in
      let (weight, read, h₆) =
        >>=-eq-ok (json_u8 J v (codes "weight") (codes "Horizon signer")) _ h₅ in
      let (fresh, h₇) = fail_if-eq-ok _ _ _ h₆ in
      subst (λ r. (contains conditions r.condition ≡ false) × (r.weight ≤ 255)) (ok-injective h₇)
        (fresh, json_u8-le J v (codes "weight") (codes "Horizon signer") read)

  pub read_signers-AreDistinct :
      (raw : List J.Value) (conditions : Conditions) {signers : List WeightedLedgerSigner}
      → read_signers X J raw conditions ≡ ok signers
      → AreDistinct conditions signers
  unfolding read_signers
  read_signers-AreDistinct [] conditions h = subst (AreDistinct conditions) (ok-injective h) tt
  read_signers-AreDistinct (v ∷ raw) conditions h =
      let (s, first, h') = >>=-eq-ok (read_signer X J conditions v) _ h in
      let (rest, others, h'') =
        >>=-eq-ok (read_signers X J raw (insert s.condition conditions)) _ h' in
      let (fresh, byte) = read_signer_lem conditions v first in
      subst (AreDistinct conditions) (ok-injective h'')
        (fresh, byte, read_signers-AreDistinct raw (insert s.condition conditions) others)

  -- Every account state that is read from a document has thresholds and weights of a byte, and lists
  -- no signer condition twice.
  pub account_from_horizon-IsWellFormed :
      (v : J.Value) {a : LedgerAccountAuthorization}
      → account_from_horizon X J v ≡ ok a
      → IsWellFormed a
  unfolding account_from_horizon
  account_from_horizon-IsWellFormed v h =
      let label = codes "Horizon account thresholds" in
      let (id, _, h₁) = >>=-eq-ok (json_string J v (codes "account_id") _) _ h in
      let (key, _, h₂) = >>=-eq-ok (ok_or (X.account_from_str id) _) _ h₁ in
      let (thresholds, _, h₃) = >>=-eq-ok (ok_or (J.get v (codes "thresholds")) _) _ h₂ in
      let (low, l, h₄) = >>=-eq-ok (json_u8 J thresholds (codes "low_threshold") label) _ h₃ in
      let (medium, m, h₅) = >>=-eq-ok (json_u8 J thresholds (codes "med_threshold") label) _ h₄ in
      let (high, g, h₆) = >>=-eq-ok (json_u8 J thresholds (codes "high_threshold") label) _ h₅ in
      let (raw, _, h₇) = >>=-eq-ok (ok_or (array J v (codes "signers")) _) _ h₆ in
      let (signers, s, h₈) = >>=-eq-ok (read_signers X J raw []) _ h₇ in
      subst IsWellFormed (ok-injective h₈) (record {
        low_byte = json_u8-le J thresholds (codes "low_threshold") label l;
        medium_byte = json_u8-le J thresholds (codes "med_threshold") label m;
        high_byte = json_u8-le J thresholds (codes "high_threshold") label g;
        distinct = read_signers-AreDistinct raw [] s;
      })
