-- ===== src/Signing/Select/Weights.antt =====
-- More available signers never weigh less, and the best available signer is a usable one.
use fresnica.Prelude.{
  ℕ, ◌+◌, ◌≤◌, ◌<◌, ◌≡◌, refl, true, false, Option, none, some, List, [], ◌∷◌, length, Text, arith,
  if◌then◌else◌, all, Bool-cases, inl, inr, ◌⊎◌, All,
}
use fresnica.Collections.{insert, text_ord}
use fresnica.Collections.Laws.{Within, contains-insert, contains-insert_self}
use fresnica.Authorization.{
  LedgerSignerCondition, condition_ord, Conditions, WeightedLedgerSigner,
  AccountAuthorizationRequirement, signer_weight, requirement_satisfiable,
}
use fresnica.Signing.Select.{usable, heavier, best_from, best_available_signer}

pub signer_weight_mono :
    (signers : List WeightedLedgerSigner) (s t : Conditions)
    → Within s t
    → signer_weight signers s ≤ signer_weight signers t
unfolding signer_weight
signer_weight_mono [] s t h = omega arith
signer_weight_mono (a ∷ signers) s t h =
    ground (arith, signer_weight_mono signers s t h, h a.condition)

pub requirements_mono :
    (rs : List AccountAuthorizationRequirement) (s t : Conditions)
    → Within s t
    → all (requirement_satisfiable s) rs ≡ true
    → all (requirement_satisfiable t) rs ≡ true
unfolding requirement_satisfiable
requirements_mono [] s t h a = refl
requirements_mono (r ∷ rs) s t h a =
    ground (arith, signer_weight_mono r.signers s t h, requirements_mono rs s t h)

-- The number of signers that can still be chosen.
abbrev pub usable_count : Conditions → List Text → List WeightedLedgerSigner → ℕ
usable_count current available [] = 0
usable_count current available (s ∷ signers) =
    (if usable current available s then 1 else 0) + usable_count current available signers

pub usable_count-le :
    (current : Conditions) (available : List Text) (signers : List WeightedLedgerSigner)
    → usable_count current available signers ≤ length signers
usable_count-le current available [] = omega arith
usable_count-le current available (s ∷ signers) =
    ground (arith, usable_count-le current available signers)

pub usable_count_mono :
    (current : Conditions) (available : List Text) (signers : List WeightedLedgerSigner)
    (c : LedgerSignerCondition)
    → usable_count (insert c current) available signers ≤ usable_count current available signers
usable_count_mono current available [] c = omega arith
usable_count_mono current available (s ∷ signers) c =
    ground
      (arith, usable_count_mono current available signers c, contains-insert c s.condition current)

module _ (current : Conditions) (available : List Text) where
  -- A chosen signer was the best so far, or is usable and stands in the list.
  best_from-some :
      (signers : List WeightedLedgerSigner) (best : Option WeightedLedgerSigner)
      {b : WeightedLedgerSigner}
      → best_from current available signers best ≡ some b
      → (best ≡ some b)
        ⊎ ((usable current available b ≡ true)
            × (usable_count (insert b.condition current) available signers
                < usable_count current available signers))
  unfolding best_from
  best_from-some [] best h = inl h
  best_from-some (s ∷ signers) best {b} h = elim (Bool-cases (usable current available s)) [
    | inr skipped ↦
        let h' : best_from current available signers best ≡ some b = ground arith in
        ground (
          arith,
          best_from-some signers best h',
          usable_count_mono current available (s ∷ []) b.condition,
        )
    | inl taken ↦
        let h' : best_from current available signers (some (heavier best s)) ≡ some b =
          ground arith in
        ground (
          arith,
          best_from-some signers (some (heavier best s)) h',
          usable_count_mono current available (s ∷ []) b.condition,
          usable_count_mono current available signers b.condition,
          contains-insert b.condition b.condition current,
          contains-insert_self b.condition current,
        )
  ]

  pub best_from-none :
      (signers : List WeightedLedgerSigner) (best : Option WeightedLedgerSigner)
      → best_from current available signers best ≡ none
      → (best ≡ none) × All (λ s. usable current available s ≡ false) signers
  unfolding best_from
  best_from-none [] best h = (h, tt)
  best_from-none (s ∷ signers) best h = elim (Bool-cases (usable current available s)) [
    | inr skipped ↦
        let (e, rest) = best_from-none signers best (ground arith) in (e, (skipped, rest))
    | inl taken ↦
        let (e, rest) = best_from-none signers (some (heavier best s)) (ground arith) in cc
  ]

  pub best_lem :
      (signers : List WeightedLedgerSigner) {b : WeightedLedgerSigner}
      → best_available_signer signers current available ≡ some b
      → (usable current available b ≡ true)
        × (usable_count (insert b.condition current) available signers
            < usable_count current available signers)
  best_lem signers h = elim (best_from-some signers none h) [
    | inl e ↦ absurd (cc)
    | inr found ↦ found
  ]
