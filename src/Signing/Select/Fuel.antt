-- ===== src/Signing/Select/Fuel.antt =====
-- The loops of the selection always end by their test: the fuel is enough.
use fresnica.Prelude.{
  ℕ, zero, suc, ◌<◌, ◌≢◌, refl, Option, none, some, List, [], ◌∷◌, length, Text, Outcome, ok, err,
  arith, Option-cases, inl, inr,
}
use fresnica.Authorization.{
  Conditions, condition_ord, WeightedLedgerSigner, AccountAuthorizationRequirement,
  LedgerAuthorizationPlan,
}
use fresnica.Signing.Select.{
  Selection, best_available_signer, choose, fill_weight, fill_weights, then_select, fill_count,
  plan_signers, select_extras, selected_keys, select_ed25519_signers,
}
use fresnica.Signing.Select.Weights.{usable_count, usable_count-le, best_lem}

then_select-ends :
    (r : Option (Outcome Selection)) (f : Selection → Option (Outcome Selection))
    → r ≢ none
    → ((s : Selection) → f s ≢ none)
    → then_select r f ≢ none
then_select-ends none f h k = h
then_select-ends (some (err e)) f h k = cc
then_select-ends (some (ok s)) f h k = k s

selected_keys-ends : (r : Option (Outcome Selection)) → r ≢ none → selected_keys r ≢ none
selected_keys-ends none h = absurd (h refl)
selected_keys-ends (some (err e)) h = cc
selected_keys-ends (some (ok s)) h = cc

some-ends : (r : Outcome Selection) → some r ≢ none
some-ends r = cc

module _ (available : List Text) where
  fill_weight-ends :
      (fuel : ℕ) (r : AccountAuthorizationRequirement) (s : Selection)
      → usable_count s.current available r.signers < fuel
      → fill_weight fuel available r s ≢ none
  unfolding fill_weight
  fill_weight-ends zero r s h = absurd (omega arith)
  fill_weight-ends (suc fuel) r s h =
      elim (Option-cases (best_available_signer r.signers s.current available)) [
        | inl e ↦ ground arith
        | inr (b, e) ↦
            let (_, fewer) = best_lem s.current available r.signers e in
            ground (arith, fill_weight-ends fuel r (choose b.condition s) (omega arith))
      ]

  pub fill_weights-ends :
      (rs : List AccountAuthorizationRequirement) (s : Selection)
      → fill_weights available rs s ≢ none
  unfolding fill_weights
  fill_weights-ends [] s = cc
  fill_weights-ends (r ∷ rs) s =
      then_select-ends _ _
        (fill_weight-ends (suc (length r.signers)) r s
          (omega (arith, usable_count-le s.current available r.signers)))
        (fill_weights-ends rs)

  pub fill_count-ends :
      (fuel : ℕ) (signers : List WeightedLedgerSigner) (minimum : ℕ) (s : Selection)
      → usable_count s.current available signers < fuel
      → fill_count fuel available signers minimum s ≢ none
  unfolding fill_count
  fill_count-ends zero signers minimum s h = absurd (omega arith)
  fill_count-ends (suc fuel) signers minimum s h =
      elim (Option-cases (best_available_signer signers s.current available)) [
        | inl e ↦ ground arith
        | inr (b, e) ↦
            let (_, fewer) = best_lem s.current available signers e in
            ground
              (arith, fill_count-ends fuel signers minimum (choose b.condition s) (omega arith))
      ]

-- For every plan, set of satisfied conditions, set of available signers and least number of
-- signatures, the selection ends: its loops never run out of fuel.
pub select_ed25519_signers-ends :
    (plan : LedgerAuthorizationPlan) (satisfied : Conditions) (available : List Text) (minimum : ℕ)
    → select_ed25519_signers plan satisfied available minimum ≢ none
unfolding select_ed25519_signers
select_ed25519_signers-ends plan satisfied available minimum =
    let signers = plan_signers plan.requirements in
    selected_keys-ends _ (
      then_select-ends
        (some (
          select_extras available plan.extra_signers
            (record { current = satisfied; selected = [] })))
        _ (λ e. some-ends _ e)
        λ s. then_select-ends _ _ (fill_weights-ends available plan.requirements s) λ t.
          fill_count-ends available (suc (length signers)) signers minimum t
            (omega (arith, usable_count-le t.current available signers)))
