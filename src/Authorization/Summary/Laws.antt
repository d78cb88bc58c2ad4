-- ===== src/Authorization/Summary/Laws.antt =====
-- The totals of a review follow from what it shows of each account and signer.
use fresnica.Prelude.{
  ◌≡◌, refl, Bool, true, false, ◌&&◌, ◌||◌, List, [], ◌∷◌, ◌++◌, map, all, All, All-map, ap₂, Text,
  arith, leb, ◌==◌, Bool-cases, inl, inr,
}
use fresnica.Collections.{text_ord, contains, insert, collect, is_subset}
use fresnica.Collections.Laws.{
  contains-insert, contains-insert_self, insert-Within, contains-cons, contains-nil,
}
use fresnica.Authorization.{
  LedgerSignerCondition, condition_ord, condition_eq_iff, Conditions,
  AccountAuthorizationRequirement, LedgerAuthorizationPlan, requirement_satisfiable,
  plan_satisfiable,
}
use fresnica.Authorization.Summary.{
  satisfied, unavailable_locally, ExtraSignerSnapshot, AccountAuthorizationSnapshot, is_local,
  signer_availability, signer_conditions, add_local, after_local, account_snapshot, extra_snapshot,
  summarize_ledger_authorization,
}

module _ (local_keys : List Text) where
  contains-add_local :
      (cs met : Conditions) (d : LedgerSignerCondition)
      → contains (add_local local_keys cs met) d
        ≡ (contains met d || (contains cs d && is_local local_keys d))
  unfolding add_local
  contains-add_local [] met d = ground (arith, contains-nil d)
  contains-add_local (c ∷ cs) met d = elim (Bool-cases (is_local local_keys c)) [
    | inl here ↦ rw here (
        ground (
          arith,
          contains-add_local cs (insert c met) d,
          contains-cons c cs d,
          contains-insert c d met,
          condition_eq_iff c d,
        ))
    | inr other ↦
        rw other
          (ground (arith, contains-add_local cs met d, contains-cons c cs d, condition_eq_iff c d))
  ]

-- Nothing is lost when a list is collected into a set.
collect-prefix :
    (cs ds : List LedgerSignerCondition) → All (λ c. contains (collect (cs ++ ds)) c ≡ true) cs
unfolding collect
collect-prefix [] ds = tt
collect-prefix (c ∷ cs) ds = (
  contains-insert_self c (collect (cs ++ ds)),
  All-map _ _ cs (insert-Within c (collect (cs ++ ds))) (collect-prefix cs ds),
)

-- What a review says of an extra signer and of an account.
abbrev pub is_met : ExtraSignerSnapshot → Bool
is_met e = elim e.availability [ satisfied ↦ true | _ ↦ false ]

abbrev pub is_reachable : ExtraSignerSnapshot → Bool
is_reachable e = elim e.availability [ unavailable_locally ↦ false | _ ↦ true ]

abbrev pub has_reached : AccountAuthorizationSnapshot → Bool
has_reached a = leb a.required_weight a.satisfied_weight

abbrev pub has_no_remaining : AccountAuthorizationSnapshot → Bool
has_no_remaining a = a.remaining_weight == 0

module _ (met met_locally : Conditions) (local_keys : List Text) where
  accounts-reached :
      (rs : List AccountAuthorizationRequirement)
      → all (requirement_satisfiable met) rs
        ≡ all has_reached (map (account_snapshot met met_locally local_keys) rs)
  unfolding requirement_satisfiable
  accounts-reached [] = refl
  accounts-reached (r ∷ rs) = ground (arith, accounts-reached rs)

  accounts-no_remaining :
      (rs : List AccountAuthorizationRequirement)
      → all (requirement_satisfiable met_locally) rs
        ≡ all has_no_remaining (map (account_snapshot met met_locally local_keys) rs)
  unfolding requirement_satisfiable
  accounts-no_remaining [] = refl
  accounts-no_remaining (r ∷ rs) = ground (arith, accounts-no_remaining rs)

  extras-met :
      (es : Conditions) → is_subset es met ≡ all is_met (map (extra_snapshot met local_keys) es)
  unfolding is_subset signer_availability
  extras-met [] = refl
  extras-met (c ∷ es) = ground (arith, extras-met es)

extras-reachable :
    (conditions met : Conditions) (local_keys : List Text) (es : Conditions)
    → All (λ c. contains conditions c ≡ true) es
    → is_subset es (add_local local_keys conditions met)
      ≡ all is_reachable (map (extra_snapshot met local_keys) es)
unfolding is_subset signer_availability
extras-reachable conditions met local_keys [] h = refl
extras-reachable conditions met local_keys (c ∷ es) (hc, hs) = ground (
  arith,
  contains-add_local local_keys conditions met c,
  extras-reachable conditions met local_keys es hs,
)

-- In every review, the transaction is shown as satisfied exactly when each extra signer is shown as
-- satisfied and each account has reached its weight, and as locally satisfiable exactly when no
-- extra signer is shown as unavailable and no account has weight remaining.
pub summarize_totals :
    (plan : LedgerAuthorizationPlan) (met : Conditions) (local_keys : List Text) (hash : Text)
    → let review = summarize_ledger_authorization plan met local_keys hash in
      (review.satisfied ≡ (all is_met review.extra_signers && all has_reached review.accounts))
      × (review.locally_satisfiable
          ≡ (all is_reachable review.extra_signers && all has_no_remaining review.accounts))
unfolding summarize_ledger_authorization plan_satisfiable signer_conditions
summarize_totals plan met local_keys hash =
    let met_locally = after_local plan met local_keys in
    (
      ap₂ ◌&&◌ (extras-met met met_locally local_keys plan.extra_signers)
          (accounts-reached met met_locally local_keys plan.requirements),
      ap₂ ◌&&◌
          (extras-reachable (signer_conditions plan) met local_keys plan.extra_signers
            (collect-prefix plan.extra_signers _))
          (accounts-no_remaining met met_locally local_keys plan.requirements),
    )
