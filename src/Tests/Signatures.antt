-- ===== src/Tests/Signatures.antt =====
-- Plans, their signers and their reviews on two accounts.
use fresnica.Prelude.{
  inl, inr, arith, ◌≤◌, ◌≡◌, ◌≢◌, refl, true, ◌&&◌, none, some, List, [], ◌∷◌, all, All, Text, ok,
}
use fresnica.Text.{codes, text_eq}
use fresnica.Int.{pos}
use fresnica.Stellar.{MuxedAccount, OperationBody, Memo, Preconditions, TransactionEnvelope, native}
use fresnica.Horizon.{text, array}
use fresnica.Collections.{text_ord, text_lt, contains, insert, is_subset, map_get, map_insert}
use fresnica.Authorization.{
  LedgerSignerCondition, AuthorizationThreshold, AuthorizationScope, ClassicOperationKind,
  condition_ord, LedgerAccountAuthorization, LedgerAuthorizationPlan, threshold_weight,
  signer_weight, requirement_satisfiable, plan_satisfiable,
}
use fresnica.Authorization.Plan.{
  RequiredAuthorizationUse, operation_authorization, authorization_account_id, operation_uses,
  classic_authorization_uses, insert_conditions, extra_signer_conditions, index_accounts,
  merge_requirement, add_requirement, add_requirements, plan_classic_ledger_authorization,
}
use fresnica.Authorization.Plan.Laws.{account_state, account_authorizes, plan_satisfiable-uses}
use fresnica.Authorization.Account.{
  signer_type_kind, json_string, json_u8, read_signer, read_signers, account_from_horizon,
}
use fresnica.Authorization.Account.Laws.{IsWellFormed, account_from_horizon-IsWellFormed}
use fresnica.Authorization.Summary.{summarize_ledger_authorization}
use fresnica.Authorization.Summary.Laws.{
  is_met, is_reachable, has_reached, has_no_remaining, summarize_totals,
}
use fresnica.Signing.Select.{
  select_ed25519_signers, select_from, select_extras, fill_weights, fill_weight, fill_count,
  best_from, plan_signers, count_ed25519,
}
use fresnica.Signing.Select.Fuel.{select_ed25519_signers-ends}
use fresnica.Signing.Select.Sound.{ed25519_condition, with_keys, select_ed25519_signers_sound}
use fresnica.Signing.Select.Complete.{IsProofs, select_ed25519_signers_complete}
use fresnica.Tests.Sample.{
  sample_json, sample_stellar, source_id, destination_id, source_account, field,
}

abbrev both_ids : List Text
both_ids = source_id ∷ destination_id ∷ []

-- One account with two signers that must both sign.
abbrev shared_plan : LedgerAuthorizationPlan
shared_plan = record {
  requirements =
      record {
        account_id = source_id;
        required_weight = 2;
        uses = [];
        signers =
            record { condition = ed25519_condition source_id; weight = 1 }
            ∷ record { condition = ed25519_condition destination_id; weight = 1 }
            ∷ [];
      }
      ∷ [];
  extra_signers = [];
}

abbrev both_chosen : List Text
both_chosen = destination_id ∷ source_id ∷ []

select_both : select_ed25519_signers shared_plan [] both_ids 1 ≡ some (ok both_chosen)
unfolding select_ed25519_signers select_from select_extras fill_weights fill_weight fill_count
    best_from plan_signers count_ed25519 signer_weight contains insert text_eq text_lt codes
select_both = refl

select_ed25519_signers_sound_example :
    All (λ k. contains both_ids k ≡ true) both_chosen
    × (plan_satisfiable shared_plan (with_keys [] both_chosen) ≡ true)
    × (1 ≤ count_ed25519 (with_keys [] both_chosen))
select_ed25519_signers_sound_example =
    select_ed25519_signers_sound shared_plan [] both_ids 1 select_both

both_satisfy : plan_satisfiable shared_plan (with_keys [] both_ids) ≡ true
unfolding plan_satisfiable requirement_satisfiable is_subset signer_weight contains insert text_eq
    text_lt codes
both_satisfy = refl

abbrev both_conditions : List LedgerSignerCondition
both_conditions = ed25519_condition source_id ∷ ed25519_condition destination_id ∷ []

both-IsProofs : IsProofs both_ids (plan_signers shared_plan.requirements) both_conditions
unfolding plan_signers contains text_eq codes
both-IsProofs = record {
  distinct = (refl, (refl, tt));
  listed = (inl refl, (inr (inl refl), tt));
  ed25519 = (refl, (refl, tt));
  at_hand = (refl, (refl, tt));
}

select_ed25519_signers_complete_example :
    (keys : List Text) × (select_ed25519_signers shared_plan [] both_ids 2 ≡ some (ok keys))
select_ed25519_signers_complete_example =
    select_ed25519_signers_complete shared_plan [] both_ids 2 both_conditions both_satisfy
      both-IsProofs (omega arith)

select_ed25519_signers-ends_example :
    select_ed25519_signers shared_plan [] (source_id ∷ []) 1 ≢ none
select_ed25519_signers-ends_example = select_ed25519_signers-ends shared_plan [] (source_id ∷ []) 1

abbrev source_state : LedgerAccountAuthorization
source_state = record {
  account_id = source_id;
  low_threshold = 0;
  medium_threshold = 1;
  high_threshold = 2;
  signers = record { condition = ed25519_condition source_id; weight = 1 } ∷ [];
}

read_source : account_from_horizon sample_stellar sample_json source_account ≡ ok source_state
unfolding account_from_horizon read_signers read_signer json_string json_u8 signer_type_kind text
    array text_eq field codes contains insert
read_source = refl

account_from_horizon-IsWellFormed_example : IsWellFormed source_state
account_from_horizon-IsWellFormed_example =
    account_from_horizon-IsWellFormed sample_stellar sample_json source_account read_source

abbrev payment_envelope : TransactionEnvelope sample_stellar
payment_envelope =
    TransactionEnvelope.tx
      (record {
        source_account = MuxedAccount.ed25519 source_id;
        fee = 100;
        seq_num = pos 8;
        cond = Preconditions.no_preconditions;
        memo = Memo.no_memo;
        operations =
            record {
              source_account = none;
              body = OperationBody.payment (MuxedAccount.ed25519 destination_id) native (pos 5);
            }
            ∷ [];
      })
      []

abbrev payment_uses : List RequiredAuthorizationUse
payment_uses =
    record {
      account_id = source_id;
      scope = AuthorizationScope.transaction_source;
      threshold = AuthorizationThreshold.low;
    }
    ∷ record {
      account_id = source_id;
      scope = AuthorizationScope.operation 0 ClassicOperationKind.payment;
      threshold = AuthorizationThreshold.medium;
    }
    ∷ []

abbrev pub payment_plan : LedgerAuthorizationPlan
payment_plan = record {
  requirements =
      record {
        account_id = source_id;
        required_weight = 1;
        uses =
            record {
              scope = AuthorizationScope.transaction_source;
              threshold = AuthorizationThreshold.low;
              required_weight = 0;
            }
            ∷ record {
              scope = AuthorizationScope.operation 0 ClassicOperationKind.payment;
              threshold = AuthorizationThreshold.medium;
              required_weight = 1;
            }
            ∷ [];
        signers = source_state.signers;
      }
      ∷ [];
  extra_signers = [];
}

uses_of_payment : classic_authorization_uses sample_stellar payment_envelope ≡ ok payment_uses
unfolding classic_authorization_uses operation_uses operation_authorization authorization_account_id
uses_of_payment = refl

extras_of_payment : extra_signer_conditions sample_stellar payment_envelope ≡ ok []
unfolding extra_signer_conditions insert_conditions
extras_of_payment = refl

plan_of_payment :
    plan_classic_ledger_authorization sample_stellar payment_envelope (source_state ∷ [])
    ≡ ok payment_plan
unfolding plan_classic_ledger_authorization classic_authorization_uses operation_uses
    operation_authorization authorization_account_id extra_signer_conditions insert_conditions
    index_accounts add_requirements add_requirement merge_requirement map_get map_insert text_eq
    text_lt codes threshold_weight
plan_of_payment = refl

plan_satisfiable-uses_example : plan_satisfiable payment_plan (with_keys [] both_ids) ≡ (
    is_subset [] (with_keys [] both_ids)
    && all
        (λ u.
          account_authorizes
            (account_state (source_state ∷ []) u.account_id)
            u
            (with_keys [] both_ids))
        payment_uses)
plan_satisfiable-uses_example =
    plan_satisfiable-uses sample_stellar payment_envelope (source_state ∷ []) uses_of_payment
      extras_of_payment plan_of_payment (with_keys [] both_ids)

summarize_totals_example :
    let review = summarize_ledger_authorization shared_plan [] (source_id ∷ []) (codes "ab") in
    (review.satisfied ≡ (all is_met review.extra_signers && all has_reached review.accounts))
    × (review.locally_satisfiable
        ≡ (all is_reachable review.extra_signers && all has_no_remaining review.accounts))
summarize_totals_example = summarize_totals shared_plan [] (source_id ∷ []) (codes "ab")
