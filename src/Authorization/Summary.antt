-- ===== src/Authorization/Summary.antt =====
-- The review of a plan (`summarize_ledger_authorization`, `signer_availability`,
-- `signer_conditions` and `satisfied_transaction_conditions` of
-- reference/rust-client/src/ledger_authorization.rs).
pub mod Laws
use fresnica.Prelude.{
  ℕ, ◌+◌, ◌-◌, Bool, true, false, ◌&&◌, Option, none, some, List, [], ◌∷◌, ◌++◌, map, Text, String,
  Outcome, ok, err, ◌>>=◌, ok_or, if◌then◌else◌,
}
use fresnica.Text.{codes}
use fresnica.Stellar.{Stellar, SignerKey, TransactionEnvelope}
use fresnica.Collections.{text_ord, contains, insert, collect}
use fresnica.Authorization.{
  LedgerSignerKind, kind_eq, LedgerSignerCondition, condition_ord, Conditions, WeightedLedgerSigner,
  AuthorizationUse, AccountAuthorizationRequirement, LedgerAuthorizationPlan, available_weight,
  plan_satisfiable,
}

pub data LedgerSignerAvailability : Type 0 where
  satisfied local_ed25519 unavailable_locally : LedgerSignerAvailability

pub record WeightedLedgerSignerSnapshot : Type 0 where
  pub condition : LedgerSignerCondition
  pub weight : ℕ
  pub availability : LedgerSignerAvailability

pub record ExtraSignerSnapshot : Type 0 where
  pub condition : LedgerSignerCondition
  pub availability : LedgerSignerAvailability

pub record AccountAuthorizationSnapshot : Type 0 where
  pub account_id : Text
  pub required_weight : ℕ
  pub satisfied_weight : ℕ
  pub local_available_weight : ℕ
  pub remaining_weight : ℕ
  pub uses : List AuthorizationUse
  pub signers : List WeightedLedgerSignerSnapshot

pub record LedgerAuthorizationSnapshot : Type 0 where
  pub transaction_hash : Text
  pub accounts : List AccountAuthorizationSnapshot
  pub extra_signers : List ExtraSignerSnapshot
  pub satisfied : Bool
  pub locally_satisfiable : Bool

-- The condition can be met by one of the local keys.
abbrev pub is_local : List Text → LedgerSignerCondition → Bool
is_local local_keys c =
    kind_eq c.kind LedgerSignerKind.ed25519_public_key && contains local_keys c.key

unfoldable pub signer_availability :
    LedgerSignerCondition → Conditions → List Text → LedgerSignerAvailability
signer_availability c met local_keys =
    if contains met c
    then satisfied
    else if is_local local_keys c
    then local_ed25519
    else unavailable_locally

unfoldable pub requirement_conditions :
    List AccountAuthorizationRequirement → List LedgerSignerCondition
requirement_conditions [] = []
requirement_conditions (r ∷ rs) = map (λ s. s.condition) r.signers ++ requirement_conditions rs

unfoldable pub signer_conditions : LedgerAuthorizationPlan → Conditions
signer_conditions plan = collect (plan.extra_signers ++ requirement_conditions plan.requirements)

-- The loop that adds the local signers among the conditions.
unfoldable pub add_local : List Text → Conditions → Conditions → Conditions
add_local local_keys [] met = met
add_local local_keys (c ∷ conditions) met =
    add_local local_keys conditions (if is_local local_keys c then insert c met else met)

abbrev pub after_local : LedgerAuthorizationPlan → Conditions → List Text → Conditions
after_local plan met local_keys = add_local local_keys (signer_conditions plan) met

unfoldable pub signer_snapshot :
    Conditions → List Text → WeightedLedgerSigner → WeightedLedgerSignerSnapshot
signer_snapshot met local_keys s = record {
  condition = s.condition;
  weight = s.weight;
  availability = signer_availability s.condition met local_keys;
}

-- Both subtractions are `saturating_sub` on `u32`.
abbrev pub account_snapshot :
    Conditions
    → Conditions
    → List Text
    → AccountAuthorizationRequirement
    → AccountAuthorizationSnapshot
account_snapshot met met_locally local_keys r = record {
  account_id = r.account_id;
  required_weight = r.required_weight;
  satisfied_weight = available_weight r met;
  local_available_weight = available_weight r met_locally - available_weight r met;
  remaining_weight = r.required_weight - available_weight r met_locally;
  uses = r.uses;
  signers = map (signer_snapshot met local_keys) r.signers;
}

abbrev pub extra_snapshot : Conditions → List Text → LedgerSignerCondition → ExtraSignerSnapshot
extra_snapshot met local_keys c = record {
  condition = c;
  availability = signer_availability c met local_keys;
}

unfoldable pub summarize_ledger_authorization :
    LedgerAuthorizationPlan → Conditions → List Text → Text → LedgerAuthorizationSnapshot
summarize_ledger_authorization plan met local_keys hash =
    let met_locally = after_local plan met local_keys in
    record {
      transaction_hash = hash;
      accounts = map (account_snapshot met met_locally local_keys) plan.requirements;
      extra_signers = map (extra_snapshot met local_keys) plan.extra_signers;
      satisfied = plan_satisfiable plan met;
      locally_satisfiable = plan_satisfiable plan met_locally;
    }

abbrev describe_error : Outcome Bool → Outcome Bool
describe_error (ok b) = ok b
describe_error (err e) = err (codes "Unable to verify transaction signer condition: " ++ e)

-- Whether an envelope satisfies a signer key is decided by the Core library and its cryptography:
-- a parameter, with the error text that it may return.
module _ (X : Stellar)
    (satisfies : TransactionEnvelope X → Text → SignerKey X.Key X.Payload → Outcome Bool) where
  unfoldable pub met_conditions :
      TransactionEnvelope X → Text → List LedgerSignerCondition → Conditions → Outcome Conditions
  met_conditions envelope passphrase [] met = ok met
  met_conditions envelope passphrase (c ∷ conditions) met = do
    signer ←
        ok_or (X.signer_from_str c.key)
          (codes "Ledger authorization contains an invalid signer key")
    holds ← describe_error (satisfies envelope passphrase signer)
    met_conditions envelope passphrase conditions (if holds then insert c met else met)

  unfoldable pub satisfied_transaction_conditions :
      LedgerAuthorizationPlan → TransactionEnvelope X → Text → Outcome Conditions
  unfolding met_conditions
  satisfied_transaction_conditions plan envelope passphrase =
      met_conditions envelope passphrase (signer_conditions plan) []
