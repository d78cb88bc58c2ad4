-- ===== src/Authorization/Plan.antt =====
-- The plan of a Classic transaction: the accounts whose authorization it uses, with the threshold
-- of each use, merged to one requirement for each account.
pub mod Laws
use fresnica.Prelude.{
  ℕ, suc, ◌+◌, max, Bool, true, false, Option, none, some, List, [], ◌∷◌, ◌++◌, map, Text, Outcome,
  ok, err, ◌>>=◌, ok_or, if◌then◌else◌,
}
use fresnica.Text.{codes, text_eq}
use fresnica.Decimal.{digits}
use fresnica.Stellar
use fresnica.Stellar.{
  Stellar, MuxedAccount, SignerKey, OperationBody, Operation, Preconditions, TransactionEnvelope,
}
use fresnica.Collections.{contains, insert, map_get, map_insert}
use fresnica.Authorization
use fresnica.Authorization.{
  AuthorizationThreshold, low, medium, LedgerSignerKind, LedgerSignerCondition, condition_ord,
  Conditions, LedgerAccountAuthorization, ClassicOperationKind, AuthorizationScope,
  AuthorizationUse, WeightedLedgerSigner, AccountAuthorizationRequirement, LedgerAuthorizationPlan,
  threshold_weight,
}

pub record RequiredAuthorizationUse : Type 0 where
  pub account_id : Text
  pub scope : AuthorizationScope
  pub threshold : AuthorizationThreshold

unfoldable pub operation_authorization :
    {K C : Type 0} → OperationBody K C → Option (ClassicOperationKind × AuthorizationThreshold)
operation_authorization (OperationBody.create_account d a) =
    some (ClassicOperationKind.create_account, medium)
operation_authorization (OperationBody.payment d s a) = some (ClassicOperationKind.payment, medium)
operation_authorization (OperationBody.manage_sell_offer c) =
    some (ClassicOperationKind.manage_sell_offer, medium)
operation_authorization (OperationBody.manage_buy_offer c) =
    some (ClassicOperationKind.manage_buy_offer, medium)
operation_authorization (OperationBody.change_trust l a) =
    some (ClassicOperationKind.change_trust, medium)
operation_authorization (OperationBody.manage_data c) =
    some (ClassicOperationKind.manage_data, medium)
operation_authorization (OperationBody.invoke_host_function c) =
    some (ClassicOperationKind.invoke_host_function, medium)
operation_authorization (OperationBody.bump_sequence n) =
    some (ClassicOperationKind.bump_sequence, low)
operation_authorization (OperationBody.other_operation c) = none

abbrev unsupported_envelope : Text
unsupported_envelope = codes "Ledger Authorization currently supports TransactionV1Envelope only"

unfoldable pub unsupported_operation : ℕ → Text
unsupported_operation index =
    codes "Ledger Authorization does not yet support Classic operation #" ++ digits index

module _ (X : Stellar) where
  open X use {Key, Payload, Contents, account_text, signer_text}

  unfoldable pub authorization_account_id : MuxedAccount Key → Text
  authorization_account_id (MuxedAccount.ed25519 key) = account_text key
  authorization_account_id (MuxedAccount.muxed id key) = account_text key

  -- The account that an operation acts for: its own source, or the transaction's.
  abbrev pub operation_source : Text → Operation X → Text
  operation_source transaction_source op = elim op.source_account [
    | none ↦ transaction_source
    | some account ↦ authorization_account_id account
  ]

  unfoldable pub operation_uses :
      Text → ℕ → List (Operation X) → Outcome (List RequiredAuthorizationUse)
  operation_uses transaction_source index [] = ok []
  operation_uses transaction_source index (op ∷ ops) = do
    found ← ok_or (operation_authorization op.body) (unsupported_operation index)
    rest ← operation_uses transaction_source (suc index) ops
    ok (
        record {
          account_id = operation_source transaction_source op;
          scope = AuthorizationScope.operation index found.0;
          threshold = found.1;
        }
        ∷ rest)

  unfoldable pub classic_authorization_uses :
      TransactionEnvelope X → Outcome (List RequiredAuthorizationUse)
  unfolding operation_uses
  classic_authorization_uses (TransactionEnvelope.other_envelope c) = err unsupported_envelope
  classic_authorization_uses (TransactionEnvelope.tx t signatures) = do
    let source = authorization_account_id t.source_account
    rest ← operation_uses source 0 t.operations
    ok (
        record {
          account_id = source;
          scope = AuthorizationScope.transaction_source;
          threshold = low;
        }
        ∷ rest)

  abbrev signer_kind : SignerKey Key Payload → LedgerSignerKind
  signer_kind (SignerKey.ed25519_key k) = LedgerSignerKind.ed25519_public_key
  signer_kind (SignerKey.pre_auth_tx k) = LedgerSignerKind.preauthorized_transaction
  signer_kind (SignerKey.hash_x k) = LedgerSignerKind.hash_x
  signer_kind (SignerKey.signed_payload p) = LedgerSignerKind.ed25519_signed_payload

  abbrev pub signer_condition : SignerKey Key Payload → LedgerSignerCondition
  signer_condition signer = record { kind = signer_kind signer; key = signer_text signer }

  abbrev duplicate_extra_signer : Text
  duplicate_extra_signer = codes "PreconditionsV2.extraSigners contains a duplicate signer"

  unfoldable pub insert_conditions : List (SignerKey Key Payload) → Conditions → Outcome Conditions
  insert_conditions [] conditions = ok conditions
  insert_conditions (signer ∷ signers) conditions =
      let rest = insert_conditions signers (insert (signer_condition signer) conditions) in
      if contains conditions (signer_condition signer) then err duplicate_extra_signer else rest

  unfoldable pub extra_signer_conditions : TransactionEnvelope X → Outcome Conditions
  unfolding insert_conditions
  extra_signer_conditions (TransactionEnvelope.other_envelope c) = err unsupported_envelope
  extra_signer_conditions (TransactionEnvelope.tx t signatures) = elim t.cond [
    | Preconditions.no_preconditions ↦ ok []
    | Preconditions.time bounds ↦ ok []
    | Preconditions.v2 bounds signers ↦ insert_conditions signers []
  ]

-- The index of the account states by their id; a duplicate is an error.
abbrev pub AccountIndex : Type 0
AccountIndex = List (Text × LedgerAccountAuthorization)

unfoldable pub duplicate_account : Text → Text
duplicate_account id = codes "duplicate ledger authorization state for " ++ id

unfoldable pub index_accounts :
    List LedgerAccountAuthorization → AccountIndex → Outcome AccountIndex
index_accounts [] index = ok index
index_accounts (account ∷ accounts) index =
    let rest = index_accounts accounts (map_insert account.account_id account index) in
    elim (map_get account.account_id index) [
      | some old ↦ err (duplicate_account account.account_id)
      | none ↦ rest
    ]

-- Adds a use to the requirement of its account, or a new requirement at the end.
unfoldable pub merge_requirement :
    Text
    → ℕ
    → AuthorizationUse
    → List WeightedLedgerSigner
    → List AccountAuthorizationRequirement
    → List AccountAuthorizationRequirement
merge_requirement id required authorization_use signers [] =
    record {
      account_id = id;
      required_weight = required;
      uses = authorization_use ∷ [];
      signers = signers;
    }
    ∷ []
merge_requirement id required authorization_use signers (r ∷ requirements) =
    let rest = merge_requirement id required authorization_use signers requirements in
    if text_eq r.account_id id
    then record r {
      required_weight = max r.required_weight required;
      uses = r.uses ++ authorization_use ∷ [];
    }
      ∷ requirements
    else r ∷ rest

unfoldable pub missing_account : Text → Text
missing_account id = codes "missing ledger authorization state for source account " ++ id

-- What a use is recorded as: with the raw threshold of the account.
abbrev pub recorded_use : LedgerAccountAuthorization → RequiredAuthorizationUse → AuthorizationUse
recorded_use account required_use = record {
  scope = required_use.scope;
  threshold = required_use.threshold;
  required_weight = threshold_weight account required_use.threshold;
}

-- A threshold of zero still needs a signer: the effective requirement is at least one, and the
-- recorded use keeps the raw threshold.
unfoldable pub add_requirement :
    List AccountAuthorizationRequirement
    → AccountIndex
    → RequiredAuthorizationUse
    → Outcome (List AccountAuthorizationRequirement)
add_requirement requirements index required_use = do
  account ← ok_or (map_get required_use.account_id index) (missing_account required_use.account_id)
  let weight = threshold_weight account required_use.threshold
  ok (
      merge_requirement required_use.account_id (max weight 1) (recorded_use account required_use)
        account.signers requirements)

unfoldable pub add_requirements :
    AccountIndex
    → List RequiredAuthorizationUse
    → List AccountAuthorizationRequirement
    → Outcome (List AccountAuthorizationRequirement)
add_requirements index [] requirements = ok requirements
add_requirements index (u ∷ uses) requirements = do
  next ← add_requirement requirements index u
  add_requirements index uses next

unfoldable pub plan_classic_ledger_authorization :
    (X : Stellar)
    → TransactionEnvelope X
    → List LedgerAccountAuthorization
    → Outcome LedgerAuthorizationPlan
plan_classic_ledger_authorization X envelope accounts = do
  uses ← classic_authorization_uses X envelope
  extra ← extra_signer_conditions X envelope
  index ← index_accounts accounts []
  requirements ← add_requirements index uses []
  ok (record { requirements = requirements; extra_signers = extra })
