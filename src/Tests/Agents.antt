-- ===== src/Tests/Agents.antt =====
-- A capability and a transaction of the sample wallet.
use fresnica.Prelude.{ℕ, ◌≡◌, ◌↔◌, refl, none, some, [], ◌∷◌, Text}
use fresnica.Text.{codes, text_eq, trim, trim_start, is_whitespace}
use fresnica.Int.{pos}
use fresnica.Stellar.{
  MuxedAccount, OperationBody, bump_sequence, Operation, Transaction, TransactionEnvelope,
  Preconditions, no_memo,
}
use fresnica.AgentAccess.{
  AgentAccessError, Access, refused, granted, AgentCapability, AgentAuthorization, insert_sorted,
  sort, dedup_from, dedup, contains_type, new_capability, muxed_account_public_key,
  authorize_operations, authorize_transaction, authorize_envelope, authorize_agent_transaction,
  sign_agent_transaction,
}
use fresnica.AgentAccess.Capability.{IsCapability, new_capability-IsCapability}
use fresnica.AgentAccess.Allowed.{IsAllowed, authorize_agent_transaction_iff}
use fresnica.AgentAccess.Refused.{
  IsFirstUnlisted, authorize_operations-unlisted, sign_agent_transaction-IsAllowed,
}
use fresnica.Tests.Sample.{sample_stellar, source_id}

abbrev type_of : OperationBody Text Text → ℕ
type_of body = elim body [ bump_sequence n ↦ 11 | OperationBody.create_account k n ↦ 0 | _ ↦ 1 ]

abbrev capability : AgentCapability
capability = record {
  public_key = source_id;
  network_passphrase = codes "test";
  allowed_operations = 0 ∷ 11 ∷ [];
  max_operations = 2;
  max_fee = 500;
  expires_at_unix = some 2000;
}

abbrev operation : OperationBody Text Text → Operation sample_stellar
operation body = record { source_account = none; body = body }

abbrev transaction : Transaction sample_stellar
transaction = record {
  source_account = MuxedAccount.ed25519 source_id;
  fee = 200;
  seq_num = pos 8;
  cond = Preconditions.no_preconditions;
  memo = no_memo;
  operations =
      operation (bump_sequence (pos 9))
      ∷ operation (OperationBody.create_account (codes "GB") (pos 5))
      ∷ [];
}

abbrev unsigned : TransactionEnvelope sample_stellar
unsigned = TransactionEnvelope.tx transaction []

capability_made :
    new_capability sample_stellar Text type_of
      (codes " GA ")
      (codes "test")
      (11 ∷ 0 ∷ 11 ∷ [])
      2
      500
      (some 2000)
    ≡ granted capability
unfolding new_capability insert_sorted sort dedup_from dedup trim trim_start is_whitespace codes
capability_made = refl

new_capability-IsCapability_example :
    IsCapability sample_stellar capability
    × ((t : ℕ) → contains_type t capability.allowed_operations ≡ contains_type t (11 ∷ 0 ∷ 11 ∷ []))
new_capability-IsCapability_example =
    new_capability-IsCapability sample_stellar Text type_of (codes " GA ") (codes "test")
      (11 ∷ 0 ∷ 11 ∷ []) 2 500 (some 2000) capability_made

abbrev authorization : AgentAuthorization
authorization = record { public_key = source_id; operation_types = 11 ∷ 0 ∷ []; fee = 200 }

authorize_agent_transaction_iff_example :
    (authorize_agent_transaction sample_stellar Text type_of capability unsigned (codes "test") 1000
      ≡ granted authorization)
    ↔ IsAllowed sample_stellar Text type_of capability (codes "test") 1000 unsigned authorization
authorize_agent_transaction_iff_example =
    authorize_agent_transaction_iff sample_stellar Text type_of capability (codes "test") 1000
      unsigned authorization

abbrev payment : OperationBody Text Text
payment = OperationBody.other_operation (codes "x")

other_type_refused :
    authorize_operations sample_stellar Text type_of capability
      (MuxedAccount.ed25519 source_id)
      0
      (operation (bump_sequence (pos 9)) ∷ operation payment ∷ [])
    ≡ refused (AgentAccessError.operation_not_allowed 1 1)
unfolding authorize_operations muxed_account_public_key text_eq codes
other_type_refused = refl

authorize_operations-unlisted_example :
    IsFirstUnlisted sample_stellar Text type_of capability
      (MuxedAccount.ed25519 source_id)
      0
      1
      1
      (operation (bump_sequence (pos 9)) ∷ operation payment ∷ [])
authorize_operations-unlisted_example =
    authorize_operations-unlisted sample_stellar Text type_of capability
      (MuxedAccount.ed25519 source_id) 0 1 1
      (operation (bump_sequence (pos 9)) ∷ operation payment ∷ []) other_type_refused

-- A signer that adds one signature.
abbrev sign :
    TransactionEnvelope sample_stellar → Text → Access Text (TransactionEnvelope sample_stellar)
sign envelope passphrase = granted (TransactionEnvelope.tx transaction (codes "s" ∷ []))

signed_once :
    sign_agent_transaction sample_stellar Text type_of sign capability unsigned
      (codes "test")
      1000
      source_id
    ≡ granted (authorization, TransactionEnvelope.tx transaction (codes "s" ∷ []))
unfolding sign_agent_transaction authorize_agent_transaction authorize_envelope
    authorize_transaction authorize_operations muxed_account_public_key text_eq codes
signed_once = refl

sign_agent_transaction-IsAllowed_example :
    (key : Text) × (some source_id ≡ some key)
    × (key ≡ source_id)
    × IsAllowed sample_stellar Text type_of capability (codes "test") 1000 unsigned authorization
    × (sign unsigned (codes "test") ≡ granted (TransactionEnvelope.tx transaction (codes "s" ∷ [])))
sign_agent_transaction-IsAllowed_example =
    sign_agent_transaction-IsAllowed sample_stellar Text type_of sign capability unsigned
      (codes "test") 1000 source_id signed_once
