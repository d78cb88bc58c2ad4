-- ===== src/AgentAccess.antt =====
-- What an agent may sign (core/rust/src/agent_access.rs): a capability for one account and network
-- with a list of allowed operations and limits, the test of a transaction against it, and signing.
--
-- The operation type of a body and the signing itself come from the crates `stellar_xdr` and the
-- Core signer, and are arguments. Operation types are their numbers.
pub mod Capability
pub mod Allowed
pub mod Refused
use fresnica.Prelude.{
  ℕ, suc, Bool, true, false, not, ◌==◌, ltb, leb, Option, none, some, List, [], ◌∷◌, map, any,
  length, Text, if◌then◌else◌,
}
use fresnica.Text.{text_eq, trim, is_empty}
use fresnica.Stellar.{
  Stellar, MuxedAccount, OperationBody, Operation, Transaction, TransactionEnvelope,
}

pub data AgentAccessError (E : Type 0) : Type 0 where
  invalid_capability_account empty_network_passphrase empty_operation_allowlist : AgentAccessError E
  invalid_max_operations network_not_allowed capability_expired : AgentAccessError E
  unsupported_envelope preexisting_signatures transaction_source_not_allowed : AgentAccessError E
  fee_limit_exceeded : ℕ → ℕ → AgentAccessError E
  no_operations : AgentAccessError E
  operation_count_exceeded : ℕ → ℕ → AgentAccessError E
  operation_source_not_allowed : ℕ → AgentAccessError E
  operation_not_allowed : ℕ → ℕ → AgentAccessError E
  signer_not_allowed : AgentAccessError E
  transaction_signing : E → AgentAccessError E

-- `Result<T, AgentAccessError>`
pub data Access (E A : Type 0) : Type 0 where
  refused : AgentAccessError E → Access E A
  granted : A → Access E A

-- The `?` operator.
abbrev pub ◌>>=◌ : {E A B : Type 0} (access : Access E A) (next : A → Access E B) → Access E B
refused e >>= next = refused e
granted a >>= next = next a

infixl 5 ◌>>=◌
abbrev pub ◌>>◌ : {E A : Type 0} (check : Access E (Unit {0})) (next : Access E A) → Access E A
check >> next = check >>= λ passed. next

infixl 5 ◌>>◌
-- `if test { return Err(error) }`
abbrev pub refuse_if : {E : Type 0} → Bool → AgentAccessError E → Access E (Unit {0})
refuse_if true e = refused e
refuse_if false e = granted tt

abbrev pub granted_or : {E A : Type 0} → Option A → AgentAccessError E → Access E A
granted_or none e = refused e
granted_or (some a) e = granted a

pub record AgentCapability : Type 0 where
  pub public_key : Text
  pub network_passphrase : Text
  pub allowed_operations : List ℕ
  pub max_operations : ℕ
  pub max_fee : ℕ
  pub expires_at_unix : Option ℕ

pub record AgentAuthorization : Type 0 where
  pub public_key : Text
  pub operation_types : List ℕ
  pub fee : ℕ

-- `sort_unstable`
unfoldable pub insert_sorted : ℕ → List ℕ → List ℕ
insert_sorted x [] = x ∷ []
insert_sorted x (y ∷ ys) = let rest = insert_sorted x ys in if leb x y then x ∷ y ∷ ys else y ∷ rest

unfoldable pub sort : List ℕ → List ℕ
sort [] = []
sort (x ∷ xs) = insert_sorted x (sort xs)

-- `dedup`, behind the element `x` that is kept last.
unfoldable pub dedup_from : ℕ → List ℕ → List ℕ
dedup_from x [] = x ∷ []
dedup_from x (y ∷ ys) =
    let same = dedup_from x ys in let other = dedup_from y ys in if x == y then same else x ∷ other

unfoldable pub dedup : List ℕ → List ℕ
dedup [] = []
dedup (x ∷ xs) = dedup_from x xs

abbrev pub contains_type : ℕ → List ℕ → Bool
contains_type t types = any (λ u. u == t) types

abbrev pub is_expired : ℕ → Option ℕ → Bool
is_expired now none = false
is_expired now (some expires_at) = leb expires_at now

abbrev pub is_nil : {A : Type 0} → List A → Bool
is_nil [] = true
is_nil (x ∷ xs) = false

module _ (X : Stellar) (E : Type 0) (operation_type : OperationBody X.Key X.Contents → ℕ) where
  open X use {Key, Contents, account_from_str, account_text}

  unfoldable pub new_capability : Text → Text → List ℕ → ℕ → ℕ → Option ℕ → Access E AgentCapability
  new_capability public_key network_passphrase allowed_operations max_operations max_fee
        expires_at_unix =
      do
        public ←
            granted_or (account_from_str (trim public_key))
              AgentAccessError.invalid_capability_account
        refuse_if (is_empty network_passphrase) AgentAccessError.empty_network_passphrase
        refuse_if (is_nil allowed_operations) AgentAccessError.empty_operation_allowlist
        refuse_if (max_operations == 0) AgentAccessError.invalid_max_operations
        granted (record {
          public_key = account_text public;
          network_passphrase = network_passphrase;
          allowed_operations = dedup (sort allowed_operations);
          max_operations = max_operations;
          max_fee = max_fee;
          expires_at_unix = expires_at_unix;
        })

  unfoldable pub muxed_account_public_key : MuxedAccount Key → Text
  muxed_account_public_key (MuxedAccount.ed25519 key) = account_text key
  muxed_account_public_key (MuxedAccount.muxed id key) = account_text key

  -- `operation.source_account.as_ref().unwrap_or(&tx.source_account)`
  abbrev pub source_of : MuxedAccount Key → Operation X → MuxedAccount Key
  source_of transaction_source operation = elim operation.source_account [
    | none ↦ transaction_source
    | some source ↦ source
  ]

  -- The loop over the operations, from an index on.
  unfoldable pub authorize_operations :
      AgentCapability → MuxedAccount Key → ℕ → List (Operation X) → Access E (List ℕ)
  authorize_operations capability source index [] = granted []
  authorize_operations capability source index (operation ∷ operations) = do
    refuse_if
        (not
          (text_eq (muxed_account_public_key (source_of source operation)) capability.public_key))
        (AgentAccessError.operation_source_not_allowed index)
    refuse_if (not (contains_type (operation_type operation.body) capability.allowed_operations))
        (AgentAccessError.operation_not_allowed index (operation_type operation.body))
    types ← authorize_operations capability source (suc index) operations
    granted (operation_type operation.body ∷ types)

  unfoldable pub authorize_transaction :
      AgentCapability → Transaction X → Access E AgentAuthorization
  authorize_transaction capability tx = do
    refuse_if (not (text_eq (muxed_account_public_key tx.source_account) capability.public_key))
        AgentAccessError.transaction_source_not_allowed
    refuse_if (ltb capability.max_fee tx.fee)
        (AgentAccessError.fee_limit_exceeded tx.fee capability.max_fee)
    refuse_if (length tx.operations == 0) AgentAccessError.no_operations
    refuse_if (ltb capability.max_operations (length tx.operations))
        (AgentAccessError.operation_count_exceeded (length tx.operations) capability.max_operations)
    types ← authorize_operations capability tx.source_account 0 tx.operations
    granted (record { public_key = capability.public_key; operation_types = types; fee = tx.fee })

  unfoldable pub authorize_envelope :
      AgentCapability → TransactionEnvelope X → Access E AgentAuthorization
  authorize_envelope capability (TransactionEnvelope.tx tx signatures) =
      refuse_if (not (is_nil signatures)) AgentAccessError.preexisting_signatures
      >> authorize_transaction capability tx
  authorize_envelope capability (TransactionEnvelope.other_envelope c) =
      refused AgentAccessError.unsupported_envelope

  unfoldable pub authorize_agent_transaction :
      AgentCapability → TransactionEnvelope X → Text → ℕ → Access E AgentAuthorization
  authorize_agent_transaction capability envelope network_passphrase now_unix = do
    refuse_if (not (text_eq network_passphrase capability.network_passphrase))
        AgentAccessError.network_not_allowed
    refuse_if (is_expired now_unix capability.expires_at_unix) AgentAccessError.capability_expired
    authorize_envelope capability envelope

  -- `sign` answers the signed envelope; the envelope is unchanged where nothing was signed.
  module _ (sign : TransactionEnvelope X → Text → Access E (TransactionEnvelope X)) where
    unfoldable pub sign_agent_transaction :
        AgentCapability
        → TransactionEnvelope X
        → Text
        → ℕ
        → Text
        → Access E (AgentAuthorization × TransactionEnvelope X)
    sign_agent_transaction capability envelope network_passphrase now_unix signer_key = do
      signer ← granted_or (account_from_str signer_key) AgentAccessError.signer_not_allowed
      refuse_if (not (text_eq (account_text signer) capability.public_key))
          AgentAccessError.signer_not_allowed
      authorization ← authorize_agent_transaction capability envelope network_passphrase now_unix
      signed ← sign envelope network_passphrase
      granted (authorization, signed)
