-- ===== src/AgentAccess/Allowed.antt =====
-- Which transactions a capability allows, and what its signing does.
use fresnica.Prelude.{
  ℕ, suc, ◌≤◌, ◌<◌, ◌≡◌, ◌↔◌, refl, Bool, true, false, not, ◌==◌, ltb, List, [], ◌∷◌, All, map,
  length, Text, arith, ap, sym, ◌∙◌, subst,
}
use fresnica.Text.{text_eq}
use fresnica.Text.Laws.{text_eq_sound, text_eq_complete}
use fresnica.Stellar.{
  Stellar, MuxedAccount, OperationBody, Operation, Transaction, TransactionEnvelope,
}
use fresnica.AgentAccess.{
  granted, refuse_if, AgentCapability, AgentAuthorization, contains_type, is_expired,
  muxed_account_public_key, source_of, authorize_operations, authorize_transaction,
  authorize_envelope, authorize_agent_transaction,
}
use fresnica.AgentAccess.Capability.{granted-injective, refuse_if-granted, >>=-eq-granted}

double_negation : (b : Bool) → not b ≡ false → b ≡ true
double_negation true h = refl
double_negation false h = cc

module _ (X : Stellar) (E : Type 0) (operation_type : OperationBody X.Key X.Contents → ℕ) where
  open X use {Key, Contents, account_from_str, account_text}

  -- An operation for the account of the capability, of a type that it lists.
  abbrev pub IsPermitted : AgentCapability → MuxedAccount Key → Operation X → Type 0
  IsPermitted capability source operation =
      (muxed_account_public_key X E operation_type (source_of X E operation_type source operation)
        ≡ capability.public_key)
      × (contains_type (operation_type operation.body) capability.allowed_operations ≡ true)

  types_of : List (Operation X) → List ℕ
  types_of operations = map (λ o. operation_type o.body) operations

  operations_sound :
      (c : AgentCapability) (source : MuxedAccount Key) (index : ℕ)
      (operations : List (Operation X)) {types : List ℕ}
      → authorize_operations X E operation_type c source index operations ≡ granted types
      → All (IsPermitted c source) operations × (types ≡ types_of operations)
  unfolding authorize_operations types_of
  operations_sound c source index [] h = (tt, sym (granted-injective h))
  operations_sound c source index (o ∷ os) h =
      let (_, s, h₁) =
        >>=-eq-granted
          (refuse_if
            (not (
              text_eq
                (muxed_account_public_key X E operation_type
                  (source_of X E operation_type source o))
                c.public_key))
            _)
          _ h in
      let (_, t, h₂) =
        >>=-eq-granted
          (refuse_if (not (contains_type (operation_type o.body) c.allowed_operations)) _) _ h₁ in
      let (types, r, h₃) =
        >>=-eq-granted (authorize_operations X E operation_type c source (suc index) os) _ h₂ in
      let (rest, same) = operations_sound c source (suc index) os r in
      (
        (
          (
            text_eq_sound _ _ (double_negation _ (refuse_if-granted _ _ s)),
            double_negation _ (refuse_if-granted _ _ t),
          ),
          rest,
        ),
        sym (granted-injective h₃) ∙ ap (λ ts. operation_type o.body ∷ ts) same,
      )

  operations_complete :
      (c : AgentCapability) (source : MuxedAccount Key) (index : ℕ)
      (operations : List (Operation X))
      → All (IsPermitted c source) operations
      → authorize_operations X E operation_type c source index operations
        ≡ granted (types_of operations)
  unfolding authorize_operations types_of
  operations_complete c source index [] h = refl
  operations_complete c source index (o ∷ os) ((s, t), hs) =
      rw (text_eq_complete _ _ s, t, operations_complete c source (suc index) os hs) refl

  -- A transaction within a capability.
  abbrev pub IsWithin : AgentCapability → Transaction X → Type 0
  IsWithin c tx =
      (muxed_account_public_key X E operation_type tx.source_account ≡ c.public_key)
      × (tx.fee ≤ c.max_fee)
      × (0 < length tx.operations)
      × (length tx.operations ≤ c.max_operations)
      × All (IsPermitted c tx.source_account) tx.operations

  abbrev pub authorization_of : AgentCapability → Transaction X → AgentAuthorization
  authorization_of c tx = record {
    public_key = c.public_key;
    operation_types = map (λ o. operation_type o.body) tx.operations;
    fee = tx.fee;
  }

  transaction_sound :
      (c : AgentCapability) (tx : Transaction X) {a : AgentAuthorization}
      → authorize_transaction X E operation_type c tx ≡ granted a
      → IsWithin c tx × (a ≡ authorization_of c tx)
  unfolding authorize_transaction types_of
  transaction_sound c tx h =
      let (_, s, h₁) =
        >>=-eq-granted
          (refuse_if
            (not (
              text_eq (muxed_account_public_key X E operation_type tx.source_account) c.public_key))
            _)
          _ h in
      let (_, f, h₂) = >>=-eq-granted (refuse_if (ltb c.max_fee tx.fee) _) _ h₁ in
      let (_, z, h₃) = >>=-eq-granted (refuse_if (length tx.operations == 0) _) _ h₂ in
      let (_, m, h₄) =
        >>=-eq-granted (refuse_if (ltb c.max_operations (length tx.operations)) _) _ h₃ in
      let (types, r, h₅) =
        >>=-eq-granted (authorize_operations X E operation_type c tx.source_account 0 tx.operations)
          _ h₄ in
      let (all, same) = operations_sound c tx.source_account 0 tx.operations r in
      let fee = refuse_if-granted _ _ f in
      let some_operation = refuse_if-granted _ _ z in
      let few = refuse_if-granted _ _ m in
      (
        (
          text_eq_sound _ _ (double_negation _ (refuse_if-granted _ _ s)),
          ground arith,
          ground arith,
          ground arith,
          all,
        ),
        sym (granted-injective h₅)
            ∙ ap (λ ts. record { public_key = c.public_key; operation_types = ts; fee = tx.fee })
                same,
      )

  transaction_complete :
      (c : AgentCapability) (tx : Transaction X)
      → IsWithin c tx
      → authorize_transaction X E operation_type c tx ≡ granted (authorization_of c tx)
  unfolding authorize_transaction types_of
  transaction_complete c tx (source, fee, some_operation, few, all) =
      let f : ltb c.max_fee tx.fee ≡ false = ground arith in
      let z : (length tx.operations == 0) ≡ false = ground arith in
      let m : ltb c.max_operations (length tx.operations) ≡ false = ground arith in
      rw
        (
          text_eq_complete _ _ source,
          f,
          z,
          m,
          operations_complete c tx.source_account 0 tx.operations all,
        )
        refl

  -- The envelope is one that a capability allows: unsigned, of the current form, within the limits.
  pub data IsAllowed (c : AgentCapability) (passphrase : Text) (now : ℕ)
      : TransactionEnvelope X → AgentAuthorization → Type 0 where
    allowed :
        (tx : Transaction X)
        → passphrase ≡ c.network_passphrase
        → is_expired now c.expires_at_unix ≡ false
        → IsWithin c tx
        → IsAllowed c passphrase now (TransactionEnvelope.tx tx []) (authorization_of c tx)

  authorize_envelope-IsAllowed :
      (c : AgentCapability) (passphrase : Text) (now : ℕ) (envelope : TransactionEnvelope X)
      {a : AgentAuthorization}
      → passphrase ≡ c.network_passphrase
      → is_expired now c.expires_at_unix ≡ false
      → authorize_envelope X E operation_type c envelope ≡ granted a
      → IsAllowed c passphrase now envelope a
  unfolding authorize_envelope
  authorize_envelope-IsAllowed c passphrase now (TransactionEnvelope.tx tx []) network live h =
      let (within, same) = transaction_sound c tx h in
      subst (IsAllowed c passphrase now (TransactionEnvelope.tx tx [])) (sym same)
        (allowed tx network live within)
  authorize_envelope-IsAllowed c passphrase now (TransactionEnvelope.tx tx (s ∷ ss)) network live
        h =
      cc
  authorize_envelope-IsAllowed c passphrase now (TransactionEnvelope.other_envelope x) network live
        h =
      cc

  authorized_sound :
      (c : AgentCapability) (passphrase : Text) (now : ℕ) (envelope : TransactionEnvelope X)
      {a : AgentAuthorization}
      → authorize_agent_transaction X E operation_type c envelope passphrase now ≡ granted a
      → IsAllowed c passphrase now envelope a
  unfolding authorize_agent_transaction
  authorized_sound c passphrase now envelope h =
      let (_, n, h₁) =
        >>=-eq-granted (refuse_if (not (text_eq passphrase c.network_passphrase)) _) _ h in
      let (_, e, h₂) = >>=-eq-granted (refuse_if (is_expired now c.expires_at_unix) _) _ h₁ in
      authorize_envelope-IsAllowed c passphrase now envelope
        (text_eq_sound _ _ (double_negation _ (refuse_if-granted _ _ n))) (refuse_if-granted _ _ e)
        h₂

  authorized_complete :
      (c : AgentCapability) (passphrase : Text) (now : ℕ) (envelope : TransactionEnvelope X)
      (a : AgentAuthorization)
      → IsAllowed c passphrase now envelope a
      → authorize_agent_transaction X E operation_type c envelope passphrase now ≡ granted a
  unfolding authorize_agent_transaction authorize_envelope
  authorized_complete c passphrase now envelope a (allowed tx network live within) =
      rw (text_eq_complete _ _ network, live, transaction_complete c tx within) refl

  -- A transaction is authorized if and only if the network and the time are those of the capability
  -- and its envelope is of the current form, unsigned, with every account, the fee, the number and
  -- the type of the operations within it; the answer then lists these.
  pub authorize_agent_transaction_iff :
      (c : AgentCapability) (passphrase : Text) (now : ℕ) (envelope : TransactionEnvelope X)
      (a : AgentAuthorization)
      → (authorize_agent_transaction X E operation_type c envelope passphrase now ≡ granted a)
        ↔ IsAllowed c passphrase now envelope a
  authorize_agent_transaction_iff c passphrase now envelope a =
      (authorized_sound c passphrase now envelope, authorized_complete c passphrase now envelope a)
