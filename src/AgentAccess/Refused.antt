-- ===== src/AgentAccess/Refused.antt =====
-- Which operation a refusal names, and that nothing is signed without an authorization.
use fresnica.Prelude.{
  ℕ, suc, ◌+◌, ◌≡◌, refl, Bool, true, false, not, some, List, [], ◌∷◌, ◌++◌, All, length, Text,
  arith, inl, inr, ◌⊎◌, ap, ◌∙◌,
}
use fresnica.Text.{text_eq}
use fresnica.Text.Laws.{text_eq_sound}
use fresnica.Stellar.{Stellar, MuxedAccount, OperationBody, Operation, TransactionEnvelope}
use fresnica.AgentAccess.{
  AgentAccessError, Access, refused, granted, ◌>>=◌, refuse_if, granted_or, AgentCapability,
  AgentAuthorization, contains_type, muxed_account_public_key, source_of, authorize_operations,
  authorize_agent_transaction, sign_agent_transaction,
}
use fresnica.AgentAccess.Capability.{
  granted-injective, refuse_if-granted, >>=-eq-granted, granted_or-granted,
}
use fresnica.AgentAccess.Allowed.{IsPermitted, IsAllowed, authorize_agent_transaction_iff}

refused_step :
    {E A B : Type 0} (access : Access E A) (next : A → Access E B) {e : AgentAccessError E}
    → (access >>= next) ≡ refused e
    → (access ≡ refused e) ⊎ ((a : A) × (access ≡ granted a) × (next a ≡ refused e))
refused_step (refused e) next h = inl cc
refused_step (granted a) next h = inr (a, refl, h)

refuse_if-refused :
    {E : Type 0} (test : Bool) (e : AgentAccessError E) {f : AgentAccessError E}
    → refuse_if test e ≡ refused f
    → (test ≡ true) × (e ≡ f)
refuse_if-refused true e h = (refl, cc)
refuse_if-refused false e h = cc

truth : (b : Bool) → not b ≡ false → b ≡ true
truth true h = refl
truth false h = cc

falsehood : (b : Bool) → not b ≡ true → b ≡ false
falsehood true h = cc
falsehood false h = refl

module _ (X : Stellar) (E : Type 0) (operation_type : OperationBody X.Key X.Contents → ℕ) where
  open X use {Key, Contents, account_from_str, account_text}

  -- The operation at an index is for the account but of a type that is not listed, and every
  -- operation before it is permitted.
  pub data IsFirstUnlisted (c : AgentCapability) (source : MuxedAccount Key) (start index t : ℕ)
      (operations : List (Operation X)) : Type 0 where
    unlisted :
        (before : List (Operation X)) (operation : Operation X) (after : List (Operation X))
        → operations ≡ before ++ operation ∷ after
        → index ≡ start + length before
        → All (IsPermitted X E operation_type c source) before
        → operation_type operation.body ≡ t
        → muxed_account_public_key X E operation_type
            (source_of X E operation_type source operation)
          ≡ c.public_key
        → contains_type t c.allowed_operations ≡ false
        → IsFirstUnlisted c source start index t operations

  later :
      (c : AgentCapability) (source : MuxedAccount Key) (start index t : ℕ) (o : Operation X)
      (os : List (Operation X))
      → IsPermitted X E operation_type c source o
      → IsFirstUnlisted c source (suc start) index t os
      → IsFirstUnlisted c source start index t (o ∷ os)
  later c source start index t o os permitted
        (unlisted before operation after split at all type key absent) =
      unlisted (o ∷ before) operation after (ap (λ xs. o ∷ xs) split) (omega (arith, at))
        (permitted, all) type key absent

  not_source :
      (c : AgentCapability) (start index t : ℕ) {A : Type 0}
      → ◌≡◌ {A = AgentAccessError E}
          (AgentAccessError.operation_source_not_allowed start)
          (AgentAccessError.operation_not_allowed index t)
      → A
  not_source c start index t h = cc

  -- If the loop over the operations refuses one for its type, then this is the first operation that
  -- is not permitted, and the refusal names its index and its type.
  pub authorize_operations-unlisted :
      (c : AgentCapability) (source : MuxedAccount Key) (start index t : ℕ)
      (operations : List (Operation X))
      → authorize_operations X E operation_type c source start operations
        ≡ refused (AgentAccessError.operation_not_allowed index t)
      → IsFirstUnlisted c source start index t operations
  unfolding authorize_operations
  authorize_operations-unlisted c source start index t [] h = cc
  authorize_operations-unlisted c source start index t (o ∷ os) h =
      let key =
        muxed_account_public_key X E operation_type (source_of X E operation_type source o) in
      let own = text_eq key c.public_key in
      let listed = contains_type (operation_type o.body) c.allowed_operations in
      elim (refused_step (refuse_if (not own) _) _ h) [
        | inl first ↦ not_source c start index t (refuse_if-refused _ _ first).1
        | inr (u, s, h₁) ↦
            let same : key ≡ c.public_key =
              text_eq_sound _ _ (truth own (refuse_if-granted _ _ s)) in
            elim (refused_step (refuse_if (not listed) _) _ h₁) [
              | inl second ↦
                  let (absent, named) = refuse_if-refused _ _ second in
                  let type : operation_type o.body ≡ t = cc named in
                  let here : start ≡ index = cc named in
                  unlisted [] o os refl (omega (arith, here)) tt type same
                    (rw type at (falsehood listed absent))
              | inr (v, l, h₂) ↦
                  elim (refused_step
                    (authorize_operations X E operation_type c source (suc start) os) _ h₂) [
                      | inl rest ↦
                          later c source start index t o os
                            (same, truth listed (refuse_if-granted _ _ l))
                            (authorize_operations-unlisted c source (suc start) index t os rest)
                      | inr (ts, r, h₃) ↦ cc
                    ]
            ]
      ]

  -- If `sign_agent_transaction` answers, then the signer is the account of the capability, the
  -- transaction is within the capability, and what was signed is that envelope for that network.
  pub sign_agent_transaction-IsAllowed :
      (sign : TransactionEnvelope X → Text → Access E (TransactionEnvelope X)) (c : AgentCapability)
      (envelope : TransactionEnvelope X) (passphrase : Text) (now : ℕ) (signer_key : Text)
      {a : AgentAuthorization} {signed : TransactionEnvelope X}
      → sign_agent_transaction X E operation_type sign c envelope passphrase now signer_key
        ≡ granted (a, signed)
      → (key : Key) × (account_from_str signer_key ≡ some key)
        × (account_text key ≡ c.public_key)
        × IsAllowed X E operation_type c passphrase now envelope a
        × (sign envelope passphrase ≡ granted signed)
  unfolding sign_agent_transaction
  sign_agent_transaction-IsAllowed sign c envelope passphrase now signer_key {a} {signed} h =
      let (key, k, h₁) = >>=-eq-granted (granted_or (account_from_str signer_key) _) _ h in
      let (_, s, h₂) =
        >>=-eq-granted (refuse_if (not (text_eq (account_text key) c.public_key)) _) _ h₁ in
      let (a', r, h₃) =
        >>=-eq-granted (authorize_agent_transaction X E operation_type c envelope passphrase now) _
          h₂ in
      let (out, g, h₄) = >>=-eq-granted (sign envelope passphrase) _ h₃ in
      let both = granted-injective h₄ in
      let authorized = r ∙ ap (λ p. granted (p.0)) both in
      (
        key,
        granted_or-granted _ _ k,
        text_eq_sound _ _ (truth _ (refuse_if-granted _ _ s)),
        (authorize_agent_transaction_iff X E operation_type c passphrase now envelope a).0
            authorized,
        g ∙ ap (λ p. granted (p.1)) both,
      )
