-- ===== src/Stellar.antt =====
-- The Stellar types that the client builds and takes apart (crate `stellar_xdr`), with the variants
-- and fields that its code names, and the address texts of that crate as parameters. A variant that
-- the code never opens keeps its contents as an abstract type.
use fresnica.Prelude.{ℕ, ◌≡◌, Option, some, List, Text}
use fresnica.Int.{ℤ}

-- The variants `Ed25519(key)` and `MuxedEd25519 { id, ed25519 }`.
pub data MuxedAccount (K : Type 0) : Type 0 where
  ed25519 : K → MuxedAccount K
  muxed : ℕ → K → MuxedAccount K

-- `P` is the type of signed payloads.
pub data SignerKey (K P : Type 0) : Type 0 where
  ed25519_key pre_auth_tx hash_x : K → SignerKey K P
  signed_payload : P → SignerKey K P

-- What the client takes from the crate: 32-byte keys and hashes, the contents of operations that it
-- only passes on, and the address texts (StrKey) with their documented round trip.
pub record Stellar : Type 1 where
  pub Key : Type 0
  pub Payload : Type 0
  pub Contents : Type 0
  pub account_from_str : Text → Option Key
  pub account_text : Key → Text
  pub account_round : (k : Key) → account_from_str (account_text k) ≡ some k
  pub muxed_from_str : Text → Option (MuxedAccount Key)
  pub signer_from_str : Text → Option (SignerKey Key Payload)
  pub signer_text : SignerKey Key Payload → Text

-- The code of an issued asset is four or twelve bytes, padded by zeros.
pub data Asset (K : Type 0) : Type 0 where
  native : Asset K
  credit_alphanum4 credit_alphanum12 : Text → K → Asset K

pub data Memo (K : Type 0) : Type 0 where
  no_memo : Memo K
  text_memo : Text → Memo K
  id_memo : ℕ → Memo K
  hash_memo : Text → Memo K

-- Every price that the code builds or reads has parts above zero.
pub record Price : Type 0 where
  pub n : ℕ
  pub d : ℕ

-- `ManageSellOfferOp`, and `ManageBuyOfferOp` with its `buy_amount`.
pub record ManageOffer (K : Type 0) : Type 0 where
  pub selling : Asset K
  pub buying : Asset K
  pub amount : ℤ
  pub price : Price
  pub offer_id : ℤ

-- `C` is the type of contents that the code does not open.
pub data OperationBody (K C : Type 0) : Type 0 where
  create_account : K → ℤ → OperationBody K C
  payment : MuxedAccount K → Asset K → ℤ → OperationBody K C
  change_trust : Asset K → ℤ → OperationBody K C
  manage_sell_offer manage_buy_offer : ManageOffer K → OperationBody K C
  manage_data invoke_host_function : C → OperationBody K C
  bump_sequence : ℤ → OperationBody K C
  other_operation : C → OperationBody K C

pub record TimeBounds : Type 0 where
  pub min_time : ℕ
  pub max_time : ℕ

module _ (X : Stellar) where
  open X use {Key, Payload, Contents}

  abbrev pub Body : Type 0
  Body = OperationBody Key Contents

  pub record Operation : Type 0 where
    pub source_account : Option (MuxedAccount Key)
    pub body : OperationBody Key Contents

  -- The fields of `PreconditionsV2` that the client reads.
  pub data Preconditions : Type 0 where
    no_preconditions : Preconditions
    time : TimeBounds → Preconditions
    v2 : Option TimeBounds → List (SignerKey Key Payload) → Preconditions

  pub record Transaction : Type 0 where
    pub source_account : MuxedAccount Key
    pub fee : ℕ
    pub seq_num : ℤ
    pub cond : Preconditions
    pub memo : Memo Key
    pub operations : List Operation

  -- `TransactionEnvelope::Tx` with its signatures, and the two variants that are never opened.
  pub data TransactionEnvelope : Type 0 where
    tx : Transaction → List Contents → TransactionEnvelope
    other_envelope : Contents → TransactionEnvelope
