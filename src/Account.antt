-- ===== src/Account.antt =====
-- The identity of an account address (core/rust/src/account.rs). Parsing a StrKey is the crate
-- `stellar_strkey`, an argument that answers the kind of the key.
use fresnica.Prelude.{Bool, true, false, ◌&&◌, Option, none, some, Text}
use fresnica.Text.{text_eq, trim}

-- The variants of `Strkey` that the code names, and the others.
pub data Strkey : Type 0 where
  public_key_ed25519 contract other : Strkey

pub data AccountKind : Type 0 where
  classic contract : AccountKind

pub record AccountIdentity : Type 0 where
  pub kind : AccountKind
  pub address : Text
  pub public_key : Option Text

pub data AccountError : Type 0 where
  invalid_address unsupported_address_kind : AccountError

pub data Identified : Type 0 where
  rejected : AccountError → Identified
  identified : AccountIdentity → Identified

-- The kind of key decides the identity.
abbrev identity_of : Text → Strkey → Identified
identity_of address Strkey.public_key_ed25519 =
    identified (record { kind = AccountKind.classic; address = address; public_key = some address })
identity_of address Strkey.contract =
    identified (record { kind = AccountKind.contract; address = address; public_key = none })
identity_of address Strkey.other = rejected AccountError.unsupported_address_kind

module _ (from_string : Text → Option Strkey) where
  unfoldable pub parse_account : Text → Identified
  parse_account address = elim (from_string (trim address)) [
    | none ↦ rejected AccountError.invalid_address
    | some key ↦ identity_of (trim address) key
  ]

  -- `identity.kind == Classic && identity.address == address`, where the address parses.
  unfoldable pub is_classic_address : Text → Bool
  is_classic_address address = elim (parse_account address) [
    | rejected e ↦ false
    | identified identity ↦
        elim identity.kind [ AccountKind.classic ↦ true | AccountKind.contract ↦ false ]
        && text_eq identity.address address
  ]
