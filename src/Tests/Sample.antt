-- ===== src/Tests/Sample.antt =====
-- Concrete data for the tests: documents as trees, addresses as their own texts, two accounts.
use fresnica.Prelude.{
  ℕ, refl, Bool, true, Option, none, some, List, [], ◌∷◌, Text, ◌==◌, if◌then◌else◌,
}
use fresnica.Text.{codes, text_eq}
use fresnica.Int.{pos}
use fresnica.Decimal.{digits}
use fresnica.Stellar.{Stellar, MuxedAccount, SignerKey}
use fresnica.Json.{Json}

mutual
  pub data Tree : Type 0 where
    leaf : Text → Tree
    number : ℕ → Tree
    boolean : Bool → Tree
    items : Trees → Tree
    fields : Fields → Tree

  pub data Trees : Type 0 where
    no_trees : Trees
    more_trees : Tree → Trees → Trees

  pub data Fields : Type 0 where
    no_fields : Fields
    more_fields : Text → Tree → Fields → Fields

abbrev tree_list : Trees → List Tree
tree_list no_trees = []
tree_list (more_trees v vs) = v ∷ tree_list vs

unfoldable pub field : Fields → Text → Option Tree
field no_fields key = none
field (more_fields k v rest) key = if text_eq k key then some v else field rest key

abbrev field_of : Tree → Text → Option Tree
field_of (fields f) key = field f key
field_of (leaf t) key = none
field_of (number n) key = none
field_of (boolean b) key = none
field_of (items vs) key = none

abbrev pub sample_json : Json
sample_json = record {
  Value = Tree;
  Object = Fields;
  get = field_of;
  as_str = λ v. elim v [ leaf t ↦ some t | _ ↦ none ];
  as_bool = λ v. elim v [ boolean b ↦ some b | _ ↦ none ];
  as_u64 = λ v. elim v [ number n ↦ some n | _ ↦ none ];
  as_i64 = λ v. elim v [ number n ↦ some (pos n) | _ ↦ none ];
  as_array = λ v. elim v [ items vs ↦ some (tree_list vs) | _ ↦ none ];
  as_object = λ v. elim v [ fields f ↦ some f | _ ↦ none ];
  object_get = field;
  number_text = λ v. elim v [ number n ↦ some (digits n) | _ ↦ none ];
}

-- Every text is an address of its own key; one that begins with `M` embeds the number 7.
abbrev sample_muxed : Text → Option (MuxedAccount Text)
sample_muxed [] = none
sample_muxed (c ∷ t) =
    if c == b'M' then some (MuxedAccount.muxed 7 t) else some (MuxedAccount.ed25519 (c ∷ t))

abbrev signer_key_text : SignerKey Text Text → Text
signer_key_text (SignerKey.ed25519_key k) = k
signer_key_text (SignerKey.pre_auth_tx k) = k
signer_key_text (SignerKey.hash_x k) = k
signer_key_text (SignerKey.signed_payload p) = p

abbrev pub sample_stellar : Stellar
sample_stellar = record {
  Key = Text;
  Payload = Text;
  Contents = Text;
  account_from_str = λ t. some t;
  account_text = λ t. t;
  account_round = λ t. refl;
  muxed_from_str = sample_muxed;
  signer_from_str = λ t. some (SignerKey.ed25519_key t);
  signer_text = signer_key_text;
}

abbrev pub source_id : Text
source_id = codes "GA"

abbrev pub destination_id : Text
destination_id = codes "GB"

abbrev pub native_balance : Tree
native_balance = fields (
    more_fields (codes "asset_type") (leaf (codes "native")) (
      more_fields (codes "balance") (leaf (codes "100.0000000"))
        (more_fields (codes "selling_liabilities") (leaf (codes "1.0000000")) no_fields)))

abbrev pub usd_balance : Tree
usd_balance = fields (
    more_fields (codes "asset_code") (leaf (codes "USD")) (
      more_fields (codes "asset_issuer") (leaf (codes "GI")) (
        more_fields (codes "is_authorized") (boolean true) (
          more_fields (codes "limit") (leaf (codes "50"))
            (more_fields (codes "balance") (leaf (codes "20")) no_fields)))))

abbrev pub signer_entry : Tree
signer_entry = fields (
    more_fields (codes "key") (leaf source_id) (
      more_fields (codes "type") (leaf (codes "ed25519_public_key"))
        (more_fields (codes "weight") (number 1) no_fields)))

abbrev pub thresholds : Tree
thresholds = fields (
    more_fields (codes "low_threshold") (number 0) (
      more_fields (codes "med_threshold") (number 1)
        (more_fields (codes "high_threshold") (number 2) no_fields)))

abbrev pub source_account : Tree
source_account = fields (
    more_fields (codes "account_id") (leaf source_id) (
      more_fields (codes "sequence") (leaf (codes "7")) (
        more_fields (codes "thresholds") thresholds (
          more_fields (codes "signers") (items (more_trees signer_entry no_trees)) (
            more_fields (codes "balances")
              (items (more_trees usd_balance (more_trees native_balance no_trees))) no_fields)))))

-- Its data asks for a memo: base64 of the sample leaves a text as it is.
abbrev pub destination_account : Tree
destination_account = fields (
    more_fields (codes "data")
      (fields (more_fields (codes "config.memo_required") (leaf (codes "1")) no_fields))
      (more_fields (codes "balances")
        (items (more_trees usd_balance (more_trees native_balance no_trees))) no_fields))
