-- ===== src/Authorization/Load.antt =====
-- Loading the account states that a plan needs (`load_classic_ledger_authorization_plan_with` of
-- reference/rust-client/src/ledger_authorization.rs), and the review of a prepared transaction
-- (`prepared_classic_authorization_snapshot` of transaction.rs, `review_ledger_authorization` and
-- `local_signing_records` of signing_coordination.rs).
use fresnica.Prelude.{
  Bool, not, ◌&&◌, List, [], ◌∷◌, ◌++◌, map, retain, Text, Outcome, ok, err, ◌>>=◌, ◌>>◌, fail_if,
}
use fresnica.Text.{codes, text_eq}
use fresnica.Stellar.{Stellar, SignerKey, TransactionEnvelope}
use fresnica.Json.{Json}
use fresnica.Collections.{text_ord, insert, collect}
use fresnica.Authorization.{LedgerAccountAuthorization, LedgerAuthorizationPlan}
use fresnica.Authorization.Plan.{
  RequiredAuthorizationUse, classic_authorization_uses, plan_classic_ledger_authorization,
}
use fresnica.Authorization.Account.{account_from_horizon}
use fresnica.Authorization.Summary.{
  LedgerAuthorizationSnapshot, satisfied_transaction_conditions, summarize_ledger_authorization,
}
use fresnica.Transaction.Envelope.{network_passphrase}

-- `map_err(|error| format!("{prefix}{error}"))`
abbrev pub prefix_error {ℓ} : {A : Type ℓ} → Text → Outcome A → Outcome A
prefix_error prefix (ok a) = ok a
prefix_error prefix (err e) = err (prefix ++ e)

unfoldable pub source_accounts : List RequiredAuthorizationUse → List Text
source_accounts [] = []
source_accounts (u ∷ uses) = insert u.account_id (source_accounts uses)

unfoldable pub wrong_account : Text → Text → Text
wrong_account found wanted =
    codes "Horizon returned ledger authorization for " ++ found ++ codes " while loading " ++ wanted

-- The fields of a wallet record that signing reads; `secret` tells whether there is one.
pub record WalletRecord : Type 0 where
  pub name : Text
  pub address : Text
  pub wallet_type : Text
  pub network : Text
  pub has_secret : Bool

unfoldable pub watch_only : WalletRecord → Bool
watch_only record' = text_eq record'.wallet_type (codes "watch-only")

-- The wallets of the network that can sign.
abbrev pub can_sign : Text → WalletRecord → Bool
can_sign network r = text_eq r.network network && not (watch_only r) && r.has_secret

unfoldable pub local_signing_records : List WalletRecord → Text → List WalletRecord
local_signing_records records network = retain (can_sign network) records

unfoldable pub local_signing_keys : List WalletRecord → Text → List Text
local_signing_keys records network =
    collect (map (λ r. r.address) (local_signing_records records network))

module _ (X : Stellar) (J : Json) where
  open J use {Value}

  unfoldable pub load_accounts :
      (Text → Outcome Value) → List Text → Outcome (List LedgerAccountAuthorization)
  load_accounts fetch_account [] = ok []
  load_accounts fetch_account (id ∷ ids) = do
    raw ← fetch_account id
    account ←
        prefix_error (codes "Unable to interpret ledger authorization for " ++ id ++ codes ": ")
          (account_from_horizon X J raw)
    fail_if (not (text_eq account.account_id id)) (wrong_account account.account_id id)
    rest ← load_accounts fetch_account ids
    ok (account ∷ rest)

  unfoldable pub load_classic_ledger_authorization_plan_with :
      TransactionEnvelope X → (Text → Outcome Value) → Outcome LedgerAuthorizationPlan
  load_classic_ledger_authorization_plan_with envelope fetch_account = do
    uses ← classic_authorization_uses X envelope
    accounts ← load_accounts fetch_account (source_accounts uses)
    plan_classic_ledger_authorization X envelope accounts

-- What the review takes from the Core library: the test of a signer key, and the hash of an
-- envelope as hexadecimal text.
module _ (X : Stellar)
    (satisfies : TransactionEnvelope X → Text → SignerKey X.Key X.Payload → Outcome Bool)
    (hash : TransactionEnvelope X → Text → Outcome Text) where
  unfoldable pub review_ledger_authorization :
      Outcome (List WalletRecord)
      → LedgerAuthorizationPlan
      → Text
      → TransactionEnvelope X
      → Outcome LedgerAuthorizationSnapshot
  review_ledger_authorization stored plan network envelope = do
    passphrase ← network_passphrase network
    met ← satisfied_transaction_conditions X satisfies plan envelope passphrase
    records ← stored
    transaction_hash ←
        prefix_error (codes "Unable to hash Stellar transaction: ") (hash envelope passphrase)
    ok (
        summarize_ledger_authorization plan met (local_signing_keys records network)
          transaction_hash)

  unfoldable pub prepared_classic_authorization_snapshot :
      (J : Json)
      → Outcome (List WalletRecord)
      → Text
      → TransactionEnvelope X
      → J.Value
      → Outcome LedgerAuthorizationSnapshot
  prepared_classic_authorization_snapshot J stored network envelope source_account = do
    account ←
        prefix_error (codes "Unable to interpret prepared transaction authorization: ")
          (account_from_horizon X J source_account)
    plan ← plan_classic_ledger_authorization X envelope (account ∷ [])
    review_ledger_authorization stored plan network envelope
