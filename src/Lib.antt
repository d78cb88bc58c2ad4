-- ===== src/Lib.antt =====
-- A model of the Classic transaction core of the Rust reference client
-- (reference/rust-client/src): what a wallet reads from Horizon, how it decides that a payment can
-- be made, the envelope that it builds, the signatures that the ledger asks for and the signers that
-- are chosen to give them.
--
-- The parts, from texts to a prepared payment:
-- - Text, Decimal, Int: Rust strings as lists of code points, `str::parse` on integers, and the
--   saturating and checked operations on i64, u64 and u32.
-- - Amount: `parse_stroops`, `parse_positive_stroops`, `format_stroops` of transaction.rs. Meaning
--   describes decimal amounts apart from the code, Fraction and Parse relate the two, RoundTrip
--   prints and reads back.
-- - AssetId: asset.rs, with Identity on the printed form of an asset.
-- - Json, Stellar: what the client takes from the crates serde_json and stellar_xdr, as records. A
--   document is an abstract value with accessors, and no theorem assumes anything of what a server
--   sends. Of address texts only the round trip of a printed account is assumed.
-- - Horizon: the readers of an account document in transaction.rs and the ledger parameters of
--   horizon_gateway.rs.
-- - Transaction.Envelope: the builders and the expiry test of transaction.rs; the clock is an
--   argument. Built says what a built envelope holds.
-- - Authorization: ledger_authorization.rs. Account reads the signers of an account, Plan merges the
--   uses of an envelope into requirements, Summary is the review that the user sees, Load fetches
--   the accounts; with `review_ledger_authorization` of signing_coordination.rs and
--   `prepared_classic_authorization_snapshot` of transaction.rs.
-- - Signing.Select: `select_ed25519_signers` of signing_coordination.rs.
-- - Payment: payment.rs. Memo is the memo and the destination, Funds the checks of balances, Prepare
--   `prepare_payment_with_wallet` as a whole, which calls all the parts above.
-- - Transaction.Pending, Transaction.Submission: the `PendingTransactionStore` of transaction.rs and
--   `submit_signed_transaction`. The file is the list of its items or an error of reading it; whether
--   a write fails, the answers of Horizon and the ages of time texts are arguments.
-- - Dex: dex.rs. Price turns a decimal price into a fraction of two `i32`, Ratio rounds and prints,
--   Liabilities is what an offer commits its account to, Offer the pair and the side, Capacity what
--   an account has free and can take, Preflight the checks of a new and of a changed offer, Prepare
--   `prepare_offer_create`, `prepare_offer_update` and `prepare_offer_cancel` as a whole, Fills the
--   compression of the trades of an account, and Market the order book, the open offers, the trades
--   of a pair and the candles.
-- - Contacts: contacts.rs, with the file as the list of its contacts or an error of reading it, and
--   Account: the account addresses of core/rust/src/account.rs.
-- - AgentAccess: core/rust/src/agent_access.rs, what an agent may sign. Allowed relates the test to
--   the policy, Refused says what a refusal names, Capability what a capability is.
-- - Collections: a `BTreeSet` and a `BTreeMap` as lists in order; Prelude: the shared names, lists by
--   native lengths, and `Result<T, String>` as Outcome, with the text of each error.
-- - Tests: concrete data and runs.
--
-- Errors keep the text that the code returns. Wrapping arithmetic does not occur: the code uses
-- saturating or checked operations, which are written out. The sum of signer weights is unbounded
-- here, as at most twenty weights of a byte cannot leave u32.
--
-- Fuel: the two loops of the selection take one round more than there are signers, and are proved to
-- end within it. The continued fraction of a price takes one round more than its denominator, which
-- falls in each round, and is proved to end within it. Every other loop is recursion on the list
-- that the code walks.
--
-- Amounts of dex.rs that are never negative, as those that were read, are native numbers, and its
-- `i128` products keep their overflow tests.
--
-- Parameters: base64, `to_lowercase`, the parser of StrKeys, the numbers of operation types, the
-- clock, HTTP responses, stored wallets, and from the Core library whether an envelope satisfies a
-- signer key and the hash of an envelope.
--
-- Not modelled: cryptography and key storage (core/rust), the flow that unlocks keys and signs,
-- trustlines, anchors, contracts, the views of account history, and the bindings and adapters in
-- other languages.
pub mod Prelude
pub mod Text
pub mod Int
pub mod Decimal
pub mod Amount
pub mod Collections
pub mod Stellar
pub mod Authorization
pub mod Signing
pub mod Json
pub mod Horizon
pub mod AssetId
pub mod Transaction
pub mod Payment
pub mod Dex
pub mod AgentAccess
pub mod Account
pub mod Contacts
pub mod Tests
