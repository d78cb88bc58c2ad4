-- ===== src/Transaction/Envelope.antt =====
-- Building a transaction envelope and its expiry: `build_operation_envelope_with_memo_and_timeout`
-- with its callers, `text_memo`, `ensure_transaction_not_expired_at` and `network_passphrase`.
-- The time is an argument; `none` stands for a clock before the Unix epoch.
pub mod Built
use fresnica.Prelude.{
  ℕ, ◌+◌, ◌*◌, ◌≡◌, refl, Bool, true, false, not, ◌&&◌, Option, none, some, List, [], ◌∷◌, ◌++◌,
  map, length, Text, String, Outcome, ok, err, ◌>>=◌, ◌>>◌, fail_if, ok_or, ltb, leb, ◌==◌,
  if◌then◌else◌,
}
use fresnica.Text.{codes, text_eq, is_empty, byte_length}
use fresnica.Int.{ℤ, pos, checked_add, checked_mul_u32, checked_add_u64, u32_max}
use fresnica.Stellar.{
  Stellar, MuxedAccount, Memo, no_memo, text_memo, OperationBody, TimeBounds, Operation,
  Preconditions, Transaction, TransactionEnvelope,
}

abbrev pub default_classic_transaction_timeout_seconds : ℕ
default_classic_transaction_timeout_seconds = 300

unfoldable pub validate_classic_transaction_timeout_seconds : ℕ → Outcome ℕ
validate_classic_transaction_timeout_seconds seconds =
    if seconds == 0
    then err (codes "Classic transaction timeout must be greater than zero seconds")
    else ok seconds

unfoldable pub long_memo : Text
long_memo = codes "text memo must be at most 28 bytes"

-- `StringM::<28>::try_from` refuses more than 28 bytes.
unfoldable pub memo_text : {K : Type 0} → Text → Outcome (Memo K)
memo_text value = if leb (byte_length value) 28 then ok (text_memo value) else err long_memo

-- `text_memo` of the source.
unfoldable pub optional_text_memo : {K : Type 0} → Option Text → Outcome (Memo K)
optional_text_memo none = ok no_memo
optional_text_memo (some value) = if is_empty value then ok no_memo else memo_text value

unfoldable pub network_passphrase : Text → Outcome Text
network_passphrase network =
    if text_eq network (codes "mainnet")
    then ok (codes "Public Global Stellar Network ; September 2015")
    else if text_eq network (codes "testnet")
    then ok (codes "Test SDF Network ; September 2015")
    else err (codes "unknown network: " ++ network)

abbrev too_many_operations : Text
too_many_operations = codes "too many transaction operations"

module _ (X : Stellar) where
  open X use {Key, Contents, account_from_str}

  abbrev pub unsourced : OperationBody Key Contents → Operation X
  unsourced body = record { source_account = none; body = body }

  unfoldable pub build_operation_envelope_with_memo_and_timeout :
      Option ℕ
      → Text
      → List (OperationBody Key Contents)
      → ℤ
      → ℕ
      → Memo Key
      → ℕ
      → Outcome (TransactionEnvelope X)
  build_operation_envelope_with_memo_and_timeout now source bodies current_sequence
        base_fee_per_operation memo timeout_seconds =
      do
        timeout ← validate_classic_transaction_timeout_seconds timeout_seconds
        fail_if (length bodies == 0) (codes "transaction must contain at least one operation")
        account ←
            ok_or (account_from_str source) (codes "wallet source must be a Classic G address")
        fail_if (ltb u32_max (length bodies)) too_many_operations
        fail_if (ltb 100 (length bodies)) too_many_operations
        fee ←
            ok_or (checked_mul_u32 base_fee_per_operation (length bodies))
              (codes "transaction fee overflow")
        sequence ← ok_or (checked_add current_sequence (pos 1)) (codes "account sequence overflow")
        seconds ← ok_or now (codes "system clock is before Unix epoch")
        max_time ← ok_or (checked_add_u64 seconds timeout) (codes "transaction timeout overflow")
        ok (
            TransactionEnvelope.tx
              (record {
                source_account = MuxedAccount.ed25519 account;
                fee = fee;
                seq_num = sequence;
                cond = Preconditions.time (record { min_time = 0; max_time = max_time });
                memo = memo;
                operations = map unsourced bodies;
              })
              [])

  unfoldable pub build_single_operation_envelope_with_memo_and_timeout :
      Option ℕ
      → Text
      → OperationBody Key Contents
      → ℤ
      → ℕ
      → Memo Key
      → ℕ
      → Outcome (TransactionEnvelope X)
  build_single_operation_envelope_with_memo_and_timeout now source body current_sequence base_fee
        memo timeout_seconds =
      build_operation_envelope_with_memo_and_timeout now source (body ∷ []) current_sequence
        base_fee memo timeout_seconds

  unfoldable pub build_single_operation_envelope_with_memo :
      Option ℕ
      → Text
      → OperationBody Key Contents
      → ℤ
      → ℕ
      → Memo Key
      → Outcome (TransactionEnvelope X)
  build_single_operation_envelope_with_memo now source body current_sequence base_fee memo =
      build_single_operation_envelope_with_memo_and_timeout now source body current_sequence
        base_fee memo default_classic_transaction_timeout_seconds

  unfoldable pub build_operation_envelope_with_timeout :
      Option ℕ
      → Text
      → List (OperationBody Key Contents)
      → ℤ
      → ℕ
      → Option Text
      → ℕ
      → Outcome (TransactionEnvelope X)
  build_operation_envelope_with_timeout now source bodies current_sequence base_fee memo
        timeout_seconds =
      do
        memo' ← optional_text_memo memo
        build_operation_envelope_with_memo_and_timeout now source bodies current_sequence base_fee
            memo' timeout_seconds

  unfoldable pub build_single_operation_envelope_with_timeout :
      Option ℕ
      → Text
      → OperationBody Key Contents
      → ℤ
      → ℕ
      → Option Text
      → ℕ
      → Outcome (TransactionEnvelope X)
  build_single_operation_envelope_with_timeout now source body current_sequence base_fee memo
        timeout_seconds =
      do
        memo' ← optional_text_memo memo
        build_single_operation_envelope_with_memo_and_timeout now source body current_sequence
            base_fee memo' timeout_seconds

  unfoldable pub build_operation_envelope :
      Option ℕ
      → Text
      → List (OperationBody Key Contents)
      → ℤ
      → ℕ
      → Option Text
      → Outcome (TransactionEnvelope X)
  build_operation_envelope now source bodies current_sequence base_fee memo =
      build_operation_envelope_with_timeout now source bodies current_sequence base_fee memo
        default_classic_transaction_timeout_seconds

  unfoldable pub build_single_operation_envelope :
      Option ℕ
      → Text
      → OperationBody Key Contents
      → ℤ
      → ℕ
      → Option Text
      → Outcome (TransactionEnvelope X)
  build_single_operation_envelope now source body current_sequence base_fee memo =
      build_single_operation_envelope_with_timeout now source body current_sequence base_fee memo
        default_classic_transaction_timeout_seconds

  -- The end of the time bounds; `none` where there are no bounds to test.
  unfoldable pub envelope_max_time : TransactionEnvelope X → Option ℕ
  envelope_max_time (TransactionEnvelope.other_envelope c) = none
  envelope_max_time (TransactionEnvelope.tx t signatures) = elim t.cond [
    | Preconditions.no_preconditions ↦ none
    | Preconditions.time bounds ↦ some bounds.max_time
    | Preconditions.v2 none signers ↦ none
    | Preconditions.v2 (some bounds) signers ↦ some bounds.max_time
  ]

  abbrev expired_message : Text
  expired_message =
      codes "Prepared transaction has expired; prepare and review the transaction again"

  unfoldable pub ensure_transaction_not_expired_at : TransactionEnvelope X → ℕ → Outcome (Unit {0})
  ensure_transaction_not_expired_at envelope now_unix = elim (envelope_max_time envelope) [
    | none ↦ ok tt
    | some max_time ↦ fail_if (not (max_time == 0) && ltb max_time now_unix) expired_message
  ]

  unfoldable pub ensure_transaction_not_expired :
      Option ℕ → TransactionEnvelope X → Outcome (Unit {0})
  ensure_transaction_not_expired now envelope = do
    seconds ← ok_or now (codes "system clock is before Unix epoch")
    ensure_transaction_not_expired_at envelope seconds
