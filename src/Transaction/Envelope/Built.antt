-- ===== src/Transaction/Envelope/Built.antt =====
-- What an envelope that was built holds, when the build succeeds, and until when it can be used.
use fresnica.Prelude.{
  ℕ, ◌+◌, ◌*◌, ◌≤◌, ◌<◌, ◌≡◌, ◌↔◌, some, List, [], map, length, Text, ok, arith, Option-cases, inl,
  inr,
}
use fresnica.Int.{
  ℤ, pos, ◌+ℤ◌, IsI64, checked_add, checked_mul_u32, checked_add_u64, u32_max, u64_max,
}
use fresnica.Int.Laws.{checked_add_exact, checked_add_fits}
use fresnica.Stellar.{
  Stellar, MuxedAccount, Memo, OperationBody, Preconditions, TransactionEnvelope,
}
use fresnica.Transaction.Envelope.{
  unsourced, validate_classic_transaction_timeout_seconds,
  build_operation_envelope_with_memo_and_timeout, envelope_max_time,
  ensure_transaction_not_expired_at,
}

module _ (X : Stellar) where
  open X use {Key, Contents, account_from_str}

  -- The transaction that the source code writes down at the end.
  abbrev pub built_transaction :
      Key → ℕ → ℤ → ℕ → Memo Key → List (OperationBody Key Contents) → TransactionEnvelope X
  built_transaction account fee sequence max_time memo bodies =
      TransactionEnvelope.tx
        (record {
          source_account = MuxedAccount.ed25519 account;
          fee = fee;
          seq_num = sequence;
          cond = Preconditions.time (record { min_time = 0; max_time = max_time });
          memo = memo;
          operations = map (unsourced X) bodies;
        })
        []

  module _ (seconds : ℕ) (source : Text) (bodies : List (OperationBody Key Contents))
      (current_sequence : ℤ) (base_fee : ℕ) (memo : Memo Key) (timeout : ℕ) where
    -- An envelope that was built has one to a hundred operations, the base fee for each of them with
    -- no overflow, the next sequence number, a time limit of the timeout from now on, the given memo
    -- and operations in their order, and no signature.
    pub build_exact :
        {e : TransactionEnvelope X}
        → build_operation_envelope_with_memo_and_timeout X
            (some seconds)
            source
            bodies
            current_sequence
            base_fee
            memo
            timeout
          ≡ ok e
        → (account : Key) × (account_from_str source ≡ some account)
          × (e
              ≡ built_transaction account
                  (base_fee * length bodies)
                  (current_sequence +ℤ pos 1)
                  (seconds + timeout)
                  memo
                  bodies)
          × (0 < length bodies)
          × (length bodies ≤ 100)
          × (0 < timeout)
          × (base_fee * length bodies ≤ u32_max)
          × IsI64 (current_sequence +ℤ pos 1)
          × (seconds + timeout ≤ u64_max)
    unfolding build_operation_envelope_with_memo_and_timeout
        validate_classic_transaction_timeout_seconds checked_add_u64 checked_mul_u32
    build_exact {e} h = elim (Option-cases (account_from_str source)) [
      | inl e0 ↦ absurd (ground arith)
      | inr (account, e0) ↦ elim (Option-cases (checked_add current_sequence (pos 1))) [
        | inl e1 ↦ absurd (ground arith)
        | inr (sequence, e1) ↦
            let (exact, fits) = checked_add_exact current_sequence (pos 1) e1 in
            rw (← exact) (
              account,
              e0,
              ground arith,
              ground arith,
              ground arith,
              ground arith,
              ground arith,
              fits,
              ground arith,
            )
      ]
    ]

    -- Under those conditions the build succeeds.
    pub build_succeeds :
        {account : Key}
        → account_from_str source ≡ some account
        → 0 < length bodies
        → length bodies ≤ 100
        → 0 < timeout
        → base_fee * length bodies ≤ u32_max
        → IsI64 (current_sequence +ℤ pos 1)
        → seconds + timeout ≤ u64_max
        → build_operation_envelope_with_memo_and_timeout X
            (some seconds)
            source
            bodies
            current_sequence
            base_fee
            memo
            timeout
          ≡ ok (
              built_transaction account
                (base_fee * length bodies)
                (current_sequence +ℤ pos 1)
                (seconds + timeout)
                memo
                bodies)
    unfolding build_operation_envelope_with_memo_and_timeout
        validate_classic_transaction_timeout_seconds checked_add_u64 checked_mul_u32
    build_succeeds {account} known some_body few long_enough fee_fits sequence_fits time_fits =
        ground (arith, checked_add_fits current_sequence (pos 1) sequence_fits)

    -- An envelope that was built can be used until its timeout is over, and no longer.
    pub build-expiry :
        (now : ℕ) {e : TransactionEnvelope X}
        → build_operation_envelope_with_memo_and_timeout X
            (some seconds)
            source
            bodies
            current_sequence
            base_fee
            memo
            timeout
          ≡ ok e
        → (ensure_transaction_not_expired_at X e now ≡ ok tt) ↔ (now ≤ seconds + timeout)
    unfolding ensure_transaction_not_expired_at envelope_max_time
    build-expiry now h =
        let (account, _, exact, _, _, long_enough, _, _, _) = build_exact h in
        rw exact (ground arith)
