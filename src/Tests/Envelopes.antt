-- ===== src/Tests/Envelopes.antt =====
-- An envelope of one payment: its build and its expiry on concrete numbers.
use fresnica.Prelude.{◌+◌, ◌*◌, ◌≤◌, ◌<◌, ◌≡◌, ◌↔◌, refl, some, [], ◌∷◌, length, Text, ok, arith}
use fresnica.Text.{codes}
use fresnica.Int.{
  pos, ◌+ℤ◌, IsI64, fits_i64, saturate, saturating_add, saturating_sub, checked_add, checked_mul,
  checked_mul_u32, checked_add_u64, u32_max, u64_max,
}
use fresnica.Decimal.{digits, value, value_from, parse_digits, parse_i64}
use fresnica.Amount.{
  scale, fraction_units, parse_amount, parse_parts, parse_stroops, parse_positive_stroops,
  trim_end_zeros, format_stroops,
}
use fresnica.Stellar.{MuxedAccount, native, OperationBody, Memo, TransactionEnvelope}
use fresnica.Collections.{text_ord}
use fresnica.Authorization.{condition_ord}
use fresnica.Transaction.Envelope.{
  validate_classic_transaction_timeout_seconds, memo_text, network_passphrase,
  build_operation_envelope_with_memo_and_timeout,
  build_single_operation_envelope_with_memo_and_timeout, ensure_transaction_not_expired_at,
}
use fresnica.Transaction.Envelope.Built.{
  built_transaction, build_exact, build_succeeds, build-expiry,
}
use fresnica.Tests.Sample.{sample_stellar, source_id, destination_id}

abbrev sample_body : OperationBody Text Text
sample_body = OperationBody.payment (MuxedAccount.ed25519 destination_id) native (pos 125000000)

abbrev pub sample_envelope : TransactionEnvelope sample_stellar
sample_envelope =
    built_transaction sample_stellar source_id 100 (pos 8) 1300 (Memo.text_memo (codes "1"))
      (sample_body ∷ [])

sample_build :
    build_operation_envelope_with_memo_and_timeout sample_stellar
      (some 1000)
      source_id
      (sample_body ∷ [])
      (pos 7)
      100
      (Memo.text_memo (codes "1"))
      300
    ≡ ok sample_envelope
unfolding validate_classic_transaction_timeout_seconds memo_text network_passphrase
    build_operation_envelope_with_memo_and_timeout
    build_single_operation_envelope_with_memo_and_timeout fits_i64 saturate saturating_add
    saturating_sub checked_add checked_mul checked_mul_u32 checked_add_u64 digits value value_from
    parse_digits parse_i64 scale fraction_units parse_amount parse_parts parse_stroops
    parse_positive_stroops trim_end_zeros format_stroops
sample_build = refl

next_fits : IsI64 (pos 7 +ℤ pos 1)
unfolding ◌+ℤ◌
next_fits = ground arith

build_exact_example :
    (account : Text) × (some source_id ≡ some account)
    × (sample_envelope
        ≡ built_transaction sample_stellar account
            (100 * length (sample_body ∷ []))
            (pos 7 +ℤ pos 1)
            (1000 + 300)
            (Memo.text_memo (codes "1"))
            (sample_body ∷ []))
    × (0 < length (sample_body ∷ []))
    × (length (sample_body ∷ []) ≤ 100)
    × (0 < 300)
    × (100 * length (sample_body ∷ []) ≤ u32_max)
    × IsI64 (pos 7 +ℤ pos 1)
    × (1000 + 300 ≤ u64_max)
build_exact_example =
    build_exact sample_stellar 1000 source_id (sample_body ∷ []) (pos 7) 100
      (Memo.text_memo (codes "1")) 300 sample_build

build_succeeds_example :
    build_operation_envelope_with_memo_and_timeout sample_stellar
      (some 1000)
      source_id
      (sample_body ∷ [])
      (pos 7)
      100
      (Memo.text_memo (codes "1"))
      300
    ≡ ok (
        built_transaction sample_stellar source_id
          (100 * length (sample_body ∷ []))
          (pos 7 +ℤ pos 1)
          (1000 + 300)
          (Memo.text_memo (codes "1"))
          (sample_body ∷ []))
build_succeeds_example =
    build_succeeds sample_stellar 1000 source_id (sample_body ∷ []) (pos 7) 100
      (Memo.text_memo (codes "1")) 300 refl (omega arith) (omega arith) (omega arith) (omega arith)
      next_fits (omega arith)

build-expiry_example :
    (ensure_transaction_not_expired_at sample_stellar sample_envelope 1301 ≡ ok tt)
    ↔ (1301 ≤ 1000 + 300)
build-expiry_example =
    build-expiry sample_stellar 1000 source_id (sample_body ∷ []) (pos 7) 100
      (Memo.text_memo (codes "1")) 300 1301 sample_build
