-- ===== src/Tests/Pending.antt =====
-- A store with one pending transaction, before and after its time.
use fresnica.Prelude.{
  ℕ, ◌≡◌, ◌≢◌, refl, Bool, false, Option, some, List, [], ◌∷◌, retain, All, Text, Outcome, ok, err,
}
use fresnica.Text.{codes, text_eq, trim, trim_start, is_whitespace}
use fresnica.Int.{ℤ, pos}
use fresnica.Transaction.Pending.{
  PendingTransaction, PendingFile, validate_pending, validate_all, load, is_others, save, put,
  settle, reconcile_items, finish_reconcile, pending_age_seconds, is_expired, reconcile_with,
}
use fresnica.Transaction.Pending.Clear.{IsSettled, reconcile_with-clear}
use fresnica.Transaction.Pending.Blocked.{put-reconcile_with}
use fresnica.Transaction.Envelope.{
  network_passphrase, envelope_max_time, ensure_transaction_not_expired,
  ensure_transaction_not_expired_at,
}
use fresnica.Transaction.Submission.{
  SubmissionAnswer, uncertain, before_sending, submit_signed_transaction, saved_message,
  submit_signed_transaction-reconcile_with,
}
use fresnica.Tests.Envelopes.{sample_envelope}
use fresnica.Tests.Sample.{Tree, sample_json, sample_stellar}

abbrev sample_pending : PendingTransaction
sample_pending = record {
  network = codes "testnet";
  account = codes "GA";
  tx_hash = codes "ab";
  kind = codes "transaction";
  submitted_at = codes "2026-01-01T00:00:00Z";
}

abbrev other_pending : PendingTransaction
other_pending = record {
  network = codes "testnet";
  account = codes "GB";
  tx_hash = codes "cd";
  kind = codes "transaction";
  submitted_at = codes "2026-01-01T00:00:00Z";
}

abbrev after : ℕ → Text → Option ℤ
after seconds t = some (pos seconds)

abbrev unknown : Text → Outcome Bool
unknown hash = ok false

abbrev both_pending : PendingFile
both_pending = ok (other_pending ∷ sample_pending ∷ [])

put_both : put (ok tt) sample_pending (ok (other_pending ∷ [])) ≡ (ok tt, both_pending)
unfolding put save load validate_all validate_pending text_eq trim trim_start is_whitespace codes
put_both = refl

still_fresh : is_expired (after 209) unknown (codes "testnet") (codes "GA") sample_pending ≡ false
unfolding pending_age_seconds
still_fresh = refl

put-reconcile_with_example :
    reconcile_with (after 209) unknown (codes "testnet") (codes "GA") (ok tt) both_pending
    ≢ (ok tt, both_pending)
put-reconcile_with_example =
    put-reconcile_with (after 209) unknown (ok tt) (ok tt) sample_pending (ok (other_pending ∷ []))
      both_pending put_both refl still_fresh

reconcile_late :
    reconcile_with (after 210) unknown (codes "testnet") (codes "GA") (ok tt) both_pending
    ≡ (ok tt, ok (other_pending ∷ []))
unfolding reconcile_with reconcile_items finish_reconcile settle pending_age_seconds save load
    validate_all validate_pending text_eq trim trim_start is_whitespace codes
reconcile_late = refl

reconcile_with-clear_example :
    (items : List PendingTransaction) × (load both_pending ≡ ok items)
    × (ok (other_pending ∷ []) ≡ ok (retain (is_others (codes "testnet") (codes "GA")) items))
    × All (IsSettled (after 210) unknown (codes "testnet") (codes "GA")) items
reconcile_with-clear_example =
    reconcile_with-clear (after 210) unknown (codes "testnet") (codes "GA") (ok tt) both_pending
      reconcile_late

abbrev open_answer : Text → SubmissionAnswer Tree
open_answer encoded = uncertain (codes "timeout")

sent_sample :
    before_sending sample_stellar sample_json
      (λ envelope passphrase. ok (codes "ab"))
      (λ envelope. ok (codes "xdr"))
      (some 1000)
      (codes "testnet")
      sample_envelope
    ≡ ok (codes "ab", codes "xdr")
unfolding before_sending ensure_transaction_not_expired ensure_transaction_not_expired_at
    envelope_max_time network_passphrase text_eq codes
sent_sample = refl

submit_signed_transaction-reconcile_with_example :
    (submit_signed_transaction sample_stellar sample_json
        (λ envelope passphrase. ok (codes "ab"))
        (λ envelope. ok (codes "xdr"))
        open_answer
        (some 1000)
        (ok (codes "2026-01-01T00:00:00Z"))
        (ok tt)
        (codes "GA")
        (codes "testnet")
        sample_envelope
        (ok (other_pending ∷ []))
      ≡ (err (saved_message (codes "ab") (codes "timeout")), both_pending))
    × (reconcile_with
          (after 209)
          unknown
          (codes "testnet")
          (codes "GA")
          (ok tt)
          (submit_signed_transaction sample_stellar sample_json
            (λ envelope passphrase. ok (codes "ab"))
            (λ envelope. ok (codes "xdr"))
            open_answer
            (some 1000)
            (ok (codes "2026-01-01T00:00:00Z"))
            (ok tt)
            (codes "GA")
            (codes "testnet")
            sample_envelope
            (ok (other_pending ∷ []))).1
        ≢ (ok tt, both_pending))
submit_signed_transaction-reconcile_with_example =
    submit_signed_transaction-reconcile_with sample_stellar sample_json
      (λ envelope passphrase. ok (codes "ab")) (λ envelope. ok (codes "xdr")) open_answer
      (some 1000) (ok (codes "2026-01-01T00:00:00Z")) (ok tt) (codes "GA") (codes "testnet")
      (after 209) unknown (ok tt) sample_envelope (ok (other_pending ∷ [])) both_pending
      both_pending (codes "ab") (codes "xdr") (codes "timeout") (codes "2026-01-01T00:00:00Z")
      sent_sample refl refl put_both refl still_fresh
