-- ===== src/Transaction/Submission.antt =====
-- Sending a signed transaction (`submit_signed_transaction` of
-- reference/rust-client/src/transaction.rs): an answer that leaves the outcome open puts the
-- transaction in the pending store. The hash and the encoding of an envelope come from the Core
-- library, the answer from Horizon; both are arguments.
use fresnica.Prelude.{
  ℕ, ◌≡◌, ◌≢◌, refl, Bool, false, Option, ◌++◌, Text, Outcome, ok, err, ◌>>=◌, ◌>>◌, and_then,
}
use fresnica.Int.{ℤ}
use fresnica.Text.{codes}
use fresnica.Stellar.{Stellar, TransactionEnvelope}
use fresnica.Json.{Json}
use fresnica.Horizon.{text, unwrap_or}
use fresnica.Authorization.Load.{prefix_error}
use fresnica.Transaction.Envelope.{network_passphrase, ensure_transaction_not_expired}
use fresnica.Transaction.Pending.{PendingTransaction, PendingFile, put, is_expired, reconcile_with}
use fresnica.Transaction.Pending.Blocked.{put-reconcile_with}

pub record TransactionSubmission : Type 0 where
  pub hash : Text
  pub ledger : Option ℕ

-- What `HorizonGateway::submit_transaction` returns: a response, or one of the two variants of
-- `SubmissionError`.
pub data SubmissionAnswer (V : Type 0) : Type 0 where
  accepted : V → SubmissionAnswer V
  rejected uncertain : Text → SubmissionAnswer V

abbrev pub pending_record : Text → Text → Text → Text → PendingTransaction
pending_record network account tx_hash submitted_at = record {
  network = network;
  account = account;
  tx_hash = tx_hash;
  kind = codes "transaction";
  submitted_at = submitted_at;
}

-- `remember` with the only kind that is used; `time` is the current time as text.
unfoldable pub remember :
    Outcome Text
    → Outcome (Unit {0})
    → Text
    → Text
    → Text
    → PendingFile
    → Outcome (Unit {0}) × PendingFile
remember time written network account tx_hash file =
    elim (prefix_error (codes "unable to format pending transaction time: ") time) [
      | err e ↦ (err e, file)
      | ok submitted_at ↦ put written (pending_record network account tx_hash submitted_at) file
    ]

unfoldable pub rejected_message : Text → Text → Text
rejected_message tx_hash message =
    codes "Transaction rejected (" ++ tx_hash ++ codes "): " ++ message

unfoldable pub uncertain_message : Text → Text → Text
uncertain_message tx_hash message =
    codes "Transaction submission status is uncertain for " ++ tx_hash ++ codes ": " ++ message

unfoldable pub saved_message : Text → Text → Text
saved_message tx_hash message =
    uncertain_message tx_hash message
    ++ codes
        ". A pending record was saved; Fresnica will check this hash before allowing another write from the account."

unfoldable pub unsaved_message : Text → Text → Text → Text
unsaved_message tx_hash message error =
    uncertain_message tx_hash message
    ++ codes ". Fresnica could not persist pending-transaction protection: "
    ++ error
    ++ codes ". Do not retry until you verify the transaction hash manually."

abbrev after_remember :
    Text → Text → Outcome (Unit {0}) × PendingFile → Outcome TransactionSubmission × PendingFile
after_remember tx_hash message (ok u, file) = (err (saved_message tx_hash message), file)
after_remember tx_hash message (err e, file) = (err (unsaved_message tx_hash message e), file)

module _ (X : Stellar) (J : Json) (hash : TransactionEnvelope X → Text → Outcome Text)
    (encode : TransactionEnvelope X → Outcome Text) where
  -- What is computed before anything is sent: the hash and the encoding.
  unfoldable pub before_sending : Option ℕ → Text → TransactionEnvelope X → Outcome (Text × Text)
  before_sending now network envelope = do
    ensure_transaction_not_expired X now envelope
    passphrase ← network_passphrase network
    tx_hash ← prefix_error (codes "Unable to hash signed transaction: ") (hash envelope passphrase)
    encoded ← prefix_error (codes "Unable to encode signed transaction: ") (encode envelope)
    ok (tx_hash, encoded)

  module _ (submit : Text → SubmissionAnswer J.Value) (now : Option ℕ) (time : Outcome Text)
      (written : Outcome (Unit {0})) (account network : Text) where
    unfoldable pub conclude :
        Text → SubmissionAnswer J.Value → PendingFile → Outcome TransactionSubmission × PendingFile
    conclude tx_hash (accepted response) file = (
      ok (record {
        hash = unwrap_or (text J response (codes "hash")) tx_hash;
        ledger = and_then (J.get response (codes "ledger")) J.as_u64;
      }),
      file,
    )
    conclude tx_hash (rejected message) file = (err (rejected_message tx_hash message), file)
    conclude tx_hash (uncertain message) file =
        after_remember tx_hash message (remember time written network account tx_hash file)

    unfoldable pub submit_signed_transaction :
        TransactionEnvelope X → PendingFile → Outcome TransactionSubmission × PendingFile
    submit_signed_transaction envelope file = elim (before_sending now network envelope) [
      | err e ↦ (err e, file)
      | ok sent ↦ conclude sent.0 (submit sent.1) file
    ]

    run :
        (envelope : TransactionEnvelope X) (file saved : PendingFile)
        (tx_hash encoded message submitted_at : Text)
        → before_sending now network envelope ≡ ok (tx_hash, encoded)
        → submit encoded ≡ uncertain message
        → time ≡ ok submitted_at
        → put written (pending_record network account tx_hash submitted_at) file ≡ (ok tt, saved)
        → submit_signed_transaction envelope file ≡ (err (saved_message tx_hash message), saved)
    unfolding submit_signed_transaction conclude remember
    run envelope file saved tx_hash encoded message submitted_at sent open_end clock put_it =
        rw (sent, open_end, clock, put_it, submit_signed_transaction, conclude, remember) refl

    -- If Horizon's answer leaves the outcome open and the record could be saved, then the submission
    -- is an error, and until the ledger knows the hash or its time is over, no write of the account
    -- goes on from the file that it leaves.
    pub submit_signed_transaction-reconcile_with :
        (elapsed : Text → Option ℤ) (lookup : Text → Outcome Bool) (written' : Outcome (Unit {0}))
        (envelope : TransactionEnvelope X) (file saved file'' : PendingFile)
        (tx_hash encoded message submitted_at : Text)
        → before_sending now network envelope ≡ ok (tx_hash, encoded)
        → submit encoded ≡ uncertain message
        → time ≡ ok submitted_at
        → put written (pending_record network account tx_hash submitted_at) file ≡ (ok tt, saved)
        → lookup tx_hash ≡ ok false
        → is_expired elapsed lookup network account
            (pending_record network account tx_hash submitted_at)
          ≡ false
        → (submit_signed_transaction envelope file ≡ (err (saved_message tx_hash message), saved))
          × (reconcile_with elapsed lookup network account written'
                (submit_signed_transaction envelope file).1
              ≢ (ok tt, file''))
    submit_signed_transaction-reconcile_with elapsed lookup written' envelope file saved file''
          tx_hash encoded message submitted_at sent open_end clock put_it unknown fresh =
        let answer =
          run envelope file saved tx_hash encoded message submitted_at sent open_end clock put_it in
        (
          answer,
          rw answer (
              put-reconcile_with elapsed lookup written written'
                (pending_record network account tx_hash submitted_at) file file'' put_it unknown
                fresh),
        )
