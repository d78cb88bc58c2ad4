-- ===== src/Transaction/Pending.antt =====
-- The pending transactions of an account and the submission of a signed transaction
-- (`PendingTransactionStore` and `submit_signed_transaction` of reference/rust-client/src/transaction.rs).
--
-- The file is its decoded list of items, or the error of reading it. Every operation returns what it
-- answers with the file that it leaves. A write may fail and then leaves the old file, as the code
-- writes a temporary file and renames it; whether a write fails is an argument, as are the clock, the
-- age of a time text and the answers of Horizon.
pub mod Clear
pub mod Blocked
use fresnica.Prelude.{
  ℕ, Bool, true, false, not, ◌&&◌, ◌||◌, Option, none, some, List, [], ◌∷◌, ◌++◌, any, retain, Text,
  String, Outcome, ok, err, ◌>>=◌, ◌>>◌, fail_if, ok_or, if◌then◌else◌,
}
use fresnica.Text.{codes, text_eq, is_empty, trim}
use fresnica.Int.{ℤ, pos, ltb_ℤ, max_zero, i64_max}

abbrev pub pending_ttl_seconds : ℤ
pending_ttl_seconds = pos 210

pub record PendingTransaction : Type 0 where
  pub network : Text
  pub account : Text
  pub tx_hash : Text
  pub kind : Text
  pub submitted_at : Text

-- What the file holds; a missing file holds no item.
abbrev pub PendingFile : Type 0
PendingFile = Outcome (List PendingTransaction)

abbrev malformed_pending : Text
malformed_pending = codes "Pending transaction state is malformed: fields must be non-empty strings"

unfoldable pub validate_pending : PendingTransaction → Outcome (Unit {0})
validate_pending item =
    fail_if
      (is_empty (trim item.network)
        || is_empty (trim item.account)
        || is_empty (trim item.tx_hash)
        || is_empty (trim item.kind)
        || is_empty (trim item.submitted_at))
      malformed_pending

unfoldable pub validate_all : List PendingTransaction → Outcome (Unit {0})
validate_all [] = ok tt
validate_all (item ∷ items) = validate_pending item >> validate_all items

unfoldable pub load : PendingFile → Outcome (List PendingTransaction)
load file = file >>= λ items. validate_all items >> ok items

abbrev pub of_account : Text → Text → PendingTransaction → Bool
of_account network account item = text_eq item.network network && text_eq item.account account

abbrev pub is_others : Text → Text → PendingTransaction → Bool
is_others network account item = not (of_account network account item)

-- `written` is how the write ends.
unfoldable pub save :
    Outcome (Unit {0}) → List PendingTransaction → PendingFile → Outcome (Unit {0}) × PendingFile
save (ok u) items file = (ok tt, ok items)
save (err e) items file = (err e, file)

abbrev same_pending : PendingTransaction → PendingTransaction → Bool
same_pending pending item =
    of_account pending.network pending.account item && text_eq item.tx_hash pending.tx_hash

unfoldable pub put :
    Outcome (Unit {0}) → PendingTransaction → PendingFile → Outcome (Unit {0}) × PendingFile
put written pending file = elim (validate_pending pending >> load file) [
  | err e ↦ (err e, file)
  | ok items ↦
      save written (retain (λ item. not (same_pending pending item)) items ++ pending ∷ []) file
]

-- `elapsed` gives the whole seconds since a time text, where it can be read.
unfoldable pub pending_age_seconds : (Text → Option ℤ) → PendingTransaction → ℤ
pending_age_seconds elapsed item = elim (elapsed item.submitted_at) [
  | none ↦ pos i64_max
  | some seconds ↦ max_zero seconds
]

-- The variables of the loop of `reconcile_with`.
pub record Reconciled : Type 0 where
  pub retained : List PendingTransaction
  pub pending_hash : Option Text
  pub changed : Bool

abbrev first_hash : Option Text → Text → Option Text
first_hash none hash = some hash
first_hash (some found) hash = some found

-- One item of the account: confirmed, too old, or still pending.
unfoldable pub settle : Bool → Bool → PendingTransaction → Reconciled → Reconciled
settle confirmed expired item s =
    if confirmed || expired
    then record { retained = s.retained; pending_hash = s.pending_hash; changed = true }
    else record {
      retained = s.retained ++ item ∷ [];
      pending_hash = first_hash s.pending_hash item.tx_hash;
      changed = s.changed;
    }

abbrev pub keep : PendingTransaction → Reconciled → Reconciled
keep item s = record {
  retained = s.retained ++ item ∷ [];
  pending_hash = s.pending_hash;
  changed = s.changed;
}

unfoldable pub still_pending : Text → Text
still_pending hash = codes "A previous transaction is still pending confirmation: " ++ hash

module _ (elapsed : Text → Option ℤ) (lookup : Text → Outcome Bool) (network account : Text) where
  abbrev pub is_expired : PendingTransaction → Bool
  is_expired item = not (ltb_ℤ (pending_age_seconds elapsed item) pending_ttl_seconds)

  unfoldable pub reconcile_items : List PendingTransaction → Reconciled → Outcome Reconciled
  reconcile_items [] s = ok s
  reconcile_items (item ∷ items) s = elim (is_others network account item) [
    | true ↦ reconcile_items items (keep item s)
    | false ↦ lookup item.tx_hash >>= λ confirmed.
        reconcile_items items (settle confirmed (is_expired item) item s)
  ]

  -- The answer, after the file was written.
  abbrev answer : Option Text → Outcome (Unit {0})
  answer none = ok tt
  answer (some hash) = err (still_pending hash)

  abbrev answered :
      Option Text → Outcome (Unit {0}) × PendingFile → Outcome (Unit {0}) × PendingFile
  answered hash (ok u, file) = (answer hash, file)
  answered hash (err e, file) = (err e, file)

  unfoldable pub finish_reconcile :
      Outcome (Unit {0}) → PendingFile → Reconciled → Outcome (Unit {0}) × PendingFile
  finish_reconcile written file s =
      if s.changed
      then answered s.pending_hash (save written s.retained file)
      else (answer s.pending_hash, file)

  -- `reconcile_with`; its asynchronous twin asks the same questions in the same order.
  unfoldable pub reconcile_with :
      Outcome (Unit {0}) → PendingFile → Outcome (Unit {0}) × PendingFile
  reconcile_with written file = elim (load file) [
    | err e ↦ (err e, file)
    | ok items ↦ elim (any (of_account network account) items) [
      | false ↦ (ok tt, file)
      | true ↦
          elim (reconcile_items items
            (record { retained = []; pending_hash = none; changed = false })) [
              | err e ↦ (err e, file)
              | ok s ↦ finish_reconcile written file s
            ]
    ]
  ]
