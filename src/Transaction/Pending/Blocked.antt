-- ===== src/Transaction/Pending/Blocked.antt =====
-- A transaction that was put in the store stops the next write of its account.
use fresnica.Prelude.{
  ◌≡◌, ◌≢◌, ◌∙◌, sym, ap, subst, Bool, false, Option, List, [], ◌∷◌, ◌++◌, All, Text, Outcome, ok,
  err, ◌>>◌, ok-injective, arith, inl, inr,
}
use fresnica.Int.{ℤ}
use fresnica.Text.Laws.{text_eq_refl}
use fresnica.Transaction.Pending.{
  PendingTransaction, PendingFile, validate_pending, load, save, put, is_expired, reconcile_with,
}
use fresnica.Transaction.Pending.Clear.{
  Outcome-cases, load-eq-ok, IsSettled, others, confirmed, expired, reconcile_with-clear,
}

All-last : {A : Type 0} (P : A → Type 0) (xs : List A) (a : A) → All P (xs ++ a ∷ []) → P a
All-last P [] a h = h.0
All-last P (x ∷ xs) a h = All-last P xs a h.1

-- The file ends in the item that was put.
put_lem :
    (written : Outcome (Unit {0})) (pending : PendingTransaction) (file : PendingFile)
    {file' : PendingFile}
    → put written pending file ≡ (ok tt, file')
    → (before : List PendingTransaction) × (file' ≡ ok (before ++ pending ∷ []))
unfolding put save
put_lem (err e) pending file h = elim (Outcome-cases (validate_pending pending >> load file)) [
  | inr (message, l) ↦ absurd (ground arith)
  | inl (items, l) ↦ absurd (ground arith)
]
put_lem (ok u) pending file h = elim (Outcome-cases (validate_pending pending >> load file)) [
  | inr (message, l) ↦ absurd (ground arith)
  | inl (items, l) ↦ (_, sym (ap (λ r. r.1) (rw (l, put) at h)))
]

not_settled :
    (elapsed : Text → Option ℤ) (lookup : Text → Outcome Bool) (pending : PendingTransaction)
    → lookup pending.tx_hash ≡ ok false
    → is_expired elapsed lookup pending.network pending.account pending ≡ false
    → IsSettled elapsed lookup pending.network pending.account pending
    → ⊥
not_settled elapsed lookup pending unknown fresh (others o) =
    ground (arith, text_eq_refl pending.network, text_eq_refl pending.account)
not_settled elapsed lookup pending unknown fresh (confirmed c) = cc
not_settled elapsed lookup pending unknown fresh (expired e) = ground arith

-- A transaction that was put in the store, that the ledger does not know and whose time is not over,
-- keeps `reconcile_with` from letting a write of its account go on, however the later write ends.
pub put-reconcile_with :
    (elapsed : Text → Option ℤ) (lookup : Text → Outcome Bool)
    (written written' : Outcome (Unit {0})) (pending : PendingTransaction) (file : PendingFile)
    {file' : PendingFile} (file'' : PendingFile)
    → put written pending file ≡ (ok tt, file')
    → lookup pending.tx_hash ≡ ok false
    → is_expired elapsed lookup pending.network pending.account pending ≡ false
    → reconcile_with elapsed lookup pending.network pending.account written' file' ≢ (ok tt, file'')
put-reconcile_with elapsed lookup written written' pending file {file'} file'' h unknown fresh
      clear =
    let (before, holds) = put_lem written pending file h in
    let (items, l, _, settled) =
      reconcile_with-clear elapsed lookup pending.network pending.account written' file' clear in
    let same : items ≡ before ++ pending ∷ [] = ok-injective (sym (load-eq-ok file' l) ∙ holds) in
    not_settled elapsed lookup pending unknown fresh (
      All-last (IsSettled elapsed lookup pending.network pending.account) before pending
        (subst (All (IsSettled elapsed lookup pending.network pending.account)) same settled))
