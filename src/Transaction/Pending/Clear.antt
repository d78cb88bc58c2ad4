-- ===== src/Transaction/Pending/Clear.antt =====
-- When the pending transactions of an account are clear, and what the store keeps.
use fresnica.Prelude.{
  ◌≡◌, ◌⊎◌, refl, ◌∙◌, sym, ap, Bool, true, false, Option, none, List, [], ◌∷◌, ◌++◌, append-nil,
  append_assoc, any, retain, All, Text, Outcome, ok, err, >>=-eq-ok, ok-injective, arith,
  Bool-cases, inl, inr,
}
use fresnica.Int.{ℤ}
use fresnica.Transaction.Pending.{
  PendingTransaction, PendingFile, validate_all, load, of_account, is_others, save, Reconciled,
  settle, keep, is_expired, reconcile_items, finish_reconcile, reconcile_with,
}

pub load-eq-ok :
    (file : PendingFile) {items : List PendingTransaction} → load file ≡ ok items → file ≡ ok items
unfolding load
load-eq-ok file h =
    let (read, e, h₁) = >>=-eq-ok file _ h in
    let (_, _, h₂) = >>=-eq-ok (validate_all read) _ h₁ in e ∙ h₂

pub Outcome-cases :
    {A : Type 0} (m : Outcome A) → ((a : A) × (m ≡ ok a)) ⊎ ((e : Text) × (m ≡ err e))
Outcome-cases (ok a) = inl (a, refl)
Outcome-cases (err e) = inr (e, refl)

abbrev start : Reconciled
start = record { retained = []; pending_hash = none; changed = false }

module _ (elapsed : Text → Option ℤ) (lookup : Text → Outcome Bool) (network account : Text) where
  -- Another account's, confirmed by the ledger, or past its time.
  pub data IsSettled (item : PendingTransaction) : Type 0 where
    others : is_others network account item ≡ true → IsSettled item
    confirmed : lookup item.tx_hash ≡ ok true → IsSettled item
    expired : is_expired elapsed lookup network account item ≡ true → IsSettled item

  -- The items that are not of the account stay, whatever else happens.
  abbrev others_of : List PendingTransaction → List PendingTransaction
  others_of = retain (is_others network account)

  -- An item that left no pending hash was let go.
  settle-none :
      (c e : Bool) (item : PendingTransaction) (s : Reconciled)
      → (settle c e item s).pending_hash ≡ none
      → ((c ≡ true) ⊎ (e ≡ true))
        × (s.pending_hash ≡ none)
        × ((settle c e item s).retained ≡ s.retained)
  unfolding settle
  settle-none true e item s h = (inl refl, h, refl)
  settle-none false true item s h = (inr refl, h, refl)
  settle-none false false item s h = absurd (ground arith)

  settle-unchanged :
      (c e : Bool) (item : PendingTransaction) (s : Reconciled)
      → (settle c e item s).changed ≡ false
      → (s.changed ≡ false) × ((settle c e item s).retained ≡ s.retained ++ item ∷ [])
  unfolding settle
  settle-unchanged true e item s h = absurd (ground arith)
  settle-unchanged false true item s h = absurd (ground arith)
  settle-unchanged false false item s h = (h, refl)

  lookup-IsSettled :
      (item : PendingTransaction) (c : Bool)
      → lookup item.tx_hash ≡ ok c
      → (c ≡ true) ⊎ (is_expired elapsed lookup network account item ≡ true)
      → IsSettled item
  lookup-IsSettled item c found (inl known) = confirmed (found ∙ ap ok known)
  lookup-IsSettled item c found (inr late) = expired late

  clear_items :
      (items : List PendingTransaction) (s : Reconciled) {t : Reconciled}
      → reconcile_items elapsed lookup network account items s ≡ ok t
      → t.pending_hash ≡ none
      → (s.pending_hash ≡ none) × (t.retained ≡ s.retained ++ others_of items) × All IsSettled items
  unfolding reconcile_items
  clear_items [] s {t} h clear =
      let same = ok-injective h in
      (
        ap (λ r. r.pending_hash) same ∙ clear,
        ap (λ r. r.retained) (sym same) ∙ sym (append-nil s.retained),
        tt,
      )
  clear_items (item ∷ items) s {t} h clear = elim (Bool-cases (is_others network account item)) [
    | inl other ↦
        let (p, r, a) = clear_items items (keep item s) (rw (other, reconcile_items) at h) clear in
        (
          p,
          ground (arith, append_assoc s.retained (item ∷ []) (others_of items)),
          (others other, a),
        )
    | inr mine ↦
        let (c, l, h₁) = >>=-eq-ok (lookup item.tx_hash) _ (rw (mine, reconcile_items) at h) in
        let e = is_expired elapsed lookup network account item in
        let (p, r, a) = clear_items items (settle c e item s) h₁ clear in
        let (gone, p', r') = settle-none c e item s p in
        (p', ground arith, (lookup-IsSettled item c l gone, a))
  ]

  unchanged_items :
      (items : List PendingTransaction) (s : Reconciled) {t : Reconciled}
      → reconcile_items elapsed lookup network account items s ≡ ok t
      → t.changed ≡ false
      → (s.changed ≡ false) × (t.retained ≡ s.retained ++ items)
  unfolding reconcile_items
  unchanged_items [] s {t} h same =
      let e = ok-injective h in
      (ap (λ r. r.changed) e ∙ same, ap (λ r. r.retained) (sym e) ∙ sym (append-nil s.retained))
  unchanged_items (item ∷ items) s {t} h same = elim (Bool-cases (is_others network account item)) [
    | inl other ↦
        let (p, r) = unchanged_items items (keep item s) (rw (other, reconcile_items) at h) same in
        (p, r ∙ append_assoc s.retained (item ∷ []) items)
    | inr mine ↦
        let (c, _, h₁) = >>=-eq-ok (lookup item.tx_hash) _ (rw (mine, reconcile_items) at h) in
        let e = is_expired elapsed lookup network account item in
        let (p, r) = unchanged_items items (settle c e item s) h₁ same in
        let (p', r') = settle-unchanged c e item s p in
        (p', ground (arith, append_assoc s.retained (item ∷ []) items))
  ]

  others-none :
      (items : List PendingTransaction)
      → any (of_account network account) items ≡ false
      → (others_of items ≡ items) × All IsSettled items
  others-none [] h = (refl, tt)
  others-none (item ∷ items) h =
      let (same, settled) = others-none items (ground arith) in
      let other : is_others network account item ≡ true = ground arith in
      (ground arith, (others other, settled))

  -- A clear answer of the last stage: nothing is pending, and the file holds what was retained.
  finish-clear :
      (written : Outcome (Unit {0})) (items : List PendingTransaction) (s : Reconciled)
      {file' : PendingFile}
      → (s.changed ≡ false → s.retained ≡ items)
      → finish_reconcile elapsed lookup network account written (ok items) s ≡ (ok tt, file')
      → (s.pending_hash ≡ none) × (file' ≡ ok s.retained)
  unfolding finish_reconcile save
  finish-clear (ok u) items s kept h = ground arith
  finish-clear (err e) items s kept h = ground arith

  -- If `reconcile_with` lets a write go on, then every stored item of the account was confirmed by
  -- the ledger or is past its time, and the file then holds the items of other accounts only, in
  -- their order.
  pub reconcile_with-clear :
      (written : Outcome (Unit {0})) (file : PendingFile) {file' : PendingFile}
      → reconcile_with elapsed lookup network account written file ≡ (ok tt, file')
      → (items : List PendingTransaction) × (load file ≡ ok items)
        × (file' ≡ ok (retain (is_others network account) items))
        × All IsSettled items
  unfolding reconcile_with
  reconcile_with-clear written file {file'} h = elim (Outcome-cases (load file)) [
    | inr (e, l) ↦ absurd (ground arith)
    | inl (items, l) ↦ elim (Bool-cases (any (of_account network account) items)) [
      | inr none_mine ↦
          let (same, settled) = others-none items none_mine in
          let kept : file ≡ file' = ground arith in
          (items, l, sym kept ∙ load-eq-ok file l ∙ ap ok (sym same), settled)
      | inl some_mine ↦
          elim (Outcome-cases (reconcile_items elapsed lookup network account items start)) [
            | inr (e, r) ↦ absurd (ground arith)
            | inl (s, r) ↦
                let file_holds = load-eq-ok file l in
                let last : finish_reconcile elapsed lookup network account written file s
                    ≡ (ok tt, file') =
                  ground arith in
                let (clear, wrote) =
                  finish-clear written items s (λ e. (unchanged_items items start r e).1)
                    (rw file_holds at last) in
                let (_, kept, settled) = clear_items items start r clear in
                (items, l, wrote ∙ ap ok kept, settled)
          ]
    ]
  ]
