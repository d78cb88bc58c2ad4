-- ===== src/Signing/Select/Sound.antt =====
-- A selection that succeeds authorizes the transaction, with available signers only.
use fresnica.Prelude.{
  ℕ, zero, suc, ◌≤◌, ◌≡◌, ◌∙◌, refl, sym, ap, subst, true, Option, none, some, List, [], ◌∷◌, ◌++◌,
  length, Text, All, All-append, All-map, all, Outcome, ok, err, arith, ltb, leb, Bool-cases,
  Option-cases, inl, inr,
}
use fresnica.Collections.{contains, insert, text_ord}
use fresnica.Collections.Laws.{Within, insert-Within, contains-insert_self, is_subset-All}
use fresnica.Authorization.{
  LedgerSignerKind, kind_eq_iff, LedgerSignerCondition, Conditions, condition_ord,
  WeightedLedgerSigner, AccountAuthorizationRequirement, LedgerAuthorizationPlan, signer_weight,
  requirement_satisfiable, plan_satisfiable,
}
use fresnica.Signing.Select.{
  is_ed25519, Selection, best_available_signer, choose, fill_weight, fill_weights, then_select,
  count_ed25519, fill_count, plan_signers, select_extras, select_from, selected_keys,
  select_ed25519_signers,
}
use fresnica.Signing.Select.Weights.{best_lem, requirements_mono}

abbrev pub ed25519_condition : Text → LedgerSignerCondition
ed25519_condition key = record { kind = LedgerSignerKind.ed25519_public_key; key = key }

-- The conditions that hold once the Ed25519 signers of the given keys have signed.
abbrev pub with_keys : Conditions → List Text → Conditions
with_keys satisfied [] = satisfied
with_keys satisfied (k ∷ keys) = with_keys (insert (ed25519_condition k) satisfied) keys

with_keys-append :
    (s : Conditions) (keys : List Text) (k : Text)
    → with_keys s (keys ++ k ∷ []) ≡ insert (ed25519_condition k) (with_keys s keys)
with_keys-append s [] k = refl
with_keys-append s (j ∷ keys) k = with_keys-append (insert (ed25519_condition j) s) keys k

condition-is_ed25519 :
    (c : LedgerSignerCondition) → is_ed25519 c ≡ true → c ≡ ed25519_condition c.key
condition-is_ed25519 c h = ground (arith, kind_eq_iff c.kind LedgerSignerKind.ed25519_public_key)

then_select-ok :
    (r : Option (Outcome Selection)) (f : Selection → Option (Outcome Selection)) {t : Selection}
    → then_select r f ≡ some (ok t)
    → (s : Selection) × (r ≡ some (ok s)) × (f s ≡ some (ok t))
then_select-ok none f h = cc
then_select-ok (some (err e)) f h = cc
then_select-ok (some (ok s)) f h = (s, refl, h)

ok-some : {r : Outcome Selection} {s : Selection} → some r ≡ some (ok s) → r ≡ ok s
ok-some h = cc

selected_keys-ok :
    (r : Option (Outcome Selection)) {keys : List Text}
    → selected_keys r ≡ some (ok keys)
    → (s : Selection) × (r ≡ some (ok s)) × (s.selected ≡ keys)
selected_keys-ok none h = cc
selected_keys-ok (some (err e)) h = cc
selected_keys-ok (some (ok s)) h = (s, refl, cc)

module _ (satisfied : Conditions) (available : List Text) where
  -- The set of conditions is what the selected keys make true, and those keys are available.
  pub record IsSelection (s : Selection) : Type 0 where
    pub made_true : s.current ≡ with_keys satisfied s.selected
    pub at_hand : All (λ k. contains available k ≡ true) s.selected

  choose-IsSelection :
      (c : LedgerSignerCondition) (s : Selection)
      → is_ed25519 c ≡ true
      → contains available c.key ≡ true
      → IsSelection s
      → IsSelection (choose c s)
  choose-IsSelection c s e a h = record {
    made_true =
        subst (λ d. insert d s.current ≡ with_keys satisfied (s.selected ++ c.key ∷ []))
          (sym (condition-is_ed25519 c e))
          (ap (insert (ed25519_condition c.key)) h.made_true
            ∙ sym (with_keys-append satisfied s.selected c.key));
    at_hand = All-append _ s.selected (c.key ∷ []) h.at_hand (a, tt);
  }

  -- What each stage of the selection does: it goes on from a selection to a greater one.
  abbrev Grows : Selection → Selection → Type 0
  Grows s t = IsSelection t × Within s.current t.current

  select_extras-Grows :
      (extras : Conditions) (s : Selection) {t : Selection}
      → select_extras available extras s ≡ ok t
      → IsSelection s
      → Grows s t × All (λ c. contains t.current c ≡ true) extras
  unfolding select_extras
  select_extras-Grows [] s {t} h i =
      let same : s ≡ t = ground arith in subst (λ u. Grows s u × Unit {0}) same ((i, λ c m. m), tt)
  select_extras-Grows (c ∷ extras) s {t} h i = elim (Bool-cases (contains s.current c)) [
    | inl old ↦
        let (grown, rest) = select_extras-Grows extras s (ground arith) i in
        (grown, (grown.1 c old, rest))
    | inr new ↦
        let taken : select_extras available extras (choose c s) ≡ ok t = ground arith in
        let e : is_ed25519 c ≡ true = ground arith in
        let a : contains available c.key ≡ true = ground arith in
        let (grown, rest) =
          select_extras-Grows extras (choose c s) taken (choose-IsSelection c s e a i) in
        (
          (grown.0, λ d m. grown.1 d (insert-Within c s.current d m)),
          (grown.1 c (contains-insert_self c s.current), rest),
        )
  ]

  fill_weight-Grows :
      (fuel : ℕ) (r : AccountAuthorizationRequirement) (s : Selection) {t : Selection}
      → fill_weight fuel available r s ≡ some (ok t)
      → IsSelection s
      → Grows s t × (requirement_satisfiable t.current r ≡ true)
  unfolding fill_weight requirement_satisfiable
  fill_weight-Grows zero r s h i = cc
  fill_weight-Grows (suc fuel) r s {t} h i =
      elim (Bool-cases (ltb (signer_weight r.signers s.current) r.required_weight)) [
        | inr reached ↦
            let same : s ≡ t = ground arith in
            subst
              (λ u. Grows s u × (leb r.required_weight (signer_weight r.signers u.current) ≡ true))
              same ((i, λ c m. m), ground arith)
        | inl short ↦ elim (Option-cases (best_available_signer r.signers s.current available)) [
          | inl e ↦ absurd (ground arith)
          | inr (b, e) ↦
              let c = b.condition in
              let (fit, _) = best_lem s.current available r.signers e in
              let more : fill_weight fuel available r (choose c s) ≡ some (ok t) = ground arith in
              let ed : is_ed25519 c ≡ true = ground arith in
              let a : contains available c.key ≡ true = ground arith in
              let (grown, done) =
                fill_weight-Grows fuel r (choose c s) more (choose-IsSelection c s ed a i) in
              ((grown.0, λ d m. grown.1 d (insert-Within c s.current d m)), done)
        ]
      ]

  fill_weights-Grows :
      (rs : List AccountAuthorizationRequirement) (s : Selection) {t : Selection}
      → fill_weights available rs s ≡ some (ok t)
      → IsSelection s
      → Grows s t × (all (requirement_satisfiable t.current) rs ≡ true)
  unfolding fill_weights
  fill_weights-Grows [] s {t} h i =
      let same : s ≡ t = ground arith in
      subst (λ u. Grows s u × (true ≡ true)) same ((i, λ c m. m), refl)
  fill_weights-Grows (r ∷ rs) s {t} h i =
      let (u, first, rest) =
        then_select-ok (fill_weight (suc (length r.signers)) available r s)
          (fill_weights available rs) h in
      let (grown, reached) = fill_weight-Grows (suc (length r.signers)) r s first i in
      let (grown', others) = fill_weights-Grows rs u rest grown.0 in
      (
        (grown'.0, λ d m. grown'.1 d (grown.1 d m)),
        ground (arith, requirements_mono (r ∷ []) u.current t.current grown'.1),
      )

  fill_count-Grows :
      (fuel : ℕ) (signers : List WeightedLedgerSigner) (minimum : ℕ) (s : Selection) {t : Selection}
      → fill_count fuel available signers minimum s ≡ some (ok t)
      → IsSelection s
      → Grows s t × (minimum ≤ count_ed25519 t.current)
  unfolding fill_count
  fill_count-Grows zero signers minimum s h i = cc
  fill_count-Grows (suc fuel) signers minimum s {t} h i =
      elim (Bool-cases (ltb (count_ed25519 s.current) minimum)) [
        | inr reached ↦
            let same : s ≡ t = ground arith in
            subst (λ u. Grows s u × (minimum ≤ count_ed25519 u.current)) same
              ((i, λ c m. m), ground arith)
        | inl short ↦ elim (Option-cases (best_available_signer signers s.current available)) [
          | inl e ↦ absurd (ground arith)
          | inr (b, e) ↦
              let c = b.condition in
              let (fit, _) = best_lem s.current available signers e in
              let more : fill_count fuel available signers minimum (choose c s) ≡ some (ok t) =
                ground arith in
              let ed : is_ed25519 c ≡ true = ground arith in
              let a : contains available c.key ≡ true = ground arith in
              let (grown, done) =
                fill_count-Grows fuel signers minimum (choose c s) more
                  (choose-IsSelection c s ed a i) in
              ((grown.0, λ d m. grown.1 d (insert-Within c s.current d m)), done)
        ]
      ]

  select_from-grows :
      (plan : LedgerAuthorizationPlan) (minimum : ℕ) {t : Selection}
      → select_from plan satisfied available minimum ≡ some (ok t)
      → IsSelection t
        × (plan_satisfiable plan t.current ≡ true)
        × (minimum ≤ count_ed25519 t.current)
  unfolding select_from plan_satisfiable
  select_from-grows plan minimum {t} h =
      let start : Selection = record { current = satisfied; selected = [] } in
      let signers = plan_signers plan.requirements in
      let extras = select_extras available plan.extra_signers start in
      let (s, first, rest) = then_select-ok (some extras) _ h in
      let (u, second, third) = then_select-ok (fill_weights available plan.requirements s) _ rest in
      let (grown, held) =
        select_extras-Grows plan.extra_signers start (ok-some first)
          (record { made_true = refl; at_hand = tt }) in
      let (grown', reached) = fill_weights-Grows plan.requirements s second grown.0 in
      let (grown'', enough) =
        fill_count-Grows (suc (length signers)) signers minimum u third grown'.0 in
      let kept : All (λ c. contains t.current c ≡ true) plan.extra_signers =
        All-map _ _ plan.extra_signers (λ c m. grown''.1 c (grown'.1 c m)) held in
      (
        grown''.0,
        ground (
          arith,
          is_subset-All plan.extra_signers t.current kept,
          requirements_mono plan.requirements u.current t.current grown''.1 reached,
        ),
        enough,
      )

-- If the selection succeeds, then the selected keys are all available, and once they have signed the
-- plan is satisfied and at least the required number of Ed25519 conditions holds.
pub select_ed25519_signers_sound :
    (plan : LedgerAuthorizationPlan) (satisfied : Conditions) (available : List Text) (minimum : ℕ)
    {keys : List Text}
    → select_ed25519_signers plan satisfied available minimum ≡ some (ok keys)
    → All (λ k. contains available k ≡ true) keys
      × (plan_satisfiable plan (with_keys satisfied keys) ≡ true)
      × (minimum ≤ count_ed25519 (with_keys satisfied keys))
unfolding select_ed25519_signers
select_ed25519_signers_sound plan satisfied available minimum h =
    let (t, e, same) = selected_keys-ok (select_from plan satisfied available minimum) h in
    let (i, reached, enough) = select_from-grows satisfied available plan minimum e in
    rw (← same, ← i.made_true) (i.at_hand, reached, enough)
