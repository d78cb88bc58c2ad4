-- ===== src/Signing/Select/Complete.antt =====
-- The selection fails only where the available signers cannot authorize the transaction.
use fresnica.Prelude.{
  ℕ, zero, suc, ◌≤◌, ◌≡◌, refl, true, false, ◌&&◌, ◌||◌, none, some, List, [], ◌∷◌, length, Text,
  All, all, Outcome, ok, arith, ltb, Bool-cases, Option-cases, inl, inr,
}
use fresnica.Collections.{contains, insert, text_ord, is_subset}
use fresnica.Collections.Laws.{Within, insert-Within, contains-insert, contains-cons, contains-nil}
use fresnica.Authorization.{
  LedgerSignerCondition, Conditions, condition_ord, WeightedLedgerSigner,
  AccountAuthorizationRequirement, LedgerAuthorizationPlan, signer_weight, requirement_satisfiable,
  plan_satisfiable,
}
use fresnica.Signing.Select.{
  is_ed25519, usable, Selection, best_available_signer, choose, fill_weight, fill_weights,
  fill_count, count_ed25519, plan_signers, select_extras, select_ed25519_signers,
}
use fresnica.Signing.Select.Weights.{best_from-none, usable_count-le}
use fresnica.Signing.Select.Fuel.{fill_weights-ends, fill_count-ends}
use fresnica.Signing.Select.Proofs.{Stands, Distinct, length-count_ed25519, unusable-held}
use fresnica.Signing.Select.Sound.{ed25519_condition, with_keys}

contains-with_keys :
    (s : Conditions) (keys : List Text) (c : LedgerSignerCondition)
    → contains (with_keys s keys) c ≡ (contains s c || (is_ed25519 c && contains keys c.key))
contains-with_keys s [] c = ground (arith, contains-nil c.key)
contains-with_keys s (k ∷ keys) c = ground (
  arith,
  contains-with_keys (insert (ed25519_condition k) s) keys c,
  contains-insert (ed25519_condition k) c s,
  contains-cons k keys c.key,
)

module _ (satisfied : Conditions) (available : List Text) where
  -- A signer that is not usable adds nothing that the set does not hold already.
  exhausted_weight :
      (signers : List WeightedLedgerSigner) (current : Conditions)
      → Within satisfied current
      → All (λ s. usable current available s ≡ false) signers
      → signer_weight signers (with_keys satisfied available) ≤ signer_weight signers current
  unfolding signer_weight
  exhausted_weight [] current h u = omega arith
  exhausted_weight (s ∷ signers) current h (us, u) = ground (
    arith,
    exhausted_weight signers current h u,
    contains-with_keys satisfied available s.condition,
    h s.condition,
  )

  -- The result is no error, and the conditions that held at first still do.
  abbrev Succeeds : Outcome Selection → Type 0
  Succeeds o = (t : Selection) × (o ≡ ok t) × Within satisfied t.current

  choose-Within :
      (c : LedgerSignerCondition) (s : Selection)
      → Within satisfied s.current
      → Within satisfied (choose c s).current
  choose-Within c s h d m = insert-Within c s.current d (h d m)

  select_extras-Succeeds :
      (extras : Conditions) (s : Selection)
      → Within satisfied s.current
      → is_subset extras (with_keys satisfied available) ≡ true
      → Succeeds (select_extras available extras s)
  unfolding select_extras is_subset
  select_extras-Succeeds [] s w h = (s, refl, w)
  select_extras-Succeeds (c ∷ extras) s w h = elim (Bool-cases (contains s.current c)) [
    | inl old ↦ rw old (select_extras-Succeeds extras s w (ground arith))
    | inr new ↦
        let held = contains-with_keys satisfied available c in
        let ed : is_ed25519 c ≡ true = ground (arith, held, w c) in
        let a : contains available c.key ≡ true = ground (arith, held, w c) in
        rw (new, ed, a)
          (select_extras-Succeeds extras (choose c s) (choose-Within c s w) (ground arith))
  ]

  fill_weight-Succeeds :
      (fuel : ℕ) (r : AccountAuthorizationRequirement) (s : Selection) {o : Outcome Selection}
      → Within satisfied s.current
      → requirement_satisfiable (with_keys satisfied available) r ≡ true
      → fill_weight fuel available r s ≡ some o
      → Succeeds o
  unfolding fill_weight requirement_satisfiable
  fill_weight-Succeeds zero r s w h e = cc
  fill_weight-Succeeds (suc fuel) r s {o} w h e =
      elim (Bool-cases (ltb (signer_weight r.signers s.current) r.required_weight)) [
        | inr reached ↦ (s, ground arith, w)
        | inl short ↦ elim (Option-cases (best_available_signer r.signers s.current available)) [
          | inl none_left ↦
              let (_, unusable) = best_from-none s.current available r.signers none none_left in
              absurd (ground (arith, exhausted_weight r.signers s.current w unusable))
          | inr (b, found) ↦
              let more : fill_weight fuel available r (choose b.condition s) ≡ some o =
                ground arith in
              fill_weight-Succeeds fuel r (choose b.condition s) (choose-Within b.condition s w) h
                more
        ]
      ]

  fill_weights-Succeeds :
      (rs : List AccountAuthorizationRequirement) (s : Selection) {o : Outcome Selection}
      → Within satisfied s.current
      → all (requirement_satisfiable (with_keys satisfied available)) rs ≡ true
      → fill_weights available rs s ≡ some o
      → Succeeds o
  unfolding fill_weights
  fill_weights-Succeeds [] s w h e = (s, ground arith, w)
  fill_weights-Succeeds (r ∷ rs) s {o} w h e =
      elim (Option-cases (fill_weight (suc (length r.signers)) available r s)) [
        | inl out ↦ absurd (ground arith)
        | inr (p, first) ↦
            let (t, done, w') =
              fill_weight-Succeeds (suc (length r.signers)) r s w (ground arith) first in
            fill_weights-Succeeds rs t w' (ground arith) (ground arith)
      ]

module _ (available : List Text) where
  -- Conditions that available signers of the list can prove, none of them twice.
  pub record IsProofs (signers : List WeightedLedgerSigner) (proofs : List LedgerSignerCondition)
      : Type 0 where
    pub distinct : Distinct proofs
    pub listed : All (λ c. Stands c signers) proofs
    pub ed25519 : All (λ c. is_ed25519 c ≡ true) proofs
    pub at_hand : All (λ c. contains available c.key ≡ true) proofs

  All-held :
      (signers : List WeightedLedgerSigner) (current : Conditions)
      (proofs : List LedgerSignerCondition)
      → All (λ s. usable current available s ≡ false) signers
      → All (λ c. Stands c signers) proofs
      → All (λ c. is_ed25519 c ≡ true) proofs
      → All (λ c. contains available c.key ≡ true) proofs
      → All (λ c. contains current c ≡ true) proofs
  All-held signers current [] u l e a = tt
  All-held signers current (c ∷ proofs) u (l, ls) (e, es) (a, others) = (
    unusable-held current available signers c l u e a,
    All-held signers current proofs u ls es others,
  )

  fill_count-Succeeds :
      (fuel : ℕ) (signers : List WeightedLedgerSigner) (proofs : List LedgerSignerCondition)
      (minimum : ℕ) (s : Selection) {o : Outcome Selection}
      → IsProofs signers proofs
      → minimum ≤ length proofs
      → fill_count fuel available signers minimum s ≡ some o
      → (t : Selection) × (o ≡ ok t)
  unfolding fill_count
  fill_count-Succeeds zero signers proofs minimum s p m e = cc
  fill_count-Succeeds (suc fuel) signers proofs minimum s {o} p m e =
      elim (Bool-cases (ltb (count_ed25519 s.current) minimum)) [
        | inr reached ↦ (s, ground arith)
        | inl short ↦ elim (Option-cases (best_available_signer signers s.current available)) [
          | inl none_left ↦
              let (_, unusable) = best_from-none s.current available signers none none_left in
              let held = All-held signers s.current proofs unusable p.listed p.ed25519 p.at_hand in
              let many = length-count_ed25519 s.current proofs p.ed25519 held p.distinct in
              absurd (ground arith)
          | inr (b, found) ↦
              let more : fill_count fuel available signers minimum (choose b.condition s) ≡ some o =
                ground arith in
              fill_count-Succeeds fuel signers proofs minimum (choose b.condition s) p m more
        ]
      ]

-- If the conditions that hold already and the signatures of all available signers would satisfy the
-- plan, and the signers of the plan have at least as many different available Ed25519 conditions as
-- signatures are asked for, then the selection succeeds.
pub select_ed25519_signers_complete :
    (plan : LedgerAuthorizationPlan) (satisfied : Conditions) (available : List Text) (minimum : ℕ)
    (proofs : List LedgerSignerCondition)
    → plan_satisfiable plan (with_keys satisfied available) ≡ true
    → IsProofs available (plan_signers plan.requirements) proofs
    → minimum ≤ length proofs
    → (keys : List Text) × (select_ed25519_signers plan satisfied available minimum
        ≡ some (ok keys))
unfolding select_ed25519_signers plan_satisfiable
select_ed25519_signers_complete plan satisfied available minimum proofs h p m =
    let start : Selection = record { current = satisfied; selected = [] } in
    let signers = plan_signers plan.requirements in
    let fuel : ℕ = suc (length signers) in
    let (s, extras, w) =
      select_extras-Succeeds satisfied available plan.extra_signers start (λ c m. m)
        (ground arith) in
    elim (Option-cases (fill_weights available plan.requirements s)) [
      | inl out ↦ absurd (fill_weights-ends available plan.requirements s out)
      | inr (q, filled) ↦
          let (t, done, _) =
            fill_weights-Succeeds satisfied available plan.requirements s w (ground arith) filled in
          elim (Option-cases (fill_count fuel available signers minimum t)) [
            | inl out ↦ absurd (
                fill_count-ends available fuel signers minimum t
                  (omega (arith, usable_count-le t.current available signers)) out)
            | inr (r, counted) ↦
                let (u, result) =
                  fill_count-Succeeds available fuel signers proofs minimum t p m counted in
                (u.selected, ground arith)
          ]
    ]
