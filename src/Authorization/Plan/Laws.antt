-- ===== src/Authorization/Plan/Laws.antt =====
-- A plan is satisfied exactly when each use of an account's authorization is.
use fresnica.Prelude.{
  ℕ, ◌≡◌, refl, ap, fun_ext, max, Bool, false, ◌&&◌, Option, none, some, List, [], ◌∷◌, All, all,
  find, Text, ok, ◌>>=◌, >>=-eq-ok, arith, leb, Bool-cases, Option-cases, inl, inr,
}
use fresnica.Text.{text_eq}
use fresnica.Text.Laws.{text_eq_iff}
use fresnica.Stellar.{Stellar, TransactionEnvelope}
use fresnica.Collections.{is_subset, map_get, map_insert}
use fresnica.Collections.Laws.{map_get-insert}
use fresnica.Authorization.{
  Conditions, condition_ord, LedgerAccountAuthorization, AuthorizationUse,
  AccountAuthorizationRequirement, LedgerAuthorizationPlan, threshold_weight, signer_weight,
  requirement_satisfiable, plan_satisfiable,
}
use fresnica.Authorization.Plan.{
  RequiredAuthorizationUse, classic_authorization_uses, extra_signer_conditions, AccountIndex,
  index_accounts, merge_requirement, recorded_use, add_requirement, add_requirements,
  plan_classic_ledger_authorization,
}

-- The state of an account among those that were loaded.
abbrev pub account_state :
    List LedgerAccountAuthorization → Text → Option LedgerAccountAuthorization
account_state accounts id = find (λ account. text_eq account.account_id id) accounts

-- The signers at hand reach the threshold of the use, and at least one of them signs.
abbrev pub account_authorizes :
    Option LedgerAccountAuthorization → RequiredAuthorizationUse → Conditions → Bool
account_authorizes none u available = false
account_authorizes (some account) u available =
    leb (max (threshold_weight account u.threshold) 1) (signer_weight account.signers available)

index_accounts-get :
    (accounts : List LedgerAccountAuthorization) (index : AccountIndex) {index' : AccountIndex}
    → index_accounts accounts index ≡ ok index'
    → (id : Text)
    → map_get id index'
      ≡ elim (map_get id index) [ some a ↦ some a | none ↦ account_state accounts id ]
unfolding index_accounts
index_accounts-get [] index h id = ground arith
index_accounts-get (a ∷ accounts) index {index'} h id =
    let next = map_insert a.account_id a index in
    let fresh : map_get a.account_id index ≡ none = ground arith in
    let rest : index_accounts accounts next ≡ ok index' = ground arith in
    ground (
      arith,
      index_accounts-get accounts next rest id,
      map_get-insert a.account_id id a index,
      text_eq_iff a.account_id id,
    )

module _ (index : AccountIndex) (available : Conditions) where
  -- Each requirement holds the signers of its account.
  abbrev HasSigners : AccountAuthorizationRequirement → Type 0
  HasSigners r =
      (a : LedgerAccountAuthorization) × (map_get r.account_id index ≡ some a)
      × (r.signers ≡ a.signers)

  all-merge :
      (id : Text) (w : ℕ) (u : AuthorizationUse) (a : LedgerAccountAuthorization)
      → map_get id index ≡ some a
      → (rs : List AccountAuthorizationRequirement) → All HasSigners rs
      → all (requirement_satisfiable available) (merge_requirement id w u a.signers rs)
        ≡ (leb w (signer_weight a.signers available) && all (requirement_satisfiable available) rs)
  unfolding merge_requirement requirement_satisfiable
  all-merge id w u a e [] h = refl
  all-merge id w u a e (r ∷ rs) ((b, eb, sb), hs) =
      ground (arith, text_eq_iff r.account_id id, all-merge id w u a e rs hs)

  merge-HasSigners :
      (id : Text) (w : ℕ) (u : AuthorizationUse) (a : LedgerAccountAuthorization)
      → map_get id index ≡ some a
      → (rs : List AccountAuthorizationRequirement) → All HasSigners rs
      → All HasSigners (merge_requirement id w u a.signers rs)
  unfolding merge_requirement
  merge-HasSigners id w u a e [] h = ((a, e, refl), tt)
  merge-HasSigners id w u a e (r ∷ rs) ((b, eb, sb), hs) =
      elim (Bool-cases (text_eq r.account_id id)) [
        | inl same ↦ rw same ((b, eb, sb), hs)
        | inr other ↦ rw other ((b, eb, sb), merge-HasSigners id w u a e rs hs)
      ]

  use_authorized : RequiredAuthorizationUse → Bool
  use_authorized u = account_authorizes (map_get u.account_id index) u available

  all-add :
      (rs : List AccountAuthorizationRequirement) (u : RequiredAuthorizationUse)
      {rs' : List AccountAuthorizationRequirement}
      → add_requirement rs index u ≡ ok rs'
      → All HasSigners rs
      → All HasSigners rs'
        × (all (requirement_satisfiable available) rs'
            ≡ (use_authorized u && all (requirement_satisfiable available) rs))
  unfolding add_requirement use_authorized
  all-add rs u {rs'} h hs = elim (Option-cases (map_get u.account_id index)) [
    | inl e ↦ absurd (ground arith)
    | inr (a, e) ↦
        let id = u.account_id in
        let w = max (threshold_weight a u.threshold) 1 in
        let merged = merge_requirement id w (recorded_use a u) a.signers rs in
        let result : rs' ≡ merged = ground arith in
        rw result (
          merge-HasSigners id w (recorded_use a u) a e rs hs,
          ground (arith, all-merge id w (recorded_use a u) a e rs hs),
        )
  ]

  all-add_requirements :
      (uses : List RequiredAuthorizationUse) (rs : List AccountAuthorizationRequirement)
      {rs' : List AccountAuthorizationRequirement}
      → add_requirements index uses rs ≡ ok rs'
      → All HasSigners rs
      → all (requirement_satisfiable available) rs'
        ≡ (all use_authorized uses && all (requirement_satisfiable available) rs)
  unfolding add_requirements
  all-add_requirements [] rs h hs = ground arith
  all-add_requirements (u ∷ uses) rs {rs'} h hs =
      let (next, first, rest) =
        >>=-eq-ok (add_requirement rs index u) (λ r. add_requirements index uses r) h in
      let (hs', step) = all-add rs u first hs in
      ground (arith, step, all-add_requirements uses next rest hs')

module _ (accounts : List LedgerAccountAuthorization) {index : AccountIndex}
    (indexed : index_accounts accounts [] ≡ ok index) (available : Conditions) where
  use_authorized-account_state : use_authorized index available ≡ λ u.
      account_authorizes (account_state accounts u.account_id) u available
  unfolding use_authorized map_get
  use_authorized-account_state = fun_ext λ u.
      ap (λ a. account_authorizes a u available)
        (index_accounts-get accounts [] indexed u.account_id)

-- If a plan is made from loaded account states, then a set of available signers satisfies it
-- exactly when the set holds all extra signers and, for the transaction source and for each
-- operation, the weights of the acting account's available signers reach its threshold for that use
-- and are at least one.
pub plan_satisfiable-uses :
    (X : Stellar) (envelope : TransactionEnvelope X) (accounts : List LedgerAccountAuthorization)
    {uses : List RequiredAuthorizationUse} {extra : Conditions} {plan : LedgerAuthorizationPlan}
    → classic_authorization_uses X envelope ≡ ok uses
    → extra_signer_conditions X envelope ≡ ok extra
    → plan_classic_ledger_authorization X envelope accounts ≡ ok plan
    → (available : Conditions)
    → plan_satisfiable plan available ≡ (
        is_subset extra available
        && all (λ u. account_authorizes (account_state accounts u.account_id) u available) uses)
unfolding plan_classic_ledger_authorization plan_satisfiable
plan_satisfiable-uses X envelope accounts {uses} {extra} {plan} used extras h available =
    let h' : (index_accounts accounts [] >>= λ index.
    add_requirements index uses [] >>= λ requirements.
    ok (record { requirements = requirements; extra_signers = extra }))
        ≡ ok plan =
      ground arith in
    let (index, indexed, h'') = >>=-eq-ok (index_accounts accounts []) _ h' in
    let (rs, added, made) = >>=-eq-ok (add_requirements index uses []) _ h'' in
    ground (
      arith,
      all-add_requirements index available uses [] added tt,
      ap (λ p. all p uses) (use_authorized-account_state accounts indexed available),
    )
