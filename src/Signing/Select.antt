-- ===== src/Signing/Select.antt =====
-- Which of the available Ed25519 signers sign (`select_ed25519_signers`): all missing extra signers,
-- then for each account the heaviest available signers until its weight is reached, then further
-- signers until the least number of Ed25519 signatures is reached.
--
-- The two `while` loops take fuel, and `none` means that it ran out. A round adds a signer of the
-- account (or of the plan) that was not there, so one more round than there are signers is enough.
pub mod Weights
pub mod Fuel
pub mod Sound
pub mod Proofs
pub mod Complete
use fresnica.Prelude.{
  ℕ, zero, suc, ◌+◌, Bool, true, false, not, ◌&&◌, ◌||◌, Option, none, some, List, [], ◌∷◌, ◌++◌,
  length, Text, Outcome, ok, err, ltb, leb, if◌then◌else◌,
}
use fresnica.Text.{codes}
use fresnica.Decimal.{digits}
use fresnica.Collections.{contains, insert, text_ord}
use fresnica.Authorization.{
  LedgerSignerKind, kind_eq, LedgerSignerCondition, condition_ord, Conditions, WeightedLedgerSigner,
  AccountAuthorizationRequirement, LedgerAuthorizationPlan, signer_weight,
}

-- The two variables of `select_ed25519_signers`.
pub record Selection : Type 0 where
  pub current : Conditions
  pub selected : List Text

abbrev pub is_ed25519 : LedgerSignerCondition → Bool
is_ed25519 c = kind_eq c.kind LedgerSignerKind.ed25519_public_key

-- `current.insert(condition); selected.push(key)`
abbrev pub choose : LedgerSignerCondition → Selection → Selection
choose c s = record { current = insert c s.current; selected = s.selected ++ c.key ∷ [] }

abbrev pub usable : Conditions → List Text → WeightedLedgerSigner → Bool
usable current available s =
    is_ed25519 s.condition
    && contains available s.condition.key
    && not (contains current s.condition)

-- `max_by_key` keeps the later of two signers of equal weight.
abbrev pub heavier : Option WeightedLedgerSigner → WeightedLedgerSigner → WeightedLedgerSigner
heavier none s = s
heavier (some b) s = if leb b.weight s.weight then s else b

unfoldable pub best_from :
    Conditions
    → List Text
    → List WeightedLedgerSigner
    → Option WeightedLedgerSigner
    → Option WeightedLedgerSigner
best_from current available [] best = best
best_from current available (s ∷ signers) best =
    best_from current available signers
      (if usable current available s then some (heavier best s) else best)

abbrev pub best_available_signer :
    List WeightedLedgerSigner → Conditions → List Text → Option WeightedLedgerSigner
best_available_signer signers current available = best_from current available signers none

unfoldable pub extra_unavailable : Text → Text
extra_unavailable key = codes "Signing Coordination cannot satisfy required extra signer: " ++ key

unfoldable pub select_extras : List Text → Conditions → Selection → Outcome Selection
select_extras available [] s = ok s
select_extras available (c ∷ extras) s =
    let skip = select_extras available extras s in
    let take_it = select_extras available extras (choose c s) in
    if contains s.current c
    then skip
    else if not (is_ed25519 c) || not (contains available c.key)
    then err (extra_unavailable c.key)
    else take_it

unfoldable pub weight_missing : AccountAuthorizationRequirement → ℕ → Text
weight_missing r available =
    codes "Signing Coordination cannot satisfy ledger authorization: "
    ++ r.account_id
    ++ codes " requires weight "
    ++ digits r.required_weight
    ++ codes " but has "
    ++ digits available

-- The `while` loop of one account.
unfoldable pub fill_weight :
    ℕ → List Text → AccountAuthorizationRequirement → Selection → Option (Outcome Selection)
fill_weight zero available r s = none
fill_weight (suc fuel) available r s =
    elim (ltb (signer_weight r.signers s.current) r.required_weight) [
      | false ↦ some (ok s)
      | true ↦ elim (best_available_signer r.signers s.current available) [
        | none ↦ some (err (weight_missing r (signer_weight r.signers s.current)))
        | some signer ↦ fill_weight fuel available r (choose signer.condition s)
      ]
    ]

-- A step that may run out of fuel or fail, and what follows it.
abbrev pub then_select :
    Option (Outcome Selection)
    → (Selection → Option (Outcome Selection))
    → Option (Outcome Selection)
then_select none f = none
then_select (some (err e)) f = some (err e)
then_select (some (ok s)) f = f s

unfoldable pub fill_weights :
    List Text → List AccountAuthorizationRequirement → Selection → Option (Outcome Selection)
fill_weights available [] s = some (ok s)
fill_weights available (r ∷ requirements) s =
    then_select (fill_weight (suc (length r.signers)) available r s)
      (fill_weights available requirements)

unfoldable pub count_ed25519 : Conditions → ℕ
count_ed25519 [] = 0
count_ed25519 (c ∷ s) = (if is_ed25519 c then 1 else 0) + count_ed25519 s

unfoldable pub plan_signers : List AccountAuthorizationRequirement → List WeightedLedgerSigner
plan_signers [] = []
plan_signers (r ∷ requirements) = r.signers ++ plan_signers requirements

unfoldable pub proof_missing : Text
proof_missing = codes "Signing Coordination cannot provide the required Ed25519 proof"

-- The `while` loop for the least number of signatures.
unfoldable pub fill_count :
    ℕ → List Text → List WeightedLedgerSigner → ℕ → Selection → Option (Outcome Selection)
fill_count zero available signers minimum s = none
fill_count (suc fuel) available signers minimum s = elim (ltb (count_ed25519 s.current) minimum) [
  | false ↦ some (ok s)
  | true ↦ elim (best_available_signer signers s.current available) [
    | none ↦ some (err proof_missing)
    | some signer ↦ fill_count fuel available signers minimum (choose signer.condition s)
  ]
]

unfoldable pub select_from :
    LedgerAuthorizationPlan → Conditions → List Text → ℕ → Option (Outcome Selection)
select_from plan satisfied available minimum =
    let signers = plan_signers plan.requirements in
    then_select
      (some (
        select_extras available plan.extra_signers (record { current = satisfied; selected = [] })))
      λ s.
        then_select (fill_weights available plan.requirements s)
          (fill_count (suc (length signers)) available signers minimum)

-- `Ok(selected)`
abbrev pub selected_keys : Option (Outcome Selection) → Option (Outcome (List Text))
selected_keys none = none
selected_keys (some (err e)) = some (err e)
selected_keys (some (ok s)) = some (ok s.selected)

unfoldable pub select_ed25519_signers :
    LedgerAuthorizationPlan → Conditions → List Text → ℕ → Option (Outcome (List Text))
unfolding select_from
select_ed25519_signers plan satisfied available minimum =
    selected_keys (select_from plan satisfied available minimum)
