-- ===== src/Authorization.antt =====
-- Which signatures a transaction needs (reference/rust-client/src/ledger_authorization.rs): the
-- types, the requirement of an account and its satisfaction by a set of available signers.
pub mod Plan
pub mod Account
pub mod Summary
pub mod Load
use fresnica.Prelude.{
  ℕ, ◌+◌, ◌≡◌, ◌↔◌, refl, Bool, true, false, ◌&&◌, ◌||◌, List, [], ◌∷◌, all, arith, Text, ltb, leb,
  ◌==◌, if◌then◌else◌,
}
use fresnica.Text.{text_eq}
use fresnica.Text.Laws.{text_eq_iff}
use fresnica.Collections.{Ord, text_lt, contains, is_subset}

pub data AuthorizationThreshold : Type 0 where
  low medium high : AuthorizationThreshold

pub data LedgerSignerKind : Type 0 where
  ed25519_public_key preauthorized_transaction hash_x ed25519_signed_payload : LedgerSignerKind

-- The place of a kind in the declaration, by which Rust's derived `Ord` compares.
abbrev kind_rank : LedgerSignerKind → ℕ
kind_rank ed25519_public_key = 0
kind_rank preauthorized_transaction = 1
kind_rank hash_x = 2
kind_rank ed25519_signed_payload = 3

pub record LedgerSignerCondition : Type 0 where
  pub kind : LedgerSignerKind
  pub key : Text

abbrev pub kind_eq : LedgerSignerKind → LedgerSignerKind → Bool
kind_eq j k = kind_rank j == kind_rank k

abbrev pub condition_eq : LedgerSignerCondition → LedgerSignerCondition → Bool
condition_eq a b = kind_eq a.kind b.kind && text_eq a.key b.key

abbrev condition_lt : LedgerSignerCondition → LedgerSignerCondition → Bool
condition_lt a b =
    ltb (kind_rank a.kind) (kind_rank b.kind) || (kind_eq a.kind b.kind && text_lt a.key b.key)

pub kind_eq_iff : (j k : LedgerSignerKind) → (kind_eq j k ≡ true) ↔ (j ≡ k)
kind_eq_iff j k = ground arith

pub condition_eq_iff : (a b : LedgerSignerCondition) → (condition_eq a b ≡ true) ↔ (a ≡ b)
condition_eq_iff a b = ground (arith, text_eq_iff a.key b.key, kind_eq_iff a.kind b.kind)

instance abbrev pub condition_ord : Ord LedgerSignerCondition
condition_ord = record { eq = condition_eq; lt = condition_lt; eq_iff = condition_eq_iff }

-- A `BTreeSet<LedgerSignerCondition>`.
abbrev pub Conditions : Type 0
Conditions = List LedgerSignerCondition

pub record WeightedLedgerSigner : Type 0 where
  pub condition : LedgerSignerCondition
  pub weight : ℕ

pub record LedgerAccountAuthorization : Type 0 where
  pub account_id : Text
  pub low_threshold : ℕ
  pub medium_threshold : ℕ
  pub high_threshold : ℕ
  pub signers : List WeightedLedgerSigner

unfoldable pub threshold_weight : LedgerAccountAuthorization → AuthorizationThreshold → ℕ
threshold_weight account low = account.low_threshold
threshold_weight account medium = account.medium_threshold
threshold_weight account high = account.high_threshold

pub data ClassicOperationKind : Type 0 where
  create_account payment manage_sell_offer manage_buy_offer : ClassicOperationKind
  change_trust manage_data invoke_host_function bump_sequence : ClassicOperationKind

pub data AuthorizationScope : Type 0 where
  transaction_source : AuthorizationScope
  operation : ℕ → ClassicOperationKind → AuthorizationScope

pub record AuthorizationUse : Type 0 where
  pub scope : AuthorizationScope
  pub threshold : AuthorizationThreshold
  pub required_weight : ℕ

pub record AccountAuthorizationRequirement : Type 0 where
  pub account_id : Text
  pub required_weight : ℕ
  pub uses : List AuthorizationUse
  pub signers : List WeightedLedgerSigner

-- The sum of `AccountAuthorizationRequirement::available_weight` over its signers. A weight is a
-- `u8` and the ledger holds at most twenty signers, so the `u32` sum cannot wrap around.
unfoldable pub signer_weight : List WeightedLedgerSigner → Conditions → ℕ
signer_weight [] available = 0
signer_weight (s ∷ signers) available =
    (if contains available s.condition then s.weight else 0) + signer_weight signers available

abbrev pub available_weight : AccountAuthorizationRequirement → Conditions → ℕ
available_weight r available = signer_weight r.signers available

unfoldable pub requirement_satisfiable : Conditions → AccountAuthorizationRequirement → Bool
requirement_satisfiable available r = leb r.required_weight (available_weight r available)

pub record LedgerAuthorizationPlan : Type 0 where
  pub requirements : List AccountAuthorizationRequirement
  pub extra_signers : Conditions

-- `LedgerAuthorizationPlan::is_satisfiable_by`
unfoldable pub plan_satisfiable : LedgerAuthorizationPlan → Conditions → Bool
unfolding requirement_satisfiable
plan_satisfiable plan available =
    is_subset plan.extra_signers available
    && all (requirement_satisfiable available) plan.requirements
