-- ===== src/Signing/Select/Proofs.antt =====
-- Distinct Ed25519 conditions that a set holds are counted by `count_ed25519`.
use fresnica.Prelude.{
  ℕ, ◌+◌, ◌≤◌, ◌<◌, ◌≡◌, ◌⊎◌, inl, inr, true, false, List, [], ◌∷◌, length, All, Text, arith,
  if◌then◌else◌, Bool-cases,
}
use fresnica.Collections.{contains, text_ord}
use fresnica.Authorization.{
  LedgerSignerCondition, Conditions, condition_eq, condition_eq_iff, condition_ord,
  WeightedLedgerSigner,
}
use fresnica.Signing.Select.{is_ed25519, usable, count_ed25519}

-- A signer with the condition stands in the list.
abbrev pub Stands : LedgerSignerCondition → List WeightedLedgerSigner → Type 0
Stands c [] = ⊥
Stands c (s ∷ signers) = (s.condition ≡ c) ⊎ Stands c signers

-- No condition is listed twice.
abbrev pub Distinct : List LedgerSignerCondition → Type 0
Distinct [] = Unit {0}
Distinct (c ∷ cs) = (contains cs c ≡ false) × Distinct cs

-- The elements of a set that a list names.
count_in : Conditions → List LedgerSignerCondition → ℕ
count_in [] xs = 0
count_in (c ∷ s) xs = (if contains xs c then 1 else 0) + count_in s xs

count_in-cons :
    (s : Conditions) (x : LedgerSignerCondition) (xs : List LedgerSignerCondition)
    → count_in s xs ≤ count_in s (x ∷ xs)
unfolding count_in contains
count_in-cons [] x xs = omega arith
count_in-cons (c ∷ s) x xs = ground (arith, count_in-cons s x xs)

count_in-new :
    (s : Conditions) (x : LedgerSignerCondition) (xs : List LedgerSignerCondition)
    → contains s x ≡ true
    → contains xs x ≡ false
    → count_in s xs < count_in s (x ∷ xs)
unfolding count_in contains
count_in-new [] x xs h new = cc
count_in-new (c ∷ s) x xs h new = elim (Bool-cases (condition_eq c x)) [
  | inl same ↦ ground (arith, count_in-cons s x xs, condition_eq_iff c x, condition_eq_iff x c)
  | inr other ↦ ground (arith, count_in-new s x xs, condition_eq_iff c x, condition_eq_iff x c)
]

count_in-length :
    (s : Conditions) (xs : List LedgerSignerCondition)
    → All (λ c. contains s c ≡ true) xs
    → Distinct xs
    → length xs ≤ count_in s xs
count_in-length s [] h d = omega arith
count_in-length s (x ∷ xs) (h, hs) (new, d) =
    omega (arith, count_in-length s xs hs d, count_in-new s x xs h new)

named-is_ed25519 :
    (xs : List LedgerSignerCondition) (c : LedgerSignerCondition)
    → All (λ x. is_ed25519 x ≡ true) xs
    → contains xs c ≡ true
    → is_ed25519 c ≡ true
unfolding contains
named-is_ed25519 [] c h m = cc
named-is_ed25519 (x ∷ xs) c (h, hs) m =
    ground (arith, named-is_ed25519 xs c hs, condition_eq_iff x c)

count_in-le :
    (s : Conditions) (xs : List LedgerSignerCondition)
    → All (λ x. is_ed25519 x ≡ true) xs
    → count_in s xs ≤ count_ed25519 s
unfolding count_in count_ed25519
count_in-le [] xs h = omega arith
count_in-le (c ∷ s) xs h = ground (arith, count_in-le s xs h, named-is_ed25519 xs c h)

pub length-count_ed25519 :
    (s : Conditions) (xs : List LedgerSignerCondition)
    → All (λ x. is_ed25519 x ≡ true) xs
    → All (λ c. contains s c ≡ true) xs
    → Distinct xs
    → length xs ≤ count_ed25519 s
length-count_ed25519 s xs e h d = omega (arith, count_in-length s xs h d, count_in-le s xs e)

-- Where no signer is usable any more, every available Ed25519 condition of the list is held.
pub unusable-held :
    (current : Conditions) (available : List Text) (signers : List WeightedLedgerSigner)
    (c : LedgerSignerCondition)
    → Stands c signers
    → All (λ s. usable current available s ≡ false) signers
    → is_ed25519 c ≡ true
    → contains available c.key ≡ true
    → contains current c ≡ true
unusable-held current available [] c h u e a = absurd h
unusable-held current available (s ∷ signers) c (inl same) (us, u) e a = ground arith
unusable-held current available (s ∷ signers) c (inr h) (us, u) e a =
    unusable-held current available signers c h u e a
