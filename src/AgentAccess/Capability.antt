-- ===== src/AgentAccess/Capability.antt =====
-- What a capability is, once it was made.
use fresnica.Prelude.{
  ℕ, ◌≤◌, ◌<◌, ◌≡◌, refl, Bool, true, false, ◌||◌, ◌==◌, leb, Option, none, some, List, [], ◌∷◌,
  All, All-map, length, Text, arith, Bool-cases, inl, inr, ap, ◌∙◌, ==_iff, subst,
}
use fresnica.Text.{trim, is_empty}
use fresnica.Stellar.{Stellar, OperationBody}
use fresnica.AgentAccess.{
  AgentAccessError, Access, refused, granted, ◌>>=◌, refuse_if, granted_or, AgentCapability,
  insert_sorted, sort, dedup_from, dedup, contains_type, is_nil, new_capability,
}

-- Every element is below those after it.
unfoldable pub IsAscending : List ℕ → Type 0
IsAscending [] = Unit
IsAscending (x ∷ xs) = All (λ y. x < y) xs × IsAscending xs

unfoldable IsSorted : List ℕ → Type 0
IsSorted [] = Unit
IsSorted (x ∷ xs) = All (λ y. x ≤ y) xs × IsSorted xs

insert_sorted-All :
    (b x : ℕ) (xs : List ℕ) → b ≤ x → All (λ y. b ≤ y) xs → All (λ y. b ≤ y) (insert_sorted x xs)
unfolding insert_sorted
insert_sorted-All b x [] h k = (h, tt)
insert_sorted-All b x (y ∷ ys) h (k, ks) = elim (Bool-cases (leb x y)) [
  | inl e ↦ rw e (h, (k, ks))
  | inr e ↦ rw e (k, insert_sorted-All b x ys h ks)
]

insert_sorted-IsSorted : (x : ℕ) (xs : List ℕ) → IsSorted xs → IsSorted (insert_sorted x xs)
unfolding insert_sorted IsSorted
insert_sorted-IsSorted x [] h = (tt, tt)
insert_sorted-IsSorted x (y ∷ ys) (h, hs) = elim (Bool-cases (leb x y)) [
  | inl e ↦
      let le : x ≤ y = ground arith in
      rw e ((le, All-map (λ z. y ≤ z) (λ z. x ≤ z) ys (λ z k. omega (arith, le, k)) h), (h, hs))
  | inr e ↦
      let le : y ≤ x = ground arith in
      rw e (insert_sorted-All y x ys le h, insert_sorted-IsSorted x ys hs)
]

sort-IsSorted : (xs : List ℕ) → IsSorted (sort xs)
unfolding sort IsSorted
sort-IsSorted [] = tt
sort-IsSorted (x ∷ xs) = insert_sorted-IsSorted x (sort xs) (sort-IsSorted xs)

dedup_from_lem :
    (x : ℕ) (xs : List ℕ)
    → All (λ y. x ≤ y) xs
    → IsSorted xs
    → IsAscending (dedup_from x xs) × All (λ y. x ≤ y) (dedup_from x xs)
unfolding dedup_from IsSorted IsAscending
dedup_from_lem x [] h k = ((tt, tt), (omega arith, tt))
dedup_from_lem x (y ∷ ys) (h, hs) (k, ks) = elim (Bool-cases (x == y)) [
  | inl e ↦ rw e (dedup_from_lem x ys hs ks)
  | inr e ↦
      let (up, least) = dedup_from_lem y ys k ks in
      let less : x < y = ground arith in
      rw e (
        (
          All-map (λ z. y ≤ z) (λ z. x < z) (dedup_from y ys) (λ z l. omega (arith, less, l)) least,
          up,
        ),
        (
          omega arith,
          All-map (λ z. y ≤ z) (λ z. x ≤ z) (dedup_from y ys) (λ z l. omega (arith, less, l)) least,
        ),
      )
]

dedup-IsAscending : (xs : List ℕ) → IsSorted xs → IsAscending (dedup xs)
unfolding dedup IsSorted IsAscending
dedup-IsAscending [] h = tt
dedup-IsAscending (x ∷ xs) (h, hs) = (dedup_from_lem x xs h hs).0

contains-insert_sorted :
    (t x : ℕ) (xs : List ℕ) → contains_type t (insert_sorted x xs) ≡ (x == t || contains_type t xs)
unfolding insert_sorted
contains-insert_sorted t x [] = refl
contains-insert_sorted t x (y ∷ ys) = elim (Bool-cases (leb x y)) [
  | inl e ↦ rw e refl
  | inr e ↦ rw e (ground (arith, contains-insert_sorted t x ys))
]

contains-sort : (t : ℕ) (xs : List ℕ) → contains_type t (sort xs) ≡ contains_type t xs
unfolding sort
contains-sort t [] = refl
contains-sort t (x ∷ xs) =
    contains-insert_sorted t x (sort xs) ∙ ap (λ b. x == t || b) (contains-sort t xs)

contains-dedup_from :
    (t x : ℕ) (xs : List ℕ) → contains_type t (dedup_from x xs) ≡ (x == t || contains_type t xs)
unfolding dedup_from
contains-dedup_from t x [] = refl
contains-dedup_from t x (y ∷ ys) = elim (Bool-cases (x == y)) [
  | inl e ↦ rw e (let same : x ≡ y = (==_iff x y).0 e in ground (arith, contains-dedup_from t x ys))
  | inr e ↦ rw e (ground (arith, contains-dedup_from t y ys))
]

contains-dedup : (t : ℕ) (xs : List ℕ) → contains_type t (dedup xs) ≡ contains_type t xs
unfolding dedup
contains-dedup t [] = refl
contains-dedup t (x ∷ xs) = contains-dedup_from t x xs

-- A capability as `new` makes it.
pub IsCapability : (X : Stellar) → AgentCapability → Type 0
IsCapability X c =
    (key : X.Key) × (c.public_key ≡ X.account_text key)
    × (is_empty c.network_passphrase ≡ false)
    × (0 < length c.allowed_operations)
    × IsAscending c.allowed_operations
    × (0 < c.max_operations)

pub granted-injective :
    {E A : Type 0} {a b : A} → ◌≡◌ {A = Access E A} (granted a) (granted b) → a ≡ b
granted-injective h = cc

pub refuse_if-granted :
    {E : Type 0} (test : Bool) (e : AgentAccessError E)
    → refuse_if {E = E} test e ≡ granted tt
    → test ≡ false
refuse_if-granted true e h = cc
refuse_if-granted false e h = refl

-- Inversion of a granted step.
pub >>=-eq-granted :
    {E A B : Type 0} (access : Access E A) (next : A → Access E B) {b : B}
    → (access >>= next) ≡ granted b
    → (a : A) × (access ≡ granted a) × (next a ≡ granted b)
>>=-eq-granted (refused e) next h = cc
>>=-eq-granted (granted a) next h = (a, refl, h)

pub granted_or-granted :
    {E A : Type 0} (o : Option A) (e : AgentAccessError E) {a : A}
    → granted_or {E = E} o e ≡ granted a
    → o ≡ some a
granted_or-granted none e h = cc
granted_or-granted (some b) e h = ap some (granted-injective h)

member_length : (t : ℕ) (xs : List ℕ) → contains_type t xs ≡ true → 0 < length xs
member_length t [] h = cc
member_length t (x ∷ xs) h = omega arith

not_empty : (xs : List ℕ) → is_nil xs ≡ false → 0 < length (dedup (sort xs))
not_empty [] h = cc
not_empty (x ∷ xs) h =
    let given : contains_type x (x ∷ xs) ≡ true = ground arith in
    member_length x (dedup (sort (x ∷ xs)))
      (contains-dedup x (sort (x ∷ xs)) ∙ contains-sort x (x ∷ xs) ∙ given)

-- If `new` grants a capability, then its account is the canonical text of an address, its network is
-- named, its operations are the given ones in ascending order without a duplicate, at least one, and
-- it allows at least one operation in a transaction.
pub new_capability-IsCapability :
    (X : Stellar) (E : Type 0) (operation_type : OperationBody X.Key X.Contents → ℕ)
    (public_key passphrase : Text) (operations : List ℕ) (max_operations max_fee : ℕ)
    (expires : Option ℕ) {c : AgentCapability}
    → new_capability X E operation_type public_key passphrase operations max_operations max_fee
        expires
      ≡ granted c
    → IsCapability X c
      × ((t : ℕ) → contains_type t c.allowed_operations ≡ contains_type t operations)
unfolding new_capability IsCapability
new_capability-IsCapability X E operation_type public_key passphrase operations max_operations
      max_fee expires h =
    let (key, k, h₁) = >>=-eq-granted (granted_or (X.account_from_str (trim public_key)) _) _ h in
    let (_, p, h₂) = >>=-eq-granted (refuse_if (is_empty passphrase) _) _ h₁ in
    let (_, o, h₃) = >>=-eq-granted (refuse_if (is_nil operations) _) _ h₂ in
    let (_, m, h₄) = >>=-eq-granted (refuse_if (max_operations == 0) _) _ h₃ in
    subst
      (λ c.
        IsCapability X c
        × ((t : ℕ) → contains_type t c.allowed_operations ≡ contains_type t operations))
      (granted-injective h₄)
      (
        (
          key,
          refl,
          refuse_if-granted _ _ p,
          not_empty operations (refuse_if-granted _ _ o),
          dedup-IsAscending (sort operations) (sort-IsSorted operations),
          (let positive = refuse_if-granted _ _ m in ground arith),
        ),
        λ t. contains-dedup t (sort operations) ∙ contains-sort t operations,
      )
