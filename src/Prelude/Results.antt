-- ===== src/Prelude/Results.antt =====
-- Rust's `Result<T, String>`: a value, or the text of the error message.
use Prim.Native.Nat.{ℕ}
use mathlib.Core.Path.{◌≡◌, refl}
use mathlib.Core.Bool.{Bool, true, false}
use mathlib.Core.List.{List}
use mathlib.Core.Logic.{◌⊎◌, inl, inr}
use mathlib.Core.Option.{Option, none, some}

-- A Rust string as the list of its code points.
abbrev pub Text : Type 0
Text = List ℕ

pub data Outcome {ℓ} (A : Type ℓ) : Type ℓ where
  err : Text → Outcome A
  ok : A → Outcome A

-- The `?` operator.
abbrev pub ◌>>=◌ {ℓ ℓ'} :
    {A : Type ℓ} {B : Type ℓ'} (outcome : Outcome A) (next : A → Outcome B) → Outcome B
err message >>= next = err message
ok value >>= next = next value

infixl 5 ◌>>=◌
-- Inversion of a successful step.
pub >>=-eq-ok {ℓ ℓ'} :
    {A : Type ℓ} {B : Type ℓ'} (outcome : Outcome A) (next : A → Outcome B) {result : B}
    → (outcome >>= next) ≡ ok result
    → (value : A) × (outcome ≡ ok value) × (next value ≡ ok result)
>>=-eq-ok (err message) next succeeded = cc
>>=-eq-ok (ok value) next succeeded = (value, refl, succeeded)

-- A check, and what follows when it passes.
abbrev pub ◌>>◌ {ℓ} : {A : Type ℓ} (check : Outcome (Unit {0})) (next : Outcome A) → Outcome A
check >> next = check >>= λ passed. next

infixl 5 ◌>>◌
-- `if test { return Err(message) }`
abbrev pub fail_if : Bool → Text → Outcome (Unit {0})
fail_if true e = err e
fail_if false e = ok tt

-- `Option::ok_or_else`
abbrev pub ok_or {ℓ} : {A : Type ℓ} → Option A → Text → Outcome A
ok_or none e = err e
ok_or (some a) e = ok a

-- `Result::map_err` with a message that does not depend on the error
abbrev pub or_message {ℓ} : {A : Type ℓ} → Outcome A → Text → Outcome A
or_message (ok a) e = ok a
or_message (err d) e = err e

-- The predicate that holds of the value of a success, and of no failure.
abbrev pub IsOk {ℓ} : {A : Type ℓ} → Outcome A → Type ℓ
IsOk {A} r = (a : A) × (r ≡ ok a)

-- `Option::and_then`
abbrev pub and_then {ℓ κ} : {A : Type ℓ} {B : Type κ} → Option A → (A → Option B) → Option B
and_then none f = none
and_then (some a) f = f a

pub and_then-eq-some {ℓ κ} :
    {A : Type ℓ} {B : Type κ} (o : Option A) (f : A → Option B) {b : B}
    → and_then o f ≡ some b
    → (a : A) × (o ≡ some a) × (f a ≡ some b)
and_then-eq-some none f h = cc
and_then-eq-some (some a) f h = (a, refl, h)

pub ok-injective {ℓ} : {A : Type ℓ} {a b : A} → ok a ≡ ok b → a ≡ b
ok-injective h = cc

-- Inversion of a guard that let its caller go on.
pub fail_if-eq-ok {ℓ} :
    {B : Type ℓ} (test : Bool) (e : Text) (k : Outcome B) {b : B}
    → (fail_if test e >> k) ≡ ok b
    → (test ≡ false) × (k ≡ ok b)
fail_if-eq-ok true e k h = cc
fail_if-eq-ok false e k h = (refl, h)

pub fail_if-ok : (test : Bool) (e : Text) → fail_if test e ≡ ok tt → test ≡ false
fail_if-ok true e h = cc
fail_if-ok false e h = refl

pub ok_or-eq-ok {ℓ} : {A : Type ℓ} (o : Option A) (e : Text) {a : A} → ok_or o e ≡ ok a → o ≡ some a
ok_or-eq-ok none e h = cc
ok_or-eq-ok (some b) e h = cc

abbrev pub is_ok {ℓ} : {A : Type ℓ} → Outcome A → Bool
is_ok (ok a) = true
is_ok (err e) = false

-- The value of an outcome that the test finds.
pub is_ok-IsOk {ℓ} : {A : Type ℓ} (outcome : Outcome A) → is_ok outcome ≡ true → IsOk outcome
is_ok-IsOk (ok a) h = (a, refl)
is_ok-IsOk (err e) h = cc

pub Outcome-cases {ℓ} :
    {A : Type ℓ} (outcome : Outcome A)
    → ((e : Text) × (outcome ≡ err e)) ⊎ ((a : A) × (outcome ≡ ok a))
Outcome-cases (err e) = inl (e, refl)
Outcome-cases (ok a) = inr (a, refl)
