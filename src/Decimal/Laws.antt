-- ===== src/Decimal/Laws.antt =====
-- Every unsigned number is read back from its decimal print, and what the padded print spells.
use mathlib.Core.List.{cons-ne-nil}
use native.Mathlib.Nat.{mul-le-mul_right, pow-suc}
use fresnica.Prelude.{
  ℕ, zero, suc, ◌+◌, ◌-◌, ◌*◌, ◌/◌, ◌%◌, ◌^◌, ◌≤◌, ◌<◌, ◌≡◌, ◌∙◌, ◌≢◌, refl, true, none, some, [],
  ◌∷◌, ◌++◌, append_assoc, length, length-append, length-replicate, replicate, all, All, All-append,
  arith, Text, leb, if◌then◌else◌,
}
use fresnica.Text.{is_ascii_digit}
use fresnica.Int.{i64_max}
use fresnica.Decimal.{
  digits_from, non_negative, digits, padded, value_from, value, parse_digits, parse_i64,
}

abbrev pub IsDigit : ℕ → Type 0
IsDigit c = (b'0' ≤ c) × (c ≤ b'9')

pub all-digits : (s : Text) → All IsDigit s → all is_ascii_digit s ≡ true
unfolding is_ascii_digit
all-digits [] h = refl
all-digits (c ∷ s) (hc, hs) = ground (arith, all-digits s hs)

pub digits-all : (s : Text) → all is_ascii_digit s ≡ true → All IsDigit s
unfolding is_ascii_digit
digits-all [] h = tt
digits-all (c ∷ s) h = ground (arith, digits-all s)

pub value_from-append :
    (acc : ℕ) (s t : Text) → value_from acc (s ++ t) ≡ value_from (value_from acc s) t
unfolding value_from
value_from-append acc [] t = refl
value_from-append acc (c ∷ s) t = value_from-append (acc * 10 + (c - b'0')) s t

digits_from-append :
    (fuel n : ℕ) (out : Text) → digits_from fuel n out ≡ digits_from fuel n [] ++ out
unfolding digits_from
digits_from-append zero n out = refl
digits_from-append (suc fuel) n out = ground (
  arith,
  digits_from-append fuel (n / 10) ((b'0' + n % 10) ∷ out),
  digits_from-append fuel (n / 10) ((b'0' + n % 10) ∷ []),
  append_assoc (digits_from fuel (n / 10) []) ((b'0' + n % 10) ∷ []) out,
)

digits_from-All : (fuel n : ℕ) (out : Text) → All IsDigit out → All IsDigit (digits_from fuel n out)
unfolding digits_from
digits_from-All zero n out h = h
digits_from-All (suc fuel) n out h =
    ground (arith, digits_from-All fuel (n / 10) ((b'0' + n % 10) ∷ out))

value-digits_from : (fuel n : ℕ) → n < fuel → value_from 0 (digits_from fuel n []) ≡ n
unfolding digits_from value_from
value-digits_from zero n h = elim h [ ]
value-digits_from (suc fuel) n h = ground (
  arith,
  digits_from-append fuel (n / 10) ((b'0' + n % 10) ∷ []),
  value_from-append 0 (digits_from fuel (n / 10) []) ((b'0' + n % 10) ∷ []),
  value-digits_from fuel (n / 10),
)

length-digits_from :
    (k fuel n : ℕ) (out : Text)
    → n < 10 ^ suc k
    → n < fuel
    → length (digits_from fuel n out) ≤ suc k + length out
unfolding digits_from
length-digits_from k zero n out h f = elim f [ ]
length-digits_from zero (suc fuel) n out h f = ground arith
length-digits_from (suc k) (suc fuel) n out h f =
    ground (arith, length-digits_from k fuel (n / 10) ((b'0' + n % 10) ∷ out))

pub value-digits : (n : ℕ) → value (digits n) ≡ n
unfolding value digits
value-digits n = value-digits_from (suc n) n (omega arith)

pub digits-All-digits : (n : ℕ) → All IsDigit (digits n)
unfolding digits
digits-All-digits n = digits_from-All (suc n) n [] tt

digits_from-ne-nil : (fuel n : ℕ) (out : Text) → out ≢ [] → digits_from fuel n out ≢ []
unfolding digits_from
digits_from-ne-nil zero n out h = h
digits_from-ne-nil (suc fuel) n out h =
    ground (arith, digits_from-ne-nil fuel (n / 10) ((b'0' + n % 10) ∷ out))

pub digits-ne-nil : (n : ℕ) → digits n ≢ []
unfolding digits digits_from
digits-ne-nil n = ground (arith, digits_from-ne-nil n (n / 10) ((b'0' + n % 10) ∷ []))

pub length-digits : (k n : ℕ) → n < 10 ^ suc k → length (digits n) ≤ suc k
unfolding digits
length-digits k n h = omega (arith, length-digits_from k (suc n) n [] h (omega arith))

-- A text of digits spells a number below the power of ten of its length.
pub value_from-lt :
    (acc : ℕ) (s : Text) → All IsDigit s → value_from acc s < (acc + 1) * 10 ^ length s
unfolding value_from
value_from-lt acc [] h = omega arith
value_from-lt acc (c ∷ s) (hc, hs) =
    let next = acc * 10 + (c - b'0') in
    let small : next + 1 ≤ (acc + 1) * 10 = omega arith in
    let grows = mul-le-mul_right {m = next + 1} {n = (acc + 1) * 10} (10 ^ length s) small in
    let below = value_from-lt next s hs in rw (pow-suc 10 (length s)) (omega arith)

pub value-lt : (s : Text) → All IsDigit s → value s < 10 ^ length s
unfolding value
value-lt s h = omega (arith, value_from-lt 0 s h)

value_from-zeros : (k : ℕ) (s : Text) → value_from 0 (replicate k b'0' ++ s) ≡ value_from 0 s
unfolding value_from
value_from-zeros zero s = refl
value_from-zeros (suc k) s = value_from-zeros k s

replicate-digits : (k : ℕ) → All IsDigit (replicate k b'0')
replicate-digits zero = tt
replicate-digits (suc k) = ((omega arith, omega arith), replicate-digits k)

-- The padded print of a number that fits is as wide as asked, all digits, and spells the number.
pub padded_lem :
    (k n : ℕ)
    → n < 10 ^ suc k
    → All IsDigit (padded (suc k) n)
      × (length (padded (suc k) n) ≡ suc k)
      × (value (padded (suc k) n) ≡ n)
unfolding padded value
padded_lem k n h = (
  All-append IsDigit _ (digits n) (replicate-digits _) (digits-All-digits n),
  omega (
    arith,
    length-append (replicate (suc k - length (digits n)) b'0') (digits n),
    length-replicate {A = ℕ} (suc k - length (digits n)) b'0',
    length-digits k n h,
  ),
  value_from-zeros (suc k - length (digits n)) (digits n) ∙ value-digits n,
)

pub parse_digits_complete :
    (bound : ℕ) (s : Text)
    → All IsDigit s
    → s ≢ []
    → value s ≤ bound
    → parse_digits bound s ≡ some (value s)
unfolding parse_digits
parse_digits_complete bound [] h ne le = absurd (ne refl)
parse_digits_complete bound (c ∷ s) h ne le = ground (arith, all-digits (c ∷ s) h)

-- The two outcomes on digits: the number, or none if it is past the bound.
pub parse_digits_lem :
    (bound : ℕ) (s : Text)
    → All IsDigit s
    → s ≢ []
    → parse_digits bound s ≡ (if leb (value s) bound then some (value s) else none)
unfolding parse_digits
parse_digits_lem bound [] h ne = absurd (ne refl)
parse_digits_lem bound (c ∷ s) h ne = ground (arith, all-digits (c ∷ s) h)

pub parse_digits_sound :
    (bound : ℕ) (s : Text) {n : ℕ}
    → parse_digits bound s ≡ some n
    → All IsDigit s × (s ≢ []) × (n ≡ value s) × (n ≤ bound)
unfolding parse_digits
parse_digits_sound bound [] h = cc
parse_digits_sound bound (c ∷ s) h =
    let checks : (all is_ascii_digit (c ∷ s) ≡ true) = ground arith in
    (digits-all (c ∷ s) checks, cons-ne-nil c s, ground arith, ground arith)

-- A text that begins with a digit is read with no sign.
pub parse_i64-digits :
    (s : Text) → All IsDigit s → parse_i64 s ≡ non_negative (parse_digits i64_max s)
unfolding parse_i64 parse_digits
parse_i64-digits [] h = refl
parse_i64-digits (c ∷ s) h = ground arith
