-- ===== src/Amount.antt =====
-- Amounts of seven decimal places, as whole stroops (reference/rust-client/src/transaction.rs:
-- `parse_stroops`, `parse_positive_stroops`, `format_stroops`).
pub mod Meaning
pub mod Fraction
pub mod Parse
pub mod RoundTrip
use fresnica.Prelude.{
  ℕ, zero, suc, ◌+◌, ◌-◌, ◌/◌, ◌%◌, ◌≡◌, refl, Bool, true, false, not, ◌&&◌, ◌||◌, Option, none,
  some, List, [], ◌∷◌, ◌++◌, all, Text, Outcome, ok, err, and_then, ltb, leb, ◌==◌, if◌then◌else◌,
}
use fresnica.Text.{codes, is_empty, starts_with, trim, byte_length, is_ascii_digit, split}
use fresnica.Int.{ℤ, pos, negsuc, ◌≤ℤ◌, checked_add, checked_mul}
use fresnica.Decimal.{parse_i64, integer_text, padded}

abbrev pub stroops_per_xlm : ℕ
stroops_per_xlm = 10000000

-- `for _ in fraction.len()..7 { fraction_value = fraction_value.checked_mul(10)? }`
unfoldable pub scale : ℕ → ℤ → Option ℤ
scale zero v = some v
scale (suc k) v = and_then (checked_mul v (pos 10)) (scale k)

unfoldable pub fraction_units : Option Text → Option ℤ
fraction_units none = some (pos 0)
fraction_units (some fraction) =
    if ltb 7 (byte_length fraction) || not (all is_ascii_digit fraction)
    then none
    else if is_empty fraction
    then some (pos 0)
    else and_then (parse_i64 fraction) (scale (7 - byte_length fraction))

-- `require_positive && stroops <= 0`
abbrev pub not_positive : Bool → ℤ → Bool
not_positive require_positive (pos n) = require_positive && leb n 0
not_positive require_positive (negsuc n) = require_positive

abbrev pub positive_if : Bool → ℤ → Option ℤ
positive_if require_positive z = if not_positive require_positive z then none else some z

unfoldable pub parse_amount : Text → Option Text → Bool → Option ℤ
parse_amount whole fraction require_positive =
    if is_empty whole || not (all is_ascii_digit whole)
    then none
    else and_then (parse_i64 whole) λ units. and_then (fraction_units fraction) λ rest.
      and_then (checked_mul units (pos stroops_per_xlm))
        λ scaled. and_then (checked_add scaled rest) (positive_if require_positive)

unfoldable pub parse_parts : List Text → Bool → Option ℤ
parse_parts [] require_positive = none
parse_parts (whole ∷ []) require_positive = parse_amount whole none require_positive
parse_parts (whole ∷ fraction ∷ []) require_positive =
    parse_amount whole (some fraction) require_positive
parse_parts (whole ∷ fraction ∷ more ∷ parts) require_positive = none

unfoldable pub parse_stroops : Text → Bool → Option ℤ
parse_stroops value require_positive =
    let value' = trim value in
    if is_empty value' || starts_with b'-' value' || starts_with b'+' value'
    then none
    else parse_parts (split b'.' value') require_positive

abbrev positive_message : Text
positive_message = codes "Amount must be greater than zero with at most 7 decimal places"

unfoldable pub parse_positive_stroops : Text → Outcome ℤ
unfolding parse_stroops
parse_positive_stroops value = elim (parse_stroops value true) [
  | none ↦ err positive_message
  | some z ↦ ok z
]

abbrev pub cut_zero : ℕ → Text → Text
cut_zero c [] = if c == b'0' then [] else c ∷ []
cut_zero c (d ∷ s) = c ∷ d ∷ s

-- `str::trim_end_matches('0')`
unfoldable pub trim_end_zeros : Text → Text
trim_end_zeros [] = []
trim_end_zeros (c ∷ s) = cut_zero c (trim_end_zeros s)

-- Rust's `/` rounds towards zero.
abbrev negate_ℕ : ℕ → ℤ
negate_ℕ zero = pos 0
negate_ℕ (suc n) = negsuc n

abbrev whole_units : ℤ → ℤ
whole_units (pos n) = pos (n / stroops_per_xlm)
whole_units (negsuc n) = negate_ℕ (suc n / stroops_per_xlm)

-- The absolute value of `value % STROOPS_PER_XLM`.
abbrev fraction_part : ℤ → ℕ
fraction_part (pos n) = n % stroops_per_xlm
fraction_part (negsuc n) = suc n % stroops_per_xlm

unfoldable pub format_stroops : ℤ → Text
format_stroops z =
    let whole = integer_text (whole_units z) in
    if fraction_part z == 0
    then whole
    else whole ++ b'.' ∷ trim_end_zeros (padded 7 (fraction_part z))
