-- ===== src/Decimal.antt =====
-- The decimal printing and parsing of Rust's integers: `to_string`, `{:07}`, and `str::parse` at
-- `i64`, `u64` and `u32`. The parsers read all digits and then test the range, which refuses the
-- same texts as Rust's digit by digit test.
pub mod Laws
use fresnica.Prelude.{
  ℕ, zero, suc, ◌+◌, ◌-◌, ◌*◌, ◌/◌, ◌%◌, ◌≡◌, refl, Bool, true, false, ◌&&◌, Option, none, some,
  List, [], ◌∷◌, ◌++◌, length, replicate, all, Text, ltb, leb, ◌==◌, if◌then◌else◌,
}
use fresnica.Text.{codes, is_ascii_digit}
use fresnica.Int.{ℤ, pos, negsuc, i64_max}

-- The digits of a number in front of `out`. The fuel is the number itself, and the number of
-- rounds is that of its digits.
digits_from : ℕ → ℕ → Text → Text
digits_from zero n out = out
digits_from (suc fuel) n out =
    let rest = digits_from fuel (n / 10) ((b'0' + n % 10) ∷ out) in
    if ltb n 10 then (b'0' + n) ∷ out else rest

-- `to_string` of an unsigned number
unfoldable pub digits : ℕ → Text
unfolding digits_from
digits n = digits_from (suc n) n []

-- `to_string` of a signed number
unfoldable pub integer_text : ℤ → Text
unfolding digits
integer_text (pos n) = digits n
integer_text (negsuc n) = b'-' ∷ digits (suc n)

-- `format!("{:0width$}", n)`
unfoldable pub padded : ℕ → ℕ → Text
unfolding digits
padded width n = replicate (width - length (digits n)) b'0' ++ digits n

-- The number that digits spell behind `acc`.
unfoldable pub value_from : ℕ → Text → ℕ
value_from acc [] = acc
value_from acc (c ∷ s) = value_from (acc * 10 + (c - b'0')) s

unfoldable pub value : Text → ℕ
unfolding value_from
value s = value_from 0 s

-- One digit or more, and a number of at most `bound`.
unfoldable pub parse_digits : ℕ → Text → Option ℕ
unfolding is_ascii_digit value
parse_digits bound [] = none
parse_digits bound (c ∷ s) =
    if all is_ascii_digit (c ∷ s) && leb (value (c ∷ s)) bound then some (value (c ∷ s)) else none

-- `str::parse` at an unsigned type with the given greatest value; a leading `+` is allowed.
unfoldable pub parse_unsigned : ℕ → Text → Option ℕ
unfolding parse_digits
parse_unsigned bound [] = none
parse_unsigned bound (c ∷ s) =
    if c == b'+' then parse_digits bound s else parse_digits bound (c ∷ s)

abbrev pub non_negative : Option ℕ → Option ℤ
non_negative none = none
non_negative (some n) = some (pos n)

abbrev negated : Option ℕ → Option ℤ
negated none = none
negated (some zero) = some (pos 0)
negated (some (suc n)) = some (negsuc n)

-- `str::parse::<i64>`
unfoldable pub parse_i64 : Text → Option ℤ
unfolding parse_digits
parse_i64 [] = none
parse_i64 (c ∷ s) =
    if c == b'+'
    then non_negative (parse_digits i64_max s)
    else if c == b'-'
    then negated (parse_digits (i64_max + 1) s)
    else non_negative (parse_digits i64_max (c ∷ s))
