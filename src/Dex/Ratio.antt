-- ===== src/Dex/Ratio.antt =====
-- Rounded quotients and their texts (`round_ratio`, `format_scaled_7`, `format_price_ratio` and
-- `format_price_product` of reference/rust-client/src/dex.rs), over `i128` in the source.
pub mod Rounding
use fresnica.Prelude.{
  ℕ, ◌+◌, ◌-◌, ◌*◌, ◌/◌, ◌%◌, ◌^◌, Bool, true, false, Option, none, some, List, ◌∷◌, ◌++◌, Text,
  String, Outcome, ok, err, ◌>>=◌, ok_or, ltb, leb, if◌then◌else◌,
}
use fresnica.Text.{codes}
use fresnica.Int.{ℤ, pos, negsuc, i64_max}
use fresnica.Decimal.{digits, padded}
use fresnica.Amount.{stroops_per_xlm, format_stroops}
use fresnica.Stellar.{Price}

-- `i128::checked_mul` of two numbers that are not negative.
unfoldable pub checked_mul_i128 : ℕ → ℕ → Option ℕ
checked_mul_i128 a b = if leb (a * b) (2 ^ 127 - 1) then some (a * b) else none

-- Half is rounded up.
unfoldable pub rounded : ℕ → ℕ → ℕ
rounded numerator denominator =
    if leb denominator (numerator % denominator * 2)
    then numerator / denominator + 1
    else numerator / denominator

abbrev invalid_ratio : Text
invalid_ratio = codes "invalid non-negative decimal ratio"

unfoldable pub round_ratio : ℤ → ℤ → Outcome ℕ
round_ratio (negsuc n) denominator = err invalid_ratio
round_ratio (pos n) (negsuc d) = err invalid_ratio
round_ratio (pos n) (pos d) = if leb d 0 then err invalid_ratio else ok (rounded n d)

unfoldable pub format_scaled_7 : ℕ → Text
format_scaled_7 value =
    digits (value / stroops_per_xlm) ++ b'.' ∷ padded 7 (value % stroops_per_xlm)

abbrev price_overflow : Text
price_overflow = codes "price display overflow"

unfoldable pub format_price_ratio : ℕ → ℕ → Outcome Text
format_price_ratio n d = do
  numerator ← ok_or (checked_mul_i128 n stroops_per_xlm) price_overflow
  doubled ← ok_or (checked_mul_i128 numerator 2) price_overflow
  if ltb doubled d
      then ok (codes "<0.0000001")
      else (round_ratio (pos numerator) (pos d) >>= λ value. ok (format_scaled_7 value))

abbrev total_overflow : Text
total_overflow = codes "offer total overflow"

-- `amount` is an amount of an offer, which is above zero.
unfoldable pub format_price_product : ℕ → Price → Outcome Text
format_price_product amount price = do
  numerator ← ok_or (checked_mul_i128 amount price.n) total_overflow
  stroops ← round_ratio (pos numerator) (pos price.d)
  if leb stroops i64_max then ok (format_stroops (pos stroops)) else err total_overflow
