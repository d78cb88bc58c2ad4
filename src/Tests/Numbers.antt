-- ===== src/Tests/Numbers.antt =====
-- Texts and numbers on concrete runs.
use fresnica.Prelude.{◌≡◌, refl, false, some, none, [], ◌∷◌}
use fresnica.Text.{codes, trim, split, byte_length, is_ascii_digit}
use fresnica.Int.{pos, negsuc, checked_add, checked_mul}
use fresnica.Decimal.{digits, integer_text, padded, parse_i64}
use fresnica.Amount.{
  scale, fraction_units, parse_amount, parse_parts, parse_stroops, trim_end_zeros, format_stroops,
}

split_parts : split b'.' (codes "1.50.") ≡ codes "1" ∷ codes "50" ∷ [] ∷ []
unfolding split codes
split_parts = refl

trim_both : trim (codes " 1 2 ") ≡ codes "1 2"
unfolding trim codes
trim_both = refl

digits_run : digits 1050 ≡ codes "1050"
unfolding digits codes
digits_run = refl

padded_run : padded 7 420 ≡ codes "0000420"
unfolding padded codes
padded_run = refl

parse_i64_run : parse_i64 (codes "-12") ≡ some (negsuc 11)
unfolding parse_i64 codes
parse_i64_run = refl

format_half : format_stroops (pos 125000000) ≡ codes "12.5"
unfolding format_stroops integer_text padded trim_end_zeros codes
format_half = refl

parse_half : parse_stroops (codes " 12.50 ") false ≡ some (pos 125000000)
unfolding parse_stroops parse_parts parse_amount fraction_units scale checked_mul checked_add trim
    split byte_length is_ascii_digit parse_i64 codes
parse_half = refl

parse_eight_places : parse_stroops (codes "1.00000001") false ≡ none
unfolding parse_stroops parse_parts parse_amount fraction_units scale checked_mul checked_add trim
    split byte_length is_ascii_digit parse_i64 codes
parse_eight_places = refl
