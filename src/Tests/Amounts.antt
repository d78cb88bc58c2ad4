-- ===== src/Tests/Amounts.antt =====
-- Amounts and assets on concrete texts.
use fresnica.Prelude.{ℕ, ◌≤◌, ◌≡◌, ◌↔◌, refl, true, false, some, Text, ok, arith}
use fresnica.Text.{
  codes, trim, split_once, to_ascii_lowercase, eq_ignore_ascii_case, text_eq, byte_length,
  is_ascii_alphanumeric,
}
use fresnica.Int.{pos, i64_max}
use fresnica.Amount.{parse_stroops, format_stroops}
use fresnica.Amount.Meaning.{IsAmount}
use fresnica.Amount.Parse.{IsPositiveIf, parse_stroops_iff}
use fresnica.Amount.RoundTrip.{parse_stroops-format_stroops}
use fresnica.Stellar.{Asset}
use fresnica.AssetId.{
  credit, parse, parse_issued, issued, validate_asset_code, is_asset_code, display,
}
use fresnica.AssetId.Identity.{parse-display}
use fresnica.Tests.Sample.{sample_stellar}

parse_stroops_iff_example :
    (parse_stroops (codes " 12.50 ") true ≡ some (pos 125000000))
    ↔ (n : ℕ) × (pos 125000000 ≡ pos n)
      × IsAmount (trim (codes " 12.50 ")) n
      × (n ≤ i64_max)
      × IsPositiveIf true n
parse_stroops_iff_example = parse_stroops_iff (codes " 12.50 ") true (pos 125000000)

parse_stroops-format_stroops_example :
    parse_stroops (format_stroops (pos 10500000)) false ≡ some (pos 10500000)
parse_stroops-format_stroops_example = parse_stroops-format_stroops 10500000 (omega arith)

abbrev usd : Asset Text
usd = credit (codes "USD") (codes "GI")

parse-usd : parse sample_stellar (codes "USD:GI") ≡ ok usd
unfolding parse parse_issued issued validate_asset_code is_asset_code split_once
    eq_ignore_ascii_case to_ascii_lowercase text_eq codes byte_length is_ascii_alphanumeric
parse-usd = refl

parse-display_example : parse sample_stellar (display sample_stellar usd) ≡ ok usd
parse-display_example = parse-display sample_stellar (codes "USD:GI") parse-usd
