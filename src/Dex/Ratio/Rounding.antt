-- ===== src/Dex/Ratio/Rounding.antt =====
-- A rounded quotient is the nearest, and its text is read back.
use native.Mathlib.Nat
use fresnica.Prelude.{
  ℕ, ◌+◌, ◌*◌, ◌/◌, ◌%◌, ◌≤◌, ◌<◌, ◌≡◌, refl, false, some, ok, leb, arith, Bool-cases, inl, inr,
}
use fresnica.Int.{pos, i64_max}
use fresnica.Amount.{stroops_per_xlm, parse_stroops}
use fresnica.Decimal.{digits, padded}
use fresnica.Decimal.Laws.{padded_lem, digits-All-digits, digits-ne-nil, value-digits}
use fresnica.Amount.Meaning.{with_fraction}
use fresnica.Amount.RoundTrip.{IsAmount-parse_stroops}
use fresnica.Dex.Ratio.{rounded, round_ratio, format_scaled_7}

rounded_lem :
    (n d : ℕ) → 0 < d → (2 * (d * rounded n d) ≤ 2 * n + d) × (2 * n < 2 * (d * rounded n d) + d)
unfolding rounded
rounded_lem n d positive =
    let split : d * (n / d) + n % d ≡ n = Nat.div-add-mod n d in
    let less : n % d < d = Nat.mod-lt n positive in
    elim (Bool-cases (leb d (n % d * 2))) [
      | inl up ↦ rw up (
          let more : d * (n / d + 1) ≡ d * (n / d) + d = grind arith in
          let half : d ≤ n % d * 2 = ground arith in (omega arith, omega arith))
      | inr down ↦ rw down (let half : n % d * 2 < d = ground arith in (omega arith, omega arith))
    ]

-- For a positive denominator `round_ratio` returns the nearest whole number, a half rounded up.
pub round_ratio-nearest :
    (n d : ℕ)
    → 0 < d
    → (q : ℕ) × (round_ratio (pos n) (pos d) ≡ ok q)
      × (2 * (d * q) ≤ 2 * n + d)
      × (2 * n < 2 * (d * q) + d)
unfolding round_ratio
round_ratio-nearest n d positive =
    let (low, high) = rounded_lem n d positive in (rounded n d, ground arith, low, high)

-- The seven-place text of an `i64` amount is read back as that amount.
pub parse_stroops-format_scaled_7 :
    (n : ℕ) → n ≤ i64_max → parse_stroops (format_scaled_7 n) false ≡ some (pos n)
unfolding format_scaled_7
parse_stroops-format_scaled_7 n h =
    let (all, len, val) = padded_lem 6 (n % stroops_per_xlm) (omega arith) in
    IsAmount-parse_stroops
      (with_fraction (digits (n / stroops_per_xlm)) (padded 7 (n % stroops_per_xlm))
        (digits-All-digits (n / stroops_per_xlm)) (digits-ne-nil (n / stroops_per_xlm)) all
        (omega (arith, len)) refl (rw (len, val, value-digits (n / stroops_per_xlm)) (omega arith)))
      h
