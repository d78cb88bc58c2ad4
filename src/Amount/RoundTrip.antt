-- ===== src/Amount/RoundTrip.antt =====
-- Every amount is read back from its printed text.
use fresnica.Prelude.{
  ℕ, suc, ◌+◌, ◌-◌, ◌*◌, ◌/◌, ◌%◌, ◌^◌, ◌≤◌, ◌≡◌, ◌∙◌, sym, inl, inr, refl, false, some, [], ◌∷◌,
  length, all, All, Text, arith, ◌==◌, ==_iff, Bool-cases, subst, All-append,
}
use native.Mathlib.Nat.{pow-suc}
use fresnica.Text.{trim, is_whitespace}
use fresnica.Text.Laws.{IsTight, trim-tight}
use fresnica.Int.{pos, i64_max}
use fresnica.Decimal.{value, value_from, digits, padded, integer_text}
use fresnica.Decimal.Laws.{IsDigit, value-digits, digits-All-digits, digits-ne-nil, padded_lem}
use fresnica.Amount.{stroops_per_xlm, parse_stroops, trim_end_zeros, format_stroops, cut_zero}
use fresnica.Amount.Meaning.{IsAmount, whole_only, with_fraction}
use fresnica.Amount.Parse.{parse_stroops_iff}

cut_zero-All : (c : ℕ) (s : Text) → IsDigit c → All IsDigit s → All IsDigit (cut_zero c s)
cut_zero-All c [] hc hs = ground arith
cut_zero-All c (d ∷ s) hc hs = (hc, hs)

length-cut_zero : (c : ℕ) (s : Text) → length (cut_zero c s) ≤ suc (length s)
length-cut_zero c [] = ground arith
length-cut_zero c (d ∷ s) = omega arith

-- Cutting a zero divides by ten; `size` is the length before any cut.
value-cut_zero :
    (acc c size : ℕ) (s : Text)
    → length s ≤ size
    → value_from acc (cut_zero c s) * 10 ^ (suc size - length (cut_zero c s))
      ≡ value_from acc (c ∷ s) * 10 ^ (size - length s)
unfolding value_from
value-cut_zero acc c size [] h =
    let shorter : suc size - 0 ≡ suc size = omega arith in
    let same : size - 0 ≡ size = omega arith in
    let cut : suc size - 1 ≡ size = omega arith in
    elim (Bool-cases (c == b'0')) [
      | inl zero_digit ↦
          rw (zero_digit, (==_iff c b'0').0 zero_digit, shorter, same, pow-suc 10 size)
            (omega arith)
      | inr other ↦ rw (other, cut, same)
    ]
value-cut_zero acc c size (d ∷ s) h =
    let same : suc size - suc (suc (length s)) ≡ size - suc (length s) = omega arith in rw same

trim_end_zeros-All : (s : Text) → All IsDigit s → All IsDigit (trim_end_zeros s)
unfolding trim_end_zeros
trim_end_zeros-All [] h = tt
trim_end_zeros-All (c ∷ s) (hc, hs) = cut_zero-All c (trim_end_zeros s) hc (trim_end_zeros-All s hs)

length-trim_end_zeros : (s : Text) → length (trim_end_zeros s) ≤ length s
unfolding trim_end_zeros
length-trim_end_zeros [] = omega arith
length-trim_end_zeros (c ∷ s) =
    omega (arith, length-cut_zero c (trim_end_zeros s), length-trim_end_zeros s)

value-trim_end_zeros :
    (acc : ℕ) (s : Text)
    → value_from acc (trim_end_zeros s) * 10 ^ (length s - length (trim_end_zeros s))
      ≡ value_from acc s
unfolding trim_end_zeros value_from
value-trim_end_zeros acc [] = omega arith
value-trim_end_zeros acc (c ∷ s) =
    value-cut_zero acc c (length s) (trim_end_zeros s) (length-trim_end_zeros s)
    ∙ value-trim_end_zeros (acc * 10 + (c - b'0')) s

digits-IsTight : (s : Text) → All IsDigit s → IsTight s
unfolding is_whitespace
digits-IsTight [] h = tt
digits-IsTight (c ∷ s) (hc, hs) = (ground arith, digits-IsTight s hs)

point-IsTight : IsTight (b'.' ∷ [])
unfolding is_whitespace
point-IsTight = (refl, tt)

-- The fraction as it is printed, with its zeros cut off.
fraction_text : ℕ → Text
fraction_text n = trim_end_zeros (padded 7 (n % stroops_per_xlm))

fraction_text_lem :
    (n : ℕ)
    → All IsDigit (fraction_text n)
      × (length (fraction_text n) ≤ 7)
      × (value (fraction_text n) * 10 ^ (7 - length (fraction_text n)) ≡ n % stroops_per_xlm)
unfolding fraction_text
fraction_text_lem n =
    let (all, len, val) = padded_lem 6 (n % stroops_per_xlm) (omega arith) in
    (
      trim_end_zeros-All _ all,
      omega (arith, length-trim_end_zeros (padded 7 (n % stroops_per_xlm))),
      unfold value in (rw len at (value-trim_end_zeros 0 (padded 7 (n % stroops_per_xlm)))) ∙ val,
    )

-- The text of `n` stroops spells `n`.
format_stroops-IsAmount : (n : ℕ) → IsAmount (format_stroops (pos n)) n
unfolding format_stroops integer_text fraction_text
format_stroops-IsAmount n =
    let w = digits (n / stroops_per_xlm) in
    let hw = digits-All-digits (n / stroops_per_xlm) in
    let ne = digits-ne-nil (n / stroops_per_xlm) in
    let wv = value-digits (n / stroops_per_xlm) in
    elim (Bool-cases (n % stroops_per_xlm == 0)) [
      | inl whole ↦ whole_only w hw ne (rw whole) (ground arith)
      | inr part ↦
          let (hf, le, vf) = fraction_text_lem n in
          with_fraction w (fraction_text n) hw ne hf le (rw part) (omega arith)
    ]

-- A text that spells an amount has no blanks to trim.
pub IsAmount-trim : {t : Text} {n : ℕ} → IsAmount t n → trim t ≡ t
IsAmount-trim {t} (whole_only w hw ne et en) =
    trim-tight t (subst IsTight (sym et) (digits-IsTight w hw))
IsAmount-trim {t} (with_fraction w f hw ne hf le et en) = trim-tight t (
    subst IsTight (sym et)
      (All-append _ w (b'.' ∷ f) (digits-IsTight w hw) (point-IsTight.0, digits-IsTight f hf)))

-- A text that spells an amount of an `i64` is read as that amount.
pub IsAmount-parse_stroops :
    {t : Text} {n : ℕ} → IsAmount t n → n ≤ i64_max → parse_stroops t false ≡ some (pos n)
IsAmount-parse_stroops {t} {n} spelled fits =
    (parse_stroops_iff t false (pos n)).1
      (n, refl, subst (λ u. IsAmount u n) (sym (IsAmount-trim spelled)) spelled, fits, tt)

-- Every amount that fits an `i64` is read back from its printed text, where no positive amount is
-- required.
pub parse_stroops-format_stroops :
    (n : ℕ) → n ≤ i64_max → parse_stroops (format_stroops (pos n)) false ≡ some (pos n)
parse_stroops-format_stroops n h = IsAmount-parse_stroops (format_stroops-IsAmount n) h
