-- ===== src/Amount/Parse.antt =====
-- `parse_stroops` accepts exactly the amounts that fit an `i64`, with their exact value.
use fresnica.Prelude.{
  ℕ, ◌+◌, ◌-◌, ◌*◌, ◌^◌, ◌≤◌, ◌<◌, ◌≡◌, ◌∙◌, ◌≢◌, ◌↔◌, inl, inr, refl, Bool, true, false, ◌||◌,
  Option, none, some, List, [], ◌∷◌, ◌++◌, length, All, Text, arith, leb, if◌then◌else◌,
  Option-cases, subst,
}
use fresnica.Text.{is_empty, starts_with, trim, split}
use fresnica.Text.Laws.{split-Lacks, split-append, join, join-split}
use fresnica.Int.{ℤ, pos, i64_max}
use fresnica.Decimal.{value}
use fresnica.Decimal.Laws.{IsDigit, all-digits, digits-all, parse_digits_lem, parse_i64-digits}
use fresnica.Amount.{
  stroops_per_xlm, fraction_units, positive_if, parse_amount, parse_parts, parse_stroops,
}
use fresnica.Amount.Meaning.{IsAmount, whole_only, with_fraction}
use fresnica.Amount.Fraction.{
  checked_add-pos, checked_mul-pos, fraction_units_lem, digit-Lacks, byte_length-digits,
}

-- The outcome for a text that spells `n` stroops.
abbrev pub admit : Bool → ℕ → Option ℤ
admit require_positive n = if leb n i64_max then positive_if require_positive (pos n) else none

module _ (w : Text) (w_digits : All IsDigit w) (w_some : w ≢ []) (rp : Bool) where
  parse_amount-whole : parse_amount w none rp ≡ admit rp (value w * stroops_per_xlm)
  unfolding parse_amount fraction_units
  parse_amount-whole = ground (
    arith,
    all-digits w w_digits,
    parse_i64-digits w w_digits,
    parse_digits_lem i64_max w w_digits w_some,
    checked_mul-pos (value w) stroops_per_xlm,
    checked_add-pos (value w * stroops_per_xlm) 0,
  )

  parse_amount-fraction :
      (f : Text)
      → All IsDigit f
      → length f ≤ 7
      → parse_amount w (some f) rp
        ≡ admit rp (value w * stroops_per_xlm + value f * 10 ^ (7 - length f))
  unfolding parse_amount
  parse_amount-fraction f f_digits le = ground (
    arith,
    all-digits w w_digits,
    parse_i64-digits w w_digits,
    parse_digits_lem i64_max w w_digits w_some,
    fraction_units_lem f f_digits le,
    checked_mul-pos (value w) stroops_per_xlm,
    checked_add-pos (value w * stroops_per_xlm) (value f * 10 ^ (7 - length f)),
  )

-- The guard of `parse_stroops` on the trimmed text.
abbrev refused : Text → Bool
refused v = is_empty v || starts_with b'-' v || starts_with b'+' v

digits-not_refused : (w rest : Text) → All IsDigit w → w ≢ [] → refused (w ++ rest) ≡ false
digits-not_refused [] rest h ne = absurd (ne refl)
digits-not_refused (c ∷ w) rest h ne = ground arith

whole-not_refused : (w : Text) → All IsDigit w → w ≢ [] → refused w ≡ false
whole-not_refused [] h ne = absurd (ne refl)
whole-not_refused (c ∷ w) h ne = ground arith

-- On every text that spells an amount the outcome is decided by the range and the sign alone.
pub parse_stroops-amount :
    (t : Text) (n : ℕ) (rp : Bool) → IsAmount (trim t) n → parse_stroops t rp ≡ admit rp n
unfolding parse_stroops parse_parts
parse_stroops-amount t n rp (whole_only w hw ne et en) =
    rw (et, en, whole-not_refused w hw ne, split-Lacks b'.' w (digit-Lacks w hw))
      (parse_amount-whole w hw ne rp)
parse_stroops-amount t n rp (with_fraction w f hw ne hf le et en) =
    rw
      (
        et,
        en,
        digits-not_refused w (b'.' ∷ f) hw ne,
        split-append b'.' w f (digit-Lacks w hw),
        split-Lacks b'.' f (digit-Lacks f hf),
      )
      (parse_amount-fraction w hw ne rp f hf le)

-- What a successful parse tells of the parts.
fraction_units_digits :
    (f : Text) {z : ℤ} → fraction_units (some f) ≡ some z → All IsDigit f × (length f ≤ 7)
unfolding fraction_units
fraction_units_digits f h =
    let f_digits : All IsDigit f = digits-all f (ground arith) in
    (f_digits, ground (arith, byte_length-digits f f_digits))

whole-checks :
    (w : Text) (f : Option Text) (rp : Bool) {z : ℤ}
    → parse_amount w f rp ≡ some z
    → All IsDigit w × (w ≢ []) × ((r : ℤ) × (fraction_units f ≡ some r))
unfolding parse_amount
whole-checks [] f rp h = cc
whole-checks (c ∷ w) f rp h = elim (Option-cases (fraction_units f)) [
  | inl e ↦ absurd (ground arith)
  | inr e ↦ (digits-all (c ∷ w) (ground arith), cc, e)
]

parse_parts-IsAmount :
    (ps : List Text) (rp : Bool) {z : ℤ}
    → parse_parts ps rp ≡ some z
    → (n : ℕ) × IsAmount (join b'.' ps) n
unfolding parse_parts
parse_parts-IsAmount [] rp h = cc
parse_parts-IsAmount (w ∷ []) rp h =
    let (hw, ne, r) = whole-checks w none rp h in
    (value w * stroops_per_xlm, whole_only w hw ne refl refl)
parse_parts-IsAmount (w ∷ f ∷ []) rp h =
    let (hw, ne, (r, e)) = whole-checks w (some f) rp h in
    let (hf, le) = fraction_units_digits f e in
    (
      value w * stroops_per_xlm + value f * 10 ^ (7 - length f),
      with_fraction w f hw ne hf le refl refl,
    )
parse_parts-IsAmount (w ∷ f ∷ g ∷ ps) rp h = cc

pub parse_stroops-IsAmount :
    (t : Text) (rp : Bool) {z : ℤ} → parse_stroops t rp ≡ some z → (n : ℕ) × IsAmount (trim t) n
unfolding parse_stroops
parse_stroops-IsAmount t rp {z} h =
    let parts : parse_parts (split b'.' (trim t)) rp ≡ some z = ground arith in
    subst (λ v. (n : ℕ) × IsAmount v n) (join-split b'.' (trim t))
      (parse_parts-IsAmount (split b'.' (trim t)) rp parts)

-- What `require_positive` asks of the number.
abbrev pub IsPositiveIf : Bool → ℕ → Type 0
IsPositiveIf true n = 0 < n
IsPositiveIf false n = Unit

admit_sound :
    (rp : Bool) (m : ℕ) {z : ℤ}
    → admit rp m ≡ some z
    → (z ≡ pos m) × (m ≤ i64_max) × IsPositiveIf rp m
admit_sound true m h = ground arith
admit_sound false m h = ground arith

admit_complete : (rp : Bool) (m : ℕ) → m ≤ i64_max → IsPositiveIf rp m → admit rp m ≡ some (pos m)
admit_complete true m h p = ground arith
admit_complete false m h p = ground arith

-- For every text, `parse_stroops` returns `z` exactly when `z` is a number of stroops that the
-- trimmed text spells as a decimal amount, that fits an `i64`, and that is above zero where a
-- positive amount is required. So it never returns a negative number.
pub parse_stroops_iff :
    (t : Text) (rp : Bool) (z : ℤ)
    → (parse_stroops t rp ≡ some z)
      ↔ (n : ℕ) × (z ≡ pos n) × IsAmount (trim t) n × (n ≤ i64_max) × IsPositiveIf rp n
parse_stroops_iff t rp z = (
  λ h.
      let (n, spelled) = parse_stroops-IsAmount t rp h in
      let admitted : admit rp n ≡ some z = cc (parse_stroops-amount t n rp spelled) in
      let (exact, fits, positive) = admit_sound rp n admitted in
      (n, exact, spelled, fits, positive),
  λ (n, exact, spelled, fits, positive).
      rw exact (parse_stroops-amount t n rp spelled ∙ admit_complete rp n fits positive),
)
