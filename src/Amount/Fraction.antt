-- ===== src/Amount/Fraction.antt =====
-- The digits behind the point, scaled up to seven places with no overflow.
use native.Mathlib.Nat.{mul-le-mul_right, pow-suc, pow-le-pow_right}
use fresnica.Prelude.{
  ℕ, zero, suc, ◌+◌, ◌-◌, ◌*◌, ◌^◌, ◌≤◌, ◌<◌, ◌≡◌, refl, none, some, [], ◌∷◌, length, All, Text,
  arith, leb, if◌then◌else◌,
}
use fresnica.Text.{byte_length}
use fresnica.Text.Laws.{Lacks}
use fresnica.Int.{pos, i64_max, checked_add, checked_mul}
use fresnica.Decimal.{value}
use fresnica.Decimal.Laws.{IsDigit, all-digits, value-lt, parse_digits_complete, parse_i64-digits}
use fresnica.Amount.{stroops_per_xlm, scale, fraction_units}

pub checked_mul-pos :
    (a b : ℕ)
    → checked_mul (pos a) (pos b) ≡ (if leb (a * b) i64_max then some (pos (a * b)) else none)
unfolding checked_mul
checked_mul-pos a b = ground arith

pub checked_add-pos :
    (a b : ℕ)
    → checked_add (pos a) (pos b) ≡ (if leb (a + b) i64_max then some (pos (a + b)) else none)
unfolding checked_add
checked_add-pos a b = ground arith

pub byte_length-digits : (s : Text) → All IsDigit s → byte_length s ≡ length s
unfolding byte_length
byte_length-digits [] h = refl
byte_length-digits (c ∷ s) (hc, hs) = ground (arith, byte_length-digits s hs)

scale_lem : (k v : ℕ) → v * 10 ^ k ≤ i64_max → scale k (pos v) ≡ some (pos (v * 10 ^ k))
unfolding scale
scale_lem zero v h = ground arith
scale_lem (suc k) v h =
    let regroup : (v * 10) * 10 ^ k ≡ v * 10 ^ suc k = rw (pow-suc 10 k) (omega arith) in
    let positive = pow-le-pow_right {n = 10} (omega arith) {i = 0} {j = k} (omega arith) in
    let grows = mul-le-mul_right {m = 1} {n = 10 ^ k} (v * 10) positive in
    let fits : v * 10 ≤ i64_max = omega arith in
    rw (checked_mul-pos v 10) (ground (arith, scale_lem k (v * 10)))

pub digit-Lacks : (s : Text) → All IsDigit s → Lacks b'.' s
digit-Lacks [] h = tt
digit-Lacks (c ∷ s) (hc, hs) = (omega arith, digit-Lacks s hs)

-- A number below a power of ten, scaled up to seven places.
scaled_lt : (v k : ℕ) → k ≤ 7 → v < 10 ^ k → v * 10 ^ (7 - k) < stroops_per_xlm
scaled_lt v zero le h = omega arith
scaled_lt v (suc zero) le h = omega arith
scaled_lt v (suc (suc zero)) le h = omega arith
scaled_lt v (suc (suc (suc zero))) le h = omega arith
scaled_lt v (suc (suc (suc (suc zero)))) le h = omega arith
scaled_lt v (suc (suc (suc (suc (suc zero))))) le h = omega arith
scaled_lt v (suc (suc (suc (suc (suc (suc zero)))))) le h = omega arith
scaled_lt v (suc (suc (suc (suc (suc (suc (suc zero))))))) le h = omega arith
scaled_lt v (suc (suc (suc (suc (suc (suc (suc (suc k)))))))) le h = absurd (omega arith)

-- The fraction of at most seven digits, in stroops.
pub fraction_units_lem :
    (f : Text)
    → All IsDigit f
    → length f ≤ 7
    → fraction_units (some f) ≡ some (pos (value f * 10 ^ (7 - length f)))
unfolding fraction_units
fraction_units_lem [] h le = unfold value byte_length in ground arith
fraction_units_lem (c ∷ s) h le =
    let f = c ∷ s in
    let small = scaled_lt (value f) (length f) le (value-lt f h) in
    let unscaled =
      mul-le-mul_right {m = 1} {n = 10 ^ (7 - length f)} (value f)
        (pow-le-pow_right {n = 10} (omega arith) {i = 0} {j = 7 - length f} (omega arith)) in
    let fits : value f ≤ i64_max = omega arith in
    ground (
      arith,
      byte_length-digits f h,
      all-digits f h,
      parse_i64-digits f h,
      parse_digits_complete i64_max f h (cc) fits,
      scale_lem (7 - length f) (value f) (omega arith),
    )
