-- ===== src/Dex/Price.antt =====
-- The price of an offer as a fraction of two `i32` (`stellar_price` of
-- reference/rust-client/src/dex.rs): the continued fraction of the decimal price, stopped before a
-- part leaves the range.
--
-- The callers pass amounts above zero, so the `i64` variables are native numbers; each checked
-- operation keeps its test. The loop takes fuel, and `none` means that it ran out: the denominator
-- falls in each round, so one round more than it is enough.
pub mod Laws
pub mod Ends
pub mod Exact
use fresnica.Prelude.{
  ℕ, zero, suc, ◌+◌, ◌-◌, ◌*◌, ◌/◌, ◌%◌, ◌^◌, Bool, true, false, not, ◌&&◌, ◌||◌, Option, none,
  some, Text, String, Outcome, ok, err, ltb, leb, ◌==◌, if◌then◌else◌, and_then,
}
use fresnica.Text.{codes}
use fresnica.Int.{pos, i64_max}
use fresnica.Amount.{stroops_per_xlm, format_stroops}
use fresnica.Stellar.{Price}

abbrev pub int32_max : ℕ
int32_max = 2 ^ 31 - 1

abbrev pub no_approximation : Text
no_approximation = codes "Offer price has no Stellar int32 rational approximation"

-- `a.checked_mul(current).and_then(|value| value.checked_add(previous))`
unfoldable pub next_part : ℕ → ℕ → ℕ → Option ℕ
next_part a current previous =
    if leb (a * current) i64_max
    then (if leb (a * current + previous) i64_max then some (a * current + previous) else none)
    else none

-- The variables of the loop.
pub record Fraction : Type 0 where
  pub numerator : ℕ
  pub denominator : ℕ
  pub previous_n : ℕ
  pub previous_d : ℕ
  pub current_n : ℕ
  pub current_d : ℕ
  pub best_n : ℕ
  pub best_d : ℕ

unfoldable pub advance : ℕ → ℕ → Fraction → Fraction
advance next_n next_d s = record s {
  best_n = next_n;
  best_d = next_d;
  previous_n = s.current_n;
  previous_d = s.current_d;
  current_n = next_n;
  current_d = next_d;
}

unfoldable pub convergents : ℕ → Fraction → Option (Outcome Fraction)
convergents zero s = none
convergents (suc fuel) s = elim (ltb (s.denominator * int32_max) s.numerator) [
  | true ↦ some (ok s)
  | false ↦ elim (next_part (s.numerator / s.denominator) s.current_n s.previous_n) [
    | none ↦ some (err no_approximation)
    | some next_n ↦ elim (next_part (s.numerator / s.denominator) s.current_d s.previous_d) [
      | none ↦ some (err no_approximation)
      | some next_d ↦ elim (ltb int32_max next_n || ltb int32_max next_d) [
        | true ↦ some (ok s)
        | false ↦ elim (s.numerator % s.denominator == 0) [
          | true ↦ some (ok (advance next_n next_d s))
          | false ↦ convergents fuel (record (advance next_n next_d s) {
            numerator = s.denominator;
            denominator = s.numerator % s.denominator;
          })
        ]
      ]
    ]
  ]
]

abbrev min : ℕ → ℕ → ℕ
min a b = if leb a b then a else b

-- `if current > 0 { coefficient = coefficient.min((INT32_MAX - previous) / current) }`
unfoldable pub limit_by : ℕ → ℕ → ℕ → ℕ
limit_by current previous coefficient =
    if ltb 0 current then min coefficient ((int32_max - previous) / current) else coefficient

unfoldable pub in_range : ℕ → Bool
in_range n = ltb 0 n && leb n int32_max

-- The attempt to recover a fraction when a part of the best one is zero.
unfoldable pub recover : Fraction → Outcome Fraction
recover s =
    let coefficient =
      limit_by s.current_d s.previous_d (limit_by s.current_n s.previous_n int32_max) in
    if leb 1 coefficient
    then elim (next_part coefficient s.current_n s.previous_n) [
      | none ↦ err no_approximation
      | some n ↦ elim (next_part coefficient s.current_d s.previous_d) [
        | none ↦ err no_approximation
        | some d ↦ ok (if in_range n && in_range d then record s { best_n = n; best_d = d } else s)
      ]
    ]
    else ok s

unfoldable pub has_zero : Fraction → Bool
has_zero s = leb s.best_n 0 || leb s.best_d 0

-- The best fraction at the end: both `i32::try_from` hold, as the loop keeps the parts in range.
unfoldable pub price_of : Fraction → Outcome Price
price_of s =
    if has_zero s
    then err no_approximation
    else if ltb int32_max s.best_n
    then err (codes "Offer price numerator exceeds int32")
    else if ltb int32_max s.best_d
    then err (codes "Offer price denominator exceeds int32")
    else ok (record { n = s.best_n; d = s.best_d })

unfoldable pub settle_price : Fraction → Outcome Price
settle_price s = elim (has_zero s) [
  | true ↦ elim (recover s) [ err e ↦ err e | ok t ↦ price_of t ]
  | false ↦ price_of s
]

abbrev pub first_fraction : ℕ → Fraction
first_fraction price_stroops = record {
  numerator = price_stroops;
  denominator = stroops_per_xlm;
  previous_n = 0;
  previous_d = 1;
  current_n = 1;
  current_d = 0;
  best_n = 1;
  best_d = 0;
}

unfoldable pub stellar_price : ℕ → Option (Outcome Price)
stellar_price price_stroops =
    elim (convergents (suc stroops_per_xlm) (first_fraction price_stroops)) [
      | none ↦ none
      | some (err e) ↦ some (err e)
      | some (ok s) ↦ some (settle_price s)
    ]

-- The price in stroops as it was asked for, where the fraction is another one.
unfoldable pub requested_price_if_approximated : ℕ → Price → Option Text
requested_price_if_approximated price_stroops price =
    if price_stroops * price.d == price.n * stroops_per_xlm
    then none
    else some (format_stroops (pos price_stroops))
