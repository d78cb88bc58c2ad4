-- ===== src/Dex/Liabilities.antt =====
-- What an offer commits its account to sell and to buy (`offer_liabilities`,
-- `exchange_v10_normal_liabilities` and `ceil_div` of reference/rust-client/src/dex.rs). The source
-- computes in `i128`, where products of an `i64` and an `i32` fit.
pub mod Fair
use fresnica.Prelude.{
  ℕ, ◌+◌, ◌-◌, ◌*◌, ◌/◌, ◌%◌, ◌^◌, Bool, true, false, not, ◌&&◌, ◌||◌, Option, none, some, Text,
  String, Outcome, ok, err, ◌>>=◌, ◌>>◌, fail_if, ok_or, ltb, leb, if◌then◌else◌,
}
use fresnica.Text.{codes}
use fresnica.Int.{ℤ, pos, pos_part, ltb_ℤ, i64_max}
use fresnica.Stellar.{Price}

pub data OfferSide : Type 0 where
  buy sell : OfferSide

pub record OfferLiabilities : Type 0 where
  pub selling : ℕ
  pub buying : ℕ

abbrev pub min : ℕ → ℕ → ℕ
min a b = if leb a b then a else b

-- A negative numerator cannot occur.
unfoldable pub ceil_div : ℕ → ℕ → Outcome ℕ
ceil_div numerator denominator =
    if leb denominator 0
    then err (codes "invalid offer liability division")
    else if leb (numerator + (denominator - 1)) (2 ^ 127 - 1)
    then ok ((numerator + (denominator - 1)) / denominator)
    else err (codes "offer liability overflow")

-- The four branches: wheat received and sheep sent.
unfoldable pub exchange : Bool → ℕ → ℕ → ℕ → ℕ → Outcome (ℕ × ℕ)
exchange true n d wheat_value sheep_value =
    if ltb d n
    then (ceil_div (sheep_value / n * n) d >>= λ sheep. ok (sheep_value / n, sheep))
    else ok (sheep_value / d * d / n, sheep_value / d)
exchange false n d wheat_value sheep_value =
    if ltb d n
    then ok (wheat_value / n, wheat_value / n * n / d)
    else (ceil_div (wheat_value / d * d) n >>= λ wheat. ok (wheat, wheat_value / d))

-- `i64::try_from`
unfoldable pub liabilities_of : ℕ × ℕ → Outcome OfferLiabilities
liabilities_of (wheat, sheep) = do
  fail_if (ltb i64_max wheat) (codes "offer selling liability overflow")
  fail_if (ltb i64_max sheep) (codes "offer buying liability overflow")
  ok (record { selling = wheat; buying = sheep })

unfoldable pub exchange_v10_normal_liabilities : ℕ → ℕ → ℤ → ℤ → Outcome OfferLiabilities
exchange_v10_normal_liabilities n d max_wheat_send max_sheep_receive =
    if leb n 0 || leb d 0 || ltb_ℤ max_wheat_send (pos 0) || ltb_ℤ max_sheep_receive (pos 0)
    then err (codes "invalid offer liability inputs")
    else let wheat_value = min (pos_part max_wheat_send * n) (pos_part max_sheep_receive * d) in
      let sheep_value = min (i64_max * d) (i64_max * n) in
      exchange (ltb sheep_value wheat_value) n d wheat_value sheep_value >>= liabilities_of

unfoldable pub offer_liabilities : OfferSide → ℤ → Price → Outcome OfferLiabilities
offer_liabilities OfferSide.sell amount price =
    exchange_v10_normal_liabilities price.n price.d amount (pos i64_max)
offer_liabilities OfferSide.buy amount price =
    exchange_v10_normal_liabilities price.d price.n (pos i64_max) amount
