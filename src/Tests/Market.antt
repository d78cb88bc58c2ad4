-- ===== src/Tests/Market.antt =====
-- A bid of a sample order book.
use fresnica.Prelude.{◌≡◌, refl, [], ok, ℕ, ◌≤◌, ◌<◌, ◌+◌, ◌*◌}
use fresnica.Text.{
  codes, is_whitespace, trim, trim_start, is_ascii_digit, split, split_once, text_eq,
}
use fresnica.Decimal.{digits, integer_text, padded, value, value_from, parse_digits, parse_i64}
use fresnica.Int.{fits_i64, checked_add, checked_mul}
use fresnica.Amount.{scale, fraction_units, parse_amount, parse_parts, parse_stroops}
use fresnica.Amount.Meaning.{IsAmount}
use fresnica.Stellar.{Price}
use fresnica.Horizon.{text, integer, unwrap_or}
use fresnica.Dex.Ratio.{checked_mul_i128, rounded, round_ratio, format_scaled_7, format_price_ratio}
use fresnica.Dex.Offer.{horizon_price}
use fresnica.Dex.Market.{OrderBookLevel, level_amount, level, order_book_bid}
use fresnica.Dex.Market.Levels.{order_book_bid-nearest}
use fresnica.Tests.Sample.{Tree, leaf, number, fields, no_fields, more_fields, sample_json, field}

-- Five units of the counter asset at a price of 3 : 2.
abbrev bid : Tree
bid = fields (
    more_fields (codes "price_r")
      (fields (more_fields (codes "n") (number 3) (more_fields (codes "d") (number 2) no_fields)))
      (more_fields (codes "amount") (leaf (codes "5")) no_fields))

abbrev bid_level : OrderBookLevel
bid_level = record {
  amount = codes "3.3333333";
  price = codes "1.5000000";
  price_n = 3;
  price_d = 2;
}

bid_read : order_book_bid sample_json bid ≡ ok bid_level
unfolding order_book_bid level level_amount horizon_price checked_mul_i128 rounded round_ratio
    format_scaled_7 format_price_ratio text integer scale fraction_units parse_amount parse_parts
    parse_stroops fits_i64 checked_add checked_mul digits integer_text padded value value_from
    parse_digits parse_i64 codes text_eq is_whitespace trim trim_start split split_once
    is_ascii_digit field
bid_read = refl

order_book_bid-nearest_example :
    (n : ℕ) × (price : Price) × (q : ℕ) × IsAmount
      (trim (unwrap_or (text sample_json bid (codes "amount")) []))
      n
    × (horizon_price sample_json bid ≡ ok price)
    × (bid_level.amount ≡ format_scaled_7 q)
    × (bid_level.price_n ≡ price.n)
    × (bid_level.price_d ≡ price.d)
    × (2 * (price.n * q) ≤ 2 * (n * price.d) + price.n)
    × (2 * (n * price.d) < 2 * (price.n * q) + price.n)
order_book_bid-nearest_example = order_book_bid-nearest sample_json bid bid_read
