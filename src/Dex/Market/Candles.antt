-- ===== src/Dex/Market/Candles.antt =====
-- The candles of a pair (`candles` of reference/rust-client/src/dex.rs). What Horizon answers is an
-- argument.
use fresnica.Prelude.{
  ℕ, ◌*◌, ◌%◌, not, ◌||◌, ◌==◌, ltb, leb, Option, none, some, List, Text, Outcome, ok, ◌>>=◌, ◌>>◌,
  fail_if, ok_or, ◌++◌,
}
use fresnica.Text.{codes}
use fresnica.Int.{u64_max}
use fresnica.Decimal.{digits, parse_unsigned}
use fresnica.Stellar.{Stellar, Asset}
use fresnica.Json.{Json}
use fresnica.Horizon.{text}
use fresnica.AssetId.{display}
use fresnica.Dex.Market.{collect_results, validate_page_limit, market_pair}

pub record TradeCandle : Type 0 where
  pub timestamp : ℕ
  pub open_price : Text
  pub high : Text
  pub low : Text
  pub close : Text
  pub base_volume : Text
  pub counter_volume : Option Text
  pub trade_count : ℕ

pub record CandleSnapshot : Type 0 where
  pub base : Text
  pub counter : Text
  pub resolution_ms : ℕ
  pub candles : List TradeCandle

unfoldable pub validate_candle_resolution : ℕ → Outcome (Unit {0})
validate_candle_resolution value =
    fail_if
      (not (
        value == 60000
        || value == 300000
        || value == 900000
        || value == 3600000
        || value == 86400000
        || value == 604800000))
      (codes "Unsupported trade aggregation resolution: " ++ digits value)

unfoldable pub validate_candle_offset : ℕ → ℕ → Outcome (Unit {0})
validate_candle_offset offset resolution =
    fail_if (ltb resolution offset || leb (24 * 3600000) offset || not (offset % 3600000 == 0)) (
      codes "Invalid candle offset "
      ++ digits offset
      ++ codes " for resolution "
      ++ digits resolution)

unfoldable pub validate_window : Option ℕ → Option ℕ → Outcome (Unit {0})
validate_window (some start) (some end_time) =
    fail_if (ltb end_time start) (codes "candle start time must not be after end time")
validate_window (some start) none = ok _
validate_window none end_time = ok _

unfoldable pub validate_given_offset : Option ℕ → ℕ → Outcome (Unit {0})
validate_given_offset none resolution = ok _
validate_given_offset (some offset) resolution = validate_candle_offset offset resolution

module _ (J : Json) where
  open J use {Value, get, as_str, as_u64}

  unfoldable pub required_text : Value → Text → Text → Outcome Text
  required_text raw key label =
      ok_or (text J raw key) (codes "Horizon returned malformed " ++ label)

  unfoldable pub unsigned_integer : Option Value → Option ℕ
  unsigned_integer none = none
  unsigned_integer (some value) = elim (as_str value) [
    | some t ↦ parse_unsigned u64_max t
    | none ↦ as_u64 value
  ]

  unfoldable pub candle_from_horizon : Value → Outcome TradeCandle
  candle_from_horizon raw = do
    timestamp ←
        ok_or (unsigned_integer (get raw (codes "timestamp")))
          (codes "Horizon returned invalid candle timestamp")
    trade_count ←
        ok_or (unsigned_integer (get raw (codes "trade_count")))
          (codes "Horizon returned invalid candle trade count")
    open_price ← required_text raw (codes "open") (codes "candle open")
    high ← required_text raw (codes "high") (codes "candle high")
    low ← required_text raw (codes "low") (codes "candle low")
    close ← required_text raw (codes "close") (codes "candle close")
    base_volume ← required_text raw (codes "base_volume") (codes "candle base volume")
    ok (record {
      timestamp = timestamp;
      open_price = open_price;
      high = high;
      low = low;
      close = close;
      base_volume = base_volume;
      counter_volume = text J raw (codes "counter_volume");
      trade_count = trade_count;
    })

-- The gateway answers the aggregations of a pair for the given request.
unfoldable pub candles :
    (X : Stellar) (J : Json)
    → (Asset X.Key → Asset X.Key → ℕ → Option ℕ → Option ℕ → Option ℕ → ℕ → Outcome (List J.Value))
    → Text
    → Text
    → ℕ
    → Option ℕ
    → Option ℕ
    → Option ℕ
    → ℕ
    → Outcome CandleSnapshot
candles X J get_trade_aggregations base_text counter_text resolution_ms start_time end_time offset
      limit =
    do
      validate_page_limit limit (codes "candles")
      validate_candle_resolution resolution_ms
      validate_window start_time end_time
      validate_given_offset offset resolution_ms
      pair ← market_pair X J base_text counter_text
      raw ← get_trade_aggregations pair.0 pair.1 resolution_ms start_time end_time offset limit
      listed ← collect_results (candle_from_horizon J) raw
      ok (record {
        base = display X pair.0;
        counter = display X pair.1;
        resolution_ms = resolution_ms;
        candles = listed;
      })
