-- ===== src/Dex/Market.antt =====
-- The lists of a market: open offers, the order book, the trades of a pair and the fills of an account
-- (reference/rust-client/src/dex.rs). What Horizon answers is an argument.
pub mod Levels
pub mod Candles
use fresnica.Prelude.{
  ℕ, ◌+◌, ◌*◌, ◌%◌, Bool, true, false, not, ◌&&◌, ◌||◌, ◌==◌, ltb, leb, Option, none, some, List,
  [], ◌∷◌, ◌++◌, Text, Outcome, ok, err, ◌>>=◌, ◌>>◌, fail_if, ok_or, or_message, and_then,
  if◌then◌else◌,
}
use fresnica.Text.{codes}
use fresnica.Int.{ℤ, pos, pos_part, ltb_ℤ, u64_max}
use fresnica.Decimal.{digits, parse_unsigned}
use fresnica.Amount.{parse_stroops, stroops_per_xlm}
use fresnica.Stellar.{Stellar, Asset, Price}
use fresnica.Json.{Json}
use fresnica.Horizon.{text, array, integer, unwrap_or}
use fresnica.AssetId.{parse, display, from_horizon}
use fresnica.Authorization.Load.{WalletRecord}
use fresnica.Dex.Offer.{ensure_pair, horizon_price, positive_i32, value_text}
use fresnica.Dex.Ratio.{checked_mul_i128, round_ratio, format_scaled_7, format_price_ratio}
use fresnica.Dex.Fills.{
  DexTradeSide, FillSegment, compress_account_trades, parse_trade_amount, trade_id,
}

pub record OpenOffer : Type 0 where
  pub offer_id : ℤ
  pub seller : Text
  pub selling : Text
  pub buying : Text
  pub amount : Text
  pub price : Text
  pub price_n : ℕ
  pub price_d : ℕ
  pub last_modified_ledger : Option ℤ
  pub last_modified_time : Option Text

pub record OrderBookLevel : Type 0 where
  pub amount : Text
  pub price : Text
  pub price_n : ℕ
  pub price_d : ℕ

pub record OrderBookSnapshot : Type 0 where
  pub base : Text
  pub counter : Text
  pub bids : List OrderBookLevel
  pub asks : List OrderBookLevel

pub record PairTrade : Type 0 where
  pub trade_id : Text
  pub ledger_close_time : Option Text
  pub base_amount : Text
  pub counter_amount : Text
  pub price : Text
  pub price_n : Option ℕ
  pub price_d : Option ℕ
  pub base_side : DexTradeSide

-- `collect::<Result<Vec<_>, _>>()` of a mapped list
unfoldable pub collect_results {ℓ κ} :
    {A : Type ℓ} {B : Type κ} → (A → Outcome B) → List A → Outcome (List B)
collect_results f [] = ok []
collect_results f (item ∷ items) = do b ← f item; rest ← collect_results f items; ok (b ∷ rest)

unfoldable pub validate_page_limit : ℕ → Text → Outcome (Unit {0})
validate_page_limit limit label =
    fail_if (not (leb 1 limit && leb limit 200)) (label ++ codes " limit must be from 1 to 200")

module _ (J : Json) where
  open J use {Value, get, as_str, as_u64, as_bool, as_object, object_get}

  unfoldable pub order_book_rows : Value → Text → Outcome (List Value)
  order_book_rows value key =
      ok_or (array J value key) (codes "Horizon returned malformed order book " ++ key)

  -- A missing amount is an empty text, which is no amount.
  unfoldable pub level_amount : Value → Outcome ℤ
  level_amount value =
      ok_or (parse_stroops (unwrap_or (text J value (codes "amount")) []) true)
        (codes "Horizon returned invalid order book amount")

  -- The level of so many units of the base asset.
  unfoldable pub level : ℕ → Price → Outcome OrderBookLevel
  level base_stroops price = do
    shown ← format_price_ratio price.n price.d
    ok (record {
      amount = format_scaled_7 base_stroops;
      price = shown;
      price_n = price.n;
      price_d = price.d;
    })

  -- A bid is in units of the counter asset.
  unfoldable pub order_book_bid : Value → Outcome OrderBookLevel
  order_book_bid value = do
    amount ← level_amount value
    price ← horizon_price J value
    numerator ←
        ok_or (checked_mul_i128 (pos_part amount) price.d) (codes "order book bid amount overflow")
    base_stroops ← round_ratio (pos numerator) (pos price.n)
    level base_stroops price

  unfoldable pub order_book_ask : Value → Outcome OrderBookLevel
  order_book_ask value = do
    amount ← level_amount value
    price ← horizon_price J value
    level (pos_part amount) price

  abbrev zero_base : Text
  zero_base = codes "Horizon returned invalid zero trade base amount"

  abbrev trade_overflow : Text
  trade_overflow = codes "trade price overflow"

  -- The price of a trade by its amounts, where no ratio is given.
  unfoldable pub trade_price_by_amounts : ℕ → ℕ → Outcome Text
  trade_price_by_amounts base counter = do
    fail_if (base == 0) zero_base
    numerator ← ok_or (checked_mul_i128 counter stroops_per_xlm) trade_overflow
    doubled ← ok_or (checked_mul_i128 numerator 2) trade_overflow
    if ltb doubled base
        then ok (codes "<0.0000001")
        else (round_ratio (pos numerator) (pos base) >>= λ value. ok (format_scaled_7 value))

  abbrev ratio_of : Option ℕ → Option ℕ → Option (ℕ × ℕ)
  ratio_of none d = none
  ratio_of (some n) none = none
  ratio_of (some n) (some d) = some (n, d)

  abbrev given_ratio : Value → Option (ℕ × ℕ)
  given_ratio raw = and_then (and_then (get raw (codes "price")) as_object) λ price.
      ratio_of (and_then (integer J (object_get price (codes "n"))) positive_i32)
        (and_then (integer J (object_get price (codes "d"))) positive_i32)

module _ (X : Stellar) (J : Json) where
  open X use {Key}
  open J use {Value, get, as_bool}

  unfoldable pub trade_price_parts : Value → Outcome (Text × Option ℕ × Option ℕ)
  trade_price_parts raw = elim (given_ratio J raw) [
    | some ratio ↦
        format_price_ratio ratio.0 ratio.1 >>= λ shown. ok (shown, some ratio.0, some ratio.1)
    | none ↦ parse_trade_amount X J raw (codes "base_amount") >>= λ base.
        parse_trade_amount X J raw (codes "counter_amount") >>= λ counter.
        trade_price_by_amounts J (pos_part base) (pos_part counter) >>= λ shown.
        ok (shown, none, none)
  ]

  unfoldable pub pair_trade_from_horizon : Value → Outcome PairTrade
  pair_trade_from_horizon raw = do
    id ← ok_or (trade_id X J raw) (codes "Horizon returned malformed trade id")
    base_amount ←
        ok_or (text J raw (codes "base_amount"))
          (codes "Horizon returned malformed trade base amount")
    counter_amount ←
        ok_or (text J raw (codes "counter_amount"))
          (codes "Horizon returned malformed trade counter amount")
    parts ← trade_price_parts raw
    ok (record {
      trade_id = id;
      ledger_close_time = text J raw (codes "ledger_close_time");
      base_amount = base_amount;
      counter_amount = counter_amount;
      price = parts.0;
      price_n = parts.1;
      price_d = parts.2;
      base_side =
          if unwrap_or (and_then (get raw (codes "base_is_seller")) as_bool) false
          then DexTradeSide.sell
          else DexTradeSide.buy;
    })

  abbrev positive_id : ℤ → Option ℤ
  positive_id id = if ltb_ℤ (pos 0) id then some id else none

  -- The asset under a key of an offer, as it is shown.
  unfoldable pub offer_asset : Value → Text → Text → Outcome Text
  offer_asset raw key message = do
    value ← ok_or (get raw key) message
    asset ← from_horizon X J value
    ok (display X asset)

  unfoldable pub open_offer_from_horizon : Value → Outcome OpenOffer
  open_offer_from_horizon raw = do
    offer_id ←
        ok_or (and_then (integer J (get raw (codes "id"))) positive_id)
          (codes "Horizon returned invalid offer id")
    seller ← ok_or (text J raw (codes "seller")) (codes "Horizon returned malformed offer seller")
    selling ←
        offer_asset raw (codes "selling") (codes "Horizon returned malformed offer selling asset")
    buying ←
        offer_asset raw (codes "buying") (codes "Horizon returned malformed offer buying asset")
    amount ← ok_or (text J raw (codes "amount")) (codes "Horizon returned malformed offer amount")
    price ← ok_or (text J raw (codes "price")) (codes "Horizon returned malformed offer price")
    ratio ← horizon_price J raw
    ok (record {
      offer_id = offer_id;
      seller = seller;
      selling = selling;
      buying = buying;
      amount = amount;
      price = price;
      price_n = ratio.n;
      price_d = ratio.d;
      last_modified_ledger = integer J (get raw (codes "last_modified_ledger"));
      last_modified_time = text J raw (codes "last_modified_time");
    })

  unfoldable pub market_pair : Text → Text → Outcome (Asset Key × Asset Key)
  market_pair base_text counter_text = do
    base ← parse X base_text
    counter ← parse X counter_text
    ensure_pair X base counter
    ok (base, counter)

  -- The gateway answers the order book of a pair.
  unfoldable pub order_book :
      (Asset Key → Asset Key → Outcome Value) → Text → Text → Outcome OrderBookSnapshot
  order_book get_order_book base_text counter_text = do
    pair ← market_pair base_text counter_text
    raw ← get_order_book pair.0 pair.1
    bid_rows ← order_book_rows J raw (codes "bids")
    bids ← collect_results (order_book_bid J) bid_rows
    ask_rows ← order_book_rows J raw (codes "asks")
    asks ← collect_results (order_book_ask J) ask_rows
    ok (record { base = display X pair.0; counter = display X pair.1; bids = bids; asks = asks })

  -- The gateway answers the offers of an account; the wallet is that of `resolve_wallet`.
  unfoldable pub open_offers :
      (Text → ℕ → Outcome (List Value))
      → Outcome WalletRecord
      → ℕ
      → Outcome (WalletRecord × List OpenOffer)
  open_offers get_offers resolved limit = do
    fail_if (not (leb 1 limit && leb limit 200)) (codes "offers limit must be from 1 to 200")
    wallet ← resolved
    raw ← get_offers wallet.address limit
    offers ← collect_results open_offer_from_horizon raw
    ok (wallet, offers)

  -- The two assets as they are shown, and the trades.
  unfoldable pub pair_trades :
      (Asset Key → Asset Key → ℕ → Outcome (List Value))
      → Text
      → Text
      → ℕ
      → Outcome (Text × Text × List PairTrade)
  pair_trades get_trades base_text counter_text limit = do
    validate_page_limit limit (codes "trades")
    pair ← market_pair base_text counter_text
    raw ← get_trades pair.0 pair.1 limit
    trades ← collect_results pair_trade_from_horizon raw
    ok (display X pair.0, display X pair.1, trades)

  -- The gateway answers the trades of an account; the wallet is that of `resolve_wallet`.
  unfoldable pub account_fills :
      (Text → ℕ → Outcome (List Value))
      → Outcome WalletRecord
      → ℕ
      → Outcome (WalletRecord × List FillSegment)
  account_fills get_account_trades resolved limit = do
    validate_page_limit limit (codes "fills")
    wallet ← resolved
    records ← get_account_trades wallet.address limit
    fills ← compress_account_trades X J records wallet.address
    ok (wallet, fills)
