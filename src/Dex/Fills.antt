-- ===== src/Dex/Fills.antt =====
-- The fills of an account: neighbouring trades of one offer at one price are one fill
-- (`compress_account_trades` of reference/rust-client/src/dex.rs).
--
-- Amounts that are read are never negative, so the `i64` sums are native numbers with their check.
pub mod Runs
pub mod Conserved
use fresnica.Prelude.{
  ℕ, suc, ◌+◌, ◌*◌, Bool, true, false, ◌&&◌, ◌==◌, Option, none, some, List, [], ◌∷◌, ◌++◌, Text,
  String, Outcome, ok, err, ◌>>=◌, ok_or, and_then, leb, if◌then◌else◌,
}
use fresnica.Text.{codes, text_eq}
use fresnica.Int.{ℤ, pos_part, i64_max}
use fresnica.Amount.{parse_stroops}
use fresnica.Stellar.{Stellar}
use fresnica.Json.{Json}
use fresnica.Horizon.{text, integer, unwrap_or}
use fresnica.AssetId.{parse, display, text_is}
use fresnica.Dex.Offer.{positive_i32, value_text}
use fresnica.Dex.Ratio.{format_scaled_7, format_price_ratio}

pub data DexTradeSide : Type 0 where
  buy sell : DexTradeSide

pub record WorkingFill : Type 0 where
  pub base_asset : Text
  pub counter_asset : Text
  pub side : DexTradeSide
  pub base_amount : ℕ
  pub counter_amount : ℕ
  pub price_n : ℕ
  pub price_d : ℕ
  pub offer_id : Option Text
  pub trade_count : ℕ
  pub first_time : Option Text
  pub last_time : Option Text
  pub first_trade_id : Text
  pub last_trade_id : Text

pub record FillSegment : Type 0 where
  pub base_asset : Text
  pub counter_asset : Text
  pub side : DexTradeSide
  pub base_amount : Text
  pub counter_amount : Text
  pub price : Text
  pub price_n : ℕ
  pub price_d : ℕ
  pub offer_id : Option Text
  pub trade_count : ℕ
  pub first_time : Option Text
  pub last_time : Option Text
  pub first_trade_id : Text
  pub last_trade_id : Text

unfoldable pub finish : WorkingFill → Outcome FillSegment
finish f = do
  price ← format_price_ratio f.price_n f.price_d
  ok (record {
    base_asset = f.base_asset;
    counter_asset = f.counter_asset;
    side = f.side;
    base_amount = format_scaled_7 f.base_amount;
    counter_amount = format_scaled_7 f.counter_amount;
    price = price;
    price_n = f.price_n;
    price_d = f.price_d;
    offer_id = f.offer_id;
    trade_count = f.trade_count;
    first_time = f.first_time;
    last_time = f.last_time;
    first_trade_id = f.first_trade_id;
    last_trade_id = f.last_trade_id;
  })

unfoldable pub finish_all : List WorkingFill → Outcome (List FillSegment)
finish_all [] = ok []
finish_all (f ∷ fs) = do segment ← finish f; rest ← finish_all fs; ok (segment ∷ rest)

unfoldable pub side_eq : DexTradeSide → DexTradeSide → Bool
side_eq DexTradeSide.buy DexTradeSide.buy = true
side_eq DexTradeSide.buy DexTradeSide.sell = false
side_eq DexTradeSide.sell DexTradeSide.buy = false
side_eq DexTradeSide.sell DexTradeSide.sell = true

-- Two fills that both have an offer, and the same key.
abbrev pub same_offer : Option Text → Option Text → Bool
same_offer none o = false
same_offer (some s) none = false
same_offer (some s) (some t) = text_eq s t

unfoldable pub can_merge : WorkingFill → WorkingFill → Bool
can_merge left right =
    same_offer left.offer_id right.offer_id
    && text_eq left.base_asset right.base_asset
    && text_eq left.counter_asset right.counter_asset
    && side_eq left.side right.side
    && left.price_n == right.price_n
    && left.price_d == right.price_d

-- `checked_add` of two amounts.
abbrev pub checked_sum : ℕ → ℕ → Option ℕ
checked_sum a b = if leb (a + b) i64_max then some (a + b) else none

unfoldable pub merge : WorkingFill → WorkingFill → Outcome WorkingFill
merge previous current = do
  base ←
      ok_or (checked_sum previous.base_amount current.base_amount)
        (codes "fill base amount overflow")
  counter ←
      ok_or (checked_sum previous.counter_amount current.counter_amount)
        (codes "fill counter amount overflow")
  ok (record {
    base_asset = previous.base_asset;
    counter_asset = previous.counter_asset;
    side = previous.side;
    base_amount = base;
    counter_amount = counter;
    price_n = previous.price_n;
    price_d = previous.price_d;
    offer_id = previous.offer_id;
    trade_count = suc previous.trade_count;
    first_time = previous.first_time;
    last_time = current.last_time;
    first_trade_id = previous.first_trade_id;
    last_trade_id = current.last_trade_id;
  })

module _ (X : Stellar) (J : Json) where
  open J use {Value, get, as_bool, as_object, object_get}

  unfoldable pub trade_asset : Value → Text → Outcome Text
  trade_asset raw prefix =
      if text_is (text J raw (prefix ++ codes "_asset_type")) (some (codes "native"))
      then ok (codes "XLM")
      else (do
        code ←
            ok_or (text J raw (prefix ++ codes "_asset_code"))
              (codes "Invalid Horizon trade asset code")
        issuer ←
            ok_or (text J raw (prefix ++ codes "_asset_issuer"))
              (codes "Invalid Horizon trade asset issuer")
        asset ← parse X (code ++ b':' ∷ issuer)
        ok (display X asset))

  unfoldable pub parse_trade_amount : Value → Text → Outcome ℤ
  parse_trade_amount raw key = do
    value ← ok_or (text J raw key) (codes "Invalid Horizon trade record: " ++ key)
    ok_or (parse_stroops value false) (codes "Invalid Horizon trade record amount: " ++ value)

  -- The two parts of a price, each a positive `i32`.
  unfoldable pub trade_price : Value → Outcome (ℕ × ℕ)
  trade_price raw = do
    price ←
        ok_or (and_then (get raw (codes "price")) as_object)
          (codes "Invalid Horizon trade record: missing price")
    n ←
        ok_or (and_then (integer J (object_get price (codes "n"))) positive_i32)
          (codes "Invalid Horizon trade record: bad price numerator")
    d ←
        ok_or (and_then (integer J (object_get price (codes "d"))) positive_i32)
          (codes "Invalid Horizon trade record: bad price denominator")
    ok (n, d)

  abbrev is_account : Value → Text → Text → Bool
  is_account raw key address = text_is (text J raw key) (some address)

  unfoldable pub trade_side : Value → Text → DexTradeSide
  trade_side raw address =
      if is_account raw (codes "base_account") address
      then DexTradeSide.sell
      else if is_account raw (codes "counter_account") address
      then DexTradeSide.buy
      else if unwrap_or (and_then (get raw (codes "base_is_seller")) as_bool) false
      then DexTradeSide.sell
      else DexTradeSide.buy

  unfoldable pub trade_offer : Value → Text → Option Text
  trade_offer raw address =
      if is_account raw (codes "base_account") address
      then value_text J (get raw (codes "base_offer_id"))
      else if is_account raw (codes "counter_account") address
      then value_text J (get raw (codes "counter_offer_id"))
      else none

  abbrev or_else : Option Text → Option Text → Option Text
  or_else (some t) other = some t
  or_else none other = other

  unfoldable pub trade_id : Value → Option Text
  trade_id raw =
      or_else (value_text J (get raw (codes "id"))) (value_text J (get raw (codes "paging_token")))

  unfoldable pub segment : Text → Value → Outcome WorkingFill
  segment address raw = do
    price ← trade_price raw
    base_asset ← trade_asset raw (codes "base")
    counter_asset ← trade_asset raw (codes "counter")
    base_amount ← parse_trade_amount raw (codes "base_amount")
    counter_amount ← parse_trade_amount raw (codes "counter_amount")
    ok (record {
      base_asset = base_asset;
      counter_asset = counter_asset;
      side = trade_side raw address;
      base_amount = pos_part base_amount;
      counter_amount = pos_part counter_amount;
      price_n = price.0;
      price_d = price.1;
      offer_id = trade_offer raw address;
      trade_count = 1;
      first_time = text J raw (codes "ledger_close_time");
      last_time = text J raw (codes "ledger_close_time");
      first_trade_id = unwrap_or (trade_id raw) [];
      last_trade_id = unwrap_or (trade_id raw) [];
    })

  -- The loop; `last` is the last element of `result`, which a trade may still extend.
  unfoldable pub fills_from : Text → WorkingFill → List Value → Outcome (List WorkingFill)
  fills_from address last [] = ok (last ∷ [])
  fills_from address last (raw ∷ records) = segment address raw >>= λ current.
      elim (can_merge last current) [
        | true ↦ merge last current >>= λ merged. fills_from address merged records
        | false ↦ fills_from address current records >>= λ rest. ok (last ∷ rest)
      ]

  unfoldable pub working_fills : Text → List Value → Outcome (List WorkingFill)
  working_fills address [] = ok []
  working_fills address (raw ∷ records) =
      segment address raw >>= λ current. fills_from address current records

  unfoldable pub compress_account_trades : List Value → Text → Outcome (List FillSegment)
  compress_account_trades records address = working_fills address records >>= finish_all
