-- ===== src/Tests/Fills.antt =====
-- The fills of a sample account.
use fresnica.Prelude.{◌≡◌, refl, true, List, [], ◌∷◌, Text, IsOk, is_ok, is_ok-IsOk, ok}
use fresnica.Text.{
  codes, text_eq, is_whitespace, trim, trim_start, split, split_once, utf8_length, byte_length,
  is_ascii_digit, is_ascii_alphanumeric, to_ascii_lowercase, eq_ignore_ascii_case,
}
use fresnica.Decimal.{digits, integer_text, padded, value, value_from, parse_digits, parse_i64}
use fresnica.Int.{fits_i64, checked_add, checked_mul}
use fresnica.Amount.{scale, fraction_units, parse_amount, parse_parts, parse_stroops}
use fresnica.Horizon.{text, integer}
use fresnica.AssetId.{
  issued, parse_issued, validate_asset_code, is_asset_code, parse, display, decode_code,
}
use fresnica.Dex.Ratio.{checked_mul_i128, rounded, round_ratio, format_scaled_7, format_price_ratio}
use fresnica.Dex.Offer.{value_text}
use fresnica.Dex.Fills.{
  WorkingFill, finish, finish_all, side_eq, can_merge, merge, trade_asset, parse_trade_amount,
  trade_price, trade_side, trade_offer, trade_id, segment, fills_from, working_fills,
  compress_account_trades,
}
use fresnica.Dex.Fills.Conserved.{Conserves, compress_account_trades-Conserves}
use fresnica.Tests.Sample.{
  Tree, leaf, number, fields, no_fields, more_fields, sample_json, sample_stellar, source_id, field,
}

-- Trades of one offer of the account, and of another.
abbrev trade : Text → Text → Tree
trade offer amount = fields (
    more_fields (codes "id") (leaf (codes "7")) (
      more_fields (codes "base_account") (leaf source_id) (
        more_fields (codes "base_offer_id") (leaf offer) (
          more_fields (codes "base_asset_type") (leaf (codes "native")) (
            more_fields (codes "counter_asset_code") (leaf (codes "USD")) (
              more_fields (codes "counter_asset_issuer") (leaf (codes "GI")) (
                more_fields (codes "base_amount") (leaf amount) (
                  more_fields (codes "counter_amount") (leaf amount) (
                    more_fields (codes "price")
                      (fields (
                        more_fields (codes "n") (number 1)
                          (more_fields (codes "d") (number 1) no_fields)))
                      no_fields)))))))))

abbrev trades : List Tree
trades =
    trade (codes "5") (codes "1.5")
    ∷ trade (codes "5") (codes "2")
    ∷ trade (codes "6") (codes "3")
    ∷ []

trades_read : is_ok (compress_account_trades sample_stellar sample_json trades source_id) ≡ true
unfolding finish finish_all side_eq can_merge merge trade_asset parse_trade_amount trade_price
    trade_side trade_offer trade_id segment fills_from working_fills compress_account_trades
    value_text checked_mul_i128 rounded round_ratio format_scaled_7 format_price_ratio issued
    parse_issued validate_asset_code is_asset_code parse display decode_code text integer scale
    fraction_units parse_amount parse_parts parse_stroops fits_i64 checked_add checked_mul digits
    integer_text padded value value_from parse_digits parse_i64 codes text_eq is_whitespace trim
    trim_start split split_once utf8_length byte_length is_ascii_digit is_ascii_alphanumeric
    to_ascii_lowercase eq_ignore_ascii_case field
trades_read = refl

sample_fills : IsOk (compress_account_trades sample_stellar sample_json trades source_id)
sample_fills = is_ok-IsOk _ trades_read

compress_account_trades-Conserves_example :
    (fills : List WorkingFill) × (finish_all fills ≡ ok (sample_fills.0))
    × Conserves sample_stellar sample_json source_id trades fills
compress_account_trades-Conserves_example =
    compress_account_trades-Conserves sample_stellar sample_json source_id trades (sample_fills.1)
