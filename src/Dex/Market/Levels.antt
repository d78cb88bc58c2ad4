-- ===== src/Dex/Market/Levels.antt =====
-- The levels of an order book hold the amounts of Horizon.
use fresnica.Prelude.{
  ℕ, ◌+◌, ◌*◌, ◌≤◌, ◌<◌, ◌≡◌, some, [], ok, ok_or, >>=-eq-ok, ok-injective, ok_or-eq-ok, and_then,
  and_then-eq-some, arith, true, ap, sym, ◌∙◌, subst,
}
use fresnica.Text.{codes, trim}
use fresnica.Int.{ℤ, pos, pos_part}
use fresnica.Amount.Meaning.{IsAmount}
use fresnica.Amount.Parse.{parse_stroops_iff}
use fresnica.Stellar.{Price}
use fresnica.Json.{Json}
use fresnica.Horizon.{text, integer, unwrap_or}
use fresnica.Dex.Offer.{horizon_price, positive_i32}
use fresnica.Dex.Ratio.{checked_mul_i128, format_scaled_7, format_price_ratio}
use fresnica.Dex.Ratio.Rounding.{round_ratio-nearest}
use fresnica.Dex.Market.{OrderBookLevel, level_amount, level, order_book_bid}

level_amount_lem :
    (J : Json) (value : J.Value) {amount : ℤ}
    → level_amount J value ≡ ok amount
    → (n : ℕ) × (amount ≡ pos n) × IsAmount (trim (unwrap_or (text J value (codes "amount")) [])) n
unfolding level_amount
level_amount_lem J value {amount} h =
    let (n, exact, spelled, _, _) =
      (parse_stroops_iff (unwrap_or (text J value (codes "amount")) []) true amount).0
        (ok_or-eq-ok _ _ h) in
    (n, exact, spelled)

level-amount :
    (J : Json) (q : ℕ) (price : Price) {l : OrderBookLevel}
    → level J q price ≡ ok l
    → (l.amount ≡ format_scaled_7 q) × (l.price_n ≡ price.n) × (l.price_d ≡ price.d)
unfolding level
level-amount J q price h =
    let (shown, _, h₁) = >>=-eq-ok (format_price_ratio price.n price.d) _ h in
    let same = sym (ok-injective h₁) in
    (ap (λ l. l.amount) same, ap (λ l. l.price_n) same, ap (λ l. l.price_d) same)

product_i128 : (a b : ℕ) {c : ℕ} → checked_mul_i128 a b ≡ some c → c ≡ a * b
unfolding checked_mul_i128
product_i128 a b h = ground arith

positive_i32-positive : (i : ℤ) {n : ℕ} → positive_i32 i ≡ some n → 0 < n
positive_i32-positive i h = ground arith

-- The price of a row has a positive numerator.
horizon_price-positive :
    (J : Json) (value : J.Value) {price : Price} → horizon_price J value ≡ ok price → 0 < price.n
unfolding horizon_price
horizon_price-positive J value h =
    let (ratio, _, h₁) =
      >>=-eq-ok
        (ok_or (and_then (J.get value (codes "price_r")) J.as_object)
          (codes "Horizon returned malformed offer price ratio"))
        _ h in
    let (n, named, h₂) =
      >>=-eq-ok
        (ok_or (and_then (integer J (J.object_get ratio (codes "n"))) positive_i32)
          (codes "Horizon returned invalid offer price numerator"))
        _ h₁ in
    let (_, _, h₃) =
      >>=-eq-ok
        (ok_or (and_then (integer J (J.object_get ratio (codes "d"))) positive_i32)
          (codes "Horizon returned invalid offer price denominator"))
        _ h₂ in
    let (read, _, positive) =
      and_then-eq-some (integer J (J.object_get ratio (codes "n"))) positive_i32
        (ok_or-eq-ok _ _ named) in
    subst (λ p. 0 < p.n) (ok-injective h₃) (positive_i32-positive read positive)

-- A bid that is shown has the price of its row, and its amount is printed from the whole number of
-- base stroops nearest to the listed counter amount over that price, a half rounded up.
pub order_book_bid-nearest :
    (J : Json) (value : J.Value) {l : OrderBookLevel}
    → order_book_bid J value ≡ ok l
    → (n : ℕ) × (price : Price) × (q : ℕ) × IsAmount
        (trim (unwrap_or (text J value (codes "amount")) []))
        n
      × (horizon_price J value ≡ ok price)
      × (l.amount ≡ format_scaled_7 q)
      × (l.price_n ≡ price.n)
      × (l.price_d ≡ price.d)
      × (2 * (price.n * q) ≤ 2 * (n * price.d) + price.n)
      × (2 * (n * price.d) < 2 * (price.n * q) + price.n)
unfolding order_book_bid
order_book_bid-nearest J value {l} h =
    let (amount, listed, h₁) = >>=-eq-ok (level_amount J value) _ h in
    let (price, priced, h₂) = >>=-eq-ok (horizon_price J value) _ h₁ in
    let (numerator, product, h₃) = >>=-eq-ok _ _ h₂ in
    let (base, rounds, h₄) = >>=-eq-ok _ _ h₃ in
    let (n, whole, spelled) = level_amount_lem J value listed in
    let (shown, same_n, same_d) = level-amount J base price h₄ in
    let (q, result, low, high) =
      round_ratio-nearest numerator price.n (horizon_price-positive J value priced) in
    let is_base : q ≡ base = ok-injective (sym result ∙ rounds) in
    let exact : numerator ≡ n * price.d =
      product_i128 (pos_part amount) price.d (ok_or-eq-ok _ _ product)
      ∙ ap (λ a. pos_part a * price.d) whole in
    (
      n,
      price,
      q,
      spelled,
      priced,
      shown ∙ ap format_scaled_7 (sym is_base),
      same_n,
      same_d,
      subst (λ m. 2 * (price.n * q) ≤ 2 * m + price.n) exact low,
      subst (λ m. 2 * m < 2 * (price.n * q) + price.n) exact high,
    )
