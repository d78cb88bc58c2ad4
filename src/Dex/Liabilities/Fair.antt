-- ===== src/Dex/Liabilities/Fair.antt =====
-- The liabilities of an offer, by the value of its limits and by the rounding of its price.
use native.Mathlib.Nat
use fresnica.Prelude.{
  ℕ, ◌+◌, ◌-◌, ◌*◌, ◌/◌, ◌%◌, ◌^◌, ◌≤◌, ◌<◌, ◌≡◌, refl, false, ok, ◌>>=◌, ltb, leb, max, arith,
  Bool-cases, inl, inr, ◌⊎◌,
}
use fresnica.Int.{pos, ltb_ℤ, i64_max}
use fresnica.Stellar.{Price}
use fresnica.Dex.Price.{int32_max}
use fresnica.Dex.Liabilities.{
  OfferSide, OfferLiabilities, min, ceil_div, exchange, liabilities_of,
  exchange_v10_normal_liabilities, offer_liabilities,
}

-- A rounded-down quotient by its product.
floor_lem : (a b : ℕ) → 0 < b → (a / b * b ≤ a) × (a < a / b * b + b)
floor_lem a b positive =
    let split : b * (a / b) + a % b ≡ a = Nat.div-add-mod a b in
    let less : a % b < b = Nat.mod-lt a positive in
    let swap : a / b * b ≡ b * (a / b) = Nat.mul_comm (a / b) b in (omega arith, omega arith)

ceil_div_lem :
    (a b : ℕ)
    → 0 < b
    → a + (b - 1) ≤ 2 ^ 127 - 1
    → (q : ℕ) × (ceil_div a b ≡ ok q) × (a ≤ q * b) × (q * b < a + b)
unfolding ceil_div
ceil_div_lem a b positive fits =
    let (low, high) = floor_lem (a + (b - 1)) b positive in
    ((a + (b - 1)) / b, ground arith, omega arith, omega arith)

-- Wheat and sheep are within the value `v`, and at the price but for the rounding of one of them.
abbrev IsFair : ℕ → ℕ → ℕ → ℕ → ℕ → Type 0
IsFair n d v wheat sheep =
    (wheat * n < v + n)
    × (sheep * d < v + d)
    × (wheat * n < sheep * d + max n d)
    × (sheep * d < wheat * n + max n d)

-- `q` steps of `b` are the most that fit in `a`; they are the fewest that reach `a`.
abbrev pub IsFloor : ℕ → ℕ → ℕ → Type 0
IsFloor a q b = (q * b ≤ a) × (a < q * b + b)

abbrev pub IsCeiling : ℕ → ℕ → ℕ → Type 0
IsCeiling a q b = (a ≤ q * b) × (q * b < a + b)

-- What is exchanged for the value `v`: the dearer asset is the most that fits in `v`, and the other
-- one is rounded so that the value of the wheat is not below that of the sheep.
pub data IsExchange (n d v wheat sheep : ℕ) : Type 0 where
  dear_wheat :
      d < n → IsFloor v wheat n → IsFloor (wheat * n) sheep d → IsExchange n d v wheat sheep
  dear_sheep :
      n ≤ d → IsFloor v sheep d → IsCeiling (sheep * d) wheat n → IsExchange n d v wheat sheep

IsExchange-IsFair :
    (n d v wheat sheep : ℕ) → IsExchange n d v wheat sheep → IsFair n d v wheat sheep
IsExchange-IsFair n d v wheat sheep (dear_wheat less (a, b) (c, e)) =
    (ground arith, ground arith, ground arith, ground arith)
IsExchange-IsFair n d v wheat sheep (dear_sheep less (a, b) (c, e)) =
    (ground arith, ground arith, ground arith, ground arith)

-- `exchange` is total and exact where the offer does not stay.
exchange-IsExchange :
    (n d v sheep_value : ℕ)
    → 0 < n
    → 0 < d
    → n ≤ int32_max
    → v ≤ 2 ^ 126
    → (wheat : ℕ) × (sheep : ℕ) × (exchange false n d v sheep_value ≡ ok (wheat, sheep))
      × IsExchange n d v wheat sheep
unfolding exchange
exchange-IsExchange n d v sheep_value n0 d0 n1 small = elim (Bool-cases (ltb d n)) [
  | inl less ↦ (
    v / n,
    v / n * n / d,
    rw less refl,
    dear_wheat (ground arith) (floor_lem v n n0) (floor_lem (v / n * n) d d0),
  )
  | inr more ↦
      let (low, high) = floor_lem v d d0 in
      let (wheat, runs, above, below) =
        ceil_div_lem (v / d * d) n n0 (omega (arith, low, n1, small)) in
      (
        wheat,
        v / d,
        rw (more, runs) refl,
        dear_sheep (ground arith) (floor_lem v d d0) (above, below),
      )
]

within : (q v b c : ℕ) → q * b < v + b → v ≤ c * b → q ≤ c
within q v b c less bound = grind arith

abbrev wheat_at : ℕ → ℕ → ℕ → ℕ → ℕ
wheat_at n d send receive = min (send * n) (receive * d)

abbrev sheep_at : ℕ → ℕ → ℕ
sheep_at n d = min (i64_max * d) (i64_max * n)

past_guard :
    (n d send receive : ℕ)
    → 0 < n
    → 0 < d
    → exchange_v10_normal_liabilities n d (pos send) (pos receive)
      ≡ exchange
          (ltb (sheep_at n d) (wheat_at n d send receive))
          n
          d
          (wheat_at n d send receive)
          (sheep_at n d)
        >>= liabilities_of
unfolding exchange_v10_normal_liabilities
past_guard n d send receive n0 d0 =
    let h₀ : leb n 0 ≡ false = ground arith in
    let h₁ : leb d 0 ≡ false = ground arith in
    let h₂ : ltb_ℤ (pos send) (pos 0) ≡ false = ground arith in
    let h₃ : ltb_ℤ (pos receive) (pos 0) ≡ false = ground arith in rw (h₀, h₁, h₂, h₃) refl

-- The lesser of two values.
abbrev pub IsLesser : ℕ → ℕ → ℕ → Type 0
IsLesser v a b = (v ≤ a) × (v ≤ b) × ((v ≡ a) ⊎ (v ≡ b))

min-IsLesser : (a b : ℕ) → IsLesser (min a b) a b
min-IsLesser a b = elim (Bool-cases (leb a b)) [
  | inl less ↦ (ground arith, ground arith, inl (rw less refl))
  | inr more ↦ (ground arith, ground arith, inr (rw more refl))
]

-- Limits of an `i64` are worth no more than what the other side of the exchange can send.
not_above : (a b x y : ℕ) → a ≤ x → b ≤ y → ltb (min y x) (min a b) ≡ false
not_above a b x y h k = ground arith

liabilities_of_lem :
    (wheat sheep : ℕ)
    → wheat ≤ i64_max
    → sheep ≤ i64_max
    → liabilities_of (wheat, sheep) ≡ ok (record { selling = wheat; buying = sheep })
unfolding liabilities_of
liabilities_of_lem wheat sheep h k = ground arith

-- What an offer commits its account to, where the wheat is worth `n` and the sheep `d`.
pub IsCommitment : ℕ → ℕ → ℕ → ℕ → ℕ → ℕ → Type 0
IsCommitment n d send receive wheat sheep =
    (v : ℕ) × IsLesser v (send * n) (receive * d)
    × IsExchange n d v wheat sheep
    × (wheat ≤ send)
    × (sheep ≤ receive)
    × (wheat * n < sheep * d + max n d)
    × (sheep * d < wheat * n + max n d)

-- For a price of `i32` parts and limits in `i64`, `exchange_v10_normal_liabilities` returns exactly
-- what is exchanged for the lesser value of the limits, within both limits.
pub exchange_v10_normal_liabilities-IsCommitment :
    (n d send receive : ℕ)
    → 0 < n
    → 0 < d
    → n ≤ int32_max
    → d ≤ int32_max
    → send ≤ i64_max
    → receive ≤ i64_max
    → (l : OfferLiabilities) × (exchange_v10_normal_liabilities n d (pos send) (pos receive) ≡ ok l)
      × IsCommitment n d send receive l.selling l.buying
unfolding IsCommitment
exchange_v10_normal_liabilities-IsCommitment n d send receive n0 d0 n1 d1 send1 receive1 =
    let v : ℕ = wheat_at n d send receive in
    let lesser = min-IsLesser (send * n) (receive * d) in
    let dear : send * n ≤ i64_max * n = Nat.mul-le-mul_right n send1 in
    let cheap : receive * d ≤ i64_max * d = Nat.mul-le-mul_right d receive1 in
    let leaves : ltb (sheep_at n d) v ≡ false =
      not_above (send * n) (receive * d) (i64_max * n) (i64_max * d) dear cheap in
    let size : send * n ≤ i64_max * int32_max = Nat.mul-le-mul send1 n1 in
    let (wheat, sheep, runs, exact) =
      exchange-IsExchange n d v (sheep_at n d) n0 d0 n1 (omega (arith, lesser.0, size)) in
    let (wheat_v, sheep_v, upper, lower) = IsExchange-IsFair n d v wheat sheep exact in
    let sold : wheat ≤ send = within wheat v n send wheat_v lesser.0 in
    let bought : sheep ≤ receive = within sheep v d receive sheep_v lesser.1 in
    (
      record { selling = wheat; buying = sheep },
      rw (past_guard n d send receive n0 d0, leaves, runs)
          (liabilities_of_lem wheat sheep (omega (arith, sold, send1))
            (omega (arith, bought, receive1))),
      (v, lesser, exact, sold, bought, upper, lower),
    )

-- The limits by the side of an offer: the amount bounds what it denotes, and the other limit is that
-- of an `i64`.
abbrev pub IsCommitted : OfferSide → ℕ → Price → OfferLiabilities → Type 0
IsCommitted OfferSide.sell amount price l =
    IsCommitment price.n price.d amount i64_max l.selling l.buying
IsCommitted OfferSide.buy amount price l =
    IsCommitment price.d price.n i64_max amount l.selling l.buying

-- For an amount in `i64` and a price of two `i32` parts, `offer_liabilities` returns exactly what the
-- offer commits its account to: of the lesser value of its amount and of an `i64` of the other asset,
-- the most of the dearer asset that fits, and of the other asset what that is worth, rounded up for
-- what is sold and down for what is bought. Both are within their limits and differ in value by less
-- than one step of the price.
pub offer_liabilities-IsCommitted :
    (side : OfferSide) (amount : ℕ) (price : Price)
    → 0 < price.n
    → 0 < price.d
    → price.n ≤ int32_max
    → price.d ≤ int32_max
    → amount ≤ i64_max
    → (l : OfferLiabilities) × (offer_liabilities side (pos amount) price ≡ ok l)
      × IsCommitted side amount price l
unfolding offer_liabilities
offer_liabilities-IsCommitted OfferSide.sell amount price n0 d0 n1 d1 small =
    exchange_v10_normal_liabilities-IsCommitment price.n price.d amount i64_max n0 d0 n1 d1 small
      (omega arith)
offer_liabilities-IsCommitted OfferSide.buy amount price n0 d0 n1 d1 small =
    exchange_v10_normal_liabilities-IsCommitment price.d price.n i64_max amount d0 n0 d1 n1
      (omega arith) small
