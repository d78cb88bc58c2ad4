-- ===== src/Dex/Fills/Runs.antt =====
-- The trades that one fill stands for.
use fresnica.Prelude.{
  ℕ, ◌+◌, ◌≡◌, ◌↔◌, refl, true, Option, some, none, List, [], ◌∷◌, All, Text, ok, ok_or, >>=-eq-ok,
  ok-injective, ok_or-eq-ok, ap, sym, ◌∙◌, arith,
}
use fresnica.Text.Laws.{text_eq_iff, text_eq_refl}
use fresnica.Dex.Fills.{
  WorkingFill, side_eq, DexTradeSide, can_merge, checked_sum, merge, same_offer,
}

unfoldable pub total : (WorkingFill → ℕ) → List WorkingFill → ℕ
total part [] = 0
total part (f ∷ fs) = part f + total part fs

-- The last of the trades.
unfoldable pub latest {ℓ} : {A : Type ℓ} → (WorkingFill → A) → A → List WorkingFill → A
latest part a [] = a
latest part a (f ∷ fs) = latest part (part f) fs

-- Both are of one offer, with the same assets, side and price.
pub record IsSameKey (f g : WorkingFill) : Type 0 where
  pub offer : Text
  pub offer_left : f.offer_id ≡ some offer
  pub offer_right : g.offer_id ≡ some offer
  pub base : f.base_asset ≡ g.base_asset
  pub counter : f.counter_asset ≡ g.counter_asset
  pub same_side : f.side ≡ g.side
  pub numerator : f.price_n ≡ g.price_n
  pub denominator : f.price_d ≡ g.price_d

-- `fill` is `first` with the trades `more`: it keeps the key and the first marks of `first`, every
-- other trade has that key, its last marks are those of the last trade, and amounts and counts add up.
pub record IsRun (first : WorkingFill) (more : List WorkingFill) (fill : WorkingFill) : Type 0 where
  pub offer : fill.offer_id ≡ first.offer_id
  pub base : fill.base_asset ≡ first.base_asset
  pub counter : fill.counter_asset ≡ first.counter_asset
  pub same_side : fill.side ≡ first.side
  pub numerator : fill.price_n ≡ first.price_n
  pub denominator : fill.price_d ≡ first.price_d
  pub started : fill.first_time ≡ first.first_time
  pub first_trade : fill.first_trade_id ≡ first.first_trade_id
  pub ended : fill.last_time ≡ latest (λ f. f.last_time) first.last_time more
  pub last_trade : fill.last_trade_id ≡ latest (λ f. f.last_trade_id) first.last_trade_id more
  pub base_sum : fill.base_amount ≡ first.base_amount + total (λ f. f.base_amount) more
  pub counter_sum : fill.counter_amount ≡ first.counter_amount + total (λ f. f.counter_amount) more
  pub count : fill.trade_count ≡ first.trade_count + total (λ f. f.trade_count) more
  pub keys : All (IsSameKey first) more

side_eq_sound : (s t : DexTradeSide) → side_eq s t ≡ true → s ≡ t
unfolding side_eq
side_eq_sound DexTradeSide.buy DexTradeSide.buy h = refl
side_eq_sound DexTradeSide.buy DexTradeSide.sell h = cc
side_eq_sound DexTradeSide.sell DexTradeSide.buy h = cc
side_eq_sound DexTradeSide.sell DexTradeSide.sell h = refl

side_eq_refl : (s : DexTradeSide) → side_eq s s ≡ true
unfolding side_eq
side_eq_refl DexTradeSide.buy = refl
side_eq_refl DexTradeSide.sell = refl

side_eq_iff : (s t : DexTradeSide) → (side_eq s t ≡ true) ↔ (s ≡ t)
side_eq_iff s t = (side_eq_sound s t, λ e. rw e (side_eq_refl t))

offers_lem : (s t : Option Text) → same_offer s t ≡ true → (o : Text) × (s ≡ some o) × (t ≡ some o)
offers_lem none t h = cc
offers_lem (some s) none h = cc
offers_lem (some s) (some t) h = (s, refl, ap some (sym ((text_eq_iff s t).0 h)))

pub can_merge-IsSameKey : (f g : WorkingFill) → can_merge f g ≡ true → IsSameKey f g
unfolding can_merge
can_merge-IsSameKey f g h =
    let (o, left, right) = offers_lem f.offer_id g.offer_id (ground arith) in
    record {
      offer = o;
      offer_left = left;
      offer_right = right;
      base = (text_eq_iff f.base_asset g.base_asset).0 (ground arith);
      counter = (text_eq_iff f.counter_asset g.counter_asset).0 (ground arith);
      same_side = (side_eq_iff f.side g.side).0 (ground arith);
      numerator = ground arith;
      denominator = ground arith;
    }

pub IsSameKey-can_merge : (f g : WorkingFill) → IsSameKey f g → can_merge f g ≡ true
unfolding can_merge
IsSameKey-can_merge f g k =
    let base = (text_eq_iff f.base_asset g.base_asset).1 k.base in
    let counter = (text_eq_iff f.counter_asset g.counter_asset).1 k.counter in
    let side = (side_eq_iff f.side g.side).1 k.same_side in
    let offer = text_eq_refl k.offer in
    rw (k.offer_left, k.offer_right, base, counter, side, offer, k.numerator, k.denominator)
      (ground arith)

sum_lem : (a b : ℕ) {c : ℕ} → checked_sum a b ≡ some c → c ≡ a + b
sum_lem a b h = ground arith

pub IsRun-nil : (first : WorkingFill) → IsRun first [] first
unfolding total latest
IsRun-nil first = record {
  offer = refl;
  base = refl;
  counter = refl;
  same_side = refl;
  numerator = refl;
  denominator = refl;
  started = refl;
  first_trade = refl;
  ended = refl;
  last_trade = refl;
  base_sum = omega arith;
  counter_sum = omega arith;
  count = omega arith;
  keys = tt;
}

-- A merged fill is the run of its two parts.
pub merge-IsRun :
    (previous current : WorkingFill) {merged : WorkingFill}
    → can_merge previous current ≡ true
    → current.trade_count ≡ 1
    → merge previous current ≡ ok merged
    → IsRun previous (current ∷ []) merged
unfolding merge total latest
merge-IsRun previous current same one h =
    let (base, b, h₁) =
      >>=-eq-ok (ok_or (checked_sum previous.base_amount current.base_amount) _) _ h in
    let (counter, c, h₂) =
      >>=-eq-ok (ok_or (checked_sum previous.counter_amount current.counter_amount) _) _ h₁ in
    let result = sym (ok-injective h₂) in
    let base_sum : base ≡ previous.base_amount + current.base_amount =
      sum_lem previous.base_amount current.base_amount (ok_or-eq-ok _ _ b) in
    let counter_sum : counter ≡ previous.counter_amount + current.counter_amount =
      sum_lem previous.counter_amount current.counter_amount (ok_or-eq-ok _ _ c) in
    record {
      offer = ap (λ f. f.offer_id) result;
      base = ap (λ f. f.base_asset) result;
      counter = ap (λ f. f.counter_asset) result;
      same_side = ap (λ f. f.side) result;
      numerator = ap (λ f. f.price_n) result;
      denominator = ap (λ f. f.price_d) result;
      started = ap (λ f. f.first_time) result;
      first_trade = ap (λ f. f.first_trade_id) result;
      ended = ap (λ f. f.last_time) result;
      last_trade = ap (λ f. f.last_trade_id) result;
      base_sum = ap (λ f. f.base_amount) result ∙ omega (arith, base_sum);
      counter_sum = ap (λ f. f.counter_amount) result ∙ omega (arith, counter_sum);
      count = ap (λ f. f.trade_count) result ∙ omega (arith, one);
      keys = (can_merge-IsSameKey previous current same, tt);
    }

-- A key passes along two fills that agree on it.
pub IsSameKey-left :
    (f g h : WorkingFill) (more : List WorkingFill) → IsRun f more g → IsSameKey g h → IsSameKey f h
IsSameKey-left f g h more r k = record {
  offer = k.offer;
  offer_left = sym r.offer ∙ k.offer_left;
  offer_right = k.offer_right;
  base = sym r.base ∙ k.base;
  counter = sym r.counter ∙ k.counter;
  same_side = sym r.same_side ∙ k.same_side;
  numerator = sym r.numerator ∙ k.numerator;
  denominator = sym r.denominator ∙ k.denominator;
}

pub IsSameKey-right :
    (f g h : WorkingFill) (more : List WorkingFill) → IsRun g more h → IsSameKey f h → IsSameKey f g
IsSameKey-right f g h more r k = record {
  offer = k.offer;
  offer_left = k.offer_left;
  offer_right = sym r.offer ∙ k.offer_right;
  base = k.base ∙ r.base;
  counter = k.counter ∙ r.counter;
  same_side = k.same_side ∙ r.same_side;
  numerator = k.numerator ∙ r.numerator;
  denominator = k.denominator ∙ r.denominator;
}

keys-left :
    (f g : WorkingFill) (more trades : List WorkingFill)
    → IsRun f more g
    → All (IsSameKey g) trades
    → All (IsSameKey f) trades
keys-left f g more [] r k = tt
keys-left f g more (t ∷ trades) r (k, ks) =
    (IsSameKey-left f g t more r k, keys-left f g more trades r ks)

-- A run goes on from what its first two trades were merged to.
pub IsRun-cons :
    (previous current merged fill : WorkingFill) (more : List WorkingFill)
    → IsRun previous (current ∷ []) merged
    → IsRun merged more fill
    → IsRun previous (current ∷ more) fill
unfolding total latest
IsRun-cons previous current merged fill more r s = record {
  offer = s.offer ∙ r.offer;
  base = s.base ∙ r.base;
  counter = s.counter ∙ r.counter;
  same_side = s.same_side ∙ r.same_side;
  numerator = s.numerator ∙ r.numerator;
  denominator = s.denominator ∙ r.denominator;
  started = s.started ∙ r.started;
  first_trade = s.first_trade ∙ r.first_trade;
  ended = s.ended ∙ ap (λ t. latest (λ f. f.last_time) t more) r.ended;
  last_trade = s.last_trade ∙ ap (λ t. latest (λ f. f.last_trade_id) t more) r.last_trade;
  base_sum = omega (arith, s.base_sum, r.base_sum);
  counter_sum = omega (arith, s.counter_sum, r.counter_sum);
  count = omega (arith, s.count, r.count);
  keys = (r.keys.0, keys-left previous merged (current ∷ []) more r s.keys);
}
