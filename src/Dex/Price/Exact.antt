-- ===== src/Dex/Price/Exact.antt =====
-- The price that `stellar_price` returns: its range, and when it is the price that was asked for.
use Prim.Native.Nat.{◌∣◌}
use native.Mathlib.Nat
use fresnica.Prelude.{
  ℕ, suc, ◌+◌, ◌*◌, ◌/◌, ◌%◌, ◌≤◌, ◌<◌, ◌≡◌, ◌⊎◌, inl, inr, refl, sym, ap, subst, none, some, ok,
  arith,
}
use fresnica.Int.{i64_max}
use fresnica.Amount.{stroops_per_xlm}
use fresnica.Stellar.{Price}
use fresnica.Dex.Price.{
  Fraction, int32_max, next_part, convergents, first_fraction, limit_by, in_range, recover,
  has_zero, price_of, settle_price, stellar_price, requested_price_if_approximated,
}
use fresnica.Dex.Price.Laws.{
  first, below_one, proper, IsConvergent, next_n, next_d, next_value_n, next_d-le,
}
use fresnica.Dex.Price.Ends.{Ends, exactly, too_large, next_too_large, convergents-Ends}

-- The parts of a price are positive and fit an `i32`.
abbrev pub IsInt32Price : Price → Type 0
IsInt32Price r = (0 < r.n) × (r.n ≤ int32_max) × (0 < r.d) × (r.d ≤ int32_max)

first_fraction-IsConvergent : (p : ℕ) → IsConvergent p (first_fraction p)
first_fraction-IsConvergent p = record {
  value_n = omega arith;
  value_d = omega arith;
  den_pos = omega arith;
  best_n = refl;
  best_d = refl;
  range_n = omega arith;
  range_d = omega arith;
  shape = first refl;
  common = λ b u. (u, Nat.dvd-mul_right stroops_per_xlm b);
}

abbrev best : Fraction → Price
best t = record { n = t.best_n; d = t.best_d }

settle_best : (t : Fraction) → IsInt32Price (best t) → settle_price t ≡ ok (best t)
unfolding settle_price has_zero price_of
settle_best t (a, b, c, d) = ground arith

settle_first : (p : ℕ) → settle_price (first_fraction p) ≡ ok (record { n = int32_max; d = 1 })
unfolding settle_price has_zero price_of recover limit_by in_range next_part
settle_first p = refl

abbrev Settles : Fraction → Type 0
Settles t = (r : Price) × (settle_price t ≡ ok r) × IsInt32Price r

first-Settles : (p : ℕ) (t : Fraction) → t ≡ first_fraction p → Settles t
first-Settles p t e = subst Settles (sym e) (
  record { n = int32_max; d = 1 },
  settle_first p,
  (omega arith, omega arith, omega arith, omega arith),
)

proper-Settles :
    (p : ℕ) (t : Fraction) → IsConvergent p t → 0 < t.current_n → 0 < t.current_d → Settles t
proper-Settles p t inv a b =
    let range : IsInt32Price (best t) =
      (omega (arith, inv), omega (arith, inv), omega (arith, inv), omega (arith, inv)) in
    (best t, settle_best t range, range)

next_of_zero : (q c v : ℕ) → c ≡ 0 → v ≡ 1 → q * c + v ≡ 1
next_of_zero q c v e h = grind arith

one_whole :
    (p : ℕ) (t : Fraction)
    → IsConvergent p t
    → t.current_n ≡ 0
    → t.previous_n ≡ 1
    → (int32_max < next_n t) ⊎ (int32_max < next_d t)
    → ⊥
one_whole p t inv a c (inl h) =
    omega (arith, next_of_zero (t.numerator / t.denominator) t.current_n t.previous_n a c)
one_whole p t inv a c (inr h) = omega (arith, next_d-le p t inv)

Ends-Settles : (p : ℕ) (t : Fraction) → Ends p t → Settles t
Ends-Settles p t (exactly e a b c d) =
    let range : IsInt32Price (best t) = (a, c, b, d) in (best t, settle_best t range, range)
Ends-Settles p t (too_large inv h) = elim inv.shape [
  | first e ↦ first-Settles p t e
  | below_one a b c d e f ↦ absurd (omega arith)
  | proper a b e f ↦ proper-Settles p t inv a b
]
Ends-Settles p t (next_too_large inv h) = elim inv.shape [
  | first e ↦ first-Settles p t e
  | below_one a b c d e f ↦ absurd (one_whole p t inv a c h)
  | proper a b e f ↦ proper-Settles p t inv a b
]

price_run :
    (p : ℕ)
    → 0 < p
    → p ≤ i64_max
    → (t : Fraction) × (convergents (suc stroops_per_xlm) (first_fraction p) ≡ some (ok t))
      × Ends p t
price_run p positive fits =
    convergents-Ends (suc stroops_per_xlm) p (first_fraction p) positive fits
      (first_fraction-IsConvergent p) (omega arith)

price_returned :
    (p : ℕ) {t : Fraction} {r : Price}
    → convergents (suc stroops_per_xlm) (first_fraction p) ≡ some (ok t)
    → settle_price t ≡ ok r
    → stellar_price p ≡ some (ok r)
unfolding stellar_price
price_returned p run settled = rw (run, settled, stellar_price) refl

-- For every positive `i64` price, `stellar_price` ends within its fuel with no overflow and returns a
-- fraction of two positive `i32`.
pub stellar_price-IsInt32Price :
    (p : ℕ) → 0 < p → p ≤ i64_max → (r : Price) × (stellar_price p ≡ some (ok r)) × IsInt32Price r
stellar_price-IsInt32Price p positive fits =
    let (t, run, ends) = price_run p positive fits in
    let (r, settled, range) = Ends-Settles p t ends in (r, price_returned p run settled, range)

asked-le : (p a b : ℕ) → a * stroops_per_xlm ≡ p * b → 0 < b → p ≤ a * stroops_per_xlm
asked-le p a b e hb = let h : p * 1 ≤ p * b = Nat.mul-le-mul_left p hb in rw e (rw Nat.mul-one at h)

not_large :
    (p a b : ℕ) (t : Fraction)
    → IsConvergent p t
    → 0 < p
    → a * stroops_per_xlm ≡ p * b
    → 0 < b
    → a ≤ int32_max
    → t.denominator * int32_max < t.numerator
    → ⊥
not_large p a b t inv positive e hb ha h = elim inv.shape [
  | first f ↦ omega (arith, asked-le p a b e hb, ap (λ x. x.numerator) f, ap (λ x. x.denominator) f)
  | below_one _ _ _ _ f g ↦ omega (arith, inv)
  | proper _ _ f g ↦ omega (arith, inv)
]

-- The denominator times `b` is a multiple of the scale, so the next numerator is at most `a`.
next-le :
    (p a b den next rest : ℕ)
    → a * stroops_per_xlm ≡ p * b
    → 0 < b
    → 0 < den
    → stroops_per_xlm ∣ den * b
    → den * next + rest ≡ p
    → next ≤ a
next-le p a b den next rest e hb hd divides value =
    let scale : stroops_per_xlm ≤ den * b = Nat.le_of_dvd (Nat.mul-pos hd hb) divides in
    let below : den * next ≤ p = omega arith in
    let scaled : den * next * b ≤ p * b = Nat.mul-le-mul_right b below in
    let moved : den * next * b ≡ den * b * next = Nat.mul_right_comm den next b in
    let least : stroops_per_xlm * next ≤ den * b * next = Nat.mul-le-mul_right next scale in
    omega arith

not_next :
    (p a b : ℕ) (t : Fraction)
    → IsConvergent p t
    → a * stroops_per_xlm ≡ p * b
    → 0 < b
    → a ≤ int32_max
    → (int32_max < next_n t) ⊎ (int32_max < next_d t)
    → ⊥
not_next p a b t inv e hb ha (inl h) =
    let divides : stroops_per_xlm ∣ p * b =
      subst (◌∣◌ stroops_per_xlm) e (Nat.dvd-mul_left stroops_per_xlm a) in
    omega (
      arith,
      next-le p a b t.denominator (next_n t) (t.numerator % t.denominator * t.current_n) e hb
          inv.den_pos (inv.common b divides).1 (next_value_n p t inv),
    )
not_next p a b t inv e hb ha (inr h) = omega (arith, next_d-le p t inv)

-- No stop is early where a fraction in range meets the price.
meets :
    (p a b : ℕ) (t : Fraction)
    → 0 < p
    → a * stroops_per_xlm ≡ p * b
    → 0 < b
    → a ≤ int32_max
    → b ≤ int32_max
    → Ends p t
    → (t.best_n * stroops_per_xlm ≡ p * t.best_d) × IsInt32Price (best t)
meets p a b t positive e hb ha hb' (exactly x c d c' d') = (x, (c, c', d, d'))
meets p a b t positive e hb ha hb' (too_large inv h) =
    absurd (not_large p a b t inv positive e hb ha h)
meets p a b t positive e hb ha hb' (next_too_large inv h) = absurd (not_next p a b t inv e hb ha h)

-- If some fraction of two `i32` is the price that was asked for, then `stellar_price` returns it
-- exactly, so the review shows no approximation.
pub stellar_price-requested_price_if_approximated :
    (p a b : ℕ)
    → 0 < p
    → a * stroops_per_xlm ≡ p * b
    → 0 < b
    → a ≤ int32_max
    → b ≤ int32_max
    → (r : Price) × (stellar_price p ≡ some (ok r))
      × (r.n * stroops_per_xlm ≡ p * r.d)
      × (requested_price_if_approximated p r ≡ none)
unfolding requested_price_if_approximated
stellar_price-requested_price_if_approximated p a b positive e hb ha hb' =
    let fits : p ≤ i64_max = (let h = asked-le p a b e hb in omega arith) in
    let (t, run, ends) = price_run p positive fits in
    let (exact, range) = meets p a b t positive e hb ha hb' ends in
    (best t, price_returned p run (settle_best t range), exact, ground arith)
