-- ===== src/Dex/Price/Laws.antt =====
-- The loop of `stellar_price`: what each round keeps, that it ends, and how it can end.
use Prim.Native.Nat.{◌∣◌}
use native.Mathlib.Nat
use fresnica.Prelude.{
  ℕ, zero, suc, ◌+◌, ◌*◌, ◌/◌, ◌%◌, ◌≤◌, ◌<◌, ◌≡◌, ◌⊎◌, inl, inr, refl, sym, subst, some, arith,
}
use fresnica.Int.{i64_max}
use fresnica.Amount.{stroops_per_xlm}
use fresnica.Dex.Price.{Fraction, int32_max, next_part, advance, first_fraction}

-- One step of the Euclidean algorithm keeps a combination of its two numbers.
combination_step :
    (num den a rem cur prev p : ℕ)
    → den * a + rem ≡ num
    → num * cur + den * prev ≡ p
    → den * (a * cur + prev) + rem * cur ≡ p
combination_step num den a rem cur prev p h e =
    rw (← e, ← h) (simp (Nat.mul-add, Nat.add-mul, Nat.mul_assoc) (omega arith))

pub part-le : (den next rest p : ℕ) → 0 < den → den * next + rest ≡ p → next ≤ p
part-le den next rest p h e = grind arith

pub next_part-some :
    (a current previous : ℕ)
    → a * current + previous ≤ i64_max
    → next_part a current previous ≡ some (a * current + previous)
unfolding next_part
next_part-some a current previous h = ground arith

zero_or_pos : (n : ℕ) → (n ≡ 0) ⊎ (0 < n)
zero_or_pos zero = inl refl
zero_or_pos (suc n) = inr (omega arith)

-- What the two numbers, the last two fractions and the best one are to the price `p`.
pub data Shape (p : ℕ) (s : Fraction) : Type 0 where
  first : s ≡ first_fraction p → Shape p s
  below_one :
      s.current_n ≡ 0
      → s.current_d ≡ 1
      → s.previous_n ≡ 1
      → s.previous_d ≡ 0
      → s.numerator ≤ stroops_per_xlm
      → s.denominator ≤ s.numerator
      → Shape p s
  proper :
      0 < s.current_n
      → 0 < s.current_d
      → s.numerator ≤ stroops_per_xlm
      → s.denominator ≤ s.numerator
      → Shape p s

pub record IsConvergent (p : ℕ) (s : Fraction) : Type 0 where
  pub value_n : s.numerator * s.current_n + s.denominator * s.previous_n ≡ p
  pub value_d : s.numerator * s.current_d + s.denominator * s.previous_d ≡ stroops_per_xlm
  pub den_pos : 0 < s.denominator
  pub best_n : s.best_n ≡ s.current_n
  pub best_d : s.best_d ≡ s.current_d
  pub range_n : s.current_n ≤ int32_max
  pub range_d : s.current_d ≤ int32_max
  pub shape : Shape p s
  pub common :
      (b : ℕ)
      → stroops_per_xlm ∣ p * b
      → (stroops_per_xlm ∣ s.numerator * b) × (stroops_per_xlm ∣ s.denominator * b)

abbrev pub next_n : Fraction → ℕ
next_n s = s.numerator / s.denominator * s.current_n + s.previous_n

abbrev pub next_d : Fraction → ℕ
next_d s = s.numerator / s.denominator * s.current_d + s.previous_d

module _ (p : ℕ) (s : Fraction) (inv : IsConvergent p s) where
  pub next_value_n : s.denominator * next_n s + s.numerator % s.denominator * s.current_n ≡ p
  next_value_n =
      combination_step s.numerator s.denominator (s.numerator / s.denominator)
        (s.numerator % s.denominator) s.current_n s.previous_n p
        (Nat.div-add-mod s.numerator s.denominator) inv.value_n

  pub next_value_d :
      s.denominator * next_d s + s.numerator % s.denominator * s.current_d ≡ stroops_per_xlm
  next_value_d =
      combination_step s.numerator s.denominator (s.numerator / s.denominator)
        (s.numerator % s.denominator) s.current_d s.previous_d stroops_per_xlm
        (Nat.div-add-mod s.numerator s.denominator) inv.value_d

  pub next_n-le : next_n s ≤ p
  next_n-le = part-le s.denominator (next_n s) _ p inv.den_pos next_value_n

  pub next_d-le : next_d s ≤ stroops_per_xlm
  next_d-le = part-le s.denominator (next_d s) _ stroops_per_xlm inv.den_pos next_value_d

  pub rem_lt : s.numerator % s.denominator < s.denominator
  rem_lt = Nat.mod-lt s.numerator inv.den_pos

  pub quotient_pos : s.denominator ≤ s.numerator → 0 < s.numerator / s.denominator
  quotient_pos h = (Nat.le-div_iff_mul-le inv.den_pos).1 (rw Nat.one-mul h)

-- The state of the next round.
abbrev pub next_round : Fraction → Fraction
next_round s = record (advance (next_n s) (next_d s) s) {
  numerator = s.denominator;
  denominator = s.numerator % s.denominator;
}

-- The next fraction has parts above zero, or it is the whole part 0 of a price below one.
pub data NextParts (p : ℕ) (s : Fraction) : Type 0 where
  both_pos : 0 < next_n s → 0 < next_d s → s.denominator ≤ stroops_per_xlm → NextParts p s
  whole_zero :
      next_n s ≡ 0
      → next_d s ≡ 1
      → s.current_n ≡ 1
      → s.current_d ≡ 0
      → s.denominator ≡ stroops_per_xlm
      → s.numerator % s.denominator ≡ p
      → NextParts p s

product_pos : (a c q : ℕ) → 0 < a → 0 < c → 0 < a * c + q
product_pos a c q ha hc = grind arith

first_parts : (p : ℕ) → 0 < p → NextParts p (first_fraction p)
first_parts p positive = elim (zero_or_pos (p / stroops_per_xlm)) [
  | inl none_whole ↦
      whole_zero (omega (arith, none_whole)) (omega arith) refl refl refl
        (omega (arith, none_whole))
  | inr some_whole ↦ both_pos (omega (arith, some_whole)) (omega arith) (omega arith)
]

pub next_parts : (p : ℕ) (s : Fraction) → 0 < p → IsConvergent p s → NextParts p s
next_parts p s positive inv = elim inv.shape [
  | first e ↦ subst (NextParts p) (sym e) (first_parts p positive)
  | below_one a b c d e f ↦
      both_pos (omega arith)
        (product_pos (s.numerator / s.denominator) s.current_d s.previous_d (quotient_pos p s inv f)
          (omega arith))
        (omega arith)
  | proper a b e f ↦
      let whole = quotient_pos p s inv f in
      both_pos (product_pos (s.numerator / s.denominator) s.current_n s.previous_n whole a)
        (product_pos (s.numerator / s.denominator) s.current_d s.previous_d whole b) (omega arith)
]

rem-dvd :
    (den q rem num b : ℕ)
    → den * q + rem ≡ num
    → stroops_per_xlm ∣ num * b
    → stroops_per_xlm ∣ den * b
    → stroops_per_xlm ∣ rem * b
rem-dvd den q rem num b e hn hd =
    (Nat.dvd-add_iff_right stroops_per_xlm (Nat.dvd-mul_right_of_dvd stroops_per_xlm hd q)).1
      (subst (◌∣◌ stroops_per_xlm) (split den q rem num b e) hn)
  where
    split : (den q rem num b : ℕ) → den * q + rem ≡ num → num * b ≡ den * b * q + rem * b
    split den q rem num b e = rw (← e, Nat.add-mul, Nat.mul_right_comm den q b) refl

-- A round that does not stop keeps the invariant.
pub next_round-IsConvergent :
    (p : ℕ) (s : Fraction)
    → 0 < p
    → IsConvergent p s
    → next_n s ≤ int32_max
    → next_d s ≤ int32_max
    → 0 < s.numerator % s.denominator
    → IsConvergent p (next_round s)
unfolding advance
next_round-IsConvergent p s positive inv small_n small_d more = record {
  value_n = next_value_n p s inv;
  value_d = next_value_d p s inv;
  den_pos = more;
  best_n = refl;
  best_d = refl;
  range_n = small_n;
  range_d = small_d;
  shape = elim (next_parts p s positive inv) [
    | both_pos a b c ↦ proper a b c (omega (arith, rem_lt p s inv))
    | whole_zero a b c d e f ↦ below_one a b c d (omega (arith, e)) (omega (arith, rem_lt p s inv))
  ];
  common = λ b u.
      let (num, den) = inv.common b u in
      (
        den,
        rem-dvd s.denominator (s.numerator / s.denominator) (s.numerator % s.denominator)
            s.numerator b (Nat.div-add-mod s.numerator s.denominator) num den,
      );
}
