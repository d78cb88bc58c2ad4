-- ===== src/Dex/Price/Ends.antt =====
-- How the loop of `stellar_price` ends.
use native.Mathlib.Nat
use fresnica.Prelude.{
  ℕ, zero, suc, ◌+◌, ◌*◌, ◌/◌, ◌%◌, ◌≤◌, ◌<◌, ◌≡◌, ◌⊎◌, inl, inr, refl, ◌∙◌, sym, true, false, ◌||◌,
  some, ok, ltb, ◌==◌, Bool-cases, arith,
}
use fresnica.Int.{i64_max}
use fresnica.Amount.{stroops_per_xlm}
use fresnica.Dex.Price.{Fraction, int32_max, next_part, advance, convergents}
use fresnica.Dex.Price.Laws.{
  next_part-some, IsConvergent, next_n, next_d, next_value_n, next_value_d, next_n-le, next_d-le,
  rem_lt, both_pos, whole_zero, next_parts, next_round, next_round-IsConvergent,
}

-- The price is met exactly by parts in range, or the next step would leave the range.
pub data Ends (p : ℕ) (t : Fraction) : Type 0 where
  exactly :
      t.best_n * stroops_per_xlm ≡ p * t.best_d
      → 0 < t.best_n
      → 0 < t.best_d
      → t.best_n ≤ int32_max
      → t.best_d ≤ int32_max
      → Ends p t
  too_large : IsConvergent p t → t.denominator * int32_max < t.numerator → Ends p t
  next_too_large : IsConvergent p t → (int32_max < next_n t) ⊎ (int32_max < next_d t) → Ends p t

cross_equal : (den n d p s : ℕ) → den * n ≡ p → den * d ≡ s → n * s ≡ p * d
cross_equal den n d p s e f =
    rw (← e, ← f) (Nat.mul_left_comm n den d ∙ sym (Nat.mul_assoc den n d))

no_rest : (den n rem c p : ℕ) → den * n + rem * c ≡ p → rem ≡ 0 → den * n ≡ p
no_rest den n rem c p e z = grind arith

-- A last round with no remainder is exact.
exact_end :
    (p : ℕ) (s : Fraction)
    → 0 < p
    → IsConvergent p s
    → next_n s ≤ int32_max
    → next_d s ≤ int32_max
    → s.numerator % s.denominator ≡ 0
    → Ends p (advance (next_n s) (next_d s) s)
unfolding advance
exact_end p s positive inv small_n small_d none_left = elim (next_parts p s positive inv) [
  | both_pos a b c ↦
      exactly
        (cross_equal s.denominator (next_n s) (next_d s) p stroops_per_xlm
          (no_rest s.denominator (next_n s) (s.numerator % s.denominator) s.current_n p
            (next_value_n p s inv) none_left)
          (no_rest s.denominator (next_d s) (s.numerator % s.denominator) s.current_d
            stroops_per_xlm (next_value_d p s inv) none_left))
        a b small_n small_d
  | whole_zero a b c d e f ↦ absurd (omega arith)
]

over_cases :
    (a b : ℕ) → (ltb int32_max a || ltb int32_max b) ≡ true → (int32_max < a) ⊎ (int32_max < b)
over_cases a b h = elim (Bool-cases (ltb int32_max a)) [
  | inl e ↦ inl (ground arith)
  | inr e ↦ inr (ground arith)
]

within_cases :
    (a b : ℕ) → (ltb int32_max a || ltb int32_max b) ≡ false → (a ≤ int32_max) × (b ≤ int32_max)
within_cases a b h = ground arith

-- The loop ends within a round for each unit of the denominator, with no overflow on the way.
pub convergents-Ends :
    (fuel p : ℕ) (s : Fraction)
    → 0 < p
    → p ≤ i64_max
    → IsConvergent p s
    → s.denominator < fuel
    → (t : Fraction) × (convergents fuel s ≡ some (ok t)) × Ends p t
unfolding convergents
convergents-Ends zero p s positive fits inv enough = absurd (omega arith)
convergents-Ends (suc fuel) p s positive fits inv enough =
    elim (Bool-cases (ltb (s.denominator * int32_max) s.numerator)) [
      | inl large ↦ (s, rw (large, convergents) refl, too_large inv (ground arith))
      | inr small ↦
          let n : next_part (s.numerator / s.denominator) s.current_n s.previous_n
              ≡ some (next_n s) =
            next_part-some (s.numerator / s.denominator) s.current_n s.previous_n
              (omega (arith, next_n-le p s inv)) in
          let d : next_part (s.numerator / s.denominator) s.current_d s.previous_d
              ≡ some (next_d s) =
            next_part-some (s.numerator / s.denominator) s.current_d s.previous_d
              (omega (arith, next_d-le p s inv)) in
          elim (Bool-cases (ltb int32_max (next_n s) || ltb int32_max (next_d s))) [
            | inl over ↦ (
              s,
              rw (small, n, d, over, convergents) refl,
              next_too_large inv (over_cases (next_n s) (next_d s) over),
            )
            | inr within ↦ elim (Bool-cases (s.numerator % s.denominator == 0)) [
              | inl done ↦ (
                advance (next_n s) (next_d s) s,
                rw (small, n, d, within, done, convergents) refl,
                exact_end p s positive inv (within_cases (next_n s) (next_d s) within).0
                    (within_cases (next_n s) (next_d s) within).1 (ground arith),
              )
              | inr more ↦
                  let (t, run, ends) =
                    convergents-Ends fuel p (next_round s) positive fits
                      (next_round-IsConvergent p s positive inv
                        (within_cases (next_n s) (next_d s) within).0
                        (within_cases (next_n s) (next_d s) within).1 (ground arith))
                      (omega (arith, rem_lt p s inv)) in
                  (t, rw (small, n, d, within, more, convergents) run, ends)
            ]
          ]
    ]
