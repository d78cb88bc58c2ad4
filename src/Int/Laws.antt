-- ===== src/Int/Laws.antt =====
-- The integer operations by their two parts, which `omega` reads, and the exact value of a
-- saturating or checked operation in terms of the unbounded one.
use fresnica.Prelude.{ℕ, ◌+◌, ◌<◌, ◌≡◌, some, arith}
use fresnica.Int.{
  ℤ, pos, pos_part, neg_part, ◌+ℤ◌, ◌-ℤ◌, ◌*ℤ◌, ◌≤ℤ◌, IsI64, saturating_add, saturating_sub,
  checked_add, checked_mul,
}

pub +ℤ_parts :
    (a b : ℤ)
    → pos_part (a +ℤ b) + neg_part a + neg_part b ≡ neg_part (a +ℤ b) + pos_part a + pos_part b
unfolding ◌+ℤ◌
+ℤ_parts a b = ground arith

pub -ℤ_parts :
    (a b : ℤ)
    → pos_part (a -ℤ b) + neg_part a + pos_part b ≡ neg_part (a -ℤ b) + pos_part a + neg_part b
unfolding ◌-ℤ◌
-ℤ_parts a b = ground arith

-- A saturated difference that is above zero is an upper bound of nothing but the true difference.
pub saturating_sub_positive :
    (a b : ℤ) (n : ℕ) → IsI64 a → pos n ≤ℤ saturating_sub a b → 0 < n → pos n +ℤ b ≤ℤ a
unfolding saturating_sub ◌+ℤ◌
saturating_sub_positive a b n ha h p = ground arith

pub saturating_sub-IsI64 : (a b : ℤ) → IsI64 (saturating_sub a b)
unfolding saturating_sub
saturating_sub-IsI64 a b = ground arith

pub saturating_add-IsI64 : (a b : ℤ) → IsI64 (saturating_add a b)
unfolding saturating_add
saturating_add-IsI64 a b = ground arith

pub checked_add_exact : (a b : ℤ) {c : ℤ} → checked_add a b ≡ some c → (c ≡ a +ℤ b) × IsI64 c
unfolding checked_add
checked_add_exact a b h = ground arith

pub checked_mul_exact : (a b : ℤ) {c : ℤ} → checked_mul a b ≡ some c → (c ≡ a *ℤ b) × IsI64 c
unfolding checked_mul
checked_mul_exact a b h = ground arith

pub checked_add_fits : (a b : ℤ) → IsI64 (a +ℤ b) → checked_add a b ≡ some (a +ℤ b)
unfolding checked_add
checked_add_fits a b h = ground arith
