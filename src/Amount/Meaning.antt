-- ===== src/Amount/Meaning.antt =====
-- What a text of an amount means: `12`, `12.` and `12.5` spell a whole number of stroops.
use fresnica.Prelude.{ℕ, ◌+◌, ◌-◌, ◌*◌, ◌^◌, ◌≤◌, ◌≡◌, ◌≢◌, [], ◌∷◌, ◌++◌, length, All, Text}
use fresnica.Decimal.{value}
use fresnica.Decimal.Laws.{IsDigit}
use fresnica.Amount.{stroops_per_xlm}

-- The text is one or more digits, or one or more digits, a point and up to seven digits; the
-- number is the exact value in stroops.
pub data IsAmount (t : Text) (n : ℕ) : Type 0 where
  whole_only :
      (w : Text) → All IsDigit w → w ≢ [] → t ≡ w → n ≡ value w * stroops_per_xlm → IsAmount t n
  with_fraction :
      (w f : Text)
      → All IsDigit w
      → w ≢ []
      → All IsDigit f
      → length f ≤ 7
      → t ≡ w ++ b'.' ∷ f
      → n ≡ value w * stroops_per_xlm + value f * 10 ^ (7 - length f)
      → IsAmount t n
