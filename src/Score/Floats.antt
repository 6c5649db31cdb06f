-- ===== src/Score/Floats.antt =====
-- The type `double` and the operations on it that server/VideoDB.cpp uses. Floating point is not
-- modelled: this is what the code relies on, for the small whole numbers that it starts from.
use video_match.Base.{ℕ, ◌-◌, ◌*◌, ◌≤◌, ◌<◌, ◌^◌, ◌≡◌, ltb, Bool, true, false}

pub record Double : Type 1 where
  pub Num : Type 0
  pub of_nat : ℕ → Num
  -- The literal with two decimals, `0.09` for 9.
  pub hundredths : ℕ → Num
  pub sub : Num → Num → Num
  pub mul : Num → Num → Num
  pub div : Num → Num → Num
  pub less : Num → Num → Bool
  -- Whole numbers below 2 ^ 53 are exact.
  pub sub_exact : (a b : ℕ) → b ≤ a → a < 2 ^ 53 → sub (of_nat a) (of_nat b) ≡ of_nat (a - b)
  pub mul_exact : (a b : ℕ) → a * b < 2 ^ 53 → mul (of_nat a) (of_nat b) ≡ of_nat (a * b)
  pub div_self : (a : ℕ) → 0 < a → a < 2 ^ 53 → div (of_nat a) (of_nat a) ≡ of_nat 1
  -- The order of whole numbers, and that rounding does not leave the range from 0 to 1.
  pub less_nat : (a b : ℕ) → a < 2 ^ 53 → b < 2 ^ 53 → less (of_nat a) (of_nat b) ≡ ltb a b
  pub less_asymm : (x y : Num) → less x y ≡ true → less y x ≡ false
  pub div_low :
      (a b : ℕ) → 0 < b → b < 2 ^ 53 → a ≤ b → less (div (of_nat a) (of_nat b)) (of_nat 0) ≡ false
  pub div_high :
      (a b : ℕ) → 0 < b → b < 2 ^ 53 → a ≤ b → less (of_nat 1) (div (of_nat a) (of_nat b)) ≡ false
  pub mul_low :
      (x y : Num)
      → less x (of_nat 0) ≡ false
      → less y (of_nat 0) ≡ false
      → less (mul x y) (of_nat 0) ≡ false
  pub mul_high :
      (x y : Num)
      → less x (of_nat 0) ≡ false
      → less (of_nat 1) x ≡ false
      → less y (of_nat 0) ≡ false
      → less (of_nat 1) y ≡ false
      → less (of_nat 1) (mul x y) ≡ false
  pub hundredths_less : (a b : ℕ) → a < 100 * b → b < 2 ^ 32 → less (hundredths a) (of_nat b) ≡ true
