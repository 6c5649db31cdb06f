-- ===== src/Tests/Scaled.antt =====
-- A stand-in for `double` that meets its laws: hundredths, rounded down.
use video_match.Base.{ℕ, ◌-◌, ◌*◌, ◌/◌, ◌≤◌, ◌<◌, ◌≡◌, false, true, arith, ltb}
use video_match.Score.Floats.{Double}

pub sub_law : (a b : ℕ) → b ≤ a → a * 100 - b * 100 ≡ (a - b) * 100
sub_law a b h = omega arith

pub mul_law : (a b : ℕ) → a * 100 * (b * 100) / 100 ≡ a * b * 100
mul_law a b = omega arith

pub div_self_law : (a : ℕ) → 0 < a → a * 100 * 100 / (a * 100) ≡ 100
div_self_law a h = grind arith

pub less_nat_law : (a b : ℕ) → ltb (a * 100) (b * 100) ≡ ltb a b
less_nat_law a b = ground arith

pub less_asymm_law : (x y : ℕ) → ltb x y ≡ true → ltb y x ≡ false
less_asymm_law x y h = ground arith

pub not_below_zero : (x : ℕ) → ltb x 0 ≡ false
not_below_zero x = ground arith

div_le : (a b : ℕ) → 0 < b → a ≤ b → a * 100 * 100 / (b * 100) ≤ 100
div_le a b h le = grind arith

pub div_high_law : (a b : ℕ) → 0 < b → a ≤ b → ltb 100 (a * 100 * 100 / (b * 100)) ≡ false
div_high_law a b h le = ground (arith, div_le a b h le)

mul_le : (x y : ℕ) → x ≤ 100 → y ≤ 100 → x * y / 100 ≤ 100
mul_le x y h k = let p : x * y ≤ 100 * 100 = grind arith in omega (arith, p)

pub mul_high_law : (x y : ℕ) → ltb 100 x ≡ false → ltb 100 y ≡ false → ltb 100 (x * y / 100) ≡ false
mul_high_law x y h k = ground (arith, mul_le x y)

pub hundredths_law : (a b : ℕ) → a < 100 * b → ltb a (b * 100) ≡ true
hundredths_law a b h = ground arith

abbrev pub scaled : Double
scaled = record {
  Num = ℕ;
  of_nat = λ n. n * 100;
  hundredths = λ n. n;
  sub = λ x y. x - y;
  mul = λ x y. x * y / 100;
  div = λ x y. x * 100 / y;
  less = ltb;
  sub_exact = λ a b h small. sub_law a b h;
  mul_exact = λ a b small. mul_law a b;
  div_self = λ a h small. div_self_law a h;
  less_nat = λ a b h k. less_nat_law a b;
  less_asymm = less_asymm_law;
  div_low = λ a b h small le. not_below_zero (a * 100 * 100 / (b * 100));
  div_high = λ a b h small le. div_high_law a b h le;
  mul_low = λ x y h k. not_below_zero (x * y / 100);
  mul_high = λ x y h i k l. mul_high_law x y i l;
  hundredths_less = λ a b h small. hundredths_law a b h;
}
