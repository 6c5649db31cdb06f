-- ===== src/Picture/Floats.antt =====
-- The types `float` (Num) and `double` (Wide) and the operations on them that
-- client/ImageProcessor.cpp uses. Floating point is not modelled: the laws are what it gives for
-- whole numbers, and no more than the theorems of this component rely on.
use video_match.Base.{ℕ, ◌+◌, ◌/◌, ◌≤◌, ◌<◌, ◌^◌, ◌≡◌, Bool, true, false}

pub record Float : Type 1 where
  pub Num : Type 0
  pub Wide : Type 0
  pub of_nat : ℕ → Num
  pub add : Num → Num → Num
  pub sub : Num → Num → Num
  pub div : Num → Num → Num
  pub neg : Num → Num
  pub less : Num → Num → Bool
  pub widen : Num → Wide
  pub narrow : Wide → Num
  pub wide_of : ℕ → Wide
  -- The literal 0.1.
  pub tenth : Wide
  pub pi : Wide
  pub wide_add : Wide → Wide → Wide
  pub wide_sub : Wide → Wide → Wide
  pub wide_mul : Wide → Wide → Wide
  pub wide_div : Wide → Wide → Wide
  pub pow : Wide → ℕ → Wide
  pub sqrt : Wide → Wide
  pub cos : Wide → Wide
  -- The conversion of a number that is not negative to `int`.
  pub truncated : Wide → ℕ

pub record FloatLaws (F : Float) : Type 0 where
  pub less_asymm : (x y : F.Num) → F.less x y ≡ true → F.less y x ≡ false
  -- A tenth of an `int`, rounded, is less than one from its whole part and not below it.
  pub add_tenth :
      (x n : ℕ)
      → x < 2 ^ 31
      → n < 2 ^ 31
      → F.truncated (F.wide_add (F.wide_of x) (F.wide_mul (F.wide_of n) F.tenth)) ≡ x + n / 10
  pub sub_tenth :
      (x n : ℕ)
      → n ≤ x
      → x < 2 ^ 31
      → (F.truncated (F.wide_sub (F.wide_of x) (F.wide_mul (F.wide_of n) F.tenth)) + n / 10 ≤ x)
        × (x
            ≤ F.truncated (F.wide_sub (F.wide_of x) (F.wide_mul (F.wide_of n) F.tenth))
              + n / 10
              + 1)
