-- ===== src/BitCount/Digits.antt =====
-- The native operations on binary digits, a digit at a time.
use Prim.Native.Nat.{digits}
use video_match.Base.{ℕ, zero, suc, ◌+◌, ◌*◌, ◌/◌, ◌%◌, ◌≤◌, ◌≡◌, refl, arith}

module _ (f : ℕ → ℕ → ℕ) (f_zero : (d : ℕ) → f 0 d ≡ d) where
  abbrev pub word : ℕ → ℕ → ℕ → ℕ
  word n a b = digits (λ b. b) f n a b

  -- Any bound on the first word gives the same digits.
  bound_free : (x y s t : ℕ) → x ≤ s → x ≤ t → word s x y ≡ word t x y
  bound_free zero y zero zero hs ht = refl
  bound_free zero y zero (suc t) hs ht = refl
  bound_free zero y (suc s) zero hs ht = refl
  bound_free zero y (suc s) (suc t) hs ht = refl
  bound_free (suc x) y zero t hs ht = absurd (omega arith)
  bound_free (suc x) y (suc s) zero hs ht = absurd (omega arith)
  bound_free (suc x) y (suc s) (suc t) hs ht =
      let higher = bound_free (suc x / 2) (y / 2) s t (omega arith) (omega arith) in
      omega (arith, higher)

  pub word_step : (x y : ℕ) → word x x y ≡ word (x / 2) (x / 2) (y / 2) * 2 + f (x % 2) (y % 2)
  word_step zero y = omega (arith, f_zero (y % 2))
  word_step (suc x) y =
      let half = suc x / 2 in
      let higher = bound_free half (y / 2) x half (omega arith) (omega arith) in
      omega (arith, higher)
