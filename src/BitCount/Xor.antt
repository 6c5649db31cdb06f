-- ===== src/BitCount/Xor.antt =====
-- The native exclusive or at variables, from the digit recursion that it stands for, and what
-- `diff_bits` makes of it.
use Prim.Native.Nat.{bit_xor, digits, differ, bit_xor-bitwise}
use video_match.Base.{ℕ, zero, suc, ◌+◌, ◌*◌, ◌/◌, ◌%◌, ◌≤◌, ◌≡◌, refl, arith}
use video_match.BitCount.Digits.{word_step}
use video_match.BitCount.Laws.{ones, full_bytes, bit1count-ones}
use video_match.BitCount.{bit1_table, bit1count, diff_bits}

abbrev xor_digits : ℕ → ℕ → ℕ → ℕ
xor_digits n a b = digits (λ b. b) differ n a b

differ_self : (d : ℕ) → differ d d ≡ 0
differ_self zero = refl
differ_self (suc d) = differ_self d

differ_comm : (d e : ℕ) → differ d e ≡ differ e d
differ_comm zero zero = refl
differ_comm zero (suc e) = refl
differ_comm (suc d) zero = refl
differ_comm (suc d) (suc e) = differ_comm d e

bit_xor_digits : (x y : ℕ) → bit_xor x y ≡ xor_digits x x y
bit_xor_digits x y = bit_xor-bitwise x y

bit_xor_step : (x y : ℕ) → bit_xor x y ≡ bit_xor (x / 2) (y / 2) * 2 + differ (x % 2) (y % 2)
bit_xor_step x y =
    omega
      (arith, word_step differ (λ d. refl) x y, bit_xor_digits x y, bit_xor_digits (x / 2) (y / 2))

bit_xor_self_below : (n a : ℕ) → a ≤ n → bit_xor a a ≡ 0
bit_xor_self_below n zero h = refl
bit_xor_self_below zero (suc a) h = absurd (omega arith)
bit_xor_self_below (suc n) (suc a) h = omega (
  arith,
  bit_xor_step (suc a) (suc a),
  differ_self (suc a % 2),
  bit_xor_self_below n (suc a / 2) (omega arith),
)

pub bit_xor_self : (a : ℕ) → bit_xor a a ≡ 0
bit_xor_self a = bit_xor_self_below a a (omega arith)

bit_xor_comm_below : (n a b : ℕ) → a ≤ n → b ≤ n → bit_xor a b ≡ bit_xor b a
bit_xor_comm_below n zero zero h k = refl
bit_xor_comm_below zero a b h k =
    let e : a ≡ 0 = omega arith in let f : b ≡ 0 = omega arith in rw (e, f) refl
bit_xor_comm_below (suc n) a b h k = omega (
  arith,
  bit_xor_step a b,
  bit_xor_step b a,
  differ_comm (a % 2) (b % 2),
  bit_xor_comm_below n (a / 2) (b / 2) (omega arith) (omega arith),
)

pub bit_xor_comm : (a b : ℕ) → bit_xor a b ≡ bit_xor b a
bit_xor_comm a b = bit_xor_comm_below (a + b) a b (omega arith) (omega arith)

bit1count-zero : bit1count 0 ≡ 0
unfolding bit1count bit1_table
bit1count-zero = refl

pub diff_bits_self : (k : ℕ) → diff_bits k k ≡ 0
unfolding diff_bits
diff_bits_self k = rw bit_xor_self bit1count-zero

pub diff_bits_comm : (a b : ℕ) → diff_bits a b ≡ diff_bits b a
unfolding diff_bits
diff_bits_comm a b = rw (bit_xor_comm a b) refl

pub ones-le : (n x : ℕ) → ones n x ≤ n
unfolding ones
ones-le zero x = omega arith
ones-le (suc n) x = omega (arith, ones-le n (x / 2))

pub diff_bits-le : (a b : ℕ) → diff_bits a b ≤ 64
unfolding diff_bits
diff_bits-le a b = omega (arith, bit1count-ones (bit_xor a b), ones-le 64 (bit_xor a b))

-- `diff_bits` is symmetric, 0 on equal frames, at most 64, and short of the number of differing
-- bits by 8 for every byte in which all the bits differ.
pub diff_bits-ones :
    (a b : ℕ)
    → (diff_bits a b + 8 * full_bytes 8 (bit_xor a b) ≡ ones 64 (bit_xor a b))
      × (diff_bits a b ≤ 64)
      × (diff_bits a b ≡ diff_bits b a)
      × (diff_bits a a ≡ 0)
diff_bits-ones a b = (
  unfold diff_bits in bit1count-ones (bit_xor a b),
  diff_bits-le a b,
  diff_bits_comm a b,
  diff_bits_self a,
)
