-- ===== src/BitCount/Laws.antt =====
-- What the table and the counts of BitCount compute, against the number of ones of a word.
use video_match.Base.{
  ℕ, zero, suc, ◌+◌, ◌*◌, ◌/◌, ◌%◌, ◌<◌, ◌≡◌, refl, Bool, true, ◌&&◌, ◌==◌, ==_iff, get_or,
  if◌then◌else◌, arith,
}
use video_match.BitCount.{bit1_table, add_bytes, bit1count}

-- The number of ones among the lowest `n` bits.
unfoldable pub ones : ℕ → ℕ → ℕ
ones zero x = 0
ones (suc n) x = x % 2 + ones n (x / 2)

-- The number of bytes 0xFF among the lowest `n` bytes.
unfoldable pub full_bytes : ℕ → ℕ → ℕ
full_bytes zero x = 0
full_bytes (suc n) x = (if x % 256 == 255 then 1 else 0) + full_bytes n (x / 256)

-- The test holds at all the numbers that stand before `bound`.
holds_before : (ℕ → Bool) → ℕ → Bool
holds_before test zero = true
holds_before test (suc bound) = holds_before test bound && test bound

holds_at :
    (test : ℕ → Bool) (bound k : ℕ) → k < bound → holds_before test bound ≡ true → test k ≡ true
unfolding holds_before
holds_at test zero k before all = absurd (omega arith)
holds_at test (suc bound) k before all = ground (arith, holds_at test bound k)

table_checked :
    holds_before (λ x. get_or bit1_table x 0 + (if x == 255 then 8 else 0) == ones 8 x) 256 ≡ true
unfolding holds_before bit1_table ones
table_checked = refl

-- Every entry counts the ones of its byte, but entry 255 is 0.
pub get_or-bit1_table :
    (x : ℕ) → x < 256 → get_or bit1_table x 0 + (if x == 255 then 8 else 0) ≡ ones 8 x
get_or-bit1_table x h = (==_iff _ _).0 (holds_at _ 256 x h table_checked)

ones_byte : (x : ℕ) → ones 8 (x % 256) ≡ ones 8 x
unfolding ones
ones_byte x = omega arith

-- Eight bits for each byte.
abbrev pub width : ℕ → ℕ
width zero = zero
width (suc n) = suc (suc (suc (suc (suc (suc (suc (suc (width n))))))))

ones_shift :
    (n x : ℕ)
    → ones (suc (suc (suc (suc (suc (suc (suc (suc n)))))))) x ≡ ones 8 x + ones n (x / 256)
unfolding ones
ones_shift n x =
    let e : x / 2 / 2 / 2 / 2 / 2 / 2 / 2 / 2 ≡ x / 256 = omega arith in rw e (omega arith)

add_bytes-ones : (n x ret : ℕ) → add_bytes n x ret + 8 * full_bytes n x ≡ ret + ones (width n) x
unfolding add_bytes full_bytes
add_bytes-ones zero x ret = unfold ones in omega arith
add_bytes-ones (suc n) x ret = rw ones_shift (
    ground (
      arith,
      add_bytes-ones n (x / 256) (ret + get_or bit1_table (x % 256) 0),
      get_or-bit1_table (x % 256) (omega arith),
      ones_byte x,
    ))

-- `bit1count` is the number of ones of the 64-bit word, less 8 for every byte 0xFF in it.
pub bit1count-ones : (x : ℕ) → bit1count x + 8 * full_bytes 8 x ≡ ones 64 x
unfolding bit1count
bit1count-ones x = omega (arith, add_bytes-ones 8 x 0)
