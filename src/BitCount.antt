-- ===== src/BitCount.antt =====
-- The bit counting of server/VideoDB.cpp (its anonymous namespace, `diff_bits` and
-- `min_diff_bits`): a table of the number of ones in a byte, and the sum over eight bytes.
pub mod Laws
pub mod Digits
pub mod Xor
pub mod Nearest
use Prim.Native.Nat.{bit_and, bit_xor}
use video_match.Base.{
  ℕ, zero, suc, ◌+◌, ◌-◌, ◌/◌, ◌%◌, List, ◌==◌, ltb, get_or, set, replicate, if◌then◌else◌,
}

-- The inner loop of `make_bit1_table`: `if (k & 0x1) count++; k >>= 1;`, `rounds` times.
unfoldable pub count_ones : ℕ → ℕ → ℕ → ℕ
count_ones zero k count = count
count_ones (suc rounds) k count =
    count_ones rounds (k / 2) (if bit_and k 1 == 0 then count else count + 1)

-- The outer loop, from `i` for `rounds` values.
unfoldable pub fill_table : ℕ → ℕ → List ℕ → List ℕ
fill_table zero i table = table
fill_table (suc rounds) i table = fill_table rounds (i + 1) (set table i (count_ones 8 i 0))

-- `for (i = 0; i < 255; i++)`: entry 255 is not written.
unfoldable pub make_bit1_table : List ℕ → List ℕ
unfolding fill_table count_ones
make_bit1_table table = fill_table 255 0 table

-- The static array is zero before the table is made.
unfoldable pub bit1_table : List ℕ
unfolding make_bit1_table
bit1_table = make_bit1_table (replicate 256 0)

-- `ret += bit1_table[c[i]]` over the bytes of the word, lowest first.
unfoldable pub add_bytes : ℕ → ℕ → ℕ → ℕ
add_bytes zero i ret = ret
add_bytes (suc rounds) i ret = add_bytes rounds (i / 256) (ret + get_or bit1_table (i % 256) 0)

unfoldable pub bit1count : ℕ → ℕ
unfolding add_bytes
bit1count i = add_bytes 8 i 0

unfoldable pub diff_bits : ℕ → ℕ → ℕ
diff_bits key1 key2 = bit1count (bit_xor key1 key2)

-- The scan of `min_diff_bits` over the frames from position `i` on: the least difference so far
-- and its position.
unfoldable pub min_diff_from : ℕ → List ℕ → ℕ → ℕ → ℕ → ℕ → ℕ × ℕ
min_diff_from key base i zero md pos = (md, pos)
min_diff_from key base i (suc rounds) md pos =
    let d = bit1count (bit_xor key (get_or base i 0)) in
    let rest = min_diff_from key base (i + 1) rounds d i in
    let same = min_diff_from key base (i + 1) rounds md pos in if ltb d md then rest else same

-- `min_diff_bits(key, base, start, end, pos)`: the difference and the new value of `pos`.
unfoldable pub min_diff_bits : ℕ → List ℕ → ℕ → ℕ → ℕ → ℕ × ℕ
unfolding min_diff_from
min_diff_bits key base start end pos = min_diff_from key base start (end - start) 64 pos
