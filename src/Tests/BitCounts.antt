-- ===== src/Tests/BitCounts.antt =====
-- The bit counts at sample frames.
use Prim.Native.Nat.{bit_xor}
use video_match.Base.{ℕ, ◌+◌, ◌*◌, ◌≤◌, ◌≡◌, refl, List, [], ◌∷◌}
use video_match.BitCount.Laws.{ones, full_bytes}
use video_match.BitCount.Nearest.{Nearest, min_diff_bits-Nearest}
use video_match.BitCount.Xor.{diff_bits-ones}
use video_match.BitCount.{bit1_table, bit1count, diff_bits, min_diff_bits}

-- Two frames that differ in all eight bits of one byte count as equal.
whole_byte : diff_bits 0x12ff 0x1200 ≡ 0
unfolding diff_bits bit1count bit1_table
whole_byte = refl

three_bits : diff_bits 0x1234 0x1230 + diff_bits 0 0x3 ≡ 3
unfolding diff_bits bit1count bit1_table
three_bits = refl

diff_bits-ones_example :
    (diff_bits 0x12ff 0x1200 + 8 * full_bytes 8 (bit_xor 0x12ff 0x1200)
      ≡ ones 64 (bit_xor 0x12ff 0x1200))
    × (diff_bits 0x12ff 0x1200 ≤ 64)
    × (diff_bits 0x12ff 0x1200 ≡ diff_bits 0x1200 0x12ff)
    × (diff_bits 0x12ff 0x12ff ≡ 0)
diff_bits-ones_example = diff_bits-ones 0x12ff 0x1200

abbrev base_frames : List ℕ
base_frames = 0xf0f0 ∷ 0x1236 ∷ 0x1235 ∷ []

nearest_found : min_diff_bits 0x1234 base_frames 0 3 0 ≡ (1, 1)
unfolding min_diff_bits bit1count bit1_table
nearest_found = refl

min_diff_bits-Nearest_example :
    Nearest 0x1234 base_frames 0 3 64 0 (min_diff_bits 0x1234 base_frames 0 3 0)
min_diff_bits-Nearest_example = min_diff_bits-Nearest 0x1234 base_frames 0 3 0
