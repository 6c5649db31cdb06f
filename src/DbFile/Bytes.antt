-- ===== src/DbFile/Bytes.antt =====
-- Reading back what was laid down as bytes.
use video_match.Base.{
  ℕ, zero, suc, ◌+◌, ◌/◌, ◌==◌, ◌^◌, ◌<◌, ◌≡◌, refl, false, [], ◌∷◌, ◌++◌, some, drop, drop-drop,
  drop-append, length, arith, Name, member, ap, ◌∙◌,
}
use video_match.DbFile.{ByteList, le_bytes, read_le, read_text}

pub length-le_bytes : (width n : ℕ) → length (le_bytes width n) ≡ width
unfolding le_bytes
length-le_bytes zero n = refl
length-le_bytes (suc width) n = ap suc (length-le_bytes width (n / 256))

-- A number that fits is read back, whatever follows it.
pub read_le-le_bytes :
    (width n : ℕ) (rest : ByteList)
    → n < 256 ^ width
    → read_le width (le_bytes width n ++ rest) ≡ some n
unfolding read_le le_bytes
read_le-le_bytes zero n rest h = ground arith
read_le-le_bytes (suc width) n rest h =
    let less : n / 256 < 256 ^ width = omega arith in
    rw (read_le-le_bytes width (n / 256) rest less) (ground arith)

-- A text without zeros is read back.
pub read_text-append :
    (n : Name) (rest : ByteList) → member 0 n ≡ false → read_text (n ++ 0 ∷ rest) ≡ some n
unfolding read_text
read_text-append [] rest h = refl
read_text-append (b ∷ n) rest h =
    let clean : member 0 n ≡ false = ground (arith, h) in
    let other : (b == 0) ≡ false = ground (arith, h) in
    rw (other, read_text-append n rest clean) refl

-- Once the bytes at an offset are known, so are those behind them.
pub drop_past :
    (file bytes rest : ByteList) (offset : ℕ)
    → drop offset file ≡ bytes ++ rest
    → drop (offset + length bytes) file ≡ rest
drop_past file bytes rest offset h =
    drop-drop offset (length bytes) file ∙ ap (drop (length bytes)) h ∙ drop-append bytes rest
