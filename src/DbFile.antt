-- ===== src/DbFile.antt =====
-- The file of `VideoDB::Save` and `VideoDB::Load` of server/VideoDB.cpp: the numbers and texts in it
-- as bytes.
pub mod Save
pub mod Load
pub mod Bytes
pub mod Written
pub mod Saving
pub mod Reading
pub mod Loading
pub mod Restored
pub mod RoundTrip
pub mod Fresh
pub mod Indexing
pub mod Ready
use video_match.Base.{
  ℕ, zero, suc, ◌+◌, ◌*◌, ◌/◌, ◌%◌, List, [], ◌∷◌, ◌++◌, Option, none, some, ◌==◌, if◌then◌else◌,
  Name, length,
}
use video_match.VideoDb.Index.{◌>>=◌}

abbrev pub ByteList : Type 0
ByteList = List ℕ

-- `FILE_SIG`
abbrev pub file_sig : ByteList
file_sig =
    b'V' ∷ b'i' ∷ b'd' ∷ b'e' ∷ b'o' ∷ b'D' ∷ b'B' ∷ b'F' ∷ b'i' ∷ b'l' ∷ b'e' ∷ b'V' ∷ b'1' ∷ []

-- The lowest `width` bytes of a number, as a store through `int*` or `uint64_t*` lays them down.
unfoldable pub le_bytes : ℕ → ℕ → ByteList
le_bytes zero n = []
le_bytes (suc width) n = n % 256 ∷ le_bytes width (n / 256)

-- The load of so many bytes; `none` is a read past the end.
unfoldable pub read_le : ℕ → ByteList → Option ℕ
read_le zero bytes = some 0
read_le (suc width) [] = none
read_le (suc width) (b ∷ bytes) = do n ← read_le width bytes; some (b + 256 * n)

-- `string(s)`: the bytes up to the first zero.
unfoldable pub read_text : ByteList → Option Name
read_text [] = none
read_text (b ∷ bytes) =
    let more = read_text bytes in if b == 0 then some [] else do n ← more; some (b ∷ n)

-- A video in the file: the name with its length and a zero, the frames with their number.
abbrev pub frame_bytes : List ℕ → ByteList
frame_bytes [] = []
frame_bytes (f ∷ fs) = le_bytes 8 f ++ frame_bytes fs

abbrev pub item_head : Name → List ℕ → ByteList
item_head n fs = le_bytes 4 (length n) ++ (n ++ 0 ∷ le_bytes 4 (length fs))

-- The start of the file: the signature, the number of videos, and a zero for the index.
abbrev pub file_head : ℕ → ByteList
file_head videos = file_sig ++ (le_bytes 4 videos ++ le_bytes 4 0)

abbrev pub item_bytes : List (Name × List ℕ) → ByteList
item_bytes [] = []
item_bytes ((n, fs) ∷ items) = item_head n fs ++ frame_bytes fs ++ item_bytes items
