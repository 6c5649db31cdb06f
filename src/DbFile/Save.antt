-- ===== src/DbFile/Save.antt =====
-- `VideoDB::Save` of server/VideoDB.cpp: the items go through a block of 8192 bytes into a file.
-- The result names the blocks given to `write`; `none` is a store past the end of the block.
use video_match.Base.{
  ℕ, ◌+◌, ◌-◌, Bool, false, not, List, [], ◌∷◌, ◌++◌, Option, none, some, ltb, if◌then◌else◌, set,
  length, Name, ℤ, pos, negsuc,
}
use video_match.DbFile.{ByteList, file_sig, le_bytes}
use video_match.VideoDb.Index.{to_int, ◌>>=◌}
use video_match.VideoDb.{Heap, item_at, NameMap, VideoDb, inc_ref, dec_ref, Orders}

-- `BS`
abbrev pub block_size : ℕ
block_size = 8192

-- `block` up to `s`, and the blocks written so far.
pub record Writer : Type 0 where
  pub block : ByteList
  pub written : List ByteList

abbrev pub below_int : ℕ → ℤ → Bool
below_int a (pos n) = ltb a n
below_int a (negsuc n) = false

-- `check_flush(i)`: a failed `write` is logged and nothing else.
unfoldable pub check_flush : ℕ → Writer → Writer
check_flush i w =
    if below_int (block_size - length w.block) (to_int i)
    then record { block = []; written = w.written ++ w.block ∷ [] }
    else w

-- Stores at `s`, which moves on.
unfoldable pub put : ByteList → Writer → Option Writer
put bytes w =
    if ltb block_size (length w.block + length bytes)
    then none
    else some (record w { block = w.block ++ bytes })

unfoldable pub put_frames : List ℕ → Writer → Option Writer
unfolding put check_flush
put_frames [] w = some w
put_frames (f ∷ fs) w = do w' ← put (le_bytes 8 f) (check_flush 8 w); put_frames fs w'

-- One round of the loop over `db_`.
unfoldable pub save_item : Name → ℕ → Heap → Writer → Option (Heap × Writer)
unfolding put_frames
save_item n p h w = do
  i ← item_at h p
  let h1 = set h p (some (inc_ref i))
  w1 ←
      put (le_bytes 4 (length n) ++ (n ++ 0 ∷ le_bytes 4 (length i.frames)))
        (check_flush (4 + length n + 1 + 4) w)
  w2 ← put_frames i.frames w1
  j ← item_at h1 p
  some (set h1 p (dec_ref j), w2)

unfoldable pub save_items : NameMap → Heap → Writer → Option (Heap × Writer)
unfolding save_item
save_items [] h w = some (h, w)
save_items ((n, p) ∷ db) h w = do (h', w') ← save_item n p h w; save_items db h' w'

-- The code, the blocks and the database; `opened` says whether the temporary file could be opened.
unfoldable pub save : Orders → Bool → VideoDb → Option (ℤ × List ByteList × VideoDb)
unfolding save_items
save orders opened v = if not opened then some (negsuc 0, [], v) else do
  w ←
      put (file_sig ++ (le_bytes 4 (length v.db) ++ le_bytes 4 0))
        (record { block = []; written = [] })
  (h, w') ← save_items (orders.names.arrange v.db) v.heap w
  let done = check_flush (block_size + 1) w'
  some (pos 0, done.written, record v { heap = h })
