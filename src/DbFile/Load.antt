-- ===== src/DbFile/Load.antt =====
-- `VideoDB::Load` of server/VideoDB.cpp: the items of the file are entered, then indexed. `none` is
-- a read outside of the mapped file. The log file is mapped and unmapped again, and not read.
use video_match.Base.{
  ℕ, zero, suc, ◌+◌, ◌%◌, ◌^◌, List, [], ◌∷◌, ◌++◌, Option, none, some, ◌==◌, if◌then◌else◌, length,
  take, drop, map, Name, bytes_eq, ℤ, pos, pos_part, ◌+ℤ◌,
}
use video_match.DbFile.{ByteList, file_sig, read_le, read_text}
use video_match.VideoDb.Index.{to_int, ◌>>=◌, add_frames_to_index}
use video_match.VideoDb.{
  hsize_bits, DataItem, new_item, push_frame, Heap, Table, NameMap, VideoDb, key_shorten,
  insert_name, insert_block, Orders,
}

-- The bytes from the cursor `s` on.
abbrev pub bytes_from : ByteList → ℤ → Option ByteList
bytes_from file (pos offset) = some (drop offset file)
bytes_from file (ℤ.negsuc n) = none

-- `*(int*)s`
unfoldable pub read_int : ByteList → ℤ → Option ℤ
read_int file s = do bytes ← bytes_from file s; n ← read_le 4 bytes; some (to_int n)

-- `hslot_cnt[slot]++`, on the counters as a function.
unfoldable pub count_slot : ℕ → (ℕ → ℕ) → ℕ → ℕ
count_slot slot hslot_cnt i = if i == slot then (hslot_cnt i + 1) % 2 ^ 32 else hslot_cnt i

-- The loop over the frames of an item: the cursor, the item and the counters afterwards.
unfoldable pub load_frames : ByteList → ℕ → ℤ → DataItem → (ℕ → ℕ) → Option (ℤ × DataItem × (ℕ → ℕ))
unfolding count_slot
load_frames file zero s di hslot_cnt = some (s, di, hslot_cnt)
load_frames file (suc rounds) s di hslot_cnt = do
  bytes ← bytes_from file s
  hash ← read_le 8 bytes
  load_frames file rounds (s +ℤ pos 8) (push_frame hash di)
      (count_slot (key_shorten hash) hslot_cnt)

-- The cursor, the items made, `db_` and the counters.
pub record Loading : Type 0 where
  pub cursor : ℤ
  pub heap : Heap
  pub db : NameMap
  pub hslot_cnt : ℕ → ℕ

-- One round of the loop over the items.
unfoldable pub load_item : ByteList → Loading → Option Loading
unfolding read_int load_frames
load_item file l = do
  vnlen ← read_int file l.cursor
  let s = l.cursor +ℤ pos 4
  text ← bytes_from file s
  vn ← read_text text
  let s1 = s +ℤ (vnlen +ℤ pos 1)
  fc ← read_int file s1
  (s2, di, hslot_cnt) ← load_frames file (pos_part fc) (s1 +ℤ pos 4) (new_item vn) l.hslot_cnt
  some (record {
    cursor = s2;
    heap = l.heap ++ some di ∷ [];
    db = insert_name vn (length l.heap) l.db;
    hslot_cnt = hslot_cnt;
  })

unfoldable pub load_items : ByteList → ℕ → Loading → Option Loading
unfolding load_item
load_items file zero l = some l
load_items file (suc rounds) l = do l' ← load_item file l; load_items file rounds l'

-- An empty block for every slot that was counted, from slot `i` on.
unfoldable pub reserve : ℕ → ℕ → (ℕ → ℕ) → Table → Table
reserve zero i hslot_cnt t = t
reserve (suc rounds) i hslot_cnt t =
    reserve rounds (i + 1) hslot_cnt (if hslot_cnt i == 0 then t else insert_block i [] t)

unfoldable pub index_items : Orders → List ℕ → VideoDb → Option VideoDb
unfolding add_frames_to_index
index_items orders [] v = some v
index_items orders (p ∷ ps) v = do v' ← add_frames_to_index orders p v; index_items orders ps v'

-- The index that older files hold is read over: the cursor after one block of it, and after all.
unfoldable pub skip_entries : ByteList → ℕ → ℤ → Option ℤ
unfolding read_int
skip_entries file zero s = some s
skip_entries file (suc rounds) s = do
  bytes ← bytes_from file s
  hash ← read_le 8 bytes
  let s1 = s +ℤ pos 8
  vnlen ← read_int file s1
  let s2 = s1 +ℤ pos 4
  text ← bytes_from file s2
  vn ← read_text text
  skip_entries file rounds (s2 +ℤ (vnlen +ℤ pos 1))

unfoldable pub skip_blocks : ByteList → ℕ → ℤ → Option ℤ
unfolding skip_entries read_int
skip_blocks file zero s = some s
skip_blocks file (suc rounds) s = do
  kb_size ← read_int file (s +ℤ pos 4)
  s1 ← skip_entries file (pos_part kb_size) (s +ℤ pos 4 +ℤ pos 4)
  skip_blocks file rounds s1

-- The code and the database; `found` is the content of the file, if there is one.
unfoldable pub load : Orders → Option ByteList → VideoDb → Option (ℤ × VideoDb)
unfolding read_int load_items index_items skip_blocks
load orders none v = some (pos 0, v)
load orders (some file) v = do
  let s = if bytes_eq (take (length file_sig) file) file_sig then length file_sig else 0
  db_size ← read_int file (pos s)
  kb_num ← read_int file (pos (s + 4))
  l ←
      load_items file (pos_part db_size)
        (record { cursor = pos (s + 8); heap = v.heap; db = v.db; hslot_cnt = λ _. 0 })
  let table = reserve (2 ^ hsize_bits) 0 l.hslot_cnt v.table
  v' ←
      index_items orders (map (λ (e : Name × ℕ). e.1) (orders.names.arrange l.db))
        (record { heap = l.heap; db = l.db; table = table })
  s' ← skip_blocks file (pos_part kb_num) l.cursor
  some (pos 0, v')
