-- ===== src/VideoDb/Index.antt =====
-- `VideoDB::add_frames_to_index`, `Add`, `Query` by name, `Remove` and the counters of
-- server/VideoDB.cpp. `none` is a fault: a read through a freed or dangling pointer.
use video_match.Base.{
  ℕ, ◌+◌, ◌-◌, ◌%◌, ◌^◌, ◌<◌, ◌≡◌, arith, ltb, List, [], ◌∷◌, ◌++◌, Option, none, some, ◌==◌,
  if◌then◌else◌, set, length, Name, ℤ, pos, negsuc,
}
use video_match.VideoDb.Sets.{insert}
use video_match.VideoDb.{
  empty_frame, DataItem, copy_item, assign_item, item_at, Table, VideoDb, key_shorten, find_name,
  insert_name, find_block, insert_block, push_back, Orders,
}

infixl 5 ◌>>=◌
abbrev pub ◌>>=◌ : {A B : Type 0} → Option A → (A → Option B) → Option B
none >>= f = none
some a >>= f = f a

-- The first loop of `add_frames_to_index`: every frame but the empty one goes into the set.
unfoldable pub collect : List ℕ → List ℕ → List ℕ
unfolding insert
collect s [] = s
collect s (k ∷ ks) = collect (if k == empty_frame then s else insert k s) ks

-- One round of the second loop: `table_` gets a block for the slot if it has none, and the block
-- gets the pair.
unfoldable pub index_frame : ℕ → Table → ℕ → Table
index_frame di t k =
    let k2 = key_shorten k in
    elim (find_block k2 t) [
      | none ↦ push_back k2 (k, di) (insert_block k2 [] t)
      | some _ ↦ push_back k2 (k, di) t
    ]

unfoldable pub index_frames : ℕ → Table → List ℕ → Table
unfolding index_frame
index_frames di t [] = t
index_frames di t (k ∷ ks) = index_frames di (index_frame di t k) ks

-- The sum of the sizes of all blocks.
unfoldable pub total_size : Table → ℕ
total_size [] = 0
total_size ((_, kb) ∷ t) = length kb + total_size t

-- An `int` made of a number that need not fit: its low 32 bits, in two's complement.
unfoldable pub to_int : ℕ → ℤ
to_int n = let low = n % 2 ^ 32 in if ltb low (2 ^ 31) then pos low else negsuc (2 ^ 32 - low - 1)

pub to_int_small : (n : ℕ) → n < 2 ^ 31 → to_int n ≡ pos n
unfolding to_int
to_int_small n h = ground (arith, h)

module _ (orders : Orders) where
  unfoldable pub add_frames_to_index : ℕ → VideoDb → Option VideoDb
  unfolding collect index_frames
  add_frames_to_index di v = do
    item ← item_at v.heap di
    let unique_frames = collect [] item.frames
    let counted = record item { uniq_frm_cnt = length unique_frames }
    some (record v {
      heap = set v.heap di (some counted);
      table = index_frames di v.table (orders.frames.arrange unique_frames);
    })

  -- `Add`: -1 if the name is taken; otherwise a new item, its name and its frames are entered.
  unfoldable pub add : DataItem → VideoDb → Option (ℤ × VideoDb)
  unfolding add_frames_to_index
  add data_item v = elim (find_name data_item.name v.db) [
    | some _ ↦ some (negsuc 0, v)
    | none ↦ do
      let di = length v.heap
      let item = copy_item data_item
      v' ←
          add_frames_to_index di
            (record v { heap = v.heap ++ some item ∷ []; db = insert_name item.name di v.db })
      some (pos 0, v')
  ]

-- `Query(video_name, data_item)`: the code, and what `data_item` is afterwards.
unfoldable pub query_name : Name → DataItem → VideoDb → Option (ℤ × DataItem)
query_name video_name data_item v = elim (find_name video_name v.db) [
  | none ↦ some (negsuc 0, data_item)
  | some p ↦ do item ← item_at v.heap p; some (pos 0, assign_item data_item item)
]

-- `Remove` is not implemented: it returns 0 and changes nothing.
unfoldable pub remove : Name → VideoDb → ℤ × VideoDb
remove video_name v = (pos 0, v)

unfoldable pub video_count : VideoDb → ℤ
unfolding to_int
video_count v = to_int (length v.db)

unfoldable pub frames_count : VideoDb → ℤ
unfolding total_size to_int
frames_count v = to_int (total_size v.table)

unfoldable pub frame_table_size : VideoDb → ℤ
unfolding to_int
frame_table_size v = to_int (length v.table)
