-- ===== src/VideoDb.antt =====
-- The data of server/VideoDB.hpp and the operations on it that every method of `VideoDB` uses:
-- items, the heap that pointers lead into, the map of names and the table of key blocks.
pub mod Sets
pub mod Walks
pub mod Index
pub mod Blocks
pub mod Valid
pub mod Adding
pub mod Refinement
pub mod Candidates
pub mod Matching
pub mod References
use video_match.Base.{
  ℕ, ◌+◌, ◌-◌, ◌*◌, ◌/◌, ◌%◌, ◌^◌, ◌≡◌, Bool, true, false, ◌&&◌, List, [], ◌∷◌, ◌++◌, Option, none,
  some, ◌==◌, if◌then◌else◌, get_or, set, length, count_if, Name, bytes_eq, ℤ, pos, ◌+ℤ◌, ◌-ℤ◌,
}

-- `static const uint64_t EMPTY_FRAME = 0`
abbrev pub empty_frame : ℕ
empty_frame = 0

-- `HSIZE_BITS`
abbrev pub hsize_bits : ℕ
hsize_bits = 20

-- `VideoDB::DataItem`. The count of an item is written by `add_frames_to_index` before any read.
pub record DataItem : Type 0 where
  pub uniq_frm_cnt : ℕ
  pub name : Name
  pub frames : List ℕ
  pub ref : ℤ
  pub deleted : Bool

unfoldable pub new_item : Name → DataItem
new_item n = record { uniq_frm_cnt = 0; name = n; frames = []; ref = pos 0; deleted = false }

-- `DataItem::Push`
unfoldable pub push_frame : ℕ → DataItem → DataItem
push_frame frame d = record d { frames = d.frames ++ frame ∷ [] }

-- The copy constructor: the name and the frames are taken over, the count is not.
unfoldable pub copy_item : DataItem → DataItem
copy_item d = record {
  uniq_frm_cnt = 0;
  name = d.name;
  frames = d.frames;
  ref = pos 0;
  deleted = false;
}

-- `operator=` into an existing item
unfoldable pub assign_item : DataItem → DataItem → DataItem
assign_item self d = record self { name = d.name; frames = d.frames; ref = pos 0; deleted = false }

unfoldable pub inc_ref : DataItem → DataItem
inc_ref d = record d { ref = d.ref +ℤ pos 1 }

abbrev pub is_zero : ℤ → Bool
is_zero (pos n) = n == 0
is_zero (ℤ.negsuc n) = false

-- `none` is `delete this`.
unfoldable pub dec_ref : DataItem → Option DataItem
dec_ref d =
    let left = d.ref -ℤ pos 1 in
    if is_zero left && d.deleted then none else some (record d { ref = left })

-- `DataItem::destroy`, which nothing calls yet: it marks the item, and deletes it where no
-- reference is left.
unfoldable pub destroy : DataItem → Option DataItem
destroy d = if is_zero d.ref then none else some (record d { deleted = true })

-- A `DataItem*` is an index into the heap; `none` in a cell is freed memory.
abbrev pub Heap : Type 0
Heap = List (Option DataItem)

abbrev pub item_at : Heap → ℕ → Option DataItem
item_at h p = get_or h p none

-- `KeyBlock`: frames with the item that they come from.
abbrev pub KeyBlock : Type 0
KeyBlock = List (ℕ × ℕ)

abbrev pub Table : Type 0
Table = List (ℕ × KeyBlock)

abbrev pub NameMap : Type 0
NameMap = List (Name × ℕ)

-- The fields `db_` and `table_`, and the heap that the pointers in them lead into.
pub record VideoDb : Type 0 where
  pub heap : Heap
  pub db : NameMap
  pub table : Table

-- `raw >> (64 - HSIZE_BITS)` of a 64-bit word, as a 32-bit number
unfoldable pub key_shorten : ℕ → ℕ
key_shorten raw = raw / 2 ^ (64 - hsize_bits) % 2 ^ 32

-- `db_.find(name)`
unfoldable pub find_name : Name → NameMap → Option ℕ
find_name n [] = none
find_name n ((m, p) ∷ db) = if bytes_eq m n then some p else find_name n db

-- `db_.insert(make_pair(n, p))`: no effect if the name is there.
unfoldable pub insert_name : Name → ℕ → NameMap → NameMap
insert_name n p db = elim (find_name n db) [ none ↦ (n, p) ∷ db | some _ ↦ db ]

-- `table_.find(slot)`
unfoldable pub find_block : ℕ → Table → Option KeyBlock
find_block slot [] = none
find_block slot ((s, kb) ∷ t) = if s == slot then some kb else find_block slot t

-- `table_.insert(make_pair(slot, kb))`
unfoldable pub insert_block : ℕ → KeyBlock → Table → Table
insert_block slot kb t = elim (find_block slot t) [ none ↦ (slot, kb) ∷ t | some _ ↦ t ]

-- `kb->push_back(e)` through the pointer that the table holds for the slot
unfoldable pub push_back : ℕ → ℕ × ℕ → Table → Table
push_back slot e [] = []
push_back slot e ((s, kb) ∷ t) =
    if s == slot then (s, kb ++ e ∷ []) ∷ t else (s, kb) ∷ push_back slot e t

-- The order in which a hash container is walked is the standard library's: each element comes
-- once, and nothing else is known.
pub record HashOrder (A : Type 0) : Type 0 where
  pub arrange : List A → List A
  pub arrange-count_if : (p : A → Bool) (xs : List A) → count_if p (arrange xs) ≡ count_if p xs

-- The orders of the sets of frames, the set of candidates and the map of names.
pub record Orders : Type 0 where
  pub frames : HashOrder ℕ
  pub items : HashOrder ℕ
  pub names : HashOrder (Name × ℕ)
