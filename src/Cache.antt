-- ===== src/Cache.antt =====
-- The class `VideoManager` of browse_server/main.cpp: a cache of unpacked videos. The items stand in
-- a doubly linked list, the one used last first, and in a map by name. Pointers are positions in a
-- heap; a result `none` is a fault.
pub mod Files
pub mod Paths
pub mod Listed
pub mod Chain
pub mod Writes
pub mod Names
pub mod Sizes
pub mod Holds
pub mod Trimming
pub mod Pushing
pub mod Moves
pub mod ToFront
pub mod Lru
pub mod Fetching
pub mod Refinement
pub mod Serving
use video_match.Base.{
  ℕ, zero, suc, ◌+◌, ◌%◌, ◌^◌, Bool, true, false, List, [], ◌∷◌, ◌++◌, Option, none, some, ◌==◌,
  ltb, if◌then◌else◌, get_or, set, length, Name, bytes_eq, ℤ, pos, negsuc, neg_part, not,
}
use video_match.Cache.Files.{ByteList, Frames, DirEntry, find_frame, read_files}
use video_match.VideoDb.Index.{◌>>=◌, to_int}
use video_match.VideoDb.{NameMap, find_name}

-- `VideoManager::DataItem`; `load` sets both links before any read.
pub record Item : Type 0 where
  pub name : Name
  pub frames : Frames
  pub size : ℕ
  pub prev : Option ℕ
  pub next : Option ℕ

abbrev pub Heap : Type 0
Heap = List (Option Item)

abbrev pub item_at : Heap → ℕ → Option Item
item_at h p = get_or h p none

pub record Manager : Type 0 where
  pub heap : Heap
  pub cache_size : ℕ
  pub head : Option ℕ
  pub tail : Option ℕ
  pub loaded : NameMap
  pub raw_path : List (Name × Name)

-- `VideoManager(cache_size)`
unfoldable pub new_manager : ℕ → Manager
new_manager cache_size = record {
  heap = [];
  cache_size = cache_size;
  head = none;
  tail = none;
  loaded = [];
  raw_path = [];
}

-- `p->prev_ = q` and `p->next_ = q`
unfoldable pub set_prev : ℕ → Option ℕ → Heap → Option Heap
set_prev p q h = do i ← item_at h p; some (set h p (some (record i { prev = q })))

unfoldable pub set_next : ℕ → Option ℕ → Heap → Option Heap
set_next p q h = do i ← item_at h p; some (set h p (some (record i { next = q })))

-- The same under `if (p)`.
abbrev pub if_there : (ℕ → Option ℕ → Heap → Option Heap) → Option ℕ → Option ℕ → Heap → Option Heap
if_there store none q h = some h
if_there store (some p) q h = store p q h

abbrev pub same_ptr : Option ℕ → Option ℕ → Bool
same_ptr none none = true
same_ptr none (some q) = false
same_ptr (some p) none = false
same_ptr (some p) (some q) = p == q

-- `data_.erase(name)` and `data_[name] = p`
unfoldable pub erase_name : Name → NameMap → NameMap
erase_name n [] = []
erase_name n (e ∷ db) = if bytes_eq e.0 n then erase_name n db else e ∷ erase_name n db

unfoldable pub assign_name : Name → ℕ → NameMap → NameMap
unfolding erase_name
assign_name n p db = (n, p) ∷ erase_name n db

-- `get_size()`, a 64-bit number
unfoldable pub sum_sizes : Heap → NameMap → Option ℕ
sum_sizes h [] = some 0
sum_sizes h (e ∷ db) = do i ← item_at h e.1; rest ← sum_sizes h db; some (i.size + rest)

unfoldable pub get_size : Manager → Option ℕ
unfolding sum_sizes
get_size m = do n ← sum_sizes m.heap m.loaded; some (n % 2 ^ 64)

-- The body of the loop of `check_cache_overflow`, for the item that `tail_` points to.
unfoldable pub evict : ℕ → Manager → Option Manager
unfolding set_next erase_name
evict di m = do
  item ← item_at m.heap di
  h ← if_there set_next item.prev none m.heap
  some (record m {
    heap = set h di none;
    head = if same_ptr m.head (some di) then none else m.head;
    tail = item.prev;
    loaded = erase_name item.name m.loaded;
  })

-- The loop; `none` also if the fuel runs out.
unfoldable pub trim : ℕ → Manager → Option Manager
unfolding get_size evict
trim zero m = none
trim (suc fuel) m = do
  size ← get_size m
  if ltb m.cache_size size
      then elim m.tail [ none ↦ some m | some di ↦ do m' ← evict di m; trim fuel m' ]
      else some m

-- `check_cache_overflow`: every round erases a name.
unfoldable pub check_cache_overflow : Manager → Option Manager
unfolding trim
check_cache_overflow m = trim (length m.loaded + 1) m

-- The end of `load`: the new item goes to the front.
unfoldable pub push_front : Name → Frames × ℕ → Manager → Option Manager
unfolding set_prev assign_name
push_front key files m = do
  let di = length m.heap
  let item : Item = record {
    name = key;
    frames = files.0;
    size = files.1;
    prev = none;
    next = m.head;
  }
  h ← if_there set_prev m.head (some di) (m.heap ++ some item ∷ [])
  some (record m {
    heap = h;
    head = some di;
    tail = elim m.tail [ none ↦ some di | some t ↦ some t ];
    loaded = assign_name key di m.loaded;
  })

-- `raw_path_.find(key)`
unfoldable pub find_path : Name → List (Name × Name) → Option Name
find_path key [] = none
find_path key (e ∷ paths) = if bytes_eq e.0 key then some e.1 else find_path key paths

-- What unpacking a video leaves in a fresh directory; `none` if that cannot be made.
abbrev pub Unpacked : Type 0
Unpacked = Name → Option (List DirEntry)

unfoldable pub load : Unpacked → Name → Manager → Option (ℤ × Manager)
unfolding find_path read_files push_front check_cache_overflow
load unpack key m = elim (find_path key m.raw_path) [
  | none ↦ some (negsuc 0, m)
  | some path ↦ elim (unpack path) [
    | none ↦ some (negsuc 0, m)
    | some entries ↦ do
      files ← read_files entries ([], 0)
      m1 ← push_front key files m
      m2 ← check_cache_overflow m1
      some (pos 0, m2)
  ]
]

abbrev pub is_negative : ℤ → Bool
is_negative code = not (neg_part code == 0)

-- The start of `Lookup` and `LookupSize`: the iterator of the video, or that there is none.
unfoldable pub find_or_load : Unpacked → Name → Manager → Option (Option ℕ × Manager)
unfolding load
find_or_load unpack vname m = elim (find_name vname m.loaded) [
  | some p ↦ some (some p, m)
  | none ↦ do
    (code, m') ← load unpack vname m
    if is_negative code
        then some (none, m')
        else do p ← find_name vname m'.loaded; some (some p, m')
]

-- The rest of `LookupSize`, from the iterator on.
unfoldable pub frames_at : Option ℕ × Manager → Option (ℤ × Manager)
frames_at (none, m) = some (negsuc 0, m)
frames_at (some p, m) = do i ← item_at m.heap p; some (to_int (length i.frames), m)

unfoldable pub lookup_size : Unpacked → Name → Manager → Option (ℤ × Manager)
unfolding find_or_load frames_at
lookup_size unpack vname m = do r ← find_or_load unpack vname m; frames_at r

-- "Move To Front"
unfoldable pub move_to_front : ℕ → Manager → Option Manager
unfolding set_prev set_next
move_to_front di m = if same_ptr (some di) m.head then some m else do
  item ← item_at m.heap di
  let tail = if same_ptr (some di) m.tail then item.prev else m.tail
  h1 ← if_there set_prev item.next item.prev m.heap
  h2 ← if_there set_next item.prev item.next h1
  h3 ← set_prev di none h2
  h4 ← set_next di m.head h3
  head ← m.head
  h5 ← set_prev head (some di) h4
  some (record m {
    heap = h5;
    head = some di;
    tail = elim tail [ none ↦ some di | some t ↦ some t ];
  })

-- The rest of `Lookup`: the code, `content` and the manager afterwards.
unfoldable pub picture_at : ℤ → ByteList → Option ℕ × Manager → Option (ℤ × ByteList × Manager)
unfolding move_to_front
picture_at frameid content (none, m) = some (negsuc 0, content, m)
picture_at frameid content (some di, m) = do
  m' ← move_to_front di m
  item ← item_at m'.heap di
  elim (find_frame frameid item.frames) [
    | none ↦ some (negsuc 0, content, m')
    | some picture ↦ some (pos 0, picture, m')
  ]

unfoldable pub lookup : Unpacked → Name → ℤ → ByteList → Manager → Option (ℤ × ByteList × Manager)
unfolding find_or_load picture_at
lookup unpack vname frameid content m = do
  r ← find_or_load unpack vname m
  picture_at frameid content r
