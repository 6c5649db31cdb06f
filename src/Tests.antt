-- ===== src/Tests.antt =====
-- Data for the tests: an order of the hash containers, two videos and the database that holds them.
pub mod Scaled
mod BitCounts
mod Browsing
mod Clients
mod Connections
mod Databases
mod Files
mod Grids
mod Handlers
mod Scores
mod Servers
mod Pictures
mod Pools
mod Queries
mod Requests
use video_match.Base.{ℕ, ◌≡◌, refl, false, List, [], ◌∷◌, none, pos, Name, bytes_eq}
use video_match.VideoDb.Adding.{after_add, after_add-IsValid}
use video_match.VideoDb.Refinement.{empty_db, empty_db-IsValid}
use video_match.VideoDb.Valid.{IsValid}
use video_match.VideoDb.{DataItem, VideoDb, HashOrder, Orders, find_name, new_item}

abbrev plain : {A : Type 0} → HashOrder A
plain = record { arrange = λ xs. xs; arrange-count_if = λ p xs. refl }

abbrev plain_orders : Orders
plain_orders = record { frames = plain; items = plain; names = plain }

abbrev item_of : Name → List ℕ → DataItem
item_of n fs = record { uniq_frm_cnt = 0; name = n; frames = fs; ref = pos 0; deleted = false }

-- Two videos; both have the empty frame, and one frame stands twice in the first.
abbrev cat_video : DataItem
cat_video =
    item_of (b'c' ∷ b'a' ∷ b't' ∷ [])
      (0x5000_0000_0001 ∷ 0 ∷ 0x5000_0000_0001 ∷ 0xabcd_0000_0000_0002 ∷ [])

abbrev dog_video : DataItem
dog_video = item_of (b'd' ∷ b'o' ∷ b'g' ∷ []) (0 ∷ 0x7777_0000_0000_0003 ∷ [])

abbrev with_cat : VideoDb
with_cat = after_add plain_orders cat_video empty_db

with_cat-IsValid : IsValid with_cat
unfolding find_name
with_cat-IsValid = after_add-IsValid plain_orders cat_video empty_db empty_db-IsValid refl

abbrev sample_db : VideoDb
sample_db = after_add plain_orders dog_video with_cat

sample_db-IsValid : IsValid sample_db
unfolding find_name after_add bytes_eq
sample_db-IsValid = after_add-IsValid plain_orders dog_video with_cat with_cat-IsValid refl
