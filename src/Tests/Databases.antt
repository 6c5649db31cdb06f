-- ===== src/Tests/Databases.antt =====
-- The database at two videos.
use video_match.Base.{ℕ, ◌≡◌, refl, List, [], ◌∷◌, some, ℤ, pos}
use video_match.Tests.{
  plain_orders, cat_video, dog_video, with_cat, with_cat-IsValid, sample_db, sample_db-IsValid,
}
use video_match.VideoDb.Adding.{after_add}
use video_match.VideoDb.Index.{query_name, frames_count, index_frames, collect}
use video_match.VideoDb.Matching.{Finds, get_candidates1-Finds}
use video_match.VideoDb.Refinement.{
  Adds, add-Adds, add_each, add_each-content, add_videos, empty_db, empty_db-IsValid,
  query_name-view, query_answer,
}
use video_match.VideoDb.Valid.{IsValid, view}
use video_match.VideoDb.{VideoDb, find_block, push_back, insert_block, key_shorten}

-- Three different non-empty frames are stored.
three_frames : frames_count sample_db ≡ pos 3
unfolding frames_count after_add index_frames collect find_block push_back insert_block key_shorten
three_frames = refl

add-Adds_example : (r : ℤ × VideoDb) × Adds plain_orders dog_video with_cat r
add-Adds_example = add-Adds plain_orders dog_video with_cat with_cat-IsValid

add_each-content_example :
    (v : VideoDb) × (add_each plain_orders (cat_video ∷ dog_video ∷ cat_video ∷ []) empty_db
      ≡ some v)
    × IsValid v
    × (view v ≡ add_videos (cat_video ∷ dog_video ∷ cat_video ∷ []) (view empty_db))
add_each-content_example =
    add_each-content plain_orders (cat_video ∷ dog_video ∷ cat_video ∷ []) empty_db empty_db-IsValid

query_name-view_example :
    query_name cat_video.name dog_video sample_db
    ≡ some (query_answer cat_video.name dog_video (view sample_db cat_video.name))
query_name-view_example = query_name-view cat_video.name dog_video sample_db sample_db-IsValid

get_candidates1-Finds_example :
    (r : ℤ × List ℕ × VideoDb) × Finds plain_orders (0 ∷ 0x7777_0000_0000_0003 ∷ []) sample_db r
get_candidates1-Finds_example =
    get_candidates1-Finds plain_orders (0 ∷ 0x7777_0000_0000_0003 ∷ []) sample_db sample_db-IsValid
