-- ===== src/Tests/Queries.antt =====
-- A query against two videos.
use video_match.Base.{◌≡◌, some, ℤ}
use video_match.Query.Matches.{Lists, query_frames-Lists}
use video_match.Query.{Scores, query_frames}
use video_match.Tests.Scaled.{scaled}
use video_match.Tests.{plain, plain_orders, dog_video, sample_db, sample_db-IsValid}
use video_match.VideoDb.{VideoDb}

query_frames-Lists_example :
    (r : ℤ × Scores scaled × VideoDb) × (query_frames scaled plain plain_orders dog_video sample_db
      ≡ some r)
    × Lists scaled plain dog_video.frames plain_orders sample_db r
query_frames-Lists_example =
    query_frames-Lists scaled plain plain_orders dog_video sample_db sample_db-IsValid
