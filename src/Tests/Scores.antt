-- ===== src/Tests/Scores.antt =====
-- Scores of the sample videos.
use video_match.Base.{◌≡◌, arith}
use video_match.Score.MarkBounds.{IsMarked, final_marks-IsMarked}
use video_match.Score.Range.{InUnit, check_candidate-InUnit}
use video_match.Score.SelfScore.{check_candidate_self}
use video_match.Score.{check_candidate, final_marks}
use video_match.Tests.Scaled.{scaled}
use video_match.Tests.{plain, cat_video, dog_video}

final_marks-IsMarked_example : IsMarked 4 2 (final_marks plain cat_video.frames dog_video.frames)
final_marks-IsMarked_example = final_marks-IsMarked plain cat_video.frames dog_video.frames

check_candidate-InUnit_example :
    InUnit scaled (check_candidate scaled plain cat_video.frames dog_video.frames)
check_candidate-InUnit_example =
    check_candidate-InUnit scaled plain cat_video.frames dog_video.frames (omega arith)
      (omega arith)

check_candidate_self_example : check_candidate scaled plain cat_video.frames cat_video.frames ≡ 100
check_candidate_self_example =
    check_candidate_self scaled plain cat_video.frames (omega arith) (omega arith)
