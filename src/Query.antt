-- ===== src/Query.antt =====
-- `VideoDB::Query` by frames of server/VideoDB.cpp: the candidates are scored one by one, the good
-- ones are kept and ranked.
pub mod Ranking
pub mod Loop
pub mod Matches
pub mod Own
use video_match.Base.{
  ℕ, List, [], ◌∷◌, ◌++◌, Option, none, some, if◌then◌else◌, set, length, Name, ℤ,
}
use video_match.Score.Floats.{Double}
use video_match.Score.{check_candidate}
use video_match.VideoDb.Candidates.{get_candidates1}
use video_match.VideoDb.Index.{to_int, ◌>>=◌}
use video_match.VideoDb.{DataItem, Heap, item_at, VideoDb, dec_ref, HashOrder, Orders}

module _ (F : Double) where
  open F use {Num, hundredths, less}

  -- `static const double threshold = 0.09`
  abbrev pub threshold : Num
  threshold = hundredths 9

  abbrev pub Scores : Type 0
  Scores = List (Name × Num)

  -- The loop over the candidates: score, keep if above the threshold, drop the reference.
  unfoldable pub score_each : HashOrder ℕ → List ℕ → List ℕ → Heap → Scores → Option (Heap × Scores)
  score_each order q [] h result = some (h, result)
  score_each order q (p ∷ ps) h result = do
    i ← item_at h p
    let score = check_candidate F order i.frames q
    score_each order q ps (set h p (dec_ref i))
        (if less threshold score then result ++ (i.name, score) ∷ [] else result)

  -- `sort` by falling score. The place of equal scores is the library's; here they keep the order
  -- in which they came.
  unfoldable pub insert_ranked : Name × Num → Scores → Scores
  insert_ranked e [] = e ∷ []
  insert_ranked e (x ∷ xs) = if less x.1 e.1 then e ∷ x ∷ xs else x ∷ insert_ranked e xs

  unfoldable pub rank_onto : Scores → Scores → Scores
  unfolding insert_ranked
  rank_onto done [] = done
  rank_onto done (e ∷ es) = rank_onto (insert_ranked e done) es

  -- The returned size, `result` and the database afterwards.
  unfoldable pub query_frames :
      HashOrder ℕ → Orders → DataItem → VideoDb → Option (ℤ × Scores × VideoDb)
  unfolding score_each rank_onto
  query_frames order orders data_item v = do
    (cand_num, candidates, v') ← get_candidates1 orders data_item.frames v
    (h, found) ← score_each order data_item.frames candidates v'.heap []
    let result = rank_onto [] found
    some (to_int (length result), result, record v' { heap = h })
