-- ===== src/VideoDb/Candidates.antt =====
-- `VideoDB::get_candidates1` of server/VideoDB.cpp: the items that share a non-empty frame with a
-- query and whose number of frames is not too far from the query's.
use video_match.Base.{
  ℕ, ◌*◌, Bool, ◌&&◌, ◌||◌, List, [], ◌∷◌, ◌++◌, Option, none, some, ◌==◌, ltb, if◌then◌else◌, set,
  length, ℤ,
}
use video_match.VideoDb.Index.{to_int, ◌>>=◌}
use video_match.VideoDb.Sets.{insert, insert_all}
use video_match.VideoDb.{
  empty_frame, Heap, item_at, KeyBlock, Table, VideoDb, key_shorten, find_block, inc_ref, Orders,
}

-- `for (i : *kb) if (i.first == k) result_set.insert(i.second);`
unfoldable pub scan_block : ℕ → KeyBlock → List ℕ → List ℕ
unfolding insert
scan_block k [] s = s
scan_block k (e ∷ kb) s = scan_block k kb (if e.0 == k then insert e.1 s else s)

unfoldable pub scan_frame : Table → ℕ → List ℕ → List ℕ
unfolding scan_block
scan_frame t k s =
    if k == empty_frame
    then s
    else elim (find_block (key_shorten k) t) [ none ↦ s | some kb ↦ scan_block k kb s ]

unfoldable pub scan_frames : Table → List ℕ → List ℕ → List ℕ
unfolding scan_frame
scan_frames t [] s = s
scan_frames t (k ∷ ks) s = scan_frames t ks (scan_frame t k s)

-- `u > 60 && (u > n * 1.5 || u * 1.5 < n)`, with both sides doubled: the products are exact.
unfoldable pub too_different : ℕ → ℕ → Bool
too_different u n = ltb 60 u && (ltb (3 * n) (2 * u) || ltb (3 * u) (2 * n))

-- The loop over the set: an item that is kept gets a reference and goes into the result.
unfoldable pub select : ℕ → Heap → List ℕ → List ℕ → Option (Heap × List ℕ)
unfolding too_different
select n h [] result = some (h, result)
select n h (p ∷ ps) result = do
  i ← item_at h p
  let skip = too_different i.uniq_frm_cnt n
  select n (if skip then h else set h p (some (inc_ref i))) ps
      (if skip then result else result ++ p ∷ [])

-- The returned size, `result`, and the database with the references taken.
unfoldable pub get_candidates1 : Orders → List ℕ → VideoDb → Option (ℤ × List ℕ × VideoDb)
unfolding scan_frames select
get_candidates1 orders frames v = do
  let unique_frames = insert_all [] frames
  let result_set = scan_frames v.table (orders.frames.arrange unique_frames) []
  (h, result) ← select (length unique_frames) v.heap (orders.items.arrange result_set) []
  some (to_int (length result), result, record v { heap = h })
