-- ===== src/Requests.antt =====
-- server/RequestProcessor.cpp: requests and replies around the database. A result `none` is a fault
-- of the database; a reply `none` is an exception of the JSON library that leaves the function.
pub mod Library
pub mod Content
pub mod SelfQuery
use video_match.Base.{
  ℕ, zero, suc, ◌+◌, Bool, true, false, ◌&&◌, not, List, [], ◌∷◌, ◌++◌, Option, none, some,
  if◌then◌else◌, take, Name, bytes_of, bytes_eq, ℤ, pos, negsuc, neg_part, pos_part, ◌==◌,
}
use video_match.DbFile.{ByteList}
use video_match.DbFile.Save.{save}
use video_match.Query.{Scores, query_frames}
use video_match.Requests.Library.{Json}
use video_match.Score.Floats.{Double}
use video_match.Text.{c_str}
use video_match.VideoDb.Index.{
  to_int, ◌>>=◌, add, query_name, video_count, frames_count, frame_table_size,
}
use video_match.VideoDb.{DataItem, new_item, push_frame, VideoDb, HashOrder, Orders}

abbrev pub Reply : Type 0
Reply = Option (Option Name × VideoDb)

-- Go on with a value, or leave with an exception.
abbrev pub attempt : {A : Type 0} → Option A → VideoDb → (A → Reply) → Reply
attempt none v go = some (none, v)
attempt (some a) v go = go a

module _ (F : Double) (J : Json F) where
  open J use {
    Value, null, from_int, from_string, from_double, get, set, set_at, at, size, is_member,
    is_string, is_array, as_string, as_uint64, parse, write, line,
  }

  -- `int fc = frames.size()`: no round of the loop if that is negative.
  unfoldable pub frame_count : Value → ℕ
  frame_count frames = pos_part (to_int (size frames))

  -- `bad_rpl(msg)`
  unfoldable pub bad_rpl : Name → Name
  bad_rpl msg =
      write
        (set (set null (bytes_of "code") (from_int (negsuc 0))) (bytes_of "msg") (from_string msg))

  -- `v.isMember(key) && v[key].isString()`, or `isArray()`
  unfoldable pub has_field : (Value → Bool) → Value → Name → Option Bool
  has_field test v key = do found ← is_member v key; some (found && test (get v key))

  -- `for (i = 0; i < fc; i++) data_item.Push(frames[i].asUInt64());`
  unfoldable pub push_frames : Value → ℕ → ℕ → DataItem → Option DataItem
  unfolding push_frame
  push_frames frames zero i item = some item
  push_frames frames (suc rounds) i item = do
    frame ← as_uint64 (at frames i)
    push_frames frames rounds (i + 1) (push_frame frame item)

  -- The loop that puts the scores into `rv["result"]`, from position `i` on.
  unfoldable pub put_result : Scores F → ℕ → Value → Value
  put_result [] i rv = rv
  put_result (e ∷ result) i rv =
      let item =
        set (set null (bytes_of "name") (from_string e.0)) (bytes_of "score") (from_double e.1) in
      let key = bytes_of "result" in
      put_result result (i + 1) (set rv key (set_at (get rv key) i item))

  unfoldable pub code_reply : ℤ → Value
  code_reply code = set null (bytes_of "code") (from_int code)

  module _ (order : HashOrder ℕ) (orders : Orders) where
    -- The branch of `Process` for "add", once the fields have been found, and that for
    -- "query_duplicate".
    unfoldable pub process_add : Value → VideoDb → Reply
    unfolding frame_count push_frames new_item code_reply
    process_add v db = attempt (has_field is_string v (bytes_of "name")) db (λ named.
        if not named
        then some (some (bad_rpl (bytes_of "No 'name' field")), db)
        else attempt (has_field is_array v (bytes_of "frames")) db (λ framed.
          if not framed
          then some (some (bad_rpl (bytes_of "No 'frames' field")), db)
          else let frames = get v (bytes_of "frames") in
            attempt
              (push_frames frames (frame_count frames) 0
                (new_item (as_string (get v (bytes_of "name")))))
              db
              (λ data_item. do
                (code, db') ← add orders data_item db
                some (some (write (code_reply code)), db'))))

    unfoldable pub process_query : Value → VideoDb → Reply
    unfolding frame_count push_frames new_item code_reply put_result
    process_query v db = attempt (has_field is_array v (bytes_of "frames")) db (λ framed.
        if not framed
        then some (some (bad_rpl (bytes_of "No 'frames' field")), db)
        else let frames = get v (bytes_of "frames") in
          attempt (push_frames frames (frame_count frames) 0 (new_item (bytes_of "QUERY"))) db
            (λ data_item. do
              (code, result, db') ← query_frames F order orders data_item db
              some (some (write (put_result result 0 (code_reply code))), db')))

    -- `Process`
    unfoldable pub process : Name → VideoDb → Reply
    unfolding process_add process_query c_str
    process request db = elim (parse (c_str request)) [
      | none ↦ some (some (bad_rpl (bytes_of "Parse failed")), db)
      | some v ↦ attempt (has_field is_string v (bytes_of "type")) db (λ typed.
          if not typed
          then some (some (bad_rpl (bytes_of "No 'type' field")), db)
          else let req_type = as_string (get v (bytes_of "type")) in
            if bytes_eq req_type (bytes_of "add")
            then process_add v db
            else if bytes_eq req_type (bytes_of "query_duplicate")
            then process_query v db
            else some (some (bad_rpl (bytes_of "Bad 'type' field")), db))
    ]

    -- `SaveDB`: the code of `Save` is not looked at.
    unfoldable pub save_db : Bool → VideoDb → Option (List ByteList × VideoDb)
    unfolding save
    save_db opened db = do (code, blocks, db') ← save orders opened db; some (blocks, db')

    -- The lines of a plain reply, each cut to 127 bytes.
    unfoldable pub plain_lines : Name → Scores F → Name → Name
    plain_lines key [] reply = reply
    plain_lines key (e ∷ result) reply =
        plain_lines key result (reply ++ take 127 (line key e.0 e.1))

    abbrev pub is_negative : ℤ → Bool
    is_negative code = not (neg_part code == 0)

    -- `Query(key, reply, plain)`; `time_ms` is the time that the clock has measured.
    unfoldable pub query_key : ℤ → Name → Bool → VideoDb → Option (Name × VideoDb)
    unfolding new_item put_result code_reply plain_lines
    query_key time_ms key plain db = do
      (missing, data_item) ← query_name key (new_item []) db
      if is_negative missing
          then some (if plain then [] else bad_rpl (bytes_of "Key not found"), db)
          else do
            (code, result, db') ← query_frames F order orders data_item db
            some (
              if plain
                  then plain_lines key result []
                  else write (
                      set (put_result result 0 (code_reply code)) (bytes_of "time_ms")
                        (from_int time_ms)),
              db',
            )

  -- `Info`
  unfoldable pub info : VideoDb → Name
  unfolding video_count frames_count frame_table_size
  info db = write (
      set
        (set (set null (bytes_of "video_count") (from_int (video_count db)))
          (bytes_of "frames_count") (from_int (frames_count db)))
        (bytes_of "frame_table_size") (from_int (frame_table_size db)))
