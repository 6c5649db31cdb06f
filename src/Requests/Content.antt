-- ===== src/Requests/Content.antt =====
-- What `Process` of server/RequestProcessor.cpp does to the database.
use video_match.Base.{
  ℕ, ◌≡◌, refl, Bool, true, false, not, Option, none, some, if◌then◌else◌, Name, bytes_of, bytes_eq,
  ap,
}
use mathlib.Core.Path.{fun_ext}
use video_match.Query.{query_frames}
use video_match.Query.Matches.{query_frames-Lists}
use video_match.Requests.Library.{Json}
use video_match.Requests.{
  Reply, attempt, bad_rpl, has_field, push_frames, frame_count, c_str, code_reply, put_result,
  process_add, process_query, process,
}
use video_match.Score.Floats.{Double}
use video_match.VideoDb.Index.{◌>>=◌, add}
use video_match.VideoDb.Refinement.{add_video, add_code, add-Adds}
use video_match.VideoDb.Valid.{IsValid, view}
use video_match.VideoDb.{DataItem, VideoDb, new_item, HashOrder, Orders}

module _ (F : Double) (J : Json F) where
  open J use {Value, get, is_string, is_array, as_string, parse, write}

  -- The tests of the fields, and the item that the frames are pushed to.
  abbrev has_name : Value → Option Bool
  has_name v = has_field F J is_string v (bytes_of "name")

  abbrev has_frames : Value → Option Bool
  has_frames v = has_field F J is_array v (bytes_of "frames")

  abbrev has_type : Value → Option Bool
  has_type v = has_field F J is_string v (bytes_of "type")

  abbrev read_item : Name → Value → Option DataItem
  read_item n v =
      let frames = get v (bytes_of "frames") in
      push_frames F J frames (frame_count F J frames) 0 (new_item n)

  -- The video that an "add" request holds, and that a request asks to add, if it does.
  abbrev item_of : Value → Option DataItem
  item_of v = has_frames v >>= (λ framed.
      if not framed
      then none
      else (read_item (as_string (get v (bytes_of "name"))) v >>= (λ d. some d)))

  abbrev added_in : Value → Option DataItem
  added_in v = has_name v >>= (λ named. if not named then none else item_of v)

  abbrev is_type : Value → Name → Bool
  is_type v t = bytes_eq (as_string (get v (bytes_of "type"))) t

  abbrev pub added : Name → Option DataItem
  added request = parse (c_str request) >>= (λ v. has_type v >>= (λ typed.
      if not typed then none else (if is_type v (bytes_of "add") then added_in v else none)))

  -- What the request of a video, or of none, has to do: a video is added and the reply is the
  -- code; without one, the database stays as it was.
  abbrev pub Does : Option DataItem → VideoDb → Option Name × VideoDb → Type 0
  Does none db r = r.1 ≡ db
  Does (some d) db r =
      IsValid r.1
      × (view r.1 ≡ add_video d (view db))
      × (r.0 ≡ some (write (code_reply F J (add_code (view db d.name)))))

  abbrev pub Answers : Option DataItem → VideoDb → Reply → Type 0
  Answers d db x = (r : Option Name × VideoDb) × (x ≡ some r) × Does d db r

  attempt-Answers :
      {A : Type 0} (o : Option A) (db : VideoDb) (go : A → Reply) (f : A → Option DataItem)
      → ((a : A) → Answers (f a) db (go a))
      → Answers (o >>= f) db (attempt o db go)
  attempt-Answers none db go f h = ((none, db), refl, refl)
  attempt-Answers (some a) db go f h = h a

  attempt_kept :
      {A : Type 0} (o : Option A) (db : VideoDb) (go : A → Reply)
      → ((a : A) → Answers none db (go a))
      → Answers none db (attempt o db go)
  attempt_kept none db go h = ((none, db), refl, refl)
  attempt_kept (some a) db go h = h a

  if-Answers :
      (b : Bool) (db : VideoDb) (d e : Option DataItem) {x y : Reply}
      → Answers d db x
      → Answers e db y
      → Answers (if b then d else e) db (if b then x else y)
  if-Answers true db d e p q = p
  if-Answers false db d e p q = q

  if_kept :
      (b : Bool) (db : VideoDb) {x y : Reply}
      → Answers none db x
      → Answers none db y
      → Answers none db (if b then x else y)
  if_kept true db p q = p
  if_kept false db p q = q

  replied : (db : VideoDb) (text : Name) → Answers none db (some (some text, db))
  replied db text = ((some text, db), refl, refl)

  parsed-Answers :
      (p : Option Value) (db : VideoDb) (text : Name) (go : Value → Reply)
      (f : Value → Option DataItem)
      → ((v : Value) → Answers (f v) db (go v))
      → Answers (p >>= f) db (elim p [ none ↦ some (some text, db) | some v ↦ go v ])
  parsed-Answers none db text go f h = replied db text
  parsed-Answers (some v) db text go f h = h v

  module _ (order : HashOrder ℕ) (orders : Orders) where
    added-Answers :
        (d : DataItem) (db : VideoDb)
        → IsValid db
        → Answers
            (some d)
            db
            (add orders d db >>= (λ r. some (some (write (code_reply F J r.0)), r.1)))
    added-Answers d db valid =
        let (r, a) = add-Adds orders d db valid in
        (
          (some (write (code_reply F J r.0)), r.1),
          rw a.runs refl,
          (a.valid, fun_ext a.content, ap (λ c. some (write (code_reply F J c))) a.code),
        )

    process_add-Answers :
        (v : Value) (db : VideoDb)
        → IsValid db
        → Answers (added_in v) db (process_add F J order orders v db)
    unfolding process_add
    process_add-Answers v db valid = attempt-Answers (has_name v) db _ _ (λ named.
        if-Answers (not named) db none (item_of v)
          (replied db (bad_rpl F J (bytes_of "No 'name' field")))
          (attempt-Answers (has_frames v) db _ _ (λ framed.
            if-Answers (not framed) db none
              (read_item (as_string (get v (bytes_of "name"))) v >>= (λ d. some d))
              (replied db (bad_rpl F J (bytes_of "No 'frames' field")))
              (attempt-Answers (read_item (as_string (get v (bytes_of "name"))) v) db _
                (λ d. some d) (λ d. added-Answers d db valid)))))

    queried :
        (d : DataItem) (db : VideoDb)
        → IsValid db
        → Answers none db (
            query_frames F order orders d db
            >>= (λ r. some (some (write (put_result F J r.1 0 (code_reply F J r.0))), r.2)))
    queried d db valid =
        let (r, runs, l) = query_frames-Lists F order orders d db valid in
        ((some (write (put_result F J r.1 0 (code_reply F J r.0))), r.2), rw runs refl, l.kept)

    process_query-Answers :
        (v : Value) (db : VideoDb)
        → IsValid db
        → Answers none db (process_query F J order orders v db)
    unfolding process_query
    process_query-Answers v db valid = attempt_kept (has_frames v) db _ (λ framed.
        if_kept (not framed) db (replied db (bad_rpl F J (bytes_of "No 'frames' field")))
          (attempt_kept (read_item (bytes_of "QUERY") v) db _ (λ d. queried d db valid)))

    -- On a well-formed database `Process` does not fault, whatever the request. A request that asks
    -- to add a video and can be read leaves a database that is well formed and has the content of
    -- `add_video`, with the code of `Add` for a reply; every other request, one that makes the JSON
    -- library throw included, leaves the database as it was.
    pub process-Answers :
        (request : Name) (db : VideoDb)
        → IsValid db
        → Answers (added request) db (process F J order orders request db)
    unfolding process
    process-Answers request db valid =
        parsed-Answers (parse (c_str request)) db (bad_rpl F J (bytes_of "Parse failed")) _ _ (λ v.
          attempt-Answers (has_type v) db _ _ (λ typed.
            if-Answers (not typed) db none (if is_type v (bytes_of "add") then added_in v else none)
              (replied db (bad_rpl F J (bytes_of "No 'type' field")))
              (if-Answers (is_type v (bytes_of "add")) db (added_in v) none
                (process_add-Answers v db valid)
                (if_kept (is_type v (bytes_of "query_duplicate")) db
                  (process_query-Answers v db valid)
                  (replied db (bad_rpl F J (bytes_of "Bad 'type' field")))))))
