-- ===== src/Handler/Routing.antt =====
-- What a request does to the database, by the way that `my_handler` of server/main.cpp sends it.
use video_match.Base.{
  ◌≡◌, refl, Bool, true, false, ◌&&◌, ◌||◌, not, List, [], Option, none, some, if◌then◌else◌,
  any_of, Name, ℕ, ℤ, bytes_of, bytes_eq, length, drop, ap, Option-cases, inl, inr,
}
use video_match.DbFile.{ByteList}
use video_match.DbFile.Saving.{long_name, save-file_of}
use video_match.DbFile.Save.{save}
use video_match.Handler.{
  http_get, http_post, http_head, http_put, http_invalid, Request, Outcome, exited, switch_thread,
  thrown, answered, body_of, help, prefixeq, pooled_get, handle_get, handle_post, my_handler,
}
use video_match.Query.Matches.{query_frames-Lists}
use video_match.Requests.{
  info, save_db, query_key, process, bad_rpl, plain_lines, put_result, code_reply,
}
use video_match.Requests.Content.{added, Does, process-Answers}
use video_match.Requests.Library.{Json}
use video_match.Score.Floats.{Double}
use video_match.VideoDb.Index.{◌>>=◌}
use video_match.VideoDb.Refinement.{add_video, query_name-view}
use video_match.VideoDb.Valid.{IsValid, Videos, view}
use video_match.VideoDb.{DataItem, VideoDb, new_item, HashOrder, Orders}

abbrev pub is_switch : Outcome → Bool
is_switch exited = false
is_switch switch_thread = true
is_switch thrown = false
is_switch (answered b) = false

abbrev pub with_video : Option DataItem → Videos → Videos
with_video none vs = vs
with_video (some d) vs = add_video d vs

module _ (F : Double) (J : Json F) where
  -- The video that a request adds: only a POST in the thread pool does.
  abbrev pub posted : Request → Option DataItem
  posted req = elim req.type [
    | http_get ↦ none
    | http_post ↦ if req.in_threadpool then added F J req.postdata else none
    | http_head ↦ none
    | http_put ↦ none
    | http_invalid ↦ none
  ]

  -- No fault, a well-formed database with the video added, and no second switch of the thread.
  abbrev pub Handled : Option DataItem → Bool → VideoDb → Option (Outcome × VideoDb) → Type 0
  Handled d pooled db x =
      (r : Outcome × VideoDb) × (x ≡ some r)
      × IsValid r.1
      × (view r.1 ≡ with_video d (view db))
      × ((pooled && is_switch r.0) ≡ false)

  same :
      (b : Bool) (db : VideoDb) (o : Outcome)
      → IsValid db
      → is_switch o ≡ false
      → Handled none b db (some (o, db))
  same true db o valid quiet = ((o, db), refl, valid, refl, quiet)
  same false db o valid quiet = ((o, db), refl, valid, refl, refl)

  if-Handled :
      (c : Bool) (d : Option DataItem) (b : Bool) (db : VideoDb) {x y : Option (Outcome × VideoDb)}
      → Handled d b db x
      → Handled d b db y
      → Handled d b db (if c then x else y)
  if-Handled true d b db h k = h
  if-Handled false d b db h k = k

  Does-kept :
      (d : Option DataItem) (db : VideoDb) (r : Option Name × VideoDb)
      → IsValid db
      → Does F J d db r
      → IsValid r.1 × (view r.1 ≡ with_video d (view db))
  Does-kept none db r valid h = (rw h valid, ap view h)
  Does-kept (some d) db r valid h = (h.0, h.1)

  body_of_stays : (b : Bool) (o : Option Name) → (b && is_switch (body_of o)) ≡ false
  body_of_stays true none = refl
  body_of_stays true (some body) = refl
  body_of_stays false o = refl

  module _ (order : HashOrder ℕ) (orders : Orders) (time_ms : ℤ) (opened : Bool) where
    save_db_kept :
        (db : VideoDb)
        → IsValid db
        → any_of long_name db.db ≡ false
        → (o : Bool) → (bs : List ByteList) × (save_db F J order orders o db ≡ some (bs, db))
    unfolding save_db
    save_db_kept db valid short true =
        let (bs, runs, all, none_long) = save-file_of orders db valid short in (bs, rw runs refl)
    save_db_kept db valid short false = unfold save in ([], refl)

    query_key_kept :
        (key : Name) (plain : Bool) (db : VideoDb)
        → IsValid db
        → (body : Name) × (query_key F J order orders time_ms key plain db ≡ some (body, db))
    unfolding query_key
    query_key_kept key plain db valid =
        let found = query_name-view key (new_item []) db valid in
        elim (Option-cases (view db key)) [
          | inl miss ↦ (
            if plain then [] else bad_rpl F J (bytes_of "Key not found"),
            rw found (rw miss refl),
          )
          | inr (fs, seen) ↦
              let d = record (new_item []) { name = key; frames = fs } in
              let (r, runs, l) = query_frames-Lists F order orders d db valid in
              (
                if plain
                    then plain_lines F J order orders key r.1 []
                    else J.write (
                        J.set (put_result F J r.1 0 (code_reply F J r.0)) (bytes_of "time_ms")
                          (J.from_int time_ms)),
                rw found (rw seen (rw runs (rw l.kept refl))),
              )
        ]

    pooled_get-Handled :
        (path : Name) (b : Bool) (db : VideoDb)
        → IsValid db
        → any_of long_name db.db ≡ false
        → Handled none b db (pooled_get F J order orders time_ms opened path db)
    unfolding pooled_get
    pooled_get-Handled path b db valid short =
        let (blocks, saved) = save_db_kept db valid short opened in
        let key = drop (length (bytes_of "/querykey/")) path in
        let plain_key = drop (length (bytes_of "/querykeyplain/")) path in
        let (body, asked) = query_key_kept key false db valid in
        let (lines, plain) = query_key_kept plain_key true db valid in
        if-Handled (bytes_eq path (bytes_of "/save")) none b db
          (rw saved (same b db (answered (bytes_of "Done\n")) valid refl))
          (if-Handled (prefixeq path (bytes_of "/querykey/")) none b db
            (rw asked (same b db (answered body) valid refl))
            (if-Handled (prefixeq path (bytes_of "/querykeyplain/")) none b db
              (rw plain (same b db (answered lines) valid refl))
              (same b db (answered []) valid refl)))

    switched :
        (b : Bool) (db : VideoDb) {y : Option (Outcome × VideoDb)}
        → IsValid db
        → Handled none b db y
        → Handled none b db (if not b then some (switch_thread, db) else y)
    switched true db valid h = h
    switched false db valid h = ((switch_thread, db), refl, valid, refl, refl)

    handle_get-Handled :
        (req : Request) (db : VideoDb)
        → IsValid db
        → any_of long_name db.db ≡ false
        → Handled none req.in_threadpool db (handle_get F J order orders time_ms opened req db)
    unfolding handle_get
    handle_get-Handled req db valid short =
        let b = req.in_threadpool in
        if-Handled (bytes_eq req.path (bytes_of "/info")) none b db
          (same b db (answered (info F J db)) valid refl)
          (if-Handled (bytes_eq req.path (bytes_of "/exit")) none b db (same b db exited valid refl)
            (if-Handled
              (bytes_eq req.path (bytes_of "/save")
                || prefixeq req.path (bytes_of "/querykeyplain/")
                || prefixeq req.path (bytes_of "/querykey/"))
              none b db (switched b db valid (pooled_get-Handled req.path b db valid short))
              (same b db (answered help) valid refl)))

    posted-Handled :
        (sent : Name) (b : Bool) (db : VideoDb)
        → IsValid db
        → Handled (if b then added F J sent else none) b db (
            if not b
            then some (switch_thread, db)
            else (process F J order orders sent db >>= (λ r. some (body_of r.0, r.1))))
    posted-Handled sent false db valid = ((switch_thread, db), refl, valid, refl, refl)
    posted-Handled sent true db valid =
        let (r, runs, done) = process-Answers F J order orders sent db valid in
        let (valid', content) = Does-kept (added F J sent) db r valid done in
        ((body_of r.0, r.1), rw runs refl, valid', content, body_of_stays true r.0)

    -- On a well-formed database whose names have at most 8183 bytes, no request makes `my_handler`
    -- fault. The database stays well formed; its content changes only by a readable "add" request
    -- that is posted and runs in the thread pool, and then as `add_video`. A request that runs in
    -- the thread pool does not ask for a thread switch.
    pub my_handler-Handled :
        (req : Request) (db : VideoDb)
        → IsValid db
        → any_of long_name db.db ≡ false
        → Handled
            (posted req)
            req.in_threadpool
            db
            (my_handler F J order orders time_ms opened req db)
    unfolding my_handler handle_post
    my_handler-Handled req db valid short =
        elim req.type
          as (λ t.
            Handled
              (elim t [
                | http_get ↦ none
                | http_post ↦ if req.in_threadpool then added F J req.postdata else none
                | http_head ↦ none
                | http_put ↦ none
                | http_invalid ↦ none
              ])
              req.in_threadpool db
              (elim t [
                | http_get ↦ handle_get F J order orders time_ms opened req db
                | http_post ↦ handle_post F J order orders time_ms opened req db
                | http_head ↦ some (answered [], db)
                | http_put ↦ some (answered [], db)
                | http_invalid ↦ some (answered [], db)
              ])) [
                | http_get ↦ handle_get-Handled req db valid short
                | http_post ↦ posted-Handled req.postdata req.in_threadpool db valid
                | http_head ↦ same req.in_threadpool db (answered []) valid refl
                | http_put ↦ same req.in_threadpool db (answered []) valid refl
                | http_invalid ↦ same req.in_threadpool db (answered []) valid refl
              ]
