-- ===== src/Client/EndToEnd.antt =====
-- From the command line of the client to the database of the server.
use video_match.Base.{
  ℕ, ◌^◌, ◌<◌, ◌≡◌, refl, true, false, Bool-cases, inl, inr, List, [], ◌∷◌, Option, some,
  Option-cases, length, Name, bytes_of, bytes_eq, arith, ◌∙◌, ◌++◌, drop,
}
use video_match.Cache.Files.{DirEntry}
use video_match.Client.Frames.{AllWords}
use video_match.Client.Laws.{JsonLaws, Rereads}
use video_match.Client.Main.{run_call, main}
use video_match.Client.Running.{asked, refused, is_add, main-refused}
use video_match.Client.Sent.{sent_item, process-add_request}
use video_match.Client.{add_request, posted, hash_files}
use video_match.CommandLine.{Found}
use video_match.Picture.Floats.{Float}
use video_match.Picture.Hash.{get_hash_code-lt}
use video_match.Picture.Library.{Images}
use video_match.Picture.{get_hash_code}
use video_match.Requests.Content.{Answers}
use video_match.Requests.Library.{Json}
use video_match.Requests.{process}
use video_match.Text.{c_str}
use video_match.Score.Floats.{Double}
use video_match.Text.{same_text, printed}
use video_match.VideoDb.Valid.{IsValid}
use video_match.VideoDb.{VideoDb, HashOrder, Orders}

hash_files-AllWords :
    (hash : Name → Option ℕ)
    → ((file : Name) (h : ℕ) → hash file ≡ some h → h < 2 ^ 64)
    → (dir : Name) (filelist : List DirEntry) → AllWords (hash_files hash dir filelist)
unfolding hash_files
hash_files-AllWords hash words dir [] = tt
hash_files-AllWords hash words dir (e ∷ filelist) =
    let rest = hash_files-AllWords hash words dir filelist in
    let file = printed 128 (dir ++ bytes_of "/" ++ e.d_name) in
    elim (Bool-cases (bytes_eq (drop (length e.d_name) (e.before ++ e.d_name)) (bytes_of ".jpg"))) [
      | inl picture ↦ elim (Option-cases (hash file)) [
        | inl failed ↦ rw picture (rw failed rest)
        | inr (h, made) ↦ rw picture (rw made (words file h made, rest))
      ]
      | inr other ↦ rw other rest
    ]

not_both : (req : Name) → is_add req ≡ true → same_text req (bytes_of "query") ≡ false
unfolding same_text
not_both [] h = cc
not_both (c ∷ req) h = ground arith

module _ (F : Double) (J : Json F) (FF : Float) (I : Images FF)
    (scandir : Name → List DirEntry) where
  abbrev hashes : Name → Option ℕ
  hashes file = get_hash_code FF I (some file)

  -- The frames of the videos whose pictures are in the directory that the options name.
  abbrev pub frames_of : List Found → List ℕ
  frames_of found = let dir = (asked found).dir in hash_files hashes dir (scandir dir)

  -- What the client posts to add the video.
  abbrev pub posted_text : List Found → Name
  posted_text found = c_str (J.write (add_request F J (asked found).name (frames_of found)))

  main-add :
      (found : List Found)
      → refused found ≡ false
      → is_add (asked found).req ≡ true
      → main F J hashes scandir found ≡ (0, ((asked found).url, posted_text found) ∷ [])
  unfolding run_call posted
  main-add found accepted adds =
      main-refused F J hashes scandir found
      ∙ rw accepted (rw adds (rw (not_both (asked found).req adds) refl))

  -- Run with options that are accepted and ask to add, on a directory that gives at least one and
  -- fewer than 2 ^ 31 hashes, the client returns 0 and posts one text, to the address. A server with
  -- a well-formed database that gets this text acts on the database as `add_video` with the given
  -- name and the hashes of the pictures as frames, and replies with the code of `Add`, where the JSON
  -- library has `JsonLaws` and reads what it wrote.
  pub main-Answers :
      (L : JsonLaws F J) (order : HashOrder ℕ) (orders : Orders) (db : VideoDb)
      → IsValid db
      → (found : List Found) → refused found ≡ false
      → is_add (asked found).req ≡ true
      → (f : ℕ) (frames : List ℕ) → frames_of found ≡ f ∷ frames
      → length (f ∷ frames) < 2 ^ 31
      → (w : J.Value) → J.parse (posted_text found) ≡ some w
      → Rereads F J (add_request F J (asked found).name (f ∷ frames)) w
      → (main F J hashes scandir found ≡ (0, ((asked found).url, posted_text found) ∷ []))
        × Answers F J
            (some (sent_item (asked found).name (f ∷ frames)))
            db
            (process F J order orders (posted_text found) db)
  main-Answers L order orders db valid found accepted adds f frames made few w read r =
      let words = rw made at (
        hash_files-AllWords hashes (get_hash_code-lt FF I) (asked found).dir
          (scandir (asked found).dir)) in
      let read' = rw made at read in
      (
        main-add found accepted adds,
        rw made (
            process-add_request F J L order orders db valid (asked found).name f frames words few w
              read' r),
      )
