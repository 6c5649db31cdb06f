-- ===== src/Client/Sent.antt =====
-- What the server reads out of the request that the client writes to add a video.
use video_match.Base.{
  Bool-cases, inl, inr, ◌==◌, ℕ, ◌^◌, ◌<◌, ◌≡◌, refl, true, List, [], ◌∷◌, some, length, Name,
  bytes_eq, bytes_eq_refl, bytes_of, pos_part, arith, ap, ◌∙◌,
}
use video_match.Client.Laws.{JsonLaws, Rereads}
use video_match.Client.{typed, add_request}
use video_match.Requests.Content.{added, Answers, process-Answers}
use video_match.Requests.Library.{Json}
use video_match.Requests.{frame_count, has_field, push_frames, process}
use video_match.Score.Floats.{Double}
use video_match.Text.{c_str}
use video_match.VideoDb.Index.{to_int}
use video_match.VideoDb.Valid.{IsValid}
use video_match.VideoDb.{DataItem, VideoDb, new_item, HashOrder, Orders}
use video_match.Client.Frames.{
  AllWords, frames_key, Carries, Shown, put_frames-Puts, put_frames-Shown, push_words,
}

-- The video of the request.
abbrev pub sent_item : Name → List ℕ → DataItem
sent_item name frames = record (new_item name) { frames = frames }

c_str-c_str : (s : Name) → c_str (c_str s) ≡ c_str s
unfolding c_str
c_str-c_str [] = refl
c_str-c_str (b ∷ s) = elim (Bool-cases (b == 0)) [
  | inl zero_byte ↦ rw zero_byte refl
  | inr other ↦ rw other (rw other (ap (◌∷◌ b) (c_str-c_str s)))
]

module _ (F : Double) (J : Json F) (L : JsonLaws F J) where
  open J use {
    Value, null, from_uint64, from_string, get, set, set_at, at, size, is_member, is_string,
    is_array, as_string, as_uint64, parse, write,
  }

  -- The request before its frames.
  abbrev start : Name → Value
  start name = set (typed F J (bytes_of "add")) (bytes_of "name") (from_string name)

  start_object : L.IsObject (typed F J (bytes_of "add"))
  start_object = L.set-IsObject null _ (bytes_of "type") L.null-IsObject

  start_no_frames : (name : Name) → get (start name) frames_key ≡ null
  unfolding bytes_eq
  start_no_frames name =
      L.get-set (typed F J (bytes_of "add")) _ (bytes_of "name") frames_key start_object
      ∙ L.get-set null _ (bytes_of "type") frames_key L.null-IsObject
      ∙ L.get-null frames_key

  start-Carries : (name : Name) → Carries F J L (start name) []
  start-Carries name = record {
    object = L.set-IsObject _ _ (bytes_of "name") start_object;
    array = rw (start_no_frames name) L.null-IsArray;
    sized = rw (start_no_frames name) L.size-null;
    words = λ i lt. elim lt [ ];
  }

  -- What the server asks for in the request.
  record Asks (v : Value) (name : Name) (frames : List ℕ) : Type 0 where
    has_type : is_member v (bytes_of "type") ≡ some true
    type : get v (bytes_of "type") ≡ from_string (bytes_of "add")
    has_name : is_member v (bytes_of "name") ≡ some true
    called : get v (bytes_of "name") ≡ from_string name
    shown : Shown F J L v
    carries : Carries F J L v frames

  add_request-Asks :
      (name : Name) (f : ℕ) (frames : List ℕ)
      → AllWords (f ∷ frames)
      → Asks (add_request F J name (f ∷ frames)) name (f ∷ frames)
  unfolding add_request bytes_eq
  add_request-Asks name f frames words =
      let c = start-Carries name in
      let p = put_frames-Puts F J L (start name) [] (f ∷ frames) c words in
      record {
        has_type =
            (p.others (bytes_of "type") refl).1
            ∙ L.is_member-set (typed F J (bytes_of "add")) _ (bytes_of "name") (bytes_of "type")
                start_object
            ∙ L.is_member-set null _ (bytes_of "type") (bytes_of "type") L.null-IsObject;
        type =
            (p.others (bytes_of "type") refl).0
            ∙ L.get-set (typed F J (bytes_of "add")) _ (bytes_of "name") (bytes_of "type")
                start_object
            ∙ L.get-set null _ (bytes_of "type") (bytes_of "type") L.null-IsObject;
        has_name =
            (p.others (bytes_of "name") refl).1
            ∙ L.is_member-set (typed F J (bytes_of "add")) _ (bytes_of "name") (bytes_of "name")
                start_object;
        called =
            (p.others (bytes_of "name") refl).0
            ∙ L.get-set (typed F J (bytes_of "add")) _ (bytes_of "name") (bytes_of "name")
                start_object;
        shown = put_frames-Shown F J L (start name) [] frames f c words;
        carries = p.carries;
      }

  text_field :
      (w : Value) (k : Name)
      → is_member w k ≡ some true
      → is_string (get w k) ≡ true
      → has_field F J is_string w k ≡ some true
  unfolding has_field
  text_field w k there text = rw there (rw text refl)

  array_field :
      (w : Value) (k : Name)
      → is_member w k ≡ some true
      → is_array (get w k) ≡ true
      → has_field F J is_array w k ≡ some true
  unfolding has_field
  array_field w k there array = rw there (rw array refl)

  read_words :
      (v w : Value) (name : Name) (frames : List ℕ)
      → Asks v name frames
      → Rereads F J v w
      → length frames < 2 ^ 31
      → push_frames F J (get w frames_key) (frame_count F J (get w frames_key)) 0 (new_item name)
        ≡ some (sent_item name frames)
  unfolding frame_count to_int new_item
  read_words v w name frames a r few =
      let sized : size (get w frames_key) ≡ length frames =
        r.same_size frames_key ∙ a.carries.sized in
      let count : frame_count F J (get w frames_key) ≡ length frames =
        ap (λ n. pos_part (to_int n)) sized ∙ ground (arith, few) in
      rw count (
        push_words F J L (get w frames_key) frames 0 (new_item name) (λ j lt.
          ap (λ x. as_uint64 (at (get w frames_key) x)) (omega arith)
          ∙ r.same_uint64 frames_key j
          ∙ a.carries.words j lt))

  -- The request that the client writes to add a video of at least one and fewer than 2 ^ 31 frames is
  -- read by the server as that video, name and frames, where the library reads what it wrote.
  pub added-add_request :
      (name : Name) (f : ℕ) (frames : List ℕ)
      → AllWords (f ∷ frames)
      → length (f ∷ frames) < 2 ^ 31
      → (w : Value) → parse (c_str (write (add_request F J name (f ∷ frames)))) ≡ some w
      → Rereads F J (add_request F J name (f ∷ frames)) w
      → added F J (write (add_request F J name (f ∷ frames))) ≡ some (sent_item name (f ∷ frames))
  added-add_request name f frames words few w read r =
      let a = add_request-Asks name f frames words in
      let type_key = bytes_of "type" in
      let name_key = bytes_of "name" in
      let typed_w = text_field w type_key (r.same_member type_key ∙ a.has_type) (
        r.same_is_string type_key
        ∙ ap is_string a.type
        ∙ L.is_string-from_string (bytes_of "add")) in
      let type_w : as_string (get w type_key) ≡ bytes_of "add" =
        r.same_string type_key ∙ ap as_string a.type ∙ L.as_string-from_string (bytes_of "add") in
      let named_w =
        text_field w name_key (r.same_member name_key ∙ a.has_name)
          (r.same_is_string name_key ∙ ap is_string a.called ∙ L.is_string-from_string name) in
      let name_w : as_string (get w name_key) ≡ name =
        r.same_string name_key ∙ ap as_string a.called ∙ L.as_string-from_string name in
      let framed_w =
        array_field w frames_key (r.same_member frames_key ∙ a.shown.0)
          (r.same_is_array frames_key ∙ a.shown.1) in
      let words_w = read_words (add_request F J name (f ∷ frames)) w name (f ∷ frames) a r few in
      rw (read, added)
        (rw typed_w (
          rw type_w (
            rw (bytes_eq_refl (bytes_of "add"))
              (rw named_w (rw framed_w (rw name_w (rw words_w refl)))))))

  process-c_str :
      (order : HashOrder ℕ) (orders : Orders) (text : Name) (db : VideoDb)
      → process F J order orders (c_str text) db ≡ process F J order orders text db
  unfolding process
  process-c_str order orders text db = rw (c_str-c_str text, process) refl

  -- The request that the client posts to add a video, given to a server with a well-formed database,
  -- does not fault and acts on the database as `add_video` with the name and the frames that the
  -- client had, and the reply is the code of `Add`: for at least one and fewer than 2 ^ 31 frames of
  -- 64 bits, and a library that has `JsonLaws` and reads what it wrote.
  pub process-add_request :
      (order : HashOrder ℕ) (orders : Orders) (db : VideoDb)
      → IsValid db
      → (name : Name) (f : ℕ) (frames : List ℕ) → AllWords (f ∷ frames)
      → length (f ∷ frames) < 2 ^ 31
      → (w : Value) → parse (c_str (write (add_request F J name (f ∷ frames)))) ≡ some w
      → Rereads F J (add_request F J name (f ∷ frames)) w
      → Answers F J
          (some (sent_item name (f ∷ frames)))
          db
          (process F J order orders (c_str (write (add_request F J name (f ∷ frames)))) db)
  process-add_request order orders db valid name f frames words few w read r =
      let text = write (add_request F J name (f ∷ frames)) in
      rw (process-c_str order orders text db, Answers)
        (rw (added-add_request name f frames words few w read r) at
          (process-Answers F J order orders text db valid))
