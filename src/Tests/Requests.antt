-- ===== src/Tests/Requests.antt =====
-- A small stand-in for the JSON library, and a request that adds a video.
use video_match.Base.{
  arith, ◌≡◌, refl, ℕ, Bool, true, false, List, [], ◌∷◌, ◌++◌, Option, none, some, if◌then◌else◌,
  get_or, length, Name, bytes_eq, bytes_of, ℤ, pos, pos_part,
}
use video_match.Requests.{query_key, process, has_field, push_frames, frame_count}
use video_match.Text.{c_str}
use video_match.VideoDb.Index.{to_int}
use video_match.VideoDb.{new_item, push_frame}
use video_match.Requests.Content.{added, Answers, process-Answers}
use video_match.Requests.Library.{Json}
use video_match.Requests.SelfQuery.{AllShort, reply_of, Tops, query_key-Tops}
use video_match.Query.{Scores}
use video_match.VideoDb.Valid.{view}
use video_match.VideoDb.Adding.{after_add}
use video_match.VideoDb.{find_name}
use video_match.Tests.{cat_video, plain, plain_orders, sample_db, sample_db-IsValid}
use video_match.Tests.Scaled.{scaled}

-- An object is a chain of `bind`s.
pub data Doc : Type 0 where
  nothing : Doc
  number : ℤ → Doc
  text : Name → Doc
  numbers : List ℕ → Doc
  bind : Name → Doc → Doc → Doc

abbrev field : Doc → Name → Doc
field nothing key = nothing
field (number n) key = nothing
field (text t) key = nothing
field (numbers ns) key = nothing
field (bind k x rest) key = let more = field rest key in if bytes_eq k key then x else more

abbrev is_nothing : Doc → Bool
is_nothing nothing = true
is_nothing (number n) = false
is_nothing (text t) = false
is_nothing (numbers ns) = false
is_nothing (bind k x rest) = false

abbrev text_of : Doc → Option Name
text_of nothing = none
text_of (number n) = none
text_of (text t) = some t
text_of (numbers ns) = none
text_of (bind k x rest) = none

abbrev numbers_of : Doc → Option (List ℕ)
numbers_of nothing = none
numbers_of (number n) = none
numbers_of (text t) = none
numbers_of (numbers ns) = some ns
numbers_of (bind k x rest) = none

abbrev number_of : Doc → Option ℕ
number_of nothing = none
number_of (number n) = some (pos_part n)
number_of (text t) = none
number_of (numbers ns) = none
number_of (bind k x rest) = none

abbrev written : Doc → Name
written nothing = []
written (number n) = pos_part n ∷ []
written (text t) = t
written (numbers ns) = ns
written (bind k x rest) = k ++ written x ++ written rest

abbrev is_some : {A : Type 0} → Option A → Bool
is_some none = false
is_some (some a) = true

abbrev or_else : {A : Type 0} → A → Option A → A
or_else a none = a
or_else a (some b) = b

-- Every text but the empty one is a request to add a video of that name.
abbrev add_request : Name → Option Doc
add_request [] = none
add_request (b ∷ bs) = some (
    bind (bytes_of "type") (text (bytes_of "add")) (
      bind (bytes_of "name") (text (b ∷ bs))
        (bind (bytes_of "frames") (numbers (7 ∷ 0 ∷ 0x1234_0000_0000_0005 ∷ [])) nothing)))

abbrev pub toy_json : Json scaled
toy_json = record {
  Value = Doc;
  null = nothing;
  from_int = number;
  from_uint64 = λ n. number (pos n);
  from_string = text;
  from_double = λ x. number (pos x);
  get = field;
  set = λ v key x. bind key x v;
  set_at = λ v i x. bind (i ∷ []) x v;
  at = λ v i. number (pos (get_or (or_else [] (numbers_of v)) i 0));
  size = λ v. length (or_else [] (numbers_of v));
  is_member = λ v key. some (if is_nothing (field v key) then false else true);
  is_string = λ v. is_some (text_of v);
  is_array = λ v. is_some (numbers_of v);
  as_string = λ v. or_else [] (text_of v);
  as_uint64 = number_of;
  parse = add_request;
  write = written;
  line = λ key name score. key ++ name;
}

process-Answers_example :
    Answers scaled toy_json
      (added scaled toy_json (bytes_of "bird"))
      sample_db
      (process scaled toy_json plain plain_orders (bytes_of "bird") sample_db)
process-Answers_example =
    process-Answers scaled toy_json plain plain_orders (bytes_of "bird") sample_db sample_db-IsValid

bird_added :
    added scaled toy_json (bytes_of "bird")
    ≡ some (record {
      uniq_frm_cnt = 0;
      name = bytes_of "bird";
      frames = 7 ∷ 0 ∷ 0x1234_0000_0000_0005 ∷ [];
      ref = pos 0;
      deleted = false;
    })
unfolding has_field c_str frame_count to_int push_frames new_item push_frame bytes_eq
bird_added = refl

few_frames : AllShort (view sample_db)
unfolding view after_add find_name
few_frames m gs h = ground (arith, h)

cat_stored : view sample_db cat_video.name ≡ some cat_video.frames
unfolding view after_add find_name bytes_eq
cat_stored = refl

-- The video "cat" is asked for by its key.
query_key-Tops_example :
    (r : Scores scaled) × (query_key scaled toy_json plain plain_orders
        (pos 5)
        cat_video.name
        true
        sample_db
      ≡ some (reply_of scaled toy_json plain plain_orders (pos 5) cat_video.name true r, sample_db))
    × Tops scaled toy_json plain plain_orders cat_video.name r
query_key-Tops_example =
    query_key-Tops scaled toy_json plain plain_orders sample_db sample_db-IsValid few_frames
      cat_video.name cat_video.frames cat_stored refl (pos 5) true
