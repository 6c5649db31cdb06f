-- ===== src/Client.antt =====
-- The client: client/Requester.cpp, which writes the requests, and the loop of client/main.cpp that
-- makes the hashes of the pictures in a directory.
pub mod Laws
pub mod Frames
pub mod Sent
pub mod Main
pub mod Running
pub mod EndToEnd
use video_match.Base.{
  ℕ, ◌+◌, Bool, List, [], ◌∷◌, ◌++◌, Option, none, some, if◌then◌else◌, length, drop, Name,
  bytes_of, bytes_eq,
}
use video_match.Cache.Files.{DirEntry}
use video_match.Text.{c_str}
use video_match.Requests.Library.{Json}
use video_match.Score.Floats.{Double}
use video_match.Text.{printed, same_text}

module _ (F : Double) (J : Json F) where
  open J use {Value, null, from_uint64, from_string, get, set, set_at, write}

  -- The loop over the frames in `Requester::Add` and `Requester::Query`.
  unfoldable pub put_frames : List ℕ → ℕ → Value → Value
  put_frames [] i v = v
  put_frames (frame ∷ frames) i v =
      let key = bytes_of "frames" in
      put_frames frames (i + 1) (set v key (set_at (get v key) i (from_uint64 frame)))

  abbrev pub typed : Name → Value
  typed type = set null (bytes_of "type") (from_string type)

  -- The requests that `Requester::Add` and `Requester::Query` make.
  unfoldable pub add_request : Name → List ℕ → Value
  unfolding put_frames
  add_request name frames =
      put_frames frames 0 (set (typed (bytes_of "add")) (bytes_of "name") (from_string name))

  unfoldable pub query_request : List ℕ → Value
  unfolding put_frames
  query_request frames = put_frames frames 0 (typed (bytes_of "query_duplicate"))

  -- The texts that `main` posts, each up to its first zero byte; `name` is there where `req` is
  -- "add".
  unfoldable pub posted : Name → Name → List ℕ → List Name
  unfolding add_request query_request same_text c_str
  posted req name frames =
      (if same_text req (bytes_of "add") then c_str (write (add_request name frames)) ∷ [] else [])
      ++ (if same_text req (bytes_of "query")
          then c_str (write (query_request frames)) ∷ []
          else [])

-- The loop of `main` over the files of a directory. `get_hash_code` is `GetHashCode`, with `none`
-- for a negative result.
unfoldable pub hash_files : (Name → Option ℕ) → Name → List DirEntry → List ℕ
hash_files get_hash_code dir [] = []
hash_files get_hash_code dir (e ∷ filelist) =
    let filename = printed 128 (dir ++ bytes_of "/" ++ e.d_name) in
    let rest = hash_files get_hash_code dir filelist in
    if bytes_eq (drop (length e.d_name) (e.before ++ e.d_name)) (bytes_of ".jpg")
    then elim (get_hash_code filename) [ none ↦ rest | some hresult ↦ hresult ∷ rest ]
    else rest
