-- ===== src/Cache/Files.antt =====
-- The loop of `VideoManager::load` of browse_server/main.cpp over the files of a directory.
use video_match.Base.{
  ℕ, ◌+◌, ◌%◌, ◌^◌, Bool, false, List, [], ◌∷◌, ◌++◌, Option, none, some, ◌==◌, if◌then◌else◌,
  length, take, drop, Name, bytes_of, ℤ, pos, negsuc,
}
use video_match.Text.{same_text, atoi}
use video_match.VideoDb.Index.{◌>>=◌, to_int}

abbrev pub ByteList : Type 0
ByteList = List ℕ

-- `map<int, string>`, by the number of a frame.
abbrev pub Frames : Type 0
Frames = List (ℤ × ByteList)

abbrev pub same_int : ℤ → ℤ → Bool
same_int (pos a) (pos b) = a == b
same_int (pos a) (negsuc b) = false
same_int (negsuc a) (pos b) = false
same_int (negsuc a) (negsuc b) = a == b

-- `frames_.find(id)` and `frames_[id] = picture`
unfoldable pub find_frame : ℤ → Frames → Option ByteList
find_frame id [] = none
find_frame id (f ∷ fs) = if same_int f.0 id then some f.1 else find_frame id fs

unfoldable pub put_frame : ℤ → ByteList → Frames → Frames
put_frame id picture [] = (id, picture) ∷ []
put_frame id picture (f ∷ fs) =
    if same_int f.0 id then (id, picture) ∷ fs else f ∷ put_frame id picture fs

-- An entry that `scandir` gives: the four bytes of its structure that stand before the name, the
-- name, and the content of the file if `fopen` can open it.
pub record DirEntry : Type 0 where
  pub before : ByteList
  pub d_name : Name
  pub file : Option ByteList

-- `strcasecmp(d_name + strlen(d_name) - 4, ".jpg") == 0`
unfoldable pub is_jpg : DirEntry → Bool
is_jpg e = same_text (drop (length e.d_name) (e.before ++ e.d_name)) (bytes_of ".jpg")

-- One round: the frames and the size of the item. `none` is the allocation of a negative size.
unfoldable pub read_file : DirEntry → Frames × ℕ → Option (Frames × ℕ)
unfolding is_jpg put_frame
read_file e s =
    if is_jpg e
    then elim e.file [
      | none ↦ some s
      | some bytes ↦ elim (to_int (length bytes)) [
        | negsuc n ↦ none
        | pos fsize ↦ some (
            if fsize == 0
            then s
            else (put_frame (atoi e.d_name) (take fsize bytes) s.0, (s.1 + fsize) % 2 ^ 64))
      ]
    ]
    else some s

unfoldable pub read_files : List DirEntry → Frames × ℕ → Option (Frames × ℕ)
unfolding read_file
read_files [] s = some s
read_files (e ∷ entries) s = do s' ← read_file e s; read_files entries s'
