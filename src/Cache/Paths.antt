-- ===== src/Cache/Paths.antt =====
-- `VideoManager::LoadPath` of browse_server/main.cpp: the list of the videos and where they lie.
use video_match.Base.{
  ℕ, ◌+◌, ◌-◌, ◌||◌, List, [], ◌∷◌, ◌++◌, Option, none, some, ◌==◌, if◌then◌else◌, length, take,
  drop, Name, bytes_eq, bytes_of,
}

-- What `fgets(fn, 128, f)` gives, call by call: up to a line end or 127 bytes; `line` is the part of
-- a call that has been read.
unfoldable pub reads : Name → Name → List Name
reads [] [] = []
reads (c ∷ line) [] = (c ∷ line) ∷ []
reads line (b ∷ bytes) =
    let done = line ++ b ∷ [] in
    let next = done ∷ reads [] bytes in
    let more = reads done bytes in if (b == b'\n') || (length done == 127) then next else more

-- The loop over the characters: `s` is behind the last '/', `d` at the last '.', both as offsets.
unfoldable pub scan_path : Name → ℕ → ℕ → Option ℕ → ℕ × Option ℕ
scan_path [] i s d = (s, d)
scan_path (c ∷ cs) i s d =
    let more =
      scan_path cs (i + 1) (if c == b'/' then i + 1 else s) (if c == b'.' then some i else d) in
    if (c == 0) || (c == b'\n') then (s, d) else more

-- `fn` after the loop: the text before the line end.
unfoldable pub cut_line : Name → Name
cut_line [] = []
cut_line (c ∷ cs) = let more = cut_line cs in if (c == 0) || (c == b'\n') then [] else c ∷ more

-- `raw_path_[key] = fn`
unfoldable pub put_path : Name → Name → List (Name × Name) → List (Name × Name)
put_path key path [] = (key, path) ∷ []
put_path key path (e ∷ paths) =
    if bytes_eq e.0 key then (key, path) ∷ paths else e ∷ put_path key path paths

-- One round of the loop over the lines. Where the test holds no '/' follows the dot, and `d - s` is
-- not negative.
unfoldable pub add_line : Name → List (Name × Name) → List (Name × Name)
unfolding scan_path cut_line put_path
add_line line paths =
    let (s, d) = scan_path line 0 0 none in
    let fn = cut_line line in
    elim d [
      | none ↦ paths
      | some dot ↦
          if bytes_eq (drop dot fn) (bytes_of ".pickle")
          then put_path (take (dot - s) (drop s fn)) fn paths
          else paths
    ]

unfoldable pub add_lines : List Name → List (Name × Name) → List (Name × Name)
unfolding add_line
add_lines [] paths = paths
add_lines (l ∷ lines) paths = add_lines lines (add_line l paths)

-- The map after the list file has been read.
unfoldable pub load_paths : Name → List (Name × Name) → List (Name × Name)
unfolding reads add_lines
load_paths bytes paths = add_lines (reads [] bytes) paths
