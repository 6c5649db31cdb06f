-- ===== src/Cache/Lru.antt =====
-- What the cache of browse_server/main.cpp promises, without pointers: a list of videos, the one
-- used last first, of which those from the front on that fit are kept.
use video_match.Base.{
  ℕ, ◌-◌, ◌≡◌, refl, List, [], ◌∷◌, ◌++◌, Option, none, some, leb, if◌then◌else◌, length, count_if,
  count_if-append, arith, Bool-cases, inl, inr, ap, Name, bytes_eq, bytes_eq_refl, bytes_eq_iff, ℤ,
  pos, negsuc,
}
use video_match.Cache.Files.{ByteList, Frames, find_frame, read_files}
use video_match.Cache.Chain.{Cell}
use video_match.Cache.Names.{place_of, has_name, Named}
use video_match.Cache.Trimming.{fitting}
use video_match.Cache.{Unpacked, find_path}
use video_match.VideoDb.Index.{◌>>=◌, to_int}

pub record Video : Type 0 where
  pub name : Name
  pub frames : Frames
  pub size : ℕ

unfoldable pub video_of : Name → List Video → Option Video
video_of n [] = none
video_of n (v ∷ vs) = if bytes_eq v.name n then some v else video_of n vs

unfoldable pub forget : Name → List Video → List Video
forget n [] = []
forget n (v ∷ vs) = if bytes_eq v.name n then forget n vs else v ∷ forget n vs

-- The videos that fit into the room, from the front on.
unfoldable pub kept : ℕ → List Video → List Video
kept room [] = []
kept room (v ∷ vs) = let rest = kept (room - v.size) vs in if leb v.size room then v ∷ rest else []

-- The videos after a request for one, and the video if there is one; `none` is a fault: the video
-- has been loaded and does not fit.
unfoldable pub fetch :
    Unpacked → List (Name × Name) → ℕ → Name → List Video → Option (Option Video × List Video)
unfolding video_of kept
fetch unpack paths room n vs = elim (video_of n vs) [
  | some v ↦ some (some v, vs)
  | none ↦ elim (find_path n paths) [
    | none ↦ some (none, vs)
    | some path ↦ elim (unpack path) [
      | none ↦ some (none, vs)
      | some entries ↦ do
        files ← read_files entries ([], 0)
        let v : Video = record { name = n; frames = files.0; size = files.1 }
        if leb v.size room then some (some v, kept room (v ∷ vs)) else none
    ]
  ]
]

unfoldable pub frames_in : Option Video × List Video → Option (ℤ × List Video)
frames_in (none, vs) = some (negsuc 0, vs)
frames_in (some v, vs) = some (to_int (length v.frames), vs)

unfoldable pub size_of :
    Unpacked → List (Name × Name) → ℕ → Name → List Video → Option (ℤ × List Video)
unfolding fetch frames_in
size_of unpack paths room n vs = do r ← fetch unpack paths room n vs; frames_in r

-- A request for a frame makes its video the one used last.
unfoldable pub picture_in :
    Name → ℤ → ByteList → Option Video × List Video → Option (ℤ × ByteList × List Video)
unfolding forget
picture_in n id content (none, vs) = some (negsuc 0, content, vs)
picture_in n id content (some v, vs) = elim (find_frame id v.frames) [
  | none ↦ some (negsuc 0, content, v ∷ forget n vs)
  | some picture ↦ some (pos 0, picture, v ∷ forget n vs)
]

unfoldable pub picture_of :
    Unpacked
    → List (Name × Name)
    → ℕ
    → Name
    → ℤ
    → ByteList
    → List Video
    → Option (ℤ × ByteList × List Video)
unfolding fetch picture_in
picture_of unpack paths room n id content vs = do
  r ← fetch unpack paths room n vs
  picture_in n id content r

abbrev pub video : Cell → Video
video c = record { name = c.name; frames = c.frames; size = c.size }

abbrev pub videos : List Cell → List Video
videos [] = []
videos (c ∷ cs) = video c ∷ videos cs

pub kept-videos : (room : ℕ) (cs : List Cell) → kept room (videos cs) ≡ videos (fitting room cs)
unfolding kept fitting
kept-videos room [] = refl
kept-videos room (c ∷ cs) = ground (arith, kept-videos (room - c.size) cs)

pub video_of_absent :
    (n : Name) (cs : List Cell) → place_of n cs ≡ none → video_of n (videos cs) ≡ none
unfolding place_of video_of
video_of_absent n [] e = refl
video_of_absent n (c ∷ cs) e = elim (Bool-cases (bytes_eq c.name n)) [
  | inl same ↦ absurd (cc (rw same at e))
  | inr other ↦ rw other (video_of_absent n cs (rw other at e))
]

-- Where the cell of a name stands.
pub record At (n : Name) (p : ℕ) (cs : List Cell) : Type 0 where
  pub ls : List Cell
  pub cell : Cell
  pub rs : List Cell
  pub parts : cs ≡ ls ++ cell ∷ rs
  pub placed : cell.place ≡ p
  pub named : cell.name ≡ n

pub cell-At : (n : Name) (p : ℕ) (cs : List Cell) → place_of n cs ≡ some p → At n p cs
unfolding place_of
cell-At n p [] e = absurd (cc e)
cell-At n p (c ∷ cs) e = elim (Bool-cases (bytes_eq c.name n)) [
  | inl same ↦
      let place : some c.place ≡ some p = rw same at e in
      record {
        ls = [];
        cell = c;
        rs = cs;
        parts = refl;
        placed = cc place;
        named = (bytes_eq_iff c.name n).0 same;
      }
  | inr other ↦
      let r = cell-At n p cs (rw other at e) in
      record {
        ls = c ∷ r.ls;
        cell = r.cell;
        rs = r.rs;
        parts = ap (◌∷◌ c) r.parts;
        placed = r.placed;
        named = r.named;
      }
]

pub video_of-at :
    (ls rs : List Cell) (c : Cell)
    → Named (ls ++ c ∷ rs)
    → video_of c.name (videos (ls ++ c ∷ rs)) ≡ some (video c)
unfolding video_of
video_of-at [] rs c a = rw (bytes_eq_refl c.name) refl
video_of-at (d ∷ ls) rs c a =
    let rest = video_of-at ls rs c (λ k. omega (arith, a k)) in
    let once = count_if-append (has_name c.name) ls (c ∷ rs) in
    ground (arith, rest, once, a c.name, bytes_eq_refl c.name)

forget_absent :
    (n : Name) (cs : List Cell) → count_if (has_name n) cs ≡ 0 → forget n (videos cs) ≡ videos cs
unfolding forget
forget_absent n [] a = refl
forget_absent n (c ∷ cs) a =
    let rest = forget_absent n cs (ground (arith, a)) in ground (arith, a, rest)

pub forget-at :
    (ls rs : List Cell) (c : Cell)
    → Named (ls ++ c ∷ rs)
    → forget c.name (videos (ls ++ c ∷ rs)) ≡ videos (ls ++ rs)
unfolding forget
forget-at [] rs c a =
    let once = a c.name in
    let rest = forget_absent c.name rs (ground (arith, once, bytes_eq_refl c.name)) in
    rw (bytes_eq_refl c.name) rest
forget-at (d ∷ ls) rs c a =
    let rest = forget-at ls rs c (λ k. omega (arith, a k)) in
    let once = count_if-append (has_name c.name) ls (c ∷ rs) in
    ground (arith, rest, once, a c.name, bytes_eq_refl c.name)
