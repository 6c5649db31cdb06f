-- ===== src/Cache/Serving.antt =====
-- The cache of browse_server/main.cpp where every video fits into it: no request faults, and the
-- videos kept never take more room than there is.
use video_match.Base.{
  ℕ, ◌+◌, ◌-◌, ◌≤◌, ◌<◌, ◌^◌, ◌≡◌, refl, List, [], ◌∷◌, Option, none, some, Option-cases,
  Bool-cases, inl, inr, ap, sym, Name, ℤ, pos, negsuc, length, true, leb, arith, bytes_eq,
  bytes_eq_refl,
}
use video_match.Cache.Files.{ByteList, DirEntry, Frames, find_frame, read_files}
use video_match.Cache.Chain.{Cell}
use video_match.Cache.Names.{total, place_of}
use video_match.Cache.Holds.{Holds}
use video_match.Cache.Lru.{
  Video, video_of, forget, kept, fetch, frames_in, size_of, picture_in, picture_of, videos,
}
use video_match.Cache.Fetching.{SameLimits, unpacked_size}
use video_match.Cache.Refinement.{Shows, Sizes, Answers, lookup_size-size_of, lookup-picture_of}
use video_match.VideoDb.{find_name}
use video_match.Cache.{new_manager, Manager, Unpacked, find_path, lookup_size, lookup}
use video_match.VideoDb.Index.{◌>>=◌, to_int}

-- What a directory holds can be read, and fits.
abbrev pub Fits : ℕ → Option (List DirEntry) → Type 0
Fits room none = Unit
Fits room (some entries) =
    (files : Frames × ℕ) × (read_files entries ([], 0) ≡ some files) × (files.1 ≤ room)

abbrev pub weight : List Video → ℕ
weight [] = 0
weight (v ∷ vs) = v.size + weight vs

weight-videos : (cs : List Cell) → weight (videos cs) ≡ total cs
weight-videos [] = refl
weight-videos (c ∷ cs) = omega (arith, weight-videos cs)

weight-kept : (room : ℕ) (vs : List Video) → weight (kept room vs) ≤ room
unfolding kept
weight-kept room [] = omega arith
weight-kept room (v ∷ vs) = ground (arith, weight-kept (room - v.size) vs)

weight-forget_le : (n : Name) (vs : List Video) → weight (forget n vs) ≤ weight vs
unfolding forget
weight-forget_le n [] = omega arith
weight-forget_le n (v ∷ vs) = ground (arith, weight-forget_le n vs)

weight-forget :
    (n : Name) (v : Video) (vs : List Video)
    → video_of n vs ≡ some v
    → v.size + weight (forget n vs) ≤ weight vs
unfolding forget video_of
weight-forget n v [] e = cc
weight-forget n v (w ∷ vs) e = elim (Bool-cases (bytes_eq w.name n)) [
  | inl same ↦
      let here : some w ≡ some v = rw same at e in
      let is : v ≡ w = cc here in rw same (rw is (omega (arith, weight-forget_le n vs)))
  | inr other ↦ let rest = weight-forget n v vs (rw other at e) in rw other (omega (arith, rest))
]

-- What a request leaves: a video that was found is among those kept.
abbrev Kept : ℕ → Name → Option Video → List Video → Type 0
Kept room n none vs = weight vs ≤ room
Kept room n (some v) vs = (weight vs ≤ room) × (video_of n vs ≡ some v)

abbrev Fetches : ℕ → Name → Option (Option Video × List Video) → Type 0
Fetches room n r = (f : Option Video) × (vs : List Video) × (r ≡ some (f, vs)) × Kept room n f vs

fetch_dir :
    (unpack : Unpacked) (paths : List (Name × Name)) (room : ℕ) (n : Name) (vs : List Video)
    (path : Name)
    → weight vs ≤ room
    → Fits room (unpack path)
    → video_of n vs ≡ none
    → find_path n paths ≡ some path
    → Fetches room n (fetch unpack paths room n vs)
unfolding fetch kept video_of
fetch_dir unpack paths room n vs path light fits absent at_path =
    elim (Option-cases (unpack path)) [
      | inl failed ↦ (none, vs, rw (absent, fetch) (rw at_path (rw failed refl)), light)
      | inr (entries, at_dir) ↦
          let (files, read, small) : Fits room (some entries) = rw at_dir at fits in
          let v : Video = record { name = n; frames = files.0; size = files.1 } in
          let room_for : leb files.1 room ≡ true = ground (arith, small) in
          (
            some v,
            kept room (v ∷ vs),
            rw (absent, fetch) (rw at_path (rw at_dir (rw read (rw room_for refl)))),
            (weight-kept room (v ∷ vs), rw room_for (rw (bytes_eq_refl n) refl)),
          )
    ]

fetch-Fits :
    (unpack : Unpacked) (paths : List (Name × Name)) (room : ℕ) (n : Name) (vs : List Video)
    → weight vs ≤ room
    → ((path : Name) → Fits room (unpack path))
    → Fetches room n (fetch unpack paths room n vs)
unfolding fetch
fetch-Fits unpack paths room n vs light fits = elim (Option-cases (video_of n vs)) [
  | inr (v, there) ↦ (some v, vs, rw (there, fetch) refl, (light, there))
  | inl absent ↦ elim (Option-cases (find_path n paths)) [
    | inl unknown ↦ (none, vs, rw (absent, fetch) (rw unknown refl), light)
    | inr (path, at_path) ↦ fetch_dir unpack paths room n vs path light (fits path) absent at_path
  ]
]

frames_after :
    (room : ℕ) (n : Name) (r : Option (Option Video × List Video))
    → Fetches room n r
    → (code : ℤ) × (vs : List Video) × (r >>= frames_in ≡ some (code, vs)) × (weight vs ≤ room)
unfolding frames_in
frames_after room n r (none, vs, run, light) = (negsuc 0, vs, rw run refl, light)
frames_after room n r (some v, vs, run, (light, there)) =
    (to_int (length v.frames), vs, rw run refl, light)

picture_after :
    (room : ℕ) (n : Name) (id : ℤ) (content : ByteList) (r : Option (Option Video × List Video))
    → Fetches room n r
    → (code : ℤ) × (b : ByteList) × (vs : List Video) × (r >>= picture_in n id content
        ≡ some (code, b, vs))
      × (weight vs ≤ room)
unfolding picture_in
picture_after room n id content r (none, vs, run, light) =
    (negsuc 0, content, vs, rw run refl, light)
picture_after room n id content r (some v, vs, run, (light, there)) =
    let less : weight (v ∷ forget n vs) ≤ room = omega (arith, light, weight-forget n v vs there) in
    elim (Option-cases (find_frame id v.frames)) [
      | inl absent ↦
          (negsuc 0, content, v ∷ forget n vs, rw run (rw (absent, picture_in) refl), less)
      | inr (picture, found) ↦
          (pos 0, picture, v ∷ forget n vs, rw run (rw (found, picture_in) refl), less)
    ]

unpacked_size-Fits :
    (unpack : Unpacked) (room : ℕ) (path : Name)
    → Fits room (unpack path)
    → unpacked_size unpack path ≤ room
unfolding unpacked_size
unpacked_size-Fits unpack room path fits = elim (Option-cases (unpack path)) [
  | inl failed ↦ rw (failed, unpacked_size) (omega arith)
  | inr (entries, at_dir) ↦
      let (files, read, small) : Fits room (some entries) = rw at_dir at fits in
      rw (at_dir, unpacked_size) (rw read small)
]

-- The list and the map hold the same videos, which fit into the cache together.
pub record IsFit (m : Manager) : Type 0 where
  pub cells : List Cell
  pub held : Holds m cells
  pub light : total cells ≤ m.cache_size

shown_IsFit :
    (m m' : Manager) (vs : List Video) → Shows m m' vs → weight vs ≤ m.cache_size → IsFit m'
shown_IsFit m m' vs (cs, v, e, same) light = record {
  cells = cs;
  held = v;
  light =
      let sum : weight vs ≡ total cs = rw (sym e) (weight-videos cs) in
      omega (arith, light, sum, same.0);
}

sized :
    (m : Manager) (x : Option (ℤ × Manager)) (code : ℤ) (vs : List Video)
    → Sizes m x (some (code, vs))
    → weight vs ≤ m.cache_size
    → (m' : Manager) × (x ≡ some (code, m')) × IsFit m' × SameLimits m m'
sized m none code vs s light = absurd s
sized m (some (code', m')) code vs s light =
    (m', ap (λ c. some (c, m')) s.0, shown_IsFit m m' vs s.1 light, s.1.3)

answered :
    (m : Manager) (x : Option (ℤ × ByteList × Manager)) (code : ℤ) (b : ByteList) (vs : List Video)
    → Answers m x (some (code, b, vs))
    → weight vs ≤ m.cache_size
    → (m' : Manager) × (x ≡ some (code, b, m')) × IsFit m' × SameLimits m m'
answered m none code b vs s light = absurd s
answered m (some (code', b', m')) code b vs s light =
    (m', rw s.0 (rw s.1 refl), shown_IsFit m m' vs s.2 light, s.2.3)

module _ (unpack : Unpacked) (m : Manager) (fit : IsFit m)
    (fits : (path : Name) → Fits m.cache_size (unpack path)) (small : m.cache_size < 2 ^ 63) where
  no_overflow : (path : Name) → unpacked_size unpack path + total fit.cells < 2 ^ 64
  no_overflow path =
      omega (arith, small, fit.light, unpacked_size-Fits unpack m.cache_size path (fits path))

  light_videos : weight (videos fit.cells) ≤ m.cache_size
  light_videos = rw (weight-videos fit.cells) fit.light

  -- `LookupSize` answers, and leaves a cache whose videos fit.
  pub lookup_size-IsFit :
      (n : Name)
      → (code : ℤ) × (m' : Manager) × (lookup_size unpack n m ≡ some (code, m'))
        × IsFit m'
        × SameLimits m m'
  unfolding size_of
  lookup_size-IsFit n =
      let (code, vs, run, light) =
        frames_after m.cache_size n _
          (fetch-Fits unpack m.raw_path m.cache_size n (videos fit.cells) light_videos fits) in
      let refined = lookup_size-size_of unpack n m fit.cells fit.held no_overflow in
      let (m', done, fit', same) = sized m _ code vs (rw run at refined) light in
      (code, m', done, fit', same)

  -- `Lookup` answers, and leaves a cache whose videos fit.
  pub lookup-IsFit :
      (n : Name) (id : ℤ) (content : ByteList)
      → (code : ℤ) × (b : ByteList) × (m' : Manager) × (lookup unpack n id content m
          ≡ some (code, b, m'))
        × IsFit m'
        × SameLimits m m'
  unfolding picture_of
  lookup-IsFit n id content =
      let (code, b, vs, run, light) =
        picture_after m.cache_size n id content _
          (fetch-Fits unpack m.raw_path m.cache_size n (videos fit.cells) light_videos fits) in
      let refined = lookup-picture_of unpack n id content m fit.cells fit.held no_overflow in
      let (m', done, fit', same) = answered m _ code b vs (rw run at refined) light in
      (code, b, m', done, fit', same)

-- The manager after `LoadPath`, before the first request.
pub new_manager-IsFit :
    (cache_size : ℕ) (paths : List (Name × Name))
    → IsFit (record (new_manager cache_size) { raw_path = paths })
unfolding new_manager place_of find_name
new_manager-IsFit cache_size paths = record {
  cells = [];
  held = record {
    head_first = refl;
    tail_last = refl;
    linked = tt;
    apart = λ q. omega arith;
    named = λ n. omega arith;
    unique = tt;
    found = λ n. refl;
  };
  light = omega arith;
}
