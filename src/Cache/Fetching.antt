-- ===== src/Cache/Fetching.antt =====
-- The start of `Lookup` and `LookupSize` of browse_server/main.cpp against the list of videos that
-- the cache promises.
use video_match.Base.{
  ℕ, ◌+◌, ◌-◌, ◌<◌, ◌^◌, ◌≡◌, refl, List, [], ◌∷◌, Option, none, some, leb, if◌then◌else◌,
  Bool-cases, Option-cases, inl, inr, ◌∙◌, sym, Name, bytes_eq_refl, pos, negsuc,
}
use video_match.Cache.Files.{Frames, DirEntry, read_files}
use video_match.Cache.Chain.{Cell}
use video_match.Cache.Names.{place_of, Named, total}
use video_match.Cache.Trimming.{fitting, check_cache_overflow-Holds}
use video_match.Cache.Pushing.{push_front-Holds, new_cell}
use video_match.Cache.Holds.{Holds}
use video_match.Cache.Lru.{
  Video, video_of, video_of_absent, video_of-at, At, cell-At, video, videos, kept, kept-videos,
  fetch,
}
use video_match.Cache.{Manager, Unpacked, find_path, load, find_or_load}
use video_match.VideoDb.Index.{◌>>=◌}
use video_match.VideoDb.{find_name}

-- The bytes of the pictures that unpacking leaves; 0 where it fails.
unfoldable pub unpacked_size : Unpacked → Name → ℕ
unpacked_size unpack path = elim (unpack path) [
  | none ↦ 0
  | some entries ↦ elim (read_files entries ([], 0)) [ none ↦ 0 | some files ↦ files.1 ]
]

-- The manager goes on with the same room and the same list of paths.
abbrev pub SameLimits : Manager → Manager → Type 0
SameLimits m m' = (m'.cache_size ≡ m.cache_size) × (m'.raw_path ≡ m.raw_path)

-- The pointer found is to the item of the video found.
abbrev pub Located : Name → List Cell → Option ℕ → Option Video → Type 0
Located n cs none none = Unit
Located n cs none (some v) = ⊥
Located n cs (some p) none = ⊥
Located n cs (some p) (some v) = (place : At n p cs) × (video place.cell ≡ v)

abbrev pub Fetched :
    Name → Manager → Option (Option ℕ × Manager) → Option (Option Video × List Video) → Type 0
Fetched n m none none = Unit
Fetched n m none (some (v, vs)) = ⊥
Fetched n m (some (p, m')) none = ⊥
Fetched n m (some (p, m')) (some (v, vs)) =
    (cs : List Cell) × Holds m' cs × (videos cs ≡ vs) × SameLimits m m' × Located n cs p v

video_of_found :
    (n : Name) (p : ℕ) (cs : List Cell)
    → Named cs
    → (place : At n p cs) → video_of n (videos cs) ≡ some (video place.cell)
video_of_found n p cs a place =
    let there = video_of-at place.ls place.rs place.cell (rw place.parts at a) in
    rw place.parts (rw (sym place.named) there)

-- A video that is not there is loaded.
load_new :
    (unpack : Unpacked) (n : Name) (m : Manager) (cs : List Cell)
    → Holds m cs
    → (path : Name) (entries : List DirEntry) (files : Frames × ℕ) → find_name n m.loaded ≡ none
    → find_path n m.raw_path ≡ some path
    → unpack path ≡ some entries
    → read_files entries ([], 0) ≡ some files
    → files.1 + total cs < 2 ^ 64
    → (m' : Manager) × (load unpack n m ≡ some (pos 0, m'))
      × Holds m' (fitting m.cache_size (new_cell n files m ∷ cs))
      × SameLimits m m'
unfolding load
load_new unpack n m cs v path entries files fresh at_path at_dir read small =
    let (m1, pushed, v1, same_size, same_paths) = push_front-Holds m cs n files v fresh in
    let (m2, trimmed, v2, same_size', same_paths') = check_cache_overflow-Holds m1 _ v1 small in
    (
      m2,
      rw (at_path, load) (rw at_dir (rw read (rw pushed (rw trimmed refl)))),
      rw same_size at v2,
      (same_size' ∙ same_size, same_paths' ∙ same_paths),
    )

find_or_load_loaded :
    (unpack : Unpacked) (n : Name) (m m' : Manager)
    → find_name n m.loaded ≡ none
    → load unpack n m ≡ some (pos 0, m')
    → find_or_load unpack n m ≡ (do p ← find_name n m'.loaded; some (some p, m'))
unfolding find_or_load
find_or_load_loaded unpack n m m' fresh loaded = rw (fresh, find_or_load) (rw loaded refl)

fetch_loaded :
    (unpack : Unpacked) (n : Name) (m : Manager) (vs : List Video)
    → (path : Name) (entries : List DirEntry) (files : Frames × ℕ) → video_of n vs ≡ none
    → find_path n m.raw_path ≡ some path
    → unpack path ≡ some entries
    → read_files entries ([], 0) ≡ some files
    → fetch unpack m.raw_path m.cache_size n vs ≡ (
        let v : Video = record { name = n; frames = files.0; size = files.1 } in
        if leb files.1 m.cache_size then some (some v, kept m.cache_size (v ∷ vs)) else none)
unfolding fetch
fetch_loaded unpack n m vs path entries files absent at_path at_dir read =
    rw (absent, fetch) (rw at_path (rw at_dir (rw read refl)))

-- Loading the video `n`, whose files are read, where the first cell would be its own.
fetch_new :
    (unpack : Unpacked) (n : Name) (m : Manager) (cs : List Cell)
    → Holds m cs
    → (path : Name) (entries : List DirEntry) (files : Frames × ℕ) → find_name n m.loaded ≡ none
    → find_path n m.raw_path ≡ some path
    → unpack path ≡ some entries
    → read_files entries ([], 0) ≡ some files
    → files.1 + total cs < 2 ^ 64
    → Fetched n m (find_or_load unpack n m) (fetch unpack m.raw_path m.cache_size n (videos cs))
unfolding fitting place_of
fetch_new unpack n m cs v path entries files fresh at_path at_dir read small =
    let (m', loaded, v', same) =
      load_new unpack n m cs v path entries files fresh at_path at_dir read small in
    let run = find_or_load_loaded unpack n m m' fresh loaded in
    let absent = video_of_absent n cs (sym (v.found n) ∙ fresh) in
    let promised =
      fetch_loaded unpack n m (videos cs) path entries files absent at_path at_dir read in
    let c = new_cell n files m in
    rw (run, Fetched)
      (rw (promised, Fetched)
        (elim (Bool-cases (leb files.1 m.cache_size)) [
          | inl fits ↦
              let first : place_of n (fitting m.cache_size (c ∷ cs)) ≡ some c.place =
                rw fits (rw (bytes_eq_refl n) refl) in
              rw (v'.found n) (
                rw first (
                  rw fits (
                    _,
                    v',
                    sym (kept-videos m.cache_size (c ∷ cs)),
                    same,
                    (
                      record {
                        ls = [];
                        cell = c;
                        rs = fitting (m.cache_size - files.1) cs;
                        parts = rw fits refl;
                        placed = refl;
                        named = refl;
                      },
                      refl,
                    ),
                  )))
          | inr wide ↦
              let gone : place_of n (fitting m.cache_size (c ∷ cs)) ≡ none = rw wide refl in
              rw (v'.found n) (rw gone (rw wide tt))
        ]))

not_loaded :
    (unpack : Unpacked) (n : Name) (m : Manager)
    → find_name n m.loaded ≡ none
    → load unpack n m ≡ some (negsuc 0, m)
    → find_or_load unpack n m ≡ some (none, m)
unfolding find_or_load
not_loaded unpack n m fresh failed = rw (fresh, find_or_load) (rw failed refl)

already_loaded :
    (unpack : Unpacked) (n : Name) (m : Manager) (p : ℕ)
    → find_name n m.loaded ≡ some p
    → find_or_load unpack n m ≡ some (some p, m)
unfolding find_or_load
already_loaded unpack n m p there = rw (there, find_or_load) refl

fetch_absent :
    (unpack : Unpacked) (n : Name) (m : Manager) (cs : List Cell)
    → Holds m cs
    → find_name n m.loaded ≡ none
    → load unpack n m ≡ some (negsuc 0, m)
    → fetch unpack m.raw_path m.cache_size n (videos cs) ≡ some (none, videos cs)
    → Fetched n m (find_or_load unpack n m) (fetch unpack m.raw_path m.cache_size n (videos cs))
fetch_absent unpack n m cs v fresh failed promised =
    rw (not_loaded unpack n m fresh failed, Fetched)
      (rw (promised, Fetched) (cs, v, refl, (refl, refl), tt))

fetch_dir :
    (unpack : Unpacked) (n : Name) (m : Manager) (cs : List Cell)
    → Holds m cs
    → (path : Name) → unpacked_size unpack path + total cs < 2 ^ 64
    → find_name n m.loaded ≡ none
    → find_path n m.raw_path ≡ some path
    → Fetched n m (find_or_load unpack n m) (fetch unpack m.raw_path m.cache_size n (videos cs))
unfolding fetch load find_or_load unpacked_size
fetch_dir unpack n m cs v path small fresh at_path =
    let absent = video_of_absent n cs (sym (v.found n) ∙ fresh) in
    elim (Option-cases (unpack path)) [
      | inl failed ↦
          fetch_absent unpack n m cs v fresh (rw (at_path, load) (rw failed refl))
            (rw (absent, fetch) (rw at_path (rw failed refl)))
      | inr (entries, at_dir) ↦ elim (Option-cases (read_files entries ([], 0))) [
        | inl fault ↦
            rw (fresh, find_or_load, Fetched)
              (rw at_path
                (rw at_dir (rw fault (rw (absent, fetch) (rw at_path (rw at_dir (rw fault tt)))))))
        | inr (files, read) ↦
            let bytes : unpacked_size unpack path ≡ files.1 =
              rw (at_dir, unpacked_size) (rw read refl) in
            fetch_new unpack n m cs v path entries files fresh at_path at_dir read
              (rw bytes at small)
      ]
    ]

pub find_or_load-fetch :
    (unpack : Unpacked) (n : Name) (m : Manager) (cs : List Cell)
    → Holds m cs
    → ((path : Name) → unpacked_size unpack path + total cs < 2 ^ 64)
    → Fetched n m (find_or_load unpack n m) (fetch unpack m.raw_path m.cache_size n (videos cs))
unfolding fetch load
find_or_load-fetch unpack n m cs v small = elim (Option-cases (find_name n m.loaded)) [
  | inr (p, there) ↦
      let place = cell-At n p cs (sym (v.found n) ∙ there) in
      let promised : fetch unpack m.raw_path m.cache_size n (videos cs)
          ≡ some (some (video place.cell), videos cs) =
        rw (video_of_found n p cs v.named place, fetch) refl in
      rw (already_loaded unpack n m p there, Fetched)
        (rw (promised, Fetched) (cs, v, refl, (refl, refl), (place, refl)))
  | inl fresh ↦ elim (Option-cases (find_path n m.raw_path)) [
    | inr (path, at_path) ↦ fetch_dir unpack n m cs v path (small path) fresh at_path
    | inl unknown ↦
        let absent = video_of_absent n cs (sym (v.found n) ∙ fresh) in
        fetch_absent unpack n m cs v fresh (rw (unknown, load) refl)
          (rw (absent, fetch) (rw unknown refl))
  ]
]
