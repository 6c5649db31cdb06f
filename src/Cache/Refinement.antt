-- ===== src/Cache/Refinement.antt =====
-- `Lookup` and `LookupSize` of browse_server/main.cpp implement the list of videos of Cache/Lru.antt.
use video_match.Base.{
  ℕ, ◌+◌, ◌<◌, ◌^◌, ◌≡◌, refl, List, [], ◌∷◌, ◌++◌, Option, none, some, Option-cases, inl, inr, ◌∙◌,
  ap, sym, Name, ℤ, ==_refl,
}
use video_match.Cache.Files.{ByteList, find_frame}
use video_match.Cache.Chain.{Cell, item_of, first_or, Links-split}
use video_match.Cache.Names.{total}
use video_match.Cache.Holds.{Holds}
use video_match.Cache.ToFront.{move_to_front-Holds}
use video_match.Cache.Lru.{
  Video, At, video, videos, forget, forget-at, frames_in, size_of, picture_in, picture_of,
}
use video_match.Cache.Fetching.{SameLimits, Fetched, unpacked_size, find_or_load-fetch}
use video_match.Cache.{
  Manager, Unpacked, item_at, frames_at, lookup_size, move_to_front, picture_at, lookup,
}
use video_match.VideoDb.Index.{◌>>=◌}

-- The manager holds just these videos, in this order.
abbrev pub Shows : Manager → Manager → List Video → Type 0
Shows m m' vs = (cs : List Cell) × Holds m' cs × (videos cs ≡ vs) × SameLimits m m'

abbrev pub Sizes : Manager → Option (ℤ × Manager) → Option (ℤ × List Video) → Type 0
Sizes m none none = Unit
Sizes m none (some s) = ⊥
Sizes m (some r) none = ⊥
Sizes m (some (code, m')) (some (code', vs)) = (code ≡ code') × Shows m m' vs

abbrev pub Answers :
    Manager → Option (ℤ × ByteList × Manager) → Option (ℤ × ByteList × List Video) → Type 0
Answers m none none = Unit
Answers m none (some s) = ⊥
Answers m (some r) none = ⊥
Answers m (some (code, content, m')) (some (code', content', vs)) =
    (code ≡ code') × (content ≡ content') × Shows m m' vs

moved :
    (m : Manager) (ls rs : List Cell) (c : Cell)
    → Holds m (ls ++ c ∷ rs)
    → (m' : Manager) × (move_to_front c.place m ≡ some m')
      × Holds m' (c ∷ ls ++ rs)
      × SameLimits m m'
unfolding move_to_front
moved m [] rs c v =
    (m, rw (v.head_first, move_to_front) (rw (==_refl c.place) refl), v, (refl, refl))
moved m (l ∷ ls) rs c v =
    let (m', run, v', same_size, same_paths) = move_to_front-Holds m l ls rs c v in
    (m', run, v', (same_size, same_paths))

frames_found :
    (m m' : Manager) (ls rs : List Cell) (c : Cell)
    → Holds m' (ls ++ c ∷ rs)
    → SameLimits m m'
    → Sizes m (frames_at (some c.place, m')) (frames_in (some (video c), videos (ls ++ c ∷ rs)))
unfolding frames_at frames_in
frames_found m m' ls rs c v same =
    let at_c = (Links-split m'.heap none none ls (c ∷ rs) v.linked).1.0 in
    rw (at_c, Sizes) (refl, (_, v, refl, same))

picture_found :
    (m m' : Manager) (ls rs : List Cell) (c : Cell) (id : ℤ) (content : ByteList)
    → Holds m' (ls ++ c ∷ rs)
    → SameLimits m m'
    → Answers m
        (picture_at id content (some c.place, m'))
        (picture_in c.name id content (some (video c), videos (ls ++ c ∷ rs)))
unfolding picture_at picture_in
picture_found m m' ls rs c id content v same =
    let (m2, run, v', same') = moved m' ls rs c v in
    let at_c : item_at m2.heap c.place ≡ some (item_of c none (first_or none (ls ++ rs))) =
      v'.linked.0 in
    let left : video c ∷ videos (ls ++ rs) ≡ video c ∷ forget c.name (videos (ls ++ c ∷ rs)) =
      ap (◌∷◌ (video c)) (sym (forget-at ls rs c v.named)) in
    let both : SameLimits m m2 = (same'.0 ∙ same.0, same'.1 ∙ same.1) in
    rw (run, Answers)
      (rw at_c (elim (Option-cases (find_frame id c.frames)) [
        | inl absent ↦ rw (absent, picture_in) (refl, refl, (c ∷ ls ++ rs, v', left, both))
        | inr (picture, there) ↦ rw (there, picture_in) (refl, refl, (c ∷ ls ++ rs, v', left, both))
      ]))

frames_located :
    (n : Name) (p : ℕ) (m m' : Manager) (cs : List Cell)
    → Holds m' cs
    → SameLimits m m'
    → (place : At n p cs)
    → Sizes m (frames_at (some p, m')) (frames_in (some (video place.cell), videos cs))
frames_located n p m m' cs v same place =
    rw (sym place.placed, Sizes)
      (rw (place.parts, Sizes)
        (frames_found m m' place.ls place.rs place.cell (rw place.parts at v) same))

picture_located :
    (n : Name) (p : ℕ) (id : ℤ) (content : ByteList) (m m' : Manager) (cs : List Cell)
    → Holds m' cs
    → SameLimits m m'
    → (place : At n p cs)
    → Answers m
        (picture_at id content (some p, m'))
        (picture_in n id content (some (video place.cell), videos cs))
picture_located n p id content m m' cs v same place =
    rw (sym place.placed, Answers)
      (rw (place.parts, Answers)
        (rw (sym place.named, Answers)
          (picture_found m m' place.ls place.rs place.cell id content (rw place.parts at v) same)))

frames-Fetched :
    (n : Name) (m : Manager) (x : Option (Option ℕ × Manager))
    (y : Option (Option Video × List Video))
    → Fetched n m x y
    → Sizes m (x >>= frames_at) (y >>= frames_in)
unfolding frames_at frames_in
frames-Fetched n m none none f = tt
frames-Fetched n m none (some (v, vs)) f = absurd f
frames-Fetched n m (some (p, m')) none f = absurd f
frames-Fetched n m (some (none, m')) (some (none, vs)) (cs, v, e, same, at_n) =
    (refl, (cs, v, e, same))
frames-Fetched n m (some (none, m')) (some (some w, vs)) (cs, v, e, same, at_n) = absurd at_n
frames-Fetched n m (some (some p, m')) (some (none, vs)) (cs, v, e, same, at_n) = absurd at_n
frames-Fetched n m (some (some p, m')) (some (some w, vs)) (cs, v, e, same, (place, is)) =
    rw (sym is) (rw (sym e) (frames_located n p m m' cs v same place))

picture-Fetched :
    (n : Name) (id : ℤ) (content : ByteList) (m : Manager) (x : Option (Option ℕ × Manager))
    (y : Option (Option Video × List Video))
    → Fetched n m x y
    → Answers m (x >>= picture_at id content) (y >>= picture_in n id content)
unfolding picture_at picture_in
picture-Fetched n id content m none none f = tt
picture-Fetched n id content m none (some (v, vs)) f = absurd f
picture-Fetched n id content m (some (p, m')) none f = absurd f
picture-Fetched n id content m (some (none, m')) (some (none, vs)) (cs, v, e, same, at_n) =
    (refl, refl, (cs, v, e, same))
picture-Fetched n id content m (some (none, m')) (some (some w, vs)) (cs, v, e, same, at_n) =
    absurd at_n
picture-Fetched n id content m (some (some p, m')) (some (none, vs)) (cs, v, e, same, at_n) =
    absurd at_n
picture-Fetched n id content m (some (some p, m')) (some (some w, vs))
      (cs, v, e, same, (place, is)) =
    rw (sym is, Answers) (rw (sym e, Answers) (picture_located n p id content m m' cs v same place))

-- `LookupSize` against the list of videos: where the map and the list of the cache hold the videos
-- `cs` and no directory would make their sizes add up to 2 ^ 64, it faults just when the list says
-- so, and else gives the same number and leaves the videos that the list has then.
pub lookup_size-size_of :
    (unpack : Unpacked) (n : Name) (m : Manager) (cs : List Cell)
    → Holds m cs
    → ((path : Name) → unpacked_size unpack path + total cs < 2 ^ 64)
    → Sizes m (lookup_size unpack n m) (size_of unpack m.raw_path m.cache_size n (videos cs))
unfolding lookup_size size_of
lookup_size-size_of unpack n m cs v small =
    frames-Fetched n m _ _ (find_or_load-fetch unpack n m cs v small)

-- `Lookup` against the list of videos: where the map and the list of the cache hold the videos `cs`
-- and no directory would make their sizes add up to 2 ^ 64, it faults just when the list says so,
-- and else gives the same code and the same picture, and leaves a well-formed cache of the videos
-- that the list has then, in the same order.
pub lookup-picture_of :
    (unpack : Unpacked) (n : Name) (id : ℤ) (content : ByteList) (m : Manager) (cs : List Cell)
    → Holds m cs
    → ((path : Name) → unpacked_size unpack path + total cs < 2 ^ 64)
    → Answers m
        (lookup unpack n id content m)
        (picture_of unpack m.raw_path m.cache_size n id content (videos cs))
unfolding lookup picture_of
lookup-picture_of unpack n id content m cs v small =
    picture-Fetched n id content m _ _ (find_or_load-fetch unpack n m cs v small)
