-- ===== src/VideoDb/Refinement.antt =====
-- The abstract database, a map from names to frames, and how `Add` and `Query` by name of
-- server/VideoDB.cpp act on it.
use video_match.Base.{
  ℕ, ◌≡◌, refl, false, ap, ◌∙◌, List, [], ◌∷◌, Option, none, some, if◌then◌else◌, Name, bytes_eq,
  Option-cases, inl, inr, ℤ, pos, negsuc, arith,
}
use mathlib.Core.Path.{fun_ext}
use video_match.VideoDb.Index.{◌>>=◌, add, query_name, frames_count, to_int, total_size}
use video_match.VideoDb.Adding.{
  after_add, add-after_add, add_taken, after_add-IsValid, view-after_add,
}
use video_match.VideoDb.Valid.{Entry, IsValid, view, Videos, find_name-Entry, stored_frames}
use video_match.VideoDb.{DataItem, VideoDb, find_name, find_block, assign_item, Orders}

-- A video is entered under a free name; a name that is taken keeps its frames.
abbrev pub add_video : DataItem → Videos → Videos
add_video d vs n = elim (vs d.name) [
  | some _ ↦ vs n
  | none ↦ if bytes_eq d.name n then some d.frames else vs n
]

abbrev pub add_code : Option (List ℕ) → ℤ
add_code none = pos 0
add_code (some _) = negsuc 0

abbrev pub query_answer : Name → DataItem → Option (List ℕ) → ℤ × DataItem
query_answer n q none = (negsuc 0, q)
query_answer n q (some fs) =
    (pos 0, record q { name = n; frames = fs; ref = pos 0; deleted = false })

pub view_missing : (v : VideoDb) (n : Name) → find_name n v.db ≡ none → view v n ≡ none
unfolding view
view_missing v n h = rw h refl

pub view_found :
    (v : VideoDb) (n : Name) (p : ℕ)
    → IsValid v
    → find_name n v.db ≡ some p
    → (e : Entry v.heap n p) × (view v n ≡ some e.item.frames)
unfolding view
view_found v n p valid h =
    let e = (find_name-Entry v.heap v.db n p valid.entries h).0 in (e, rw (h, e.stored) refl)

-- The empty database of the constructor.
abbrev pub empty_db : VideoDb
empty_db = record { heap = []; db = []; table = [] }

-- What `Add` of `d` has to do to `v`: no fault, the code, the invariant and the new content.
pub record Adds (orders : Orders) (d : DataItem) (v : VideoDb) (r : ℤ × VideoDb) : Type 0 where
  pub runs : add orders d v ≡ some r
  pub valid : IsValid r.1
  pub code : r.0 ≡ add_code (view v d.name)
  pub content : (n : Name) → view r.1 n ≡ add_video d (view v) n

-- On a well-formed database `Add` does not fault, returns 0 if the name is free and -1 if it is
-- taken, leaves the database well formed, and acts on its content as `add_video`.
pub add-Adds :
    (orders : Orders) (d : DataItem) (v : VideoDb)
    → IsValid v
    → (r : ℤ × VideoDb) × Adds orders d v r
add-Adds orders d v valid = elim (Option-cases (find_name d.name v.db)) [
  | inl free ↦ (
    (pos 0, after_add orders d v),
    record {
      runs = add-after_add orders d v free;
      valid = after_add-IsValid orders d v valid free;
      code = rw (view_missing v d.name free) refl;
      content = λ n. ground (arith, view_missing v d.name free, view-after_add orders d v valid n);
    },
  )
  | inr (p, taken) ↦
      let (e, seen) = view_found v d.name p valid taken in
      (
        (negsuc 0, v),
        record {
          runs = add_taken orders d v p taken;
          valid = valid;
          code = rw seen refl;
          content = λ n. ground (arith, seen);
        },
      )
]

-- On a well-formed database `Query` by name does not fault. It returns 0 and copies the name and
-- the frames of a stored video, and returns -1 and leaves the item alone if there is none.
pub query_name-view :
    (n : Name) (q : DataItem) (v : VideoDb)
    → IsValid v
    → query_name n q v ≡ some (query_answer n q (view v n))
unfolding query_name assign_item
query_name-view n q v valid = elim (Option-cases (find_name n v.db)) [
  | inl miss ↦ rw (view_missing v n miss, miss, query_name) refl
  | inr (p, found) ↦
      let (e, seen) = view_found v n p valid found in
      rw (seen, found, query_name, e.stored) (rw e.named refl)
]

-- `FramesCount` is the number of different non-empty frames, summed over the stored videos.
frames_count-stored_frames :
    (v : VideoDb) → IsValid v → frames_count v ≡ to_int (stored_frames v.heap v.db)
unfolding frames_count
frames_count-stored_frames v valid = rw valid.total refl

-- The constructor's database is well formed and has no video.
pub empty_db-IsValid : IsValid empty_db
unfolding find_block total_size
empty_db-IsValid = record { entries = tt; index = λ k p. refl; kept = tt; total = refl }

-- Adding the items of a list one after the other.
unfoldable pub add_each : Orders → List DataItem → VideoDb → Option VideoDb
add_each orders [] v = some v
add_each orders (d ∷ ds) v = do r ← add orders d v; add_each orders ds r.1

abbrev pub add_videos : List DataItem → Videos → Videos
add_videos [] vs = vs
add_videos (d ∷ ds) vs = add_videos ds (add_video d vs)

-- Any sequence of `Add` calls on a well-formed database runs to its end without a fault, leaves a
-- well-formed database, and acts on the content as the sequence of `add_video`.
pub add_each-content :
    (orders : Orders) (ds : List DataItem) (v : VideoDb)
    → IsValid v
    → (v' : VideoDb) × (add_each orders ds v ≡ some v')
      × IsValid v'
      × (view v' ≡ add_videos ds (view v))
unfolding add_each
add_each-content orders [] v valid = (v, refl, valid, refl)
add_each-content orders (d ∷ ds) v valid =
    let (r, a) = add-Adds orders d v valid in
    let (v', runs, valid', content) = add_each-content orders ds r.1 a.valid in
    (v', rw a.runs runs, valid', content ∙ ap (add_videos ds) (fun_ext a.content))
