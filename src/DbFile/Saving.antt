-- ===== src/DbFile/Saving.antt =====
-- `VideoDB::Save` of server/VideoDB.cpp writes the file that the format says, and leaves the
-- database as it was.
use video_match.Base.{
  ℕ, ◌+◌, ◌-◌, ◌≤◌, ◌≡◌, refl, false, true, Bool, not, List, [], ◌∷◌, ◌++◌, none, some, any_of,
  length, leb, length-append, append-nil, ltb, arith, ap, sym, ◌∙◌, pos, set, ==_refl, Name, inl,
  inr, Option-cases,
}
use mathlib.Core.Path.{subst}
use video_match.DbFile.{ByteList, file_head, le_bytes, frame_bytes, item_head, item_bytes}
use video_match.DbFile.Bytes.{length-le_bytes}
use video_match.DbFile.Save.{Writer, block_size, put, check_flush, save_item, save_items, save}
use video_match.DbFile.Written.{
  joined, too_long, sent, Fits, Sends, Sends-trans, put_frames-Sends, put_flushed-Sends,
  flush-Sends, joined-append,
}
use video_match.VideoDb.Index.{to_int_small}
use video_match.VideoDb.References.{take_ref, set-modify, item_at-modify, drop_refs-take_refs, Kept}
use video_match.VideoDb.Walks.{any_of-arrange}
use video_match.VideoDb.Valid.{frames_at, IsValid, Entries}
use video_match.VideoDb.{DataItem, Heap, item_at, NameMap, VideoDb, inc_ref, dec_ref, Orders}

-- The names with their frames.
abbrev pub content : Heap → NameMap → List (Name × List ℕ)
content h [] = []
content h ((n, p) ∷ db) = (n, frames_at h p) ∷ content h db

-- Taking a reference and giving it back, as the loop over `db_` does.
ref_back :
    (h : Heap) (p : ℕ) {i : DataItem}
    → Kept h
    → item_at h p ≡ some i
    → (item_at (set h p (some (inc_ref i))) p ≡ some (inc_ref i))
      × (set (set h p (some (inc_ref i))) p (dec_ref (inc_ref i)) ≡ h)
ref_back h p {i} k e =
    let taken : set h p (some (inc_ref i)) ≡ take_ref p h =
      set-modify (λ j. some (inc_ref j)) p h e in
    let there : item_at (take_ref p h) p ≡ some (inc_ref i) =
      item_at-modify (λ j. some (inc_ref j)) p p h ∙ rw (==_refl p, e) refl in
    (
      ap (λ g. item_at g p) taken ∙ there,
      ap (λ g. set g p (dec_ref (inc_ref i))) taken
          ∙ set-modify dec_ref p (take_ref p h) there
          ∙ drop_refs-take_refs (p ∷ []) h k,
    )

length-item_head : (n : Name) (fs : List ℕ) → length (item_head n fs) ≡ 4 + length n + 1 + 4
unfolding le_bytes
length-item_head n fs = omega (
  arith,
  length-append (le_bytes 4 (length n)) (n ++ 0 ∷ le_bytes 4 (length fs)),
  length-append n (0 ∷ le_bytes 4 (length fs)),
  length-le_bytes 4 (length n),
  length-le_bytes 4 (length fs),
)

save_item-Sends :
    (n : Name) (p : ℕ) (h : Heap) (w : Writer) {i : DataItem}
    → Kept h
    → item_at h p ≡ some i
    → length n ≤ 8183
    → Fits w
    → (w' : Writer) × (save_item n p h w ≡ some (h, w'))
      × Sends (item_head n i.frames ++ frame_bytes i.frames) w w'
unfolding save_item
save_item-Sends n p h w {i} k e short f =
    let (there, back) = ref_back h p k e in
    let (w1, runs1, s1) =
      put_flushed-Sends (4 + length n + 1 + 4) (item_head n i.frames) w (omega arith)
        (omega (arith, length-item_head n i.frames)) f in
    let (w2, runs2, s2) = put_frames-Sends i.frames w1 s1.fits in
    (w2, rw (e, runs1, runs2, there, back) refl, Sends-trans s1 s2)

-- The item is there and its name has room in the buffer.
abbrev pub storable : Heap → Name × ℕ → Bool
storable h (n, p) = elim (item_at h p) [ none ↦ false | some d ↦ leb (length n) 8183 ]

save_items-Sends :
    (db : NameMap) (h : Heap) (w : Writer)
    → Kept h
    → any_of (λ e. not (storable h e)) db ≡ false
    → Fits w
    → (w' : Writer) × (save_items db h w ≡ some (h, w')) × Sends (item_bytes (content h db)) w w'
unfolding save_items
save_items-Sends [] h w k ok f =
    (w, refl, record { bytes_sent = sym (append-nil (sent w)); fits = f })
save_items-Sends ((n, p) ∷ db) h w k ok f = elim (Option-cases (item_at h p)) [
  | inl miss ↦ absurd (ground (arith, miss, ok))
  | inr (i, e) ↦
      let short : length n ≤ 8183 = ground (arith, e, ok) in
      let later : any_of (λ e. not (storable h e)) db ≡ false = ground (arith, e, ok) in
      let (w1, runs1, s1) = save_item-Sends n p h w k e short f in
      let (w2, runs2, s2) = save_items-Sends db h w1 k later s1.fits in
      let fs : frames_at h p ≡ i.frames = ground (arith, e) in
      (
        w2,
        rw runs1 runs2,
        subst (λ b. Sends b w w2)
            (ap (λ g. item_head n g ++ frame_bytes g ++ item_bytes (content h db)) (sym fs))
            (Sends-trans s1 s2),
      )
]

abbrev pub long_name : Name × ℕ → Bool
long_name e = ltb 8183 (length e.0)

Entries-storable :
    (h : Heap) (db : NameMap)
    → Entries h db
    → any_of long_name db ≡ false
    → any_of (λ e. not (storable h e)) db ≡ false
Entries-storable h [] e short = refl
Entries-storable h ((n, p) ∷ db) e short =
    let rest = Entries-storable h db e.2 (ground (arith, short)) in
    ground (arith, short, e.0.stored, rest)

-- The file of a database, its videos in the order in which the map is walked.
abbrev pub file_of : Orders → VideoDb → ByteList
file_of orders v =
    file_head (length v.db) ++ item_bytes (content v.heap (orders.names.arrange v.db))

-- The last flush is one of the whole block.
last_flush :
    (w : Writer)
    → Fits w
    → (joined (check_flush (block_size + 1) w).written ≡ sent w)
      × (any_of too_long (check_flush (block_size + 1) w).written ≡ false)
unfolding check_flush
last_flush w f =
    let small = to_int_small (block_size + 1) (omega arith) in
    let s = flush-Sends (block_size + 1) w f in
    let full : ltb (block_size - length w.block) (block_size + 1) ≡ true = ground arith in
    (
      rw (small, full)
          (joined-append w.written (w.block ∷ [])
            ∙ ap (◌++◌ (joined w.written)) (append-nil w.block)),
      s.fits.short,
    )

abbrev head_writer : ℕ → Writer
head_writer videos = record { block = file_head videos; written = [] }

head-Fits : (videos : ℕ) → Fits (head_writer videos)
head-Fits videos =
    let e = length-append (le_bytes 4 videos) (le_bytes 4 0) in
    record { room = omega (arith, e, length-le_bytes 4 videos, length-le_bytes 4 0); short = refl }

put-head :
    (videos : ℕ)
    → put (file_head videos) (record { block = []; written = [] }) ≡ some (head_writer videos)
unfolding put
put-head videos =
    let f = head-Fits videos in
    let fits : ltb block_size (0 + length (file_head videos)) ≡ false = ground (arith, f.room) in
    rw fits refl

save_runs :
    (orders : Orders) (v : VideoDb) (w : Writer)
    → save_items (orders.names.arrange v.db) v.heap (head_writer (length v.db)) ≡ some (v.heap, w)
    → save orders true v ≡ some (pos 0, (check_flush (block_size + 1) w).written, v)
unfolding save
save_runs orders v w runs = rw (put-head (length v.db)) (rw runs refl)

-- On a well-formed database whose names have at most 8183 bytes, `Save` does not write past its
-- block. It returns 0, leaves the database as it was, reference counts included, and the blocks
-- that it hands to `write`, each of at most 8192 bytes, are together the file of the database:
-- the signature, the number of videos, a zero, and each video's name and frames.
pub save-file_of :
    (orders : Orders) (v : VideoDb)
    → IsValid v
    → any_of long_name v.db ≡ false
    → (blocks : List ByteList) × (save orders true v ≡ some (pos 0, blocks, v))
      × (joined blocks ≡ file_of orders v)
      × (any_of too_long blocks ≡ false)
save-file_of orders v valid short =
    let db = orders.names.arrange v.db in
    let ok =
      any_of-arrange orders.names (λ e. not (storable v.heap e)) v.db
      ∙ (Entries-storable v.heap v.db valid.entries short) in
    let (w, runs, s) =
      save_items-Sends db v.heap (head_writer (length v.db)) valid.kept ok
        (head-Fits (length v.db)) in
    let (all, none_long) = last_flush w s.fits in
    (
      (check_flush (block_size + 1) w).written,
      save_runs orders v w runs,
      all ∙ s.bytes_sent,
      none_long,
    )
