-- ===== src/DbFile/Ready.antt =====
-- The invariant of the index after `VideoDB::Load` of server/VideoDB.cpp, for any file that it can
-- read.
use video_match.Base.{
  ℕ, ◌+◌, ◌^◌, ◌≡◌, refl, true, false, not, ◌&&◌, List, [], ◌∷◌, Option, none, some, any_of, leb,
  ◌==◌, ==_iff, ==_refl, if◌then◌else◌, length, count, count_if, map, member, arith, some_injective,
  Bool-cases, inl, inr, ap, ◌∙◌, sym, Name, ℤ, pos, pos_part, any_of-count_if, take, bytes_eq,
}
use mathlib.Core.Path.{subst}
use video_match.DbFile.Fresh.{>>=-eq-some, AllNamed, Fresh, load_items-Fresh}
use video_match.DbFile.Indexing.{
  frames-counted, block-reserve, total_size-reserve, counted_item, counted_at, counted_at_item,
  held, frames_in, Indexed, index_items-Indexed,
}
use video_match.DbFile.Load.{Loading, load, load_items, index_items, reserve, skip_blocks, read_int}
use video_match.DbFile.{ByteList, file_sig}
use video_match.VideoDb.Blocks.{block, occurs}
use video_match.VideoDb.Index.{collect, total_size}
use video_match.VideoDb.Refinement.{empty_db, empty_db-IsValid}
use video_match.VideoDb.Sets.{bit}
use video_match.VideoDb.Walks.{sum_of, sum_of-arrange}
use video_match.VideoDb.Valid.{Entries, registered, frames_at, stored_frames, IsValid}
use video_match.VideoDb.{
  empty_frame, DataItem, Heap, item_at, NameMap, Table, VideoDb, key_shorten, find_block,
  hsize_bits, Orders,
}

-- The pointers of the map.
abbrev pointers : NameMap → List ℕ
pointers = map (λ (e : Name × ℕ). e.1)

frames_in-pointers :
    (h : Heap) (db : NameMap)
    → frames_in h (pointers db)
      ≡ sum_of (λ (e : Name × ℕ). length (collect [] (frames_at h e.1))) db
frames_in-pointers h [] = refl
frames_in-pointers h ((n, p) ∷ db) =
    ap (λ x. length (collect [] (frames_at h p)) + x) (frames_in-pointers h db)

stored_frames-sum_of :
    (h : Heap) (db : NameMap)
    → stored_frames h db ≡ sum_of (λ (e : Name × ℕ). length (collect [] (frames_at h e.1))) db
stored_frames-sum_of h [] = refl
stored_frames-sum_of h ((n, p) ∷ db) =
    ap (λ x. length (collect [] (frames_at h p)) + x) (stored_frames-sum_of h db)

count-pointers :
    (p : ℕ) (db : NameMap) → count p (pointers db) ≡ count_if (λ (e : Name × ℕ). e.1 == p) db
count-pointers p [] = refl
count-pointers p ((n, q) ∷ db) = ap (λ x. bit (q == p) + x) (count-pointers p db)

-- A pointer above all those of a map is not in it.
count_if_above :
    (p : ℕ) (db : NameMap)
    → any_of (λ e. leb p e.1) db ≡ false
    → count_if (λ (e : Name × ℕ). e.1 == p) db ≡ 0
count_if_above p [] h = refl
count_if_above p ((n, q) ∷ db) h =
    let rest = count_if_above p db (ground (arith, h)) in ground (arith, h, rest)

-- No pointer is in the map twice.
count_if_falling :
    (h : Heap) (p : ℕ) (db : NameMap)
    → AllNamed h db
    → count_if (λ (e : Name × ℕ). e.1 == p) db ≡ bit (registered p db)
count_if_falling h p [] e = refl
count_if_falling h p ((n, q) ∷ db) e = elim (Bool-cases (q == p)) [
  | inl same ↦
      let s : any_of (λ x. leb p x.1) db ≡ false =
        subst (λ x. any_of (λ o. leb x o.1) db ≡ false) ((==_iff q p).0 same) e.2 in
      ground (arith, same, count_if_above p db s)
  | inr other ↦ ground (arith, other, count_if_falling h p db e.3)
]

count-walked :
    (orders : Orders) (h : Heap) (p : ℕ) (db : NameMap)
    → AllNamed h db
    → count p (pointers (orders.names.arrange db)) ≡ bit (registered p db)
count-walked orders h p db e =
    count-pointers p (orders.names.arrange db)
    ∙ orders.names.arrange-count_if (λ (e : Name × ℕ). e.1 == p) db
    ∙ count_if_falling h p db e

Entries-counted :
    (h h' : Heap) (db : NameMap)
    → AllNamed h db
    → ((p : ℕ) → registered p db ≡ true → item_at h' p ≡ counted_at h p)
    → Entries h' db
Entries-counted h h' [] e now = tt
Entries-counted h h' ((n, p) ∷ db) e now = (
  record {
    item = counted_item e.0.item;
    stored = now p (ground (arith, ==_refl p)) ∙ counted_at_item h p e.0.item e.0.stored;
    named = e.0.named;
    counted = refl;
  },
  e.1,
  Entries-counted h h' db e.3 (λ q there. now q (ground (arith, there))),
)

stored_frames-same :
    (h h' : Heap) (db : NameMap)
    → ((p : ℕ) → frames_at h' p ≡ frames_at h p)
    → stored_frames h' db ≡ stored_frames h db
stored_frames-same h h' [] same = refl
stored_frames-same h h' ((n, p) ∷ db) same =
    omega (arith, ap (λ fs. length (collect [] fs)) (same p), stored_frames-same h h' db same)

module _ (orders : Orders) (h : Heap) (db : NameMap) (t : Table) (v' : VideoDb) (fresh : Fresh h db)
    (bare : (q : ℕ) → block q t ≡ []) (no_frames : total_size t ≡ 0)
    (done : Indexed
      (pointers (orders.names.arrange db))
      (record { heap = h; db = db; table = t })
      v') where
  frames_done : (p : ℕ) → frames_at v'.heap p ≡ frames_at h p
  frames_done p =
      ap (λ (o : Option DataItem). elim o [ none ↦ [] | some d ↦ d.frames ]) (done.items p)
      ∙ frames-counted h p (member p (pointers (orders.names.arrange db)))

  member-walked : (p : ℕ) → member p (pointers (orders.names.arrange db)) ≡ registered p db
  member-walked p = ground (
    arith,
    count-walked orders h p db fresh.named,
    any_of-count_if (λ x. x == p) (pointers (orders.names.arrange db)),
  )

  items_done : (p : ℕ) → registered p db ≡ true → item_at v'.heap p ≡ counted_at h p
  items_done p there = done.items p ∙ rw (member-walked p, there) refl

  index_done :
      (k p : ℕ)
      → occurs k p (block (key_shorten k) v'.table) ≡ bit (registered p db && held v'.heap k p)
  index_done k p = ground (
    arith,
    done.index k p,
    ap (occurs k p) (bare (key_shorten k)),
    count-walked orders h p db fresh.named,
    ap (λ fs. not (k == empty_frame) && member k fs) (frames_done p),
  )

  Indexed-IsValid : IsValid v'
  Indexed-IsValid = record {
    entries =
        subst (Entries v'.heap) (sym done.same_db)
          (Entries-counted h v'.heap db fresh.named items_done);
    index = λ k p.
        index_done k p
        ∙ ap (λ names. bit (registered p names && held v'.heap k p)) (sym done.same_db);
    kept = done.kept fresh.kept;
    total =
        let walked : total_size v'.table ≡ frames_in h (pointers (orders.names.arrange db)) =
          omega (arith, done.total, no_frames) in
        walked
        ∙ frames_in-pointers h (orders.names.arrange db)
        ∙ sum_of-arrange (λ (e : Name × ℕ). length (collect [] (frames_at h e.1))) orders.names db
        ∙ sym (stored_frames-sum_of h db)
        ∙ sym (stored_frames-same h v'.heap db frames_done)
        ∙ ap (stored_frames v'.heap) (sym done.same_db);
  }

pair_second : {x y : ℤ × VideoDb} → some x ≡ some y → x.1 ≡ y.1
pair_second h = ap (λ (r : ℤ × VideoDb). r.1) (some_injective h)

-- `Load` into an empty database, of any file that it can read, leaves a well-formed database.
pub load-IsValid :
    (orders : Orders) (found : Option ByteList) {c : ℤ} {v' : VideoDb}
    → load orders found empty_db ≡ some (c, v')
    → IsValid v'
unfolding load find_block total_size
load-IsValid orders none {c} {v'} h = subst IsValid (pair_second h) empty_db-IsValid
load-IsValid orders (some file) {c} {v'} h =
    let s = if bytes_eq (take (length file_sig) file) file_sig then length file_sig else 0 in
    let (db_size, e1, h1) = >>=-eq-some (read_int file (pos s)) _ h in
    let (kb_num, e2, h2) = >>=-eq-some (read_int file (pos (s + 4))) _ h1 in
    let start : Loading = record { cursor = pos (s + 8); heap = []; db = []; hslot_cnt = λ _. 0 } in
    let (l, e3, h3) = >>=-eq-some (load_items file (pos_part db_size) start) _ h2 in
    let table = reserve (2 ^ hsize_bits) 0 l.hslot_cnt [] in
    let v0 : VideoDb = record { heap = l.heap; db = l.db; table = table } in
    let ps = pointers (orders.names.arrange l.db) in
    let (v1, e4, h4) = >>=-eq-some (index_items orders ps v0) _ h3 in
    let (s', e5, h5) = >>=-eq-some (skip_blocks file (pos_part kb_num) l.cursor) _ h4 in
    let fresh : Fresh l.heap l.db =
      load_items-Fresh file (pos_part db_size) start e3
        (record { sound = record { live = refl; below = refl }; named = tt; kept = tt }) in
    subst IsValid (pair_second h5) (
      Indexed-IsValid orders l.heap l.db table v1 fresh
        (λ q. block-reserve q (2 ^ hsize_bits) 0 l.hslot_cnt [])
        (total_size-reserve (2 ^ hsize_bits) 0 l.hslot_cnt [])
        (index_items-Indexed orders ps v0 e4))
