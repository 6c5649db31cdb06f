-- ===== src/DbFile/Loading.antt =====
-- What the loops of `VideoDB::Load` in server/VideoDB.cpp make of the map of names.
use video_match.Base.{
  ℕ, zero, suc, ◌+◌, ◌<◌, ◌≡◌, refl, false, true, Bool, List, [], ◌∷◌, ◌++◌, Option, none, some,
  any_of, length, leb, length-append, arith, ap, sym, ◌∙◌, pos, drop, Name, set, length-set,
  get_or-set, Option-cases, inl, inr, Bool-cases, bytes_eq, ◌==◌, if◌then◌else◌, append_assoc, not,
  map, ==_iff,
}
use mathlib.Core.Path.{fun_ext}
use video_match.DbFile.{ByteList, frame_bytes, item_head, item_bytes}
use video_match.DbFile.Load.{Loading, load_items, index_items}
use video_match.DbFile.Reading.{fits_format, loaded, with_item, load_item_at}
use video_match.VideoDb.Index.{collect, index_frames, add_frames_to_index}
use video_match.VideoDb.Refinement.{add_video, add_videos}
use video_match.VideoDb.Valid.{Videos, view, item_at-append}
use video_match.VideoDb.{DataItem, Heap, item_at, NameMap, VideoDb, find_name, insert_name, Orders}

abbrev pub freed : Option DataItem → Bool
freed none = true
freed (some d) = false

-- No cell has been freed, and all pointers of the map lie in the heap.
pub record Sound (h : Heap) (db : NameMap) : Type 0 where
  pub live : any_of freed h ≡ false
  pub below : any_of (λ e. leb (length h) e.1) db ≡ false

abbrev pub content_of : Heap → NameMap → Videos
content_of h db = view (record { heap = h; db = db; table = [] })

pub item_live :
    (h : Heap) (p : ℕ)
    → any_of freed h ≡ false
    → p < length h
    → (d : DataItem) × (item_at h p ≡ some d)
item_live [] p l lt = absurd (omega arith)
item_live (none ∷ h) p l lt = absurd (ground (arith, l))
item_live (some d ∷ h) zero l lt = (d, refl)
item_live (some d ∷ h) (suc p) l lt = item_live h p l (omega arith)

find_name-below :
    (db : NameMap) (n : Name) (k p : ℕ)
    → any_of (λ e. leb k e.1) db ≡ false
    → find_name n db ≡ some p
    → p < k
unfolding find_name
find_name-below [] n k p b f = absurd (cc)
find_name-below ((m, q) ∷ db) n k p b f = elim (Bool-cases (bytes_eq m n)) [
  | inl same ↦
      let t : some q ≡ some p = rw same at f in let s : q ≡ p = cc (t) in ground (arith, b, s)
  | inr other ↦ find_name-below db n k p (ground (arith, b)) (rw other at f)
]

any_of_more :
    (db : NameMap) (k : ℕ)
    → any_of (λ e. leb k e.1) db ≡ false
    → any_of (λ e. leb (k + 1) e.1) db ≡ false
any_of_more [] k b = refl
any_of_more ((m, q) ∷ db) k b =
    let rest = any_of_more db k (ground (arith, b)) in ground (arith, b, rest)

live-append :
    (h : Heap) (d : DataItem) → any_of freed h ≡ false → any_of freed (h ++ some d ∷ []) ≡ false
live-append [] d l = refl
live-append (none ∷ h) d l = absurd (ground (arith, l))
live-append (some e ∷ h) d l = live-append h d l

insert_name_free :
    (n : Name) (p : ℕ) (db : NameMap) → find_name n db ≡ none → insert_name n p db ≡ (n, p) ∷ db
unfolding insert_name
insert_name_free n p db free = rw (insert_name, free) refl

insert_name_taken :
    (n : Name) (p q : ℕ) (db : NameMap) → find_name n db ≡ some q → insert_name n p db ≡ db
unfolding insert_name
insert_name_taken n p q db taken = rw (insert_name, taken) refl

pub with_item-Sound :
    (n : Name) (d : DataItem) (h : Heap) (db : NameMap)
    → Sound h db
    → Sound (h ++ some d ∷ []) (insert_name n (length h) db)
with_item-Sound n d h db s =
    let e : length (h ++ some d ∷ []) ≡ length h + 1 = length-append h (some d ∷ []) in
    record {
      live = live-append h d s.live;
      below = rw e (elim (Option-cases (find_name n db)) [
        | inl free ↦
            rw (insert_name_free n (length h) db free)
              (ground (arith, any_of_more db (length h) s.below))
        | inr (p, taken) ↦
            rw (insert_name_taken n (length h) p db taken) (any_of_more db (length h) s.below)
      ]);
    }

-- A longer heap has the same content.
content-longer :
    (d : DataItem) (h : Heap) (db : NameMap) (m : Name)
    → Sound h db
    → content_of (h ++ some d ∷ []) db m ≡ content_of h db m
unfolding view
content-longer d h db m s = elim (Option-cases (find_name m db)) [
  | inl miss ↦ rw miss refl
  | inr (p, found) ↦
      let lt = find_name-below db m (length h) p s.below found in
      let same : item_at (h ++ some d ∷ []) p ≡ item_at h p =
        ground (arith, item_at-append h (some d) p, lt) in
      rw (found, same) refl
]

content_missing :
    (h : Heap) (db : NameMap) (m : Name) → find_name m db ≡ none → content_of h db m ≡ none
unfolding view
content_missing h db m miss = rw miss refl

content_found :
    (h : Heap) (db : NameMap) (m : Name) (p : ℕ)
    → Sound h db
    → find_name m db ≡ some p
    → (fs : List ℕ) × (content_of h db m ≡ some fs)
unfolding view
content_found h db m p s found =
    let (d, e) = item_live h p s.live (find_name-below db m (length h) p s.below found) in
    (d.frames, rw (found, e) refl)

content-insert :
    (d : DataItem) (h : Heap) (db : NameMap) (m : Name)
    → content_of (h ++ some d ∷ []) ((d.name, length h) ∷ db) m
      ≡ (if bytes_eq d.name m then some d.frames else content_of (h ++ some d ∷ []) db m)
unfolding view find_name
content-insert d h db m = elim (Bool-cases (bytes_eq d.name m)) [
  | inl same ↦ rw same (ground (arith, item_at-append h (some d) (length h)))
  | inr other ↦ rw other refl
]

add_video_free :
    (d : DataItem) (vs : Videos) (m : Name)
    → vs d.name ≡ none
    → add_video d vs m ≡ (if bytes_eq d.name m then some d.frames else vs m)
add_video_free d vs m free = rw (add_video, free) refl

add_video_taken :
    (d : DataItem) (vs : Videos) (m : Name) {fs : List ℕ}
    → vs d.name ≡ some fs
    → add_video d vs m ≡ vs m
add_video_taken d vs m taken = rw (add_video, taken) refl

with_item-content :
    (d : DataItem) (h : Heap) (db : NameMap) (m : Name)
    → Sound h db
    → content_of (h ++ some d ∷ []) (insert_name d.name (length h) db) m
      ≡ add_video d (content_of h db) m
with_item-content d h db m s = elim (Option-cases (find_name d.name db)) [
  | inl free ↦ rw (insert_name_free d.name (length h) db free) (
      content-insert d h db m
      ∙ ap (λ x. if bytes_eq d.name m then some d.frames else x) (content-longer d h db m s)
      ∙ sym (add_video_free d (content_of h db) m (content_missing h db d.name free)))
  | inr (p, taken) ↦
      let (fs, seen) = content_found h db d.name p s taken in
      rw (insert_name_taken d.name (length h) p db taken)
        (content-longer d h db m s ∙ sym (add_video_taken d (content_of h db) m seen))
]

-- The items of the list, read one after the other.
pub load_items_at :
    (file rest : ByteList) (items : List (Name × List ℕ)) (c : ℕ) (l : Loading)
    → l.cursor ≡ pos c
    → any_of (λ e. not (fits_format e)) items ≡ false
    → Sound l.heap l.db
    → drop c file ≡ item_bytes items ++ rest
    → (l' : Loading) × (load_items file (length items) l ≡ some l')
      × Sound l'.heap l'.db
      × (content_of l'.heap l'.db ≡ add_videos (map loaded items) (content_of l.heap l.db))
unfolding load_items
load_items_at file rest [] c l at ok s e = (l, refl, s, refl)
load_items_at file rest ((n, fs) ∷ items) c l at ok s e =
    let here =
      e
      ∙ append_assoc (item_head n fs ++ frame_bytes fs) (item_bytes items) rest
      ∙ append_assoc (item_head n fs) (frame_bytes fs) (item_bytes items ++ rest) in
    let fits : fits_format (n, fs) ≡ true = ground (arith, ok) in
    let (c1, cnt, runs, past) =
      load_item_at file (item_bytes items ++ rest) n fs c l at fits here in
    let d = loaded (n, fs) in
    let l1 = with_item (n, fs) c1 cnt l in
    let (l2, runs2, s2, content2) =
      load_items_at file rest items c1 l1 refl (ground (arith, ok))
        (with_item-Sound n d l.heap l.db s) past in
    (
      l2,
      rw runs runs2,
      s2,
      content2
          ∙ ap (add_videos (map loaded items)) (fun_ext (λ m. with_item-content d l.heap l.db m s)),
    )

-- Indexing an item counts its frames and leaves the content alone.
content-set :
    (h : Heap) (db : NameMap) (p : ℕ) (d d' : DataItem) (m : Name)
    → p < length h
    → item_at h p ≡ some d
    → d'.frames ≡ d.frames
    → content_of (set h p (some d')) db m ≡ content_of h db m
unfolding view
content-set h db p d d' m lt e same = elim (Option-cases (find_name m db)) [
  | inl miss ↦ rw miss refl
  | inr (q, found) ↦ rw found (elim (Bool-cases (p == q)) [
    | inl here ↦
        let t : p ≡ q = (==_iff p q).0 here in
        let u : item_at h q ≡ some d = rw (← t) e in
        rw (get_or-set h p q (some d') none lt, here, u) (ap some same)
    | inr other ↦ rw (get_or-set h p q (some d') none lt, other) refl
  ])
]

live-set :
    (h : Heap) (p : ℕ) (d : DataItem)
    → any_of freed h ≡ false
    → any_of freed (set h p (some d)) ≡ false
live-set [] p d l = refl
live-set (none ∷ h) p d l = absurd (ground (arith, l))
live-set (some e ∷ h) zero d l = l
live-set (some e ∷ h) (suc p) d l = live-set h p d l

pub view_content : (v : VideoDb) → view v ≡ content_of v.heap v.db
unfolding view
view_content v = refl

pub index_items_at :
    (orders : Orders) (ps : List ℕ) (v : VideoDb)
    → any_of (leb (length v.heap)) ps ≡ false
    → any_of freed v.heap ≡ false
    → (v' : VideoDb) × (index_items orders ps v ≡ some v') × (view v' ≡ view v)
unfolding index_items add_frames_to_index
index_items_at orders [] v b l = (v, refl, refl)
index_items_at orders (p ∷ ps) v b l =
    let lt : p < length v.heap = ground (arith, b) in
    let (d, e) = item_live v.heap p l lt in
    let counted = record d { uniq_frm_cnt = length (collect [] d.frames) } in
    let v1 = record v {
      heap = set v.heap p (some counted);
      table = index_frames p v.table (orders.frames.arrange (collect [] d.frames));
    } in
    let len : length v1.heap ≡ length v.heap = length-set v.heap p (some counted) in
    let (v2, runs, same) =
      index_items_at orders ps v1 (rw len (ground (arith, b))) (live-set v.heap p counted l) in
    (
      v2,
      rw e runs,
      same
          ∙ view_content v1
          ∙ fun_ext (λ m. content-set v.heap v.db p d counted m lt e refl)
          ∙ sym (view_content v),
    )
