-- ===== src/DbFile/Restored.antt =====
-- `VideoDB::Load` of server/VideoDB.cpp after `VideoDB::Save`: the content of the database comes
-- back.
use video_match.Base.{
  ℕ, ◌≡◌, refl, false, true, Bool, ◌&&◌, ◌||◌, suc, not, List, [], ◌∷◌, Option, none, some, any_of,
  length, leb, arith, ap, ◌∙◌, Name, map, ◌==◌, ==_iff, Option-cases, inl, inr, Bool-cases,
  bytes_eq, bytes_eq_iff, if◌then◌else◌,
}
use video_match.DbFile.Load.{Loading, index_items}
use video_match.DbFile.Loading.{Sound, content_of, index_items_at, view_content}
use video_match.DbFile.Reading.{fits_format, loaded}
use video_match.DbFile.Saving.{content}
use video_match.VideoDb.Refinement.{add_video, add_videos}
use video_match.VideoDb.Walks.{any_of-arrange}
use video_match.VideoDb.Valid.{Videos, view, IsValid, Entries, frames_at, find_name-Entry}
use video_match.VideoDb.{Heap, Table, NameMap, VideoDb, find_name, Orders}

-- The first item of a name in a list.
pub first_of : List (Name × List ℕ) → Name → Option (List ℕ)
first_of [] n = none
first_of ((m, fs) ∷ items) n = if bytes_eq m n then some fs else first_of items n

unfoldable pub or_first : Option (List ℕ) → Option (List ℕ) → Option (List ℕ)
or_first none b = b
or_first (some a) b = some a

pub add_videos-first_of :
    (items : List (Name × List ℕ)) (vs : Videos) (n : Name)
    → add_videos (map loaded items) vs n ≡ or_first (vs n) (first_of items n)
unfolding first_of or_first
add_videos-first_of [] vs n = ground arith
add_videos-first_of ((m, fs) ∷ items) vs n =
    add_videos-first_of items (add_video (loaded (m, fs)) vs) n ∙ elim (Bool-cases (bytes_eq m n)) [
      | inl same ↦ let t : m ≡ n = (bytes_eq_iff m n).0 same in ground (arith, same, ap vs t)
      | inr other ↦ ground (arith, other)
    ]

-- In a map without the name the list has no item of it; in one where every entry of the name has
-- the pointer `p`, its item is that of `p`.
first_of-none :
    (h : Heap) (db : NameMap) (n : Name)
    → any_of (λ e. bytes_eq e.0 n) db ≡ false
    → first_of (content h db) n ≡ none
unfolding first_of
first_of-none h [] n a = refl
first_of-none h ((m, p) ∷ db) n a =
    let rest = first_of-none h db n (ground (arith, a)) in ground (arith, a, rest)

first_of-some :
    (h : Heap) (db : NameMap) (n : Name) (p : ℕ)
    → any_of (λ e. bytes_eq e.0 n && not (e.1 == p)) db ≡ false
    → any_of (λ e. bytes_eq e.0 n) db ≡ true
    → first_of (content h db) n ≡ some (frames_at h p)
unfolding first_of
first_of-some h [] n p only a = absurd (cc)
first_of-some h ((m, q) ∷ db) n p only a = elim (Bool-cases (bytes_eq m n)) [
  | inl same ↦
      let e : (q == p) ≡ true = ground (arith, same, only) in
      let t : q ≡ p = (==_iff q p).0 e in rw same (ap (λ x. some (frames_at h x)) t)
  | inr other ↦ rw other (first_of-some h db n p (ground (arith, only)) (ground (arith, a, other)))
]

missing_name :
    (db : NameMap) (n : Name) → find_name n db ≡ none → any_of (λ e. bytes_eq e.0 n) db ≡ false
unfolding find_name
missing_name [] n f = refl
missing_name ((m, q) ∷ db) n f = elim (Bool-cases (bytes_eq m n)) [
  | inl same ↦ absurd (cc (rw same at f))
  | inr other ↦ let rest = missing_name db n (rw other at f) in ground (arith, other, rest)
]

weaken :
    (db : NameMap) (n : Name) (p : ℕ)
    → any_of (λ e. bytes_eq e.0 n) db ≡ false
    → any_of (λ e. bytes_eq e.0 n && not (e.1 == p)) db ≡ false
weaken [] n p a = refl
weaken ((m, q) ∷ db) n p a = let rest = weaken db n p (ground (arith, a)) in ground (arith, a, rest)

found_name :
    (h : Heap) (db : NameMap) (n : Name) (p : ℕ)
    → Entries h db
    → find_name n db ≡ some p
    → (any_of (λ e. bytes_eq e.0 n && not (e.1 == p)) db ≡ false)
      × (any_of (λ e. bytes_eq e.0 n) db ≡ true)
unfolding find_name
found_name h [] n p e f = absurd (cc)
found_name h ((m, q) ∷ db) n p e f = elim (Bool-cases (bytes_eq m n)) [
  | inl same ↦
      let t : some q ≡ some p = rw same at f in
      let s : q ≡ p = cc (t) in
      let i : (q == p) ≡ true = (==_iff q p).1 s in
      let u : m ≡ n = (bytes_eq_iff m n).0 same in
      let gone : find_name n db ≡ none = rw (← u) e.1 in
      let none_left = weaken db n p (missing_name db n gone) in
      (ground (arith, same, i, none_left), ground (arith, same))
  | inr other ↦
      let r = found_name h db n p e.2 (rw other at f) in
      (ground (arith, other, r.0), ground (arith, r.1))
]

pub first_of-content :
    (orders : Orders) (v : VideoDb) (n : Name)
    → IsValid v
    → first_of (content v.heap (orders.names.arrange v.db)) n ≡ view v n
unfolding view
first_of-content orders v n valid = elim (Option-cases (find_name n v.db)) [
  | inl miss ↦ rw miss (
      first_of-none v.heap (orders.names.arrange v.db) n
        (any_of-arrange orders.names (λ e. bytes_eq e.0 n) v.db ∙ missing_name v.db n miss))
  | inr (p, found) ↦
      let (only, some_there) = found_name v.heap v.db n p valid.entries found in
      let e = (find_name-Entry v.heap v.db n p valid.entries found).0 in
      let fs : frames_at v.heap p ≡ e.item.frames = ground (arith, e.stored) in
      rw (found, e.stored)
        (first_of-some v.heap (orders.names.arrange v.db) n p
            (any_of-arrange orders.names (λ e. bytes_eq e.0 n && not (e.1 == p)) v.db ∙ only)
            (any_of-arrange orders.names (λ e. bytes_eq e.0 n) v.db ∙ some_there)
          ∙ ap some fs)
]

pub length-content : (h : Heap) (db : NameMap) → length (content h db) ≡ length db
length-content h [] = refl
length-content h ((n, p) ∷ db) = ap suc (length-content h db)

-- The file cannot hold the entry.
abbrev pub unfit : Heap → Name × ℕ → Bool
unfit h (n, p) = not (fits_format (n, frames_at h p))

pub unfit-content :
    (h : Heap) (db : NameMap)
    → any_of (unfit h) db ≡ false
    → any_of (λ e. not (fits_format e)) (content h db) ≡ false
unfit-content h [] a = refl
unfit-content h ((n, p) ∷ db) a =
    let rest = unfit-content h db (ground (arith, a)) in ground (arith, a, rest)

-- The pointers of a sound map, walked in any order, lie in the heap.
any_of-map :
    (db : NameMap) (k : ℕ) → any_of (leb k) (map (λ e. e.1) db) ≡ any_of (λ e. leb k e.1) db
any_of-map [] k = refl
any_of-map ((n, p) ∷ db) k = ap (λ b. leb k p || b) (any_of-map db k)

-- What follows the loop over the items.
pub index_loaded :
    (orders : Orders) (l : Loading) (t : Table)
    → Sound l.heap l.db
    → (v' : VideoDb) × (index_items orders
          (map (λ (e : Name × ℕ). e.1) (orders.names.arrange l.db))
          (record { heap = l.heap; db = l.db; table = t })
        ≡ some v')
      × (view v' ≡ content_of l.heap l.db)
index_loaded orders l t s =
    let ps = map (λ (e : Name × ℕ). e.1) (orders.names.arrange l.db) in
    let v0 : VideoDb = record { heap = l.heap; db = l.db; table = t } in
    let below : any_of (leb (length l.heap)) ps ≡ false =
      any_of-map (orders.names.arrange l.db) (length l.heap)
      ∙ any_of-arrange orders.names (λ e. leb (length l.heap) e.1) l.db
      ∙ s.below in
    let (v', runs, same) = index_items_at orders ps v0 below s.live in
    (v', runs, same ∙ view_content v0)
