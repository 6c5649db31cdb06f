-- ===== src/VideoDb/Valid.antt =====
-- When a `VideoDb` is well formed, and the map of names to frames that it stands for.
use video_match.Base.{
  ℕ, ◌+◌, ◌<◌, ◌≡◌, refl, Bool, true, ◌&&◌, not, List, [], ◌∷◌, ◌++◌, get_or-append, get_or-lt,
  Option, none, some, ◌==◌, ==_iff, if◌then◌else◌, length, member, any_of, arith, Name, bytes_eq,
  bytes_eq_iff, Bool-cases, inl, inr, set, ap,
}
use mathlib.Core.Path.{subst, subst₂}
use video_match.VideoDb.Index.{collect, total_size, ◌>>=◌}
use video_match.VideoDb.Blocks.{block, occurs}
use video_match.VideoDb.References.{Kept}
use video_match.VideoDb.Sets.{bit}
use video_match.VideoDb.{
  empty_frame, DataItem, Heap, item_at, NameMap, VideoDb, key_shorten, find_name,
}

-- The pointer `p` leads to a live item of the name `n` whose count has been set.
pub record Entry (h : Heap) (n : Name) (p : ℕ) : Type 0 where
  pub item : DataItem
  pub stored : item_at h p ≡ some item
  pub named : item.name ≡ n
  pub counted : item.uniq_frm_cnt ≡ length (collect [] item.frames)

-- Every name of the map leads to its item, and no name is there twice.
abbrev pub Entries : Heap → NameMap → Type 0
Entries h [] = Unit
Entries h ((n, p) ∷ db) = Entry h n p × (find_name n db ≡ none) × Entries h db

abbrev pub registered : ℕ → NameMap → Bool
registered p = any_of (λ e. e.1 == p)

abbrev pub frames_at : Heap → ℕ → List ℕ
frames_at h p = elim (item_at h p) [ none ↦ [] | some d ↦ d.frames ]

-- The frame is one of the non-empty frames of a video of the map.
abbrev pub indexed : VideoDb → ℕ → ℕ → Bool
indexed v k p = registered p v.db && (not (k == empty_frame) && member k (frames_at v.heap p))

-- The number of different non-empty frames, over all videos.
abbrev pub stored_frames : Heap → NameMap → ℕ
stored_frames h [] = 0
stored_frames h ((n, p) ∷ db) = length (collect [] (frames_at h p)) + stored_frames h db

-- The map leads to live items, each non-empty frame of a video stands once for the video in the
-- block of its slot and nothing else does, and no item is marked for deletion.
pub record IsValid (v : VideoDb) : Type 0 where
  pub entries : Entries v.heap v.db
  pub index : (k p : ℕ) → occurs k p (block (key_shorten k) v.table) ≡ bit (indexed v k p)
  pub kept : Kept v.heap
  pub total : total_size v.table ≡ stored_frames v.heap v.db

-- The abstract content of a database: the frames of each name.
abbrev pub Videos : Type 0
Videos = Name → Option (List ℕ)

unfoldable pub view : VideoDb → Videos
view v n = do p ← find_name n v.db; d ← item_at v.heap p; some d.frames

pub item_at-append :
    (h : Heap) (c : Option DataItem) (p : ℕ)
    → item_at (h ++ c ∷ []) p ≡ (if p == length h then c else item_at h p)
item_at-append h c p = get_or-append h p c none

pub set-append {ℓ} :
    {A : Type ℓ} (xs : List A) (x y : A) → set (xs ++ x ∷ []) (length xs) y ≡ xs ++ y ∷ []
set-append [] x y = refl
set-append (z ∷ xs) x y = ap (◌∷◌ z) (set-append xs x y)

pub item_at-lt : (h : Heap) (p : ℕ) {d : DataItem} → item_at h p ≡ some d → p < length h
item_at-lt h p e = get_or-lt h p e

pub Entry-lt : {h : Heap} {n : Name} {p : ℕ} → Entry h n p → p < length h
Entry-lt {h} {n} {p} e = item_at-lt h p e.stored

pub Entry-append :
    {h : Heap} {n : Name} {p : ℕ} (c : Option DataItem) → Entry h n p → Entry (h ++ c ∷ []) n p
Entry-append {h} {n} {p} c e = record {
  item = e.item;
  stored = ground (arith, item_at-append h c p, Entry-lt e, e.stored);
  named = e.named;
  counted = e.counted;
}

pub Entries-append :
    (h : Heap) (db : NameMap) (c : Option DataItem) → Entries h db → Entries (h ++ c ∷ []) db
Entries-append h [] c e = tt
Entries-append h ((n, p) ∷ db) c e = (Entry-append c e.0, e.1, Entries-append h db c e.2)

-- A pointer of the map lies below the end of the heap.
pub registered-lt :
    (h : Heap) (db : NameMap) (p : ℕ) → Entries h db → registered p db ≡ true → p < length h
registered-lt h [] p e r = cc
registered-lt h ((n, q) ∷ db) p e r = ground (arith, Entry-lt e.0, registered-lt h db p e.2)

pub registered-Entry :
    (h : Heap) (db : NameMap) (p : ℕ)
    → Entries h db
    → registered p db ≡ true
    → (n : Name) × Entry h n p
registered-Entry h [] p e r = absurd (cc)
registered-Entry h ((n, q) ∷ db) p e r = elim (Bool-cases (q == p)) [
  | inl same ↦ let s : q ≡ p = (==_iff q p).0 same in (n, subst (Entry h n) s e.0)
  | inr other ↦ registered-Entry h db p e.2 (rw other at r)
]

-- A name that is found leads to its item.
pub find_name-Entry :
    (h : Heap) (db : NameMap) (n : Name) (p : ℕ)
    → Entries h db
    → find_name n db ≡ some p
    → Entry h n p × (registered p db ≡ true)
unfolding find_name
find_name-Entry h [] n p e f = absurd (cc)
find_name-Entry h ((m, q) ∷ db) n p e f = elim (Bool-cases (bytes_eq m n)) [
  | inl same ↦
      let s : m ≡ n = (bytes_eq_iff m n).0 same in
      let t : q ≡ p = cc (rw same at f) in (subst₂ (Entry h) s t e.0, ground (arith, t))
  | inr other ↦
      let (found, there) = find_name-Entry h db n p e.2 (rw other at f) in
      (found, ground (arith, there))
]

pub frames_at-append :
    (h : Heap) (c : Option DataItem) (p : ℕ)
    → p < length h
    → frames_at (h ++ c ∷ []) p ≡ frames_at h p
frames_at-append h c p lt = ground (arith, item_at-append h c p)

pub stored_frames-append :
    (h : Heap) (db : NameMap) (c : Option DataItem)
    → Entries h db
    → stored_frames (h ++ c ∷ []) db ≡ stored_frames h db
stored_frames-append h [] c e = refl
stored_frames-append h ((n, p) ∷ db) c e = omega (
  arith,
  ap (λ fs. length (collect [] fs)) (frames_at-append h c p (Entry-lt e.0)),
  stored_frames-append h db c e.2,
)
