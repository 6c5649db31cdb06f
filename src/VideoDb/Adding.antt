-- ===== src/VideoDb/Adding.antt =====
-- `VideoDB::Add` and `Query` by name against the map of names to frames.
use video_match.Base.{
  ℕ, ◌≡◌, refl, false, List, [], ◌∷◌, ◌++◌, Option, none, some, ◌==◌, ==_refl, if◌then◌else◌,
  length, arith, Name, bytes_eq, Bool-cases, Option-cases, inl, inr, ap, pos, negsuc, ◌∙◌,
}
use video_match.VideoDb.Index.{collect, index_frames, add_frames_to_index, add}
use video_match.VideoDb.Blocks.{
  block, occurs, occurs-index_frames, count-collect, total_size-index_frames,
}
use video_match.VideoDb.References.{Kept-append}
use video_match.VideoDb.Sets.{bit}
use video_match.VideoDb.Walks.{length-arrange}
use video_match.VideoDb.Valid.{
  frames_at, indexed, IsValid, view, item_at-append, set-append, Entry-lt, Entries-append,
  registered-lt, find_name-Entry, stored_frames-append,
}
use video_match.VideoDb.{
  DataItem, Heap, item_at, VideoDb, key_shorten, find_name, insert_name, copy_item, Orders,
}

pub item_at_last : (h : Heap) (c : Option DataItem) → item_at (h ++ c ∷ []) (length h) ≡ c
item_at_last h c = item_at-append h c (length h) ∙ rw (==_refl (length h)) refl

frames_at_last : (h : Heap) (c : DataItem) → frames_at (h ++ some c ∷ []) (length h) ≡ c.frames
frames_at_last h c = ground (arith, item_at_last h (some c))

module _ (orders : Orders) (d : DataItem) (v : VideoDb) where
  abbrev unique : List ℕ
  unique = collect [] d.frames

  -- The item that `Add` makes, once its frames have been counted.
  unfoldable pub made : DataItem
  made = record {
    uniq_frm_cnt = length unique;
    name = d.name;
    frames = d.frames;
    ref = pos 0;
    deleted = false;
  }

  -- The database with that item at the end of the heap.
  unfoldable pub after_add : VideoDb
  unfolding made
  after_add = record {
    heap = v.heap ++ some made ∷ [];
    db = (d.name, length v.heap) ∷ v.db;
    table = index_frames (length v.heap) v.table (orders.frames.arrange unique);
  }

  pub add-after_add : find_name d.name v.db ≡ none → add orders d v ≡ some (pos 0, after_add)
  unfolding add add_frames_to_index after_add copy_item insert_name
  add-after_add free = rw (free, add, insert_name, free) (rw (item_at_last, set-append) refl)

  pub add_taken : (p : ℕ) → find_name d.name v.db ≡ some p → add orders d v ≡ some (negsuc 0, v)
  unfolding add
  add_taken p taken = rw (taken, add) refl

  after_add-index :
      IsValid v
      → (k p : ℕ) → occurs k p (block (key_shorten k) after_add.table) ≡ bit (indexed after_add k p)
  unfolding after_add
  after_add-index valid k p = ground (
    arith,
    occurs-index_frames (length v.heap) k p v.table (orders.frames.arrange unique),
    orders.frames.arrange-count_if (λ x. x == k) unique,
    count-collect k [] d.frames,
    valid.index k p,
    registered-lt v.heap v.db p valid.entries,
    item_at-append v.heap (some made) p,
  )

  pub after_add-IsValid : IsValid v → find_name d.name v.db ≡ none → IsValid after_add
  unfolding after_add
  after_add-IsValid valid free = record {
    entries = (
      record {
        item = made;
        stored = item_at_last v.heap (some made);
        named = refl;
        counted = refl;
      },
      free,
      Entries-append v.heap v.db (some made) valid.entries,
    );
    index = unfold after_add in after_add-index valid;
    kept = Kept-append v.heap made valid.kept refl;
    total = omega (
      arith,
      total_size-index_frames (length v.heap) v.table (orders.frames.arrange unique),
      length-arrange orders.frames unique,
      stored_frames-append v.heap v.db (some made) valid.entries,
      ap (λ fs. length (collect [] fs)) (frames_at_last v.heap made),
      valid.total,
    );
  }

  pub view-after_add :
      IsValid v
      → (n : Name) → view after_add n ≡ (if bytes_eq d.name n then some d.frames else view v n)
  unfolding after_add view find_name
  view-after_add valid n = elim (Bool-cases (bytes_eq d.name n)) [
    | inl same ↦ rw same (rw item_at_last refl)
    | inr other ↦ rw other (elim (Option-cases (find_name n v.db)) [
      | inl miss ↦ rw miss refl
      | inr (p, found) ↦
          let e = (find_name-Entry v.heap v.db n p valid.entries found).0 in
          rw found (ground (arith, item_at-append v.heap (some made) p, Entry-lt e, e.stored))
    ])
  ]
