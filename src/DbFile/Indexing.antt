-- ===== src/DbFile/Indexing.antt =====
-- What the second loop of `VideoDB::Load` makes of the items that the first one entered: the index
-- of the frames.
use video_match.Base.{
  ℕ, zero, suc, ◌+◌, ◌≡◌, refl, Bool, true, false, not, ◌&&◌, List, [], ◌∷◌, Option, none, some,
  ◌==◌, ==_iff, if◌then◌else◌, length, count, member, set, get_or-set, arith, Option-cases,
  some_injective, Bool-cases, inl, inr, ap, ◌∙◌, sym,
}
use mathlib.Core.Path.{subst}
use video_match.DbFile.Fresh.{}
use video_match.DbFile.Load.{index_items, reserve}
use video_match.VideoDb.Blocks.{
  block, occurs, occurs-index_frames, count-collect, total_size-index_frames, block-insert_block,
  total_size-insert_block,
}
use video_match.VideoDb.Index.{collect, index_frames, total_size, add_frames_to_index, ◌>>=◌}
use video_match.VideoDb.References.{Kept}
use video_match.VideoDb.Sets.{bit}
use video_match.VideoDb.Valid.{frames_at, item_at-lt}
use video_match.VideoDb.Walks.{length-arrange}
use video_match.VideoDb.{
  empty_frame, DataItem, Heap, item_at, Table, VideoDb, key_shorten, insert_block, Orders,
}

-- Empty blocks hold no frames.
pub block-reserve :
    (q rounds i : ℕ) (cnt : ℕ → ℕ) (t : Table) → block q (reserve rounds i cnt t) ≡ block q t
unfolding reserve
block-reserve q zero i cnt t = refl
block-reserve q (suc rounds) i cnt t =
    block-reserve q rounds (i + 1) cnt (if cnt i == 0 then t else insert_block i [] t)
    ∙ ground (arith, block-insert_block q i t)

pub total_size-reserve :
    (rounds i : ℕ) (cnt : ℕ → ℕ) (t : Table) → total_size (reserve rounds i cnt t) ≡ total_size t
unfolding reserve
total_size-reserve zero i cnt t = refl
total_size-reserve (suc rounds) i cnt t = ground (
  arith,
  total_size-reserve rounds (i + 1) cnt (if cnt i == 0 then t else insert_block i [] t),
  total_size-insert_block i t,
)

-- The item with its frames counted.
abbrev pub counted_item : DataItem → DataItem
counted_item d = record d { uniq_frm_cnt = length (collect [] d.frames) }

abbrev pub counted_at : Heap → ℕ → Option DataItem
counted_at h p = elim (item_at h p) [ none ↦ none | some d ↦ some (counted_item d) ]

-- The frame is one of the non-empty frames of the item.
abbrev pub held : Heap → ℕ → ℕ → Bool
held h k p = not (k == empty_frame) && member k (frames_at h p)

abbrev pub frames_in : Heap → List ℕ → ℕ
frames_in h [] = 0
frames_in h (p ∷ ps) = length (collect [] (frames_at h p)) + frames_in h ps

-- The database after the items of the list have been indexed.
pub record Indexed (ps : List ℕ) (v v' : VideoDb) : Type 0 where
  pub same_db : v'.db ≡ v.db
  pub index :
      (k p : ℕ)
      → occurs k p (block (key_shorten k) v'.table)
        ≡ occurs k p (block (key_shorten k) v.table) + (if held v.heap k p then count p ps else 0)
  pub items :
      (p : ℕ) → item_at v'.heap p ≡ (if member p ps then counted_at v.heap p else item_at v.heap p)
  pub kept : Kept v.heap → Kept v'.heap
  pub total : total_size v'.table ≡ total_size v.table + frames_in v.heap ps

Kept-set :
    (h : Heap) (p : ℕ) (d d' : DataItem)
    → item_at h p ≡ some d
    → d'.deleted ≡ d.deleted
    → Kept h
    → Kept (set h p (some d'))
Kept-set [] p d d' at same k = k
Kept-set (none ∷ h) zero d d' at same k = absurd (cc at)
Kept-set (some e ∷ h) zero d d' at same k =
    (same ∙ ap (λ (x : DataItem). x.deleted) (sym (some_injective at)) ∙ k.0, k.1)
Kept-set (none ∷ h) (suc p) d d' at same k = Kept-set h p d d' at same k
Kept-set (some e ∷ h) (suc p) d d' at same k = (k.0, Kept-set h p d d' at same k.1)

frames_at_item : (h : Heap) (p : ℕ) (d : DataItem) → item_at h p ≡ some d → frames_at h p ≡ d.frames
frames_at_item h p d at = ap (λ (o : Option DataItem). elim o [ none ↦ [] | some d ↦ d.frames ]) at

pub counted_at_item :
    (h : Heap) (p : ℕ) (d : DataItem)
    → item_at h p ≡ some d
    → counted_at h p ≡ some (counted_item d)
counted_at_item h p d at =
    ap (λ (o : Option DataItem). elim o [ none ↦ none | some d ↦ some (counted_item d) ]) at

-- Counting the frames of an item leaves its frames alone, and is done once.
pub frames-counted :
    (h : Heap) (q : ℕ) (b : Bool)
    → elim (if b then counted_at h q else item_at h q) [ none ↦ [] | some d ↦ d.frames ]
      ≡ frames_at h q
frames-counted h q false = refl
frames-counted h q true = ground arith

counted-counted :
    (h : Heap) (q : ℕ) (b : Bool)
    → elim (if b then counted_at h q else item_at h q) [
      | none ↦ none
      | some d ↦ some (counted_item d)
    ]
      ≡ counted_at h q
counted-counted h q false = refl
counted-counted h q true = ground arith

none_some : {A : Type 0} {a : A} {P : Type 0} → none ≡ some a → P
none_some h = absurd (cc h)

add_frames_to_index_miss :
    (orders : Orders) (p : ℕ) (v : VideoDb)
    → item_at v.heap p ≡ none
    → add_frames_to_index orders p v ≡ none
unfolding add_frames_to_index
add_frames_to_index_miss orders p v miss = rw (miss, add_frames_to_index) refl

module _ (orders : Orders) (p : ℕ) (v : VideoDb) (d : DataItem)
    (at : item_at v.heap p ≡ some d) where
  abbrev index_one : VideoDb
  index_one = record v {
    heap = set v.heap p (some (counted_item d));
    table = index_frames p v.table (orders.frames.arrange (collect [] d.frames));
  }

  add_frames_to_index_at : add_frames_to_index orders p v ≡ some index_one
  unfolding add_frames_to_index
  add_frames_to_index_at = rw (at, add_frames_to_index) refl

  items-index_one :
      (q : ℕ)
      → item_at index_one.heap q ≡ (if p == q then counted_at v.heap q else item_at v.heap q)
  items-index_one q =
      get_or-set v.heap p q (some (counted_item d)) none (item_at-lt v.heap p at)
      ∙ elim (Bool-cases (p == q)) [
        | inl same ↦
            let e : some (counted_item d) ≡ counted_at v.heap q = sym (
              subst (λ x. counted_at v.heap x ≡ some (counted_item d)) ((==_iff p q).0 same)
                (counted_at_item v.heap p d at)) in
            rw same e
        | inr other ↦ rw other refl
      ]

  index-index_one :
      (k q : ℕ)
      → occurs k q (block (key_shorten k) index_one.table)
        ≡ occurs k q (block (key_shorten k) v.table) + (if p == q then bit (held v.heap k p) else 0)
  index-index_one k q =
      let e : frames_at v.heap p ≡ d.frames = frames_at_item v.heap p d at in
      (ground (
        arith,
        e,
        occurs-index_frames p k q v.table (orders.frames.arrange (collect [] d.frames)),
        orders.frames.arrange-count_if (λ x. x == k) (collect [] d.frames),
        count-collect k [] d.frames,
      ))

  total-index_one :
      total_size index_one.table ≡ total_size v.table + length (collect [] (frames_at v.heap p))
  total-index_one =
      let e : frames_at v.heap p ≡ d.frames = frames_at_item v.heap p d at in
      (omega (
        arith,
        ap (λ fs. length (collect [] fs)) e,
        total_size-index_frames p v.table (orders.frames.arrange (collect [] d.frames)),
        length-arrange orders.frames (collect [] d.frames),
      ))

  frames-index_one : (q : ℕ) → frames_at index_one.heap q ≡ frames_at v.heap q
  frames-index_one q =
      ap (λ (o : Option DataItem). elim o [ none ↦ [] | some d ↦ d.frames ]) (items-index_one q)
      ∙ frames-counted v.heap q (p == q)

  counted-index_one : (q : ℕ) → counted_at index_one.heap q ≡ counted_at v.heap q
  counted-index_one q =
      ap (λ (o : Option DataItem). elim o [ none ↦ none | some d ↦ some (counted_item d) ])
        (items-index_one q)
      ∙ counted-counted v.heap q (p == q)

  frames_in-index_one : (ps : List ℕ) → frames_in index_one.heap ps ≡ frames_in v.heap ps
  frames_in-index_one [] = refl
  frames_in-index_one (q ∷ ps) =
      omega (arith, ap (λ fs. length (collect [] fs)) (frames-index_one q), frames_in-index_one ps)

  held-index_one : (k q : ℕ) → held index_one.heap k q ≡ held v.heap k q
  held-index_one k q = ap (λ fs. not (k == empty_frame) && member k fs) (frames-index_one q)

  -- One round, and then the rest of the loop.
  Indexed-index_one : (ps : List ℕ) {v' : VideoDb} → Indexed ps index_one v' → Indexed (p ∷ ps) v v'
  Indexed-index_one ps {v'} i = record {
    same_db = i.same_db;
    index =
        λ k q. ground (arith, i.index k q, index-index_one k q, held-index_one k q, (==_iff p q).0);
    items = λ q. elim (Bool-cases (member q ps)) [
      | inl later ↦ i.items q ∙ rw later (counted-index_one q ∙ ground (arith, later))
      | inr never ↦ i.items q ∙ rw never (items-index_one q ∙ ground arith)
    ];
    kept = λ k. i.kept (Kept-set v.heap p d (counted_item d) at refl k);
    total = omega (arith, i.total, total-index_one, frames_in-index_one ps);
  }

-- Every item of the list is indexed.
pub index_items-Indexed :
    (orders : Orders) (ps : List ℕ) (v : VideoDb) {v' : VideoDb}
    → index_items orders ps v ≡ some v'
    → Indexed ps v v'
unfolding index_items
index_items-Indexed orders [] v h = subst (Indexed [] v) (some_injective h) (record {
  same_db = refl;
  index = λ k p. ground arith;
  items = λ p. refl;
  kept = λ k. k;
  total = omega arith;
})
index_items-Indexed orders (p ∷ ps) v {v'} h = elim (Option-cases (item_at v.heap p)) [
  | inl miss ↦
      none_some (
        (sym (ap (λ o. o >>= index_items orders ps) (add_frames_to_index_miss orders p v miss))
          ∙ h))
  | inr (d, at) ↦
      let rest : index_items orders ps (index_one orders p v d at) ≡ some v' =
        sym (ap (λ o. o >>= index_items orders ps) (add_frames_to_index_at orders p v d at)) ∙ h in
      Indexed-index_one orders p v d at ps
        (index_items-Indexed orders ps (index_one orders p v d at) rest)
]
