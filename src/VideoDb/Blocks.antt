-- ===== src/VideoDb/Blocks.antt =====
-- What the table of key blocks holds after frames have been indexed.
use video_match.Base.{
  ℕ, suc, ◌+◌, ◌≡◌, refl, ◌&&◌, not, List, [], ◌∷◌, ◌++◌, none, some, ◌==◌, ==_iff, ==_refl,
  if◌then◌else◌, length, length-append, count, count_if, count_if-append, Bool-cases, Option-cases,
  ap, inl, inr, arith, member, max,
}
use video_match.VideoDb.Index.{collect, index_frame, index_frames, total_size}
use video_match.VideoDb.Sets.{insert, count-insert, bit}
use video_match.VideoDb.{
  empty_frame, KeyBlock, Table, key_shorten, find_block, insert_block, push_back,
}

-- The block of a slot; a slot with no block counts as empty.
abbrev pub block : ℕ → Table → KeyBlock
block q t = elim (find_block q t) [ none ↦ [] | some kb ↦ kb ]

-- How often a frame of an item stands in a block.
abbrev pub occurs : ℕ → ℕ → KeyBlock → ℕ
occurs k p = count_if (λ e. e.0 == k && e.1 == p)

find_block-push_back :
    (q s : ℕ) (e : ℕ × ℕ) (t : Table)
    → find_block q (push_back s e t)
      ≡ elim (find_block q t) [ none ↦ none | some kb ↦ some (if s == q then kb ++ e ∷ [] else kb) ]
unfolding find_block push_back
find_block-push_back q s e [] = refl
find_block-push_back q s e ((s', kb) ∷ t) = ground (arith, find_block-push_back q s e t)

find_block-insert_block :
    (q s : ℕ) (t : Table)
    → find_block s t ≡ none
    → find_block q (insert_block s [] t) ≡ (if s == q then some [] else find_block q t)
unfolding find_block insert_block
find_block-insert_block q s t h = ground arith

insert_block_taken :
    (s : ℕ) (t : Table) (kb : KeyBlock) → find_block s t ≡ some kb → insert_block s [] t ≡ t
unfolding insert_block
insert_block_taken s t kb there = rw (there, insert_block) refl

-- A block that is empty changes nothing.
pub block-insert_block : (q s : ℕ) (t : Table) → block q (insert_block s [] t) ≡ block q t
unfolding find_block insert_block
block-insert_block q s t = elim (Option-cases (find_block s t)) [
  | inl miss ↦ ground (arith, find_block-insert_block q s t miss, (==_iff s q).0, miss)
  | inr (kb, there) ↦ ap (block q) (insert_block_taken s t kb there)
]

total_size-push_back :
    (s : ℕ) (e : ℕ × ℕ) (t : Table)
    → total_size (push_back s e t)
      ≡ elim (find_block s t) [ none ↦ total_size t | some _ ↦ suc (total_size t) ]
unfolding find_block push_back total_size
total_size-push_back s e [] = refl
total_size-push_back s e ((s', kb) ∷ t) =
    ground (arith, total_size-push_back s e t, length-append kb (e ∷ []))

pub total_size-insert_block : (s : ℕ) (t : Table) → total_size (insert_block s [] t) ≡ total_size t
unfolding insert_block total_size
total_size-insert_block s t = ground arith

module _ (di : ℕ) where
  -- Indexing a frame appends one pair to the block of its slot.
  pub block-index_frame :
      (q : ℕ) (t : Table) (k : ℕ)
      → block q (index_frame di t k)
        ≡ (if key_shorten k == q then block q t ++ (k, di) ∷ [] else block q t)
  unfolding index_frame
  block-index_frame q t k = ground (
    arith,
    find_block-push_back q (key_shorten k) (k, di) t,
    find_block-push_back q (key_shorten k) (k, di) (insert_block (key_shorten k) [] t),
    find_block-insert_block q (key_shorten k) t,
  )

  pub total_size-index_frame :
      (t : Table) (k : ℕ) → total_size (index_frame di t k) ≡ suc (total_size t)
  unfolding index_frame
  total_size-index_frame t k = ground (
    arith,
    total_size-push_back (key_shorten k) (k, di) t,
    total_size-push_back (key_shorten k) (k, di) (insert_block (key_shorten k) [] t),
    find_block-insert_block (key_shorten k) (key_shorten k) t,
    total_size-insert_block (key_shorten k) t,
  )

  pub total_size-index_frames :
      (t : Table) (ks : List ℕ) → total_size (index_frames di t ks) ≡ total_size t + length ks
  unfolding index_frames
  total_size-index_frames t [] = omega arith
  total_size-index_frames t (k ∷ ks) =
      omega (arith, total_size-index_frames (index_frame di t k) ks, total_size-index_frame t k)

  occurs-index_frame :
      (k p : ℕ) (t : Table) (x : ℕ)
      → occurs k p (block (key_shorten k) (index_frame di t x))
        ≡ occurs k p (block (key_shorten k) t) + bit (di == p && x == k)
  occurs-index_frame k p t x = rw block-index_frame (elim (Bool-cases (x == k)) [
    | inl same ↦
        let e : x ≡ k = (==_iff x k).0 same in
        rw (e, ==_refl (key_shorten k), ==_refl k)
          (ground (
            arith,
            count_if-append (λ (o : ℕ × ℕ). o.0 == k && o.1 == p) (block (key_shorten k) t)
                ((k, di) ∷ []),
          ))
    | inr other ↦ rw other (
        ground (
          arith,
          count_if-append (λ (o : ℕ × ℕ). o.0 == k && o.1 == p) (block (key_shorten k) t)
              ((x, di) ∷ []),
        ))
  ])

  -- A frame of an item stands in its block once more for each time that it was indexed.
  pub occurs-index_frames :
      (k p : ℕ) (t : Table) (ks : List ℕ)
      → occurs k p (block (key_shorten k) (index_frames di t ks))
        ≡ occurs k p (block (key_shorten k) t) + (if di == p then count k ks else 0)
  unfolding index_frames
  occurs-index_frames k p t [] = ground arith
  occurs-index_frames k p t (x ∷ ks) =
      ground (arith, occurs-index_frames k p (index_frame di t x) ks, occurs-index_frame k p t x)

pub count-collect :
    (p : ℕ) (s ks : List ℕ)
    → count p (collect s ks) ≡ max (count p s) (bit (not (p == empty_frame) && member p ks))
unfolding collect
count-collect p s [] = ground arith
count-collect p s (k ∷ ks) =
    ground (arith, count-collect p s ks, count-collect p (insert k s) ks, count-insert p k s)
