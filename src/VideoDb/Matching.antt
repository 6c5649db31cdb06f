-- ===== src/VideoDb/Matching.antt =====
-- Which items `get_candidates1` finds, whatever the order of the hash sets.
use video_match.Base.{
  ℕ, ◌≡◌, refl, Bool, true, false, ◌&&◌, not, List, [], ◌∷◌, ◌++◌, none, some, ◌==◌, ==_iff,
  ==_refl, if◌then◌else◌, length, count, any_of, any_of-count_if, member, arith, max, Bool-cases,
  Option-cases, inl, inr, append_assoc, append-nil, ℤ, ◌∙◌,
}
use video_match.VideoDb.Index.{to_int}
use video_match.VideoDb.Sets.{insert, insert_all, count-insert, any_of-insert_all, bit}
use video_match.VideoDb.Blocks.{block, occurs}
use video_match.VideoDb.Valid.{IsValid, registered, indexed, registered-Entry}
use video_match.VideoDb.Candidates.{
  scan_block, scan_frame, scan_frames, too_different, select, get_candidates1,
}
use video_match.VideoDb.Walks.{any_of-arrange}
use video_match.VideoDb.References.{take_ref, take_refs, set-modify, item_at-modify}
use video_match.VideoDb.{
  empty_frame, DataItem, Heap, item_at, KeyBlock, Table, VideoDb, key_shorten, find_block, inc_ref,
  Orders,
}

count-scan_block :
    (p k : ℕ) (kb : KeyBlock) (s : List ℕ)
    → count p (scan_block k kb s) ≡ max (count p s) (bit (not (occurs k p kb == 0)))
unfolding scan_block
count-scan_block p k [] s = ground arith
count-scan_block p k (e ∷ kb) s =
    ground (
      arith,
      count-scan_block p k kb s,
      count-scan_block p k kb (insert e.1 s),
      count-insert p e.1 s,
    )

-- A frame of the query leads to an item if it is not empty and its block has it for the item.
abbrev leads : Table → ℕ → ℕ → Bool
leads t p k = not (k == empty_frame) && not (occurs k p (block (key_shorten k) t) == 0)

count-scan_frame :
    (t : Table) (p k : ℕ) (s : List ℕ)
    → count p (scan_frame t k s) ≡ max (count p s) (bit (leads t p k))
unfolding scan_frame
count-scan_frame t p k s = elim (Option-cases (find_block (key_shorten k) t)) [
  | inl e ↦ ground (arith, e)
  | inr (kb, e) ↦ ground (arith, e, count-scan_block p k kb s)
]

count-scan_frames :
    (t : Table) (p : ℕ) (ks s : List ℕ)
    → count p (scan_frames t ks s) ≡ max (count p s) (bit (any_of (leads t p) ks))
unfolding scan_frames
count-scan_frames t p [] s = omega arith
count-scan_frames t p (k ∷ ks) s =
    ground (arith, count-scan_frames t p ks (scan_frame t k s), count-scan_frame t p k s)

-- The item is a video with a non-empty frame among those of the query.
abbrev pub shares : VideoDb → List ℕ → ℕ → Bool
shares v q p = any_of (λ k. indexed v k p) q

pub any_of_ext :
    (f g : ℕ → Bool) → ((k : ℕ) → f k ≡ g k) → (ks : List ℕ) → any_of f ks ≡ any_of g ks
any_of_ext f g h [] = refl
any_of_ext f g h (k ∷ ks) = ground (arith, h k, any_of_ext f g h ks)

leads-indexed : (v : VideoDb) → IsValid v → (p k : ℕ) → leads v.table p k ≡ indexed v k p
leads-indexed v valid p k = ground (arith, valid.index k p)

-- The set holds each item that shares a frame once, and no other.
pub count-result_set :
    (orders : Orders) (v : VideoDb) (q : List ℕ) (p : ℕ)
    → IsValid v
    → count p (scan_frames v.table (orders.frames.arrange (insert_all [] q)) [])
      ≡ bit (shares v q p)
count-result_set orders v q p valid =
    let unique = insert_all [] q in
    ground (
      arith,
      count-scan_frames v.table p (orders.frames.arrange unique) [],
      any_of-arrange orders.frames (leads v.table p) unique,
      any_of-insert_all (leads v.table p) [] q,
      any_of_ext (leads v.table p) (λ k. indexed v k p) (leads-indexed v valid p) q,
    )

-- The items that the loop keeps, and the heap after it.
abbrev pub is_near : ℕ → Heap → ℕ → Bool
is_near n h p = elim (item_at h p) [ none ↦ false | some i ↦ not (too_different i.uniq_frm_cnt n) ]

abbrev pub keep : ℕ → Heap → List ℕ → List ℕ
keep n h [] = []
keep n h (p ∷ ps) = if is_near n h p then p ∷ keep n h ps else keep n h ps

abbrev IsLive : Heap → ℕ → Type 0
IsLive h p = (i : DataItem) × (item_at h p ≡ some i)

is_near-take_ref : (n p : ℕ) (h : Heap) (q : ℕ) → is_near n (take_ref p h) q ≡ is_near n h q
unfolding inc_ref
is_near-take_ref n p h q = ground (arith, item_at-modify (λ i. some (inc_ref i)) p q h)

keep-take_ref : (n p : ℕ) (h : Heap) (ps : List ℕ) → keep n (take_ref p h) ps ≡ keep n h ps
keep-take_ref n p h [] = refl
keep-take_ref n p h (q ∷ ps) = rw (is_near-take_ref n p h q, keep-take_ref n p h ps) refl

IsLive-take_ref : (p : ℕ) (h : Heap) (q : ℕ) → IsLive h q → IsLive (take_ref p h) q
IsLive-take_ref p h q (i, e) = elim (Bool-cases (p == q)) [
  | inl same ↦ (inc_ref i, rw (item_at-modify (λ i. some (inc_ref i)) p q h, same, e) refl)
  | inr other ↦ (i, rw (item_at-modify (λ i. some (inc_ref i)) p q h, other) e)
]

-- On live items the loop does not fault; it keeps the near ones, in order, with a reference each.
pub select-keep :
    (n : ℕ) (h : Heap) (ps result : List ℕ)
    → ((p : ℕ) → member p ps ≡ true → IsLive h p)
    → select n h ps result ≡ some (take_refs (keep n h ps) h, result ++ keep n h ps)
unfolding select
select-keep n h [] result live = rw append-nil refl
select-keep n h (p ∷ ps) result live =
    let (i, e) = live p (rw (==_refl p) refl) in
    let rest : (q : ℕ) → member q ps ≡ true → IsLive h q = λ q m. live q (ground (arith, m)) in
    elim (Bool-cases (too_different i.uniq_frm_cnt n)) [
      | inl far ↦ ground (arith, e, far, select-keep n h ps result rest)
      | inr near ↦ ground (
        arith,
        e,
        near,
        set-modify (λ j. some (inc_ref j)) p h e,
        select-keep n (take_ref p h) ps (result ++ p ∷ [])
            (λ q m. IsLive-take_ref p h q (rest q m)),
        keep-take_ref n p h ps,
        append_assoc result (p ∷ []) (keep n h ps),
      )
    ]

count-keep :
    (n : ℕ) (h : Heap) (p : ℕ) (ps : List ℕ)
    → count p (keep n h ps) ≡ (if is_near n h p then count p ps else 0)
count-keep n h p [] = ground arith
count-keep n h p (q ∷ ps) = elim (Bool-cases (q == p)) [
  | inl same ↦
      let e : q ≡ p = (==_iff q p).0 same in rw e (ground (arith, count-keep n h p ps, ==_refl p))
  | inr other ↦ ground (arith, count-keep n h p ps)
]

-- An item that shares a frame with some query is a video, and live.
pub shares-registered :
    (v : VideoDb) (q : List ℕ) (p : ℕ) → shares v q p ≡ true → registered p v.db ≡ true
shares-registered v [] p h = absurd (cc)
shares-registered v (k ∷ q) p h = ground (arith, shares-registered v q p)

pub registered-IsLive :
    (v : VideoDb) (p : ℕ) → IsValid v → registered p v.db ≡ true → IsLive v.heap p
registered-IsLive v p valid known =
    let (n, e) = registered-Entry v.heap v.db p valid.entries known in (e.item, e.stored)

pub IsLive-take_refs : (ps : List ℕ) (h : Heap) (q : ℕ) → IsLive h q → IsLive (take_refs ps h) q
IsLive-take_refs [] h q l = l
IsLive-take_refs (p ∷ ps) h q l = IsLive-take_refs ps (take_ref p h) q (IsLive-take_ref p h q l)

-- What `get_candidates1` gives for the query frames `q`.
pub record Finds (orders : Orders) (q : List ℕ) (v : VideoDb) (r : ℤ × List ℕ × VideoDb)
    : Type 0 where
  pub runs : get_candidates1 orders q v ≡ some r
  pub code : r.0 ≡ to_int (length r.1)
  pub found :
      (p : ℕ) → count p r.1 ≡ bit (shares v q p && is_near (length (insert_all [] q)) v.heap p)
  pub taken : r.2 ≡ record v { heap = take_refs r.1 v.heap }

-- On a well-formed database `get_candidates1` does not fault. Its result holds exactly the videos
-- that have a non-empty frame in common with the query and whose number of different frames is
-- near the query's, each once; it takes one reference to each of them and changes nothing else.
pub get_candidates1-Finds :
    (orders : Orders) (q : List ℕ) (v : VideoDb)
    → IsValid v
    → (r : ℤ × List ℕ × VideoDb) × Finds orders q v r
unfolding get_candidates1
get_candidates1-Finds orders q v valid =
    let n = length (insert_all [] q) in
    let found = scan_frames v.table (orders.frames.arrange (insert_all [] q)) [] in
    let ps = orders.items.arrange found in
    let once : (p : ℕ) → count p ps ≡ bit (shares v q p) = λ p.
      orders.items.arrange-count_if (λ x. x == p) found ∙ count-result_set orders v q p valid in
    let live : (p : ℕ) → member p ps ≡ true → IsLive v.heap p = λ p m.
      registered-IsLive v p valid
        (shares-registered v q p (ground (arith, any_of-count_if (λ x. x == p) ps, once p))) in
    (
      (to_int (length (keep n v.heap ps)), keep n v.heap ps, record v { heap = _ }),
      record {
        runs = rw (select-keep n v.heap ps [] live) refl;
        code = refl;
        found = λ p. ground (arith, count-keep n v.heap p ps, once p);
        taken = refl;
      },
    )
