-- ===== src/Query/Loop.antt =====
-- The scoring loop of Query: what it keeps, and that the references that were taken are given back.
use video_match.Base.{
  ℕ, zero, suc, ◌≡◌, refl, Bool, true, false, List, [], ◌∷◌, ◌++◌, Option, none, some, ◌==◌,
  if◌then◌else◌, Name, arith, pos, ◌-ℤ◌, Bool-cases, Option-cases, inl, inr, append_assoc,
  append-nil, member, ==_refl, ◌∙◌, ap,
}
use video_match.Score.Floats.{Double}
use video_match.Score.{check_candidate}
use video_match.Query.{Scores, threshold, score_each}
use video_match.VideoDb.References.{
  modify, take_ref, take_refs, drop_ref, drop_refs, Kept, set-modify, item_at-modify,
}
use video_match.VideoDb.{DataItem, Heap, item_at, inc_ref, dec_ref, HashOrder}

-- The name and the frames of the item in a cell.
abbrev pub content_at : Heap → ℕ → Option (Name × List ℕ)
content_at h p = elim (item_at h p) [ none ↦ none | some i ↦ some (i.name, i.frames) ]

content_at-take_ref : (p q : ℕ) (h : Heap) → content_at (take_ref p h) q ≡ content_at h q
unfolding inc_ref
content_at-take_ref p q h = ground (arith, item_at-modify (λ i. some (inc_ref i)) p q h)

pub content_at-take_refs :
    (ps : List ℕ) (q : ℕ) (h : Heap) → content_at (take_refs ps h) q ≡ content_at h q
content_at-take_refs [] q h = refl
content_at-take_refs (p ∷ ps) q h =
    content_at-take_refs ps q (take_ref p h) ∙ content_at-take_ref p q h

Kept-item : (h : Heap) (p : ℕ) {i : DataItem} → Kept h → item_at h p ≡ some i → i.deleted ≡ false
Kept-item [] p k e = absurd (cc)
Kept-item (none ∷ h) zero k e = absurd (cc)
Kept-item (some j ∷ h) zero k e = ground arith
Kept-item (none ∷ h) (suc p) k e = Kept-item h p k e
Kept-item (some j ∷ h) (suc p) k e = Kept-item h p k.1 e

content_at-drop_ref : (p q : ℕ) (h : Heap) → Kept h → content_at (drop_ref p h) q ≡ content_at h q
unfolding dec_ref
content_at-drop_ref p q h k = elim (Option-cases (item_at h q)) [
  | inl e ↦ ground (arith, item_at-modify dec_ref p q h, e)
  | inr (i, e) ↦ ground (arith, item_at-modify dec_ref p q h, e, Kept-item h q k e)
]

IsLive-drop_ref :
    (p q : ℕ) (h : Heap)
    → Kept h
    → (i : DataItem) × (item_at h q ≡ some i)
    → (j : DataItem) × (item_at (drop_ref p h) q ≡ some j)
unfolding dec_ref
IsLive-drop_ref p q h k (i, e) = elim (Bool-cases (p == q)) [
  | inl same ↦ (
    record i { ref = i.ref -ℤ pos 1 },
    ground (arith, item_at-modify dec_ref p q h, e, same, Kept-item h q k e),
  )
  | inr other ↦ (i, ground (arith, item_at-modify dec_ref p q h, e, other))
]

Kept-drop_ref : (p : ℕ) (h : Heap) → Kept h → Kept (drop_ref p h)
unfolding modify dec_ref
Kept-drop_ref p [] k = tt
Kept-drop_ref zero (none ∷ h) k = k
Kept-drop_ref zero (some i ∷ h) k = ground (arith, k.0)
Kept-drop_ref (suc p) (none ∷ h) k = Kept-drop_ref p h k
Kept-drop_ref (suc p) (some i ∷ h) k = (k.0, Kept-drop_ref p h k.1)

module _ (F : Double) (order : HashOrder ℕ) (q : List ℕ) where
  open F use {Num, less}

  -- The score of a stored item against the query, and whether it is above the threshold.
  abbrev pub score_of : List ℕ → Num
  score_of fs = check_candidate F order fs q

  abbrev pub is_hit : List ℕ → Bool
  is_hit fs = less (threshold F) (score_of fs)

  -- What the loop keeps of a list of items.
  abbrev pub hit_of : Option (Name × List ℕ) → Scores F
  hit_of none = []
  hit_of (some (n, fs)) = if is_hit fs then (n, score_of fs) ∷ [] else []

  abbrev pub hits : Heap → List ℕ → Scores F
  hits h [] = []
  hits h (p ∷ ps) = hit_of (content_at h p) ++ hits h ps

  pub hits_ext :
      (h h' : Heap)
      → ((p : ℕ) → content_at h p ≡ content_at h' p)
      → (ps : List ℕ) → hits h ps ≡ hits h' ps
  hits_ext h h' e [] = refl
  hits_ext h h' e (p ∷ ps) = rw (e p, hits_ext h h' e ps) refl

  -- On live items the loop does not fault; it adds the hits, in order, and drops one reference
  -- to each item.
  pub score_each-hits :
      (ps : List ℕ) (h : Heap) (result : Scores F)
      → Kept h
      → ((p : ℕ) → member p ps ≡ true → (i : DataItem) × (item_at h p ≡ some i))
      → score_each F order q ps h result ≡ some (drop_refs ps h, result ++ hits h ps)
  unfolding score_each
  score_each-hits [] h result k live = rw append-nil refl
  score_each-hits (p ∷ ps) h result k live =
      let (i, e) = live p (rw (==_refl p) refl) in
      let h1 = drop_ref p h in
      let live1 : (r : ℕ) → member r ps ≡ true → (j : DataItem) × (item_at h1 r ≡ some j) =
        λ r m. IsLive-drop_ref p r h k (live r (ground (arith, m))) in
      let same = hits_ext h1 h (λ r. content_at-drop_ref p r h k) ps in
      let step = set-modify dec_ref p h e in
      let k1 = Kept-drop_ref p h k in
      elim (Bool-cases (is_hit i.frames)) [
        | inl hit ↦
            let e' : (i.name, score_of i.frames) ∷ hits h ps ≡ hits h (p ∷ ps) =
              ground (arith, e, hit) in
            let next = result ++ (i.name, score_of i.frames) ∷ [] in
            rw (e, hit, step, score_each-hits ps h1 next k1 live1, same, append_assoc)
              (ap (λ l. some (drop_refs ps h1, result ++ l)) e')
        | inr miss ↦
            let e' : hits h ps ≡ hits h (p ∷ ps) = ground (arith, e, miss) in
            rw (e, miss, step, score_each-hits ps h1 result k1 live1, same)
              (ap (λ l. some (drop_refs ps h1, result ++ l)) e')
      ]
