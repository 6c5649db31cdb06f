-- ===== src/VideoDb/References.antt =====
-- Reference counts of the items in a heap: taking and dropping references leaves all else alone.
use video_match.Base.{
  ℕ, zero, suc, ◌≡◌, refl, true, false, List, [], ◌∷◌, ◌++◌, Option, none, some, ap, set, arith,
  pos, ◌==◌, if◌then◌else◌, +ℤ_cancel, Name, Bool, ◌-ℤ◌, ◌∙◌,
}
use video_match.VideoDb.Index.{◌>>=◌}
use video_match.VideoDb.{DataItem, Heap, item_at, inc_ref, dec_ref, destroy}

-- Replace the item in a cell; a freed cell stays as it is.
unfoldable pub modify : (DataItem → Option DataItem) → ℕ → Heap → Heap
modify f p [] = []
modify f zero (c ∷ h) = (c >>= f) ∷ h
modify f (suc p) (c ∷ h) = c ∷ modify f p h

-- `p->inc_ref()` and `p->dec_ref()` through the pointer
abbrev pub take_ref : ℕ → Heap → Heap
take_ref = modify (λ i. some (inc_ref i))

abbrev pub drop_ref : ℕ → Heap → Heap
drop_ref = modify dec_ref

abbrev pub take_refs : List ℕ → Heap → Heap
take_refs [] h = h
take_refs (p ∷ ps) h = take_refs ps (take_ref p h)

abbrev pub drop_refs : List ℕ → Heap → Heap
drop_refs [] h = h
drop_refs (p ∷ ps) h = drop_refs ps (drop_ref p h)

pub set-modify :
    (f : DataItem → Option DataItem) (p : ℕ) (h : Heap) {i : DataItem}
    → item_at h p ≡ some i
    → set h p (f i) ≡ modify f p h
unfolding modify
set-modify f p [] e = refl
set-modify f zero (c ∷ h) e = rw e refl
set-modify f (suc p) (c ∷ h) e = ap (◌∷◌ c) (set-modify f p h e)

pub item_at-modify :
    (f : DataItem → Option DataItem) (p q : ℕ) (h : Heap)
    → item_at (modify f p h) q ≡ (if p == q then item_at h q >>= f else item_at h q)
unfolding modify
item_at-modify f p q [] = ground arith
item_at-modify f zero zero (c ∷ h) = refl
item_at-modify f zero (suc q) (c ∷ h) = ground arith
item_at-modify f (suc p) zero (c ∷ h) = ground arith
item_at-modify f (suc p) (suc q) (c ∷ h) = ground (arith, item_at-modify f p q h)

modify_comm :
    (f : DataItem → Option DataItem) (p q : ℕ) (h : Heap)
    → modify f p (modify f q h) ≡ modify f q (modify f p h)
unfolding modify
modify_comm f p q [] = refl
modify_comm f zero zero (c ∷ h) = refl
modify_comm f zero (suc q) (c ∷ h) = refl
modify_comm f (suc p) zero (c ∷ h) = refl
modify_comm f (suc p) (suc q) (c ∷ h) = ap (◌∷◌ c) (modify_comm f p q h)

-- No item of the heap has been marked for deletion.
abbrev pub Kept : Heap → Type 0
Kept [] = Unit
Kept (none ∷ h) = Kept h
Kept (some i ∷ h) = (i.deleted ≡ false) × Kept h

pub Kept-append : (h : Heap) (i : DataItem) → Kept h → i.deleted ≡ false → Kept (h ++ some i ∷ [])
Kept-append [] i k e = (e, tt)
Kept-append (none ∷ h) i k e = Kept-append h i k e
Kept-append (some j ∷ h) i k e = (k.0, Kept-append h i k.1 e)

dec_ref-inc_ref : (i : DataItem) → i.deleted ≡ false → dec_ref (inc_ref i) ≡ some i
unfolding dec_ref inc_ref
dec_ref-inc_ref i k = ground (arith, +ℤ_cancel i.ref (pos 1))

drop_ref-take_ref : (p : ℕ) (h : Heap) → Kept h → drop_ref p (take_ref p h) ≡ h
unfolding modify
drop_ref-take_ref p [] k = refl
drop_ref-take_ref zero (none ∷ h) k = refl
drop_ref-take_ref zero (some i ∷ h) k = rw (dec_ref-inc_ref i k.0) refl
drop_ref-take_ref (suc p) (none ∷ h) k = ap (◌∷◌ none) (drop_ref-take_ref p h k)
drop_ref-take_ref (suc p) (some i ∷ h) k = ap (◌∷◌ (some i)) (drop_ref-take_ref p h k.1)

Kept-take_ref : (p : ℕ) (h : Heap) → Kept h → Kept (take_ref p h)
unfolding modify inc_ref
Kept-take_ref p [] k = tt
Kept-take_ref zero (none ∷ h) k = k
Kept-take_ref zero (some i ∷ h) k = k
Kept-take_ref (suc p) (none ∷ h) k = Kept-take_ref p h k
Kept-take_ref (suc p) (some i ∷ h) k = (k.0, Kept-take_ref p h k.1)

pub Kept-take_refs : (ps : List ℕ) (h : Heap) → Kept h → Kept (take_refs ps h)
Kept-take_refs [] h k = k
Kept-take_refs (p ∷ ps) h k = Kept-take_refs ps (take_ref p h) (Kept-take_ref p h k)

take_refs-take_ref :
    (p : ℕ) (ps : List ℕ) (h : Heap) → take_refs ps (take_ref p h) ≡ take_ref p (take_refs ps h)
take_refs-take_ref p [] h = refl
take_refs-take_ref p (q ∷ ps) h =
    rw (modify_comm (λ i. some (inc_ref i)) q p h) (take_refs-take_ref p ps (take_ref q h))

-- Dropping the references that were taken gives the heap back, and frees nothing.
pub drop_refs-take_refs : (ps : List ℕ) (h : Heap) → Kept h → drop_refs ps (take_refs ps h) ≡ h
drop_refs-take_refs [] h k = refl
drop_refs-take_refs (p ∷ ps) h k =
    rw (take_refs-take_ref p ps h, drop_ref-take_ref p (take_refs ps h) (Kept-take_refs ps h k))
      (drop_refs-take_refs ps h k)

-- The references that are held are given back.
abbrev drops : ℕ → DataItem → Option DataItem
drops zero d = some d
drops (suc n) d = dec_ref d >>= drops n

-- An item with the mark that is still held.
abbrev marked : ℕ → ℕ → Name → List ℕ → DataItem
marked held count n fs = record {
  uniq_frm_cnt = count;
  name = n;
  frames = fs;
  ref = pos held;
  deleted = true;
}

dec_ref-marked :
    (held count : ℕ) (n : Name) (fs : List ℕ)
    → dec_ref (marked (suc (suc held)) count n fs) ≡ some (marked (suc held) count n fs)
unfolding dec_ref ◌-ℤ◌
dec_ref-marked held count n fs = ground arith

-- It is freed by the last of those that hold it.
drops-marked :
    (held count : ℕ) (n : Name) (fs : List ℕ)
    → drops (suc held) (marked (suc held) count n fs) ≡ none
unfolding dec_ref ◌-ℤ◌
drops-marked zero count n fs = refl
drops-marked (suc held) count n fs =
    ap (λ o. o >>= drops (suc held)) (dec_ref-marked held count n fs) ∙ drops-marked held count n fs

-- An item that is destroyed while references are held is freed by the last of them.
drops-destroy :
    (held count : ℕ) (n : Name) (fs : List ℕ) (deleted : Bool)
    → (destroy (record {
      uniq_frm_cnt = count;
      name = n;
      frames = fs;
      ref = pos (suc held);
      deleted = deleted;
    })
        >>= drops (suc held))
      ≡ none
unfolding destroy
drops-destroy held count n fs deleted =
    let e : (suc held == 0) ≡ false = ground arith in rw e (drops-marked held count n fs)
