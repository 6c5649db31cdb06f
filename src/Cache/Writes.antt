-- ===== src/Cache/Writes.antt =====
-- Writes to the links of the list of `VideoManager`: the first cell of a stretch gets another
-- predecessor, or the last one another successor.
use video_match.Base.{
  ℕ, ◌≡◌, refl, List, [], ◌∷◌, ◌++◌, Option, none, some, ==_refl, count, set, arith,
}
use video_match.Cache.Chain.{
  Cell, item_of, places, first_or, last_or, Links, last_or-append, Links-append, Links-split,
  Links-SameAt, SameAt-set, SameAt-refl, item_at-lt, item_at-set, Wrote, Wrote-set, Apart,
  count-places_append,
}
use video_match.Cache.{Heap, item_at, set_prev, set_next, if_there}

-- `p->prev_ = q` and `p->next_ = q` at an item that is there.
pub set_prev-item :
    (h : Heap) (c : Cell) (p n q : Option ℕ)
    → item_at h c.place ≡ some (item_of c p n)
    → set_prev c.place q h ≡ some (set h c.place (some (item_of c q n)))
unfolding set_prev
set_prev-item h c p n q e = rw e refl

pub set_next-item :
    (h : Heap) (c : Cell) (p n q : Option ℕ)
    → item_at h c.place ≡ some (item_of c p n)
    → set_next c.place q h ≡ some (set h c.place (some (item_of c p q)))
unfolding set_next
set_next-item h c p n q e = rw e refl

-- The first cell of a stretch gets another predecessor.
pub set_prev-Links :
    (h : Heap) (before after q : Option ℕ) (cs : List Cell)
    → Apart cs
    → Links h before cs after
    → (g : Heap) × (if_there set_prev (first_or none cs) q h ≡ some g)
      × Links g q cs after
      × Wrote h (first_or none cs) g
set_prev-Links h before after q [] a l = (h, refl, tt, (refl, λ cs out. SameAt-refl cs h))
set_prev-Links h before after q (c ∷ cs) a l =
    let lt = item_at-lt h c.place l.0 in
    let i = item_of c q (first_or after cs) in
    let alone : count c.place (places cs) ≡ 0 = ground (arith, a c.place, ==_refl c.place) in
    (
      set h c.place (some i),
      set_prev-item h c before (first_or after cs) q l.0,
      (
        item_at-set h c.place (some i) lt,
        Links-SameAt h (set h c.place (some i)) (some c.place) after cs
            (SameAt-set h c.place (some i) cs lt alone) l.1,
      ),
      Wrote-set h c.place (some i) lt,
    )

set_next_snoc :
    (h : Heap) (before after q : Option ℕ) (bs : List Cell) (c : Cell)
    → Apart (bs ++ c ∷ [])
    → Links h before (bs ++ c ∷ []) after
    → (g : Heap) × (set_next c.place q h ≡ some g)
      × Links g before (bs ++ c ∷ []) q
      × Wrote h (some c.place) g
set_next_snoc h before after q bs c a l =
    let (left, right) = Links-split h before after bs (c ∷ []) l in
    let lt = item_at-lt h c.place right.0 in
    let i = item_of c (last_or before bs) q in
    let alone : count c.place (places bs) ≡ 0 =
      ground (arith, a c.place, ==_refl c.place, count-places_append c.place bs (c ∷ [])) in
    let g = set h c.place (some i) in
    (
      g,
      set_next-item h c (last_or before bs) after q right.0,
      Links-append g before q bs (c ∷ [])
          (Links-SameAt h g before (some c.place) bs (SameAt-set h c.place (some i) bs lt alone)
            left)
          (item_at-set h c.place (some i) lt, tt),
      Wrote-set h c.place (some i) lt,
    )

-- A list of cells is empty or has a last one.
pub data Ends : List Cell → Type 0 where
  empty : Ends []
  snoc : (bs : List Cell) (c : Cell) → Ends (bs ++ c ∷ [])

Ends-cons : (c : Cell) {cs : List Cell} → Ends cs → Ends (c ∷ cs)
Ends-cons c empty = snoc [] c
Ends-cons c (snoc bs d) = snoc (c ∷ bs) d

pub split_end : (cs : List Cell) → Ends cs
split_end [] = empty
split_end (c ∷ cs) = Ends-cons c (split_end cs)

-- The last cell of a stretch gets another successor.
set_next-Ends :
    (h : Heap) (before after q : Option ℕ) {cs : List Cell}
    → Ends cs
    → Apart cs
    → Links h before cs after
    → (g : Heap) × (if_there set_next (last_or none cs) q h ≡ some g)
      × Links g before cs q
      × Wrote h (last_or none cs) g
set_next-Ends h before after q empty a l = (h, refl, tt, (refl, λ cs out. SameAt-refl cs h))
set_next-Ends h before after q (snoc bs c) a l =
    rw (last_or-append none bs (c ∷ [])) (set_next_snoc h before after q bs c a l)

pub set_next-Links :
    (h : Heap) (before after q : Option ℕ) (cs : List Cell)
    → Apart cs
    → Links h before cs after
    → (g : Heap) × (if_there set_next (last_or none cs) q h ≡ some g)
      × Links g before cs q
      × Wrote h (last_or none cs) g
set_next-Links h before after q cs a l = set_next-Ends h before after q (split_end cs) a l
