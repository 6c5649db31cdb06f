-- ===== src/Cache/Moves.antt =====
-- "Move To Front" in `VideoManager::Lookup` of browse_server/main.cpp: the writes to the links.
use video_match.Base.{
  ℕ, ◌+◌, ◌≤◌, ◌≡◌, List, [], ◌∷◌, ◌++◌, Option, none, some, ==_refl, arith, ◌∙◌, count, set,
}
use video_match.Cache.Chain.{
  Cell, item_of, places, first_or, last_or, Links, Links-SameAt, SameAt-set, SameAt-trans,
  item_at-lt, item_at-set, Outside, Links-append, Links-split, last_or-append, count-places_append,
}
use video_match.Cache.Writes.{
  Ends, empty, snoc, split_end, set_prev-Links, set_next-Links, set_prev-item, set_next-item,
}
use video_match.Cache.{Heap, item_at, set_prev, set_next, if_there}

-- Two stretches have no place in common, and none twice.
unfoldable pub Disjoint : List Cell → List Cell → Type 0
Disjoint cs ds = (q : ℕ) → count q (places cs) + count q (places ds) ≤ 1

first_Outside : (cs ds : List Cell) → Disjoint cs ds → Outside (first_or none cs) ds
unfolding Disjoint
first_Outside [] ds a = tt
first_Outside (c ∷ cs) ds a = ground (arith, a c.place, ==_refl c.place)

last-Ends-Outside :
    {cs : List Cell} → Ends cs → (ds : List Cell) → Disjoint cs ds → Outside (last_or none cs) ds
unfolding Disjoint
last-Ends-Outside empty ds a = tt
last-Ends-Outside (snoc cs c) ds a =
    let alone : count c.place (places ds) ≡ 0 =
      ground (arith, a c.place, ==_refl c.place, count-places_append c.place cs (c ∷ [])) in
    rw (last_or-append none cs (c ∷ [])) alone

last_Outside : (cs ds : List Cell) → Disjoint cs ds → Outside (last_or none cs) ds
last_Outside cs ds a = last-Ends-Outside (split_end cs) ds a

-- The part of the writes between the cells `ls` and `rs` around `c`: it joins the two stretches
-- and makes `c` the first cell.
pub relinked :
    (h : Heap) (ls rs : List Cell) (c : Cell)
    → Disjoint ls rs
    → Disjoint ls (c ∷ [])
    → Disjoint rs (c ∷ [])
    → Links h none (ls ++ c ∷ rs) none
    → (g : Heap) × (k : Heap) × (if_there set_prev (first_or none rs) (last_or none ls) h ≡ some g)
      × (if_there set_next (last_or none ls) (first_or none rs) g ≡ some k)
      × Links k none (ls ++ rs) none
      × (item_at k c.place ≡ some (item_of c (last_or none ls) (first_or none rs)))
unfolding Disjoint
relinked h ls rs c d dl dr l =
    let (left, right) = Links-split h none none ls (c ∷ rs) l in
    let (g, wrote, linked, kept) =
      set_prev-Links h (some c.place) none (last_or none ls) rs (λ q. omega (arith, d q)) right.1 in
    let swapped : Disjoint rs ls = λ q. omega (arith, d q) in
    let left_g =
      Links-SameAt h g none (some c.place) ls (kept.1 ls (first_Outside rs ls swapped)) left in
    let (k, wrote', linked', kept') =
      set_next-Links g none (some c.place) (first_or none rs) ls (λ q. omega (arith, d q)) left_g in
    let right_k =
      Links-SameAt g k (last_or none ls) none rs (kept'.1 rs (last_Outside ls rs d)) linked in
    (
      g,
      k,
      wrote,
      wrote',
      Links-append k none none ls rs linked' right_k,
      (kept'.1 (c ∷ []) (last_Outside ls (c ∷ []) dl)).0
          ∙ (kept.1 (c ∷ []) (first_Outside rs (c ∷ []) dr)).0
          ∙ right.0,
    )

-- `c` is put before the other cells.
pub put_first :
    (k : Heap) (c : Cell) (p n : Option ℕ) (q : ℕ) (cs : List Cell)
    → Disjoint cs (c ∷ [])
    → Links k none cs none
    → first_or none cs ≡ some q
    → item_at k c.place ≡ some (item_of c p n)
    → (k1 k2 k3 : Heap) × (set_prev c.place none k ≡ some k1)
      × (set_next c.place (some q) k1 ≡ some k2)
      × (set_prev q (some c.place) k2 ≡ some k3)
      × Links k3 none (c ∷ cs) none
unfolding Disjoint
put_first k c p n q cs d l first at_c =
    let lt = item_at-lt k c.place at_c in
    let alone : count c.place (places cs) ≡ 0 = ground (arith, d c.place, ==_refl c.place) in
    let k1 = set k c.place (some (item_of c none n)) in
    let at_1 : item_at k1 c.place ≡ some (item_of c none n) = item_at-set k c.place _ lt in
    let lt1 = item_at-lt k1 c.place at_1 in
    let k2 = set k1 c.place (some (item_of c none (some q))) in
    let at_2 : item_at k2 c.place ≡ some (item_of c none (some q)) = item_at-set k1 c.place _ lt1 in
    let l2 =
      Links-SameAt k k2 none none cs
        (SameAt-trans cs k k1 k2 (SameAt-set k c.place _ cs lt alone)
          (SameAt-set k1 c.place _ cs lt1 alone))
        l in
    let (k3, wrote, linked, kept) =
      set_prev-Links k2 none none (some c.place) cs (λ x. omega (arith, d x)) l2 in
    (
      k1,
      k2,
      k3,
      set_prev-item k c p n none at_c,
      set_next-item k1 c none n (some q) at_1,
      rw first at wrote,
      (rw first ((kept.1 (c ∷ []) (first_Outside cs (c ∷ []) d)).0 ∙ at_2), linked),
    )
