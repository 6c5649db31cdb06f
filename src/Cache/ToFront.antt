-- ===== src/Cache/ToFront.antt =====
-- "Move To Front" in `VideoManager::Lookup` of browse_server/main.cpp: what it does to the cache.
use video_match.Base.{
  append-nil, ℕ, ◌≡◌, refl, false, List, [], ◌∷◌, ◌++◌, Option, none, some, ◌==◌, ==_refl,
  if◌then◌else◌, arith, ◌∙◌, ap, sym, Name, count, count_if-append,
}
use video_match.Cache.Chain.{
  Cell, item_of, places, first_or, last_or, Links-split, last_or-append, count-places_append,
}
use video_match.Cache.Names.{place_of, has_name, Named}
use video_match.Cache.Holds.{Holds}
use video_match.Cache.Pushing.{last_or_there}
use video_match.Cache.Moves.{Disjoint, relinked, put_first}
use video_match.Cache.{
  Heap, Manager, item_at, set_prev, set_next, if_there, same_ptr, move_to_front,
}

place_of-moved :
    (n : Name) (ls rs : List Cell) (c : Cell)
    → Named (ls ++ c ∷ rs)
    → place_of n (ls ++ c ∷ rs) ≡ place_of n (c ∷ ls ++ rs)
unfolding place_of
place_of-moved n [] rs c a = refl
place_of-moved n (d ∷ ls) rs c a =
    let rest = place_of-moved n ls rs c (λ k. omega (arith, a k)) in
    let once = count_if-append (has_name n) ls (c ∷ rs) in ground (arith, rest, once, a n)

last_or-away :
    (p : ℕ) (r : Cell) (rs : List Cell)
    → count p (places (r ∷ rs)) ≡ 0
    → same_ptr (some p) (last_or (some r.place) rs) ≡ false
last_or-away p r [] out = ground (arith, out)
last_or-away p r (s ∷ rs) out = last_or-away p s rs (omega (arith, out))

-- `if (di == tail_) tail_ = di->prev_;`
tail_moved :
    (l : Cell) (ls rs : List Cell) (c : Cell)
    → count c.place (places rs) ≡ 0
    → (if same_ptr (some c.place) (last_or none (l ∷ ls ++ c ∷ rs))
        then last_or none (l ∷ ls)
        else last_or none (l ∷ ls ++ c ∷ rs))
      ≡ last_or none (l ∷ ls ++ rs)
tail_moved l ls [] c out =
    rw (last_or-append (some l.place) ls (c ∷ []))
      (rw (==_refl c.place) (ap (last_or (some l.place)) (sym (append-nil ls))))
tail_moved l ls (r ∷ rs) c out =
    rw (last_or-append (some l.place) ls (c ∷ r ∷ rs))
      (rw (last_or-away c.place r rs out) (sym (last_or-append (some l.place) ls (r ∷ rs))))

-- The writes, one after the other.
writes_run :
    (m : Manager) (c : Cell) (p n : Option ℕ) (q : ℕ) (g k k1 k2 k3 : Heap)
    → m.head ≡ some q
    → (c.place == q) ≡ false
    → item_at m.heap c.place ≡ some (item_of c p n)
    → if_there set_prev n p m.heap ≡ some g
    → if_there set_next p n g ≡ some k
    → set_prev c.place none k ≡ some k1
    → set_next c.place (some q) k1 ≡ some k2
    → set_prev q (some c.place) k2 ≡ some k3
    → move_to_front c.place m
      ≡ some (record m {
        heap = k3;
        head = some c.place;
        tail = elim (if same_ptr (some c.place) m.tail then p else m.tail) [
          | none ↦ some c.place
          | some t ↦ some t
        ];
      })
unfolding move_to_front
writes_run m c p n q g k k1 k2 k3 front away at_c w1 w2 w3 w4 w5 =
    rw front (rw away (rw at_c (rw w1 (rw w2 (rw w3 (rw w4 (rw w5 refl)))))))

-- An item behind the first is moved to the front.
pub move_to_front-Holds :
    (m : Manager) (l : Cell) (ls rs : List Cell) (c : Cell)
    → Holds m (l ∷ ls ++ c ∷ rs)
    → (m' : Manager) × (move_to_front c.place m ≡ some m')
      × Holds m' (c ∷ l ∷ ls ++ rs)
      × (m'.cache_size ≡ m.cache_size)
      × (m'.raw_path ≡ m.raw_path)
unfolding Disjoint
move_to_front-Holds m l ls rs c v =
    let apart = λ (q : ℕ). count-places_append q (l ∷ ls) (c ∷ rs) in
    let once = λ (q : ℕ). v.apart q in
    let d : Disjoint (l ∷ ls) rs = λ q. omega (arith, once q, apart q) in
    let dl : Disjoint (l ∷ ls) (c ∷ []) = λ q. omega (arith, once q, apart q) in
    let dr : Disjoint rs (c ∷ []) = λ q. omega (arith, once q, apart q) in
    let dc : Disjoint (l ∷ ls ++ rs) (c ∷ []) =
      λ q. omega (arith, once q, apart q, count-places_append q (l ∷ ls) rs) in
    let (g, k, w1, w2, linked, at_c) = relinked m.heap (l ∷ ls) rs c d dl dr v.linked in
    let (k1, k2, k3, w3, w4, w5, linked') =
      put_first k c (last_or none (l ∷ ls)) (first_or none rs) l.place (l ∷ ls ++ rs) dc linked refl
        at_c in
    let out : count c.place (places rs) ≡ 0 = ground (arith, dr c.place, ==_refl c.place) in
    let away : (c.place == l.place) ≡ false = ground (arith, dl l.place) in
    let at_m : item_at m.heap c.place
        ≡ some (item_of c (last_or none (l ∷ ls)) (first_or none rs)) =
      (Links-split m.heap none none (l ∷ ls) (c ∷ rs) v.linked).1.0 in
    (
      record m {
        heap = k3;
        head = some c.place;
        tail = elim (if same_ptr (some c.place) m.tail then last_or none (l ∷ ls) else m.tail) [
          | none ↦ some c.place
          | some t ↦ some t
        ];
      },
      writes_run m c _ _ l.place g k k1 k2 k3 v.head_first away at_m w1 w2 w3 w4 w5,
      record {
        head_first = refl;
        tail_last =
            rw v.tail_last
              (rw (tail_moved l ls rs c out) (last_or_there l.place c.place (ls ++ rs)));
        linked = linked';
        apart = λ q. omega (arith, once q, apart q, count-places_append q (l ∷ ls) rs);
        named = λ n. omega (
          arith,
          v.named n,
          count_if-append (has_name n) (l ∷ ls) rs,
          count_if-append (has_name n) (l ∷ ls) (c ∷ rs),
        );
        unique = v.unique;
        found = λ n. v.found n ∙ place_of-moved n (l ∷ ls) rs c v.named;
      },
      refl,
      refl,
    )
